-- ===== src/BufferPool/Unpin.antt =====
-- src/buffer_pool.cpp: UnpinPage logs a dirty page before it lets go of it, and what is written to a frame
-- keeps the pool's invariant.
use toy_relational_database.Prelude.{
  Bool, Bool-cases, Option, [], ap, arith, get_elem?, get_elem?-set_ne, get_elem?-set_self, inl,
  inr, refl, set, some, subst, sym, true, ℕ, ◌++◌, ◌-◌, ◌==◌, ◌∙◌, ◌∷◌, ◌≡◌, ◌≢◌,
}
use toy_relational_database.Errors.{
  Result, ok, throw, Error, io_error, fsync_failed, short_write, ◌>>=◌,
}
use toy_relational_database.Page.{Page}
use toy_relational_database.Disk.{DiskManager}
use toy_relational_database.Wal.{WalManager, Appended, append_record, wal_record_size}
use toy_relational_database.BufferPool.{Frame, BufferPool, Pooled, find_frame}
use toy_relational_database.BufferPool.Release.{
  log_frame, unpin_frame, unpin_logged, unpin_at, unpin_found, unpin_page,
}
use toy_relational_database.BufferPool.Table.{Valid, get_elem?-some_lt}

-- A frame in the table has changed, but for its page's id.
pub changed-Valid :
    (pool : BufferPool) (f : ℕ) (x y : Frame) (disk : DiskManager) (wal : Option WalManager)
    → Valid pool
    → get_elem? pool.frames f ≡ some x
    → find_frame pool.page_table x.page_id ≡ some f
    → y.page_id ≡ x.page_id
    → Valid (record pool { frames = set pool.frames f y; disk = disk; wal = wal })
changed-Valid pool f x y disk wal v here found same_id = record {
  in_table = λ q g h.
      let before = v.in_table q g h in
      let now = frame_at g before.0 before.1 in (now.0, now.1, now.2 ∙ before.2);
  in_lru = λ g i.
      let before = v.in_lru g i in
      let now = frame_at g before.0 before.1 in
      (now.0, now.1, ap (find_frame pool.page_table) now.2 ∙ before.2);
  in_free = λ g i.
      let before = v.in_free g i in
      let apart : f ≢ g = (λ s. before.3 x.page_id (found ∙ ap some s)) in
      (before.0, get_elem?-set_ne pool.frames y apart ∙ before.1, before.2, before.3);
  free_once = v.free_once;
}
  where
    frame_at :
        (g : ℕ) (z : Frame)
        → get_elem? pool.frames g ≡ some z
        → (w : Frame) × (get_elem? (set pool.frames f y) g ≡ some w) × w.page_id ≡ z.page_id
    frame_at g z h = elim (Bool-cases (f == g)) [
      | inl e ↦
          let same : f ≡ g = ground arith in
          let one : x ≡ z = cc (here, h, same) in
          (
            y,
            rw⁻¹ same (get_elem?-set_self pool.frames f y (get_elem?-some_lt pool.frames f x here)),
            same_id ∙ ap (λ (w : Frame). w.page_id) one,
          )
      | inr e ↦ (z, get_elem?-set_ne pool.frames y (ground (arith, e)) ∙ h, refl)
    ]

-- What UnpinPage of a dirty page leaves, with a log.
pub record Unpinned (pool : BufferPool) (p f : ℕ) (wal : WalManager) (x : Frame)
    (left : Pooled (Unit {0})) : Type 0 where
  pub valid : Valid left.pool
  pub frame : Frame
  pub there : get_elem? left.pool.frames f ≡ some frame
  pub still_dirty : frame.dirty ≡ true
  -- The log ends with the page as it is now.
  pub logged :
      left.result ≡ ok tt
      → (wal' : WalManager) × (left.pool.wal ≡ some wal')
        × (wal'.valid_records
            ≡ wal.valid_records
              ++ record { page_id = p; lsn = wal.next_lsn; page = frame.page } ∷ [])
        × frame.pin_count ≡ x.pin_count - 1
  -- Without the log the pin stays.
  pub refused : (exception : Error) → left.result ≡ throw exception → frame.pin_count ≡ x.pin_count

append_record-ok :
    (written : ℕ) (synced : Bool) (wal : WalManager) (p : ℕ) (page : Page) (lsn : ℕ)
    → (append_record written synced wal p page).result ≡ ok lsn
    → (append_record written synced wal p page).wal.valid_records
      ≡ wal.valid_records
        ++ record {
          page_id = p;
          lsn = wal.next_lsn;
          page = (append_record written synced wal p page).page;
        }
          ∷ []
unfolding append_record
append_record-ok written synced wal p page lsn h = elim (Bool-cases (written == wal_record_size)) [
  | inl e ↦ elim (Bool-cases synced) [
    | inl s ↦ rw (e, s) refl
    | inr s ↦ let never : throw (io_error fsync_failed) ≡ ok lsn = (rw (e, s) at h) in cc
  ]
  | inr e ↦ let never : throw (io_error short_write) ≡ ok lsn = (rw e at h) in cc
]

-- UnpinPage of a dirty page that the pool has, with a log, on a pool whose lists agree with its frames:
-- where it returns, the log ends with a record of
-- the page as it is in the frame from then on, and the frame has one pin less; where the log throws, the pin
-- stays. In both cases the frame is dirty and the pool's lists still agree with its frames.
pub unpin_page-Unpinned :
    (written : ℕ) (synced : Bool) (pool : BufferPool) (p f : ℕ) (wal : WalManager) (x : Frame)
    → Valid pool
    → pool.wal ≡ some wal
    → find_frame pool.page_table p ≡ some f
    → get_elem? pool.frames f ≡ some x
    → Unpinned pool p f wal x (unpin_page written synced pool p true)
unfolding unpin_page
unpin_page-Unpinned written synced pool p f wal x v logs found here =
    subst (λ o. Unpinned pool p f wal x (unpin_found written synced pool p true o)) (sym found)
      (subst (λ o. Unpinned pool p f wal x (unpin_at written synced pool p true f o)) (sym here)
        (subst (λ o. Unpinned pool p f wal x (unpin_logged pool f (log_frame written synced o p x)))
          (sym logs) (by_result a.result refl)))
  where
    a : Appended
    a = append_record written synced wal p x.page

    mapped : find_frame pool.page_table x.page_id ≡ some f
    mapped =
        let old = v.in_table p f found in
        let same : old.0 ≡ x = cc (old.1, here) in
        ap (find_frame pool.page_table) (ap (λ (y : Frame). y.page_id) (sym same) ∙ old.2) ∙ found

    stamped : Frame
    stamped = record x { page = a.page; dirty = true }

    in_place : (y : Frame) → get_elem? (set pool.frames f y) f ≡ some y
    in_place y = get_elem?-set_self pool.frames f y (get_elem?-some_lt pool.frames f x here)

    by_result :
        (r : Result ℕ)
        → a.result ≡ r
        → Unpinned pool p f wal x (record {
          result = r >>= λ lsn. ok tt;
          pool = record pool {
            frames = set pool.frames f (elim (◌>>=◌ {Next = Unit {0}} r (λ lsn. ok tt)) [
              | throw exception ↦ stamped
              | ok u ↦ unpin_frame stamped
            ]);
            wal = some a.wal;
          };
        })
    by_result (throw exception) e = record {
      valid = changed-Valid pool f x stamped pool.disk (some a.wal) v here mapped refl;
      frame = stamped;
      there = in_place stamped;
      still_dirty = refl;
      logged = λ h. cc;
      refused = λ exc h. refl;
    }
    by_result (ok lsn) e = record {
      valid =
          changed-Valid pool f x (unpin_frame stamped) pool.disk (some a.wal) v here mapped refl;
      frame = unpin_frame stamped;
      there = in_place (unpin_frame stamped);
      still_dirty = refl;
      logged = λ h. (a.wal, refl, append_record-ok written synced wal p x.page lsn e, refl);
      refused = λ exc h. cc;
    }
