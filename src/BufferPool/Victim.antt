-- ===== src/BufferPool/Victim.antt =====
-- src/buffer_pool.cpp: FindVictimFrame takes no pinned frame, and leaves the one it takes vacant.
use toy_relational_database.Prelude.{
  Bool, Bool-cases, List, Option, Option-cases, [], ap, arith, false, get_elem?, get_elem?-set_ne,
  get_elem?-set_self, if◌then◌else◌, inl, inr, none, refl, set, some, sym, true, ℕ, ◌==◌, ◌∙◌, ◌∷◌,
  ◌≡◌, ◌≢◌,
}
use toy_relational_database.Errors.{Result, ok, throw, Error}
use toy_relational_database.Disk.{DiskManager, Written, write_page}
use toy_relational_database.Page.{Page}
use toy_relational_database.BufferPool.{
  Frame, BufferPool, Pooled, find_frame, erase_page, remove_from_lru, finish_evict, evict, evict_at,
  evict_from, victim_from, find_victim_frame, last_unpinned,
}
use toy_relational_database.BufferPool.Table.{
  InList, Once, Valid, Vacant, find_frame-erase_page, find_frame-erase_none, find_frame-erase_ne,
  InList-remove, last_unpinned_lem, get_elem?-some_lt,
}

next-write_page :
    (written : ℕ) (disk : DiskManager) (p : ℕ) (page : Page)
    → (write_page written disk p page).disk.next_page_id ≡ disk.next_page_id
unfolding write_page
next-write_page written disk p page = elim (Bool-cases (written == 0)) [
  | inl e ↦ rw e refl
  | inr e ↦ rw e refl
]

-- Every pinned frame is as it was.
abbrev pub PinnedKept : BufferPool → BufferPool → Type 0
PinnedKept pool pool' =
    (g : ℕ) (frame : Frame)
    → get_elem? pool.frames g ≡ some frame
    → frame.pin_count ≢ 0
    → get_elem? pool'.frames g ≡ some frame

-- What a search for a frame leaves.
pub record Searched (pool : BufferPool) (found : Pooled (Option ℕ)) : Type 0 where
  pub valid : Valid found.pool
  pub vacant : (f : ℕ) → found.result ≡ ok (some f) → Vacant found.pool f
  pub missing :
      (p : ℕ) → find_frame pool.page_table p ≡ none → find_frame found.pool.page_table p ≡ none
  pub pinned : PinnedKept pool found.pool
  pub same_next : found.pool.disk.next_page_id ≡ pool.disk.next_page_id
  pub unpinned :
      (f : ℕ)
      → found.result ≡ ok (some f)
      → (frame : Frame) × (get_elem? pool.frames f ≡ some frame) × frame.pin_count ≡ 0

free-Searched :
    (written : ℕ) (pool : BufferPool) (f : ℕ) (fs : List ℕ)
    → pool.free_list ≡ f ∷ fs
    → Valid pool
    → Searched pool (record { result = ok (some f); pool = record pool { free_list = fs } })
free-Searched written pool f fs e v =
    let listed : InList f pool.free_list = rw e (inl refl) in
    let old = v.in_free f listed in
    let once : Once (f ∷ fs) = rw e at v.free_once in
    let rest : Valid (record pool { free_list = fs }) = record {
      in_table = v.in_table;
      in_lru = v.in_lru;
      in_free = λ g i. v.in_free g (rw e (inr i));
      free_once = once.1;
    } in
    record {
      valid = rest;
      vacant = λ g h.
          let same : f ≡ g = cc in
          rw⁻¹ same (record {
            valid = rest;
            there = get_elem?-some_lt pool.frames f old.0 old.1;
            out = old.3;
            not_free = once.0;
          });
      missing = λ p h. h;
      pinned = λ g frame h n. h;
      same_next = refl;
      unpinned = λ g h. let same : f ≡ g = cc in rw⁻¹ same (old.0, old.1, old.2);
    }

-- The frame `f` has been taken off the LRU list, and only its page's bytes have changed.
module _ (pool pool' : BufferPool) (f : ℕ) (frame frame' : Frame) (v : Valid pool)
    (here : get_elem? pool.frames f ≡ some frame) (listed : InList f pool.lru_list)
    (others : (g : ℕ) → f ≢ g → get_elem? pool'.frames g ≡ get_elem? pool.frames g)
    (here' : get_elem? pool'.frames f ≡ some frame') (same_page : frame'.page_id ≡ frame.page_id)
    (same_pins : frame'.pin_count ≡ frame.pin_count)
    (lru : pool'.lru_list ≡ remove_from_lru f pool.lru_list)
    (free : pool'.free_list ≡ pool.free_list) where
  mapped : find_frame pool.page_table frame.page_id ≡ some f
  mapped = let l = v.in_lru f listed in let same : l.0 ≡ frame = cc in rw⁻¹ same l.2

  frame_at :
      (g : ℕ) (x : Frame)
      → get_elem? pool.frames g ≡ some x
      → (y : Frame) × (get_elem? pool'.frames g ≡ some y)
        × y.page_id ≡ x.page_id
        × y.pin_count ≡ x.pin_count
  frame_at g x h = elim (Bool-cases (f == g)) [
    | inl e ↦
        let same : f ≡ g = ground arith in
        let one : frame ≡ x = cc (here, h, same) in
        (frame', rw⁻¹ same here', rw⁻¹ one same_page, rw⁻¹ one same_pins)
    | inr e ↦ let apart : f ≢ g = ground arith in (x, others g apart ∙ h, refl, refl)
  ]

  -- The write failed: the page stays in the table.
  kept_Valid : pool'.page_table ≡ pool.page_table → Valid pool'
  kept_Valid table = record {
    in_table = λ p g h.
        let old = v.in_table p g (rw table at h) in
        let new = frame_at g old.0 old.1 in (new.0, new.1, new.2 ∙ old.2);
    in_lru = λ g i.
        let old = v.in_lru g (InList-remove f g pool.lru_list (rw lru at i)).1 in
        let new = frame_at g old.0 old.1 in
        (
          new.0,
          new.1,
          ap (λ (t : List (ℕ × ℕ)). find_frame t new.0.page_id) table
              ∙ ap (find_frame pool.page_table) new.2
              ∙ old.2,
        );
    in_free = λ g i.
        let old = v.in_free g (rw free at i) in
        let new = frame_at g old.0 old.1 in (new.0, new.1, new.3 ∙ old.2, rw table old.3);
    free_once = rw free v.free_once;
  }

  -- The page has been saved, and is out of the table.
  erased_Valid : pool'.page_table ≡ erase_page pool.page_table frame.page_id → Valid pool'
  erased_Valid table = record {
    in_table = λ p g h.
        let old =
          v.in_table p g
            (find_frame-erase_page pool.page_table frame.page_id p g (rw table at h)).1 in
        let new = frame_at g old.0 old.1 in (new.0, new.1, new.2 ∙ old.2);
    in_lru = λ g i.
        let kept = InList-remove f g pool.lru_list (rw lru at i) in
        let old = v.in_lru g kept.1 in
        let new = frame_at g old.0 old.1 in
        let apart : old.0.page_id ≢ frame.page_id = (λ e. kept.0 (cc (rw e at old.2, mapped))) in
        (
          new.0,
          new.1,
          ap (λ (t : List (ℕ × ℕ)). find_frame t new.0.page_id) table
              ∙ ap (find_frame (erase_page pool.page_table frame.page_id)) new.2
              ∙ find_frame-erase_ne pool.page_table frame.page_id old.0.page_id apart
              ∙ old.2,
        );
    in_free = λ g i.
        let old = v.in_free g (rw free at i) in
        let new = frame_at g old.0 old.1 in
        (
          new.0,
          new.1,
          new.3 ∙ old.2,
          (λ p h.
              old.3 p (find_frame-erase_page pool.page_table frame.page_id p g (rw table at h)).1),
        );
    free_once = rw free v.free_once;
  }

  erased_Vacant : pool'.page_table ≡ erase_page pool.page_table frame.page_id → Vacant pool' f
  erased_Vacant table = record {
    valid = erased_Valid table;
    there = get_elem?-some_lt pool'.frames f frame' here';
    out = λ p h.
        let gone = find_frame-erase_page pool.page_table frame.page_id p f (rw table at h) in
        let old = v.in_table p f gone.1 in
        let same : old.0 ≡ frame = cc (old.1, here) in
        gone.0 (sym old.2 ∙ ap (λ (x : Frame). x.page_id) same);
    not_free = λ i. (v.in_free f (rw free at i)).3 frame.page_id mapped;
  }

  idle_kept : frame.pin_count ≡ 0 → PinnedKept pool pool'
  idle_kept idle g x h pinned = elim (Bool-cases (f == g)) [
    | inl e ↦
        let same : f ≡ g = ground arith in
        let one : frame ≡ x = cc (here, h, same) in elim (pinned (rw one at idle)) [ ]
    | inr e ↦ let apart : f ≢ g = ground arith in others g apart ∙ h
  ]

  saved_Searched :
      frame.pin_count ≡ 0
      → pool'.page_table ≡ erase_page pool.page_table frame.page_id
      → pool'.disk.next_page_id ≡ pool.disk.next_page_id
      → Searched pool (record { result = ok (some f); pool = pool' })
  saved_Searched idle table next = record {
    valid = erased_Valid table;
    vacant = λ g h. let same : f ≡ g = cc in rw⁻¹ same (erased_Vacant table);
    missing = λ p h. rw table (find_frame-erase_none pool.page_table frame.page_id p h);
    pinned = idle_kept idle;
    same_next = next;
    unpinned = λ g h. let same : f ≡ g = cc in rw⁻¹ same (frame, here, idle);
  }

  failed_Searched :
      (exception : Error)
      → frame.pin_count ≡ 0
      → pool'.page_table ≡ pool.page_table
      → pool'.disk.next_page_id ≡ pool.disk.next_page_id
      → Searched pool (record { result = throw exception; pool = pool' })
  failed_Searched exception idle table next = record {
    valid = kept_Valid table;
    vacant = λ g h. cc;
    missing = λ p h. rw table h;
    pinned = idle_kept idle;
    same_next = next;
    unpinned = λ g h. cc;
  }

if-Searched :
    (pool : BufferPool) (b : Bool) {x y : Pooled (Option ℕ)}
    → Searched pool x
    → Searched pool y
    → Searched pool (if b then x else y)
if-Searched pool true p q = p
if-Searched pool false p q = q

evict-Searched :
    (written : ℕ) (pool : BufferPool) (f : ℕ) (frame : Frame)
    → Valid pool
    → get_elem? pool.frames f ≡ some frame
    → InList f pool.lru_list
    → frame.pin_count ≡ 0
    → Searched pool (evict written pool f frame)
unfolding evict
evict-Searched written pool f frame v here listed idle =
    if-Searched pool frame.dirty (by_result w.result) (
      saved_Searched pool
        (record pool {
          lru_list = remove_from_lru f pool.lru_list;
          page_table = erase_page pool.page_table frame.page_id;
        })
        f frame frame v here listed (λ g n. refl) here refl refl refl refl idle refl refl)
  where
    w : Written
    w = write_page written pool.disk frame.page_id frame.page

    saved : BufferPool
    saved = record pool {
      lru_list = remove_from_lru f pool.lru_list;
      frames = set pool.frames f (record frame { page = w.page });
      disk = w.disk;
    }

    kept_self : get_elem? saved.frames f ≡ some (record frame { page = w.page })
    kept_self = get_elem?-set_self pool.frames f _ (get_elem?-some_lt pool.frames f frame here)

    next_kept : w.disk.next_page_id ≡ pool.disk.next_page_id
    next_kept = next-write_page written pool.disk frame.page_id frame.page

    by_result : (result : Result (Unit {0})) → Searched pool (finish_evict f frame saved result)
    by_result (ok u) =
        saved_Searched pool (record saved { page_table = erase_page pool.page_table frame.page_id })
          f frame (record frame { page = w.page }) v here listed
          (λ g n. get_elem?-set_ne pool.frames _ n) kept_self refl refl refl refl idle refl
          next_kept
    by_result (throw exception) =
        failed_Searched pool saved f frame (record frame { page = w.page }) v here listed
          (λ g n. get_elem?-set_ne pool.frames _ n) kept_self refl refl refl refl exception idle
          refl next_kept

none-Searched :
    (pool : BufferPool) → Valid pool → Searched pool (record { result = ok none; pool = pool })
none-Searched pool v = record {
  valid = v;
  vacant = λ g h. cc;
  missing = λ p h. h;
  pinned = λ g x h n. h;
  same_next = refl;
  unpinned = λ g h. cc;
}

evict_from-Searched :
    (written : ℕ) (pool : BufferPool)
    → Valid pool
    → Searched pool (evict_from written pool (last_unpinned pool.frames pool.lru_list))
unfolding evict_from evict_at
evict_from-Searched written pool v = elim (Option-cases (last_unpinned pool.frames pool.lru_list)) [
  | inl e ↦ rw e (none-Searched pool v)
  | inr chosen ↦
      let last = last_unpinned_lem pool.frames pool.lru_list chosen.0 chosen.1 in
      let found = v.in_lru chosen.0 last.0 in
      let idle : found.0.pin_count ≡ 0 = (let u = (rw found.1 at last.1) in ground (arith, u)) in
      rw (chosen.1, found.1) (evict-Searched written pool chosen.0 found.0 v found.1 last.0 idle)
]

pub find_victim_frame-Searched :
    (written : ℕ) (pool : BufferPool) → Valid pool → Searched pool (find_victim_frame written pool)
unfolding victim_from
find_victim_frame-Searched written pool v = by_free pool.free_list refl
  where
    by_free :
        (free : List ℕ) → pool.free_list ≡ free → Searched pool (victim_from written pool free)
    by_free [] e = evict_from-Searched written pool v
    by_free (f ∷ fs) e = free-Searched written pool f fs e v
