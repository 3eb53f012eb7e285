-- ===== src/BufferPool/Alloc.antt =====
-- src/buffer_pool.cpp: NewPage keeps the invariant of the pool and every pinned page.
use toy_relational_database.Prelude.{
  ==_refl, Option, ap, arith, get_elem?-set_self, none, refl, some, true, ℕ, ◌%◌, ◌+◌, ◌∙◌, ◌≡◌,
  ◌≢◌,
}
use toy_relational_database.Errors.{Result, ok, throw}
use toy_relational_database.Page.{zero_page}
use toy_relational_database.Disk.{DiskManager, allocate_page}
use toy_relational_database.Words.{le_bytes, write_at}
use toy_relational_database.BufferPool.{
  Frame, BufferPool, Pooled, find_frame, load_frame, find_victim_frame, new_into, new_page,
}
use toy_relational_database.BufferPool.Table.{Valid, Vacant}
use toy_relational_database.BufferPool.Victim.{Searched, find_victim_frame-Searched}
use toy_relational_database.BufferPool.Fetch.{
  PinsKept, HoldsPage, load_frame-Valid, load_frame-Pins,
}

-- What NewPage leaves.
pub record Made (pool : BufferPool) (got : Pooled (Option (ℕ × ℕ))) : Type 0 where
  pub valid : Valid got.pool
  pub pinned : PinsKept pool got.pool
  pub holds :
      (id f : ℕ)
      → got.result ≡ ok (some (id, f))
      → (id ≡ pool.disk.next_page_id)
        × HoldsPage got.pool id f
        × (got.pool.disk.next_page_id ≡ (id + 1) % 4294967296)

no_page-Made :
    (pool pool' : BufferPool) (found : Result (Option ℕ)) (result : Result (Option (ℕ × ℕ)))
    → Searched pool (record { result = found; pool = pool' })
    → ((r : ℕ × ℕ) → result ≢ ok (some r))
    → Made pool (record { result = result; pool = pool' })
no_page-Made pool pool' found result s never = record {
  valid = s.valid;
  pinned = λ g x h n. (x, s.pinned g x h n, refl, refl, omega arith);
  holds = λ id f h. elim (never (id, f) h) [ ];
}

-- The invariant does not read the disk.
Vacant-disk :
    (pool : BufferPool) (f : ℕ) (disk : DiskManager)
    → Vacant pool f
    → Vacant (record pool { disk = disk }) f
Vacant-disk pool f disk v = record {
  valid = record {
    in_table = v.valid.in_table;
    in_lru = v.valid.in_lru;
    in_free = v.valid.in_free;
    free_once = v.valid.free_once;
  };
  there = v.there;
  out = v.out;
  not_free = v.not_free;
}

loaded_page-Made :
    (pool pool' : BufferPool) (f : ℕ)
    → Searched pool (record { result = ok (some f); pool = pool' })
    → find_frame pool.page_table pool.disk.next_page_id ≡ none
    → Made pool (new_into pool' (ok (some f)))
unfolding load_frame find_frame allocate_page
loaded_page-Made pool pool' f s absent =
    let vacant = s.vacant f refl in
    let id = pool'.disk.next_page_id in
    let allocated = allocate_page pool'.disk in
    let made : Frame = record {
      page = write_at zero_page 0 (le_bytes 4 id);
      page_id = id;
      pin_count = 1;
      dirty = true;
    } in
    record {
      valid =
          load_frame-Valid (record pool' { disk = allocated.1 }) f made
            (Vacant-disk pool' f allocated.1 vacant)
            (s.missing id (ap (find_frame pool.page_table) s.same_next ∙ absent));
      pinned = load_frame-Pins pool pool' f made s;
      holds = λ i g h.
          let same_id : id ≡ i = cc in
          let same : f ≡ g = cc in
          rw⁻¹ (same_id, same)
            (
              s.same_next,
              (
                made,
                get_elem?-set_self pool'.frames f made vacant.there,
                refl,
                omega arith,
                rw (==_refl id) refl,
              ),
              refl,
            );
    }

new_into-Made :
    (pool pool' : BufferPool) (result : Result (Option ℕ))
    → Searched pool (record { result = result; pool = pool' })
    → find_frame pool.page_table pool.disk.next_page_id ≡ none
    → Made pool (new_into pool' result)
new_into-Made pool pool' (throw exception) s absent =
    no_page-Made pool pool' (throw exception) (throw exception) s (λ r. λ h. cc)
new_into-Made pool pool' (ok none) s absent =
    no_page-Made pool pool' (ok none) (ok none) s (λ r. λ h. cc)
new_into-Made pool pool' (ok (some f)) s absent = loaded_page-Made pool pool' f s absent

-- NewPage on a pool whose lists agree with its frames, and that does not have the page that the disk hands
-- out next: it leaves such a pool, whatever it answers; every frame that was pinned still has its page, its
-- bytes and at least its pins; and where it answers a page, that is the one the disk was to hand out, in a
-- pinned frame that the page table leads to, and the disk's counter is one further.
pub new_page-Made :
    (written : ℕ) (pool : BufferPool)
    → Valid pool
    → find_frame pool.page_table pool.disk.next_page_id ≡ none
    → Made pool (new_page written pool)
unfolding new_page
new_page-Made written pool v absent =
    let found = find_victim_frame written pool in
    new_into-Made pool found.pool found.result (find_victim_frame-Searched written pool v) absent
