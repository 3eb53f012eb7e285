-- ===== src/BufferPool/Fetch.antt =====
-- src/buffer_pool.cpp: FetchPage keeps the pool's invariant and every pinned page, and pins the page asked
-- for.
use toy_relational_database.Prelude.{
  ==_refl, Bool-cases, Option, Option-cases, ap, arith, false, get_elem?, get_elem?-set_ne,
  get_elem?-set_self, inl, inr, none, refl, set, some, subst, sym, ℕ, ◌+◌, ◌==◌, ◌∙◌, ◌≡◌, ◌≢◌, ◌≤◌,
}
use toy_relational_database.Errors.{Result, ok, throw}
use toy_relational_database.Page.{Page}
use toy_relational_database.Disk.{read_page}
use toy_relational_database.BufferPool.{
  Frame, BufferPool, Pooled, find_frame, touch_lru, load_frame, find_victim_frame, fetch_read,
  fetch_into, fetch_at, fetch_page,
}
use toy_relational_database.BufferPool.Table.{Valid, Vacant, InList-remove, get_elem?-some_lt}
use toy_relational_database.BufferPool.Victim.{Searched, find_victim_frame-Searched}

-- A pinned frame still has its page, its bytes and its pins.
abbrev pub PinsKept : BufferPool → BufferPool → Type 0
PinsKept pool pool' =
    (g : ℕ) (x : Frame)
    → get_elem? pool.frames g ≡ some x
    → x.pin_count ≢ 0
    → (y : Frame) × (get_elem? pool'.frames g ≡ some y)
      × y.page ≡ x.page
      × y.page_id ≡ x.page_id
      × x.pin_count ≤ y.pin_count

-- The frame has the page, and is pinned.
abbrev pub HoldsPage : BufferPool → ℕ → ℕ → Type 0
HoldsPage pool p f =
    (frame : Frame) × (get_elem? pool.frames f ≡ some frame)
    × frame.page_id ≡ p
    × 1 ≤ frame.pin_count
    × find_frame pool.page_table p ≡ some f

pub load_frame-Valid :
    (pool : BufferPool) (f : ℕ) (frame : Frame)
    → Vacant pool f
    → find_frame pool.page_table frame.page_id ≡ none
    → Valid (load_frame pool f frame)
unfolding load_frame touch_lru find_frame
load_frame-Valid pool f frame v fresh = record {
  in_table = λ p g h. elim (Bool-cases (frame.page_id == p)) [
    | inl e ↦
        let same : f ≡ g = cc (rw e at h) in
        (frame, rw⁻¹ same here, (let q = e in ground (arith, q)))
    | inr e ↦
        let before : find_frame pool.page_table p ≡ some g = rw e at h in
        let old = v.valid.in_table p g before in
        (old.0, get_elem?-set_ne pool.frames frame (λ s. v.out p (rw s before)) ∙ old.1, old.2)
  ];
  in_lru = λ g i. elim i [
    | inl e ↦ (frame, rw e here, rw (==_refl frame.page_id, e) refl)
    | inr m ↦
        let kept = InList-remove f g pool.lru_list m in
        let old = v.valid.in_lru g kept.1 in
        let no : frame.page_id ≢ old.0.page_id = (λ s. cc (fresh, old.2, s)) in
        let apart : (frame.page_id == old.0.page_id) ≡ false = ground (arith, no) in
        (old.0, get_elem?-set_ne pool.frames frame (λ s. kept.0 (sym s)) ∙ old.1, rw apart old.2)
  ];
  in_free = λ g i.
      let old = v.valid.in_free g i in
      let apart : f ≢ g = (λ s. v.not_free (rw s i)) in
      (
        old.0,
        get_elem?-set_ne pool.frames frame apart ∙ old.1,
        old.2,
        λ p h. elim (Bool-cases (frame.page_id == p)) [
          | inl e ↦ apart (cc (rw e at h))
          | inr e ↦ old.3 p (rw e at h)
        ],
      );
  free_once = v.valid.free_once;
}
  where
    here : get_elem? (set pool.frames f frame) f ≡ some frame
    here = get_elem?-set_self pool.frames f frame v.there

-- What FetchPage leaves.
pub record Fetched (pool : BufferPool) (p : ℕ) (got : Pooled (Option ℕ)) : Type 0 where
  pub valid : Valid got.pool
  pub pinned : PinsKept pool got.pool
  pub holds : (f : ℕ) → got.result ≡ ok (some f) → HoldsPage got.pool p f

unloaded-Fetched :
    (pool : BufferPool) (p : ℕ) (found : Pooled (Option ℕ)) (result : Result (Option ℕ))
    → Searched pool found
    → ((f : ℕ) → result ≢ ok (some f))
    → Fetched pool p (record { result = result; pool = found.pool })
unloaded-Fetched pool p found result s never = record {
  valid = s.valid;
  pinned = λ g x h n. (x, s.pinned g x h n, refl, refl, omega arith);
  holds = λ f h. elim (never f h) [ ];
}

-- The frame that has been loaded was not pinned.
pub load_frame-Pins :
    (pool pool' : BufferPool) (f : ℕ) (frame : Frame)
    → Searched pool (record { result = ok (some f); pool = pool' })
    → PinsKept pool (load_frame pool' f frame)
unfolding load_frame
load_frame-Pins pool pool' f frame s g x h n =
    let free = s.unpinned f refl in
    let apart : f ≢ g =
      (λ same. let one : free.0 ≡ x = cc (free.1, h, same) in n (rw one at free.2)) in
    (x, get_elem?-set_ne pool'.frames frame apart ∙ s.pinned g x h n, refl, refl, omega arith)

loaded-Fetched :
    (pool pool' : BufferPool) (p f : ℕ) (page : Page)
    → Searched pool (record { result = ok (some f); pool = pool' })
    → find_frame pool.page_table p ≡ none
    → Fetched pool p (fetch_read p pool' f (ok page))
unfolding load_frame find_frame
loaded-Fetched pool pool' p f page s absent =
    let vacant = s.vacant f refl in
    let loaded : Frame = record { page = page; page_id = p; pin_count = 1; dirty = false } in
    record {
      valid = load_frame-Valid pool' f loaded vacant (s.missing p absent);
      pinned = load_frame-Pins pool pool' f loaded s;
      holds = λ g h.
          let same : f ≡ g = cc in
          rw⁻¹ same (
            loaded,
            get_elem?-set_self pool'.frames f loaded vacant.there,
            refl,
            omega arith,
            rw (==_refl p) refl,
          );
    }

fetch_into-Fetched :
    (pool pool' : BufferPool) (p : ℕ) (result : Result (Option ℕ))
    → Searched pool (record { result = result; pool = pool' })
    → find_frame pool.page_table p ≡ none
    → Fetched pool p (fetch_into p pool' result)
fetch_into-Fetched pool pool' p (throw exception) s absent =
    unloaded-Fetched pool p (record { result = throw exception; pool = pool' }) (throw exception) s
      (λ f. λ h. cc)
fetch_into-Fetched pool pool' p (ok none) s absent =
    unloaded-Fetched pool p (record { result = ok none; pool = pool' }) (ok none) s (λ f. λ h. cc)
fetch_into-Fetched pool pool' p (ok (some f)) s absent = by_read (read_page pool'.disk p)
  where
    by_read : (read : Result Page) → Fetched pool p (fetch_read p pool' f read)
    by_read (throw exception) =
        unloaded-Fetched pool p (record { result = ok (some f); pool = pool' }) (throw exception) s
          (λ g. λ h. cc)
    by_read (ok page) = loaded-Fetched pool pool' p f page s absent

cached-Fetched :
    (written : ℕ) (pool : BufferPool) (p f : ℕ)
    → Valid pool
    → find_frame pool.page_table p ≡ some f
    → Fetched pool p (fetch_at written pool p (some f))
unfolding touch_lru
cached-Fetched written pool p f v found = rw old.1 record {
  valid = record {
    in_table = λ q g h.
        let before = v.in_table q g h in
        let now = frame_at g before.0 before.1 in (now.0, now.1, now.3 ∙ before.2);
    in_lru = λ g i. elim i [
      | inl e ↦ (more, rw e here, ap (find_frame pool.page_table) old.2 ∙ found ∙ ap some (sym e))
      | inr m ↦
          let before = v.in_lru g (InList-remove f g pool.lru_list m).1 in
          let now = frame_at g before.0 before.1 in
          (now.0, now.1, ap (find_frame pool.page_table) now.3 ∙ before.2)
    ];
    in_free = λ g i.
        let before = v.in_free g i in
        let apart : f ≢ g = (λ s. before.3 p (found ∙ ap some s)) in
        (before.0, get_elem?-set_ne pool.frames more apart ∙ before.1, before.2, before.3);
    free_once = v.free_once;
  };
  pinned = λ g x h n. frame_at g x h;
  holds = λ g h. let same : f ≡ g = cc in rw⁻¹ same (more, here, old.2, omega arith, found);
}
  where
    old : (frame : Frame) × (get_elem? pool.frames f ≡ some frame) × frame.page_id ≡ p
    old = v.in_table p f found

    more : Frame
    more = record old.0 { pin_count = old.0.pin_count + 1 }

    here : get_elem? (set pool.frames f more) f ≡ some more
    here = get_elem?-set_self pool.frames f more (get_elem?-some_lt pool.frames f old.0 old.1)

    frame_at :
        (g : ℕ) (x : Frame)
        → get_elem? pool.frames g ≡ some x
        → (y : Frame) × (get_elem? (set pool.frames f more) g ≡ some y)
          × y.page ≡ x.page
          × y.page_id ≡ x.page_id
          × x.pin_count ≤ y.pin_count
    frame_at g x h = elim (Bool-cases (f == g)) [
      | inl e ↦
          let same : f ≡ g = ground arith in
          let one : old.0 ≡ x = cc (old.1, h, same) in
          (
            more,
            rw⁻¹ same here,
            ap (λ (y : Frame). y.page) one,
            ap (λ (y : Frame). y.page_id) one,
            subst (λ (y : Frame). y.pin_count ≤ old.0.pin_count + 1) one (omega arith),
          )
      | inr e ↦
          (x, get_elem?-set_ne pool.frames more (ground (arith, e)) ∙ h, refl, refl, omega arith)
    ]

-- FetchPage on a pool whose lists agree with its frames leaves such a pool, whatever it answers; every frame
-- that was pinned still has its page, its bytes and at least its pins; and where it answers a frame, the
-- page table leads to that frame, which has the page and is pinned.
pub fetch_page-Fetched :
    (written : ℕ) (pool : BufferPool) (p : ℕ)
    → Valid pool
    → Fetched pool p (fetch_page written pool p)
unfolding fetch_page
fetch_page-Fetched written pool p v = elim (Option-cases (find_frame pool.page_table p)) [
  | inl e ↦
      let found = find_victim_frame written pool in
      rw e (
        fetch_into-Fetched pool found.pool p found.result
          (find_victim_frame-Searched written pool v) e)
  | inr c ↦ rw c.1 (cached-Fetched written pool p c.0 v c.1)
]
