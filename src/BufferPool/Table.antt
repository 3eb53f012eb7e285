-- ===== src/BufferPool/Table.antt =====
-- src/buffer_pool.cpp: the page table, the free list and the LRU list of a pool agree with its frames.
use toy_relational_database.Prelude.{
  Bool-cases, List, Option-cases, [], arith, false, get_elem?, inl, inr, length, none, refl, some,
  suc, sym, true, zero, ℕ, ◌<◌, ◌==◌, ◌∙◌, ◌∷◌, ◌≡◌, ◌≢◌, ◌⊎◌,
}
use toy_relational_database.BufferPool.{
  Frame, BufferPool, find_frame, erase_page, remove_from_lru, last_unpinned, is_unpinned,
}

abbrev pub InList : ℕ → List ℕ → Type 0
InList f [] = ⊥
InList f (g ∷ gs) = f ≡ g ⊎ InList f gs

abbrev pub Once : List ℕ → Type 0
Once [] = Unit
Once (f ∷ fs) = (InList f fs → ⊥) × Once fs

-- An entry of the page table leads to the frame with that page; a frame that may be evicted is in the table;
-- a free frame is not, and nobody has pinned it.
pub record Valid (pool : BufferPool) : Type 0 where
  pub in_table :
      (p f : ℕ)
      → find_frame pool.page_table p ≡ some f
      → (frame : Frame) × (get_elem? pool.frames f ≡ some frame) × frame.page_id ≡ p
  pub in_lru :
      (f : ℕ)
      → InList f pool.lru_list
      → (frame : Frame) × (get_elem? pool.frames f ≡ some frame)
        × find_frame pool.page_table frame.page_id ≡ some f
  pub in_free :
      (f : ℕ)
      → InList f pool.free_list
      → (frame : Frame) × (get_elem? pool.frames f ≡ some frame)
        × frame.pin_count ≡ 0
        × ((p : ℕ) → find_frame pool.page_table p ≢ some f)
  pub free_once : Once pool.free_list

-- The frame is in no list, and no page leads to it.
pub record Vacant (pool : BufferPool) (f : ℕ) : Type 0 where
  pub valid : Valid pool
  pub there : f < length pool.frames
  pub out : (p : ℕ) → find_frame pool.page_table p ≢ some f
  pub not_free : InList f pool.free_list → ⊥

pub find_frame-erase_page :
    (table : List (ℕ × ℕ)) (q p f : ℕ)
    → find_frame (erase_page table q) p ≡ some f
    → p ≢ q × find_frame table p ≡ some f
unfolding find_frame erase_page
find_frame-erase_page [] q p f h = cc
find_frame-erase_page (e ∷ es) q p f h = elim (Bool-cases (e.0 == q)) [
  | inl l ↦
      let rest = find_frame-erase_page es q p f (rw l at h) in
      let other : (e.0 == p) ≡ false = (let n = rest.0 in ground (arith, n)) in
      (rest.0, rw other rest.1)
  | inr l ↦ elim (Bool-cases (e.0 == p)) [
    | inl m ↦ ((λ s. ground (arith, s, m, l)), rw m (rw (l, m) at h))
    | inr m ↦ let rest = find_frame-erase_page es q p f (rw (l, m) at h) in (rest.0, rw m rest.1)
  ]
]

pub find_frame-erase_none :
    (table : List (ℕ × ℕ)) (q p : ℕ)
    → find_frame table p ≡ none
    → find_frame (erase_page table q) p ≡ none
unfolding find_frame erase_page
find_frame-erase_none [] q p h = refl
find_frame-erase_none (e ∷ es) q p h = elim (Bool-cases (e.0 == p)) [
  | inl m ↦ let never : some e.1 ≡ none = (rw m at h) in cc
  | inr m ↦
      let rest = find_frame-erase_none es q p (rw m at h) in
      elim (Bool-cases (e.0 == q)) [ inl l ↦ rw l rest | inr l ↦ rw (l, m) rest ]
]

pub InList-remove :
    (f g : ℕ) (lru : List ℕ) → InList g (remove_from_lru f lru) → g ≢ f × InList g lru
unfolding remove_from_lru
InList-remove f g [] h = elim h [ ]
InList-remove f g (x ∷ xs) h = elim (Bool-cases (x == f)) [
  | inl l ↦ let rest = InList-remove f g xs (rw l at h) in (rest.0, inr rest.1)
  | inr l ↦
      let kept : g ≡ x ⊎ InList g (remove_from_lru f xs) = rw l at h in
      elim kept [
        | inl e ↦ ((λ s. ground (arith, s, e, l)), inl e)
        | inr m ↦ let rest = InList-remove f g xs m in (rest.0, inr rest.1)
      ]
]

-- The frame that the loop of FindVictimFrame chooses.
pub last_unpinned_lem :
    (frames : List Frame) (lru : List ℕ) (f : ℕ)
    → last_unpinned frames lru ≡ some f
    → InList f lru × is_unpinned (get_elem? frames f) ≡ true
unfolding last_unpinned
last_unpinned_lem frames [] f h = cc
last_unpinned_lem frames (g ∷ gs) f h = elim (Option-cases (last_unpinned frames gs)) [
  | inl e ↦ elim (Bool-cases (is_unpinned (get_elem? frames g))) [
    | inl u ↦ let same : g ≡ f = cc (rw (e, u) at h) in (inl (sym same), rw⁻¹ same u)
    | inr u ↦ let never : none ≡ some f = (rw (e, u) at h) in cc
  ]
  | inr k ↦ let rest = last_unpinned_lem frames gs f (k.1 ∙ (rw k.1 at h)) in (inr rest.0, rest.1)
]

pub find_frame-erase_ne :
    (table : List (ℕ × ℕ)) (q p : ℕ)
    → p ≢ q
    → find_frame (erase_page table q) p ≡ find_frame table p
unfolding find_frame erase_page
find_frame-erase_ne [] q p n = refl
find_frame-erase_ne (e ∷ es) q p n = elim (Bool-cases (e.0 == q)) [
  | inl l ↦
      let other : (e.0 == p) ≡ false = ground (arith, n, l) in
      rw (l, other) (find_frame-erase_ne es q p n)
  | inr l ↦ rw (l, find_frame-erase_ne es q p n) refl
]

pub get_elem?-some_lt {ℓ} :
    {A : Type ℓ} (xs : List A) (i : ℕ) (a : A) → get_elem? xs i ≡ some a → i < length xs
get_elem?-some_lt [] i a h = cc
get_elem?-some_lt (x ∷ xs) zero a h = omega arith
get_elem?-some_lt (x ∷ xs) (suc i) a h =
    let rest = get_elem?-some_lt xs i a h in omega (arith, rest)
