-- ===== src/BTree/Erase.antt =====
-- src/btree.cpp: Delete on the cells of one leaf.
use toy_relational_database.Prelude.{
  All, Bool-cases, Bytes, List, [], arith, eqb_ℤ, false, if◌then◌else◌, inl, inr, none, refl, some,
  suc, true, ℕ, ℤ, ◌++◌, ◌+◌, ◌-◌, ◌<ℤ◌, ◌∷◌, ◌≡◌, ◌≤◌,
}
use toy_relational_database.BTree.{LeafCell, remove_at}
use toy_relational_database.BTree.Lookup.{find_cell, cell_index}
use toy_relational_database.BTree.Rows.{Sorted}

-- The map without the key.
unfoldable pub erase : ℤ → List LeafCell → List LeafCell
erase key [] = []
erase key (c ∷ cs) = let rest = erase key cs in if eqb_ℤ c.0 key then cs else c ∷ rest

pub erase-append_left :
    (key : ℤ) (xs ys : List LeafCell)
    → All (λ c. key <ℤ c.0) ys
    → erase key (xs ++ ys) ≡ erase key xs ++ ys
unfolding erase
erase-append_left key [] [] h = refl
erase-append_left key [] (y ∷ ys) h = ground (arith, erase-append_left key [] ys h.1)
erase-append_left key (x ∷ xs) ys h = ground (arith, erase-append_left key xs ys h)

pub erase-append_right :
    (key : ℤ) (xs ys : List LeafCell)
    → All (λ c. c.0 <ℤ key) xs
    → erase key (xs ++ ys) ≡ xs ++ erase key ys
unfolding erase
erase-append_right key [] ys h = refl
erase-append_right key (x ∷ xs) ys h = ground (arith, erase-append_right key xs ys h.1)

pub All-erase :
    (P : LeafCell → Type 0) (key : ℤ) (m : List LeafCell) → All P m → All P (erase key m)
unfolding erase
All-erase P key [] h = tt
All-erase P key (c ∷ cs) h = elim (Bool-cases (eqb_ℤ c.0 key)) [
  | inl e ↦ rw e h.1
  | inr e ↦ rw e (h.0, All-erase P key cs h.1)
]

pub erase-Sorted : (key : ℤ) (m : List LeafCell) → Sorted m → Sorted (erase key m)
unfolding erase
erase-Sorted key [] s = tt
erase-Sorted key (c ∷ cs) s = elim (Bool-cases (eqb_ℤ c.0 key)) [
  | inl e ↦ rw e s.1
  | inr e ↦ rw e (All-erase (λ d. c.0 <ℤ d.0) key cs s.0, erase-Sorted key cs s.1)
]

find_cell-absent :
    (key other : ℤ) (m : List LeafCell)
    → All (λ d. key <ℤ d.0) m
    → eqb_ℤ key other ≡ true
    → find_cell m other ≡ none
unfolding find_cell
find_cell-absent key other [] h e = refl
find_cell-absent key other (c ∷ cs) h e = ground (arith, find_cell-absent key other cs h.1 e)

-- The map law: the key that was erased is not found, every other key is as before.
pub find_cell-erase :
    (key other : ℤ) (m : List LeafCell)
    → Sorted m
    → find_cell (erase key m) other ≡ (if eqb_ℤ key other then none else find_cell m other)
unfolding erase find_cell
find_cell-erase key other [] s = ground arith
find_cell-erase key other (c ∷ cs) s = elim (Bool-cases (eqb_ℤ c.0 key)) [
  | inl e ↦ elim (Bool-cases (eqb_ℤ key other)) [
    | inl q ↦
        let twice : eqb_ℤ c.0 other ≡ true = ground arith in
        rw (e, q) (find_cell-absent c.0 other cs s.0 twice)
    | inr q ↦ let others : eqb_ℤ c.0 other ≡ false = ground arith in rw (e, q, others) refl
  ]
  | inr e ↦ ground (arith, e, find_cell-erase key other cs s.1)
]

-- The loop of Delete over the cells.
pub cell_index-none :
    (i : ℕ) (cells : List LeafCell) (key : ℤ)
    → cell_index i cells key ≡ none
    → find_cell cells key ≡ none × erase key cells ≡ cells
unfolding cell_index find_cell erase
cell_index-none i [] key e = (refl, refl)
cell_index-none i (c ∷ cs) key e = elim (Bool-cases (eqb_ℤ c.0 key)) [
  | inl q ↦ cc
  | inr q ↦
      let rest = cell_index-none (i + 1) cs key (rw q at e) in rw (q, rest.0, rest.1) (refl, refl)
]

pub cell_index-some :
    (i j : ℕ) (cells : List LeafCell) (key : ℤ)
    → cell_index i cells key ≡ some j
    → (value : Bytes) × (find_cell cells key ≡ some value)
      × i ≤ j
      × remove_at (j - i) cells ≡ erase key cells
unfolding cell_index find_cell erase remove_at
cell_index-some i j [] key e = cc
cell_index-some i j (c ∷ cs) key e = elim (Bool-cases (eqb_ℤ c.0 key)) [
  | inl q ↦
      let same : i ≡ j = cc (rw q at e) in
      let at_once : j - i ≡ 0 = omega (arith, same) in
      (c.1, rw q refl, omega (arith, same), rw (q, at_once) refl)
  | inr q ↦
      let rest = cell_index-some (i + 1) j cs key (rw q at e) in
      let ahead : j - i ≡ suc (j - (i + 1)) = omega (arith, rest.2) in
      (rest.0, rw q rest.1, omega (arith, rest.2), rw (q, ahead, rest.3) refl)
]

pub erase-absent : (key : ℤ) (m : List LeafCell) → find_cell m key ≡ none → erase key m ≡ m
unfolding erase find_cell
erase-absent key [] e = refl
erase-absent key (c ∷ cs) e = elim (Bool-cases (eqb_ℤ c.0 key)) [
  | inl q ↦ let never : some c.1 ≡ none = (rw q at e) in cc
  | inr q ↦ rw (q, erase-absent key cs (rw q at e)) refl
]
