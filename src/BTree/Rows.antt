-- ===== src/BTree/Rows.antt =====
-- The entries of a tree in their order, and the cells of one leaf: src/btree.cpp at a leaf page.
use toy_relational_database.Prelude.{
  All, Bool-cases, Bytes, List, [], ap, arith, drop, eqb_ℤ, false, get_elem?, if◌then◌else◌, inl,
  inr, leb, length, length-drop, ltb_ℤ, ltb_ℤ_iff, refl, set, some, true, ℕ, ℤ, ◌++◌, ◌/◌, ◌<ℤ◌,
  ◌<◌, ◌↔◌, ◌∷◌, ◌≡◌, ◌≢◌, ◌≤ℤ◌,
}
use toy_relational_database.BTree.{LeafCell, position, insert_at}
use toy_relational_database.BTree.Lookup.{find_cell}

-- What a map with the entries in this order holds after the key is set.
unfoldable pub upsert : ℤ → Bytes → List LeafCell → List LeafCell
upsert key value [] = (key, value) ∷ []
upsert key value (c ∷ cs) =
    let rest = upsert key value cs in
    if ltb_ℤ c.0 key
    then c ∷ rest
    else if eqb_ℤ c.0 key
    then (c.0, value) ∷ cs
    else (key, value) ∷ c ∷ cs

-- The two branches of InsertRecursive at a leaf page.
pub set-position :
    (cells : List LeafCell) (key : ℤ) (value : Bytes) (c : LeafCell)
    → get_elem? cells (position cells key) ≡ some c
    → eqb_ℤ c.0 key ≡ true
    → set cells (position cells key) (c.0, value) ≡ upsert key value cells
unfolding position upsert
set-position [] key value c h e = cc
set-position (x ∷ xs) key value c h e = elim (Bool-cases (ltb_ℤ x.0 key)) [
  | inl l ↦ rw l (ap (λ (t : List LeafCell). x ∷ t) (set-position xs key value c (rw l at h) e))
  | inr l ↦
      let same : x ≡ c = cc (rw l at h) in
      let found : eqb_ℤ x.0 key ≡ true = rw same e in rw (l, found, same)
]

pub insert_at-position :
    (cells : List LeafCell) (key : ℤ) (value : Bytes)
    → ((c : LeafCell) → get_elem? cells (position cells key) ≡ some c → eqb_ℤ c.0 key ≡ false)
    → insert_at (position cells key) (key, value) cells ≡ upsert key value cells
unfolding position upsert insert_at
insert_at-position [] key value h = refl
insert_at-position (x ∷ xs) key value h = elim (Bool-cases (ltb_ℤ x.0 key)) [
  | inl l ↦
      rw l
        (ap (λ (t : List LeafCell). x ∷ t) (insert_at-position xs key value (λ c e. h c (rw l e))))
  | inr l ↦ let other : eqb_ℤ x.0 key ≡ false = h x (rw l refl) in rw (l, other)
]

pub upsert-append_left :
    (key : ℤ) (value : Bytes) (xs ys : List LeafCell)
    → All (λ c. key <ℤ c.0) ys
    → upsert key value (xs ++ ys) ≡ upsert key value xs ++ ys
unfolding upsert
upsert-append_left key value [] [] h = refl
upsert-append_left key value [] (y ∷ ys) h = ground arith
upsert-append_left key value (x ∷ xs) ys h = ground (arith, upsert-append_left key value xs ys h)

pub upsert-append_right :
    (key : ℤ) (value : Bytes) (xs ys : List LeafCell)
    → All (λ c. c.0 <ℤ key) xs
    → upsert key value (xs ++ ys) ≡ xs ++ upsert key value ys
unfolding upsert
upsert-append_right key value [] ys h = refl
upsert-append_right key value (x ∷ xs) ys h =
    ground (arith, upsert-append_right key value xs ys h.1)

-- The map law: the key that was set reads back, and every other key reads as before.
pub find_cell-upsert :
    (key other : ℤ) (value : Bytes) (m : List LeafCell)
    → find_cell (upsert key value m) other
      ≡ (if eqb_ℤ key other then some value else find_cell m other)
unfolding upsert find_cell
find_cell-upsert key other value [] = ground arith
find_cell-upsert key other value (c ∷ cs) = ground (arith, find_cell-upsert key other value cs)

pub find_cell-append_left :
    (key : ℤ) (xs ys : List LeafCell)
    → All (λ c. key <ℤ c.0) ys
    → find_cell (xs ++ ys) key ≡ find_cell xs key
unfolding find_cell
find_cell-append_left key [] [] h = refl
find_cell-append_left key [] (y ∷ ys) h = ground (arith, find_cell-append_left key [] ys h.1)
find_cell-append_left key (x ∷ xs) ys h = ground (arith, find_cell-append_left key xs ys h)

pub find_cell-append_right :
    (key : ℤ) (xs ys : List LeafCell)
    → All (λ c. c.0 <ℤ key) xs
    → find_cell (xs ++ ys) key ≡ find_cell ys key
unfolding find_cell
find_cell-append_right key [] ys h = refl
find_cell-append_right key (x ∷ xs) ys h = ground (arith, find_cell-append_right key xs ys h.1)

pub All-append_iff {ℓ} :
    {A : Type ℓ} (P : A → Type 0) (xs ys : List A) → All P (xs ++ ys) ↔ (All P xs × All P ys)
All-append_iff P [] ys = ((λ h. (tt, h)), (λ h. h.1))
All-append_iff P (x ∷ xs) ys =
    let rest = All-append_iff P xs ys in
    ((λ h. ((h.0, (rest.0 h.1).0), (rest.0 h.1).1)), (λ h. (h.0.0, rest.1 (h.0.1, h.1))))

-- Strictly ascending keys.
abbrev pub Sorted : List LeafCell → Type 0
Sorted [] = Unit
Sorted (c ∷ cs) = All (λ d. c.0 <ℤ d.0) cs × Sorted cs

pub All-upsert :
    (P : ℤ → Type 0) (key : ℤ) (value : Bytes) (m : List LeafCell)
    → P key
    → All (λ c. P c.0) m
    → All (λ c. P c.0) (upsert key value m)
unfolding upsert
All-upsert P key value [] p h = (p, tt)
All-upsert P key value (c ∷ cs) p h = ground (arith, All-upsert P key value cs p h.1)

pub All-imp {ℓ} :
    {A : Type ℓ} (P Q : A → Type 0) → ((a : A) → P a → Q a) → (xs : List A) → All P xs → All Q xs
All-imp P Q f [] h = tt
All-imp P Q f (x ∷ xs) h = (f x h.0, All-imp P Q f xs h.1)

pub upsert-Sorted :
    (key : ℤ) (value : Bytes) (m : List LeafCell) → Sorted m → Sorted (upsert key value m)
unfolding upsert
upsert-Sorted key value [] s = (tt, tt)
upsert-Sorted key value (c ∷ cs) s = elim (Bool-cases (ltb_ℤ c.0 key)) [
  | inl l ↦ rw l (
    All-upsert (λ x. c.0 <ℤ x) key value cs ((ltb_ℤ_iff c.0 key).0 l) s.0,
    upsert-Sorted key value cs s.1,
  )
  | inr l ↦ elim (Bool-cases (eqb_ℤ c.0 key)) [
    | inl e ↦ rw (l, e) s
    | inr e ↦
        let under : key <ℤ c.0 = ground arith in
        rw (l, e)
          (
            (
              under,
              All-imp (λ d. c.0 <ℤ d.0) (λ d. key <ℤ d.0) (λ d h. omega (arith, under, h)) cs s.0,
            ),
            s,
          )
  ]
]

-- The two halves of a leaf that splits.
pub Sorted-append :
    (xs : List LeafCell) (c : LeafCell) (ys : List LeafCell)
    → Sorted (xs ++ c ∷ ys)
    → Sorted xs × All (λ x. x.0 <ℤ c.0) xs × Sorted (c ∷ ys)
Sorted-append [] c ys s = (tt, tt, s)
Sorted-append (x ∷ xs) c ys s =
    let rest = Sorted-append xs c ys s.1 in
    let sides = (All-append_iff (λ (d : LeafCell). x.0 <ℤ d.0) xs (c ∷ ys)).0 s.0 in
    ((sides.0, rest.0), (sides.1.0, rest.1), rest.2)

-- The right half of cells that are too many is not empty.
pub drop-half {ℓ} :
    {A : Type ℓ} (bound : ℕ) (xs : List A)
    → leb (length xs) bound ≡ false
    → drop (length xs / 2) xs ≢ []
drop-half bound xs full e =
    let none_left : length (drop (length xs / 2) xs) ≡ 0 = rw e refl in
    let more : bound < length xs = ground arith in
    omega (arith, none_left, length-drop (length xs / 2) xs, more)

pub Sorted-join :
    (k : ℤ) (xs ys : List LeafCell)
    → Sorted xs
    → Sorted ys
    → All (λ x. x.0 <ℤ k) xs
    → All (λ y. k ≤ℤ y.0) ys
    → Sorted (xs ++ ys)
Sorted-join k [] ys s t h g = t
Sorted-join k (x ∷ xs) ys s t h g = (
  (All-append_iff (λ (d : LeafCell). x.0 <ℤ d.0) xs ys).1
      (s.0, All-imp (λ d. k ≤ℤ d.0) (λ d. x.0 <ℤ d.0) (λ d l. omega (arith, l, h.0)) ys g),
  Sorted-join k xs ys s.1 t h.1 g,
)
