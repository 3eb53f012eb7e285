-- ===== src/BTree/Shape.antt =====
-- The trees that src/btree.cpp keeps in its pages, and the order of their keys. A `row` is the children of
-- an internal page: the leftmost one, and one for each cell.
use toy_relational_database.Prelude.{
  All, Bool-cases, List, [], ap, append_assoc, if◌then◌else◌, inl, inr, ltb_ℤ, refl, sym, ℤ, ◌++◌,
  ◌∙◌, ◌∷◌, ◌≡◌,
}
use toy_relational_database.BTree.{LeafCell}

-- What an insertion makes of a subtree: it stays one, or it splits at a separator.
pub data Grown (T : Type 0) : Type 0 where
  one : T → Grown T
  two : T → ℤ → T → Grown T

abbrev pub GrownHave : {T : Type 0} → (T → Type 0) → Grown T → Type 0
GrownHave Have (one a) = Have a
GrownHave Have (two a p b) = Have a × Have b

module _ {T : Type 0} where
  -- The child that a key is routed to.
  unfoldable pub routed : ℤ → T → List (ℤ × T) → T
  routed key t [] = t
  routed key t (c ∷ cs) = let rest = routed key c.1 cs in if ltb_ℤ key c.0 then t else rest

  -- What holds of every child holds of that one.
  pub routed-lem :
      (Have : T → Type 0) (key : ℤ) (t : T) (cs : List (ℤ × T))
      → Have t
      → All (λ c. Have c.1) cs
      → Have (routed key t cs)
  unfolding routed
  routed-lem Have key t [] a rest = a
  routed-lem Have key t (c ∷ cs) a rest = elim (Bool-cases (ltb_ℤ key c.0)) [
    | inl l ↦ rw l a
    | inr l ↦ rw l (routed-lem Have key c.1 cs rest.0 rest.1)
  ]

  abbrev pub attach : Grown T → List (ℤ × T) → T × List (ℤ × T)
  attach (one a) cs = (a, cs)
  attach (two a p b) cs = (a, (p, b) ∷ cs)

  -- The row where the child that the key is routed to has become `r`.
  unfoldable pub grow_row : Grown T → ℤ → T → List (ℤ × T) → T × List (ℤ × T)
  grow_row r key t [] = attach r []
  grow_row r key t (c ∷ cs) =
      let next = grow_row r key c.1 cs in
      if ltb_ℤ key c.0 then attach r (c ∷ cs) else (t, (c.0, next.0) ∷ next.1)

-- The entries of a row, in their order.
module _ {T : Type 0} (flat : T → List LeafCell) where
  abbrev pub cells_flat : List (ℤ × T) → List LeafCell
  cells_flat [] = []
  cells_flat (c ∷ cs) = flat c.1 ++ cells_flat cs

  abbrev pub row_flat : T → List (ℤ × T) → List LeafCell
  row_flat t cs = flat t ++ cells_flat cs

  abbrev pub grown_flat : Grown T → List LeafCell
  grown_flat (one a) = flat a
  grown_flat (two a p b) = flat a ++ flat b

  pub cells_flat-append :
      (xs ys : List (ℤ × T)) → cells_flat (xs ++ ys) ≡ cells_flat xs ++ cells_flat ys
  cells_flat-append [] ys = refl
  cells_flat-append (x ∷ xs) ys =
      ap (λ (t : List LeafCell). flat x.1 ++ t) (cells_flat-append xs ys)
      ∙ sym (append_assoc (flat x.1) (cells_flat xs) (cells_flat ys))

  pub row_flat-append :
      (t : T) (left : List (ℤ × T)) (c : ℤ × T) (right : List (ℤ × T))
      → row_flat t left ++ row_flat c.1 right ≡ row_flat t (left ++ c ∷ right)
  row_flat-append t left c right =
      append_assoc (flat t) (cells_flat left) (row_flat c.1 right)
      ∙ ap (λ (x : List LeafCell). flat t ++ x) (sym (cells_flat-append left (c ∷ right)))

  pub attach-flat :
      (r : Grown T) (cs : List (ℤ × T))
      → row_flat (attach r cs).0 (attach r cs).1 ≡ grown_flat r ++ cells_flat cs
  attach-flat (one a) cs = refl
  attach-flat (two a p b) cs = sym (append_assoc (flat a) (flat b) (cells_flat cs))

-- Every entry's key satisfies `P`, and every separator `Q`.
module _ {T : Type 0} (AllT : (ℤ → Type 0) → (ℤ → Type 0) → T → Type 0) where
  abbrev pub CellsAll : (ℤ → Type 0) → (ℤ → Type 0) → List (ℤ × T) → Type 0
  CellsAll P Q [] = Unit
  CellsAll P Q (c ∷ cs) = Q c.0 × AllT P Q c.1 × CellsAll P Q cs

  abbrev pub RowAll : (ℤ → Type 0) → (ℤ → Type 0) → T → List (ℤ × T) → Type 0
  RowAll P Q t cs = AllT P Q t × CellsAll P Q cs

  abbrev pub GrownAll : (ℤ → Type 0) → (ℤ → Type 0) → Grown T → Type 0
  GrownAll P Q (one a) = AllT P Q a
  GrownAll P Q (two a p b) = AllT P Q a × Q p × AllT P Q b

  attach-All :
      (P Q : ℤ → Type 0) (r : Grown T) (cs : List (ℤ × T))
      → GrownAll P Q r
      → CellsAll P Q cs
      → RowAll P Q (attach r cs).0 (attach r cs).1
  attach-All P Q (one a) cs g h = (g, h)
  attach-All P Q (two a p b) cs g h = (g.0, (g.1, g.2, h))

  pub grow_row-All :
      (P Q : ℤ → Type 0) (r : Grown T) (key : ℤ) (t : T) (cs : List (ℤ × T))
      → (AllT P Q (routed key t cs) → GrownAll P Q r)
      → RowAll P Q t cs
      → RowAll P Q (grow_row r key t cs).0 (grow_row r key t cs).1
  unfolding grow_row routed
  grow_row-All P Q r key t [] g h = attach-All P Q r [] (g h.0) h.1
  grow_row-All P Q r key t (c ∷ cs) g h = elim (Bool-cases (ltb_ℤ key c.0)) [
    | inl l ↦ rw l (attach-All P Q r (c ∷ cs) (rw l at g h.0) h.1)
    | inr l ↦
        let next = grow_row-All P Q r key c.1 cs (rw l at g) (h.1.1, h.1.2) in
        rw l (h.0, (h.1.0, next.0, next.1))
  ]

  pub CellsAll-append :
      (P Q : ℤ → Type 0) (xs ys : List (ℤ × T))
      → CellsAll P Q (xs ++ ys)
      → CellsAll P Q xs × CellsAll P Q ys
  CellsAll-append P Q [] ys h = (tt, h)
  CellsAll-append P Q (x ∷ xs) ys h =
      let rest = CellsAll-append P Q xs ys h.2 in ((h.0, h.1, rest.0), rest.1)

  module _
      (all_imp : (P Q P' Q' : ℤ → Type 0)
        → ((x : ℤ) → P x → P' x)
        → ((x : ℤ) → Q x → Q' x)
        → (t : T) → AllT P Q t
        → AllT P' Q' t) where
    pub CellsAll-imp :
        (P Q P' Q' : ℤ → Type 0)
        → ((x : ℤ) → P x → P' x)
        → ((x : ℤ) → Q x → Q' x)
        → (cs : List (ℤ × T)) → CellsAll P Q cs
        → CellsAll P' Q' cs
    CellsAll-imp P Q P' Q' f g [] h = tt
    CellsAll-imp P Q P' Q' f g (c ∷ cs) h =
        (g c.0 h.0, all_imp P Q P' Q' f g c.1 h.1, CellsAll-imp P Q P' Q' f g cs h.2)
