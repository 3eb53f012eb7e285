-- ===== src/BTree/Links.antt =====
-- src/btree.cpp: the page ids in the cells of an internal page, and the chain of leaves below it.
use toy_relational_database.Prelude.{
  Bool-cases, List, [], ap, drop, inl, inr, length, ltb_ℤ, refl, subst, suc, sym, take, zero, ℕ, ℤ,
  ◌++◌, ◌∙◌, ◌∷◌, ◌≡◌,
}
use toy_relational_database.BTree.{InternalCell, route, child_at, insert_at}
use toy_relational_database.BTree.Shape.{Grown, one, two, routed, attach, grow_row}

module _ {T : Type 0} (id_of : T → ℕ) where
  abbrev pub row_cells : List (ℤ × T) → List InternalCell
  row_cells [] = []
  row_cells (c ∷ cs) = (c.0, id_of c.1) ∷ row_cells cs

  abbrev pub grown_id : Grown T → ℕ
  grown_id (one a) = id_of a
  grown_id (two a p b) = id_of a

  abbrev pub grown_cells : Grown T → ℤ → List (ℤ × T) → List InternalCell
  grown_cells (one a) key cs = row_cells cs
  grown_cells (two a p b) key cs = insert_at (route (row_cells cs) key) (p, id_of b) (row_cells cs)

  -- The child that the code descends to.
  pub child_at-route :
      (key : ℤ) (t : T) (cs : List (ℤ × T))
      → child_at (id_of t) (row_cells cs) (route (row_cells cs) key) ≡ id_of (routed key t cs)
  unfolding child_at route routed
  child_at-route key t [] = refl
  child_at-route key t (c ∷ cs) = elim (Bool-cases (ltb_ℤ key c.0)) [
    | inl l ↦ rw l
    | inr l ↦ rw l (child_at-route key c.1 cs)
  ]

  -- The left part of a split keeps its page, so no other cell changes.
  pub grow_row-id :
      (r : Grown T) (key : ℤ) (t : T) (cs : List (ℤ × T))
      → grown_id r ≡ id_of (routed key t cs)
      → id_of (grow_row r key t cs).0 ≡ id_of t
  unfolding grow_row routed
  grow_row-id (one a) key t [] h = h
  grow_row-id (two a p b) key t [] h = h
  grow_row-id r key t (c ∷ cs) h = elim (Bool-cases (ltb_ℤ key c.0)) [
    | inl l ↦ rw l (attach_id r (c ∷ cs) ∙ (rw l at h))
    | inr l ↦ rw l
  ]
    where
      attach_id : (r : Grown T) (cs : List (ℤ × T)) → id_of (attach r cs).0 ≡ grown_id r
      attach_id (one a) cs = refl
      attach_id (two a p b) cs = refl

  pub grow_row-cells :
      (r : Grown T) (key : ℤ) (t : T) (cs : List (ℤ × T))
      → grown_id r ≡ id_of (routed key t cs)
      → row_cells (grow_row r key t cs).1 ≡ grown_cells r key cs
  unfolding grow_row routed route insert_at
  grow_row-cells (one a) key t [] h = refl
  grow_row-cells (two a p b) key t [] h = refl
  grow_row-cells (one a) key t (c ∷ cs) h = elim (Bool-cases (ltb_ℤ key c.0)) [
    | inl l ↦ rw l
    | inr l ↦
        let deeper = rw l at h in
        rw (l, grow_row-id (one a) key c.1 cs deeper, grow_row-cells (one a) key c.1 cs deeper)
  ]
  grow_row-cells (two a p b) key t (c ∷ cs) h = elim (Bool-cases (ltb_ℤ key c.0)) [
    | inl l ↦ rw l
    | inr l ↦
        let deeper = rw l at h in
        rw (
          l,
          grow_row-id (two a p b) key c.1 cs deeper,
          grow_row-cells (two a p b) key c.1 cs deeper,
        )
  ]

  pub row_cells-append :
      (xs ys : List (ℤ × T)) → row_cells (xs ++ ys) ≡ row_cells xs ++ row_cells ys
  row_cells-append [] ys = refl
  row_cells-append (x ∷ xs) ys =
      ap (λ (t : List InternalCell). (x.0, id_of x.1) ∷ t) (row_cells-append xs ys)

  pub length-row_cells : (cs : List (ℤ × T)) → length (row_cells cs) ≡ length cs
  length-row_cells [] = refl
  length-row_cells (c ∷ cs) = ap suc (length-row_cells cs)

  pub take-row_cells : (n : ℕ) (cs : List (ℤ × T)) → take n (row_cells cs) ≡ row_cells (take n cs)
  take-row_cells zero cs = refl
  take-row_cells (suc n) [] = refl
  take-row_cells (suc n) (c ∷ cs) =
      ap (λ (t : List InternalCell). (c.0, id_of c.1) ∷ t) (take-row_cells n cs)

  pub drop-row_cells : (n : ℕ) (cs : List (ℤ × T)) → drop n (row_cells cs) ≡ row_cells (drop n cs)
  drop-row_cells zero cs = refl
  drop-row_cells (suc n) [] = refl
  drop-row_cells (suc n) (c ∷ cs) = drop-row_cells n cs

-- The leaves are linked in their order: the last one of each child to the first one of the next.
module _ {T : Type 0} (first : T → ℕ) (Chain : T → ℕ → Type 0) where
  abbrev pub RowChain : T → List (ℤ × T) → ℕ → Type 0
  RowChain t [] after = Chain t after
  RowChain t (c ∷ cs) after = Chain t (first c.1) × RowChain c.1 cs after

  abbrev pub grown_first : Grown T → ℕ
  grown_first (one a) = first a
  grown_first (two a p b) = first a

  abbrev pub GrownChain : Grown T → ℕ → Type 0
  GrownChain (one a) after = Chain a after
  GrownChain (two a p b) after = Chain a (first b) × Chain b after

  attach-first : (r : Grown T) (cs : List (ℤ × T)) → first (attach r cs).0 ≡ grown_first r
  attach-first (one a) cs = refl
  attach-first (two a p b) cs = refl

  pub grow_row-first :
      (r : Grown T) (key : ℤ) (t : T) (cs : List (ℤ × T))
      → grown_first r ≡ first (routed key t cs)
      → first (grow_row r key t cs).0 ≡ first t
  unfolding grow_row routed
  grow_row-first r key t [] h = attach-first r [] ∙ h
  grow_row-first r key t (c ∷ cs) h = elim (Bool-cases (ltb_ℤ key c.0)) [
    | inl l ↦ rw l (attach-first r (c ∷ cs) ∙ (rw l at h))
    | inr l ↦ rw l
  ]

  attach-Chain_nil :
      (r : Grown T) (after : ℕ)
      → GrownChain r after
      → RowChain (attach r []).0 (attach r []).1 after
  attach-Chain_nil (one a) after h = h
  attach-Chain_nil (two a p b) after h = h

  attach-Chain :
      (r : Grown T) (c : ℤ × T) (cs : List (ℤ × T)) (after : ℕ)
      → GrownChain r (first c.1)
      → RowChain c.1 cs after
      → RowChain (attach r (c ∷ cs)).0 (attach r (c ∷ cs)).1 after
  attach-Chain (one a) c cs after h k = (h, k)
  attach-Chain (two a p b) c cs after h k = (h.0, (h.1, k))

  pub grow_row-Chain :
      (r : Grown T) (key : ℤ) (t : T) (cs : List (ℤ × T)) (after : ℕ)
      → grown_first r ≡ first (routed key t cs)
      → ((next : ℕ) → Chain (routed key t cs) next → GrownChain r next)
      → RowChain t cs after
      → RowChain (grow_row r key t cs).0 (grow_row r key t cs).1 after
  unfolding grow_row routed
  grow_row-Chain r key t [] after f g h = attach-Chain_nil r after (g after h)
  grow_row-Chain r key t (c ∷ cs) after f g h = elim (Bool-cases (ltb_ℤ key c.0)) [
    | inl l ↦ rw l (attach-Chain r c cs after ((rw l at g) (first c.1) h.0) h.1)
    | inr l ↦
        let deeper = rw l at f in
        rw l (
          subst (λ n. Chain t n) (sym (grow_row-first r key c.1 cs deeper)) h.0,
          grow_row-Chain r key c.1 cs after deeper (rw l at g) h.1,
        )
  ]

  pub RowChain-append :
      (t : T) (left : List (ℤ × T)) (c : ℤ × T) (right : List (ℤ × T)) (after : ℕ)
      → RowChain t (left ++ c ∷ right) after
      → RowChain t left (first c.1) × RowChain c.1 right after
  RowChain-append t [] c right after h = h
  RowChain-append t (d ∷ left) c right after h =
      let rest = RowChain-append d.1 left c right after h.1 in ((h.0, rest.0), rest.1)
