-- ===== src/BTree/Order.antt =====
-- The order of the keys in the trees of src/btree.cpp.
use toy_relational_database.Prelude.{
  All, Bool-cases, List, [], ap, append-nil, arith, inl, inr, ltb_ℤ, ltb_ℤ_iff, sym, ℤ, ◌++◌, ◌<ℤ◌,
  ◌∙◌, ◌∷◌, ◌≡◌, ◌≤ℤ◌,
}
use toy_relational_database.BTree.{LeafCell}
use toy_relational_database.BTree.Lookup.{find_cell}
use toy_relational_database.BTree.Rows.{
  find_cell-append_left, find_cell-append_right, All-imp, All-append_iff,
}
use toy_relational_database.BTree.Shape.{
  Grown, one, two, routed, attach, grow_row, cells_flat, row_flat, grown_flat, attach-flat,
  CellsAll, RowAll, GrownAll, grow_row-All, CellsAll-append, CellsAll-imp,
}

-- Each subtree keeps to its side of the separators.
module _ {T : Type 0} (AllT : (ℤ → Type 0) → (ℤ → Type 0) → T → Type 0) (Ord : T → Type 0) where
  abbrev pub RowOrd : T → List (ℤ × T) → Type 0
  RowOrd t [] = Ord t
  RowOrd t (c ∷ cs) =
      Ord t
      × AllT (λ x. x <ℤ c.0) (λ x. x ≤ℤ c.0) t
      × CellsAll AllT (λ x. c.0 ≤ℤ x) (λ x. c.0 ≤ℤ x) (c ∷ cs)
      × RowOrd c.1 cs

  abbrev pub GrownOrd : Grown T → Type 0
  GrownOrd (one a) = Ord a
  GrownOrd (two a p b) =
      Ord a × Ord b × AllT (λ x. x <ℤ p) (λ x. x ≤ℤ p) a × AllT (λ x. p ≤ℤ x) (λ x. p ≤ℤ x) b

  pub Ord-routed : (key : ℤ) (t : T) (cs : List (ℤ × T)) → RowOrd t cs → Ord (routed key t cs)
  unfolding routed
  Ord-routed key t [] h = h
  Ord-routed key t (c ∷ cs) h = elim (Bool-cases (ltb_ℤ key c.0)) [
    | inl l ↦ rw l h.0
    | inr l ↦ rw l (Ord-routed key c.1 cs h.3)
  ]

  module _
      (all_imp : (P Q P' Q' : ℤ → Type 0)
        → ((x : ℤ) → P x → P' x)
        → ((x : ℤ) → Q x → Q' x)
        → (t : T) → AllT P Q t
        → AllT P' Q' t) where
    attach-Ord_nil : (r : Grown T) → GrownOrd r → RowOrd (attach r []).0 (attach r []).1
    attach-Ord_nil (one a) g = g
    attach-Ord_nil (two a p b) g = (g.0, g.2, (omega arith, g.3, tt), g.1)

    attach-Ord :
        (r : Grown T) (c : ℤ × T) (cs : List (ℤ × T))
        → GrownOrd r
        → GrownAll AllT (λ x. x <ℤ c.0) (λ x. x ≤ℤ c.0) r
        → CellsAll AllT (λ x. c.0 ≤ℤ x) (λ x. c.0 ≤ℤ x) (c ∷ cs)
        → RowOrd c.1 cs
        → RowOrd (attach r (c ∷ cs)).0 (attach r (c ∷ cs)).1
    attach-Ord (one a) c cs g below above rest = (g, below, above, rest)
    attach-Ord (two a p b) c cs g below above rest =
        let over : CellsAll AllT (λ x. p ≤ℤ x) (λ x. p ≤ℤ x) (c ∷ cs) =
          CellsAll-imp AllT all_imp (λ x. c.0 ≤ℤ x) (λ x. c.0 ≤ℤ x) (λ x. p ≤ℤ x) (λ x. p ≤ℤ x)
            (λ x h. omega (arith, h, below.1)) (λ x h. omega (arith, h, below.1)) (c ∷ cs) above in
        (g.0, g.2, (omega arith, g.3, over), (g.1, below.2, above, rest))

    pub grow_row-Ord :
        (r : Grown T) (key : ℤ) (t : T) (cs : List (ℤ × T))
        → RowOrd t cs
        → GrownOrd r
        → ((P Q : ℤ → Type 0)
            → ((x : ℤ) → P x → Q x)
            → P key
            → AllT P Q (routed key t cs)
            → GrownAll AllT P Q r)
        → RowOrd (grow_row r key t cs).0 (grow_row r key t cs).1
    unfolding grow_row routed
    grow_row-Ord r key t [] h g all = attach-Ord_nil r g
    grow_row-Ord r key t (c ∷ cs) h g all = elim (Bool-cases (ltb_ℤ key c.0)) [
      | inl l ↦ rw l (
          attach-Ord r c cs g
            ((rw l at all) (λ x. x <ℤ c.0) (λ x. x ≤ℤ c.0) (λ x h. omega (arith, h))
              ((ltb_ℤ_iff key c.0).0 l) h.1)
            h.2 h.3)
      | inr l ↦
          let over : c.0 ≤ℤ key = ground arith in
          let deeper = rw l at all in
          let next =
            grow_row-All AllT (λ x. c.0 ≤ℤ x) (λ x. c.0 ≤ℤ x) r key c.1 cs
              (deeper (λ x. c.0 ≤ℤ x) (λ x. c.0 ≤ℤ x) (λ x h. h) over) (h.2.1, h.2.2) in
          rw l (h.0, h.1, (h.2.0, next.0, next.1), grow_row-Ord r key c.1 cs h.3 g deeper)
    ]

    -- The two sides of a cell.
    pub RowOrd-append :
        (t : T) (left : List (ℤ × T)) (c : ℤ × T) (right : List (ℤ × T))
        → RowOrd t (left ++ c ∷ right)
        → RowOrd t left
          × RowOrd c.1 right
          × RowAll AllT (λ x. x <ℤ c.0) (λ x. x ≤ℤ c.0) t left
          × RowAll AllT (λ x. c.0 ≤ℤ x) (λ x. c.0 ≤ℤ x) c.1 right
    RowOrd-append t [] c right h = (h.0, h.3, (h.1, tt), (h.2.1, h.2.2))
    RowOrd-append t (d ∷ left) c right h =
        let ih = RowOrd-append d.1 left c right h.3 in
        let sides = CellsAll-append AllT (λ x. d.0 ≤ℤ x) (λ x. d.0 ≤ℤ x) left (c ∷ right) h.2.2 in
        let between : d.0 ≤ℤ c.0 = sides.1.0 in
        let low =
          all_imp (λ x. x <ℤ d.0) (λ x. x ≤ℤ d.0) (λ x. x <ℤ c.0) (λ x. x ≤ℤ c.0)
            (λ x h. omega (arith, h, between)) (λ x h. omega (arith, h, between)) t h.1 in
        ((h.0, h.1, (h.2.0, h.2.1, sides.0), ih.0), ih.1, (low, (between, ih.2.0, ih.2.1)), ih.3)

module _ {T : Type 0} (flat : T → List LeafCell) (AllT : (ℤ → Type 0) → (ℤ → Type 0) → T → Type 0)
    (Ord : T → Type 0)
    (all_flat : (P Q : ℤ → Type 0) (t : T) → AllT P Q t → All (λ c. P c.0) (flat t)) where
  pub CellsAll-flat :
      (P Q : ℤ → Type 0) (cs : List (ℤ × T))
      → CellsAll AllT P Q cs
      → All (λ c. P c.0) (cells_flat flat cs)
  CellsAll-flat P Q [] h = tt
  CellsAll-flat P Q (c ∷ cs) h =
      (All-append_iff (λ (c : LeafCell). P c.0) (flat c.1) (cells_flat flat cs)).1
        (all_flat P Q c.1 h.1, CellsAll-flat P Q cs h.2)

  -- An update of the entries at one key takes place in the child that the key is routed to.
  pub grow_row-flat :
      (key : ℤ) (update : List LeafCell → List LeafCell)
      → ((xs ys : List LeafCell) → All (λ c. key <ℤ c.0) ys → update (xs ++ ys) ≡ update xs ++ ys)
      → ((xs ys : List LeafCell) → All (λ c. c.0 <ℤ key) xs → update (xs ++ ys) ≡ xs ++ update ys)
      → (r : Grown T) (t : T) (cs : List (ℤ × T)) → RowOrd AllT Ord t cs
      → grown_flat flat r ≡ update (flat (routed key t cs))
      → row_flat flat (grow_row r key t cs).0 (grow_row r key t cs).1 ≡ update (row_flat flat t cs)
  unfolding grow_row routed
  grow_row-flat key update at_left at_right r t [] h g =
      attach-flat flat r []
      ∙ ap (λ (x : List LeafCell). x ++ []) g
      ∙ append-nil _
      ∙ ap update (sym (append-nil (flat t)))
  grow_row-flat key update at_left at_right r t (c ∷ cs) h g = elim (Bool-cases (ltb_ℤ key c.0)) [
    | inl l ↦
        let under : key <ℤ c.0 = (ltb_ℤ_iff key c.0).0 l in
        let all_over : All (λ (e : LeafCell). key <ℤ e.0) (cells_flat flat (c ∷ cs)) =
          All-imp (λ (e : LeafCell). c.0 ≤ℤ e.0) (λ e. key <ℤ e.0) (λ e h. omega (arith, h, under))
            _ (CellsAll-flat (λ x. c.0 ≤ℤ x) (λ x. c.0 ≤ℤ x) (c ∷ cs) h.2) in
        rw l (
          attach-flat flat r (c ∷ cs)
          ∙ ap (λ (x : List LeafCell). x ++ cells_flat flat (c ∷ cs)) (rw l at g)
          ∙ sym (at_left (flat t) (cells_flat flat (c ∷ cs)) all_over))
    | inr l ↦
        let over : c.0 ≤ℤ key = ground arith in
        let all_under : All (λ (e : LeafCell). e.0 <ℤ key) (flat t) =
          All-imp (λ (e : LeafCell). e.0 <ℤ c.0) (λ e. e.0 <ℤ key) (λ e h. omega (arith, h, over)) _
            (all_flat (λ x. x <ℤ c.0) (λ x. x ≤ℤ c.0) t h.1) in
        rw l (
          ap (λ (x : List LeafCell). flat t ++ x)
            (grow_row-flat key update at_left at_right r c.1 cs h.3 (rw l at g))
          ∙ sym (at_right (flat t) (cells_flat flat (c ∷ cs)) all_under))
  ]

  -- A key is found in the child that it is routed to, or nowhere.
  pub find_cell-routed :
      (key : ℤ) (t : T) (cs : List (ℤ × T))
      → RowOrd AllT Ord t cs
      → find_cell (flat (routed key t cs)) key ≡ find_cell (row_flat flat t cs) key
  unfolding routed
  find_cell-routed key t [] h =
      ap (λ (x : List LeafCell). find_cell x key) (sym (append-nil (flat t)))
  find_cell-routed key t (c ∷ cs) h = elim (Bool-cases (ltb_ℤ key c.0)) [
    | inl l ↦
        let under : key <ℤ c.0 = (ltb_ℤ_iff key c.0).0 l in
        rw l (
          sym (
            find_cell-append_left key (flat t) (cells_flat flat (c ∷ cs)) (
              All-imp (λ (e : LeafCell). c.0 ≤ℤ e.0) (λ e. key <ℤ e.0)
                (λ e h. omega (arith, h, under)) _
                (CellsAll-flat (λ x. c.0 ≤ℤ x) (λ x. c.0 ≤ℤ x) (c ∷ cs) h.2))))
    | inr l ↦
        let over : c.0 ≤ℤ key = ground arith in
        rw l (
          find_cell-routed key c.1 cs h.3
          ∙ sym (
              find_cell-append_right key (flat t) (cells_flat flat (c ∷ cs)) (
                All-imp (λ (e : LeafCell). e.0 <ℤ c.0) (λ e. e.0 <ℤ key)
                  (λ e h. omega (arith, h, over)) _
                  (all_flat (λ x. x <ℤ c.0) (λ x. x ≤ℤ c.0) t h.1))))
  ]
