-- ===== src/BTree/Owned.antt =====
-- src/btree.cpp: which pages a subtree uses, and that no page is used twice.
use toy_relational_database.Prelude.{
  All, Bool-cases, List, [], inl, inr, ltb_ℤ, ℕ, ℤ, ◌++◌, ◌∷◌, ◌⊎◌,
}
use toy_relational_database.BTree.Shape.{GrownHave, Grown, one, two, routed, attach, grow_row}

module _ {T : Type 0} (Uses : T → ℕ → Type 0) where
  abbrev pub CellsUse : List (ℤ × T) → ℕ → Type 0
  CellsUse [] p = ⊥
  CellsUse (c ∷ cs) p = Uses c.1 p ⊎ CellsUse cs p

  abbrev pub RowUses : T → List (ℤ × T) → ℕ → Type 0
  RowUses t cs p = Uses t p ⊎ CellsUse cs p

  abbrev pub GrownUses : Grown T → ℕ → Type 0
  GrownUses (one a) p = Uses a p
  GrownUses (two a k b) p = Uses a p ⊎ Uses b p

  pub routed-Uses :
      (key : ℤ) (t : T) (cs : List (ℤ × T)) (p : ℕ) → Uses (routed key t cs) p → RowUses t cs p
  unfolding routed
  routed-Uses key t [] p u = inl u
  routed-Uses key t (c ∷ cs) p u = elim (Bool-cases (ltb_ℤ key c.0)) [
    | inl l ↦ inl (rw l at u)
    | inr l ↦ inr (routed-Uses key c.1 cs p (rw l at u))
  ]

  attach-Uses :
      (r : Grown T) (cs : List (ℤ × T)) (p : ℕ)
      → RowUses (attach r cs).0 (attach r cs).1 p
      → GrownUses r p ⊎ CellsUse cs p
  attach-Uses (one a) cs p u = u
  attach-Uses (two a k b) cs p (inl u) = inl (inl u)
  attach-Uses (two a k b) cs p (inr (inl u)) = inl (inr u)
  attach-Uses (two a k b) cs p (inr (inr u)) = inr u

  -- Passing over the first child.
  over_first :
      {G N : Type 0} (t : T) (c : ℤ × T) (cs : List (ℤ × T)) (p : ℕ)
      → (N → G ⊎ RowUses c.1 cs p)
      → Uses t p ⊎ N
      → G ⊎ RowUses t (c ∷ cs) p
  over_first t c cs p more (inl u) = inr (inl u)
  over_first t c cs p more (inr n) = elim (more n) [ inl g ↦ inl g | inr w ↦ inr (inr w) ]

  pub grow_row-Uses :
      (r : Grown T) (key : ℤ) (t : T) (cs : List (ℤ × T)) (p : ℕ)
      → RowUses (grow_row r key t cs).0 (grow_row r key t cs).1 p
      → GrownUses r p ⊎ RowUses t cs p
  unfolding grow_row
  grow_row-Uses r key t [] p u = elim (attach-Uses r [] p u) [ inl g ↦ inl g | inr c ↦ elim c [ ] ]
  grow_row-Uses r key t (c ∷ cs) p u = elim (Bool-cases (ltb_ℤ key c.0)) [
    | inl l ↦ elim (attach-Uses r (c ∷ cs) p (rw l at u)) [ inl g ↦ inl g | inr m ↦ inr (inr m) ]
    | inr l ↦ over_first t c cs p (grow_row-Uses r key c.1 cs p) (rw l at u)
  ]

  pub CellsUse-append_left : (xs ys : List (ℤ × T)) (p : ℕ) → CellsUse xs p → CellsUse (xs ++ ys) p
  CellsUse-append_left [] ys p u = elim u [ ]
  CellsUse-append_left (x ∷ xs) ys p (inl u) = inl u
  CellsUse-append_left (x ∷ xs) ys p (inr u) = inr (CellsUse-append_left xs ys p u)

  pub CellsUse-append_right : (xs ys : List (ℤ × T)) (p : ℕ) → CellsUse ys p → CellsUse (xs ++ ys) p
  CellsUse-append_right [] ys p u = u
  CellsUse-append_right (x ∷ xs) ys p u = inr (CellsUse-append_right xs ys p u)

  -- No page is used by two of the children.
  module _ (Sep : T → Type 0) where
    abbrev pub RowSep : T → List (ℤ × T) → Type 0
    RowSep t [] = Sep t
    RowSep t (c ∷ cs) = Sep t × ((p : ℕ) → Uses t p → RowUses c.1 cs p → ⊥) × RowSep c.1 cs

    abbrev pub GrownSep : Grown T → Type 0
    GrownSep (one a) = Sep a
    GrownSep (two a k b) = Sep a × Sep b × ((p : ℕ) → Uses a p → Uses b p → ⊥)

    pub Sep-routed : (key : ℤ) (t : T) (cs : List (ℤ × T)) → RowSep t cs → Sep (routed key t cs)
    unfolding routed
    Sep-routed key t [] h = h
    Sep-routed key t (c ∷ cs) h = elim (Bool-cases (ltb_ℤ key c.0)) [
      | inl l ↦ rw l h.0
      | inr l ↦ rw l (Sep-routed key c.1 cs h.2)
    ]

    attach-Sep_nil : (r : Grown T) → GrownSep r → RowSep (attach r []).0 (attach r []).1
    attach-Sep_nil (one a) g = g
    attach-Sep_nil (two a k b) g = (g.0, (λ p u v. elim v [ inl w ↦ g.2 p u w | inr w ↦ w ]), g.1)

    attach-Sep :
        (r : Grown T) (c : ℤ × T) (cs : List (ℤ × T))
        → GrownSep r
        → ((p : ℕ) → GrownUses r p → RowUses c.1 cs p → ⊥)
        → RowSep c.1 cs
        → RowSep (attach r (c ∷ cs)).0 (attach r (c ∷ cs)).1
    attach-Sep (one a) c cs g apart h = (g, apart, h)
    attach-Sep (two a k b) c cs g apart h = (
      g.0,
      (λ p u v. elim v [ inl w ↦ g.2 p u w | inr w ↦ apart p (inl u) w ]),
      (g.1, (λ p u v. apart p (inr u) v), h),
    )

    -- What the child has become uses its own pages, and fresh ones.
    pub grow_row-Sep :
        (Fresh : ℕ → Type 0) (r : Grown T) (key : ℤ) (t : T) (cs : List (ℤ × T))
        → RowSep t cs
        → GrownSep r
        → ((p : ℕ) → GrownUses r p → Uses (routed key t cs) p ⊎ Fresh p)
        → ((p : ℕ) → RowUses t cs p → Fresh p → ⊥)
        → RowSep (grow_row r key t cs).0 (grow_row r key t cs).1
    unfolding grow_row routed
    grow_row-Sep Fresh r key t [] h g from old = attach-Sep_nil r g
    grow_row-Sep Fresh r key t (c ∷ cs) h g from old = elim (Bool-cases (ltb_ℤ key c.0)) [
      | inl l ↦ rw l (
          attach-Sep r c cs g
            (λ p u v. elim ((rw l at from) p u) [ inl w ↦ h.1 p w v | inr f ↦ old p (inr v) f ])
            h.2)
      | inr l ↦
          let deeper = rw l at from in
          rw l (
            h.0,
            (λ p u v. elim (grow_row-Uses r key c.1 cs p v) [
              | inl w ↦ elim (deeper p w) [
                | inl x ↦ h.1 p u (routed-Uses key c.1 cs p x)
                | inr f ↦ old p (inl u) f
              ]
              | inr w ↦ h.1 p u w
            ]),
            grow_row-Sep Fresh r key c.1 cs h.2 g deeper (λ p u f. old p (inr u) f),
          )
    ]

    pub RowSep-append :
        (t : T) (left : List (ℤ × T)) (c : ℤ × T) (right : List (ℤ × T))
        → RowSep t (left ++ c ∷ right)
        → RowSep t left × RowSep c.1 right × ((p : ℕ) → RowUses t left p → RowUses c.1 right p → ⊥)
    RowSep-append t [] c right h = (h.0, h.2, (λ p u v. elim u [ inl w ↦ h.1 p w v | inr w ↦ w ]))
    RowSep-append t (d ∷ left) c right h =
        let ih = RowSep-append d.1 left c right h.2 in
        (
          (
            h.0,
            (λ p u v. h.1 p u (elim v [
              | inl w ↦ inl w
              | inr w ↦ inr (CellsUse-append_left left (c ∷ right) p w)
            ])),
            ih.0,
          ),
          ih.1,
          (λ p u v. elim u [
            | inl w ↦ h.1 p w (inr (CellsUse-append_right left (c ∷ right) p v))
            | inr w ↦ ih.2 p w v
          ]),
        )

  -- What holds of each child, before and after.
  module _ (Sep Before After : T → Type 0) (Same : ℕ → Type 0)
      (kept : (u : T) → Before u → ((p : ℕ) → Uses u p → Same p) → After u) where
    pub cells_kept :
        (cs : List (ℤ × T))
        → All (λ c. Before c.1) cs
        → ((p : ℕ) → CellsUse cs p → Same p)
        → All (λ c. After c.1) cs
    cells_kept [] h same = tt
    cells_kept (c ∷ cs) h same =
        (kept c.1 h.0 (λ p u. same p (inl u)), cells_kept cs h.1 (λ p u. same p (inr u)))

    attach-Holds :
        (r : Grown T) (cs : List (ℤ × T))
        → GrownHave After r
        → All (λ c. After c.1) cs
        → After (attach r cs).0 × All (λ c. After c.1) (attach r cs).1
    attach-Holds (one a) cs g h = (g, h)
    attach-Holds (two a k b) cs g h = (g.0, (g.1, h))

    pub grow_row-Holds :
        (r : Grown T) (key : ℤ) (t : T) (cs : List (ℤ × T))
        → RowSep Sep t cs
        → Before t × All (λ c. Before c.1) cs
        → GrownHave After r
        → ((p : ℕ) → RowUses t cs p → (Uses (routed key t cs) p → ⊥) → Same p)
        → After (grow_row r key t cs).0 × All (λ c. After c.1) (grow_row r key t cs).1
    unfolding grow_row routed
    grow_row-Holds r key t [] s h g same = attach-Holds r [] g tt
    grow_row-Holds r key t (c ∷ cs) s h g same = elim (Bool-cases (ltb_ℤ key c.0)) [
      | inl l ↦
          let others = rw l at same in
          rw l (
            attach-Holds r (c ∷ cs) g
              (cells_kept (c ∷ cs) h.1 (λ p u. others p (inr u) (λ v. s.1 p v u))))
      | inr l ↦
          let others = rw l at same in
          let next =
            grow_row-Holds r key c.1 cs s.2 (h.1.0, h.1.1) g (λ p u n. others p (inr u) n) in
          rw l
            (kept t h.0 (λ p u. others p (inl u) (λ v. s.1 p u (routed-Uses key c.1 cs p v))), next)
    ]
