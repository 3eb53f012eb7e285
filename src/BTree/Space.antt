-- ===== src/BTree/Space.antt =====
-- include/btree_node.h and src/btree.cpp: a node fits in its page, with room for the one cell more that an
-- insertion puts there before it splits the page.
use toy_relational_database.Prelude.{
  All, Bool-cases, Bytes, List, [], ap, arith, inl, inr, length, ltb_ℤ, refl, suc, ℕ, ℤ, ◌*◌, ◌+◌,
  ◌∷◌, ◌≡◌, ◌≤◌,
}
use toy_relational_database.Page.{page_size}
use toy_relational_database.BTree.{LeafCell, node_data_offset, leaf_cell_size, internal_cell_size}
use toy_relational_database.BTree.Rows.{upsert}
use toy_relational_database.BTree.Erase.{erase}
use toy_relational_database.BTree.Shape.{Grown, one, two, GrownHave, attach, grow_row}

-- The bytes of a node page with `n` cells and one more.
abbrev pub LeafRoom : ℕ → Type 0
LeafRoom n = node_data_offset + leaf_cell_size * (n + 1) ≤ page_size

abbrev pub InternalRoom : ℕ → Type 0
InternalRoom n = node_data_offset + internal_cell_size * (n + 1) ≤ page_size

module _ {T : Type 0} where
  module _ (Have : T → Type 0) where
    attach-Have :
        (r : Grown T) (cs : List (ℤ × T))
        → GrownHave Have r
        → All (λ c. Have c.1) cs
        → Have (attach r cs).0 × All (λ c. Have c.1) (attach r cs).1
    attach-Have (one a) cs g h = (g, h)
    attach-Have (two a p b) cs g h = (g.0, (g.1, h))

    pub grow_row-Have :
        (r : Grown T) (key : ℤ) (t : T) (cs : List (ℤ × T))
        → GrownHave Have r
        → Have t
        → All (λ c. Have c.1) cs
        → Have (grow_row r key t cs).0 × All (λ c. Have c.1) (grow_row r key t cs).1
    unfolding grow_row
    grow_row-Have r key t [] g a h = attach-Have r [] g h
    grow_row-Have r key t (c ∷ cs) g a h = elim (Bool-cases (ltb_ℤ key c.0)) [
      | inl l ↦ rw l (attach-Have r (c ∷ cs) g h)
      | inr l ↦ let next = grow_row-Have r key c.1 cs g h.0 h.1 in rw l (a, (next.0, next.1))
    ]

  pub length-grow_row :
      (r : Grown T) (key : ℤ) (t : T) (cs : List (ℤ × T))
      → length (grow_row r key t cs).1 ≤ length cs + 1
  unfolding grow_row
  length-grow_row (one a) key t [] = omega arith
  length-grow_row (two a p b) key t [] = omega arith
  length-grow_row (one a) key t (c ∷ cs) =
      let next = length-grow_row (one a) key c.1 cs in
      elim (Bool-cases (ltb_ℤ key c.0)) [
        | inl l ↦ rw l (omega arith)
        | inr l ↦ rw l (omega (arith, next))
      ]
  length-grow_row (two a p b) key t (c ∷ cs) =
      let next = length-grow_row (two a p b) key c.1 cs in
      elim (Bool-cases (ltb_ℤ key c.0)) [
        | inl l ↦ rw l (omega arith)
        | inr l ↦ rw l (omega (arith, next))
      ]

  pub length-grow_row_one :
      (a : T) (key : ℤ) (t : T) (cs : List (ℤ × T))
      → length (grow_row (one a) key t cs).1 ≡ length cs
  unfolding grow_row
  length-grow_row_one a key t [] = refl
  length-grow_row_one a key t (c ∷ cs) =
      let next = length-grow_row_one a key c.1 cs in
      elim (Bool-cases (ltb_ℤ key c.0)) [ inl l ↦ rw l refl | inr l ↦ rw l (ap suc next) ]

pub length-upsert :
    (key : ℤ) (value : Bytes) (cells : List LeafCell)
    → length (upsert key value cells) ≤ length cells + 1
unfolding upsert
length-upsert key value [] = omega arith
length-upsert key value (c ∷ cs) = ground (arith, length-upsert key value cs)

pub length-erase : (key : ℤ) (cells : List LeafCell) → length (erase key cells) ≤ length cells
unfolding erase
length-erase key [] = omega arith
length-erase key (c ∷ cs) = ground (arith, length-erase key cs)
