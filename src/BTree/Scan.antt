-- ===== src/BTree/Scan.antt =====
-- src/btree.cpp: RangeScan along a chain of leaves.
use toy_relational_database.Prelude.{
  All, Bool-cases, List, Option, [], ap, append-nil, arith, false, if◌then◌else◌, inl, inr, length,
  ltb_ℤ, lt→ltb, refl, some, suc, sym, true, zero, ℕ, ℤ, ◌++◌, ◌<ℤ◌, ◌<◌, ◌==◌, ◌||◌, ◌∷◌, ◌≡◌,
}
use toy_relational_database.Errors.{ok}
use toy_relational_database.BTree.{LeafCell, Node, leaf, Pages, fetch, invalid_page_id}
use toy_relational_database.BTree.Lookup.{scan_cells, scan_node, scan_leaves}
use toy_relational_database.BTree.Rows.{Sorted, All-imp, All-append_iff}
use toy_relational_database.BTree.Tree.{LeafPage}

-- The entries whose keys are in the closed range.
unfoldable pub between : ℤ → ℤ → List LeafCell → List LeafCell
between low high [] = []
between low high (c ∷ cs) =
    let rest = between low high cs in if ltb_ℤ c.0 low || ltb_ℤ high c.0 then rest else c ∷ rest

between-append :
    (low high : ℤ) (xs ys : List LeafCell)
    → between low high (xs ++ ys) ≡ between low high xs ++ between low high ys
unfolding between
between-append low high [] ys = refl
between-append low high (x ∷ xs) ys = ground (arith, between-append low high xs ys)

pub between-under :
    (low high : ℤ) (xs ys : List LeafCell)
    → All (λ c. c.0 <ℤ low) xs
    → between low high (xs ++ ys) ≡ between low high ys
unfolding between
between-under low high [] ys h = refl
between-under low high (x ∷ xs) ys h = ground (arith, between-under low high xs ys h.1)

between-over :
    (low high : ℤ) (xs : List LeafCell) → All (λ c. high <ℤ c.0) xs → between low high xs ≡ []
unfolding between
between-over low high [] h = refl
between-over low high (x ∷ xs) h = ground (arith, between-over low high xs h.1)

pub between-empty : (low high : ℤ) (xs : List LeafCell) → high <ℤ low → between low high xs ≡ []
unfolding between
between-empty low high [] h = refl
between-empty low high (x ∷ xs) h = ground (arith, between-empty low high xs h)

-- One leaf: what it adds, and whether the rest can be left out.
scan_cells-between :
    (cs : List LeafCell) (low high : ℤ)
    → Sorted cs
    → (scan_cells cs low high).0 ≡ between low high cs
unfolding scan_cells between
scan_cells-between [] low high s = refl
scan_cells-between (c ∷ cs) low high s = elim (Bool-cases (ltb_ℤ high c.0)) [
  | inl over ↦
      let beyond : All (λ d. high <ℤ d.0) cs =
        (let o : high <ℤ c.0 = ground arith in
          All-imp (λ d. c.0 <ℤ d.0) (λ d. high <ℤ d.0) (λ d l. omega (arith, o, l)) cs s.0) in
      ground (arith, between-over low high cs beyond, scan_cells-between cs low high s.1)
  | inr l ↦ ground (arith, scan_cells-between cs low high s.1)
]

scan_cells-past :
    (cs ys : List LeafCell) (low high : ℤ)
    → Sorted (cs ++ ys)
    → (scan_cells cs low high).1 ≡ true
    → All (λ c. high <ℤ c.0) ys
unfolding scan_cells
scan_cells-past [] ys low high s e = cc
scan_cells-past (c ∷ cs) ys low high s e = elim (Bool-cases (ltb_ℤ high c.0)) [
  | inl over ↦
      let o : high <ℤ c.0 = ground arith in
      All-imp (λ d. c.0 <ℤ d.0) (λ d. high <ℤ d.0) (λ d l. omega (arith, o, l)) ys
        ((All-append_iff (λ (d : LeafCell). c.0 <ℤ d.0) cs ys).0 s.0).1
  | inr l ↦
      scan_cells-past cs ys low high s.1
        (elim (Bool-cases (ltb_ℤ c.0 low)) [ inl u ↦ (rw u at e) | inr u ↦ (rw (u, l) at e) ])
]

pub Sorted-sides : (xs ys : List LeafCell) → Sorted (xs ++ ys) → Sorted xs × Sorted ys
Sorted-sides [] ys s = (tt, s)
Sorted-sides (x ∷ xs) ys s =
    let rest = Sorted-sides xs ys s.1 in
    ((((All-append_iff (λ (d : LeafCell). x.0 <ℤ d.0) xs ys).0 s.0).0, rest.0), rest.1)

abbrev pub cells_of : List LeafPage → List LeafCell
cells_of [] = []
cells_of (l ∷ ls) = l.cells ++ cells_of ls

abbrev pub head_id : List LeafPage → ℕ → ℕ
head_id [] after = after
head_id (l ∷ ls) after = l.id

-- The leaves are in their pages, each linked to the next one.
abbrev pub Linked : (ℕ → Option Node) → List LeafPage → ℕ → Type 0
Linked page [] after = Unit
Linked page (l ∷ ls) after =
    page l.id ≡ some (leaf l.next l.cells) × l.next ≡ head_id ls after × Linked page ls after

pub scan_leaves-between :
    (ls : List LeafPage) (fuel : ℕ) (pages : Pages) (low high : ℤ)
    → length ls < fuel
    → 0 < pages.pool_size
    → Linked pages.page ls invalid_page_id
    → All (λ l. l.id < invalid_page_id) ls
    → Sorted (cells_of ls)
    → scan_leaves fuel pages low high (head_id ls invalid_page_id)
      ≡ ok (between low high (cells_of ls))
unfolding scan_leaves fetch scan_node between
scan_leaves-between ls zero pages low high enough room linked ids s =
    let bad : ⊥ = omega (arith, enough) in elim bad [ ]
scan_leaves-between [] (suc fuel) pages low high enough room linked ids s = refl
scan_leaves-between (l ∷ ls) (suc fuel) pages low high enough room linked ids s =
    let no_end : (l.id == invalid_page_id) ≡ false = (let b = ids.0 in ground (arith, b)) in
    let sides = Sorted-sides l.cells (cells_of ls) s in
    let here = scan_cells-between l.cells low high sides.0 in
    let rest =
      scan_leaves-between ls fuel pages low high (omega (arith, enough)) room linked.2 ids.1
        sides.1 in
    rw (no_end, lt→ltb 0 pages.pool_size room, linked.0)
      (elim (Bool-cases (scan_cells l.cells low high).1) [
        | inl past ↦
            rw
              (
                past,
                here,
                between-append low high l.cells (cells_of ls),
                between-over low high (cells_of ls)
                    (scan_cells-past l.cells (cells_of ls) low high s past),
              )
              (ap ok (sym (append-nil _)))
        | inr more ↦
            rw (more, linked.1, rest, here, between-append low high l.cells (cells_of ls)) refl
      ])
