-- ===== src/BTree/Range.antt =====
-- src/btree.cpp: RangeScan of the whole tree, from the leaf that the lower end is routed to.
use toy_relational_database.Prelude.{
  All, Bool-cases, List, [], ap, append_assoc, arith, inl, inr, length, length-append, ltb_ℤ, refl,
  subst, suc, sym, zero, ℕ, ℤ, ◌++◌, ◌+◌, ◌<ℤ◌, ◌<◌, ◌∙◌, ◌∷◌, ◌≡◌, ◌≤ℤ◌, ◌≤◌,
}
use toy_relational_database.Errors.{ok}
use toy_relational_database.BTree.{LeafCell, BTree, invalid_page_id}
use toy_relational_database.BTree.Lookup.{scan_leaves, range_scan}
use toy_relational_database.BTree.Rows.{Sorted, All-imp, All-append_iff}
use toy_relational_database.BTree.Shape.{routed}
use toy_relational_database.BTree.Order.{RowOrd}
use toy_relational_database.BTree.Owned.{CellsUse}
use toy_relational_database.BTree.Tree.{LeafPage, Tree, AllKeys, AllKeys-flat, Ordered, Uses}
use toy_relational_database.BTree.Invariant.{IsTree, leaf_of, find_leaf-leaf_of}
use toy_relational_database.BTree.Scan.{
  between, between-under, between-empty, cells_of, Linked, scan_leaves-between, Sorted-sides,
}
use toy_relational_database.BTree.Leaves.{
  leaves, cells_leaves, cells_of-append, cells_of-leaves, Linked-drop, leaves-Linked, flat-Sorted,
}

row_leaves-below :
    (h bound : ℕ)
    → ((t : Tree h) → ((p : ℕ) → Uses h t p → p < bound) → All (λ l. l.id < bound) (leaves h t))
    → (cs : List (ℤ × Tree h)) → ((p : ℕ) → CellsUse (Uses h) cs p → p < bound)
    → All (λ l. l.id < bound) (cells_leaves (leaves h) cs)
row_leaves-below h bound f [] below = tt
row_leaves-below h bound f (c ∷ cs) below =
    (All-append_iff (λ (l : LeafPage). l.id < bound) (leaves h c.1) (cells_leaves (leaves h) cs)).1
      (f c.1 (λ p u. below p (inl u)), row_leaves-below h bound f cs (λ p u. below p (inr u)))

leaves-below :
    (h bound : ℕ) (t : Tree h)
    → ((p : ℕ) → Uses h t p → p < bound)
    → All (λ l. l.id < bound) (leaves h t)
leaves-below zero bound t below = (below t.id refl, tt)
leaves-below (suc h) bound t below =
    (All-append_iff (λ (l : LeafPage). l.id < bound) (leaves h t.leftmost)
        (cells_leaves (leaves h) t.cells)).1
      (
        leaves-below h bound t.leftmost (λ p u. below p (inr (inl u))),
        row_leaves-below h bound (leaves-below h bound) t.cells (λ p u. below p (inr (inr u))),
      )

-- A chain cut at one of its leaves, behind nothing but keys under `key`.
record CutAt (key : ℤ) (l : LeafPage) (whole : List LeafPage) : Type 0 where
  before : List LeafPage
  after : List LeafPage
  parts : whole ≡ before ++ l ∷ after
  under : All (λ c. c.0 <ℤ key) (cells_of before)

cut_before :
    (key : ℤ) (l : LeafPage) (xs ys : List LeafPage)
    → All (λ c. c.0 <ℤ key) (cells_of xs)
    → CutAt key l ys
    → CutAt key l (xs ++ ys)
cut_before key l xs ys under cut = record {
  before = xs ++ cut.before;
  after = cut.after;
  parts =
      ap (λ (t : List LeafPage). xs ++ t) cut.parts
      ∙ sym (append_assoc xs cut.before (l ∷ cut.after));
  under = rw (cells_of-append xs cut.before) (
      (All-append_iff (λ (c : LeafCell). c.0 <ℤ key) (cells_of xs) (cells_of cut.before)).1
        (under, cut.under));
}

cut_after :
    (key : ℤ) (l : LeafPage) (xs ys : List LeafPage) → CutAt key l xs → CutAt key l (xs ++ ys)
cut_after key l xs ys cut = record {
  before = cut.before;
  after = cut.after ++ ys;
  parts =
      ap (λ (t : List LeafPage). t ++ ys) cut.parts ∙ append_assoc cut.before (l ∷ cut.after) ys;
  under = cut.under;
}

row_cut :
    (h : ℕ) (key : ℤ)
    → ((t : Tree h) → Ordered h t → CutAt key (leaf_of h key t) (leaves h t))
    → (t : Tree h) (cs : List (ℤ × Tree h)) → RowOrd (AllKeys h) (Ordered h) t cs
    → CutAt key (leaf_of h key (routed key t cs)) (leaves h t ++ cells_leaves (leaves h) cs)
unfolding routed
row_cut h key f t [] o = cut_after key (leaf_of h key t) (leaves h t) [] (f t o)
row_cut h key f t (c ∷ cs) o = elim (Bool-cases (ltb_ℤ key c.0)) [
  | inl l ↦
      rw l
        (cut_after key (leaf_of h key t) (leaves h t) (cells_leaves (leaves h) (c ∷ cs)) (f t o.0))
  | inr l ↦
      let over : c.0 ≤ℤ key = ground arith in
      rw l (
        cut_before key (leaf_of h key (routed key c.1 cs)) (leaves h t)
          (cells_leaves (leaves h) (c ∷ cs))
          (rw (cells_of-leaves h t) (
            All-imp (λ (e : LeafCell). e.0 <ℤ c.0) (λ e. e.0 <ℤ key) (λ e q. omega (arith, q, over))
              _ (AllKeys-flat h (λ x. x <ℤ c.0) (λ x. x ≤ℤ c.0) t o.1)))
          (row_cut h key f c.1 cs o.3))
]

leaf_of-CutAt :
    (h : ℕ) (key : ℤ) (t : Tree h) → Ordered h t → CutAt key (leaf_of h key t) (leaves h t)
unfolding leaf_of
leaf_of-CutAt zero key t o = record { before = []; after = []; parts = refl; under = tt }
leaf_of-CutAt (suc h) key t o = row_cut h key (leaf_of-CutAt h key) t.leftmost t.cells o

-- RangeScan on a tree that holds a map answers the entries of the map whose keys are in the closed range, in
-- their order, when the fuel exceeds the height and the number of leaves, the pool has room for a page, and
-- INVALID_PAGE_ID has not been handed out.
pub range_scan-between :
    (h fuel : ℕ) (tree : BTree) (m : List LeafCell) (low high : ℤ)
    → (t : IsTree h tree m) → h < fuel
    → length (leaves h t.shape) < fuel
    → 0 < tree.pages.pool_size
    → tree.pages.next_page_id ≤ invalid_page_id
    → range_scan fuel tree low high ≡ ok (between low high m)
unfolding range_scan
range_scan-between h fuel tree m low high t deep long room few =
    elim (Bool-cases (ltb_ℤ high low)) [
      | inl none_left ↦
          let empty : high <ℤ low = ground arith in
          rw (none_left, between-empty low high m empty) refl
      | inr l ↦
          rw (l, t.root, find_leaf-leaf_of h fuel tree.pages low t.shape deep room t.held) from_leaf
    ]
  where
    cut : CutAt low (leaf_of h low t.shape) (leaves h t.shape)
    cut = leaf_of-CutAt h low t.shape t.ordered

    suffix : List LeafPage
    suffix = leaf_of h low t.shape ∷ cut.after

    entries : m ≡ cells_of cut.before ++ cells_of suffix
    entries =
        sym t.entries
        ∙ sym (cells_of-leaves h t.shape)
        ∙ ap cells_of cut.parts
        ∙ cells_of-append cut.before suffix

    count : length (leaves h t.shape) ≡ length cut.before + length suffix
    count = ap length cut.parts ∙ length-append cut.before suffix

    ids : All (λ l. l.id < invalid_page_id) suffix
    ids =
        ((All-append_iff (λ (l : LeafPage). l.id < invalid_page_id) cut.before suffix).0 (
          subst (All (λ (l : LeafPage). l.id < invalid_page_id)) cut.parts (
            leaves-below h invalid_page_id t.shape
              (λ p u. (let b = t.below p u in omega (arith, b, few)))))).1

    from_leaf :
        scan_leaves fuel tree.pages low high (leaf_of h low t.shape).id ≡ ok (between low high m)
    from_leaf =
        scan_leaves-between suffix fuel tree.pages low high (omega (arith, long, count)) room
          (Linked-drop tree.pages.page cut.before suffix invalid_page_id (
            subst (λ x. Linked tree.pages.page x invalid_page_id) cut.parts
              (leaves-Linked h tree.pages.page t.shape invalid_page_id t.held t.chained)))
          ids
          (Sorted-sides (cells_of cut.before) (cells_of suffix)
            (subst Sorted (t.entries ∙ entries) (flat-Sorted h t.shape t.ordered))).1
        ∙ ap ok (sym (between-under low high (cells_of cut.before) (cells_of suffix) cut.under))
        ∙ ap (λ (x : List LeafCell). ok (between low high x)) (sym entries)
