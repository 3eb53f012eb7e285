-- ===== src/BTree/Leaves.antt =====
-- src/btree.cpp: the chain of leaves of a tree, and RangeScan of the whole tree.
use toy_relational_database.Prelude.{
  All, List, Option, [], ap, append-nil, append_assoc, refl, suc, sym, zero, ℕ, ℤ, ◌++◌, ◌<ℤ◌, ◌∙◌,
  ◌∷◌, ◌≡◌, ◌≤ℤ◌,
}
use toy_relational_database.BTree.{LeafCell, Node}
use toy_relational_database.BTree.Rows.{Sorted, All-append_iff, Sorted-join}
use toy_relational_database.BTree.Shape.{row_flat, cells_flat}
use toy_relational_database.BTree.Order.{RowOrd, CellsAll-flat}
use toy_relational_database.BTree.Links.{RowChain}
use toy_relational_database.BTree.Tree.{
  LeafPage, Tree, flat, AllKeys, AllKeys-flat, Ordered, first, Chained, Held,
}
use toy_relational_database.BTree.Scan.{cells_of, head_id, Linked}

pub cells_of-append : (xs ys : List LeafPage) → cells_of (xs ++ ys) ≡ cells_of xs ++ cells_of ys
cells_of-append [] ys = refl
cells_of-append (x ∷ xs) ys =
    ap (λ (t : List LeafCell). x.cells ++ t) (cells_of-append xs ys)
    ∙ sym (append_assoc x.cells (cells_of xs) (cells_of ys))

head_id-append :
    (xs ys : List LeafPage) (after : ℕ) → head_id (xs ++ ys) after ≡ head_id xs (head_id ys after)
head_id-append [] ys after = refl
head_id-append (x ∷ xs) ys after = refl

Linked-append :
    (page : ℕ → Option Node) (xs ys : List LeafPage) (after : ℕ)
    → Linked page xs (head_id ys after)
    → Linked page ys after
    → Linked page (xs ++ ys) after
Linked-append page [] ys after h k = k
Linked-append page (x ∷ xs) ys after h k =
    (h.0, h.1 ∙ sym (head_id-append xs ys after), Linked-append page xs ys after h.2 k)

pub Linked-drop :
    (page : ℕ → Option Node) (xs ys : List LeafPage) (after : ℕ)
    → Linked page (xs ++ ys) after
    → Linked page ys after
Linked-drop page [] ys after h = h
Linked-drop page (x ∷ xs) ys after h = Linked-drop page xs ys after h.2

-- The leaves of a row, from left to right.
module _ {T : Type 0} (leaves_of : T → List LeafPage) where
  abbrev pub cells_leaves : List (ℤ × T) → List LeafPage
  cells_leaves [] = []
  cells_leaves (c ∷ cs) = leaves_of c.1 ++ cells_leaves cs

  cells_leaves-flat :
      (flat : T → List LeafCell)
      → ((t : T) → cells_of (leaves_of t) ≡ flat t)
      → (cs : List (ℤ × T)) → cells_of (cells_leaves cs) ≡ cells_flat flat cs
  cells_leaves-flat flat e [] = refl
  cells_leaves-flat flat e (c ∷ cs) =
      cells_of-append (leaves_of c.1) (cells_leaves cs)
      ∙ rw (e c.1, cells_leaves-flat flat e cs) refl

  row_leaves-Linked :
      (page : ℕ → Option Node) (Have : T → Type 0) (first : T → ℕ) (Chain : T → ℕ → Type 0)
      → ((t : T) (after : ℕ) → Have t → Chain t after → Linked page (leaves_of t) after)
      → ((t : T) (after : ℕ) → head_id (leaves_of t) after ≡ first t)
      → (t : T) (cs : List (ℤ × T)) (after : ℕ) → Have t
      → All (λ c. Have c.1) cs
      → RowChain first Chain t cs after
      → Linked page (leaves_of t ++ cells_leaves cs) after
  row_leaves-Linked page Have first Chain linked head t [] after a rest chain =
      rw (append-nil (leaves_of t)) (linked t after a chain)
  row_leaves-Linked page Have first Chain linked head t (c ∷ cs) after a rest chain =
      Linked-append page (leaves_of t) (cells_leaves (c ∷ cs)) after
        (rw (head_id-append (leaves_of c.1) (cells_leaves cs) after, head c.1)
          (linked t (first c.1) a chain.0))
        (row_leaves-Linked page Have first Chain linked head c.1 cs after rest.0 rest.1 chain.1)

  row_leaves-All :
      (P : LeafPage → Type 0) (Q : T → Type 0)
      → ((t : T) → Q t → All P (leaves_of t))
      → (cs : List (ℤ × T)) → All (λ c. Q c.1) cs
      → All P (cells_leaves cs)
  row_leaves-All P Q f [] h = tt
  row_leaves-All P Q f (c ∷ cs) h =
      (All-append_iff P (leaves_of c.1) (cells_leaves cs)).1
        (f c.1 h.0, row_leaves-All P Q f cs h.1)

abbrev pub leaves : (h : ℕ) → Tree h → List LeafPage
leaves zero t = t ∷ []
leaves (suc h) t = leaves h t.leftmost ++ cells_leaves (leaves h) t.cells

pub cells_of-leaves : (h : ℕ) (t : Tree h) → cells_of (leaves h t) ≡ flat h t
cells_of-leaves zero t = append-nil t.cells
cells_of-leaves (suc h) t =
    cells_of-append (leaves h t.leftmost) (cells_leaves (leaves h) t.cells)
    ∙ rw
        (
          cells_of-leaves h t.leftmost,
          cells_leaves-flat (leaves h) (flat h) (cells_of-leaves h) t.cells,
        )
        refl

head_id-leaves : (h : ℕ) (t : Tree h) (after : ℕ) → head_id (leaves h t) after ≡ first h t
head_id-leaves zero t after = refl
head_id-leaves (suc h) t after =
    head_id-append (leaves h t.leftmost) (cells_leaves (leaves h) t.cells) after
    ∙ head_id-leaves h t.leftmost _

pub leaves-Linked :
    (h : ℕ) (page : ℕ → Option Node) (t : Tree h) (after : ℕ)
    → Held h page t
    → Chained h t after
    → Linked page (leaves h t) after
leaves-Linked zero page t after held chain = (held, chain, tt)
leaves-Linked (suc h) page t after held chain =
    row_leaves-Linked (leaves h) page (Held h page) (first h) (Chained h) (leaves-Linked h page)
      (head_id-leaves h) t.leftmost t.cells after held.1 held.2 chain

row_Sorted :
    (h : ℕ)
    → ((t : Tree h) → Ordered h t → Sorted (flat h t))
    → (t : Tree h) (cs : List (ℤ × Tree h)) → RowOrd (AllKeys h) (Ordered h) t cs
    → Sorted (row_flat (flat h) t cs)
row_Sorted h f t [] o = rw (append-nil (flat h t)) (f t o)
row_Sorted h f t (c ∷ cs) o =
    Sorted-join c.0 (flat h t) (cells_flat (flat h) (c ∷ cs)) (f t o.0) (row_Sorted h f c.1 cs o.3)
      (AllKeys-flat h (λ x. x <ℤ c.0) (λ x. x ≤ℤ c.0) t o.1)
      (CellsAll-flat (flat h) (AllKeys h) (Ordered h) (AllKeys-flat h) (λ x. c.0 ≤ℤ x)
        (λ x. c.0 ≤ℤ x) (c ∷ cs) o.2)

pub flat-Sorted : (h : ℕ) (t : Tree h) → Ordered h t → Sorted (flat h t)
flat-Sorted zero t o = o
flat-Sorted (suc h) t o = row_Sorted h (flat-Sorted h) t.leftmost t.cells o
