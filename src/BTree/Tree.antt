-- ===== src/BTree/Tree.antt =====
-- src/btree.cpp: a tree whose leaves are all at one depth, and how the pages hold it.
use toy_relational_database.Prelude.{
  All, List, Option, inl, inr, length, refl, some, suc, zero, ℕ, ℤ, ◌∙◌, ◌≡◌, ◌⊎◌,
}
use toy_relational_database.BTree.{LeafCell, Node, leaf, internal}
use toy_relational_database.BTree.Space.{LeafRoom, InternalRoom}
use toy_relational_database.BTree.Rows.{Sorted, All-imp, All-append_iff}
use toy_relational_database.BTree.Shape.{row_flat, RowAll, CellsAll-imp}
use toy_relational_database.BTree.Order.{RowOrd, CellsAll-flat}
use toy_relational_database.BTree.Links.{row_cells, RowChain}
use toy_relational_database.BTree.Owned.{CellsUse, RowUses, RowSep, cells_kept}

pub record LeafPage : Type 0 where
  pub id : ℕ
  pub next : ℕ
  pub cells : List LeafCell

pub record Branch (T : Type 0) : Type 0 where
  pub id : ℕ
  pub leftmost : T
  pub cells : List (ℤ × T)

-- By the height of the tree.
abbrev pub Tree : ℕ → Type 0
Tree zero = LeafPage
Tree (suc h) = Branch (Tree h)

abbrev pub root_id : (h : ℕ) → Tree h → ℕ
root_id zero t = t.id
root_id (suc h) t = t.id

abbrev pub flat : (h : ℕ) → Tree h → List LeafCell
flat zero t = t.cells
flat (suc h) t = row_flat (flat h) t.leftmost t.cells

abbrev pub AllKeys : (h : ℕ) → (ℤ → Type 0) → (ℤ → Type 0) → Tree h → Type 0
AllKeys zero P Q t = All (λ c. P c.0) t.cells
AllKeys (suc h) P Q t = RowAll (AllKeys h) P Q t.leftmost t.cells

abbrev pub Ordered : (h : ℕ) → Tree h → Type 0
Ordered zero t = Sorted t.cells
Ordered (suc h) t = RowOrd (AllKeys h) (Ordered h) t.leftmost t.cells

-- The page is one of the tree's.
abbrev pub Uses : (h : ℕ) → Tree h → ℕ → Type 0
Uses zero t p = p ≡ t.id
Uses (suc h) t p = p ≡ t.id ⊎ RowUses (Uses h) t.leftmost t.cells p

-- No page has two places in the tree.
abbrev pub Separate : (h : ℕ) → Tree h → Type 0
Separate zero t = Unit
Separate (suc h) t =
    (RowUses (Uses h) t.leftmost t.cells t.id → ⊥) × RowSep (Uses h) (Separate h) t.leftmost t.cells

abbrev pub first : (h : ℕ) → Tree h → ℕ
first zero t = t.id
first (suc h) t = first h t.leftmost

-- The leaves are linked from left to right, the last one to `after`.
abbrev pub Chained : (h : ℕ) → Tree h → ℕ → Type 0
Chained zero t after = t.next ≡ after
Chained (suc h) t after = RowChain (first h) (Chained h) t.leftmost t.cells after

-- The pages have the tree.
abbrev pub Held : (h : ℕ) → (ℕ → Option Node) → Tree h → Type 0
Held zero page t = page t.id ≡ some (leaf t.next t.cells)
Held (suc h) page t =
    page t.id ≡ some (internal (root_id h t.leftmost) (row_cells (root_id h) t.cells))
    × Held h page t.leftmost
    × All (λ c. Held h page c.1) t.cells

-- Every node has room in its page for one cell more than it has.
abbrev pub Fits : (h : ℕ) → Tree h → Type 0
Fits zero t = LeafRoom (length t.cells)
Fits (suc h) t = InternalRoom (length t.cells) × Fits h t.leftmost × All (λ c. Fits h c.1) t.cells

pub AllKeys-imp :
    (h : ℕ) (P Q P' Q' : ℤ → Type 0)
    → ((x : ℤ) → P x → P' x)
    → ((x : ℤ) → Q x → Q' x)
    → (t : Tree h) → AllKeys h P Q t
    → AllKeys h P' Q' t
AllKeys-imp zero P Q P' Q' f g t a = All-imp (λ c. P c.0) (λ c. P' c.0) (λ c. f c.0) t.cells a
AllKeys-imp (suc h) P Q P' Q' f g t a = (
  AllKeys-imp h P Q P' Q' f g t.leftmost a.0,
  CellsAll-imp (AllKeys h) (AllKeys-imp h) P Q P' Q' f g t.cells a.1,
)

pub AllKeys-flat :
    (h : ℕ) (P Q : ℤ → Type 0) (t : Tree h) → AllKeys h P Q t → All (λ c. P c.0) (flat h t)
AllKeys-flat zero P Q t a = a
AllKeys-flat (suc h) P Q t a = (All-append_iff (λ (c : LeafCell). P c.0) (flat h t.leftmost) _).1 (
  AllKeys-flat h P Q t.leftmost a.0,
  CellsAll-flat (flat h) (AllKeys h) (Ordered h) (AllKeys-flat h) P Q t.cells a.1,
)

pub root_used : (h : ℕ) (t : Tree h) → Uses h t (root_id h t)
root_used zero t = refl
root_used (suc h) t = inl refl

-- A write to other pages leaves the tree as it is.
pub Held-frame :
    (h : ℕ) (page page' : ℕ → Option Node) (t : Tree h)
    → Held h page t
    → ((p : ℕ) → Uses h t p → page' p ≡ page p)
    → Held h page' t
Held-frame zero page page' t a same = same t.id refl ∙ a
Held-frame (suc h) page page' t a same = (
  same t.id (inl refl) ∙ a.0,
  Held-frame h page page' t.leftmost a.1 (λ p u. same p (inr (inl u))),
  cells_kept (Uses h) (Separate h) (Held h page) (Held h page') (λ p. page' p ≡ page p)
      (Held-frame h page page') t.cells a.2 (λ p u. same p (inr (inr u))),
)

pub CellsHeld-frame :
    (h : ℕ) (page page' : ℕ → Option Node) (cs : List (ℤ × Tree h))
    → All (λ c. Held h page c.1) cs
    → ((p : ℕ) → CellsUse (Uses h) cs p → page' p ≡ page p)
    → All (λ c. Held h page' c.1) cs
CellsHeld-frame h page page' cs a same =
    cells_kept (Uses h) (Separate h) (Held h page) (Held h page') (λ p. page' p ≡ page p)
      (Held-frame h page page') cs a same
