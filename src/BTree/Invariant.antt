-- ===== src/BTree/Invariant.antt =====
-- src/btree.cpp: what the pages of a whole tree keep, and the leaf that a key is looked for in.
use toy_relational_database.Prelude.{
  List, Option, arith, lt→ltb, refl, some, suc, zero, ℕ, ℤ, ◌<◌, ◌∙◌, ◌≡◌,
}
use toy_relational_database.Errors.{ok}
use toy_relational_database.BTree.{
  LeafCell, Node, Pages, BTree, fetch, invalid_page_id, metadata, metadata_page_id, RootRecord,
  single_table, catalog_managed,
}
use toy_relational_database.BTree.Lookup.{next_node, find_leaf, find_cell}
use toy_relational_database.BTree.Shape.{routed, routed-lem}
use toy_relational_database.BTree.Order.{Ord-routed, find_cell-routed}
use toy_relational_database.BTree.Links.{child_at-route}
use toy_relational_database.BTree.Tree.{
  LeafPage, Tree, root_id, flat, AllKeys, AllKeys-flat, Ordered, Uses, Separate, Chained, Held,
  Fits,
}

-- The root is where it was recorded.
abbrev pub RecordedBy : RootRecord → (ℕ → Option Node) → ℕ → Type 0
RecordedBy single_table page root = page metadata_page_id ≡ some (metadata root)
RecordedBy (catalog_managed told) page root = told ≡ root

pub RecordedBy-frame :
    (kept : RootRecord) (page page' : ℕ → Option Node) (root : ℕ)
    → page' metadata_page_id ≡ page metadata_page_id
    → RecordedBy kept page root
    → RecordedBy kept page' root
RecordedBy-frame single_table page page' root same e = same ∙ e
RecordedBy-frame (catalog_managed told) page page' root same e = e

-- The pages hold a tree of the height `h` whose entries are those of the map `m`; the first page is none of its.
pub record IsTree (h : ℕ) (tree : BTree) (m : List LeafCell) : Type 0 where
  pub shape : Tree h
  pub entries : flat h shape ≡ m
  pub root : tree.root_page_id ≡ root_id h shape
  pub recorded : RecordedBy tree.root_record tree.pages.page tree.root_page_id
  pub held : Held h tree.pages.page shape
  pub separate : Separate h shape
  pub ordered : Ordered h shape
  pub below : (p : ℕ) → Uses h shape p → p < tree.pages.next_page_id
  pub above : (p : ℕ) → Uses h shape p → metadata_page_id < p
  pub chained : Chained h shape invalid_page_id
  pub fits : Fits h shape

-- The leaf that a key is looked for in.
unfoldable pub leaf_of : (h : ℕ) → ℤ → Tree h → LeafPage
leaf_of zero key t = t
leaf_of (suc h) key t = leaf_of h key (routed key t.leftmost t.cells)

pub find_leaf-leaf_of :
    (h fuel : ℕ) (pages : Pages) (key : ℤ) (t : Tree h)
    → h < fuel
    → 0 < pages.pool_size
    → Held h pages.page t
    → find_leaf fuel pages key (root_id h t)
      ≡ ok ((leaf_of h key t).id, (leaf_of h key t).next, (leaf_of h key t).cells)
unfolding find_leaf fetch next_node leaf_of
find_leaf-leaf_of h zero pages key t enough room held =
    let bad : ⊥ = omega (arith, enough) in elim bad [ ]
find_leaf-leaf_of zero (suc fuel) pages key t enough room held =
    rw (lt→ltb 0 pages.pool_size room, held) refl
find_leaf-leaf_of (suc h) (suc fuel) pages key t enough room held =
    rw (lt→ltb 0 pages.pool_size room, held.0, child_at-route (root_id h) key t.leftmost t.cells)
      (find_leaf-leaf_of h fuel pages key (routed key t.leftmost t.cells) (omega (arith, enough))
        room (routed-lem (Held h pages.page) key t.leftmost t.cells held.1 held.2))

pub find_cell-leaf_of :
    (h : ℕ) (key : ℤ) (t : Tree h)
    → Ordered h t
    → find_cell (leaf_of h key t).cells key ≡ find_cell (flat h t) key
unfolding leaf_of
find_cell-leaf_of zero key t o = refl
find_cell-leaf_of (suc h) key t o =
    find_cell-leaf_of h key (routed key t.leftmost t.cells)
      (Ord-routed (AllKeys h) (Ordered h) key t.leftmost t.cells o)
    ∙ find_cell-routed (flat h) (AllKeys h) (Ordered h) (AllKeys-flat h) key t.leftmost t.cells o
