-- ===== src/BTree/Lookup.antt =====
-- src/btree.cpp: the descent to a leaf, and Get, Delete and RangeScan.
use toy_relational_database.Prelude.{
  Bool, Bytes, List, Option, [], eqb_ℤ, false, if◌then◌else◌, ltb_ℤ, none, some, suc, true, zero, ℕ,
  ℤ, ◌++◌, ◌+◌, ◌==◌, ◌∷◌,
}
use toy_relational_database.Errors.{Result, ok, throw, logic_error, out_of_fuel, ◌>>=◌}
use toy_relational_database.BTree.{
  fetch, store, route, child_at, remove_at, Pages, BTree, LeafCell, Node, leaf, internal, metadata,
  invalid_page_id,
}

-- FindLeafPageId: one level further down in each round.
unfoldable pub next_node :
    (ℕ → Result (ℕ × ℕ × List LeafCell)) → ℤ → ℕ → Node → Result (ℕ × ℕ × List LeafCell)
unfolding route child_at
next_node continue key id (leaf next_leaf cells) = ok (id, next_leaf, cells)
next_node continue key id (metadata root) = throw logic_error
next_node continue key id (internal leftmost cells) =
    continue (child_at leftmost cells (route cells key))

-- The leaf's page id, with what is then read of that page.
unfoldable pub find_leaf : ℕ → Pages → ℤ → ℕ → Result (ℕ × ℕ × List LeafCell)
unfolding fetch next_node
find_leaf zero pages key cur = throw out_of_fuel
find_leaf (suc fuel) pages key cur =
    fetch 0 pages cur >>= next_node (find_leaf fuel pages key) key cur

-- The loop of Get over the cells.
unfoldable pub find_cell : List LeafCell → ℤ → Option Bytes
find_cell [] key = none
find_cell (c ∷ cs) key = let rest = find_cell cs key in if eqb_ℤ c.0 key then some c.1 else rest

unfoldable pub get : ℕ → BTree → ℤ → Result (Option Bytes)
unfolding find_leaf find_cell
get fuel tree key =
    find_leaf fuel tree.pages key tree.root_page_id >>= λ found. ok (find_cell found.2 key)

-- The loop of Delete over the cells from `i` on: the place of the key.
unfoldable pub cell_index : ℕ → List LeafCell → ℤ → Option ℕ
cell_index i [] key = none
cell_index i (c ∷ cs) key =
    let rest = cell_index (i + 1) cs key in if eqb_ℤ c.0 key then some i else rest

unfoldable pub delete_at : BTree → ℕ × ℕ × List LeafCell → Option ℕ → Bool × BTree
unfolding store remove_at
delete_at tree (id, next_leaf, cells) none = (false, tree)
delete_at tree (id, next_leaf, cells) (some i) =
    (true, record tree { pages = store tree.pages id (leaf next_leaf (remove_at i cells)) })

unfoldable pub delete : ℕ → BTree → ℤ → Result (Bool × BTree)
unfolding find_leaf cell_index delete_at
delete fuel tree key = find_leaf fuel tree.pages key tree.root_page_id >>= λ found.
    ok (delete_at tree found (cell_index 0 found.2 key))

-- The inner loop of RangeScan: what one leaf adds, and `past_high`.
unfoldable pub scan_cells : List LeafCell → ℤ → ℤ → List LeafCell × Bool
scan_cells [] low high = ([], false)
scan_cells (c ∷ cs) low high =
    let rest = scan_cells cs low high in
    if ltb_ℤ c.0 low then rest else if ltb_ℤ high c.0 then ([], true) else (c ∷ rest.0, rest.1)

-- A page of the chain; only leaves are in it.
unfoldable pub scan_node : (ℕ → Result (List LeafCell)) → ℤ → ℤ → Node → Result (List LeafCell)
unfolding scan_cells
scan_node continue low high (internal leftmost cells) = throw logic_error
scan_node continue low high (metadata root) = throw logic_error
scan_node continue low high (leaf next_leaf cells) =
    let found = scan_cells cells low high in
    let more = continue next_leaf >>= λ rest. ok (found.0 ++ rest) in
    if found.1 then ok found.0 else more

-- The outer loop along the chain.
unfoldable pub scan_leaves : ℕ → Pages → ℤ → ℤ → ℕ → Result (List LeafCell)
unfolding fetch scan_node
scan_leaves zero pages low high id = throw out_of_fuel
scan_leaves (suc fuel) pages low high id =
    let more = fetch 0 pages id >>= scan_node (scan_leaves fuel pages low high) low high in
    if id == invalid_page_id then ok [] else more

unfoldable pub range_scan : ℕ → BTree → ℤ → ℤ → Result (List LeafCell)
unfolding find_leaf scan_leaves
range_scan fuel tree low high =
    if ltb_ℤ high low
    then ok []
    else (find_leaf fuel tree.pages low tree.root_page_id >>= λ found.
        scan_leaves fuel tree.pages low high found.0)
