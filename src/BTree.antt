-- ===== src/BTree.antt =====
-- include/btree.h, include/btree_node.h and src/btree.cpp: the tree over the pages that the buffer pool
-- hands out. A node page is taken as its cells, of which num_slots tells how many there are; their byte
-- layout is left out. What the tree relies on in the pool: a page that is fetched has what was last written
-- to it, and a page that nobody has pinned can be brought in as long as fewer than `pool_size` are pinned.
-- `pins` counts the guards that the callers hold. A page of another type than the code takes it for, whose
-- bytes the program would misread, is a logic_error here.
pub mod Lookup
pub mod Rows
pub mod Shape
pub mod Order
pub mod Owned
pub mod Links
pub mod Space
pub mod Grow
pub mod Branch
pub mod Insert
pub mod Invariant
pub mod Root
pub mod Map
pub mod Reopen
pub mod Delete
pub mod Erase
pub mod Scan
pub mod Leaves
pub mod Range
pub mod Tree
use toy_relational_database.Prelude.{
  Bytes, List, Option, [], drop, eqb_ℤ, get_elem?, if◌then◌else◌, leb, length, ltb, ltb_ℤ, none,
  pos, set, some, suc, take, zero, ℕ, ℤ, ◌%◌, ◌+◌, ◌/◌, ◌==◌, ◌∷◌,
}
use toy_relational_database.Errors.{
  Result, ok, throw, io_error, short_read, pool_exhausted, invalid_argument, logic_error,
  out_of_fuel, ◌>>=◌,
}

-- value_len and the bytes that it counts; VALUE_SIZE bounds them.
abbrev pub LeafCell : Type 0
LeafCell = ℤ × Bytes

abbrev pub InternalCell : Type 0
InternalCell = ℤ × ℕ

abbrev pub value_size : ℕ
value_size = 120

abbrev pub leaf_max_keys : ℕ
leaf_max_keys = 4

abbrev pub internal_max_keys : ℕ
internal_max_keys = 4

-- NODE_DATA_OFFSET and the sizes of the cells, in bytes
abbrev pub node_data_offset : ℕ
node_data_offset = 32

abbrev pub leaf_cell_size : ℕ
leaf_cell_size = 136

abbrev pub internal_cell_size : ℕ
internal_cell_size = 16

-- INVALID_PAGE_ID, the end of the chain of leaves.
abbrev pub invalid_page_id : ℕ
invalid_page_id = 4294967295

-- A page by its page_type, with the field of NodeExtra that is meaningful.
pub data Node : Type 0 where
  -- root_page_id
  metadata : ℕ → Node
  -- next_leaf, cells
  leaf : ℕ → List LeafCell → Node
  -- leftmost_child, cells
  internal : ℕ → List InternalCell → Node

pub record Pages : Type 0 where
  pub page : ℕ → Option Node
  pub next_page_id : ℕ
  pub pool_size : ℕ

-- FetchPage, and what is read through the guard.
abbrev pub read_node : Option Node → Result Node
read_node none = throw (io_error short_read)
read_node (some node) = ok node

unfoldable pub fetch : ℕ → Pages → ℕ → Result Node
fetch pins pages id =
    if ltb pins pages.pool_size then read_node (pages.page id) else throw pool_exhausted

-- What was written through the guard of a pinned page.
unfoldable pub store : Pages → ℕ → Node → Pages
store pages id node = record pages { page = λ p. if p == id then some node else pages.page p }

-- NewPage, with what is written to the new page. The counter is a `uint32_t` and wraps.
unfoldable pub new_page : ℕ → Pages → Node → Result (ℕ × Pages)
unfolding store
new_page pins pages node =
    if ltb pins pages.pool_size
    then ok (
      pages.next_page_id,
      record (store pages pages.next_page_id node) {
        next_page_id = (pages.next_page_id + 1) % 4294967296;
      },
    )
    else throw pool_exhausted

-- `while (idx < num && cells[idx].key < key) idx++`
unfoldable pub position : List LeafCell → ℤ → ℕ
position [] key = 0
position (c ∷ cs) key = let rest = position cs key in if ltb_ℤ c.0 key then suc rest else 0

-- `while (idx < num && key >= cells[idx].key) idx++`
unfoldable pub route : List InternalCell → ℤ → ℕ
route [] key = 0
route (c ∷ cs) key = let rest = route cs key in if ltb_ℤ key c.0 then 0 else suc rest

-- `(idx == 0) ? leftmost_child : cells[idx - 1].child`
unfoldable pub child_at : ℕ → List InternalCell → ℕ → ℕ
child_at leftmost cells zero = leftmost
child_at leftmost [] (suc idx) = leftmost
child_at leftmost (c ∷ cs) (suc idx) = child_at c.1 cs idx

-- The memmove that makes room, and the cell written there.
unfoldable pub insert_at {ℓ} : {A : Type ℓ} → ℕ → A → List A → List A
insert_at zero a xs = a ∷ xs
insert_at (suc n) a [] = a ∷ []
insert_at (suc n) a (x ∷ xs) = x ∷ insert_at n a xs

-- The memmove of Delete.
unfoldable pub remove_at {ℓ} : {A : Type ℓ} → ℕ → List A → List A
remove_at n [] = []
remove_at zero (x ∷ xs) = xs
remove_at (suc n) (x ∷ xs) = x ∷ remove_at n xs

pub record SplitResult : Type 0 where
  pub promoted_key : ℤ
  pub new_right_page_id : ℕ

-- SplitLeafIfNeeded on the leaf page `id`, whose guard is among the `pins`.
unfoldable pub first_key : List LeafCell → ℤ
first_key [] = pos 0
first_key (c ∷ cs) = c.0

unfoldable pub split_leaf_if_needed :
    ℕ → Pages → ℕ → ℕ → List LeafCell → Result (Option SplitResult × Pages)
unfolding store new_page first_key
split_leaf_if_needed pins pages id next_leaf cells =
    if leb (length cells) leaf_max_keys
    then ok (none, store pages id (leaf next_leaf cells))
    else let split_point = length cells / 2 in
      let right = drop split_point cells in
      (new_page pins pages (leaf next_leaf right) >>= λ r. ok (
        some (record { promoted_key = first_key right; new_right_page_id = r.0 }),
        store r.1 id (leaf r.0 (take split_point cells)),
      ))

-- The right half of an internal page: its leftmost child is that of the middle cell.
unfoldable pub split_cells :
    ℕ → Pages → ℕ → ℕ → List InternalCell → List InternalCell → Result (Option SplitResult × Pages)
unfolding store new_page
split_cells pins pages id leftmost left [] = ok (none, store pages id (internal leftmost left))
split_cells pins pages id leftmost left (middle ∷ right) =
    new_page pins pages (internal middle.1 right) >>= λ r. ok (
      some (record { promoted_key = middle.0; new_right_page_id = r.0 }),
      store r.1 id (internal leftmost left),
    )

unfoldable pub split_internal_if_needed :
    ℕ → Pages → ℕ → ℕ → List InternalCell → Result (Option SplitResult × Pages)
unfolding store split_cells
split_internal_if_needed pins pages id leftmost cells =
    if leb (length cells) internal_max_keys
    then ok (none, store pages id (internal leftmost cells))
    else split_cells pins pages id leftmost (take (length cells / 2) cells)
        (drop (length cells / 2) cells)

-- InsertRecursive at a leaf: an update in place, or a new cell.
unfoldable pub insert_leaf :
    ℕ
    → Pages
    → ℕ
    → ℕ
    → List LeafCell
    → ℤ
    → Bytes
    → Option LeafCell
    → Result (Option SplitResult × Pages)
unfolding store split_leaf_if_needed insert_at position
insert_leaf pins pages id next_leaf cells key value none =
    split_leaf_if_needed pins pages id next_leaf (insert_at (position cells key) (key, value) cells)
insert_leaf pins pages id next_leaf cells key value (some c) =
    if eqb_ℤ c.0 key
    then ok (none, store pages id (leaf next_leaf (set cells (position cells key) (c.0, value))))
    else split_leaf_if_needed pins pages id next_leaf
        (insert_at (position cells key) (key, value) cells)

-- InsertRecursive at an internal page, behind the recursive call: the page is still pinned, and is read
-- again.
unfoldable pub insert_child :
    ℕ → ℕ → ℤ → Option SplitResult × Pages → Result (Option SplitResult × Pages)
unfolding split_internal_if_needed insert_at
insert_child pins id key (none, pages) = ok (none, pages)
insert_child pins id key (some split, pages) = elim (pages.page id) [
  | none ↦ throw (io_error short_read)
  | some node ↦ elim node [
    | metadata root ↦ throw logic_error
    | leaf next_leaf cells ↦ throw logic_error
    | internal leftmost cells ↦
        split_internal_if_needed pins pages id leftmost
          (insert_at (route cells key) (split.promoted_key, split.new_right_page_id) cells)
  ]
]

unfoldable pub insert_node :
    (Pages → ℕ → Result (Option SplitResult × Pages))
    → ℕ
    → Pages
    → ℕ
    → ℤ
    → Bytes
    → Node
    → Result (Option SplitResult × Pages)
unfolding insert_leaf insert_child position route child_at
insert_node recurse pins pages id key value (leaf next_leaf cells) =
    insert_leaf pins pages id next_leaf cells key value (get_elem? cells (position cells key))
insert_node recurse pins pages id key value (metadata root) = throw logic_error
insert_node recurse pins pages id key value (internal leftmost cells) =
    recurse pages (child_at leftmost cells (route cells key)) >>= insert_child pins id key

-- InsertRecursive; the guard of each page on the way stays pinned.
unfoldable pub insert_recursive :
    ℕ → ℕ → Pages → ℤ → Bytes → ℕ → Result (Option SplitResult × Pages)
unfolding fetch insert_node
insert_recursive zero pins pages key value id = throw out_of_fuel
insert_recursive (suc fuel) pins pages key value id =
    fetch pins pages id
    >>= insert_node (λ pages child. insert_recursive fuel (pins + 1) pages key value child)
        (pins + 1) pages id key value

-- Where the root is recorded: in the metadata page, or by the catalog, which `on_root_changed` has told it.
pub data RootRecord : Type 0 where
  single_table : RootRecord
  catalog_managed : ℕ → RootRecord

pub record BTree : Type 0 where
  pub pages : Pages
  pub root_page_id : ℕ
  pub root_record : RootRecord

-- metadata_page_id_; the metadata page is the first one of the database.
abbrev pub metadata_page_id : ℕ
metadata_page_id = 0

-- `GetMetadata(meta_guard.page())->root_page_id`
unfoldable pub open_at : Pages → Node → Result BTree
open_at pages (metadata root) =
    ok (record { pages = pages; root_page_id = root; root_record = single_table })
open_at pages (leaf next_leaf cells) = throw logic_error
open_at pages (internal leftmost cells) = throw logic_error

-- The constructor over a metadata page: on an empty database that page comes first and is still pinned when
-- the empty root leaf is made; then the root is written to it.
unfoldable pub open_tree : Pages → Result BTree
unfolding fetch store new_page open_at
open_tree pages =
    if pages.next_page_id == 0
    then (new_page 0 pages (metadata 0) >>= λ meta.
        new_page 1 meta.1 (leaf invalid_page_id []) >>= λ r. ok (record {
          pages = store r.1 meta.0 (metadata r.0);
          root_page_id = r.0;
          root_record = single_table;
        }))
    else (fetch 0 pages metadata_page_id >>= open_at pages)

-- The new root is recorded.
unfoldable pub record_root : Pages → ℕ → RootRecord → Result BTree
unfolding fetch store
record_root pages root single_table = fetch 0 pages metadata_page_id >>= λ node. ok (record {
  pages = store pages metadata_page_id (metadata root);
  root_page_id = root;
  root_record = single_table;
})
record_root pages root (catalog_managed told) =
    ok (record { pages = pages; root_page_id = root; root_record = catalog_managed root })

-- Insert behind InsertRecursive: the root itself may have split.
unfoldable pub grow_root : BTree → Option SplitResult × Pages → Result BTree
unfolding new_page record_root
grow_root tree (none, pages) = ok (record tree { pages = pages })
grow_root tree (some split, pages) =
    new_page 0 pages
      (internal tree.root_page_id ((split.promoted_key, split.new_right_page_id) ∷ []))
    >>= λ r. record_root r.1 r.0 tree.root_record

unfoldable pub insert : ℕ → BTree → ℤ → Bytes → Result BTree
unfolding insert_recursive grow_root
insert fuel tree key value =
    if ltb value_size (length value)
    then throw invalid_argument
    else (insert_recursive fuel 0 tree.pages key value tree.root_page_id >>= grow_root tree)
