-- ===== src/Tests/Trees.antt =====
-- src/btree.cpp at a tree of three pages.
use toy_relational_database.Prelude.{
  List, [], arith, eqb_ℤ, if◌then◌else◌, inl, inr, none, pos, refl, some, ◌++◌, ◌==◌, ◌∷◌, ◌≡◌, ◌⊎◌,
}
use toy_relational_database.Errors.{ok, ◌>>=◌}
use toy_relational_database.BTree.{
  LeafCell, leaf, internal, metadata, single_table, Pages, BTree, insert, open_tree,
  invalid_page_id,
}
use toy_relational_database.BTree.Lookup.{find_cell, get, delete, range_scan}
use toy_relational_database.BTree.Rows.{upsert}
use toy_relational_database.BTree.Tree.{Tree}
use toy_relational_database.BTree.Invariant.{IsTree}
use toy_relational_database.BTree.Map.{get-IsTree, insert-IsTree, get-insert}
use toy_relational_database.BTree.Reopen.{open_tree-IsTree}
use toy_relational_database.BTree.Erase.{erase}
use toy_relational_database.BTree.Delete.{delete-IsTree, get-delete, is_found}
use toy_relational_database.BTree.Scan.{between}
use toy_relational_database.BTree.Range.{range_scan-between}

abbrev low_cells : List LeafCell
low_cells = (pos 5, 97 ∷ []) ∷ []

-- Full, so that one more key makes it split.
abbrev high_cells : List LeafCell
high_cells = (pos 10, 98 ∷ []) ∷ (pos 12, 99 ∷ []) ∷ (pos 14, 100 ∷ []) ∷ (pos 16, 101 ∷ []) ∷ []

-- Page 0 is the metadata page.
abbrev three_pages : Pages
three_pages = record {
  page = λ p.
      if p == 1
      then some (leaf 2 low_cells)
      else if p == 2
      then some (leaf invalid_page_id high_cells)
      else if p == 3
      then some (internal 1 ((pos 10, 2) ∷ []))
      else if p == 0
      then some (metadata 3)
      else none;
  next_page_id = 4;
  pool_size = 8;
}

abbrev small_tree : BTree
small_tree = record { pages = three_pages; root_page_id = 3; root_record = single_table }

abbrev small_shape : Tree 1
small_shape = record {
  id = 3;
  leftmost = record { id = 1; next = 2; cells = low_cells };
  cells = (pos 10, record { id = 2; next = invalid_page_id; cells = high_cells }) ∷ [];
}

abbrev small_map : List LeafCell
small_map = low_cells ++ high_cells

abbrev small_tree_held : IsTree 1 small_tree small_map
small_tree_held = record {
  shape = small_shape;
  entries = refl;
  root = refl;
  recorded = refl;
  held = (refl, refl, (refl, tt));
  separate = (
    (λ u. elim u [
      | inl e ↦ omega (arith, e)
      | inr v ↦ elim v [ inl e ↦ omega (arith, e) | inr w ↦ w ]
    ]),
    (tt, (λ p u v. elim v [ inl e ↦ omega (arith, u, e) | inr w ↦ w ]), tt),
  );
  ordered = ((tt, tt), omega arith, omega arith, omega arith);
  below = λ p u. elim u [
    | inl e ↦ omega (arith, e)
    | inr v ↦ elim v [
      | inl e ↦ omega (arith, e)
      | inr w ↦ elim w [ inl e ↦ omega (arith, e) | inr x ↦ elim x [ ] ]
    ]
  ];
  above = λ p u. elim u [
    | inl e ↦ omega (arith, e)
    | inr v ↦ elim v [
      | inl e ↦ omega (arith, e)
      | inr w ↦ elim w [ inl e ↦ omega (arith, e) | inr x ↦ elim x [ ] ]
    ]
  ];
  chained = (refl, refl);
  fits = (omega arith, omega arith, (omega arith, tt));
}

get-IsTree_example : get 2 small_tree (pos 12) ≡ ok (find_cell small_map (pos 12))
get-IsTree_example =
    get-IsTree 1 2 small_tree small_map (pos 12) small_tree_held (omega arith) (omega arith)

insert-IsTree_example :
    (tree' : BTree) × (insert 2 small_tree (pos 11) (102 ∷ []) ≡ ok tree')
    × tree'.pages.pool_size ≡ small_tree.pages.pool_size
    × (IsTree 1 tree' (upsert (pos 11) (102 ∷ []) small_map)
        ⊎ IsTree 2 tree' (upsert (pos 11) (102 ∷ []) small_map))
insert-IsTree_example =
    insert-IsTree 1 2 small_tree small_map (pos 11) (102 ∷ []) small_tree_held (omega arith)
      (omega arith) (omega arith) (omega arith)

get-insert_example :
    (insert 3 small_tree (pos 11) (102 ∷ []) >>= λ tree'. get 3 tree' (pos 12))
    ≡ (if eqb_ℤ (pos 11) (pos 12) then ok (some (102 ∷ [])) else get 3 small_tree (pos 12))
get-insert_example =
    get-insert 1 3 small_tree small_map (pos 11) (pos 12) (102 ∷ []) small_tree_held (omega arith)
      (omega arith) (omega arith) (omega arith)

delete-IsTree_example :
    (tree' : BTree) × (delete 2 small_tree (pos 12)
      ≡ ok (is_found (find_cell small_map (pos 12)), tree'))
    × tree'.pages.pool_size ≡ small_tree.pages.pool_size
    × IsTree 1 tree' (erase (pos 12) small_map)
delete-IsTree_example =
    delete-IsTree 1 2 small_tree small_map (pos 12) small_tree_held (omega arith) (omega arith)

get-delete_example :
    (delete 2 small_tree (pos 12) >>= λ r. get 2 r.1 (pos 12))
    ≡ (if eqb_ℤ (pos 12) (pos 12) then ok none else get 2 small_tree (pos 12))
get-delete_example =
    get-delete 1 2 small_tree small_map (pos 12) (pos 12) small_tree_held (omega arith)
      (omega arith)

range_scan-between_example :
    range_scan 3 small_tree (pos 5) (pos 12) ≡ ok (between (pos 5) (pos 12) small_map)
range_scan-between_example =
    range_scan-between 1 3 small_tree small_map (pos 5) (pos 12) small_tree_held (omega arith)
      (omega arith) (omega arith) (omega arith)

open_tree-IsTree_example :
    ((empty : BTree) × (open_tree (record three_pages { next_page_id = 0 }) ≡ ok empty)
      × IsTree 0 empty []
      × empty.root_record ≡ single_table)
    × (open_tree three_pages ≡ ok small_tree)
    × (tree' : BTree) × (insert 2 small_tree (pos 11) (102 ∷ []) ≡ ok tree')
    × (open_tree tree'.pages ≡ ok tree')
open_tree-IsTree_example =
    open_tree-IsTree 1 2 (record three_pages { next_page_id = 0 }) small_tree small_map (pos 11)
      (102 ∷ []) refl (omega arith) small_tree_held refl (omega arith) (omega arith) (omega arith)
      (omega arith)

-- The split of the full leaf, and the chain behind it.
insert_splits :
    (insert 3 small_tree (pos 11) (102 ∷ []) >>= λ tree'. range_scan 4 tree' (pos 10) (pos 12))
    ≡ ok ((pos 10, 98 ∷ []) ∷ (pos 11, 102 ∷ []) ∷ (pos 12, 99 ∷ []) ∷ [])
unfolding insert range_scan
insert_splits = refl
