-- ===== src/BTree/Reopen.antt =====
-- src/btree.cpp, the constructor over a metadata page: a new tree, and one that was closed.
use toy_relational_database.Prelude.{
  Bytes, List, Option, [], ap, arith, false, inl, inr, length, ltb, lt→ltb, none, refl, some, suc,
  sym, zero, ℕ, ℤ, ◌%◌, ◌+◌, ◌<◌, ◌==◌, ◌∙◌, ◌∷◌, ◌≡◌, ◌≤◌, ◌⊎◌,
}
use toy_relational_database.Errors.{Result, ok, throw, ◌>>=◌, bind-eq-ok}
use toy_relational_database.BTree.{
  LeafCell, leaf, internal, SplitResult, grow_root, record_root, insert_recursive, metadata, Pages,
  BTree, RootRecord, single_table, store, new_page, fetch, open_at, open_tree, insert, value_size,
  invalid_page_id, metadata_page_id,
}
use toy_relational_database.BTree.Tree.{root_id, root_used}
use toy_relational_database.BTree.Invariant.{IsTree}
use toy_relational_database.BTree.Map.{insert-IsTree}
use toy_relational_database.BTree.Rows.{upsert}

abbrev record_of : Result BTree → RootRecord
record_of (ok tree) = tree.root_record
record_of (throw e) = single_table

-- Insert keeps the tree's way of recording its root.
grow_root-single_table :
    (tree : BTree) (res : Option SplitResult × Pages) (tree' : BTree)
    → tree.root_record ≡ single_table
    → grow_root tree res ≡ ok tree'
    → tree'.root_record ≡ single_table
unfolding grow_root record_root
grow_root-single_table tree (none, pages) tree' single e = ap record_of (sym e) ∙ single
grow_root-single_table tree (some split, pages) tree' single e =
    let (r, made, recorded) =
      bind-eq-ok
        (new_page 0 pages
          (internal tree.root_page_id ((split.promoted_key, split.new_right_page_id) ∷ [])))
        (λ r. record_root r.1 r.0 tree.root_record) e in
    let written : record_root r.1 r.0 single_table ≡ ok tree' = rw single at recorded in
    let (node, read, whole) =
      bind-eq-ok (fetch 0 r.1 metadata_page_id)
        (λ node. ok (record {
          pages = store r.1 metadata_page_id (metadata r.0);
          root_page_id = r.0;
          root_record = single_table;
        }))
        written in
    ap record_of (sym whole)

insert-single_table :
    (fuel : ℕ) (tree : BTree) (key : ℤ) (value : Bytes) (tree' : BTree)
    → tree.root_record ≡ single_table
    → length value ≤ value_size
    → insert fuel tree key value ≡ ok tree'
    → tree'.root_record ≡ single_table
unfolding insert
insert-single_table fuel tree key value tree' single short e =
    let fits : ltb value_size (length value) ≡ false = ground arith in
    let (res, run, grown) =
      bind-eq-ok (insert_recursive fuel 0 tree.pages key value tree.root_page_id) (grow_root tree)
        (rw fits at e) in
    grow_root-single_table tree res tree' single grown

same_tree :
    (tree : BTree) (kept : RootRecord)
    → kept ≡ single_table
    → ◌≡◌ {A = BTree}
        (record {
          pages = tree.pages;
          root_page_id = tree.root_page_id;
          root_record = single_table;
        })
        (record { pages = tree.pages; root_page_id = tree.root_page_id; root_record = kept })
same_tree tree kept e = rw e refl

open_tree-again :
    (h : ℕ) (tree : BTree) (m : List LeafCell)
    → IsTree h tree m
    → tree.root_record ≡ single_table
    → 0 < tree.pages.pool_size
    → open_tree tree.pages ≡ ok tree
unfolding open_tree open_at fetch
open_tree-again h tree m t single room =
    let used = t.below (root_id h t.shape) (root_used h t.shape) in
    let not_fresh : (tree.pages.next_page_id == 0) ≡ false = ground (arith, used) in
    let there : tree.pages.page metadata_page_id ≡ some (metadata tree.root_page_id) =
      rw single at t.recorded in
    rw (not_fresh, lt→ltb 0 tree.pages.pool_size room, there, ◌>>=◌)
      (ap ok (same_tree tree tree.root_record single))

-- The constructor on an empty database, with a pool of at least two pages, writes an empty tree and its root
-- to the metadata page. On the pages of a tree that holds a map and has its root in its metadata page, it
-- reads that root and gives the same tree again; and so it does on the pages that a further Insert leaves,
-- which returns under the conditions on fuel, pool, page ids and the value's length: a root that has split
-- is found.
pub open_tree-IsTree :
    (h fuel : ℕ) (fresh : Pages) (tree : BTree) (m : List LeafCell) (key : ℤ) (value : Bytes)
    → fresh.next_page_id ≡ 0
    → 1 < fresh.pool_size
    → IsTree h tree m
    → tree.root_record ≡ single_table
    → h < fuel
    → h + 1 < tree.pages.pool_size
    → length value ≤ value_size
    → tree.pages.next_page_id + (h + 2) ≤ invalid_page_id
    → ((empty : BTree) × (open_tree fresh ≡ ok empty)
        × IsTree zero empty []
        × empty.root_record ≡ single_table)
      × (open_tree tree.pages ≡ ok tree)
      × (tree' : BTree) × (insert fuel tree key value ≡ ok tree')
      × (open_tree tree'.pages ≡ ok tree')
unfolding open_tree open_at new_page store
open_tree-IsTree h fuel fresh tree m key value none_yet both t single enough room short bound = (
  made,
  open_tree-again h tree m t single (omega (arith, room)),
  done.0,
  done.1,
  elim done.3 [
    | inl same ↦
        open_tree-again h done.0 (upsert key value m) same kept (omega (arith, done.2, room))
    | inr more ↦
        open_tree-again (suc h) done.0 (upsert key value m) more kept (omega (arith, done.2, room))
  ],
)
  where
    first_page : Pages
    first_page = record (store fresh 0 (metadata 0)) { next_page_id = (0 + 1) % 4294967296 }

    made :
        (empty : BTree) × (open_tree fresh ≡ ok empty)
        × IsTree zero empty []
        × empty.root_record ≡ single_table
    made = (
      record {
        pages =
            store
              (record (store first_page 1 (leaf invalid_page_id [])) {
                next_page_id = (1 + 1) % 4294967296;
              })
              0 (metadata 1);
        root_page_id = 1;
        root_record = single_table;
      },
      rw
          (
            none_yet,
            lt→ltb 0 fresh.pool_size (omega (arith, both)),
            ◌>>=◌,
            lt→ltb 1 fresh.pool_size both,
            ◌>>=◌,
          )
          refl,
      record {
        shape = record { id = 1; next = invalid_page_id; cells = [] };
        entries = refl;
        root = refl;
        recorded = refl;
        held = refl;
        separate = tt;
        ordered = tt;
        below = λ p u. omega (arith, u);
        above = λ p u. omega (arith, u);
        chained = refl;
        fits = omega arith;
      },
      refl,
    )

    done :
        (tree' : BTree) × (insert fuel tree key value ≡ ok tree')
        × tree'.pages.pool_size ≡ tree.pages.pool_size
        × (IsTree h tree' (upsert key value m) ⊎ IsTree (suc h) tree' (upsert key value m))
    done = insert-IsTree h fuel tree m key value t enough room short bound

    kept : done.0.root_record ≡ single_table
    kept = insert-single_table fuel tree key value done.0 single short done.1
