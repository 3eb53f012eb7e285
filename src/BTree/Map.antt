-- ===== src/BTree/Map.antt =====
-- src/btree.cpp: Insert and Get of the whole tree, as a map.
use toy_relational_database.Prelude.{
  Bool, Bytes, List, ap, arith, eqb_ℤ, false, if◌then◌else◌, inl, inr, length, ltb, refl, some, suc,
  true, ℕ, ℤ, ◌+◌, ◌<◌, ◌∙◌, ◌≡◌, ◌≤◌, ◌⊎◌,
}
use toy_relational_database.Errors.{ok, ◌>>=◌}
use toy_relational_database.BTree.{
  LeafCell, BTree, insert_recursive, insert, value_size, invalid_page_id,
}
use toy_relational_database.BTree.Lookup.{find_cell, get}
use toy_relational_database.BTree.Rows.{upsert, find_cell-upsert}
use toy_relational_database.BTree.Insert.{insert_recursive-Inserted}
use toy_relational_database.BTree.Invariant.{IsTree, find_leaf-leaf_of, find_cell-leaf_of}
use toy_relational_database.BTree.Root.{grow_root-Inserted}

-- Get on a tree that holds a map answers what the map has at the key, when the fuel exceeds the height and
-- the pool has room for a page.
pub get-IsTree :
    (h fuel : ℕ) (tree : BTree) (m : List LeafCell) (key : ℤ)
    → IsTree h tree m
    → h < fuel
    → 0 < tree.pages.pool_size
    → get fuel tree key ≡ ok (find_cell m key)
unfolding get
get-IsTree h fuel tree m key t enough room =
    rw (t.root, find_leaf-leaf_of h fuel tree.pages key t.shape enough room t.held)
      (ap ok (
        find_cell-leaf_of h key t.shape t.ordered
        ∙ ap (λ (x : List LeafCell). find_cell x key) t.entries))

-- Insert of a value that is not too long, on a tree that holds a map, with a pool of more pages than the
-- height plus one, fuel beyond the height, and as many page ids left below INVALID_PAGE_ID as the height plus
-- two: it succeeds, and the tree that it leaves, of the same height or one more, holds the map where the key
-- has been set. Its root is recorded, in the metadata page or with the catalog, and every node that it has
-- fits in its page of 4096 bytes with room for one cell more.
pub insert-IsTree :
    (h fuel : ℕ) (tree : BTree) (m : List LeafCell) (key : ℤ) (value : Bytes)
    → IsTree h tree m
    → h < fuel
    → h + 1 < tree.pages.pool_size
    → length value ≤ value_size
    → tree.pages.next_page_id + (h + 2) ≤ invalid_page_id
    → (tree' : BTree) × (insert fuel tree key value ≡ ok tree')
      × tree'.pages.pool_size ≡ tree.pages.pool_size
      × (IsTree h tree' (upsert key value m) ⊎ IsTree (suc h) tree' (upsert key value m))
unfolding insert
insert-IsTree h fuel tree m key value t enough room short bound =
    let done =
      insert_recursive-Inserted h fuel 0 tree.pages key value t.shape enough (omega (arith, room))
        t.held t.separate t.ordered t.below (omega (arith, bound)) t.fits in
    let fits : ltb value_size (length value) ≡ false = ground arith in
    let run : insert_recursive fuel 0 tree.pages key value tree.root_page_id ≡ ok done.0 =
      ap (insert_recursive fuel 0 tree.pages key value) t.root ∙ done.1 in
    rw (fits, run)
      (grow_root-Inserted h tree m key value done.0 t (omega (arith, room)) bound done.2
        done.2.grown refl)

-- On a tree that holds a map, with fuel and a pool of more pages than the height plus one, as many page ids
-- left below INVALID_PAGE_ID as the height plus two, and a value that is not too long: Get behind an Insert answers the value at the key that was inserted, and at every other
-- key what it answered before.
pub get-insert :
    (h fuel : ℕ) (tree : BTree) (m : List LeafCell) (key other : ℤ) (value : Bytes)
    → IsTree h tree m
    → h + 1 < fuel
    → h + 1 < tree.pages.pool_size
    → length value ≤ value_size
    → tree.pages.next_page_id + (h + 2) ≤ invalid_page_id
    → (insert fuel tree key value >>= λ tree'. get fuel tree' other)
      ≡ (if eqb_ℤ key other then ok (some value) else get fuel tree other)
get-insert h fuel tree m key other value t enough room short bound =
    let done = insert-IsTree h fuel tree m key value t (omega (arith, enough)) room short bound in
    let before = get-IsTree h fuel tree m other t (omega (arith, enough)) (omega (arith, room)) in
    let after : get fuel done.0 other ≡ ok (find_cell (upsert key value m) other) = elim done.3 [
      | inl same ↦
          get-IsTree h fuel done.0 _ other same (omega (arith, enough))
            (omega (arith, done.2, room))
      | inr more ↦
          get-IsTree (suc h) fuel done.0 _ other more (omega (arith, enough))
            (omega (arith, done.2, room))
    ] in
    rw (done.1, before, after, find_cell-upsert key other value m) (ok-if (eqb_ℤ key other))
  where
    ok-if :
        (b : Bool)
        → ok (if b then some value else find_cell m other)
          ≡ (if b then ok (some value) else ok (find_cell m other))
    ok-if true = refl
    ok-if false = refl
