-- ===== src/BTree/Delete.antt =====
-- src/btree.cpp: Delete of the whole tree.
use toy_relational_database.Prelude.{
  Bool, Bytes, List, Option, ap, arith, eqb_ℤ, false, if◌then◌else◌, inl, inr, none, refl, some,
  subst, suc, sym, true, zero, ℕ, ℤ, ◌-◌, ◌<◌, ◌∙◌, ◌≡◌,
}
use toy_relational_database.Errors.{ok, ◌>>=◌}
use toy_relational_database.BTree.{
  LeafCell, leaf, Pages, BTree, store, remove_at, invalid_page_id, metadata_page_id,
}
use toy_relational_database.BTree.Space.{grow_row-Have, length-grow_row_one, length-erase}
use toy_relational_database.BTree.Lookup.{find_leaf, get, find_cell, cell_index, delete_at, delete}
use toy_relational_database.BTree.Rows.{Sorted}
use toy_relational_database.BTree.Erase.{
  erase, erase-append_left, erase-append_right, All-erase, erase-Sorted, find_cell-erase,
  cell_index-none, cell_index-some, erase-absent,
}
use toy_relational_database.BTree.Leaves.{flat-Sorted}
use toy_relational_database.BTree.Shape.{one, routed, grow_row, grow_row-All, routed-lem}
use toy_relational_database.BTree.Order.{grow_row-Ord, grow_row-flat, Ord-routed}
use toy_relational_database.BTree.Links.{
  grow_row-id, grow_row-cells, grow_row-first, grow_row-Chain,
}
use toy_relational_database.BTree.Owned.{
  RowUses, routed-Uses, grow_row-Uses, grow_row-Sep, grow_row-Holds, Sep-routed,
}
use toy_relational_database.BTree.Tree.{
  LeafPage, Branch, Tree, root_id, flat, AllKeys, AllKeys-imp, AllKeys-flat, Ordered, Uses,
  Separate, first, Chained, Held, Held-frame, Fits,
}
use toy_relational_database.BTree.Grow.{page-store, page-store_same}
use toy_relational_database.BTree.Invariant.{
  IsTree, RecordedBy-frame, leaf_of, find_leaf-leaf_of, find_cell-leaf_of,
}
use toy_relational_database.BTree.Map.{get-IsTree}

-- What erasing a key at its leaf makes of a subtree.
record Erased (h : ℕ) (pages pages' : Pages) (key : ℤ) (t : Tree h) : Type 1 where
  shape : Tree h
  entries : flat h shape ≡ erase key (flat h t)
  keys : (P Q : ℤ → Type 0) → AllKeys h P Q t → AllKeys h P Q shape
  ordered : Ordered h shape
  separate : Separate h shape
  uses : (p : ℕ) → Uses h shape p → Uses h t p
  held : Held h pages'.page shape
  same_root : root_id h shape ≡ root_id h t
  same_first : first h shape ≡ first h t
  chained : (after : ℕ) → Chained h t after → Chained h shape after
  fits : Fits h t → Fits h shape

-- The write of Delete.
abbrev erased_pages : Pages → ℤ → LeafPage → Pages
erased_pages pages key l = store pages l.id (leaf l.next (erase key l.cells))

branch-Erased :
    (h : ℕ) (pages pages' : Pages) (key : ℤ) (t : Branch (Tree h))
    → Held (suc h) pages.page t
    → Separate (suc h) t
    → Ordered (suc h) t
    → ((p : ℕ) → (Uses h (routed key t.leftmost t.cells) p → ⊥) → pages'.page p ≡ pages.page p)
    → Erased h pages pages' key (routed key t.leftmost t.cells)
    → Erased (suc h) pages pages' key t
branch-Erased h pages pages' key t held separate ordered frame child =
    let r = one child.shape in
    let row = grow_row r key t.leftmost t.cells in
    let holds =
      grow_row-Holds (Uses h) (Separate h) (Held h pages.page) (Held h pages'.page)
        (λ p. pages'.page p ≡ pages.page p) (Held-frame h pages.page pages'.page) r key t.leftmost
        t.cells separate.1 (held.1, held.2) child.held (λ p u n. frame p n) in
    let inside : (p : ℕ) → RowUses (Uses h) row.0 row.1 p → RowUses (Uses h) t.leftmost t.cells p =
      λ p u. elim (grow_row-Uses (Uses h) r key t.leftmost t.cells p u) [
        | inl g ↦ routed-Uses (Uses h) key t.leftmost t.cells p (child.uses p g)
        | inr w ↦ w
      ] in
    record {
      shape = record { id = t.id; leftmost = row.0; cells = row.1 };
      entries =
          grow_row-flat (flat h) (AllKeys h) (Ordered h) (AllKeys-flat h) key (erase key)
            (erase-append_left key) (erase-append_right key) r t.leftmost t.cells ordered
            child.entries;
      keys = λ P Q a. grow_row-All (AllKeys h) P Q r key t.leftmost t.cells (child.keys P Q) a;
      ordered =
          grow_row-Ord (AllKeys h) (Ordered h) (AllKeys-imp h) r key t.leftmost t.cells ordered
            child.ordered (λ P Q f k a. child.keys P Q a);
      separate = (
        (λ u. separate.0 (inside t.id u)),
        grow_row-Sep (Uses h) (Separate h) (λ p. ⊥) r key t.leftmost t.cells separate.1
            child.separate (λ p u. inl (child.uses p u)) (λ p u f. f),
      );
      uses = λ p u. elim u [ inl e ↦ inl e | inr w ↦ inr (inside p w) ];
      held = (
        rw
            (
              grow_row-id (root_id h) r key t.leftmost t.cells child.same_root,
              grow_row-cells (root_id h) r key t.leftmost t.cells child.same_root,
            )
            (frame t.id (λ u. separate.0 (routed-Uses (Uses h) key t.leftmost t.cells t.id u))
              ∙ held.0),
        holds.0,
        holds.1,
      );
      same_root = refl;
      same_first = grow_row-first (first h) (Chained h) r key t.leftmost t.cells child.same_first;
      chained = λ after a.
          grow_row-Chain (first h) (Chained h) r key t.leftmost t.cells after child.same_first
            child.chained a;
      fits = λ f.
          let as_many = length-grow_row_one child.shape key t.leftmost t.cells in
          let space = f.0 in
          let row_fits =
            grow_row-Have (Fits h) r key t.leftmost t.cells
              (child.fits (routed-lem (Fits h) key t.leftmost t.cells f.1 f.2)) f.1 f.2 in
          (omega (arith, as_many, space), row_fits.0, row_fits.1);
    }

leaf_of-Uses : (h : ℕ) (key : ℤ) (t : Tree h) → Uses h t (leaf_of h key t).id
unfolding leaf_of
leaf_of-Uses zero key t = refl
leaf_of-Uses (suc h) key t = inr (
    routed-Uses (Uses h) key t.leftmost t.cells _
      (leaf_of-Uses h key (routed key t.leftmost t.cells)))

leaf_of-Erased :
    (h : ℕ) (pages : Pages) (key : ℤ) (t : Tree h)
    → Held h pages.page t
    → Separate h t
    → Ordered h t
    → Erased h pages (erased_pages pages key (leaf_of h key t)) key t
unfolding leaf_of
leaf_of-Erased zero pages key t held separate ordered = record {
  shape = record { id = t.id; next = t.next; cells = erase key t.cells };
  entries = refl;
  keys = λ P Q a. All-erase (λ c. P c.0) key t.cells a;
  ordered = erase-Sorted key t.cells ordered;
  separate = tt;
  uses = λ p u. u;
  held = page-store_same pages t.id _;
  same_root = refl;
  same_first = refl;
  chained = λ after a. a;
  fits = λ f. (let fewer = length-erase key t.cells in omega (arith, f, fewer));
}
leaf_of-Erased (suc h) pages key t held separate ordered =
    let child = routed key t.leftmost t.cells in
    branch-Erased h pages _ key t held separate ordered
      (λ p n.
        page-store pages (leaf_of h key child).id p _ (λ e. n (rw e (leaf_of-Uses h key child))))
      (leaf_of-Erased h pages key child
        (routed-lem (Held h pages.page) key t.leftmost t.cells held.1 held.2)
        (Sep-routed (Uses h) (Separate h) key t.leftmost t.cells separate.1)
        (Ord-routed (AllKeys h) (Ordered h) key t.leftmost t.cells ordered))

abbrev pub is_found : Option Bytes → Bool
is_found none = false
is_found (some value) = true

find_cell-entries :
    (h : ℕ) (tree : BTree) (m : List LeafCell) (key : ℤ)
    → (t : IsTree h tree m) → find_cell (leaf_of h key t.shape).cells key ≡ find_cell m key
find_cell-entries h tree m key t =
    find_cell-leaf_of h key t.shape t.ordered
    ∙ ap (λ (x : List LeafCell). find_cell x key) t.entries

erased_tree :
    (h : ℕ) (tree : BTree) (m : List LeafCell) (key : ℤ)
    → (t : IsTree h tree m)
    → Erased h tree.pages (erased_pages tree.pages key (leaf_of h key t.shape)) key t.shape
    → IsTree h
        (record tree { pages = erased_pages tree.pages key (leaf_of h key t.shape) })
        (erase key m)
unfolding store
erased_tree h tree m key t e = record {
  shape = e.shape;
  entries = e.entries ∙ ap (erase key) t.entries;
  root = t.root ∙ sym e.same_root;
  recorded =
      RecordedBy-frame tree.root_record tree.pages.page
        (erased_pages tree.pages key (leaf_of h key t.shape)).page tree.root_page_id
        (page-store tree.pages (leaf_of h key t.shape).id metadata_page_id _
          (λ s. (let above = t.above _ (leaf_of-Uses h key t.shape) in omega (arith, s, above))))
        t.recorded;
  held = e.held;
  separate = e.separate;
  ordered = e.ordered;
  below = λ p u. t.below p (e.uses p u);
  above = λ p u. t.above p (e.uses p u);
  chained = e.chained invalid_page_id t.chained;
  fits = e.fits t.fits;
}

-- The leaf without the key, by what the loop of Delete has found.
delete_at-IsTree :
    (h : ℕ) (tree : BTree) (m : List LeafCell) (key : ℤ)
    → (t : IsTree h tree m) → (i : Option ℕ) → cell_index 0 (leaf_of h key t.shape).cells key ≡ i
    → (tree' : BTree) × (delete_at tree
          ((leaf_of h key t.shape).id, (leaf_of h key t.shape).next, (leaf_of h key t.shape).cells)
          i
        ≡ (is_found (find_cell m key), tree'))
      × tree'.pages.pool_size ≡ tree.pages.pool_size
      × IsTree h tree' (erase key m)
unfolding delete_at store
delete_at-IsTree h tree m key t none e =
    let absent : find_cell m key ≡ none =
      sym (find_cell-entries h tree m key t) ∙ (cell_index-none 0 _ key e).0 in
    (tree, rw absent refl, refl, subst (IsTree h tree) (sym (erase-absent key m absent)) t)
delete_at-IsTree h tree m key t (some i) e =
    let l = leaf_of h key t.shape in
    let there = cell_index-some 0 i l.cells key e in
    let present : find_cell m key ≡ some there.0 =
      sym (find_cell-entries h tree m key t) ∙ there.1 in
    let place : i ≡ i - 0 = omega arith in
    let removed : remove_at i l.cells ≡ erase key l.cells =
      ap (λ (n : ℕ). remove_at n l.cells) place ∙ there.3 in
    (
      record tree { pages = erased_pages tree.pages key l },
      rw (present, removed) refl,
      refl,
      erased_tree h tree m key t
          (leaf_of-Erased h tree.pages key t.shape t.held t.separate t.ordered),
    )

-- Delete on a tree that holds a map, when the fuel exceeds the height and the pool has room for a page: it
-- tells whether the map has the key, and the tree that it leaves, of the same height, holds the map without
-- the key.
pub delete-IsTree :
    (h fuel : ℕ) (tree : BTree) (m : List LeafCell) (key : ℤ)
    → IsTree h tree m
    → h < fuel
    → 0 < tree.pages.pool_size
    → (tree' : BTree) × (delete fuel tree key ≡ ok (is_found (find_cell m key), tree'))
      × tree'.pages.pool_size ≡ tree.pages.pool_size
      × IsTree h tree' (erase key m)
unfolding delete
delete-IsTree h fuel tree m key t enough room =
    let done =
      delete_at-IsTree h tree m key t (cell_index 0 (leaf_of h key t.shape).cells key) refl in
    let l = leaf_of h key t.shape in
    let found : find_leaf fuel tree.pages key tree.root_page_id ≡ ok (l.id, l.next, l.cells) =
      ap (find_leaf fuel tree.pages key) t.root
      ∙ find_leaf-leaf_of h fuel tree.pages key t.shape enough room t.held in
    (done.0, rw found (ap ok done.1), done.2, done.3)

-- On a tree that holds a map, with fuel beyond the height and a pool with room for a page: Get behind a
-- Delete answers nothing at the key that was deleted, and at every other key what it answered before.
pub get-delete :
    (h fuel : ℕ) (tree : BTree) (m : List LeafCell) (key other : ℤ)
    → IsTree h tree m
    → h < fuel
    → 0 < tree.pages.pool_size
    → (delete fuel tree key >>= λ r. get fuel r.1 other)
      ≡ (if eqb_ℤ key other then ok none else get fuel tree other)
get-delete h fuel tree m key other t enough room =
    let done = delete-IsTree h fuel tree m key t enough room in
    let sorted : Sorted m = subst Sorted t.entries (flat-Sorted h t.shape t.ordered) in
    let before = get-IsTree h fuel tree m other t enough room in
    let after =
      get-IsTree h fuel done.0 (erase key m) other done.3 enough (omega (arith, done.2, room)) in
    rw (done.1, after, before, find_cell-erase key other m sorted) (ok-if (eqb_ℤ key other))
  where
    ok-if :
        (b : Bool)
        → ok (if b then none else find_cell m other)
          ≡ (if b then ok none else ok (find_cell m other))
    ok-if true = refl
    ok-if false = refl
