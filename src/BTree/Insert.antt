-- ===== src/BTree/Insert.antt =====
-- src/btree.cpp: InsertRecursive on a tree of any height.
use toy_relational_database.Prelude.{
  Bool-cases, Bytes, List, Option, [], ap, arith, drop, false, inl, inr, leb, leb→le, length,
  lt→ltb, none, refl, some, subst, suc, sym, take, take-append-drop, zero, ℕ, ℤ, ◌++◌, ◌+◌, ◌/◌,
  ◌<◌, ◌∙◌, ◌∷◌, ◌≡◌, ◌≤◌,
}
use toy_relational_database.Errors.{ok}
use toy_relational_database.BTree.{
  internal, Pages, SplitResult, store, new_page, fetch, route, insert_at, internal_max_keys,
  invalid_page_id, split_cells, split_internal_if_needed, insert_child, insert_node,
  insert_recursive,
}
use toy_relational_database.BTree.Rows.{upsert, upsert-append_left, upsert-append_right, drop-half}
use toy_relational_database.BTree.Shape.{
  Grown, one, two, routed, routed-lem, grow_row, grow_row-All,
}
use toy_relational_database.BTree.Space.{
  InternalRoom, grow_row-Have, length-grow_row, length-grow_row_one,
}
use toy_relational_database.BTree.Order.{grow_row-Ord, grow_row-flat, Ord-routed}
use toy_relational_database.BTree.Links.{
  row_cells, grown_cells, child_at-route, grow_row-id, grow_row-cells, grow_row-first,
  grow_row-Chain, length-row_cells, take-row_cells, drop-row_cells,
}
use toy_relational_database.BTree.Owned.{
  RowUses, routed-Uses, grow_row-Uses, grow_row-Sep, grow_row-Holds, Sep-routed,
}
use toy_relational_database.BTree.Tree.{
  Branch, Tree, root_id, flat, AllKeys, AllKeys-imp, AllKeys-flat, Ordered, Uses, Separate, first,
  Chained, Held, Held-frame, Fits,
}
use toy_relational_database.BTree.Grow.{
  Inserted, reported_split, split_pages, page-store, page-store_same, insert_leaf-Inserted,
}
use toy_relational_database.BTree.Branch.{RowGrown, branch_fits, branch_splits}

-- The child that the code descends to has become what the recursive call made of it.
row_grown :
    (h : ℕ) (pages : Pages) (key : ℤ) (value : Bytes) (t : Branch (Tree h))
    (res : Option SplitResult × Pages)
    → Held (suc h) pages.page t
    → Separate (suc h) t
    → Ordered (suc h) t
    → ((p : ℕ) → Uses (suc h) t p → p < pages.next_page_id)
    → Fits (suc h) t
    → (child : Inserted h pages key value (routed key t.leftmost t.cells) res)
    → RowGrown h pages res.1 key value t
        (grow_row child.grown key t.leftmost t.cells).0
        (grow_row child.grown key t.leftmost t.cells).1
row_grown h pages key value t res held separate ordered below fits child =
    let space =
      grow_row-Have (Fits h) child.grown key t.leftmost t.cells child.fits fits.1 fits.2 in
    let r = child.grown in
    let fresh : ℕ → Type 0 = λ p. pages.next_page_id ≤ p × p < res.1.next_page_id in
    let holds =
      grow_row-Holds (Uses h) (Separate h) (Held h pages.page) (Held h res.1.page)
        (λ p. res.1.page p ≡ pages.page p) (Held-frame h pages.page res.1.page) r key t.leftmost
        t.cells separate.1 (held.1, held.2) child.held
        (λ p u n. child.frame p (below p (inr u)) n) in
    record {
      entries =
          grow_row-flat (flat h) (AllKeys h) (Ordered h) (AllKeys-flat h) key (upsert key value)
            (upsert-append_left key value) (upsert-append_right key value) r t.leftmost t.cells
            ordered child.entries;
      keys =
          λ P Q f k a. grow_row-All (AllKeys h) P Q r key t.leftmost t.cells (child.keys P Q f k) a;
      ordered =
          grow_row-Ord (AllKeys h) (Ordered h) (AllKeys-imp h) r key t.leftmost t.cells ordered
            child.ordered child.keys;
      separate =
          grow_row-Sep (Uses h) (Separate h) fresh r key t.leftmost t.cells separate.1
            child.separate child.uses (λ p u f. let b = below p (inr u) in omega (arith, b, f.0));
      uses = λ p u. elim (grow_row-Uses (Uses h) r key t.leftmost t.cells p u) [
        | inl g ↦ elim (child.uses p g) [
          | inl w ↦ inl (routed-Uses (Uses h) key t.leftmost t.cells p w)
          | inr f ↦ inr f
        ]
        | inr w ↦ inl w
      ];
      held_leftmost = holds.0;
      held_cells = holds.1;
      same_first = grow_row-first (first h) (Chained h) r key t.leftmost t.cells child.same_first;
      chained = λ after a.
          grow_row-Chain (first h) (Chained h) r key t.leftmost t.cells after child.same_first
            child.chained a;
      frame = λ p b n. child.frame p b (λ u. n (routed-Uses (Uses h) key t.leftmost t.cells p u));
      same_pool = child.same_pool;
      later = child.later;
      few = child.few;
      fits_leftmost = space.0;
      fits_cells = space.1;
      size = length-grow_row child.grown key t.leftmost t.cells;
    }

-- The page with its new cells, written back or split.
split_branch-Inserted :
    (h pins : ℕ) (pages pages' : Pages) (key : ℤ) (value : Bytes) (t : Branch (Tree h)) (u : Tree h)
    (cs : List (ℤ × Tree h))
    → RowGrown h pages pages' key value t u cs
    → ((p : ℕ) → Uses (suc h) t p → p < pages.next_page_id)
    → (RowUses (Uses h) t.leftmost t.cells t.id → ⊥)
    → pins < pages.pool_size
    → pages.next_page_id + (suc h + 1) ≤ invalid_page_id
    → InternalRoom (length t.cells)
    → (res : Option SplitResult × Pages) × (split_internal_if_needed pins pages' t.id
          (root_id h u)
          (row_cells (root_id h) cs)
        ≡ ok res)
      × Inserted (suc h) pages key value t res
unfolding split_internal_if_needed split_cells new_page split_pages store
split_branch-Inserted h pins pages pages' key value t u cs g below own room bound space =
    elim (Bool-cases (leb (length (row_cells (root_id h) cs)) internal_max_keys)) [
      | inl fits ↦ (
        _,
        rw fits refl,
        branch_fits below own u cs
            (store pages' t.id (internal (root_id h u) (row_cells (root_id h) cs))) g
            (page-store_same pages' t.id _) (λ p n. page-store pages' t.id p _ n) refl refl
            (let few = leb→le _ internal_max_keys fits in
              let same = length-row_cells (root_id h) cs in omega (arith, few, same)),
      )
      | inr full ↦ at_right (drop (length cs / 2) cs) refl full
    ]
  where
    at_right :
        (right : List (ℤ × Tree h))
        → drop (length cs / 2) cs ≡ right
        → leb (length (row_cells (root_id h) cs)) internal_max_keys ≡ false
        → (res : Option SplitResult × Pages) × (split_internal_if_needed pins pages' t.id
              (root_id h u)
              (row_cells (root_id h) cs)
            ≡ ok res)
          × Inserted (suc h) pages key value t res
    at_right [] e full =
        elim (drop-half internal_max_keys cs (rw (length-row_cells (root_id h) cs) at full) e) [ ]
    at_right (c ∷ right) e full =
        let parts : take (length cs / 2) cs ++ c ∷ right ≡ cs =
          ap (λ (x : List (ℤ × Tree h)). take (length cs / 2) cs ++ x) (sym e)
          ∙ take-append-drop (length cs / 2) cs in
        (
          _,
          rw
              (
                full,
                length-row_cells (root_id h) cs,
                take-row_cells (root_id h) (length cs / 2) cs,
                drop-row_cells (root_id h) (length cs / 2) cs,
                e,
                g.same_pool,
                lt→ltb pins pages.pool_size room,
              )
              refl,
          branch_splits below own u (take (length cs / 2) cs) c right
              (subst (RowGrown h pages pages' key value t u) (sym parts) g) bound space,
        )

-- What InsertRecursive does with the answer of the recursive call.
insert_child-Inserted :
    (h pins : ℕ) (pages : Pages) (key : ℤ) (value : Bytes) (t : Branch (Tree h))
    (res : Option SplitResult × Pages)
    → Held (suc h) pages.page t
    → Separate (suc h) t
    → Ordered (suc h) t
    → ((p : ℕ) → Uses (suc h) t p → p < pages.next_page_id)
    → pins < pages.pool_size
    → pages.next_page_id + (suc h + 1) ≤ invalid_page_id
    → Fits (suc h) t
    → Inserted h pages key value (routed key t.leftmost t.cells) res
    → (res' : Option SplitResult × Pages) × (insert_child pins t.id key res ≡ ok res')
      × Inserted (suc h) pages key value t res'
unfolding insert_child
insert_child-Inserted h pins pages key value t (split, pages') held separate ordered below room
      bound fits child =
    at_grown child.grown refl
  where
    read_again : pages'.page t.id ≡ pages.page t.id
    read_again =
        child.frame t.id (below t.id (inl refl))
          (λ u. separate.0 (routed-Uses (Uses h) key t.leftmost t.cells t.id u))

    whole :
        RowGrown h pages pages' key value t
          (grow_row child.grown key t.leftmost t.cells).0
          (grow_row child.grown key t.leftmost t.cells).1
    whole = row_grown h pages key value t (split, pages') held separate ordered below fits child

    at_grown :
        (r : Grown (Tree h))
        → child.grown ≡ r
        → (res' : Option SplitResult × Pages) × (insert_child pins t.id key (split, pages')
            ≡ ok res')
          × Inserted (suc h) pages key value t res'
    at_grown (one a) e =
        let no_split : split ≡ none = child.reported ∙ ap (reported_split h) e in
        let row = grow_row child.grown key t.leftmost t.cells in
        let as_before : row_cells (root_id h) row.1 ≡ row_cells (root_id h) t.cells =
          grow_row-cells (root_id h) child.grown key t.leftmost t.cells child.same_root
          ∙ ap (λ (g : Grown (Tree h)). grown_cells (root_id h) g key t.cells) e in
        (
          _,
          rw no_split refl,
          branch_fits below separate.0 row.0 row.1 pages' whole
              (rw
                (
                  grow_row-id (root_id h) child.grown key t.leftmost t.cells child.same_root,
                  as_before,
                )
                (read_again ∙ held.0))
              (λ p n. refl) refl refl
              (let as_many = length-grow_row_one a key t.leftmost t.cells in
                let same : length row.1 ≡ length (grow_row (one a) key t.leftmost t.cells).1 =
                  ap (λ (g : Grown (Tree h)). length (grow_row g key t.leftmost t.cells).1) e in
                let space = fits.0 in omega (arith, as_many, same, space)),
        )
    at_grown (two a p b) e =
        let split_here : split
            ≡ some (record { promoted_key = p; new_right_page_id = root_id h b }) =
          child.reported ∙ ap (reported_split h) e in
        let row = grow_row child.grown key t.leftmost t.cells in
        let new_cells : row_cells (root_id h) row.1
            ≡ insert_at (route (row_cells (root_id h) t.cells) key) (p, root_id h b)
                (row_cells (root_id h) t.cells) =
          grow_row-cells (root_id h) child.grown key t.leftmost t.cells child.same_root
          ∙ ap (λ (g : Grown (Tree h)). grown_cells (root_id h) g key t.cells) e in
        let same_leftmost =
          grow_row-id (root_id h) child.grown key t.leftmost t.cells child.same_root in
        let goes_on =
          split_branch-Inserted h pins pages pages' key value t row.0 row.1 whole below separate.0
            room bound fits.0 in
        (
          goes_on.0,
          rw (split_here, read_again ∙ held.0) (rw (same_leftmost, new_cells) at goes_on.1),
          goes_on.2,
        )

pub insert_recursive-Inserted :
    (h fuel pins : ℕ) (pages : Pages) (key : ℤ) (value : Bytes) (t : Tree h)
    → h < fuel
    → pins + h + 1 < pages.pool_size
    → Held h pages.page t
    → Separate h t
    → Ordered h t
    → ((p : ℕ) → Uses h t p → p < pages.next_page_id)
    → pages.next_page_id + (h + 1) ≤ invalid_page_id
    → Fits h t
    → (res : Option SplitResult × Pages) × (insert_recursive fuel pins pages key value (root_id h t)
        ≡ ok res)
      × Inserted h pages key value t res
unfolding insert_recursive insert_node fetch
insert_recursive-Inserted h zero pins pages key value t enough room held separate ordered below
      bound fits =
    let bad : ⊥ = omega (arith, enough) in elim bad [ ]
insert_recursive-Inserted zero (suc fuel) pins pages key value t enough room held separate ordered
      below bound fits =
    rw (lt→ltb pins pages.pool_size (omega (arith, room)), held)
      (insert_leaf-Inserted (pins + 1) pages key value t ordered (below t.id refl)
        (omega (arith, room)) bound fits)
insert_recursive-Inserted (suc h) (suc fuel) pins pages key value t enough room held separate
      ordered below bound fits =
    let child =
      insert_recursive-Inserted h fuel (pins + 1) pages key value (routed key t.leftmost t.cells)
        (omega (arith, enough)) (omega (arith, room))
        (routed-lem (Held h pages.page) key t.leftmost t.cells held.1 held.2)
        (Sep-routed (Uses h) (Separate h) key t.leftmost t.cells separate.1)
        (Ord-routed (AllKeys h) (Ordered h) key t.leftmost t.cells ordered)
        (λ p u. below p (inr (routed-Uses (Uses h) key t.leftmost t.cells p u)))
        (omega (arith, bound)) (routed-lem (Fits h) key t.leftmost t.cells fits.1 fits.2) in
    rw
      (
        lt→ltb pins pages.pool_size (omega (arith, room)),
        held.0,
        child_at-route (root_id h) key t.leftmost t.cells,
        child.1,
      )
      (insert_child-Inserted h (pins + 1) pages key value t child.0 held separate ordered below
        (omega (arith, room)) bound fits child.2)
