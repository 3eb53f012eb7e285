-- ===== src/BTree/Branch.antt =====
-- src/btree.cpp: an internal page behind the recursive call of InsertRecursive, as it is or split.
use toy_relational_database.Prelude.{
  All, Bytes, List, arith, inl, inr, length, length-append, none, refl, some, suc, ℕ, ℤ, ◌%◌, ◌++◌,
  ◌+◌, ◌<◌, ◌∙◌, ◌∷◌, ◌≡◌, ◌≢◌, ◌≤◌, ◌⊎◌,
}
use toy_relational_database.BTree.{internal, Pages, store, invalid_page_id}
use toy_relational_database.BTree.Space.{InternalRoom}
use toy_relational_database.BTree.Rows.{upsert, All-append_iff}
use toy_relational_database.BTree.Shape.{
  one, two, row_flat, row_flat-append, RowAll, CellsAll-append,
}
use toy_relational_database.BTree.Order.{RowOrd, RowOrd-append}
use toy_relational_database.BTree.Links.{row_cells, RowChain, RowChain-append}
use toy_relational_database.BTree.Owned.{
  RowUses, RowSep, RowSep-append, CellsUse-append_left, CellsUse-append_right,
}
use toy_relational_database.BTree.Tree.{
  Branch, Tree, root_id, flat, AllKeys, AllKeys-imp, Ordered, Uses, Separate, first, Chained, Held,
  Held-frame, CellsHeld-frame, Fits,
}
use toy_relational_database.BTree.Grow.{
  Inserted, split_pages, page-split_left, page-split_right, page-split_other,
}

-- What the row of a page has become: its leftmost child and its cells.
pub record RowGrown (h : ℕ) (pages pages' : Pages) (key : ℤ) (value : Bytes) (t : Branch (Tree h))
    (u : Tree h) (cs : List (ℤ × Tree h)) : Type 1 where
  pub entries : row_flat (flat h) u cs ≡ upsert key value (row_flat (flat h) t.leftmost t.cells)
  pub keys :
      (P Q : ℤ → Type 0)
      → ((x : ℤ) → P x → Q x)
      → P key
      → RowAll (AllKeys h) P Q t.leftmost t.cells
      → RowAll (AllKeys h) P Q u cs
  pub ordered : RowOrd (AllKeys h) (Ordered h) u cs
  pub separate : RowSep (Uses h) (Separate h) u cs
  pub uses :
      (p : ℕ)
      → RowUses (Uses h) u cs p
      → RowUses (Uses h) t.leftmost t.cells p ⊎ (pages.next_page_id ≤ p × p < pages'.next_page_id)
  pub held_leftmost : Held h pages'.page u
  pub held_cells : All (λ c. Held h pages'.page c.1) cs
  pub same_first : first h u ≡ first h t.leftmost
  pub chained :
      (after : ℕ)
      → RowChain (first h) (Chained h) t.leftmost t.cells after
      → RowChain (first h) (Chained h) u cs after
  pub frame :
      (p : ℕ)
      → p < pages.next_page_id
      → (RowUses (Uses h) t.leftmost t.cells p → ⊥)
      → pages'.page p ≡ pages.page p
  pub same_pool : pages'.pool_size ≡ pages.pool_size
  pub later : pages.next_page_id ≤ pages'.next_page_id
  pub few : pages'.next_page_id ≤ pages.next_page_id + (h + 1)
  pub fits_leftmost : Fits h u
  pub fits_cells : All (λ c. Fits h c.1) cs
  pub size : length cs ≤ length t.cells + 1

module _ {h : ℕ} {pages pages' : Pages} {key : ℤ} {value : Bytes} {t : Branch (Tree h)}
    (below : (p : ℕ) → Uses (suc h) t p → p < pages.next_page_id)
    (own : RowUses (Uses h) t.leftmost t.cells t.id → ⊥) where
  -- The page itself is none of its row.
  outside :
      (u : Tree h) (cs : List (ℤ × Tree h))
      → RowGrown h pages pages' key value t u cs
      → RowUses (Uses h) u cs t.id
      → ⊥
  outside u cs g v = elim (g.uses t.id v) [
    | inl w ↦ own w
    | inr w ↦ let b = below t.id (inl refl) in omega (arith, w.0, b)
  ]

  -- Nor is the next new page, and each of the row is older.
  older :
      (u : Tree h) (cs : List (ℤ × Tree h))
      → RowGrown h pages pages' key value t u cs
      → (p : ℕ) → RowUses (Uses h) u cs p
      → p < pages'.next_page_id
  older u cs g p v = elim (g.uses p v) [
    | inl w ↦ let b = below p (inr w) in omega (arith, b, g.later)
    | inr w ↦ w.1
  ]

  -- The page has room for the row, in `pages''`.
  pub branch_fits :
      (u : Tree h) (cs : List (ℤ × Tree h)) (pages'' : Pages)
      → RowGrown h pages pages' key value t u cs
      → pages''.page t.id ≡ some (internal (root_id h u) (row_cells (root_id h) cs))
      → ((p : ℕ) → p ≢ t.id → pages''.page p ≡ pages'.page p)
      → pages''.pool_size ≡ pages'.pool_size
      → pages''.next_page_id ≡ pages'.next_page_id
      → InternalRoom (length cs)
      → Inserted (suc h) pages key value t (none, pages'')
  branch_fits u cs pages'' g own_page others pool next space = record {
    grown = one (record { id = t.id; leftmost = u; cells = cs });
    reported = refl;
    entries = g.entries;
    keys = g.keys;
    ordered = g.ordered;
    separate = (outside u cs g, g.separate);
    uses = λ p v. elim v [
      | inl e ↦ inl (inl e)
      | inr w ↦ elim (g.uses p w) [ inl x ↦ inl (inr x) | inr f ↦ inr (f.0, rw next f.1) ]
    ];
    held = (
      own_page,
      Held-frame h pages'.page pages''.page u g.held_leftmost
          (λ p v. others p (λ e. outside u cs g (inl (rw e at v)))),
      CellsHeld-frame h pages'.page pages''.page cs g.held_cells
          (λ p v. others p (λ e. outside u cs g (inr (rw e at v)))),
    );
    same_root = refl;
    same_first = g.same_first;
    chained = g.chained;
    frame = λ p b n. others p (λ e. n (inl e)) ∙ g.frame p b (λ w. n (inr w));
    same_pool = pool ∙ g.same_pool;
    later = omega (arith, next, g.later);
    few = omega (arith, next, g.few);
    fits = (space, g.fits_leftmost, g.fits_cells);
  }

  -- The page splits at the cell `c`.
  pub branch_splits :
      (u : Tree h) (left : List (ℤ × Tree h)) (c : ℤ × Tree h) (right : List (ℤ × Tree h))
      → RowGrown h pages pages' key value t u (left ++ c ∷ right)
      → pages.next_page_id + (suc h + 1) ≤ invalid_page_id
      → InternalRoom (length t.cells)
      → Inserted (suc h) pages key value t (
        some (record { promoted_key = c.0; new_right_page_id = pages'.next_page_id }),
        split_pages pages' t.id
            (internal (root_id h u) (row_cells (root_id h) left))
            (internal (root_id h c.1) (row_cells (root_id h) right)),
      )
  unfolding split_pages store
  branch_splits u left c right g bound space =
      let few = g.few in
      let total = length-append left (c ∷ right) in
      let size = g.size in
      let old_cells =
        (All-append_iff (λ (d : ℤ × Tree h). Fits h d.1) left (c ∷ right)).0 g.fits_cells in
      let cs = left ++ c ∷ right in
      let to_left : (p : ℕ) → RowUses (Uses h) u left p → RowUses (Uses h) u cs p = λ p v. elim v [
        | inl w ↦ inl w
        | inr w ↦ inr (CellsUse-append_left (Uses h) left (c ∷ right) p w)
      ] in
      let to_right : (p : ℕ) → RowUses (Uses h) c.1 right p → RowUses (Uses h) u cs p =
        λ p v. inr (CellsUse-append_right (Uses h) left (c ∷ right) p v) in
      let order = RowOrd-append (AllKeys h) (Ordered h) (AllKeys-imp h) u left c right g.ordered in
      let apart = RowSep-append (Uses h) (Separate h) u left c right g.separate in
      let from : (p : ℕ)
          → RowUses (Uses h) u cs p
          → Uses (suc h) t p
            ⊎ (pages.next_page_id ≤ p × p < (pages'.next_page_id + 1) % 4294967296) =
        λ p v. elim (g.uses p v) [
          | inl x ↦ inl (inr x)
          | inr f ↦ inr (f.0, omega (arith, f.1, few, bound))
        ] in
      let sides =
        (All-append_iff (λ (d : ℤ × Tree h). Held h pages'.page d.1) left (c ∷ right)).0
          g.held_cells in
      let old_id : t.id < pages'.next_page_id =
        (let b = below t.id (inl refl) in omega (arith, b, g.later)) in
      let same : (p : ℕ)
          → RowUses (Uses h) u cs p
          → (split_pages pages' t.id (internal (root_id h u) (row_cells (root_id h) left))
                (internal (root_id h c.1) (row_cells (root_id h) right))).page
              p
            ≡ pages'.page p =
        λ p v.
          page-split_other pages' t.id p _ _ (λ e. outside u cs g (rw e at v)) (older u cs g p v) in
      record {
        grown =
            two (record { id = t.id; leftmost = u; cells = left }) c.0
              (record { id = pages'.next_page_id; leftmost = c.1; cells = right });
        reported = refl;
        entries = row_flat-append (flat h) u left c right ∙ g.entries;
        keys = λ P Q f k a.
            let whole = g.keys P Q f k a in
            let sides = CellsAll-append (AllKeys h) P Q left (c ∷ right) whole.1 in
            ((whole.0, sides.0), sides.1.0, (sides.1.1, sides.1.2));
        ordered = (order.0, order.1, order.2, order.3);
        separate = (
          (λ v. outside u cs g (to_left t.id v), apart.0),
          (
            λ v. (let b = older u cs g pages'.next_page_id (to_right _ v) in omega (arith, b)),
            apart.1,
          ),
          λ p v w. elim v [
            | inl e ↦ elim w [
              | inl q ↦ omega (arith, e, q, old_id)
              | inr x ↦ outside u cs g (to_right t.id (rw e at x))
            ]
            | inr x ↦ elim w [
              | inl q ↦ (let b = older u cs g p (to_left p x) in omega (arith, b, q))
              | inr y ↦ apart.2 p x y
            ]
          ],
        );
        uses = λ p v. elim v [
          | inl x ↦ elim x [ inl e ↦ inl (inl e) | inr w ↦ from p (to_left p w) ]
          | inr x ↦ elim x [
            | inl e ↦ inr (omega (arith, e, g.later), omega (arith, e, few, bound))
            | inr w ↦ from p (to_right p w)
          ]
        ];
        held = (
          (
            page-split_left pages' t.id _ _,
            Held-frame h pages'.page _ u g.held_leftmost (λ p v. same p (inl v)),
            CellsHeld-frame h pages'.page _ left sides.0 (λ p v. same p (to_left p (inr v))),
          ),
          (
            page-split_right pages' t.id _ _ old_id,
            Held-frame h pages'.page _ c.1 sides.1.0 (λ p v. same p (to_right p (inl v))),
            CellsHeld-frame h pages'.page _ right sides.1.1 (λ p v. same p (to_right p (inr v))),
          ),
        );
        same_root = refl;
        same_first = g.same_first;
        chained = λ after a.
            RowChain-append (first h) (Chained h) u left c right after (g.chained after a);
        frame = λ p b n.
            page-split_other pages' t.id p _ _ (λ e. n (inl e)) (omega (arith, b, g.later))
            ∙ g.frame p b (λ w. n (inr w));
        same_pool = g.same_pool;
        later = omega (arith, g.later, few, bound);
        few = omega (arith, few, bound);
        fits = (
          (omega (arith, total, size, space), g.fits_leftmost, old_cells.0),
          (omega (arith, total, size, space), old_cells.1.0, old_cells.1.1),
        );
      }
