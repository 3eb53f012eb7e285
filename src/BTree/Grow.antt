-- ===== src/BTree/Grow.antt =====
-- src/btree.cpp: what InsertRecursive makes of a subtree and of its pages, and that of a leaf.
use toy_relational_database.Prelude.{
  All, Bool-cases, Bytes, List, Option, [], ap, arith, drop, eqb_ℤ, false, get_elem?, inl, inr, leb,
  leb→le, length, length-append, length-set, length-take, lt→ltb, none, refl, some, sym, take,
  take-append-drop, zero, ℕ, ℤ, ◌%◌, ◌++◌, ◌+◌, ◌/◌, ◌<ℤ◌, ◌<◌, ◌∙◌, ◌∷◌, ◌≡◌, ◌≢◌, ◌≤ℤ◌, ◌≤◌, ◌⊎◌,
}
use toy_relational_database.Errors.{ok}
use toy_relational_database.BTree.{
  LeafCell, Node, leaf, Pages, SplitResult, store, new_page, split_leaf_if_needed, first_key,
  leaf_max_keys, invalid_page_id, insert_leaf, position,
}
use toy_relational_database.BTree.Rows.{
  upsert, upsert-Sorted, All-upsert, Sorted, All-imp, set-position, insert_at-position,
  All-append_iff, Sorted-append, drop-half,
}
use toy_relational_database.BTree.Shape.{Grown, GrownHave, one, two, grown_flat, GrownAll}
use toy_relational_database.BTree.Space.{LeafRoom, length-upsert}
use toy_relational_database.BTree.Order.{GrownOrd}
use toy_relational_database.BTree.Links.{grown_id, grown_first, GrownChain}
use toy_relational_database.BTree.Owned.{GrownUses, GrownSep}
use toy_relational_database.BTree.Tree.{
  LeafPage, Tree, root_id, flat, AllKeys, Ordered, Uses, Separate, first, Chained, Held, Fits,
}

abbrev pub reported_split : (h : ℕ) → Grown (Tree h) → Option SplitResult
reported_split h (one a) = none
reported_split h (two a p b) = some (record { promoted_key = p; new_right_page_id = root_id h b })

pub record Inserted (h : ℕ) (pages : Pages) (key : ℤ) (value : Bytes) (t : Tree h)
    (result : Option SplitResult × Pages) : Type 1 where
  pub grown : Grown (Tree h)
  pub reported : result.0 ≡ reported_split h grown
  pub entries : grown_flat (flat h) grown ≡ upsert key value (flat h t)
  pub keys :
      (P Q : ℤ → Type 0)
      → ((x : ℤ) → P x → Q x)
      → P key
      → AllKeys h P Q t
      → GrownAll (AllKeys h) P Q grown
  pub ordered : GrownOrd (AllKeys h) (Ordered h) grown
  pub separate : GrownSep (Uses h) (Separate h) grown
  pub uses :
      (p : ℕ)
      → GrownUses (Uses h) grown p
      → Uses h t p ⊎ (pages.next_page_id ≤ p × p < result.1.next_page_id)
  pub held : GrownHave (Held h result.1.page) grown
  pub same_root : grown_id (root_id h) grown ≡ root_id h t
  pub same_first : grown_first (first h) (Chained h) grown ≡ first h t
  pub chained : (after : ℕ) → Chained h t after → GrownChain (first h) (Chained h) grown after
  pub frame : (p : ℕ) → p < pages.next_page_id → (Uses h t p → ⊥) → result.1.page p ≡ pages.page p
  pub same_pool : result.1.pool_size ≡ pages.pool_size
  pub later : pages.next_page_id ≤ result.1.next_page_id
  -- At most one new page on each level.
  pub few : result.1.next_page_id ≤ pages.next_page_id + (h + 1)
  pub fits : GrownHave (Fits h) grown

pub page-store :
    (pages : Pages) (id p : ℕ) (node : Node) → p ≢ id → (store pages id node).page p ≡ pages.page p
unfolding store
page-store pages id p node h = ground arith

pub page-store_same :
    (pages : Pages) (id : ℕ) (node : Node) → (store pages id node).page id ≡ some node
unfolding store
page-store_same pages id node = ground arith

-- The pages after a split: the right part is on a new page, the left one where it was.
unfoldable pub split_pages : Pages → ℕ → Node → Node → Pages
unfolding store
split_pages pages id left right =
    store
      (record (store pages pages.next_page_id right) {
        next_page_id = (pages.next_page_id + 1) % 4294967296;
      })
      id left

pub page-split_left :
    (pages : Pages) (id : ℕ) (left right : Node)
    → (split_pages pages id left right).page id ≡ some left
unfolding split_pages store
page-split_left pages id left right = ground arith

pub page-split_right :
    (pages : Pages) (id : ℕ) (left right : Node)
    → id < pages.next_page_id
    → (split_pages pages id left right).page pages.next_page_id ≡ some right
unfolding split_pages store
page-split_right pages id left right b = ground arith

pub page-split_other :
    (pages : Pages) (id p : ℕ) (left right : Node)
    → p ≢ id
    → p < pages.next_page_id
    → (split_pages pages id left right).page p ≡ pages.page p
unfolding split_pages store
page-split_other pages id p left right n b = ground arith

-- The cells fit in the leaf.
leaf_fits :
    (pages : Pages) (key : ℤ) (value : Bytes) (t : LeafPage)
    → Sorted t.cells
    → LeafRoom (length (upsert key value t.cells))
    → Inserted zero pages key value t
        (none, store pages t.id (leaf t.next (upsert key value t.cells)))
unfolding store
leaf_fits pages key value t s space = record {
  grown = one (record { id = t.id; next = t.next; cells = upsert key value t.cells });
  reported = refl;
  entries = refl;
  keys = λ P Q f k a. All-upsert P key value t.cells k a;
  ordered = upsert-Sorted key value t.cells s;
  separate = tt;
  uses = λ p u. inl u;
  held = page-store_same pages t.id _;
  same_root = refl;
  same_first = refl;
  chained = λ after c. c;
  frame = λ p b n. page-store pages t.id p _ n;
  same_pool = refl;
  later = ground arith;
  few = omega arith;
  fits = space;
}

-- The leaf splits in front of `c`.
leaf_splits :
    (pages : Pages) (key : ℤ) (value : Bytes) (t : LeafPage) (left : List LeafCell) (c : LeafCell)
    (right : List LeafCell)
    → left ++ c ∷ right ≡ upsert key value t.cells
    → 0 < length left
    → Sorted t.cells
    → t.id < pages.next_page_id
    → pages.next_page_id + 1 ≤ invalid_page_id
    → LeafRoom (length t.cells)
    → Inserted zero pages key value t (
      some (record { promoted_key = c.0; new_right_page_id = pages.next_page_id }),
      split_pages pages t.id (leaf pages.next_page_id left) (leaf t.next (c ∷ right)),
    )
unfolding split_pages store
leaf_splits pages key value t left c right e some_left s below bound space =
    let total = length-append left (c ∷ right) in
    let same_total : length (left ++ c ∷ right) ≡ length (upsert key value t.cells) =
      ap (λ (x : List LeafCell). length x) e in
    let most = length-upsert key value t.cells in
    let sides = Sorted-append left c right (rw e (upsert-Sorted key value t.cells s)) in
    let above : All (λ d. c.0 ≤ℤ d.0) (c ∷ right) = (
      omega arith,
      All-imp (λ d. c.0 <ℤ d.0) (λ d. c.0 ≤ℤ d.0) (λ d l. omega (arith, l)) right sides.2.0,
    ) in
    record {
      grown =
          two (record { id = t.id; next = pages.next_page_id; cells = left }) c.0
            (record { id = pages.next_page_id; next = t.next; cells = c ∷ right });
      reported = refl;
      entries = e;
      keys = λ P Q f k a.
          let halves =
            (All-append_iff (λ (d : LeafCell). P d.0) left (c ∷ right)).0
              (rw e (All-upsert P key value t.cells k a)) in
          (halves.0, f c.0 halves.1.0, halves.1);
      ordered = (sides.0, sides.2, sides.1, above);
      separate = (tt, tt, λ p u v. omega (arith, u, v, below));
      uses =
          λ p u. elim u [ inl l ↦ inl l | inr r ↦ inr (omega (arith, r), omega (arith, r, bound)) ];
      held = (page-split_left pages t.id _ _, page-split_right pages t.id _ _ below);
      same_root = refl;
      same_first = refl;
      chained = λ after a. (refl, a);
      frame = λ p b n. page-split_other pages t.id p _ _ n b;
      same_pool = refl;
      later = omega (arith, bound);
      few = omega (arith, bound);
      fits = (
        omega (arith, total, same_total, most, space, some_left),
        omega (arith, total, same_total, most, space, some_left),
      );
    }

split_leaf-Inserted :
    (pins : ℕ) (pages : Pages) (key : ℤ) (value : Bytes) (t : LeafPage)
    → Sorted t.cells
    → t.id < pages.next_page_id
    → pins < pages.pool_size
    → pages.next_page_id + 1 ≤ invalid_page_id
    → LeafRoom (length t.cells)
    → (res : Option SplitResult × Pages) × (split_leaf_if_needed pins pages t.id t.next
          (upsert key value t.cells)
        ≡ ok res)
      × Inserted zero pages key value t res
unfolding split_leaf_if_needed new_page first_key split_pages
split_leaf-Inserted pins pages key value t s below room bound space =
    elim (Bool-cases (leb (length grown) leaf_max_keys)) [
      | inl fits ↦ (
        _,
        rw fits,
        leaf_fits pages key value t s (let few = leb→le _ leaf_max_keys fits in omega (arith, few)),
      )
      | inr full ↦ at_right (drop (length grown / 2) grown) refl full
    ]
  where
    grown : List LeafCell
    grown = upsert key value t.cells

    at_right :
        (right : List LeafCell)
        → drop (length grown / 2) grown ≡ right
        → leb (length grown) leaf_max_keys ≡ false
        → (res : Option SplitResult × Pages) × (split_leaf_if_needed pins pages t.id t.next grown
            ≡ ok res)
          × Inserted zero pages key value t res
    at_right [] e full = elim (drop-half leaf_max_keys grown full e) [ ]
    at_right (c ∷ right) e full = (
      _,
      rw (full, e, lt→ltb pins pages.pool_size room) refl,
      leaf_splits pages key value t (take (length grown / 2) grown) c right
          (ap (λ (x : List LeafCell). take (length grown / 2) grown ++ x) (sym e)
            ∙ take-append-drop (length grown / 2) grown)
          (let half = length-take (length grown / 2) grown in
            let more : leaf_max_keys < length grown = ground (arith, full) in
            omega (arith, half, more))
          s below bound space,
    )

-- InsertRecursive at a leaf page.
pub insert_leaf-Inserted :
    (pins : ℕ) (pages : Pages) (key : ℤ) (value : Bytes) (t : LeafPage)
    → Sorted t.cells
    → t.id < pages.next_page_id
    → pins < pages.pool_size
    → pages.next_page_id + 1 ≤ invalid_page_id
    → LeafRoom (length t.cells)
    → (res : Option SplitResult × Pages) × (insert_leaf pins pages t.id t.next t.cells key value
          (get_elem? t.cells (position t.cells key))
        ≡ ok res)
      × Inserted zero pages key value t res
unfolding insert_leaf
insert_leaf-Inserted pins pages key value t s below room bound space =
    at_cell (get_elem? t.cells (position t.cells key)) refl
  where
    at_cell :
        (found : Option LeafCell)
        → get_elem? t.cells (position t.cells key) ≡ found
        → (res : Option SplitResult × Pages) × (insert_leaf pins pages t.id t.next t.cells key value
              found
            ≡ ok res)
          × Inserted zero pages key value t res
    at_cell none e =
        rw (insert_at-position t.cells key value (λ c q. cc))
          (split_leaf-Inserted pins pages key value t s below room bound space)
    at_cell (some c) e = elim (Bool-cases (eqb_ℤ c.0 key)) [
      | inl same ↦ (
        _,
        rw (same, set-position t.cells key value c e same) refl,
        leaf_fits pages key value t s (
            let kept : length (upsert key value t.cells) ≡ length t.cells =
              ap (λ (x : List LeafCell). length x) (sym (set-position t.cells key value c e same))
              ∙ length-set t.cells (position t.cells key) (c.0, value) in
            omega (arith, kept, space)),
      )
      | inr other ↦
          rw (other, insert_at-position t.cells key value (λ d q. let w : d ≡ c = cc in rw w other))
            (split_leaf-Inserted pins pages key value t s below room bound space)
    ]
