-- ===== src/BTree/Root.antt =====
-- src/btree.cpp: Insert behind InsertRecursive, with a new root where the old one has split.
use toy_relational_database.Prelude.{
  Bytes, List, Option, [], ap, append-nil, arith, inl, inr, ltb, lt→ltb, none, refl, some, subst,
  suc, sym, true, ℕ, ℤ, ◌%◌, ◌++◌, ◌+◌, ◌<◌, ◌∙◌, ◌∷◌, ◌≡◌, ◌≤◌, ◌⊎◌,
}
use toy_relational_database.Errors.{ok, ◌>>=◌}
use toy_relational_database.BTree.{
  LeafCell, Node, internal, Pages, SplitResult, BTree, store, new_page, fetch, grow_root,
  invalid_page_id, metadata, metadata_page_id, RootRecord, single_table, catalog_managed,
  record_root,
}
use toy_relational_database.BTree.Rows.{upsert}
use toy_relational_database.BTree.Shape.{Grown, one, two}
use toy_relational_database.BTree.Owned.{GrownUses}
use toy_relational_database.BTree.Tree.{Tree, root_id, flat, Uses, Held-frame, root_used}
use toy_relational_database.BTree.Grow.{Inserted, reported_split, page-store, page-store_same}
use toy_relational_database.BTree.Invariant.{IsTree, RecordedBy, RecordedBy-frame}

-- The pages that are older than the next one, or that the insertion has made.
module _ (h : ℕ) (tree : BTree) (m : List LeafCell) (key : ℤ) (value : Bytes)
    (res : Option SplitResult × Pages) (t : IsTree h tree m)
    (i : Inserted h tree.pages key value t.shape res) where
  some_page : 0 < tree.pages.next_page_id
  some_page = let used = t.below (root_id h t.shape) (root_used h t.shape) in omega (arith, used)

  grown-above :
      (q : ℕ) → GrownUses (Uses h) i.grown q → (metadata_page_id < q) × (q < res.1.next_page_id)
  grown-above q u = elim (i.uses q u) [
    | inl w ↦
        let above = t.above q w in
        let below = t.below q w in (omega (arith, above), omega (arith, below, i.later))
    | inr f ↦ (omega (arith, f, some_page), omega (arith, f))
  ]

  -- The metadata page is as before.
  first_page-kept : res.1.page metadata_page_id ≡ tree.pages.page metadata_page_id
  first_page-kept =
      i.frame metadata_page_id some_page (λ u. (let above = t.above 0 u in omega (arith, above)))

-- Insert behind the recursion, when the root has split.
two_rooted :
    (h : ℕ) (tree : BTree) (m : List LeafCell) (key : ℤ) (value : Bytes)
    (split : Option SplitResult) (pages' : Pages) (a : Tree h) (p : ℤ) (b : Tree h)
    → (t : IsTree h tree m) → (i : Inserted h tree.pages key value t.shape (split, pages'))
    → i.grown ≡ two a p b
    → (final : Pages) (kept : RootRecord)
    → ((q : ℕ)
        → metadata_page_id < q
        → final.page q
          ≡ (store pages' pages'.next_page_id
                (internal tree.root_page_id ((p, root_id h b) ∷ []))).page
              q)
    → final.next_page_id ≡ pages'.next_page_id + 1
    → RecordedBy kept final.page pages'.next_page_id
    → IsTree
        (suc h)
        (record { pages = final; root_page_id = pages'.next_page_id; root_record = kept })
        (upsert key value m)
two_rooted h tree m key value split pages' a p b t i e final kept same next recorded =
    let order = rw e at i.ordered in
    let apart = rw e at i.separate in
    let held = rw e at i.held in
    let links = rw e at i.chained invalid_page_id t.chained in
    let fits = rw e at i.fits in
    let from : (q : ℕ)
        → Uses h a q ⊎ Uses h b q
        → (metadata_page_id < q) × (q < pages'.next_page_id) =
      λ q u. grown-above h tree m key value (split, pages') t i q (rw e u) in
    let first : 0 < pages'.next_page_id =
      (let some_page = some_page h tree m key value (split, pages') t i in
        omega (arith, some_page, i.later)) in
    let kept_page : (q : ℕ) → Uses h a q ⊎ Uses h b q → final.page q ≡ pages'.page q = λ q u.
      let range = from q u in
      same q range.0 ∙ page-store pages' pages'.next_page_id q _ (λ s. omega (arith, s, range)) in
    record {
      shape = record { id = pages'.next_page_id; leftmost = a; cells = (p, b) ∷ [] };
      entries =
          ap (λ (x : List LeafCell). flat h a ++ x) (append-nil (flat h b))
          ∙ (rw e at i.entries)
          ∙ ap (upsert key value) t.entries;
      root = refl;
      recorded = recorded;
      held = (
        same pages'.next_page_id first
            ∙ page-store_same pages' pages'.next_page_id _
            ∙ ap (λ (x : ℕ). some (internal x ((p, root_id h b) ∷ [])))
                (t.root ∙ sym (rw e at i.same_root)),
        Held-frame h pages'.page final.page a held.0 (λ q u. kept_page q (inl u)),
        (Held-frame h pages'.page final.page b held.1 (λ q u. kept_page q (inr u)), tt),
      );
      separate = (
        (λ u. elim u [
          | inl v ↦ (let less = from pages'.next_page_id (inl v) in omega (arith, less.1))
          | inr v ↦ elim v [
            | inl w ↦ (let less = from pages'.next_page_id (inr w) in omega (arith, less.1))
            | inr w ↦ w
          ]
        ]),
        (apart.0, (λ q u v. elim v [ inl w ↦ apart.2 q u w | inr w ↦ w ]), apart.1),
      );
      ordered = (order.0, order.2, (omega arith, order.3, tt), order.1);
      below = λ q u. elim u [
        | inl s ↦ omega (arith, s, next)
        | inr v ↦ elim v [
          | inl w ↦ (let less = from q (inl w) in omega (arith, less.1, next))
          | inr w ↦ elim w [
            | inl x ↦ (let less = from q (inr x) in omega (arith, less.1, next))
            | inr x ↦ elim x [ ]
          ]
        ]
      ];
      above = λ q u. elim u [
        | inl s ↦ omega (arith, s, first)
        | inr v ↦ elim v [
          | inl w ↦ (let less = from q (inl w) in less.0)
          | inr w ↦ elim w [ inl x ↦ (let less = from q (inr x) in less.0) | inr x ↦ elim x [ ] ]
        ]
      ];
      chained = links;
      fits = (omega arith, fits.0, (fits.1, tt));
    }

-- Insert behind the recursion, when the root is still one page.
one_rooted :
    (h : ℕ) (tree : BTree) (m : List LeafCell) (key : ℤ) (value : Bytes)
    (split : Option SplitResult) (pages' : Pages) (a : Tree h)
    → (t : IsTree h tree m) → (i : Inserted h tree.pages key value t.shape (split, pages'))
    → i.grown ≡ one a
    → IsTree h (record tree { pages = pages' }) (upsert key value m)
one_rooted h tree m key value split pages' a t i e = record {
  shape = a;
  entries = (rw e at i.entries) ∙ ap (upsert key value) t.entries;
  root = t.root ∙ sym (rw e at i.same_root);
  recorded =
      subst (λ (x : ℕ). RecordedBy tree.root_record pages'.page x) refl
        (RecordedBy-frame tree.root_record tree.pages.page pages'.page tree.root_page_id
          (first_page-kept h tree m key value (split, pages') t i) t.recorded);
  held = rw e at i.held;
  separate = rw e at i.separate;
  ordered = rw e at i.ordered;
  below = λ q u. elim (i.uses q (rw e u)) [
    | inl w ↦ (let b = t.below q w in omega (arith, b, i.later))
    | inr f ↦ f.1
  ];
  above = λ q u. (grown-above h tree m key value (split, pages') t i q (rw e u)).0;
  chained = rw e at i.chained invalid_page_id t.chained;
  fits = rw e at i.fits;
}

-- What the code does with a new root.
record_root-two_rooted :
    (h : ℕ) (tree : BTree) (m : List LeafCell) (key : ℤ) (value : Bytes)
    (split : Option SplitResult) (pages' : Pages) (a : Tree h) (p : ℤ) (b : Tree h)
    → (t : IsTree h tree m) → (i : Inserted h tree.pages key value t.shape (split, pages'))
    → i.grown ≡ two a p b
    → 0 < tree.pages.pool_size
    → (made : Pages)
    → (made.page
        ≡ (store pages' pages'.next_page_id
            (internal tree.root_page_id ((p, root_id h b) ∷ []))).page)
    → made.next_page_id ≡ pages'.next_page_id + 1
    → made.pool_size ≡ tree.pages.pool_size
    → (kept : RootRecord) → tree.root_record ≡ kept
    → (tree' : BTree) × (record_root made pages'.next_page_id kept ≡ ok tree')
      × tree'.pages.pool_size ≡ tree.pages.pool_size
      × IsTree (suc h) tree' (upsert key value m)
unfolding record_root
record_root-two_rooted h tree m key value split pages' a p b t i e room made same next pool
      (catalog_managed told) mode =
    (
      _,
      refl,
      pool,
      two_rooted h tree m key value split pages' a p b t i e made
          (catalog_managed pages'.next_page_id) (λ q above. ap (λ (f : ℕ → Option Node). f q) same)
          next refl,
    )
record_root-two_rooted h tree m key value split pages' a p b t i e room made same next pool
      single_table mode =
    let some_page = some_page h tree m key value (split, pages') t i in
    let there : made.page metadata_page_id ≡ some (metadata tree.root_page_id) =
      ap (λ (f : ℕ → Option Node). f metadata_page_id) same
      ∙ page-store pages' pages'.next_page_id 0 _ (λ s. omega (arith, s, some_page, i.later))
      ∙ first_page-kept h tree m key value (split, pages') t i
      ∙ (rw mode at t.recorded) in
    let final : Pages = store made metadata_page_id (metadata pages'.next_page_id) in
    (
      record { pages = final; root_page_id = pages'.next_page_id; root_record = single_table },
      rw (fetch, pool, lt→ltb 0 tree.pages.pool_size room, there, ◌>>=◌) refl,
      unfold store in pool,
      two_rooted h tree m key value split pages' a p b t i e final single_table
          (λ q above.
            page-store made metadata_page_id q _ (λ s. omega (arith, s, above))
            ∙ ap (λ (f : ℕ → Option Node). f q) same)
          (unfold store in next)
          (page-store_same made metadata_page_id (metadata pages'.next_page_id)),
    )

pub grow_root-Inserted :
    (h : ℕ) (tree : BTree) (m : List LeafCell) (key : ℤ) (value : Bytes)
    (res : Option SplitResult × Pages)
    → (t : IsTree h tree m) → 0 < tree.pages.pool_size
    → tree.pages.next_page_id + (h + 2) ≤ invalid_page_id
    → (i : Inserted h tree.pages key value t.shape res) → (r : Grown (Tree h)) → i.grown ≡ r
    → (tree' : BTree) × (grow_root tree res ≡ ok tree')
      × tree'.pages.pool_size ≡ tree.pages.pool_size
      × (IsTree h tree' (upsert key value m) ⊎ IsTree (suc h) tree' (upsert key value m))
unfolding grow_root new_page
grow_root-Inserted h tree m key value (split, pages') t room bound i (one a) e =
    let here : split ≡ none = i.reported ∙ ap (reported_split h) e in
    (
      record tree { pages = pages' },
      rw here refl,
      i.same_pool,
      inl (one_rooted h tree m key value split pages' a t i e),
    )
grow_root-Inserted h tree m key value (split, pages') t room bound i (two a p b) e =
    let here : split ≡ some (record { promoted_key = p; new_right_page_id = root_id h b }) =
      i.reported ∙ ap (reported_split h) e in
    let node = internal tree.root_page_id ((p, root_id h b) ∷ []) in
    let made : Pages = record (store pages' pages'.next_page_id node) {
      next_page_id = (pages'.next_page_id + 1) % 4294967296;
    } in
    let few = i.few in
    let same = i.same_pool in
    let free : ltb 0 pages'.pool_size ≡ true =
      lt→ltb 0 pages'.pool_size (omega (arith, room, same)) in
    let (tree', done, pool, whole) =
      record_root-two_rooted h tree m key value split pages' a p b t i e room made refl
        (omega (arith, few, bound)) (unfold store in i.same_pool) tree.root_record refl in
    (tree', rw (here, free, ◌>>=◌) done, pool, inr whole)
