-- ===== src/Planner/Choice.antt =====
-- src/physical_plan.cpp: the greedy choice of the table to join next.
use toy_relational_database.Prelude.{
  All, Bool, Bool-cases, Bytes, List, Option, [], ap, arith, false, if◌then◌else◌, inl, inr, none,
  refl, some, suc, true, zero, ℕ, ◌+◌, ◌∷◌, ◌≡◌, ◌≤◌, ◌⊎◌,
}
use toy_relational_database.Planner.{
  TableNode, referenced, is_connected, is_better, consider, pick_best, choose_next, nth_node,
}
use toy_relational_database.Errors.{Result, ok, ◌>>=◌}
use toy_relational_database.Planner.Names.{NamesOnly, connected_iff}

-- The ON condition of a table refers to no table but itself and the joined ones.
abbrev pub connected : List Bytes → TableNode → Bool
connected joined n = is_connected n.alias joined (referenced n)

All-imp_by :
    (P Q : TableNode → Type 0)
    → ((n : TableNode) → P n → Q n)
    → (ns : List TableNode) → All P ns
    → All Q ns
All-imp_by P Q f [] h = tt
All-imp_by P Q f (n ∷ ns) h = (f n h.0, All-imp_by P Q f ns h.1)

-- The catalog has the node's table, with the row count that `count` gives.
abbrev pub Counted : (Bytes → Result ℕ) → (Bytes → ℕ) → TableNode → Type 0
Counted row_count count n = row_count n.table ≡ ok (count n.table)

module _ (row_count : Bytes → Result ℕ) (count : Bytes → ℕ) (joined : List Bytes) where
  -- The node at place `k`, counted from `i`, is the one with the rows `r`.
  abbrev Candidate : List TableNode → ℕ → ℕ → ℕ → Type 0
  Candidate ns i k r =
      (j : ℕ) × (n : TableNode) × (k ≡ i + j)
      × (nth_node ns j ≡ some n)
      × (connected joined n ≡ true)
      × (r ≡ count n.table)

  record Picked (ns : List TableNode) (best : Option (ℕ × ℕ)) (i k r : ℕ) : Type 0 where
    source : (best ≡ some (k, r)) ⊎ Candidate ns i k r
    least : All (λ m. connected joined m ≡ true → r ≤ count m.table) ns
    no_worse : (k' r' : ℕ) → best ≡ some (k', r') → r ≤ r'

  -- A node that cannot improve on what was found leaves it.
  shift :
      (n : TableNode) (ns : List TableNode) (i k r : ℕ)
      → Candidate ns (i + 1) k r
      → Candidate (n ∷ ns) i k r
  unfolding nth_node
  shift n ns i k r (j, m, at_k, found, c, rows) = (suc j, m, omega arith, found, c, rows)

  taken :
      (n : TableNode) (ns : List TableNode) (best : Option (ℕ × ℕ)) (i k r : ℕ)
      → connected joined n ≡ true
      → is_better (count n.table) best ≡ true
      → Picked ns (some (i, count n.table)) (i + 1) k r
      → Picked (n ∷ ns) best i k r
  unfolding nth_node is_better
  taken n ns best i k r c b p =
      let least_here : r ≤ count n.table = p.no_worse i (count n.table) refl in
      record {
        source = elim p.source [
          | inl e ↦ inr (zero, n, ground (arith, e), refl, c, ground (arith, e))
          | inr later ↦ inr (shift n ns i k r later)
        ];
        least = ((λ e. least_here), p.least);
        no_worse = λ k' r' e. ground (arith, least_here, e, b);
      }

  left_out :
      (n : TableNode) (ns : List TableNode) (best : Option (ℕ × ℕ)) (i k r : ℕ)
      → (connected joined n ≡ true → (q : ℕ × ℕ) × (best ≡ some q) × (q.1 ≤ count n.table))
      → Picked ns best (i + 1) k r
      → Picked (n ∷ ns) best i k r
  left_out n ns best i k r worse p = record {
    source = elim p.source [ inl e ↦ inl e | inr later ↦ inr (shift n ns i k r later) ];
    least = ((λ c. let (q, e, le) = worse c in omega (arith, le, p.no_worse q.0 q.1 e)), p.least);
    no_worse = p.no_worse;
  }

  not_better :
      (rows : ℕ) (best : Option (ℕ × ℕ))
      → is_better rows best ≡ false
      → (q : ℕ × ℕ) × (best ≡ some q) × (q.1 ≤ rows)
  unfolding is_better
  not_better rows none h = absurd (cc h)
  not_better rows (some q) h = (q, refl, ground arith)

  pick_best-Picked :
      (ns : List TableNode) (best : Option (ℕ × ℕ)) (i k r : ℕ)
      → All (Counted row_count count) ns
      → pick_best row_count joined ns best i ≡ ok (some (k, r))
      → Picked ns best i k r
  unfolding pick_best consider nth_node
  pick_best-Picked [] best i k r has h = record {
    source = inl (cc h);
    least = tt;
    no_worse = λ k' r' e. ground (arith, h, e);
  }
  pick_best-Picked (n ∷ ns) best i k r has h = elim (Bool-cases (connected joined n)) [
    | inl c ↦ elim (Bool-cases (is_better (count n.table) best)) [
      | inl b ↦ taken n ns best i k r c b (
          pick_best-Picked ns (some (i, count n.table)) (i + 1) k r has.1
            (rw (c, has.0, ◌>>=◌, b) at h))
      | inr b ↦
          left_out n ns best i k r (λ e. not_better (count n.table) best b)
            (pick_best-Picked ns best (i + 1) k r has.1 (rw (c, has.0, ◌>>=◌, b) at h))
    ]
    | inr c ↦
        left_out n ns best i k r (λ e. absurd (cc (e, c)))
          (pick_best-Picked ns best (i + 1) k r has.1 (rw (c, ◌>>=◌) at h))
  ]

  pick_best-none :
      (ns : List TableNode) (best : Option (ℕ × ℕ)) (i : ℕ)
      → All (Counted row_count count) ns
      → pick_best row_count joined ns best i ≡ ok none
      → (best ≡ none) × All (λ m. connected joined m ≡ false) ns
  unfolding pick_best consider
  pick_best-none [] best i has h = (cc h, tt)
  pick_best-none (n ∷ ns) best i has h = elim (Bool-cases (connected joined n)) [
    | inl c ↦ elim (Bool-cases (is_better (count n.table) best)) [
      | inl b ↦
          let ih =
            pick_best-none ns (some (i, count n.table)) (i + 1) has.1
              (rw (c, has.0, ◌>>=◌, b) at h) in
          absurd (cc ih.0)
      | inr b ↦
          let ih = pick_best-none ns best (i + 1) has.1 (rw (c, has.0, ◌>>=◌, b) at h) in
          let (q, e, le) = not_better (count n.table) best b in absurd (cc (ih.0, e))
    ]
    | inr c ↦
        let ih = pick_best-none ns best (i + 1) has.1 (rw (c, ◌>>=◌) at h) in (ih.0, (c, ih.1))
  ]

  not-All_disconnected :
      (ns : List TableNode) (j : ℕ) (m : TableNode)
      → nth_node ns j ≡ some m
      → connected joined m ≡ true
      → All (λ m. connected joined m ≡ false) ns
      → ⊥
  unfolding nth_node
  not-All_disconnected [] j m e c h = cc
  not-All_disconnected (n ∷ ns) zero m e c h =
      let same : n ≡ m = cc in cc (ap (connected joined) same, h.0, c)
  not-All_disconnected (n ∷ ns) (suc j) m e c h = not-All_disconnected ns j m e c h.1

  -- The loop over nodes that the catalog has does not throw.
  pick_best-total :
      (ns : List TableNode) (best : Option (ℕ × ℕ)) (i : ℕ)
      → All (Counted row_count count) ns
      → (best' : Option (ℕ × ℕ)) × (pick_best row_count joined ns best i ≡ ok best')
  unfolding pick_best consider
  pick_best-total [] best i has = (best, refl)
  pick_best-total (n ∷ ns) best i has = elim (Bool-cases (connected joined n)) [
    | inl c ↦
        let best' = if is_better (count n.table) best then some (i, count n.table) else best in
        let rest = pick_best-total ns best' (i + 1) has.1 in (rest.0, rw (c, has.0, ◌>>=◌) rest.1)
    | inr c ↦ let rest = pick_best-total ns best (i + 1) has.1 in (rest.0, rw (c, ◌>>=◌) rest.1)
  ]

  -- The node that is chosen exists.
  pub choose_next-found :
      (n : TableNode) (ns : List TableNode)
      → All (Counted row_count count) (n ∷ ns)
      → (i : ℕ) × (m : TableNode) × (choose_next row_count joined (n ∷ ns) ≡ ok i)
        × (nth_node (n ∷ ns) i ≡ some m)
  unfolding choose_next nth_node
  choose_next-found n ns has = let (best, e) = pick_best-total (n ∷ ns) none 0 has in at_best best e
    where
      at_best :
          (best : Option (ℕ × ℕ))
          → pick_best row_count joined (n ∷ ns) none 0 ≡ ok best
          → (i : ℕ) × (m : TableNode) × (choose_next row_count joined (n ∷ ns) ≡ ok i)
            × (nth_node (n ∷ ns) i ≡ some m)
      at_best none e = (0, n, rw (e, ◌>>=◌), refl)
      at_best (some (k, r)) e = elim (pick_best-Picked (n ∷ ns) none 0 k r has e).source [
        | inl f ↦ absurd (cc f)
        | inr (j, m, at_k, found, c, rows) ↦
            let same : k ≡ j = omega arith in (k, m, rw (e, ◌>>=◌), rw same found)
      ]

  -- If every table that is left exists, and the ON condition of some of them names in its qualified
  -- column references only that table and joined ones, then a table is chosen to be joined next whose ON
  -- condition does so too, and no such table has fewer rows.
  pub choose_next-least :
      (ns : List TableNode) (j : ℕ) (m : TableNode)
      → All (Counted row_count count) ns
      → nth_node ns j ≡ some m
      → NamesOnly joined m
      → (i : ℕ) × (next : TableNode) × (choose_next row_count joined ns ≡ ok i)
        × (nth_node ns i ≡ some next)
        × NamesOnly joined next
        × All (λ q. NamesOnly joined q → count next.table ≤ count q.table) ns
  unfolding choose_next
  choose_next-least ns j m has found only =
      let (best, e) = pick_best-total ns none 0 has in at_best best e
    where
      at_best :
          (best : Option (ℕ × ℕ))
          → pick_best row_count joined ns none 0 ≡ ok best
          → (i : ℕ) × (next : TableNode) × (choose_next row_count joined ns ≡ ok i)
            × (nth_node ns i ≡ some next)
            × NamesOnly joined next
            × All (λ q. NamesOnly joined q → count next.table ≤ count q.table) ns
      at_best none e = absurd (
          not-All_disconnected ns j m found ((connected_iff joined m).1 only)
            (pick_best-none ns none 0 has e).1)
      at_best (some (k, r)) e =
          let picked = pick_best-Picked ns none 0 k r has e in
          elim picked.source [
            | inl f ↦ absurd (cc f)
            | inr (i, next, at_k, there, ok_next, rows) ↦
                let same : k ≡ i = omega arith in
                (
                  k,
                  next,
                  rw (e, ◌>>=◌),
                  rw same there,
                  (connected_iff joined next).0 ok_next,
                  All-imp_by (λ q. connected joined q ≡ true → r ≤ count q.table)
                      (λ q. NamesOnly joined q → count next.table ≤ count q.table)
                      (λ q le names. rw (← rows) (le ((connected_iff joined q).1 names))) ns
                      picked.least,
                )
          ]
