-- ===== src/Planner/Tables.antt =====
-- src/physical_plan.cpp: the tables that a plan scans.
use mathlib.Core.List.Perm
use mathlib.Core.List.{Perm, perm_append_comm}
use toy_relational_database.Prelude.{
  All, Bool-cases, Bytes, List, Option, [], ap, append-nil, append_assoc, arith, inl, inr, leb,
  length, map, none, refl, some, suc, zero, ℕ, ◌%◌, ◌*◌, ◌++◌, ◌+◌, ◌∙◌, ◌∷◌, ◌≡◌,
}
use toy_relational_database.Errors.{Result, ok, ◌>>=◌, bind-eq-ok}
use toy_relational_database.Ast.{Expr, TableRef, JoinClause, SelectStmt}
use toy_relational_database.LogicalPlan.{
  LogicalNode, alias_of, make_scan, add_joins, add_filter, build_logical_plan,
}
use toy_relational_database.LogicalPlan.Build.{node_of, join_node_of, flatten-build}
use toy_relational_database.Planner.{
  PhysicalPlan, TableNode, EquiJoinColumns, extract_equi_join, flatten_joins, estimated_rows,
  hash_sides, join_by, join_with, join_node, is_table, insert_name, nth_node, without_node,
  join_all, plan_joins, plan_input, build_physical_plan,
}
use toy_relational_database.Planner.Choice.{Counted, choose_next-found}

-- The scans of a plan: table and alias.
unfoldable pub scans : PhysicalPlan → List (Bytes × Bytes)
scans (PhysicalPlan.scan table alias) = (table, alias) ∷ []
scans (PhysicalPlan.filter input p) = scans input
scans (PhysicalPlan.nested_loop_join l r c) = scans l ++ scans r
scans (PhysicalPlan.hash_join b p bt bc pt pc) = scans b ++ scans p
scans (PhysicalPlan.project input s items) = scans input

abbrev pub place : TableNode → Bytes × Bytes
place n = (n.table, n.alias)

hash_sides-scans :
    (left_rows right_rows : ℕ) (acc : PhysicalPlan) (next : TableNode) (nt : Option Bytes)
    (nc : Bytes) (at : Option Bytes) (ac : Bytes)
    → Perm
        (scans (hash_sides left_rows right_rows acc next nt nc at ac))
        (scans acc ++ place next ∷ [])
unfolding hash_sides scans
hash_sides-scans left_rows right_rows acc next nt nc at ac =
    elim (Bool-cases (leb left_rows right_rows)) [
      | inl e ↦ rw e (Perm.refl _)
      | inr e ↦ rw e (perm_append_comm (place next ∷ []) (scans acc))
    ]

join_by-scans :
    (left_rows right_rows : ℕ) (acc : PhysicalPlan) (next : TableNode) (condition : Expr)
    (equi : Option EquiJoinColumns)
    → Perm
        (scans (join_by left_rows right_rows acc next condition equi))
        (scans acc ++ place next ∷ [])
unfolding join_by scans
join_by-scans left_rows right_rows acc next condition none = Perm.refl _
join_by-scans left_rows right_rows acc next condition (some e) =
    elim (Bool-cases (
      leb ((left_rows + right_rows) % 18446744073709551616)
        ((left_rows * right_rows) % 18446744073709551616))) [
          | inl cheap ↦ elim (Bool-cases (is_table e.a_table next.alias)) [
            | inl a ↦
                rw (cheap, a)
                  (hash_sides-scans left_rows right_rows acc next e.a_table e.a_column e.b_table
                    e.b_column)
            | inr a ↦ elim (Bool-cases (is_table e.b_table next.alias)) [
              | inl b ↦
                  rw (cheap, a, b)
                    (hash_sides-scans left_rows right_rows acc next e.b_table e.b_column e.a_table
                      e.a_column)
              | inr b ↦ rw (cheap, a, b) (Perm.refl _)
            ]
          ]
          | inr dear ↦ rw dear (Perm.refl _)
        ]

module _ (row_count : Bytes → Result ℕ) where
  -- The catalog has every table of the plan.
  abbrev Estimated : PhysicalPlan → Type 0
  Estimated p = (k : ℕ) × (estimated_rows row_count p ≡ ok k)

  hash_sides-Estimated :
      (left_rows right_rows k : ℕ) (acc : PhysicalPlan) (next : TableNode) (nt : Option Bytes)
      (nc : Bytes) (at : Option Bytes) (ac : Bytes)
      → row_count next.table ≡ ok k
      → Estimated acc
      → Estimated (hash_sides left_rows right_rows acc next nt nc at ac)
  unfolding hash_sides estimated_rows
  hash_sides-Estimated left_rows right_rows k acc next nt nc at ac e (m, f) =
      elim (Bool-cases (leb left_rows right_rows)) [
        | inl q ↦ rw (q, f, e, ◌>>=◌) (_, refl)
        | inr q ↦ rw (q, f, e, ◌>>=◌) (_, refl)
      ]

  join_by-Estimated :
      (left_rows right_rows k : ℕ) (acc : PhysicalPlan) (next : TableNode) (condition : Expr)
      (equi : Option EquiJoinColumns)
      → row_count next.table ≡ ok k
      → Estimated acc
      → Estimated (join_by left_rows right_rows acc next condition equi)
  unfolding join_by estimated_rows
  join_by-Estimated left_rows right_rows k acc next condition none h (m, f) =
      rw (f, h, ◌>>=◌) (_, refl)
  join_by-Estimated left_rows right_rows k acc next condition (some e) h (m, f) =
      elim (Bool-cases (
        leb ((left_rows + right_rows) % 18446744073709551616)
          ((left_rows * right_rows) % 18446744073709551616))) [
            | inl cheap ↦ elim (Bool-cases (is_table e.a_table next.alias)) [
              | inl a ↦
                  rw (cheap, a)
                    (hash_sides-Estimated left_rows right_rows k acc next e.a_table e.a_column
                      e.b_table e.b_column h (m, f))
              | inr a ↦ elim (Bool-cases (is_table e.b_table next.alias)) [
                | inl b ↦
                    rw (cheap, a, b)
                      (hash_sides-Estimated left_rows right_rows k acc next e.b_table e.b_column
                        e.a_table e.a_column h (m, f))
                | inr b ↦ rw (cheap, a, b, f, h, ◌>>=◌) (_, refl)
              ]
            ]
            | inr dear ↦ rw (dear, f, h, ◌>>=◌) (_, refl)
          ]

  abbrev IsJoined : TableNode → Type 0
  IsJoined n = (c : Expr) × (n.join_condition ≡ some c)

  join_node-scans :
      (k : ℕ) (acc : PhysicalPlan) (next : TableNode)
      → IsJoined next
      → row_count next.table ≡ ok k
      → Estimated acc
      → (acc' : PhysicalPlan) × (join_node row_count acc next ≡ ok acc')
        × Estimated acc'
        × Perm (scans acc') (scans acc ++ place next ∷ [])
  unfolding join_with
  join_node-scans k acc next (c, e) h (m, f) = (
    join_by m k acc next c (extract_equi_join c),
    rw (e, join_node, h, ◌>>=◌, f, ◌>>=◌) refl,
    join_by-Estimated m k k acc next c (extract_equi_join c) h (m, f),
    join_by-scans m k acc next c (extract_equi_join c),
  )

  without_node-perm :
      (ns : List TableNode) (i : ℕ) (n : TableNode)
      → nth_node ns i ≡ some n
      → Perm (place n ∷ map place (without_node ns i)) (map place ns)
        × ((P : TableNode → Type 0) → All P ns → P n × All P (without_node ns i))
        × (length ns ≡ suc (length (without_node ns i)))
  unfolding nth_node without_node
  without_node-perm [] i n e = cc
  without_node-perm (x ∷ ns) zero n e =
      let same : x ≡ n = cc in rw (← same) (Perm.refl _, (λ P h. h), refl)
  without_node-perm (x ∷ ns) (suc i) n e =
      let ih = without_node-perm ns i n e in
      (
        Perm.trans (Perm.swap (place x) (place n) (map place (without_node ns i)))
            (Perm.cons (place x) ih.0),
        (λ P h. let k = ih.1 P h.1 in (k.0, (h.0, k.1))),
        ap suc ih.2,
      )

  module _ (count : Bytes → ℕ) where
    join_all-scans :
        (remaining : ℕ) (acc : PhysicalPlan) (joined : List Bytes) (ns : List TableNode)
        → length ns ≡ remaining
        → All IsJoined ns
        → All (Counted row_count count) ns
        → Estimated acc
        → (plan : PhysicalPlan) × (join_all row_count remaining acc joined ns ≡ ok plan)
          × Perm (scans plan) (scans acc ++ map place ns)
    unfolding join_all
    join_all-scans zero acc joined [] e h has est =
        (acc, refl, rw (append-nil (scans acc)) (Perm.refl (scans acc)))
    join_all-scans zero acc joined (n ∷ ns) e h has est = absurd (omega arith)
    join_all-scans (suc remaining) acc joined [] e h has est = absurd (omega arith)
    join_all-scans (suc remaining) acc joined (n ∷ ns) e h has est =
        let (i, next, choice, found) = choose_next-found row_count count joined n ns has in
        let (perm, split, shorter) = without_node-perm (n ∷ ns) i next found in
        let (next_ok, rest_ok) = split IsJoined h in
        let (next_has, rest_has) = split (Counted row_count count) has in
        let (acc', made, est', perm') =
          join_node-scans (count next.table) acc next next_ok next_has est in
        let (plan, returned, whole) =
          join_all-scans remaining acc' (insert_name next.alias joined) (without_node (n ∷ ns) i)
            (omega (arith, shorter)) rest_ok rest_has est' in
        (
          plan,
          rw (choice, ◌>>=◌, found, made, ◌>>=◌) returned,
          Perm.trans whole (
              Perm.trans (Perm.append_right (map place (without_node (n ∷ ns) i)) perm') (
                rw
                  (append_assoc (scans acc) (place next ∷ []) (map place (without_node (n ∷ ns) i)))
                  (Perm.append_left (scans acc) perm))),
        )

abbrev IsTree : LogicalNode → Type 0
IsTree (LogicalNode.scan t a) = Unit
IsTree (LogicalNode.join l r c) = Unit
IsTree _ = ⊥

plan_input-tree :
    (row_count : Bytes → Result ℕ) (p : LogicalNode) (joins : List JoinClause)
    → IsTree p
    → plan_input row_count (add_joins p joins)
      ≡ (flatten_joins (add_joins p joins) >>= plan_joins row_count)
unfolding plan_input add_joins
plan_input-tree row_count (LogicalNode.scan t a) [] h = refl
plan_input-tree row_count (LogicalNode.join l r c) [] h = refl
plan_input-tree row_count (LogicalNode.filter i p) [] h = elim h [ ]
plan_input-tree row_count (LogicalNode.project i s items) [] h = elim h [ ]
plan_input-tree row_count p (j ∷ js) h =
    plan_input-tree row_count (LogicalNode.join p (make_scan j.table) j.on_condition) js tt

join_nodes-IsJoined :
    (row_count : Bytes → Result ℕ) (joins : List JoinClause)
    → All (IsJoined row_count) (map join_node_of joins)
join_nodes-IsJoined row_count [] = tt
join_nodes-IsJoined row_count (j ∷ js) = ((j.on_condition, refl), join_nodes-IsJoined row_count js)

-- The tables that a query names, in its order, each with the name it goes by.
abbrev pub query_places : SelectStmt → List (Bytes × Bytes)
query_places stmt = map place (node_of stmt.from none ∷ map join_node_of stmt.joins)

module _ (row_count : Bytes → Result ℕ) (count : Bytes → ℕ) where
  Counted-places :
      (ns : List TableNode)
      → All (λ (p : Bytes × Bytes). row_count p.0 ≡ ok (count p.0)) (map place ns)
      → All (Counted row_count count) ns
  Counted-places [] h = tt
  Counted-places (n ∷ ns) h = (h.0, Counted-places ns h.1)

  planned :
      (from : TableRef) (joins : List JoinClause)
      → All (Counted row_count count) (node_of from none ∷ map join_node_of joins)
      → (plan : PhysicalPlan) × ((flatten_joins (add_joins (make_scan from) joins)
            >>= plan_joins row_count)
          ≡ ok plan)
        × Perm (scans plan) (map place (node_of from none ∷ map join_node_of joins))
  unfolding plan_joins scans
  planned from joins has =
      let nodes = map join_node_of joins in
      let base = PhysicalPlan.scan from.table (alias_of from) in
      let (plan, returned, perm) =
        join_all-scans row_count count (length nodes) base (alias_of from ∷ []) nodes refl
          (join_nodes-IsJoined row_count joins) has.1
          (count from.table, unfold estimated_rows in has.0) in
      (plan, rw (flatten-build from joins) returned, perm)

  planned_where :
      (from : TableRef) (joins : List JoinClause) (where_clause : Option Expr)
      → All (Counted row_count count) (node_of from none ∷ map join_node_of joins)
      → (plan : PhysicalPlan) × (plan_input row_count
            (add_filter (add_joins (make_scan from) joins) where_clause)
          ≡ ok plan)
        × Perm (scans plan) (map place (node_of from none ∷ map join_node_of joins))
  unfolding add_filter
  planned_where from joins none has =
      let (plan, returned, perm) = planned from joins has in
      (
        plan,
        plan_input-tree row_count (make_scan from) joins (unfold make_scan in tt) ∙ returned,
        perm,
      )
  planned_where from joins (some predicate) has =
      let (plan, returned, perm) = planned from joins has in
      let (nodes, flat, rest) =
        bind-eq-ok (flatten_joins (add_joins (make_scan from) joins)) (plan_joins row_count)
          returned in
      (
        PhysicalPlan.filter plan predicate,
        unfold plan_input in rw (flat, ◌>>=◌, rest, ◌>>=◌),
        unfold scans in perm,
      )

-- Every query whose tables all exist, whatever their row counts, can be planned: the planner returns a
-- plan, and the plan scans each table that the query names exactly once, under the name that the query
-- gives it.
pub plan-scans :
    (row_count : Bytes → Result ℕ) (count : Bytes → ℕ) (stmt : SelectStmt)
    → All (λ (p : Bytes × Bytes). row_count p.0 ≡ ok (count p.0)) (query_places stmt)
    → (plan : PhysicalPlan) × (build_physical_plan row_count (build_logical_plan stmt) ≡ ok plan)
      × Perm (scans plan) (query_places stmt)
unfolding build_physical_plan build_logical_plan scans
plan-scans row_count count stmt has =
    let (plan, returned, perm) =
      planned_where row_count count stmt.from stmt.joins stmt.where_clause (
        Counted-places row_count count (node_of stmt.from none ∷ map join_node_of stmt.joins)
          has) in
    (PhysicalPlan.project plan stmt.is_star stmt.select_items, rw (returned, ◌>>=◌), perm)
