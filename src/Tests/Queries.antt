-- ===== src/Tests/Queries.antt =====
-- The planner and the executor at a query of two tables.
use toy_relational_database.Prelude.{
  All, Bool, Bytes, List, [], arith, drop, false, if◌then◌else◌, inl, inr, map, negsuc, none, pos,
  refl, some, str_eq, str_lt, true, ℕ, ◌++◌, ◌||◌, ◌∷◌, ◌≡◌, ◌≤◌,
}
use mathlib.Core.List.Perm
use mathlib.Core.List.{Perm}
use toy_relational_database.Errors.{Result, ok, throw, catalog_error, no_such_table}
use toy_relational_database.Ast.{
  Literal, ComparisonOp, Expr, TableRef, JoinClause, SelectItem, SelectStmt, ColumnType, column_ref,
  literal, comparison,
}
use toy_relational_database.Schema.{Value, TableSchema}
use toy_relational_database.ExecRow.{ExecRow, find}
use toy_relational_database.ExecRow.Resolve.{named, only, find-only}
use toy_relational_database.ExprEval.{compare_values, eval_value, eval_bool}
use toy_relational_database.ExprEval.Order.{reversed, compare_values_swap, compare_values_trans}
use toy_relational_database.ExprEval.Laws.{
  complement, flip, map_not, eval_bool-complement, eval_bool-flip, eval_bool_total,
}
use toy_relational_database.LogicalPlan.{alias_of, add_joins, make_scan, build_logical_plan}
use toy_relational_database.LogicalPlan.Build.{node_of, join_node_of, flatten-build}
use toy_relational_database.Planner.{
  PhysicalPlan, TableNode, flatten_joins, choose_next, nth_node, build_physical_plan,
}
use toy_relational_database.Planner.Choice.{choose_next-least}
use toy_relational_database.Planner.Names.{NamesOnly}
use toy_relational_database.Planner.Tables.{scans, query_places, plan-scans}
use toy_relational_database.Executor.Hash.{under_key, EquiJoined, probe-Yields}
use toy_relational_database.Engine.{no_result, read_result}
use toy_relational_database.Engine.Select.{header_of, read_result-Yields}
use toy_relational_database.Executor.{
  NextOf, HashState, hash_build, hash_open, hash_next, ScanState, tag_fields, scan_next,
  filter_next, project_next, NestedLoopState, nested_loop_open, nested_loop_next,
}
use toy_relational_database.Executor.Streams.{
  Yields, done, more, filter_rows, filter-Yields, nothing, renamed, finished, selected,
  project-Yields, values_of, ScannedRow, scan-Yields_tagged, scan-Yields,
}
use toy_relational_database.Executor.NestedLoop.{cross, rounds, join-Yields}

-- u(id, n) with two rows, o(id, u) with one
abbrev u_table : TableSchema
u_table = record {
  table_name = 117 ∷ [];
  columns =
      record { name = 105 ∷ []; type = ColumnType.integer; is_primary_key = true }
      ∷ record { name = 110 ∷ []; type = ColumnType.text; is_primary_key = false }
      ∷ [];
}

abbrev u_rows : List (List Value)
u_rows =
    (Value.int (pos 1) ∷ Value.text (65 ∷ []) ∷ [])
    ∷ (Value.int (pos 2) ∷ Value.text (66 ∷ []) ∷ [])
    ∷ []

abbrev u_scan : ScanState
u_scan = record { rows = u_rows; cursor = 0 }

abbrev u_out : List ExecRow
u_out = map (tag_fields (117 ∷ []) u_table.columns) u_rows

abbrev o_row : ExecRow
o_row = record { table = 111 ∷ []; column = 117 ∷ []; value = Value.int (pos 2) } ∷ []

-- u.i and o.u
abbrev user_id : Expr
user_id = column_ref (some (117 ∷ [])) (105 ∷ [])

abbrev order_user : Expr
order_user = column_ref (some (111 ∷ [])) (117 ∷ [])

abbrev u_row : ExecRow
u_row = record { table = 117 ∷ []; column = 105 ∷ []; value = Value.int (pos 2) } ∷ []

abbrev at_least_two : Expr
at_least_two = comparison ComparisonOp.gte user_id (literal (Literal.integer (pos 2)))

find-only_example : find none (105 ∷ []) u_row ≡ only (named (105 ∷ []) u_row)
find-only_example = find-only (105 ∷ []) u_row

compare_values_swap_example :
    compare_values (Value.int (pos 3)) (Value.int (negsuc 4)) ≡ ok (reversed (negsuc 0))
compare_values_swap_example =
    compare_values_swap (Value.int (negsuc 4)) (Value.int (pos 3)) (negsuc 0)
      (unfold compare_values in refl)

compare_values_trans_example : compare_values (Value.text []) (Value.text (66 ∷ [])) ≡ ok (negsuc 0)
unfolding str_lt
compare_values_trans_example =
    compare_values_trans (Value.text []) (Value.text (65 ∷ [])) (Value.text (66 ∷ []))
      (unfold compare_values in refl) (unfold compare_values in refl)

eval_bool-complement_example :
    eval_bool (comparison (complement ComparisonOp.gte) user_id order_user) u_row
    ≡ map_not (eval_bool (comparison ComparisonOp.gte user_id order_user) u_row)
eval_bool-complement_example = eval_bool-complement ComparisonOp.gte user_id order_user u_row

eval_bool-flip_example :
    eval_bool (comparison (flip ComparisonOp.gte) (literal (Literal.integer (pos 1))) user_id) u_row
    ≡ eval_bool (comparison ComparisonOp.gte user_id (literal (Literal.integer (pos 1)))) u_row
unfolding str_eq
eval_bool-flip_example =
    eval_bool-flip ComparisonOp.gte user_id (literal (Literal.integer (pos 1))) u_row
      (Value.int (pos 2)) (Value.int (pos 1)) (unfold eval_value find in refl)
      (unfold eval_value in refl)

eval_bool_total_example : (b : Bool) × (eval_bool at_least_two u_row ≡ ok b)
unfolding str_eq
eval_bool_total_example = eval_bool_total u_row at_least_two (
  Value.int (pos 2),
  Value.int (pos 2),
  unfold eval_value find in refl,
  unfold eval_value in refl,
  tt,
)

abbrev u_ref : TableRef
u_ref = record { table = 117 ∷ []; alias = none }

abbrev o_join : JoinClause
o_join = record {
  table = record { table = 111 ∷ []; alias = none };
  on_condition = comparison ComparisonOp.eq user_id order_user;
}

abbrev query : SelectStmt
query = record {
  is_star = true;
  select_items = [];
  from = u_ref;
  joins = o_join ∷ [];
  where_clause = some at_least_two;
}

flatten-build_example :
    flatten_joins (add_joins (make_scan u_ref) (o_join ∷ []))
    ≡ ok (node_of u_ref none ∷ map join_node_of (o_join ∷ []))
flatten-build_example = flatten-build u_ref (o_join ∷ [])

abbrev o_node : TableNode
o_node = join_node_of o_join

-- A catalog that has these two tables, each with one row.
abbrev one_row : Bytes → ℕ
one_row name = 1

abbrev row_counts : Bytes → Result ℕ
row_counts name =
    if str_eq name (117 ∷ []) || str_eq name (111 ∷ [])
    then ok 1
    else throw (catalog_error no_such_table)

choose_next-least_example :
    (i : ℕ) × (next : TableNode) × (choose_next row_counts ((117 ∷ []) ∷ []) (o_node ∷ []) ≡ ok i)
    × (nth_node (o_node ∷ []) i ≡ some next)
    × NamesOnly ((117 ∷ []) ∷ []) next
    × All (λ q. NamesOnly ((117 ∷ []) ∷ []) q → one_row next.table ≤ one_row q.table) (o_node ∷ [])
unfolding str_eq alias_of
choose_next-least_example =
    choose_next-least row_counts one_row ((117 ∷ []) ∷ []) (o_node ∷ []) 0 o_node (refl, tt)
      (unfold nth_node in refl) (inr (inl refl), inl refl)

plan-scans_example :
    (plan : PhysicalPlan) × (build_physical_plan row_counts (build_logical_plan query) ≡ ok plan)
    × Perm (scans plan) (query_places query)
unfolding str_eq alias_of
plan-scans_example = plan-scans row_counts one_row query (refl, (refl, tt))

abbrev u_yields : Yields (scan_next u_table (117 ∷ [])) u_scan u_out
u_yields = scan-Yields_tagged u_table (117 ∷ []) u_rows

scan-Yields_example :
    (out : List ExecRow) × Yields (scan_next u_table (117 ∷ [])) u_scan out
    × (map values_of out ≡ u_rows)
    × All (ScannedRow u_table (117 ∷ [])) out
scan-Yields_example = scan-Yields u_table (117 ∷ []) u_rows (refl, (refl, tt))

read_result-Yields_example :
    read_result (scan_next u_table (117 ∷ [])) 3 true no_result u_scan
    ≡ ok (record { column_names = header_of u_out; rows = map values_of u_out })
read_result-Yields_example =
    read_result-Yields (scan_next u_table (117 ∷ [])) 3 u_yields (unfold tag_fields in omega arith)

-- The second user, alone and joined.
abbrev second : List ExecRow
second = drop 1 u_out

filter-Yields_example :
    Yields (filter_next (scan_next u_table (117 ∷ [])) at_least_two 3) u_scan second
unfolding eval_value find str_eq compare_values
filter-Yields_example =
    filter-Yields (scan_next u_table (117 ∷ [])) at_least_two 3 second u_yields
      (unfold tag_fields in omega arith) (unfold filter_rows tag_fields eval_bool in refl)

abbrev name_item : SelectItem
name_item = record { table = none; column = 110 ∷ []; alias = some (120 ∷ []) }

abbrev names_out : List ExecRow
names_out =
    (record { table = []; column = 120 ∷ []; value = Value.text (65 ∷ []) } ∷ [])
    ∷ (record { table = []; column = 120 ∷ []; value = Value.text (66 ∷ []) } ∷ [])
    ∷ []

project-Yields_example :
    Yields (project_next (scan_next u_table (117 ∷ [])) false (name_item ∷ [])) u_scan names_out
unfolding find str_eq tag_fields
project-Yields_example =
    project-Yields (scan_next u_table (117 ∷ [])) false (name_item ∷ []) names_out u_yields (
      selected (renamed refl refl refl refl nothing)
        (selected (renamed refl refl refl refl nothing) finished))

abbrev join_state : NestedLoopState ScanState
join_state = record {
  left = record { rows = u_rows; cursor = 1 };
  current_left =
      some (tag_fields (117 ∷ []) u_table.columns (Value.int (pos 1) ∷ Value.text (65 ∷ []) ∷ []));
  right_rows = o_row ∷ [];
  right_cursor = 0;
}

abbrev joined_out : List ExecRow
joined_out =
    (tag_fields (117 ∷ []) u_table.columns (Value.int (pos 2) ∷ Value.text (66 ∷ []) ∷ []) ++ o_row)
    ∷ []

join-Yields_example :
    Yields
      (nested_loop_next
        (scan_next u_table (117 ∷ []))
        (comparison ComparisonOp.eq user_id order_user)
        6)
      join_state
      joined_out
unfolding eval_value find str_eq compare_values
join-Yields_example =
    join-Yields (scan_next u_table (117 ∷ [])) (comparison ComparisonOp.eq user_id order_user) 6
      (o_row ∷ []) join_state joined_out u_yields (unfold nested_loop_open scan_next in refl)
      (unfold rounds tag_fields in omega arith)
      (unfold filter_rows cross tag_fields eval_bool in refl)

abbrev o_rows : List ExecRow
o_rows = o_row ∷ []

-- The rows of the other table, each of which is handed out once.
abbrev o_next : NextOf (List ExecRow)
o_next [] = ok (none, [])
o_next (r ∷ rs) = ok (some r, rs)

probe-Yields_example :
    (st : HashState ScanState) × (out : List ExecRow) × (hash_open under_key
        (scan_next u_table (117 ∷ []))
        (hash_build o_next (some (111 ∷ [])) (117 ∷ []) 2 o_rows)
        u_scan
      ≡ ok st)
    × Yields
        (hash_next under_key (scan_next u_table (117 ∷ [])) (some (117 ∷ [])) (105 ∷ []) 3)
        st
        out
    × EquiJoined (some (111 ∷ [])) (117 ∷ []) (some (117 ∷ [])) (105 ∷ []) o_rows u_out out
unfolding find str_eq tag_fields
probe-Yields_example =
    probe-Yields under_key (λ key t. Perm.refl _) (some (111 ∷ [])) (117 ∷ []) (some (117 ∷ []))
      (105 ∷ []) o_rows o_next (scan_next u_table (117 ∷ [])) 2 3
      (more {s' = []} refl (done {s' = []} refl)) u_yields (omega arith) (omega arith)
      ((Value.int (pos 2), refl), tt) ((Value.int (pos 1), refl), ((Value.int (pos 2), refl), tt))
