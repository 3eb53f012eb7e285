-- ===== src/Planner.antt =====
-- src/physical_plan.cpp, BuildPhysicalPlan: join order and join strategies. What it asks the
-- catalog is a function of the table's name, `row_count`, which throws for a table that does not
-- exist.
pub mod Names
pub mod Choice
pub mod Tables
use toy_relational_database.Prelude.{
  Bool, Bytes, List, Option, [], false, if◌then◌else◌, leb, length, ltb, none, some, str_eq, suc,
  true, zero, ℕ, ◌%◌, ◌&&◌, ◌*◌, ◌++◌, ◌+◌, ◌||◌, ◌∷◌,
}
use toy_relational_database.Errors.{Result, ok, throw, logic_error, ◌>>=◌}
use toy_relational_database.Ast.{
  Expr, ComparisonOp, SelectItem, column_ref, literal, comparison, and, or,
}
use toy_relational_database.LogicalPlan.{LogicalNode}

-- The operators, with what their constructors are given.
pub data PhysicalPlan : Type 0 where
  -- table, alias
  scan : Bytes → Bytes → PhysicalPlan
  filter : PhysicalPlan → Expr → PhysicalPlan
  -- left, right, condition
  nested_loop_join : PhysicalPlan → PhysicalPlan → Expr → PhysicalPlan
  -- build side, probe side, build table and column, probe table and column
  hash_join :
      PhysicalPlan → PhysicalPlan → Option Bytes → Bytes → Option Bytes → Bytes → PhysicalPlan
  project : PhysicalPlan → Bool → List SelectItem → PhysicalPlan

pub record TableNode : Type 0 where
  pub table : Bytes
  pub alias : Bytes
  -- `nullptr` for the base table
  pub join_condition : Option Expr

-- CollectReferencedTables, with what has been collected; `std::set` as a list without repetitions.
unfoldable pub contains : List Bytes → Bytes → Bool
contains [] name = false
contains (x ∷ xs) name = str_eq x name || contains xs name

unfoldable pub insert_name : Bytes → List Bytes → List Bytes
unfolding contains
insert_name name names = if contains names name then names else name ∷ names

unfoldable pub collect_referenced_tables : Expr → List Bytes → List Bytes
unfolding insert_name
collect_referenced_tables (column_ref none column) out = out
collect_referenced_tables (column_ref (some table) column) out = insert_name table out
collect_referenced_tables (comparison op l r) out =
    collect_referenced_tables r (collect_referenced_tables l out)
collect_referenced_tables (and l r) out =
    collect_referenced_tables r (collect_referenced_tables l out)
collect_referenced_tables (or l r) out =
    collect_referenced_tables r (collect_referenced_tables l out)
collect_referenced_tables (literal lit) out = out

-- The two column references of an equi-join.
pub record EquiJoinColumns : Type 0 where
  pub a_table : Option Bytes
  pub a_column : Bytes
  pub b_table : Option Bytes
  pub b_column : Bytes

unfoldable pub extract_equi_join : Expr → Option EquiJoinColumns
extract_equi_join (comparison ComparisonOp.eq (column_ref t c) (column_ref u d)) =
    some (record { a_table = t; a_column = c; b_table = u; b_column = d })
extract_equi_join _ = none

-- The right side of a join is a scan: BuildLogicalPlan makes no other, and the program casts.
unfoldable pub join_right : LogicalNode → Expr → Result TableNode
join_right (LogicalNode.scan table alias) condition =
    ok (record { table = table; alias = alias; join_condition = some condition })
join_right _ condition = throw logic_error

unfoldable pub flatten_joins : LogicalNode → Result (List TableNode)
unfolding join_right
flatten_joins (LogicalNode.scan table alias) =
    ok (record { table = table; alias = alias; join_condition = none } ∷ [])
flatten_joins (LogicalNode.join left right condition) =
    flatten_joins left >>= λ nodes. join_right right condition >>= λ node. ok (nodes ++ node ∷ [])
flatten_joins (LogicalNode.filter input predicate) = throw logic_error
flatten_joins (LogicalNode.project input star items) = throw logic_error

-- EstimatedRows on `uint64_t`.
unfoldable pub estimated_rows : (Bytes → Result ℕ) → PhysicalPlan → Result ℕ
estimated_rows row_count (PhysicalPlan.scan table alias) = row_count table
estimated_rows row_count (PhysicalPlan.filter input p) = estimated_rows row_count input
estimated_rows row_count (PhysicalPlan.nested_loop_join l r c) =
    estimated_rows row_count l >>= λ left.
    estimated_rows row_count r >>= λ right. ok ((left * right) % 18446744073709551616)
estimated_rows row_count (PhysicalPlan.hash_join b p bt bc pt pc) =
    estimated_rows row_count b >>= λ build.
    estimated_rows row_count p >>= λ probe. ok ((build + probe) % 18446744073709551616)
estimated_rows row_count (PhysicalPlan.project input s items) = estimated_rows row_count input

-- `*nodes[i].join_condition` of a joined table.
abbrev pub referenced : TableNode → List Bytes
referenced node = elim node.join_condition [
  | none ↦ []
  | some condition ↦ collect_referenced_tables condition []
]

-- All of `refs` but the node's own alias have been joined.
unfoldable pub is_connected : Bytes → List Bytes → List Bytes → Bool
unfolding contains
is_connected alias joined [] = true
is_connected alias joined (r ∷ refs) =
    (str_eq r alias || contains joined r) && is_connected alias joined refs

-- `best_idx < 0 || rows < best_rows`
unfoldable pub is_better : ℕ → Option (ℕ × ℕ) → Bool
is_better rows none = true
is_better rows (some (j, best_rows)) = ltb rows best_rows

-- The loop over the nodes that are not consumed, which keep their textual order: the place of the
-- best one so far, with its rows.
unfoldable pub consider :
    (Bytes → Result ℕ) → List Bytes → TableNode → Option (ℕ × ℕ) → ℕ → Result (Option (ℕ × ℕ))
consider row_count joined n best i =
    if is_connected n.alias joined (referenced n)
    then (row_count n.table >>= λ rows. ok (if is_better rows best then some (i, rows) else best))
    else ok best

unfoldable pub pick_best :
    (Bytes → Result ℕ) → List Bytes → List TableNode → Option (ℕ × ℕ) → ℕ → Result (Option (ℕ × ℕ))
unfolding consider
pick_best row_count joined [] best i = ok best
pick_best row_count joined (n ∷ ns) best i =
    consider row_count joined n best i >>= λ best'. pick_best row_count joined ns best' (i + 1)

-- The node to join next among those that are left, as a place in their list: the best connected
-- one, or else the first.
abbrev pub chosen : Option (ℕ × ℕ) → ℕ
chosen none = 0
chosen (some (i, rows)) = i

unfoldable pub choose_next : (Bytes → Result ℕ) → List Bytes → List TableNode → Result ℕ
unfolding pick_best
choose_next row_count joined nodes =
    pick_best row_count joined nodes none 0 >>= λ best. ok (chosen best)

abbrev pub is_table : Option Bytes → Bytes → Bool
is_table none alias = false
is_table (some t) alias = str_eq t alias

-- One join: the strategy for the accumulated plan and the next table.
unfoldable pub hash_sides :
    ℕ → ℕ → PhysicalPlan → TableNode → Option Bytes → Bytes → Option Bytes → Bytes → PhysicalPlan
hash_sides left_rows right_rows acc next next_table next_column acc_table acc_column =
    let right = PhysicalPlan.scan next.table next.alias in
    if leb left_rows right_rows
    then PhysicalPlan.hash_join acc right acc_table acc_column next_table next_column
    else PhysicalPlan.hash_join right acc next_table next_column acc_table acc_column

unfoldable pub join_by :
    ℕ → ℕ → PhysicalPlan → TableNode → Expr → Option EquiJoinColumns → PhysicalPlan
unfolding hash_sides
join_by left_rows right_rows acc next condition none =
    PhysicalPlan.nested_loop_join acc (PhysicalPlan.scan next.table next.alias) condition
join_by left_rows right_rows acc next condition (some e) =
    let nested =
      PhysicalPlan.nested_loop_join acc (PhysicalPlan.scan next.table next.alias) condition in
    let nested_cost = (left_rows * right_rows) % 18446744073709551616 in
    let hash_cost = (left_rows + right_rows) % 18446744073709551616 in
    if leb hash_cost nested_cost
    then if is_table e.a_table next.alias
      then hash_sides left_rows right_rows acc next e.a_table e.a_column e.b_table e.b_column
      else if is_table e.b_table next.alias
      then hash_sides left_rows right_rows acc next e.b_table e.b_column e.a_table e.a_column
      else nested
    else nested

unfoldable pub join_with :
    (Bytes → Result ℕ) → PhysicalPlan → TableNode → Expr → Result PhysicalPlan
unfolding join_by extract_equi_join estimated_rows
join_with row_count acc next condition = row_count next.table >>= λ right_rows.
    estimated_rows row_count acc >>= λ left_rows.
    ok (join_by left_rows right_rows acc next condition (extract_equi_join condition))

abbrev pub join_node : (Bytes → Result ℕ) → PhysicalPlan → TableNode → Result PhysicalPlan
join_node row_count acc next = elim next.join_condition [
  | none ↦ ok acc
  | some condition ↦ join_with row_count acc next condition
]

unfoldable pub nth_node : List TableNode → ℕ → Option TableNode
nth_node [] i = none
nth_node (n ∷ ns) zero = some n
nth_node (n ∷ ns) (suc i) = nth_node ns i

unfoldable pub without_node : List TableNode → ℕ → List TableNode
without_node [] i = []
without_node (n ∷ ns) zero = ns
without_node (n ∷ ns) (suc i) = n ∷ without_node ns i

-- `while (remaining > 0)`: one table less in each round, so `remaining` counts the rounds.
unfoldable pub join_all :
    (Bytes → Result ℕ) → ℕ → PhysicalPlan → List Bytes → List TableNode → Result PhysicalPlan
unfolding choose_next nth_node without_node join_with
join_all row_count zero acc joined nodes = ok acc
join_all row_count (suc remaining) acc joined nodes = choose_next row_count joined nodes >>= λ i.
    elim (nth_node nodes i) [
      | none ↦ ok acc
      | some next ↦ join_node row_count acc next >>= λ acc'.
          join_all row_count remaining acc' (insert_name next.alias joined) (without_node nodes i)
    ]

unfoldable pub plan_joins : (Bytes → Result ℕ) → List TableNode → Result PhysicalPlan
unfolding join_all
plan_joins row_count [] = throw logic_error
plan_joins row_count (base ∷ nodes) =
    join_all row_count (length nodes) (PhysicalPlan.scan base.table base.alias) (base.alias ∷ [])
      nodes

unfoldable pub plan_input : (Bytes → Result ℕ) → LogicalNode → Result PhysicalPlan
unfolding flatten_joins plan_joins
plan_input row_count (LogicalNode.filter input predicate) = flatten_joins input >>= λ nodes.
    plan_joins row_count nodes >>= λ plan. ok (PhysicalPlan.filter plan predicate)
plan_input row_count input = flatten_joins input >>= plan_joins row_count

unfoldable pub build_physical_plan : (Bytes → Result ℕ) → LogicalNode → Result PhysicalPlan
unfolding plan_input
build_physical_plan row_count (LogicalNode.project input star items) =
    plan_input row_count input >>= λ plan. ok (PhysicalPlan.project plan star items)
build_physical_plan row_count _ = throw logic_error
