-- ===== src/LogicalPlan.antt =====
-- include/logical_plan.h and src/logical_plan.cpp: what a query asks for.
pub mod Build
use toy_relational_database.Prelude.{Bool, Bytes, List, Option, [], none, some, ◌∷◌}
use toy_relational_database.Ast.{Expr, TableRef, JoinClause, SelectItem, SelectStmt}

pub data LogicalNode : Type 0 where
  -- table, alias
  scan : Bytes → Bytes → LogicalNode
  filter : LogicalNode → Expr → LogicalNode
  -- left, right, condition
  join : LogicalNode → LogicalNode → Expr → LogicalNode
  project : LogicalNode → Bool → List SelectItem → LogicalNode

-- `ref.alias.has_value() ? *ref.alias : ref.table`
unfoldable pub alias_of : TableRef → Bytes
alias_of ref = elim ref.alias [ none ↦ ref.table | some a ↦ a ]

unfoldable pub make_scan : TableRef → LogicalNode
unfolding alias_of
make_scan ref = LogicalNode.scan ref.table (alias_of ref)

-- The loop over the JOIN clauses.
unfoldable pub add_joins : LogicalNode → List JoinClause → LogicalNode
unfolding make_scan
add_joins plan [] = plan
add_joins plan (j ∷ js) = add_joins (LogicalNode.join plan (make_scan j.table) j.on_condition) js

unfoldable pub add_filter : LogicalNode → Option Expr → LogicalNode
add_filter plan none = plan
add_filter plan (some predicate) = LogicalNode.filter plan predicate

unfoldable pub build_logical_plan : SelectStmt → LogicalNode
unfolding add_joins add_filter
build_logical_plan stmt =
    LogicalNode.project (add_filter (add_joins (make_scan stmt.from) stmt.joins) stmt.where_clause)
      stmt.is_star stmt.select_items
