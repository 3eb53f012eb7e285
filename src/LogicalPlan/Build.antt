-- ===== src/LogicalPlan/Build.antt =====
-- src/logical_plan.cpp and src/physical_plan.cpp: the flat table list that the planner starts from.
use toy_relational_database.Prelude.{
  List, Option, [], ap, append-nil, append_assoc, map, none, refl, some, sym, ◌++◌, ◌∙◌, ◌∷◌, ◌≡◌,
}
use toy_relational_database.Errors.{ok, ◌>>=◌}
use toy_relational_database.Ast.{Expr, TableRef, JoinClause}
use toy_relational_database.LogicalPlan.{LogicalNode, alias_of, make_scan, add_joins}
use toy_relational_database.Planner.{TableNode, flatten_joins}

-- The table of a FROM or JOIN, with the condition that introduced it.
abbrev pub node_of : TableRef → Option Expr → TableNode
node_of ref condition = record {
  table = ref.table;
  alias = alias_of ref;
  join_condition = condition;
}

abbrev pub join_node_of : JoinClause → TableNode
join_node_of j = node_of j.table (some j.on_condition)

flatten-add_joins :
    (plan : LogicalNode) (joins : List JoinClause) (nodes : List TableNode)
    → flatten_joins plan ≡ ok nodes
    → flatten_joins (add_joins plan joins) ≡ ok (nodes ++ map join_node_of joins)
unfolding add_joins flatten_joins
flatten-add_joins plan [] nodes h = h ∙ ap ok (sym (append-nil nodes))
flatten-add_joins plan (j ∷ js) nodes h =
    flatten-add_joins (LogicalNode.join plan (make_scan j.table) j.on_condition) js
      (nodes ++ join_node_of j ∷ []) (rw (h, ◌>>=◌) refl)
    ∙ ap ok (append_assoc nodes (join_node_of j ∷ []) (map join_node_of js))

-- Unwinding the joins of a logical plan gives the query's tables in the order in which they were
-- written, each joined one with its own ON condition.
pub flatten-build :
    (from : TableRef) (joins : List JoinClause)
    → flatten_joins (add_joins (make_scan from) joins)
      ≡ ok (node_of from none ∷ map join_node_of joins)
flatten-build from joins =
    flatten-add_joins (make_scan from) joins (node_of from none ∷ [])
      (unfold make_scan flatten_joins in refl)
