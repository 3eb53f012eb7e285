-- ===== src/ExprEval.antt =====
-- include/expr_eval.h and src/expr_eval.cpp: expressions evaluated against a row.
pub mod Order
pub mod Laws
use toy_relational_database.Prelude.{
  Bool, [], eqb_ℤ, false, if◌then◌else◌, ltb_ℤ, negsuc, not, pos, str_lt, true, ℤ,
}
use toy_relational_database.Errors.{
  Result, ok, throw, eval_error, kind_mismatch, not_a_value, not_a_bool, ◌>>=◌,
}
use toy_relational_database.Ast.{
  Literal, Expr, ComparisonOp, column_ref, literal, comparison, and, or,
}
use toy_relational_database.Schema.{Value}
use toy_relational_database.ExecRow.{ExecRow, find}

unfoldable pub literal_to_value : Literal → Value
literal_to_value (Literal.integer v) = Value.int v
literal_to_value (Literal.text s) = Value.text s

-- -1, 0 or 1
unfoldable pub compare_values : Value → Value → Result ℤ
compare_values (Value.int a) (Value.int b) =
    ok (if ltb_ℤ a b then negsuc 0 else if ltb_ℤ b a then pos 1 else pos 0)
compare_values (Value.text a) (Value.text b) =
    ok (if str_lt a b then negsuc 0 else if str_lt b a then pos 1 else pos 0)
compare_values (Value.int a) (Value.text b) = throw (eval_error kind_mismatch)
compare_values (Value.text a) (Value.int b) = throw (eval_error kind_mismatch)

unfoldable pub eval_value : Expr → ExecRow → Result Value
unfolding literal_to_value
eval_value (column_ref table column) row = find table column row
eval_value (literal lit) row = ok (literal_to_value lit)
eval_value (comparison op l r) row = throw (eval_error not_a_value)
eval_value (and l r) row = throw (eval_error not_a_value)
eval_value (or l r) row = throw (eval_error not_a_value)

-- The inner `switch` on the operator.
unfoldable pub holds : ComparisonOp → ℤ → Bool
holds ComparisonOp.eq c = eqb_ℤ c (pos 0)
holds ComparisonOp.neq c = not (eqb_ℤ c (pos 0))
holds ComparisonOp.lt c = ltb_ℤ c (pos 0)
holds ComparisonOp.lte c = not (ltb_ℤ (pos 0) c)
holds ComparisonOp.gt c = ltb_ℤ (pos 0) c
holds ComparisonOp.gte c = not (ltb_ℤ c (pos 0))

-- `&&` and `||` evaluate the right side only if the left one does not decide.
unfoldable pub eval_bool : Expr → ExecRow → Result Bool
unfolding holds
eval_bool (comparison op l r) row = eval_value l row >>= λ left.
    eval_value r row >>= λ right. compare_values left right >>= λ c. ok (holds op c)
eval_bool (and l r) row =
    let right = eval_bool r row in eval_bool l row >>= λ b. if b then right else ok false
eval_bool (or l r) row =
    let right = eval_bool r row in eval_bool l row >>= λ b. if b then ok true else right
eval_bool (column_ref table column) row = throw (eval_error not_a_bool)
eval_bool (literal lit) row = throw (eval_error not_a_bool)
