-- ===== src/ExprEval/Laws.antt =====
-- src/expr_eval.cpp: the operators of a comparison, and the conditions that evaluate.
use toy_relational_database.Prelude.{
  Bool, ap, arith, false, if◌then◌else◌, inl, inr, not, refl, true, ℤ, ◌≡◌,
}
use toy_relational_database.Errors.{Error, Result, ok, throw, ◌>>=◌, Result-cases}
use toy_relational_database.Ast.{Expr, ComparisonOp, column_ref, literal, comparison, and, or}
use toy_relational_database.Schema.{Value}
use toy_relational_database.ExecRow.{ExecRow}
use toy_relational_database.ExprEval.{compare_values, eval_value, holds, eval_bool}
use toy_relational_database.ExprEval.Order.{SameKind, reversed, compare_values_swap}

-- The operator that holds where another does not.
unfoldable pub complement : ComparisonOp → ComparisonOp
complement ComparisonOp.eq = ComparisonOp.neq
complement ComparisonOp.neq = ComparisonOp.eq
complement ComparisonOp.lt = ComparisonOp.gte
complement ComparisonOp.gte = ComparisonOp.lt
complement ComparisonOp.gt = ComparisonOp.lte
complement ComparisonOp.lte = ComparisonOp.gt

-- The operator for the operands in the other order.
unfoldable pub flip : ComparisonOp → ComparisonOp
flip ComparisonOp.eq = ComparisonOp.eq
flip ComparisonOp.neq = ComparisonOp.neq
flip ComparisonOp.lt = ComparisonOp.gt
flip ComparisonOp.gt = ComparisonOp.lt
flip ComparisonOp.lte = ComparisonOp.gte
flip ComparisonOp.gte = ComparisonOp.lte

abbrev pub map_not : Result Bool → Result Bool
map_not (ok b) = ok (not b)
map_not (throw e) = throw e

holds-complement : (op : ComparisonOp) (c : ℤ) → holds (complement op) c ≡ not (holds op c)
unfolding holds complement
holds-complement ComparisonOp.eq c = refl
holds-complement ComparisonOp.neq c = ground arith
holds-complement ComparisonOp.lt c = refl
holds-complement ComparisonOp.lte c = ground arith
holds-complement ComparisonOp.gt c = refl
holds-complement ComparisonOp.gte c = ground arith

holds-flip : (op : ComparisonOp) (c : ℤ) → holds (flip op) (reversed c) ≡ holds op c
unfolding holds flip
holds-flip ComparisonOp.eq c = ground arith
holds-flip ComparisonOp.neq c = ground arith
holds-flip ComparisonOp.lt c = ground arith
holds-flip ComparisonOp.lte c = ground arith
holds-flip ComparisonOp.gt c = ground arith
holds-flip ComparisonOp.gte c = ground arith

-- A comparison with the complementary operator gives the opposite answer, and throws where the
-- comparison throws.
pub eval_bool-complement :
    (op : ComparisonOp) (l r : Expr) (row : ExecRow)
    → eval_bool (comparison (complement op) l r) row ≡ map_not (eval_bool (comparison op l r) row)
unfolding eval_bool
eval_bool-complement op l r row = elim (Result-cases (eval_value l row)) [
  | inl (a, e) ↦ elim (Result-cases (eval_value r row)) [
    | inl (b, f) ↦ elim (Result-cases (compare_values a b)) [
      | inl (c, g) ↦ rw (e, f, ◌>>=◌, g, ◌>>=◌) (ap ok (holds-complement op c))
      | inr (x, g) ↦ rw (e, f, ◌>>=◌, g, ◌>>=◌)
    ]
    | inr (x, f) ↦ rw (e, f, ◌>>=◌)
  ]
  | inr (x, e) ↦ rw (e, ◌>>=◌)
]

compare_values_throw :
    (a b : Value) {x : Error} → compare_values a b ≡ throw x → compare_values b a ≡ throw x
unfolding compare_values
compare_values_throw (Value.int a) (Value.int b) h = cc
compare_values_throw (Value.text a) (Value.text b) h = cc
compare_values_throw (Value.int a) (Value.text b) h = h
compare_values_throw (Value.text a) (Value.int b) h = h

-- Where both operands have a value, `l op r` and `r flip(op) l` give the same answer or error.
pub eval_bool-flip :
    (op : ComparisonOp) (l r : Expr) (row : ExecRow) (a b : Value)
    → eval_value l row ≡ ok a
    → eval_value r row ≡ ok b
    → eval_bool (comparison (flip op) r l) row ≡ eval_bool (comparison op l r) row
unfolding eval_bool
eval_bool-flip op l r row a b e f = elim (Result-cases (compare_values a b)) [
  | inl (c, g) ↦ rw (e, f, ◌>>=◌, compare_values_swap a b c g, g, ◌>>=◌) (ap ok (holds-flip op c))
  | inr (x, g) ↦ rw (e, f, ◌>>=◌, compare_values_throw a b g, g, ◌>>=◌)
]

-- A condition whose comparisons are between values of one kind, their columns all resolved.
abbrev pub IsCondition : ExecRow → Expr → Type 0
IsCondition row (comparison op l r) =
    (a : Value) × (b : Value) × (eval_value l row ≡ ok a) × (eval_value r row ≡ ok b) × SameKind a b
IsCondition row (and l r) = IsCondition row l × IsCondition row r
IsCondition row (or l r) = IsCondition row l × IsCondition row r
IsCondition row (column_ref _ _) = ⊥
IsCondition row (literal _) = ⊥

compare_values_total : (a b : Value) → SameKind a b → (c : ℤ) × (compare_values a b ≡ ok c)
unfolding compare_values
compare_values_total (Value.int a) (Value.int b) k = (_, refl)
compare_values_total (Value.text a) (Value.text b) k = (_, refl)
compare_values_total (Value.int a) (Value.text b) k = elim k [ ]
compare_values_total (Value.text a) (Value.int b) k = elim k [ ]

ok_if : (x y z : Bool) → (if x then ok y else ok z) ≡ ok (if x then y else z)
ok_if true y z = refl
ok_if false y z = refl

-- A condition whose comparisons are between values of one kind, their columns all resolved, evaluates
-- to a Boolean, without an exception.
pub eval_bool_total :
    (row : ExecRow) (cond : Expr) → IsCondition row cond → (b : Bool) × (eval_bool cond row ≡ ok b)
unfolding eval_bool
eval_bool_total row (comparison op l r) (a, b, e, f, k) =
    let (c, g) = compare_values_total a b k in (holds op c, rw (e, f, ◌>>=◌, g, ◌>>=◌))
eval_bool_total row (and l r) (h, k) =
    let (x, e) = eval_bool_total row l h in
    let (y, f) = eval_bool_total row r k in
    (if x then y else false, rw (e, f, ◌>>=◌) (ok_if x y false))
eval_bool_total row (or l r) (h, k) =
    let (x, e) = eval_bool_total row l h in
    let (y, f) = eval_bool_total row r k in
    (if x then true else y, rw (e, f, ◌>>=◌) (ok_if x true y))
eval_bool_total row (column_ref _ _) h = elim h [ ]
eval_bool_total row (literal _) h = elim h [ ]
