-- ===== src/ExprEval/Order.antt =====
-- src/expr_eval.cpp: CompareValues is a total order on the values of one kind.
use toy_relational_database.Prelude.{
  arith, negsuc, pos, str_eq_iff, str_lt_asymm, str_lt_irrefl, str_lt_total, str_lt_trans, suc,
  true, zero, ℤ, ◌↔◌, ◌≡◌,
}
use toy_relational_database.Errors.{ok}
use toy_relational_database.Schema.{Value, value_eq}
use toy_relational_database.ExprEval.{compare_values}

abbrev pub SameKind : Value → Value → Type 0
SameKind (Value.int _) (Value.int _) = Unit
SameKind (Value.text _) (Value.text _) = Unit
SameKind _ _ = ⊥

-- The answer for the operands in the other order.
abbrev pub reversed : ℤ → ℤ
reversed (pos zero) = pos 0
reversed (pos (suc n)) = negsuc 0
reversed (negsuc n) = pos 1

-- Where a comparison returns an answer, exchanging the operands reverses it.
pub compare_values_swap :
    (a b : Value) (c : ℤ) → compare_values a b ≡ ok c → compare_values b a ≡ ok (reversed c)
unfolding compare_values
compare_values_swap (Value.int a) (Value.int b) c h = ground arith
compare_values_swap (Value.text a) (Value.text b) c h =
    ground (arith, str_lt_asymm a b, str_lt_asymm b a)
compare_values_swap (Value.int a) (Value.text b) c h = cc
compare_values_swap (Value.text a) (Value.int b) c h = cc

-- For values of one kind the answer is 0 exactly where Value::operator== returns true.
pub compare_values_zero :
    (a b : Value) → SameKind a b → (compare_values a b ≡ ok (pos 0)) ↔ (value_eq a b ≡ true)
unfolding compare_values value_eq
compare_values_zero (Value.int a) (Value.int b) k = ground arith
compare_values_zero (Value.text a) (Value.text b) k =
    ground (arith, str_eq_iff a b, str_lt_total a b, str_lt_irrefl a, str_lt_asymm a b)
compare_values_zero (Value.int a) (Value.text b) k = elim k [ ]
compare_values_zero (Value.text a) (Value.int b) k = elim k [ ]

-- Where a value compares below a second one and that one below a third, the first compares below the
-- third.
pub compare_values_trans :
    (a b c : Value)
    → compare_values a b ≡ ok (negsuc 0)
    → compare_values b c ≡ ok (negsuc 0)
    → compare_values a c ≡ ok (negsuc 0)
unfolding compare_values
compare_values_trans (Value.int a) (Value.int b) (Value.int c) h k = ground arith
compare_values_trans (Value.text a) (Value.text b) (Value.text c) h k =
    ground (arith, str_lt_trans a b c)
compare_values_trans (Value.int a) (Value.text b) c h k = cc
compare_values_trans (Value.text a) (Value.int b) c h k = cc
compare_values_trans (Value.int a) (Value.int b) (Value.text c) h k = cc
compare_values_trans (Value.text a) (Value.text b) (Value.int c) h k = cc
