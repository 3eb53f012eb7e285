-- ===== src/Parser/RoundTrip.antt =====
-- src/parser.cpp: ParseExpr reads an expression back from the tokens that spell it.
use toy_relational_database.Prelude.{
  List, [], ap, append_assoc, arith, refl, subst, suc, true, zero, ℕ, ◌++◌, ◌+◌, ◌-◌, ◌<◌, ◌∙◌, ◌∷◌,
  ◌≡◌, ◌≤◌,
}
use toy_relational_database.Errors.{ok, ◌>>=◌}
use toy_relational_database.Ast.{Expr, ComparisonOp}
use toy_relational_database.Lexer.{Token, TokenType}
use toy_relational_database.Parser.{Parse, check, expect}
use toy_relational_database.Parser.Select.{
  parse_primary_expr, operator_loop, parse_and_expr, parse_expr,
}
use toy_relational_database.Parser.Spell.{
  token, spell, wrap, IsValue, IsCondition, stand, IsNot, advance-stand, comparison_lem,
  comparison-check,
}

-- The number of nodes.
abbrev pub size : Expr → ℕ
size (Expr.or l r) = size l + size r + 1
size (Expr.and l r) = size l + size r + 1
size (Expr.comparison op l r) = 1
size (Expr.column_ref table column) = 1
size (Expr.literal l) = 1

-- The fuel of the loop of a level, and `k` more than what it uses up on `e`.
abbrev and_fuel : Expr → ℕ → ℕ
and_fuel (Expr.and l r) k = and_fuel l (suc k)
and_fuel (Expr.or l r) k = k
and_fuel (Expr.comparison op l r) k = k
and_fuel (Expr.column_ref table column) k = k
and_fuel (Expr.literal l) k = k

abbrev or_fuel : Expr → ℕ → ℕ
or_fuel (Expr.or l r) k = or_fuel l (suc k)
or_fuel (Expr.and l r) k = k
or_fuel (Expr.comparison op l r) k = k
or_fuel (Expr.column_ref table column) k = k
or_fuel (Expr.literal l) k = k

-- `p` reads `e` from the tokens `xs`, whatever is behind them.
abbrev Reads : Parse Expr → List Token → Expr → (Token → Type 0) → Type 0
Reads p xs e Next =
    (t : Token) (ts : List Token) → Next t → p (stand (xs ++ t ∷ ts)) ≡ ok (e, stand (t ∷ ts))

abbrev pub NotAnd : Token → Type 0
NotAnd t = IsNot TokenType.dot t × IsNot TokenType.and t

abbrev pub NotOr : Token → Type 0
NotOr t = IsNot TokenType.dot t × IsNot TokenType.and t × IsNot TokenType.or t

-- What ParseExpr has to do for the expressions in parentheses.
abbrev Inner : ℕ → Type 0
Inner fuel =
    (e : Expr) → IsCondition e → size e < fuel → Reads (parse_expr fuel) (spell 0 e) e NotOr

parens_lem :
    (fuel : ℕ) (e : Expr)
    → Inner fuel
    → IsCondition e
    → size e < fuel
    → Reads (parse_primary_expr (parse_expr fuel)) (wrap true (spell 0 e)) e (IsNot TokenType.dot)
unfolding parse_primary_expr check expect
parens_lem fuel e inner c small t ts n =
    let closing = token TokenType.rparen in
    rw
      (
        append_assoc (spell 0 e) (closing ∷ []) (t ∷ ts),
        advance-stand (token TokenType.lparen) (spell 0 e) closing (t ∷ ts),
        inner e c small closing (t ∷ ts) (refl, refl, refl),
      )
      refl

comparison_primary :
    (fuel : ℕ) (op : ComparisonOp) (l r : Expr)
    → IsValue l
    → IsValue r
    → Reads
        (parse_primary_expr (parse_expr fuel))
        (spell 2 (Expr.comparison op l r))
        (Expr.comparison op l r)
        (IsNot TokenType.dot)
unfolding parse_primary_expr
comparison_primary fuel op l r v w t ts n =
    rw (comparison-check op l r (t ∷ ts) v) (comparison_lem op l r t ts v w n)

primary_lem :
    (fuel : ℕ) (e : Expr)
    → Inner fuel
    → IsCondition e
    → size e < fuel
    → Reads (parse_primary_expr (parse_expr fuel)) (spell 2 e) e (IsNot TokenType.dot)
primary_lem fuel (Expr.or l r) inner c small t ts n =
    parens_lem fuel (Expr.or l r) inner c small t ts n
primary_lem fuel (Expr.and l r) inner c small t ts n =
    parens_lem fuel (Expr.and l r) inner c small t ts n
primary_lem fuel (Expr.comparison op l r) inner c small t ts n =
    comparison_primary fuel op l r c.0 c.1 t ts n
primary_lem fuel (Expr.column_ref table column) inner c small t ts n = elim c [ ]
primary_lem fuel (Expr.literal l) inner c small t ts n = elim c [ ]

-- The operands are small enough to be read.
abbrev Light : ℕ → Expr → Type 0
Light fuel (Expr.or l r) = size (Expr.or l r) < fuel
Light fuel (Expr.and l r) = size l < fuel × size r < fuel
Light fuel (Expr.comparison op l r) = Unit
Light fuel (Expr.column_ref table column) = Unit
Light fuel (Expr.literal l) = Unit

small_Light : (fuel : ℕ) (e : Expr) → size e < fuel → Light fuel e
small_Light fuel (Expr.or l r) h = h
small_Light fuel (Expr.and l r) h = (omega (arith, h), omega (arith, h))
small_Light fuel (Expr.comparison op l r) h = tt
small_Light fuel (Expr.column_ref table column) h = tt
small_Light fuel (Expr.literal l) h = tt

-- ParseAndExpr has built `e` when its loop has come by the operators of `e`.
and_lem :
    (fuel k : ℕ) (e : Expr)
    → Inner fuel
    → IsCondition e
    → Light fuel e
    → (t : Token) (ts : List Token) → IsNot TokenType.dot t
    → (parse_primary_expr (parse_expr fuel) (stand (spell 1 e ++ t ∷ ts)) >>= λ left.
        operator_loop
          (and_fuel e k)
          TokenType.and
          Expr.and
          (parse_primary_expr (parse_expr fuel))
          left.0
          left.1)
      ≡ operator_loop k TokenType.and Expr.and
          (parse_primary_expr (parse_expr fuel))
          e
          (stand (t ∷ ts))
unfolding operator_loop check
and_lem fuel k (Expr.or l r) inner c light t ts n =
    rw (primary_lem fuel (Expr.or l r) inner c light t ts n) refl
and_lem fuel k (Expr.and l r) inner c light t ts n =
    let word = token TokenType.and in
    rw (append_assoc (spell 1 l) (word ∷ spell 2 r) (t ∷ ts)) (
      and_lem fuel (suc k) l inner c.0 (small_Light fuel l light.0) word (spell 2 r ++ t ∷ ts) refl
      ∙ rw (advance-stand word (spell 2 r) t ts, primary_lem fuel r inner c.1 light.1 t ts n) refl)
and_lem fuel k (Expr.comparison op l r) inner c light t ts n =
    rw (comparison_primary fuel op l r c.0 c.1 t ts n) refl
and_lem fuel k (Expr.column_ref table column) inner c light t ts n = elim c [ ]
and_lem fuel k (Expr.literal l) inner c light t ts n = elim c [ ]

-- A loop that its operator does not continue.
loop_ends :
    (k : ℕ) (operator : TokenType) (node : Expr → Expr → Expr) (operand : Parse Expr) (e : Expr)
    (t : Token) (ts : List Token)
    → IsNot operator t
    → operator_loop (suc k) operator node operand e (stand (t ∷ ts)) ≡ ok (e, stand (t ∷ ts))
unfolding operator_loop check
loop_ends k operator node operand e t ts n = rw n refl

-- Fuel for at least as many rounds as the expression has nodes leaves some of it.
and_fuel_from : (e : Expr) (j n : ℕ) → size e + j ≤ n → (k : ℕ) × j < k × and_fuel e k ≡ n
and_fuel_from (Expr.and l r) j n h =
    let deeper = and_fuel_from l (j + 1) n (omega (arith, h)) in
    let one_less : suc (deeper.0 - 1) ≡ deeper.0 = omega (arith, deeper.1) in
    (deeper.0 - 1, omega (arith, deeper.1), ap (and_fuel l) one_less ∙ deeper.2)
and_fuel_from (Expr.or l r) j n h = (n, omega (arith, h), refl)
and_fuel_from (Expr.comparison op l r) j n h = (n, omega (arith, h), refl)
and_fuel_from (Expr.column_ref table column) j n h = (n, omega (arith, h), refl)
and_fuel_from (Expr.literal l) j n h = (n, omega (arith, h), refl)

or_fuel_from : (e : Expr) (j n : ℕ) → size e + j ≤ n → (k : ℕ) × j < k × or_fuel e k ≡ n
or_fuel_from (Expr.or l r) j n h =
    let deeper = or_fuel_from l (j + 1) n (omega (arith, h)) in
    let one_less : suc (deeper.0 - 1) ≡ deeper.0 = omega (arith, deeper.1) in
    (deeper.0 - 1, omega (arith, deeper.1), ap (or_fuel l) one_less ∙ deeper.2)
or_fuel_from (Expr.and l r) j n h = (n, omega (arith, h), refl)
or_fuel_from (Expr.comparison op l r) j n h = (n, omega (arith, h), refl)
or_fuel_from (Expr.column_ref table column) j n h = (n, omega (arith, h), refl)
or_fuel_from (Expr.literal l) j n h = (n, omega (arith, h), refl)

and_expr_lem :
    (fuel : ℕ) (e : Expr)
    → Inner fuel
    → IsCondition e
    → Light fuel e
    → size e ≤ suc fuel
    → Reads (parse_and_expr (suc fuel) (parse_expr fuel)) (spell 1 e) e NotAnd
unfolding parse_and_expr
and_expr_lem fuel e inner c light small t ts n =
    let room = and_fuel_from e 0 (suc fuel) (omega (arith, small)) in
    let some_left : suc (room.0 - 1) ≡ room.0 = omega (arith, room.1) in
    subst
      (λ m.
        (parse_primary_expr (parse_expr fuel) (stand (spell 1 e ++ t ∷ ts)) >>= λ left.
        operator_loop m TokenType.and Expr.and (parse_primary_expr (parse_expr fuel)) left.0 left.1)
        ≡ ok (e, stand (t ∷ ts)))
      (ap (and_fuel e) some_left ∙ room.2)
      (and_lem fuel (suc (room.0 - 1)) e inner c light t ts n.0
        ∙ loop_ends (room.0 - 1) TokenType.and Expr.and (parse_primary_expr (parse_expr fuel)) e t
            ts n.1)

-- ParseExpr has built `e` when its loop has come by the operators of `e`.
or_lem :
    (fuel k : ℕ) (e : Expr)
    → Inner fuel
    → IsCondition e
    → size e ≤ fuel
    → (t : Token) (ts : List Token) → NotAnd t
    → (parse_and_expr (suc fuel) (parse_expr fuel) (stand (spell 0 e ++ t ∷ ts)) >>= λ left.
        operator_loop
          (or_fuel e k)
          TokenType.or
          Expr.or
          (parse_and_expr (suc fuel) (parse_expr fuel))
          left.0
          left.1)
      ≡ operator_loop k TokenType.or Expr.or
          (parse_and_expr (suc fuel) (parse_expr fuel))
          e
          (stand (t ∷ ts))
unfolding operator_loop check
or_lem fuel k (Expr.or l r) inner c small t ts n =
    let word = token TokenType.or in
    rw (append_assoc (spell 0 l) (word ∷ spell 1 r) (t ∷ ts)) (
      or_lem fuel (suc k) l inner c.0 (omega (arith, small)) word (spell 1 r ++ t ∷ ts) (refl, refl)
      ∙ rw
          (
            advance-stand word (spell 1 r) t ts,
            and_expr_lem fuel r inner c.1 (small_Light fuel r (omega (arith, small)))
                (omega (arith, small)) t ts n,
          )
          refl)
or_lem fuel k (Expr.and l r) inner c small t ts n =
    rw
      (and_expr_lem fuel (Expr.and l r) inner c (omega (arith, small), omega (arith, small))
        (omega (arith, small)) t ts n)
      refl
or_lem fuel k (Expr.comparison op l r) inner c small t ts n =
    rw (and_expr_lem fuel (Expr.comparison op l r) inner c tt (omega (arith, small)) t ts n) refl
or_lem fuel k (Expr.column_ref table column) inner c small t ts n = elim c [ ]
or_lem fuel k (Expr.literal l) inner c small t ts n = elim c [ ]

-- ParseExpr, with fuel beyond the number of nodes, reads a condition back from the tokens that spell it with
-- as few parentheses as the precedence allows, AND and OR grouped to the left; it stops at the next token,
-- which may be any but a dot, AND or OR.
pub parse_expr-spell :
    (fuel : ℕ) (e : Expr)
    → IsCondition e
    → size e < fuel
    → (t : Token) (ts : List Token) → NotOr t
    → parse_expr fuel (stand (spell 0 e ++ t ∷ ts)) ≡ ok (e, stand (t ∷ ts))
unfolding parse_expr
parse_expr-spell zero e c small t ts n = let bad : ⊥ = omega (arith, small) in elim bad [ ]
parse_expr-spell (suc fuel) e c small t ts n =
    let room = or_fuel_from e 0 (suc fuel) (omega (arith, small)) in
    let some_left : suc (room.0 - 1) ≡ room.0 = omega (arith, room.1) in
    let operand = parse_and_expr (suc fuel) (parse_expr fuel) in
    subst
      (λ m.
        (operand (stand (spell 0 e ++ t ∷ ts)) >>= λ left.
        operator_loop m TokenType.or Expr.or operand left.0 left.1)
        ≡ ok (e, stand (t ∷ ts)))
      (ap (or_fuel e) some_left ∙ room.2)
      (or_lem fuel (suc (room.0 - 1)) e (parse_expr-spell fuel) c (omega (arith, small)) t ts
          (n.0, n.1)
        ∙ loop_ends (room.0 - 1) TokenType.or Expr.or operand e t ts n.2)
