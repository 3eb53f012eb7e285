-- ===== src/Parser/Queries.antt =====
-- src/parser.cpp: the parser of expressions and of SELECT ends, and so does the parser of a statement.
use toy_relational_database.Prelude.{
  Bool-cases, Bytes, List, [], arith, if◌then◌else◌, inl, inr, length, suc, true, zero, ℕ, ◌++◌,
  ◌+◌, ◌-◌, ◌<◌, ◌||◌, ◌∷◌, ◌≡◌, ◌≤◌,
}
use toy_relational_database.Errors.{Result, ok, throw, parse_error, lex_error, out_of_range, ◌>>=◌}
use toy_relational_database.Ast.{Expr, Statement, ComparisonOp}
use toy_relational_database.Lexer.{Token, TokenType}
use toy_relational_database.Lexer.Total.{
  Outcome, tokens, bad_character, big_number, tokenize-Outcome,
}
use toy_relational_database.Parser.{Parser, Parse, type_number, advance, check, expect}
use toy_relational_database.Parser.Select.{
  parse_select_item, parse_table_ref, parse_comparison_op, parse_value, parse_comparison,
  parse_primary_expr, operator_loop, parse_and_expr, parse_expr, parse_join_clause, join_loop,
  parse_select_list, parse_where, parse_select, parse_one, end_statement, parse_statement,
  parse_tokens, parse_sql,
}
use toy_relational_database.Parser.Total.{
  Ends, Closed, left, Parsed, parsed, refused, Within, Parsed-bind, if-Parsed, error-Parsed,
  expect-Parsed, token-Parsed, ident-Parsed, matched-Parsed, alias-Parsed, qualified-Parsed,
  comma_list-Parsed, literal-Parsed, create_table-Parsed, insert-Parsed,
}

-- A single token that stands for itself.
taken-Parsed :
    {A : Type 0} (type : TokenType) (n : ℕ) (s : Parser) (a : A) {y : Result (A × Parser)}
    → type_number type < 32
    → Closed s
    → left s ≤ n
    → Parsed n y
    → Parsed n (if check type s then ok (a, advance s) else y)
taken-Parsed type n s a small closed less other =
    matched-Parsed type n s small closed (λ e c. parsed a (advance s) c (omega (arith, e, less)))
      other

comparison_op-Parsed :
    (n : ℕ) (s : Parser) → Closed s → left s ≤ n → Parsed n (parse_comparison_op s)
unfolding parse_comparison_op
comparison_op-Parsed n s closed less =
    taken-Parsed TokenType.eq n s ComparisonOp.eq (omega arith) closed less (
      taken-Parsed TokenType.neq n s ComparisonOp.neq (omega arith) closed less (
        taken-Parsed TokenType.lt n s ComparisonOp.lt (omega arith) closed less (
          taken-Parsed TokenType.lte n s ComparisonOp.lte (omega arith) closed less (
            taken-Parsed TokenType.gt n s ComparisonOp.gt (omega arith) closed less (
              taken-Parsed TokenType.gte n s ComparisonOp.gte (omega arith) closed less
                (error-Parsed n s))))))

value-Parsed : (n : ℕ) (s : Parser) → Closed s → left s ≤ n → Parsed n (parse_value s)
unfolding parse_value
value-Parsed n s closed less =
    if-Parsed (check TokenType.identifier s)
      (λ h.
        Parsed-bind _ (qualified-Parsed n s closed (omega (arith, less))) λ a t c l. parsed _ t c l)
      (λ h.
        if-Parsed (check TokenType.integer_literal s || check TokenType.string_literal s)
          (λ k. Parsed-bind _ (literal-Parsed n s closed less) λ a t c l. parsed _ t c l)
          (λ k. error-Parsed n s))

comparison-Parsed : (n : ℕ) (s : Parser) → Closed s → left s ≤ n → Parsed n (parse_comparison s)
unfolding parse_comparison
comparison-Parsed n s closed less = Parsed-bind _ (value-Parsed n s closed less) λ a t c l.
    Parsed-bind _ (comparison_op-Parsed n t c l)
      λ a t c l. Parsed-bind _ (value-Parsed n t c l) λ a t c l. parsed _ t c l

-- Parentheses leave fewer tokens for what is in them.
primary-Parsed :
    (bound : ℕ) (parse_inner : Parse Expr)
    → Within bound parse_inner
    → Within (suc bound) (parse_primary_expr parse_inner)
unfolding parse_primary_expr
primary-Parsed bound parse_inner within n s closed less low =
    matched-Parsed TokenType.lparen n s (omega arith) closed
      (λ e c.
        Parsed-bind _ (within n (advance s) c (omega (arith, e, less)) (omega (arith, e, low)))
          λ a t c l.
            Parsed-bind _ (token-Parsed TokenType.rparen n t (omega arith) c l)
              λ a t c l. parsed _ t c l)
      (comparison-Parsed n s closed less)

operator_loop-Parsed :
    (bound fuel : ℕ) (operator : TokenType) (node : Expr → Expr → Expr) (operand : Parse Expr)
    → type_number operator < 32
    → Within bound operand
    → (n : ℕ) (acc : Expr) (s : Parser) → Closed s
    → left s ≤ n
    → left s < bound
    → left s < fuel
    → Parsed n (operator_loop fuel operator node operand acc s)
unfolding operator_loop
operator_loop-Parsed bound zero operator node operand small within n acc s closed less low enough =
    let bad : ⊥ = omega (arith, enough) in elim bad [ ]
operator_loop-Parsed bound (suc fuel) operator node operand small within n acc s closed less low
      enough =
    matched-Parsed operator n s small closed
      (λ e c.
        Parsed-bind _
          (within (left (advance s)) (advance s) c (omega arith) (omega (arith, e, low)))
          λ a t d l.
            operator_loop-Parsed bound fuel operator node operand small within n _ t d
              (omega (arith, e, l, less)) (omega (arith, e, l, low)) (omega (arith, e, l, enough)))
      (parsed acc s closed less)

and_expr-Parsed :
    (bound : ℕ) (parse_inner : Parse Expr)
    → Within bound parse_inner
    → Within (suc bound) (parse_and_expr (suc bound) parse_inner)
unfolding parse_and_expr
and_expr-Parsed bound parse_inner within n s closed less low =
    let primary = primary-Parsed bound parse_inner within in
    Parsed-bind _ (primary (left s) s closed (omega arith) low) λ a t c l.
      operator_loop-Parsed (suc bound) (suc bound) TokenType.and Expr.and
        (parse_primary_expr parse_inner) (omega arith) primary n a t c (omega (arith, l, less))
        (omega (arith, l, low)) (omega (arith, l, low))

expr-Parsed : (fuel : ℕ) → Within fuel (parse_expr fuel)
unfolding parse_expr
expr-Parsed zero n s closed less low = let bad : ⊥ = omega (arith, low) in elim bad [ ]
expr-Parsed (suc fuel) n s closed less low =
    let operand = and_expr-Parsed fuel (parse_expr fuel) (expr-Parsed fuel) in
    Parsed-bind _ (operand (left s) s closed (omega arith) low) λ a t c l.
      operator_loop-Parsed (suc fuel) (suc fuel) TokenType.or Expr.or
        (parse_and_expr (suc fuel) (parse_expr fuel)) (omega arith) operand n a t c
        (omega (arith, l, less)) (omega (arith, l, low)) (omega (arith, l, low))

table_ref-Parsed : (n : ℕ) (s : Parser) → Closed s → left s ≤ n → Parsed n (parse_table_ref s)
unfolding parse_table_ref
table_ref-Parsed n s closed less =
    Parsed-bind _ (ident-Parsed n s closed (omega (arith, less)))
      λ a t c l. Parsed-bind _ (alias-Parsed n t c l) λ a t c l. parsed _ t c l

select_item-Parsed : (n : ℕ) (s : Parser) → Closed s → left s ≤ n → Parsed n (parse_select_item s)
unfolding parse_select_item
select_item-Parsed n s closed less =
    Parsed-bind _ (qualified-Parsed n s closed (omega (arith, less)))
      λ a t c l. Parsed-bind _ (alias-Parsed n t c l) λ a t c l. parsed _ t c l

-- A JOIN clause takes at least the word JOIN.
join_clause-Parsed :
    (fuel n : ℕ) (s : Parser)
    → Closed s
    → left s ≤ n + 1
    → left s < fuel
    → Parsed n (parse_join_clause fuel s)
unfolding parse_join_clause
join_clause-Parsed fuel n s closed less low =
    Parsed-bind _ (expect-Parsed TokenType.join (left s - 1) s (omega arith) closed (omega arith))
      λ a t c l. Parsed-bind _ (table_ref-Parsed (left s - 1) t c l) λ a t c l.
        Parsed-bind _ (token-Parsed TokenType.on (left s - 1) t (omega arith) c l) λ a t c l.
          Parsed-bind _ (expr-Parsed fuel n t c (omega (arith, l, less)) (omega (arith, l, low)))
            λ a t c l. parsed _ t c l

join_loop-Parsed :
    (bound fuel n : ℕ) (s : Parser)
    → Closed s
    → left s ≤ n
    → left s < bound
    → left s < fuel
    → Parsed n (join_loop fuel (parse_join_clause bound) s)
unfolding join_loop
join_loop-Parsed bound zero n s closed less low enough =
    let bad : ⊥ = omega (arith, enough) in elim bad [ ]
join_loop-Parsed bound (suc fuel) n s closed less low enough =
    matched-Parsed TokenType.join n s (omega arith) closed
      (λ e c.
        Parsed-bind _ (join_clause-Parsed bound (left s - 1) s closed (omega arith) low) λ a t d l.
          Parsed-bind _
            (join_loop-Parsed bound fuel n t d (omega (arith, e, l, less))
              (omega (arith, e, l, low)) (omega (arith, e, l, enough)))
            λ b u f k. parsed _ u f k)
      (parsed [] s closed less)

select_list-Parsed : (fuel : ℕ) → Within fuel (parse_select_list fuel)
unfolding parse_select_list
select_list-Parsed fuel n s closed less low =
    taken-Parsed TokenType.star n s (true, []) (omega arith) closed less
      (Parsed-bind _
        (comma_list-Parsed fuel parse_select_item (λ n s c l k. select_item-Parsed n s c l) n s
          closed less low)
        λ a t c l. parsed _ t c l)

where-Parsed : (fuel : ℕ) → Within fuel (parse_where fuel)
unfolding parse_where
where-Parsed fuel n s closed less low =
    matched-Parsed TokenType.where_word n s (omega arith) closed
      (λ e c.
        Parsed-bind _
          (expr-Parsed fuel n (advance s) c (omega (arith, e, less)) (omega (arith, e, low)))
          λ a t c l. parsed _ t c l)
      (parsed _ s closed less)

select-Parsed : (fuel : ℕ) → Within fuel (parse_select fuel)
unfolding parse_select
select-Parsed fuel n s closed less low =
    Parsed-bind _ (token-Parsed TokenType.select (left s) s (omega arith) closed (omega arith))
      λ a t c l.
        Parsed-bind _ (select_list-Parsed fuel (left s) t c l (omega (arith, l, low))) λ a t c l.
          Parsed-bind _ (token-Parsed TokenType.from (left s) t (omega arith) c l) λ a t c l.
            Parsed-bind _ (table_ref-Parsed (left s) t c l) λ a t c l.
              Parsed-bind _
                (join_loop-Parsed fuel fuel (left s) t c l (omega (arith, l, low))
                  (omega (arith, l, low)))
                λ a t c l.
                  Parsed-bind _
                    (where-Parsed fuel n t c (omega (arith, l, less)) (omega (arith, l, low)))
                    λ a t c l. parsed _ t c l

one-Parsed : (fuel : ℕ) → Within fuel (parse_one fuel)
unfolding parse_one
one-Parsed fuel n s closed less low =
    if-Parsed (check TokenType.create s) (λ h. create_table-Parsed fuel n s closed less low)
      λ h.
        if-Parsed (check TokenType.insert s) (λ h. insert-Parsed fuel n s closed less low)
          λ h.
            if-Parsed (check TokenType.select s) (λ h. select-Parsed fuel n s closed less low)
              λ h. error-Parsed n s

-- What ParseSQL may do: return a statement, report the position of a token that does not fit, or what
-- Tokenize reports.
pub data Answered : Result Statement → Type 0 where
  statement : (stmt : Statement) → Answered (ok stmt)
  bad_syntax : (line column : ℕ) → Answered (throw (parse_error line column))
  bad_text : (line column : ℕ) → Answered (throw (lex_error line column))
  bad_number : Answered (throw out_of_range)

statement-Answered :
    {n : ℕ} {r : Result (Statement × Parser)}
    → Parsed n r
    → Answered ((r >>= end_statement) >>= λ x. ok x.0)
unfolding expect end_statement
statement-Answered (parsed stmt s closed less) =
    at_end (if check TokenType.semicolon s then advance s else s)
  where
    at_end :
        (u : Parser)
        → Answered (
            ◌>>=◌ {First = Statement × Parser}
              (expect TokenType.end_of_input u >>= λ e. ok (stmt, e.1))
              (λ x. ok x.0))
    at_end u = elim (Bool-cases (check TokenType.end_of_input u)) [
      | inl h ↦ rw h (statement stmt)
      | inr h ↦ rw h (bad_syntax u.current.line u.current.column)
    ]
statement-Answered (refused line column) = bad_syntax line column

Ends-last :
    (front : List Token) (t last : Token)
    → last.type ≡ TokenType.end_of_input
    → Ends t (front ++ last ∷ [])
Ends-last [] t last e = e
Ends-last (u ∷ front) t last e = Ends-last front u last e

tokens-Answered :
    (front : List Token) (last : Token)
    → last.type ≡ TokenType.end_of_input
    → Answered (parse_tokens (front ++ last ∷ []))
unfolding parse_tokens parse_statement end_statement
tokens-Answered [] last e =
    statement-Answered
      (one-Parsed 1 0 (record { current = last; behind = [] }) e (omega arith) (omega arith))
tokens-Answered (t ∷ front) last e =
    let ts = front ++ last ∷ [] in
    statement-Answered (
      one-Parsed (length ts + 1) (length ts) (record { current = t; behind = ts })
        (Ends-last front t last e) (omega arith) (omega arith))

-- ParseSQL ends for every text: it returns a statement, throws a ParseError or a LexError with a position,
-- or std::out_of_range for a number.
pub parse_sql-Answered : (source : Bytes) → Answered (parse_sql source)
unfolding parse_sql
parse_sql-Answered source = lexed (tokenize-Outcome source)
  where
    lexed : {r : Result (List Token)} → Outcome r → Answered (r >>= parse_tokens)
    lexed (tokens front last e) = tokens-Answered front last e
    lexed (bad_character line column) = bad_text line column
    lexed big_number = bad_number
