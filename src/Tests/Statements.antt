-- ===== src/Tests/Statements.antt =====
-- src/parser.cpp at small statements.
use toy_relational_database.Prelude.{
  Bytes, [], arith, false, none, pos, refl, str_eq, ℕ, ◌++◌, ◌∷◌, ◌≡◌,
}
use toy_relational_database.Errors.{ok, throw, parse_error}
use toy_relational_database.Ast.{Literal, Expr, ComparisonOp, Statement}
use toy_relational_database.Lexer.{TokenType, tokenize}
use toy_relational_database.Parser.Select.{parse_expr, parse_sql}
use toy_relational_database.Parser.Queries.{Answered, parse_sql-Answered}
use toy_relational_database.Parser.Spell.{token, spell, stand}
use toy_relational_database.Parser.RoundTrip.{parse_expr-spell}

-- a = 1
abbrev equals : ℕ → ℕ → Expr
equals name n =
    Expr.comparison ComparisonOp.eq (Expr.column_ref none (name ∷ []))
      (Expr.literal (Literal.integer (pos n)))

-- a = 1 AND (b = 2 OR c = 3) OR d = 4
abbrev mixed : Expr
mixed = Expr.or (Expr.and (equals 97 1) (Expr.or (equals 98 2) (equals 99 3))) (equals 100 4)

parse_expr-spell_example :
    parse_expr 8 (stand (spell 0 mixed ++ token TokenType.semicolon ∷ []))
    ≡ ok (mixed, stand (token TokenType.semicolon ∷ []))
parse_expr-spell_example =
    parse_expr-spell 8 mixed (((tt, tt), ((tt, tt), (tt, tt))), (tt, tt)) (omega arith)
      (token TokenType.semicolon) [] (refl, refl, refl)

-- select a from t;
abbrev query : Bytes
query = 115 ∷ 101 ∷ 108 ∷ 101 ∷ 99 ∷ 116 ∷ 32 ∷ 97 ∷ 32 ∷ 102 ∷ 114 ∷ 111 ∷ 109 ∷ 32 ∷ 116 ∷ 59 ∷ []

parse_sql-Answered_example : Answered (parse_sql query)
parse_sql-Answered_example = parse_sql-Answered query

query_statement :
    parse_sql query
    ≡ ok (
        Statement.select (record {
          is_star = false;
          select_items = record { table = none; column = 97 ∷ []; alias = none } ∷ [];
          from = record { table = 116 ∷ []; alias = none };
          joins = [];
          where_clause = none;
        }))
unfolding parse_sql tokenize str_eq
query_statement = refl

-- select a t
query_refused :
    parse_sql (115 ∷ 101 ∷ 108 ∷ 101 ∷ 99 ∷ 116 ∷ 32 ∷ 97 ∷ 32 ∷ 116 ∷ [])
    ≡ throw (parse_error 1 10)
unfolding parse_sql tokenize str_eq
query_refused = refl
