-- ===== src/Parser.antt =====
-- include/parser.h and src/parser.cpp: the statement that the tokens spell. A parser stands on a token and
-- has those behind it: pos_ never leaves the last token. A method returns what it has built and the parser
-- where it stopped. The nesting of expressions and the loops are on fuel.
pub mod Select
pub mod Total
pub mod Queries
pub mod Spell
pub mod RoundTrip
use toy_relational_database.Prelude.{
  Bool, Bytes, List, Option, [], false, if◌then◌else◌, length, none, some, suc, true, zero, ℕ, ◌+◌,
  ◌==◌, ◌||◌, ◌∷◌,
}
use toy_relational_database.Errors.{Result, ok, throw, parse_error, logic_error, out_of_fuel, ◌>>=◌}
use toy_relational_database.Ast.{
  ColumnType, ColumnDef, Literal, ComparisonOp, Expr, TableRef, JoinClause, SelectItem, SelectStmt,
  CreateTableStmt, InsertStmt, Statement,
}
use toy_relational_database.Lexer.{Token, TokenType, tokenize}

pub record Parser : Type 0 where
  pub current : Token
  pub behind : List Token

abbrev pub Parse : Type 0 → Type 0
Parse Answer = Parser → Result (Answer × Parser)

-- The enumerators' numbers.
abbrev pub type_number : TokenType → ℕ
type_number TokenType.create = 0
type_number TokenType.table = 1
type_number TokenType.insert = 2
type_number TokenType.into = 3
type_number TokenType.values = 4
type_number TokenType.select = 5
type_number TokenType.from = 6
type_number TokenType.where_word = 7
type_number TokenType.join = 8
type_number TokenType.on = 9
type_number TokenType.as_word = 10
type_number TokenType.and = 11
type_number TokenType.or = 12
type_number TokenType.primary = 13
type_number TokenType.key = 14
type_number TokenType.integer_type = 15
type_number TokenType.text_type = 16
type_number TokenType.identifier = 17
type_number TokenType.integer_literal = 18
type_number TokenType.string_literal = 19
type_number TokenType.star = 20
type_number TokenType.comma = 21
type_number TokenType.dot = 22
type_number TokenType.semicolon = 23
type_number TokenType.lparen = 24
type_number TokenType.rparen = 25
type_number TokenType.eq = 26
type_number TokenType.neq = 27
type_number TokenType.lt = 28
type_number TokenType.lte = 29
type_number TokenType.gt = 30
type_number TokenType.gte = 31
type_number TokenType.end_of_input = 32

abbrev pub advance_to : Token → List Token → Parser
advance_to t [] = record { current = t; behind = [] }
advance_to t (u ∷ us) = record { current = u; behind = us }

abbrev pub advance : Parser → Parser
advance s = advance_to s.current s.behind

unfoldable pub check : TokenType → Parser → Bool
check type s = type_number s.current.type == type_number type

abbrev pub error {ℓ} : {Answer : Type ℓ} → Parser → Result Answer
error s = throw (parse_error s.current.line s.current.column)

unfoldable pub expect : TokenType → Parse Token
unfolding check
expect type s = if check type s then ok (s.current, advance s) else error s

unfoldable pub parse_ident : Parse Bytes
unfolding expect
parse_ident s = expect TokenType.identifier s >>= λ t. ok (t.0.text, t.1)

-- `if (Match(AS)) alias = ParseIdent()`
unfoldable pub parse_alias : Parse (Option Bytes)
unfolding check parse_ident
parse_alias s =
    if check TokenType.as_word s
    then (parse_ident (advance s) >>= λ r. ok (some r.0, r.1))
    else ok (none, s)

-- An identifier, or two of them with a dot between.
unfoldable pub parse_qualified : Parse (Option Bytes × Bytes)
unfolding check parse_ident
parse_qualified s = parse_ident s >>= λ first.
    if check TokenType.dot first.1
    then (parse_ident (advance first.1) >>= λ r. ok ((some first.0, r.0), r.1))
    else ok ((none, first.0), first.1)

-- `while (Match(COMMA)) items.push_back(item)`
unfoldable pub comma_loop : {Item : Type 0} → ℕ → Parse Item → Parse (List Item)
unfolding check
comma_loop zero item s = throw out_of_fuel
comma_loop (suc fuel) item s =
    let more =
      item (advance s) >>= λ r. comma_loop fuel item r.1 >>= λ rest. ok (r.0 ∷ rest.0, rest.1) in
    if check TokenType.comma s then more else ok ([], s)

abbrev pub comma_list : {Item : Type 0} → ℕ → Parse Item → Parse (List Item)
comma_list fuel item s =
    item s >>= λ r. comma_loop fuel item r.1 >>= λ rest. ok (r.0 ∷ rest.0, rest.1)

unfoldable pub parse_type_name : Parse ColumnType
unfolding check
parse_type_name s =
    if check TokenType.integer_type s
    then ok (ColumnType.integer, advance s)
    else if check TokenType.text_type s
    then ok (ColumnType.text, advance s)
    else error s

-- `if (Match(PRIMARY)) { Expect(KEY); is_primary_key = true; }`
unfoldable pub parse_primary_key : Parse Bool
unfolding check expect
parse_primary_key s =
    if check TokenType.primary s
    then (expect TokenType.key (advance s) >>= λ r. ok (true, r.1))
    else ok (false, s)

unfoldable pub parse_column_def : Parse ColumnDef
unfolding parse_ident parse_type_name parse_primary_key
parse_column_def s = parse_ident s >>= λ name. parse_type_name name.1 >>= λ type.
    parse_primary_key type.1 >>= λ key.
    ok (record { name = name.0; type = type.0; is_primary_key = key.0 }, key.1)

unfoldable pub parse_create_table : ℕ → Parse Statement
unfolding expect parse_ident parse_column_def comma_loop
parse_create_table fuel s = expect TokenType.create s >>= λ a. expect TokenType.table a.1 >>= λ b.
    parse_ident b.1 >>= λ name. expect TokenType.lparen name.1 >>= λ c.
    comma_list fuel parse_column_def c.1 >>= λ columns. expect TokenType.rparen columns.1 >>= λ d.
    ok (Statement.create_table (record { table_name = name.0; columns = columns.0 }), d.1)

unfoldable pub parse_literal : Parse Literal
unfolding check
parse_literal s =
    if check TokenType.integer_literal s
    then ok (Literal.integer s.current.int_value, advance s)
    else if check TokenType.string_literal s
    then ok (Literal.text s.current.string_value, advance s)
    else error s

-- The column list of INSERT, which may be missing.
unfoldable pub parse_insert_columns : ℕ → Parse (List Bytes)
unfolding check expect parse_ident comma_loop
parse_insert_columns fuel s =
    if check TokenType.lparen s
    then (comma_list fuel parse_ident (advance s) >>= λ columns.
        expect TokenType.rparen columns.1 >>= λ r. ok (columns.0, r.1))
    else ok ([], s)

unfoldable pub parse_insert : ℕ → Parse Statement
unfolding expect parse_ident parse_insert_columns parse_literal comma_loop
parse_insert fuel s = expect TokenType.insert s >>= λ a. expect TokenType.into a.1 >>= λ b.
    parse_ident b.1 >>= λ name. parse_insert_columns fuel name.1 >>= λ columns.
    expect TokenType.values columns.1 >>= λ c. expect TokenType.lparen c.1 >>= λ d.
    comma_list fuel parse_literal d.1 >>= λ values. expect TokenType.rparen values.1 >>= λ e.
    ok (
      Statement.insert (record { table_name = name.0; columns = columns.0; values = values.0 }),
      e.1,
    )
