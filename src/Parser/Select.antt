-- ===== src/Parser/Select.antt =====
-- src/parser.cpp: expressions, SELECT, and a whole statement.
use toy_relational_database.Prelude.{
  Bool, Bytes, List, Option, [], false, if◌then◌else◌, length, none, some, suc, true, zero, ℕ, ◌+◌,
  ◌||◌, ◌∷◌,
}
use toy_relational_database.Errors.{Result, ok, throw, logic_error, out_of_fuel, ◌>>=◌}
use toy_relational_database.Ast.{ComparisonOp, Expr, TableRef, JoinClause, SelectItem, Statement}
use toy_relational_database.Lexer.{Token, TokenType, tokenize}
use toy_relational_database.Parser.{
  Parser, Parse, advance, check, error, expect, parse_ident, parse_alias, parse_qualified,
  comma_loop, comma_list, parse_literal, parse_create_table, parse_insert,
}

unfoldable pub parse_select_item : Parse SelectItem
unfolding parse_qualified parse_alias
parse_select_item s = parse_qualified s >>= λ name. parse_alias name.1 >>= λ alias.
    ok (record { table = name.0.0; column = name.0.1; alias = alias.0 }, alias.1)

unfoldable pub parse_table_ref : Parse TableRef
unfolding parse_ident parse_alias
parse_table_ref s = parse_ident s >>= λ table.
    parse_alias table.1 >>= λ alias. ok (record { table = table.0; alias = alias.0 }, alias.1)

unfoldable pub parse_comparison_op : Parse ComparisonOp
unfolding check
parse_comparison_op s =
    if check TokenType.eq s
    then ok (ComparisonOp.eq, advance s)
    else if check TokenType.neq s
    then ok (ComparisonOp.neq, advance s)
    else if check TokenType.lt s
    then ok (ComparisonOp.lt, advance s)
    else if check TokenType.lte s
    then ok (ComparisonOp.lte, advance s)
    else if check TokenType.gt s
    then ok (ComparisonOp.gt, advance s)
    else if check TokenType.gte s
    then ok (ComparisonOp.gte, advance s)
    else error s

unfoldable pub parse_value : Parse Expr
unfolding check parse_qualified parse_literal
parse_value s =
    if check TokenType.identifier s
    then (parse_qualified s >>= λ r. ok (Expr.column_ref r.0.0 r.0.1, r.1))
    else if check TokenType.integer_literal s || check TokenType.string_literal s
    then (parse_literal s >>= λ r. ok (Expr.literal r.0, r.1))
    else error s

unfoldable pub parse_comparison : Parse Expr
unfolding parse_value parse_comparison_op
parse_comparison s = parse_value s >>= λ left. parse_comparison_op left.1 >>= λ op.
    parse_value op.1 >>= λ right. ok (Expr.comparison op.0 left.0 right.0, right.1)

-- ParsePrimaryExpr, with ParseExpr as an argument.
unfoldable pub parse_primary_expr : Parse Expr → Parse Expr
unfolding check expect parse_comparison
parse_primary_expr parse_inner s =
    if check TokenType.lparen s
    then (parse_inner (advance s) >>= λ inner.
        expect TokenType.rparen inner.1 >>= λ r. ok (inner.0, r.1))
    else parse_comparison s

-- `while (Match(operator)) left = node(left, operand)`, for AND and for OR.
unfoldable pub operator_loop : ℕ → TokenType → (Expr → Expr → Expr) → Parse Expr → Expr → Parse Expr
unfolding check
operator_loop zero operator node operand left s = throw out_of_fuel
operator_loop (suc fuel) operator node operand left s =
    let more = operand (advance s) >>= λ right.
    operator_loop fuel operator node operand (node left right.0) right.1 in
    if check operator s then more else ok (left, s)

unfoldable pub parse_and_expr : ℕ → Parse Expr → Parse Expr
unfolding parse_primary_expr operator_loop
parse_and_expr fuel parse_inner s = parse_primary_expr parse_inner s >>= λ left.
    operator_loop fuel TokenType.and Expr.and (parse_primary_expr parse_inner) left.0 left.1

unfoldable pub parse_expr : ℕ → Parse Expr
unfolding parse_and_expr operator_loop
parse_expr zero s = throw out_of_fuel
parse_expr (suc fuel) s = parse_and_expr (suc fuel) (parse_expr fuel) s >>= λ left.
    operator_loop (suc fuel) TokenType.or Expr.or (parse_and_expr (suc fuel) (parse_expr fuel))
      left.0 left.1

unfoldable pub parse_join_clause : ℕ → Parse JoinClause
unfolding expect parse_table_ref parse_expr
parse_join_clause fuel s = expect TokenType.join s >>= λ a. parse_table_ref a.1 >>= λ table.
    expect TokenType.on table.1 >>= λ b. parse_expr fuel b.1 >>= λ condition.
    ok (record { table = table.0; on_condition = condition.0 }, condition.1)

-- `while (Check(JOIN)) joins.push_back(ParseJoinClause())`
unfoldable pub join_loop : ℕ → Parse JoinClause → Parse (List JoinClause)
unfolding check
join_loop zero clause s = throw out_of_fuel
join_loop (suc fuel) clause s =
    let more = clause s >>= λ r. join_loop fuel clause r.1 >>= λ rest. ok (r.0 ∷ rest.0, rest.1) in
    if check TokenType.join s then more else ok ([], s)

-- is_star, and the items where it is not set.
unfoldable pub parse_select_list : ℕ → Parse (Bool × List SelectItem)
unfolding check parse_select_item comma_loop
parse_select_list fuel s =
    if check TokenType.star s
    then ok ((true, []), advance s)
    else (comma_list fuel parse_select_item s >>= λ items. ok ((false, items.0), items.1))

unfoldable pub parse_where : ℕ → Parse (Option Expr)
unfolding check parse_expr
parse_where fuel s =
    if check TokenType.where_word s
    then (parse_expr fuel (advance s) >>= λ r. ok (some r.0, r.1))
    else ok (none, s)

unfoldable pub parse_select : ℕ → Parse Statement
unfolding expect parse_select_list parse_table_ref join_loop parse_join_clause parse_where
parse_select fuel s = expect TokenType.select s >>= λ a. parse_select_list fuel a.1 >>= λ items.
    expect TokenType.from items.1 >>= λ b. parse_table_ref b.1 >>= λ from.
    join_loop fuel (parse_join_clause fuel) from.1 >>= λ joins.
    parse_where fuel joins.1 >>= λ condition. ok (
      Statement.select (record {
        is_star = items.0.0;
        select_items = items.0.1;
        from = from.0;
        joins = joins.0;
        where_clause = condition.0;
      }),
      condition.1,
    )

-- The switch of ParseStatement.
unfoldable pub parse_one : ℕ → Parse Statement
unfolding check parse_create_table parse_insert parse_select
parse_one fuel s =
    if check TokenType.create s
    then parse_create_table fuel s
    else if check TokenType.insert s
    then parse_insert fuel s
    else if check TokenType.select s
    then parse_select fuel s
    else error s

-- ParseStatement behind the switch: `Match(SEMICOLON)`, and nothing behind it.
unfoldable pub end_statement : Statement × Parser → Result (Statement × Parser)
unfolding check expect
end_statement (stmt, s) =
    expect TokenType.end_of_input (if check TokenType.semicolon s then advance s else s) >>= λ e.
    ok (stmt, e.1)

unfoldable pub parse_statement : ℕ → Parse Statement
unfolding parse_one end_statement
parse_statement fuel s = parse_one fuel s >>= end_statement

-- Peek asks the tokens for their last one, so there has to be one; Tokenize always returns one.
unfoldable pub parse_tokens : List Token → Result Statement
unfolding parse_statement
parse_tokens [] = throw logic_error
parse_tokens (t ∷ ts) =
    parse_statement (length ts + 1) (record { current = t; behind = ts }) >>= λ r. ok r.0

unfoldable pub parse_sql : Bytes → Result Statement
unfolding parse_tokens
parse_sql source = tokenize source >>= parse_tokens
