-- ===== src/Semantic.antt =====
-- include/semantic.h and src/semantic.cpp: the checks of a statement before it is planned. The hash
-- map of the aliases is a list of them without repetitions.
pub mod Columns
use toy_relational_database.Prelude.{
  Bool, Bytes, List, Option, [], false, if◌then◌else◌, length, ltb, none, some, str_eq, true, ℕ,
  ◌++◌, ◌+◌, ◌==◌, ◌∷◌,
}
use toy_relational_database.Errors.{
  Result, ok, throw, semantic_error, unknown_table, duplicate_alias, unknown_alias, no_such_column,
  ambiguous_name, value_count_mismatch, partial_insert, repeated_column, ◌>>=◌,
}
use toy_relational_database.Ast.{
  Expr, TableRef, JoinClause, SelectItem, SelectStmt, InsertStmt, Statement, column_ref, literal,
  comparison, and, or,
}
use toy_relational_database.Schema.{TableSchema, column_index}
use toy_relational_database.LogicalPlan.{alias_of}
use toy_relational_database.Planner.{contains}
use toy_relational_database.Catalog.{TableHandle, catalog_has, get_schema}

abbrev pub AliasMap : Type 0
AliasMap = List (Bytes × TableSchema)

-- `aliases.find(name)`
unfoldable pub find_alias : AliasMap → Bytes → Option TableSchema
find_alias [] name = none
find_alias (a ∷ others) name =
    let rest = find_alias others name in if str_eq a.0 name then some a.1 else rest

-- `schema->ColumnIndex(column) >= 0`
unfoldable pub has_column : TableSchema → Bytes → Bool
unfolding column_index
has_column schema column = elim (column_index schema column) [ none ↦ false | some i ↦ true ]

-- The loop that counts `matches`.
unfoldable pub count_matches : AliasMap → Bytes → ℕ
unfolding has_column
count_matches [] column = 0
count_matches (a ∷ others) column =
    (if has_column a.1 column then 1 else 0) + count_matches others column

-- A column reference, in an expression or in the select list.
unfoldable pub validate_qualified : Option TableSchema → Bytes → Result (Unit {0})
unfolding has_column
validate_qualified none column = throw (semantic_error unknown_alias)
validate_qualified (some schema) column =
    if has_column schema column then ok tt else throw (semantic_error no_such_column)

unfoldable pub validate_ref : Option Bytes → Bytes → AliasMap → Result (Unit {0})
unfolding find_alias count_matches validate_qualified
validate_ref (some table) column aliases = validate_qualified (find_alias aliases table) column
validate_ref none column aliases =
    if count_matches aliases column == 0
    then throw (semantic_error no_such_column)
    else if ltb 1 (count_matches aliases column)
    then throw (semantic_error ambiguous_name)
    else ok tt

unfoldable pub validate_column_refs : Expr → AliasMap → Result (Unit {0})
unfolding validate_ref
validate_column_refs (column_ref table column) aliases = validate_ref table column aliases
validate_column_refs (literal lit) aliases = ok tt
validate_column_refs (comparison op l r) aliases =
    validate_column_refs l aliases >>= λ done. validate_column_refs r aliases
validate_column_refs (and l r) aliases =
    validate_column_refs l aliases >>= λ done. validate_column_refs r aliases
validate_column_refs (or l r) aliases =
    validate_column_refs l aliases >>= λ done. validate_column_refs r aliases

-- `add_table`
unfoldable pub add_table : List TableHandle → TableRef → AliasMap → Result AliasMap
unfolding find_alias
add_table tables ref aliases =
    if catalog_has tables ref.table
    then elim (find_alias aliases (alias_of ref)) [
      | none ↦
          (get_schema tables ref.table >>= λ schema. ok (aliases ++ (alias_of ref, schema) ∷ []))
      | some schema ↦ throw (semantic_error duplicate_alias)
    ]
    else throw (semantic_error unknown_table)

-- The loop over the JOIN clauses.
unfoldable pub validate_joins : List TableHandle → List JoinClause → AliasMap → Result AliasMap
unfolding add_table validate_column_refs
validate_joins tables [] aliases = ok aliases
validate_joins tables (j ∷ js) aliases = add_table tables j.table aliases >>= λ more.
    validate_column_refs j.on_condition more >>= λ done. validate_joins tables js more

unfoldable pub validate_items : List SelectItem → AliasMap → Result (Unit {0})
unfolding validate_ref
validate_items [] aliases = ok tt
validate_items (item ∷ items) aliases =
    validate_ref item.table item.column aliases >>= λ done. validate_items items aliases

unfoldable pub validate_where : Option Expr → AliasMap → Result (Unit {0})
unfolding validate_column_refs
validate_where none aliases = ok tt
validate_where (some predicate) aliases = validate_column_refs predicate aliases

-- The FROM and JOIN clauses of ValidateSelect, with the map they leave.
unfoldable pub collect_aliases : List TableHandle → SelectStmt → Result AliasMap
unfolding add_table validate_joins
collect_aliases tables stmt = add_table tables stmt.from [] >>= validate_joins tables stmt.joins

unfoldable pub validate_select : List TableHandle → SelectStmt → Result (Unit {0})
unfolding collect_aliases validate_items validate_where
validate_select tables stmt = collect_aliases tables stmt >>= λ aliases.
    (if stmt.is_star then ok tt else validate_items stmt.select_items aliases) >>= λ done.
    validate_where stmt.where_clause aliases

-- The loop over an INSERT's column list, with the names seen.
unfoldable pub validate_columns : TableSchema → List Bytes → List Bytes → Result (Unit {0})
unfolding has_column
validate_columns schema [] seen = ok tt
validate_columns schema (name ∷ names) seen =
    let rest = validate_columns schema names (name ∷ seen) in
    if has_column schema name
    then if contains seen name then throw (semantic_error repeated_column) else rest
    else throw (semantic_error no_such_column)

unfoldable pub validate_insert_columns : TableSchema → InsertStmt → Result (Unit {0})
unfolding validate_columns
validate_insert_columns schema stmt =
    if length stmt.columns == 0
    then if length stmt.values == length schema.columns
      then ok tt
      else throw (semantic_error value_count_mismatch)
    else if length stmt.columns == length schema.columns
    then if length stmt.columns == length stmt.values
      then validate_columns schema stmt.columns []
      else throw (semantic_error value_count_mismatch)
    else throw (semantic_error partial_insert)

unfoldable pub validate_insert : List TableHandle → InsertStmt → Result (Unit {0})
unfolding validate_insert_columns
validate_insert tables stmt =
    if catalog_has tables stmt.table_name
    then (get_schema tables stmt.table_name >>= λ schema. validate_insert_columns schema stmt)
    else throw (semantic_error unknown_table)

unfoldable pub validate_statement : List TableHandle → Statement → Result (Unit {0})
unfolding validate_insert validate_select
validate_statement tables (Statement.create_table stmt) = ok tt
validate_statement tables (Statement.insert stmt) = validate_insert tables stmt
validate_statement tables (Statement.select stmt) = validate_select tables stmt
