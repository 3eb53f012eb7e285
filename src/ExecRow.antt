-- ===== src/ExecRow.antt =====
-- include/exec_row.h and src/exec_row.cpp: a row of the executor and the resolution of its columns.
pub mod Resolve
use toy_relational_database.Prelude.{
  Bytes, List, Option, [], if◌then◌else◌, none, some, str_eq, ◌&&◌, ◌∷◌,
}
use toy_relational_database.Errors.{
  Result, ok, throw, column_resolution, unknown_column, ambiguous_column,
}
use toy_relational_database.Schema.{Value}

pub record Field : Type 0 where
  pub table : Bytes
  pub column : Bytes
  pub value : Value

-- `fields`
abbrev pub ExecRow : Type 0
ExecRow = List Field

-- The loop for a qualified column: the first field that matches.
unfoldable pub find_qualified : Bytes → Bytes → ExecRow → Result Value
find_qualified table column [] = throw (column_resolution unknown_column)
find_qualified table column (f ∷ fs) =
    if str_eq f.table table && str_eq f.column column
    then ok f.value
    else find_qualified table column fs

-- The loop for a bare column, with what it has found.
unfoldable pub find_unqualified : Bytes → Option Value → ExecRow → Result Value
find_unqualified column none [] = throw (column_resolution unknown_column)
find_unqualified column (some v) [] = ok v
find_unqualified column none (f ∷ fs) =
    find_unqualified column (if str_eq f.column column then some f.value else none) fs
find_unqualified column (some v) (f ∷ fs) =
    if str_eq f.column column
    then throw (column_resolution ambiguous_column)
    else find_unqualified column (some v) fs

-- Find
unfoldable pub find : Option Bytes → Bytes → ExecRow → Result Value
unfolding find_qualified find_unqualified
find (some table) column row = find_qualified table column row
find none column row = find_unqualified column none row
