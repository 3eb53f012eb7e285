-- ===== src/Catalog.antt =====
-- include/catalog.h and src/catalog.cpp: the table list in memory and the checks of CREATE TABLE.
-- The catalog page and the trees behind the tables are not part of this module.
pub mod Keys
use toy_relational_database.Prelude.{
  Bool, Bytes, List, Option, [], false, get_elem?, if◌then◌else◌, leb, length, ltb, none, some,
  str_eq, true, ℕ, ◌&&◌, ◌+◌, ◌==◌, ◌||◌, ◌∷◌,
}
use toy_relational_database.Errors.{
  Result, ok, throw, catalog_error, bad_table_name, table_exists, bad_column_count, bad_column_name,
  bad_key_count, key_not_integer, row_too_wide, catalog_full, no_such_table, ◌>>=◌,
}
use toy_relational_database.Ast.{ColumnType, ColumnDef}
use toy_relational_database.Schema.{TableSchema}
use toy_relational_database.RowCodec.{encoded_size}
use toy_relational_database.BTree.{value_size}

-- The part of TableHandle that the checks read.
pub record TableHandle : Type 0 where
  pub in_use : Bool
  pub schema : TableSchema

-- MAX_CATALOG_COLUMNS, CATALOG_TABLE_NAME_LEN and CATALOG_COLUMN_NAME_LEN
abbrev pub max_catalog_columns : ℕ
max_catalog_columns = 8

abbrev pub catalog_table_name_len : ℕ
catalog_table_name_len = 32

abbrev pub catalog_column_name_len : ℕ
catalog_column_name_len = 24

-- The loop of FindTableIndex from slot `i` on; `none` is -1.
unfoldable pub table_from : ℕ → List TableHandle → Bytes → Option ℕ
table_from i [] name = none
table_from i (t ∷ ts) name =
    let rest = table_from (i + 1) ts name in
    if t.in_use && str_eq t.schema.table_name name then some i else rest

unfoldable pub find_table_index : List TableHandle → Bytes → Option ℕ
unfolding table_from
find_table_index tables name = table_from 0 tables name

unfoldable pub catalog_has : List TableHandle → Bytes → Bool
unfolding find_table_index
catalog_has tables name = elim (find_table_index tables name) [ none ↦ false | some i ↦ true ]

-- `tables_[idx].schema`
abbrev pub schema_at : Option TableHandle → Result TableSchema
schema_at none = throw (catalog_error no_such_table)
schema_at (some t) = ok t.schema

unfoldable pub get_schema : List TableHandle → Bytes → Result TableSchema
unfolding find_table_index
get_schema tables name = elim (find_table_index tables name) [
  | none ↦ throw (catalog_error no_such_table)
  | some i ↦ schema_at (get_elem? tables i)
]

-- The loop of CreateTable over the columns from `i` on: pk_count and pk_index.
unfoldable pub scan_columns : ℕ → List ColumnDef → ℕ × Option ℕ → Result (ℕ × Option ℕ)
scan_columns i [] found = ok found
scan_columns i (c ∷ cs) found =
    let rest =
      scan_columns (i + 1) cs (if c.is_primary_key then (found.0 + 1, some i) else found) in
    if length c.name == 0 || leb catalog_column_name_len (length c.name)
    then throw (catalog_error bad_column_name)
    else rest

-- The check on columns[pk_index].
unfoldable pub check_key : Option ColumnDef → Result (Unit {0})
check_key none = throw (catalog_error bad_key_count)
check_key (some c) = elim c.type [
  | ColumnType.integer ↦ ok tt
  | ColumnType.text ↦ throw (catalog_error key_not_integer)
]

unfoldable pub check_keys : List ColumnDef → ℕ × Option ℕ → Result (Unit {0})
unfolding check_key
check_keys columns found =
    if found.0 == 1
    then elim found.1 [
      | none ↦ throw (catalog_error bad_key_count)
      | some i ↦ check_key (get_elem? columns i)
    ]
    else throw (catalog_error bad_key_count)

-- The first slot that is not in use, from `i` on.
unfoldable pub free_slot : ℕ → List TableHandle → Option ℕ
free_slot i [] = none
free_slot i (t ∷ ts) = let rest = free_slot (i + 1) ts in if t.in_use then rest else some i

unfoldable pub take_slot : Option ℕ → Result ℕ
take_slot none = throw (catalog_error catalog_full)
take_slot (some slot) = ok slot

-- The checks on the columns, then the slot.
unfoldable pub check_columns : List TableHandle → TableSchema → Result ℕ
unfolding scan_columns check_keys free_slot take_slot
check_columns tables schema = scan_columns 0 schema.columns (0, none) >>= λ found.
    check_keys schema.columns found >>= λ checked.
    if ltb value_size (encoded_size schema)
    then throw (catalog_error row_too_wide)
    else take_slot (free_slot 0 tables)

-- The checks of CreateTable, in their order, and the slot that it takes.
unfoldable pub check_create_table : List TableHandle → Bytes → List ColumnDef → Result ℕ
unfolding catalog_has check_columns
check_create_table tables name columns =
    if length name == 0 || leb catalog_table_name_len (length name)
    then throw (catalog_error bad_table_name)
    else if catalog_has tables name
    then throw (catalog_error table_exists)
    else if length columns == 0 || ltb max_catalog_columns (length columns)
    then throw (catalog_error bad_column_count)
    else check_columns tables (record { table_name = name; columns = columns })
