-- ===== src/Tests/Schemas.antt =====
-- src/catalog.cpp and src/semantic.cpp at two small tables.
use toy_relational_database.Prelude.{
  Bool-cases, Bytes, List, [], ap, arith, false, get_elem?, inl, inr, none, pos, refl, some, str_eq,
  str_eq-eq, sym, true, ℕ, ◌∙◌, ◌∷◌, ◌≡◌, ◌≤◌,
}
use toy_relational_database.Ast.{ComparisonOp, Expr, ColumnDef, ColumnType, column_ref, comparison}
use toy_relational_database.Schema.{Value, primary_key_index}
use toy_relational_database.RowCodec.{encoded_size}
use toy_relational_database.BTree.{value_size}
use toy_relational_database.Catalog.{TableHandle, check_create_table}
use toy_relational_database.Catalog.Keys.{check_create_table-primary_key}
use toy_relational_database.Semantic.{AliasMap, validate_column_refs}
use toy_relational_database.Semantic.Columns.{
  times, joined_row, Resolves, validate_column_refs-Resolves,
}

-- i INTEGER PRIMARY KEY, n TEXT
abbrev columns : List ColumnDef
columns =
    record { name = 105 ∷ []; type = ColumnType.integer; is_primary_key = true }
    ∷ record { name = 110 ∷ []; type = ColumnType.text; is_primary_key = false }
    ∷ []

abbrev free_handle : TableHandle
free_handle = record { in_use = false; schema = record { table_name = []; columns = [] } }

check_create_table-primary_key_example :
    (i : ℕ) × (c : ColumnDef) × (primary_key_index
        (record { table_name = 117 ∷ []; columns = columns })
      ≡ some i)
    × (get_elem? columns i ≡ some c)
    × (c.type ≡ ColumnType.integer)
    × (encoded_size (record { table_name = 117 ∷ []; columns = columns }) ≤ value_size)
unfolding encoded_size
check_create_table-primary_key_example =
    check_create_table-primary_key (free_handle ∷ []) (117 ∷ []) columns 0
      (unfold check_create_table in refl)

-- u(i, n) under its name and o(k) as p
abbrev aliases : AliasMap
aliases =
    (117 ∷ [], record { table_name = 117 ∷ []; columns = columns })
    ∷ (
      112 ∷ [],
      record {
        table_name = 111 ∷ [];
        columns = record { name = 107 ∷ []; type = ColumnType.integer; is_primary_key = true } ∷ [];
      },
    )
    ∷ []

abbrev rows : List (List Value)
rows = (Value.int (pos 1) ∷ Value.text (65 ∷ []) ∷ []) ∷ (Value.int (pos 1) ∷ []) ∷ []

-- i = p.k
abbrev condition : Expr
condition =
    comparison ComparisonOp.eq (column_ref none (105 ∷ []))
      (column_ref (some (112 ∷ [])) (107 ∷ []))

abbrev first_byte : Bytes → ℕ
first_byte [] = 0
first_byte (b ∷ bs) = b

times_users : (name : Bytes) → times name columns ≤ 1
unfolding times
times_users name = elim (Bool-cases (str_eq (105 ∷ []) name)) [
  | inl e ↦ elim (Bool-cases (str_eq (110 ∷ []) name)) [
    | inl f ↦
        let letters : 105 ≡ 110 =
          ap first_byte (str_eq-eq (105 ∷ []) name e ∙ sym (str_eq-eq (110 ∷ []) name f)) in
        absurd (omega (arith, letters))
    | inr f ↦ rw (e, f) (omega arith)
  ]
  | inr e ↦ rw e (ground arith)
]

times_orders :
    (name : Bytes)
    → times name (record { name = 107 ∷ []; type = ColumnType.integer; is_primary_key = true } ∷ [])
      ≤ 1
unfolding times
times_orders name = ground arith

validate_column_refs-Resolves_example : Resolves (joined_row aliases rows) condition
unfolding str_eq
validate_column_refs-Resolves_example =
    validate_column_refs-Resolves condition aliases rows
      (refl, times_users, (refl, times_orders, tt)) (unfold validate_column_refs in refl)
