-- ===== src/Catalog/Keys.antt =====
-- src/catalog.cpp: the primary key of a table that CREATE TABLE accepted.
use toy_relational_database.Prelude.{
  ==_iff, Bool-cases, Bytes, List, Option, Option-cases, [], ap, arith, get_elem?, if◌then◌else◌,
  inl, inr, leb, length, ltb, none, refl, some, sym, ℕ, ◌+◌, ◌==◌, ◌||◌, ◌∙◌, ◌∷◌, ◌≡◌, ◌≤◌, ◌⊎◌,
}
use toy_relational_database.Errors.{ok, throw, catalog_error, row_too_wide, ◌>>=◌, bind-eq-ok}
use toy_relational_database.Ast.{ColumnType, ColumnDef}
use toy_relational_database.Schema.{TableSchema, primary_key_from, primary_key_index}
use toy_relational_database.RowCodec.{encoded_size}
use toy_relational_database.BTree.{value_size}
use toy_relational_database.Catalog.{
  TableHandle, catalog_column_name_len, catalog_table_name_len, max_catalog_columns, check_columns,
  catalog_has, scan_columns, check_key, check_keys, free_slot, take_slot, check_create_table,
}

-- A column list that passes has a first column and others that pass.
scan_columns-tail :
    (i : ℕ) (c : ColumnDef) (cs : List ColumnDef) (found r : ℕ × Option ℕ)
    → scan_columns i (c ∷ cs) found ≡ ok r
    → scan_columns (i + 1) cs (if c.is_primary_key then (found.0 + 1, some i) else found) ≡ ok r
unfolding scan_columns
scan_columns-tail i c cs found r h =
    elim (Bool-cases (length c.name == 0 || leb catalog_column_name_len (length c.name))) [
      | inl e ↦ absurd (cc (rw e at h))
      | inr e ↦ rw e at h
    ]

-- The count never falls.
scan_columns-le :
    (i : ℕ) (cs : List ColumnDef) (found r : ℕ × Option ℕ)
    → scan_columns i cs found ≡ ok r
    → found.0 ≤ r.0
unfolding scan_columns
scan_columns-le i [] found r h = let e : found ≡ r = cc in rw e (omega arith)
scan_columns-le i (c ∷ cs) found r h =
    let tail = scan_columns-tail i c cs found r h in
    elim (Bool-cases c.is_primary_key) [
      | inl e ↦ omega (arith, scan_columns-le (i + 1) cs (found.0 + 1, some i) r (rw e at tail))
      | inr e ↦ scan_columns-le (i + 1) cs found r (rw e at tail)
    ]

-- Where it does not rise, the place stays.
scan_columns-same :
    (i : ℕ) (cs : List ColumnDef) (found r : ℕ × Option ℕ)
    → scan_columns i cs found ≡ ok r
    → r.0 ≡ found.0
    → r.1 ≡ found.1
unfolding scan_columns
scan_columns-same i [] found r h e = let same : found ≡ r = cc in rw same
scan_columns-same i (c ∷ cs) found r h e =
    let tail = scan_columns-tail i c cs found r h in
    elim (Bool-cases c.is_primary_key) [
      | inl k ↦
          absurd
            (omega (arith, e, scan_columns-le (i + 1) cs (found.0 + 1, some i) r (rw k at tail)))
      | inr k ↦ scan_columns-same (i + 1) cs found r (rw k at tail) e
    ]

-- With one key in all, it is the one that PrimaryKeyIndex finds.
scan_columns-primary_key :
    (i : ℕ) (cs : List ColumnDef) (r : ℕ × Option ℕ)
    → scan_columns i cs (0, none) ≡ ok r
    → r.0 ≡ 1
    → primary_key_from i cs ≡ r.1
unfolding scan_columns primary_key_from
scan_columns-primary_key i [] r h e =
    let same : (0, none) ≡ r = cc in absurd (omega (arith, ap (λ x. x.0) same))
scan_columns-primary_key i (c ∷ cs) r h e =
    let tail = scan_columns-tail i c cs (0, none) r h in
    elim (Bool-cases c.is_primary_key) [
      | inl k ↦
          rw k
            (sym (scan_columns-same (i + 1) cs (0 + 1, some i) r (rw k at tail) (omega (arith, e))))
      | inr k ↦ rw k (scan_columns-primary_key (i + 1) cs r (rw k at tail) e)
    ]

type-cases : (t : ColumnType) → (t ≡ ColumnType.integer) ⊎ (t ≡ ColumnType.text)
type-cases ColumnType.integer = inl refl
type-cases ColumnType.text = inr refl

check_key-ok :
    (c : ColumnDef) {u : Unit {0}} → check_key (some c) ≡ ok u → c.type ≡ ColumnType.integer
unfolding check_key
check_key-ok c h = elim (type-cases c.type) [ inl e ↦ e | inr e ↦ absurd (cc (rw e at h)) ]

check_keys-ok :
    (columns : List ColumnDef) (found : ℕ × Option ℕ) {u : Unit {0}}
    → check_keys columns found ≡ ok u
    → (found.0 ≡ 1)
      × (i : ℕ) × (c : ColumnDef) × (found.1 ≡ some i)
      × (get_elem? columns i ≡ some c)
      × (c.type ≡ ColumnType.integer)
unfolding check_keys check_key
check_keys-ok columns (n, none) h = ground arith
check_keys-ok columns (n, some i) h = elim (Bool-cases (n == 1)) [
  | inl one ↦ elim (Option-cases (get_elem? columns i)) [
    | inl e ↦ absurd (cc (rw (one, e, check_key) at h))
    | inr (c, e) ↦ ((==_iff n 1).0 one, i, c, refl, e, check_key-ok c (rw (one, e) at h))
  ]
  | inr e ↦ absurd (cc (rw e at h))
]

accepted_columns :
    (tables : List TableHandle) (schema : TableSchema) {slot : ℕ}
    → check_columns tables schema ≡ ok slot
    → (i : ℕ) × (c : ColumnDef) × (primary_key_index schema ≡ some i)
      × (get_elem? schema.columns i ≡ some c)
      × (c.type ≡ ColumnType.integer)
      × (encoded_size schema ≤ value_size)
unfolding check_columns primary_key_index
accepted_columns tables schema h =
    let (found, scanned, tail) =
      bind-eq-ok (scan_columns 0 schema.columns (0, none))
        (λ found. check_keys schema.columns found >>= λ checked.
          if ltb value_size (encoded_size schema)
          then throw (catalog_error row_too_wide)
          else take_slot (free_slot 0 tables))
        h in
    let (u, keys, last) =
      bind-eq-ok (check_keys schema.columns found)
        (λ checked.
          if ltb value_size (encoded_size schema)
          then throw (catalog_error row_too_wide)
          else take_slot (free_slot 0 tables))
        tail in
    let (one, i, c, place, column, type) = check_keys-ok schema.columns found keys in
    let index = scan_columns-primary_key 0 schema.columns found scanned one in
    elim (Bool-cases (ltb value_size (encoded_size schema))) [
      | inl e ↦ absurd (cc (rw e at last))
      | inr e ↦ (i, c, index ∙ place, column, type, ground (arith, e))
    ]

-- A table that CREATE TABLE accepts has a primary key column where PrimaryKeyIndex finds it, of type
-- INTEGER, and its rows fit a value of the tree.
pub check_create_table-primary_key :
    (tables : List TableHandle) (name : Bytes) (columns : List ColumnDef) (slot : ℕ)
    → check_create_table tables name columns ≡ ok slot
    → (i : ℕ) × (c : ColumnDef) × (primary_key_index
          (record { table_name = name; columns = columns })
        ≡ some i)
      × (get_elem? columns i ≡ some c)
      × (c.type ≡ ColumnType.integer)
      × (encoded_size (record { table_name = name; columns = columns }) ≤ value_size)
unfolding check_create_table
check_create_table-primary_key tables name columns slot h =
    let schema : TableSchema = record { table_name = name; columns = columns } in
    elim (Bool-cases (length name == 0 || leb catalog_table_name_len (length name))) [
      | inl e ↦ absurd (cc (rw e at h))
      | inr e ↦ elim (Bool-cases (catalog_has tables name)) [
        | inl f ↦ absurd (cc (rw (e, f) at h))
        | inr f ↦
            elim (Bool-cases (length columns == 0 || ltb max_catalog_columns (length columns))) [
              | inl g ↦ absurd (cc (rw (e, f, g) at h))
              | inr g ↦ accepted_columns tables schema (rw (e, f, g) at h)
            ]
      ]
    ]
