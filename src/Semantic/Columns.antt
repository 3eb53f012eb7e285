-- ===== src/Semantic/Columns.antt =====
-- src/semantic.cpp against src/exec_row.cpp: the columns of an accepted query resolve in its rows.
use toy_relational_database.Prelude.{
  Bool-cases, Bytes, List, Option, Option-cases, [], ap, arith, false, if◌then◌else◌, inl, inr,
  length, length-append, none, refl, some, str_eq, str_eq_iff, str_eq_refl, true, ℕ, ◌++◌, ◌+◌, ◌↔◌,
  ◌∙◌, ◌∷◌, ◌≡◌, ◌≢◌, ◌≤◌,
}
use toy_relational_database.Errors.{ok, bind-eq-ok}
use toy_relational_database.Ast.{Expr, ColumnDef, column_ref, literal, comparison, and, or}
use toy_relational_database.Schema.{Value, TableSchema, column_from, column_index}
use toy_relational_database.ExecRow.{Field, ExecRow, find_qualified, find}
use toy_relational_database.ExecRow.Resolve.{
  named, only, find-only, has_table, find-append_left, find-append_right,
}
use toy_relational_database.Executor.{tag_fields}
use toy_relational_database.Semantic.{
  AliasMap, find_alias, has_column, count_matches, validate_qualified, validate_ref,
  validate_column_refs,
}

-- The columns called `name`.
unfoldable pub times : Bytes → List ColumnDef → ℕ
times name [] = 0
times name (c ∷ cs) = (if str_eq c.name name then 1 else 0) + times name cs

-- One row of each table under its alias, side by side.
unfoldable pub joined_row : AliasMap → List (List Value) → ExecRow
joined_row (a ∷ others) (v ∷ vs) = tag_fields a.0 a.1.columns v ++ joined_row others vs
joined_row _ _ = []

-- A row of values for each table, of its length; no table has two columns of one name.
abbrev pub Rows : AliasMap → List (List Value) → Type 0
Rows [] [] = Unit
Rows (a ∷ others) (v ∷ vs) =
    (length v ≡ length a.1.columns) × ((name : Bytes) → times name a.1.columns ≤ 1) × Rows others vs
Rows _ _ = ⊥

-- Every column that an expression refers to has a value in the row.
abbrev pub Resolves : ExecRow → Expr → Type 0
Resolves row (column_ref table column) = (v : Value) × (find table column row ≡ ok v)
Resolves row (literal lit) = Unit
Resolves row (comparison op l r) = Resolves row l × Resolves row r
Resolves row (and l r) = Resolves row l × Resolves row r
Resolves row (or l r) = Resolves row l × Resolves row r

has_column-times :
    (i : ℕ) (cs : List ColumnDef) (name : Bytes)
    → (column_from i cs name ≡ none) ↔ (times name cs ≡ 0)
unfolding column_from times
has_column-times i [] name = ((λ h. refl), (λ h. refl))
has_column-times i (c ∷ cs) name = elim (Bool-cases (str_eq c.name name)) [
  | inl e ↦ rw e ((λ h. cc), (λ h. absurd (omega arith)))
  | inr e ↦
      let rest = has_column-times (i + 1) cs name in
      rw e ((λ h. omega (arith, rest.0 h)), (λ h. rest.1 (omega arith)))
]

-- The values of a bare column in one table's row: one for each column of that name.
length-named_tag :
    (alias : Bytes) (cs : List ColumnDef) (vs : List Value) (name : Bytes)
    → length vs ≡ length cs
    → length (named name (tag_fields alias cs vs)) ≡ times name cs
unfolding tag_fields named times
length-named_tag alias [] vs name h = refl
length-named_tag alias (c ∷ cs) [] name h = absurd (omega arith)
length-named_tag alias (c ∷ cs) (v ∷ vs) name h =
    let rest = length-named_tag alias cs vs name (omega arith) in
    elim (Bool-cases (str_eq c.name name)) [
      | inl e ↦ rw e (omega (arith, rest))
      | inr e ↦ rw e (omega (arith, rest))
    ]

named-append :
    (name : Bytes) (xs ys : ExecRow) → named name (xs ++ ys) ≡ named name xs ++ named name ys
unfolding named
named-append name [] ys = refl
named-append name (x ∷ xs) ys = elim (Bool-cases (str_eq x.column name)) [
  | inl e ↦ rw e (ap (λ t. x.value ∷ t) (named-append name xs ys))
  | inr e ↦ rw e (named-append name xs ys)
]

has_column-one :
    (schema : TableSchema) (name : Bytes)
    → times name schema.columns ≤ 1
    → (if has_column schema name then 1 else 0) ≡ times name schema.columns
unfolding has_column column_index
has_column-one schema name h =
    let counted = has_column-times 0 schema.columns name in
    elim (Option-cases (column_from 0 schema.columns name)) [
      | inl e ↦ rw (e, has_column) (omega (arith, counted.0 e))
      | inr (i, e) ↦
          let some_time : times name schema.columns ≢ 0 = λ z. cc (counted.1 z, e) in
          rw (e, has_column) (omega (arith, some_time))
    ]

-- A joined row has as many values of a bare column as ValidateColumnRefsIn counts.
length-named :
    (aliases : AliasMap) (rows : List (List Value)) (name : Bytes)
    → Rows aliases rows
    → length (named name (joined_row aliases rows)) ≡ count_matches aliases name
unfolding named joined_row count_matches
length-named [] [] name h = refl
length-named [] (v ∷ vs) name h = elim h [ ]
length-named (a ∷ others) [] name h = elim h [ ]
length-named (a ∷ others) (v ∷ vs) name (same, distinct, rest) =
    let front = tag_fields a.0 a.1.columns v in
    rw (named-append name front (joined_row others vs), has_column-one a.1 name (distinct name))
      (omega (
        arith,
        length-append (named name front) (named name (joined_row others vs)),
        length-named_tag a.0 a.1.columns v name same,
        length-named others vs name rest,
      ))

only_one : (vs : List Value) → length vs ≡ 1 → (v : Value) × (only vs ≡ ok v)
only_one [] h = absurd (omega arith)
only_one (v ∷ []) h = (v, refl)
only_one (v ∷ w ∷ vs) h = absurd (omega arith)

find-miss :
    (table column : Bytes) (f : Field) (row : ExecRow)
    → str_eq f.column column ≡ false
    → find (some table) column (f ∷ row) ≡ find (some table) column row
unfolding find find_qualified
find-miss table column f row e = elim (Bool-cases (str_eq f.table table)) [
  | inl same ↦ rw (same, e)
  | inr differ ↦ rw differ
]

find-tag_fields :
    (alias : Bytes) (cs : List ColumnDef) (vs : List Value) (column : Bytes)
    → length vs ≡ length cs
    → times column cs ≢ 0
    → (v : Value) × (find (some alias) column (tag_fields alias cs vs) ≡ ok v)
unfolding find find_qualified tag_fields times
find-tag_fields alias [] vs column h some_time = absurd (some_time refl)
find-tag_fields alias (c ∷ cs) [] column h some_time = absurd (omega arith)
find-tag_fields alias (c ∷ cs) (v ∷ vs) column h some_time =
    elim (Bool-cases (str_eq c.name column)) [
      | inl e ↦ (v, rw (str_eq_refl alias, e))
      | inr e ↦
          let (w, found) =
            find-tag_fields alias cs vs column (omega arith)
              (λ z. some_time (rw e (omega (arith, z)))) in
          (
            w,
            find-miss alias column (record { table = alias; column = c.name; value = v })
                  (tag_fields alias cs vs) e
                ∙ found,
          )
    ]

has_table-tag_fields :
    (alias table : Bytes) (cs : List ColumnDef) (vs : List Value)
    → str_eq alias table ≡ false
    → has_table table (tag_fields alias cs vs) ≡ false
unfolding has_table tag_fields
has_table-tag_fields alias table [] vs e = refl
has_table-tag_fields alias table (c ∷ cs) [] e = refl
has_table-tag_fields alias table (c ∷ cs) (v ∷ vs) e =
    rw e (has_table-tag_fields alias table cs vs e)

has_column-times_ne :
    (schema : TableSchema) (name : Bytes)
    → has_column schema name ≡ true
    → times name schema.columns ≢ 0
unfolding has_column column_index
has_column-times_ne schema name h z =
    let gone = (has_column-times 0 schema.columns name).1 z in cc (rw (gone, has_column) at h)

find-qualified :
    (aliases : AliasMap) (rows : List (List Value)) (table column : Bytes) (schema : TableSchema)
    → Rows aliases rows
    → find_alias aliases table ≡ some schema
    → has_column schema column ≡ true
    → (v : Value) × (find (some table) column (joined_row aliases rows) ≡ ok v)
unfolding find_alias joined_row
find-qualified [] rows table column schema h e k = cc
find-qualified (a ∷ others) [] table column schema h e k = elim h [ ]
find-qualified (a ∷ others) (v ∷ vs) table column schema (same, distinct, rest) e k =
    let front = tag_fields a.0 a.1.columns v in
    elim (Bool-cases (str_eq a.0 table)) [
      | inl hit ↦
          let here : a.1 ≡ schema = cc (rw hit at e) in
          let alias : a.0 ≡ table = (str_eq_iff a.0 table).0 hit in
          let (w, found) =
            find-tag_fields a.0 a.1.columns v column same
              (has_column-times_ne a.1 column (rw here k)) in
          (w, find-append_left table column front (joined_row others vs) (rw (← alias) found))
      | inr miss ↦
          let (w, found) = find-qualified others vs table column schema rest (rw miss at e) k in
          (
            w,
            find-append_right table column front (joined_row others vs)
                  (has_table-tag_fields a.0 table a.1.columns v miss)
                ∙ found,
          )
    ]

validate_ref-find :
    (table : Option Bytes) (column : Bytes) (aliases : AliasMap) (rows : List (List Value))
    → Rows aliases rows
    → validate_ref table column aliases ≡ ok tt
    → (v : Value) × (find table column (joined_row aliases rows) ≡ ok v)
unfolding validate_ref validate_qualified
validate_ref-find none column aliases rows h k =
    let one : count_matches aliases column ≡ 1 = ground arith in
    let (v, found) = only_one _ (length-named aliases rows column h ∙ one) in
    (v, find-only column (joined_row aliases rows) ∙ found)
validate_ref-find (some table) column aliases rows h k =
    elim (Option-cases (find_alias aliases table)) [
      | inl e ↦ absurd (cc (rw e at k))
      | inr (schema, e) ↦ elim (Bool-cases (has_column schema column)) [
        | inl has ↦ find-qualified aliases rows table column schema h e has
        | inr lacks ↦ absurd (cc (rw (e, validate_qualified, lacks) at k))
      ]
    ]

-- If the semantic checks accept an expression, each of its column references resolves in every row
-- that has one row of each table side by side in the order of the aliases, where no table has two
-- columns of one name.
pub validate_column_refs-Resolves :
    (e : Expr) (aliases : AliasMap) (rows : List (List Value))
    → Rows aliases rows
    → validate_column_refs e aliases ≡ ok tt
    → Resolves (joined_row aliases rows) e
unfolding validate_column_refs
validate_column_refs-Resolves (column_ref table column) aliases rows h k =
    validate_ref-find table column aliases rows h k
validate_column_refs-Resolves (literal lit) aliases rows h k = tt
validate_column_refs-Resolves (comparison op l r) aliases rows h k =
    let (u, left, right) =
      bind-eq-ok (validate_column_refs l aliases) (λ done. validate_column_refs r aliases) k in
    (
      validate_column_refs-Resolves l aliases rows h left,
      validate_column_refs-Resolves r aliases rows h right,
    )
validate_column_refs-Resolves (and l r) aliases rows h k =
    let (u, left, right) =
      bind-eq-ok (validate_column_refs l aliases) (λ done. validate_column_refs r aliases) k in
    (
      validate_column_refs-Resolves l aliases rows h left,
      validate_column_refs-Resolves r aliases rows h right,
    )
validate_column_refs-Resolves (or l r) aliases rows h k =
    let (u, left, right) =
      bind-eq-ok (validate_column_refs l aliases) (λ done. validate_column_refs r aliases) k in
    (
      validate_column_refs-Resolves l aliases rows h left,
      validate_column_refs-Resolves r aliases rows h right,
    )
