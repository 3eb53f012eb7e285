-- ===== src/Executor/Streams.antt =====
-- src/physical_plan.cpp: the rows that an operator hands out until its end.
use toy_relational_database.Prelude.{
  All, Bool, Bytes, List, Option, [], ap, arith, drop, false, get_elem?, if◌then◌else◌, inl, inr,
  length, map, none, refl, some, suc, sym, true, zero, ℕ, ◌+◌, ◌<◌, ◌∙◌, ◌∷◌, ◌≡◌, ◌⊎◌,
}
use toy_relational_database.Errors.{Result, ok, ◌>>=◌, bind-eq-ok, Result-cases}
use toy_relational_database.Ast.{Expr, SelectItem, ColumnDef}
use toy_relational_database.Schema.{Value, TableSchema}
use toy_relational_database.ExecRow.{Field, ExecRow, find}
use toy_relational_database.ExprEval.{eval_bool}
use toy_relational_database.Executor.{
  NextOf, tag_fields, scan_next, drain_step, drain, filter_step, filter_next, project_fields,
  project_row, project_step, project_next,
}

-- From the state `s` on, the calls of `next` return these rows and then the end.
pub data Yields {S : Type 0} (next : NextOf S) : S → List ExecRow → Type 0 where
  done : {s s' : S} → next s ≡ ok (none, s') → Yields next s []
  more :
      {s s' : S} {r : ExecRow} {rs : List ExecRow}
      → next s ≡ ok (some r, s')
      → Yields next s' rs
      → Yields next s (r ∷ rs)

-- The rows that satisfy a predicate; the first exception ends the run.
unfoldable pub filter_rows : Expr → List ExecRow → Result (List ExecRow)
filter_rows predicate [] = ok []
filter_rows predicate (r ∷ rs) =
    let rest = filter_rows predicate rs in
    eval_bool predicate r >>= λ b. if b then (rest >>= λ out. ok (r ∷ out)) else rest

-- The table of a field of the result.
abbrev pub shown_table : Option Bytes → Bytes
shown_table none = []
shown_table (some table) = table

-- What the select list makes of a row: one field for each item, under the item's table if it names
-- one, and under its alias or else its column, with the value that the row has for it.
pub data Selects (row : ExecRow) : List SelectItem → ExecRow → Type 0 where
  nothing : Selects row [] []
  plain :
      {item : SelectItem} {items : List SelectItem} {f : Field} {fields : ExecRow}
      → item.alias ≡ none
      → f.column ≡ item.column
      → f.table ≡ shown_table item.table
      → find item.table item.column row ≡ ok f.value
      → Selects row items fields
      → Selects row (item ∷ items) (f ∷ fields)
  renamed :
      {item : SelectItem} {items : List SelectItem} {f : Field} {fields : ExecRow} {name : Bytes}
      → item.alias ≡ some name
      → f.column ≡ name
      → f.table ≡ shown_table item.table
      → find item.table item.column row ≡ ok f.value
      → Selects row items fields
      → Selects row (item ∷ items) (f ∷ fields)

-- The rows that a projection is to hand out for the rows of its input.
pub data Projects (items : List SelectItem) : Bool → List ExecRow → List ExecRow → Type 0 where
  finished : {is_star : Bool} → Projects items is_star [] []
  star :
      {row : ExecRow} {rows out : List ExecRow}
      → Projects items true rows out
      → Projects items true (row ∷ rows) (row ∷ out)
  selected :
      {row fields : ExecRow} {rows out : List ExecRow}
      → Selects row items fields
      → Projects items false rows out
      → Projects items false (row ∷ rows) (fields ∷ out)

-- What a call returned, and the rows that the calls of `rest` return behind it.
pub data Answers {S : Type 0} (rest : NextOf S) (answer : Result (Option ExecRow × S))
    : List ExecRow → Type 0 where
  last : {s : S} → answer ≡ ok (none, s) → Answers rest answer []
  step :
      {s : S} {r : ExecRow} {rs : List ExecRow}
      → answer ≡ ok (some r, s)
      → Yields rest s rs
      → Answers rest answer (r ∷ rs)

pub Answers-Yields :
    {S : Type 0} (rest : NextOf S) (s : S) {rows : List ExecRow}
    → Answers rest (rest s) rows
    → Yields rest s rows
Answers-Yields rest s (last e) = done e
Answers-Yields rest s (step e y) = more e y

same_field :
    (table : Option Bytes) (column : Bytes) (f : Field)
    → f.column ≡ column
    → f.table ≡ shown_table table
    → ◌≡◌ {A = Field}
        (record { table = elim table [ none ↦ [] | some t ↦ t ]; column = column; value = f.value })
        f
same_field none column f c t = rw (c, t)
same_field (some table) column f c t = rw (c, t)

project_fields-Selects :
    (row : ExecRow) (items : List SelectItem) (fields : ExecRow)
    → Selects row items fields
    → project_fields items row ≡ ok fields
unfolding project_fields
project_fields-Selects row items fields nothing = refl
project_fields-Selects row items fields
      (plain {item = item} {items = behind} {f = f} {fields = rest} a c t v h) =
    rw (v, ◌>>=◌, project_fields-Selects row behind rest h, ◌>>=◌, a)
      (ap (λ (x : Field). ok (x ∷ rest)) (same_field item.table item.column f c t))
project_fields-Selects row items fields
      (renamed {item = item} {items = behind} {f = f} {fields = rest} {name = name} a c t v h) =
    rw (v, ◌>>=◌, project_fields-Selects row behind rest h, ◌>>=◌, a)
      (ap (λ (x : Field). ok (x ∷ rest)) (same_field item.table name f c t))

module _ {S : Type 0} (next : NextOf S) where
  -- Reading to the end collects the rows that the operator hands out, given more rounds than rows.
  pub drain-Yields :
      (fuel : ℕ) {s : S} {rows : List ExecRow}
      → Yields next s rows
      → length rows < fuel
      → drain next fuel s ≡ ok rows
  unfolding drain drain_step
  drain-Yields zero y h = absurd (omega arith)
  drain-Yields (suc fuel) (done e) h = rw (e, ◌>>=◌)
  drain-Yields (suc fuel) (more e y) h = rw (e, ◌>>=◌, drain-Yields fuel y (omega arith), ◌>>=◌)

  filter-Answers :
      (predicate : Expr) (fuel f : ℕ) {s : S} {rows : List ExecRow} (out : List ExecRow)
      → Yields next s rows
      → length rows < f
      → length rows < fuel
      → filter_rows predicate rows ≡ ok out
      → Answers (filter_next next predicate fuel) (filter_next next predicate f s) out
  unfolding filter_next filter_step filter_rows
  filter-Answers predicate fuel zero out y h k e = absurd (omega arith)
  filter-Answers predicate fuel (suc f) out (done e₀) h k e =
      let empty : out ≡ [] = cc in rw (empty, e₀, ◌>>=◌) (last refl)
  filter-Answers predicate fuel (suc f) out (more {s' = s'} {r = r} {rs = rs} e₀ y) h k e =
      elim (Result-cases (eval_bool predicate r)) [
        | inl (true, ev) ↦
            let (out', rest, found) =
              bind-eq-ok (filter_rows predicate rs) (λ o. ok (r ∷ o)) (rw (ev, ◌>>=◌) at e) in
            let whole : out ≡ r ∷ out' = cc in
            rw (whole, e₀, ◌>>=◌, ev, ◌>>=◌)
              (step refl (
                Answers-Yields (filter_next next predicate fuel) s'
                  (filter-Answers predicate fuel fuel out' y (omega arith) (omega arith) rest)))
        | inl (false, ev) ↦
            rw (e₀, ◌>>=◌, ev, ◌>>=◌)
              (filter-Answers predicate fuel f out y (omega arith) (omega arith)
                (rw (ev, ◌>>=◌) at e))
        | inr (x, ev) ↦ absurd (cc (rw (ev, ◌>>=◌) at e))
      ]

  -- Where no evaluation throws, a filter hands out exactly the rows of its input that satisfy the
  -- predicate, in their order; more rounds than the input has rows are enough for each call.
  pub filter-Yields :
      (predicate : Expr) (fuel : ℕ) {s : S} {rows : List ExecRow} (out : List ExecRow)
      → Yields next s rows
      → length rows < fuel
      → filter_rows predicate rows ≡ ok out
      → Yields (filter_next next predicate fuel) s out
  filter-Yields predicate fuel {s} out y h e =
      Answers-Yields (filter_next next predicate fuel) s
        (filter-Answers predicate fuel fuel out y h h e)

  -- Where every item's column resolves in every row of the input, a projection hands out, for each row in
  -- their order: the row itself for `*`, or else one field for each item of the select list in their
  -- order, under the item's alias, or its column if it has none, and under the table that the item
  -- names, or none, with the value of the item's column in the row.
  pub project-Yields :
      (is_star : Bool) (items : List SelectItem) {s : S} {rows : List ExecRow} (out : List ExecRow)
      → Yields next s rows
      → Projects items is_star rows out
      → Yields (project_next next is_star items) s out
  unfolding project_next project_step project_row
  project-Yields is_star items out (done {s' = s'} e₀) finished = done {s' = s'} (rw (e₀, ◌>>=◌))
  project-Yields is_star items out (more {s' = s'} e₀ y) (star {out = behind} p) =
      more {s' = s'} (rw (e₀, ◌>>=◌)) (project-Yields true items behind y p)
  project-Yields is_star items out (more {s' = s'} {r = r} e₀ y)
        (selected {fields = fields} {out = behind} h p) =
      more {s' = s'} (rw (e₀, ◌>>=◌, project_fields-Selects r items fields h, ◌>>=◌))
        (project-Yields false items behind y p)

-- What a cursor reads, and what is behind it.
pub drop-cases :
    {A : Type 0} (n : ℕ) (xs : List A)
    → (get_elem? xs n ≡ none) × (drop n xs ≡ [])
      ⊎ ((x : A) × (get_elem? xs n ≡ some x) × (drop n xs ≡ x ∷ drop (suc n) xs))
drop-cases zero [] = inl (refl, refl)
drop-cases zero (x ∷ xs) = inr (x, refl, refl)
drop-cases (suc n) [] = inl (refl, refl)
drop-cases (suc n) (x ∷ xs) = drop-cases n xs

scan-Yields_by :
    (schema : TableSchema) (alias : Bytes) (rows : List (List Value)) (rest : List (List Value))
    (cursor : ℕ)
    → drop cursor rows ≡ rest
    → Yields
        (scan_next schema alias)
        (record { rows = rows; cursor = cursor })
        (map (tag_fields alias schema.columns) rest)
unfolding scan_next
scan-Yields_by schema alias rows [] cursor e = elim (drop-cases cursor rows) [
  | inl (a, b) ↦ done {s' = record { rows = rows; cursor = cursor }} (rw (a, scan_next))
  | inr (x, a, b) ↦ absurd (cc)
]
scan-Yields_by schema alias rows (v ∷ vs) cursor e = elim (drop-cases cursor rows) [
  | inl (a, b) ↦ absurd (cc)
  | inr (x, a, b) ↦
      let next : cursor + 1 ≡ suc cursor = omega arith in
      let same : v ∷ vs ≡ x ∷ drop (suc cursor) rows = sym e ∙ b in
      let head : v ≡ x = cc in
      let tail : drop (cursor + 1) rows ≡ vs = rw next cc in
      more {s' = record { rows = rows; cursor = cursor + 1 }} (rw (a, head, scan_next))
        (scan-Yields_by schema alias rows vs (cursor + 1) tail)
]

pub scan-Yields_tagged :
    (schema : TableSchema) (alias : Bytes) (rows : List (List Value))
    → Yields
        (scan_next schema alias)
        (record { rows = rows; cursor = 0 })
        (map (tag_fields alias schema.columns) rows)
scan-Yields_tagged schema alias rows = scan-Yields_by schema alias rows rows 0 refl

abbrev pub values_of : ExecRow → List Value
values_of row = map (λ f. f.value) row

abbrev pub names_of : ExecRow → List Bytes
names_of row = map (λ f. f.column) row

-- A row of a table, as the scan hands it out.
pub record ScannedRow (schema : TableSchema) (alias : Bytes) (row : ExecRow) : Type 0 where
  pub tables : All (λ f. f.table ≡ alias) row
  pub names : names_of row ≡ map (λ c. c.name) schema.columns

tag_fields-ScannedRow :
    (alias : Bytes) (cs : List ColumnDef) (vs : List Value)
    → length vs ≡ length cs
    → All (λ f. f.table ≡ alias) (tag_fields alias cs vs)
      × (names_of (tag_fields alias cs vs) ≡ map (λ c. c.name) cs)
      × (values_of (tag_fields alias cs vs) ≡ vs)
unfolding tag_fields
tag_fields-ScannedRow alias [] [] h = (tt, refl, refl)
tag_fields-ScannedRow alias [] (v ∷ vs) h = absurd (omega arith)
tag_fields-ScannedRow alias (c ∷ cs) [] h = absurd (omega arith)
tag_fields-ScannedRow alias (c ∷ cs) (v ∷ vs) h =
    let (tables, names, values) = tag_fields-ScannedRow alias cs vs (omega arith) in
    (
      (refl, tables),
      ap (λ (x : List Bytes). c.name ∷ x) names,
      ap (λ (x : List Value). v ∷ x) values,
    )

scanned_rows :
    (schema : TableSchema) (alias : Bytes) (rows : List (List Value))
    → All (λ vs. length vs ≡ length schema.columns) rows
    → (map values_of (map (tag_fields alias schema.columns) rows) ≡ rows)
      × All (ScannedRow schema alias) (map (tag_fields alias schema.columns) rows)
scanned_rows schema alias [] h = (refl, tt)
scanned_rows schema alias (vs ∷ rows) h =
    let (tables, names, values) = tag_fields-ScannedRow alias schema.columns vs h.0 in
    let rest = scanned_rows schema alias rows h.1 in
    (rw (values, rest.0), (record { tables = tables; names = names }, rest.1))

-- A scan that was just opened, on rows with a value for each column, hands out the stored rows: the
-- values of what it hands out are those of the stored rows, in their order, and every row has the
-- schema's column names, in their order, each field under the alias as its table.
pub scan-Yields :
    (schema : TableSchema) (alias : Bytes) (rows : List (List Value))
    → All (λ vs. length vs ≡ length schema.columns) rows
    → (out : List ExecRow) × Yields
        (scan_next schema alias)
        (record { rows = rows; cursor = 0 })
        out
      × (map values_of out ≡ rows)
      × All (ScannedRow schema alias) out
scan-Yields schema alias rows h =
    let made = scanned_rows schema alias rows h in
    (
      map (tag_fields alias schema.columns) rows,
      scan-Yields_tagged schema alias rows,
      made.0,
      made.1,
    )
