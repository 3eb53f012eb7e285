-- ===== src/ExecRow/Resolve.antt =====
-- src/exec_row.cpp: which value a column reference resolves to, in one row and in a joined row.
use toy_relational_database.Prelude.{
  Bool, Bool-cases, Bytes, List, [], false, if◌then◌else◌, inl, inr, none, refl, some, str_eq, ◌&&◌,
  ◌++◌, ◌||◌, ◌∷◌, ◌≡◌,
}
use toy_relational_database.Errors.{
  Result, ok, throw, column_resolution, unknown_column, ambiguous_column,
}
use toy_relational_database.Schema.{Value}
use toy_relational_database.ExecRow.{ExecRow, find_qualified, find_unqualified, find}

-- The values of the fields with a column's name, in order.
unfoldable pub named : Bytes → ExecRow → List Value
named column [] = []
named column (f ∷ fs) =
    if str_eq f.column column then f.value ∷ named column fs else named column fs

-- The answer for such a list: exactly one value resolves.
abbrev pub only : List Value → Result Value
only [] = throw (column_resolution unknown_column)
only (v ∷ []) = ok v
only (v ∷ w ∷ vs) = throw (column_resolution ambiguous_column)

find_unqualified-some :
    (column : Bytes) (v : Value) (row : ExecRow)
    → find_unqualified column (some v) row ≡ only (v ∷ named column row)
unfolding find_unqualified named
find_unqualified-some column v [] = refl
find_unqualified-some column v (f ∷ fs) = elim (Bool-cases (str_eq f.column column)) [
  | inl e ↦ rw e
  | inr e ↦ rw e (find_unqualified-some column v fs)
]

find_unqualified-none :
    (column : Bytes) (row : ExecRow) → find_unqualified column none row ≡ only (named column row)
unfolding find_unqualified named
find_unqualified-none column [] = refl
find_unqualified-none column (f ∷ fs) = elim (Bool-cases (str_eq f.column column)) [
  | inl e ↦ rw (e, find_unqualified) (find_unqualified-some column f.value fs)
  | inr e ↦ rw (e, find_unqualified) (find_unqualified-none column fs)
]

-- A bare column resolves to the value of the one field of that name; with none it is unknown, with
-- several ambiguous.
pub find-only : (column : Bytes) (row : ExecRow) → find none column row ≡ only (named column row)
unfolding find
find-only column row = find_unqualified-none column row

-- The fields of a table or alias in a row.
unfoldable pub has_table : Bytes → ExecRow → Bool
has_table table [] = false
has_table table (f ∷ fs) = str_eq f.table table || has_table table fs

-- A qualified column that the left part of a joined row has is found there.
pub find-append_left :
    (table column : Bytes) (left right : ExecRow) {v : Value}
    → find (some table) column left ≡ ok v
    → find (some table) column (left ++ right) ≡ ok v
unfolding find find_qualified
find-append_left table column [] right h = cc
find-append_left table column (f ∷ left) right h =
    elim (Bool-cases (str_eq f.table table && str_eq f.column column)) [
      | inl e ↦ rw e (rw e at h)
      | inr e ↦ rw e (find-append_left table column left right (rw e at h))
    ]

-- A qualified column of a table that the left part does not have is found in the right part.
pub find-append_right :
    (table column : Bytes) (left right : ExecRow)
    → has_table table left ≡ false
    → find (some table) column (left ++ right) ≡ find (some table) column right
unfolding find find_qualified has_table
find-append_right table column [] right h = refl
find-append_right table column (f ∷ left) right h = elim (Bool-cases (str_eq f.table table)) [
  | inl e ↦ absurd (cc (rw e at h))
  | inr e ↦ rw e (find-append_right table column left right (rw e at h))
]
