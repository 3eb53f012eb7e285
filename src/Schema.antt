-- ===== src/Schema.antt =====
-- include/value.h and include/schema.h: runtime values and a table's resolved shape.
use toy_relational_database.Prelude.{
  ℕ, ◌+◌, ℤ, eqb_ℤ, Bytes, str_eq, Bool, true, false, List, [], ◌∷◌, Option, none, some,
  if◌then◌else◌, ◌↔◌, ◌≡◌, eqb_ℤ_iff, str_eq_iff, arith,
}
use toy_relational_database.Ast.{ColumnDef}

-- `kind` selects the member that is meaningful.
pub data Value : Type 0 where
  int : ℤ → Value
  text : Bytes → Value

-- Value::operator==
unfoldable pub value_eq : Value → Value → Bool
value_eq (int a) (int b) = eqb_ℤ a b
value_eq (text a) (text b) = str_eq a b
value_eq (int _) (text _) = false
value_eq (text _) (int _) = false

-- Value::operator== returns true exactly for equal values.
pub value_eq_iff : (a b : Value) → (value_eq a b ≡ true) ↔ (a ≡ b)
unfolding value_eq
value_eq_iff (int a) (int b) = ground (arith, eqb_ℤ_iff a b)
value_eq_iff (text a) (text b) = ground (arith, str_eq_iff a b)
value_eq_iff (int _) (text _) = ((λ h. cc), (λ h. cc))
value_eq_iff (text _) (int _) = ((λ h. cc), (λ h. cc))

pub record TableSchema : Type 0 where
  pub table_name : Bytes
  pub columns : List ColumnDef

-- The loop of PrimaryKeyIndex from column `i` on; `none` is -1.
unfoldable pub primary_key_from : ℕ → List ColumnDef → Option ℕ
primary_key_from i [] = none
primary_key_from i (c ∷ cs) =
    let rest = primary_key_from (i + 1) cs in if c.is_primary_key then some i else rest

unfoldable pub primary_key_index : TableSchema → Option ℕ
unfolding primary_key_from
primary_key_index schema = primary_key_from 0 schema.columns

-- The loop of ColumnIndex from column `i` on; `none` is -1.
unfoldable pub column_from : ℕ → List ColumnDef → Bytes → Option ℕ
column_from i [] name = none
column_from i (c ∷ cs) name =
    let rest = column_from (i + 1) cs name in if str_eq c.name name then some i else rest

unfoldable pub column_index : TableSchema → Bytes → Option ℕ
unfolding column_from
column_index schema name = column_from 0 schema.columns name
