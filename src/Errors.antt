-- ===== src/Errors.antt =====
-- The exceptions that the program throws, and the result of a call that may throw. The message
-- texts are left out: one constructor for each kind of fault that a handler tells apart.
use toy_relational_database.Prelude.{inl, inr, refl, ℕ, ◌≡◌, ◌⊎◌}

-- include/row_codec.h, RowEncodingError
pub data EncodeFault : Type 0 where
  wrong_count expects_integer expects_text text_too_long : EncodeFault

-- include/expr_eval.h, EvalError
pub data EvalFault : Type 0 where
  kind_mismatch not_a_value not_a_bool : EvalFault

-- include/exec_row.h, ColumnResolutionError
pub data ColumnFault : Type 0 where
  unknown_column ambiguous_column : ColumnFault

-- src/disk_manager.cpp and src/wal.cpp, std::runtime_error
pub data IoFault : Type 0 where
  short_read checksum_mismatch short_write fsync_failed : IoFault

-- include/catalog.h, CatalogError
pub data CatalogFault : Type 0 where
  bad_table_name table_exists bad_column_count bad_column_name : CatalogFault
  bad_key_count key_not_integer row_too_wide catalog_full no_such_table : CatalogFault
  wrong_value_count key_value_not_integer : CatalogFault

-- include/semantic.h, SemanticError
pub data SemanticFault : Type 0 where
  unknown_table duplicate_alias unknown_alias no_such_column ambiguous_name : SemanticFault
  value_count_mismatch partial_insert repeated_column : SemanticFault

pub data Error : Type 0 where
  row_encoding : EncodeFault → Error
  eval_error : EvalFault → Error
  column_resolution : ColumnFault → Error
  io_error : IoFault → Error
  catalog_error : CatalogFault → Error
  semantic_error : SemanticFault → Error
  -- the position that the error carries: line, column
  lex_error : ℕ → ℕ → Error
  parse_error : ℕ → ℕ → Error
  -- std::out_of_range of std::stoll
  out_of_range : Error
  invalid_argument logic_error : Error
  -- std::runtime_error of the tree, and CatalogError of the catalog, for an invalid guard
  pool_exhausted : Error
  -- The rounds given to a loop of the model ran out; no counterpart in the program.
  out_of_fuel : Error

-- What a call returns, or the exception that leaves it.
pub data Result {ℓ} (Answer : Type ℓ) : Type ℓ where
  throw : Error → Result Answer
  ok : Answer → Result Answer

module _ {ℓ κ} {First : Type ℓ} {Next : Type κ} where
  infixl 5 ◌>>=◌
  -- The statements after a call run only if it returned.
  abbrev pub ◌>>=◌ : Result First → (First → Result Next) → Result Next
  throw exception >>= rest = throw exception
  ok answer >>= rest = rest answer

  -- Where the whole returned, its first call did, and so did the rest at that answer.
  pub bind-eq-ok :
      (call : Result First) (rest : First → Result Next) {out : Next}
      → (call >>= rest) ≡ ok out
      → (answer : First) × (call ≡ ok answer) × (rest answer ≡ ok out)
  bind-eq-ok (throw exception) rest returned = cc
  bind-eq-ok (ok answer) rest returned = (answer, refl, returned)

module _ {ℓ} {Answer : Type ℓ} where
  pub Result-cases :
      (call : Result Answer)
      → ((answer : Answer) × (call ≡ ok answer)) ⊎ ((exception : Error) × (call ≡ throw exception))
  Result-cases (throw exception) = inr (exception, refl)
  Result-cases (ok answer) = inl (answer, refl)
