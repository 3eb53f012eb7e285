-- ===== src/Engine.antt =====
-- src/engine.cpp, ExecuteSelect: the loop that reads the plan to its end. The root of the plan is any
-- `next` on a state of its own.
pub mod Select
use toy_relational_database.Prelude.{
  Bool, Bytes, List, Option, [], false, if◌then◌else◌, map, none, some, suc, zero, ℕ, ◌++◌, ◌∷◌,
}
use toy_relational_database.Errors.{Result, ok, throw, out_of_fuel, ◌>>=◌}
use toy_relational_database.Schema.{Value}
use toy_relational_database.ExecRow.{ExecRow}
use toy_relational_database.Executor.{NextOf}

-- include/engine.h
pub record QueryResult : Type 0 where
  pub column_names : List Bytes
  pub rows : List (List Value)

abbrev pub no_result : QueryResult
no_result = record { column_names = []; rows = [] }

-- The body of the loop: the first row gives the names of the columns.
unfoldable pub add_row : Bool → QueryResult → ExecRow → QueryResult
add_row first_row result row = record {
  column_names =
      if first_row then result.column_names ++ map (λ f. f.column) row else result.column_names;
  rows = result.rows ++ map (λ f. f.value) row ∷ [];
}

module _ {S : Type 0} (next : NextOf S) where
  unfoldable pub read_result_step :
      (Bool → QueryResult → S → Result QueryResult)
      → Bool
      → QueryResult
      → Option ExecRow × S
      → Result QueryResult
  unfolding add_row
  read_result_step continue first_row result (none, s) = ok result
  read_result_step continue first_row result (some row, s) =
      continue false (add_row first_row result row) s

  unfoldable pub read_result : ℕ → Bool → QueryResult → S → Result QueryResult
  unfolding read_result_step
  read_result zero first_row result s = throw out_of_fuel
  read_result (suc fuel) first_row result s =
      next s >>= read_result_step (read_result fuel) first_row result
