-- ===== src/Engine/Select.antt =====
-- src/engine.cpp, ExecuteSelect: the result of a query.
use toy_relational_database.Prelude.{
  Bytes, List, [], ap, append-nil, append_assoc, arith, false, length, map, refl, suc, true, zero,
  ℕ, ◌++◌, ◌<◌, ◌∷◌, ◌≡◌,
}
use toy_relational_database.Errors.{ok, ◌>>=◌}
use toy_relational_database.Schema.{Value}
use toy_relational_database.ExecRow.{ExecRow}
use toy_relational_database.Executor.{NextOf}
use toy_relational_database.Executor.Streams.{Yields, done, more, values_of, names_of}
use toy_relational_database.Engine.{QueryResult, no_result, add_row, read_result_step, read_result}

-- The names that the result shows.
abbrev pub header_of : List ExecRow → List Bytes
header_of [] = []
header_of (row ∷ rows) = names_of row

module _ {S : Type 0} (next : NextOf S) where
  -- Behind the first row, the rounds only add rows.
  read_result-rest :
      (fuel : ℕ) (result : QueryResult) {s : S} {rows : List ExecRow}
      → Yields next s rows
      → length rows < fuel
      → read_result next fuel false result s
        ≡ ok (record {
          column_names = result.column_names;
          rows = result.rows ++ map values_of rows;
        })
  unfolding read_result read_result_step add_row
  read_result-rest zero result y h = absurd (omega arith)
  read_result-rest (suc fuel) result (done e) h = rw (e, ◌>>=◌, append-nil result.rows) refl
  read_result-rest (suc fuel) result (more {r = r} {rs = rs} e y) h =
      rw (e, ◌>>=◌, read_result-rest fuel (add_row false result r) y (omega arith))
        (ap
          (λ (x : List (List Value)). ok (record { column_names = result.column_names; rows = x }))
          (append_assoc result.rows (values_of r ∷ []) (map values_of rs)))

  -- Where the plan hands out these rows and then its end, ExecuteSelect returns them all, in their order, as
  -- the lists of their values, under the column names of the first of them, or none where there is no row.
  -- More rounds than rows are enough.
  pub read_result-Yields :
      (fuel : ℕ) {s : S} {rows : List ExecRow}
      → Yields next s rows
      → length rows < fuel
      → read_result next fuel true no_result s
        ≡ ok (record { column_names = header_of rows; rows = map values_of rows })
  unfolding read_result read_result_step add_row
  read_result-Yields zero y h = absurd (omega arith)
  read_result-Yields (suc fuel) (done e) h = rw (e, ◌>>=◌) refl
  read_result-Yields (suc fuel) (more {r = r} e y) h =
      rw (e, ◌>>=◌, read_result-rest fuel (add_row true no_result r) y (omega arith)) refl
