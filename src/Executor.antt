-- ===== src/Executor.antt =====
-- src/physical_plan.cpp, the operators: Open, Next and the state between the calls. The input of an
-- operator is any `next` on a state of its own, so operators stack as the program's plans do.
-- Loops take the rounds that they may make; the theorems say how many are enough.
pub mod Streams
pub mod NestedLoop
pub mod Probe
pub mod Hash
use toy_relational_database.Prelude.{
  Bool, Bytes, List, Option, [], get_elem?, if◌then◌else◌, none, some, suc, zero, ℕ, ◌++◌, ◌+◌,
  ◌==◌, ◌∷◌,
}
use toy_relational_database.Errors.{Result, ok, throw, out_of_fuel, ◌>>=◌}
use toy_relational_database.Ast.{Expr, ColumnDef, SelectItem}
use toy_relational_database.Schema.{Value, TableSchema}
use toy_relational_database.ExecRow.{Field, ExecRow, find}
use toy_relational_database.ExprEval.{eval_bool}

-- Next of an operator: a row or the end, and the state behind it.
abbrev pub NextOf : Type 0 → Type 0
NextOf S = S → Result (Option ExecRow × S)

-- PhysicalScan, after Open.
pub record ScanState : Type 0 where
  pub rows : List (List Value)
  pub cursor : ℕ

-- The fields of a row, tagged with the alias.
unfoldable pub tag_fields : Bytes → List ColumnDef → List Value → ExecRow
tag_fields alias (c ∷ cs) (v ∷ vs) =
    record { table = alias; column = c.name; value = v } ∷ tag_fields alias cs vs
tag_fields alias _ _ = []

unfoldable pub scan_next : TableSchema → Bytes → NextOf ScanState
unfolding tag_fields
scan_next schema alias s = elim (get_elem? s.rows s.cursor) [
  | none ↦ ok (none, s)
  | some values ↦
      ok (some (tag_fields alias schema.columns values), record s { cursor = s.cursor + 1 })
]

-- The loop of PhysicalProject::Next over the select list.
unfoldable pub project_fields : List SelectItem → ExecRow → Result ExecRow
project_fields [] row = ok []
project_fields (item ∷ items) row = find item.table item.column row >>= λ v.
    project_fields items row >>= λ fields. ok (
      record {
        table = elim item.table [ none ↦ [] | some t ↦ t ];
        column = elim item.alias [ none ↦ item.column | some a ↦ a ];
        value = v;
      }
      ∷ fields)

unfoldable pub project_row : Bool → List SelectItem → ExecRow → Result ExecRow
unfolding project_fields
project_row is_star items row = if is_star then ok row else project_fields items row

-- `while ((r = next()).has_value()) rows.push_back(*r);`, by which the nested loop join reads its right input.
unfoldable pub drain_step :
    {S : Type 0} → (S → Result (List ExecRow)) → Option ExecRow × S → Result (List ExecRow)
drain_step continue (none, s) = ok []
drain_step continue (some r, s) = continue s >>= λ rs. ok (r ∷ rs)

module _ {S : Type 0} (next : NextOf S) where
  unfoldable pub drain : ℕ → S → Result (List ExecRow)
  unfolding drain_step
  drain zero s = throw out_of_fuel
  drain (suc fuel) s = next s >>= drain_step (drain fuel)

  -- PhysicalFilter::Next
  unfoldable pub filter_step :
      Expr → (S → Result (Option ExecRow × S)) → Option ExecRow × S → Result (Option ExecRow × S)
  filter_step predicate continue (none, s) = ok (none, s)
  filter_step predicate continue (some row, s) =
      eval_bool predicate row >>= λ b. if b then ok (some row, s) else continue s

  unfoldable pub filter_next : Expr → ℕ → NextOf S
  unfolding filter_step
  filter_next predicate zero s = throw out_of_fuel
  filter_next predicate (suc fuel) s = next s >>= filter_step predicate (filter_next predicate fuel)

  -- PhysicalProject::Next
  unfoldable pub project_step :
      Bool → List SelectItem → Option ExecRow × S → Result (Option ExecRow × S)
  project_step is_star items (none, s) = ok (none, s)
  project_step is_star items (some row, s) =
      project_row is_star items row >>= λ out. ok (some out, s)

  unfoldable pub project_next : Bool → List SelectItem → NextOf S
  unfolding project_step project_row
  project_next is_star items s = next s >>= project_step is_star items

-- PhysicalNestedLoopJoin, after Open.
pub record NestedLoopState (S : Type 0) : Type 0 where
  pub left : S
  pub current_left : Option ExecRow
  pub right_rows : List ExecRow
  pub right_cursor : ℕ

module _ {S : Type 0} (next : NextOf S) where
  -- Open: the right input is read to its end, then the first left row.
  unfoldable pub nested_loop_open : Result (List ExecRow) → S → Result (NestedLoopState S)
  nested_loop_open right left = right >>= λ rows. next left >>= λ first.
      ok (record { left = first.1; current_left = first.0; right_rows = rows; right_cursor = 0 })

  -- One round of the two loops of Next: a candidate pair, or the next left row.
  unfoldable pub nested_loop_round :
      Expr
      → (NestedLoopState S → Result (Option ExecRow × NestedLoopState S))
      → NestedLoopState S
      → ExecRow
      → Option ExecRow
      → Result (Option ExecRow × NestedLoopState S)
  nested_loop_round condition continue st l (some r) =
      let st' : NestedLoopState S = record st { right_cursor = st.right_cursor + 1 } in
      eval_bool condition (l ++ r) >>= λ b. if b then ok (some (l ++ r), st') else continue st'
  nested_loop_round condition continue st l none = next st.left >>= λ more.
      continue (record st { left = more.1; current_left = more.0; right_cursor = 0 })

  unfoldable pub nested_loop_next : Expr → ℕ → NextOf (NestedLoopState S)
  unfolding nested_loop_round
  nested_loop_next condition zero st = throw out_of_fuel
  nested_loop_next condition (suc fuel) st = elim st.current_left [
    | none ↦ ok (none, st)
    | some l ↦
        nested_loop_round condition (nested_loop_next condition fuel) st l
          (get_elem? st.right_rows st.right_cursor)
  ]

-- PhysicalHashJoin, after Open. The `unordered_multimap` is the list of what was emplaced;
-- `equal_range` gives the rows of a key in the order of the program's library.
pub record HashState (S : Type 0) : Type 0 where
  pub probe_side : S
  pub build_table_rows : List (Value × ExecRow)
  pub matches : List ExecRow
  pub match_cursor : ℕ
  pub current_probe : Option ExecRow

-- The loop of Open over the build side: each row goes under its key as it comes.
module _ {B : Type 0} (build_next : NextOf B) (table : Option Bytes) (column : Bytes) where
  unfoldable pub hash_build_step :
      (B → Result (List (Value × ExecRow))) → Option ExecRow × B → Result (List (Value × ExecRow))
  hash_build_step continue (none, b) = ok []
  hash_build_step continue (some r, b) =
      find table column r >>= λ key. continue b >>= λ rest. ok ((key, r) ∷ rest)

  unfoldable pub hash_build : ℕ → B → Result (List (Value × ExecRow))
  unfolding hash_build_step
  hash_build zero b = throw out_of_fuel
  hash_build (suc fuel) b = build_next b >>= hash_build_step (hash_build fuel)

module _ {S : Type 0} (equal_range : Value → List (Value × ExecRow) → List ExecRow)
    (next : NextOf S) where
  -- Open, given what its loop makes.
  unfoldable pub hash_open : Result (List (Value × ExecRow)) → S → Result (HashState S)
  hash_open build probe = build >>= λ table. next probe >>= λ first. ok (record {
    probe_side = first.1;
    build_table_rows = table;
    matches = [];
    match_cursor = 0;
    current_probe = first.0;
  })

  -- `match_cursor_ == 0 && matches.empty()`
  unfoldable pub hash_matches : Option Bytes → Bytes → HashState S → ExecRow → Result (List ExecRow)
  hash_matches probe_table probe_column st p = elim st.matches [
    | [] ↦
        if st.match_cursor == 0
        then (find probe_table probe_column p >>= λ key. ok (equal_range key st.build_table_rows))
        else ok []
    | m ∷ ms ↦ ok (m ∷ ms)
  ]

  -- One round of Next, given the matches of the current probe row.
  unfoldable pub hash_round :
      (HashState S → Result (Option ExecRow × HashState S))
      → HashState S
      → ExecRow
      → List ExecRow
      → Option ExecRow
      → Result (Option ExecRow × HashState S)
  hash_round continue st p matches (some m) =
      ok (some (p ++ m), record st { matches = matches; match_cursor = st.match_cursor + 1 })
  hash_round continue st p matches none = next st.probe_side >>= λ more.
      continue
        (record st { probe_side = more.1; current_probe = more.0; matches = []; match_cursor = 0 })

  unfoldable pub hash_next : Option Bytes → Bytes → ℕ → NextOf (HashState S)
  unfolding hash_matches hash_round
  hash_next probe_table probe_column zero st = throw out_of_fuel
  hash_next probe_table probe_column (suc fuel) st = elim st.current_probe [
    | none ↦ ok (none, st)
    | some p ↦ hash_matches probe_table probe_column st p >>= λ matches.
        hash_round (hash_next probe_table probe_column fuel) st p matches
          (get_elem? matches st.match_cursor)
  ]
