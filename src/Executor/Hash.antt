-- ===== src/Executor/Hash.antt =====
-- src/physical_plan.cpp, PhysicalHashJoin: the rows of a join.
use toy_relational_database.Prelude.{
  All, Bytes, List, Option, [], arith, if◌then◌else◌, length, none, refl, some, suc, zero, ℕ, ◌++◌,
  ◌+◌, ◌<◌, ◌∷◌, ◌≡◌, ◌≤◌,
}
use mathlib.Core.List.{Perm}
use toy_relational_database.Errors.{ok, throw, ◌>>=◌}
use toy_relational_database.Schema.{Value, value_eq}
use toy_relational_database.ExecRow.{ExecRow, find}
use toy_relational_database.Executor.{
  NextOf, HashState, hash_build, hash_build_step, hash_open, hash_next,
}
use toy_relational_database.Executor.Streams.{Yields, done, more}
use toy_relational_database.Executor.NestedLoop.{pair_rows}
use toy_relational_database.Executor.Probe.{hash_rows, hash_rows-Yields}

-- The rows whose `column` has the value `key`.
unfoldable pub with_key : Option Bytes → Bytes → Value → List ExecRow → List ExecRow
with_key table column key [] = []
with_key table column key (r ∷ rs) =
    let rest = with_key table column key rs in
    elim (find table column r) [ throw x ↦ rest | ok v ↦ if value_eq key v then r ∷ rest else rest ]

-- The entries of a table whose key is `key`, without it.
unfoldable pub under_key : Value → List (Value × ExecRow) → List ExecRow
under_key key [] = []
under_key key (b ∷ bs) =
    let rest = under_key key bs in if value_eq key b.0 then b.1 ∷ rest else rest

-- The column resolves in the row.
abbrev pub Resolves : Option Bytes → Bytes → ExecRow → Type 0
Resolves table column row = (v : Value) × (find table column row ≡ ok v)

-- What a join on the equality of two columns is to hand out for the probe rows: each of them with the
-- rows of the build side that have its value, in some order.
pub data EquiJoined (build_table : Option Bytes) (build_column : Bytes) (table : Option Bytes)
    (column : Bytes) (rows : List ExecRow) : List ExecRow → List ExecRow → Type 0 where
  no_probe : EquiJoined build_table build_column table column rows [] []
  probed :
      {p : ExecRow} {ps ms out : List ExecRow} {key : Value}
      → find table column p ≡ ok key
      → Perm ms (with_key build_table build_column key rows)
      → EquiJoined build_table build_column table column rows ps out
      → EquiJoined build_table build_column table column rows (p ∷ ps) (pair_rows p ms ++ out)

-- Open puts every build row under its key.
hash_build-with_key :
    {B : Type 0} (build_next : NextOf B) (table : Option Bytes) (column : Bytes) (fuel : ℕ) {b : B}
    {rows : List ExecRow}
    → Yields build_next b rows
    → length rows < fuel
    → All (Resolves table column) rows
    → (built : List (Value × ExecRow)) × (hash_build build_next table column fuel b ≡ ok built)
      × ((key : Value) → under_key key built ≡ with_key table column key rows)
unfolding hash_build hash_build_step under_key with_key
hash_build-with_key build_next table column zero y enough h = absurd (omega arith)
hash_build-with_key build_next table column (suc fuel) (done e) enough h =
    ([], rw (e, ◌>>=◌), λ key. refl)
hash_build-with_key build_next table column (suc fuel) (more {r = r} e y) enough h =
    let (v, found) = h.0 in
    let (built, made, same) =
      hash_build-with_key build_next table column fuel y (omega arith) h.1 in
    (
      (v, r) ∷ built,
      rw (e, ◌>>=◌, found, ◌>>=◌, made, ◌>>=◌),
      λ key. rw (found, with_key, under_key, same key) refl,
    )

first_call :
    {S : Type 0} {next : NextOf S} {s : S} {ps : List ExecRow}
    → Yields next s ps
    → (first : Option ExecRow × S) × (next s ≡ ok first)
first_call (done {s' = s'} e) = ((none, s'), e)
first_call (more {s' = s'} {r = r} e y) = ((some r, s'), e)

hash_open-opened :
    {S : Type 0} (equal_range : Value → List (Value × ExecRow) → List ExecRow) (next : NextOf S)
    (built : List (Value × ExecRow)) {s : S} {ps : List ExecRow}
    → Yields next s ps
    → (st : HashState S) × (hash_open equal_range next (ok built) s ≡ ok st)
hash_open-opened equal_range next built {s} y =
    let (first, e) = first_call y in
    (
      record {
        probe_side = first.1;
        build_table_rows = built;
        matches = [];
        match_cursor = 0;
        current_probe = first.0;
      },
      unfold hash_open in rw (e, ◌>>=◌) refl,
    )

module _ (equal_range : Value → List (Value × ExecRow) → List ExecRow)
    (is_range : (key : Value) (t : List (Value × ExecRow))
      → Perm (equal_range key t) (under_key key t))
    (build_table : Option Bytes) (build_column : Bytes) (table : Option Bytes) (column : Bytes)
    (rows : List ExecRow) where
  hash_rows-EquiJoined :
      (built : List (Value × ExecRow)) (ps : List ExecRow)
      → ((key : Value) → under_key key built ≡ with_key build_table build_column key rows)
      → All (Resolves table column) ps
      → (out : List ExecRow) × (hash_rows equal_range table column built ps ≡ ok out)
        × EquiJoined build_table build_column table column rows ps out
  unfolding hash_rows
  hash_rows-EquiJoined built [] same h = ([], refl, no_probe)
  hash_rows-EquiJoined built (p ∷ ps) same h =
      let (key, found) = h.0 in
      let (out, rest, joined) = hash_rows-EquiJoined built ps same h.1 in
      (
        pair_rows p (equal_range key built) ++ out,
        rw (found, ◌>>=◌, rest, ◌>>=◌),
        probed found (rw (← same key) (is_range key built)) joined,
      )

  -- A hash join whose inputs hand out the rows of the two sides, its key columns resolving in all of
  -- them, can be opened, and hands out, for each row of the probe side in their order, that row with
  -- exactly the rows of the build side whose key column equals its own, in some order, given that
  -- equal_range returns exactly the entries under a key. More rounds than the build side has rows are enough
  -- for Open, and one round more than the probe side has rows for each call of Next.
  pub probe-Yields :
      {B S : Type 0} (build_next : NextOf B) (next : NextOf S) (build_fuel fuel : ℕ) {b : B} {s : S}
      {ps : List ExecRow}
      → Yields build_next b rows
      → Yields next s ps
      → length rows < build_fuel
      → length ps + 1 ≤ fuel
      → All (Resolves build_table build_column) rows
      → All (Resolves table column) ps
      → (st : HashState S) × (out : List ExecRow) × (hash_open equal_range next
            (hash_build build_next build_table build_column build_fuel b)
            s
          ≡ ok st)
        × Yields (hash_next equal_range next table column fuel) st out
        × EquiJoined build_table build_column table column rows ps out
  probe-Yields {S = S} build_next next build_fuel fuel {s = s} {ps = ps} y z enough k h g =
      let (built, made, same) =
        hash_build-with_key build_next build_table build_column build_fuel y enough h in
      let (out, joined, spec) = hash_rows-EquiJoined built ps same g in
      let (st, opened) = hash_open-opened equal_range next built z in
      (
        st,
        out,
        rw made opened,
        hash_rows-Yields equal_range table column next fuel built st out z opened k joined,
        spec,
      )
