-- ===== src/Executor/NestedLoop.antt =====
-- src/physical_plan.cpp, PhysicalNestedLoopJoin: the rows of a join.
use toy_relational_database.Prelude.{
  List, [], arith, drop, false, get_elem?, inl, inr, length, none, refl, some, suc, sym, true, zero,
  ℕ, ◌++◌, ◌+◌, ◌<◌, ◌∙◌, ◌∷◌, ◌≡◌, ◌≤◌,
}
use toy_relational_database.Errors.{ok, ◌>>=◌, bind-eq-ok, Result-cases}
use toy_relational_database.Ast.{Expr}
use toy_relational_database.ExecRow.{ExecRow}
use toy_relational_database.ExprEval.{eval_bool}
use toy_relational_database.Executor.{
  NextOf, NestedLoopState, nested_loop_open, nested_loop_round, nested_loop_next,
}
use toy_relational_database.Executor.Streams.{
  Yields, done, more, Answers, last, step, Answers-Yields, filter_rows, drop-cases,
}

-- One left row with each right row.
unfoldable pub pair_rows : ExecRow → List ExecRow → List ExecRow
pair_rows l [] = []
pair_rows l (r ∷ rs) = (l ++ r) ∷ pair_rows l rs

-- Each left row with each right row.
unfoldable pub cross : List ExecRow → List ExecRow → List ExecRow
unfolding pair_rows
cross [] rs = []
cross (l ∷ ls) rs = pair_rows l rs ++ cross ls rs

-- The rounds that the loops of Next make for these left rows.
unfoldable pub rounds : ℕ → List ExecRow → ℕ
rounds width [] = 1
rounds width (l ∷ ls) = (width + 1) + rounds width ls

module _ {S : Type 0} (next : NextOf S) where
  round_end :
      (condition : Expr) (f : ℕ) (s : S) (rs : List ExecRow)
      → 0 < f
      → nested_loop_next next condition f
          (record { left = s; current_left = none; right_rows = rs; right_cursor = 0 })
        ≡ ok (none, record { left = s; current_left = none; right_rows = rs; right_cursor = 0 })
  unfolding nested_loop_next
  round_end condition zero s rs h = absurd (omega arith)
  round_end condition (suc f) s rs h = refl

  join-Answers :
      (condition : Expr) (fuel f : ℕ) (rs : List ExecRow) {s : S} {ls : List ExecRow} (l : ExecRow)
      (rest : List ExecRow) (cursor : ℕ) (out : List ExecRow)
      → Yields next s ls
      → drop cursor rs ≡ rest
      → length rest + 1 + rounds (length rs) ls ≤ f
      → length rest + 1 + rounds (length rs) ls ≤ fuel
      → filter_rows condition (pair_rows l rest ++ cross ls rs) ≡ ok out
      → Answers
          (nested_loop_next next condition fuel)
          (nested_loop_next next condition f
            (record { left = s; current_left = some l; right_rows = rs; right_cursor = cursor }))
          out
  unfolding nested_loop_next nested_loop_round pair_rows cross rounds filter_rows
  join-Answers condition fuel zero rs l rest cursor out y d h k e = absurd (omega arith)
  join-Answers condition fuel (suc f) rs l [] cursor out (done {s' = s'} e₀) d h k e =
      let empty : out ≡ [] = cc in
      let past : get_elem? rs cursor ≡ none = elim (drop-cases cursor rs) [
        | inl (a, b) ↦ a
        | inr (x, a, b) ↦ absurd (cc)
      ] in
      rw (empty, past, nested_loop_round, e₀, ◌>>=◌, round_end condition f s' rs (omega arith))
        (last refl)
  join-Answers condition fuel (suc f) rs l [] cursor out (more {s' = s'} {r = l'} {rs = ls} e₀ y) d
        h k e =
      let past : get_elem? rs cursor ≡ none = elim (drop-cases cursor rs) [
        | inl (a, b) ↦ a
        | inr (x, a, b) ↦ absurd (cc)
      ] in
      rw (past, nested_loop_round, e₀, ◌>>=◌)
        (join-Answers condition fuel f rs l' rs 0 out y refl (omega arith) (omega arith) e)
  join-Answers condition fuel (suc f) rs {s = s} {ls = ls} l (r ∷ rest) cursor out y d h k e =
      elim (drop-cases cursor rs) [
        | inl (a, b) ↦ absurd (cc)
        | inr (x, a, b) ↦
            let same : x ∷ drop (suc cursor) rs ≡ r ∷ rest = sym b ∙ d in
            let here : x ≡ r = cc in
            let forward : cursor + 1 ≡ suc cursor = omega arith in
            let behind : drop (cursor + 1) rs ≡ rest = rw forward cc in
            elim (Result-cases (eval_bool condition (l ++ r))) [
              | inl (true, ev) ↦
                  let (out', others, found) =
                    bind-eq-ok (filter_rows condition (pair_rows l rest ++ cross ls rs))
                      (λ o. ok ((l ++ r) ∷ o)) (rw (ev, ◌>>=◌) at e) in
                  let whole : out ≡ (l ++ r) ∷ out' = cc in
                  rw (a, here, nested_loop_round, ev, ◌>>=◌, whole)
                    (step refl (
                      Answers-Yields (nested_loop_next next condition fuel) _ (
                        join-Answers condition fuel fuel rs l rest (cursor + 1) out' y behind
                          (omega arith) (omega arith) others)))
              | inl (false, ev) ↦
                  rw (a, here, nested_loop_round, ev, ◌>>=◌)
                    (join-Answers condition fuel f rs l rest (cursor + 1) out y behind (omega arith)
                      (omega arith) (rw (ev, ◌>>=◌) at e))
              | inr (z, ev) ↦ absurd (cc (rw (ev, ◌>>=◌) at e))
            ]
      ]

  -- Where no evaluation throws, a nested loop join that was opened on its inputs hands out exactly the
  -- concatenations of a left and a right row that satisfy the condition, in the order of the left
  -- rows and for each of them of the right ones. The rounds that `rounds` counts for the whole join
  -- are enough for each call.
  pub join-Yields :
      (condition : Expr) (fuel : ℕ) (rs : List ExecRow) {s : S} {ls : List ExecRow}
      (st : NestedLoopState S) (out : List ExecRow)
      → Yields next s ls
      → nested_loop_open next (ok rs) s ≡ ok st
      → rounds (length rs) ls ≤ fuel
      → filter_rows condition (cross ls rs) ≡ ok out
      → Yields (nested_loop_next next condition fuel) st out
  unfolding nested_loop_open cross rounds filter_rows
  join-Yields condition fuel rs st out (done {s' = s'} e₀) o k e =
      let empty : out ≡ [] = cc in
      let opened : st
          ≡ record { left = s'; current_left = none; right_rows = rs; right_cursor = 0 } =
        cc (rw (e₀, ◌>>=◌) at o) in
      rw (empty, opened)
        (done {s' = record { left = s'; current_left = none; right_rows = rs; right_cursor = 0 }}
          (round_end condition fuel s' rs (omega arith)))
  join-Yields condition fuel rs st out (more {s' = s'} {r = l} {rs = ls} e₀ y) o k e =
      let opened : st
          ≡ record { left = s'; current_left = some l; right_rows = rs; right_cursor = 0 } =
        cc (rw (e₀, ◌>>=◌) at o) in
      rw opened (
        Answers-Yields (nested_loop_next next condition fuel) _
          (join-Answers condition fuel fuel rs l rs 0 out y refl (omega arith) (omega arith) e))
