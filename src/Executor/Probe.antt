-- ===== src/Executor/Probe.antt =====
-- src/physical_plan.cpp, PhysicalHashJoin: the probe side against the table that Open has built.
use toy_relational_database.Prelude.{
  Bytes, List, Option, [], arith, drop, get_elem?, inl, inr, length, none, refl, some, suc, sym,
  zero, ℕ, ◌++◌, ◌+◌, ◌<◌, ◌∙◌, ◌∷◌, ◌≡◌, ◌≢◌, ◌≤◌,
}
use toy_relational_database.Errors.{Result, ok, ◌>>=◌, bind-eq-ok}
use toy_relational_database.Schema.{Value}
use toy_relational_database.ExecRow.{ExecRow, find}
use toy_relational_database.Executor.{
  NextOf, HashState, hash_open, hash_matches, hash_round, hash_next,
}
use toy_relational_database.Executor.Streams.{
  Yields, done, more, Answers, last, step, Answers-Yields, drop-cases,
}
use toy_relational_database.Executor.NestedLoop.{pair_rows}

module _ (equal_range : Value → List (Value × ExecRow) → List ExecRow) (table : Option Bytes)
    (column : Bytes) where
  -- Each probe row with the build rows that the table has under its key.
  unfoldable pub hash_rows : List (Value × ExecRow) → List ExecRow → Result (List ExecRow)
  unfolding pair_rows
  hash_rows built [] = ok []
  hash_rows built (p ∷ ps) = find table column p >>= λ key.
      hash_rows built ps >>= λ out. ok (pair_rows p (equal_range key built) ++ out)

  hash_rows-cons :
      (built : List (Value × ExecRow)) (p : ExecRow) (ps out : List ExecRow)
      → hash_rows built (p ∷ ps) ≡ ok out
      → (key : Value) × (behind : List ExecRow) × (find table column p ≡ ok key)
        × (hash_rows built ps ≡ ok behind)
        × (out ≡ pair_rows p (equal_range key built) ++ behind)
  unfolding hash_rows
  hash_rows-cons built p ps out h =
      let (key, found, tail) =
        bind-eq-ok (find table column p)
          (λ key. hash_rows built ps >>= λ out. ok (pair_rows p (equal_range key built) ++ out))
          h in
      let (behind, rest, whole) =
        bind-eq-ok (hash_rows built ps) (λ out. ok (pair_rows p (equal_range key built) ++ out))
          tail in
      (key, behind, found, rest, cc)

  module _ {S : Type 0} (next : NextOf S) where
    abbrev at_probe : List (Value × ExecRow) → S → Option ExecRow → List ExecRow → ℕ → HashState S
    at_probe built s p matches cursor = record {
      probe_side = s;
      build_table_rows = built;
      matches = matches;
      match_cursor = cursor;
      current_probe = p;
    }

    probe_end :
        (f : ℕ) (built : List (Value × ExecRow)) (s : S)
        → 0 < f
        → hash_next equal_range next table column f (at_probe built s none [] 0)
          ≡ ok (none, at_probe built s none [] 0)
    unfolding hash_next
    probe_end zero built s h = absurd (omega arith)
    probe_end (suc f) built s h = refl

    -- Matches that were found are kept.
    kept_matches :
        (built : List (Value × ExecRow)) (s : S) (p : ExecRow) (ms : List ExecRow) (k : ℕ)
        → ms ≢ []
        → hash_matches equal_range next table column (at_probe built s (some p) ms k) p ≡ ok ms
    unfolding hash_matches
    kept_matches built s p [] k h = absurd (h refl)
    kept_matches built s p (m ∷ ms) k h = refl

    fresh_matches :
        (built : List (Value × ExecRow)) (s : S) (p : ExecRow) (key : Value)
        → find table column p ≡ ok key
        → hash_matches equal_range next table column (at_probe built s (some p) [] 0) p
          ≡ ok (equal_range key built)
    unfolding hash_matches
    fresh_matches built s p key e = rw (e, ◌>>=◌)

    probe-Answers :
        (fuel f : ℕ) (built : List (Value × ExecRow)) {s : S} {ps : List ExecRow} (p : ExecRow)
        (cache ms rest : List ExecRow) (k : ℕ) (out : List ExecRow)
        → Yields next s ps
        → hash_matches equal_range next table column (at_probe built s (some p) cache k) p ≡ ok ms
        → drop k ms ≡ rest
        → length ps + 2 ≤ f
        → length ps + 2 ≤ fuel
        → hash_rows built ps ≡ ok out
        → Answers
            (hash_next equal_range next table column fuel)
            (hash_next equal_range next table column f (at_probe built s (some p) cache k))
            (pair_rows p rest ++ out)
    unfolding hash_next hash_round pair_rows hash_rows
    probe-Answers fuel zero built p cache ms rest k out y found d h g e = absurd (omega arith)
    probe-Answers fuel (suc f) built p cache ms [] k out (done {s' = s'} e₀) found d h g e =
        let past : get_elem? ms k ≡ none = elim (drop-cases k ms) [
          | inl (a, b) ↦ a
          | inr (x, a, b) ↦ absurd (cc)
        ] in
        let empty : out ≡ [] = cc in
        rw (found, ◌>>=◌, past, hash_round, e₀, ◌>>=◌, probe_end f built s' (omega arith), empty)
          (last refl)
    probe-Answers fuel (suc f) built p cache ms [] k out (more {s' = s'} {r = q} {rs = qs} e₀ y)
          found d h g e =
        let past : get_elem? ms k ≡ none = elim (drop-cases k ms) [
          | inl (a, b) ↦ a
          | inr (x, a, b) ↦ absurd (cc)
        ] in
        let (key, behind, has, others, whole) = hash_rows-cons built q qs out e in
        rw (found, ◌>>=◌, past, hash_round, e₀, ◌>>=◌, whole)
          (probe-Answers fuel f built q [] (equal_range key built) (equal_range key built) 0 behind
            y (fresh_matches built s' q key has) refl (omega arith) (omega arith) others)
    probe-Answers fuel (suc f) built {s = s} {ps = ps} p cache ms (m ∷ rest) k out y found d h g e =
        elim (drop-cases k ms) [
          | inl (a, b) ↦ absurd (cc)
          | inr (x, a, b) ↦
              let same : x ∷ drop (suc k) ms ≡ m ∷ rest = sym b ∙ d in
              let here : x ≡ m = cc in
              let forward : k + 1 ≡ suc k = omega arith in
              let behind : drop (k + 1) ms ≡ rest = rw forward cc in
              rw (found, ◌>>=◌, a, here, hash_round)
                (step refl (
                  Answers-Yields (hash_next equal_range next table column fuel) _ (
                    probe-Answers fuel fuel built p ms ms rest (k + 1) out y
                      (kept_matches built s p ms (k + 1) (λ e. cc (rw e at a))) behind (omega arith)
                      (omega arith) e)))
        ]

    pub hash_rows-Yields :
        (fuel : ℕ) (built : List (Value × ExecRow)) {s : S} {ps : List ExecRow} (st : HashState S)
        (out : List ExecRow)
        → Yields next s ps
        → hash_open equal_range next (ok built) s ≡ ok st
        → length ps + 1 ≤ fuel
        → hash_rows built ps ≡ ok out
        → Yields (hash_next equal_range next table column fuel) st out
    unfolding hash_open hash_rows
    hash_rows-Yields fuel built st out (done {s' = s'} e₀) o k e =
        let empty : out ≡ [] = cc in
        let opened : st ≡ at_probe built s' none [] 0 = cc (rw (e₀, ◌>>=◌) at o) in
        rw (empty, opened)
          (done {s' = at_probe built s' none [] 0} (probe_end fuel built s' (omega arith)))
    hash_rows-Yields fuel built st out (more {s' = s'} {r = p} {rs = ps} e₀ y) o k e =
        let opened : st ≡ at_probe built s' (some p) [] 0 = cc (rw (e₀, ◌>>=◌) at o) in
        let (key, behind, has, others, whole) = hash_rows-cons built p ps out e in
        rw (opened, whole)
          (Answers-Yields (hash_next equal_range next table column fuel) _ (
            probe-Answers fuel fuel built p [] (equal_range key built) (equal_range key built) 0
              behind y (fresh_matches built s' p key has) refl (omega arith) (omega arith) others))
