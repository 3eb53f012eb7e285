-- ===== src/Wal/Reopen.antt =====
-- src/wal.cpp: what a new process finds in the file.
use toy_relational_database.Prelude.{
  ==_iff, All, Bool, Bool-cases, Bytes, List, [], append-nil, append_assoc, arith, if◌then◌else◌,
  inl, inr, length, none, refl, sym, take, true, ℕ, ◌%◌, ◌*◌, ◌++◌, ◌+◌, ◌<◌, ◌==◌, ◌∙◌, ◌∷◌, ◌≡◌,
  ◌≤◌, ◌⊎◌,
}
use toy_relational_database.Page.{Page, page_size, set_lsn}
use toy_relational_database.Wal.{
  RecoveredPage, WalManager, wal_record_size, parse_record, next_lsn_after, open_wal, append_record,
}
use toy_relational_database.Wal.Record.{IsRecord}
use toy_relational_database.Wal.Log.{log_bytes, next_lsn_all, open_wal_lem}
use toy_relational_database.Wal.Append.{
  Below, Ascending, IsWal, append_whole-IsWal, append_cut-IsWal,
}

-- One call of AppendRecord, with what the operating system did.
pub record AppendCall : Type 0 where
  pub written : ℕ
  pub synced : Bool
  pub page_id : ℕ
  pub page : Page

-- The calls of a process, one after the other; an exception leaves the object usable.
pub run_appends : WalManager → List AppendCall → WalManager
run_appends w [] = w
run_appends w (c ∷ cs) = run_appends (append_record c.written c.synced w c.page_id c.page).wal cs

-- The records of the calls that wrote everything, from the LSN `next` on.
pub acknowledged : ℕ → List AppendCall → List RecoveredPage
acknowledged next [] = []
acknowledged next (c ∷ cs) =
    (if c.written == wal_record_size
      then record { page_id = c.page_id; lsn = next; page = set_lsn c.page (next % 4294967296) }
        ∷ []
      else [])
    ++ acknowledged (next + 1) cs

-- A call on a page; what was written whole was synced.
pub record IsCall (c : AppendCall) : Type 0 where
  pub page_length : length c.page ≡ page_size
  pub page_id_fits : c.page_id < 4294967296
  pub written_fits : c.written ≤ wal_record_size
  pub whole_synced : c.written ≡ wal_record_size → c.synced ≡ true

append-IsWal :
    (w : WalManager) (c : AppendCall)
    → IsWal w
    → IsCall c
    → w.next_lsn + 1 < 18446744073709551616
    → IsWal (append_record c.written c.synced w c.page_id c.page).wal
append-IsWal w c v h fits = elim (Bool-cases (c.written == wal_record_size)) [
  | inl e ↦
      let all : c.written ≡ wal_record_size = (==_iff c.written wal_record_size).0 e in
      rw (h.whole_synced all) (
        append_whole-IsWal c.written true w c.page_id c.page v h.page_length h.page_id_fits fits
          all)
  | inr e ↦
      append_cut-IsWal c.written c.synced w c.page_id c.page v h.page_length h.page_id_fits fits
        (let le = h.written_fits in ground arith)
]

-- One call adds its record if it was acknowledged, and always uses up an LSN.
append_effect :
    (w : WalManager) (c : AppendCall)
    → IsCall c
    → w.next_lsn + 1 < 18446744073709551616
    → let w' = (append_record c.written c.synced w c.page_id c.page).wal in
      (w'.valid_records
        ≡ w.valid_records
          ++ (if c.written == wal_record_size
              then record {
                page_id = c.page_id;
                lsn = w.next_lsn;
                page = set_lsn c.page (w.next_lsn % 4294967296);
              }
                ∷ []
              else []))
      × (w'.next_lsn ≡ w.next_lsn + 1)
unfolding append_record
append_effect w c h fits = elim (Bool-cases (c.written == wal_record_size)) [
  | inl e ↦
      let all : c.written ≡ wal_record_size = (==_iff c.written wal_record_size).0 e in
      rw (e, h.whole_synced all) (refl, omega (arith, fits))
  | inr e ↦ rw e (sym (append-nil w.valid_records), omega (arith, fits))
]

run_appends_lem :
    (w : WalManager) (calls : List AppendCall)
    → IsWal w
    → All IsCall calls
    → w.next_lsn + length calls < 18446744073709551616
    → IsWal (run_appends w calls)
      × ((run_appends w calls).valid_records ≡ w.valid_records ++ acknowledged w.next_lsn calls)
unfolding run_appends acknowledged
run_appends_lem w [] v h fits = (v, sym (append-nil w.valid_records))
run_appends_lem w (c ∷ cs) v h fits =
    let one : w.next_lsn + 1 < 18446744073709551616 = omega arith in
    let effect = append_effect w c h.0 one in
    let w' = (append_record c.written c.synced w c.page_id c.page).wal in
    let rest = run_appends_lem w' cs (append-IsWal w c v h.0 one) h.1 (omega (arith, effect.1)) in
    (rest.0, rest.1 ∙ rw (effect.0, effect.1) (append_assoc w.valid_records _ _))

-- A new process that opens the file of a log in order finds exactly its valid records.
reopen-valid_records :
    (w : WalManager) → IsWal w → (open_wal w.file).valid_records ≡ w.valid_records
reopen-valid_records w v =
    rw (v.layout, open_wal_lem w.valid_records v.torn v.records (inl v.torn_short))

-- The new process goes on with LSNs above all those in the file.
next_lsn_all_le : (next : ℕ) (rs : List RecoveredPage) → next ≤ next_lsn_all next rs
unfolding next_lsn_all next_lsn_after
next_lsn_all_le next [] = omega arith
next_lsn_all_le next (r ∷ rs) = omega (arith, next_lsn_all_le (next_lsn_after next r) rs)

next_lsn_all-Below :
    (next : ℕ) (rs : List RecoveredPage) → All IsRecord rs → Below (next_lsn_all next rs) rs
unfolding next_lsn_all next_lsn_after
next_lsn_all-Below next [] h = tt
next_lsn_all-Below next (r ∷ rs) h = (
  omega (arith, next_lsn_all_le (next_lsn_after next r) rs, h.0.lsn_fits),
  next_lsn_all-Below (next_lsn_after next r) rs h.1,
)

-- The log that a new process opens is in order.
reopen-IsWal : (w : WalManager) → IsWal w → IsWal (open_wal w.file)
reopen-IsWal w v =
    rw (v.layout, open_wal_lem w.valid_records v.torn v.records (inl v.torn_short))
      (record {
        torn = [];
        layout = sym (append-nil (log_bytes w.valid_records));
        torn_short = omega arith;
        offset = refl;
        records = v.records;
        below = next_lsn_all-Below 0 w.valid_records v.records;
        ascending = v.ascending;
      })

-- Durability. Let a process append whole pages to a well-formed log, each `pwrite` writing any part
-- of its record and each `fsync` after a whole write succeeding, as long as the LSNs stay below
-- 2^64, and go down after any of the calls. The next process finds the records that were there and
-- those of the calls that returned, all of them, in order and no others; and its log is well formed
-- again.
pub reopen-run_appends :
    (w : WalManager) (calls : List AppendCall)
    → IsWal w
    → All IsCall calls
    → w.next_lsn + length calls < 18446744073709551616
    → ((open_wal (run_appends w calls).file).valid_records
        ≡ w.valid_records ++ acknowledged w.next_lsn calls)
      × IsWal (open_wal (run_appends w calls).file)
reopen-run_appends w calls v h fits =
    let run = run_appends_lem w calls v h fits in
    (
      reopen-valid_records (run_appends w calls) run.0 ∙ run.1,
      reopen-IsWal (run_appends w calls) run.0,
    )

-- Opening truncates. Take a file of whole records of ascending LSNs with a rest that is shorter than
-- a record or fails the checks of one. Where a process opens it and appends a whole page, in a call
-- that returns and with an LSN below 2^64 - 1, the process after that finds the records and the
-- new one.
pub open_wal-append :
    (rs : List RecoveredPage) (tail : Bytes) (c : AppendCall)
    → All IsRecord rs
    → Ascending rs
    → (length tail < wal_record_size) ⊎ (parse_record (take wal_record_size tail) ≡ none)
    → IsCall c
    → c.written ≡ wal_record_size
    → next_lsn_all 0 rs + 1 < 18446744073709551616
    → (open_wal
        (append_record c.written c.synced
          (open_wal (log_bytes rs ++ tail))
          c.page_id
          c.page).wal.file).valid_records
      ≡ rs
        ++ record {
          page_id = c.page_id;
          lsn = next_lsn_all 0 rs;
          page = set_lsn c.page (next_lsn_all 0 rs % 4294967296);
        }
          ∷ []
open_wal-append rs tail c h up stop call whole fits =
    let opened = open_wal_lem rs tail h stop in
    let w : WalManager = record {
      file = log_bytes rs;
      next_offset = wal_record_size * length rs;
      next_lsn = next_lsn_all 0 rs;
      valid_records = rs;
    } in
    let v : IsWal w = record {
      torn = [];
      layout = sym (append-nil (log_bytes rs));
      torn_short = omega arith;
      offset = refl;
      records = h;
      below = next_lsn_all-Below 0 rs h;
      ascending = up;
    } in
    let equal : (c.written == wal_record_size) ≡ true =
      (==_iff c.written wal_record_size).1 whole in
    rw opened (
      reopen-valid_records (append_record c.written c.synced w c.page_id c.page).wal
        (append-IsWal w c v call fits)
      ∙ (rw equal at ((append_effect w c call fits).0)))
