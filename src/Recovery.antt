-- ===== src/Recovery.antt =====
-- include/recovery.h and src/recovery.cpp: the latest record of each page, written to the data file.
pub mod Latest
pub mod Replay
pub mod Crash
use toy_relational_database.Prelude.{
  Bool, List, Option, [], if◌then◌else◌, ltb, none, some, ℕ, ◌==◌, ◌∷◌,
}
use toy_relational_database.Errors.{Result, ok, throw}
use toy_relational_database.Wal.{RecoveredPage, WalManager}
use toy_relational_database.Disk.{DiskManager, Written, write_page, flush, refresh_next_page_id}

-- The entry of a page in the map `latest`, a list of records with distinct page ids.
unfoldable pub find_page : ℕ → List RecoveredPage → Option RecoveredPage
find_page p [] = none
find_page p (r ∷ rs) = if r.page_id == p then some r else find_page p rs

-- `latest[record.page_id] = &record`
unfoldable pub put_record : RecoveredPage → List RecoveredPage → List RecoveredPage
put_record r [] = r ∷ []
put_record r (x ∷ xs) = if x.page_id == r.page_id then r ∷ xs else x ∷ put_record r xs

-- One round of the first loop.
unfoldable pub note_record : List RecoveredPage → RecoveredPage → List RecoveredPage
unfolding find_page put_record
note_record latest r = elim (find_page r.page_id latest) [
  | none ↦ put_record r latest
  | some old ↦ if ltb old.lsn r.lsn then put_record r latest else latest
]

unfoldable pub latest_from : List RecoveredPage → List RecoveredPage → List RecoveredPage
unfolding note_record
latest_from latest [] = latest
latest_from latest (r ∷ rs) = latest_from (note_record latest r) rs

-- The second loop, for the number of bytes that `pwrite` writes of each page. An exception of
-- WritePage ends it; what was written before stays.
unfoldable pub replay_step :
    (DiskManager → Result (Unit {0}) × DiskManager) → Written → Result (Unit {0}) × DiskManager
replay_step continue w = elim w.result [ ok _ ↦ continue w.disk | throw e ↦ (throw e, w.disk) ]

unfoldable pub replay : (ℕ → ℕ) → List RecoveredPage → DiskManager → Result (Unit {0}) × DiskManager
unfolding replay_step
replay written [] disk = (ok tt, disk)
replay written (r ∷ rs) disk =
    replay_step (replay written rs) (write_page (written r.page_id) disk r.page_id r.page)

-- Flush and RefreshNextPageIdAfterRecovery behind the loop.
unfoldable pub finish_recovery :
    Bool → Result (Unit {0}) × DiskManager → Result (Unit {0}) × DiskManager
finish_recovery synced (ok _, disk) = elim (flush synced) [
  | ok _ ↦ (ok tt, refresh_next_page_id disk)
  | throw e ↦ (throw e, disk)
]
finish_recovery synced (throw e, disk) = (throw e, disk)

-- RunRecovery. `order` is the order in which the `unordered_map` is iterated over.
unfoldable pub run_recovery :
    (List RecoveredPage → List RecoveredPage)
    → (ℕ → ℕ)
    → Bool
    → DiskManager
    → WalManager
    → Result (Unit {0}) × DiskManager
unfolding latest_from replay finish_recovery
run_recovery order written synced disk wal =
    finish_recovery synced (replay written (order (latest_from [] wal.valid_records)) disk)
