-- ===== src/Recovery/Crash.antt =====
-- src/recovery.cpp: recovery as a whole, also after attempts that were broken off.
use toy_relational_database.Prelude.{
  All, Bool, List, [], false, none, refl, some, true, ℕ, ◌%◌, ◌∙◌, ◌∷◌, ◌≡◌,
}
use toy_relational_database.Errors.{Result, ok, throw}
use toy_relational_database.Page.{Page}
use toy_relational_database.Disk.{DiskManager, read_page, count_pages, flush, refresh_next_page_id}
use toy_relational_database.Disk.Reads.{IsPageFile}
use toy_relational_database.Wal.{RecoveredPage, WalManager}
use toy_relational_database.Wal.Record.{IsRecord}
use toy_relational_database.Wal.Append.{IsWal}
use toy_relational_database.Recovery.{find_page, latest_from, replay, finish_recovery, run_recovery}
use toy_relational_database.Recovery.Latest.{
  Distinct, last_record, latest_from_lem, latest_from-All,
}
use toy_relational_database.Recovery.Replay.{
  image, whole_writes, replay-IsPageFile, replay-keeps, replay-writes,
}

-- An iteration over a map with unique keys visits each entry exactly once.
pub record VisitsEach (order : List RecoveredPage → List RecoveredPage) : Type 0 where
  pub distinct : (xs : List RecoveredPage) → Distinct xs → Distinct (order xs)
  pub found :
      (xs : List RecoveredPage) → Distinct xs → (p : ℕ) → find_page p (order xs) ≡ find_page p xs
  pub entries : (xs : List RecoveredPage) → All IsRecord xs → All IsRecord (order xs)

-- One run of recovery: the order of the map, the bytes that `pwrite` writes of each page, and the
-- answer of `fsync`.
pub record Attempt : Type 0 where
  pub order : List RecoveredPage → List RecoveredPage
  pub visits : VisitsEach order
  pub written : ℕ → ℕ
  pub synced : Bool

-- Starts of the program that fail or crash in recovery, one after the other.
pub run_attempts : DiskManager → WalManager → List Attempt → DiskManager
run_attempts disk wal [] = disk
run_attempts disk wal (a ∷ rest) =
    run_attempts (run_recovery a.order a.written a.synced disk wal).1 wal rest

finish_recovery-file :
    (synced : Bool) (r : Result (Unit {0})) (disk : DiskManager)
    → (finish_recovery synced (r, disk)).1.file ≡ disk.file
unfolding finish_recovery refresh_next_page_id flush
finish_recovery-file true (ok a) disk = refl
finish_recovery-file false (ok a) disk = refl
finish_recovery-file synced (throw e) disk = refl

-- A read looks at the file alone.
read_page-file : (a b : DiskManager) (p : ℕ) → a.file ≡ b.file → read_page a p ≡ read_page b p
unfolding read_page
read_page-file a b p e = rw e

module _ (wal : WalManager) (w : IsWal wal) where
  -- What holds of the disk at any time in recovery.
  record Kept (before after : DiskManager) : Type 0 where
    whole : IsPageFile after.file
    kept :
        (q : ℕ) (other : Page)
        → last_record q wal.valid_records ≡ none
        → read_page before q ≡ ok other
        → read_page after q ≡ ok other

  entries-IsRecord : All IsRecord (latest_from [] wal.valid_records)
  entries-IsRecord = latest_from-All IsRecord [] wal.valid_records w.records tt

  latest_lem :
      Distinct (latest_from [] wal.valid_records)
      × ((p : ℕ) → find_page p (latest_from [] wal.valid_records) ≡ last_record p wal.valid_records)
  latest_lem = latest_from_lem wal.valid_records w.ascending

  attempt-Kept :
      (a : Attempt) (disk : DiskManager)
      → IsPageFile disk.file
      → Kept disk (run_recovery a.order a.written a.synced disk wal).1
  unfolding run_recovery
  attempt-Kept a disk f =
      let entries = a.order (latest_from [] wal.valid_records) in
      let run = replay a.written entries disk in
      let same_file = finish_recovery-file a.synced run.0 run.1 in
      record {
        whole =
            rw same_file
              (replay-IsPageFile a.written entries disk (a.visits.entries _ entries-IsRecord) f);
        kept = λ q other unlogged e.
            let absent : find_page q entries ≡ none =
              a.visits.found _ latest_lem.0 q ∙ latest_lem.1 q ∙ unlogged in
            read_page-file (finish_recovery a.synced run).1 run.1 q same_file
            ∙ replay-keeps a.written entries disk q other absent e;
      }

  attempts-Kept :
      (attempts : List Attempt) (disk : DiskManager)
      → IsPageFile disk.file
      → Kept disk (run_attempts disk wal attempts)
  unfolding run_attempts
  attempts-Kept [] disk f = record { whole = f; kept = λ q other n e. e }
  attempts-Kept (a ∷ rest) disk f =
      let one = attempt-Kept a disk f in
      let more =
        attempts-Kept rest (run_recovery a.order a.written a.synced disk wal).1 one.whole in
      record {
        whole = more.whole;
        kept = λ q other n e. more.kept q other n (one.kept q other n e);
      }

  recovery_once :
      (order : List RecoveredPage → List RecoveredPage) (visits : VisitsEach order)
      (disk : DiskManager)
      → IsPageFile disk.file
      → let out = run_recovery order whole_writes true disk wal in
        (out.0 ≡ ok tt)
        × (out.1.next_page_id ≡ count_pages out.1.file % 4294967296)
        × ((q : ℕ) (r : RecoveredPage)
            → last_record q wal.valid_records ≡ some r
            → read_page out.1 q ≡ ok (image r))
  unfolding run_recovery flush count_pages refresh_next_page_id read_page
  recovery_once order visits disk f =
      let entries = order (latest_from [] wal.valid_records) in
      let run = replay whole_writes entries disk in
      let (returned, images) =
        replay-writes entries disk (visits.entries _ entries-IsRecord)
          (visits.distinct _ latest_lem.0) f in
      let split : run ≡ (ok tt, run.1) = λ i. (returned i, run.1) in
      rw (split, finish_recovery)
        (refl, refl, λ q r e. images q r (visits.found _ latest_lem.0 q ∙ latest_lem.1 q ∙ e))

  -- Take a well-formed log, a data file of which at most the last page is cut off, and any number of
  -- recovery attempts that failed or went down at any place. Recovery with writes that succeed then
  -- returns, whatever order the hash map is visited in; it sets the next page id to the number of
  -- pages in the file, modulo 2^32; of each page in the log the image of its last record can be
  -- read; every page that is not in the log and that could be read before the attempts reads as it
  -- did.
  pub recovery-after_attempts :
      (order : List RecoveredPage → List RecoveredPage) (visits : VisitsEach order)
      (attempts : List Attempt) (disk : DiskManager)
      → IsPageFile disk.file
      → let out = run_recovery order whole_writes true (run_attempts disk wal attempts) wal in
        (out.0 ≡ ok tt)
        × (out.1.next_page_id ≡ count_pages out.1.file % 4294967296)
        × ((q : ℕ) (r : RecoveredPage)
            → last_record q wal.valid_records ≡ some r
            → read_page out.1 q ≡ ok (image r))
        × ((q : ℕ) (other : Page)
            → last_record q wal.valid_records ≡ none
            → read_page disk q ≡ ok other
            → read_page out.1 q ≡ ok other)
  recovery-after_attempts order visits attempts disk f =
      let before = attempts-Kept attempts disk f in
      let last : Attempt = record {
        order = order;
        visits = visits;
        written = whole_writes;
        synced = true;
      } in
      let once = recovery_once order visits (run_attempts disk wal attempts) before.whole in
      let kept = attempt-Kept last (run_attempts disk wal attempts) before.whole in
      (once.0, once.1, once.2, λ q other n e. kept.kept q other n (before.kept q other n e))
