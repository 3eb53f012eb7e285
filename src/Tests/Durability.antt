-- ===== src/Tests/Durability.antt =====
-- src/disk_manager.cpp, src/wal.cpp and src/recovery.cpp on a fresh database.
use toy_relational_database.Prelude.{
  All, List, [], arith, false, inl, length, length-replicate, none, refl, some, true, ℕ, ◌%◌, ◌++◌,
  ◌∷◌, ◌≡◌, ◌≢◌,
}
use toy_relational_database.Errors.{ok}
use toy_relational_database.Page.{
  Page, page_size, zero_page, compute_checksum, set_checksum, set_lsn,
}
use toy_relational_database.Disk.{DiskManager, read_page, write_page, count_pages}
use toy_relational_database.Disk.Reads.{read-write_page}
use toy_relational_database.Wal.{
  RecoveredPage, WalManager, wal_record_size, open_wal, append_record, record_bytes, parse_record,
}
use toy_relational_database.Wal.Record.{IsRecord, parse-record_bytes}
use toy_relational_database.Wal.Log.{log_bytes, next_lsn_all}
use toy_relational_database.Wal.Append.{IsWal, unsynced_survives}
use toy_relational_database.Wal.Reopen.{
  IsCall, AppendCall, run_appends, acknowledged, reopen-run_appends, open_wal-append,
}
use toy_relational_database.Recovery.{find_page, latest_from, run_recovery}
use toy_relational_database.Recovery.Latest.{last_record, Distinct, latest_from_lem}
use toy_relational_database.Recovery.Replay.{image, whole_writes}
use toy_relational_database.Recovery.Crash.{
  VisitsEach, Attempt, run_attempts, recovery-after_attempts,
}

length-zero_page : length zero_page ≡ page_size
unfolding zero_page
length-zero_page = length-replicate {A = ℕ} page_size 0

abbrev fresh_disk : DiskManager
fresh_disk = record { file = []; next_page_id = 0 }

read-write_page_example :
    (read_page (write_page page_size fresh_disk 2 zero_page).disk 2
      ≡ ok (set_checksum zero_page (compute_checksum zero_page)))
    × ((q : ℕ) (other : Page)
        → 2 ≢ q
        → read_page fresh_disk q ≡ ok other
        → read_page (write_page page_size fresh_disk 2 zero_page).disk q ≡ ok other)
read-write_page_example = read-write_page fresh_disk 2 zero_page length-zero_page tt

abbrev first_record : RecoveredPage
first_record = record { page_id = 1; lsn = 0; page = zero_page }

first-IsRecord : IsRecord first_record
first-IsRecord = record {
  page_length = length-zero_page;
  page_id_fits = omega arith;
  lsn_fits = omega arith;
}

-- With the last LSN that fits.
abbrev largest_lsn : RecoveredPage
largest_lsn = record { page_id = 1; lsn = 18446744073709551615; page = zero_page }

parse-record_bytes_example : parse_record (record_bytes largest_lsn) ≡ some largest_lsn
parse-record_bytes_example =
    parse-record_bytes largest_lsn length-zero_page (omega arith) (omega arith)

abbrev fresh_wal : WalManager
fresh_wal = record { file = []; next_offset = 0; next_lsn = 0; valid_records = [] }

fresh-IsWal : IsWal fresh_wal
unfolding log_bytes
fresh-IsWal = record {
  torn = [];
  layout = refl;
  torn_short = omega arith;
  offset = omega arith;
  records = tt;
  below = tt;
  ascending = tt;
}

abbrev whole_call : AppendCall
whole_call = record { written = wal_record_size; synced = true; page_id = 1; page = zero_page }

-- The system goes down in the middle of the second record.
abbrev cut_call : AppendCall
cut_call = record { written = 100; synced = false; page_id = 1; page = zero_page }

abbrev session : List AppendCall
session = whole_call ∷ cut_call ∷ []

whole_call-IsCall : IsCall whole_call
whole_call-IsCall = record {
  page_length = length-zero_page;
  page_id_fits = omega arith;
  written_fits = omega arith;
  whole_synced = λ e. refl;
}

session-IsCall : All IsCall session
session-IsCall = (
  whole_call-IsCall,
  (
    record {
      page_length = length-zero_page;
      page_id_fits = omega arith;
      written_fits = omega arith;
      whole_synced = λ e. absurd (omega arith);
    },
    tt,
  ),
)

reopen-run_appends_example :
    ((open_wal (run_appends fresh_wal session).file).valid_records ≡ acknowledged 0 session)
    × IsWal (open_wal (run_appends fresh_wal session).file)
reopen-run_appends_example =
    reopen-run_appends fresh_wal session fresh-IsWal session-IsCall (omega arith)

unsynced_survives_example :
    ((append_record wal_record_size false fresh_wal 1 zero_page).wal.valid_records ≡ [])
    × ((open_wal (append_record wal_record_size false fresh_wal 1 zero_page).wal.file).valid_records
        ≡ record { page_id = 1; lsn = 0; page = set_lsn zero_page (0 % 4294967296) } ∷ [])
unsynced_survives_example =
    unsynced_survives wal_record_size false fresh_wal 1 zero_page fresh-IsWal length-zero_page
      (omega arith) (omega arith) refl

open_wal-append_example :
    (open_wal
      (append_record wal_record_size true
        (open_wal (log_bytes (first_record ∷ []) ++ 7 ∷ []))
        1
        zero_page).wal.file).valid_records
    ≡ first_record
      ∷ record {
        page_id = 1;
        lsn = next_lsn_all 0 (first_record ∷ []);
        page = set_lsn zero_page (next_lsn_all 0 (first_record ∷ []) % 4294967296);
      }
      ∷ []
unfolding next_lsn_all
open_wal-append_example =
    open_wal-append (first_record ∷ []) (7 ∷ []) whole_call (first-IsRecord, tt) (tt, tt)
      (inl (omega arith)) whole_call-IsCall refl (omega arith)

abbrev reopened : WalManager
reopened = open_wal (run_appends fresh_wal session).file

in_order : VisitsEach (λ xs. xs)
in_order = record { distinct = λ xs h. h; found = λ xs h p. refl; entries = λ xs h. h }

-- A first attempt writes ten bytes of each page.
abbrev cut_attempt : Attempt
cut_attempt = record { order = λ xs. xs; visits = in_order; written = λ p. 10; synced = true }

latest_from_lem_example :
    Distinct (latest_from [] reopened.valid_records)
    × ((p : ℕ)
        → find_page p (latest_from [] reopened.valid_records)
          ≡ last_record p reopened.valid_records)
latest_from_lem_example =
    latest_from_lem reopened.valid_records reopen-run_appends_example.1.ascending

recovery-after_attempts_example :
    let out =
      run_recovery
        (λ xs. xs)
        whole_writes
        true
        (run_attempts fresh_disk reopened (cut_attempt ∷ []))
        reopened in
    (out.0 ≡ ok tt)
    × (out.1.next_page_id ≡ count_pages out.1.file % 4294967296)
    × ((q : ℕ) (r : RecoveredPage)
        → last_record q reopened.valid_records ≡ some r
        → read_page out.1 q ≡ ok (image r))
    × ((q : ℕ) (other : Page)
        → last_record q reopened.valid_records ≡ none
        → read_page fresh_disk q ≡ ok other
        → read_page out.1 q ≡ ok other)
recovery-after_attempts_example =
    recovery-after_attempts reopened reopen-run_appends_example.1 (λ xs. xs) in_order
      (cut_attempt ∷ []) fresh_disk tt
