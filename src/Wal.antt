-- ===== src/Wal.antt =====
-- include/wal.h and src/wal.cpp: the write-ahead log as the bytes of its file.
-- `pwrite` and `fsync` belong to the operating system: how many bytes a call wrote (0 also for its
-- error) and whether the file was synced are arguments. A crash loses the object and keeps the file.
pub mod Record
pub mod Log
pub mod Append
pub mod Reopen
use toy_relational_database.Prelude.{
  Bool, Bytes, List, Option, [], bit_xor, if◌then◌else◌, leb, length, max, none, some, suc, take,
  zero, ℕ, ◌%◌, ◌*◌, ◌++◌, ◌+◌, ◌==◌, ◌∷◌,
}
use toy_relational_database.Errors.{Result, ok, throw, io_error, short_write, fsync_failed}
use toy_relational_database.Page.{Page, page_size, fnv_step, fnv_offset, set_lsn}
use toy_relational_database.Words.{le_bytes, from_le, read_at, write_at}

pub record RecoveredPage : Type 0 where
  pub page_id : ℕ
  pub lsn : ℕ
  pub page : Page

-- WAL_MAGIC, and WAL_RECORD_SIZE: a header of 20 bytes (magic 4, lsn 8, page_id 4, checksum 4)
-- and a page.
abbrev pub wal_magic : ℕ
wal_magic = 0x57414C31

abbrev pub wal_record_size : ℕ
wal_record_size = 4116

-- The loop of Fnv1a.
unfoldable pub fnv1a_from : ℕ → Bytes → ℕ
unfolding fnv_step
fnv1a_from hash [] = hash
fnv1a_from hash (b ∷ bs) = fnv1a_from (fnv_step hash b) bs

unfoldable pub fnv1a : Bytes → ℕ
unfolding fnv1a_from
fnv1a bytes = fnv1a_from fnv_offset bytes

-- `hash = hash * 16777619u ^ h` on `uint32_t`.
abbrev pub combine : ℕ → ℕ → ℕ
combine hash h = bit_xor ((hash * 16777619) % 4294967296) h % 4294967296

-- ComputeRecordChecksum
unfoldable pub record_checksum : ℕ → ℕ → ℕ → Page → ℕ
record_checksum magic lsn page_id page =
    combine (combine (fnv1a (le_bytes 4 magic)) (fnv1a (le_bytes 8 lsn ++ le_bytes 4 page_id)))
      (fnv1a page)

-- The bytes that AppendRecord writes: the header, then the page. The checksum field is a
-- `uint32_t`.
unfoldable pub record_bytes : RecoveredPage → Bytes
record_bytes r =
    le_bytes 4 wal_magic
    ++ (le_bytes 8 r.lsn
        ++ (le_bytes 4 r.page_id
            ++ (le_bytes 4 (record_checksum wal_magic r.lsn r.page_id r.page) ++ r.page)))

-- The checks of the constructor's loop on one slot of the file.
unfoldable pub parse_record : Bytes → Option RecoveredPage
parse_record raw =
    let magic = from_le (read_at raw 0 4) in
    let lsn = from_le (read_at raw 4 8) in
    let page_id = from_le (read_at raw 12 4) in
    let checksum = from_le (read_at raw 16 4) in
    let page = read_at raw 20 page_size in
    if magic == wal_magic
    then if record_checksum magic lsn page_id page == checksum
      then some (record { page_id = page_id; lsn = lsn; page = page })
      else none
    else none

pub record WalManager : Type 0 where
  pub file : Bytes
  pub next_offset : ℕ
  pub next_lsn : ℕ
  pub valid_records : List RecoveredPage

-- `std::max(next_lsn_, header.lsn + 1)` on `uint64_t`.
unfoldable pub next_lsn_after : ℕ → RecoveredPage → ℕ
next_lsn_after next r = max next ((r.lsn + 1) % 18446744073709551616)

-- What the constructor's loop found.
pub record Scan : Type 0 where
  pub offset : ℕ
  pub next_lsn : ℕ
  pub records : List RecoveredPage

-- The constructor's loop, with the rounds that it may still make. What has been read stands in `s`.
unfoldable pub scan_slot : Bytes → Scan → Option RecoveredPage → (Scan → Scan) → Scan
unfolding next_lsn_after
scan_slot file s none continue = s
scan_slot file s (some r) continue = continue (record {
  offset = s.offset + wal_record_size;
  next_lsn = next_lsn_after s.next_lsn r;
  records = s.records ++ r ∷ [];
})

unfoldable pub scan_from : ℕ → Bytes → Scan → Scan
unfolding scan_slot
scan_from zero file s = s
scan_from (suc rounds) file s =
    let slot =
      scan_slot file s (parse_record (read_at file s.offset wal_record_size))
        (scan_from rounds file) in
    if leb (s.offset + wal_record_size) (length file) then slot else s

-- The constructor: the scan from the start, then the truncation. Each round takes a record's size,
-- so as many rounds as the file has bytes are enough.
unfoldable pub open_wal : Bytes → WalManager
unfolding scan_from
open_wal file =
    let s = scan_from (length file) file (record { offset = 0; next_lsn = 0; records = [] }) in
    record {
      file = take s.offset file;
      next_offset = s.offset;
      next_lsn = s.next_lsn;
      valid_records = s.records;
    }

-- What AppendRecord leaves: its result, the log and the caller's page.
pub record Appended : Type 0 where
  pub result : Result ℕ
  pub wal : WalManager
  pub page : Page

-- AppendRecord, for the number of bytes that `pwrite` wrote and the answer of `fsync`.
unfoldable pub append_record : ℕ → Bool → WalManager → ℕ → Page → Appended
append_record written synced wal page_id page =
    let lsn = wal.next_lsn in
    let page' = set_lsn page (lsn % 4294967296) in
    let logged : RecoveredPage = record { page_id = page_id; lsn = lsn; page = page' } in
    let raw = record_bytes logged in
    let stamped : WalManager = record wal {
      file = write_at wal.file wal.next_offset (take written raw);
      next_lsn = (lsn + 1) % 18446744073709551616;
    } in
    if written == wal_record_size
    then if synced
      then record {
        result = ok lsn;
        wal = record stamped {
          next_offset = wal.next_offset + wal_record_size;
          valid_records = wal.valid_records ++ logged ∷ [];
        };
        page = page';
      }
      else record { result = throw (io_error fsync_failed); wal = stamped; page = page' }
    else record { result = throw (io_error short_write); wal = stamped; page = page' }
