-- ===== src/Wal/Record.antt =====
-- src/wal.cpp: one record of the log, written and read back.
use toy_relational_database.Prelude.{
  ==_refl, Bytes, [], append_assoc, arith, length, length-append, refl, some, ℕ, ◌++◌, ◌+◌, ◌<◌,
  ◌≡◌,
}
use toy_relational_database.Page.{Page, page_size}
use toy_relational_database.Words.{
  le_bytes, read_at, length-le_bytes, from_le-le_bytes, read_at-append, read_at-append_end,
}
use toy_relational_database.Wal.{
  RecoveredPage, wal_magic, wal_record_size, record_checksum, record_bytes, parse_record,
}

-- What the fields' types and the page's size say of a record.
pub record IsRecord (r : RecoveredPage) : Type 0 where
  pub page_length : length r.page ≡ page_size
  pub page_id_fits : r.page_id < 4294967296
  pub lsn_fits : r.lsn + 1 < 18446744073709551616

pub length-record_bytes :
    (r : RecoveredPage) → IsRecord r → length (record_bytes r) ≡ wal_record_size
unfolding record_bytes
length-record_bytes r h =
    let c = le_bytes 4 (record_checksum wal_magic r.lsn r.page_id r.page) in
    omega (
      arith,
      h.page_length,
      length-append (le_bytes 4 wal_magic)
          (le_bytes 8 r.lsn ++ (le_bytes 4 r.page_id ++ (c ++ r.page))),
      length-append (le_bytes 8 r.lsn) (le_bytes 4 r.page_id ++ (c ++ r.page)),
      length-append (le_bytes 4 r.page_id) (c ++ r.page),
      length-append c r.page,
      length-le_bytes 4 wal_magic,
      length-le_bytes 8 r.lsn,
      length-le_bytes 4 r.page_id,
      length-le_bytes 4 (record_checksum wal_magic r.lsn r.page_id r.page),
    )

record_checksum-lt :
    (magic lsn page_id : ℕ) (page : Page) → record_checksum magic lsn page_id page < 4294967296
unfolding record_checksum
record_checksum-lt magic lsn page_id page = omega arith

-- The five fields of a slot are read back.
module _ (m l p c d : Bytes) (hm : length m ≡ 4) (hl : length l ≡ 8) (hp : length p ≡ 4)
    (hc : length c ≡ 4) (hd : length d ≡ page_size) where
  abbrev slot : Bytes
  slot = m ++ (l ++ (p ++ (c ++ d)))

  read_magic : read_at slot 0 4 ≡ m
  read_magic = read_at-append [] m (l ++ (p ++ (c ++ d))) 0 4 refl hm

  read_lsn : read_at slot 4 8 ≡ l
  read_lsn = read_at-append m l (p ++ (c ++ d)) 4 8 hm hl

  read_page_id : read_at slot 12 4 ≡ p
  read_page_id =
      rw (← append_assoc m l (p ++ (c ++ d)))
        (read_at-append (m ++ l) p (c ++ d) 12 4 (omega (arith, length-append m l)) hp)

  read_checksum : read_at slot 16 4 ≡ c
  read_checksum =
      rw (← append_assoc m l (p ++ (c ++ d)), ← append_assoc (m ++ l) p (c ++ d))
        (read_at-append ((m ++ l) ++ p) c d 16 4
          (omega (arith, length-append m l, length-append (m ++ l) p)) hc)

  read_payload : read_at slot 20 page_size ≡ d
  read_payload =
      rw
        (
          ← append_assoc m l (p ++ (c ++ d)),
          ← append_assoc (m ++ l) p (c ++ d),
          ← append_assoc ((m ++ l) ++ p) c d,
        )
        (read_at-append_end (((m ++ l) ++ p) ++ c) d 20 page_size
          (omega
            (arith, length-append m l, length-append (m ++ l) p, length-append ((m ++ l) ++ p) c))
          hd)

-- From a slot with the bytes of a record of a whole page, whose page id fits 4 bytes and whose LSN
-- fits 8, the constructor reads the record back.
pub parse-record_bytes :
    (r : RecoveredPage)
    → length r.page ≡ page_size
    → r.page_id < 4294967296
    → r.lsn < 18446744073709551616
    → parse_record (record_bytes r) ≡ some r
unfolding parse_record record_bytes
parse-record_bytes r page_length page_id_fits lsn_fits =
    let m = le_bytes 4 wal_magic in
    let l = le_bytes 8 r.lsn in
    let p = le_bytes 4 r.page_id in
    let sum = record_checksum wal_magic r.lsn r.page_id r.page in
    let c = le_bytes 4 sum in
    let hm = length-le_bytes 4 wal_magic in
    let hl = length-le_bytes 8 r.lsn in
    let hp = length-le_bytes 4 r.page_id in
    let hc = length-le_bytes 4 sum in
    rw (
      read_magic m l p c r.page hm hl hp hc page_length,
      read_lsn m l p c r.page hm hl hp hc page_length,
      read_page_id m l p c r.page hm hl hp hc page_length,
      read_checksum m l p c r.page hm hl hp hc page_length,
      read_payload m l p c r.page hm hl hp hc page_length,
      from_le-le_bytes 4 wal_magic (omega arith),
      from_le-le_bytes 8 r.lsn lsn_fits,
      from_le-le_bytes 4 r.page_id page_id_fits,
      from_le-le_bytes 4 sum (record_checksum-lt wal_magic r.lsn r.page_id r.page),
      ==_refl sum,
    )

-- The same for a record that the log may hold.
pub parse-record_bytes_held :
    (r : RecoveredPage) → IsRecord r → parse_record (record_bytes r) ≡ some r
parse-record_bytes_held r h =
    parse-record_bytes r h.page_length h.page_id_fits (omega (arith, h.lsn_fits))
