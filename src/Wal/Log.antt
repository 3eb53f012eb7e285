-- ===== src/Wal/Log.antt =====
-- src/wal.cpp: the file of a log that is in order, and the constructor's scan of such a file.
use toy_relational_database.Prelude.{
  All, Bool-cases, Bytes, List, [], append-nil, append_assoc, arith, drop-append, false, inl, inr,
  leb, length, length-append, le→leb, none, refl, suc, sym, take, take-append, true, zero, ℕ, ◌*◌,
  ◌++◌, ◌+◌, ◌<◌, ◌∙◌, ◌∷◌, ◌≡◌, ◌≤◌, ◌⊎◌,
}
use toy_relational_database.Words.{read_at, read_at-append}
use toy_relational_database.Wal.{
  RecoveredPage, Scan, wal_record_size, record_bytes, parse_record, next_lsn_after, scan_slot,
  scan_from, open_wal,
}
use toy_relational_database.Wal.Record.{IsRecord, length-record_bytes, parse-record_bytes_held}

-- The bytes of the records of a log, in order.
unfoldable pub log_bytes : List RecoveredPage → Bytes
log_bytes [] = []
log_bytes (r ∷ rs) = record_bytes r ++ log_bytes rs

-- The next LSN after the records of a log, read from `next` on.
unfoldable pub next_lsn_all : ℕ → List RecoveredPage → ℕ
unfolding next_lsn_after
next_lsn_all next [] = next
next_lsn_all next (r ∷ rs) = next_lsn_all (next_lsn_after next r) rs

pub length-log_bytes :
    (rs : List RecoveredPage)
    → All IsRecord rs
    → length (log_bytes rs) ≡ wal_record_size * length rs
unfolding log_bytes
length-log_bytes [] h = omega arith
length-log_bytes (r ∷ rs) h = omega (
  arith,
  length-append (record_bytes r) (log_bytes rs),
  length-record_bytes r h.0,
  length-log_bytes rs h.1,
)

pub log_bytes-append :
    (rs : List RecoveredPage) (r : RecoveredPage)
    → log_bytes (rs ++ r ∷ []) ≡ log_bytes rs ++ record_bytes r
unfolding log_bytes
log_bytes-append [] r = append-nil (record_bytes r)
log_bytes-append (x ∷ rs) r =
    rw (log_bytes-append rs r) (sym (append_assoc (record_bytes x) (log_bytes rs) (record_bytes r)))

read_at_tail :
    (front rest : Bytes) (offset n : ℕ)
    → length front ≡ offset
    → read_at (front ++ rest) offset n ≡ take n rest
unfolding read_at
read_at_tail front rest offset n e = rw (drop-append offset front rest e)

-- The scan ends where such bytes begin: too few for a record, or no record in the first slot.
abbrev pub Stops : Bytes → Type 0
Stops tail = (length tail < wal_record_size) ⊎ (parse_record (take wal_record_size tail) ≡ none)

abbrev scanned : Scan → List RecoveredPage → Scan
scanned s rs = record {
  offset = s.offset + wal_record_size * length rs;
  next_lsn = next_lsn_all s.next_lsn rs;
  records = s.records ++ rs;
}

scanned-nil : (s : Scan) → s ≡ scanned s []
unfolding next_lsn_all
scanned-nil s =
    let e : s.offset ≡ s.offset + wal_record_size * 0 = omega arith in
    λ i. record { offset = e i; next_lsn = s.next_lsn; records = sym (append-nil s.records) i }

scan-Stops :
    (rounds : ℕ) (front tail : Bytes) (s : Scan)
    → length front ≡ s.offset
    → Stops tail
    → scan_from rounds (front ++ tail) s ≡ s
unfolding scan_from scan_slot
scan-Stops zero front tail s e stop = refl
scan-Stops (suc rounds) front tail s e (inl short) =
    let past : leb (s.offset + wal_record_size) (length (front ++ tail)) ≡ false =
      let l = length-append front tail in ground (arith, l) in
    rw past
scan-Stops (suc rounds) front tail s e (inr bad) =
    elim (Bool-cases (leb (s.offset + wal_record_size) (length (front ++ tail)))) [
      | inl fits ↦ rw (fits, read_at_tail front tail s.offset wal_record_size e, bad)
      | inr past ↦ rw past
    ]

advance : Scan → RecoveredPage → Scan
advance s r = record {
  offset = s.offset + wal_record_size;
  next_lsn = next_lsn_after s.next_lsn r;
  records = s.records ++ r ∷ [];
}

scan_one :
    (rounds : ℕ) (r : RecoveredPage) (front rest : Bytes) (s : Scan)
    → IsRecord r
    → length front ≡ s.offset
    → scan_from (suc rounds) (front ++ (record_bytes r ++ rest)) s
      ≡ scan_from rounds (front ++ (record_bytes r ++ rest)) (advance s r)
unfolding scan_from scan_slot advance
scan_one rounds r front rest s h e =
    let size = length-record_bytes r h in
    let l₁ = length-append front (record_bytes r ++ rest) in
    let l₂ = length-append (record_bytes r) rest in
    let fits : leb (s.offset + wal_record_size) (length (front ++ (record_bytes r ++ rest)))
        ≡ true =
      le→leb _ _ (omega (arith, l₁, l₂, size)) in
    rw (
      fits,
      read_at-append front (record_bytes r) rest s.offset wal_record_size e size,
      parse-record_bytes_held r h,
    )

scanned-advance :
    (s : Scan) (r : RecoveredPage) (rs : List RecoveredPage)
    → scanned (advance s r) rs ≡ scanned s (r ∷ rs)
unfolding advance next_lsn_all
scanned-advance s r rs =
    let e : s.offset + wal_record_size + wal_record_size * length rs
        ≡ s.offset + wal_record_size * suc (length rs) =
      omega arith in
    λ i. record {
      offset = e i;
      next_lsn = next_lsn_all (next_lsn_after s.next_lsn r) rs;
      records = append_assoc s.records (r ∷ []) rs i;
    }

scan_log :
    (rounds : ℕ) (rs : List RecoveredPage) (front tail : Bytes) (s : Scan)
    → length rs ≤ rounds
    → All IsRecord rs
    → length front ≡ s.offset
    → Stops tail
    → scan_from rounds (front ++ (log_bytes rs ++ tail)) s ≡ scanned s rs
unfolding log_bytes
scan_log rounds [] front tail s enough h e stop =
    scan-Stops rounds front tail s e stop ∙ scanned-nil s
scan_log zero (r ∷ rs) front tail s enough h e stop = absurd (omega arith)
scan_log (suc rounds) (r ∷ rs) front tail s enough h e stop =
    let size = length-record_bytes r h.0 in
    let behind : length (front ++ record_bytes r) ≡ (advance s r).offset =
      unfold advance in omega (arith, length-append front (record_bytes r), size) in
    let ih =
      scan_log rounds rs (front ++ record_bytes r) tail (advance s r) (omega arith) h.1 behind
        stop in
    rw (append_assoc (record_bytes r) (log_bytes rs) tail) (
      scan_one rounds r front (log_bytes rs ++ tail) s h.0 e
      ∙ rw (append_assoc front (record_bytes r) (log_bytes rs ++ tail)) at ih
      ∙ scanned-advance s r rs)

-- Opening a file that holds whole records and then bytes that are no record finds exactly those
-- records, and truncates the file behind the last of them.
pub open_wal_lem :
    (rs : List RecoveredPage) (tail : Bytes)
    → All IsRecord rs
    → Stops tail
    → open_wal (log_bytes rs ++ tail) ≡ record {
      file = log_bytes rs;
      next_offset = wal_record_size * length rs;
      next_lsn = next_lsn_all 0 rs;
      valid_records = rs;
    }
unfolding open_wal
open_wal_lem rs tail h stop =
    let size = length-log_bytes rs h in
    let enough : length rs ≤ length (log_bytes rs ++ tail) =
      omega (arith, length-append (log_bytes rs) tail, size) in
    let zero_at : 0 + wal_record_size * length rs ≡ wal_record_size * length rs = omega arith in
    rw (
      scan_log (length (log_bytes rs ++ tail)) rs [] tail
          (record { offset = 0; next_lsn = 0; records = [] }) enough h refl stop,
      zero_at,
      take-append (wal_record_size * length rs) (log_bytes rs) tail size,
    )
