-- ===== src/Wal/Append.antt =====
-- src/wal.cpp: the invariant of a log, and AppendRecord whatever `pwrite` and `fsync` do.
use toy_relational_database.Prelude.{
  ==_iff, All, Bool, Bytes, List, [], append_assoc, arith, drop, drop_all, drop_past, false, inl,
  length, length-append, length-drop, length-take, refl, sym, take, take-append, take_all, true, ℕ,
  ◌%◌, ◌*◌, ◌++◌, ◌+◌, ◌<◌, ◌==◌, ◌∙◌, ◌∷◌, ◌≡◌, ◌≤◌,
}
use toy_relational_database.Words.{write_at}
use toy_relational_database.Page.{Page, page_size, set_lsn}
use toy_relational_database.Page.Fields.{length-set_lsn}
use toy_relational_database.Wal.{
  RecoveredPage, WalManager, wal_record_size, record_bytes, open_wal, append_record,
}
use toy_relational_database.Wal.Record.{IsRecord, length-record_bytes}
use toy_relational_database.Wal.Log.{log_bytes, length-log_bytes, log_bytes-append, open_wal_lem}

abbrev pub Below : ℕ → List RecoveredPage → Type 0
Below next rs = All (λ r. r.lsn < next) rs

-- The LSNs grow along the log.
abbrev pub Ascending : List RecoveredPage → Type 0
Ascending [] = Unit
Ascending (r ∷ rs) = All (λ q. r.lsn < q.lsn) rs × Ascending rs

-- The file holds the valid records, and behind them less than one record of a write that was cut off.
pub record IsWal (w : WalManager) : Type 0 where
  pub torn : Bytes
  pub layout : w.file ≡ log_bytes w.valid_records ++ torn
  pub torn_short : length torn < wal_record_size
  pub offset : w.next_offset ≡ wal_record_size * length w.valid_records
  pub records : All IsRecord w.valid_records
  pub below : Below w.next_lsn w.valid_records
  pub ascending : Ascending w.valid_records

pub All-append {κ} :
    (P : RecoveredPage → Type κ) (rs : List RecoveredPage) (r : RecoveredPage)
    → All P rs
    → P r
    → All P (rs ++ r ∷ [])
All-append P [] r h p = (p, tt)
All-append P (x ∷ rs) r h p = (h.0, All-append P rs r h.1 p)

pub Ascending-append :
    (rs : List RecoveredPage) (r : RecoveredPage)
    → Ascending rs
    → Below r.lsn rs
    → Ascending (rs ++ r ∷ [])
Ascending-append [] r h b = (tt, tt)
Ascending-append (x ∷ rs) r h b =
    (All-append (λ q. x.lsn < q.lsn) rs r h.0 b.0, Ascending-append rs r h.1 b.1)

pub Below-mono : (n m : ℕ) (rs : List RecoveredPage) → n ≤ m → Below n rs → Below m rs
Below-mono n m [] h b = tt
Below-mono n m (r ∷ rs) h b = (omega arith, Below-mono n m rs h b.1)

write_at_tail :
    (front tail bytes : Bytes) (offset : ℕ)
    → length front ≡ offset
    → write_at (front ++ tail) offset bytes ≡ front ++ (bytes ++ drop (length bytes) tail)
unfolding write_at
write_at_tail front tail bytes offset e =
    rw (take-append offset front tail e, drop_past offset (length bytes) front tail e)

module _ (written : ℕ) (synced : Bool) (w : WalManager) (page_id : ℕ) (page : Page) (v : IsWal w)
    (page_length : length page ≡ page_size) (id_fits : page_id < 4294967296)
    (lsn_fits : w.next_lsn + 1 < 18446744073709551616) where
  -- The record that the call writes.
  abbrev pub logged : RecoveredPage
  logged = record {
    page_id = page_id;
    lsn = w.next_lsn;
    page = set_lsn page (w.next_lsn % 4294967296);
  }

  pub logged-IsRecord : IsRecord logged
  logged-IsRecord = record {
    page_length = length-set_lsn page (w.next_lsn % 4294967296) page_length;
    page_id_fits = id_fits;
    lsn_fits = lsn_fits;
  }

  written_file :
      (bytes : Bytes)
      → write_at w.file w.next_offset bytes
        ≡ log_bytes w.valid_records ++ (bytes ++ drop (length bytes) v.torn)
  written_file bytes = rw v.layout (
      write_at_tail (log_bytes w.valid_records) v.torn bytes w.next_offset
        (length-log_bytes w.valid_records v.records ∙ sym v.offset))

  pub appended_file :
      written ≡ wal_record_size
      → write_at w.file w.next_offset (take written (record_bytes logged))
        ≡ log_bytes (w.valid_records ++ logged ∷ []) ++ []
  appended_file e =
      let size = length-record_bytes logged logged-IsRecord in
      let whole : take written (record_bytes logged) ≡ record_bytes logged =
        take_all written (record_bytes logged) (omega (arith, size)) in
      rw
        (
          whole,
          written_file (record_bytes logged),
          drop_all (length (record_bytes logged)) v.torn (omega (arith, size, v.torn_short)),
          log_bytes-append w.valid_records logged,
        )
        (sym (append_assoc (log_bytes w.valid_records) (record_bytes logged) []))

  Below-next : Below ((w.next_lsn + 1) % 18446744073709551616) w.valid_records
  Below-next = Below-mono w.next_lsn _ w.valid_records (omega (arith, lsn_fits)) v.below

  pub append_whole-IsWal :
      written ≡ wal_record_size → IsWal (append_record written true w page_id page).wal
  unfolding append_record
  append_whole-IsWal e =
      let equal : (written == wal_record_size) ≡ true = (==_iff written wal_record_size).1 e in
      rw equal (record {
        torn = [];
        layout = appended_file e;
        torn_short = omega arith;
        offset = omega (arith, v.offset, length-append w.valid_records (logged ∷ []));
        records = All-append IsRecord w.valid_records logged v.records logged-IsRecord;
        below =
            All-append (λ r. r.lsn < (w.next_lsn + 1) % 18446744073709551616) w.valid_records logged
              Below-next (omega (arith, lsn_fits));
        ascending = Ascending-append w.valid_records logged v.ascending v.below;
      })

  pub append_cut-IsWal :
      written < wal_record_size → IsWal (append_record written synced w page_id page).wal
  unfolding append_record
  append_cut-IsWal short =
      let differ : (written == wal_record_size) ≡ false = ground arith in
      let bytes = take written (record_bytes logged) in
      rw differ (record {
        torn = bytes ++ drop (length bytes) v.torn;
        layout = written_file bytes;
        torn_short = omega (
          arith,
          v.torn_short,
          length-append bytes (drop (length bytes) v.torn),
          length-drop (length bytes) v.torn,
          length-take written (record_bytes logged),
        );
        offset = v.offset;
        records = v.records;
        below = Below-next;
        ascending = v.ascending;
      })

  -- On a well-formed log, a whole page and an LSN below 2^64 - 1: where the whole record was
  -- written but `fsync` failed, the record is not among the valid records of the process, and yet
  -- the next process finds it behind them if the file kept the bytes.
  pub unsynced_survives :
      written ≡ wal_record_size
      → ((append_record written false w page_id page).wal.valid_records ≡ w.valid_records)
        × ((open_wal (append_record written false w page_id page).wal.file).valid_records
            ≡ w.valid_records ++ logged ∷ [])
  unfolding append_record
  unsynced_survives e =
      let equal : (written == wal_record_size) ≡ true = (==_iff written wal_record_size).1 e in
      rw
        (
          equal,
          appended_file e,
          open_wal_lem (w.valid_records ++ logged ∷ []) []
              (All-append IsRecord w.valid_records logged v.records logged-IsRecord)
              (inl (omega arith)),
        )
        (refl, refl)
