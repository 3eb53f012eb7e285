-- ===== src/BufferPool/Release.antt =====
-- src/buffer_pool.cpp: UnpinPage, what is written through a guard, FlushPage and FlushAll.
use toy_relational_database.Prelude.{
  Bool, List, Option, [], false, get_elem?, if◌then◌else◌, none, set, some, true, ℕ, ◌-◌, ◌∷◌,
}
use toy_relational_database.Errors.{Result, ok, throw, ◌>>=◌}
use toy_relational_database.Page.{Page}
use toy_relational_database.Disk.{Written, write_page}
use toy_relational_database.Wal.{WalManager, Appended, append_record}
use toy_relational_database.BufferPool.{Frame, BufferPool, Pooled, find_frame}

-- UnpinPage up to the log: the page of a dirty frame goes there, stamped with its LSN.
abbrev pub log_frame :
    ℕ → Bool → Option WalManager → ℕ → Frame → Result (Unit {0}) × Option WalManager × Frame
log_frame written synced none page_id frame = (ok tt, none, record frame { dirty = true })
log_frame written synced (some wal) page_id frame =
    let a : Appended = append_record written synced wal page_id frame.page in
    (a.result >>= λ lsn. ok tt, some a.wal, record frame { page = a.page; dirty = true })

abbrev pub unpin_frame : Frame → Frame
unpin_frame frame = record frame { pin_count = frame.pin_count - 1 }

-- An exception of the log leaves the pin where it is.
abbrev pub unpin_logged :
    BufferPool → ℕ → Result (Unit {0}) × Option WalManager × Frame → Pooled (Unit {0})
unpin_logged pool f logged = record {
  result = logged.0;
  pool = record pool {
    frames =
        set pool.frames f
          (elim logged.0 [ throw exception ↦ logged.2 | ok u ↦ unpin_frame logged.2 ]);
    wal = logged.1;
  };
}

abbrev pub unpin_at : ℕ → Bool → BufferPool → ℕ → Bool → ℕ → Option Frame → Pooled (Unit {0})
unpin_at written synced pool page_id is_dirty f none = record { result = ok tt; pool = pool }
unpin_at written synced pool page_id is_dirty f (some frame) =
    if is_dirty
    then unpin_logged pool f (log_frame written synced pool.wal page_id frame)
    else record {
      result = ok tt;
      pool = record pool { frames = set pool.frames f (unpin_frame frame) };
    }

abbrev pub unpin_found : ℕ → Bool → BufferPool → ℕ → Bool → Option ℕ → Pooled (Unit {0})
unpin_found written synced pool page_id is_dirty none = record { result = ok tt; pool = pool }
unpin_found written synced pool page_id is_dirty (some f) =
    unpin_at written synced pool page_id is_dirty f (get_elem? pool.frames f)

unfoldable pub unpin_page : ℕ → Bool → BufferPool → ℕ → Bool → Pooled (Unit {0})
unfolding find_frame append_record
unpin_page written synced pool page_id is_dirty =
    unpin_found written synced pool page_id is_dirty (find_frame pool.page_table page_id)

-- MarkDirty, and what is written to the page through the guard.
unfoldable pub write_frame : BufferPool → ℕ → Page → BufferPool
write_frame pool f page = elim (get_elem? pool.frames f) [
  | none ↦ pool
  | some frame ↦ record pool {
    frames = set pool.frames f (record frame { page = page; dirty = true });
  }
]

-- FlushPage, of the frame that has been found.
abbrev pub flush_frame : ℕ → BufferPool → ℕ → ℕ → Option Frame → Pooled Bool
flush_frame written pool page_id f none = record { result = ok true; pool = pool }
flush_frame written pool page_id f (some frame) =
    let w : Written = write_page written pool.disk page_id frame.page in
    record {
      result = w.result >>= λ u. ok true;
      pool = record pool {
        frames = set pool.frames f (elim w.result [
          | throw exception ↦ record frame { page = w.page }
          | ok u ↦ record frame { page = w.page; dirty = false }
        ]);
        disk = w.disk;
      };
    }

abbrev pub flush_found : ℕ → BufferPool → ℕ → Option ℕ → Pooled Bool
flush_found written pool page_id none = record { result = ok false; pool = pool }
flush_found written pool page_id (some f) =
    flush_frame written pool page_id f (get_elem? pool.frames f)

unfoldable pub flush_page : ℕ → BufferPool → ℕ → Pooled Bool
unfolding find_frame write_page
flush_page written pool page_id =
    flush_found written pool page_id (find_frame pool.page_table page_id)

abbrev pub flush_dirty : ℕ → BufferPool → ℕ → ℕ → Option Frame → Pooled Bool
flush_dirty written pool page_id f none = record { result = ok true; pool = pool }
flush_dirty written pool page_id f (some frame) =
    if frame.dirty
    then flush_frame written pool page_id f (some frame)
    else record { result = ok true; pool = pool }

-- FlushAll over the entries of the page table, with the number of bytes that each write got out.
unfoldable pub flush_entries : (ℕ → ℕ) → BufferPool → List (ℕ × ℕ) → Pooled Bool
unfolding write_page
flush_entries written pool [] = record { result = ok true; pool = pool }
flush_entries written pool (e ∷ es) =
    let first = flush_dirty (written e.0) pool e.0 e.1 (get_elem? pool.frames e.1) in
    let rest = flush_entries written first.pool es in
    elim first.result [ throw exception ↦ first | ok flushed ↦ rest ]

unfoldable pub flush_all : (ℕ → ℕ) → BufferPool → Pooled Bool
unfolding flush_entries
flush_all written pool = flush_entries written pool pool.page_table
