-- ===== src/BufferPool.antt =====
-- include/buffer_pool.h and src/buffer_pool.cpp: the frames of the pool, what is in them, and which of them
-- is taken for another page. A guard is the id of its frame. The latch is left out: the calls follow one
-- another. How many bytes a write got out, and whether fsync succeeded, are arguments, as for the disk and
-- the log.
pub mod Release
pub mod Table
pub mod Victim
pub mod Fetch
pub mod Alloc
pub mod Unpin
pub mod Open
use toy_relational_database.Prelude.{
  Bool, List, Option, [], false, get_elem?, if◌then◌else◌, none, replicate, set, some, suc, true,
  zero, ℕ, ◌+◌, ◌-◌, ◌==◌, ◌∷◌,
}
use toy_relational_database.Errors.{Result, ok, throw, Error, ◌>>=◌}
use toy_relational_database.Words.{le_bytes, write_at}
use toy_relational_database.Page.{Page, zero_page}
use toy_relational_database.Disk.{DiskManager, Written, read_page, write_page, allocate_page}
use toy_relational_database.Wal.{WalManager, Appended, append_record}

pub record Frame : Type 0 where
  pub page : Page
  pub page_id : ℕ
  pub pin_count : ℕ
  pub dirty : Bool

-- The page table by its entries; the last one of `free_list_` first. `lru_iters_` only says where in
-- `lru_list_` a frame is. Without a log there is no WalManager.
pub record BufferPool : Type 0 where
  pub frames : List Frame
  pub page_table : List (ℕ × ℕ)
  pub free_list : List ℕ
  pub lru_list : List ℕ
  pub disk : DiskManager
  pub wal : Option WalManager

-- A call's answer or exception, and the pool that it leaves in both cases.
pub record Pooled (Answer : Type 0) : Type 0 where
  pub result : Result Answer
  pub pool : BufferPool

-- The constructor: every frame is free.
abbrev pub empty_frame : Frame
empty_frame = record { page = zero_page; page_id = 4294967295; pin_count = 0; dirty = false }

unfoldable pub count_down : ℕ → List ℕ
count_down zero = []
count_down (suc n) = n ∷ count_down n

unfoldable pub open_pool : ℕ → DiskManager → Option WalManager → BufferPool
unfolding count_down
open_pool pool_size disk wal = record {
  frames = replicate pool_size empty_frame;
  page_table = [];
  free_list = count_down pool_size;
  lru_list = [];
  disk = disk;
  wal = wal;
}

-- `page_table_.find(page_id)`
unfoldable pub find_frame : List (ℕ × ℕ) → ℕ → Option ℕ
find_frame [] page_id = none
find_frame (e ∷ es) page_id =
    let rest = find_frame es page_id in if e.0 == page_id then some e.1 else rest

-- `page_table_.erase(page_id)`
unfoldable pub erase_page : List (ℕ × ℕ) → ℕ → List (ℕ × ℕ)
erase_page [] page_id = []
erase_page (e ∷ es) page_id =
    let rest = erase_page es page_id in if e.0 == page_id then rest else e ∷ rest

-- RemoveFromLRU
unfoldable pub remove_from_lru : ℕ → List ℕ → List ℕ
remove_from_lru f [] = []
remove_from_lru f (g ∷ gs) = let rest = remove_from_lru f gs in if g == f then rest else g ∷ rest

-- TouchLRU
unfoldable pub touch_lru : ℕ → List ℕ → List ℕ
unfolding remove_from_lru
touch_lru f lru = f ∷ remove_from_lru f lru

abbrev pub is_unpinned : Option Frame → Bool
is_unpinned none = false
is_unpinned (some frame) = frame.pin_count == 0

-- The loop of FindVictimFrame from the back of the list.
unfoldable pub last_unpinned : List Frame → List ℕ → Option ℕ
last_unpinned frames [] = none
last_unpinned frames (f ∷ fs) = elim (last_unpinned frames fs) [
  | none ↦ if is_unpinned (get_elem? frames f) then some f else none
  | some g ↦ some g
]

-- Behind the write of a dirty page: the page leaves the table unless the write failed.
abbrev pub finish_evict : ℕ → Frame → BufferPool → Result (Unit {0}) → Pooled (Option ℕ)
finish_evict f frame saved (throw exception) = record { result = throw exception; pool = saved }
finish_evict f frame saved (ok u) = record {
  result = ok (some f);
  pool = record saved { page_table = erase_page saved.page_table frame.page_id };
}

unfoldable pub evict : ℕ → BufferPool → ℕ → Frame → Pooled (Option ℕ)
unfolding remove_from_lru erase_page
evict written pool f frame =
    let chosen : BufferPool = record pool { lru_list = remove_from_lru f pool.lru_list } in
    let w : Written = write_page written pool.disk frame.page_id frame.page in
    if frame.dirty
    then finish_evict f frame
        (record chosen {
          frames = set pool.frames f (record frame { page = w.page });
          disk = w.disk;
        })
        w.result
    else finish_evict f frame chosen (ok tt)

unfoldable pub evict_at : ℕ → BufferPool → ℕ → Option Frame → Pooled (Option ℕ)
unfolding evict
evict_at written pool f none = record { result = ok none; pool = pool }
evict_at written pool f (some frame) = evict written pool f frame

unfoldable pub evict_from : ℕ → BufferPool → Option ℕ → Pooled (Option ℕ)
unfolding evict_at
evict_from written pool none = record { result = ok none; pool = pool }
evict_from written pool (some f) = evict_at written pool f (get_elem? pool.frames f)

-- FindVictimFrame
unfoldable pub victim_from : ℕ → BufferPool → List ℕ → Pooled (Option ℕ)
unfolding evict_from last_unpinned
victim_from written pool [] = evict_from written pool (last_unpinned pool.frames pool.lru_list)
victim_from written pool (f ∷ fs) = record {
  result = ok (some f);
  pool = record pool { free_list = fs };
}

abbrev pub find_victim_frame : ℕ → BufferPool → Pooled (Option ℕ)
find_victim_frame written pool = victim_from written pool pool.free_list

-- What FetchPage and NewPage do with the frame they have.
unfoldable pub load_frame : BufferPool → ℕ → Frame → BufferPool
unfolding touch_lru
load_frame pool f frame = record pool {
  frames = set pool.frames f frame;
  page_table = (frame.page_id, f) ∷ pool.page_table;
  lru_list = touch_lru f pool.lru_list;
}

-- `frame.pin_count++`
abbrev pub pin_frame : Option Frame → List Frame → ℕ → List Frame
pin_frame none frames f = frames
pin_frame (some frame) frames f = set frames f (record frame { pin_count = frame.pin_count + 1 })

-- A page that cannot be read leaves the frame that was taken for it in neither list.
abbrev pub fetch_read : ℕ → BufferPool → ℕ → Result Page → Pooled (Option ℕ)
fetch_read page_id pool f (throw exception) = record { result = throw exception; pool = pool }
fetch_read page_id pool f (ok page) = record {
  result = ok (some f);
  pool =
      load_frame pool f (record { page = page; page_id = page_id; pin_count = 1; dirty = false });
}

-- Behind the search for a frame.
abbrev pub fetch_into : ℕ → BufferPool → Result (Option ℕ) → Pooled (Option ℕ)
fetch_into page_id pool (throw exception) = record { result = throw exception; pool = pool }
fetch_into page_id pool (ok none) = record { result = ok none; pool = pool }
fetch_into page_id pool (ok (some f)) = fetch_read page_id pool f (read_page pool.disk page_id)

abbrev pub fetch_at : ℕ → BufferPool → ℕ → Option ℕ → Pooled (Option ℕ)
fetch_at written pool page_id none =
    let found = find_victim_frame written pool in fetch_into page_id found.pool found.result
fetch_at written pool page_id (some f) = record {
  result = ok (some f);
  pool = record pool {
    frames = pin_frame (get_elem? pool.frames f) pool.frames f;
    lru_list = touch_lru f pool.lru_list;
  };
}

unfoldable pub fetch_page : ℕ → BufferPool → ℕ → Pooled (Option ℕ)
unfolding find_frame victim_from load_frame touch_lru
fetch_page written pool page_id = fetch_at written pool page_id (find_frame pool.page_table page_id)

-- NewPage behind the search for a frame.
abbrev pub new_into : BufferPool → Result (Option ℕ) → Pooled (Option (ℕ × ℕ))
new_into pool (throw exception) = record { result = throw exception; pool = pool }
new_into pool (ok none) = record { result = ok none; pool = pool }
new_into pool (ok (some f)) =
    let allocated = allocate_page pool.disk in
    record {
      result = ok (some (allocated.0, f));
      pool =
          load_frame (record pool { disk = allocated.1 }) f
            (record {
              page = write_at zero_page 0 (le_bytes 4 allocated.0);
              page_id = allocated.0;
              pin_count = 1;
              dirty = true;
            });
    }

unfoldable pub new_page : ℕ → BufferPool → Pooled (Option (ℕ × ℕ))
unfolding victim_from load_frame allocate_page
new_page written pool =
    let found = find_victim_frame written pool in new_into found.pool found.result
