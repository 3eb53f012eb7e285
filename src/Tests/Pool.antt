-- ===== src/Tests/Pool.antt =====
-- src/buffer_pool.cpp at a pool of three frames over an empty data file.
use toy_relational_database.Prelude.{[], refl, some, true}
use toy_relational_database.Words.{le_bytes, write_at}
use toy_relational_database.Page.{zero_page}
use toy_relational_database.Disk.{DiskManager}
use toy_relational_database.Wal.{WalManager}
use toy_relational_database.BufferPool.{
  Frame, BufferPool, open_pool, find_frame, new_page, fetch_page,
}
use toy_relational_database.BufferPool.Release.{unpin_page}
use toy_relational_database.BufferPool.Table.{Valid}
use toy_relational_database.BufferPool.Open.{open_pool-Valid}
use toy_relational_database.BufferPool.Fetch.{Fetched, fetch_page-Fetched}
use toy_relational_database.BufferPool.Alloc.{Made, new_page-Made}
use toy_relational_database.BufferPool.Unpin.{Unpinned, unpin_page-Unpinned}

abbrev no_pages : DiskManager
no_pages = record { file = []; next_page_id = 0 }

abbrev empty_log : WalManager
empty_log = record { file = []; next_offset = 0; next_lsn = 0; valid_records = [] }

abbrev start : BufferPool
start = open_pool 3 no_pages (some empty_log)

abbrev one_page : BufferPool
one_page = (new_page 4096 start).pool

abbrev first_frame : Frame
first_frame = record {
  page = write_at zero_page 0 (le_bytes 4 0);
  page_id = 0;
  pin_count = 1;
  dirty = true;
}

new_page-Made_example : Made start (new_page 4096 start)
unfolding open_pool find_frame
new_page-Made_example = new_page-Made 4096 start (open_pool-Valid 3 no_pages (some empty_log)) refl

one_page-Valid : Valid one_page
unfolding open_pool find_frame
one_page-Valid = (new_page-Made 4096 start (open_pool-Valid 3 no_pages (some empty_log)) refl).valid

fetch_page-Fetched_example : Fetched one_page 0 (fetch_page 4096 one_page 0)
fetch_page-Fetched_example = fetch_page-Fetched 4096 one_page 0 one_page-Valid

unpin_page-Unpinned_example :
    Unpinned one_page 0 2 empty_log first_frame (unpin_page 4116 true one_page 0 true)
unfolding new_page open_pool find_frame
unpin_page-Unpinned_example =
    unpin_page-Unpinned 4116 true one_page 0 2 empty_log first_frame one_page-Valid refl refl refl
