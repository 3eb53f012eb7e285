-- ===== src/Disk.antt =====
-- include/disk_manager.h and src/disk_manager.cpp: the data file in units of pages.
-- The file is the list of its pages; only the last one may be shorter than a page, after a write
-- that was cut off. `pwrite` belongs to the operating system: how many bytes a call wrote is an
-- argument, 0 standing also for its error.
pub mod Reads
use toy_relational_database.Prelude.{
  Bool, Bytes, List, Option, [], drop, get_elem?, if◌then◌else◌, length, none, replicate, some, suc,
  take, zero, ℕ, ◌%◌, ◌++◌, ◌+◌, ◌-◌, ◌==◌, ◌∷◌,
}
use toy_relational_database.Errors.{
  Result, ok, throw, io_error, short_read, checksum_mismatch, short_write, fsync_failed,
}
use toy_relational_database.Page.{
  Page, page_size, zero_page, compute_checksum, stored_checksum, set_checksum,
}

abbrev pub PageFile : Type 0
PageFile = List Page

pub record DiskManager : Type 0 where
  pub file : PageFile
  pub next_page_id : ℕ

-- The zeroes that the system puts behind a cut-off last page when the file grows past it.
unfoldable pub fill_page : Page → Page
fill_page page = page ++ replicate (page_size - length page) 0

-- pwrite of some bytes from the start of page `page_id` on; a hole reads as zeroes.
unfoldable pub pwrite_page : PageFile → ℕ → Bytes → PageFile
unfolding fill_page zero_page
pwrite_page [] zero bytes = bytes ∷ []
pwrite_page [] (suc p) bytes = zero_page ∷ pwrite_page [] p bytes
pwrite_page (x ∷ xs) zero bytes = (bytes ++ drop (length bytes) x) ∷ xs
pwrite_page (x ∷ xs) (suc p) bytes = fill_page x ∷ pwrite_page xs p bytes

-- `st_size / PAGE_SIZE`; its users cast it to `uint32_t`
unfoldable pub count_pages : PageFile → ℕ
count_pages [] = 0
count_pages (x ∷ xs) = (if length x == page_size then 1 else 0) + count_pages xs

unfoldable pub open_disk : PageFile → DiskManager
unfolding count_pages
open_disk file = record { file = file; next_page_id = count_pages file % 4294967296 }

-- The checks of ReadPage on what `pread` returned.
unfoldable pub check_page : Option Page → Result Page
unfolding compute_checksum stored_checksum
check_page none = throw (io_error short_read)
check_page (some page) =
    if length page == page_size
    then if stored_checksum page == compute_checksum page
      then ok page
      else throw (io_error checksum_mismatch)
    else throw (io_error short_read)

unfoldable pub read_page : DiskManager → ℕ → Result Page
unfolding check_page
read_page disk page_id = check_page (get_elem? disk.file page_id)

-- WritePage; the page of the caller gets the checksum too.
pub record Written : Type 0 where
  pub result : Result (Unit {0})
  pub disk : DiskManager
  pub page : Page

unfoldable pub write_page : ℕ → DiskManager → ℕ → Page → Written
unfolding pwrite_page set_checksum compute_checksum
write_page written disk page_id page =
    let page' = set_checksum page (compute_checksum page) in
    record {
      result = if written == page_size then ok tt else throw (io_error short_write);
      disk =
          if written == 0
          then disk
          else record disk { file = pwrite_page disk.file page_id (take written page') };
      page = page';
    }

-- AllocatePage: fetch_add on a `uint32_t`. The file does not grow.
unfoldable pub allocate_page : DiskManager → ℕ × DiskManager
allocate_page disk =
    (disk.next_page_id, record disk { next_page_id = (disk.next_page_id + 1) % 4294967296 })

-- Flush, for the answer of `fsync`.
unfoldable pub flush : Bool → Result (Unit {0})
flush synced = if synced then ok tt else throw (io_error fsync_failed)

unfoldable pub num_pages : DiskManager → ℕ
num_pages disk = disk.next_page_id

-- RefreshNextPageIdAfterRecovery
unfoldable pub refresh_next_page_id : DiskManager → DiskManager
unfolding count_pages
refresh_next_page_id disk = record disk { next_page_id = count_pages disk.file % 4294967296 }
