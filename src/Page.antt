-- ===== src/Page.antt =====
-- include/page.h and include/checksum.h: a page is its 4096 bytes, the header in the first 24.
pub mod Fields
use toy_relational_database.Prelude.{
  Bytes, [], bit_xor, if◌then◌else◌, leb, ltb, replicate, ℕ, ◌%◌, ◌&&◌, ◌*◌, ◌+◌, ◌∷◌,
}
use toy_relational_database.Words.{le_bytes, from_le, read_at, write_at}

abbrev pub Page : Type 0
Page = Bytes

-- PAGE_SIZE, and the offsets of the packed header's fields: page_id 0, page_type 4, num_slots 5,
-- free_space_ptr 7, lsn 9, checksum 13, reserved 17.
abbrev pub page_size : ℕ
page_size = 4096

abbrev pub lsn_offset : ℕ
lsn_offset = 9

abbrev pub checksum_offset : ℕ
checksum_offset = 13

unfoldable pub zero_page : Page
zero_page = replicate page_size 0

-- `hash ^= b; hash *= FNV_PRIME` on a `uint32_t`.
unfoldable pub fnv_step : ℕ → ℕ → ℕ
fnv_step hash b = (bit_xor hash b * 16777619) % 4294967296

abbrev pub fnv_offset : ℕ
fnv_offset = 2166136261

-- The loop of ComputeChecksum from byte `i` on.
unfoldable pub checksum_from : ℕ → ℕ → Bytes → ℕ
unfolding fnv_step
checksum_from i hash [] = hash
checksum_from i hash (b ∷ bs) =
    checksum_from (i + 1)
      (if leb checksum_offset i && ltb i (checksum_offset + 4) then hash else fnv_step hash b) bs

unfoldable pub compute_checksum : Page → ℕ
unfolding checksum_from
compute_checksum page = checksum_from 0 fnv_offset page

-- `page->header()->checksum` and `page->header()->lsn`, read and written.
unfoldable pub stored_checksum : Page → ℕ
unfolding read_at from_le
stored_checksum page = from_le (read_at page checksum_offset 4)

unfoldable pub set_checksum : Page → ℕ → Page
unfolding write_at le_bytes
set_checksum page c = write_at page checksum_offset (le_bytes 4 c)

unfoldable pub stored_lsn : Page → ℕ
unfolding read_at from_le
stored_lsn page = from_le (read_at page lsn_offset 4)

unfoldable pub set_lsn : Page → ℕ → Page
unfolding write_at le_bytes
set_lsn page lsn = write_at page lsn_offset (le_bytes 4 lsn)
