-- ===== src/Disk/Reads.antt =====
-- src/disk_manager.cpp: what a read of a page returns after a write.
use toy_relational_database.Prelude.{
  ==_iff, ==_refl, All, Bool-cases, Bytes, Option, [], ap, append-nil, arith, drop_all, get_elem?,
  inl, inr, length, none, refl, some, suc, sym, take, take_all, zero, ℕ, ◌==◌, ◌∙◌, ◌∷◌, ◌≡◌, ◌≢◌,
  ◌≤◌,
}
use toy_relational_database.Errors.{ok}
use toy_relational_database.Page.{Page, page_size, compute_checksum, stored_checksum, set_checksum}
use toy_relational_database.Page.Fields.{
  length-set_checksum, stored-set_checksum, compute_checksum-lt, compute-set_checksum,
}
use toy_relational_database.Disk.{
  PageFile, DiskManager, fill_page, pwrite_page, check_page, read_page, write_page,
}

get_elem?-pwrite_page_self :
    (file : PageFile) (p : ℕ) (bytes : Bytes)
    → length bytes ≡ page_size
    → All (λ x. length x ≤ page_size) file
    → get_elem? (pwrite_page file p bytes) p ≡ some bytes
unfolding pwrite_page
get_elem?-pwrite_page_self [] zero bytes h ok_file = refl
get_elem?-pwrite_page_self [] (suc p) bytes h ok_file = get_elem?-pwrite_page_self [] p bytes h tt
get_elem?-pwrite_page_self (x ∷ xs) zero bytes h ok_file =
    rw (drop_all (length bytes) x (omega arith)) (ap some (append-nil bytes))
get_elem?-pwrite_page_self (x ∷ xs) (suc p) bytes h ok_file =
    get_elem?-pwrite_page_self xs p bytes h ok_file.1

fill_page_full : (page : Page) → length page ≡ page_size → fill_page page ≡ page
unfolding fill_page
fill_page_full page h = rw h (append-nil page)

-- Another page that was whole stays as it is.
pub get_elem?-pwrite_page_ne :
    (file : PageFile) (p q : ℕ) (bytes : Bytes) {page : Page}
    → p ≢ q
    → length page ≡ page_size
    → get_elem? file q ≡ some page
    → get_elem? (pwrite_page file p bytes) q ≡ some page
unfolding pwrite_page
get_elem?-pwrite_page_ne [] p q bytes n h e = cc
get_elem?-pwrite_page_ne (x ∷ xs) zero zero bytes n h e = absurd (n refl)
get_elem?-pwrite_page_ne (x ∷ xs) zero (suc q) bytes n h e = e
get_elem?-pwrite_page_ne (x ∷ xs) (suc p) zero bytes {page} n h e =
    let same : x ≡ page = cc in rw (same, fill_page_full page h)
get_elem?-pwrite_page_ne (x ∷ xs) (suc p) (suc q) bytes n h e =
    get_elem?-pwrite_page_ne xs p q bytes (λ s. n (ap suc s)) h e

-- The pages of a file are at most a page long.
abbrev pub IsPageFile : PageFile → Type 0
IsPageFile file = All (λ x. length x ≤ page_size) file

check-set_checksum :
    (page : Page)
    → length page ≡ page_size
    → check_page (some (set_checksum page (compute_checksum page)))
      ≡ ok (set_checksum page (compute_checksum page))
unfolding check_page
check-set_checksum page h =
    let c = compute_checksum page in
    rw (
      length-set_checksum page c h,
      stored-set_checksum page c h (compute_checksum-lt page),
      compute-set_checksum page c h,
      ==_refl c,
    )

pub check_page-ok :
    (o : Option Page) {page : Page}
    → check_page o ≡ ok page
    → (o ≡ some page) × (length page ≡ page_size)
unfolding check_page
check_page-ok none h = cc
check_page-ok (some x) {page} h = elim (Bool-cases (length x == page_size)) [
  | inl e ↦ elim (Bool-cases (stored_checksum x == compute_checksum x)) [
    | inl f ↦
        let same : x ≡ page = cc (rw (e, f) at h) in
        (ap some same, ap length (sym same) ∙ (==_iff (length x) page_size).0 e)
    | inr f ↦ absurd (cc (rw (e, f) at h))
  ]
  | inr e ↦ absurd (cc (rw e at h))
]

written_whole :
    (page : Page)
    → length page ≡ page_size
    → take page_size (set_checksum page (compute_checksum page))
      ≡ set_checksum page (compute_checksum page)
written_whole page h =
    let c = compute_checksum page in
    take_all page_size (set_checksum page c) (omega (arith, length-set_checksum page c h))

-- In a file of which at most the last page is cut off, a page that was written whole is read back,
-- with its checksum, and passes the check; every other page that could be read reads as before.
pub read-write_page :
    (disk : DiskManager) (p : ℕ) (page : Page)
    → length page ≡ page_size
    → IsPageFile disk.file
    → (read_page (write_page page_size disk p page).disk p
        ≡ ok (set_checksum page (compute_checksum page)))
      × ((q : ℕ) (other : Page)
          → p ≢ q
          → read_page disk q ≡ ok other
          → read_page (write_page page_size disk p page).disk q ≡ ok other)
unfolding read_page write_page
read-write_page disk p page h f =
    let c = compute_checksum page in
    let full = length-set_checksum page c h in
    (
      rw (written_whole page h, get_elem?-pwrite_page_self disk.file p (set_checksum page c) full f)
          (check-set_checksum page h),
      λ q other n e.
          let found = check_page-ok (get_elem? disk.file q) e in
          rw
            (
              written_whole page h,
              get_elem?-pwrite_page_ne disk.file p q (set_checksum page c) n found.1 found.0,
            )
            (rw found.0 at e),
    )
