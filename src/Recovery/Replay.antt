-- ===== src/Recovery/Replay.antt =====
-- src/recovery.cpp: the pages that can be read after recovery.
use toy_relational_database.Prelude.{
  ==_iff, All, Bool-cases, Bytes, List, [], arith, drop, get_elem?, inl, inr, length, length-append,
  length-drop, length-replicate, length-take, none, refl, replicate, some, suc, take, zero, ℕ, ◌-◌,
  ◌==◌, ◌∷◌, ◌≡◌, ◌≢◌, ◌≤◌,
}
use toy_relational_database.Errors.{Result, ok, Result-cases}
use toy_relational_database.Page.{Page, page_size, zero_page, compute_checksum, set_checksum}
use toy_relational_database.Page.Fields.{length-set_checksum}
use toy_relational_database.Disk.{
  DiskManager, PageFile, Written, fill_page, pwrite_page, write_page, read_page,
}
use toy_relational_database.Disk.Reads.{
  IsPageFile, read-write_page, get_elem?-pwrite_page_ne, check_page-ok,
}
use toy_relational_database.Wal.{RecoveredPage}
use toy_relational_database.Wal.Record.{IsRecord}
use toy_relational_database.Recovery.{find_page, replay_step, replay}
use toy_relational_database.Recovery.Latest.{Distinct}

fill_page-le : (x : Page) → length x ≤ page_size → length (fill_page x) ≤ page_size
unfolding fill_page
fill_page-le x h = omega (
  arith,
  length-append x (replicate (page_size - length x) 0),
  length-replicate {A = ℕ} (page_size - length x) 0,
)

pwrite_page-IsPageFile :
    (file : PageFile) (p : ℕ) (bytes : Bytes)
    → length bytes ≤ page_size
    → IsPageFile file
    → IsPageFile (pwrite_page file p bytes)
unfolding pwrite_page
pwrite_page-IsPageFile [] zero bytes h f = (h, tt)
pwrite_page-IsPageFile [] (suc p) bytes h f = (
  unfold zero_page in omega (arith, length-replicate {A = ℕ} page_size 0),
  pwrite_page-IsPageFile [] p bytes h tt,
)
pwrite_page-IsPageFile (x ∷ xs) zero bytes h f = (
  omega (arith, f.0, length-append bytes (drop (length bytes) x), length-drop (length bytes) x),
  f.1,
)
pwrite_page-IsPageFile (x ∷ xs) (suc p) bytes h f =
    (fill_page-le x f.0, pwrite_page-IsPageFile xs p bytes h f.1)

write_page-IsPageFile :
    (written : ℕ) (disk : DiskManager) (p : ℕ) (page : Page)
    → length page ≡ page_size
    → IsPageFile disk.file
    → IsPageFile (write_page written disk p page).disk.file
unfolding write_page
write_page-IsPageFile written disk p page h f = elim (Bool-cases (written == 0)) [
  | inl e ↦ rw e f
  | inr e ↦
      let page' = set_checksum page (compute_checksum page) in
      rw e (
        pwrite_page-IsPageFile disk.file p (take written page')
          (omega
            (arith, length-take written page', length-set_checksum page (compute_checksum page) h))
          f)
]

-- A write of any part of page `p` leaves every other page that can be read.
write_page-keeps :
    (written : ℕ) (disk : DiskManager) (p q : ℕ) (page : Page) {other : Page}
    → p ≢ q
    → read_page disk q ≡ ok other
    → read_page (write_page written disk p page).disk q ≡ ok other
unfolding write_page read_page
write_page-keeps written disk p q page n e = elim (Bool-cases (written == 0)) [
  | inl none_written ↦ rw none_written e
  | inr some_written ↦
      let found = check_page-ok (get_elem? disk.file q) e in
      rw
        (
          some_written,
          get_elem?-pwrite_page_ne disk.file p q
              (take written (set_checksum page (compute_checksum page))) n found.1 found.0,
        )
        (rw found.0 at e)
]

write_page-ok :
    (disk : DiskManager) (p : ℕ) (page : Page) → (write_page page_size disk p page).result ≡ ok tt
unfolding write_page
write_page-ok disk p page = refl

abbrev pub whole_writes : ℕ → ℕ
whole_writes p = page_size

-- The image that recovery writes.
abbrev pub image : RecoveredPage → Page
image r = set_checksum r.page (compute_checksum r.page)

-- What a write establishes and the later writes keep holds after the loop, broken off or not.
replay_step_inv :
    (P : DiskManager → Type 0) (continue : DiskManager → Result (Unit {0}) × DiskManager)
    (w : Written)
    → P w.disk
    → (P w.disk → P (continue w.disk).1)
    → P (replay_step continue w).1
unfolding replay_step
replay_step_inv P continue w h k = elim (Result-cases w.result) [
  | inl (a, e) ↦ rw (e, replay_step) (k h)
  | inr (e', e) ↦ rw (e, replay_step) h
]

pub replay-IsPageFile :
    (written : ℕ → ℕ) (rs : List RecoveredPage) (disk : DiskManager)
    → All IsRecord rs
    → IsPageFile disk.file
    → IsPageFile (replay written rs disk).1.file
unfolding replay
replay-IsPageFile written [] disk h f = f
replay-IsPageFile written (r ∷ rs) disk h f =
    replay_step_inv (λ d. IsPageFile d.file) (replay written rs)
      (write_page (written r.page_id) disk r.page_id r.page)
      (write_page-IsPageFile (written r.page_id) disk r.page_id r.page h.0.page_length f)
      (replay-IsPageFile written rs (write_page (written r.page_id) disk r.page_id r.page).disk h.1)

-- A page with no entry keeps what can be read of it.
pub replay-keeps :
    (written : ℕ → ℕ) (rs : List RecoveredPage) (disk : DiskManager) (q : ℕ) (other : Page)
    → find_page q rs ≡ none
    → read_page disk q ≡ ok other
    → read_page (replay written rs disk).1 q ≡ ok other
unfolding replay find_page
replay-keeps written [] disk q other n e = e
replay-keeps written (r ∷ rs) disk q other n e = elim (Bool-cases (r.page_id == q)) [
  | inl same ↦ absurd (cc (rw same at n))
  | inr differ ↦
      let ne : r.page_id ≢ q = λ s. cc ((==_iff r.page_id q).1 s, differ) in
      replay_step_inv (λ d. read_page d q ≡ ok other) (replay written rs)
        (write_page (written r.page_id) disk r.page_id r.page)
        (write_page-keeps (written r.page_id) disk r.page_id q r.page ne e)
        (replay-keeps written rs (write_page (written r.page_id) disk r.page_id r.page).disk q other
          (rw differ at n))
]

-- With whole writes the loop returns, and every entry's page reads as its image.
pub replay-writes :
    (rs : List RecoveredPage) (disk : DiskManager)
    → All IsRecord rs
    → Distinct rs
    → IsPageFile disk.file
    → ((replay whole_writes rs disk).0 ≡ ok tt)
      × ((q : ℕ) (r : RecoveredPage)
          → find_page q rs ≡ some r
          → read_page (replay whole_writes rs disk).1 q ≡ ok (image r))
unfolding replay replay_step find_page
replay-writes [] disk h d f = (refl, λ q r e. cc)
replay-writes (r ∷ rs) disk h d f =
    let w = write_page page_size disk r.page_id r.page in
    let f' = write_page-IsPageFile page_size disk r.page_id r.page h.0.page_length f in
    let ih = replay-writes rs w.disk h.1 d.1 f' in
    let own = (read-write_page disk r.page_id r.page h.0.page_length f).0 in
    rw (write_page-ok disk r.page_id r.page, replay_step)
      (
        ih.0,
        λ q x e. elim (Bool-cases (r.page_id == q)) [
          | inl same ↦
              let is_r : r ≡ x = cc (rw same at e) in
              let at_q : r.page_id ≡ q = (==_iff r.page_id q).0 same in
              rw (← is_r, ← at_q) (replay-keeps whole_writes rs w.disk r.page_id (image r) d.0 own)
          | inr differ ↦ ih.1 q x (rw differ at e)
        ],
      )
