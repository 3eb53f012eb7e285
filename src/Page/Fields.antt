-- ===== src/Page/Fields.antt =====
-- include/page.h and include/checksum.h: fields written and read back, and what the checksum covers.
use toy_relational_database.Prelude.{
  Bytes, [], ap, arith, drop, length, length-append, length-drop, length-take, refl, suc, sym, take,
  take-append-drop, ℕ, ◌++◌, ◌+◌, ◌<◌, ◌∙◌, ◌∷◌, ◌≡◌, ◌≤◌,
}
use toy_relational_database.Words.{
  le_bytes, from_le, read_at, write_at, length-le_bytes, from_le-le_bytes, read_at-append,
  write_at-append,
}
use toy_relational_database.Page.{
  Page, page_size, lsn_offset, checksum_offset, fnv_step, fnv_offset, checksum_from,
  compute_checksum, stored_checksum, set_checksum, stored_lsn, set_lsn,
}

-- A text cut into the `n` bytes at `offset`, what stands before and what stands behind.
pub record Cut (offset n : ℕ) (bytes : Bytes) : Type 0 where
  pub front : Bytes
  pub middle : Bytes
  pub rest : Bytes
  pub whole : bytes ≡ front ++ (middle ++ rest)
  pub front_length : length front ≡ offset
  pub middle_length : length middle ≡ n

pub cut : (offset n : ℕ) (bytes : Bytes) → offset + n ≤ length bytes → Cut offset n bytes
cut offset n bytes h = record {
  front = take offset bytes;
  middle = take n (drop offset bytes);
  rest = drop n (drop offset bytes);
  whole = sym (
      ap (λ t. take offset bytes ++ t) (take-append-drop n (drop offset bytes))
      ∙ take-append-drop offset bytes);
  front_length = omega (arith, length-take offset bytes);
  middle_length = omega (arith, length-take n (drop offset bytes), length-drop offset bytes);
}

pub length-write_at :
    (blob : Bytes) (offset : ℕ) (bytes : Bytes)
    → offset + length bytes ≤ length blob
    → length (write_at blob offset bytes) ≡ length blob
unfolding write_at
length-write_at blob offset bytes h = omega (
  arith,
  length-append (take offset blob) (bytes ++ drop (offset + length bytes) blob),
  length-append bytes (drop (offset + length bytes) blob),
  length-take offset blob,
  length-drop (offset + length bytes) blob,
)

pub length-set_checksum :
    (page : Page) (c : ℕ) → length page ≡ page_size → length (set_checksum page c) ≡ page_size
unfolding set_checksum
length-set_checksum page c h =
    length-write_at page checksum_offset (le_bytes 4 c) (omega (arith, length-le_bytes 4 c)) ∙ h

pub length-set_lsn :
    (page : Page) (lsn : ℕ) → length page ≡ page_size → length (set_lsn page lsn) ≡ page_size
unfolding set_lsn
length-set_lsn page lsn h =
    length-write_at page lsn_offset (le_bytes 4 lsn) (omega (arith, length-le_bytes 4 lsn)) ∙ h

-- What is read at a place is what was last written there.
read_at-write_at :
    (blob : Bytes) (offset : ℕ) (bytes : Bytes) (n : ℕ)
    → length bytes ≡ n
    → offset + n ≤ length blob
    → read_at (write_at blob offset bytes) offset n ≡ bytes
read_at-write_at blob offset bytes n e h =
    let c = cut offset n blob h in
    rw
      (
        c.whole,
        write_at-append c.front c.middle bytes c.rest offset c.front_length
            (c.middle_length ∙ sym e),
      )
      (read_at-append c.front bytes c.rest offset n c.front_length e)

pub stored-set_checksum :
    (page : Page) (c : ℕ)
    → length page ≡ page_size
    → c < 4294967296
    → stored_checksum (set_checksum page c) ≡ c
unfolding stored_checksum set_checksum
stored-set_checksum page c h fits =
    ap from_le
      (read_at-write_at page checksum_offset (le_bytes 4 c) 4 (length-le_bytes 4 c) (omega arith))
    ∙ from_le-le_bytes 4 c fits

pub stored-set_lsn :
    (page : Page) (lsn : ℕ)
    → length page ≡ page_size
    → lsn < 4294967296
    → stored_lsn (set_lsn page lsn) ≡ lsn
unfolding stored_lsn set_lsn
stored-set_lsn page lsn h fits =
    ap from_le
      (read_at-write_at page lsn_offset (le_bytes 4 lsn) 4 (length-le_bytes 4 lsn) (omega arith))
    ∙ from_le-le_bytes 4 lsn fits

checksum_from-lt :
    (i hash : ℕ) (bytes : Bytes) → hash < 4294967296 → checksum_from i hash bytes < 4294967296
unfolding checksum_from fnv_step
checksum_from-lt i hash [] h = h
checksum_from-lt i hash (b ∷ bs) h = checksum_from-lt (i + 1) _ bs (ground arith)

pub compute_checksum-lt : (page : Page) → compute_checksum page < 4294967296
unfolding compute_checksum
compute_checksum-lt page = checksum_from-lt 0 fnv_offset page (omega arith)

checksum_from-append :
    (i hash : ℕ) (xs ys : Bytes)
    → checksum_from i hash (xs ++ ys) ≡ checksum_from (i + length xs) (checksum_from i hash xs) ys
unfolding checksum_from
checksum_from-append i hash [] ys = let e : i + 0 ≡ i = omega arith in rw e
checksum_from-append i hash (x ∷ xs) ys =
    let e : i + suc (length xs) ≡ (i + 1) + length xs = omega arith in
    rw e (checksum_from-append (i + 1) _ xs ys)

-- The four bytes of the checksum field are skipped.
checksum_from_field :
    (hash : ℕ) (field : Bytes) → length field ≡ 4 → checksum_from 13 hash field ≡ hash
unfolding checksum_from
checksum_from_field hash (a ∷ b ∷ c ∷ d ∷ []) h = refl
checksum_from_field hash [] h = absurd (omega arith)
checksum_from_field hash (a ∷ []) h = absurd (omega arith)
checksum_from_field hash (a ∷ b ∷ []) h = absurd (omega arith)
checksum_from_field hash (a ∷ b ∷ c ∷ []) h = absurd (omega arith)
checksum_from_field hash (a ∷ b ∷ c ∷ d ∷ e ∷ r) h = absurd (omega arith)

checksum_around :
    (front field rest : Bytes)
    → length front ≡ checksum_offset
    → length field ≡ 4
    → checksum_from 0 fnv_offset (front ++ (field ++ rest))
      ≡ checksum_from 17 (checksum_from 0 fnv_offset front) rest
checksum_around front field rest e f = rw (
  checksum_from-append 0 fnv_offset front (field ++ rest),
  e,
  checksum_from-append 13 (checksum_from 0 fnv_offset front) field rest,
  f,
  checksum_from_field (checksum_from 0 fnv_offset front) field f,
)

-- Storing the checksum does not change it.
pub compute-set_checksum :
    (page : Page) (c : ℕ)
    → length page ≡ page_size
    → compute_checksum (set_checksum page c) ≡ compute_checksum page
unfolding compute_checksum set_checksum
compute-set_checksum page c h =
    let four = length-le_bytes 4 c in
    let p = cut checksum_offset 4 page (omega arith) in
    rw
      (
        p.whole,
        write_at-append p.front p.middle (le_bytes 4 c) p.rest checksum_offset p.front_length
            (p.middle_length ∙ sym four),
      )
      (checksum_around p.front (le_bytes 4 c) p.rest p.front_length four
        ∙ sym (checksum_around p.front p.middle p.rest p.front_length p.middle_length))
