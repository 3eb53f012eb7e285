-- ===== src/Words.antt =====
-- Integers as the bytes that `std::memcpy` moves on a little-endian machine.
use native.Mathlib.Nat.{pow-suc}
use toy_relational_database.Prelude.{
  All, Bytes, IsByte, IsInt64, [], ap, arith, drop, drop-append, drop_past, if◌then◌else◌, length,
  ltb, negsuc, pos, refl, suc, take, take-append, take_all, zero, ℕ, ℤ, ◌%◌, ◌*◌, ◌++◌, ◌+◌, ◌-◌,
  ◌/◌, ◌<◌, ◌^◌, ◌∙◌, ◌∷◌, ◌≡◌,
}

-- memcpy into a buffer at an offset.
unfoldable pub write_at : Bytes → ℕ → Bytes → Bytes
write_at blob offset bytes = take offset blob ++ (bytes ++ drop (offset + length bytes) blob)

-- A read of `n` bytes from `offset` on. Behind the end, where the program's reads are undefined,
-- bytes are missing.
unfoldable pub read_at : Bytes → ℕ → ℕ → Bytes
read_at blob offset n = take n (drop offset blob)

abbrev first : Bytes → ℕ
first [] = 0
first (b ∷ _) = b

-- `blob[offset]`
unfoldable pub byte_at : Bytes → ℕ → ℕ
byte_at blob offset = first (drop offset blob)

pub read_at-append :
    (front bytes rest : Bytes) (offset n : ℕ)
    → length front ≡ offset
    → length bytes ≡ n
    → read_at (front ++ (bytes ++ rest)) offset n ≡ bytes
unfolding read_at
read_at-append front bytes rest offset n e f =
    rw (drop-append offset front (bytes ++ rest) e) (take-append n bytes rest f)

pub read_at-append_end :
    (front bytes : Bytes) (offset n : ℕ)
    → length front ≡ offset
    → length bytes ≡ n
    → read_at (front ++ bytes) offset n ≡ bytes
unfolding read_at
read_at-append_end front bytes offset n e f =
    rw (drop-append offset front bytes e) (take_all n bytes (omega arith))

pub byte_at-append :
    (front rest : Bytes) (b offset : ℕ)
    → length front ≡ offset
    → byte_at (front ++ b ∷ rest) offset ≡ b
unfolding byte_at
byte_at-append front rest b offset e = rw (drop-append offset front (b ∷ rest) e)

pub write_at-append :
    (front old bytes rest : Bytes) (offset : ℕ)
    → length front ≡ offset
    → length old ≡ length bytes
    → write_at (front ++ (old ++ rest)) offset bytes ≡ front ++ (bytes ++ rest)
unfolding write_at
write_at-append front old bytes rest offset e f = rw (
  take-append offset front (old ++ rest) e,
  drop_past offset (length bytes) front (old ++ rest) e,
  drop-append (length bytes) old rest f,
)

-- The `w` low bytes of a number, the least significant first.
unfoldable pub le_bytes : ℕ → ℕ → Bytes
le_bytes zero v = []
le_bytes (suc w) v = v % 256 ∷ le_bytes w (v / 256)

-- The number that such bytes stand for.
unfoldable pub from_le : Bytes → ℕ
from_le [] = 0
from_le (b ∷ bs) = b + 256 * from_le bs

pub length-le_bytes : (w v : ℕ) → length (le_bytes w v) ≡ w
unfolding le_bytes
length-le_bytes zero v = refl
length-le_bytes (suc w) v = ap suc (length-le_bytes w (v / 256))

pub le_bytes-IsByte : (w v : ℕ) → All IsByte (le_bytes w v)
unfolding le_bytes
le_bytes-IsByte zero v = tt
le_bytes-IsByte (suc w) v = (omega arith, le_bytes-IsByte w (v / 256))

-- Bytes written and read back are the value that was written, if it fits.
pub from_le-le_bytes : (w v : ℕ) → v < 256 ^ w → from_le (le_bytes w v) ≡ v
unfolding le_bytes from_le
from_le-le_bytes zero v h = omega arith
from_le-le_bytes (suc w) v h =
    let fits : v < 256 ^ w * 256 = rw (pow-suc 256 w) at h in
    omega (arith, from_le-le_bytes w (v / 256) (omega arith))

-- The bit pattern of an `int64_t`, and the value of a pattern.
unfoldable pub to_pattern : ℤ → ℕ
to_pattern (pos n) = n
to_pattern (negsuc n) = 18446744073709551615 - n

unfoldable pub from_pattern : ℕ → ℤ
from_pattern u = if ltb u 9223372036854775808 then pos u else negsuc (18446744073709551615 - u)

pub from_pattern-to_pattern : (v : ℤ) → IsInt64 v → from_pattern (to_pattern v) ≡ v
unfolding from_pattern to_pattern
from_pattern-to_pattern (pos n) h = ground arith
from_pattern-to_pattern (negsuc n) h = ground arith

pub to_pattern-lt : (v : ℤ) → IsInt64 v → to_pattern v < 256 ^ 8
unfolding to_pattern
to_pattern-lt (pos n) h = omega arith
to_pattern-lt (negsuc n) h = omega arith

-- memcpy of an `int64_t` into eight bytes, and back.
unfoldable pub store_int64 : ℤ → Bytes
unfolding to_pattern le_bytes
store_int64 v = le_bytes 8 (to_pattern v)

unfoldable pub load_int64 : Bytes → ℤ
unfolding from_pattern from_le
load_int64 bytes = from_pattern (from_le bytes)

pub length-store_int64 : (v : ℤ) → length (store_int64 v) ≡ 8
unfolding store_int64
length-store_int64 v = length-le_bytes 8 (to_pattern v)

pub load-store_int64 : (v : ℤ) → IsInt64 v → load_int64 (store_int64 v) ≡ v
unfolding store_int64 load_int64
load-store_int64 v h =
    ap from_pattern (from_le-le_bytes 8 (to_pattern v) (to_pattern-lt v h))
    ∙ from_pattern-to_pattern v h
