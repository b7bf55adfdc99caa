-- ===== src/Bitmap.antt =====
-- lib/kernel/bitmap.c and bitmap.h: a map of bits, one for each page, pid, inode or block.
pub mod Bits
pub mod Scan
pub mod Runs
mod Tests
use sparrow_os.Base.{
  ℕ, zero, suc, ◌+◌, ◌-◌, ◌*◌, ◌/◌, ◌%◌, ◌^◌, ◌<◌, bit_and, bit_or, Bool, ◌||◌, not, Option, none,
  some, Res, ok, check, ◌>>=◌, ◌>>◌, ltb, ◌==◌, if◌then◌else◌, update,
}

-- `struct bitmap`. `bits` is the memory behind the pointer: the map proper is its first
-- `btmp_bytes_len` bytes, and what follows is whatever lies there.
pub record Bitmap : Type 0 where
  pub btmp_bytes_len : ℕ
  pub bits : ℕ → ℕ

-- The number of bits that the map proper has.
abbrev pub total : Bitmap → ℕ
total m = m.btmp_bytes_len * 8

-- `byte & (BITMAP_MASK << k)` as a truth value; at k = 8 the mask is cut to 0 by its cast.
unfoldable pub bit : ℕ → ℕ → Bool
bit byte k = not (bit_and byte (2 ^ k % 256) == 0)

-- `bitmap_init`: the loop of `memset` writes the bytes of the map proper.
pub init : Bitmap → Bitmap
init m = record m { bits = λ i. if ltb i m.btmp_bytes_len then 0 else m.bits i }

unfoldable pub scan_test : Bitmap → ℕ → Bool
scan_test m bit_idx = bit (m.bits (bit_idx / 8)) (bit_idx % 8)

-- The two writes of `bitmap_set`, to a byte.
unfoldable pub set_byte : ℕ → ℕ → ℕ → ℕ
set_byte byte k value = if value == 1 then bit_or byte (2 ^ k) else bit_and byte (255 - 2 ^ k)

unfoldable pub set : Bitmap → ℕ → ℕ → Res Bitmap
unfolding set_byte
set m bit_idx value = do
  check ((value == 0) || (value == 1))
  let byte_idx = bit_idx / 8
  let byte = set_byte (m.bits byte_idx) (bit_idx % 8) value
  ok (record m { bits = update m.bits byte_idx byte })

-- The first loop of `bitmap_scan`, from byte `i` with `left` bytes of the map to go.
unfoldable pub first_byte : Bitmap → ℕ → ℕ → ℕ
first_byte m i zero = i
first_byte m i (suc left) = if 0xff == m.bits i then first_byte m (i + 1) left else i

-- The second loop: the lowest clear bit of a byte. At bit 8 the mask is 0 and the loop ends.
unfoldable pub first_bit : ℕ → ℕ → ℕ → ℕ
first_bit byte k zero = k
first_bit byte k (suc left) = if bit byte k then first_bit byte (k + 1) left else k

-- The third loop, with `left` rounds to go. A run that has been counted ends at `next`, so
-- `next - cnt + 1` does not wrap.
unfoldable pub find_run : Bitmap → ℕ → ℕ → ℕ → ℕ → Option ℕ
find_run m cnt zero next count = none
find_run m cnt (suc left) next count =
    let count' = if scan_test m next then 0 else count + 1 in
    let rest = find_run m cnt left (next + 1) count' in
    if count' == cnt then some (next + 1 - cnt) else rest

-- The clear bit at which the search for a run begins.
unfoldable pub start : Bitmap → ℕ → ℕ
start m idx_byte = idx_byte * 8 + first_bit (m.bits idx_byte) 0 8

-- `bitmap_scan`; `none` stands for the result -1.
unfoldable pub scan : Bitmap → ℕ → Res (Option ℕ)
scan m cnt = do
  let idx_byte = first_byte m 0 m.btmp_bytes_len
  check (ltb idx_byte m.btmp_bytes_len)
  if idx_byte == m.btmp_bytes_len
      then ok none
      else let from = start m idx_byte in
        if cnt == 1
        then ok (some from)
        else ok (find_run m cnt (m.btmp_bytes_len * 8 - from) (from + 1) 1)
