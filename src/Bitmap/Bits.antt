-- ===== src/Bitmap/Bits.antt =====
-- `bitmap_set` and `bitmap_scan_test` at every pair of bits, by tables over one byte.
use Prim.Native.Nat.{bit_and-bitwise}
use sparrow_os.Base.{
  ℕ, zero, suc, ◌*◌, ◌/◌, ◌%◌, ◌^◌, ◌<◌, ◌≡◌, refl, inl, inr, Bool, true, false, ◌&&◌, not, ok,
  arith, ltb, ◌==◌, ==_iff, Bool-cases, if◌then◌else◌, update,
}
use sparrow_os.Base.Table.{holds_below, holds_below_lem}
use sparrow_os.Bitmap.{Bitmap, total, bit, init, scan_test, set_byte, set}

-- Every byte of the memory holds eight bits.
abbrev pub IsBytes : Bitmap → Type 0
IsBytes m = (i : ℕ) → m.bits i < 256

same : Bool → Bool → Bool
same a b = if a then b else not b

same_iff : (a b : Bool) → same a b ≡ true → a ≡ b
unfolding same
same_iff a b h = ground arith

-- A check of every byte and every pair of bits in it.
all_bits : (ℕ → ℕ → ℕ → Bool) → Bool
unfolding holds_below
all_bits p = holds_below 256 (λ b. holds_below 8 (λ k. holds_below 8 (λ j. p b k j)))

all_bits_sound :
    (p : ℕ → ℕ → ℕ → Bool) (b k j : ℕ)
    → all_bits p ≡ true
    → b < 256
    → k < 8
    → j < 8
    → p b k j ≡ true
unfolding all_bits
all_bits_sound p b k j h hb hk hj =
    holds_below_lem 8 (p b k) j
      (holds_below_lem 8 (λ k. holds_below 8 (p b k)) k
        (holds_below_lem 256 (λ b. holds_below 8 (λ k. holds_below 8 (p b k))) b h hb) hk)
      hj

byte_ok : ℕ → ℕ → ℕ → ℕ → Bool
unfolding same bit set_byte
byte_ok v b k j =
    ltb (set_byte b k v) 256 && same (bit (set_byte b k v) j) (if k == j then v == 1 else bit b j)

set_table : all_bits (byte_ok 1) ≡ true
unfolding all_bits byte_ok
set_table = refl

clear_table : all_bits (byte_ok 0) ≡ true
unfolding all_bits byte_ok
clear_table = refl

byte_ok_all : (v b k j : ℕ) → v < 2 → b < 256 → k < 8 → j < 8 → byte_ok v b k j ≡ true
byte_ok_all zero b k j hv hb hk hj = all_bits_sound (byte_ok 0) b k j clear_table hb hk hj
byte_ok_all (suc zero) b k j hv hb hk hj = all_bits_sound (byte_ok 1) b k j set_table hb hk hj
byte_ok_all (suc (suc v)) b k j hv hb hk hj = absurd (omega arith)

bit-set_byte :
    (v b k j : ℕ)
    → v < 2
    → b < 256
    → k < 8
    → j < 8
    → (set_byte b k v < 256) × (bit (set_byte b k v) j ≡ (if k == j then v == 1 else bit b j))
unfolding byte_ok
bit-set_byte v b k j hv hb hk hj =
    let h = byte_ok_all v b k j hv hb hk hj in
    ground (arith, same_iff (bit (set_byte b k v) j) (if k == j then v == 1 else bit b j))

-- The byte and the position of a bit say which bit it is.
index_split : (i j : ℕ) → i / 8 ≡ j / 8 → i % 8 ≡ j % 8 → i ≡ j
index_split i j p q = omega arith

module _ (m : Bitmap) (bytes : IsBytes m) (i value : ℕ) (small : value < 2) where
  -- `bitmap_set` accepts 0 and 1, changes the one bit and no other, and leaves the memory bytes.
  pub set_lem :
      (m' : Bitmap) × (set m i value ≡ ok m')
      × (m'.btmp_bytes_len ≡ m.btmp_bytes_len)
      × IsBytes m'
      × ((j : ℕ) → scan_test m' j ≡ (if i == j then value == 1 else scan_test m j))
  unfolding set scan_test
  set_lem = (
    record m { bits = update m.bits (i / 8) byte },
    ground arith,
    refl,
    λ j. ground (arith, here 0, bytes j),
    λ j. elim (Bool-cases (i / 8 == j / 8)) [
      | inl e ↦ rw e (ground (arith, here (j % 8), index_split i j, ==_iff (i / 8) (j / 8)))
      | inr e ↦ rw e (ground arith)
    ],
  )
    where
      byte : ℕ
      byte = set_byte (m.bits (i / 8)) (i % 8) value

      here :
          (k : ℕ)
          → k < 8
          → (set_byte (m.bits (i / 8)) (i % 8) value < 256)
            × (bit (set_byte (m.bits (i / 8)) (i % 8) value) k
                ≡ (if i % 8 == k then value == 1 else bit (m.bits (i / 8)) k))
      here k hk =
          bit-set_byte value (m.bits (i / 8)) (i % 8) k small (bytes (i / 8)) (omega arith) hk

same_side : (n j : ℕ) → ltb (j / 8) n ≡ ltb j (n * 8)
same_side n j = ground arith

-- After `bitmap_init` every bit of the map is clear, and the memory behind it is as it was.
pub init_lem :
    (m : Bitmap) (j : ℕ) → scan_test (init m) j ≡ (if ltb j (total m) then false else scan_test m j)
unfolding init scan_test bit
init_lem m j = ground (arith, bit_and-bitwise 0 (2 ^ (j % 8) % 256), same_side m.btmp_bytes_len j)

pub init_len : (m : Bitmap) → (init m).btmp_bytes_len ≡ m.btmp_bytes_len
unfolding init
init_len m = refl

pub init-IsBytes : (m : Bitmap) → IsBytes m → IsBytes (init m)
unfolding init
init-IsBytes m bytes i = ground (arith, bytes i)
