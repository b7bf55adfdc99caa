-- ===== src/Strings.antt =====
-- lib/string.c. The three functions on memory work on bytes by their address, and the address 0 is
-- `NULL`. A string is the list of its bytes before the 0 that ends it; a position in it stands for
-- a pointer. `char` is signed, so bytes are compared after a turn by 128.
pub mod Blocks
pub mod Compare
pub mod Find
mod Tests
use sparrow_os.Base.{
  ℕ, zero, suc, ◌+◌, ◌%◌, Bool, true, false, not, ◌||◌, ◌&&◌, Option, none, some, List, [], ◌∷◌,
  Res, ok, check, ◌>>=◌, ◌>>◌, ltb, ◌==◌, if◌then◌else◌, update,
}

-- The loop of `memset`.
pub fill : (ℕ → ℕ) → ℕ → ℕ → ℕ → ℕ → ℕ
fill mem dst value zero = mem
fill mem dst value (suc size) = fill (update mem dst (value % 256)) (dst + 1) value size

pub memset : (ℕ → ℕ) → ℕ → ℕ → ℕ → Res (ℕ → ℕ)
unfolding fill
memset mem dst value size = do check (not (dst == 0)); ok (fill mem dst value size)

-- The loop of `memcpy`, byte by byte from the start.
pub copy : (ℕ → ℕ) → ℕ → ℕ → ℕ → ℕ → ℕ
copy mem dst src zero = mem
copy mem dst src (suc size) = copy (update mem dst (mem src)) (dst + 1) (src + 1) size

pub memcpy : (ℕ → ℕ) → ℕ → ℕ → ℕ → Res (ℕ → ℕ)
unfolding copy
memcpy mem dst src size = do check (not (dst == 0) && not (src == 0)); ok (copy mem dst src size)

-- The results -1, 0 and 1 of a comparison.
pub data Sign : Type 0 where
  less : Sign
  same : Sign
  more : Sign

-- `a > b` on the type `char`.
unfoldable pub char_gt : ℕ → ℕ → Bool
char_gt a b = ltb ((b + 128) % 256) ((a + 128) % 256)

pub compare_loop : (ℕ → ℕ) → ℕ → ℕ → ℕ → Sign
unfolding char_gt
compare_loop mem a b zero = same
compare_loop mem a b (suc size) =
    let rest = compare_loop mem (a + 1) (b + 1) size in
    if not (mem a == mem b) then (if char_gt (mem a) (mem b) then more else less) else rest

pub memcmp : (ℕ → ℕ) → ℕ → ℕ → ℕ → Res Sign
unfolding compare_loop
memcmp mem a b size = do check (not (a == 0) || not (b == 0)); ok (compare_loop mem a b size)

-- `strcmp`, at the bytes where its loop stops.
unfoldable pub last_char : ℕ → ℕ → Sign
unfolding char_gt
last_char a b = if char_gt b a then less else if char_gt a b then more else same

unfoldable pub strcmp : List ℕ → List ℕ → Sign
unfolding last_char
strcmp [] [] = last_char 0 0
strcmp [] (b ∷ t) = last_char 0 b
strcmp (a ∷ s) [] = last_char a 0
strcmp (a ∷ s) (b ∷ t) = let rest = strcmp s t in if a == b then rest else last_char a b

pub strlen : List ℕ → ℕ
strlen [] = 0
strlen (c ∷ s) = suc (strlen s)

-- `strchr`, with the position in the string for the pointer.
pub strchr : List ℕ → ℕ → Option ℕ
strchr [] ch = none
strchr (c ∷ s) ch =
    let rest = strchr s ch in
    if c == ch then some 0 else elim rest [ none ↦ none | some i ↦ some (suc i) ]

-- The loop of `strrchr`, at a position and with the last one found.
unfoldable pub last_loop : List ℕ → ℕ → ℕ → Option ℕ → Option ℕ
last_loop [] ch pos last_char = last_char
last_loop (c ∷ s) ch pos last_char =
    last_loop s ch (pos + 1) (if ch == c then some pos else last_char)

unfoldable pub strrchr : List ℕ → ℕ → Option ℕ
unfolding last_loop
strrchr s ch = last_loop s ch 0 none

-- The loop of `strchrs`.
pub count_loop : List ℕ → ℕ → ℕ → ℕ
count_loop [] ch ch_cnt = ch_cnt
count_loop (c ∷ s) ch ch_cnt = count_loop s ch (if c == ch then ch_cnt + 1 else ch_cnt)

pub strchrs : List ℕ → ℕ → ℕ
unfolding count_loop
strchrs s ch = count_loop s ch 0
