-- ===== src/Strings/Blocks.antt =====
-- `memset`, `memcpy` and `memcmp` byte by byte.
use sparrow_os.Base.{
  ℕ, zero, suc, ◌+◌, ◌-◌, ◌%◌, ◌≤◌, ◌<◌, ◌≡◌, ◌≢◌, ◌∙◌, refl, ap, ◌⊎◌, inl, inr, Bool, ◌&&◌, ok,
  arith, ltb, leb, if◌then◌else◌, update,
}
use sparrow_os.Strings.{fill, memset, copy, memcpy, Sign, same, compare_loop, memcmp}

-- Is an address among the `n` from `i` on?
abbrev pub within : ℕ → ℕ → ℕ → Bool
within i n j = leb i j && ltb j (i + n)

fill_lem :
    (n : ℕ) (mem : ℕ → ℕ) (dst value j : ℕ)
    → fill mem dst value n j ≡ (if within dst n j then value % 256 else mem j)
unfolding fill
fill_lem zero mem dst value j = ground arith
fill_lem (suc n) mem dst value j =
    ground (arith, fill_lem n (update mem dst (value % 256)) (dst + 1) value j)

-- `memset` writes the low byte of its value to the bytes of its range and to no other.
pub memset_lem :
    (mem : ℕ → ℕ) (dst value size : ℕ)
    → dst ≢ 0
    → (mem' : ℕ → ℕ) × (memset mem dst value size ≡ ok mem')
      × ((j : ℕ) → mem' j ≡ (if within dst size j then value % 256 else mem j))
unfolding memset
memset_lem mem dst value size h =
    (fill mem dst value size, ground arith, λ j. fill_lem size mem dst value j)

copy_lem :
    (n : ℕ) (mem : ℕ → ℕ) (dst src j : ℕ)
    → (dst ≤ src) ⊎ (src + n ≤ dst)
    → copy mem dst src n j ≡ (if within dst n j then mem (src + (j - dst)) else mem j)
unfolding copy
copy_lem zero mem dst src j h = ground arith
copy_lem (suc n) mem dst src j (inl h) =
    ground (arith, copy_lem n (update mem dst (mem src)) (dst + 1) (src + 1) j (inl (omega arith)))
copy_lem (suc n) mem dst src j (inr h) =
    ground (arith, copy_lem n (update mem dst (mem src)) (dst + 1) (src + 1) j (inr (omega arith)))

-- `memcpy` puts the bytes of the source in the target and leaves the others, where the target lies
-- before the source or does not overlap it.
pub memcpy_lem :
    (mem : ℕ → ℕ) (dst src size : ℕ)
    → dst ≢ 0
    → src ≢ 0
    → (dst ≤ src) ⊎ (src + size ≤ dst)
    → (mem' : ℕ → ℕ) × (memcpy mem dst src size ≡ ok mem')
      × ((j : ℕ) → mem' j ≡ (if within dst size j then mem (src + (j - dst)) else mem j))
unfolding memcpy
memcpy_lem mem dst src size hd hs apart =
    (copy mem dst src size, ground arith, λ j. copy_lem size mem dst src j apart)

compare_lem :
    (n : ℕ) (mem : ℕ → ℕ) (a b : ℕ)
    → compare_loop mem a b n ≡ same
    → (i : ℕ) → i < n
    → mem (a + i) ≡ mem (b + i)
unfolding compare_loop
compare_lem zero mem a b e i h = absurd (omega arith)
compare_lem (suc n) mem a b e zero h = ground arith
compare_lem (suc n) mem a b e (suc i) h =
    let later : mem (a + 1 + i) ≡ mem (b + 1 + i) =
      compare_lem n mem (a + 1) (b + 1) (ground arith) i (omega arith) in
    ap mem (omega arith) ∙ later ∙ ap mem (omega arith)

equal_lem :
    (n : ℕ) (mem : ℕ → ℕ) (a b : ℕ)
    → ((i : ℕ) → i < n → mem (a + i) ≡ mem (b + i))
    → compare_loop mem a b n ≡ same
unfolding compare_loop
equal_lem zero mem a b e = refl
equal_lem (suc n) mem a b e =
    let first : mem a ≡ mem b = ap mem (omega arith) ∙ e 0 (omega arith) ∙ ap mem (omega arith) in
    let rest : compare_loop mem (a + 1) (b + 1) n ≡ same =
      equal_lem n mem (a + 1) (b + 1)
        (λ i h. ap mem (omega arith) ∙ e (i + 1) (omega arith) ∙ ap mem (omega arith)) in
    ground arith

-- `memcmp` of two places, not both `NULL`, returns 0 exactly where the bytes are the same.
pub memcmp_lem :
    (mem : ℕ → ℕ) (a b size : ℕ)
    → (a ≢ 0) ⊎ (b ≢ 0)
    → (sign : Sign) × (memcmp mem a b size ≡ ok sign)
      × (sign ≡ same → (i : ℕ) → i < size → mem (a + i) ≡ mem (b + i))
      × (((i : ℕ) → i < size → mem (a + i) ≡ mem (b + i)) → sign ≡ same)
unfolding memcmp
memcmp_lem mem a b size h =
    (compare_loop mem a b size, ground arith, compare_lem size mem a b, equal_lem size mem a b)
