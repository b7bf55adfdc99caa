-- ===== src/Heap/Sizes.antt =====
-- The block that `sys_malloc` chooses for a size of up to 1024 bytes.
use sparrow_os.Base.{
  ℕ, ◌+◌, ◌*◌, ◌≤◌, ◌<◌, ◌≡◌, refl, ◌⊎◌, Bool, true, false, ◌&&◌, ◌||◌, Option, none, some, arith,
  ltb, leb, ◌==◌,
}
use sparrow_os.Base.Table.{holds_below, holds_below_lem}
use sparrow_os.Heap.{MemBlockDesc, sizeof_arena, desc_loop, block_desc_init, find_desc}

-- Large enough, not twice as large as it need be, and its blocks fit in a page with the head.
fits : ℕ → MemBlockDesc → Bool
fits size desc =
    leb size desc.block_size
    && (ltb desc.block_size (2 * size) || (desc.block_size == 16))
    && leb 1 desc.blocks_per_arena
    && leb (sizeof_arena + desc.blocks_per_arena * desc.block_size) 4096

fits_if : ℕ → Option MemBlockDesc → Bool
unfolding fits
fits_if size none = false
fits_if size (some desc) = fits size desc

table :
    holds_below 1025 (λ size. (size == 0) || fits_if size (find_desc block_desc_init size)) ≡ true
unfolding holds_below fits_if fits find_desc block_desc_init desc_loop
table = refl

-- For every size from 1 to 1024 bytes the search succeeds: the blocks have at least that size and
-- less than twice as much, or 16 bytes, and a page holds one of them or more behind its head.
pub find_desc_lem :
    (size : ℕ)
    → 1 ≤ size
    → size ≤ 1024
    → (desc : MemBlockDesc) × (find_desc block_desc_init size ≡ some desc)
      × (size ≤ desc.block_size)
      × ((desc.block_size < 2 * size) ⊎ (desc.block_size ≡ 16))
      × (1 ≤ desc.blocks_per_arena)
      × (sizeof_arena + desc.blocks_per_arena * desc.block_size ≤ 4096)
unfolding fits_if fits
find_desc_lem size lo hi = go (find_desc block_desc_init size) refl (
    ground (
      arith,
      holds_below_lem 1025 (λ size. (size == 0) || fits_if size (find_desc block_desc_init size))
          size table (omega arith),
    ))
  where
    go :
        (o : Option MemBlockDesc)
        → find_desc block_desc_init size ≡ o
        → fits_if size o ≡ true
        → (desc : MemBlockDesc) × (find_desc block_desc_init size ≡ some desc)
          × (size ≤ desc.block_size)
          × ((desc.block_size < 2 * size) ⊎ (desc.block_size ≡ 16))
          × (1 ≤ desc.blocks_per_arena)
          × (sizeof_arena + desc.blocks_per_arena * desc.block_size ≤ 4096)
    go none e f = cc
    go (some desc) e f = (desc, e, ground arith, ground arith, ground arith, ground arith)
