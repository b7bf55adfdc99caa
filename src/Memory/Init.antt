-- ===== src/Memory/Init.antt =====
-- `mem_pool_init`: the pools, laid out for a size of memory. Where the maps of bits lie is memory
-- that the model does not place; they are cleared.
use sparrow_os.Base.{ℕ, ◌+◌, ◌-◌, ◌*◌, ◌/◌, ◌%◌, ◌^◌, ◌≤◌, ◌<◌, ◌≡◌, false, arith}
use sparrow_os.Bitmap.{Bitmap, total, scan_test}
use sparrow_os.Bitmap as Bitmap
use sparrow_os.Bitmap.Bits.{init_lem, init_len, init-IsBytes}
use sparrow_os.Paging.{pg_size}
use sparrow_os.Sync.Defs.{lock_init}
use sparrow_os.Memory.{Pool, Memory, k_heap_start}
use sparrow_os.Memory.Pools.{used, page_at, IsPool, IsPools}

-- The memory that is in use before: the low megabyte and 256 pages of tables.
abbrev pub used_mem : ℕ
used_mem = pg_size * 256 + 0x100000

-- `all_free_pages`, in 16 bits.
pub all_free_pages : ℕ → ℕ
all_free_pages all_mem = (all_mem + (2 ^ 32 - used_mem)) % 2 ^ 32 / pg_size % 2 ^ 16

pub kernel_free_pages : ℕ → ℕ
unfolding all_free_pages
kernel_free_pages all_mem = all_free_pages all_mem / 2

-- A pool with its map cleared.
pool_of : (ℕ → ℕ) → ℕ → ℕ → Pool
pool_of bits start pages = record {
  pool_bitmap = Bitmap.init (record { btmp_bytes_len = pages / 8; bits = bits });
  phy_addr_start = start;
  pool_size = pages * pg_size;
  lock = lock_init;
}

-- `mem_pool_init`, from the memory at the three maps.
pub mem_pool_init : (ℕ → ℕ) → (ℕ → ℕ) → (ℕ → ℕ) → ℕ → Memory → Memory
unfolding kernel_free_pages all_free_pages
mem_pool_init kernel_bits user_bits vaddr_bits all_mem s =
    let kernel_pages = kernel_free_pages all_mem in
    let user_pages = all_free_pages all_mem - kernel_pages in
    record s {
      kernel_pool = pool_of kernel_bits used_mem kernel_pages;
      user_pool = pool_of user_bits (used_mem + kernel_pages * pg_size) user_pages;
      kernel_vaddr = record {
        vaddr_bitmap =
            Bitmap.init (record { btmp_bytes_len = kernel_pages / 8; bits = vaddr_bits });
        vaddr_start = k_heap_start;
      };
    }

-- A pool with pages in 32 bits, all of them free.
pool_of-IsPool :
    (bits : ℕ → ℕ) (start pages : ℕ)
    → ((i : ℕ) → bits i < 256)
    → start + pages * 4096 ≤ 2 ^ 32
    → IsPool (pool_of bits start pages)
      × (page_at (pool_of bits start pages) (total (pool_of bits start pages).pool_bitmap)
          ≤ start + pages * 4096)
      × ((i : ℕ)
          → i < total (pool_of bits start pages).pool_bitmap
          → used (pool_of bits start pages) i ≡ false)
unfolding pool_of
pool_of-IsPool bits start pages bytes h =
    let m : Bitmap = record { btmp_bytes_len = pages / 8; bits = bits } in
    (
      record { bytes = init-IsBytes m bytes; reach = omega (arith, init_len m) },
      omega (arith, init_len m),
      λ i p. ground (arith, init_lem m i, init_len m),
    )

-- The pools that `mem_pool_init` makes for 2 MB or more of memory, in 32 bits, lie apart, the
-- kernel's first, and inside the memory; every page of both is free.
pub mem_pool_init-IsPools :
    (kernel_bits user_bits vaddr_bits : ℕ → ℕ)
    → ((i : ℕ) → kernel_bits i < 256)
    → ((i : ℕ) → user_bits i < 256)
    → (all_mem : ℕ) → used_mem ≤ all_mem
    → all_mem < 2 ^ 32
    → (s : Memory)
    → let made = mem_pool_init kernel_bits user_bits vaddr_bits all_mem s in
      IsPools made
      × (page_at made.user_pool (total made.user_pool.pool_bitmap) ≤ all_mem)
      × ((i : ℕ) → i < total made.kernel_pool.pool_bitmap → used made.kernel_pool i ≡ false)
      × ((i : ℕ) → i < total made.user_pool.pool_bitmap → used made.user_pool i ≡ false)
unfolding mem_pool_init kernel_free_pages all_free_pages pool_of
mem_pool_init-IsPools kernel_bits user_bits vaddr_bits kb ub all_mem low high s =
    let pages = all_free_pages all_mem in
    let half = kernel_free_pages all_mem in
    let (k, kr, kf) = pool_of-IsPool kernel_bits used_mem half kb (omega arith) in
    let (u, ur, uf) =
      pool_of-IsPool user_bits (used_mem + half * pg_size) (pages - half) ub (omega arith) in
    (record { kernel = k; user = u; order = kr }, omega (arith, ur), kf, uf)
