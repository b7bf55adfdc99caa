-- ===== src/Memory.antt =====
-- kernel/memory.c: the pools of pages and of addresses, and the allocation of whole pages. The page
-- tables are those of Paging; addresses are 32 bits wide.
pub mod Pools
pub mod Runs
pub mod Init
mod Locked
mod Tests
use sparrow_os.Base.{
  ℕ, zero, suc, ◌+◌, ◌-◌, ◌*◌, ◌/◌, ◌%◌, ◌^◌, Bool, true, false, not, ◌&&◌, Option, none, some, Res,
  ok, panic, check, ◌>>=◌, ◌>>◌, ltb, leb, ◌==◌, if◌then◌else◌,
}
use sparrow_os.Bitmap.{Bitmap}
use sparrow_os.Bitmap as Bitmap
use sparrow_os.Paging.{Mmu, pg_size, pde_ptr, present, load, page_table_add, addr_v2p, clear_pte}
use sparrow_os.Sync.Defs.{Lock}

-- `struct pool`
pub record Pool : Type 0 where
  pub pool_bitmap : Bitmap
  pub phy_addr_start : ℕ
  pub pool_size : ℕ
  pub lock : Lock

-- `struct virtual_addr`
pub record VirtualAddr : Type 0 where
  pub vaddr_bitmap : Bitmap
  pub vaddr_start : ℕ

-- `enum pool_flags`
pub data PoolFlags : Type 0 where
  pf_kernel : PoolFlags
  pf_user : PoolFlags

-- The pools, the addresses of the kernel and of the running task, and the page tables in use.
pub record Memory : Type 0 where
  pub kernel_pool : Pool
  pub user_pool : Pool
  pub kernel_vaddr : VirtualAddr
  pub userprog_vaddr : VirtualAddr
  pub mmu : Mmu

abbrev pub k_heap_start : ℕ
k_heap_start = 0xc0100000

-- Address arithmetic on 32 bits.
abbrev pub plus : ℕ → ℕ → ℕ
plus a b = (a + b) % 2 ^ 32

abbrev pub minus : ℕ → ℕ → ℕ
minus a b = (a + (2 ^ 32 - b)) % 2 ^ 32

-- `while (cnt < pg_cnt) bitmap_set(map, bit_idx_start + cnt, value)`, with `left` rounds to go.
pub set_run : Bitmap → ℕ → ℕ → ℕ → Res Bitmap
set_run map bit_idx value zero = ok map
set_run map bit_idx value (suc left) = do
  map' ← Bitmap.set map bit_idx value
  set_run map' (bit_idx + 1) value left

-- `palloc`; `none` is `NULL`.
pub palloc : Pool → Res (Option ℕ × Pool)
palloc m_pool = do
  found ← Bitmap.scan m_pool.pool_bitmap 1
  elim found [
    | none ↦ ok (none, m_pool)
    | some bit_idx ↦ do
      map ← Bitmap.set m_pool.pool_bitmap bit_idx 1
      ok (
        some (plus m_pool.phy_addr_start (bit_idx * pg_size)),
        record m_pool { pool_bitmap = map },
      )
  ]

-- The scan and the marking of `vaddr_get` on one pool of addresses.
pub reserve : VirtualAddr → ℕ → Res (Option ℕ × VirtualAddr)
unfolding set_run
reserve pool pg_cnt = do
  found ← Bitmap.scan pool.vaddr_bitmap pg_cnt
  elim found [
    | none ↦ ok (none, pool)
    | some bit_idx_start ↦ do
      map ← set_run pool.vaddr_bitmap bit_idx_start 1 pg_cnt
      ok (
        some (plus pool.vaddr_start (bit_idx_start * pg_size)),
        record pool { vaddr_bitmap = map },
      )
  ]

-- The assertion on an address that a user process gets.
below_stack : Option ℕ → Bool
below_stack none = true
below_stack (some vaddr_start) = ltb vaddr_start (0xc0000000 - pg_size)

pub vaddr_get : PoolFlags → ℕ → Memory → Res (Option ℕ × Memory)
unfolding reserve below_stack
vaddr_get pf_kernel pg_cnt s = do
  (vaddr, pool) ← reserve s.kernel_vaddr pg_cnt
  ok (vaddr, record s { kernel_vaddr = pool })
vaddr_get pf_user pg_cnt s = do
  (vaddr, pool) ← reserve s.userprog_vaddr pg_cnt
  check (below_stack vaddr)
  ok (vaddr, record s { userprog_vaddr = pool })

-- `vaddr_remove` on one pool of addresses.
pub unreserve : VirtualAddr → ℕ → ℕ → Res VirtualAddr
unfolding set_run
unreserve pool vaddr pg_cnt = do
  map ← set_run pool.vaddr_bitmap (minus vaddr pool.vaddr_start / pg_size) 0 pg_cnt
  ok (record pool { vaddr_bitmap = map })

pub vaddr_remove : PoolFlags → ℕ → ℕ → Memory → Res Memory
unfolding unreserve
vaddr_remove pf_kernel vaddr pg_cnt s = do
  pool ← unreserve s.kernel_vaddr vaddr pg_cnt
  ok (record s { kernel_vaddr = pool })
vaddr_remove pf_user vaddr pg_cnt s = do
  pool ← unreserve s.userprog_vaddr vaddr pg_cnt
  ok (record s { userprog_vaddr = pool })

-- The page of a pool given back.
pub free_page : Pool → ℕ → Res Pool
free_page pool pg_phy_addr = do
  map ← Bitmap.set pool.pool_bitmap (minus pg_phy_addr pool.phy_addr_start / pg_size) 0
  ok (record pool { pool_bitmap = map })

-- `pfree`, and `free_a_phy_page`, which does the same.
pub pfree : ℕ → Memory → Res Memory
unfolding free_page
pfree pg_phy_addr s =
    if leb s.user_pool.phy_addr_start pg_phy_addr
    then (do pool ← free_page s.user_pool pg_phy_addr; ok (record s { user_pool = pool }))
    else (do pool ← free_page s.kernel_pool pg_phy_addr; ok (record s { kernel_pool = pool }))

-- `page_table_add` with its call of `palloc`, which it makes only where a table is missing.
pub add_page : ℕ → ℕ → Memory → Res Memory
add_page vaddr page_phyaddr s = do
  dir_entry ← load s.mmu (pde_ptr vaddr)
  if present dir_entry
      then (do mmu ← page_table_add s.mmu vaddr page_phyaddr 0; ok (record s { mmu = mmu }))
      else (do
        (found, pool) ← palloc s.kernel_pool
        let pde_phyaddr : ℕ = elim found [ none ↦ 0 | some frame ↦ frame ]
        mmu ← page_table_add s.mmu vaddr page_phyaddr pde_phyaddr
        ok (record s { kernel_pool = pool; mmu = mmu }))

-- `palloc(mem_pool)` where the pool is chosen by the flag.
pub palloc_from : PoolFlags → Memory → Res (Option ℕ × Memory)
palloc_from pf_kernel s = do
  (page, pool) ← palloc s.kernel_pool
  ok (page, record s { kernel_pool = pool })
palloc_from pf_user s = do
  (page, pool) ← palloc s.user_pool
  ok (page, record s { user_pool = pool })

-- The loop of `malloc_page`, with `cnt` pages to map; `false` where it returns `NULL`.
pub map_pages : PoolFlags → ℕ → ℕ → Memory → Res (Bool × Memory)
unfolding palloc_from add_page
map_pages pf vaddr zero s = ok (true, s)
map_pages pf vaddr (suc cnt) s = do
  (page, s₁) ← palloc_from pf s
  elim page [
    | none ↦ ok (false, s₁)
    | some page_phyaddr ↦ do
      s₂ ← add_page vaddr page_phyaddr s₁
      map_pages pf (plus vaddr pg_size) cnt s₂
  ]

pub malloc_page : PoolFlags → ℕ → Memory → Res (Option ℕ × Memory)
unfolding vaddr_get map_pages
malloc_page pf pg_cnt s = do
  check (ltb 0 pg_cnt && ltb pg_cnt 3840)
  (found, s₁) ← vaddr_get pf pg_cnt s
  elim found [
    | none ↦ ok (none, s₁)
    | some vaddr_start ↦ do
      (mapped, s₂) ← map_pages pf vaddr_start pg_cnt s₁
      ok (if mapped then some vaddr_start else none, s₂)
  ]

-- The loops of `mfree_page`, with `left` rounds to go; the test of the assertion is theirs.
pub unmap_pages : (ℕ → Bool) → ℕ → ℕ → Memory → Res Memory
unfolding pfree
unmap_pages in_pool vaddr zero s = ok s
unmap_pages in_pool vaddr (suc left) s = do
  pg_phy_addr ← addr_v2p s.mmu vaddr
  check ((pg_phy_addr % pg_size == 0) && in_pool pg_phy_addr)
  s₁ ← pfree pg_phy_addr s
  mmu ← clear_pte s₁.mmu vaddr
  unmap_pages in_pool (plus vaddr pg_size) left (record s₁ { mmu = mmu })

pub mfree_page : PoolFlags → ℕ → ℕ → Memory → Res Memory
unfolding unmap_pages vaddr_remove
mfree_page pf vaddr pg_cnt s = do
  check (leb 1 pg_cnt && (vaddr % pg_size == 0))
  pg_phy_addr ← addr_v2p s.mmu vaddr
  check ((pg_phy_addr % pg_size == 0) && leb 0x102000 pg_phy_addr)
  let user = s.user_pool.phy_addr_start
  let kernel = s.kernel_pool.phy_addr_start
  s₁ ←
      (if leb user pg_phy_addr
        then unmap_pages (λ a. leb user a) vaddr pg_cnt s
        else unmap_pages (λ a. leb kernel a && ltb a user) vaddr pg_cnt s)
  vaddr_remove pf vaddr pg_cnt s₁
