-- ===== src/Memory/Tests.antt =====
-- Pools of one and two bytes of bits.
use sparrow_os.Base.{
  ℕ, ◌+◌, ◌*◌, ◌≡◌, ◌≤◌, ◌<◌, refl, true, false, some, ok, arith, ◌==◌, if◌then◌else◌,
}
use sparrow_os.Bitmap.{total, Bitmap, scan_test, scan, first_byte, start, first_bit, find_run, bit}
use sparrow_os.Bitmap.Bits.{IsBytes}
use sparrow_os.Bitmap.Scan.{Starts}
use sparrow_os.Sync.Defs.{lock_init}
use sparrow_os.Memory.{Pool, VirtualAddr, Memory, palloc}
use sparrow_os.Memory.Pools.{used, page_at, IsPool, IsPools, SamePool, palloc_lem}
use sparrow_os.Memory.Init.{mem_pool_init, mem_pool_init-IsPools}

-- Pages 0 and 1 are used, then free ones.
abbrev two_used : Bitmap
two_used = record { btmp_bytes_len = 1; bits = λ i. 3 }

abbrev all_used : Bitmap
all_used = record { btmp_bytes_len = 1; bits = λ i. 255 }

abbrev pool_of : Bitmap → ℕ → Pool
pool_of map base = record {
  pool_bitmap = map;
  phy_addr_start = base;
  pool_size = 0x8000;
  lock = lock_init;
}

abbrev kernel_half : Pool
kernel_half = pool_of two_used 0x200000

abbrev addresses : VirtualAddr
addresses = record { vaddr_bitmap = two_used; vaddr_start = 0xc0100000 }

abbrev machine : Memory
machine = record {
  kernel_pool = kernel_half;
  user_pool = pool_of two_used 0x208000;
  kernel_vaddr = addresses;
  userprog_vaddr = addresses;
  mmu = record { cr3 = 0; word = λ a. 0 };
}

two_used-IsBytes : IsBytes two_used
two_used-IsBytes i = omega arith

kernel_half-IsPool : IsPool kernel_half
kernel_half-IsPool = record { bytes = two_used-IsBytes; reach = omega arith }

full-IsPool : IsPool (pool_of all_used 0x200000)
full-IsPool = record { bytes = λ i. omega arith; reach = omega arith }

machine-IsPools : IsPools machine
machine-IsPools = record {
  kernel = kernel_half-IsPool;
  user = record { bytes = two_used-IsBytes; reach = omega arith };
  order = omega arith;
}

two_free : used kernel_half 2 ≡ false
unfolding scan_test bit
two_free = refl

three_found : scan two_used 3 ≡ ok (some 2)
unfolding scan first_byte start first_bit find_run bit scan_test
three_found = refl

palloc_lem_example :
    (i : ℕ) × (p' : Pool) × (palloc kernel_half ≡ ok (some (0x200000 + i * 4096), p'))
    × Starts two_used i
    × SamePool kernel_half p'
    × ((j : ℕ) → used p' j ≡ (if i == j then true else used kernel_half j))
palloc_lem_example = palloc_lem kernel_half kernel_half-IsPool 2 (omega arith) two_free

-- The pools of 32 MB end inside the memory.
mem_pool_init-IsPools_example :
    let made = mem_pool_init (λ i. 7) (λ i. 255) (λ i. 1) 0x2000000 machine in
    IsPools made
    × (page_at made.user_pool (total made.user_pool.pool_bitmap) ≤ 0x2000000)
    × ((i : ℕ) → i < total made.kernel_pool.pool_bitmap → used made.kernel_pool i ≡ false)
    × ((i : ℕ) → i < total made.user_pool.pool_bitmap → used made.user_pool i ≡ false)
mem_pool_init-IsPools_example =
    mem_pool_init-IsPools (λ i. 7) (λ i. 255) (λ i. 1) (λ i. omega arith) (λ i. omega arith)
      0x2000000 (omega arith) (omega arith) machine
