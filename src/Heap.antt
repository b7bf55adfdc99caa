-- ===== src/Heap.antt =====
-- The blocks of the heap in kernel/memory.c: `block_desc_init`, the addresses of the blocks of an
-- arena, and the parts of `sys_malloc` that choose a size and split an arena.
pub mod Blocks
pub mod Sizes
use sparrow_os.Base.{
  ℕ, zero, suc, ◌+◌, ◌-◌, ◌*◌, ◌/◌, ◌%◌, ◌^◌, Bool, not, Option, none, some, List, [], ◌∷◌, ◌++◌,
  Res, ok, check, ◌>>=◌, ◌>>◌, leb, if◌then◌else◌, has,
}
use sparrow_os.Paging.{pg_size}

-- `struct mem_block_desc`, with the addresses of the free blocks in the order of its list.
pub record MemBlockDesc : Type 0 where
  pub block_size : ℕ
  pub blocks_per_arena : ℕ
  pub free_list : List ℕ

abbrev pub desc_cnt : ℕ
desc_cnt = 7

-- `sizeof(struct arena)`: a pointer, a truth value and a count.
abbrev pub sizeof_arena : ℕ
sizeof_arena = 12

-- The loop of `block_desc_init`, with the descriptors that are left.
pub desc_loop : ℕ → ℕ → List MemBlockDesc
desc_loop zero block_size = []
desc_loop (suc left) block_size =
    record {
      block_size = block_size;
      blocks_per_arena = (pg_size - sizeof_arena) / block_size;
      free_list = [];
    }
    ∷ desc_loop left (block_size * 2 % 2 ^ 16)

pub block_desc_init : List MemBlockDesc
unfolding desc_loop
block_desc_init = desc_loop desc_cnt 16

pub arena2block : ℕ → ℕ → ℕ → ℕ
arena2block a block_size idx = (a + sizeof_arena + idx * block_size) % 2 ^ 32

pub block2arena : ℕ → ℕ
block2arena b = b / 4096 * 4096

-- The loop of `sys_malloc` that looks for the first block size that is large enough.
pub find_desc : List MemBlockDesc → ℕ → Option MemBlockDesc
find_desc [] size = none
find_desc (desc ∷ descs) size =
    let rest = find_desc descs size in if leb size desc.block_size then some desc else rest

-- The loop of `sys_malloc` that splits an arena into blocks, from block `idx` with `left` to go.
pub split_loop : ℕ → ℕ → ℕ → ℕ → List ℕ → Res (List ℕ)
split_loop a block_size idx zero free_list = ok free_list
split_loop a block_size idx (suc left) free_list = do
  let b = arena2block a block_size idx
  check (not (has b free_list))
  split_loop a block_size (idx + 1) left (free_list ++ b ∷ [])
