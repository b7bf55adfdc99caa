-- ===== src/Dir.antt =====
-- fs/dir.c and dir.h: directory entries in the sectors of a directory. The super block's
-- `dir_entry_size` is the size of the structure, as formatting sets it: 24 bytes, of which a sector
-- holds 21. The mounted partition is the only one. The buffers are what `sys_malloc` gives.
pub mod Search
pub mod Slots
pub mod Install
pub mod Sync
pub mod Grow
pub mod Table
pub mod Names
pub mod Delete
pub mod Listing
pub mod Remove
mod Tests
use sparrow_os.Base.{
  ℕ, zero, suc, ◌+◌, ◌-◌, ◌*◌, ◌/◌, ◌%◌, ◌^◌, Bool, true, false, not, ◌&&◌, ◌||◌, Option, none,
  some, List, [], ◌∷◌, Res, ok, panic, check, ◌>>=◌, ◌>>◌, ltb, leb, ◌==◌, if◌then◌else◌, update,
  length,
}
use sparrow_os.Bitmap
use sparrow_os.Inode.{ide_read, ide_write, inode_sync}
use sparrow_os.DiskMaps.{DiskMaps, blocks, bitmap_sync, block_bitmap_alloc}
use sparrow_os.OpenInodes.{Inode, word, byte_of, pure_inode}
use sparrow_os.Blocks.{Volume, all_blocks, bit_of}

abbrev pub max_file_name_len : ℕ
max_file_name_len = 16

abbrev pub dir_entry_size : ℕ
dir_entry_size = 24

-- `SECTOR_SIZE / dir_entry_size`
abbrev pub dir_entrys_per_sec : ℕ
dir_entrys_per_sec = 21

-- `struct dir_entry`; the name has 16 bytes.
pub record DirEntry : Type 0 where
  pub filename : ℕ → ℕ
  pub i_no : ℕ
  pub f_type : ℕ

-- The bytes of an entry, and the entry whose bytes lie at an address.
unfoldable pub entry_byte : DirEntry → ℕ → ℕ
entry_byte e i =
    if ltb i 16
    then e.filename i
    else if ltb i 20
    then byte_of e.i_no (i - 16)
    else byte_of e.f_type (i - 20)

unfoldable pub load_entry : (ℕ → ℕ) → ℕ → DirEntry
load_entry mem a = record {
  filename = λ i. mem (a + i);
  i_no = word mem (a + 16);
  f_type = word mem (a + 20);
}

-- The character of a string at a position, with the 0 that ends it.
pub char_at : List ℕ → ℕ → ℕ
char_at [] i = 0
char_at (c ∷ s) zero = c
char_at (c ∷ s) (suc i) = char_at s i

-- `create_dir_entry`; the bytes behind the name keep what they had.
pub create_dir_entry : List ℕ → ℕ → ℕ → DirEntry → Res DirEntry
unfolding char_at
create_dir_entry filename inode_no file_type p_de = do
  check (leb (length filename) max_file_name_len)
  ok (record {
    filename = λ i. if ltb i (length filename) then char_at filename i else p_de.filename i;
    i_no = inode_no;
    f_type = file_type;
  })

-- `!strcmp(mem + a, name)`: the bytes are those of the name, and then a 0. Nothing ends the field of
-- the name but such a 0.
unfoldable pub same_name : (ℕ → ℕ) → ℕ → List ℕ → Bool
same_name mem a [] = mem a == 0
same_name mem a (c ∷ name) = (mem a == c) && same_name mem (a + 1) name

-- The loop of `search_dir_entry` over the entries of a sector, from the byte `a` on.
unfoldable pub search_entries : (ℕ → ℕ) → List ℕ → ℕ → ℕ → Option DirEntry
search_entries mem name a zero = none
search_entries mem name a (suc left) =
    let rest = search_entries mem name (a + dir_entry_size) left in
    if same_name mem a name then some (load_entry mem a) else rest

-- The entry that was found, or what the next blocks have.
unfoldable pub or_else : Option DirEntry → Option DirEntry → Option DirEntry
or_else (some e) o = some e
or_else none o = o

-- The loop of `search_dir_entry` over the blocks.
unfoldable pub search_blocks : (ℕ → ℕ) → (ℕ → ℕ) → List ℕ → ℕ → ℕ → Option DirEntry
search_blocks disk all name b zero = none
search_blocks disk all name b (suc left) =
    let rest = search_blocks disk all name (b + 1) left in
    if all b == 0
    then rest
    else or_else (search_entries (ide_read disk (all b)) name 0 dir_entrys_per_sec) rest

-- `search_dir_entry`; the flag says whether `sys_malloc` gave the memory for the addresses.
unfoldable pub search_dir_entry : Bool → Volume → (ℕ → ℕ) → List ℕ → Option DirEntry
search_dir_entry got v i_blocks name =
    if got then search_blocks v.disk (all_blocks i_blocks v.disk) name 0 140 else none

-- A sector of memory with an entry put in, and one that holds an entry and zeros.
pub put_entry : (ℕ → ℕ) → ℕ → DirEntry → ℕ → ℕ
put_entry buf off e i =
    if leb off i && ltb i (off + dir_entry_size) then entry_byte e (i - off) else buf i

pub only_entry : DirEntry → ℕ → ℕ
only_entry e i = if ltb i dir_entry_size then entry_byte e i else 0

-- The loop of `sync_dir_entry` over the entries of a sector: the first that is not in use.
pub free_slot : (ℕ → ℕ) → ℕ → ℕ → Option ℕ
free_slot mem off zero = none
free_slot mem off (suc left) =
    let rest = free_slot mem (off + dir_entry_size) left in
    if word mem (off + 20) == 0 then some off else rest

-- A free block, whose bit is marked and written to the disk; `none` is -1.
pub new_block : Volume → Res (Option ℕ × Volume)
new_block v = do
  (got, maps) ← block_bitmap_alloc v.maps
  elim got [
    | none ↦ ok (none, record v { maps = maps })
    | some block_lba ↦ do
      let block_bitmap_idx = bit_of block_lba v
      check (not (block_bitmap_idx == 2 ^ 32 - 1))
      ok (
        some block_lba,
        record {
          part = v.part;
          maps = maps;
          disk = bitmap_sync maps block_bitmap_idx blocks v.disk;
        },
      )
  ]

-- The sector of the table of indirect blocks, `all_blocks + 12`.
pub table_bytes : (ℕ → ℕ) → ℕ → ℕ
table_bytes all i = byte_of (all (12 + i / 4)) (i % 4)

-- The end of the branch for a block that is missing: the entry goes to the new block.
pub first_entry : DirEntry → ℕ → Inode → Volume → Bool × Inode × Volume
first_entry p_de lba dir_inode v = (
  true,
  record dir_inode { i_size = (dir_inode.i_size + dir_entry_size) % 2 ^ 32 },
  record v { disk = ide_write v.disk lba (only_entry p_de) 1 },
)

abbrev pub set_block : ℕ → ℕ → Inode → Inode
set_block b lba node = record node { i_blocks = update node.i_blocks b lba }

-- The branch of `sync_dir_entry` for a block that is missing: a direct block, the table with its
-- first block, or a block of the table.
pub add_block : DirEntry → ℕ → (ℕ → ℕ) → Inode → Volume → Res (Bool × Inode × Volume)
add_block p_de b all dir_inode v = do
  (got, v₁) ← new_block v
  elim got [
    | none ↦ ok (false, dir_inode, v₁)
    | some block_lba ↦
        if ltb b 12
        then ok (first_entry p_de block_lba (set_block b block_lba dir_inode) v₁)
        else if b == 12
        then (do
          (got₂, v₂) ← new_block v₁
          elim got₂ [
            | none ↦ do
              map ← Bitmap.set v₂.maps.block_bitmap (bit_of block_lba v₂) 0
              ok (
                false,
                set_block 12 0 dir_inode,
                record v₂ { maps = record v₂.maps { block_bitmap = map } },
              )
            | some lba₂ ↦
                let disk = ide_write v₂.disk block_lba (table_bytes (update all 12 lba₂)) 1 in
                ok (
                  first_entry p_de lba₂ (set_block 12 block_lba dir_inode)
                    (record v₂ { disk = disk }))
          ])
        else let disk =
            ide_write v₁.disk (dir_inode.i_blocks 12) (table_bytes (update all b block_lba)) 1 in
          ok (first_entry p_de block_lba dir_inode (record v₁ { disk = disk }))
  ]

-- The loop of `sync_dir_entry` over the blocks.
pub sync_loop : DirEntry → (ℕ → ℕ) → Inode → Volume → ℕ → ℕ → Res (Bool × Inode × Volume)
sync_loop p_de all dir_inode v b zero = ok (false, dir_inode, v)
sync_loop p_de all dir_inode v b (suc left) =
    let rest = sync_loop p_de all dir_inode v (b + 1) left in
    if all b == 0
    then add_block p_de b all dir_inode v
    else let buf = ide_read v.disk (all b) in
      elim (free_slot buf 0 dir_entrys_per_sec) [
        | none ↦ rest
        | some off ↦ ok (
          true,
          record dir_inode { i_size = (dir_inode.i_size + dir_entry_size) % 2 ^ 32 },
          record v { disk = ide_write v.disk (all b) (put_entry buf off p_de) 1 },
        )
      ]

-- `all_blocks` of `sync_dir_entry`: the twelve direct blocks, and zeros. The table is not read.
pub direct_blocks : (ℕ → ℕ) → ℕ → ℕ
direct_blocks i_blocks b = if ltb b 12 then i_blocks b else 0

-- `sync_dir_entry`
pub sync_dir_entry : Inode → DirEntry → Volume → Res (Bool × Inode × Volume)
sync_dir_entry dir_inode p_de v = do
  check (dir_inode.i_size % dir_entry_size == 0)
  sync_loop p_de (direct_blocks dir_inode.i_blocks) dir_inode v 0 140
