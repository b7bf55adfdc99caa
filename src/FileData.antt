-- ===== src/FileData.antt =====
-- The contents of files: `file_read` and `file_write` of fs/file.c, a sector at a time. The bytes of
-- the caller's buffer are a function of their number, and the buffers that `sys_malloc` gives are
-- zeros. The loops run on fuel: a round moves at least one byte, so as many rounds as bytes do.
pub mod Reading
pub mod Writing
pub mod Growth
pub mod Addresses
pub mod Appending
pub mod Limits
mod Tests
use sparrow_os.Base.{
  ℕ, zero, suc, ◌+◌, ◌-◌, ◌*◌, ◌/◌, ◌%◌, ◌^◌, Bool, true, false, not, ◌&&◌, Option, none, some, Res,
  ok, panic, check, ◌>>=◌, ◌>>◌, ltb, leb, ◌==◌, if◌then◌else◌, update, min,
}
use sparrow_os.Inode.{ide_read, ide_write, inode_sync}
use sparrow_os.DiskMaps.{DiskMaps, blocks, bitmap_sync, block_bitmap_alloc}
use sparrow_os.OpenInodes.{Inode, word, pure_inode}
use sparrow_os.Blocks.{Volume, bit_of}
use sparrow_os.Dir.{set_block, table_bytes}

-- The 128 addresses of a table, behind the twelve of the array.
pub with_table : (ℕ → ℕ) → ℕ → (ℕ → ℕ) → ℕ → ℕ
with_table disk table all b = if ltb b 12 then all b else word (ide_read disk table) (4 * (b - 12))

-- The addresses from one block up to another, and zeros.
pub direct_range : (ℕ → ℕ) → ℕ → ℕ → ℕ → ℕ
direct_range i_blocks from end b = if leb from b && ltb b end then i_blocks b else 0

-- `all_blocks` of `file_read`, for the blocks from `start` to `end`.
pub read_addresses : (ℕ → ℕ) → (ℕ → ℕ) → ℕ → ℕ → Res (ℕ → ℕ)
read_addresses i_blocks disk start end =
    if start == end
    then ok (
        if ltb end 12
        then direct_range i_blocks end (end + 1)
        else with_table disk (i_blocks 12) (λ b. 0))
    else if ltb end 12
    then ok (direct_range i_blocks start (end + 1))
    else (do
      check (not (i_blocks 12 == 0))
      ok (
          with_table disk (i_blocks 12)
            (if ltb start 12 then direct_range i_blocks start 12 else λ b. 0)))

-- The loop of `file_read`; `none` means that the fuel ran out.
pub read_loop : ℕ → (ℕ → ℕ) → (ℕ → ℕ) → ℕ → ℕ → ℕ → ℕ → (ℕ → ℕ) → Option (ℕ → ℕ)
read_loop zero disk all size fd_pos bytes_read size_left dst =
    if ltb bytes_read size then none else some dst
read_loop (suc fuel) disk all size fd_pos bytes_read size_left dst =
    let sec_off_bytes = fd_pos % 512 in
    let sec_left_bytes = 512 - sec_off_bytes in
    let chunk_size = if ltb size_left sec_left_bytes then size_left else sec_left_bytes in
    let io_buf = ide_read disk (all (fd_pos / 512)) in
    let dst' = λ (i : ℕ).
      if leb bytes_read i && ltb i (bytes_read + chunk_size)
      then io_buf (sec_off_bytes + (i - bytes_read))
      else dst i in
    let rest =
      read_loop fuel disk all size ((fd_pos + chunk_size) % 2 ^ 32) (bytes_read + chunk_size)
        (size_left - chunk_size) dst' in
    if ltb bytes_read size then rest else some dst

-- The bytes that there are to read.
pub read_size : ℕ → ℕ → ℕ → ℕ
read_size fd_pos count i_size =
    if ltb i_size ((fd_pos + count) % 2 ^ 32) then (i_size + (2 ^ 32 - fd_pos)) % 2 ^ 32 else count

-- `file_read` at a position of a file: the number of bytes, where `none` is -1, the caller's buffer
-- and the new position.
pub file_read : Inode → (ℕ → ℕ) → ℕ → ℕ → (ℕ → ℕ) → Res (Option ℕ × (ℕ → ℕ) × ℕ)
file_read node disk fd_pos count dst =
    let size = read_size fd_pos count node.i_size in
    if ltb node.i_size ((fd_pos + count) % 2 ^ 32) && (size == 0)
    then ok (none, dst, fd_pos)
    else let start = fd_pos / 512 in
      let end = (fd_pos + size) % 2 ^ 32 / 512 in
      do
        check (ltb start 139 && ltb end 139)
        all ← read_addresses node.i_blocks disk start end
        elim (read_loop size disk all size fd_pos 0 size dst) [
          | none ↦ panic
          | some dst' ↦ ok (some size, dst', (fd_pos + size) % 2 ^ 32)
        ]

-- `block_bitmap_alloc` with `bitmap_sync`; `none` is -1.
pub take_block : Volume → Res (Option ℕ × Volume)
take_block v = do
  (got, maps) ← block_bitmap_alloc v.maps
  elim got [
    | none ↦ ok (none, record v { maps = maps })
    | some lba ↦ ok (
      some lba,
      record { part = v.part; maps = maps; disk = bitmap_sync maps (bit_of lba v) blocks v.disk },
    )
  ]

-- What the loops that allocate work on; the Boolean says that none has failed so far.
pub record Growing : Type 0 where
  pub fine : Bool
  pub node : Inode
  pub all : ℕ → ℕ
  pub volume : Volume

-- The loops of the three situations, from the block `b` on: a direct block must be missing and goes
-- to the inode too.
pub grow_loop : ℕ → ℕ → Growing → Res Growing
grow_loop b zero g = ok g
grow_loop b (suc left) g = do
  (got, v) ← take_block g.volume
  elim got [
    | none ↦ ok (record g { fine = false; volume = v })
    | some lba ↦ do
      check (if ltb b 12 then g.node.i_blocks b == 0 else true)
      grow_loop (b + 1) left (record {
        fine = true;
        node = if ltb b 12 then set_block b lba g.node else g.node;
        all = update g.all b lba;
        volume = v;
      })
  ]

-- The first block of a file that has none.
pub first_block : Growing → Res Growing
first_block g =
    if g.node.i_blocks 0 == 0
    then (do
      (got, maps) ← block_bitmap_alloc g.volume.maps
      elim got [
        | none ↦ ok (record g { fine = false; volume = record g.volume { maps = maps } })
        | some lba ↦ do
          check (not (bit_of lba g.volume == 0))
          ok (record g {
            node = set_block 0 lba g.node;
            volume = record {
              part = g.volume.part;
              maps = maps;
              disk = bitmap_sync maps (bit_of lba g.volume) blocks g.volume.disk;
            };
          })
      ])
    else ok g

-- The table is written back once all its blocks have been allocated.
write_table : Growing → Growing
write_table g =
    if g.fine
    then record g {
      volume = record g.volume {
        disk = ide_write g.volume.disk (g.node.i_blocks 12) (table_bytes g.all) 1;
      };
    }
    else g

-- The second situation: the table is new.
new_table : ℕ → ℕ → Growing → Res Growing
unfolding write_table
new_table has_used will_use g = do
  (got, maps) ← block_bitmap_alloc g.volume.maps
  elim got [
    | none ↦ ok (record g { fine = false; volume = record g.volume { maps = maps } })
    | some lba ↦ do
      check (g.node.i_blocks 12 == 0)
      g' ←
          grow_loop has_used (will_use - has_used)
            (record g { node = set_block 12 lba g.node; volume = record g.volume { maps = maps } })
      ok (write_table g')
  ]

-- The addresses that `file_write` works with, and the blocks that it needs more.
pub write_addresses : ℕ → ℕ → Growing → Res Growing
unfolding new_table write_table
write_addresses has_used will_use g =
    let node = g.node in
    let last = record g { all = update g.all (has_used - 1) (node.i_blocks (has_used - 1)) } in
    let tabled = record g { all = with_table g.volume.disk (node.i_blocks 12) g.all } in
    if will_use == has_used
    then (if leb has_used 12 then ok last else (do check (not (node.i_blocks 12 == 0)); ok tabled))
    else if leb will_use 12
    then (do
      check (not (node.i_blocks (has_used - 1) == 0))
      grow_loop has_used (will_use - has_used) last)
    else if leb has_used 12
    then new_table has_used will_use last
    else (do
      check (not (node.i_blocks 12 == 0))
      g' ← grow_loop has_used (will_use - has_used) tabled
      ok (write_table g'))

-- The loop of `file_write`; `none` means that the fuel ran out.
pub write_loop :
    ℕ → (ℕ → ℕ) → (ℕ → ℕ) → ℕ → Bool → ℕ → ℕ → ℕ → ℕ → (ℕ → ℕ) → Option (ℕ × ℕ × (ℕ → ℕ))
write_loop zero src all count first i_size fd_pos bytes_written size_left disk =
    if ltb bytes_written count then none else some (i_size, fd_pos, disk)
write_loop (suc fuel) src all count first i_size fd_pos bytes_written size_left disk =
    let sec_lba = all (i_size / 512) in
    let sec_off_bytes = i_size % 512 in
    let sec_left_bytes = 512 - sec_off_bytes in
    let chunk_size = if ltb size_left sec_left_bytes then size_left else sec_left_bytes in
    let io_buf : ℕ → ℕ = if first then ide_read disk sec_lba else λ i. 0 in
    let io_buf' = λ (i : ℕ).
      if leb sec_off_bytes i && ltb i (sec_off_bytes + chunk_size)
      then src (bytes_written + (i - sec_off_bytes))
      else io_buf i in
    let rest =
      write_loop fuel src all count false (i_size + chunk_size) ((fd_pos + chunk_size) % 2 ^ 32)
        (bytes_written + chunk_size) (size_left - chunk_size) (ide_write disk sec_lba io_buf' 1) in
    if ltb bytes_written count then rest else some (i_size, fd_pos, disk)

-- The last part of `file_write`.
pub write_data : (ℕ → ℕ) → ℕ → ℕ → Growing → Res (Option ℕ × Inode × ℕ × Volume)
write_data src count fd_pos g =
    if g.fine
    then elim (write_loop count src g.all count true g.node.i_size
        ((g.node.i_size + (2 ^ 32 - 1)) % 2 ^ 32) 0 count g.volume.disk) [
          | none ↦ panic
          | some (i_size, fd_pos', disk) ↦ do
            let node : Inode = record g.node { i_size = i_size }
            disk' ← inode_sync g.volume.part node.i_no (pure_inode node) disk
            ok (some count, node, fd_pos', record g.volume { disk = disk' })
        ]
    else ok (none, g.node, fd_pos, g.volume)

-- `file_write`: the number of bytes, where `none` is -1, the inode, the position and the volume.
pub file_write : Inode → ℕ → Volume → (ℕ → ℕ) → ℕ → Res (Option ℕ × Inode × ℕ × Volume)
file_write node fd_pos v src count =
    if ltb (512 * 140) ((node.i_size + count) % 2 ^ 32) then ok (none, node, fd_pos, v) else (do
      g ← first_block (record { fine = true; node = node; all = λ b. 0; volume = v })
      if g.fine
          then (do
            let has_used = node.i_size / 512 + 1
            let will_use = (node.i_size + count) % 2 ^ 32 / 512 + 1
            check (leb will_use 140)
            g' ← write_addresses has_used will_use g
            write_data src count fd_pos g')
          else ok (none, g.node, fd_pos, g.volume))
