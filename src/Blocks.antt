-- ===== src/Blocks.antt =====
-- The blocks of a file or directory, in fs/inode.c: the addresses that its inode and its table of
-- indirect blocks hold, and `inode_delete` and `inode_release`, which give them back. The partition
-- is the mounted one, so `part` and `cur_part` are the same.
pub mod Release
pub mod Whole
mod Tests
use sparrow_os.Base.{
  ℕ, zero, suc, ◌+◌, ◌-◌, ◌*◌, ◌%◌, ◌^◌, Bool, not, Res, ok, check, ◌>>=◌, ◌>>◌, ltb, leb, ◌==◌,
  if◌then◌else◌,
}
use sparrow_os.Bitmap
use sparrow_os.Inode.{Partition, inode_locate, ide_read, ide_write, splice}
use sparrow_os.DiskMaps.{DiskMaps, inodes, blocks, bitmap_sync}
use sparrow_os.OpenInodes.{Inode, Inodes, word, inode_open, inode_close}

-- The mounted partition, its maps and its disk.
pub record Volume : Type 0 where
  pub part : Partition
  pub maps : DiskMaps
  pub disk : ℕ → ℕ

-- `all_blocks`: twelve blocks of the inode, then the 128 of the table, or 0 where there is no table.
unfoldable pub all_blocks : (ℕ → ℕ) → (ℕ → ℕ) → ℕ → ℕ
all_blocks i_blocks disk b =
    if ltb b 12
    then i_blocks b
    else if i_blocks 12 == 0
    then 0
    else word (ide_read disk (i_blocks 12)) (4 * (b - 12))

-- The bit of a block, in 32 bits.
unfoldable pub bit_of : ℕ → Volume → ℕ
bit_of lba v = (lba + (2 ^ 32 - v.maps.data_start_lba)) % 2 ^ 32

-- A block is given back, in the map and on the disk. The first block is never given back.
pub free_block : ℕ → Volume → Res Volume
unfolding bit_of
free_block lba v = do
  let block_bitmap_idx = bit_of lba v
  check (ltb 0 block_bitmap_idx)
  map ← Bitmap.set v.maps.block_bitmap block_bitmap_idx 0
  let maps : DiskMaps = record v.maps { block_bitmap = map }
  ok (record v { maps = maps; disk = bitmap_sync maps block_bitmap_idx blocks v.disk })

-- The loop of `inode_release` over the addresses, from `b` on with `left` to go.
pub free_loop : (ℕ → ℕ) → ℕ → ℕ → Volume → Res Volume
free_loop all b zero v = ok v
free_loop all b (suc left) v = do
  v₁ ← if all b == 0 then ok v else free_block (all b) v
  free_loop all (b + 1) left v₁

-- `inode_delete`: the bytes of the inode in its table become 0.
pub inode_delete : Partition → ℕ → (ℕ → ℕ) → Res (ℕ → ℕ)
inode_delete part inode_no disk = do
  check (ltb inode_no 4096)
  pos ← inode_locate part inode_no
  check (leb pos.sec_lba (part.start_lba + part.sec_cnt))
  let n = if pos.two_sec then 2 else 1
  let inode_buf = ide_read disk pos.sec_lba
  ok (ide_write disk pos.sec_lba (splice inode_buf pos.off_size (λ i. 0)) n)

-- The blocks of an inode: its table, if it has one, then the others.
pub free_blocks : (ℕ → ℕ) → Volume → Res Volume
unfolding all_blocks free_loop free_block
free_blocks i_blocks v = do
  let all = all_blocks i_blocks v.disk
  let block_cnt = if i_blocks 12 == 0 then 12 else 140
  v₁ ← if i_blocks 12 == 0 then ok v else free_block (i_blocks 12) v
  free_loop all 0 block_cnt v₁

-- The bit of the inode in the map of inodes.
pub free_inode_bit : ℕ → Volume → Res Volume
free_inode_bit inode_no v = do
  map ← Bitmap.set v.maps.inode_bitmap inode_no 0
  let maps : DiskMaps = record v.maps { inode_bitmap = map }
  ok (record v { maps = maps; disk = bitmap_sync maps inode_no inodes v.disk })

-- `inode_release`, with the address that `sys_malloc` gives where the inode is not open.
pub inode_release : ℕ → ℕ → Volume → Inodes → Res (Volume × Inodes)
unfolding free_blocks free_inode_bit inode_delete
inode_release fresh inode_no v s = do
  (a, s₁) ← inode_open v.part v.disk fresh inode_no s
  let inode_to_del = s₁.inode a
  check (inode_to_del.i_no == inode_no)
  v₁ ← free_blocks inode_to_del.i_blocks v
  v₂ ← free_inode_bit inode_no v₁
  disk ← inode_delete v.part inode_no v₂.disk
  ok (record v₂ { disk = disk }, inode_close a s₁)
