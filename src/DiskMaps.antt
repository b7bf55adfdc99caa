-- ===== src/DiskMaps.antt =====
-- The maps of inodes and blocks of a partition, in fs/file.c: `inode_bitmap_alloc`,
-- `block_bitmap_alloc` and `bitmap_sync`.
pub mod Sectors
use sparrow_os.Base.{
  ℕ, ◌+◌, ◌*◌, ◌/◌, ◌%◌, ◌^◌, ◌≤◌, ◌<◌, ◌≡◌, refl, true, false, Bool, Option, none, some, Res, ok,
  ◌>>=◌, arith, ◌==◌, if◌then◌else◌,
}
use sparrow_os.Bitmap.{Bitmap}
use sparrow_os.Bitmap as Bitmap
use sparrow_os.Inode.{ide_write}

-- What is used of `struct partition` and its super block.
pub record DiskMaps : Type 0 where
  pub data_start_lba : ℕ
  pub inode_bitmap_lba : ℕ
  pub block_bitmap_lba : ℕ
  pub inode_bitmap : Bitmap
  pub block_bitmap : Bitmap

pub data BitmapType : Type 0 where
  inodes : BitmapType
  blocks : BitmapType

pub inode_bitmap_alloc : DiskMaps → Res (Option ℕ × DiskMaps)
inode_bitmap_alloc part = do
  found ← Bitmap.scan part.inode_bitmap 1
  elim found [
    | none ↦ ok (none, part)
    | some bit_idx ↦ do
      map ← Bitmap.set part.inode_bitmap bit_idx 1
      ok (some bit_idx, record part { inode_bitmap = map })
  ]

-- `block_bitmap_alloc` gives the sector, and not the bit.
pub block_bitmap_alloc : DiskMaps → Res (Option ℕ × DiskMaps)
block_bitmap_alloc part = do
  found ← Bitmap.scan part.block_bitmap 1
  elim found [
    | none ↦ ok (none, part)
    | some bit_idx ↦ do
      map ← Bitmap.set part.block_bitmap bit_idx 1
      ok (some ((part.data_start_lba + bit_idx) % 2 ^ 32), record part { block_bitmap = map })
  ]

-- The place of a map on the disk, and the map.
unfoldable pub lba_of : BitmapType → DiskMaps → ℕ
lba_of inodes part = part.inode_bitmap_lba
lba_of blocks part = part.block_bitmap_lba

pub map_of : BitmapType → DiskMaps → Bitmap
map_of inodes part = part.inode_bitmap
map_of blocks part = part.block_bitmap

pub bitmap_sync : DiskMaps → ℕ → BitmapType → (ℕ → ℕ) → ℕ → ℕ
unfolding lba_of map_of
bitmap_sync part bit_idx btmp_type disk =
    let off_sec = bit_idx / 4096 in
    let off_size = off_sec * 512 in
    ide_write disk (lba_of btmp_type part + off_sec)
      (λ i. (map_of btmp_type part).bits (off_size + i)) 1
