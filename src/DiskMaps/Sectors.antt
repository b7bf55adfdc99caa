-- ===== src/DiskMaps/Sectors.antt =====
-- The maps of a partition in memory and on the disk.
use sparrow_os.Base.{
  ℕ, ◌+◌, ◌-◌, ◌*◌, ◌/◌, ◌%◌, ◌^◌, ◌<◌, ◌≡◌, ◌≢◌, refl, true, some, ok, arith, ◌==◌, if◌then◌else◌,
  ap, ◌∙◌,
}
use sparrow_os.Bitmap.{Bitmap, scan, scan_test}
use sparrow_os.Bitmap as Bitmap
use sparrow_os.Bitmap.Bits.{IsBytes, set_lem}
use sparrow_os.Inode.{ide_read, ide_write}
use sparrow_os.DiskMaps.{
  DiskMaps, BitmapType, lba_of, map_of, bitmap_sync, block_bitmap_alloc, inode_bitmap_alloc,
}

module _ (part : DiskMaps) (i : ℕ) where
  -- A call of `block_bitmap_alloc` from what the search and the marking give.
  pub block_run :
      scan part.block_bitmap 1 ≡ ok (some i)
      → (map : Bitmap) → Bitmap.set part.block_bitmap i 1 ≡ ok map
      → block_bitmap_alloc part
        ≡ ok (some ((part.data_start_lba + i) % 2 ^ 32), record part { block_bitmap = map })
  unfolding block_bitmap_alloc
  block_run e map run = rw (e, run) refl

  -- `block_bitmap_alloc` marks the block that the search finds and no other, and gives its sector.
  pub block_bitmap_alloc_lem :
      scan part.block_bitmap 1 ≡ ok (some i)
      → IsBytes part.block_bitmap
      → (map : Bitmap) × (block_bitmap_alloc part
          ≡ ok (some ((part.data_start_lba + i) % 2 ^ 32), record part { block_bitmap = map }))
        × IsBytes map
        × ((j : ℕ) → scan_test map j ≡ (if i == j then true else scan_test part.block_bitmap j))
  block_bitmap_alloc_lem e bytes =
      let (map, run, len, b, bits) = set_lem part.block_bitmap bytes i 1 (omega arith) in
      (map, block_run e map run, b, bits)

  -- `inode_bitmap_alloc` marks the inode that the search finds and no other, and gives its number.
  pub inode_bitmap_alloc_lem :
      scan part.inode_bitmap 1 ≡ ok (some i)
      → IsBytes part.inode_bitmap
      → (map : Bitmap) × (inode_bitmap_alloc part ≡ ok (some i, record part { inode_bitmap = map }))
        × IsBytes map
        × ((j : ℕ) → scan_test map j ≡ (if i == j then true else scan_test part.inode_bitmap j))
  unfolding inode_bitmap_alloc
  inode_bitmap_alloc_lem e bytes =
      let (map, run, len, b, bits) = set_lem part.inode_bitmap bytes i 1 (omega arith) in
      (map, rw (e, run) refl, b, bits)

-- A byte in the one sector that is written.
ide_write_at :
    (disk buf : ℕ → ℕ) (lba i : ℕ) → i < 512 → ide_write disk lba buf 1 (lba * 512 + i) ≡ buf i
unfolding ide_write
ide_write_at disk buf lba i h =
    let place : lba * 512 + i - lba * 512 ≡ i = omega arith in rw place (ground arith)

-- `bitmap_sync` writes the byte of the bit that it is given, and of every bit in the same sector.
pub bitmap_sync_lem :
    (part : DiskMaps) (bit_idx j : ℕ) (btmp_type : BitmapType) (disk : ℕ → ℕ)
    → j / 4096 ≡ bit_idx / 4096
    → bitmap_sync part bit_idx btmp_type disk (lba_of btmp_type part * 512 + j / 8)
      ≡ (map_of btmp_type part).bits (j / 8)
unfolding bitmap_sync
bitmap_sync_lem part bit_idx j btmp_type disk e =
    let lba = lba_of btmp_type part in
    let q = bit_idx / 4096 in
    let r = j / 8 - q * 512 in
    let bits = (map_of btmp_type part).bits in
    let place : lba * 512 + j / 8 ≡ (lba + q) * 512 + r = omega arith in
    let index : q * 512 + r ≡ j / 8 = omega arith in
    ap (ide_write disk (lba + q) (λ i. bits (q * 512 + i)) 1) place
    ∙ ide_write_at disk (λ i. bits (q * 512 + i)) (lba + q) r (omega arith)
    ∙ ap bits index

-- A sector that `bitmap_sync` does not write.
pub bitmap_sync-other :
    (part : DiskMaps) (bit_idx lba i : ℕ) (btmp_type : BitmapType) (disk : ℕ → ℕ)
    → i < 512
    → lba_of btmp_type part + bit_idx / 4096 ≢ lba
    → ide_read (bitmap_sync part bit_idx btmp_type disk) lba i ≡ ide_read disk lba i
unfolding bitmap_sync ide_read ide_write
bitmap_sync-other part bit_idx lba i btmp_type disk h ne = ground arith
