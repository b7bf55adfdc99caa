-- ===== src/Blocks/Whole.antt =====
-- `inode_release` as a whole: the blocks, the bit and the bytes of the inode.
use sparrow_os.Base.{
  ℕ, ◌+◌, ◌≤◌, ◌<◌, ◌≡◌, ◌∙◌, refl, ap, true, false, ok, ltb, leb, ◌&&◌, ◌==◌, if◌then◌else◌, arith,
}
use sparrow_os.Bitmap.{scan_test}
use sparrow_os.Bitmap.Bits.{IsBytes, set_lem}
use sparrow_os.Inode.{Partition, sizeof_inode, ide_read, ide_write, splice}
use sparrow_os.Inode.Place.{in_inode, inode_locate_lem, written}
use sparrow_os.DiskMaps.{DiskMaps, inodes, bitmap_sync}
use sparrow_os.OpenInodes.{Inodes, inode_open, inode_close}
use sparrow_os.OpenInodes.Sharing.{Opened}
use sparrow_os.Blocks.{Volume, free_inode_bit, inode_delete, inode_release}
use sparrow_os.Blocks.Release.{InData, Returned, free_blocks_lem, zero_lt_two}

-- `inode_delete` sets the bytes of the inode to 0 and no other.
pub inode_delete_lem :
    (part : Partition) (n : ℕ) (disk : ℕ → ℕ)
    → n < 4096
    → part.inode_table_lba + 609 ≤ part.start_lba + part.sec_cnt
    → (disk' : ℕ → ℕ) × (inode_delete part n disk ≡ ok disk')
      × ((a : ℕ) → disk' a ≡ (if in_inode part n a then 0 else disk a))
unfolding inode_delete
inode_delete_lem part n disk small inside =
    let (pos, run, at, off, room) = inode_locate_lem part n small in
    let guard₁ : ltb n 4096 ≡ true = ground arith in
    let guard₂ : leb pos.sec_lba (part.start_lba + part.sec_cnt) ≡ true = ground arith in
    let sectors = if pos.two_sec then 2 else 1 in
    (
      ide_write disk pos.sec_lba (splice (ide_read disk pos.sec_lba) pos.off_size (λ i. 0)) sectors,
      rw (guard₁, run, guard₂) refl,
      λ a.
          written disk (λ i. 0) pos.sec_lba pos.off_size sectors a (ground arith)
          ∙ ap (λ p. if leb p a && ltb a (p + sizeof_inode) then 0 else disk a) at,
    )

-- What `inode_release` of an inode comes to.
pub record Gone (i_blocks : ℕ → ℕ) (n : ℕ) (v v' : Volume) : Type 0 where
  pub blocks :
      (v₁ : Volume) × Returned i_blocks v v₁ × (v'.maps.block_bitmap ≡ v₁.maps.block_bitmap)
  pub bits :
      (j : ℕ)
      → scan_test v'.maps.inode_bitmap j
        ≡ (if n == j then false else scan_test v.maps.inode_bitmap j)
  pub bytes : (a : ℕ) → in_inode v.part n a ≡ true → v'.disk a ≡ 0

-- `inode_release` gives back the table and the blocks of the inode and its bit in the map of inodes,
-- and no other bit of the two maps; its bytes on the disk are 0, and what was open before is open as
-- it was.
pub inode_release_lem :
    (fresh n a : ℕ) (v : Volume) (s s₁ : Inodes)
    → inode_open v.part v.disk fresh n s ≡ ok (a, s₁)
    → Opened s n a s₁
    → n < 4096
    → IsBytes v.maps.inode_bitmap
    → InData (s₁.inode a).i_blocks v
    → v.part.inode_table_lba + 609 ≤ v.part.start_lba + v.part.sec_cnt
    → (v' : Volume) × (s' : Inodes) × (inode_release fresh n v s ≡ ok (v', s'))
      × Gone (s₁.inode a).i_blocks n v v'
      × (s'.open_inodes ≡ s.open_inodes)
unfolding inode_release free_inode_bit
inode_release_lem fresh n a v s s₁ opens opened small bytes d inside =
    let guard : (s₁.inode a).i_no == n ≡ true = ground (arith, opened.number) in
    let (v₁, frees, r) = free_blocks_lem (s₁.inode a).i_blocks v d in
    let same : v₁.maps.inode_bitmap ≡ v.maps.inode_bitmap = r.freed.inode_bitmap in
    let (map, set, len, b, bits) = set_lem v.maps.inode_bitmap bytes n 0 zero_lt_two in
    let maps : DiskMaps = record v₁.maps { inode_bitmap = map } in
    let disk₂ = bitmap_sync maps n inodes v₁.disk in
    let (disk, deletes, zeros) = inode_delete_lem v.part n disk₂ small inside in
    (
      record v₁ { maps = maps; disk = disk },
      inode_close a s₁,
      rw (opens, guard, frees, same, set, deletes) refl,
      record {
        blocks = (v₁, r, refl);
        bits = λ j. ground (arith, bits j);
        bytes = λ p h. zeros p ∙ rw h refl;
      },
      opened.closes,
    )
