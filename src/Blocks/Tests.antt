-- ===== src/Blocks/Tests.antt =====
-- A partition with inode 5, which has one block and is open once; all bits of the maps are set.
use sparrow_os.Base.{ℕ, ◌≡◌, refl, true, false, [], ◌∷◌, some, ok, arith, ◌==◌, if◌then◌else◌, has}
use sparrow_os.Bitmap.{Bitmap}
use sparrow_os.Inode.{Partition}
use sparrow_os.OpenInodes.{Inode, Inodes, open_loop}
use sparrow_os.OpenInodes.Sharing.{IsShared, reopened, open_hit, reopened-Opened}
use sparrow_os.Blocks.{Volume, all_blocks, inode_release}
use sparrow_os.Blocks.Release.{InData}
use sparrow_os.Blocks.Whole.{Gone, inode_release_lem}

abbrev part : Partition
part = record { start_lba = 0; sec_cnt = 4096; inode_table_lba = 10 }

abbrev all_set : Bitmap
all_set = record { btmp_bytes_len = 4; bits = λ i. 255 }

abbrev volume : Volume
volume = record {
  part = part;
  maps = record {
    data_start_lba = 1000;
    inode_bitmap_lba = 4;
    block_bitmap_lba = 5;
    inode_bitmap = all_set;
    block_bitmap = all_set;
  };
  disk = λ a. 0;
}

abbrev five : Inode
five = record {
  i_no = 5;
  i_size = 100;
  i_open_cnts = 1;
  write_deny = false;
  i_blocks = λ b. if b == 0 then 1007 else 0;
}

abbrev opened : Inodes
opened = record { inode = λ a. five; open_inodes = 0xc0101000 ∷ [] }

only : (a : ℕ) → has a opened.open_inodes ≡ true → a ≡ 0xc0101000
only a h = ground arith

opened-IsShared : IsShared opened
opened-IsShared = record {
  distinct = (refl, tt);
  single = λ a b p q e. let x = only a p in let y = only b q in ground arith;
  counted = λ a h. (omega arith, omega arith);
}

found : open_loop opened.inode 5 opened.open_inodes ≡ some 0xc0101000
unfolding open_loop
found = refl

blocks-InData : InData ((reopened 0xc0101000 opened).inode 0xc0101000).i_blocks volume
unfolding all_blocks
blocks-InData = record {
  bytes = λ i. omega arith;
  table = λ ne. absurd (ne refl);
  others = λ i h ne. ground arith;
}

inode_release_lem_example :
    (v' : Volume) × (s' : Inodes) × (inode_release 0xc0102000 5 volume opened ≡ ok (v', s'))
    × Gone ((reopened 0xc0101000 opened).inode 0xc0101000).i_blocks 5 volume v'
    × (s'.open_inodes ≡ opened.open_inodes)
inode_release_lem_example =
    inode_release_lem 0xc0102000 5 0xc0101000 volume opened (reopened 0xc0101000 opened)
      (open_hit part volume.disk 0xc0102000 5 opened 0xc0101000 found)
      (reopened-Opened opened opened-IsShared 5 0xc0101000 refl refl (omega arith)) (omega arith)
      (λ i. omega arith) blocks-InData (omega arith)
