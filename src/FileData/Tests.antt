-- ===== src/FileData/Tests.antt =====
-- A file of 500 bytes in block 1001 of a small partition; the blocks 1002 to 1007 are free.
use sparrow_os.Base.{
  ℕ, ◌+◌, ◌%◌, ◌≡◌, refl, true, none, some, ok, panic, arith, ltb, ◌==◌, if◌then◌else◌,
}
use sparrow_os.Bitmap.{Bitmap}
use sparrow_os.OpenInodes.{Inode}
use sparrow_os.Blocks.{Volume, all_blocks}
use sparrow_os.FileData.{file_read, file_write}
use sparrow_os.FileData.Reading.{content, file_read_lem}
use sparrow_os.FileData.Limits.{file_write_limit}

-- The bits of the first two blocks of the data are set.
abbrev map : Bitmap
map = record { btmp_bytes_len = 1; bits = λ i. if i == 0 then 3 else 255 }

abbrev volume : Volume
volume = record {
  part = record { start_lba = 0; sec_cnt = 4096; inode_table_lba = 10 };
  maps = record {
    data_start_lba = 1000;
    inode_bitmap_lba = 4;
    block_bitmap_lba = 5;
    inode_bitmap = map;
    block_bitmap = map;
  };
  disk = λ a. a % 256;
}

abbrev node : Inode
node = record {
  i_no = 5;
  i_size = 500;
  i_open_cnts = 1;
  write_deny = true;
  i_blocks = λ b. if b == 0 then 1001 else 0;
}

abbrev src : ℕ → ℕ
src i = 65

abbrev blank : ℕ → ℕ
blank i = 0

file_read_lem_example :
    (out : ℕ → ℕ) × (file_read node volume.disk 100 1000 blank ≡ ok (some 400, out, 100 + 400))
    × ((i : ℕ)
        → out i ≡ (
            if ltb i 400
            then content volume.disk (all_blocks node.i_blocks volume.disk) (100 + i)
            else blank i))
file_read_lem_example =
    file_read_lem node volume.disk 100 1000 400 blank (omega arith) (omega arith) (omega arith) refl
      (omega arith) (λ h. absurd (omega (arith, h)))

-- A write to exactly the largest size.
file_write_limit_example :
    file_write node 0 volume src 71180
    ≡ (if node.i_size + 71180 == 71680 then panic else ok (none, node, 0, volume))
file_write_limit_example =
    file_write_limit node 0 volume src 71180 (omega arith) (omega arith) (omega arith)
