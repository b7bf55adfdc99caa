-- ===== src/FileOps/Tests.antt =====
-- Inode 5 is open through slot 3 and descriptor 3; the slots and descriptors from 4 on are free.
use sparrow_os.Base.{
  ℕ, ◌≡◌, ◌≢◌, ◌≤◌, refl, true, false, none, some, [], ◌∷◌, ok, arith, ltb, ◌==◌, if◌then◌else◌,
  has, update,
}
use sparrow_os.Bitmap.{Bitmap, scan, scan_test, start, first_byte, first_bit, bit}
use sparrow_os.OpenInodes.{Inode, Inodes, open_loop, inode_open, inode_close}
use sparrow_os.OpenInodes.Sharing.{IsShared, reopened, open_hit, reopened-Opened}
use sparrow_os.Files.{
  File, Descriptors, is_null, slot_loop, get_free_slot_in_global, install_loop, pcb_fd_install,
}
use sparrow_os.Blocks.{Volume}
use sparrow_os.FileOps.{Opened, writes, set_deny, file_open, sys_close, close_pipe}
use sparrow_os.FileOps.Denied.{file_open_leaks}
use sparrow_os.FileOps.Create.{file_create, file_create_full}
use sparrow_os.FileOps.Roundtrip.{Restored, file_open-sys_close}

abbrev all_set : Bitmap
all_set = record { btmp_bytes_len = 4; bits = λ i. 255 }

abbrev volume : Volume
volume = record {
  part = record { start_lba = 0; sec_cnt = 4096; inode_table_lba = 10 };
  maps = record {
    data_start_lba = 1000;
    inode_bitmap_lba = 4;
    block_bitmap_lba = 5;
    inode_bitmap = all_set;
    block_bitmap = all_set;
  };
  disk = λ a. 0;
}

-- Inode 5 is being written.
abbrev five : Inode
five = record { i_no = 5; i_size = 100; i_open_cnts = 1; write_deny = true; i_blocks = λ b. 0 }

abbrev inodes : Inodes
inodes = record { inode = λ a. five; open_inodes = 0xc0101000 ∷ [] }

only : (a : ℕ) → has a inodes.open_inodes ≡ true → a ≡ 0xc0101000
only a h = ground arith

inodes-IsShared : IsShared inodes
inodes-IsShared = record {
  distinct = (refl, tt);
  single = λ a b p q e. let x = only a p in let y = only b q in ground arith;
  counted = λ a h. (omega arith, omega arith);
}

abbrev files : Descriptors
files = record {
  file_table =
      λ i. record { fd_pos = 0; fd_flag = 1; fd_inode = if i == 3 then some 0xc0101000 else none };
  fd_table = λ i. if ltb i 4 then some i else none;
}

abbrev state : Opened
state = record { volume = volume; inodes = inodes; files = files }

found : open_loop inodes.inode 5 inodes.open_inodes ≡ some 0xc0101000
unfolding open_loop
found = refl

opens :
    inode_open volume.part volume.disk 0xc0102000 5 inodes
    ≡ ok (0xc0101000, reopened 0xc0101000 inodes)
opens = open_hit volume.part volume.disk 0xc0102000 5 inodes 0xc0101000 found

slot : get_free_slot_in_global files.file_table ≡ some 4
unfolding get_free_slot_in_global slot_loop is_null
slot = refl

descriptor : pcb_fd_install (some 4) files.fd_table ≡ (some 4, update files.fd_table 4 (some 4))
unfolding pcb_fd_install install_loop is_null
descriptor = refl

for_reading : writes 0 ≡ false
unfolding writes
for_reading = refl

for_writing : writes 2 ≡ true
unfolding writes
for_writing = refl

abbrev new_file : ℕ → File
new_file flag = record { fd_pos = 0; fd_flag = flag; fd_inode = some 0xc0101000 }

in_use : (fd g : ℕ) → files.fd_table fd ≡ some g → 3 ≤ g → (files.file_table g).fd_inode ≢ none
in_use fd g e lo = ground arith

file_open_leaks_example :
    (s' : Opened) × (file_open 0xc0102000 5 2 state ≡ ok (none, s'))
    × ((files.file_table 4).fd_inode ≡ none)
    × ((s'.files.file_table 4).fd_inode ≡ some 0xc0101000)
    × ((s'.inodes.inode 0xc0101000).i_open_cnts ≡ 2)
    × ((fd : ℕ) → s'.files.fd_table fd ≢ some 4)
    × (get_free_slot_in_global s'.files.file_table ≢ some 4)
file_open_leaks_example =
    file_open_leaks 0xc0102000 5 2 4 0xc0101000 state inodes-IsShared refl refl refl (omega arith)
      for_writing slot in_use

abbrev for_reader : Opened
for_reader = record state {
  inodes = reopened 0xc0101000 inodes;
  files = record {
    file_table = update files.file_table 4 (new_file 0);
    fd_table = update files.fd_table 4 (some 4);
  };
}

abbrev after_reader : Opened
after_reader = record state {
  inodes = inode_close 0xc0101000 (set_deny 0xc0101000 false (reopened 0xc0101000 inodes));
  files = record {
    file_table = update for_reader.files.file_table 4 (record (new_file 0) { fd_inode = none });
    fd_table = update (update files.fd_table 4 (some 4)) 4 none;
  };
}

file_open-sys_close_example :
    (file_open 0xc0102000 5 0 state ≡ ok (some 4, for_reader))
    × (sys_close 4 for_reader ≡ ok (true, after_reader))
    × Restored state after_reader
file_open-sys_close_example =
    file_open-sys_close state 0xc0102000 5 0 4 0xc0101000 4 (reopened 0xc0101000 inodes)
      (update files.fd_table 4 (some 4)) slot opens
      (reopened-Opened inodes inodes-IsShared 5 0xc0101000 refl refl (omega arith)) for_reading
      descriptor (omega arith)

-- One of two descriptors of a pipe is closed: the slot stays.
half_closed :
    ((close_pipe 3 (record state {
      files = record files {
        file_table = λ i. record { fd_pos = 2; fd_flag = 0xFFFF; fd_inode = some 0xc0110000 };
      };
    })).files.file_table
      3).fd_pos
    ≡ 1
unfolding close_pipe
half_closed = refl

-- All slots are taken, and inode 2 is the first that is free.
abbrev some_set : Bitmap
some_set = record { btmp_bytes_len = 1; bits = λ i. 3 }

abbrev no_slots : Opened
no_slots = record state {
  volume = record volume { maps = record volume.maps { inode_bitmap = some_set } };
  files = record files {
    file_table = λ i. record { fd_pos = 0; fd_flag = 1; fd_inode = some 0xc0101000 };
  };
}

two_free : scan some_set 1 ≡ ok (some 2)
unfolding scan start first_byte first_bit bit
two_free = refl

two_clear : scan_test some_set 2 ≡ false
unfolding scan_test bit
two_clear = refl

none_free : get_free_slot_in_global no_slots.files.file_table ≡ none
unfolding get_free_slot_in_global slot_loop is_null
none_free = refl

file_create_full_example :
    (s' : Opened) × (file_create 0xc0102000 0xc0101000 (97 ∷ []) 2 no_slots ≡ ok (none, s'))
    × ((j : ℕ) → scan_test s'.volume.maps.inode_bitmap j ≡ scan_test some_set j)
    × (s'.files ≡ no_slots.files)
    × (s'.inodes.open_inodes ≡ no_slots.inodes.open_inodes)
    × (s'.volume.disk ≡ no_slots.volume.disk)
file_create_full_example =
    file_create_full 0xc0102000 0xc0101000 2 2 (97 ∷ []) no_slots two_free (λ i. omega arith)
      two_clear none_free
