-- ===== src/Dir/Tests.antt =====
-- A directory of one block, in sector 2000, with the entries "a" and "b" of the inodes 7 and 8.
use sparrow_os.Base.{
  ℕ, suc, ◌+◌, ◌%◌, ◌-◌, ◌*◌, ◌^◌, ◌<◌, ◌≡◌, refl, true, false, [], ◌∷◌, some, none, ok, ◌>>=◌,
  update, arith, ltb, leb, ◌==◌, if◌then◌else◌, get_elem?, panic,
}
use sparrow_os.Bitmap.{Bitmap, scan, start, first_byte, first_bit, bit}
use sparrow_os.Bitmap as Bitmap
use sparrow_os.DiskMaps.Sectors.{block_run}
use sparrow_os.Inode.{Partition, ide_read, ide_write}
use sparrow_os.OpenInodes.{Inode, word, byte_of}
use sparrow_os.DiskMaps.{blocks, bitmap_sync}
use sparrow_os.Blocks.{Volume, all_blocks, bit_of}
use sparrow_os.Dir.Delete.{
  scan_entries, none_yet, count_entry, is_none, count_loop, delete_loop, delete_dir_entry,
}
use sparrow_os.Dir.Delete.Removal.{delete_hangs}
use sparrow_os.Dir.{
  new_block, put_entry, only_entry, DirEntry, entry_byte, search_entries, search_blocks,
  search_dir_entry, free_slot, same_name, or_else, sync_dir_entry,
}
use sparrow_os.Dir.Search.{find_entry, dir_entries, search_dir_entry-find}
use sparrow_os.Dir.Slots.{Bears, Reads}
use sparrow_os.Dir.Sync.{FullBefore, IsSmall, sync_slot}
use sparrow_os.Dir.Table.{lost_table}
use sparrow_os.Dir.Listing.{dir_is_empty, dir_read, used, listed, dir_read_lem}

abbrev part : Partition
part = record { start_lba = 0; sec_cnt = 4096; inode_table_lba = 10 }

abbrev entry : ℕ → ℕ → DirEntry
entry c n = record { filename = λ i. if i == 0 then c else 0; i_no = n; f_type = 1 }

abbrev all_set : Bitmap
all_set = record { btmp_bytes_len = 4; bits = λ i. 255 }

-- The sector as a memory, and the disk.
sector : ℕ → ℕ
sector i =
    if ltb i 24
    then entry_byte (entry 97 7) i
    else if ltb i 48
    then entry_byte (entry 98 8) (i - 24)
    else 0

abbrev volume : Volume
volume = record {
  part = part;
  maps = record {
    data_start_lba = 1000;
    inode_bitmap_lba = 4;
    block_bitmap_lba = 5;
    inode_bitmap = all_set;
    block_bitmap = all_set;
  };
  disk = λ a. if leb (2000 * 512) a then sector (a - 2000 * 512) else 0;
}

abbrev node : Inode
node = record {
  i_no = 5;
  i_size = 48;
  i_open_cnts = 1;
  write_deny = false;
  i_blocks = λ b. if b == 0 then 2000 else 0;
}

search_dir_entry-find_example :
    search_dir_entry true volume node.i_blocks (98 ∷ [])
    ≡ find_entry (98 ∷ []) (dir_entries volume.disk (all_blocks node.i_blocks volume.disk) 0 140)
search_dir_entry-find_example =
    search_dir_entry-find (98 ∷ []) (omega arith, tt) (omega arith) volume node.i_blocks

dir_read_lem_example :
    dir_read volume node (24 * 1)
    ≡ ok (
        listed
          (get_elem? (used (dir_entries volume.disk (all_blocks node.i_blocks volume.disk) 0 12)) 1)
          (24 * 1))
dir_read_lem_example = dir_read_lem volume node 1 (omega arith)

-- The first slot that is not in use is the third.
third_free : free_slot (ide_read volume.disk 2000) 0 21 ≡ some 48
unfolding free_slot ide_read sector word entry_byte byte_of
third_free = refl

no_c : search_dir_entry true volume node.i_blocks (99 ∷ []) ≡ none
unfolding search_dir_entry search_blocks search_entries same_name or_else all_blocks ide_read sector
    entry_byte
no_c = refl

node-IsSmall : IsSmall node volume (99 ∷ [])
node-IsSmall = record {
  whole = refl;
  no_table = refl;
  absent = no_c;
  once = λ i j lo hi ne e. ground arith;
}

c-Bears : Bears (entry 99 9) (99 ∷ [])
unfolding same_name
c-Bears = refl

sync_slot_example :
    (sync_dir_entry node (entry 99 9) volume
      ≡ ok (
        true,
        record node { i_size = (48 + 24) % 2 ^ 32 },
        record volume {
          disk =
              ide_write volume.disk 2000 (put_entry (ide_read volume.disk 2000) 48 (entry 99 9)) 1;
        },
      ))
    × (e' : DirEntry) × (search_dir_entry true
          (record volume {
            disk =
                ide_write volume.disk 2000
                  (put_entry (ide_read volume.disk 2000) 48 (entry 99 9))
                  1;
          })
          node.i_blocks
          (99 ∷ [])
        ≡ some e')
    × Reads (entry 99 9) e'
sync_slot_example =
    sync_slot node volume (99 ∷ []) (entry 99 9) 0 node-IsSmall (omega arith) c-Bears
      (record { number = omega arith; kind = omega arith }) (omega arith)
      (λ i h. absurd (omega arith)) 48 (omega arith) third_free

-- The first entry alone, in the first indirect block of another directory.
abbrev single : Volume
single = record volume {
  disk = λ a. if leb (2000 * 512) a then only_entry (entry 97 7) (a - 2000 * 512) else 0;
}

abbrev indirect : ℕ → ℕ
indirect b = if b == 12 then 2000 else 0

one_found :
    scan_entries (ide_read single.disk (indirect 12)) 7 0 21 none_yet
    ≡ ok (record { dir_entry_cnt = 1; is_dir_first_block = false; dir_entry_found = some 0 })
unfolding scan_entries count_entry is_none only_entry entry_byte word byte_of ide_read same_name
one_found = refl

delete_hangs_example :
    (delete_loop 7 indirect node single 12 (suc 127) ≡ panic)
    × ((fuel : ℕ) → count_loop fuel indirect 12 0 ≡ none)
delete_hangs_example =
    delete_hangs 7 indirect node single 12 127 0
      (record { dir_entry_cnt = 1; is_dir_first_block = false; dir_entry_found = some 0 })
      (omega arith) (omega arith) (λ i. omega arith) one_found refl refl refl

-- `delete_dir_entry` of an inode that the directory does not have.
no_nine : delete_dir_entry 9 node volume ≡ ok (false, node, volume)
unfolding delete_dir_entry delete_loop scan_entries count_entry is_none all_blocks sector entry_byte
    word byte_of ide_read same_name
no_nine = refl

not_empty : dir_is_empty (record node { i_size = 72 }) ≡ false
unfolding dir_is_empty
not_empty = refl

-- Another directory, whose twelve direct blocks are full, with a table in sector 2100; the blocks
-- 1002 and 1003 are the next that are free.
abbrev map3 : Bitmap
map3 = record { btmp_bytes_len = 1; bits = λ i. 3 }

abbrev map7 : Bitmap
map7 = record { btmp_bytes_len = 1; bits = update map3.bits 0 7 }

abbrev map15 : Bitmap
map15 = record { btmp_bytes_len = 1; bits = update map7.bits 0 15 }

abbrev crowded : Bitmap → (ℕ → ℕ) → Volume
crowded map disk = record {
  part = part;
  maps = record {
    data_start_lba = 1000;
    inode_bitmap_lba = 4;
    block_bitmap_lba = 5;
    inode_bitmap = all_set;
    block_bitmap = map;
  };
  disk = disk;
}

abbrev large : Inode
large = record {
  i_no = 6;
  i_size = 6072;
  i_open_cnts = 1;
  write_deny = false;
  i_blocks = λ b. if ltb b 12 then 2000 + b else if b == 12 then 2100 else 0;
}

abbrev ones : ℕ → ℕ
ones a = 1

-- The disk after the map has been written once, and twice.
abbrev once : ℕ → ℕ
once = bitmap_sync (crowded map7 ones).maps 2 blocks ones

abbrev twice : ℕ → ℕ
twice = bitmap_sync (crowded map15 once).maps 3 blocks once

large-full : FullBefore large (crowded map3 ones) 12
unfolding free_slot ide_read word
large-full i h = (ground arith, refl)

scan_two : scan map3 1 ≡ ok (some 2)
unfolding scan start first_byte first_bit bit
scan_two = refl

scan_three : scan map7 1 ≡ ok (some 3)
unfolding scan start first_byte first_bit bit
scan_three = refl

mark_two : Bitmap.set map3 2 1 ≡ ok map7
unfolding Bitmap.set Bitmap.set_byte
mark_two = refl

mark_three : Bitmap.set map7 3 1 ≡ ok map15
unfolding Bitmap.set Bitmap.set_byte
mark_three = refl

new_table_block : new_block (crowded map3 ones) ≡ ok (some 1002, crowded map7 once)
unfolding new_block bit_of
new_table_block = rw (block_run (crowded map3 ones).maps 2 scan_two map7 mark_two, ◌>>=◌) refl

new_entry_block : new_block (crowded map7 once) ≡ ok (some 1003, crowded map15 twice)
unfolding new_block bit_of
new_entry_block = rw (block_run (crowded map7 once).maps 3 scan_three map15 mark_three, ◌>>=◌) refl

lost_table_example :
    (node' : Inode) × (v' : Volume) × (sync_dir_entry large (entry 99 9) (crowded map3 ones)
      ≡ ok (true, node', v'))
    × (all_blocks node'.i_blocks v'.disk 12 ≡ 1003)
    × ((b : ℕ) → 12 < b → b < 140 → all_blocks node'.i_blocks v'.disk b ≡ 0)
lost_table_example =
    lost_table large (crowded map3 ones) (crowded map7 once) (crowded map15 twice) (entry 99 9) 1002
      1003 large-full new_table_block new_entry_block (omega arith) (omega arith) (omega arith)
      (omega arith)
