-- ===== src/OpenInodes/Tests.antt =====
-- A partition with inode 5 open, once, and inode 7 on the disk.
use sparrow_os.Base.{
  ℕ, ◌+◌, ◌*◌, ◌≡◌, ◌≢◌, refl, true, false, ◌&&◌, [], ◌∷◌, ok, arith, none, ◌==◌, if◌then◌else◌,
  ltb, has,
}
use sparrow_os.Inode.{Partition, inode_sync}
use sparrow_os.Inode.Place.{place}
use sparrow_os.OpenInodes.{
  Inode, Inodes, inode_init, pure_inode, word, open_loop, inode_open, inode_close,
}
use sparrow_os.OpenInodes.Image.{Fits, SameOnDisk, inode_sync-open}
use sparrow_os.OpenInodes.Sharing.{IsShared, Opened, inode_open-Opened}
use sparrow_os.OpenInodes.Closing.{inode_close_lem}

abbrev part : Partition
part = record { start_lba = 0; sec_cnt = 4096; inode_table_lba = 10 }

-- The first byte of the inodes 7 and 9 is their number, and all others are 0.
abbrev disk : ℕ → ℕ
disk a = if a == 10 * 512 + 7 * 76 then 7 else 0

abbrev five : Inode
five = record { i_no = 5; i_size = 100; i_open_cnts = 1; write_deny = false; i_blocks = λ b. 0 }

abbrev nine : Inode
nine = record {
  i_no = 9;
  i_size = 700;
  i_open_cnts = 3;
  write_deny = true;
  i_blocks = λ b. if ltb b 2 then 500 + b else 0;
}

abbrev opened : Inodes
opened = record { inode = λ a. five; open_inodes = 0xc0101000 ∷ [] }

only : (a : ℕ) → has a opened.open_inodes ≡ true → a ≡ 0xc0101000
only a h = ground arith

opened-IsShared : IsShared opened
opened-IsShared = record {
  distinct = (refl, tt);
  single = λ a b p q e. let x = only a p in let y = only b q in ground arith;
  counted = λ a h. (omega arith, omega arith);
}

new_inode : (inode_init 3 nine).i_size ≡ 0
unfolding inode_init
new_inode = refl

seven_there : word disk (place part 7) ≡ 7
unfolding word
seven_there = refl

missing : (n : ℕ) → n ≢ 5 → open_loop opened.inode n opened.open_inodes ≡ none
unfolding open_loop
missing n ne = ground arith

inode_open-Opened_example :
    (a : ℕ) × (s' : Inodes) × (inode_open part disk 0xc0102000 7 opened ≡ ok (a, s'))
    × Opened opened 7 a s'
inode_open-Opened_example =
    inode_open-Opened part disk 0xc0102000 7 opened opened-IsShared (omega arith) refl seven_there
      (λ a h. omega arith)

inode_close_lem_example :
    IsShared (inode_close 0xc0101000 opened)
    × (((inode_close 0xc0101000 opened).inode 0xc0101000).i_open_cnts + 1 ≡ 1)
    × ((b : ℕ)
        → has b (inode_close 0xc0101000 opened).open_inodes
          ≡ (if (0xc0101000 == b) && (1 == 1) then false else has b opened.open_inodes))
    × ((b : ℕ) → 0xc0101000 ≢ b → (inode_close 0xc0101000 opened).inode b ≡ opened.inode b)
inode_close_lem_example = inode_close_lem 0xc0101000 opened opened-IsShared refl

nine-Fits : Fits nine
nine-Fits = record { number = omega arith; size = omega arith; blocks = λ b h. ground arith }

inode_sync-open_example :
    (disk' : ℕ → ℕ) × (s' : Inodes) × (inode_sync part 9 (pure_inode nine) disk ≡ ok disk')
    × (inode_open part disk' 0xc0102000 9 opened ≡ ok (0xc0102000, s'))
    × SameOnDisk (s'.inode 0xc0102000) nine
    × ((s'.inode 0xc0102000).i_open_cnts ≡ 1)
    × ((s'.inode 0xc0102000).write_deny ≡ false)
    × (s'.open_inodes ≡ 0xc0102000 ∷ opened.open_inodes)
inode_sync-open_example =
    inode_sync-open part nine disk 0xc0102000 opened nine-Fits (omega arith) (omega arith)
      (missing 9 (omega arith))
