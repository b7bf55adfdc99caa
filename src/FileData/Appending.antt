-- ===== src/FileData/Appending.antt =====
-- `file_write` that stays in the last block of a file, and `file_read` of what it wrote.
use sparrow_os.Base.{
  ℕ, ◌+◌, ◌-◌, ◌*◌, ◌/◌, ◌%◌, ◌^◌, ◌≤◌, ◌<◌, ◌≡◌, ◌≢◌, ◌∙◌, refl, true, false, some, ok, arith,
  if◌then◌else◌, ◌>>=◌,
}
use sparrow_os.Inode.{Partition, ide_read, inode_sync}
use sparrow_os.Inode.Place.{place, in_inode, inode_sync_lem}
use sparrow_os.OpenInodes.{Inode, pure_inode}
use sparrow_os.FileData.{Growing, write_loop, write_data}
use sparrow_os.FileData.Reading.{content}
use sparrow_os.FileData.Writing.{Apart, appended, write_loop_lem}

-- The inodes that `inode_sync` may write lie before the sectors behind their table.
off_table :
    (part : Partition) (n lba i : ℕ)
    → part.inode_table_lba + 609 ≤ lba
    → in_inode part (n % 256) (lba * 512 + i) ≡ false
off_table part n lba i behind = ground arith

-- The inode after a write.
abbrev pub longer : Inode → ℕ → Inode
longer node count = record node { i_size = node.i_size + count }

-- The last part of `file_write` in its steps.
data_steps :
    (src : ℕ → ℕ) (count fd_pos pos' : ℕ) (g : Growing) (out disk' : ℕ → ℕ)
    → g.fine ≡ true
    → write_loop count src g.all count true g.node.i_size
        ((g.node.i_size + (2 ^ 32 - 1)) % 2 ^ 32)
        0
        count
        g.volume.disk
      ≡ some (g.node.i_size + count, pos', out)
    → inode_sync g.volume.part g.node.i_no (pure_inode (longer g.node count)) out ≡ ok disk'
    → write_data src count fd_pos g
      ≡ ok (some count, longer g.node count, pos', record g.volume { disk = disk' })
unfolding write_data
data_steps src count fd_pos pos' g out disk' fine run synced =
    rw fine (rw run (rw (synced, ◌>>=◌) refl))

-- Bytes on the disk behind the table of inodes stay when an inode is written.
synced_byte :
    (part : Partition) (n lba i : ℕ) (bytes out disk' : ℕ → ℕ)
    → part.inode_table_lba + 609 ≤ lba
    → ((a : ℕ)
        → disk' a ≡ (if in_inode part (n % 256) a then bytes (a - place part (n % 256)) else out a))
    → ide_read disk' lba i ≡ ide_read out lba i
unfolding ide_read
synced_byte part n lba i bytes out disk' behind at =
    at (lba * 512 + i) ∙ rw (off_table part n lba i behind) refl

module _ (src : ℕ → ℕ) (count fd_pos from bound : ℕ) (g : Growing) (fine : g.fine ≡ true)
    (apart : Apart g.all from bound) (after : from ≤ g.node.i_size / 512)
    (room : g.node.i_size + count ≤ 512 * bound)
    (behind : (b : ℕ) → from ≤ b → b < bound → g.volume.part.inode_table_lba + 609 ≤ g.all b)
    (inside : g.volume.part.inode_table_lba + 38
      ≤ g.volume.part.start_lba + g.volume.part.sec_cnt) where
  -- The last part of `file_write` puts the bytes behind the old ones of the file, and its inode with
  -- the new size into the table; other sectors behind the table stay. The position ends one byte
  -- before the end of the file.
  pub write_data_lem :
      (disk' : ℕ → ℕ) × (write_data src count fd_pos g
        ≡ ok (
          some count,
          longer g.node count,
          ((g.node.i_size + (2 ^ 32 - 1)) % 2 ^ 32 + count) % 2 ^ 32,
          record g.volume { disk = disk' },
        ))
      × ((j : ℕ)
          → from * 512 ≤ j
          → j < g.node.i_size + count
          → content disk' g.all j ≡ appended g.volume.disk g.all src g.node.i_size 0 j)
      × ((lba i : ℕ)
          → i < 512
          → g.volume.part.inode_table_lba + 609 ≤ lba
          → ((b : ℕ) → from ≤ b → b < bound → g.all b ≢ lba)
          → ide_read disk' lba i ≡ ide_read g.volume.disk lba i)
  unfolding content
  write_data_lem =
      let (out, run, w) =
        write_loop_lem src g.all from bound apart count count true g.node.i_size
          ((g.node.i_size + (2 ^ 32 - 1)) % 2 ^ 32) 0 count g.volume.disk (omega arith)
          (omega arith) after room (omega arith) (λ e. cc) in
      let (disk', synced, at) =
        inode_sync_lem g.volume.part g.node.i_no (pure_inode (longer g.node count)) out inside in
      (
        disk',
        data_steps src count fd_pos _ g out disk' fine run synced,
        λ j lo hi.
            synced_byte g.volume.part g.node.i_no (g.all (j / 512)) (j % 512)
              (pure_inode (longer g.node count)) out disk'
              (behind (j / 512) (omega arith) (omega arith)) at
            ∙ w.bytes j lo hi,
        λ lba i small far ne.
            synced_byte g.volume.part g.node.i_no lba i (pure_inode (longer g.node count)) out disk'
              far at
            ∙ w.others lba i small ne,
      )
