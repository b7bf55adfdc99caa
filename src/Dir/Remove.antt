-- ===== src/Dir/Remove.antt =====
-- Directories as objects in memory, of fs/dir.c: `open_root_dir`, `dir_open`, `dir_close` and
-- `dir_remove`. The inodes of the directories are in the store of the open inodes.
use sparrow_os.Base.{
  ℕ, zero, suc, ◌+◌, Bool, true, false, ◌≡◌, ◌≢◌, refl, arith, ◌&&◌, Res, ok, panic, check, ◌>>=◌,
  ◌>>◌, ◌==◌, if◌then◌else◌, update,
}
use sparrow_os.OpenInodes.{Inodes, inode_open, inode_close}
use sparrow_os.Blocks.{Volume, inode_release}
use sparrow_os.OpenInodes.Sharing.{Opened}
use sparrow_os.Dir.Delete.{delete_dir_entry}

-- `struct dir` less its buffer; the inode is an address.
pub record Directory : Type 0 where
  pub inode : ℕ
  pub dir_pos : ℕ

-- `dir_open`, and `open_root_dir` with the number of the root's inode.
pub dir_open : ℕ → ℕ → Volume → Inodes → Res (Directory × Inodes)
dir_open fresh inode_no v s = do
  (a, s') ← inode_open v.part v.disk fresh inode_no s
  ok (record { inode = a; dir_pos = 0 }, s')

-- `dir_close`; the flag says whether the directory is `root_dir`, which stays open.
pub dir_close : Bool → Directory → Inodes → Inodes
dir_close is_root d s = if is_root then s else inode_close d.inode s

-- The loop of `dir_remove`: are the blocks from `b` on all missing?
pub no_blocks : (ℕ → ℕ) → ℕ → ℕ → Bool
no_blocks i_blocks b zero = true
no_blocks i_blocks b (suc left) = (i_blocks b == 0) && no_blocks i_blocks (b + 1) left

-- `dir_remove`: the entry of the child leaves the parent, and then the child's inode is given back.
pub dir_remove : ℕ → Directory → Directory → Volume → Inodes → Res (Volume × Inodes)
unfolding no_blocks
dir_remove fresh parent_dir child_dir v s = do
  let child_dir_inode = s.inode child_dir.inode
  check (no_blocks child_dir_inode.i_blocks 1 12)
  (found, node, v₁) ← delete_dir_entry child_dir_inode.i_no (s.inode parent_dir.inode) v
  inode_release fresh child_dir_inode.i_no v₁
      (record s { inode = update s.inode parent_dir.inode node })

-- Closing a directory that has been opened goes back to the inodes that were open.
dir_open-dir_close :
    (fresh n a : ℕ) (v : Volume) (s s' : Inodes)
    → inode_open v.part v.disk fresh n s ≡ ok (a, s')
    → Opened s n a s'
    → (d : Directory) × (dir_open fresh n v s ≡ ok (d, s'))
      × (d.inode ≡ a)
      × ((dir_close false d s').open_inodes ≡ s.open_inodes)
unfolding dir_open dir_close
dir_open-dir_close fresh n a v s s' opens o =
    (record { inode = a; dir_pos = 0 }, rw opens refl, refl, o.closes)

-- A directory with a second block is not removed: the kernel stops.
dir_remove_second :
    (fresh : ℕ) (parent_dir child_dir : Directory) (v : Volume) (s : Inodes)
    → (s.inode child_dir.inode).i_blocks 1 ≢ 0
    → dir_remove fresh parent_dir child_dir v s ≡ panic
unfolding dir_remove no_blocks
dir_remove_second fresh parent_dir child_dir v s ne =
    let used : (s.inode child_dir.inode).i_blocks 1 == 0 ≡ false = ground arith in
    rw (used, dir_remove) refl
