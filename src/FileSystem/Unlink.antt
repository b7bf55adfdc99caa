-- ===== src/FileSystem/Unlink.antt =====
-- `sys_unlink` of a file that is open.
use sparrow_os.Base.{
  ℕ, zero, suc, ◌+◌, ◌≤◌, ◌<◌, ◌≡◌, ◌≢◌, refl, inl, inr, true, false, ◌||◌, Option, none, some,
  List, ok, ◌>>=◌, ltb, ◌==◌, length, Bool-cases, arith,
}
use sparrow_os.OpenInodes.{Inode, Inodes}
use sparrow_os.Dir.{DirEntry}
use sparrow_os.Dir.Remove.{Directory}
use sparrow_os.Files.{File}
use sparrow_os.FileOps.{Opened}
use sparrow_os.FileSystem.{
  PathSearchRecord, search_file, is_opened, sys_unlink, ft_regular_file, close_dir,
}

-- The loop finds a slot that leads to the inode.
pub is_opened_lem :
    (file_table : ℕ → File) (inode : ℕ → Inode) (n from left i a : ℕ)
    → from ≤ i
    → i < from + left
    → (file_table i).fd_inode ≡ some a
    → (inode a).i_no ≡ n
    → is_opened file_table inode n from left ≡ true
unfolding is_opened
is_opened_lem file_table inode n from zero i a lo hi at number = absurd (omega arith)
is_opened_lem file_table inode n from (suc left) i a lo hi at number =
    elim (Bool-cases (from == i)) [
      | inl e ↦
          let here : i ≡ from = ground arith in
          let slot = rw here at at in
          let self : (inode a).i_no == n ≡ true = ground arith in
          rw (slot, is_opened) (rw self refl)
      | inr e ↦
          let later =
            is_opened_lem file_table inode n (from + 1) left i a (ground arith) (omega arith) at
              number in
          go (file_table from).fd_inode later
    ]
  where
    go :
        (o : Option ℕ)
        → is_opened file_table inode n (from + 1) left ≡ true
        → (elim o [
          | none ↦ is_opened file_table inode n (from + 1) left
          | some b ↦ ((inode b).i_no == n) || is_opened file_table inode n (from + 1) left
        ])
          ≡ true
    go none h = h
    go (some b) h = ground (arith, h)

-- A file that some slot of the table of files leads to is not removed: `sys_unlink` gives -1, and the
-- disk, its maps and the tables stay.
pub sys_unlink_opened :
    (fresh : ℕ → ℕ) (root_dir : Directory) (junk : DirEntry) (pathname : List ℕ) (s : Opened)
    (n i a : ℕ) (found : PathSearchRecord) (nodes : Inodes)
    → length pathname < 512
    → search_file fresh root_dir junk s.volume pathname s.inodes ≡ ok (some n, found, nodes)
    → n ≢ 0
    → found.file_type ≡ ft_regular_file
    → i < 32
    → (s.files.file_table i).fd_inode ≡ some a
    → (nodes.inode a).i_no ≡ n
    → (s' : Opened) × (sys_unlink fresh root_dir junk pathname s ≡ ok (false, s'))
      × (s'.volume ≡ s.volume)
      × (s'.files ≡ s.files)
unfolding sys_unlink
sys_unlink_opened fresh root_dir junk pathname s n i a found nodes short run used kind low at
      number =
    let guard : ltb (length pathname) 512 ≡ true = ground arith in
    let some_inode : n == 0 ≡ false = ground arith in
    let busy =
      is_opened_lem s.files.file_table nodes.inode n 0 32 i a (omega arith) (omega arith) at
        number in
    (
      record s { inodes = close_dir found.parent_dir nodes },
      rw (guard, run, ◌>>=◌) (rw (some_inode, kind) (rw busy refl)),
      refl,
      refl,
    )
