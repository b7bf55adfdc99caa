-- ===== src/FileSystem.antt =====
-- System calls on paths, of fs/fs.c: `search_file`, which follows a path through the directories, and
-- `sys_unlink`. A path is the list of its bytes; the buffer for a name holds 16 bytes.
pub mod Fuel
pub mod Unlink
mod Tests
use sparrow_os.Base.{
  ℕ, zero, suc, ◌+◌, Bool, true, false, not, ◌&&◌, ◌||◌, Option, none, some, List, [], ◌∷◌, ◌++◌,
  Res, ok, panic, check, ◌>>=◌, ◌>>◌, ltb, ◌==◌, if◌then◌else◌, length, update,
}
use sparrow_os.OpenInodes.{Inode, Inodes}
use sparrow_os.Blocks.{Volume, inode_release}
use sparrow_os.Dir.{DirEntry, search_dir_entry}
use sparrow_os.Dir.Delete.{delete_dir_entry}
use sparrow_os.Dir.Remove.{Directory, dir_open, dir_close}
use sparrow_os.Files.{File}
use sparrow_os.FileOps.{Opened}
use sparrow_os.Paths.{slash, path_parse, max_file_name_len}

-- `enum file_types`
abbrev pub ft_unknown : ℕ
ft_unknown = 0

abbrev pub ft_regular_file : ℕ
ft_regular_file = 1

abbrev pub ft_directory : ℕ
ft_directory = 2

-- A `struct dir *`, which may point to `root_dir`.
pub record DirPointer : Type 0 where
  pub is_root : Bool
  pub dir : Directory

-- `struct path_search_record`
pub record PathSearchRecord : Type 0 where
  pub searched_path : List ℕ
  pub parent_dir : DirPointer
  pub file_type : ℕ

-- The variables of `search_file`.
pub record Searching : Type 0 where
  pub found : PathSearchRecord
  pub parent_dir : DirPointer
  pub dir_e : DirEntry
  pub parent_inode_no : ℕ
  pub inodes : Inodes

-- How the loop ends: without fuel, with -1, with a file, or behind the last name.
pub data SearchEnd : Type 0 where
  out_of_fuel : SearchEnd
  missing : Searching → SearchEnd
  regular : Searching → SearchEnd
  directory : Searching → SearchEnd

abbrev pub close_dir : DirPointer → Inodes → Inodes
close_dir p s = dir_close p.is_root p.dir s

-- The next name, and what is left behind it; the buffer of the name is cleared before.
pub next_part : Option (List ℕ) → List ℕ × Option (List ℕ)
next_part none = ([], none)
next_part (some sub_path) = path_parse sub_path

-- The branch for a directory: it takes the place of its parent, which is closed. The address is that
-- of the inode, if it has to be read.
pub enter : ℕ → Volume → Searching → Res Searching
enter fresh v st = do
  let parent_inode_no = (st.inodes.inode st.parent_dir.dir.inode).i_no
  (d, nodes) ← dir_open fresh st.dir_e.i_no v (close_dir st.parent_dir st.inodes)
  let p : DirPointer = record { is_root = false; dir = d }
  ok (record {
    found = record st.found { parent_dir = p };
    parent_dir = p;
    dir_e = st.dir_e;
    parent_inode_no = parent_inode_no;
    inodes = nodes;
  })

-- The loop of `search_file` on the name and the path behind it. A name that does not fit in the
-- buffer with the 0 that ends it, or is written behind it, is `panic`.
pub search_loop : ℕ → (ℕ → ℕ) → Volume → List ℕ → Option (List ℕ) → Searching → Res SearchEnd
unfolding next_part
search_loop zero fresh v name sub_path st = ok out_of_fuel
search_loop (suc fuel) fresh v [] sub_path st = ok (directory st)
search_loop (suc fuel) fresh v (c ∷ cs) sub_path st = do
  check (ltb (length (c ∷ cs)) max_file_name_len)
  check (ltb (length st.found.searched_path) 512)
  let st₁ : Searching = record st {
    found = record st.found { searched_path = st.found.searched_path ++ slash ∷ c ∷ cs };
  }
  elim (search_dir_entry true v (st.inodes.inode st.parent_dir.dir.inode).i_blocks (c ∷ cs)) [
    | none ↦ ok (missing st₁)
    | some e ↦
        let (name', sub') = next_part sub_path in
        let st₂ : Searching = record st₁ { dir_e = e } in
        if e.f_type == ft_directory
        then (do st₃ ← enter (fresh fuel) v st₂; search_loop fuel fresh v name' sub' st₃)
        else if e.f_type == ft_regular_file
        then ok (regular (record st₂ { found = record st₂.found { file_type = ft_regular_file } }))
        else search_loop fuel fresh v name' sub' st₂
  ]

-- "/", "/." and "/.."
pub is_root_path : List ℕ → Bool
is_root_path (a ∷ []) = a == slash
is_root_path (a ∷ b ∷ []) = (a == slash) && (b == 46)
is_root_path (a ∷ b ∷ c ∷ []) = (a == slash) && (b == 46) && (c == 46)
is_root_path s = false

pub starts_at_root : List ℕ → Bool
starts_at_root [] = false
starts_at_root (a ∷ s) = a == slash

-- The end of `search_file`; behind the last name the parent of the directory is opened again.
pub end_search : ℕ → Volume → SearchEnd → Res (Option ℕ × PathSearchRecord × Inodes)
end_search fresh v out_of_fuel = panic
end_search fresh v (missing st) = ok (none, st.found, st.inodes)
end_search fresh v (regular st) = ok (some st.dir_e.i_no, st.found, st.inodes)
end_search fresh v (directory st) = do
  (d, nodes) ← dir_open fresh st.parent_inode_no v (close_dir st.found.parent_dir st.inodes)
  let p : DirPointer = record { is_root = false; dir = d }
  ok (some st.dir_e.i_no, record st.found { parent_dir = p; file_type = ft_directory }, nodes)

-- `search_file`, with the addresses that `sys_malloc` gives, `root_dir`, and what lies in `dir_e`
-- before an entry has been found; `none` is -1. The record comes with an empty path.
pub search_file :
    (ℕ → ℕ)
    → Directory
    → DirEntry
    → Volume
    → List ℕ
    → Inodes
    → Res (Option ℕ × PathSearchRecord × Inodes)
unfolding is_root_path starts_at_root end_search
search_file fresh root_dir junk v pathname s =
    let root : DirPointer = record { is_root = true; dir = root_dir } in
    if is_root_path pathname
    then ok (some 0, record { searched_path = []; parent_dir = root; file_type = ft_directory }, s)
    else (do
      check (starts_at_root pathname && ltb 1 (length pathname) && ltb (length pathname) 512)
      let (name, sub_path) = path_parse pathname
      end ← search_loop (2 + length pathname) fresh v name sub_path (record {
        found = record { searched_path = []; parent_dir = root; file_type = ft_unknown };
        parent_dir = root;
        dir_e = junk;
        parent_inode_no = 0;
        inodes = s;
      })
      end_search (fresh (2 + length pathname)) v end)

-- The loop of `sys_unlink` over the table of files, with the slots that are left.
pub is_opened : (ℕ → File) → (ℕ → Inode) → ℕ → ℕ → ℕ → Bool
is_opened file_table inode inode_no file_idx zero = false
is_opened file_table inode inode_no file_idx (suc left) =
    let rest = is_opened file_table inode inode_no (file_idx + 1) left in
    elim (file_table file_idx).fd_inode [
      | none ↦ rest
      | some a ↦ ((inode a).i_no == inode_no) || rest
    ]

-- The last part of `sys_unlink`: the entry and the inode are given back, and the parent is closed.
pub unlink_found : ℕ → ℕ → DirPointer → Opened → Res (Bool × Opened)
unlink_found fresh inode_no parent_dir s = do
  let a = parent_dir.dir.inode
  (found, node, v₁) ← delete_dir_entry inode_no (s.inodes.inode a) s.volume
  (v₂, nodes) ←
      inode_release fresh inode_no v₁ (record s.inodes { inode = update s.inodes.inode a node })
  ok (true, record s { volume = v₂; inodes = close_dir parent_dir nodes })

-- `sys_unlink`; the Boolean is the result 0, and its opposite -1.
pub sys_unlink : (ℕ → ℕ) → Directory → DirEntry → List ℕ → Opened → Res (Bool × Opened)
unfolding is_opened unlink_found
sys_unlink fresh root_dir junk pathname s = do
  check (ltb (length pathname) 512)
  (inode_no, found, nodes) ← search_file fresh root_dir junk s.volume pathname s.inodes
  let closed : Opened = record s { inodes = close_dir found.parent_dir nodes }
  elim inode_no [
    | none ↦ ok (false, closed)
    | some n ↦ do
      check (not (n == 0))
      if found.file_type == ft_directory
          then ok (false, closed)
          else if is_opened s.files.file_table nodes.inode n 0 32
          then ok (false, closed)
          else unlink_found (fresh 0) n found.parent_dir (record s { inodes = nodes })
  ]
