-- ===== src/FileSystem/Tests.antt =====
-- A root directory with one entry, the file "a" of inode 7, which is open through slot 3.
use sparrow_os.Base.{
  ℕ, ◌+◌, ◌-◌, ◌*◌, ◌≡◌, refl, true, false, none, some, [], ◌∷◌, ok, arith, ltb, leb, ◌==◌,
  if◌then◌else◌, ◌>>=◌, ◌&&◌,
}
use sparrow_os.Bitmap.{Bitmap}
use sparrow_os.Inode.{ide_read}
use sparrow_os.OpenInodes.{Inode, Inodes, word, byte_of}
use sparrow_os.Blocks.{Volume, all_blocks}
use sparrow_os.Dir.{
  DirEntry, entry_byte, load_entry, search_dir_entry, search_blocks, search_entries, same_name,
  or_else,
}
use sparrow_os.Dir.Remove.{Directory, dir_open}
use sparrow_os.FileOps.{Opened}
use sparrow_os.Paths.{path_parse, skip_slashes, take_name, or_null}
use sparrow_os.FileSystem.{
  PathSearchRecord, close_dir, Searching, search_file, search_loop, next_part, is_root_path,
  starts_at_root, end_search, sys_unlink, enter,
}
use sparrow_os.FileSystem.Fuel.{IsDone, search_loop-IsDone}
use sparrow_os.FileSystem.Unlink.{sys_unlink_opened}

abbrev all_set : Bitmap
all_set = record { btmp_bytes_len = 4; bits = λ i. 255 }

abbrev entry : DirEntry
entry = record { filename = λ i. if i == 0 then 97 else 0; i_no = 7; f_type = 1 }

abbrev nothing : DirEntry
nothing = record { filename = λ i. 0; i_no = 0; f_type = 0 }

abbrev volume : Volume
volume = record {
  part = record { start_lba = 0; sec_cnt = 4096; inode_table_lba = 10 };
  maps = record {
    data_start_lba = 1000;
    inode_bitmap_lba = 4;
    block_bitmap_lba = 5;
    inode_bitmap = all_set;
    block_bitmap = all_set;
  };
  disk = λ a.
      if leb (2000 * 512) a && ltb a (2000 * 512 + 24)
      then entry_byte entry (a - 2000 * 512)
      else 0;
}

abbrev node : ℕ → ℕ → Inode
node n block = record {
  i_no = n;
  i_size = 24;
  i_open_cnts = 1;
  write_deny = false;
  i_blocks = λ b. if b == 0 then block else 0;
}

abbrev nodes : Inodes
nodes = record {
  inode = λ a. if a == 0xc0200000 then node 0 2000 else node 7 1500;
  open_inodes = 0xc0201000 ∷ 0xc0200000 ∷ [];
}

abbrev root_dir : Directory
root_dir = record { inode = 0xc0200000; dir_pos = 0 }

abbrev state : Opened
state = record {
  volume = volume;
  inodes = nodes;
  files = record {
    file_table = λ i. record {
      fd_pos = 0;
      fd_flag = 0;
      fd_inode = if i == 3 then some 0xc0201000 else none;
    };
    fd_table = λ i. none;
  };
}

abbrev addresses : ℕ → ℕ
addresses i = 0xc0300000 + 4096 * i

abbrev searched : PathSearchRecord
searched = record {
  searched_path = 47 ∷ 97 ∷ [];
  parent_dir = record { is_root = true; dir = root_dir };
  file_type = 1;
}

finds_a :
    search_file addresses root_dir nothing volume (47 ∷ 97 ∷ []) nodes
    ≡ ok (some 7, searched, nodes)
unfolding search_file search_loop next_part is_root_path starts_at_root end_search path_parse
    skip_slashes take_name or_null search_dir_entry search_blocks search_entries same_name or_else
    load_entry entry_byte all_blocks ide_read word byte_of
finds_a = refl

sys_unlink_opened_example :
    (s' : Opened) × (sys_unlink addresses root_dir nothing (47 ∷ 97 ∷ []) state ≡ ok (false, s'))
    × (s'.volume ≡ volume)
    × (s'.files ≡ state.files)
sys_unlink_opened_example =
    sys_unlink_opened addresses root_dir nothing (47 ∷ 97 ∷ []) state 7 3 0xc0201000 searched nodes
      (omega arith) finds_a (omega arith) refl (omega arith) refl refl

-- The name "a", and "/b" behind it.
search_loop-IsDone_example : IsDone (
    search_loop 4 addresses volume (97 ∷ []) (some (47 ∷ 98 ∷ [])) (record {
      found = searched;
      parent_dir = searched.parent_dir;
      dir_e = nothing;
      parent_inode_no = 0;
      inodes = nodes;
    }))
search_loop-IsDone_example =
    search_loop-IsDone 4 addresses volume (97 ∷ []) (some (47 ∷ 98 ∷ []))
      (record {
        found = searched;
        parent_dir = searched.parent_dir;
        dir_e = nothing;
        parent_inode_no = 0;
        inodes = nodes;
      })
      (omega arith)

-- Entering a directory keeps the number of the directory that is left.
entered :
    (fresh : ℕ) (v : Volume) (st : Searching) (d : Directory) (s : Inodes)
    → dir_open fresh st.dir_e.i_no v (close_dir st.parent_dir st.inodes) ≡ ok (d, s)
    → (st' : Searching) × (enter fresh v st ≡ ok st')
      × (st'.parent_inode_no ≡ (st.inodes.inode st.parent_dir.dir.inode).i_no)
      × (st'.parent_dir.dir ≡ d)
unfolding enter
entered fresh v st d s opens = (
  record {
    found = record st.found { parent_dir = record { is_root = false; dir = d } };
    parent_dir = record { is_root = false; dir = d };
    dir_e = st.dir_e;
    parent_inode_no = (st.inodes.inode st.parent_dir.dir.inode).i_no;
    inodes = s;
  },
  rw (opens, ◌>>=◌) refl,
  refl,
  refl,
)
