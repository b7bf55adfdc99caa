-- ===== src/FileOps/Create.antt =====
-- `file_create` of fs/file.c: a new inode, a slot, an entry in the directory, and what is given back
-- where one of them fails.
use sparrow_os.Base.{
  ℕ, ◌≡◌, ◌∙◌, refl, false, Option, none, some, List, ◌∷◌, Res, ok, ◌>>=◌, if◌then◌else◌, update,
  arith,
}
use sparrow_os.Bitmap.{Bitmap, scan, scan_test}
use sparrow_os.Bitmap as Bitmap
use sparrow_os.Bitmap.Bits.{IsBytes, set_lem}
use sparrow_os.Inode.{inode_sync}
use sparrow_os.DiskMaps.{inodes, bitmap_sync, inode_bitmap_alloc}
use sparrow_os.DiskMaps.Sectors.{inode_bitmap_alloc_lem}
use sparrow_os.OpenInodes.{Inodes, inode_init, pure_inode}
use sparrow_os.Blocks.Release.{zero_lt_two}
use sparrow_os.Dir.{create_dir_entry, sync_dir_entry}
use sparrow_os.Files.{File, get_free_slot_in_global}
use sparrow_os.FileOps.{Opened, install}

-- `FT_REGULAR`
abbrev pub ft_regular : ℕ
ft_regular = 1

-- The last step of the rollback: the number of the inode is free again, in memory.
pub take_back : ℕ → Opened → Res (Option ℕ × Opened)
take_back inode_no s = do
  map ← Bitmap.set s.volume.maps.inode_bitmap inode_no 0
  ok (
    none,
    record s { volume = record s.volume { maps = record s.volume.maps { inode_bitmap = map } } },
  )

-- The steps a to e, once the entry is in the directory, whose inode is at `parent`.
pub finish : ℕ → ℕ → ℕ → ℕ → Opened → Res (Option ℕ × Opened)
unfolding install
finish fd_idx parent fresh inode_no s = do
  let part = s.volume.part
  let node = s.inodes.inode parent
  disk₁ ← inode_sync part node.i_no (pure_inode node) s.volume.disk
  let new_file_inode = s.inodes.inode fresh
  disk₂ ← inode_sync part inode_no (pure_inode new_file_inode) disk₁
  let disk = bitmap_sync s.volume.maps inode_no inodes disk₂
  let opened : Inodes = record {
    inode = update s.inodes.inode fresh (record new_file_inode { i_open_cnts = 1 });
    open_inodes = fresh ∷ s.inodes.open_inodes;
  }
  ok (install fd_idx (record s { volume = record s.volume { disk = disk }; inodes = opened }))

-- `file_create` with the slot.
pub create_in : ℕ → ℕ → ℕ → ℕ → List ℕ → ℕ → Opened → Res (Option ℕ × Opened)
unfolding finish take_back
create_in fd_idx parent fresh inode_no filename flag s = do
  let file : File = record { fd_pos = 0; fd_flag = flag; fd_inode = some fresh }
  e ←
      create_dir_entry filename inode_no ft_regular
        (record { filename = λ i. 0; i_no = 0; f_type = 0 })
  (synced, node, v) ← sync_dir_entry (s.inodes.inode parent) e s.volume
  let nodes : Inodes = record s.inodes { inode = update s.inodes.inode parent node }
  if synced
      then finish fd_idx parent fresh inode_no (record {
        volume = v;
        inodes = nodes;
        files = record s.files { file_table = update s.files.file_table fd_idx file };
      })
      else take_back inode_no (record {
        volume = v;
        inodes = nodes;
        files = record s.files {
          file_table =
              update s.files.file_table fd_idx
                (record { fd_pos = 0; fd_flag = 0; fd_inode = none });
        };
      })

-- `file_create` in the directory whose inode is at `parent`, with the address that `sys_malloc` gives
-- for the new inode; `none` is -1.
pub file_create : ℕ → ℕ → List ℕ → ℕ → Opened → Res (Option ℕ × Opened)
unfolding create_in take_back
file_create fresh parent filename flag s = do
  (got, maps) ← inode_bitmap_alloc s.volume.maps
  elim got [
    | none ↦ ok (none, record s { volume = record s.volume { maps = maps } })
    | some inode_no ↦
        let s₁ : Opened = record s {
          volume = record s.volume { maps = maps };
          inodes = record s.inodes {
            inode = update s.inodes.inode fresh (inode_init inode_no (s.inodes.inode fresh));
          };
        } in
        elim (get_free_slot_in_global s.files.file_table) [
          | none ↦ take_back inode_no s₁
          | some fd_idx ↦ create_in fd_idx parent fresh inode_no filename flag s₁
        ]
  ]

-- Where the table of files is full, `file_create` gives -1 and has given back the inode that it took:
-- the map of inodes has the bits that it had, and files, open inodes and disk stay.
pub file_create_full :
    (fresh parent n flag : ℕ) (filename : List ℕ) (s : Opened)
    → scan s.volume.maps.inode_bitmap 1 ≡ ok (some n)
    → IsBytes s.volume.maps.inode_bitmap
    → scan_test s.volume.maps.inode_bitmap n ≡ false
    → get_free_slot_in_global s.files.file_table ≡ none
    → (s' : Opened) × (file_create fresh parent filename flag s ≡ ok (none, s'))
      × ((j : ℕ) → scan_test s'.volume.maps.inode_bitmap j ≡ scan_test s.volume.maps.inode_bitmap j)
      × (s'.files ≡ s.files)
      × (s'.inodes.open_inodes ≡ s.inodes.open_inodes)
      × (s'.volume.disk ≡ s.volume.disk)
unfolding file_create take_back
file_create_full fresh parent n flag filename s free bytes clear full =
    let (map, takes, b, bits) = inode_bitmap_alloc_lem s.volume.maps n free bytes in
    let (map', frees, len, b', bits') = set_lem map b n 0 zero_lt_two in
    (
      record {
        volume = record s.volume { maps = record s.volume.maps { inode_bitmap = map' } };
        inodes = record s.inodes {
          inode = update s.inodes.inode fresh (inode_init n (s.inodes.inode fresh));
        };
        files = s.files;
      },
      rw (takes, ◌>>=◌) (rw full (rw (frees, ◌>>=◌) refl)),
      λ j. bits' j ∙ ground (arith, bits j, clear),
      refl,
      refl,
      refl,
    )
