-- ===== src/FileOps.antt =====
-- Opening and closing files: `file_open` and `file_close` of fs/file.c, `sys_close` of fs/fs.c, over
-- the tables of Files and the inodes of OpenInodes.
pub mod Roundtrip
pub mod Denied
pub mod Create
mod Tests
use sparrow_os.Base.{
  ℕ, zero, suc, ◌+◌, ◌-◌, ◌%◌, ◌^◌, Bool, true, false, not, ◌||◌, Option, none, some, Res, ok,
  panic, check, ◌>>=◌, ◌>>◌, ltb, ◌==◌, if◌then◌else◌, update,
}
use sparrow_os.OpenInodes.{Inode, Inodes, inode_open, inode_close}
use sparrow_os.Files.{
  File, Descriptors, get_free_slot_in_global, pcb_fd_install, fd_local2global, is_pipe,
}
use sparrow_os.Blocks.{Volume}

-- The mounted partition, the inodes in memory, and the tables of files and descriptors.
pub record Opened : Type 0 where
  pub volume : Volume
  pub inodes : Inodes
  pub files : Descriptors

-- `O_WRONLY` or `O_RDWR`
pub writes : ℕ → Bool
writes flag = (flag == 1) || (flag == 2)

abbrev pub set_deny : ℕ → Bool → Inodes → Inodes
set_deny a deny s = record s { inode = update s.inode a (record (s.inode a) { write_deny = deny }) }

-- The end of `file_open`: a descriptor of the task for the slot.
pub install : ℕ → Opened → Option ℕ × Opened
install fd_idx s =
    let (fd, table) = pcb_fd_install (some fd_idx) s.files.fd_table in
    (fd, record s { files = record s.files { fd_table = table } })

-- `file_open` once the slot holds the inode at `a`.
pub claim : ℕ → ℕ → ℕ → Opened → Option ℕ × Opened
unfolding install writes
claim fd_idx a flag s =
    if writes flag
    then (if (s.inodes.inode a).write_deny
        then (none, s)
        else install fd_idx (record s { inodes = set_deny a true s.inodes }))
    else install fd_idx s

-- `file_open`, with the address that `sys_malloc` gives for an inode that is not open; `none` is -1.
pub file_open : ℕ → ℕ → ℕ → Opened → Res (Option ℕ × Opened)
unfolding claim
file_open fresh inode_no flag s = elim (get_free_slot_in_global s.files.file_table) [
  | none ↦ ok (none, s)
  | some fd_idx ↦ do
    (a, inodes) ← inode_open s.volume.part s.volume.disk fresh inode_no s.inodes
    let file : File = record { fd_pos = 0; fd_flag = flag; fd_inode = some a }
    let files = record s.files { file_table = update s.files.file_table fd_idx file }
    ok (claim fd_idx a flag (record s { inodes = inodes; files = files }))
]

-- `file_close` of a slot; a slot without an inode makes it go through `NULL`.
pub file_close : ℕ → Opened → Res Opened
file_close fd_idx s =
    let file = s.files.file_table fd_idx in
    elim file.fd_inode [
      | none ↦ panic
      | some a ↦ ok (record s {
        inodes = inode_close a (set_deny a false s.inodes);
        files = record s.files {
          file_table = update s.files.file_table fd_idx (record file { fd_inode = none });
        };
      })
    ]

-- The branch of `sys_close` for a pipe: with its last descriptor its page is given back.
close_pipe : ℕ → Opened → Opened
close_pipe fd_idx s =
    let file = s.files.file_table fd_idx in
    let fd_pos = (file.fd_pos + (2 ^ 32 - 1)) % 2 ^ 32 in
    let inode = if fd_pos == 0 then none else file.fd_inode in
    record s {
      files = record s.files {
        file_table =
            update s.files.file_table fd_idx (record file { fd_pos = fd_pos; fd_inode = inode });
      };
    }

-- `sys_close`; the Boolean is the result 0, and its opposite -1.
pub sys_close : ℕ → Opened → Res (Bool × Opened)
unfolding close_pipe
sys_close fd s =
    if ltb 2 fd
    then (do
      global_fd ← fd_local2global s.files fd
      pipe ← is_pipe s.files fd
      s₁ ← if pipe then ok (close_pipe global_fd s) else file_close global_fd s
      ok (
        true,
        record s₁ { files = record s₁.files { fd_table = update s₁.files.fd_table fd none } },
      ))
    else ok (false, s)
