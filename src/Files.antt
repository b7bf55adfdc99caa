-- ===== src/Files.antt =====
-- File descriptors: the global table of open files and the table of a task, in fs/file.c, fs/fs.c
-- and shell/pipe.c.
pub mod Slots
pub mod Pipes
pub mod Seek
mod Tests
use sparrow_os.Base.{
  ℕ, zero, suc, ◌+◌, ◌-◌, ◌%◌, ◌^◌, Bool, true, false, not, ◌&&◌, ◌||◌, Option, none, some, Res, ok,
  panic, check, ◌>>=◌, ◌>>◌, ltb, leb, ◌==◌, if◌then◌else◌, update,
}

abbrev pub max_file_open : ℕ
max_file_open = 32

abbrev pub max_files_open_per_proc : ℕ
max_files_open_per_proc = 8

-- `PIPE_FLAG`
abbrev pub pipe_flag : ℕ
pipe_flag = 0xFFFF

-- `struct file`; `none` is `NULL`, and the pointer is an inode or the page of a pipe.
pub record File : Type 0 where
  pub fd_pos : ℕ
  pub fd_flag : ℕ
  pub fd_inode : Option ℕ

-- The global table, and the table of the running task, where `none` is -1.
pub record Descriptors : Type 0 where
  pub file_table : ℕ → File
  pub fd_table : ℕ → Option ℕ

unfoldable pub is_null : Option ℕ → Bool
is_null none = true
is_null (some p) = false

-- The loop of `get_free_slot_in_global`, with the slots that are left to try.
unfoldable pub slot_loop : (ℕ → File) → ℕ → ℕ → Option ℕ
unfolding is_null
slot_loop file_table fd_idx zero = none
slot_loop file_table fd_idx (suc left) =
    let rest = slot_loop file_table (fd_idx + 1) left in
    if is_null (file_table fd_idx).fd_inode then some fd_idx else rest

-- `get_free_slot_in_global`; `none` is -1.
unfoldable pub get_free_slot_in_global : (ℕ → File) → Option ℕ
unfolding slot_loop
get_free_slot_in_global file_table = slot_loop file_table 3 (max_file_open - 3)

-- The loop of `pcb_fd_install`.
unfoldable pub install_loop : (ℕ → Option ℕ) → ℕ → ℕ → Option ℕ
install_loop fd_table local_fd_idx zero = none
install_loop fd_table local_fd_idx (suc left) =
    let rest = install_loop fd_table (local_fd_idx + 1) left in
    if is_null (fd_table local_fd_idx) then some local_fd_idx else rest

-- `pcb_fd_install`, with the table of the task.
unfoldable pub pcb_fd_install : Option ℕ → (ℕ → Option ℕ) → Option ℕ × (ℕ → Option ℕ)
unfolding install_loop
pcb_fd_install globa_fd_idx fd_table =
    elim (install_loop fd_table 3 (max_files_open_per_proc - 3)) [
      | none ↦ (none, fd_table)
      | some local_fd_idx ↦ (some local_fd_idx, update fd_table local_fd_idx globa_fd_idx)
    ]

unfoldable pub fd_local2global : Descriptors → ℕ → Res ℕ
fd_local2global d local_fd = elim (d.fd_table local_fd) [
  | none ↦ panic
  | some global_fd ↦ if ltb global_fd max_file_open then ok global_fd else panic
]

unfoldable pub is_pipe : Descriptors → ℕ → Res Bool
unfolding fd_local2global
is_pipe d local_fd = do
  global_fd ← fd_local2global d local_fd
  ok ((d.file_table global_fd).fd_flag == pipe_flag)

-- `sys_fd_redirect`
pub sys_fd_redirect : ℕ → ℕ → Descriptors → Descriptors
sys_fd_redirect old_local_fd new_local_fd d =
    if ltb new_local_fd 3
    then record d { fd_table = update d.fd_table old_local_fd (some new_local_fd) }
    else record d { fd_table = update d.fd_table old_local_fd (d.fd_table new_local_fd) }

-- `sys_pipe` with the slot that it has, and what `get_kernel_pages` gives.
pub pipe_at : ℕ → Option ℕ → Descriptors → Option (Option ℕ × Option ℕ) × Descriptors
unfolding pcb_fd_install
pipe_at global_fd none d =
    let file : File = record (d.file_table global_fd) { fd_inode = none } in
    (none, record d { file_table = update d.file_table global_fd file })
pipe_at global_fd (some page) d =
    let file : File = record { fd_pos = 2; fd_flag = pipe_flag; fd_inode = some page } in
    let (reader, table₁) = pcb_fd_install (some global_fd) d.fd_table in
    let (writer, table₂) = pcb_fd_install (some global_fd) table₁ in
    (
      some (reader, writer),
      record { file_table = update d.file_table global_fd file; fd_table = table₂ },
    )

-- `sys_pipe`, with what `get_kernel_pages` gives. Where no slot is free the -1 is the index of the
-- writes to `file_table`, outside of it: `panic` stands for what follows.
pub sys_pipe : Option ℕ → Descriptors → Res (Option (Option ℕ × Option ℕ) × Descriptors)
unfolding pipe_at
sys_pipe page d = elim (get_free_slot_in_global d.file_table) [
  | none ↦ panic
  | some global_fd ↦ ok (pipe_at global_fd page d)
]

-- `a > b` on 32-bit signed numbers.
pub int_gt : ℕ → ℕ → Bool
int_gt a b = ltb ((b + 2 ^ 31) % 2 ^ 32) ((a + 2 ^ 31) % 2 ^ 32)

-- The `switch` of `sys_lseek`.
pub seek_target : ℕ → ℕ → ℕ → ℕ → ℕ
seek_target whence fd_pos offset file_size =
    if whence == 1
    then offset
    else if whence == 2
    then (fd_pos + offset) % 2 ^ 32
    else (file_size + offset) % 2 ^ 32

-- `pf->fd_inode->i_size`; reading through `NULL` faults.
size_of : Option ℕ → (ℕ → ℕ) → Res ℕ
size_of none i_size = panic
size_of (some inode) i_size = ok (i_size inode)

-- `sys_lseek` of a descriptor that is not negative, with the size in the inode that its file leads
-- to; `none` is -1.
pub sys_lseek : ℕ → ℕ → ℕ → (ℕ → ℕ) → Descriptors → Res (Option ℕ × Descriptors)
unfolding seek_target int_gt
sys_lseek fd offset whence i_size d = do
  check (ltb 0 whence && ltb whence 4)
  global_fd ← fd_local2global d fd
  let pf = d.file_table global_fd
  file_size ← size_of pf.fd_inode i_size
  let new_pos = seek_target whence pf.fd_pos offset file_size
  if leb (2 ^ 31) new_pos || int_gt new_pos ((file_size + (2 ^ 32 - 1)) % 2 ^ 32)
      then ok (none, d)
      else ok (
        some new_pos,
        record d { file_table = update d.file_table global_fd (record pf { fd_pos = new_pos }) },
      )
