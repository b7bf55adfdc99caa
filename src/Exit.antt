-- ===== src/Exit.antt =====
-- The end of a process: userprog/wait_exit.c, with `pid2thread` and `thread_exit` of thread/thread.c.
-- `list_traversal` of `thread_all_list` is a search in its sequence.
pub mod Children
pub mod Handshake
mod Tests
use sparrow_os.Base.{
  ℕ, zero, suc, ◌+◌, ◌-◌, ◌*◌, ◌/◌, ◌%◌, ◌^◌, Bool, true, false, not, ◌&&◌, Option, none, some,
  List, [], ◌∷◌, Res, ok, panic, check, ◌>>=◌, ◌>>◌, ltb, ◌==◌, if◌then◌else◌, update, has, erase,
}
use sparrow_os.TaskStatus.{TaskStatus, waiting, hanging, died, is_waiting, is_hanging}
use sparrow_os.Thread.{Pcb, Task, Kernel, set_task, set_status, unblock, schedule, block}
use sparrow_os.Paging.{load, present, pte_ptr}
use sparrow_os.Memory.{Memory, pf_kernel, pfree, mfree_page}
use sparrow_os.Pids.{PidPool, release_pid}
use sparrow_os.Files.{File, Descriptors, is_pipe, fd_local2global}
use sparrow_os.FileOps.{Opened, sys_close}

-- What the end of a process works on.
pub record System : Type 0 where
  pub kernel : Kernel
  pub memory : Memory
  pub pids : PidPool
  pub opened : Opened

-- `list_traversal` with a callback.
pub first_task : (Pcb → Bool) → List Pcb → Option Pcb
first_task test [] = none
first_task test (p ∷ ps) = let rest = first_task test ps in if test p then some p else rest

-- Is `parent_pid` this pid? It is `none` for -1.
abbrev pub is_pid : ℕ → Option ℕ → Bool
is_pid pid none = false
is_pid pid (some q) = q == pid

-- `pid2thread` with its callback `pid_check`.
pub pid2thread : ℕ → Kernel → Option Pcb
unfolding first_task
pid2thread pid k = first_task (λ p. (k.task p).pid == pid) k.all_list

-- The callbacks `find_child` and `find_hanging_child`.
abbrev pub find_child : Kernel → ℕ → Pcb → Bool
find_child k ppid p = is_pid ppid (k.task p).parent_pid

abbrev pub find_hanging_child : Kernel → ℕ → Pcb → Bool
find_hanging_child k ppid p = is_pid ppid (k.task p).parent_pid && is_hanging (k.task p).status

-- `list_traversal` with `init_adopt_a_child`, which goes through the whole list.
pub init_adopt : ℕ → List Pcb → Kernel → Kernel
init_adopt pid [] k = k
init_adopt pid (p ∷ ps) k =
    let k' =
      if is_pid pid (k.task p).parent_pid
      then set_task p (record (k.task p) { parent_pid = some 1 }) k
      else k in
    init_adopt pid ps k'

-- The tasks and queues without a task that is over.
pub take_out : Pcb → Kernel → Kernel
take_out p k = set_status p died (record k {
  ready_list = if has p k.ready_list then erase p k.ready_list else k.ready_list;
  all_list = erase p k.all_list;
  intr = false;
})

-- `thread_exit` up to `release_pid`, with the address of the page directory; the Boolean says
-- whether the lock of the pids was got.
pub thread_exit : ℕ → Pcb → Bool → System → Res (Bool × System)
unfolding take_out
thread_exit pgdir p need_schedule sys = do
  m₁ ← if (sys.kernel.task p).user then mfree_page pf_kernel pgdir 1 sys.memory else ok sys.memory
  m₂ ← if p == sys.kernel.main_thread then ok m₁ else mfree_page pf_kernel p 1 m₁
  (got, pids, k) ← release_pid (sys.kernel.task p).pid sys.pids (take_out p sys.kernel)
  k' ← if got && need_schedule then schedule k.intr k else ok k
  ok (got, record sys { kernel = k'; memory = m₂; pids = pids })

-- What a round of the loop of `sys_wait` comes to: a child with its exit status, -1, or that the
-- caller sleeps.
pub data WaitResult : Type 0 where
  reaped : ℕ → ℕ → WaitResult
  no_child : WaitResult
  sleeps : WaitResult

-- The `int8_t` of an exit status as the `int32_t` that `sys_wait` writes.
pub widen : ℕ → ℕ
widen x = if ltb x (2 ^ 7) then x else x + (2 ^ 32 - 2 ^ 8)

-- A round of the loop of `sys_wait`, with the address of the page directory of the child.
pub sys_wait : (Pcb → ℕ) → System → Res (WaitResult × System)
unfolding thread_exit first_task widen
sys_wait pgdir sys =
    let k = sys.kernel in
    let pid = (k.task k.cur).pid in
    elim (first_task (find_hanging_child k pid) k.all_list) [
      | some child ↦ do
        (got, sys') ← thread_exit (pgdir child) child false sys
        ok (
          if got
              then reaped ((k.task child).pid % 2 ^ 16) (widen (k.task child).exit_status)
              else sleeps,
          sys',
        )
      | none ↦ elim (first_task (find_child k pid) k.all_list) [
        | none ↦ ok (no_child, sys)
        | some child ↦ do k' ← block waiting k; ok (sleeps, record sys { kernel = k' })
      ]
    ]

-- The inner loop of `release_prog_resource`: the pages of a table.
pub release_ptes : ℕ → ℕ → Memory → Res Memory
release_ptes ptr zero m = ok m
release_ptes ptr (suc left) m = do
  pte ← load m.mmu ptr
  m' ← if present pte then pfree (pte / 4096 * 4096) m else ok m
  release_ptes (ptr + 4) left m'

-- The outer loop: the tables of the user's part of a directory.
pub release_pdes : ℕ → ℕ → ℕ → Memory → Res Memory
unfolding release_ptes
release_pdes pgdir pde_idx zero m = ok m
release_pdes pgdir pde_idx (suc left) m = do
  pde ← load m.mmu (pgdir + 4 * pde_idx)
  m' ←
      if present pde
      then (do
        m₁ ← release_ptes (pte_ptr (pde_idx * 0x400000)) 1024 m
        pfree (pde / 4096 * 4096) m₁)
      else ok m
  release_pdes pgdir (pde_idx + 1) left m'

-- A descriptor of a pipe: with the last one the page of the pipe is given back. The entry of the
-- table of the task stays.
release_pipe : ℕ → Opened → Memory → Res (Opened × Memory)
release_pipe fd s m = do
  global_fd ← fd_local2global s.files fd
  let file = s.files.file_table global_fd
  let fd_pos = (file.fd_pos + (2 ^ 32 - 1)) % 2 ^ 32
  let write = λ (file' : File). record s {
    files = record s.files { file_table = update s.files.file_table global_fd file' };
  }
  if fd_pos == 0
      then elim file.fd_inode [
        | none ↦ panic
        | some page ↦ do
          m' ← mfree_page pf_kernel page 1 m
          ok (write (record file { fd_pos = fd_pos; fd_inode = none }), m')
      ]
      else ok (write (record file { fd_pos = fd_pos }), m)

-- The loop of `release_prog_resource` over the descriptors.
pub release_files : ℕ → ℕ → Opened → Memory → Res (Opened × Memory)
unfolding release_pipe
release_files fd zero s m = ok (s, m)
release_files fd (suc left) s m = do
  (s', m') ← elim (s.files.fd_table fd) [
    | none ↦ ok (s, m)
    | some global_fd ↦ do
      pipe ← is_pipe s.files fd
      if pipe then release_pipe fd s m else (do (ret, s₁) ← sys_close fd s; ok (s₁, m))
  ]
  release_files (fd + 1) left s' m'

-- `release_prog_resource`, with the addresses of the page directory and of the map of addresses.
pub release_prog_resource : ℕ → ℕ → System → Res System
unfolding release_pdes release_files
release_prog_resource pgdir vaddr_map sys = do
  m₁ ← release_pdes pgdir 0 768 sys.memory
  m₂ ← mfree_page pf_kernel vaddr_map (m₁.userprog_vaddr.vaddr_bitmap.btmp_bytes_len / 4096) m₁
  (opened, m₃) ← release_files 3 5 sys.opened m₂
  ok (record sys { memory = m₃; opened = opened })

-- The last part of `sys_exit`: the parent is woken if it waits, and the task hangs until the parent
-- takes its status.
pub leave : ℕ → Kernel → Res Kernel
unfolding pid2thread
leave ppid k = elim (pid2thread ppid k) [
  | none ↦ panic
  | some parent ↦ do
    k' ← if is_waiting (k.task parent).status then unblock parent k else ok k
    block hanging k'
]

-- `sys_exit`
pub sys_exit : ℕ → ℕ → ℕ → System → Res System
unfolding leave init_adopt release_prog_resource
sys_exit pgdir vaddr_map status sys =
    let k = sys.kernel in
    let k₁ = set_task k.cur (record (k.task k.cur) { exit_status = status % 2 ^ 8 }) k in
    elim (k.task k.cur).parent_pid [
      | none ↦ panic
      | some ppid ↦ do
        sys' ←
            release_prog_resource pgdir vaddr_map
              (record sys { kernel = init_adopt (k.task k.cur).pid k₁.all_list k₁ })
        k₂ ← leave ppid sys'.kernel
        ok (record sys' { kernel = k₂ })
    ]
