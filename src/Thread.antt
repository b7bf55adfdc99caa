-- ===== src/Thread.antt =====
-- thread/thread.c and thread.h: tasks, the ready queue and the scheduler; the clock's handler of
-- device/timer.c. The queues are the sequences that `KernelList.Refine` shows a `struct list` to
-- stand for: `list_append` is `++`, `list_push` is `∷`, `list_pop` takes the first.
pub mod Sound
pub mod Switch
pub mod Callers
pub mod Clock
pub mod Steps
pub mod Kept
pub mod Tests
use sparrow_os.Base.{
  ℕ, ◌+◌, ◌-◌, ◌%◌, ◌^◌, Bool, true, false, not, Option, none, some, List, [], ◌∷◌, ◌++◌, Res, ok,
  panic, check, ◌>>=◌, ◌>>◌, ◌==◌, if◌then◌else◌, update, has, erase, is_empty,
}
use sparrow_os.Interrupt
use sparrow_os.TaskStatus.{
  TaskStatus, running, ready, blocked, waiting, hanging, died, is_running, is_ready, can_block,
}

-- The address of a `struct task_struct`.
abbrev pub Pcb : Type 0
Pcb = ℕ

-- `struct task_struct`, with what the functions of this development read. `parent_pid` is `none`
-- for -1, an entry of `fd_table` likewise; `user` says that `pgdir` is not `NULL`. `resumes` is the
-- interrupt status that a task which has been switched out restores when it runs again.
pub record Task : Type 0 where
  pub pid : ℕ
  pub status : TaskStatus
  pub priority : ℕ
  pub ticks : ℕ
  pub elapsed_ticks : ℕ
  pub user : Bool
  pub fd_table : ℕ → Option ℕ
  pub parent_pid : Option ℕ
  pub exit_status : ℕ
  pub stack_magic : ℕ
  pub resumes : Bool

-- The globals: the running task, every task by the address of its PCB, `thread_ready_list`,
-- `thread_all_list`, `idle_thread`, `main_thread`, the interrupt flag and the clock of timer.c.
pub record Kernel : Type 0 where
  pub cur : Pcb
  pub task : Pcb → Task
  pub ready_list : List Pcb
  pub all_list : List Pcb
  pub idle_thread : Pcb
  pub main_thread : Pcb
  pub intr : Bool
  pub ticks : ℕ

abbrev pub set_task : Pcb → Task → Kernel → Kernel
set_task p t k = record k { task = update k.task p t }

abbrev pub set_status : Pcb → TaskStatus → Kernel → Kernel
set_status p s k = set_task p (record (k.task p) { status = s }) k

-- `thread_unblock`
pub unblock : Pcb → Kernel → Res Kernel
unfolding Interrupt.disable Interrupt.set_status
unblock p k =
    let (old_status, off) = Interrupt.disable k.intr in
    let woken = if is_ready (k.task p).status then ok k else (do
      check (not (has p k.ready_list))
      if has p k.ready_list
          then panic
          else ok (set_status p ready (record k { ready_list = p ∷ k.ready_list }))) in
    do
      check (can_block (k.task p).status)
      k' ← woken
      ok (record k' { intr = (Interrupt.set_status old_status off).1 })

-- The first part of `schedule`: a task that is still running goes to the end of the queue, with a
-- new time slice.
requeue : Kernel → Res Kernel
requeue k =
    let cur = k.cur in
    let queued =
      set_task cur (record (k.task cur) { ticks = (k.task cur).priority; status = ready })
        (record k { ready_list = k.ready_list ++ cur ∷ [] }) in
    if is_running (k.task cur).status
    then (do check (not (has cur k.ready_list)); ok queued)
    else ok k

wake_idle : Kernel → Res Kernel
wake_idle k = if is_empty k.ready_list then unblock k.idle_thread k else ok k

-- `list_pop` and the switch. The task that comes in goes on behind its own call of `schedule`, and
-- restores the interrupt status that it had saved. `process_activate` loads page tables only.
switch_to : List Pcb → Kernel → Res Kernel
switch_to [] k = panic
switch_to (next ∷ rest) k = ok (
    set_status next running
      (record k { ready_list = rest; cur = next; intr = (k.task next).resumes }))

-- What a task will restore lies on its own stack.
saved : Bool → Kernel → Kernel
saved old_status k = set_task k.cur (record (k.task k.cur) { resumes = old_status }) k

-- `schedule`, called by a task that will restore the status `old_status` when it runs again.
pub schedule : Bool → Kernel → Res Kernel
schedule old_status k = do
  check (not k.intr)
  k₂ ← requeue (saved old_status k)
  k₃ ← wake_idle k₂
  check (not (is_empty k₃.ready_list))
  switch_to k₃.ready_list k₃

-- `thread_block`, up to the switch.
pub block : TaskStatus → Kernel → Res Kernel
unfolding Interrupt.disable
block stat k = do
  check (can_block stat)
  let (old_status, off) = Interrupt.disable k.intr
  schedule old_status (set_status k.cur stat (record k { intr = off }))

-- `thread_yield`, up to the switch.
pub yield_cpu : Kernel → Res Kernel
unfolding Interrupt.disable
yield_cpu k = do
  let (old_status, off) = Interrupt.disable k.intr
  check (not (has k.cur k.ready_list))
  schedule old_status
      (set_status k.cur ready (record k { ready_list = k.ready_list ++ k.cur ∷ []; intr = off }))

-- `intr_timer_handler`. The processor has cleared the interrupt flag, and the return from the
-- interrupt sets it again.
pub timer_handler : Kernel → Res Kernel
timer_handler k =
    let t = k.task k.cur in
    let t' : Task = record t { elapsed_ticks = (t.elapsed_ticks + 1) % 2 ^ 32 } in
    let k' = set_task k.cur t' (record k { ticks = (k.ticks + 1) % 2 ^ 32; intr = false }) in
    do
      check (t.stack_magic == 0x19980924)
      if t.ticks == 0
          then schedule true k'
          else ok (set_task k.cur (record t' { ticks = t.ticks - 1 }) (record k' { intr = true }))
