-- ===== src/Exit/Tests.antt =====
-- Task 1, with pid 11, runs and is a child of task 2, with pid 12, which waits for it; task 3 is a
-- child of task 1, and task 4 is idle.
use sparrow_os.Base.{
  ℕ, ◌+◌, ◌≡◌, refl, true, none, some, [], ◌∷◌, ok, panic, arith, ◌==◌, if◌then◌else◌,
}
use sparrow_os.TaskStatus.{TaskStatus, running, blocked, waiting, hanging, died}
use sparrow_os.Thread.{Pcb, Task, Kernel}
use sparrow_os.Thread.Sound.{IsSound}
use sparrow_os.Exit.{System, first_task, find_hanging_child, pid2thread, leave, sys_exit}
use sparrow_os.Exit.Handshake.{leave_lem}

abbrev status_of : Pcb → TaskStatus
status_of p =
    if p == 1
    then running
    else if p == 2
    then waiting
    else if p == 3
    then blocked
    else if p == 4
    then blocked
    else died

abbrev task_of : Pcb → Task
task_of p = record {
  pid = p + 10;
  status = status_of p;
  priority = 31;
  ticks = 5;
  elapsed_ticks = 7;
  user = true;
  fd_table = λ i. none;
  parent_pid = if p == 1 then some 12 else if p == 3 then some 11 else none;
  exit_status = 0;
  stack_magic = 0x19980924;
  resumes = true;
}

abbrev family : Kernel
family = record {
  cur = 1;
  task = task_of;
  ready_list = [];
  all_list = 1 ∷ 2 ∷ 3 ∷ 4 ∷ [];
  idle_thread = 4;
  main_thread = 2;
  intr = true;
  ticks = 0;
}

family-IsSound : IsSound family
family-IsSound = record {
  queue = record {
    distinct = tt;
    queued = λ p h. cc;
    kept = λ p h. ground arith;
    alive = ground arith;
  };
  current = refl;
  only = λ p h. ground arith;
}

parent_found : pid2thread 12 family ≡ some 2
unfolding pid2thread first_task
parent_found = refl

leave_lem_example :
    (k' : Kernel) × (leave 12 family ≡ ok k')
    × IsSound k'
    × (k'.cur ≡ 2)
    × ((k'.task 1).status ≡ hanging)
    × (q : Pcb) × (first_task (find_hanging_child k' 12) k'.all_list ≡ some q)
leave_lem_example = leave_lem 12 family 2 family-IsSound refl refl (omega arith) parent_found refl

-- A task without a parent cannot exit.
no_parent :
    (pgdir vaddr_map status : ℕ) (sys : System)
    → (sys.kernel.task sys.kernel.cur).parent_pid ≡ none
    → sys_exit pgdir vaddr_map status sys ≡ panic
unfolding sys_exit
no_parent pgdir vaddr_map status sys e = rw (e, sys_exit) refl
