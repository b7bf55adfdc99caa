-- ===== src/Thread/Tests.antt =====
-- The scheduler on four tasks: 1 runs, 2 and 3 are ready, idle is task 4.
use sparrow_os.Base.{
  ◌≡◌, refl, ◌≢◌, true, false, none, List, [], ◌∷◌, Res, ok, panic, arith, ◌==◌, if◌then◌else◌, has,
}
use sparrow_os.Interrupt
use sparrow_os.TaskStatus.{TaskStatus, running, ready, blocked, died, waiting}
use sparrow_os.Thread.{
  Pcb, Task, Kernel, set_status, unblock, requeue, wake_idle, switch_to, saved, schedule, block,
  timer_handler,
}
use sparrow_os.Thread.Sound.{IsSound}
use sparrow_os.Thread.Callers.{block_lem, yield_cpu_lem, unblock-IsSound}
use sparrow_os.Thread.Steps.{here, next, yields, Reach-IsSound, yield_rounds, yield_rounds_turn}

abbrev status_of : Pcb → TaskStatus
status_of p =
    if p == 1
    then running
    else if p == 2
    then ready
    else if p == 3
    then ready
    else if p == 4
    then blocked
    else if p == 5
    then waiting
    else died

abbrev task_of : Pcb → Task
task_of p = record {
  pid = p;
  status = status_of p;
  priority = 31;
  ticks = 0;
  elapsed_ticks = 7;
  user = false;
  fd_table = λ i. none;
  parent_pid = none;
  exit_status = 0;
  stack_magic = 0x19980924;
  resumes = true;
}

abbrev pub four : Kernel
four = record {
  cur = 1;
  task = task_of;
  ready_list = 2 ∷ 3 ∷ [];
  all_list = 1 ∷ 2 ∷ 3 ∷ 4 ∷ [];
  idle_thread = 4;
  main_thread = 1;
  intr = true;
  ticks = 0;
}

pub four-IsSound : IsSound four
four-IsSound = record {
  queue = record {
    distinct = (refl, (refl, tt));
    queued = λ p h. ground arith;
    kept = λ p h. ground arith;
    alive = ground arith;
  };
  current = refl;
  only = λ p h. ground arith;
}

-- The order after a call that succeeds.
abbrev order : Res Kernel → List Pcb
order (ok k) = k.cur ∷ k.ready_list
order panic = []

block_runs_two : order (block blocked four) ≡ 2 ∷ 3 ∷ []
unfolding block schedule saved requeue wake_idle switch_to unblock Interrupt.disable
block_runs_two = refl

block_running : block running four ≡ panic
unfolding block
block_running = refl

timer_rotates : order (timer_handler four) ≡ 2 ∷ 3 ∷ 1 ∷ []
unfolding timer_handler schedule saved requeue wake_idle switch_to unblock
timer_rotates = refl

block_lem_example :
    (k' : Kernel) × (block blocked four ≡ ok k')
    × IsSound k'
    × (k'.cur ∷ k'.ready_list ≡ 2 ∷ 3 ∷ [])
    × ((p : Pcb)
        → has p (2 ∷ 3 ∷ []) ≡ false
        → p ≢ 4
        → (k'.task p).status ≡ (if 1 == p then blocked else status_of p))
    × (k'.idle_thread ≡ 4)
block_lem_example = block_lem four four-IsSound blocked refl

unblock-IsSound_example :
    (k' : Kernel) × (unblock 5 four ≡ ok k')
    × IsSound k'
    × (k' ≡ set_status 5 ready (record four { ready_list = 5 ∷ 2 ∷ 3 ∷ [] }))
    × (k'.cur ≡ 1)
    × (k'.ready_list ≡ 5 ∷ 2 ∷ 3 ∷ [])
    × (k'.intr ≡ true)
    × (k'.idle_thread ≡ 4)
    × ((a : Pcb) → 5 ≢ a → (k'.task a).status ≡ status_of a)
unblock-IsSound_example = unblock-IsSound four four-IsSound 5 refl

-- The kernel after task 1 has yielded.
after_yield : Kernel
after_yield = (yield_cpu_lem four four-IsSound).0

Reach-IsSound_example : IsSound after_yield
unfolding after_yield
Reach-IsSound_example =
    Reach-IsSound four-IsSound (next here (yields (yield_cpu_lem four four-IsSound).1))

yield_rounds_turn_example :
    (k' : Kernel) × (yield_rounds 2 four ≡ ok k') × IsSound k' × (k'.cur ≡ 3)
yield_rounds_turn_example = yield_rounds_turn (2 ∷ []) 3 [] four four-IsSound refl
