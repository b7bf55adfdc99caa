-- ===== src/Thread/Sound.antt =====
-- The invariant of the scheduler, and what the parts of `schedule` do to it.
use sparrow_os.Base.{Bool, ◌≡◌, ◌≢◌, true, false, ◌∷◌, ok, arith, has, Distinct}
use sparrow_os.Thread.{Pcb, Kernel, set_status, unblock}
use sparrow_os.TaskStatus.{TaskStatus, running, ready, died, is_running, is_ready, can_block}

-- The ready queue holds exactly the tasks whose status is READY, each once, and idle has not died.
pub record IsQueue (k : Kernel) : Type 0 where
  pub distinct : Distinct k.ready_list
  pub queued : (p : Pcb) → has p k.ready_list ≡ true → (k.task p).status ≡ ready
  pub kept : (p : Pcb) → (k.task p).status ≡ ready → has p k.ready_list ≡ true
  pub alive : (k.task k.idle_thread).status ≢ died

-- Between two calls the current task runs, and no other.
pub record IsSound (k : Kernel) : Type 0 where
  pub queue : IsQueue k
  pub current : (k.task k.cur).status ≡ running
  pub only : (p : Pcb) → (k.task p).status ≡ running → p ≡ k.cur

-- The interrupt flag plays no part in it.
pub with_intr : (flag : Bool) (k : Kernel) → IsSound k → IsSound (record k { intr = flag })
with_intr flag k s = record {
  queue = record {
    distinct = s.queue.distinct;
    queued = s.queue.queued;
    kept = s.queue.kept;
    alive = s.queue.alive;
  };
  current = s.current;
  only = s.only;
}

-- Inside `schedule` no task runs.
abbrev pub IsQuiet : Kernel → Type 0
IsQuiet k = (p : Pcb) → (k.task p).status ≢ running

can_block-ne-ready :
    (s : TaskStatus)
    → can_block s ≡ true
    → (is_ready s ≡ false) × (is_running s ≡ false) × (s ≢ ready)
can_block-ne-ready s h = ground arith

module _ (k : Kernel) (q : IsQueue k) where
  -- What `thread_unblock` comes to: the task is the first of the queue.
  abbrev pub woken : Pcb → Kernel
  woken p = set_status p ready (record k { ready_list = p ∷ k.ready_list })

  not_queued : (p : Pcb) → (k.task p).status ≢ ready → has p k.ready_list ≡ false
  not_queued p ne = ground (arith, q.queued p)

  pub unblock_lem : (p : Pcb) → can_block (k.task p).status ≡ true → unblock p k ≡ ok (woken p)
  unfolding unblock
  unblock_lem p h = ground (arith, not_queued p)

  pub woken-IsQueue : (p : Pcb) → can_block (k.task p).status ≡ true → IsQueue (woken p)
  woken-IsQueue p h = record {
    distinct = (not_queued p (can_block-ne-ready _ h).2, q.distinct);
    queued = λ a i. ground (arith, q.queued a);
    kept = λ a e. ground (arith, q.kept a);
    alive = ground (arith, q.alive);
  }

  pub woken-IsQuiet : (p : Pcb) → IsQuiet k → IsQuiet (woken p)
  woken-IsQuiet p quiet a e = ground (arith, quiet a)
