-- ===== src/Thread/Callers.antt =====
-- The callers of `schedule`: none of them panics, and each keeps the scheduler sound.
use sparrow_os.Base.{
  ◌≡◌, refl, ◌∙◌, ◌≢◌, ◌==◌, true, false, List, [], ◌∷◌, ◌++◌, ok, arith, if◌then◌else◌, has,
  has-append, is_empty, Distinct-join,
}
use sparrow_os.TaskStatus.{TaskStatus, ready, can_block}
use sparrow_os.Thread.{Pcb, Kernel, set_status, unblock, schedule, block, yield_cpu}
use sparrow_os.Thread.Sound.{IsQueue, IsSound, woken, unblock_lem, woken-IsQueue}
use sparrow_os.Thread.Switch.{Switched, schedule-Switched}

-- The kernels that the callers hand to `schedule`.
abbrev asleep : TaskStatus → Kernel → Kernel
asleep stat k = set_status k.cur stat (record k { intr = false })

abbrev stepped_back : Kernel → Kernel
stepped_back k =
    set_status k.cur ready (record k { ready_list = k.ready_list ++ k.cur ∷ []; intr = false })

pub some_last : (xs : List Pcb) (x : Pcb) → is_empty (xs ++ x ∷ []) ≡ false
some_last [] x = refl
some_last (y ∷ xs) x = refl

module _ (k : Kernel) (sound : IsSound k) where
  open sound use {queue, current, only}

  cur_out : has k.cur k.ready_list ≡ false
  cur_out = ground (arith, queue.queued k.cur)

  block_run :
      (stat : TaskStatus) → can_block stat ≡ true → block stat k ≡ schedule k.intr (asleep stat k)
  unfolding block
  block_run stat h = ground arith

  asleep-IsQueue : (stat : TaskStatus) → can_block stat ≡ true → IsQueue (asleep stat k)
  asleep-IsQueue stat h = record {
    distinct = queue.distinct;
    queued = λ a i. ground (arith, queue.queued a);
    kept = λ a e. ground (arith, queue.kept a);
    alive = ground (arith, queue.alive);
  }

  asleep_frame :
      (stat : TaskStatus)
      → can_block stat ≡ true
      → (k' : Kernel) → Switched (asleep stat k) k'
      → (p : Pcb) → has p k.ready_list ≡ false
      → p ≢ k.idle_thread
      → (k'.task p).status ≡ (if k.cur == p then stat else (k.task p).status)
  asleep_frame stat h k' s p out ne = ground (arith, s.frame p)

  -- `thread_block` in a state that is not scheduled: the current task leaves the processor and
  -- the queue, and the first of the queue runs, or idle if there is none. The status of a task
  -- that is neither in the queue nor idle stays, but that of the current task.
  pub block_lem :
      (stat : TaskStatus)
      → can_block stat ≡ true
      → (k' : Kernel) × (block stat k ≡ ok k')
        × IsSound k'
        × (k'.cur ∷ k'.ready_list
            ≡ (if is_empty k.ready_list then k.idle_thread ∷ [] else k.ready_list))
        × ((p : Pcb)
            → has p k.ready_list ≡ false
            → p ≢ k.idle_thread
            → (k'.task p).status ≡ (if k.cur == p then stat else (k.task p).status))
        × (k'.idle_thread ≡ k.idle_thread)
  block_lem stat h =
      let (k', run, s) =
        schedule-Switched k.intr (asleep stat k) (asleep-IsQueue stat h)
          (λ p e. ground (arith, only p)) refl in
      (
        k',
        block_run stat h ∙ run,
        s.sound,
        s.order ∙ ground arith,
        λ p out ne. asleep_frame stat h k' s p out ne,
        s.idle,
      )

  yield_cpu_run : yield_cpu k ≡ schedule k.intr (stepped_back k)
  unfolding yield_cpu
  yield_cpu_run = ground (arith, cur_out)

  stepped_back-IsQueue : IsQueue (stepped_back k)
  stepped_back-IsQueue = record {
    distinct =
        Distinct-join k.ready_list (k.cur ∷ []) queue.distinct (refl, tt)
          (λ a h. ground (arith, cur_out));
    queued = λ a h. ground (arith, has-append a k.ready_list (k.cur ∷ []), queue.queued a);
    kept = λ a h. ground (arith, has-append a k.ready_list (k.cur ∷ []), queue.kept a);
    alive = ground (arith, queue.alive);
  }

  -- `thread_yield`: the first of the queue runs, and the current task is the last of the queue.
  pub yield_cpu_lem :
      (k' : Kernel) × (yield_cpu k ≡ ok k')
      × IsSound k'
      × (k'.cur ∷ k'.ready_list ≡ k.ready_list ++ k.cur ∷ [])
  yield_cpu_lem =
      let (k', run, s) =
        schedule-Switched k.intr (stepped_back k) stepped_back-IsQueue
          (λ p e. ground (arith, only p)) refl in
      (k', yield_cpu_run ∙ run, s.sound, s.order ∙ ground (arith, some_last k.ready_list k.cur))

  -- `thread_unblock` of a task that waits: it becomes ready and the first of the queue, and
  -- the rest of the kernel stays: its other tasks and fields, and the other fields of the task.
  pub unblock-IsSound :
      (p : Pcb)
      → can_block (k.task p).status ≡ true
      → (k' : Kernel) × (unblock p k ≡ ok k')
        × IsSound k'
        × (k' ≡ set_status p ready (record k { ready_list = p ∷ k.ready_list }))
        × (k'.cur ≡ k.cur)
        × (k'.ready_list ≡ p ∷ k.ready_list)
        × (k'.intr ≡ k.intr)
        × (k'.idle_thread ≡ k.idle_thread)
        × ((a : Pcb) → p ≢ a → (k'.task a).status ≡ (k.task a).status)
  unblock-IsSound p h = (
    woken k queue p,
    unblock_lem k queue p h,
    record {
      queue = woken-IsQueue k queue p h;
      current = ground arith;
      only = λ a e. ground (arith, only a);
    },
    refl,
    refl,
    refl,
    refl,
    refl,
    λ a ne. ground arith,
  )
