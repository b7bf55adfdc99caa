-- ===== src/Thread/Switch.antt =====
-- `schedule` and its callers: they never fail an assertion, keep the scheduler sound, and give the
-- processor to the task whose turn it is.
use sparrow_os.Base.{
  ◌≡◌, refl, sym, ap, ◌∙◌, ◌≢◌, inl, inr, Bool, true, false, List, [], ◌∷◌, ◌++◌, ok, arith,
  Bool-cases, if◌then◌else◌, has, has-append, is_empty, Distinct, Distinct-join,
}
use sparrow_os.TaskStatus.{TaskStatus, running, ready, died, is_running, can_block}
use sparrow_os.Thread.{
  Pcb, Kernel, set_task, set_status, requeue, wake_idle, switch_to, saved, schedule,
}
use sparrow_os.Thread.Sound.{
  IsQueue, IsSound, IsQuiet, woken, unblock_lem, woken-IsQueue, woken-IsQuiet,
}

-- No task but the current one runs.
abbrev Only : Kernel → Type 0
Only k = (p : Pcb) → (k.task p).status ≡ running → p ≡ k.cur

-- The queue at the moment of the switch: behind all others the current task, if it still runs; and
-- idle, if there is no other.
abbrev pub waiting_list : Kernel → List Pcb
waiting_list k =
    if is_running (k.task k.cur).status then k.ready_list ++ k.cur ∷ [] else k.ready_list

abbrev pub turn : Kernel → List Pcb
turn k = if is_empty (waiting_list k) then k.idle_thread ∷ [] else waiting_list k

-- A soundness step: the new kernel, that the call succeeds, and what holds of the new kernel.
record Requeued (k k' : Kernel) : Type 0 where
  queue : IsQueue k'
  quiet : IsQuiet k'
  cur : k'.cur ≡ k.cur
  idle : k'.idle_thread ≡ k.idle_thread
  list : k'.ready_list ≡ waiting_list k
  frame : (p : Pcb) → has p (waiting_list k) ≡ false → (k'.task p).status ≡ (k.task p).status

module _ (k : Kernel) (q : IsQueue k) (only : Only k) where
  runs_out : (k.task k.cur).status ≡ running → has k.cur k.ready_list ≡ false
  runs_out e = ground (arith, q.queued k.cur)

  sliced : Kernel
  sliced =
      set_task k.cur (record (k.task k.cur) { ticks = (k.task k.cur).priority; status = ready })
        (record k { ready_list = k.ready_list ++ k.cur ∷ [] })

  requeue_running : (k.task k.cur).status ≡ running → requeue k ≡ ok sliced
  unfolding requeue sliced
  requeue_running e = rw (e, runs_out e)

  sliced-Requeued : (k.task k.cur).status ≡ running → Requeued k sliced
  unfolding sliced
  sliced-Requeued e = record {
    queue = record {
      distinct =
          Distinct-join k.ready_list (k.cur ∷ []) q.distinct (refl, tt)
            (λ a h. ground (arith, runs_out e));
      queued = λ a h. ground (arith, has-append a k.ready_list (k.cur ∷ []), q.queued a);
      kept = λ a h. ground (arith, has-append a k.ready_list (k.cur ∷ []), q.kept a);
      alive = ground (arith, q.alive);
    };
    quiet = λ a h. ground (arith, only a);
    cur = refl;
    idle = refl;
    list = rw e;
    frame = λ p h. ground (arith, has-append p k.ready_list (k.cur ∷ []));
  }

  requeue-Requeued : (k' : Kernel) × (requeue k ≡ ok k') × Requeued k k'
  unfolding requeue
  requeue-Requeued = elim (Bool-cases (is_running (k.task k.cur).status)) [
    | inl e ↦ (sliced, requeue_running (ground arith), sliced-Requeued (ground arith))
    | inr e ↦ (
      k,
      rw e,
      record {
        queue = q;
        quiet = λ a h. ground (arith, only a);
        cur = refl;
        idle = refl;
        list = rw e;
        frame = λ p h. refl;
      },
    )
  ]

record Woken (k k' : Kernel) : Type 0 where
  queue : IsQueue k'
  quiet : IsQuiet k'
  list : k'.ready_list ≡ (if is_empty k.ready_list then k.idle_thread ∷ [] else k.ready_list)
  frame : (p : Pcb) → has p k'.ready_list ≡ false → (k'.task p).status ≡ (k.task p).status
  idle : k'.idle_thread ≡ k.idle_thread

idle_blocks : (s : TaskStatus) → s ≢ running → s ≢ ready → s ≢ died → can_block s ≡ true
idle_blocks s a b c = ground arith

module _ (k : Kernel) (q : IsQueue k) (quiet : IsQuiet k) where
  wake_idle-Woken : (k' : Kernel) × (wake_idle k ≡ ok k') × Woken k k'
  unfolding wake_idle
  wake_idle-Woken = elim (Bool-cases (is_empty k.ready_list)) [
    | inl e ↦ (
      woken k q k.idle_thread,
      rw e (unblock_lem k q k.idle_thread (idle e)),
      record {
        queue = woken-IsQueue k q k.idle_thread (idle e);
        quiet = woken-IsQuiet k q k.idle_thread quiet;
        list = ground arith;
        frame = λ p h. ground arith;
        idle = refl;
      },
    )
    | inr e ↦ (
      k,
      rw e,
      record { queue = q; quiet = quiet; list = rw e; frame = λ p h. refl; idle = refl },
    )
  ]
    where
      idle : is_empty k.ready_list ≡ true → can_block (k.task k.idle_thread).status ≡ true
      idle e =
          idle_blocks _ (quiet k.idle_thread) (λ h. ground (arith, q.kept k.idle_thread h)) q.alive

  switch_to-IsSound :
      (next : Pcb) (rest : List Pcb)
      → k.ready_list ≡ next ∷ rest
      → (k' : Kernel) × (switch_to k.ready_list k ≡ ok k')
        × IsSound k'
        × (k'.cur ∷ k'.ready_list ≡ k.ready_list)
        × (k'.intr ≡ (k'.task k'.cur).resumes)
        × ((p : Pcb) → has p k.ready_list ≡ false → (k'.task p).status ≡ (k.task p).status)
        × (k'.idle_thread ≡ k.idle_thread)
  unfolding switch_to
  switch_to-IsSound next rest e = (
    set_status next running
        (record k { ready_list = rest; cur = next; intr = (k.task next).resumes }),
    rw e,
    record {
      queue = record {
        distinct = list.1;
        queued = λ a h. ground (arith, list.0, here a, q.queued a);
        kept = λ a h. ground (arith, here a, q.kept a);
        alive = ground (arith, q.alive);
      };
      current = ground arith;
      only = λ a h. ground (arith, quiet a);
    },
    sym e,
    ground arith,
    λ p h. ground (arith, here p),
    refl,
  )
    where
      list : Distinct (next ∷ rest)
      list = rw e at q.distinct

      here : (a : Pcb) → has a k.ready_list ≡ has a (next ∷ rest)
      here a = ap (has a) e

in_waiting : (p : Pcb) (k : Kernel) → has p (turn k) ≡ false → has p (waiting_list k) ≡ false
in_waiting p k h = ground arith

-- To save the interrupt status changes no status of a task and no queue.
saved_status :
    (old : Bool) (k : Kernel) (p : Pcb) → ((saved old k).task p).status ≡ (k.task p).status
unfolding saved
saved_status old k p = ground arith

saved-IsQueue : (old : Bool) (k : Kernel) → IsQueue k → IsQueue (saved old k)
unfolding saved
saved-IsQueue old k q = record {
  distinct = q.distinct;
  queued = λ a h. ground (arith, q.queued a);
  kept = λ a h. ground (arith, q.kept a);
  alive = ground (arith, q.alive);
}

-- What a call of `schedule` comes to: the scheduler is sound, the task whose turn it was runs, the
-- others wait in their order, and the interrupt status is the one that the task had saved.
pub record Switched (k k' : Kernel) : Type 0 where
  pub sound : IsSound k'
  pub order : k'.cur ∷ k'.ready_list ≡ turn k
  pub intr : k'.intr ≡ (k'.task k'.cur).resumes
  pub idle : k'.idle_thread ≡ k.idle_thread
  pub frame : (p : Pcb) → has p (turn k) ≡ false → (k'.task p).status ≡ (k.task p).status

first_of_list : (xs : List Pcb) → is_empty xs ≡ false → (x : Pcb) × (ys : List Pcb) × (xs ≡ x ∷ ys)
first_of_list [] h = absurd (cc h)
first_of_list (x ∷ xs) h = (x, xs, refl)

schedule_run :
    (old : Bool) (k k₂ k₃ : Kernel)
    → k.intr ≡ false
    → requeue (saved old k) ≡ ok k₂
    → wake_idle k₂ ≡ ok k₃
    → is_empty k₃.ready_list ≡ false
    → schedule old k ≡ switch_to k₃.ready_list k₃
unfolding schedule
schedule_run old k k₂ k₃ off e₂ e₃ e = rw (e₂, e₃, e, off)

saved_waiting : (old : Bool) (k : Kernel) → waiting_list (saved old k) ≡ waiting_list k
unfolding saved
saved_waiting old k = ground arith

idle-saved : (old : Bool) (k : Kernel) → (saved old k).idle_thread ≡ k.idle_thread
unfolding saved
idle-saved old k = refl

saved-Only : (old : Bool) (k : Kernel) → Only k → Only (saved old k)
unfolding saved
saved-Only old k only p h = ground (arith, only p)

turn_step :
    (old : Bool) (k k₂ k₃ : Kernel)
    → Requeued (saved old k) k₂
    → Woken k₂ k₃
    → k₃.ready_list ≡ turn k
turn_step old k k₂ k₃ r w = rw (r.list, saved_waiting old k, r.idle, idle-saved old k) at w.list

frame_chain :
    (old : Bool) (k k₂ k₃ k' : Kernel)
    → Requeued (saved old k) k₂
    → Woken k₂ k₃
    → ((p : Pcb) → has p k₃.ready_list ≡ false → (k'.task p).status ≡ (k₃.task p).status)
    → (p : Pcb) → has p (turn k) ≡ false
    → (k'.task p).status ≡ (k.task p).status
frame_chain old k k₂ k₃ k' r w f p h =
    let list : has p k₃.ready_list ≡ false = ap (has p) (turn_step old k k₂ k₃ r w) ∙ h in
    f p list
    ∙ w.frame p list
    ∙ r.frame p (ap (has p) (saved_waiting old k) ∙ in_waiting p k h)
    ∙ saved_status old k p

turn_some : (k : Kernel) → is_empty (turn k) ≡ false
turn_some k = ground arith

-- `schedule`, called with interrupts off and no other task running, does not panic.
pub schedule-Switched :
    (old : Bool) (k : Kernel)
    → IsQueue k
    → Only k
    → k.intr ≡ false
    → (k' : Kernel) × (schedule old k ≡ ok k') × Switched k k'
schedule-Switched old k q only off =
    let (k₂, e₂, r) =
      requeue-Requeued (saved old k) (saved-IsQueue old k q) (saved-Only old k only) in
    let (k₃, e₃, w) = wake_idle-Woken k₂ r.queue r.quiet in
    let list : k₃.ready_list ≡ turn k = turn_step old k k₂ k₃ r w in
    let some : is_empty k₃.ready_list ≡ false = ap is_empty list ∙ turn_some k in
    let (next, rest, here) = first_of_list k₃.ready_list some in
    let (k', run, sound, order, intr, frame, same) =
      switch_to-IsSound k₃ w.queue w.quiet next rest here in
    (
      k',
      schedule_run old k k₂ k₃ off e₂ e₃ some ∙ run,
      record {
        sound = sound;
        order = order ∙ list;
        intr = intr;
        idle = same ∙ w.idle ∙ r.idle ∙ idle-saved old k;
        frame = frame_chain old k k₂ k₃ k' r w frame;
      },
    )
