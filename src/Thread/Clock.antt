-- ===== src/Thread/Clock.antt =====
-- The handler of the clock interrupt in device/timer.c, with the time slices.
use sparrow_os.Base.{
  ◌+◌, ◌-◌, ◌%◌, ◌^◌, ◌≡◌, refl, ◌∙◌, ◌≢◌, inl, inr, true, false, [], ◌∷◌, ◌++◌, ok, arith, ◌==◌,
  Bool-cases, if◌then◌else◌,
}
use sparrow_os.Thread.{Kernel, set_task, schedule, timer_handler}
use sparrow_os.Thread.Sound.{IsQueue, IsSound}
use sparrow_os.Thread.Switch.{schedule-Switched}
use sparrow_os.Thread.Callers.{some_last}

abbrev ticked : Kernel → Kernel
ticked k =
    set_task k.cur
      (record (k.task k.cur) { elapsed_ticks = ((k.task k.cur).elapsed_ticks + 1) % 2 ^ 32 })
      (record k { ticks = (k.ticks + 1) % 2 ^ 32; intr = false })

-- No call of `schedule`: the slice of the current task is one tick shorter.
abbrev shortened : Kernel → Kernel
shortened k =
    set_task k.cur (record ((ticked k).task k.cur) { ticks = (k.task k.cur).ticks - 1 })
      (record (ticked k) { intr = true })

module _ (k : Kernel) (sound : IsSound k) (magic : (k.task k.cur).stack_magic ≡ 0x19980924) where
  open sound use {queue, current, only}

  ticked-IsQueue : IsQueue (ticked k)
  ticked-IsQueue = record {
    distinct = queue.distinct;
    queued = λ a i. ground (arith, queue.queued a);
    kept = λ a e. ground (arith, queue.kept a);
    alive = ground (arith, queue.alive);
  }

  shortened-IsSound : IsSound (shortened k)
  shortened-IsSound = record {
    queue = record {
      distinct = queue.distinct;
      queued = λ a i. ground (arith, queue.queued a);
      kept = λ a e. ground (arith, queue.kept a);
      alive = ground (arith, queue.alive);
    };
    current = ground (arith, current);
    only = λ a e. ground (arith, only a);
  }

  over_run : (k.task k.cur).ticks ≡ 0 → timer_handler k ≡ schedule true (ticked k)
  unfolding timer_handler
  over_run e = rw (magic, e)

  within_run : (k.task k.cur).ticks ≢ 0 → timer_handler k ≡ ok (shortened k)
  unfolding timer_handler
  within_run ne = ground arith

  -- At the end of a slice the current task is the last of the queue, and the first of it runs.
  timer_over :
      (k.task k.cur).ticks ≡ 0
      → (k' : Kernel) × (timer_handler k ≡ ok k')
        × IsSound k'
        × (k'.cur ∷ k'.ready_list ≡ k.ready_list ++ k.cur ∷ [])
  timer_over e =
      let (k', run, s) =
        schedule-Switched true (ticked k) ticked-IsQueue (λ p e. ground (arith, only p)) refl in
      (
        k',
        over_run e ∙ run,
        s.sound,
        s.order ∙ ground (arith, current, some_last k.ready_list k.cur),
      )

  -- The clock's handler never panics while the mark at the end of the stack is intact. In a slice
  -- it takes one tick from it, at the end of a slice the first of the queue runs.
  pub timer_handler_lem :
      (k' : Kernel) × (timer_handler k ≡ ok k')
      × IsSound k'
      × (k'.cur ∷ k'.ready_list ≡ (
          if (k.task k.cur).ticks == 0 then k.ready_list ++ k.cur ∷ [] else k.cur ∷ k.ready_list))
  timer_handler_lem = elim (Bool-cases ((k.task k.cur).ticks == 0)) [
    | inl e ↦ rw e (timer_over (ground arith))
    | inr e ↦ rw e (shortened k, within_run (ground arith), shortened-IsSound, refl)
  ]
