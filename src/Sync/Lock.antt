-- ===== src/Sync/Lock.antt =====
-- Locks: mutual exclusion, the order in which tasks wait, and that no assertion of sync.c fails.
use sparrow_os.Base.{
  ◌+◌, ◌%◌, ◌^◌, ◌≤◌, ◌<◌, ◌≡◌, refl, sym, ap, ◌∙◌, ◌≢◌, ◌⊎◌, inl, inr, Bool, true, false, Option,
  none, some, [], ◌∷◌, ◌++◌, Res, ok, ◌>>=◌, arith, ◌==◌, Bool-cases, Option-cases, has, has-append,
  Distinct, Distinct-join,
}
use sparrow_os.TaskStatus.{blocked, can_block}
use sparrow_os.Thread.{Pcb, Kernel, block}
use sparrow_os.Thread.Sound.{IsSound, with_intr}
use sparrow_os.Thread.Callers.{block_lem}
use sparrow_os.Interrupt.{set_status_lem}
use sparrow_os.Interrupt
use sparrow_os.Sync.Defs.{Lock, lock_init, down_round, sema_down, taken, holds, lock_acquire, retry}

-- The semaphore is 0 while the lock is held, and those who wait for it are blocked.
pub record IsLock (l : Lock) (k : Kernel) : Type 0 where
  pub free : l.holder ≡ none → (l.semaphore.value ≡ 1) × (l.holder_repeat_nr ≡ 0)
  pub held : (p : Pcb) → l.holder ≡ some p → (l.semaphore.value ≡ 0) × (1 ≤ l.holder_repeat_nr)
  pub asleep :
      (p : Pcb)
      → has p l.semaphore.waiters ≡ true
      → (can_block (k.task p).status ≡ true) × (p ≢ k.idle_thread)
  pub distinct : Distinct l.semaphore.waiters

-- A lock as `lock_init` leaves it.
pub lock_init-IsLock : (k : Kernel) → IsLock lock_init k
unfolding lock_init
lock_init-IsLock k = record {
  free = λ e. (refl, refl);
  held = λ p e. cc;
  asleep = λ p h. cc;
  distinct = tt;
}

-- What a call of `lock_acquire` comes to. Who gets the lock is its holder, and it was free or his
-- before; who does not get it waits behind the others, blocked, and the holder stays.
pub record Acquired (l : Lock) (k : Kernel) (got : Bool) (l' : Lock) (k' : Kernel) : Type 0 where
  pub sound : IsSound k'
  pub lock : IsLock l' k'
  pub gets :
      got ≡ true
      → (l'.holder ≡ some k.cur)
        × (k' ≡ k)
        × ((l.holder ≡ none) × (l'.holder_repeat_nr ≡ 1)
            ⊎ (l.holder ≡ some k.cur) × (l'.holder_repeat_nr ≡ l.holder_repeat_nr + 1))
  pub waits :
      got ≡ false
      → (l'.holder ≡ l.holder)
        × (l.holder ≢ some k.cur)
        × (l.holder ≢ none)
        × (l'.semaphore.waiters ≡ l.semaphore.waiters ++ k.cur ∷ [])
        × ((k'.task k.cur).status ≡ blocked)

module _ (l : Lock) (k : Kernel) (sound : IsSound k) (is : IsLock l k) where
  open sound use {queue, current, only}
  open is use {free, held, asleep, distinct}

  -- The current task does not wait for the lock.
  cur_awake : has k.cur l.semaphore.waiters ≡ false
  cur_awake = ground (arith, asleep k.cur)

  off : Kernel
  off = record k { intr = false }

  sema_down_run : sema_down l.semaphore k ≡ down_round k.intr l.semaphore off
  unfolding sema_down off
  sema_down_run = ground arith

  down_free :
      l.semaphore.value ≡ 1
      → down_round k.intr l.semaphore off
        ≡ ok (true, record { value = 0; waiters = l.semaphore.waiters }, k)
  unfolding down_round off
  down_free e = ground (arith, set_status_lem k.intr false)

  -- A free lock: the current task takes it.
  pub acquire_free :
      l.holder ≡ none
      → lock_acquire l k
        ≡ ok (
          true,
          record {
            holder = some k.cur;
            semaphore = record { value = 0; waiters = l.semaphore.waiters };
            holder_repeat_nr = 1;
          },
          k,
        )
  unfolding lock_acquire taken
  acquire_free e = ground (arith, free e, sema_down_run, down_free (free e).0)

  -- The task that holds the lock takes it once more.
  pub acquire_again :
      l.holder ≡ some k.cur
      → lock_acquire l k
        ≡ ok (true, record l { holder_repeat_nr = (l.holder_repeat_nr + 1) % 2 ^ 32 }, k)
  unfolding lock_acquire
  acquire_again e = ground (arith)

  pub queued_up : Lock
  queued_up = record l {
    semaphore = record l.semaphore { waiters = l.semaphore.waiters ++ k.cur ∷ [] };
  }

  down_waits :
      (k' : Kernel)
      → l.semaphore.value ≡ 0
      → block blocked off ≡ ok k'
      → down_round k.intr l.semaphore off ≡ ok (false, queued_up.semaphore, k')
  unfolding down_round queued_up off
  down_waits k' e run = rw (e, cur_awake, run)

  acquire_waits_run :
      (q : Pcb)
      → l.holder ≡ some q
      → q ≢ k.cur
      → (k' : Kernel) → block blocked off ≡ ok k'
      → lock_acquire l k ≡ ok (false, queued_up, k')
  unfolding lock_acquire taken queued_up
  acquire_waits_run q e ne k' run =
      ground (arith, held q e, sema_down_run, down_waits k' (held q e).0 run)

  off-IsSound : IsSound off
  unfolding off
  off-IsSound = with_intr false k sound

  asleep_out : (p : Pcb) → has p l.semaphore.waiters ≡ true → has p k.ready_list ≡ false
  asleep_out p h = ground (arith, asleep p h, queue.queued p)

  cur_out : has k.cur k.ready_list ≡ false
  cur_out = ground (arith, queue.queued k.cur)

  -- A lock that another task holds: the current task waits behind the others, blocked.
  pub acquire_waits :
      (q : Pcb)
      → l.holder ≡ some q
      → q ≢ k.cur
      → k.cur ≢ k.idle_thread
      → (k' : Kernel) × (lock_acquire l k ≡ ok (false, queued_up, k'))
        × IsSound k'
        × IsLock queued_up k'
        × ((k'.task k.cur).status ≡ blocked)
  unfolding queued_up off
  acquire_waits q e ne idle =
      let (k', run, s, _, frame, same) = block_lem off off-IsSound blocked refl in
      let mine : (k'.task k.cur).status ≡ blocked = frame k.cur cur_out idle ∙ ground arith in
      (
        k',
        acquire_waits_run q e ne k' run,
        s,
        record {
          free = λ h. cc;
          held = held;
          asleep = λ p h. elim (Bool-cases (k.cur == p)) [
            | inl me ↦ let here : k.cur ≡ p = ground arith in ground (arith, mine, same)
            | inr other ↦
                let old : has p l.semaphore.waiters ≡ true =
                  ground (arith, has-append p l.semaphore.waiters (k.cur ∷ [])) in
                ground (arith, asleep p old, frame p (asleep_out p old), same)
          ];
          distinct =
              Distinct-join l.semaphore.waiters (k.cur ∷ []) distinct (refl, tt)
                (λ a h. ground (arith, cur_awake));
        },
        mine,
      )

  pub Acquired-free :
      l.holder ≡ none
      → Acquired l k true
          (record {
            holder = some k.cur;
            semaphore = record { value = 0; waiters = l.semaphore.waiters };
            holder_repeat_nr = 1;
          })
          k
  Acquired-free e = record {
    sound = sound;
    lock = record {
      free = λ h. cc;
      held = λ p h. omega arith;
      asleep = asleep;
      distinct = distinct;
    };
    gets = λ h. (refl, refl, inl (e, refl));
    waits = λ h. cc;
  }

  Acquired-again :
      l.holder ≡ some k.cur
      → l.holder_repeat_nr + 1 < 2 ^ 32
      → Acquired l k true (record l { holder_repeat_nr = (l.holder_repeat_nr + 1) % 2 ^ 32 }) k
  Acquired-again e small = record {
    sound = sound;
    lock = record {
      free = λ h. cc;
      held = λ p h. ground (arith, held p);
      asleep = asleep;
      distinct = distinct;
    };
    gets = λ h. (e, refl, inr (e, omega arith));
    waits = λ h. cc;
  }

  -- `lock_acquire` by a task that is not idle, of a lock as it is between the calls of sync.c (free
  -- with the value 1, or held with the value 0), whose holder's count can grow by one: up to its
  -- return, or to its first switch where the caller has to wait, it does not panic. Who gets the
  -- lock is its holder, and it was free or his before; who does not waits behind the others, blocked,
  -- and the holder stays.
  lock_acquire_lem :
      k.cur ≢ k.idle_thread
      → l.holder_repeat_nr + 1 < 2 ^ 32
      → (got : Bool) × (l' : Lock) × (k' : Kernel) × (lock_acquire l k ≡ ok (got, l', k'))
        × Acquired l k got l' k'
  lock_acquire_lem idle small = elim (Option-cases l.holder) [
    | inl e ↦ (true, _, k, acquire_free e, Acquired-free e)
    | inr (q, e) ↦ elim (Bool-cases (q == k.cur)) [
      | inl same ↦
          let mine : l.holder ≡ some k.cur = ground arith in
          (true, _, k, acquire_again mine, Acquired-again mine small)
      | inr other ↦
          let (k', run, s, lock, status) = acquire_waits q e (ground arith) idle in
          (
            false,
            queued_up,
            k',
            run,
            record {
              sound = s;
              lock = lock;
              gets = λ h. cc;
              waits = λ h. unfold queued_up in (refl, ground arith, ground arith, refl, status);
            },
          )
    ]
  ]

not_mine : (p : Pcb) (holder : Option Pcb) → holder ≢ some p → holds p holder ≡ false
not_mine p none ne = refl
not_mine p (some q) ne = ground (arith, ne)

-- A task that goes on with `lock_acquire` does what a call would do, with the flag that it saved.
retry-lock_acquire :
    (old_status : Bool) (l : Lock) (k : Kernel)
    → k.intr ≡ false
    → l.holder ≢ some k.cur
    → retry old_status l k ≡ lock_acquire l (record k { intr = old_status })
unfolding retry lock_acquire sema_down Interrupt.disable Interrupt.set_status
retry-lock_acquire old_status l k off other =
    let here : record k { intr = false } ≡ k = ap (λ b. record k { intr = b }) (sym off) in
    rw (not_mine k.cur l.holder other) (by_flag old_status here)
  where
    by_flag :
        (b : Bool)
        → record k { intr = false } ≡ k
        → down_round b l.semaphore k >>= taken l
          ≡ sema_down l.semaphore (record k { intr = b }) >>= taken l
    by_flag true here = ap (λ k. down_round true l.semaphore k >>= taken l) (sym here)
    by_flag false here = ap (λ k. down_round false l.semaphore k >>= taken l) (sym here)

retry_lem :
    (old_status : Bool) (l : Lock) (k : Kernel)
    → IsSound k
    → IsLock l k
    → k.intr ≡ false
    → l.holder ≢ some k.cur
    → k.cur ≢ k.idle_thread
    → l.holder_repeat_nr + 1 < 2 ^ 32
    → (got : Bool) × (l' : Lock) × (k' : Kernel) × (retry old_status l k ≡ ok (got, l', k'))
      × Acquired l (record k { intr = old_status }) got l' k'
retry_lem old_status l k sound is off other idle small =
    let lock : IsLock l (record k { intr = old_status }) = record {
      free = is.free;
      held = is.held;
      asleep = is.asleep;
      distinct = is.distinct;
    } in
    let (got, l', k', run, acquired) =
      lock_acquire_lem l (record k { intr = old_status }) (with_intr old_status k sound) lock idle
        small in
    (got, l', k', retry-lock_acquire old_status l k off other ∙ run, acquired)

-- `lock_acquire` from its call on, or, with the flag that it has saved, from a switch in it on.
abbrev pub attempt : Option Bool → Lock → Kernel → Res (Bool × Lock × Kernel)
attempt none l k = lock_acquire l k
attempt (some old_status) l k = retry old_status l k

-- A task that goes on runs with interrupts off and does not have the lock.
abbrev pub IsEntered : Option Bool → Lock → Kernel → Type 0
IsEntered none l k = Unit
IsEntered (some old_status) l k = (k.intr ≡ false) × (l.holder ≢ some k.cur)

-- The kernel with the flag that the task had at the call.
abbrev pub as_called : Option Bool → Kernel → Kernel
as_called none k = k
as_called (some old_status) k = record k { intr = old_status }

-- `lock_acquire` by a task that is not idle, from its call on, and also from the switch on in which
-- it waited, when the task runs again: with a sound scheduler, the lock as it is between the calls of
-- sync.c (free with the value 1, or held with the value 0), and a count of the holder that can grow
-- by one, no assertion fails up to its return or to its next switch. If it returns, the caller is
-- the holder, and the lock was free or his before; the interrupt flag is that of the call. If it
-- is switched out, the caller is blocked behind the others that wait, and the holder stays.
pub attempt_lem :
    (entry : Option Bool) (l : Lock) (k : Kernel)
    → IsSound k
    → IsLock l k
    → IsEntered entry l k
    → k.cur ≢ k.idle_thread
    → l.holder_repeat_nr + 1 < 2 ^ 32
    → (got : Bool) × (l' : Lock) × (k' : Kernel) × (attempt entry l k ≡ ok (got, l', k'))
      × Acquired l (as_called entry k) got l' k'
attempt_lem none l k sound is entered idle small = lock_acquire_lem l k sound is idle small
attempt_lem (some old_status) l k sound is (off, other) idle small =
    retry_lem old_status l k sound is off other idle small
