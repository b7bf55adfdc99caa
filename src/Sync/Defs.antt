-- ===== src/Sync/Defs.antt =====
-- The functions of sync.c. A task that has to wait is switched out in the middle of `sema_down`;
-- `retry` is what it does when it runs again.
use sparrow_os.Base.{
  ℕ, ◌+◌, ◌-◌, ◌%◌, ◌^◌, Bool, true, false, not, Option, none, some, List, [], ◌∷◌, ◌++◌, Res, ok,
  panic, check, ◌>>=◌, ◌>>◌, ltb, ◌==◌, if◌then◌else◌, has,
}
use sparrow_os.Interrupt
use sparrow_os.TaskStatus.{blocked}
use sparrow_os.Thread.{Pcb, Kernel, block, unblock}

pub record Semaphore : Type 0 where
  pub value : ℕ
  pub waiters : List Pcb

pub record Lock : Type 0 where
  pub holder : Option Pcb
  pub semaphore : Semaphore
  pub holder_repeat_nr : ℕ

unfoldable pub sema_init : ℕ → Semaphore
sema_init value = record { value = value; waiters = [] }

unfoldable pub lock_init : Lock
unfolding sema_init
lock_init = record { holder = none; semaphore = sema_init 1; holder_repeat_nr = 0 }

-- One round of the loop of `sema_down`, and what follows it once the value is not 0. The Boolean
-- says whether the semaphore was taken.
unfoldable pub down_round : Bool → Semaphore → Kernel → Res (Bool × Semaphore × Kernel)
unfolding Interrupt.set_status
down_round old_status s k =
    if s.value == 0
    then (do
      check (not (has k.cur s.waiters))
      if has k.cur s.waiters then panic else (do
        k' ← block blocked k
        ok (false, record s { waiters = s.waiters ++ k.cur ∷ [] }, k')))
    else (do
      let s' : Semaphore = record s { value = s.value - 1 }
      check (s'.value == 0)
      ok (true, s', record k { intr = (Interrupt.set_status old_status k.intr).1 }))

-- `sema_down`
unfoldable pub sema_down : Semaphore → Kernel → Res (Bool × Semaphore × Kernel)
unfolding Interrupt.disable Interrupt.set_status
sema_down s k =
    let (old_status, off) = Interrupt.disable k.intr in
    down_round old_status s (record k { intr = off })

unfoldable pub wake_first : List Pcb → Semaphore → Kernel → Res (Semaphore × Kernel)
wake_first [] s k = ok (s, k)
wake_first (p ∷ rest) s k = do k' ← unblock p k; ok (record s { waiters = rest }, k')

-- `sema_up`
unfoldable pub sema_up : Semaphore → Kernel → Res (Semaphore × Kernel)
unfolding Interrupt.disable Interrupt.set_status
sema_up s k = do
  let (old_status, off) = Interrupt.disable k.intr
  check (s.value == 0)
  (s', k') ← wake_first s.waiters s (record k { intr = off })
  let s'' : Semaphore = record s' { value = s'.value + 1 }
  check (s''.value == 1)
  ok (s'', record k' { intr = (Interrupt.set_status old_status k'.intr).1 })

abbrev pub holds : Pcb → Option Pcb → Bool
holds p none = false
holds p (some q) = q == p

-- What `lock_acquire` does when `sema_down` returns, or the task is switched out in it.
unfoldable pub taken : Lock → Bool × Semaphore × Kernel → Res (Bool × Lock × Kernel)
taken l (true, s, k) = do
  check (l.holder_repeat_nr == 0)
  ok (true, record { holder = some k.cur; semaphore = s; holder_repeat_nr = 1 }, k)
taken l (false, s, k) = ok (false, record l { semaphore = s }, k)

-- `lock_acquire`
unfoldable pub lock_acquire : Lock → Kernel → Res (Bool × Lock × Kernel)
lock_acquire l k =
    if holds k.cur l.holder
    then ok (true, record l { holder_repeat_nr = (l.holder_repeat_nr + 1) % 2 ^ 32 }, k)
    else sema_down l.semaphore k >>= taken l

-- `lock_acquire`, gone on with by a task that was switched out in it.
unfoldable pub retry : Bool → Lock → Kernel → Res (Bool × Lock × Kernel)
retry old_status l k = down_round old_status l.semaphore k >>= taken l

-- `lock_release`
unfoldable pub lock_release : Lock → Kernel → Res (Lock × Kernel)
lock_release l k = do
  check (holds k.cur l.holder)
  if ltb 1 l.holder_repeat_nr
      then ok (record l { holder_repeat_nr = l.holder_repeat_nr - 1 }, k)
      else (do
        check (l.holder_repeat_nr == 1)
        (s, k') ← sema_up l.semaphore k
        ok (record { holder = none; semaphore = s; holder_repeat_nr = 0 }, k'))
