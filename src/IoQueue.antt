-- ===== src/IoQueue.antt =====
-- device/ioqueue.c and ioqueue.h: the ring of bytes between a producer and a consumer, used for the
-- keyboard and for pipes. The functions run over the scheduler and the lock of the ring.
pub mod Ring
pub mod Effects
use sparrow_os.Base.{
  ℕ, zero, suc, ◌+◌, ◌-◌, ◌%◌, Bool, true, false, not, Option, none, some, List, [], ◌∷◌, ◌≡◌, Res,
  ok, check, ◌>>=◌, ◌>>◌, leb, ◌==◌, if◌then◌else◌, update,
}
use sparrow_os.TaskStatus.{blocked}
use sparrow_os.Thread.{Pcb, Kernel, block, unblock}
use sparrow_os.Sync.Defs.{Lock, lock_init, lock_acquire}

-- `bufsize`
abbrev pub bufsize : ℕ
bufsize = 2048

-- `struct ioqueue`; `none` is `NULL`. Bytes are moved, never computed with.
pub record IoQueue : Type 0 where
  pub lock : Lock
  pub producer : Option Pcb
  pub consumer : Option Pcb
  pub buf : ℕ → ℕ
  pub head : ℕ
  pub tail : ℕ

-- `ioqueue_init`; the buffer keeps what lies in it.
pub init : IoQueue → IoQueue
init q = record q { lock = lock_init; producer = none; consumer = none; head = 0; tail = 0 }

pub next_pos : ℕ → ℕ
next_pos pos = (pos + 1) % bufsize

pub full : IoQueue → Kernel → Res Bool
unfolding next_pos
full q k = do check (not k.intr); ok (next_pos q.head == q.tail)

pub empty : IoQueue → Kernel → Res Bool
empty q k = do check (not k.intr); ok (q.tail == q.head)

-- `ioq_wait`, up to the switch, with the new value of the waiter.
wait : Option Pcb → Kernel → Res (Option Pcb × Kernel)
wait none k = do k' ← block blocked k; ok (some k.cur, k')
wait (some p) k = Res.panic

-- `if (ioq->producer != NULL) wakeup(&ioq->producer)`, and the same for the consumer.
wakeup : Option Pcb → Kernel → Res Kernel
wakeup none k = ok k
wakeup (some p) k = unblock p k

-- One round of the loop that waits for a byte, up to the switch: a task is switched out either in
-- `lock_acquire` or, holding the lock, in `ioq_wait`.
consumer_waits : IoQueue → Kernel → Res (Option ℕ × IoQueue × Kernel)
consumer_waits q k = do
  (got, lock, k₁) ← lock_acquire q.lock k
  if got
      then (do
        (waiter, k₂) ← wait q.consumer k₁
        ok (none, record q { lock = lock; consumer = waiter }, k₂))
      else ok (none, record q { lock = lock }, k₁)

producer_waits : IoQueue → Kernel → Res (Bool × IoQueue × Kernel)
producer_waits q k = do
  (got, lock, k₁) ← lock_acquire q.lock k
  if got
      then (do
        (waiter, k₂) ← wait q.producer k₁
        ok (false, record q { lock = lock; producer = waiter }, k₂))
      else ok (false, record q { lock = lock }, k₁)

-- What `ioq_getchar` does behind its loop.
take_byte : IoQueue → Kernel → Res (Option ℕ × IoQueue × Kernel)
unfolding next_pos
take_byte q k = do
  let byte = q.buf q.tail
  k' ← wakeup q.producer k
  ok (some byte, record q { tail = next_pos q.tail; producer = none }, k')

-- `ioq_getchar`, up to the first switch; `none` means that the task was switched out.
pub getchar : IoQueue → Kernel → Res (Option ℕ × IoQueue × Kernel)
getchar q k = do
  check (not k.intr)
  none_left ← empty q k
  if none_left then consumer_waits q k else take_byte q k

-- What `ioq_putchar` does behind its loop.
put_byte : ℕ → IoQueue → Kernel → Res (Bool × IoQueue × Kernel)
unfolding next_pos
put_byte byte q k = do
  k' ← wakeup q.consumer k
  ok (
    true,
    record q { buf = update q.buf q.head byte; head = next_pos q.head; consumer = none },
    k',
  )

-- `ioq_putchar`, up to the first switch; `false` means that the task was switched out.
pub putchar : ℕ → IoQueue → Kernel → Res (Bool × IoQueue × Kernel)
putchar byte q k = do
  check (not k.intr)
  no_room ← full q k
  if no_room then producer_waits q k else put_byte byte q k

-- The body of `ioq_length`, on the head and the tail.
unfoldable pub span : ℕ → ℕ → ℕ
span head tail = if leb tail head then head - tail else bufsize - (tail - head)

-- `ioq_length`
abbrev pub length : IoQueue → ℕ
length q = span q.head q.tail
