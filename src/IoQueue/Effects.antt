-- ===== src/IoQueue/Effects.antt =====
-- `ioq_getchar` and `ioq_putchar` on the bytes that the ring holds, with whom they wake and when
-- they wait.
use sparrow_os.Base.{
  ℕ, zero, suc, ◌-◌, ◌<◌, ◌≡◌, refl, sym, subst, ◌≢◌, ◌∙◌, ap, true, false, Option, none, some,
  List, [], ◌∷◌, ◌++◌, ok, arith, ◌==◌, update, has,
}
use sparrow_os.TaskStatus.{ready, blocked, can_block}
use sparrow_os.Thread.{Pcb, Kernel, block}
use sparrow_os.Thread.Sound.{IsSound}
use sparrow_os.Thread.Callers.{unblock-IsSound, block_lem}
use sparrow_os.Sync.Defs.{Lock}
use sparrow_os.Sync.Lock.{IsLock, acquire_free}
use sparrow_os.IoQueue.{
  IoQueue, bufsize, next_pos, full, empty, wait, wakeup, producer_waits, take_byte, getchar,
  put_byte, putchar, length,
}
use sparrow_os.IoQueue.Ring.{
  IsRing, contents, window, full_iff, empty_iff, contents-put, contents-take,
}

-- Interrupts are off, and the tasks that the ring knows of are blocked, each on one side.
pub record IsIo (q : IoQueue) (k : Kernel) : Type 0 where
  pub sound : IsSound k
  pub ring : IsRing q
  pub off : k.intr ≡ false
  pub consumer : (p : Pcb) → q.consumer ≡ some p → can_block (k.task p).status ≡ true
  pub producer : (p : Pcb) → q.producer ≡ some p → can_block (k.task p).status ≡ true
  pub apart : (p : Pcb) → q.producer ≡ some p → q.consumer ≢ some p

-- What waking a waiter comes to: it is ready and the first of the queue, and the others stay as they
-- are; where none waits, nothing changes.
pub record Woke (w : Option Pcb) (k k' : Kernel) : Type 0 where
  pub sound : IsSound k'
  pub woken :
      (p : Pcb) → w ≡ some p → ((k'.task p).status ≡ ready) × (k'.ready_list ≡ p ∷ k.ready_list)
  pub idle : w ≡ none → k' ≡ k
  pub cur : k'.cur ≡ k.cur
  pub intr : k'.intr ≡ k.intr
  pub frame : (a : Pcb) → w ≢ some a → (k'.task a).status ≡ (k.task a).status

alone : (k : Kernel) → IsSound k → Woke none k k
alone k s = record {
  sound = s;
  woken = λ p e. cc;
  idle = λ e. refl;
  cur = refl;
  intr = refl;
  frame = λ a ne. refl;
}

wakeup-Woke :
    (w : Option Pcb) (k : Kernel)
    → IsSound k
    → ((p : Pcb) → w ≡ some p → can_block (k.task p).status ≡ true)
    → (k' : Kernel) × (wakeup w k ≡ ok k') × Woke w k k'
unfolding wakeup
wakeup-Woke none k s h = (k, refl, alone k s)
wakeup-Woke (some p) k s h =
    let (k', run, s', same, cur, queue, intr, _, frame) = unblock-IsSound k s p (h p refl) in
    let now : (k'.task p).status ≡ ready = ap (λ s. (s.task p).status) same ∙ ground arith in
    (
      k',
      run,
      record {
        sound = s';
        woken = λ a e.
            subst (λ x. ((k'.task x).status ≡ ready) × (k'.ready_list ≡ x ∷ k.ready_list))
              (some_inj e) (now, queue);
        idle = λ e. cc;
        cur = cur;
        intr = intr;
        frame = λ a ne. frame a (λ e. ne (ap some e));
      },
    )
  where
    some_inj : {a : Pcb} → some p ≡ some a → p ≡ a
    some_inj e = cc

next_pos-lt : (i : ℕ) → next_pos i < bufsize
unfolding next_pos
next_pos-lt i = omega arith

-- The ring after a byte has been taken, and after one has been put.
pub taken : IoQueue → IoQueue
taken q = record q { tail = next_pos q.tail; producer = none }

pub given : ℕ → IoQueue → IoQueue
given b q = record q { buf = update q.buf q.head b; head = next_pos q.head; consumer = none }

window_some : (buf : ℕ → ℕ) (i n b : ℕ) (bs : List ℕ) → window buf i n ≡ b ∷ bs → n ≢ 0
window_some buf i zero b bs e = cc
window_some buf i (suc n) b bs e = omega arith

module _ (q : IoQueue) (k : Kernel) (is : IsIo q k) where
  open is use {ring, off, consumer, producer, apart}

  getchar_run :
      length q ≢ 0
      → (k' : Kernel) → wakeup q.producer k ≡ ok k'
      → getchar q k ≡ ok (some (q.buf q.tail), taken q, k')
  unfolding getchar empty take_byte taken
  getchar_run h k' run = ground (arith, empty_iff q ring)

  putchar_run :
      (b : ℕ)
      → length q ≢ bufsize - 1
      → (k' : Kernel) → wakeup q.consumer k ≡ ok k'
      → putchar b q k ≡ ok (true, given b q, k')
  unfolding putchar full put_byte given
  putchar_run b h k' run = ground (arith, full_iff q ring)

  taken-IsIo : (k' : Kernel) → Woke q.producer k k' → IsIo (taken q) k'
  unfolding taken
  taken-IsIo k' w = record {
    sound = w.sound;
    ring = record { head_in = ring.head_in; tail_in = next_pos-lt q.tail };
    off = w.intr ∙ off;
    consumer = λ p e. ground (arith, consumer p, w.frame p, apart p);
    producer = λ p e. cc;
    apart = λ p e. cc;
  }

  given-IsIo : (b : ℕ) (k' : Kernel) → Woke q.consumer k k' → IsIo (given b q) k'
  unfolding given
  given-IsIo b k' w = record {
    sound = w.sound;
    ring = record { head_in = next_pos-lt q.head; tail_in = ring.tail_in };
    off = w.intr ∙ off;
    consumer = λ p e. cc;
    producer = λ p e. ground (arith, producer p, w.frame p, apart p);
    apart = λ p e. λ f. cc;
  }

  pub full_lem : full q k ≡ ok (length q == bufsize - 1)
  unfolding full
  full_lem = ground (arith, full_iff q ring)

  -- With no consumer that waits, adding a byte leaves the tasks as they are.
  pub putchar_alone :
      (b : ℕ)
      → length q ≢ bufsize - 1
      → q.consumer ≡ none
      → (q' : IoQueue) × (putchar b q k ≡ ok (true, q', k))
        × IsIo q' k
        × (contents q' ≡ contents q ++ b ∷ [])
        × (q'.consumer ≡ none)
        × (q'.producer ≡ q.producer)
        × (q'.lock ≡ q.lock)
  unfolding wakeup
  putchar_alone b room none_waits =
      let run : wakeup q.consumer k ≡ ok k = rw (none_waits) refl in
      let w : Woke q.consumer k k = subst (λ w. Woke w k k) (sym none_waits) (alone k is.sound) in
      (
        given b q,
        putchar_run b room k run,
        given-IsIo b k w,
        (unfold given in contents-put q ring b room),
        unfold given in refl,
        unfold given in refl,
        unfold given in refl,
      )

  -- `ioq_getchar` on a ring that is not empty returns the oldest byte and leaves the others. It
  -- wakes the producer that waits, if any, and the caller goes on running.
  pub getchar_lem :
      (b : ℕ) (bs : List ℕ)
      → contents q ≡ b ∷ bs
      → (q' : IoQueue) × (k' : Kernel) × (getchar q k ≡ ok (some b, q', k'))
        × IsIo q' k'
        × (contents q' ≡ bs)
        × (k'.cur ≡ k.cur)
        × (q'.consumer ≡ q.consumer)
        × (q'.producer ≡ none)
        × Woke q.producer k k'
  getchar_lem b bs e =
      let some_left : length q ≢ 0 = window_some q.buf q.tail (length q) b bs e in
      let split : b ∷ bs ≡ q.buf q.tail ∷ contents (taken q) =
        sym e ∙ (unfold taken in contents-take q ring some_left) in
      let (k', run, w) = wakeup-Woke q.producer k is.sound producer in
      (
        taken q,
        k',
        cc (getchar_run some_left k' run, split),
        taken-IsIo k' w,
        cc split,
        w.cur,
        unfold taken in refl,
        unfold taken in refl,
        w,
      )

  -- `ioq_putchar` on a ring that is not full adds the byte behind the others. The consumer
  -- that waits, if any, is woken: it becomes ready and the first of the queue, and the ring knows
  -- of none that waits. The caller goes on running.
  pub putchar_lem :
      (b : ℕ)
      → length q ≢ bufsize - 1
      → (q' : IoQueue) × (k' : Kernel) × (putchar b q k ≡ ok (true, q', k'))
        × IsIo q' k'
        × (contents q' ≡ contents q ++ b ∷ [])
        × (k'.cur ≡ k.cur)
        × (q'.lock ≡ q.lock)
        × (q'.consumer ≡ none)
        × (q'.producer ≡ q.producer)
        × Woke q.consumer k k'
  putchar_lem b room =
      let (k', run, w) = wakeup-Woke q.consumer k is.sound consumer in
      (
        given b q,
        k',
        putchar_run b room k' run,
        given-IsIo b k' w,
        (unfold given in contents-put q ring b room),
        w.cur,
        unfold given in refl,
        unfold given in refl,
        unfold given in refl,
        w,
      )

  module _ (lock : IsLock q.lock k) (free : q.lock.holder ≡ none) (busy : k.cur ≢ k.idle_thread)
      (alone : q.producer ≡ none) where
    -- The lock that the caller has taken, and the ring that it leaves when it is switched out.
    held : Lock
    held = record {
      holder = some k.cur;
      semaphore = record { value = 0; waiters = q.lock.semaphore.waiters };
      holder_repeat_nr = 1;
    }

    asleep : IoQueue
    unfolding held
    asleep = record q { lock = held; producer = some k.cur }

    putchar_full_run :
        (b : ℕ)
        → length q ≡ bufsize - 1
        → (k' : Kernel) → block blocked k ≡ ok k'
        → putchar b q k ≡ ok (false, asleep, k')
    unfolding putchar full producer_waits wait asleep
    putchar_full_run b e k' run =
        ground (arith, full_iff q ring, acquire_free q.lock k is.sound lock free, alone)

    -- On a full ring `ioq_putchar` puts the caller to sleep: it stays the holder of the lock, and
    -- the byte is not in the ring.
    pub putchar_full :
        (b : ℕ)
        → length q ≡ bufsize - 1
        → (q' : IoQueue) × (k' : Kernel) × (putchar b q k ≡ ok (false, q', k'))
          × (contents q' ≡ contents q)
          × (q'.producer ≡ some k.cur)
          × (q'.lock.holder ≡ some k.cur)
          × ((k'.task k.cur).status ≡ blocked)
    putchar_full b e =
        let (k', run, s, _, frame, _) = block_lem k is.sound blocked refl in
        let out : has k.cur k.ready_list ≡ false =
          ground (arith, is.sound.queue.queued k.cur, is.sound.current) in
        (
          asleep,
          k',
          putchar_full_run b e k' run,
          unfold asleep in refl,
          unfold asleep in refl,
          unfold asleep in refl,
          frame k.cur out busy ∙ ground arith,
        )
