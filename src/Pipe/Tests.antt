-- ===== src/Pipe/Tests.antt =====
-- Pipes in the kernel of four tasks, where task 1 reads and writes.
use sparrow_os.Base.{
  ℕ, ◌+◌, ◌-◌, ◌≡◌, refl, Bool, true, false, none, some, List, [], ◌∷◌, ◌++◌, ok, panic, arith,
  ◌==◌, ltb, if◌then◌else◌, update,
}
use sparrow_os.Base as Base
use sparrow_os.TaskStatus.{blocked}
use sparrow_os.Thread.{Kernel}
use sparrow_os.Thread.Tests.{four, four-IsSound}
use sparrow_os.Sync.Defs.{lock_init}
use sparrow_os.Thread.Sound.{IsSound, with_intr}
use sparrow_os.Sync.Lock.{IsLock, lock_init-IsLock}
use sparrow_os.IoQueue.{IoQueue, span, length, putchar}
use sparrow_os.IoQueue.Ring.{contents}
use sparrow_os.IoQueue.Effects.{IsIo, Woke, putchar_lem}
use sparrow_os.Pipe.{Moved, pipe_read, pipe_write}
use sparrow_os.Pipe.Transfer.{pipe_read_lem, pipe_write_lem, pipe_write_sleeps}

abbrev pub quiet : Kernel
quiet = record four { intr = false }

abbrev letters : ℕ → ℕ
letters i = if i == 2047 then 97 else if i == 0 then 98 else 99

-- Two bytes across the end of the buffer, and a ring with room for none.
abbrev pub wrapped : IoQueue
wrapped = record {
  lock = lock_init;
  producer = none;
  consumer = some 5;
  buf = letters;
  head = 1;
  tail = 2047;
}

abbrev nearly_full : IoQueue
nearly_full = record wrapped { consumer = none; head = 2046; tail = 0 }

abbrev brim : IoQueue
brim = record nearly_full { head = 2047 }

quiet-IsSound : IsSound quiet
quiet-IsSound = with_intr false four four-IsSound

pub wrapped-IsIo : IsIo wrapped quiet
wrapped-IsIo = record {
  sound = quiet-IsSound;
  ring = record { head_in = omega arith; tail_in = omega arith };
  off = refl;
  consumer = λ p e. ground arith;
  producer = λ p e. cc;
  apart = λ p e. cc;
}

nearly_full-IsIo : IsIo nearly_full quiet
nearly_full-IsIo = record {
  sound = quiet-IsSound;
  ring = record { head_in = omega arith; tail_in = omega arith };
  off = refl;
  consumer = λ p e. cc;
  producer = λ p e. cc;
  apart = λ p e. cc;
}

brim-IsIo : IsIo brim quiet
brim-IsIo = record {
  sound = quiet-IsSound;
  ring = record { head_in = omega arith; tail_in = omega arith };
  off = refl;
  consumer = λ p e. cc;
  producer = λ p e. cc;
  apart = λ p e. cc;
}

unlocked : IsLock lock_init quiet
unlocked = lock_init-IsLock quiet

putchar_lem_example :
    (q' : IoQueue) × (k' : Kernel) × (putchar 33 wrapped quiet ≡ ok (true, q', k'))
    × IsIo q' k'
    × (contents q' ≡ contents wrapped ++ 33 ∷ [])
    × (k'.cur ≡ 1)
    × (q'.lock ≡ wrapped.lock)
    × (q'.consumer ≡ none)
    × (q'.producer ≡ none)
    × Woke (some 5) quiet k'
putchar_lem_example = putchar_lem wrapped quiet wrapped-IsIo 33 (unfold span in λ e. omega arith)

pipe_read_lem_example :
    (m : Moved (List ℕ)) × (pipe_read 1 wrapped quiet ≡ ok m)
    × (m.finished ≡ true)
    × (Base.length m.bytes ≡ (if ltb 1 (length wrapped) then 1 else length wrapped))
    × (contents wrapped ≡ m.bytes ++ contents m.ring)
    × IsIo m.ring m.kernel
    × (m.kernel.cur ≡ 1)
pipe_read_lem_example = pipe_read_lem 1 wrapped quiet wrapped-IsIo

pipe_write_lem_example :
    (m : Moved ℕ) × (pipe_write (72 ∷ 105 ∷ 0 ∷ []) 2 wrapped quiet ≡ ok m)
    × (m.finished ≡ true)
    × (m.bytes ≡ 2)
    × (contents m.ring ≡ contents wrapped ++ 72 ∷ 105 ∷ [])
    × IsIo m.ring m.kernel
    × (m.kernel.cur ≡ 1)
pipe_write_lem_example =
    pipe_write_lem (72 ∷ 105 ∷ []) (0 ∷ []) wrapped quiet wrapped-IsIo (unfold span in omega arith)

pipe_write_sleeps_example :
    (m : Moved ℕ) × (pipe_write (72 ∷ 105 ∷ []) 2 nearly_full quiet ≡ ok m)
    × (m.finished ≡ false)
    × (m.bytes ≡ 1)
    × (contents m.ring ≡ contents nearly_full ++ 72 ∷ [])
    × ((m.kernel.task 1).status ≡ blocked)
unfolding lock_init
pipe_write_sleeps_example =
    pipe_write_sleeps (72 ∷ []) 105 [] 2 nearly_full quiet nearly_full-IsIo unlocked refl
      (omega arith) refl refl (unfold span in refl) (omega arith)
