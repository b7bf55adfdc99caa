-- ===== src/Sync/Tests.antt =====
-- Locks in the kernel of four tasks: task 1 runs.
use sparrow_os.Base.{◌≡◌, refl, Bool, true, false, some, [], ◌∷◌, ok, panic, arith}
use sparrow_os.Thread.{Kernel}
use sparrow_os.Thread.Tests.{four, four-IsSound}
use sparrow_os.Thread.Sound.{with_intr}
use sparrow_os.Sync.Defs.{Lock, retry, lock_release}
use sparrow_os.Sync.Lock.{IsLock, Acquired, attempt_lem}
use sparrow_os.Sync.Release.{Released, lock_release_lem}

-- Held by task 2; task 5 waits.
abbrev others_lock : Lock
others_lock = record {
  holder = some 2;
  semaphore = record { value = 0; waiters = 5 ∷ [] };
  holder_repeat_nr = 1;
}

abbrev own_lock : Lock
own_lock = record others_lock { holder = some 1 }

others_lock-IsLock : IsLock others_lock four
others_lock-IsLock = record {
  free = λ e. cc;
  held = λ p e. omega arith;
  asleep = λ p h. ground arith;
  distinct = (refl, tt);
}

own_lock-IsLock : IsLock own_lock four
own_lock-IsLock = record {
  free = λ e. cc;
  held = λ p e. omega arith;
  asleep = λ p h. ground arith;
  distinct = (refl, tt);
}

release_of_another : lock_release others_lock four ≡ panic
unfolding lock_release
release_of_another = refl

-- Task 1 goes on with its call while task 2 has the lock: it waits once more.
attempt_lem_example :
    (got : Bool) × (l' : Lock) × (k' : Kernel) × (retry true others_lock
        (record four { intr = false })
      ≡ ok (got, l', k'))
    × Acquired others_lock four got l' k'
attempt_lem_example =
    attempt_lem (some true) others_lock (record four { intr = false })
      (with_intr false four four-IsSound)
      (record {
        free = others_lock-IsLock.free;
        held = others_lock-IsLock.held;
        asleep = others_lock-IsLock.asleep;
        distinct = others_lock-IsLock.distinct;
      })
      (refl, λ e. ground arith) (omega arith) (omega arith)

lock_release_lem_example :
    (l' : Lock) × (k' : Kernel) × (lock_release own_lock four ≡ ok (l', k'))
    × Released own_lock four l' k'
lock_release_lem_example = lock_release_lem own_lock four four-IsSound own_lock-IsLock refl
