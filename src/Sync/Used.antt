-- ===== src/Sync/Used.antt =====
-- A free lock that `lock_acquire` and `lock_release` take and give back around some work.
use sparrow_os.Base.{◌≡◌, refl, true, none, ok}
use sparrow_os.Thread.{Kernel}
use sparrow_os.Thread.Sound.{IsSound}
use sparrow_os.Sync.Defs.{Lock, lock_acquire, lock_release}
use sparrow_os.Sync.Lock.{IsLock, acquire_free, Acquired-free}
use sparrow_os.Sync.Release.{lock_release_lem}

-- A lock that is free and is taken and released again around a piece of work on other state.
pub record Used (l : Lock) (k : Kernel) : Type 0 where
  pub held : Lock
  pub freed : Lock
  pub after : Kernel
  pub takes : lock_acquire l k ≡ ok (true, held, k)
  pub gives : lock_release held k ≡ ok (freed, after)
  pub sound : IsSound after
  pub cur : after.cur ≡ k.cur

pub used : (l : Lock) (k : Kernel) → IsSound k → IsLock l k → l.holder ≡ none → Used l k
used l k sound is free =
    let got = Acquired-free l k sound is free in
    let (l', k', run, rel) = lock_release_lem _ k sound got.lock refl in
    record {
      held = _;
      freed = l';
      after = k';
      takes = acquire_free l k sound is free;
      gives = run;
      sound = rel.sound;
      cur = rel.cur;
    }
