-- ===== src/Sync/Release.antt =====
-- `lock_release`: when the lock is given back, and whom that wakes.
use sparrow_os.Base.{
  ◌-◌, ◌≤◌, ◌≡◌, refl, inl, inr, true, false, none, some, List, [], ◌∷◌, ◌++◌, ok, arith, ltb,
  Bool-cases, has, Distinct,
}
use sparrow_os.Interrupt.{set_status_lem}
use sparrow_os.TaskStatus.{can_block}
use sparrow_os.Thread.{Pcb, Kernel}
use sparrow_os.Thread.Sound.{IsSound, woken, woken-IsQueue, unblock_lem, with_intr}
use sparrow_os.Sync.Defs.{Semaphore, Lock, sema_up, wake_first, lock_release}
use sparrow_os.Sync.Lock.{IsLock}

-- The task that a release wakes, if one waits.
abbrev pub first : List Pcb → List Pcb
first [] = []
first (p ∷ rest) = p ∷ []

abbrev pub others : List Pcb → List Pcb
others [] = []
others (p ∷ rest) = rest

-- `sema_up` at value 0.
record Upped (k : Kernel) (s s' : Semaphore) (k' : Kernel) : Type 0 where
  sound : IsSound k'
  value : s'.value ≡ 1
  waiters : s'.waiters ≡ others s.waiters
  ready_list : k'.ready_list ≡ first s.waiters ++ k.ready_list
  cur : k'.cur ≡ k.cur
  idle : k'.idle_thread ≡ k.idle_thread
  intr : k'.intr ≡ k.intr
  frame : (p : Pcb) → has p (first s.waiters) ≡ false → (k'.task p).status ≡ (k.task p).status

module _ (k : Kernel) (sound : IsSound k) where
  open sound use {queue, current, only}

  abbrev off : Kernel
  off = record k { intr = false }

  up_run :
      (s s' : Semaphore) (k₁ : Kernel)
      → s.value ≡ 0
      → s'.value ≡ 0
      → wake_first s.waiters s off ≡ ok (s', k₁)
      → sema_up s k ≡ ok (record s' { value = 1 }, record k₁ { intr = k.intr })
  unfolding sema_up
  up_run s s' k₁ zero zero' run = ground (arith, set_status_lem k.intr k₁.intr)

  sema_up_none :
      (s : Semaphore)
      → s.waiters ≡ []
      → s.value ≡ 0
      → (s' : Semaphore) × (k' : Kernel) × (sema_up s k ≡ ok (s', k')) × Upped k s s' k'
  sema_up_none s e zero = (
    record s { value = 1 },
    k,
    up_run s s off zero zero (unfold wake_first in rw e),
    record {
      sound = sound;
      value = refl;
      waiters = rw e;
      ready_list = rw e;
      cur = refl;
      idle = refl;
      intr = refl;
      frame = λ p h. refl;
    },
  )

  sema_up_some :
      (p : Pcb) (rest : List Pcb) (s : Semaphore)
      → s.waiters ≡ p ∷ rest
      → s.value ≡ 0
      → can_block (k.task p).status ≡ true
      → (s' : Semaphore) × (k' : Kernel) × (sema_up s k ≡ ok (s', k')) × Upped k s s' k'
  sema_up_some p rest s e zero asleep =
      let quiet = with_intr false k sound in
      let k₁ : Kernel = woken off quiet.queue p in
      let run : wake_first s.waiters s off ≡ ok (record s { waiters = rest }, k₁) =
        unfold wake_first in rw (e, unblock_lem off quiet.queue p asleep) in
      (
        record s { value = 1; waiters = rest },
        record k₁ { intr = k.intr },
        up_run s (record s { waiters = rest }) k₁ zero zero run,
        record {
          sound = with_intr k.intr k₁ (record {
            queue = woken-IsQueue off quiet.queue p asleep;
            current = ground (arith, current);
            only = λ a e. ground (arith, only a);
          });
          value = refl;
          waiters = rw e;
          ready_list = rw e;
          cur = refl;
          idle = refl;
          intr = refl;
          frame = λ a h. ground arith;
        },
      )

  sema_up-Upped :
      (s : Semaphore)
      → s.value ≡ 0
      → ((p : Pcb) → has p s.waiters ≡ true → can_block (k.task p).status ≡ true)
      → (s' : Semaphore) × (k' : Kernel) × (sema_up s k ≡ ok (s', k')) × Upped k s s' k'
  sema_up-Upped s zero asleep = go s.waiters refl
    where
      go :
          (ws : List Pcb)
          → s.waiters ≡ ws
          → (s' : Semaphore) × (k' : Kernel) × (sema_up s k ≡ ok (s', k')) × Upped k s s' k'
      go [] e = sema_up_none s e zero
      go (p ∷ rest) e = sema_up_some p rest s e zero (asleep p (rw e (ground arith)))

-- What a call of `lock_release` by the holder comes to. At the last of its acquisitions the lock is
-- free, and the task that has waited longest is the first of the ready queue; before that only
-- the count changes. The caller goes on running.
pub record Released (l : Lock) (k : Kernel) (l' : Lock) (k' : Kernel) : Type 0 where
  pub sound : IsSound k'
  pub lock : IsLock l' k'
  pub cur : k'.cur ≡ k.cur
  pub intr : k'.intr ≡ k.intr
  pub inner :
      2 ≤ l.holder_repeat_nr
      → (k' ≡ k) × (l' ≡ record l { holder_repeat_nr = l.holder_repeat_nr - 1 })
  pub last :
      l.holder_repeat_nr ≡ 1
      → (l'.holder ≡ none)
        × (l'.semaphore.waiters ≡ others l.semaphore.waiters)
        × (k'.ready_list ≡ first l.semaphore.waiters ++ k.ready_list)

-- A task behind the first is not the first.
others_has :
    (p : Pcb) (ws : List Pcb)
    → Distinct ws
    → has p (others ws) ≡ true
    → (has p ws ≡ true) × (has p (first ws) ≡ false)
others_has p [] d h = cc
others_has p (w ∷ ws) d h = ground arith

others-Distinct : (ws : List Pcb) → Distinct ws → Distinct (others ws)
others-Distinct [] d = d
others-Distinct (w ∷ ws) d = d.1

module _ (l : Lock) (k : Kernel) (sound : IsSound k) (is : IsLock l k)
    (mine : l.holder ≡ some k.cur) where
  release_inner_run :
      2 ≤ l.holder_repeat_nr
      → lock_release l k ≡ ok (record l { holder_repeat_nr = l.holder_repeat_nr - 1 }, k)
  unfolding lock_release
  release_inner_run h = ground arith

  release_last_run :
      l.holder_repeat_nr ≡ 1
      → (s : Semaphore) (k' : Kernel) → sema_up l.semaphore k ≡ ok (s, k')
      → lock_release l k ≡ ok (record { holder = none; semaphore = s; holder_repeat_nr = 0 }, k')
  unfolding lock_release
  release_last_run h s k' run = ground arith

  -- `lock_release` by the holder never panics.
  pub lock_release_lem :
      (l' : Lock) × (k' : Kernel) × (lock_release l k ≡ ok (l', k')) × Released l k l' k'
  lock_release_lem = elim (Bool-cases (ltb 1 l.holder_repeat_nr)) [
    | inl e ↦ (
      _,
      k,
      release_inner_run (ground arith),
      record {
        sound = sound;
        lock = record {
          free = λ h. ground arith;
          held = λ p h. ground (arith, is.held p);
          asleep = is.asleep;
          distinct = is.distinct;
        };
        cur = refl;
        intr = refl;
        inner = λ h. (refl, refl);
        last = λ h. absurd (ground arith);
      },
    )
    | inr e ↦
        let one : l.holder_repeat_nr ≡ 1 = ground (arith, is.held k.cur) in
        let (s, k', run, up) =
          sema_up-Upped k sound l.semaphore (is.held k.cur mine).0 (λ p h. (is.asleep p h).0) in
        (
          _,
          k',
          release_last_run one s k' run,
          record {
            sound = up.sound;
            lock = record {
              free = λ h. (up.value, refl);
              held = λ p h. cc;
              asleep = λ p h.
                  let old = others_has p l.semaphore.waiters is.distinct (rw up.waiters at h) in
                  ground (arith, is.asleep p old.0, up.frame p old.1, up.idle);
              distinct = rw up.waiters (others-Distinct l.semaphore.waiters is.distinct);
            };
            cur = up.cur;
            intr = up.intr;
            inner = λ h. absurd (omega arith);
            last = λ h. (refl, up.waiters, up.ready_list);
          },
        )
  ]
