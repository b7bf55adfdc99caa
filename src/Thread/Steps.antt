-- ===== src/Thread/Steps.antt =====
-- The scheduler over time: any sequence of calls, and the turn of every task.
use sparrow_os.Base.{
  ℕ, zero, suc, ◌≡◌, sym, ap, ◌∙◌, true, List, [], ◌∷◌, ◌++◌, append_assoc, Res, ok, ◌>>=◌, length,
}
use mathlib.Core.Path.{subst}
use sparrow_os.TaskStatus.{TaskStatus, can_block}
use sparrow_os.Thread.{Pcb, Kernel, unblock, block, yield_cpu, timer_handler}
use sparrow_os.Thread.Sound.{IsSound}
use sparrow_os.Thread.Callers.{block_lem, yield_cpu_lem, unblock-IsSound}
use sparrow_os.Thread.Clock.{timer_handler_lem}

-- A call that a task or the clock may make.
pub data Step (k k' : Kernel) : Type 0 where
  blocks : (stat : TaskStatus) → can_block stat ≡ true → block stat k ≡ ok k' → Step k k'
  wakes : (p : Pcb) → can_block (k.task p).status ≡ true → unblock p k ≡ ok k' → Step k k'
  yields : yield_cpu k ≡ ok k' → Step k k'
  ticks : (k.task k.cur).stack_magic ≡ 0x19980924 → timer_handler k ≡ ok k' → Step k k'

pub data Reach (k : Kernel) : Kernel → Type 0 where
  here : Reach k k
  next : {k₁ k₂ : Kernel} → Reach k k₁ → Step k₁ k₂ → Reach k k₂

ok-injective : {a b : Kernel} → ok a ≡ ok b → a ≡ b
ok-injective e = cc

arrives :
    {k' : Kernel} (r : Res Kernel) (k₁ : Kernel) → r ≡ ok k₁ → IsSound k₁ → r ≡ ok k' → IsSound k'
arrives r k₁ e₁ s e = subst IsSound (ok-injective (sym e₁ ∙ e)) s

Step-IsSound : {k k' : Kernel} → Step k k' → IsSound k → IsSound k'
Step-IsSound {k} (blocks stat h e) s =
    let (k₁, e₁, s₁, _, _, _) = block_lem k s stat h in arrives (block stat k) k₁ e₁ s₁ e
Step-IsSound {k} (wakes p h e) s =
    let (k₁, e₁, s₁, _, _, _, _, _, _) = unblock-IsSound k s p h in arrives (unblock p k) k₁ e₁ s₁ e
Step-IsSound {k} (yields e) s =
    let (k₁, e₁, s₁, _) = yield_cpu_lem k s in arrives (yield_cpu k) k₁ e₁ s₁ e
Step-IsSound {k} (ticks m e) s =
    let (k₁, e₁, s₁, _) = timer_handler_lem k s m in arrives (timer_handler k) k₁ e₁ s₁ e

-- Whatever sequence of blocking, waking, yielding and clock ticks runs, the scheduler stays sound:
-- one task runs, and the ready queue holds exactly the ready tasks, each once.
pub Reach-IsSound : {k k' : Kernel} → IsSound k → Reach k k' → IsSound k'
Reach-IsSound s here = s
Reach-IsSound s (next r st) = Step-IsSound st (Reach-IsSound s r)

-- Each running task in turn calls `thread_yield`.
pub yield_rounds : ℕ → Kernel → Res Kernel
yield_rounds zero k = ok k
yield_rounds (suc n) k = yield_cpu k >>= yield_rounds n

heads : {x y : Pcb} {xs ys : List Pcb} → x ∷ xs ≡ y ∷ ys → (x ≡ y) × (xs ≡ ys)
heads e = (cc, cc)

-- No ready task starves: with `n` others before it in the queue it runs after `n + 1` yields.
pub yield_rounds_turn :
    (xs : List Pcb) (p : Pcb) (ys : List Pcb) (k : Kernel)
    → IsSound k
    → k.ready_list ≡ xs ++ p ∷ ys
    → (k' : Kernel) × (yield_rounds (suc (length xs)) k ≡ ok k') × IsSound k' × (k'.cur ≡ p)
unfolding yield_rounds
yield_rounds_turn [] p ys k s e =
    let (k₁, e₁, s₁, order) = yield_cpu_lem k s in
    (k₁, rw e₁, s₁, (heads (order ∙ ap (λ l. l ++ k.cur ∷ []) e)).0)
yield_rounds_turn (x ∷ xs) p ys k s e =
    let (k₁, e₁, s₁, order) = yield_cpu_lem k s in
    let list = (heads (order ∙ ap (λ l. l ++ k.cur ∷ []) e)).1 in
    let (k', run, s', at) =
      yield_rounds_turn xs p (ys ++ k.cur ∷ []) k₁ s₁
        (list ∙ append_assoc xs (p ∷ ys) (k.cur ∷ [])) in
    (k', rw e₁ run, s', at)
