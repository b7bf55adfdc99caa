-- ===== src/Exit/Children.antt =====
-- Searches in the list of all tasks, orphans, and a task that is taken out.
use sparrow_os.Base.{
  ℕ, ◌%◌, ◌^◌, ◌≡◌, ◌∙◌, refl, sym, subst, inl, inr, Bool, true, false, ◌&&◌, Option, none, some,
  List, [], ◌∷◌, ok, ◌==◌, if◌then◌else◌, arith, has, Bool-cases,
}
use sparrow_os.TaskStatus.{TaskStatus, hanging, is_hanging}
use sparrow_os.Thread.{Pcb, Kernel, set_task}
use sparrow_os.Thread.Sound.{IsSound}
use sparrow_os.Exit.{
  System, first_task, is_pid, find_hanging_child, init_adopt, thread_exit, reaped, widen, sys_wait,
}

-- What a search in a list of tasks may come to.
abbrev pub FirstTask : (Pcb → Bool) → List Pcb → Option Pcb → Type 0
FirstTask test l (some p) = (has p l ≡ true) × (test p ≡ true)
FirstTask test l none = (p : Pcb) → has p l ≡ true → test p ≡ false

pub first_task_lem : (test : Pcb → Bool) (l : List Pcb) → FirstTask test l (first_task test l)
unfolding first_task
first_task_lem test [] = λ p h. cc
first_task_lem test (q ∷ l) = elim (Bool-cases (test q)) [
  | inl e ↦ rw e (ground arith, e)
  | inr e ↦ rw e (later (first_task test l) e (first_task_lem test l))
]
  where
    later : (o : Option Pcb) → test q ≡ false → FirstTask test l o → FirstTask test (q ∷ l) o
    later (some p) e (h, t) = (ground arith, t)
    later none e f = λ p h. elim (Bool-cases (p == q)) [
      | inl same ↦ let at : p ≡ q = ground arith in rw at e
      | inr other ↦ f p (ground arith)
    ]

-- Some task of the list passes the test, so the search finds one.
pub finds :
    (test : Pcb → Bool) (l : List Pcb) (p : Pcb)
    → has p l ≡ true
    → test p ≡ true
    → (q : Pcb) × (first_task test l ≡ some q) × (has q l ≡ true) × (test q ≡ true)
finds test l p h t = go (first_task test l) refl (first_task_lem test l)
  where
    go :
        (o : Option Pcb)
        → first_task test l ≡ o
        → FirstTask test l o
        → (q : Pcb) × (first_task test l ≡ some q) × (has q l ≡ true) × (test q ≡ true)
    go (some q) e (a, b) = (q, e, a, b)
    go none e f = let no = f p h in absurd (cc)

-- The same kernel but for the parents of tasks.
pub record Adopted (pid : ℕ) (l : List Pcb) (k k' : Kernel) : Type 0 where
  pub parents :
      (p : Pcb)
      → (k'.task p).parent_pid
        ≡ (if has p l && is_pid pid (k.task p).parent_pid then some 1 else (k.task p).parent_pid)
  pub statuses : (p : Pcb) → (k'.task p).status ≡ (k.task p).status
  pub pids : (p : Pcb) → (k'.task p).pid ≡ (k.task p).pid
  pub exits : (p : Pcb) → (k'.task p).exit_status ≡ (k.task p).exit_status
  pub cur : k'.cur ≡ k.cur
  pub ready_list : k'.ready_list ≡ k.ready_list
  pub all_list : k'.all_list ≡ k.all_list
  pub idle_thread : k'.idle_thread ≡ k.idle_thread

not_mine :
    (q : Pcb) (l : List Pcb) (pid : ℕ) (k : Kernel) (p : Pcb)
    → is_pid pid (k.task q).parent_pid ≡ false
    → (if has p l && is_pid pid (k.task p).parent_pid then some 1 else (k.task p).parent_pid) ≡ (
        if has p (q ∷ l) && is_pid pid (k.task p).parent_pid then some 1 else (k.task p).parent_pid)
not_mine q l pid k p other = elim (Bool-cases (p == q)) [
  | inl same ↦
      let at : p ≡ q = ground arith in
      let no : is_pid pid (k.task p).parent_pid ≡ false = rw at other in ground arith
  | inr e ↦ rw e refl
]

-- The children of a task that exits go to `init`, whose pid is 1, and nothing else changes.
pub init_adopt_lem : (pid : ℕ) (l : List Pcb) (k : Kernel) → Adopted pid l k (init_adopt pid l k)
unfolding init_adopt
init_adopt_lem pid [] k = record {
  parents = λ p. refl;
  statuses = λ p. refl;
  pids = λ p. refl;
  exits = λ p. refl;
  cur = refl;
  ready_list = refl;
  all_list = refl;
  idle_thread = refl;
}
init_adopt_lem pid (q ∷ l) k = elim (Bool-cases (is_pid pid (k.task q).parent_pid)) [
  | inl mine ↦
      let k' = set_task q (record (k.task q) { parent_pid = some 1 }) k in
      let a = init_adopt_lem pid l k' in
      rw mine (record {
        parents = λ p. a.parents p ∙ ground arith;
        statuses = λ p. a.statuses p ∙ ground arith;
        pids = λ p. a.pids p ∙ ground arith;
        exits = λ p. a.exits p ∙ ground arith;
        cur = a.cur;
        ready_list = a.ready_list;
        all_list = a.all_list;
        idle_thread = a.idle_thread;
      })
  | inr other ↦
      let a = init_adopt_lem pid l k in
      rw other (record {
        parents = λ p. a.parents p ∙ not_mine q l pid k p other;
        statuses = a.statuses;
        pids = a.pids;
        exits = a.exits;
        cur = a.cur;
        ready_list = a.ready_list;
        all_list = a.all_list;
        idle_thread = a.idle_thread;
      })
]

-- Scheduling looks at the statuses and the queue only.
pub Adopted-IsSound :
    (pid : ℕ) (l : List Pcb) (k k' : Kernel) → Adopted pid l k k' → IsSound k → IsSound k'
Adopted-IsSound pid l k k' a s = record {
  queue = record {
    distinct = rw a.ready_list s.queue.distinct;
    queued = λ p h. a.statuses p ∙ s.queue.queued p (rw a.ready_list at h);
    kept = λ p e. rw a.ready_list (s.queue.kept p (sym (a.statuses p) ∙ e));
    alive = rw (a.idle_thread) (λ e. s.queue.alive (sym (a.statuses k.idle_thread) ∙ e));
  };
  current = rw a.cur (a.statuses k.cur ∙ s.current);
  only = λ p e. rw a.cur (s.only p (sym (a.statuses p) ∙ e));
}

pid_of : (pid : ℕ) (o : Option ℕ) → is_pid pid o ≡ true → o ≡ some pid
pid_of pid none h = cc
pid_of pid (some q) h = ground arith

hanging_of : (s : TaskStatus) → is_hanging s ≡ true → s ≡ hanging
hanging_of s h = ground arith

-- A round of `sys_wait` where a child hangs and its end is recorded: the child is one of the caller,
-- hangs, and gives its pid, in 16 bits, and its exit status.
pub sys_wait_reaps :
    (pgdir : Pcb → ℕ) (sys sys' : System) (child : Pcb)
    → first_task
        (find_hanging_child sys.kernel (sys.kernel.task sys.kernel.cur).pid)
        sys.kernel.all_list
      ≡ some child
    → thread_exit (pgdir child) child false sys ≡ ok (true, sys')
    → (sys_wait pgdir sys
        ≡ ok (
          reaped ((sys.kernel.task child).pid % 2 ^ 16) (widen (sys.kernel.task child).exit_status),
          sys',
        ))
      × (has child sys.kernel.all_list ≡ true)
      × ((sys.kernel.task child).parent_pid ≡ some (sys.kernel.task sys.kernel.cur).pid)
      × ((sys.kernel.task child).status ≡ hanging)
unfolding sys_wait
sys_wait_reaps pgdir sys sys' child found ends =
    let k = sys.kernel in
    let test = find_hanging_child k (k.task k.cur).pid in
    let (listed, passes) =
      subst (FirstTask test k.all_list) found (first_task_lem test k.all_list) in
    (
      rw (found, sys_wait) (rw ends refl),
      listed,
      pid_of (k.task k.cur).pid (k.task child).parent_pid (ground arith),
      hanging_of (k.task child).status (ground arith),
    )
