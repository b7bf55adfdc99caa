-- ===== src/Thread/Kept.antt =====
-- What scheduling leaves alone: the pids, the parents, the exit statuses and the list of all tasks.
use sparrow_os.Base.{
  ◌≡◌, ◌∙◌, refl, Bool, true, false, not, List, [], ◌∷◌, Res, ok, panic, check, ◌>>=◌, ◌>>◌,
  if◌then◌else◌, update, has, is_empty, arith,
}
use sparrow_os.TaskStatus.{TaskStatus, is_running, is_ready, can_block}
use sparrow_os.Thread.{
  Pcb, Task, Kernel, unblock, requeue, wake_idle, switch_to, saved, schedule, block,
}

pub record Kept (k k' : Kernel) : Type 0 where
  pub pids : (p : Pcb) → (k'.task p).pid ≡ (k.task p).pid
  pub parents : (p : Pcb) → (k'.task p).parent_pid ≡ (k.task p).parent_pid
  pub statuses : (p : Pcb) → (k'.task p).exit_status ≡ (k.task p).exit_status
  pub all_list : k'.all_list ≡ k.all_list

Kept-refl : (k : Kernel) → Kept k k
Kept-refl k = record {
  pids = λ p. refl;
  parents = λ p. refl;
  statuses = λ p. refl;
  all_list = refl;
}

pub Kept-trans : (k l m : Kernel) → Kept k l → Kept l m → Kept k m
Kept-trans k l m f g = record {
  pids = λ p. g.pids p ∙ f.pids p;
  parents = λ p. g.parents p ∙ f.parents p;
  statuses = λ p. g.statuses p ∙ f.statuses p;
  all_list = g.all_list ∙ f.all_list;
}

-- A result that keeps them, if it is one.
abbrev pub Keeps : Kernel → Res Kernel → Type 0
Keeps k (ok k') = Kept k k'
Keeps k panic = Unit

Keeps-check : (k : Kernel) (c : Bool) (r : Res Kernel) → Keeps k r → Keeps k (check c >> r)
Keeps-check k true r h = h
Keeps-check k false r h = tt

Keeps-if :
    (k : Kernel) (c : Bool) (r s : Res Kernel)
    → Keeps k r
    → Keeps k s
    → Keeps k (if c then r else s)
Keeps-if k true r s h g = h
Keeps-if k false r s h g = g

Keeps-bind :
    (k : Kernel) (r : Res Kernel) (f : Kernel → Res Kernel)
    → Keeps k r
    → ((l : Kernel) → Keeps l (f l))
    → Keeps k (r >>= f)
Keeps-bind k panic f h g = tt
Keeps-bind k (ok l) f h g = go (f l) (g l)
  where
    go : (r : Res Kernel) → Keeps l r → Keeps k r
    go panic h' = tt
    go (ok m) h' = Kept-trans k l m h h'

through : (k l : Kernel) (r : Res Kernel) → Kept k l → Keeps l r → Keeps k r
through k l panic f h = tt
through k l (ok m) f h = Kept-trans k l m f h

-- A task with another status, time slice or saved flag.
retask :
    (k k' : Kernel) (p : Pcb) (t : Task)
    → k'.task ≡ update k.task p t
    → k'.all_list ≡ k.all_list
    → t.pid ≡ (k.task p).pid
    → t.parent_pid ≡ (k.task p).parent_pid
    → t.exit_status ≡ (k.task p).exit_status
    → Kept k k'
retask k k' p t e l a b c = record {
  pids = λ q. rw e (ground arith);
  parents = λ q. rw e (ground arith);
  statuses = λ q. rw e (ground arith);
  all_list = l;
}

pub unblock-Keeps : (p : Pcb) (k : Kernel) → Keeps k (unblock p k)
unfolding unblock
unblock-Keeps p k = Keeps-check k (can_block (k.task p).status) _ (
    Keeps-bind k _ _
      (Keeps-if k (is_ready (k.task p).status) (ok k) _ (Kept-refl k) (
        Keeps-check k (not (has p k.ready_list)) _
          (Keeps-if k (has p k.ready_list) panic _ tt (retask k _ p _ refl refl refl refl refl))))
      (λ l. record {
        pids = λ q. refl;
        parents = λ q. refl;
        statuses = λ q. refl;
        all_list = refl;
      }))

requeue-Keeps : (k : Kernel) → Keeps k (requeue k)
unfolding requeue
requeue-Keeps k =
    Keeps-if k (is_running (k.task k.cur).status) _ (ok k)
      (Keeps-check k (not (has k.cur k.ready_list)) _ (retask k _ k.cur _ refl refl refl refl refl))
      (Kept-refl k)

wake_idle-Keeps : (k : Kernel) → Keeps k (wake_idle k)
unfolding wake_idle
wake_idle-Keeps k =
    Keeps-if k (is_empty k.ready_list) (unblock k.idle_thread k) (ok k)
      (unblock-Keeps k.idle_thread k) (Kept-refl k)

switch_to-Keeps : (l : List Pcb) (k : Kernel) → Keeps k (switch_to l k)
unfolding switch_to
switch_to-Keeps [] k = tt
switch_to-Keeps (next ∷ rest) k = retask k _ next _ refl refl refl refl refl

pub schedule-Keeps : (old_status : Bool) (k : Kernel) → Keeps k (schedule old_status k)
unfolding schedule saved
schedule-Keeps old_status k = Keeps-check k (not k.intr) _ (
    Keeps-bind k (requeue (saved old_status k)) _
      (through k (saved old_status k) (requeue (saved old_status k))
        (retask k _ k.cur _ refl refl refl refl refl) (requeue-Keeps (saved old_status k)))
      (λ l.
        Keeps-bind l (wake_idle l) _ (wake_idle-Keeps l)
          (λ m. Keeps-check m (not (is_empty m.ready_list)) _ (switch_to-Keeps m.ready_list m))))

-- `thread_block` keeps them.
pub block-Keeps : (stat : TaskStatus) (k : Kernel) → Keeps k (block stat k)
unfolding block
block-Keeps stat k =
    Keeps-check k (can_block stat) _
      (through k _ _ (retask k _ k.cur _ refl refl refl refl refl) (schedule-Keeps _ _))
