-- ===== src/Exit/Handshake.antt =====
-- A task that exits and its parent, which waits for it.
use sparrow_os.Base.{ℕ, ◌≡◌, ◌≢◌, ◌∙◌, refl, subst, true, false, some, ok, ◌==◌, arith, has}
use sparrow_os.TaskStatus.{waiting, hanging, is_waiting, can_block}
use sparrow_os.Thread.{Pcb, Kernel}
use sparrow_os.Thread.Sound.{IsSound}
use sparrow_os.Thread.Callers.{block_lem, unblock-IsSound}
use sparrow_os.Thread.Kept.{Kept-trans, Keeps, unblock-Keeps, block-Keeps}
use sparrow_os.Exit.{first_task, find_hanging_child, pid2thread, leave}
use sparrow_os.Exit.Children.{finds}

-- A parent that waits when its child leaves runs next, and its search finds a child that hangs; the
-- scheduler stays sound.
pub leave_lem :
    (ppid : ℕ) (k : Kernel) (parent : Pcb)
    → IsSound k
    → (k.task k.cur).parent_pid ≡ some ppid
    → has k.cur k.all_list ≡ true
    → k.cur ≢ k.idle_thread
    → pid2thread ppid k ≡ some parent
    → (k.task parent).status ≡ waiting
    → (k' : Kernel) × (leave ppid k ≡ ok k')
      × IsSound k'
      × (k'.cur ≡ parent)
      × ((k'.task k.cur).status ≡ hanging)
      × (q : Pcb) × (first_task (find_hanging_child k' ppid) k'.all_list ≡ some q)
unfolding leave
leave_lem ppid k parent sound mine listed busy found waits =
    let able : can_block (k.task parent).status ≡ true = rw waits refl in
    let (k₁, wakes, s₁, _, cur₁, queue, intr, idle₁, others) =
      unblock-IsSound k sound parent able in
    let (k₂, blocks, s₂, order, frame, idle₂) = block_lem k₁ s₁ hanging refl in
    let kept₁ = subst (Keeps k) wakes (unblock-Keeps parent k) in
    let kept₂ = subst (Keeps k₁) blocks (block-Keeps hanging k₁) in
    let kept = Kept-trans k k₁ k₂ kept₁ kept₂ in
    let is_w : is_waiting (k.task parent).status ≡ true = rw waits refl in
    let running_now = sound.current in
    let apart : k.cur ≢ parent = λ e. (let both = rw e at running_now in absurd (cc)) in
    let out : has k.cur k.ready_list ≡ false = ground (arith, sound.queue.queued k.cur) in
    let out₁ : has k.cur k₁.ready_list ≡ false = rw queue (ground arith) in
    let hangs : (k₂.task k.cur).status ≡ hanging =
      frame k.cur out₁ (λ e. busy (e ∙ idle₁)) ∙ rw cur₁ (ground arith) in
    let parent_kept : (k₂.task k.cur).parent_pid ≡ some ppid = kept.parents k.cur ∙ mine in
    let self : ppid == ppid ≡ true = ground arith in
    let (q, search, there, passes) =
      finds (find_hanging_child k₂ ppid) k₂.all_list k.cur (rw kept.all_list listed)
        (rw (parent_kept, hangs, self) refl) in
    (
      k₂,
      rw (found, leave) (rw (is_w, wakes) blocks),
      s₂,
      (let first = rw queue at order in ground arith),
      hangs,
      q,
      search,
    )
