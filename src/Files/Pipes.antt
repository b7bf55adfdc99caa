-- ===== src/Files/Pipes.antt =====
-- A pipe from `sys_pipe` on: two descriptors of one file.
use sparrow_os.Base.{
  ℕ, ◌≤◌, ◌<◌, ◌≡◌, ◌≢◌, ◌∙◌, refl, sym, ap, subst, inl, inr, true, Option, none, some, ok, arith,
  ◌==◌, Bool-cases, update,
}
use sparrow_os.Files.{
  File, Descriptors, pcb_fd_install, fd_local2global, is_pipe, get_free_slot_in_global, pipe_at,
  sys_pipe, pipe_flag,
}
use sparrow_os.Files.Slots.{FirstFree, get_free_slot_lem, Installed, pcb_fd_install_lem}

-- What `sys_pipe` comes to: two descriptors that lead to one file, a pipe opened twice on the page;
-- no descriptor that was in use changes.
pub record Piped (d : Descriptors) (slot page : ℕ) (r w : ℕ) (d' : Descriptors) : Type 0 where
  pub apart : r ≢ w
  pub reader : d'.fd_table r ≡ some slot
  pub writer : d'.fd_table w ≡ some slot
  pub pipe : (is_pipe d' r ≡ ok true) × (is_pipe d' w ≡ ok true)
  pub file : d'.file_table slot ≡ record { fd_pos = 2; fd_flag = pipe_flag; fd_inode = some page }
  pub kept : (j g : ℕ) → d.fd_table j ≡ some g → d'.fd_table j ≡ some g

-- A free descriptor makes the search succeed.
install_some :
    (g : ℕ) (table : ℕ → Option ℕ) (a : ℕ)
    → 3 ≤ a
    → a < 8
    → table a ≡ none
    → (fd : ℕ) × (table' : ℕ → Option ℕ) × (pcb_fd_install (some g) table ≡ (some fd, table'))
      × (table fd ≡ none)
      × (table' fd ≡ some g)
      × ((j : ℕ) → fd ≢ j → table' j ≡ table j)
install_some g table a lo hi free =
    go (pcb_fd_install (some g) table) refl (pcb_fd_install_lem (some g) table)
  where
    go :
        (o : Option ℕ × (ℕ → Option ℕ))
        → pcb_fd_install (some g) table ≡ o
        → Installed table (some g) o
        → (fd : ℕ) × (table' : ℕ → Option ℕ) × (pcb_fd_install (some g) table ≡ (some fd, table'))
          × (table fd ≡ none)
          × (table' fd ≡ some g)
          × ((j : ℕ) → fd ≢ j → table' j ≡ table j)
    go (none, t) e f = absurd (f.0 a lo hi free)
    go (some fd, t) e f = (fd, t, e, f.0.2, f.1, f.2)

local_at :
    (d : Descriptors) (fd slot : ℕ)
    → d.fd_table fd ≡ some slot
    → slot < 32
    → fd_local2global d fd ≡ ok slot
unfolding fd_local2global
local_at d fd slot e h = ground arith

is_pipe_at :
    (d : Descriptors) (fd slot : ℕ)
    → d.fd_table fd ≡ some slot
    → slot < 32
    → (d.file_table slot).fd_flag ≡ pipe_flag
    → is_pipe d fd ≡ ok true
unfolding is_pipe
is_pipe_at d fd slot e h f = rw (local_at d fd slot e h, f) refl

pipe_at_lem :
    (d : Descriptors) (slot page a b : ℕ)
    → slot < 32
    → 3 ≤ a
    → a < b
    → b < 8
    → d.fd_table a ≡ none
    → d.fd_table b ≡ none
    → (r w : ℕ) × (d' : Descriptors) × (pipe_at slot (some page) d ≡ (some (some r, some w), d'))
      × Piped d slot page r w d'
unfolding pipe_at
pipe_at_lem d slot page a b in_table lo ab hi fa fb =
    let (r, t, run, was, leads, others) = install_some slot d.fd_table a lo (omega arith) fa in
    elim (Bool-cases (r == a)) [
      | inl e ↦
          let ne : r ≢ b = ground arith in
          second r t run was leads others b (omega arith) hi (others b ne ∙ fb)
      | inr e ↦
          let ne : r ≢ a = ground arith in
          second r t run was leads others a lo (omega arith) (others a ne ∙ fa)
    ]
  where
    second :
        (r : ℕ) (t : ℕ → Option ℕ)
        → pcb_fd_install (some slot) d.fd_table ≡ (some r, t)
        → d.fd_table r ≡ none
        → t r ≡ some slot
        → ((j : ℕ) → r ≢ j → t j ≡ d.fd_table j)
        → (c : ℕ) → 3 ≤ c
        → c < 8
        → t c ≡ none
        → (r w : ℕ) × (d' : Descriptors) × (pipe_at slot (some page) d
            ≡ (some (some r, some w), d'))
          × Piped d slot page r w d'
    second r t run was leads others c lo hi free =
        let (w, t', run', was', leads', others') = install_some slot t c lo hi free in
        let apart : r ≢ w = λ e. cc (leads, ap t e, was') in
        let file : File = record { fd_pos = 2; fd_flag = pipe_flag; fd_inode = some page } in
        let d' : Descriptors = record {
          file_table = update d.file_table slot file;
          fd_table = t';
        } in
        let at_slot : update d.file_table slot file slot ≡ file = ground arith in
        let flag : (update d.file_table slot file slot).fd_flag ≡ pipe_flag =
          ap (λ f. f.fd_flag) at_slot in
        let first : t' r ≡ some slot = others' r (λ e. apart (sym e)) ∙ leads in
        (
          r,
          w,
          d',
          rw (run, run') refl,
          record {
            apart = apart;
            reader = first;
            writer = leads';
            pipe = (
              is_pipe_at d' r slot first in_table flag,
              is_pipe_at d' w slot leads' in_table flag,
            );
            file = at_slot;
            kept = λ j g e.
                let nr : r ≢ j = λ h. cc (was, ap d.fd_table h, e) in
                let old : t j ≡ some g = others j nr ∙ e in
                let nw : w ≢ j = λ h. cc (was', ap t h, old) in others' j nw ∙ old;
          },
        )

-- `sys_pipe` of a task with two free descriptors, where a slot of the table of files is free and a
-- page is given: it returns two descriptors, and both lead to the new pipe in the first free slot.
pub sys_pipe_lem :
    (d : Descriptors) (slot page a b : ℕ)
    → get_free_slot_in_global d.file_table ≡ some slot
    → 3 ≤ a
    → a < b
    → b < 8
    → d.fd_table a ≡ none
    → d.fd_table b ≡ none
    → (r w : ℕ) × (d' : Descriptors) × (sys_pipe (some page) d ≡ ok (some (some r, some w), d'))
      × Piped d slot page r w d'
unfolding sys_pipe
sys_pipe_lem d slot page a b free lo ab hi fa fb =
    let first =
      subst (FirstFree (λ j. (d.file_table j).fd_inode) 3 32) free
        (get_free_slot_lem d.file_table) in
    let (r, w, d', run, piped) = pipe_at_lem d slot page a b first.1 lo ab hi fa fb in
    (r, w, d', rw (free, sys_pipe) (ap ok run), piped)
