-- ===== src/Files/Slots.antt =====
-- Free slots in the two tables, redirection, and a pipe from its creation on.
use sparrow_os.Base.{
  ℕ, zero, suc, ◌+◌, ◌≤◌, ◌<◌, ◌≡◌, ◌≢◌, ◌∙◌, refl, sym, ap, subst, inl, inr, true, false, Option,
  none, some, Res, ok, panic, arith, ltb, ◌==◌, Bool-cases, if◌then◌else◌, update,
}
use sparrow_os.Files.{
  File, Descriptors, is_null, slot_loop, get_free_slot_in_global, install_loop, pcb_fd_install,
  fd_local2global, sys_fd_redirect,
}

-- What a search for the first free slot from `i` on, before `end`, may come to.
abbrev pub FirstFree : (ℕ → Option ℕ) → ℕ → ℕ → Option ℕ → Type 0
FirstFree table i end (some s) =
    (i ≤ s) × (s < end) × (table s ≡ none) × ((j : ℕ) → i ≤ j → j < s → table j ≢ none)
FirstFree table i end none = (j : ℕ) → i ≤ j → j < end → table j ≢ none

null_iff : (o : Option ℕ) → is_null o ≡ true → o ≡ none
unfolding is_null
null_iff none h = refl
null_iff (some p) h = cc

full_iff : (o : Option ℕ) → is_null o ≡ false → o ≢ none
unfolding is_null
full_iff o h e = cc

FirstFree-next :
    (table : ℕ → Option ℕ) (i end : ℕ) (o : Option ℕ)
    → table i ≢ none
    → FirstFree table (i + 1) end o
    → FirstFree table i end o
FirstFree-next table i end none used f = λ j lo hi. elim (Bool-cases (i == j)) [
  | inl e ↦ let h : j ≡ i = ground arith in λ free. used (ap table (sym h) ∙ free)
  | inr e ↦ f j (ground arith) hi
]
FirstFree-next table i end (some s) used (lo, hi, free, below) = (
  omega arith,
  hi,
  free,
  λ j p q. elim (Bool-cases (i == j)) [
    | inl e ↦ let h : j ≡ i = ground arith in λ free. used (ap table (sym h) ∙ free)
    | inr e ↦ below j (ground arith) q
  ],
)

slot_loop_lem :
    (left i : ℕ) (table : ℕ → File)
    → FirstFree (λ j. (table j).fd_inode) i (i + left) (slot_loop table i left)
unfolding slot_loop
slot_loop_lem zero i table = λ j p q. absurd (omega arith)
slot_loop_lem (suc left) i table = elim (Bool-cases (is_null (table i).fd_inode)) [
  | inl e ↦
      rw e (omega arith, omega arith, null_iff (table i).fd_inode e, λ j p q. absurd (omega arith))
  | inr e ↦
      let h : i + 1 + left ≡ i + suc left = omega arith in
      rw e (
        subst (λ n. FirstFree (λ j. (table j).fd_inode) i n (slot_loop table (i + 1) left)) h
          (FirstFree-next (λ j. (table j).fd_inode) i (i + 1 + left) (slot_loop table (i + 1) left)
            (full_iff (table i).fd_inode e) (slot_loop_lem left (i + 1) table)))
]

install_loop_lem :
    (left i : ℕ) (table : ℕ → Option ℕ) → FirstFree table i (i + left) (install_loop table i left)
unfolding install_loop
install_loop_lem zero i table = λ j p q. absurd (omega arith)
install_loop_lem (suc left) i table = elim (Bool-cases (is_null (table i))) [
  | inl e ↦ rw e (omega arith, omega arith, null_iff (table i) e, λ j p q. absurd (omega arith))
  | inr e ↦
      let h : i + 1 + left ≡ i + suc left = omega arith in
      rw e (
        subst (λ n. FirstFree table i n (install_loop table (i + 1) left)) h
          (FirstFree-next table i (i + 1 + left) (install_loop table (i + 1) left)
            (full_iff (table i) e) (install_loop_lem left (i + 1) table)))
]

-- `get_free_slot_in_global` returns the first slot of the 32, behind the three of the standard
-- streams, that holds no inode, and -1 only where there is none.
pub get_free_slot_lem :
    (table : ℕ → File) → FirstFree (λ j. (table j).fd_inode) 3 32 (get_free_slot_in_global table)
unfolding get_free_slot_in_global
get_free_slot_lem table = slot_loop_lem 29 3 table

-- What `pcb_fd_install` may come to: the descriptor was the first free one and leads to the slot,
-- and the others lead where they did; or all were taken, and none changes.
abbrev pub Installed : (ℕ → Option ℕ) → Option ℕ → Option ℕ × (ℕ → Option ℕ) → Type 0
Installed table g (none, table') = FirstFree table 3 8 none × (table' ≡ table)
Installed table g (some fd, table') =
    FirstFree table 3 8 (some fd) × (table' fd ≡ g) × ((j : ℕ) → fd ≢ j → table' j ≡ table j)

-- `pcb_fd_install` takes the first free descriptor of a task from 3 on, if one of its 8 is free.
pub pcb_fd_install_lem :
    (g : Option ℕ) (table : ℕ → Option ℕ) → Installed table g (pcb_fd_install g table)
unfolding pcb_fd_install
pcb_fd_install_lem g table = go (install_loop table 3 5) (install_loop_lem 5 3 table)
  where
    go :
        (o : Option ℕ)
        → FirstFree table 3 8 o
        → Installed table g
            (elim o [ none ↦ (none, table) | some fd ↦ (some fd, update table fd g) ])
    go none f = (f, refl)
    go (some fd) f = (f, ground arith, λ j ne. ground arith)

local_update :
    (d : Descriptors) (old : ℕ) (g : ℕ)
    → g < 32
    → fd_local2global (record d { fd_table = update d.fd_table old (some g) }) old ≡ ok g
unfolding fd_local2global
local_update d old g h = ground arith

local_lt :
    (d : Descriptors) (fd g : ℕ) → fd_local2global d fd ≡ ok g → (d.fd_table fd ≡ some g) × (g < 32)
unfolding fd_local2global
local_lt d fd g e = go (d.fd_table fd) e
  where
    go :
        (o : Option ℕ)
        → (elim o as (λ o. Res ℕ) [ none ↦ panic | some g ↦ if ltb g 32 then ok g else panic ])
          ≡ ok g
        → (o ≡ some g) × (g < 32)
    go none e = absurd (cc)
    go (some h) e = (ground arith, ground arith)

-- Redirecting a descriptor to another one of the task makes both lead to the same file, and
-- redirecting it to a standard stream makes it lead to that; the table of files stays.
pub sys_fd_redirect_lem :
    (old new g : ℕ) (d : Descriptors)
    → 3 ≤ new
    → fd_local2global d new ≡ ok g
    → (fd_local2global (sys_fd_redirect old new d) old ≡ ok g)
      × ((std : ℕ) → std < 3 → fd_local2global (sys_fd_redirect old std d) old ≡ ok std)
      × ((j : ℕ) → old ≢ j → (sys_fd_redirect old new d).fd_table j ≡ d.fd_table j)
unfolding sys_fd_redirect
sys_fd_redirect_lem old new g d three e =
    let (there, lt) = local_lt d new g e in
    let high : ltb new 3 ≡ false = ground arith in
    (
      rw (high, there) (local_update d old g lt),
      λ std h.
          let low : ltb std 3 ≡ true = ground arith in
          rw low (local_update d old std (omega arith)),
      λ j ne. rw high (ground arith),
    )
