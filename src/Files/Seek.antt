-- ===== src/Files/Seek.antt =====
-- `sys_lseek` stays inside the file.
use sparrow_os.Base.{
  ℕ, ◌+◌, ◌-◌, ◌%◌, ◌^◌, ◌≤◌, ◌<◌, ◌≡◌, ◌∙◌, refl, ap, Bool, true, false, ◌&&◌, ◌||◌, not, Option,
  none, some, Res, ok, inl, inr, Bool-cases, arith, ltb, leb, if◌then◌else◌, update,
}
use sparrow_os.Files.{Descriptors, fd_local2global, int_gt, seek_target, size_of, sys_lseek}

-- The table with the position of a file set.
abbrev pub positioned : Descriptors → ℕ → ℕ → Descriptors
positioned d slot pos = record d {
  file_table = update d.file_table slot (record (d.file_table slot) { fd_pos = pos });
}

-- The three modes, with their numbers and the positions that they count from.
pub data Whence : Type 0 where
  seek_set : Whence
  seek_cur : Whence
  seek_end : Whence

abbrev pub code : Whence → ℕ
code seek_set = 1
code seek_cur = 2
code seek_end = 3

abbrev pub origin : Whence → ℕ → ℕ → ℕ
origin seek_set fd_pos size = 0
origin seek_cur fd_pos size = fd_pos
origin seek_end fd_pos size = size

-- A position moved by a signed offset, given as a word; there is none before the start.
unfoldable pub moved : ℕ → ℕ → Option ℕ
moved from offset =
    if ltb offset (2 ^ 31)
    then some (from + offset)
    else if leb (2 ^ 32 - offset) from
    then some (from - (2 ^ 32 - offset))
    else none

-- What a seek does with it.
abbrev pub sought : Descriptors → ℕ → ℕ → Option ℕ → Res (Option ℕ × Descriptors)
sought d slot size none = ok (none, d)
sought d slot size (some pos) =
    if ltb pos size then ok (some pos, positioned d slot pos) else ok (none, d)

module _ (fd offset whence slot inode : ℕ) (i_size : ℕ → ℕ) (d : Descriptors)
    (open_fd : fd_local2global d fd ≡ ok slot) (file : (d.file_table slot).fd_inode ≡ some inode)
    (mode : (1 ≤ whence) × (whence ≤ 3)) where
  abbrev target : ℕ
  target = seek_target whence (d.file_table slot).fd_pos offset (i_size inode)

  abbrev refused : Bool
  refused = leb (2 ^ 31) target || int_gt target ((i_size inode + (2 ^ 32 - 1)) % 2 ^ 32)

  lseek_run :
      sys_lseek fd offset whence i_size d
      ≡ (if refused then ok (none, d) else ok (some target, positioned d slot target))
  unfolding sys_lseek size_of
  lseek_run =
      let guard : (ltb 0 whence && ltb whence 4) ≡ true = ground arith in
      rw (guard, open_fd, file) refl

  target-lt : offset < 2 ^ 32 → target < 2 ^ 32
  unfolding seek_target
  target-lt h = ground arith

  refused_iff : offset < 2 ^ 32 → i_size inode < 2 ^ 31 → refused ≡ not (ltb target (i_size inode))
  unfolding int_gt
  refused_iff h small = ground (arith, target-lt h)

  seek_target_lem :
      offset < 2 ^ 32
      → i_size inode < 2 ^ 31
      → let new_pos = seek_target whence (d.file_table slot).fd_pos offset (i_size inode) in
        sys_lseek fd offset whence i_size d ≡ (
          if ltb new_pos (i_size inode)
          then ok (some new_pos, positioned d slot new_pos)
          else ok (none, d))
  seek_target_lem h small =
      lseek_run ∙ rw (refused_iff h small) (turn (ltb target (i_size inode)) _ _)
    where
      turn : (b : Bool) {A : Type 0} (x y : A) → (if not b then x else y) ≡ (if b then y else x)
      turn true x y = refl
      turn false x y = refl

code_in : (w : Whence) → (1 ≤ code w) × (code w ≤ 3)
code_in seek_set = (omega arith, omega arith)
code_in seek_cur = (omega arith, omega arith)
code_in seek_end = (omega arith, omega arith)

seek_target-code :
    (w : Whence) (fd_pos offset size : ℕ)
    → fd_pos < 2 ^ 31
    → size < 2 ^ 31
    → offset < 2 ^ 32
    → (seek_target (code w) fd_pos offset size ≡ (origin w fd_pos size + offset) % 2 ^ 32)
      × (origin w fd_pos size < 2 ^ 31)
unfolding seek_target
seek_target-code seek_set fd_pos offset size p s o = (ground arith, omega arith)
seek_target-code seek_cur fd_pos offset size p s o = (ground arith, omega arith)
seek_target-code seek_end fd_pos offset size p s o = (ground arith, omega arith)

sought-moved :
    (d : Descriptors) (slot size from offset : ℕ)
    → from < 2 ^ 31
    → size < 2 ^ 31
    → offset < 2 ^ 32
    → sought d slot size (some ((from + offset) % 2 ^ 32)) ≡ sought d slot size (moved from offset)
unfolding moved
sought-moved d slot size from offset f s o = elim (Bool-cases (ltb offset (2 ^ 31))) [
  | inl ahead ↦
      let there : (from + offset) % 2 ^ 32 ≡ from + offset = ground arith in rw (ahead, there) refl
  | inr back ↦ elim (Bool-cases (leb (2 ^ 32 - offset) from)) [
    | inl inside ↦
        let there : (from + offset) % 2 ^ 32 ≡ from - (2 ^ 32 - offset) = ground arith in
        rw (back, inside, there) refl
    | inr before ↦
        let out : ltb ((from + offset) % 2 ^ 32) size ≡ false = ground arith in
        rw (back, before, out) refl
  ]
]

-- `sys_lseek` of a file that is open, with its position and its size below 2 ^ 31: the offset is
-- signed and counts from the start of the file, from its position, or from its end. Where the place
-- lies in the file, before its end, it becomes the position and the result; where it lies before
-- the start or not before the end, the result is -1 and nothing changes.
pub sys_lseek_lem :
    (fd offset slot inode : ℕ) (w : Whence) (i_size : ℕ → ℕ) (d : Descriptors)
    → fd_local2global d fd ≡ ok slot
    → (d.file_table slot).fd_inode ≡ some inode
    → (d.file_table slot).fd_pos < 2 ^ 31
    → i_size inode < 2 ^ 31
    → offset < 2 ^ 32
    → sys_lseek fd offset (code w) i_size d
      ≡ sought d slot
          (i_size inode)
          (moved (origin w (d.file_table slot).fd_pos (i_size inode)) offset)
sys_lseek_lem fd offset slot inode w i_size d open_fd file here small h =
    let pos = (d.file_table slot).fd_pos in
    let size = i_size inode in
    let (target, from) = seek_target-code w pos offset size here small h in
    seek_target_lem fd offset (code w) slot inode i_size d open_fd file (code_in w) h small
    ∙ ap (λ t. sought d slot size (some t)) target
    ∙ sought-moved d slot size (origin w pos size) offset from small h
