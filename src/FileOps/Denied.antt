-- ===== src/FileOps/Denied.antt =====
-- The flag `write_deny`: who is refused, and what a refusal leaves behind.
use sparrow_os.Base.{
  ℕ, ◌+◌, ◌^◌, ◌≤◌, ◌<◌, sym, ap, subst, has, ◌≡◌, ◌≢◌, ◌∙◌, refl, true, false, Option, none, some,
  ok, arith, update,
}
use sparrow_os.OpenInodes.{Inodes, open_loop, inode_open, inode_close}
use sparrow_os.OpenInodes.Sharing.{IsShared, Found, open_loop_lem, reopened, open_hit}
use sparrow_os.Files.Slots.{FirstFree, get_free_slot_lem}
use sparrow_os.Files.{File, get_free_slot_in_global, pcb_fd_install}
use sparrow_os.FileOps.{Opened, writes, set_deny, install, claim, file_open, file_close}

module _ (fresh n flag fd_idx a : ℕ) (s : Opened) (inodes : Inodes)
    (slot : get_free_slot_in_global s.files.file_table ≡ some fd_idx)
    (opens : inode_open s.volume.part s.volume.disk fresh n s.inodes ≡ ok (a, inodes)) where
  abbrev pub file : File
  file = record { fd_pos = 0; fd_flag = flag; fd_inode = some a }

  -- The state in which `file_open` looks at the flag.
  abbrev pub at_claim : Opened
  at_claim = record s {
    inodes = inodes;
    files = record s.files { file_table = update s.files.file_table fd_idx file };
  }

  pub reaches : file_open fresh n flag s ≡ ok (claim fd_idx a flag at_claim)
  unfolding file_open
  reaches = rw (slot, file_open) (rw opens refl)

  denied_run :
      writes flag ≡ true
      → (inodes.inode a).write_deny ≡ true
      → file_open fresh n flag s ≡ ok (none, at_claim)
  unfolding claim
  denied_run write deny = reaches ∙ rw (write, deny) refl

  -- Opening for writing what nobody writes takes the flag: the next to try is refused.
  pub file_open_claims :
      writes flag ≡ true
      → (inodes.inode a).write_deny ≡ false
      → (fd : Option ℕ) × (s' : Opened) × (file_open fresh n flag s ≡ ok (fd, s'))
        × ((s'.inodes.inode a).write_deny ≡ true)
  unfolding claim install
  file_open_claims write free =
      let (fd, table) = pcb_fd_install (some fd_idx) s.files.fd_table in
      (
        fd,
        record at_claim {
          inodes = set_deny a true inodes;
          files = record at_claim.files { fd_table = table };
        },
        reaches ∙ rw (write, free) refl,
        ground arith,
      )

pub file_close_run :
    (fd_idx a : ℕ) (s : Opened)
    → (s.files.file_table fd_idx).fd_inode ≡ some a
    → file_close fd_idx s
      ≡ ok (record s {
        inodes = inode_close a (set_deny a false s.inodes);
        files = record s.files {
          file_table =
              update s.files.file_table fd_idx
                (record (s.files.file_table fd_idx) { fd_inode = none });
        };
      })
unfolding file_close
file_close_run fd_idx a s at = rw (at, file_close) refl

-- Closing a file clears the flag, also for one that was opened for reading only, while every other
-- slot keeps its file: a task that writes through one of them is no more alone.
pub file_close_clears :
    (fd_idx a : ℕ) (s : Opened)
    → (s.files.file_table fd_idx).fd_inode ≡ some a
    → (s' : Opened) × (file_close fd_idx s ≡ ok s')
      × ((s'.inodes.inode a).write_deny ≡ false)
      × ((s'.files.file_table fd_idx).fd_inode ≡ none)
      × ((other : ℕ) → fd_idx ≢ other → s'.files.file_table other ≡ s.files.file_table other)
unfolding inode_close
file_close_clears fd_idx a s at =
    let file = s.files.file_table fd_idx in
    (
      record s {
        inodes = inode_close a (set_deny a false s.inodes);
        files = record s.files {
          file_table = update s.files.file_table fd_idx (record file { fd_inode = none });
        };
      },
      file_close_run fd_idx a s at,
      ground arith,
      ground arith,
      λ other ne. ground arith,
    )

-- The search of the open inodes finds one that is open.
finds_open :
    (s : Inodes) (a n : ℕ)
    → IsShared s
    → has a s.open_inodes ≡ true
    → (s.inode a).i_no ≡ n
    → open_loop s.inode n s.open_inodes ≡ some a
finds_open s a n shared listed number =
    go (open_loop s.inode n s.open_inodes) (open_loop_lem s.inode n s.open_inodes)
  where
    go : (o : Option ℕ) → Found s.inode n s.open_inodes o → o ≡ some a
    go none f = absurd (f a listed number)
    go (some b) (h, e) = ap some (shared.single b a h listed (e ∙ sym number))

-- `file_open` for writing of an inode that is open and being written, where a slot of the table of
-- files is free, its count can grow, and the descriptors lead to slots below 3 or in use: it fails,
-- but the slot, which was free, is taken by the inode, and the inode counts one more that has it
-- open. No descriptor of the task leads to the slot, and the search for a free slot does not give it
-- again.
pub file_open_leaks :
    (fresh n flag fd_idx a : ℕ) (s : Opened)
    → IsShared s.inodes
    → has a s.inodes.open_inodes ≡ true
    → (s.inodes.inode a).i_no ≡ n
    → (s.inodes.inode a).write_deny ≡ true
    → (s.inodes.inode a).i_open_cnts + 1 < 2 ^ 32
    → writes flag ≡ true
    → get_free_slot_in_global s.files.file_table ≡ some fd_idx
    → ((fd g : ℕ) → s.files.fd_table fd ≡ some g → 3 ≤ g → (s.files.file_table g).fd_inode ≢ none)
    → (s' : Opened) × (file_open fresh n flag s ≡ ok (none, s'))
      × ((s.files.file_table fd_idx).fd_inode ≡ none)
      × ((s'.files.file_table fd_idx).fd_inode ≡ some a)
      × ((s'.inodes.inode a).i_open_cnts ≡ (s.inodes.inode a).i_open_cnts + 1)
      × ((fd : ℕ) → s'.files.fd_table fd ≢ some fd_idx)
      × (get_free_slot_in_global s'.files.file_table ≢ some fd_idx)
file_open_leaks fresh n flag fd_idx a s shared listed number deny room write slot used =
    let part = s.volume.part in
    let opens =
      open_hit part s.volume.disk fresh n s.inodes a
        (finds_open s.inodes a n shared listed number) in
    let s' = at_claim fresh n flag fd_idx a s (reopened a s.inodes) slot opens in
    let first =
      subst (FirstFree (λ j. (s.files.file_table j).fd_inode) 3 32) slot
        (get_free_slot_lem s.files.file_table) in
    let taken : (s'.files.file_table fd_idx).fd_inode ≡ some a = ground arith in
    (
      s',
      denied_run fresh n flag fd_idx a s (reopened a s.inodes) slot opens write
          (ground (arith, deny)),
      first.2,
      taken,
      ground (arith, room),
      λ fd e. used fd fd_idx e first.0 first.2,
      λ e.
          let again =
            subst (FirstFree (λ j. (s'.files.file_table j).fd_inode) 3 32) e
              (get_free_slot_lem s'.files.file_table) in
          absurd (cc (taken, again.2)),
    )
