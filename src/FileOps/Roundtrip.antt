-- ===== src/FileOps/Roundtrip.antt =====
-- `sys_close` undoes `file_open`.
use sparrow_os.Base.{
  ℕ, ◌≤◌, ◌<◌, ◌≡◌, ◌≢◌, ◌==◌, ◌∙◌, inl, inr, Bool-cases, refl, ap, subst, true, false, Option,
  none, some, ok, ltb, arith, update, has,
}
use sparrow_os.OpenInodes.{Inodes, inode_open, inode_close}
use sparrow_os.OpenInodes.Sharing as Sharing
use sparrow_os.Files.{File, get_free_slot_in_global, pcb_fd_install, fd_local2global, is_pipe}
use sparrow_os.Files.Slots.{FirstFree, get_free_slot_lem, Installed, pcb_fd_install_lem}
use sparrow_os.FileOps.{Opened, writes, set_deny, install, claim, file_open, file_close, sys_close}
use sparrow_os.FileOps.Denied.{reaches, file_close_run}

-- What is left after a file has been opened and closed: the tables have the slot and the descriptor
-- free again and the slots in use as before, the inodes that were open are open as before, with their
-- counts, and the partition is as before.
pub record Restored (s s' : Opened) : Type 0 where
  pub slots : (i : ℕ) → (s'.files.file_table i).fd_inode ≡ (s.files.file_table i).fd_inode
  pub held :
      (i : ℕ)
      → (s.files.file_table i).fd_inode ≢ none
      → s'.files.file_table i ≡ s.files.file_table i
  pub descriptors : (i : ℕ) → s'.files.fd_table i ≡ s.files.fd_table i
  pub open_inodes : s'.inodes.open_inodes ≡ s.inodes.open_inodes
  pub counts :
      (b : ℕ)
      → has b s.inodes.open_inodes ≡ true
      → (s'.inodes.inode b).i_open_cnts ≡ (s.inodes.inode b).i_open_cnts
  pub volume : s'.volume ≡ s.volume

module _ (s : Opened) (fresh n flag fd_idx a fd : ℕ) (inodes : Inodes) (table : ℕ → Option ℕ)
    (slot : get_free_slot_in_global s.files.file_table ≡ some fd_idx)
    (opens : inode_open s.volume.part s.volume.disk fresh n s.inodes ≡ ok (a, inodes))
    (opened : Sharing.Opened s.inodes n a inodes) (read : writes flag ≡ false)
    (gets : pcb_fd_install (some fd_idx) s.files.fd_table ≡ (some fd, table)) where
  abbrev file : File
  file = record { fd_pos = 0; fd_flag = flag; fd_inode = some a }

  abbrev pub opened_state : Opened
  opened_state = record s {
    inodes = inodes;
    files = record { file_table = update s.files.file_table fd_idx file; fd_table = table };
  }

  slot_free : (3 ≤ fd_idx) × (fd_idx < 32) × ((s.files.file_table fd_idx).fd_inode ≡ none)
  slot_free =
      let f =
        subst (FirstFree (λ j. (s.files.file_table j).fd_inode) 3 32) slot
          (get_free_slot_lem s.files.file_table) in
      (f.0, f.1, f.2)

  installed : Installed s.files.fd_table (some fd_idx) (some fd, table)
  installed =
      subst (Installed s.files.fd_table (some fd_idx)) gets
        (pcb_fd_install_lem (some fd_idx) s.files.fd_table)

  same_list :
      (inode_close a (set_deny a false inodes)).open_inodes ≡ (inode_close a inodes).open_inodes
  unfolding inode_close
  same_list = ground arith

  same_count :
      (b : ℕ)
      → ((inode_close a (set_deny a false inodes)).inode b).i_open_cnts
        ≡ ((inode_close a inodes).inode b).i_open_cnts
  unfolding inode_close
  same_count b = ground arith

  opens_file : file_open fresh n flag s ≡ ok (some fd, opened_state)
  unfolding claim install
  opens_file = reaches fresh n flag fd_idx a s inodes slot opens ∙ rw (read, gets) refl

  abbrev pub closed_state : Opened
  closed_state = record s {
    inodes = inode_close a (set_deny a false inodes);
    files = record {
      file_table =
          update opened_state.files.file_table fd_idx
            (record (opened_state.files.file_table fd_idx) { fd_inode = none });
      fd_table = update table fd none;
    };
  }

  to_slot : fd_local2global opened_state.files fd ≡ ok fd_idx
  unfolding fd_local2global
  to_slot =
      let inside : ltb fd_idx 32 ≡ true = ground (arith, slot_free.1) in
      rw (installed.1, inside) refl

  not_pipe : flag < 8 → is_pipe opened_state.files fd ≡ ok false
  unfolding is_pipe
  not_pipe low = rw to_slot (ground arith)

  closes_slot :
      file_close fd_idx opened_state
      ≡ ok (record opened_state {
        inodes = inode_close a (set_deny a false inodes);
        files = record opened_state.files {
          file_table =
              update opened_state.files.file_table fd_idx
                (record (opened_state.files.file_table fd_idx) { fd_inode = none });
        };
      })
  closes_slot =
      let there : (opened_state.files.file_table fd_idx).fd_inode ≡ some a = ground arith in
      file_close_run fd_idx a opened_state there

  closes_file : flag < 8 → sys_close fd opened_state ≡ ok (true, closed_state)
  unfolding sys_close
  closes_file low =
      let high : ltb 2 fd ≡ true = ground (arith, installed.0.0) in
      rw (high, to_slot, not_pipe low) (rw closes_slot refl)

  file_slots :
      (i : ℕ) → (closed_state.files.file_table i).fd_inode ≡ (s.files.file_table i).fd_inode
  file_slots i = ground (arith, slot_free.2)

  held_slots :
      (i : ℕ)
      → (s.files.file_table i).fd_inode ≢ none
      → closed_state.files.file_table i ≡ s.files.file_table i
  held_slots i used = elim (Bool-cases (fd_idx == i)) [
    | inl e ↦
        let here : fd_idx ≡ i = ground arith in
        absurd (used (subst (λ j. (s.files.file_table j).fd_inode ≡ none) here slot_free.2))
    | inr e ↦ rw e refl
  ]

  descriptors : (i : ℕ) → closed_state.files.fd_table i ≡ s.files.fd_table i
  descriptors i = ground (arith, installed.0.2, installed.2 i)

  -- Opening a file that is not written to, where a slot and a descriptor are free, and closing the
  -- descriptor: both calls succeed. Then the slot and the descriptor are free again, the slots in
  -- use and the descriptors are as before, and so are the list of open inodes, their counts, and the
  -- partition. (The slot that is free again keeps the flag that it was opened with, and the inode's
  -- flag `write_deny` is off.)
  pub file_open-sys_close :
      flag < 8
      → (file_open fresh n flag s ≡ ok (some fd, opened_state))
        × (sys_close fd opened_state ≡ ok (true, closed_state))
        × Restored s closed_state
  file_open-sys_close low = (
    opens_file,
    closes_file low,
    record {
      slots = file_slots;
      held = held_slots;
      descriptors = descriptors;
      open_inodes = same_list ∙ opened.closes;
      counts = λ b h. same_count b ∙ ap (λ node. node.i_open_cnts) (opened.restores b h);
      volume = refl;
    },
  )
