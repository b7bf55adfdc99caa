-- ===== src/Files/Tests.antt =====
-- Tables with the standard streams open, and one file of 100 bytes.
use sparrow_os.Base.{ℕ, ◌-◌, ◌^◌, ◌≡◌, refl, none, some, ok, arith, ltb, ◌==◌, if◌then◌else◌}
use sparrow_os.Files.{
  Descriptors, fd_local2global, is_null, slot_loop, get_free_slot_in_global, sys_pipe, sys_lseek,
}
use sparrow_os.Files.Pipes.{Piped, sys_pipe_lem}
use sparrow_os.Files.Seek.{seek_end, origin, moved, sought, sys_lseek_lem}

-- Descriptor 3 leads to slot 3, whose file stands at byte 10 of inode 7.
abbrev files : Descriptors
files = record {
  file_table = λ i. record { fd_pos = 10; fd_flag = 0; fd_inode = if i == 3 then some 7 else none };
  fd_table = λ i. if ltb i 4 then some i else none;
}

abbrev sizes : ℕ → ℕ
sizes inode = 100

opened : fd_local2global files 3 ≡ ok 3
unfolding fd_local2global
opened = refl

four_free : get_free_slot_in_global files.file_table ≡ some 4
unfolding get_free_slot_in_global slot_loop is_null
four_free = refl

sys_pipe_lem_example :
    (r w : ℕ) × (d' : Descriptors) × (sys_pipe (some 0xc0100000) files
      ≡ ok (some (some r, some w), d'))
    × Piped files 4 0xc0100000 r w d'
sys_pipe_lem_example =
    sys_pipe_lem files 4 0xc0100000 4 5 four_free (omega arith) (omega arith) (omega arith) refl
      refl

-- Five bytes back from the end.
sys_lseek_lem_example :
    sys_lseek 3 (2 ^ 32 - 5) 3 sizes files
    ≡ sought files 3 100 (moved (origin seek_end 10 100) (2 ^ 32 - 5))
sys_lseek_lem_example =
    sys_lseek_lem 3 (2 ^ 32 - 5) 3 7 seek_end sizes files opened refl (omega arith) (omega arith)
      (omega arith)
