-- ===== src/FileData/Limits.antt =====
-- The bounds of `file_write` and `file_read`: the end of a file and the largest size.
use sparrow_os.Base.{
  ℕ, ◌+◌, ◌-◌, ◌*◌, ◌/◌, ◌%◌, ◌^◌, ◌≤◌, ◌<◌, ◌≡◌, ◌≢◌, refl, inl, inr, Bool-cases, true, false,
  ◌&&◌, none, ok, panic, ltb, ◌==◌, if◌then◌else◌, arith,
}
use sparrow_os.OpenInodes.{Inode}
use sparrow_os.Blocks.{Volume}
use sparrow_os.FileData.{first_block, read_size, file_read, file_write}

-- A write to a file with a first block, where the sum of its size and the count fits in 32 bits: one
-- that takes the file past 71680 bytes is refused and changes nothing, but one that takes it to
-- exactly 71680 bytes, which the test lets pass, ends in a failed `ASSERT`.
pub file_write_limit :
    (node : Inode) (fd_pos : ℕ) (v : Volume) (src : ℕ → ℕ) (count : ℕ)
    → 71680 ≤ node.i_size + count
    → node.i_size + count < 2 ^ 32
    → node.i_blocks 0 ≢ 0
    → file_write node fd_pos v src count
      ≡ (if node.i_size + count == 71680 then panic else ok (none, node, fd_pos, v))
unfolding file_write first_block
file_write_limit node fd_pos v src count large fits first =
    elim (Bool-cases (node.i_size + count == 71680)) [
      | inl e ↦
          let full : node.i_size + count ≡ 71680 = ground arith in
          let used : node.i_blocks 0 == 0 ≡ false = ground arith in rw (full, used) refl
      | inr e ↦
          let guard : ltb (512 * 140) ((node.i_size + count) % 2 ^ 32) ≡ true = ground arith in
          rw (guard, e) refl
    ]

-- Where a read before the end stops.
read_end :
    (i_size pos count : ℕ)
    → pos < i_size
    → pos + count < 2 ^ 32
    → i_size < 2 ^ 32
    → 0 < count
    → (71168 ≤ pos + count → 71168 ≤ i_size → 71168 ≤ pos + read_size pos count i_size)
      × (ltb i_size ((pos + count) % 2 ^ 32) && (read_size pos count i_size == 0) ≡ false)
      × (pos + read_size pos count i_size < 2 ^ 32)
unfolding read_size
read_end i_size pos count lt fits small some_bytes =
    (λ a b. ground arith, ground arith, ground arith)

module _ (node : Inode) (disk : ℕ → ℕ) (pos count : ℕ) (dst : ℕ → ℕ) (fits : pos + count < 2 ^ 32)
    (small : node.i_size < 2 ^ 32) (some_bytes : 0 < count) where
  at_end : pos ≡ node.i_size → file_read node disk pos count dst ≡ ok (none, dst, pos)
  unfolding file_read read_size
  at_end e =
      let over : ltb node.i_size ((pos + count) % 2 ^ 32) ≡ true = ground arith in
      let zero_left : (node.i_size + (2 ^ 32 - pos)) % 2 ^ 32 ≡ 0 = omega arith in
      rw (over, zero_left) refl

  late :
      pos < node.i_size
      → 71168 ≤ pos + count
      → 71168 ≤ node.i_size
      → file_read node disk pos count dst ≡ panic
  unfolding file_read
  late lt a b =
      let (high, more, short) = read_end node.i_size pos count lt fits small some_bytes in
      let no : ltb (pos / 512) 139
            && ltb ((pos + read_size pos count node.i_size) % 2 ^ 32 / 512) 139
          ≡ false =
        ground (arith, high a b, short) in
      rw more (rw no refl)

  -- `file_read` at the end of a file gives -1 and leaves the buffer and the position. But before the
  -- end, a read that stops at the byte 71168 or behind it ends in a failed `ASSERT`, although
  -- `file_write` makes files that long.
  pub file_read_limit :
      (pos ≡ node.i_size → file_read node disk pos count dst ≡ ok (none, dst, pos))
      × (pos < node.i_size
          → 71168 ≤ pos + count
          → 71168 ≤ node.i_size
          → file_read node disk pos count dst ≡ panic)
  file_read_limit = (at_end, late)
