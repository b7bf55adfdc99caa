-- ===== src/FileData/Reading.antt =====
-- What `file_read` reads: the bytes of the file from its position on.
use sparrow_os.Base.{
  ℕ, zero, suc, ◌+◌, ◌-◌, ◌/◌, ◌%◌, ◌^◌, ◌≤◌, ◌<◌, ◌≡◌, ◌≢◌, ◌∙◌, refl, sym, inl, inr, true, false,
  ◌&&◌, some, ok, arith, ltb, leb, ◌==◌, if◌then◌else◌, Bool-cases, ◌>>=◌,
}
use sparrow_os.Inode.{ide_read}
use sparrow_os.OpenInodes.{Inode}
use sparrow_os.Blocks.{all_blocks}
use sparrow_os.FileData.{with_table, direct_range, read_addresses, read_loop, read_size, file_read}

-- The byte of a file with a number.
unfoldable pub content : (ℕ → ℕ) → (ℕ → ℕ) → ℕ → ℕ
content disk all i = ide_read disk (all (i / 512)) (i % 512)

-- A buffer into which the bytes of a file from `pos` on have been read, from `from` up to `end`.
abbrev pub filled : (ℕ → ℕ) → (ℕ → ℕ) → ℕ → ℕ → ℕ → (ℕ → ℕ) → ℕ → ℕ
filled disk all pos from end dst i =
    if leb from i && ltb i end then content disk all (pos + (i - from)) else dst i

in_sector :
    (disk all : ℕ → ℕ) (pos d : ℕ)
    → pos % 512 + d < 512
    → ide_read disk (all (pos / 512)) (pos % 512 + d) ≡ content disk all (pos + d)
unfolding content
in_sector disk all pos d h =
    let whole : (pos + d) / 512 ≡ pos / 512 = omega arith in
    let rest : (pos + d) % 512 ≡ pos % 512 + d = omega arith in rw (whole, rest) refl

module _ (disk all dst : ℕ → ℕ) (size pos read left chunk : ℕ) (room : pos % 512 + chunk ≤ 512)
    (enough : chunk ≤ left) (total : read + left ≡ size) where
  -- What a round reads.
  abbrev pub round : ℕ → ℕ
  round i =
      if leb read i && ltb i (read + chunk)
      then ide_read disk (all (pos / 512)) (pos % 512 + (i - read))
      else dst i

  -- A round and the later ones together.
  pub rounds :
      (i : ℕ)
      → filled disk all (pos + chunk) (read + chunk) size round i
        ≡ filled disk all pos read size dst i
  rounds i = elim (Bool-cases (leb read i)) [
    | inr low ↦ ground arith
    | inl from ↦ elim (Bool-cases (ltb i (read + chunk))) [
      | inl now ↦
          let here : leb (read + chunk) i ≡ false = ground arith in
          let inside : ltb i size ≡ true = ground arith in
          rw (here, from, now, inside) (in_sector disk all pos (i - read) (ground arith))
      | inr later ↦
          let here : leb (read + chunk) i ≡ true = ground arith in
          let same : pos + chunk + (i - (read + chunk)) ≡ pos + (i - read) = ground arith in
          rw (here, from, later, same) refl
    ]
  ]

-- The loop reads all that is left within as many rounds as there are bytes.
pub read_loop_lem :
    (fuel : ℕ) (disk all : ℕ → ℕ) (size pos read left : ℕ) (dst : ℕ → ℕ)
    → read + left ≡ size
    → pos + left < 2 ^ 32
    → left ≤ fuel
    → (out : ℕ → ℕ) × (read_loop fuel disk all size pos read left dst ≡ some out)
      × ((i : ℕ) → out i ≡ filled disk all pos read size dst i)
unfolding read_loop
read_loop_lem zero disk all size pos read left dst total fits fuel =
    let done : ltb read size ≡ false = ground arith in (dst, rw done refl, λ i. ground arith)
read_loop_lem (suc fuel) disk all size pos read left dst total fits enough =
    elim (Bool-cases (ltb read size)) [
      | inr done ↦ (dst, rw done refl, λ i. ground arith)
      | inl more ↦
          let chunk : ℕ = if ltb left (512 - pos % 512) then left else 512 - pos % 512 in
          let room : pos % 512 + chunk ≤ 512 = ground arith in
          let part : chunk ≤ left = ground arith in
          let moves : 0 < chunk = ground arith in
          let (out, run, bytes) =
            read_loop_lem fuel disk all size (pos + chunk) (read + chunk) (left - chunk)
              (round disk all dst size pos read left chunk room part total) (omega (arith, part))
              (omega (arith, part)) (omega (arith, moves)) in
          let whole : (pos + chunk) % 2 ^ 32 ≡ pos + chunk = omega (arith, part) in
          (
            out,
            rw (more, whole, run) refl,
            λ i. bytes i ∙ rounds disk all dst size pos read left chunk room part total i,
          )
    ]

-- The addresses that `file_read` collects are those of the file, for the blocks that it reads.
pub read_addresses_lem :
    (i_blocks disk : ℕ → ℕ) (start end : ℕ)
    → start ≤ end
    → (12 ≤ end → i_blocks 12 ≢ 0)
    → (all : ℕ → ℕ) × (read_addresses i_blocks disk start end ≡ ok all)
      × ((b : ℕ) → start ≤ b → b ≤ end → all b ≡ all_blocks i_blocks disk b)
unfolding read_addresses direct_range with_table all_blocks
read_addresses_lem i_blocks disk start end order table = elim (Bool-cases (start == end)) [
  | inl same ↦ (
    if ltb end 12
        then direct_range i_blocks end (end + 1)
        else with_table disk (i_blocks 12) (λ b. 0),
    rw same refl,
    λ b lo hi. ground (arith, table),
  )
  | inr apart ↦ elim (Bool-cases (ltb end 12)) [
    | inl direct ↦
        (direct_range i_blocks start (end + 1), rw (apart, direct) refl, λ b lo hi. ground arith)
    | inr indirect ↦
        let used : i_blocks 12 == 0 ≡ false = ground (arith, table) in
        (
          with_table disk (i_blocks 12)
              (if ltb start 12 then direct_range i_blocks start 12 else λ b. 0),
          rw (apart, indirect, used) refl,
          λ b lo hi. ground arith,
        )
  ]
]

-- The bytes that a read gets where no sum runs over.
pub read_size_lem :
    (pos count i_size : ℕ)
    → pos < i_size
    → i_size < 2 ^ 32
    → pos + count < 2 ^ 32
    → read_size pos count i_size ≡ (if ltb i_size (pos + count) then i_size - pos else count)
unfolding read_size
read_size_lem pos count i_size inside small fits = ground arith

-- A call of `file_read` in its steps.
read_steps :
    (node : Inode) (disk : ℕ → ℕ) (pos count size : ℕ) (dst all out : ℕ → ℕ)
    → read_size pos count node.i_size ≡ size
    → (pos + size) % 2 ^ 32 ≡ pos + size
    → ltb node.i_size ((pos + count) % 2 ^ 32) && (size == 0) ≡ false
    → ltb (pos / 512) 139 && ltb ((pos + size) / 512) 139 ≡ true
    → read_addresses node.i_blocks disk (pos / 512) ((pos + size) / 512) ≡ ok all
    → read_loop size disk all size pos 0 size dst ≡ some out
    → file_read node disk pos count dst ≡ ok (some size, out, pos + size)
unfolding file_read
read_steps node disk pos count size dst all out number whole more bounds addresses run =
    rw (number, whole)
      (rw (more, bounds) (rw addresses (rw (run, ◌>>=◌) (rw (number, whole) refl))))

-- Before the end of a file, where the size and the sum of the position and the count fit in 32 bits,
-- `file_read` gives the bytes of the file from the position on, as many as asked for or as there
-- are, and moves the position behind them; the rest of the buffer stays. The block in which it ends
-- must be below 139 and have a table where it needs one.
pub file_read_lem :
    (node : Inode) (disk : ℕ → ℕ) (pos count size : ℕ) (dst : ℕ → ℕ)
    → pos < node.i_size
    → node.i_size < 2 ^ 32
    → pos + count < 2 ^ 32
    → size ≡ (if ltb node.i_size (pos + count) then node.i_size - pos else count)
    → (pos + size) / 512 < 139
    → (12 ≤ (pos + size) / 512 → node.i_blocks 12 ≢ 0)
    → (out : ℕ → ℕ) × (file_read node disk pos count dst ≡ ok (some size, out, pos + size))
      × ((i : ℕ)
          → out i ≡ (
              if ltb i size then content disk (all_blocks node.i_blocks disk) (pos + i) else dst i))
unfolding content
file_read_lem node disk pos count size dst inside small fits gets last table =
    let number : read_size pos count node.i_size ≡ size =
      read_size_lem pos count node.i_size inside small fits ∙ sym gets in
    let start = pos / 512 in
    let end = (pos + size) / 512 in
    let order : start ≤ end = omega arith in
    let (all, addresses, same) = read_addresses_lem node.i_blocks disk start end order table in
    let (out, run, bytes) =
      read_loop_lem size disk all size pos 0 size dst (omega arith) (omega arith) (omega arith) in
    let more : ltb node.i_size ((pos + count) % 2 ^ 32) && (size == 0) ≡ false =
      ground (arith, gets) in
    let bounds : ltb start 139 && ltb end 139 ≡ true = ground arith in
    (
      out,
      read_steps node disk pos count size dst all out number (omega arith) more bounds addresses
          run,
      λ i. bytes i ∙ ground (arith, same ((pos + i) / 512)),
    )
