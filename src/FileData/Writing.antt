-- ===== src/FileData/Writing.antt =====
-- What the loop of `file_write` writes: the bytes of the buffer behind the old ones of the file.
use sparrow_os.Base.{
  ℕ, zero, suc, ◌+◌, ◌-◌, ◌*◌, ◌/◌, ◌%◌, ◌^◌, ◌≤◌, ◌<◌, ◌≡◌, ◌≢◌, ◌∙◌, refl, inl, inr, Bool, true,
  false, ◌&&◌, some, arith, ltb, leb, ◌==◌, if◌then◌else◌, Bool-cases,
}
use sparrow_os.Inode.{ide_read, ide_write}
use sparrow_os.Dir.Install.{read_back, read_other}
use sparrow_os.FileData.{write_loop}
use sparrow_os.FileData.Reading.{content}

-- The blocks from one on, below a bound, lie in different sectors.
abbrev pub Apart : (ℕ → ℕ) → ℕ → ℕ → Type 0
Apart all from bound =
    (b c : ℕ) → from ≤ b → b < bound → from ≤ c → c < bound → b ≢ c → all b ≢ all c

-- The bytes of a file to which `src`, from `w` on, has been added at `size`.
abbrev pub appended : (ℕ → ℕ) → (ℕ → ℕ) → (ℕ → ℕ) → ℕ → ℕ → ℕ → ℕ
appended disk all src size w j = if leb size j then src (w + (j - size)) else content disk all j

module _ (src all : ℕ → ℕ) (from bound : ℕ) (apart : Apart all from bound) where
  -- The buffer of a round.
  abbrev round_buf : Bool → (ℕ → ℕ) → ℕ → ℕ → ℕ → ℕ → ℕ
  round_buf first disk size w chunk i =
      if leb (size % 512) i && ltb i (size % 512 + chunk)
      then src (w + (i - size % 512))
      else (if first then ide_read disk (all (size / 512)) else λ i. 0) i

  -- The disk after a round.
  abbrev round : Bool → (ℕ → ℕ) → ℕ → ℕ → ℕ → ℕ → ℕ
  round first disk size w chunk =
      ide_write disk (all (size / 512)) (round_buf first disk size w chunk) 1

  -- A byte of the buffer, in the last sector of the file.
  buf_lem :
      (first : Bool) (disk : ℕ → ℕ) (size w chunk j : ℕ)
      → size % 512 + chunk ≤ 512
      → (first ≡ false → size % 512 ≡ 0)
      → j < size + chunk
      → j / 512 ≡ size / 512
      → round_buf first disk size w chunk (j % 512)
        ≡ (if leb size j then src (w + (j - size)) else ide_read disk (all (size / 512)) (j % 512))
  buf_lem first disk size w chunk j room keeps h same = elim (Bool-cases (leb size j)) [
    | inl new ↦
        let le : size ≤ j = ground arith in
        let at : j % 512 - size % 512 ≡ j - size = omega (arith, le) in
        let from : leb (size % 512) (j % 512) ≡ true = ground arith in
        let to : ltb (j % 512) (size % 512 + chunk) ≡ true = ground arith in
        rw (new, from, to, at) refl
    | inr old ↦
        let lt : j < size = ground arith in
        let from : leb (size % 512) (j % 512) ≡ false = ground arith in
        rw (old, from) (kept first keeps (omega (arith, lt)))
  ]
    where
      kept :
          (f : Bool)
          → (f ≡ false → size % 512 ≡ 0)
          → size % 512 ≢ 0
          → (if f then ide_read disk (all (size / 512)) else λ i. 0) (j % 512)
            ≡ ide_read disk (all (size / 512)) (j % 512)
      kept true k ne = refl
      kept false k ne = absurd (ne (k refl))

  -- A round adds its bytes and keeps the others.
  round_lem :
      (first : Bool) (disk : ℕ → ℕ) (size w chunk j : ℕ)
      → size % 512 + chunk ≤ 512
      → from ≤ size / 512
      → size / 512 < bound
      → (first ≡ false → size % 512 ≡ 0)
      → from * 512 ≤ j
      → j < size + chunk
      → content (round first disk size w chunk) all j ≡ appended disk all src size w j
  unfolding content
  round_lem first disk size w chunk j room after inside keeps begins h =
      elim (Bool-cases (j / 512 == size / 512)) [
        | inr other ↦
            let ne : size / 512 ≢ j / 512 = ground arith in
            let lt : j < size = ground arith in
            let low : leb size j ≡ false = ground arith in
            rw low (
              read_other disk (round_buf first disk size w chunk) (all (size / 512)) (all (j / 512))
                (j % 512) (omega arith)
                (apart (size / 512) (j / 512) after inside (omega arith) (omega arith) ne))
        | inl same ↦
            let at : j / 512 ≡ size / 512 = ground arith in
            rw at (
              read_back disk (round_buf first disk size w chunk) (all (size / 512)) (j % 512)
                (omega arith)
              ∙ buf_lem first disk size w chunk j room keeps h at)
      ]

  -- What the loop comes to.
  pub record Written (disk : ℕ → ℕ) (size w left : ℕ) (out : ℕ → ℕ) : Type 0 where
    pub bytes :
        (j : ℕ)
        → from * 512 ≤ j
        → j < size + left
        → content out all j ≡ appended disk all src size w j
    pub others :
        (lba i : ℕ)
        → i < 512
        → ((b : ℕ) → from ≤ b → b < bound → all b ≢ lba)
        → ide_read out lba i ≡ ide_read disk lba i

  -- No round.
  Written-none : (disk : ℕ → ℕ) (size w left : ℕ) → left ≡ 0 → Written disk size w left disk
  Written-none disk size w left e = record {
    bytes = λ j begins h. let low : leb size j ≡ false = ground arith in rw low refl;
    others = λ lba i h ne. refl;
  }

  -- A round before the others.
  Written-round :
      (first : Bool) (disk out : ℕ → ℕ) (size w left chunk : ℕ)
      → size % 512 + chunk ≤ 512
      → chunk ≤ left
      → from ≤ size / 512
      → size / 512 < bound
      → (first ≡ false → size % 512 ≡ 0)
      → Written (round first disk size w chunk) (size + chunk) (w + chunk) (left - chunk) out
      → Written disk size w left out
  Written-round first disk out size w left chunk room fits after inside keeps r = record {
    bytes = λ j begins h.
        r.bytes j begins (omega arith) ∙ elim (Bool-cases (leb (size + chunk) j)) [
          | inl later ↦
              let le : size + chunk ≤ j = ground arith in
              let new : leb size j ≡ true = ground arith in
              let same : w + chunk + (j - (size + chunk)) ≡ w + (j - size) = omega (arith, le) in
              rw (later, new, same) refl
          | inr now ↦
              let lt : j < size + chunk = ground arith in
              rw now (round_lem first disk size w chunk j room after inside keeps begins lt)
        ];
    others = λ lba i h ne.
        r.others lba i h ne
        ∙ read_other disk (round_buf first disk size w chunk) (all (size / 512)) lba i h
            (ne (size / 512) after inside);
  }

  -- The loop of `file_write` ends within as many rounds as there are bytes, with the size and the
  -- position moved behind the new bytes.
  pub write_loop_lem :
      (fuel count : ℕ) (first : Bool) (size fd_pos w left : ℕ) (disk : ℕ → ℕ)
      → w + left ≡ count
      → left ≤ fuel
      → from ≤ size / 512
      → size + left ≤ 512 * bound
      → fd_pos < 2 ^ 32
      → (first ≡ false → 0 < left → size % 512 ≡ 0)
      → (out : ℕ → ℕ) × (write_loop fuel src all count first size fd_pos w left disk
          ≡ some (size + left, (fd_pos + left) % 2 ^ 32, out))
        × Written disk size w left out
  unfolding write_loop
  write_loop_lem zero count first size fd_pos w left disk total enough after inside low keeps =
      let done : ltb w count ≡ false = ground arith in
      let same : size + left ≡ size = omega arith in
      let pos : (fd_pos + left) % 2 ^ 32 ≡ fd_pos = omega arith in
      (disk, rw (done, same, pos) refl, Written-none disk size w left (omega arith))
  write_loop_lem (suc fuel) count first size fd_pos w left disk total enough after inside low
        keeps =
      elim (Bool-cases (ltb w count)) [
        | inr done ↦
            let none : left ≡ 0 = ground arith in
            let same : size + left ≡ size = omega arith in
            let pos : (fd_pos + left) % 2 ^ 32 ≡ fd_pos = omega arith in
            (disk, rw (done, same, pos) refl, Written-none disk size w left none)
        | inl more ↦
            let some_left : 0 < left = ground arith in
            let chunk : ℕ = if ltb left (512 - size % 512) then left else 512 - size % 512 in
            let room : size % 512 + chunk ≤ 512 = ground arith in
            let fits : chunk ≤ left = ground arith in
            let moves : 0 < chunk = ground arith in
            let fills : 0 < left - chunk → (size + chunk) % 512 ≡ 0 = λ h. ground arith in
            let begins : size / 512 < bound = omega (arith, inside, some_left) in
            let (out, run, r) =
              write_loop_lem fuel count false (size + chunk) ((fd_pos + chunk) % 2 ^ 32) (w + chunk)
                (left - chunk) (round first disk size w chunk) (omega (arith, fits))
                (omega (arith, moves)) (omega arith) (omega (arith, fits)) (omega arith)
                (λ e. fills) in
            let same : size + chunk + (left - chunk) ≡ size + left = omega (arith, fits) in
            let pos : ((fd_pos + chunk) % 2 ^ 32 + (left - chunk)) % 2 ^ 32
                ≡ (fd_pos + left) % 2 ^ 32 =
              omega (arith, fits) in
            (
              out,
              rw more (run ∙ rw (same, pos) refl),
              Written-round first disk out size w left chunk room fits after begins
                  (λ e. keeps e some_left) r,
            )
      ]
