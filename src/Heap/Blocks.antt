-- ===== src/Heap/Blocks.antt =====
-- The blocks of an arena: they lie in its page behind its head, they do not overlap, and each leads
-- back to the arena.
use sparrow_os.Base.{
  ℕ, zero, suc, ◌+◌, ◌*◌, ◌%◌, ◌^◌, ◌≤◌, ◌<◌, ◌≡◌, ◌∙◌, refl, sym, ap, inl, inr, false, List, [],
  ◌∷◌, ◌++◌, append_assoc, append-nil, ok, arith, ◌==◌, Bool-cases, has, has-append,
}
use sparrow_os.Heap.{sizeof_arena, arena2block, block2arena, split_loop}

-- An arena that is a page, with room for `n` blocks of a size.
pub record IsArena (a block_size n : ℕ) : Type 0 where
  pub page : a % 4096 ≡ 0
  pub below : a + 4096 ≤ 2 ^ 32
  pub room : sizeof_arena + n * block_size ≤ 4096
  pub some_size : 1 ≤ block_size

grows : (i j s : ℕ) → i < j → i * s + s ≤ j * s
grows i zero s h = absurd (omega arith)
grows i (suc j) s h = elim (Bool-cases (i == j)) [
  | inl e ↦ let same : i ≡ j = ground arith in omega (arith, ap (λ k. k * s) same)
  | inr e ↦ let r = grows i j s (ground arith) in omega arith
]

module _ (a block_size n : ℕ) (is : IsArena a block_size n) where
  open is use {page, below, room, some_size}

  -- A block of the arena lies in its page, behind its head.
  block_at :
      (i : ℕ)
      → i < n
      → (arena2block a block_size i ≡ a + sizeof_arena + i * block_size)
        × (arena2block a block_size i + block_size ≤ a + 4096)
  unfolding arena2block
  block_at i h = (omega (arith, grows i n block_size h), omega (arith, grows i n block_size h))

  -- `block2arena` of any block of an arena is the arena; the block lies in the page of the arena
  -- behind its head, and a later block begins behind its end.
  pub arena2block_lem :
      (i : ℕ)
      → i < n
      → (block2arena (arena2block a block_size i) ≡ a)
        × (a + sizeof_arena ≤ arena2block a block_size i)
        × (arena2block a block_size i + block_size ≤ a + 4096)
        × ((j : ℕ)
            → i < j
            → j < n
            → arena2block a block_size i + block_size ≤ arena2block a block_size j)
  unfolding block2arena
  arena2block_lem i h =
      let (at, inside) = block_at i h in
      (
        omega arith,
        omega arith,
        inside,
        λ j lt hj. omega (arith, block_at j hj, grows i j block_size lt),
      )

  -- The addresses of the blocks from a number on.
  abbrev pub blocks : ℕ → ℕ → List ℕ
  blocks i zero = []
  blocks i (suc left) = arena2block a block_size i ∷ blocks (i + 1) left

  split_step :
      (i left : ℕ) (free : List ℕ)
      → i + left ≤ n
      → ((j : ℕ) → i ≤ j → j < n → has (arena2block a block_size j) free ≡ false)
      → split_loop a block_size i left free ≡ ok (free ++ blocks i left)
  unfolding split_loop
  split_step i zero free h out = ap ok (sym (append-nil free))
  split_step i (suc left) free h out =
      let b = arena2block a block_size i in
      let fresh : has b free ≡ false = out i (omega arith) (omega arith) in
      rw fresh (
        split_step (i + 1) left (free ++ b ∷ []) (omega arith) (λ j lo hi.
          let after = arena2block_lem i (omega arith) in
          let apart : b + block_size ≤ arena2block a block_size j = after.3 j (omega arith) hi in
          ground
            (arith, has-append (arena2block a block_size j) free (b ∷ []), out j (omega arith) hi))
        ∙ ap ok (append_assoc free (b ∷ []) (blocks (i + 1) left)))

  -- Splitting an arena onto an empty list of free blocks fails no assertion, and leaves all the
  -- blocks of the arena in the list, in the order of their addresses.
  pub split_loop_lem : split_loop a block_size 0 n [] ≡ ok (blocks 0 n)
  split_loop_lem = split_step 0 n [] (omega arith) (λ j lo hi. refl)
