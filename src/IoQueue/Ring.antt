-- ===== src/IoQueue/Ring.antt =====
-- The ring as the sequence of bytes that it holds.
use sparrow_os.Base.{
  ℕ, zero, suc, ◌+◌, ◌-◌, ◌%◌, ◌<◌, ◌≡◌, ◌≢◌, ◌∙◌, ap, List, [], ◌∷◌, ◌++◌, arith, ◌==◌, update,
}
use sparrow_os.IoQueue.{IoQueue, bufsize, next_pos, span, length}

-- The `n` bytes from position `i` on.
abbrev pub window : (ℕ → ℕ) → ℕ → ℕ → List ℕ
window buf i zero = []
window buf i (suc n) = buf i ∷ window buf ((i + 1) % bufsize) n

abbrev pub contents : IoQueue → List ℕ
contents q = window q.buf q.tail (length q)

-- Head and tail lie in the buffer.
pub record IsRing (q : IoQueue) : Type 0 where
  pub head_in : q.head < bufsize
  pub tail_in : q.tail < bufsize

-- A position from which `n` steps do not come round.
window-update :
    (buf : ℕ → ℕ) (b j n i : ℕ)
    → i < bufsize
    → j < bufsize
    → n < bufsize
    → j ≡ (i + n) % bufsize
    → window (update buf j b) i (suc n) ≡ window buf i n ++ b ∷ []
window-update buf b j zero i hi hj hn e = ground arith
window-update buf b j (suc n) i hi hj hn e =
    let apart : j ≢ i = omega arith in
    ground (
      arith,
      window-update buf b j n ((i + 1) % bufsize) (omega arith) hj (omega arith) (omega arith),
    )

module _ (q : IoQueue) (ring : IsRing q) where
  pub length-lt : length q < bufsize
  unfolding span
  length-lt = ground arith

  -- The ring is full at 2047 bytes, and empty at none.
  pub full_iff : (next_pos q.head == q.tail) ≡ (length q == bufsize - 1)
  unfolding span next_pos
  full_iff = ground arith

  pub empty_iff : (q.tail == q.head) ≡ (length q == 0)
  unfolding span
  empty_iff = ground arith

  length-put :
      (b : ℕ)
      → length q ≢ bufsize - 1
      → length (record q { buf = update q.buf q.head b; head = next_pos q.head }) ≡ suc (length q)
  unfolding span next_pos
  length-put b room = ground arith

  head_at : q.head ≡ (q.tail + length q) % bufsize
  unfolding span
  head_at = ground arith

  length-take : length q ≢ 0 → length q ≡ suc (length (record q { tail = next_pos q.tail }))
  unfolding span next_pos
  length-take some = ground arith

  -- A byte at the head makes the contents longer by that byte, if the ring is not full.
  pub contents-put :
      (b : ℕ)
      → length q ≢ bufsize - 1
      → contents (record q { buf = update q.buf q.head b; head = next_pos q.head })
        ≡ contents q ++ b ∷ []
  contents-put b room =
      ap (window (update q.buf q.head b) q.tail) (length-put b room)
      ∙ window-update q.buf b q.head (length q) q.tail ring.tail_in ring.head_in length-lt head_at

  -- Taking the byte at the tail leaves the others.
  pub contents-take :
      length q ≢ 0 → contents q ≡ q.buf q.tail ∷ contents (record q { tail = next_pos q.tail })
  unfolding next_pos
  contents-take some = ap (window q.buf q.tail) (length-take some)
