-- ===== src/Pipe.antt =====
-- shell/pipe.c: reading and writing a pipe, over its ring of bytes. `pipe_read` and `pipe_write`
-- work on the ring that the descriptor leads to.
pub mod Transfer
pub mod Tests
use sparrow_os.Base.{
  ℕ, zero, suc, ◌-◌, Bool, true, false, Option, none, some, List, [], ◌∷◌, Res, ok, panic, ◌>>=◌,
  ltb, if◌then◌else◌,
}
use sparrow_os.Thread.{Kernel}
use sparrow_os.IoQueue.{IoQueue, bufsize, length, getchar, putchar}

-- How far a transfer came: the bytes moved, and whether the task was switched out before the end.
pub record Moved (A : Type 0) : Type 0 where
  pub bytes : A
  pub finished : Bool
  pub ring : IoQueue
  pub kernel : Kernel

-- `ioq_len > count ? count : ioq_len`
pub smaller : ℕ → ℕ → ℕ
smaller room count = if ltb count room then count else room

cons_byte : ℕ → Moved (List ℕ) → Moved (List ℕ)
cons_byte b m = record m { bytes = b ∷ m.bytes }

count_byte : Moved ℕ → Moved ℕ
count_byte m = record m { bytes = suc m.bytes }

-- The loop of `pipe_read`, for as many rounds as are left.
read_loop : ℕ → IoQueue → Kernel → Res (Moved (List ℕ))
unfolding cons_byte
read_loop zero q k = ok (record { bytes = []; finished = true; ring = q; kernel = k })
read_loop (suc n) q k = do
  (got, q', k') ← getchar q k
  elim got [
    | none ↦ ok (record { bytes = []; finished = false; ring = q'; kernel = k' })
    | some b ↦ read_loop n q' k' >>= λ m. ok (cons_byte b m)
  ]

-- `pipe_read`, with the bytes that it puts in the buffer; their number is what it returns.
pub pipe_read : ℕ → IoQueue → Kernel → Res (Moved (List ℕ))
unfolding smaller
pipe_read count q k = let ioq_len = length q in read_loop (smaller ioq_len count) q k

-- The loop of `pipe_write`, on the bytes of the buffer that are left; a buffer that is shorter than
-- the count ends it.
write_loop : ℕ → List ℕ → IoQueue → Kernel → Res (Moved ℕ)
unfolding count_byte
write_loop zero buffer q k = ok (record { bytes = 0; finished = true; ring = q; kernel = k })
write_loop (suc n) [] q k = panic
write_loop (suc n) (b ∷ buffer) q k = do
  (put, q', k') ← putchar b q k
  elim put [
    | false ↦ ok (record { bytes = 0; finished = false; ring = q'; kernel = k' })
    | true ↦ write_loop n buffer q' k' >>= λ m. ok (count_byte m)
  ]

-- `pipe_write`, with the number of bytes that it has put in the ring.
pub pipe_write : List ℕ → ℕ → IoQueue → Kernel → Res (Moved ℕ)
unfolding smaller
pipe_write buffer count q k =
    let ioq_left = bufsize - length q in write_loop (smaller ioq_left count) buffer q k
