-- ===== src/Pipe/Transfer.antt =====
-- What `pipe_read` and `pipe_write` move, and when a write sleeps on a full ring.
use sparrow_os.Base.{
  ℕ, zero, suc, ◌+◌, ◌-◌, ◌%◌, ◌<◌, ◌≤◌, ◌≡◌, refl, sym, ◌≢◌, ◌∙◌, ap, true, false, none, some,
  List, [], ◌∷◌, ◌++◌, append_assoc, append-nil, subst, Res, ok, panic, arith, ltb, ◌==◌,
  if◌then◌else◌, ◌>>=◌,
}
use sparrow_os.Base.{Bool}
use sparrow_os.Base as Base
use sparrow_os.TaskStatus.{blocked}
use sparrow_os.Thread.{Kernel}
use sparrow_os.IoQueue.{IoQueue, bufsize, length, getchar, putchar}
use sparrow_os.IoQueue.Ring.{contents, window}
use sparrow_os.IoQueue.Effects.{IsIo, getchar_lem, putchar_lem, putchar_alone, putchar_full}
use sparrow_os.Sync.Lock.{IsLock}
use sparrow_os.Pipe.{
  Moved, smaller, cons_byte, count_byte, read_loop, pipe_read, write_loop, pipe_write,
}

-- The ring is as long as what it holds.
length-window : (buf : ℕ → ℕ) (n i : ℕ) → Base.length (window buf i n) ≡ n
length-window buf zero i = refl
length-window buf (suc n) i = ap suc (length-window buf n ((i + 1) % bufsize))

read_step :
    (n b : ℕ) (q q' : IoQueue) (k k' : Kernel) (m : Moved (List ℕ))
    → getchar q k ≡ ok (some b, q', k')
    → read_loop n q' k' ≡ ok m
    → read_loop (suc n) q k ≡ ok (cons_byte b m)
unfolding read_loop
read_step n b q q' k k' m e r = rw (e, r)

-- Reading bytes that are there: they come in order, and the rest stays.
read_loop_lem :
    (xs ys : List ℕ) (q : IoQueue) (k : Kernel)
    → IsIo q k
    → contents q ≡ xs ++ ys
    → (m : Moved (List ℕ)) × (read_loop (Base.length xs) q k ≡ ok m)
      × (m.bytes ≡ xs)
      × (m.finished ≡ true)
      × IsIo m.ring m.kernel
      × (contents m.ring ≡ ys)
      × (m.kernel.cur ≡ k.cur)
unfolding read_loop cons_byte
read_loop_lem [] ys q k is e = (_, refl, refl, refl, is, e, refl)
read_loop_lem (x ∷ xs) ys q k is e =
    let (q', k', run, is', left, cur, _, _, _) = getchar_lem q k is x (xs ++ ys) e in
    let (m, rest, bytes, done, is'', tail, cur') = read_loop_lem xs ys q' k' is' left in
    (
      cons_byte x m,
      read_step (Base.length xs) x q q' k k' m run rest,
      ap (λ l. x ∷ l) bytes,
      done,
      is'',
      tail,
      cur' ∙ cur,
    )

write_step :
    (n b : ℕ) (bs : List ℕ) (q q' : IoQueue) (k k' : Kernel) (m : Moved ℕ)
    → putchar b q k ≡ ok (true, q', k')
    → write_loop n bs q' k' ≡ ok m
    → write_loop (suc n) (b ∷ bs) q k ≡ ok (count_byte m)
unfolding write_loop
write_step n b bs q q' k k' m e r = rw (e, r)

length-contents : (q : IoQueue) → Base.length (contents q) ≡ length q
length-contents q = length-window q.buf (length q) q.tail

write_loop_lem :
    (xs ys : List ℕ) (q : IoQueue) (k : Kernel)
    → IsIo q k
    → length q + Base.length xs < bufsize
    → (m : Moved ℕ) × (write_loop (Base.length xs) (xs ++ ys) q k ≡ ok m)
      × (m.bytes ≡ Base.length xs)
      × (m.finished ≡ true)
      × IsIo m.ring m.kernel
      × (contents m.ring ≡ contents q ++ xs)
      × (m.kernel.cur ≡ k.cur)
unfolding write_loop count_byte
write_loop_lem [] ys q k is e = (_, refl, refl, refl, is, sym (append-nil (contents q)), refl)
write_loop_lem (x ∷ xs) ys q k is e =
    let (q', k', run, is', left, cur, _, _, _, _) = putchar_lem q k is x (omega arith) in
    let more : length q' ≡ suc (length q) =
      sym (length-contents q')
      ∙ ap Base.length left
      ∙ Base.length-append (contents q) (x ∷ [])
      ∙ omega (arith, length-contents q) in
    let (m, rest, bytes, done, is'', tail, cur') = write_loop_lem xs ys q' k' is' (omega arith) in
    (
      count_byte m,
      write_step (Base.length xs) x (xs ++ ys) q q' k k' m run rest,
      ap suc bytes,
      done,
      is'',
      tail ∙ ap (λ l. l ++ xs) left ∙ append_assoc (contents q) (x ∷ []) xs,
      cur' ∙ cur,
    )

-- A list in two parts at a length that it has.
split_at :
    (n : ℕ) (bs : List ℕ)
    → n ≤ Base.length bs
    → (xs : List ℕ) × (ys : List ℕ) × (bs ≡ xs ++ ys) × (Base.length xs ≡ n)
split_at zero bs h = ([], bs, refl, refl)
split_at (suc n) [] h = absurd (omega arith)
split_at (suc n) (b ∷ bs) h =
    let (xs, ys, e, l) = split_at n bs (omega arith) in (b ∷ xs, ys, ap (λ l. b ∷ l) e, ap suc l)

-- `pipe_read` returns without waiting. It takes the oldest bytes, as many as asked for or all that
-- there are, in their order, and leaves the others in the ring.
pub pipe_read_lem :
    (count : ℕ) (q : IoQueue) (k : Kernel)
    → IsIo q k
    → (m : Moved (List ℕ)) × (pipe_read count q k ≡ ok m)
      × (m.finished ≡ true)
      × (Base.length m.bytes ≡ (if ltb count (length q) then count else length q))
      × (contents q ≡ m.bytes ++ contents m.ring)
      × IsIo m.ring m.kernel
      × (m.kernel.cur ≡ k.cur)
unfolding pipe_read smaller
pipe_read_lem count q k is =
    let n = if ltb count (length q) then count else length q in
    let (xs, ys, e, l) = split_at n (contents q) (ground (arith, length-contents q)) in
    let (m, run, bytes, done, is', left, cur) = read_loop_lem xs ys q k is e in
    (
      m,
      ap (λ i. read_loop i q k) (sym l) ∙ run,
      done,
      ap Base.length bytes ∙ l,
      cc (e, bytes, left),
      is',
      cur,
    )

-- `pipe_write` of a buffer whose `count` bytes leave a byte of the ring free returns without
-- waiting: all of them are in the ring, in order behind the others, and it returns `count`.
pub pipe_write_lem :
    (xs ys : List ℕ) (q : IoQueue) (k : Kernel)
    → IsIo q k
    → length q + Base.length xs < bufsize
    → (m : Moved ℕ) × (pipe_write (xs ++ ys) (Base.length xs) q k ≡ ok m)
      × (m.finished ≡ true)
      × (m.bytes ≡ Base.length xs)
      × (contents m.ring ≡ contents q ++ xs)
      × IsIo m.ring m.kernel
      × (m.kernel.cur ≡ k.cur)
unfolding pipe_write smaller
pipe_write_lem xs ys q k is room =
    let (m, run, bytes, done, is', left, cur) = write_loop_lem xs ys q k is room in
    let all : smaller (bufsize - length q) (Base.length xs) ≡ Base.length xs = ground arith in
    (m, ap (λ i. write_loop i (xs ++ ys) q k) all ∙ run, done, bytes, left, is', cur)

write_stop :
    (n b : ℕ) (bs : List ℕ) (q q' : IoQueue) (k k' : Kernel)
    → putchar b q k ≡ ok (false, q', k')
    → write_loop (suc n) (b ∷ bs) q k
      ≡ ok (record { bytes = 0; finished = false; ring = q'; kernel = k' })
unfolding write_loop
write_stop n b bs q q' k k' e = rw (e) refl

-- A write that fills the ring and has a byte more to put.
write_loop_full :
    (xs : List ℕ) (b : ℕ) (ys : List ℕ) (q : IoQueue) (k : Kernel)
    → IsIo q k
    → IsLock q.lock k
    → q.lock.holder ≡ none
    → k.cur ≢ k.idle_thread
    → q.producer ≡ none
    → q.consumer ≡ none
    → length q + Base.length xs ≡ bufsize - 1
    → (m : Moved ℕ) × (write_loop (suc (Base.length xs)) (xs ++ b ∷ ys) q k ≡ ok m)
      × (m.finished ≡ false)
      × (m.bytes ≡ Base.length xs)
      × (contents m.ring ≡ contents q ++ xs)
      × ((m.kernel.task k.cur).status ≡ blocked)
unfolding count_byte
write_loop_full [] b ys q k is lock free busy p c e =
    let (q', k', run, same, _, _, status) = putchar_full q k is lock free busy p b (omega arith) in
    (_, write_stop 0 b ys q q' k k' run, refl, refl, same ∙ sym (append-nil (contents q)), status)
write_loop_full (x ∷ xs) b ys q k is lock free busy p c e =
    let (q', run, is', left, c', p', l') = putchar_alone q k is x (omega arith) c in
    let more : length q' ≡ suc (length q) =
      sym (length-contents q')
      ∙ ap Base.length left
      ∙ Base.length-append (contents q) (x ∷ [])
      ∙ omega (arith, length-contents q) in
    let lock' : IsLock q'.lock k = subst (λ l. IsLock l k) (sym l') lock in
    let (m, rest, done, bytes, tail, status) =
      write_loop_full xs b ys q' k is' lock' (ap (λ l. l.holder) l' ∙ free) busy (p' ∙ p) c'
        (omega arith) in
    (
      count_byte m,
      write_step (suc (Base.length xs)) x (xs ++ b ∷ ys) q q' k k m run rest,
      done,
      ap suc bytes,
      tail ∙ ap (λ l. l ++ xs) left ∙ append_assoc (contents q) (x ∷ []) xs,
      status,
    )

-- `pipe_write` of more bytes than the ring has room for, with no task waiting and the lock free:
-- it fills the ring and then sleeps on it, since it takes the room for a byte more than it is.
pub pipe_write_sleeps :
    (xs : List ℕ) (b : ℕ) (ys : List ℕ) (count : ℕ) (q : IoQueue) (k : Kernel)
    → IsIo q k
    → IsLock q.lock k
    → q.lock.holder ≡ none
    → k.cur ≢ k.idle_thread
    → q.producer ≡ none
    → q.consumer ≡ none
    → length q + Base.length xs ≡ bufsize - 1
    → Base.length xs < count
    → (m : Moved ℕ) × (pipe_write (xs ++ b ∷ ys) count q k ≡ ok m)
      × (m.finished ≡ false)
      × (m.bytes ≡ Base.length xs)
      × (contents m.ring ≡ contents q ++ xs)
      × ((m.kernel.task k.cur).status ≡ blocked)
unfolding pipe_write
pipe_write_sleeps xs b ys count q k is lock free busy p c e more =
    let (m, run, done, bytes, left, status) = write_loop_full xs b ys q k is lock free busy p c e in
    let size : smaller (bufsize - length q) count ≡ suc (Base.length xs) =
      unfold smaller in ground arith in
    (m, ap (λ i. write_loop i (xs ++ b ∷ ys) q k) size ∙ run, done, bytes, left, status)
