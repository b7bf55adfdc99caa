-- ===== src/Keyboard/Ring.antt =====
-- The keyboard's interrupt with its ring: it never waits and never fails.
use sparrow_os.Base.{
  ℕ, ◌-◌, ◌<◌, ◌≡◌, refl, ap, inl, inr, Option, none, some, List, [], ◌∷◌, ◌++◌, ok, arith, ◌==◌,
  Bool-cases, if◌then◌else◌,
}
use sparrow_os.Thread.{Kernel}
use sparrow_os.IoQueue.{IoQueue, bufsize, length}
use sparrow_os.IoQueue.Ring.{contents}
use sparrow_os.IoQueue.Effects.{IsIo, putchar_lem, full_lem}
use sparrow_os.Keyboard.{Keys, Decoded, decode, put_char, intr_keyboard_handler}
use sparrow_os.Keyboard.Decode.{keys_after, decode_lem}

-- The bytes of the ring after a character, which is lost where the ring is full.
pub with_char : Option ℕ → IoQueue → List ℕ
with_char none q = contents q
with_char (some c) q = if length q == bufsize - 1 then contents q else contents q ++ c ∷ []

put_char_lem :
    (char : Option ℕ) (q : IoQueue) (s : Kernel)
    → IsIo q s
    → (q' : IoQueue) × (s' : Kernel) × (put_char char q s ≡ ok (q', s'))
      × IsIo q' s'
      × (contents q' ≡ with_char char q)
      × (s'.cur ≡ s.cur)
unfolding put_char with_char
put_char_lem none q s io = (q, s, refl, io, refl, refl)
put_char_lem (some c) q s io = elim (Bool-cases (length q == bufsize - 1)) [
  | inl e ↦ (q, s, rw (full_lem q s io, e) refl, io, rw e refl, refl)
  | inr e ↦
      let (q', s', run, io', left, cur, _, _, _, _) = putchar_lem q s io c (ground arith) in
      (q', s', rw (full_lem q s io, e, run) refl, io', rw e left, cur)
]

-- The keyboard's interrupt returns whatever byte the port gives: the task that was interrupted goes
-- on running, the flags follow the keys, and the ring has one character more, or, where the key
-- has none or the ring is full, the same ones.
pub handler_lem :
    (byte : ℕ) (k : Keys) (q : IoQueue) (s : Kernel)
    → byte < 256
    → IsIo q s
    → (d : Decoded) × (q' : IoQueue) × (s' : Kernel) × (decode byte k ≡ ok d)
      × (intr_keyboard_handler byte k q s ≡ ok (keys_after byte k, q', s'))
      × IsIo q' s'
      × (contents q' ≡ with_char d.char q)
      × (s'.cur ≡ s.cur)
unfolding intr_keyboard_handler
handler_lem byte k q s h io =
    let (d, run, keys) = decode_lem byte k h in
    let (q', s', put, io', left, cur) = put_char_lem d.char q s io in
    (d, q', s', run, rw (run, put) (ap (λ l. ok (l, q', s')) keys), io', left, cur)
