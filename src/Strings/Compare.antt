-- ===== src/Strings/Compare.antt =====
-- `strcmp` and `memcmp` as orders.
use sparrow_os.Base.{
  ℕ, ◌<◌, ◌≡◌, ◌≢◌, refl, sym, inl, inr, true, false, List, [], ◌∷◌, arith, ◌==◌, Bool-cases,
}
use sparrow_os.Strings.{Sign, less, same, more, char_gt, last_char, strcmp}

-- The bytes of a string are not 0 and fit in a byte.
abbrev pub IsText : List ℕ → Type 0
IsText [] = Unit
IsText (c ∷ s) = (c ≢ 0) × (c < 256) × IsText s

abbrev pub opposite : Sign → Sign
opposite less = more
opposite same = same
opposite more = less

last_same : (a b : ℕ) → a < 256 → b < 256 → last_char a b ≡ same → a ≡ b
unfolding last_char char_gt
last_same a b ha hb e = ground arith

last_turn : (a b : ℕ) → last_char b a ≡ opposite (last_char a b)
unfolding last_char char_gt
last_turn a b = ground arith

-- `strcmp` returns 0 for equal strings only.
pub strcmp-same : (s t : List ℕ) → IsText s → IsText t → strcmp s t ≡ same → s ≡ t
unfolding strcmp
strcmp-same [] [] hs ht e = refl
strcmp-same [] (b ∷ t) hs ht e = absurd (ht.0 (sym (last_same 0 b (omega arith) ht.1 e)))
strcmp-same (a ∷ s) [] hs ht e = absurd (hs.0 (last_same a 0 hs.1 (omega arith) e))
strcmp-same (a ∷ s) (b ∷ t) hs ht e = elim (Bool-cases (a == b)) [
  | inl h ↦ let here : a ≡ b = ground arith in cc (here, strcmp-same s t hs.2 ht.2 (ground arith))
  | inr h ↦ let here : a ≡ b = last_same a b hs.1 ht.1 (ground arith) in absurd (ground arith)
]

-- Exchanging the strings turns the sign of `strcmp`.
pub strcmp_turn : (s t : List ℕ) → strcmp t s ≡ opposite (strcmp s t)
unfolding strcmp
strcmp_turn [] [] = last_turn 0 0
strcmp_turn [] (b ∷ t) = last_turn 0 b
strcmp_turn (a ∷ s) [] = last_turn a 0
strcmp_turn (a ∷ s) (b ∷ t) = elim (Bool-cases (a == b)) [
  | inl e ↦ let f : (b == a) ≡ true = ground arith in rw (e, f) (strcmp_turn s t)
  | inr e ↦ let f : (b == a) ≡ false = ground arith in rw (e, f) (last_turn a b)
]
