-- ===== src/Strings/Tests.antt =====
-- The string functions on short strings.
use sparrow_os.Base.{ℕ, ◌≡◌, refl, List, [], ◌∷◌, arith}
use sparrow_os.Strings.{less, strcmp, char_gt, last_char}
use sparrow_os.Strings.Compare.{IsText}

abbrev abc : List ℕ
abc = 97 ∷ 98 ∷ 99 ∷ []

abc-IsText : IsText abc
abc-IsText = (
  λ e. omega arith,
  omega arith,
  (λ e. omega arith, omega arith, (λ e. omega arith, omega arith, tt)),
)

signed_chars : strcmp (200 ∷ []) (97 ∷ []) ≡ less
unfolding strcmp last_char char_gt
signed_chars = refl
