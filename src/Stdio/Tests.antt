-- ===== src/Stdio/Tests.antt =====
-- The format "n=%d,%x".
use sparrow_os.Base.{ℕ, ◌-◌, ◌^◌, ◌≡◌, refl, List, [], ◌∷◌, arith, ◌==◌, if◌then◌else◌}
use sparrow_os.Stdio.{vsprintf}
use sparrow_os.Stdio.Digits.{digits_of, numeral, pick}
use sparrow_os.Stdio.Format.{
  Holds, Piece, literal, decimal, hexadecimal, spell, signed, meaning, vsprintf_lem,
}

abbrev pieces : List Piece
pieces = literal 110 ∷ literal 61 ∷ decimal ∷ literal 44 ∷ hexadecimal ∷ []

abbrev words : ℕ → ℕ
words i = if i == 0 then 2 ^ 32 - 42 else 255

-- "n=-42,FF"
minus_42 : meaning (λ a. []) words pieces 0 ≡ 110 ∷ 61 ∷ 45 ∷ 52 ∷ 50 ∷ 44 ∷ 70 ∷ 70 ∷ []
unfolding meaning signed digits_of numeral pick
minus_42 = refl

vsprintf_lem_example :
    Holds (vsprintf (λ a. []) words (spell pieces) (λ i. 0)) (meaning (λ a. []) words pieces 0)
vsprintf_lem_example =
    vsprintf_lem (λ a. []) words pieces (λ i. 0) (omega arith, (omega arith, (omega arith, tt)))
