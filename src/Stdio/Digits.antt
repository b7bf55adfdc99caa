-- ===== src/Stdio/Digits.antt =====
-- `itoa` writes the digits of the value, and reading them back gives it.
use sparrow_os.Base.{
  ℕ, zero, suc, ◌+◌, ◌-◌, ◌*◌, ◌/◌, ◌%◌, ◌^◌, ◌<◌, ◌≡◌, ◌∙◌, refl, sym, ap, inl, inr, true, false,
  List, [], ◌∷◌, ◌++◌, arith, ltb, ◌==◌, Bool-cases, if◌then◌else◌,
}
use sparrow_os.Stdio.{Output, put, digit_char, itoa, put_bytes}

-- The numerals, and a place in a list.
abbrev pub numerals : List ℕ
numerals = 48 ∷ 49 ∷ 50 ∷ 51 ∷ 52 ∷ 53 ∷ 54 ∷ 55 ∷ 56 ∷ 57 ∷ 65 ∷ 66 ∷ 67 ∷ 68 ∷ 69 ∷ 70 ∷ []

unfoldable pub pick : List ℕ → ℕ → ℕ
pick [] m = 0
pick (c ∷ cs) m = if m == 0 then c else pick cs (m - 1)

-- The numeral of a digit, in base 16 or below.
unfoldable pub numeral : ℕ → ℕ
numeral m = pick numerals m

-- The digits of a value, the highest first, for a base of two or more.
unfoldable pub digits_of : ℕ → ℕ → ℕ → List ℕ
digits_of zero value base = []
digits_of (suc fuel) value base =
    let rest = digits_of fuel (value / base) base in
    (if value / base == 0 then [] else rest) ++ numeral (value % base) ∷ []

-- Characters that follow one another.
abbrev count_up : ℕ → ℕ → List ℕ
count_up zero c = []
count_up (suc n) c = c ∷ count_up n (c + 1)

pick_up :
    (n c m : ℕ) (rest : List ℕ)
    → pick (count_up n c ++ rest) m ≡ (if ltb m n then c + m else pick rest (m - n))
unfolding pick
pick_up zero c m rest =
    let no : ltb m 0 ≡ false = ground arith in
    let same : m - 0 ≡ m = omega arith in rw (no, same) refl
pick_up (suc n) c m rest = elim (Bool-cases (m == 0)) [
  | inl e ↦ rw e (ground arith)
  | inr e ↦
      rw (e, pick_up n (c + 1) (m - 1) rest)
        (elim (Bool-cases (ltb m (suc n))) [
          | inl lo ↦ let low : ltb (m - 1) n ≡ true = ground arith in rw (lo, low) (ground arith)
          | inr hi ↦
              let high : ltb (m - 1) n ≡ false = ground arith in
              let same : m - 1 - n ≡ m - suc n = omega arith in rw (hi, high, same) refl
        ])
]

digit_char-numeral : (m : ℕ) → m < 16 → digit_char m ≡ numeral m
unfolding digit_char numeral
digit_char-numeral m h =
    let letters = pick_up 6 65 (m - 10) [] in
    sym (pick_up 10 48 m (count_up 6 65) ∙ ground (arith, letters))

-- The value that a digit stands for, and that of a string of digits.
pub digit_value : ℕ → ℕ
digit_value c = if ltb c 65 then c - 48 else c - 65 + 10

pub read_number : ℕ → ℕ → List ℕ → ℕ
unfolding digit_value
read_number base sum [] = sum
read_number base sum (c ∷ s) = read_number base (sum * base + digit_value c) s

pub put-append : (s t : List ℕ) (o : Output) → put_bytes (s ++ t) o ≡ put_bytes t (put_bytes s o)
unfolding put_bytes
put-append [] t o = refl
put-append (c ∷ s) t o = put-append s t (put c o)

-- What is used of a base: its division.
pub record IsBase (base : ℕ) : Type 0 where
  pub split : (v : ℕ) → v / base * base + v % base ≡ v
  pub rem : (v : ℕ) → v % base < 16
  pub halves : (v n : ℕ) → v < n + n → v / base < n

pub ten : IsBase 10
ten = record { split = λ v. omega arith; rem = λ v. omega arith; halves = λ v n h. omega arith }

pub sixteen : IsBase 16
sixteen = record { split = λ v. omega arith; rem = λ v. omega arith; halves = λ v n h. omega arith }

pub itoa-digits :
    (fuel value base : ℕ)
    → IsBase base
    → (o : Output) → itoa fuel value base o ≡ put_bytes (digits_of fuel value base) o
unfolding itoa put_bytes digits_of
itoa-digits zero value base b = λ o. refl
itoa-digits (suc fuel) value base b = λ o. elim (Bool-cases (value / base == 0)) [
  | inl e ↦ rw (e, digit_char-numeral (value % base) (b.rem value)) refl
  | inr e ↦
      let c = numeral (value % base) in
      rw
        (
          e,
          digit_char-numeral (value % base) (b.rem value),
          itoa-digits fuel (value / base) base b o,
        )
        (sym (put-append (digits_of fuel (value / base) base) (c ∷ []) o))
]

read-append :
    (base sum : ℕ) (s t : List ℕ)
    → read_number base sum (s ++ t) ≡ read_number base (read_number base sum s) t
unfolding read_number
read-append base sum [] t = refl
read-append base sum (c ∷ s) t = read-append base (sum * base + digit_value c) s t

digit_back : (m : ℕ) → m < 16 → digit_value (numeral m) ≡ m
unfolding digit_value digit_char
digit_back m h = ap digit_value (sym (digit_char-numeral m h)) ∙ ground arith

double : (n : ℕ) → 2 ^ suc n ≡ 2 ^ n + 2 ^ n
double n = omega arith

last_digit :
    (fuel value base : ℕ)
    → IsBase base
    → (ds : List ℕ) → read_number base 0 ds ≡ value / base
    → read_number base 0 (ds ++ numeral (value % base) ∷ []) ≡ value
unfolding read_number
last_digit fuel value base b ds e =
    read-append base 0 ds (numeral (value % base) ∷ [])
    ∙ ap (λ x. x * base + digit_value (numeral (value % base))) e
    ∙ ap (λ x. value / base * base + x) (digit_back (value % base) (b.rem value))
    ∙ b.split value

-- With a digit for every binary digit of the value, `itoa` comes to the end of it.
digits-read :
    (fuel value base : ℕ)
    → IsBase base
    → value < 2 ^ fuel
    → read_number base 0 (digits_of fuel value base) ≡ value
unfolding digits_of read_number
digits-read zero value base b h = omega arith
digits-read (suc fuel) value base b h = elim (Bool-cases (value / base == 0)) [
  | inl e ↦ rw e (last_digit fuel value base b [] (ground arith))
  | inr e ↦ rw e (
      last_digit fuel value base b (digits_of fuel (value / base) base) (
        digits-read fuel (value / base) base b
          (b.halves value (2 ^ fuel) (omega (arith, double fuel)))))
]

-- The value is below 2 ^ 32, so the 32 rounds of fuel are enough. `itoa` appends digits, and reading
-- them in the same base, 10 or 16, gives the value.
pub itoa_lem :
    (value : ℕ) (o : Output)
    → value < 2 ^ 32
    → ((ds : List ℕ) × (itoa 32 value 10 o ≡ put_bytes ds o) × (read_number 10 0 ds ≡ value))
      × ((ds : List ℕ) × (itoa 32 value 16 o ≡ put_bytes ds o) × (read_number 16 0 ds ≡ value))
itoa_lem value o h = (
  (digits_of 32 value 10, itoa-digits 32 value 10 ten o, digits-read 32 value 10 ten h),
  (digits_of 32 value 16, itoa-digits 32 value 16 sixteen o, digits-read 32 value 16 sixteen h),
)
