-- ===== src/Stdio.antt =====
-- lib/stdio.c: `itoa` and `vsprintf`, which write to a buffer. Strings are lists of bytes without
-- the 0 that ends them; the arguments are the words of the stack behind the format.
pub mod Digits
pub mod Format
mod Tests
use sparrow_os.Base.{
  ℕ, zero, suc, ◌+◌, ◌-◌, ◌*◌, ◌/◌, ◌%◌, ◌^◌, Bool, true, false, Option, none, some, List, [], ◌∷◌,
  ltb, leb, ◌==◌, if◌then◌else◌, update,
}

-- The memory of the buffer and the place where the next byte goes.
pub record Output : Type 0 where
  pub buf : ℕ → ℕ
  pub pos : ℕ

-- `*(buf_ptr++) = c`
pub put : ℕ → Output → Output
put c o = record { buf = update o.buf o.pos c; pos = o.pos + 1 }

-- The character of a digit.
pub digit_char : ℕ → ℕ
digit_char m = if ltb m 10 then m + 48 else m - 10 + 65

-- `itoa`, for as many digits as the fuel allows.
pub itoa : ℕ → ℕ → ℕ → Output → Output
unfolding put digit_char
itoa zero value base o = o
itoa (suc fuel) value base o =
    let m = value % base in
    let i = value / base in
    let higher = itoa fuel i base o in put (digit_char m) (if i == 0 then o else higher)

-- `strcpy` to the place, with the 0 behind the string, and the step over the string.
pub put_bytes : List ℕ → Output → Output
unfolding put
put_bytes [] o = o
put_bytes (c ∷ s) o = put_bytes s (put c o)

pub put_string : List ℕ → Output → Output
unfolding put_bytes
put_string s o = let o' = put_bytes s o in record o' { buf = update o'.buf o'.pos 0 }

-- The sign of `%d`.
pub put_int : ℕ → Output → Output
unfolding put itoa
put_int arg_int o =
    if leb (2 ^ 31) arg_int then itoa 32 (2 ^ 32 - arg_int) 10 (put 45 o) else itoa 32 arg_int 10 o

-- One directive: the character behind `%`, the word that it takes, and the string that a pointer
-- leads to. `none` for a character that is no directive.
pub directive : (ℕ → List ℕ) → ℕ → ℕ → Output → Option Output
unfolding put itoa put_string put_int
directive string_at c arg o =
    if c == 115
    then some (put_string (string_at arg) o)
    else if c == 99
    then some (put (arg % 256) o)
    else if c == 100
    then some (put_int arg o)
    else if c == 120
    then some (itoa 32 arg 16 o)
    else none

-- A case for a directive, and one for none.
abbrev pub on_some : {A B : Type 0} → Option A → (A → B) → B → B
on_some (some a) f other = f a
on_some none f other = other

-- The loop of `vsprintf`, on what is left of the format, the number of arguments taken, and what is
-- written. A `%` is followed by the directive; where there is none, the character behind it is
-- read as a character of the format again.
pub format_loop : (ℕ → List ℕ) → (ℕ → ℕ) → Bool → List ℕ → ℕ → Output → Output
unfolding put
format_loop string_at arg percent [] taken o = o
format_loop string_at arg true (c ∷ format) taken o =
    let again = format_loop string_at arg true format taken o in
    let plain = format_loop string_at arg false format taken (put c o) in
    on_some (directive string_at c (arg taken) o)
      (λ o'. format_loop string_at arg false format (taken + 1) o')
      (if c == 37 then again else plain)
format_loop string_at arg false (c ∷ format) taken o =
    let again = format_loop string_at arg true format taken o in
    let plain = format_loop string_at arg false format taken (put c o) in
    if c == 37 then again else plain

-- `vsprintf` into a buffer at its start, up to its result: that is `strlen(str)`, which reads the
-- buffer up to its first 0 and is not modelled. `vsprintf` itself puts a 0 only behind a string.
pub vsprintf : (ℕ → List ℕ) → (ℕ → ℕ) → List ℕ → (ℕ → ℕ) → Output
unfolding format_loop
vsprintf string_at arg format str =
    format_loop string_at arg false format 0 (record { buf = str; pos = 0 })
