-- ===== src/Stdio/Format.antt =====
-- `vsprintf` writes what a pure reading of the format says.
use sparrow_os.Base.{
  ℕ, zero, suc, ◌+◌, ◌-◌, ◌%◌, ◌^◌, ◌<◌, ◌≡◌, ◌≢◌, ◌∙◌, refl, sym, ap, subst, ◌⊎◌, inl, inr, Bool,
  true, false, Option, none, some, List, [], ◌∷◌, ◌++◌, append_assoc, append-nil, arith, ltb, leb,
  ◌==◌, Bool-cases, if◌then◌else◌, length, length-append, get_elem?,
}
use sparrow_os.Stdio.{
  Output, put, put_bytes, put_string, put_int, directive, on_some, format_loop, vsprintf,
}
use sparrow_os.Stdio.Digits.{digits_of, itoa-digits, ten, sixteen}

-- The text of one directive.
unfoldable pub text_of : (ℕ → List ℕ) → ℕ → ℕ → Option (List ℕ)
text_of string_at c arg =
    if c == 115
    then some (string_at arg)
    else if c == 99
    then some (arg % 256 ∷ [])
    else if c == 100
    then some
        (if leb (2 ^ 31) arg then 45 ∷ digits_of 32 (2 ^ 32 - arg) 10 else digits_of 32 arg 10)
    else if c == 120
    then some (digits_of 32 arg 16)
    else none

-- The text of a format.
unfoldable pub render : (ℕ → List ℕ) → (ℕ → ℕ) → Bool → List ℕ → ℕ → List ℕ
render string_at arg percent [] taken = []
render string_at arg true (c ∷ format) taken =
    let again = render string_at arg true format taken in
    let plain = render string_at arg false format taken in
    on_some (text_of string_at c (arg taken))
      (λ text. text ++ render string_at arg false format (taken + 1))
      (if c == 37 then again else c ∷ plain)
render string_at arg false (c ∷ format) taken =
    let again = render string_at arg true format taken in
    let plain = render string_at arg false format taken in if c == 37 then again else c ∷ plain

-- The buffer holds these bytes from its start, and the next one goes behind them.
pub record Holds (o : Output) (l : List ℕ) : Type 0 where
  pub at : o.pos ≡ length l
  pub bytes : (i : ℕ) → i < length l → get_elem? l i ≡ some (o.buf i)

get_elem?-front : (l m : List ℕ) (i : ℕ) → i < length l → get_elem? (l ++ m) i ≡ get_elem? l i
get_elem?-front [] m i h = absurd (omega arith)
get_elem?-front (x ∷ l) m zero h = refl
get_elem?-front (x ∷ l) m (suc i) h = get_elem?-front l m i (omega arith)

get_elem?-next : (l : List ℕ) (c : ℕ) → get_elem? (l ++ c ∷ []) (length l) ≡ some c
get_elem?-next [] c = refl
get_elem?-next (x ∷ l) c = get_elem?-next l c

put-Holds : (c : ℕ) (o : Output) (l : List ℕ) → Holds o l → Holds (put c o) (l ++ c ∷ [])
unfolding put
put-Holds c o l h = record {
  at = omega (arith, h.at, length-append l (c ∷ []));
  bytes = λ i p. elim (Bool-cases (o.pos == i)) [
    | inl e ↦
        let here : i ≡ length l = ground (arith, h.at) in
        ap (get_elem? (l ++ c ∷ [])) here ∙ get_elem?-next l c ∙ rw e refl
    | inr e ↦
        let less : i < length l = ground (arith, h.at, length-append l (c ∷ [])) in
        get_elem?-front l (c ∷ []) i less ∙ h.bytes i less ∙ rw e refl
  ];
}

put_bytes-Holds :
    (s : List ℕ) (o : Output) (l : List ℕ) → Holds o l → Holds (put_bytes s o) (l ++ s)
unfolding put_bytes
put_bytes-Holds [] o l h = subst (Holds o) (sym (append-nil l)) h
put_bytes-Holds (c ∷ s) o l h =
    subst (Holds (put_bytes s (put c o))) (append_assoc l (c ∷ []) s)
      (put_bytes-Holds s (put c o) (l ++ c ∷ []) (put-Holds c o l h))

put_string-Holds :
    (s : List ℕ) (o : Output) (l : List ℕ) → Holds o l → Holds (put_string s o) (l ++ s)
unfolding put_string
put_string-Holds s o l h =
    let r = put_bytes-Holds s o l h in
    record { at = r.at; bytes = λ i p. r.bytes i p ∙ ap some (ground (arith, r.at)) }

put_int-bytes :
    (a : ℕ) (o : Output)
    → put_int a o
      ≡ put_bytes
          (if leb (2 ^ 31) a then 45 ∷ digits_of 32 (2 ^ 32 - a) 10 else digits_of 32 a 10)
          o
unfolding put_int put_bytes
put_int-bytes a o = elim (Bool-cases (leb (2 ^ 31) a)) [
  | inl e ↦ rw e (itoa-digits 32 (2 ^ 32 - a) 10 ten (put 45 o))
  | inr e ↦ rw e (itoa-digits 32 a 10 ten o)
]

-- What a directive writes, or that it is none.
abbrev Wrote : Output → List ℕ → Option Output → Option (List ℕ) → Type 0
Wrote o l (some o') (some text) = Holds o' (l ++ text)
Wrote o l none none = Unit
Wrote o l (some o') none = ⊥
Wrote o l none (some text) = ⊥

directive_lem :
    (sa : ℕ → List ℕ) (c arg : ℕ) (o : Output) (l : List ℕ)
    → Holds o l
    → Wrote o l (directive sa c arg o) (text_of sa c arg)
unfolding directive text_of
directive_lem sa c arg o l h = elim (Bool-cases (c == 115)) [
  | inl e ↦ rw e (put_string-Holds (sa arg) o l h)
  | inr e ↦ elim (Bool-cases (c == 99)) [
    | inl f ↦ rw (e, f) (put-Holds (arg % 256) o l h)
    | inr f ↦ elim (Bool-cases (c == 100)) [
      | inl g ↦ rw (e, f, g, put_int-bytes arg o) (put_bytes-Holds _ o l h)
      | inr g ↦ elim (Bool-cases (c == 120)) [
        | inl x ↦ rw (e, f, g, x, itoa-digits 32 arg 16 sixteen o) (put_bytes-Holds _ o l h)
        | inr x ↦ rw (e, f, g, x) tt
      ]
    ]
  ]
]

module _ (sa : ℕ → List ℕ) (arg : ℕ → ℕ) where
  plain_char :
      (c : ℕ) (rest : List ℕ) (o o' : Output) (l : List ℕ)
      → Holds o' ((l ++ c ∷ []) ++ rest)
      → Holds o' (l ++ c ∷ rest)
  plain_char c rest o o' l h = subst (Holds o') (append_assoc l (c ∷ []) rest) h

  -- What is known of the rest of a format.
  abbrev Rest : Bool → List ℕ → ℕ → Type 0
  Rest percent format taken =
      (o : Output) (l : List ℕ)
      → Holds o l
      → Holds (format_loop sa arg percent format taken o) (l ++ render sa arg percent format taken)

  unknown :
      (c : ℕ) (format : List ℕ) (taken : ℕ)
      → Rest true format taken
      → Rest false format taken
      → (o : Output) (l : List ℕ) → Holds o l
      → ((c == 37) ≡ true) ⊎ ((c == 37) ≡ false)
      → Holds
          (if c == 37
            then format_loop sa arg true format taken o
            else format_loop sa arg false format taken (put c o))
          (l
            ++ (if c == 37
                then render sa arg true format taken
                else c ∷ render sa arg false format taken))
  unknown c format taken again plain o l h (inl g) = rw g (again o l h)
  unknown c format taken again plain o l h (inr g) =
      rw g (plain_char c _ o _ l (plain (put c o) (l ++ c ∷ []) (put-Holds c o l h)))

  after_percent :
      (c : ℕ) (format : List ℕ) (taken : ℕ)
      → Rest false format (taken + 1)
      → Rest true format taken
      → Rest false format taken
      → (o : Output) (l : List ℕ) → Holds o l
      → (d : Option Output) (t : Option (List ℕ)) → Wrote o l d t
      → Holds
          (on_some d
            (λ o'. format_loop sa arg false format (taken + 1) o')
            (if c == 37
              then format_loop sa arg true format taken o
              else format_loop sa arg false format taken (put c o)))
          (l
            ++ on_some t
                (λ text. text ++ render sa arg false format (taken + 1))
                (if c == 37
                  then render sa arg true format taken
                  else c ∷ render sa arg false format taken))
  after_percent c format taken used again plain o l h (some o') (some text) w =
      subst (Holds _) (append_assoc l text _) (used o' (l ++ text) w)
  after_percent c format taken used again plain o l h none none w =
      unknown c format taken again plain o l h (Bool-cases (c == 37))
  after_percent c format taken used again plain o l h (some o') none w = absurd w
  after_percent c format taken used again plain o l h none (some text) w = absurd w

  format_loop_lem : (percent : Bool) (format : List ℕ) (taken : ℕ) → Rest percent format taken
  unfolding format_loop render
  format_loop_lem percent [] taken o l h = subst (Holds o) (sym (append-nil l)) h
  format_loop_lem false (c ∷ format) taken o l h = elim (Bool-cases (c == 37)) [
    | inl e ↦ rw e (format_loop_lem true format taken o l h)
    | inr e ↦ rw e (
        plain_char c _ o _ l
          (format_loop_lem false format taken (put c o) (l ++ c ∷ []) (put-Holds c o l h)))
  ]
  format_loop_lem true (c ∷ format) taken o l h =
      after_percent c format taken (format_loop_lem false format (taken + 1))
        (format_loop_lem true format taken) (format_loop_lem false format taken) o l h
        (directive sa c (arg taken) o) (text_of sa c (arg taken))
        (directive_lem sa c (arg taken) o l h)

  vsprintf-render :
      (format : List ℕ) (str : ℕ → ℕ)
      → Holds (vsprintf sa arg format str) (render sa arg false format 0)
  unfolding vsprintf
  vsprintf-render format str =
      format_loop_lem false format 0 (record { buf = str; pos = 0 }) []
        (record { at = refl; bytes = λ i h. absurd (omega arith) })

-- The pieces of a format: a character, and the directives.
pub data Piece : Type 0 where
  literal : ℕ → Piece
  string character decimal hexadecimal : Piece

-- The characters are none that begins a directive.
abbrev pub IsPlain : List Piece → Type 0
IsPlain [] = Unit
IsPlain (literal c ∷ ps) = (c ≢ 37) × IsPlain ps
IsPlain (string ∷ ps) = IsPlain ps
IsPlain (character ∷ ps) = IsPlain ps
IsPlain (decimal ∷ ps) = IsPlain ps
IsPlain (hexadecimal ∷ ps) = IsPlain ps

-- The format that is written for them.
unfoldable pub spell : List Piece → List ℕ
spell [] = []
spell (literal c ∷ ps) = c ∷ spell ps
spell (string ∷ ps) = 37 ∷ 115 ∷ spell ps
spell (character ∷ ps) = 37 ∷ 99 ∷ spell ps
spell (decimal ∷ ps) = 37 ∷ 100 ∷ spell ps
spell (hexadecimal ∷ ps) = 37 ∷ 120 ∷ spell ps

-- A word as a signed number in decimal.
unfoldable pub signed : ℕ → List ℕ
signed a = if ltb a (2 ^ 31) then digits_of 32 a 10 else 45 ∷ digits_of 32 (2 ^ 32 - a) 10

-- The text of the pieces: each directive stands for the next argument.
unfoldable pub meaning : (ℕ → List ℕ) → (ℕ → ℕ) → List Piece → ℕ → List ℕ
meaning sa arg [] n = []
meaning sa arg (literal c ∷ ps) n = c ∷ meaning sa arg ps n
meaning sa arg (string ∷ ps) n = sa (arg n) ++ meaning sa arg ps (n + 1)
meaning sa arg (character ∷ ps) n = arg n % 256 ∷ meaning sa arg ps (n + 1)
meaning sa arg (decimal ∷ ps) n = signed (arg n) ++ meaning sa arg ps (n + 1)
meaning sa arg (hexadecimal ∷ ps) n = digits_of 32 (arg n) 16 ++ meaning sa arg ps (n + 1)

module _ (sa : ℕ → List ℕ) (arg : ℕ → ℕ) where
  signed_text :
      (a : ℕ)
      → (if leb (2 ^ 31) a then 45 ∷ digits_of 32 (2 ^ 32 - a) 10 else digits_of 32 a 10) ≡ signed a
  unfolding signed
  signed_text a = elim (Bool-cases (ltb a (2 ^ 31))) [
    | inl e ↦ let low : leb (2 ^ 31) a ≡ false = ground arith in rw (e, low) refl
    | inr e ↦ let high : leb (2 ^ 31) a ≡ true = ground arith in rw (e, high) refl
  ]

  render-spell :
      (ps : List Piece) (n : ℕ)
      → IsPlain ps
      → render sa arg false (spell ps) n ≡ meaning sa arg ps n
  unfolding render spell meaning text_of
  render-spell [] n plain = refl
  render-spell (literal c ∷ ps) n (ne, plain) =
      let other : c == 37 ≡ false = ground arith in
      rw other (ap (λ l. c ∷ l) (render-spell ps n plain))
  render-spell (string ∷ ps) n plain = ap (λ l. sa (arg n) ++ l) (render-spell ps (n + 1) plain)
  render-spell (character ∷ ps) n plain = ap (λ l. arg n % 256 ∷ l) (render-spell ps (n + 1) plain)
  render-spell (decimal ∷ ps) n plain =
      rw (signed_text (arg n)) (ap (λ l. signed (arg n) ++ l) (render-spell ps (n + 1) plain))
  render-spell (hexadecimal ∷ ps) n plain =
      ap (λ l. digits_of 32 (arg n) 16 ++ l) (render-spell ps (n + 1) plain)

  -- `vsprintf` of a format that spells characters other than `%` and the directives s, c, d and x
  -- fills the buffer from its start with the characters and, for the directives in their order,
  -- the string, the byte, and the number in signed decimal or in hexadecimal with capital letters.
  pub vsprintf_lem :
      (ps : List Piece) (str : ℕ → ℕ)
      → IsPlain ps
      → Holds (vsprintf sa arg (spell ps) str) (meaning sa arg ps 0)
  vsprintf_lem ps str plain =
      subst (Holds (vsprintf sa arg (spell ps) str)) (render-spell ps 0 plain)
        (vsprintf-render sa arg (spell ps) str)
