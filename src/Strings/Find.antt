-- ===== src/Strings/Find.antt =====
-- `strchr`, `strrchr` and `strchrs`.
use sparrow_os.Base.{
  ℕ, zero, suc, ◌+◌, ◌<◌, ◌≡◌, ◌≢◌, ◌∙◌, refl, sym, ap, subst, inl, inr, false, Option, none, some,
  List, [], ◌∷◌, ◌++◌, arith, ◌==◌, Bool-cases, if◌then◌else◌, get_elem?, has,
}
use sparrow_os.Strings.{strchr, last_loop, strrchr, count_loop, strchrs}

-- What a search from the left may come to.
abbrev pub FoundFirst : List ℕ → ℕ → Option ℕ → Type 0
FoundFirst s ch none = has ch s ≡ false
FoundFirst s ch (some i) = (get_elem? s i ≡ some ch) × ((j : ℕ) → j < i → get_elem? s j ≢ some ch)

-- `strchr` returns the first position of the character, or `NULL` where the string has none.
pub strchr_lem : (s : List ℕ) (ch : ℕ) → FoundFirst s ch (strchr s ch)
unfolding strchr
strchr_lem [] ch = refl
strchr_lem (c ∷ s) ch = elim (Bool-cases (c == ch)) [
  | inl e ↦ rw e (ground arith, λ j h. absurd (omega arith))
  | inr e ↦ rw e (go e (strchr s ch) (strchr_lem s ch))
]
  where
    go :
        (c == ch) ≡ false
        → (o : Option ℕ) → FoundFirst s ch o
        → FoundFirst (c ∷ s) ch (elim o [ none ↦ none | some i ↦ some (suc i) ])
    go e none f = ground arith
    go e (some i) f = (f.0, later)
      where
        later : (j : ℕ) → j < suc i → get_elem? (c ∷ s) j ≢ some ch
        later zero h = ground arith
        later (suc j) h = f.1 j (omega arith)

-- What a search from the right may come to.
abbrev pub FoundLast : List ℕ → ℕ → Option ℕ → Type 0
FoundLast s ch none = has ch s ≡ false
FoundLast s ch (some i) = (get_elem? s i ≡ some ch) × ((j : ℕ) → i < j → get_elem? s j ≢ some ch)

absent : (s : List ℕ) (j : ℕ) {ch : ℕ} → has ch s ≡ false → get_elem? s j ≢ some ch
absent [] j h = λ e. cc
absent (c ∷ s) zero h = λ e. ground arith
absent (c ∷ s) (suc j) h = absent s j (ground arith)

-- The position that the loop of `strrchr` ends with, counted from `pos`.
moved : ℕ → Option ℕ → Option ℕ → Option ℕ
moved pos none last_char = last_char
moved pos (some i) last_char = some (pos + i)

last_loop_lem :
    (s : List ℕ) (ch pos : ℕ) (last_char : Option ℕ)
    → (o : Option ℕ) × (last_loop s ch pos last_char ≡ moved pos o last_char) × FoundLast s ch o
unfolding last_loop moved
last_loop_lem [] ch pos last_char = (none, refl, refl)
last_loop_lem (c ∷ s) ch pos last_char =
    let (o, run, found) = last_loop_lem s ch (pos + 1) (if ch == c then some pos else last_char) in
    go o run found
  where
    go :
        (o : Option ℕ)
        → last_loop s ch (pos + 1) (if ch == c then some pos else last_char)
          ≡ moved (pos + 1) o (if ch == c then some pos else last_char)
        → FoundLast s ch o
        → (o' : Option ℕ) × (last_loop (c ∷ s) ch pos last_char ≡ moved pos o' last_char)
          × FoundLast (c ∷ s) ch o'
    go (some i) run found = (some (suc i), run ∙ ap some (omega arith), (found.0, behind))
      where
        behind : (j : ℕ) → suc i < j → get_elem? (c ∷ s) j ≢ some ch
        behind zero h = absurd (omega arith)
        behind (suc j) h = found.1 j (omega arith)
    go none run found = elim (Bool-cases (ch == c)) [
      | inl e ↦
          let here : c ≡ ch = ground arith in
          (some 0, run ∙ rw e (ap some (omega arith)), (ap some here, behind))
      | inr e ↦ (none, run ∙ rw e refl, rw e found)
    ]
      where
        behind : (j : ℕ) → 0 < j → get_elem? (c ∷ s) j ≢ some ch
        behind zero h = absurd (omega arith)
        behind (suc j) h = absent s j found

-- `strrchr` returns the last position of the character, or `NULL` where the string has none.
pub strrchr_lem : (s : List ℕ) (ch : ℕ) → FoundLast s ch (strrchr s ch)
unfolding strrchr moved
strrchr_lem s ch =
    let (o, run, found) = last_loop_lem s ch 0 none in
    subst (FoundLast s ch) (back o ∙ sym run) found
  where
    back : (o : Option ℕ) → o ≡ moved 0 o none
    back none = refl
    back (some i) = ap some (omega arith)

count_from : (s : List ℕ) (ch n : ℕ) → count_loop s ch n ≡ count_loop s ch 0 + n
unfolding count_loop
count_from [] ch n = omega arith
count_from (c ∷ s) ch n =
    ground (arith, count_from s ch (n + 1), count_from s ch 1, count_from s ch n)

-- `strchrs` counts: the character is found in two strings put together as often as in both.
pub strchrs-append : (s t : List ℕ) (ch : ℕ) → strchrs (s ++ t) ch ≡ strchrs s ch + strchrs t ch
unfolding strchrs count_loop
strchrs-append [] t ch = omega arith
strchrs-append (c ∷ s) t ch =
    ground (arith, strchrs-append s t ch, count_from (s ++ t) ch 1, count_from s ch 1)
