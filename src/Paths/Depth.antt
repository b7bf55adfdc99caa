-- ===== src/Paths/Depth.antt =====
-- What `path_parse` splits off, and that `path_depth_cnt` counts the names of a path.
use sparrow_os.Base.{
  ℕ, zero, suc, ◌+◌, ◌≤◌, ◌<◌, ◌≡◌, ◌≢◌, ◌∙◌, ap, sym, refl, ◌⊎◌, inl, inr, Bool, true, false,
  Option, none, some, List, [], ◌∷◌, ◌++◌, arith, Res, ok, panic, check, ◌>>◌, ltb, leb, ◌&&◌, ◌==◌,
  Bool-cases, if◌then◌else◌, has, length,
}
use sparrow_os.Paths.{
  slash, skip_slashes, take_name, or_null, path_parse, first, depth_loop, path_depth_cnt,
  max_file_name_len,
}

-- The names of a path: a name begins where a byte that is no slash follows a slash or nothing.
abbrev pub names : Bool → List ℕ → ℕ
names inside [] = 0
names inside (c ∷ s) =
    if c == slash then names false s else if inside then names true s else suc (names true s)

-- The names that are left of a path.
abbrev pub names_left : Option (List ℕ) → ℕ
names_left none = 0
names_left (some p) = names false p

-- Each name of a path has at most 16 bytes, where `n` bytes of the first one are behind.
unfoldable pub short_names : ℕ → List ℕ → Bool
short_names n [] = true
short_names n (c ∷ s) =
    if c == slash then short_names 0 s else ltb n max_file_name_len && short_names (n + 1) s

abbrev short_left : Option (List ℕ) → Bool
short_left none = true
short_left (some p) = short_names 0 p

skip-short : (s : List ℕ) → short_names 0 (skip_slashes s) ≡ short_names 0 s
unfolding short_names skip_slashes
skip-short [] = refl
skip-short (c ∷ s) = elim (Bool-cases (c == slash)) [
  | inl e ↦ rw e (skip-short s)
  | inr e ↦ rw (e, e) refl
]

take-short :
    (n : ℕ) (t : List ℕ)
    → n ≤ max_file_name_len
    → short_names n t
      ≡ leb (n + length (take_name t).0) max_file_name_len && short_names 0 (take_name t).1
unfolding short_names take_name
take-short n [] h = ground arith
take-short n (c ∷ t) h = elim (Bool-cases (c == slash)) [
  | inl e ↦ let fits : leb (n + 0) 16 ≡ true = ground arith in rw (e, fits, e) refl
  | inr e ↦ elim (Bool-cases (ltb n max_file_name_len)) [
    | inl lt ↦
        let one : n + suc (length (take_name t).0) ≡ n + 1 + length (take_name t).0 = omega arith in
        rw (e, lt, one) (take-short (n + 1) t (ground arith))
    | inr ge ↦
        let over : leb (n + suc (length (take_name t).0)) max_file_name_len ≡ false =
          ground arith in
        rw (e, ge, over) refl
  ]
]

or_null-short : (s : List ℕ) → short_left (or_null s) ≡ short_names 0 s
unfolding or_null short_names
or_null-short [] = refl
or_null-short (c ∷ s) = refl

-- Bytes of a string.
abbrev pub IsString : List ℕ → Type 0
IsString s = has 0 s ≡ false

skip-names : (s : List ℕ) → names false (skip_slashes s) ≡ names false s
unfolding skip_slashes
skip-names [] = refl
skip-names (c ∷ s) = ground (arith, skip-names s)

-- What is copied and what is left make up the path; the name has no slash, and a slash follows it.
record Split (s name rest : List ℕ) : Type 0 where
  whole : s ≡ name ++ rest
  plain : has slash name ≡ false
  at : (rest ≡ []) ⊎ ((t : List ℕ) × (rest ≡ slash ∷ t))

take_name_lem : (s : List ℕ) → Split s (take_name s).0 (take_name s).1
unfolding take_name
take_name_lem [] = record { whole = refl; plain = refl; at = inl refl }
take_name_lem (c ∷ s) = elim (Bool-cases (c == slash)) [
  | inl e ↦ rw e (record { whole = refl; plain = refl; at = inr (s, ground arith) })
  | inr e ↦
      let r = take_name_lem s in
      rw e (record { whole = ap (λ l. c ∷ l) r.whole; plain = ground (arith, r.plain); at = r.at })
]

-- `path_parse` of any path: behind the slashes that it begins with stand a name without a slash and
-- what is left, which is nothing or begins with a slash.
pub path_parse_lem :
    (s : List ℕ)
    → (rest : List ℕ) × ((path_parse s).1 ≡ or_null rest)
      × (skip_slashes s ≡ (path_parse s).0 ++ rest)
      × (has slash (path_parse s).0 ≡ false)
      × ((rest ≡ []) ⊎ ((t : List ℕ) × (rest ≡ slash ∷ t)))
unfolding path_parse
path_parse_lem s =
    let r = take_name_lem (skip_slashes s) in
    ((take_name (skip_slashes s)).1, refl, r.whole, r.plain, r.at)

-- Inside a name the count goes on behind it.
take-names : (s : List ℕ) → names true s ≡ names false (take_name s).1
unfolding take_name
take-names [] = refl
take-names (c ∷ s) = elim (Bool-cases (c == slash)) [
  | inl e ↦ rw e (ground arith)
  | inr e ↦ rw e (take-names s)
]

-- The length of what is left.
abbrev left_length : Option (List ℕ) → ℕ
left_length none = 0
left_length (some p) = length p

or_null_lem :
    (s : List ℕ) → (names_left (or_null s) ≡ names false s) × (left_length (or_null s) ≡ length s)
unfolding or_null
or_null_lem [] = (refl, refl)
or_null_lem (c ∷ s) = (refl, refl)

take-length : (s : List ℕ) → length (take_name s).1 ≤ length s
unfolding take_name
take-length [] = omega arith
take-length (c ∷ s) = ground (arith, take-length s)

take-IsString : (s : List ℕ) → IsString s → IsString (take_name s).1
unfolding take_name
take-IsString [] h = refl
take-IsString (c ∷ s) h = ground (arith, take-IsString s)

abbrev IsLeft : Option (List ℕ) → Type 0
IsLeft none = Unit
IsLeft (some p) = IsString p

or_null-IsLeft : (s : List ℕ) → IsString s → IsLeft (or_null s)
unfolding or_null
or_null-IsLeft [] h = tt
or_null-IsLeft (c ∷ s) h = h

skip-length : (s : List ℕ) → length (skip_slashes s) ≤ length s
unfolding skip_slashes
skip-length [] = omega arith
skip-length (c ∷ s) = ground (arith, skip-length s)

skip-IsString : (s : List ℕ) → IsString s → IsString (skip_slashes s)
unfolding skip_slashes
skip-IsString [] h = refl
skip-IsString (c ∷ s) h = ground (arith, skip-IsString s)

skip-first : (s t : List ℕ) (c : ℕ) → skip_slashes s ≡ c ∷ t → c ≢ slash
unfolding skip_slashes
skip-first [] t c e = cc
skip-first (d ∷ s) t c e = elim (Bool-cases (d == slash)) [
  | inl h ↦ skip-first s t c (ground arith)
  | inr h ↦ ground arith
]

-- The name and the rest that a path of `n` names and of a length splits into.
record Parsed (n len old : ℕ) (name : List ℕ) (p : Option (List ℕ)) : Type 0 where
  counts : n ≡ (if first name 0 == 0 then 0 else 1 + names_left p)
  shorter : first name 0 ≢ 0 → left_length p < len
  left : IsLeft p
  over : first name old ≡ (if n == 0 then old else first name 0)
  ends : n ≡ 0 → left_length p + names_left p ≡ 0
  short : left_length p ≤ len
  ends_short : n ≡ 0 → short_left p ≡ true

Parsed-at :
    (t : List ℕ) (old : ℕ)
    → ((c : ℕ) (u : List ℕ) → t ≡ c ∷ u → c ≢ slash)
    → IsString t
    → Parsed (names false t) (length t) old (take_name t).0 (or_null (take_name t).1)
unfolding take_name first or_null
Parsed-at [] old no_slash string = record {
  counts = refl;
  shorter = λ h. absurd (h refl);
  left = tt;
  over = refl;
  ends = λ h. refl;
  short = omega arith;
  ends_short = λ h. refl;
}
Parsed-at (c ∷ t) old no_slash string =
    let off : (c == slash) ≡ false = ground (arith, no_slash c t refl) in
    let (n, l) = or_null_lem (take_name t).1 in
    rw off (record {
      counts = ground (arith, n, take-names t);
      shorter = λ h. ground (arith, l, take-length t);
      left = or_null-IsLeft (take_name t).1 (take-IsString t (ground arith));
      over = ground arith;
      ends = λ h. ground (arith, off);
      short = ground (arith, l, take-length t);
      ends_short = λ h. absurd (ground (arith, off));
    })

parsed :
    (s : List ℕ) (old : ℕ)
    → IsString s
    → Parsed (names false s) (length s) old (path_parse s).0 (path_parse s).1
unfolding path_parse
parsed s old string =
    let r = Parsed-at (skip_slashes s) old (λ c u e. skip-first s u c e) (skip-IsString s string) in
    record {
      counts = sym (skip-names s) ∙ r.counts;
      shorter = λ h. ground (arith, r.shorter h, skip-length s);
      left = r.left;
      over =
          r.over
          ∙ ap (λ n. if n == 0 then old else first (take_name (skip_slashes s)).0 0) (skip-names s);
      ends = λ h. r.ends (skip-names s ∙ h);
      short = omega (arith, r.short, skip-length s);
      ends_short = λ h. r.ends_short (skip-names s ∙ h);
    }

-- The names of a path are short where the first one and those that are left are.
parsed_short :
    (s : List ℕ)
    → short_names 0 s
      ≡ leb (length (path_parse s).0) max_file_name_len && short_left (path_parse s).1
unfolding path_parse
parsed_short s =
    let t = skip_slashes s in
    let none_behind : 0 + length (take_name t).0 ≡ length (take_name t).0 = omega arith in
    sym (skip-short s)
    ∙ take-short 0 t (omega arith)
    ∙ ap (λ k. leb k max_file_name_len && short_names 0 (take_name t).1) none_behind
    ∙ ap (λ b. leb (length (take_name t).0) max_file_name_len && b)
        (sym (or_null-short (take_name t).1))

depth_stop : (fuel depth : ℕ) (p : Option (List ℕ)) → depth_loop (suc fuel) 0 p depth ≡ ok depth
unfolding depth_loop
depth_stop fuel depth none = refl
depth_stop fuel depth (some s) = refl

depth_next :
    (fuel name depth : ℕ) (s : List ℕ)
    → (name == 0) ≡ false
    → depth_loop (suc fuel) name (some s) depth
      ≡ check (leb (length (path_parse s).0) max_file_name_len)
        >> depth_loop fuel (first (path_parse s).0 0) (path_parse s).1 (depth + 1)
unfolding depth_loop
depth_next fuel name depth s e = rw e refl

depth_last :
    (fuel name depth : ℕ)
    → (name == 0) ≡ false
    → depth_loop (suc (suc fuel)) name none depth ≡ ok (depth + 1)
unfolding depth_loop
depth_last fuel name depth e = rw e (depth_stop fuel (depth + 1) none)

-- What the loop comes to.
abbrev counted : ℕ → Option (List ℕ) → ℕ → Res ℕ
counted name p depth =
    if name == 0 then ok depth else if short_left p then ok (depth + 1 + names_left p) else panic

-- With two rounds more than bytes that are left, the loop ends, and it counts the names.
depth_loop_lem :
    (fuel name depth : ℕ) (p : Option (List ℕ))
    → IsLeft p
    → 2 + left_length p ≤ fuel
    → depth_loop fuel name p depth ≡ counted name p depth
depth_loop_lem zero name depth p left enough = absurd (omega arith)
depth_loop_lem (suc zero) name depth p left enough = absurd (omega arith)
depth_loop_lem (suc (suc fuel)) zero depth p left enough = depth_stop (suc fuel) depth p
depth_loop_lem (suc (suc fuel)) (suc name) depth none left enough =
    let busy : (suc name == 0) ≡ false = ground arith in
    depth_last fuel (suc name) depth busy ∙ rw busy (ap ok (omega arith))
depth_loop_lem (suc (suc fuel)) (suc name) depth (some s) left enough =
    let r = parsed s 0 left in
    let next = first (path_parse s).0 0 in
    let p = (path_parse s).1 in
    let busy : (suc name == 0) ≡ false = ground arith in
    depth_next (suc fuel) (suc name) depth s busy
    ∙ elim (Bool-cases (leb (length (path_parse s).0) max_file_name_len)) [
      | inr long ↦
          let no : short_names 0 s ≡ false = parsed_short s ∙ rw long refl in
          rw (long, busy, no) refl
      | inl fits ↦
          let same : short_names 0 s ≡ short_left p = parsed_short s ∙ rw fits refl in
          elim (Bool-cases (next == 0)) [
            | inl e ↦
                let z : next ≡ 0 = ground arith in
                let n : names false s ≡ 0 = ground (arith, r.counts) in
                let yes : short_names 0 s ≡ true = same ∙ r.ends_short n in
                rw (fits, busy, yes)
                  (ap (λ x. depth_loop (suc fuel) x p (depth + 1)) z
                    ∙ depth_stop fuel (depth + 1) p
                    ∙ ap ok (omega (arith, n)))
            | inr e ↦
                let n : names false s ≡ 1 + names_left p = ground (arith, r.counts) in
                let later =
                  depth_loop_lem (suc fuel) next (depth + 1) p r.left (ground (arith, r.shorter)) in
                rw (fits, busy, same)
                  (later ∙ rw e (ap (λ k. if short_left p then ok k else panic) (omega (arith, n))))
          ]
    ]

-- `path_depth_cnt` of a string returns, with two rounds more than the path has bytes, exactly where
-- no name of the path has more than 16 bytes (one that has overruns the buffer on the stack). It
-- counts the names of the path; of a path without a name it returns 0 or, where the buffer that it
-- does not clear holds a byte other than 0, 1.
pub path_depth_cnt_lem :
    (s : List ℕ) (junk : ℕ)
    → IsString s
    → path_depth_cnt junk (2 + length s) s ≡ (
        if short_names 0 s
        then ok (if names false s == 0 then (if junk == 0 then 0 else 1) else names false s)
        else panic)
unfolding path_depth_cnt
path_depth_cnt_lem s junk string =
    let r = parsed s junk string in
    let p = (path_parse s).1 in
    let f = first (path_parse s).0 junk in
    let n = names false s in
    let whole = if n == 0 then (if junk == 0 then 0 else 1) else n in
    elim (Bool-cases (leb (length (path_parse s).0) max_file_name_len)) [
      | inr long ↦
          let no : short_names 0 s ≡ false = parsed_short s ∙ rw long refl in rw (long, no) refl
      | inl fits ↦
          let same : short_names 0 s ≡ short_left p = parsed_short s ∙ rw fits refl in
          let run = depth_loop_lem (2 + length s) f 0 p r.left (omega (arith, r.short)) in
          rw (fits, same)
            (run ∙ elim (Bool-cases (f == 0)) [
              | inl e ↦
                  let none_there : n ≡ 0 = ground (arith, r.over, r.counts) in
                  let junk_zero : junk ≡ 0 = ground (arith, r.over, none_there) in
                  let yes : short_left p ≡ true = r.ends_short none_there in
                  rw (e, yes) (ap ok (ground (arith, none_there, junk_zero)))
              | inr e ↦ rw e (
                  ap (λ k. if short_left p then ok k else panic)
                    (ground (arith, r.over, r.counts, r.ends)))
            ])
    ]
