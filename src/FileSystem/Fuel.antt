-- ===== src/FileSystem/Fuel.antt =====
-- The loop of `search_file` ends within the rounds that it is given.
use sparrow_os.Base.{
  ℕ, zero, suc, ◌+◌, ◌≤◌, ◌<◌, ◌≡◌, refl, inl, inr, Bool, true, false, Option, none, some, List, [],
  ◌∷◌, ◌++◌, Res, ok, panic, check, ◌>>=◌, ◌>>◌, ltb, ◌==◌, if◌then◌else◌, length, Bool-cases,
  arith,
}
use sparrow_os.Blocks.{Volume}
use sparrow_os.Dir.{DirEntry, search_dir_entry}
use sparrow_os.Paths.{slash, skip_slashes, take_name, or_null, path_parse}
use sparrow_os.FileSystem.{
  Searching, SearchEnd, out_of_fuel, missing, regular, directory, next_part, enter, search_loop,
  ft_directory, ft_regular_file,
}

-- The loop has not run out of fuel.
abbrev pub IsDone : Res SearchEnd → Type 0
IsDone (ok out_of_fuel) = ⊥
IsDone (ok (missing st)) = Unit
IsDone (ok (regular st)) = Unit
IsDone (ok (directory st)) = Unit
IsDone panic = Unit

-- A bound of the rounds that are left.
abbrev sub_length : Option (List ℕ) → ℕ
sub_length none = 0
sub_length (some p) = length p

abbrev pub rounds_left : List ℕ → Option (List ℕ) → ℕ
rounds_left [] sub_path = 0
rounds_left (c ∷ cs) sub_path = 1 + sub_length sub_path

take_name-length : (s : List ℕ) → length (take_name s).0 + length (take_name s).1 ≡ length s
unfolding take_name
take_name-length [] = omega arith
take_name-length (c ∷ s) = ground (arith, take_name-length s)

skip_slashes-length : (s : List ℕ) → length (skip_slashes s) ≤ length s
unfolding skip_slashes
skip_slashes-length [] = omega arith
skip_slashes-length (c ∷ s) = ground (arith, skip_slashes-length s)

sub_length_of : (s : List ℕ) → sub_length (or_null s) ≡ length s
unfolding or_null
sub_length_of [] = refl
sub_length_of (c ∷ s) = refl

left_le :
    (name rest : List ℕ) (sub : Option (List ℕ)) (n : ℕ)
    → sub_length sub ≡ length rest
    → length name + length rest ≤ n
    → rounds_left name sub ≤ n
left_le [] rest sub n e h = omega arith
left_le (c ∷ name) rest sub n e h = omega (arith, e, h)

-- A name that is taken from the path leaves fewer rounds.
next_left :
    (sub : Option (List ℕ)) → rounds_left (next_part sub).0 (next_part sub).1 ≤ sub_length sub
unfolding next_part path_parse
next_left none = omega arith
next_left (some p) =
    let whole = take_name-length (skip_slashes p) in
    left_le (take_name (skip_slashes p)).0 (take_name (skip_slashes p)).1
      (or_null (take_name (skip_slashes p)).1) (length p)
      (sub_length_of (take_name (skip_slashes p)).1) (omega (arith, whole, skip_slashes-length p))

after_enter :
    (r : Res Searching) (f : Searching → Res SearchEnd)
    → ((st : Searching) → IsDone (f st))
    → IsDone (r >>= f)
after_enter (ok st) f h = h st
after_enter panic f h = tt

after_check : (b : Bool) (r : Res SearchEnd) → IsDone r → IsDone (check b >> r)
after_check true r h = h
after_check false r h = tt

module _ (e : DirEntry) (entered searched : Res SearchEnd) (file : Searching) where
  -- The three kinds of an entry.
  by_kind :
      IsDone entered
      → IsDone searched
      → IsDone (
          if e.f_type == ft_directory
          then entered
          else if e.f_type == ft_regular_file
          then ok (regular file)
          else searched)
  by_kind a b = elim (Bool-cases (e.f_type == ft_directory)) [
    | inl h ↦ rw h a
    | inr h ↦ elim (Bool-cases (e.f_type == ft_regular_file)) [
      | inl k ↦ rw (h, k) tt
      | inr k ↦ rw (h, k) b
    ]
  ]

-- With more rounds than a name and the bytes behind it, the loop of `search_file` does not run out of
-- them, whatever the directories hold.
pub search_loop-IsDone :
    (fuel : ℕ) (fresh : ℕ → ℕ) (v : Volume) (name : List ℕ) (sub : Option (List ℕ)) (st : Searching)
    → rounds_left name sub < fuel
    → IsDone (search_loop fuel fresh v name sub st)
unfolding search_loop
search_loop-IsDone zero fresh v name sub st enough = absurd (omega (arith, enough))
search_loop-IsDone (suc fuel) fresh v [] sub st enough = tt
search_loop-IsDone (suc fuel) fresh v (c ∷ cs) sub st enough =
    let room : rounds_left (next_part sub).0 (next_part sub).1 < fuel =
      omega (arith, enough, next_left sub) in
    after_check (ltb (length (c ∷ cs)) 16) _ (
      after_check (ltb (length st.found.searched_path) 512) _ (
        go (λ st'. search_loop-IsDone fuel fresh v (next_part sub).0 (next_part sub).1 st' room)
          (search_dir_entry true v (st.inodes.inode st.parent_dir.dir.inode).i_blocks (c ∷ cs))))
  where
    st₁ : Searching
    st₁ = record st {
      found = record st.found { searched_path = st.found.searched_path ++ slash ∷ c ∷ cs };
    }

    go :
        ((st' : Searching)
          → IsDone (search_loop fuel fresh v (next_part sub).0 (next_part sub).1 st'))
        → (o : Option DirEntry)
        → IsDone (elim o [
          | none ↦ ok (missing st₁)
          | some e ↦
              if e.f_type == ft_directory
              then (enter (fresh fuel) v (record st₁ { dir_e = e }) >>= λ st₃.
                  search_loop fuel fresh v (next_part sub).0 (next_part sub).1 st₃)
              else if e.f_type == ft_regular_file
              then ok (
                  regular (record st₁ {
                    dir_e = e;
                    found = record st₁.found { file_type = ft_regular_file };
                  }))
              else search_loop fuel fresh v
                  (next_part sub).0
                  (next_part sub).1
                  (record st₁ { dir_e = e })
        ])
    go later none = tt
    go later (some e) =
        by_kind e _ _ _ (after_enter (enter (fresh fuel) v (record st₁ { dir_e = e })) _ later)
          (later (record st₁ { dir_e = e }))

-- `search_file` runs the loop with two rounds more than the path has bytes, so it never runs out.
pub search_rounds :
    (pathname : List ℕ)
    → rounds_left (path_parse pathname).0 (path_parse pathname).1 < 2 + length pathname
unfolding next_part
search_rounds pathname = omega (arith, next_left (some pathname))
