-- ===== src/Shell/Tests.antt =====
-- Command lines and paths.
use sparrow_os.Base.{◌≡◌, refl, some, [], ◌∷◌, ok}
use sparrow_os.Paths.{path_parse, skip_slashes, take_name, or_null}
use sparrow_os.Strings.{strcmp, last_char, char_gt, strrchr, last_loop}
use sparrow_os.Shell.{
  skip_token, take_word, cmd_loop, cmd_parse, equal, first_bytes, up_one, wash_step, next_name,
  wash_loop, is_absolute, wash_path, make_clear_abs_path,
}

-- " ls -l" has two words.
two_words :
    cmd_parse 7 (32 ∷ 108 ∷ 115 ∷ 32 ∷ 45 ∷ 108 ∷ []) 32
    ≡ some (some ((108 ∷ 115 ∷ []) ∷ (45 ∷ 108 ∷ []) ∷ []))
unfolding cmd_parse cmd_loop skip_token take_word
two_words = refl

-- The root is its own parent: "/.." is "/".
above_root : wash_path 5 (47 ∷ 46 ∷ 46 ∷ []) ≡ some (ok (47 ∷ []))
unfolding wash_path wash_loop wash_step next_name is_absolute equal up_one first_bytes path_parse
    skip_slashes take_name or_null strcmp last_char char_gt strrchr last_loop
above_root = refl

-- "./c" in "/a" is "/a/c".
beside :
    make_clear_abs_path 9 (some (47 ∷ 97 ∷ [])) (46 ∷ 47 ∷ 99 ∷ [])
    ≡ some (ok (47 ∷ 97 ∷ 47 ∷ 99 ∷ []))
unfolding make_clear_abs_path wash_path wash_loop wash_step next_name is_absolute equal up_one
    first_bytes path_parse skip_slashes take_name or_null strcmp last_char char_gt strrchr last_loop
beside = refl
