-- ===== src/Shell.antt =====
-- `cmd_parse` of shell/shell.c, and `wash_path` and `make_clear_abs_path` of shell/buildin_cmd.c. A
-- string is the list of its bytes before the 0 that ends it.
mod Tests
use sparrow_os.Base.{
  ℕ, zero, suc, ◌+◌, Bool, true, false, not, Option, none, some, List, [], ◌∷◌, ◌++◌, Res, ok,
  panic, check, ◌>>=◌, ◌>>◌, ltb, ◌==◌, if◌then◌else◌, is_empty, has, length,
}
use sparrow_os.Paths.{slash, path_parse, max_file_name_len}
use sparrow_os.Strings.{Sign, less, same, more, strcmp, strrchr}

abbrev pub max_arg_nr : ℕ
max_arg_nr = 16

-- The loop that steps over the separator.
skip_token : ℕ → List ℕ → List ℕ
skip_token token [] = []
skip_token token (c ∷ s) = let rest = skip_token token s in if c == token then rest else c ∷ s

-- The loop over a word, with the word, which the 0 put in place of the separator ends, and what
-- stands behind that.
take_word : ℕ → List ℕ → List ℕ × List ℕ
take_word token [] = ([], [])
take_word token (c ∷ s) =
    let (word, rest) = take_word token s in if c == token then ([], s) else (c ∷ word, rest)

-- The loop of `cmd_parse`, for as many rounds as the fuel allows: the words that `argv` leads to,
-- or `none` for -1. The test of the number follows the write to `argv`, as in the source.
cmd_loop : ℕ → ℕ → List ℕ → ℕ → List (List ℕ) → Option (Option (List (List ℕ)))
unfolding skip_token take_word
cmd_loop zero token s argc argv = none
cmd_loop (suc fuel) token s argc argv =
    let next = skip_token token s in
    let (word, rest) = take_word token next in
    let later = cmd_loop fuel token rest (argc + 1) (argv ++ word ∷ []) in
    if is_empty next then some (some argv) else if ltb max_arg_nr argc then some none else later

pub cmd_parse : ℕ → List ℕ → ℕ → Option (Option (List (List ℕ)))
unfolding cmd_loop
cmd_parse fuel cmd_str token = cmd_loop fuel token cmd_str 0 []

-- `!strcmp(s, t)`
equal : List ℕ → List ℕ → Bool
equal s t = elim (strcmp s t) [ same ↦ true | _ ↦ false ]

-- The first bytes of a string.
first_bytes : ℕ → List ℕ → List ℕ
first_bytes zero s = []
first_bytes (suc n) [] = []
first_bytes (suc n) (c ∷ s) = c ∷ first_bytes n s

-- The branch for "..": the last slash ends the path, but the first one stays. A path without a slash
-- makes the store go through `NULL`.
up_one : Option ℕ → List ℕ → Res (List ℕ)
unfolding first_bytes
up_one none new_abs_path = panic
up_one (some zero) new_abs_path = ok (first_bytes 1 new_abs_path)
up_one (some (suc i)) new_abs_path = ok (first_bytes (suc i) new_abs_path)

-- The body of the loop of `wash_path` on a name.
wash_step : List ℕ → List ℕ → Res (List ℕ)
unfolding equal up_one
wash_step name new_abs_path =
    if equal (46 ∷ 46 ∷ []) name
    then up_one (strrchr new_abs_path slash) new_abs_path
    else if not (equal (46 ∷ []) name)
    then ok (
        (if equal new_abs_path (slash ∷ []) then new_abs_path else new_abs_path ++ slash ∷ [])
        ++ name)
    else ok new_abs_path

-- The name that the next round works on, and the path behind it.
next_name : Option (List ℕ) → List ℕ × Option (List ℕ)
next_name none = ([], none)
next_name (some sub_path) = path_parse sub_path

-- The loop of `wash_path`, for as many rounds as the fuel allows. A name that does not fit in the 16
-- bytes of the buffer with the 0 that ends it, or is written behind it, is `panic`.
wash_loop : ℕ → List ℕ → Option (List ℕ) → List ℕ → Option (Res (List ℕ))
unfolding wash_step next_name
wash_loop zero name sub_path new_abs_path = none
wash_loop (suc fuel) [] sub_path new_abs_path = some (ok new_abs_path)
wash_loop (suc fuel) (c ∷ name) sub_path new_abs_path =
    let (name', sub_path') = next_name sub_path in
    elim (check (ltb (length (c ∷ name)) max_file_name_len) >> wash_step (c ∷ name) new_abs_path) [
      | panic ↦ some panic
      | ok new_abs_path' ↦ wash_loop fuel name' sub_path' new_abs_path'
    ]

-- Does a path begin with a slash?
is_absolute : List ℕ → Bool
is_absolute [] = false
is_absolute (c ∷ s) = c == slash

pub wash_path : ℕ → List ℕ → Option (Res (List ℕ))
unfolding wash_loop is_absolute
wash_path fuel old_abs_path =
    let (name, sub_path) = path_parse old_abs_path in
    if is_absolute old_abs_path
    then (if is_empty name
        then some (ok (slash ∷ []))
        else wash_loop fuel name sub_path (slash ∷ []))
    else some panic

-- `make_clear_abs_path`, with what `getcwd` gives.
pub make_clear_abs_path : ℕ → Option (List ℕ) → List ℕ → Option (Res (List ℕ))
unfolding wash_path is_absolute
make_clear_abs_path fuel cwd path =
    let front : List ℕ = elim cwd [
      | none ↦ []
      | some dir ↦ if equal dir (slash ∷ []) then dir else dir ++ slash ∷ []
    ] in
    wash_path fuel ((if is_absolute path then [] else front) ++ path)
