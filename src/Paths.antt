-- ===== src/Paths.antt =====
-- `path_parse` and `path_depth_cnt` of fs/fs.c. A string is the list of its bytes before the 0 that
-- ends it; no byte of the list is 0.
pub mod Depth
mod Tests
use sparrow_os.Base.{
  ℕ, zero, suc, ◌+◌, Bool, true, false, Option, none, some, List, [], ◌∷◌, ◌==◌, if◌then◌else◌, Res,
  ok, panic, check, ◌>>◌, leb, length,
}

abbrev pub slash : ℕ
slash = 47

-- `while (*(++pathname) == '/')`, where the path begins with a slash.
unfoldable pub skip_slashes : List ℕ → List ℕ
skip_slashes [] = []
skip_slashes (c ∷ s) = let rest = skip_slashes s in if c == slash then rest else c ∷ s

-- The loop that copies a name, with the name and what is left.
unfoldable pub take_name : List ℕ → List ℕ × List ℕ
take_name [] = ([], [])
take_name (c ∷ s) =
    let (name, rest) = take_name s in if c == slash then ([], c ∷ s) else (c ∷ name, rest)

-- `NULL` for a path that ends here.
unfoldable pub or_null : List ℕ → Option (List ℕ)
or_null [] = none
or_null (c ∷ s) = some (c ∷ s)

-- `path_parse`: the bytes put in `name_store`, and the path that is left, `none` for `NULL`.
unfoldable pub path_parse : List ℕ → List ℕ × Option (List ℕ)
unfolding skip_slashes take_name or_null
path_parse pathname = let (name, rest) = take_name (skip_slashes pathname) in (name, or_null rest)

-- The first byte of the buffer `name`, where a name has been copied over `old`.
pub first : List ℕ → ℕ → ℕ
first [] old = old
first (c ∷ name) old = c

-- The bytes of the buffer `name`. `path_parse` copies a name whatever its length: for one that is
-- longer than the buffer, and so overwrites what lies behind it on the stack, `panic` stands.
abbrev pub max_file_name_len : ℕ
max_file_name_len = 16

-- The loop of `path_depth_cnt` on the first byte of `name`; in it the buffer is cleared before each
-- copy. Where the fuel runs out it is `panic` too.
pub depth_loop : ℕ → ℕ → Option (List ℕ) → ℕ → Res ℕ
unfolding path_parse first
depth_loop zero name p depth = panic
depth_loop (suc fuel) name none depth =
    let rest = depth_loop fuel 0 none (depth + 1) in if name == 0 then ok depth else rest
depth_loop (suc fuel) name (some p) depth =
    let (found, left) = path_parse p in
    let rest =
      check (leb (length found) max_file_name_len)
      >> depth_loop fuel (first found 0) left (depth + 1) in
    if name == 0 then ok depth else rest

-- `path_depth_cnt`; the buffer `name` is not cleared before the first copy, `junk` lies in it.
pub path_depth_cnt : ℕ → ℕ → List ℕ → Res ℕ
unfolding path_parse first depth_loop
path_depth_cnt junk fuel pathname =
    let (found, p) = path_parse pathname in
    check (leb (length found) max_file_name_len) >> depth_loop fuel (first found junk) p 0
