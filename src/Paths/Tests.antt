-- ===== src/Paths/Tests.antt =====
-- The path //ab/c.
use sparrow_os.Base.{ℕ, ◌≡◌, refl, ok, panic, List, [], ◌∷◌, if◌then◌else◌}
use sparrow_os.Paths.{
  skip_slashes, take_name, or_null, path_parse, first, depth_loop, path_depth_cnt,
}
use sparrow_os.Paths.Depth.{short_names, path_depth_cnt_lem}

abbrev two_names : List ℕ
two_names = 47 ∷ 47 ∷ 97 ∷ 98 ∷ 47 ∷ 99 ∷ []

depth_of_root : path_depth_cnt 5 3 (47 ∷ []) ≡ ok 1
unfolding path_depth_cnt path_parse skip_slashes take_name or_null first depth_loop
depth_of_root = refl

path_depth_cnt_lem_example :
    path_depth_cnt 5 8 two_names ≡ (if short_names 0 two_names then ok 2 else panic)
path_depth_cnt_lem_example = path_depth_cnt_lem two_names 5 refl
