-- ===== src/KernelList/Tests.antt =====
-- list.c on small lists: the elements 10, 20 and 30 between the sentinels 1 and 2.
use sparrow_os.Base.{ℕ, ◌+◌, ◌≡◌, refl, true, Bool, some, [], ◌∷◌, arith, ◌==◌}
use sparrow_os.KernelList.{Elem, Links, KernelList, init, insert_before, append, remove}
use sparrow_os.KernelList.Refine.{IsList, init-IsList, append_lem, remove-IsList}
use sparrow_os.KernelList.Walks.{walk}

abbrev blank : Links
blank = record { prev = λ a. 0; next = λ a. 0; intr = true }

abbrev ends : KernelList
ends = record { head = 1; tail = 2 }

abbrev none_in : Links
none_in = init ends blank

abbrev two_in : Links
two_in = append ends 20 (append ends 10 none_in)

none_in-IsList : IsList none_in ends []
none_in-IsList = init-IsList blank ends (omega arith)

two_in-IsList : IsList two_in ends (10 ∷ 20 ∷ [])
two_in-IsList =
    append_lem (append ends 10 none_in) ends 20 (10 ∷ [])
      (append_lem none_in ends 10 [] none_in-IsList refl) refl

-- The last element of a list, by the links themselves.
last_by_links : two_in.prev 2 ≡ 20
unfolding init append insert_before
last_by_links = refl

-- An insertion leaves the interrupt flag as it was.
flag_kept : two_in.intr ≡ true
unfolding init append insert_before
flag_kept = refl

remove-IsList_example : IsList (remove 20 two_in) ends (10 ∷ [])
remove-IsList_example = remove-IsList two_in ends 20 (10 ∷ []) [] two_in-IsList

-- A callback that counts its calls and is hit by 20.
abbrev hit_twenty : Elem → ℕ → Bool × ℕ
hit_twenty a n = (a == 20, n + 1)

walk_twenty : walk hit_twenty (10 ∷ 20 ∷ []) 0 ≡ (some 20, 2)
unfolding walk
walk_twenty = refl
