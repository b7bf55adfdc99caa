-- ===== src/KernelList/Walks.antt =====
-- The functions of list.c that walk over a list and change no link.
use sparrow_os.Base.{
  ℕ, zero, suc, ◌+◌, ◌<◌, ◌≡◌, refl, inl, inr, Bool, true, false, Option, none, some, List, [], ◌∷◌,
  ◌++◌, arith, Bool-cases, if◌then◌else◌, length, is_empty, has, has-append, Distinct,
}
use sparrow_os.KernelList.{
  Elem, Links, KernelList, empty, find_loop, elem_find, traversal_loop, traversal, len_loop,
  list_len,
}
use sparrow_os.KernelList.Chain.{Chain}
use sparrow_os.KernelList.Refine.{IsList}

-- The tail is not among the elements.
tail_out : (tail : Elem) (xs : List Elem) → Distinct (xs ++ tail ∷ []) → has tail xs ≡ false
tail_out tail [] d = refl
tail_out tail (x ∷ xs) d = ground (arith, has-append x xs (tail ∷ []), tail_out tail xs d.1)

-- What a traversal does, on the sequence of elements: it calls the function on one after the other
-- until one is hit.
unfoldable pub walk : {S : Type 0} → (Elem → S → Bool × S) → List Elem → S → Option Elem × S
walk func [] s = (none, s)
walk func (x ∷ xs) s = let (hit, s') = func x s in if hit then (some x, s') else walk func xs s'

-- `list_empty` tells whether the list is empty.
pub empty_lem :
    (h : Links) (l : KernelList) (xs : List Elem) → IsList h l xs → empty l h ≡ is_empty xs
unfolding empty
empty_lem h l [] is = ground (arith, is.chain)
empty_lem h l (x ∷ xs) is = ground (arith, is.chain, is.distinct, has-append x xs (l.tail ∷ []))

module _ (h : Links) (l : KernelList) where
  -- A loop over the rest of a list, started at its first element.
  find_loop-has :
      (fuel : ℕ) (p obj : Elem) (xs : List Elem)
      → Chain h p xs l.tail
      → has l.tail xs ≡ false
      → length xs < fuel
      → find_loop fuel l obj (h.next p) h ≡ some (has obj xs)
  unfolding find_loop
  find_loop-has zero p obj xs c out f = absurd (omega arith)
  find_loop-has (suc fuel) p obj [] c out f = ground (arith, c.0)
  find_loop-has (suc fuel) p obj (x ∷ xs) c out f =
      rw c.0 (ground (arith, find_loop-has fuel x obj xs c.2))

  len_loop-length :
      (fuel n : ℕ) (p : Elem) (xs : List Elem)
      → Chain h p xs l.tail
      → has l.tail xs ≡ false
      → length xs < fuel
      → len_loop fuel l (h.next p) n h ≡ some (n + length xs)
  unfolding len_loop
  len_loop-length zero n p xs c out f = absurd (omega arith)
  len_loop-length (suc fuel) n p [] c out f = ground (arith, c.0)
  len_loop-length (suc fuel) n p (x ∷ xs) c out f =
      rw c.0 (ground (arith, len_loop-length fuel (n + 1) x xs c.2))

  traversal_loop-walk :
      {S : Type 0} (func : Elem → S → Bool × S) (fuel : ℕ) (p : Elem) (xs : List Elem) (s : S)
      → Chain h p xs l.tail
      → has l.tail xs ≡ false
      → length xs < fuel
      → traversal_loop func fuel l (h.next p) h s ≡ some (walk func xs s)
  unfolding traversal_loop walk
  traversal_loop-walk func zero p xs s c out f = absurd (omega arith)
  traversal_loop-walk func (suc fuel) p [] s c out f = ground (arith, c.0)
  traversal_loop-walk func (suc fuel) p (x ∷ xs) s c out f =
      rw c.0 (ground (arith, traversal_loop-walk func fuel x xs (func x s).1 c.2))

  walk_empty :
      {S : Type 0} (func : Elem → S → Bool × S) (s : S) (xs : List Elem)
      → IsList h l xs
      → empty l h ≡ true
      → ◌≡◌ {A = Option (Option Elem × S)} (some (none, s)) (some (walk func xs s))
  unfolding walk
  walk_empty func s [] is e = refl
  walk_empty func s (x ∷ xs) is e = cc (e, empty_lem h l (x ∷ xs) is)

  module _ (fuel : ℕ) (xs : List Elem) (is : IsList h l xs) (enough : length xs < fuel) where
    -- `elem_find` ends and tells whether the element is in the list.
    pub elem_find-has : (obj : Elem) → elem_find fuel l obj h ≡ some (has obj xs)
    unfolding elem_find
    elem_find-has obj =
        find_loop-has fuel l.head obj xs is.chain (tail_out l.tail xs is.distinct.1) enough

    -- `list_len` ends with the number of elements.
    pub list_len-length : list_len fuel l h ≡ some (length xs)
    unfolding list_len
    list_len-length =
        ground (arith, len_loop-length fuel 0 l.head xs is.chain (tail_out l.tail xs is.distinct.1))

    -- `list_traversal` ends, and calls the function on the elements in order until one is hit.
    pub traversal-walk :
        {S : Type 0} (func : Elem → S → Bool × S) (s : S)
        → traversal func fuel l h s ≡ some (walk func xs s)
    unfolding traversal
    traversal-walk func s = elim (Bool-cases (empty l h)) [
      | inl e ↦ rw e (walk_empty func s xs is e)
      | inr e ↦ rw e (
          traversal_loop-walk func fuel l.head xs s is.chain (tail_out l.tail xs is.distinct.1)
            enough)
    ]
