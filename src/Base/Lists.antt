-- ===== src/Base/Lists.antt =====
-- Lists with native indices, membership as a Boolean, and functions updated at a point.
use Prim.Native.Nat.{ℕ, zero, suc, ◌+◌}
use mathlib.Core.Path.{◌≡◌, refl}
use mathlib.Core.Bool.{Bool, true, false, ◌||◌, or_assoc}
use mathlib.Core.Option.{Option, none, some}
use mathlib.Core.List.{List, [], ◌∷◌, ◌++◌}
use native.Mathlib.Omega.{arith}
use sparrow_os.Base.Tests.{◌==◌, if◌then◌else◌}

-- A write to one cell of a memory, or to one slot of a table.
abbrev pub update {ℓ} : {A : Type ℓ} → (ℕ → A) → ℕ → A → ℕ → A
update f i v j = if i == j then v else f j

module _ {ℓ} {A : Type ℓ} where
  abbrev pub length : List A → ℕ
  length [] = 0
  length (x ∷ xs) = suc (length xs)

  abbrev pub get_elem? : List A → ℕ → Option A
  get_elem? [] i = none
  get_elem? (x ∷ xs) zero = some x
  get_elem? (x ∷ xs) (suc i) = get_elem? xs i

  abbrev pub is_empty : List A → Bool
  is_empty [] = true
  is_empty (x ∷ xs) = false

  pub length-append : (xs ys : List A) → length (xs ++ ys) ≡ length xs + length ys
  length-append [] ys = omega arith
  length-append (x ∷ xs) ys = omega (arith, length-append xs ys)

-- Is `a` in the list?
abbrev pub has : ℕ → List ℕ → Bool
has a [] = false
has a (x ∷ xs) = (a == x) || has a xs

-- Takes out the first occurrence.
abbrev pub erase : ℕ → List ℕ → List ℕ
erase a [] = []
erase a (x ∷ xs) = if a == x then xs else x ∷ erase a xs

-- No element occurs twice.
abbrev pub Distinct : List ℕ → Type 0
Distinct [] = Unit
Distinct (x ∷ xs) = (has x xs ≡ false) × Distinct xs

pub has-append : (a : ℕ) (xs ys : List ℕ) → has a (xs ++ ys) ≡ (has a xs || has a ys)
has-append a [] ys = refl
has-append a (x ∷ xs) ys = rw (has-append a xs ys, or_assoc)

-- What a distinct list tells of its two parts, and the way back.
pub Distinct-split :
    (xs ys : List ℕ)
    → Distinct (xs ++ ys)
    → Distinct xs × Distinct ys × ((a : ℕ) → has a xs ≡ true → has a ys ≡ false)
Distinct-split [] ys d = (tt, d, λ a h. cc)
Distinct-split (x ∷ xs) ys d =
    let r = Distinct-split xs ys d.1 in
    (
      (ground (arith, has-append x xs ys), r.0),
      r.1,
      λ a h. ground (arith, has-append x xs ys, r.2 a),
    )

pub Distinct-join :
    (xs ys : List ℕ)
    → Distinct xs
    → Distinct ys
    → ((a : ℕ) → has a xs ≡ true → has a ys ≡ false)
    → Distinct (xs ++ ys)
Distinct-join [] ys d e apart = e
Distinct-join (x ∷ xs) ys d e apart = (
  ground (arith, has-append x xs ys, apart x),
  Distinct-join xs ys d.1 e (λ a h. apart a (ground arith)),
)

pub Distinct-prefix : (xs ys zs : List ℕ) → Distinct (xs ++ (ys ++ zs)) → Distinct (xs ++ ys)
Distinct-prefix [] ys zs d = (Distinct-split ys zs d).0
Distinct-prefix (x ∷ xs) ys zs d = (
  ground (arith, has-append x xs ys, has-append x xs (ys ++ zs), has-append x ys zs),
  Distinct-prefix xs ys zs d.1,
)

pub Distinct-second :
    (e n : ℕ) (xs zs : List ℕ) → Distinct (xs ++ e ∷ n ∷ zs) → has n (xs ++ e ∷ []) ≡ false
Distinct-second e n [] zs d = ground arith
Distinct-second e n (x ∷ xs) zs d =
    ground (arith, has-append x xs (e ∷ n ∷ zs), Distinct-second e n xs zs d.1)
