-- ===== src/KernelList/Refine.antt =====
-- The functions of list.c on the sequence of elements that a list stands for.
use sparrow_os.Base.{
  ◌≡◌, ◌≢◌, true, false, List, [], ◌∷◌, ◌++◌, append-nil, append_assoc, arith, has, has-append,
  Distinct, Distinct-split, Distinct-prefix, Distinct-second,
}
use sparrow_os.KernelList.{Elem, Links, KernelList, init, insert_before, push, append, remove, pop}
use sparrow_os.KernelList.Chain.{
  Chain, front, Chain-append, Chain-join, Chain-frame, Chain-insert_before, Chain-remove, prev_has,
}

-- The sentinels and the elements between them.
abbrev pub nodes : KernelList → List Elem → List Elem
nodes l xs = l.head ∷ xs ++ l.tail ∷ []

-- The links of `l` lead through `xs`, and no element stands there twice.
pub record IsList (h : Links) (l : KernelList) (xs : List Elem) : Type 0 where
  pub chain : Chain h l.head xs l.tail
  pub distinct : Distinct (nodes l xs)

-- `list_init` makes an empty list.
pub init-IsList : (h : Links) (l : KernelList) → l.head ≢ l.tail → IsList (init l h) l []
unfolding init
init-IsList h l ne = record { chain = ground arith; distinct = ground arith }

-- An element that is not in `xs ++ ys` may stand between them.
Distinct-insert :
    (e : Elem) (xs ys : List Elem)
    → Distinct (xs ++ ys)
    → has e (xs ++ ys) ≡ false
    → Distinct (xs ++ e ∷ ys)
Distinct-insert e [] ys d out = (out, d)
Distinct-insert e (x ∷ xs) ys d out = (
  ground (arith, has-append x xs ys, has-append x xs (e ∷ ys)),
  Distinct-insert e xs ys d.1 (ground arith),
)

Distinct-drop : (e : Elem) (xs ys : List Elem) → Distinct (xs ++ e ∷ ys) → Distinct (xs ++ ys)
Distinct-drop e [] ys d = d.1
Distinct-drop e (x ∷ xs) ys d =
    (ground (arith, has-append x xs ys, has-append x xs (e ∷ ys)), Distinct-drop e xs ys d.1)

module _ (h : Links) (e : Elem) where
  insert-Chain :
      (p q : Elem) (xs ys : List Elem)
      → Chain h p (xs ++ ys) q
      → Distinct (p ∷ xs ++ (ys ++ q ∷ []))
      → has e (p ∷ xs ++ (ys ++ q ∷ [])) ≡ false
      → Chain (insert_before (front ys q) e h) p (xs ++ e ∷ ys) q
  unfolding insert_before
  insert-Chain p q xs [] c d new = Chain-insert_before h p q e xs (rw append-nil at c) d.0 d.1 new
  insert-Chain p q xs (y ∷ ys) c d new = rw (append_assoc xs (e ∷ []) (y ∷ ys)) at (
      Chain-join (insert_before y e h) p q y (xs ++ e ∷ []) ys
        (Chain-insert_before h p y e xs parts.0 before.0 before.1
          (ground (arith, has-append e (p ∷ xs) (y ∷ []), out)))
        (Chain-frame h (insert_before y e h) y q ys
          (λ a i. ground (arith, out, last, has-append a (y ∷ ys) (q ∷ [])))
          (λ a i. ground (arith, out, after)) parts.1))
    where
      parts : Chain h p xs y × Chain h y ys q
      parts = Chain-append h p q y xs ys c

      apart :
          Distinct (p ∷ xs)
          × Distinct (y ∷ ys ++ q ∷ [])
          × ((a : Elem) → has a (p ∷ xs) ≡ true → has a (y ∷ ys ++ q ∷ []) ≡ false)
      apart = Distinct-split (p ∷ xs) (y ∷ ys ++ q ∷ []) d

      before : Distinct (p ∷ xs ++ y ∷ [])
      before = Distinct-prefix (p ∷ xs) (y ∷ []) (ys ++ q ∷ []) d

      out : (has e (p ∷ xs) ≡ false) × (has e (y ∷ ys ++ q ∷ []) ≡ false)
      out = ground (arith, has-append e (p ∷ xs) (y ∷ ys ++ q ∷ []))

      last : has (h.prev y) (y ∷ ys ++ q ∷ []) ≡ false
      last = apart.2 (h.prev y) (prev_has h p y xs parts.0)

      after : has y (ys ++ q ∷ []) ≡ false
      after = apart.1.0

  remove-Chain :
      (p q : Elem) (xs ys : List Elem)
      → Chain h p (xs ++ e ∷ ys) q
      → Distinct (p ∷ xs ++ (e ∷ ys ++ q ∷ []))
      → Chain (remove e h) p (xs ++ ys) q
  unfolding remove
  remove-Chain p q xs [] c d =
      let parts = Chain-append h p q e xs [] c in
      let next : h.next e ≡ q = parts.1.0 in
      let before = Distinct-prefix (p ∷ xs) (e ∷ []) (q ∷ []) d in
      rw append-nil
        (Chain-remove h p e q xs parts.0 next before.0 before.1 (Distinct-second e q (p ∷ xs) [] d))
  remove-Chain p q xs (y ∷ ys) c d =
      Chain-join (remove e h) p q y xs ys
        (Chain-remove h p e y xs parts.0 parts.1.0 before.0 before.1
          (Distinct-second e y (p ∷ xs) (ys ++ q ∷ []) d))
        (Chain-frame h (remove e h) y q ys
          (λ a i. ground (arith, last, has-append a (y ∷ ys) (q ∷ [])))
          (λ a i. ground (arith, parts.1.0, apart.1.1.0)) parts.1.2)
    where
      parts : Chain h p xs e × Chain h e (y ∷ ys) q
      parts = Chain-append h p q e xs (y ∷ ys) c

      apart :
          Distinct (p ∷ xs)
          × Distinct (e ∷ y ∷ ys ++ q ∷ [])
          × ((a : Elem) → has a (p ∷ xs) ≡ true → has a (e ∷ y ∷ ys ++ q ∷ []) ≡ false)
      apart = Distinct-split (p ∷ xs) (e ∷ y ∷ ys ++ q ∷ []) d

      before : Distinct (p ∷ xs ++ e ∷ [])
      before = Distinct-prefix (p ∷ xs) (e ∷ []) (y ∷ ys ++ q ∷ []) d

      last : has (h.prev e) (e ∷ y ∷ ys ++ q ∷ []) ≡ false
      last = apart.2 (h.prev e) (prev_has h p e xs parts.0)

-- `list_insert_before` puts a new element in front of the one given, which may be the tail.
pub insert_before-IsList :
    (h : Links) (l : KernelList) (e : Elem) (xs ys : List Elem)
    → IsList h l (xs ++ ys)
    → has e (nodes l (xs ++ ys)) ≡ false
    → IsList (insert_before (front ys l.tail) e h) l (xs ++ e ∷ ys)
insert_before-IsList h l e xs ys is new = record {
  chain = insert-Chain h e l.head l.tail xs ys is.chain (rw assoc at is.distinct) (rw assoc at new);
  distinct = rw (append_assoc xs (e ∷ ys) (l.tail ∷ [])) (
      Distinct-insert e (l.head ∷ xs) (ys ++ l.tail ∷ []) (rw assoc at is.distinct)
        (rw assoc at new));
}
  where
    assoc : (xs ++ ys) ++ l.tail ∷ [] ≡ xs ++ (ys ++ l.tail ∷ [])
    assoc = append_assoc xs ys (l.tail ∷ [])

module _ (h : Links) (l : KernelList) (e : Elem) (xs : List Elem) where
  -- `list_push` puts a new element in front of all.
  pub push-cons : IsList h l xs → has e (nodes l xs) ≡ false → IsList (push l e h) l (e ∷ xs)
  unfolding push
  push-cons is new = rw (first xs is.chain) (insert_before-IsList h l e [] xs is new)
    where
      first : (xs : List Elem) → Chain h l.head xs l.tail → h.next l.head ≡ front xs l.tail
      first [] c = c.0
      first (x ∷ xs) c = c.0

  -- `list_append` puts a new element behind all.
  pub append_lem :
      IsList h l xs → has e (nodes l xs) ≡ false → IsList (append l e h) l (xs ++ e ∷ [])
  unfolding append
  append_lem is new = insert_before-IsList h l e xs [] (rw append-nil is) (rw append-nil new)

-- `list_remove` takes out the element given, wherever it stands.
pub remove-IsList :
    (h : Links) (l : KernelList) (e : Elem) (xs ys : List Elem)
    → IsList h l (xs ++ e ∷ ys)
    → IsList (remove e h) l (xs ++ ys)
remove-IsList h l e xs ys is = record {
  chain = remove-Chain h e l.head l.tail xs ys is.chain here;
  distinct =
      rw (append_assoc xs ys (l.tail ∷ []))
        (Distinct-drop e (l.head ∷ xs) (ys ++ l.tail ∷ []) here);
}
  where
    here : Distinct (l.head ∷ xs ++ (e ∷ ys ++ l.tail ∷ []))
    here = rw (append_assoc xs (e ∷ ys) (l.tail ∷ [])) at is.distinct

-- `list_pop` returns the first element and leaves the rest.
pub pop-cons :
    (h : Links) (l : KernelList) (e : Elem) (xs : List Elem)
    → IsList h l (e ∷ xs)
    → ((pop l h).0 ≡ e) × IsList (pop l h).1 l xs
unfolding pop
pop-cons h l e xs is = (is.chain.0, rw is.chain.0 (remove-IsList h l e [] xs is))
