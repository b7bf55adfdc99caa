-- ===== src/KernelList/Chain.antt =====
-- The elements that a list links together, and how one insertion or removal changes them.
use sparrow_os.Base.{◌≡◌, true, false, List, [], ◌∷◌, ◌++◌, arith, has, has-append, Distinct}
use sparrow_os.KernelList.{Elem, Links, insert_before, remove}

-- From `p` the links lead through `xs` to `q`, forwards and backwards.
abbrev pub Chain : Links → Elem → List Elem → Elem → Type 0
Chain h p [] q = (h.next p ≡ q) × (h.prev q ≡ p)
Chain h p (x ∷ xs) q = (h.next p ≡ x) × (h.prev x ≡ p) × Chain h x xs q

-- The first of `xs`, or the element that follows the chain.
abbrev pub front : List Elem → Elem → Elem
front [] q = q
front (x ∷ xs) q = x

module _ (h : Links) where
  pub Chain-append :
      (p q x : Elem) (xs ys : List Elem)
      → Chain h p (xs ++ x ∷ ys) q
      → Chain h p xs x × Chain h x ys q
  Chain-append p q x [] ys c = ((c.0, c.1), c.2)
  Chain-append p q x (y ∷ xs) ys c = let (l, r) = Chain-append y q x xs ys c.2 in ((c.0, c.1, l), r)

  pub Chain-join :
      (p q x : Elem) (xs ys : List Elem)
      → Chain h p xs x
      → Chain h x ys q
      → Chain h p (xs ++ x ∷ ys) q
  Chain-join p q x [] ys c d = (c.0, c.1, d)
  Chain-join p q x (y ∷ xs) ys c d = (c.0, c.1, Chain-join y q x xs ys c.2 d)

  -- Seen backwards, the chain ends in itself.
  pub prev_has : (p q : Elem) (xs : List Elem) → Chain h p xs q → has (h.prev q) (p ∷ xs) ≡ true
  prev_has p q [] c = ground arith
  prev_has p q (x ∷ xs) c = ground (arith, prev_has x q xs c.2)

  -- A chain survives a change that spares its own links.
  pub Chain-frame :
      (g : Links) (p q : Elem) (xs : List Elem)
      → ((a : Elem) → has a (p ∷ xs) ≡ true → g.next a ≡ h.next a)
      → ((a : Elem) → has a (xs ++ q ∷ []) ≡ true → g.prev a ≡ h.prev a)
      → Chain h p xs q
      → Chain g p xs q
  Chain-frame g p q [] n b c = ground (arith, n p, b q)
  Chain-frame g p q (x ∷ xs) n b c = (
    ground (arith, n p),
    ground (arith, b x),
    Chain-frame g x q xs (λ a i. n a (ground arith)) (λ a i. b a (ground arith)) c.2,
  )

  -- Insertion before the end of a chain makes the new element its last.
  pub Chain-insert_before :
      (p q e : Elem) (xs : List Elem)
      → Chain h p xs q
      → has p (xs ++ q ∷ []) ≡ false
      → Distinct (xs ++ q ∷ [])
      → has e (p ∷ xs ++ q ∷ []) ≡ false
      → Chain (insert_before q e h) p (xs ++ e ∷ []) q
  unfolding insert_before
  Chain-insert_before p q e [] c out d new = ground arith
  Chain-insert_before p q e (x ∷ xs) c out d new = (
    ground (arith, prev_has x q xs c.2, has-append p xs (q ∷ [])),
    ground (arith, has-append x xs (q ∷ [])),
    Chain-insert_before x q e xs c.2 d.0 d.1 (ground arith),
  )

  -- The removal of the element `e` behind a chain leads the chain to what stood behind `e`.
  pub Chain-remove :
      (p e n : Elem) (xs : List Elem)
      → Chain h p xs e
      → h.next e ≡ n
      → has p (xs ++ e ∷ []) ≡ false
      → Distinct (xs ++ e ∷ [])
      → has n (p ∷ xs ++ e ∷ []) ≡ false
      → Chain (remove e h) p xs n
  unfolding remove
  Chain-remove p e n [] c nx out d new = ground arith
  Chain-remove p e n (x ∷ xs) c nx out d new = (
    ground (arith, prev_has x e xs c.2, has-append p xs (e ∷ [])),
    ground (arith, has-append x xs (e ∷ [])),
    Chain-remove x e n xs c.2 nx d.0 d.1 (ground arith),
  )
