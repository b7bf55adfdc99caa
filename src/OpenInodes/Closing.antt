-- ===== src/OpenInodes/Closing.antt =====
-- `inode_close` of an inode that is open.
use sparrow_os.Base.{
  ℕ, ◌+◌, ◌-◌, ◌%◌, ◌^◌, ◌≡◌, ◌≢◌, inl, inr, true, false, ◌&&◌, List, [], ◌∷◌, ◌==◌, if◌then◌else◌,
  arith, has, erase, Distinct, Bool-cases,
}
use sparrow_os.OpenInodes.{Inodes, inode_close}
use sparrow_os.OpenInodes.Sharing.{IsShared}

-- Membership once an element is taken out of a distinct list.
has-erase :
    (a b : ℕ) (l : List ℕ) → Distinct l → has b (erase a l) ≡ (if a == b then false else has b l)
has-erase a b [] d = ground arith
has-erase a b (x ∷ l) d = elim (Bool-cases (a == x)) [
  | inl e ↦ let same : a ≡ x = ground arith in rw same (ground (arith, d.0))
  | inr e ↦ ground (arith, has-erase a b l d.1)
]

Distinct-erase : (a : ℕ) (l : List ℕ) → Distinct l → Distinct (erase a l)
Distinct-erase a [] d = d
Distinct-erase a (x ∷ l) d = elim (Bool-cases (a == x)) [
  | inl e ↦ rw e d.1
  | inr e ↦ rw e (ground (arith, has-erase a x l d.1), Distinct-erase a l d.1)
]

module _ (a : ℕ) (s : Inodes) (shared : IsShared s) (open_now : has a s.open_inodes ≡ true) where
  open shared use {distinct, single, counted}

  -- Not the last count.
  still_open :
      ((s.inode a).i_open_cnts + (2 ^ 32 - 1)) % 2 ^ 32 == 0 ≡ false → IsShared (inode_close a s)
  unfolding inode_close
  still_open e = rw e (record {
    distinct = distinct;
    single = λ b c p q same. single b c p q (ground arith);
    counted = λ b p. ground (arith, counted b p);
  })

  -- The last count.
  gone : ((s.inode a).i_open_cnts + (2 ^ 32 - 1)) % 2 ^ 32 == 0 ≡ true → IsShared (inode_close a s)
  unfolding inode_close
  gone e = rw e (record {
    distinct = Distinct-erase a s.open_inodes distinct;
    single = λ b c p q same. ground (
      arith,
      single b c,
      has-erase a b s.open_inodes distinct,
      has-erase a c s.open_inodes distinct,
    );
    counted = λ b p. ground (arith, counted b, has-erase a b s.open_inodes distinct);
  })

  -- Closing keeps the sharing. The count falls by one, and the inode leaves the list with its last
  -- count and only then; the others stay as they are.
  pub inode_close_lem :
      IsShared (inode_close a s)
      × (((inode_close a s).inode a).i_open_cnts + 1 ≡ (s.inode a).i_open_cnts)
      × ((b : ℕ)
          → has b (inode_close a s).open_inodes
            ≡ (if (a == b) && ((s.inode a).i_open_cnts == 1) then false else has b s.open_inodes))
      × ((b : ℕ) → a ≢ b → (inode_close a s).inode b ≡ s.inode b)
  unfolding inode_close
  inode_close_lem = (
    elim (Bool-cases (((s.inode a).i_open_cnts + (2 ^ 32 - 1)) % 2 ^ 32 == 0)) [
      | inl e ↦ gone e
      | inr e ↦ still_open e
    ],
    ground (arith, counted a open_now),
    λ b. ground (arith, counted a open_now, has-erase a b s.open_inodes distinct),
    λ b ne. ground arith,
  )
