-- ===== src/Dir/Install.antt =====
-- Sectors that are written and searched: how a search goes over the blocks.
use sparrow_os.Base.{
  ℕ, zero, suc, ◌+◌, ◌-◌, ◌*◌, ◌≤◌, ◌<◌, ◌≡◌, ◌≢◌, ◌∙◌, refl, ap, sym, inl, inr, Bool, true, false,
  Option, none, some, List, ◌==◌, if◌then◌else◌, arith, length, Bool-cases,
}
use sparrow_os.Inode.{ide_read, ide_write}
use sparrow_os.Dir.{DirEntry, same_name, or_else, search_entries, search_blocks}
use sparrow_os.Dir.Slots.{same_name-local}

-- A sector that has been written, and another one.
pub read_back :
    (disk buf : ℕ → ℕ) (lba i : ℕ) → i < 512 → ide_read (ide_write disk lba buf 1) lba i ≡ buf i
unfolding ide_read ide_write
read_back disk buf lba i h =
    let back : lba * 512 + i - lba * 512 ≡ i = omega arith in ground (arith, ap buf back)

pub read_other :
    (disk buf : ℕ → ℕ) (lba other i : ℕ)
    → i < 512
    → lba ≢ other
    → ide_read (ide_write disk lba buf 1) other i ≡ ide_read disk other i
unfolding ide_read ide_write
read_other disk buf lba other i h ne = ground arith

-- A search in a sector depends on its 512 bytes, as far as it fails or finds.
pub search_none-local :
    (mem mem' : ℕ → ℕ) (name : List ℕ) (n a : ℕ)
    → length name < 16
    → a + 24 * n ≤ 512
    → ((i : ℕ) → i < 512 → mem i ≡ mem' i)
    → search_entries mem name a n ≡ none
    → search_entries mem' name a n ≡ none
unfolding search_entries
search_none-local mem mem' name zero a short room same miss = refl
search_none-local mem mem' name (suc n) a short room same miss =
    let here : same_name mem a name ≡ false = ground arith in
    let there : same_name mem' a name ≡ false =
      sym (same_name-local mem mem' name a (λ i lo hi. same i (omega arith))) ∙ here in
    rw there (search_none-local mem mem' name n (a + 24) short (omega arith) same (ground arith))

-- Where the blocks before `r` do not have the name and `r` has it, the search gives what `r` has.
module _ (disk all : ℕ → ℕ) (name : List ℕ) (r : ℕ) (e : DirEntry) where
  pub search_reaches :
      (left b : ℕ)
      → b ≤ r
      → r < b + left
      → ((i : ℕ)
          → b ≤ i
          → i < r
          → all i ≢ 0
          → search_entries (ide_read disk (all i)) name 0 21 ≡ none)
      → all r ≢ 0
      → search_entries (ide_read disk (all r)) name 0 21 ≡ some e
      → search_blocks disk all name b left ≡ some e
  unfolding search_blocks or_else
  search_reaches zero b lo hi before used hit = absurd (omega arith)
  search_reaches (suc left) b lo hi before used hit = elim (Bool-cases (b == r)) [
    | inl same ↦
        let here : b ≡ r = ground arith in
        let some_block : all b == 0 ≡ false = rw here (ground arith) in
        let there : search_entries (ide_read disk (all b)) name 0 21 ≡ some e = rw here hit in
        rw (some_block, there) refl
    | inr other ↦
        let rest : search_blocks disk all name (b + 1) left ≡ some e =
          search_reaches left (b + 1) (ground arith) (omega arith)
            (λ i p q ne. before i (omega arith) q ne) used hit in
        elim (Bool-cases (all b == 0)) [
          | inl hole ↦ rw (hole, rest) refl
          | inr full ↦
              let miss = before b (omega arith) (ground arith) (ground arith) in
              rw (full, miss, rest) refl
        ]
  ]

rest_misses :
    (c : Bool) (o rest : Option DirEntry)
    → (if c then rest else or_else o rest) ≡ none
    → rest ≡ none
unfolding or_else
rest_misses true o rest h = h
rest_misses false none rest h = h
rest_misses false (some e) rest h = cc

-- A search that fails has not found the name in any block.
pub search_misses :
    (disk all : ℕ → ℕ) (name : List ℕ) (left b : ℕ)
    → search_blocks disk all name b left ≡ none
    → (i : ℕ) → b ≤ i
    → i < b + left
    → all i ≢ 0
    → search_entries (ide_read disk (all i)) name 0 21 ≡ none
unfolding search_blocks or_else
search_misses disk all name zero b miss i lo hi ne = absurd (omega arith)
search_misses disk all name (suc left) b miss i lo hi ne = elim (Bool-cases (b == i)) [
  | inl same ↦
      let here : i ≡ b = ground arith in
      let full : all b == 0 ≡ false = rw (← here) (ground arith) in
      rw here (first (search_entries (ide_read disk (all b)) name 0 21) (rw full at miss))
  | inr other ↦
      search_misses disk all name left (b + 1)
        (rest_misses (all b == 0) (search_entries (ide_read disk (all b)) name 0 21) _ miss) i
        (ground arith) (omega arith) ne
]
  where
    first :
        (o : Option DirEntry)
        → or_else o (search_blocks disk all name (b + 1) left) ≡ none
        → o ≡ none
    first none h = refl
    first (some e) h = cc
