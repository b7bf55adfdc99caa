-- ===== src/Dir/Names.antt =====
-- The names of new entries: those of up to 15 characters are found, and one of 16 is lost.
use sparrow_os.Base.{
  ℕ, zero, suc, ◌+◌, ◌%◌, ◌^◌, ◌≤◌, ◌<◌, ◌≡◌, ◌≢◌, ◌∙◌, refl, ap, sym, inl, inr, true, false, none,
  some, List, [], ◌∷◌, ltb, leb, ◌==◌, if◌then◌else◌, arith, ok, length, Bool-cases,
}
use sparrow_os.OpenInodes.{byte_of}
use sparrow_os.Dir.{
  DirEntry, char_at, create_dir_entry, same_name, search_entries, only_entry, entry_byte,
}
use sparrow_os.Dir.Search.{IsString}
use sparrow_os.Dir.Slots.{Bears, search_only}

-- A memory that holds the characters of a name and a 0.
spells :
    (mem : ℕ → ℕ) (name : List ℕ) (a : ℕ)
    → ((i : ℕ) → i ≤ length name → mem (a + i) ≡ char_at name i)
    → same_name mem a name ≡ true
unfolding same_name char_at
spells mem [] a h =
    let place : a ≡ a + 0 = omega arith in
    let last : mem a ≡ 0 = ap mem place ∙ h 0 (omega arith) in rw last refl
spells mem (c ∷ name) a h =
    let place : a ≡ a + 0 = omega arith in
    let first : mem a ≡ c = ap mem place ∙ h 0 (omega arith) in
    let self : c == c ≡ true = ground arith in
    let rest : same_name mem (a + 1) name ≡ true = spells mem name (a + 1) (λ i p.
      let next : a + 1 + i ≡ a + suc i = omega arith in ap mem next ∙ h (suc i) (omega arith)) in
    rw (first, self, rest) refl

char_behind : (name : List ℕ) (i : ℕ) → length name ≤ i → char_at name i ≡ 0
unfolding char_at
char_behind [] i h = refl
char_behind (c ∷ name) zero h = absurd (omega arith)
char_behind (c ∷ name) (suc i) h = char_behind name i (omega arith)

-- The byte behind a name that is found is 0.
ends_in_zero :
    (mem : ℕ → ℕ) (name : List ℕ) (a : ℕ) → same_name mem a name ≡ true → mem (a + length name) ≡ 0
unfolding same_name
ends_in_zero mem [] a h = let place : a + 0 ≡ a = omega arith in rw place (ground arith)
ends_in_zero mem (c ∷ name) a h =
    let place : a + suc (length name) ≡ a + 1 + length name = omega arith in
    rw place (ends_in_zero mem name (a + 1) (ground arith))

-- No name is found among zeros.
zero_slots :
    (mem : ℕ → ℕ) (c : ℕ) (name : List ℕ) (n a : ℕ)
    → 0 < c
    → ((i : ℕ) → a ≤ i → mem i ≡ 0)
    → search_entries mem (c ∷ name) a n ≡ none
unfolding search_entries same_name
zero_slots mem c name zero a pos blank = refl
zero_slots mem c name (suc n) a pos blank =
    let empty : mem a == c ≡ false = rw (blank a (omega arith)) (ground arith) in
    rw empty (zero_slots mem c name n (a + 24) pos (λ i h. blank i (omega arith)))

module _ (name : List ℕ) (string : IsString name) (n t : ℕ) (p : DirEntry) where
  -- `create_dir_entry` for a name of up to 15 characters, on an entry of zeros: a directory sector
  -- that holds only this entry gives it back when its name is searched for.
  pub create-search :
      length name < 16
      → ((i : ℕ) → p.filename i ≡ 0)
      → n < 2 ^ 32
      → t < 2 ^ 32
      → (e e' : DirEntry) × (create_dir_entry name n t p ≡ ok e)
        × (search_entries (only_entry e) name 0 21 ≡ some e')
        × (e'.i_no ≡ n)
        × (e'.f_type ≡ t)
  unfolding create_dir_entry
  create-search short blank small kind =
      let guard : leb (length name) 16 ≡ true = ground arith in
      let e : DirEntry = record {
        filename = λ i. if ltb i (length name) then char_at name i else p.filename i;
        i_no = n;
        f_type = t;
      } in
      let bears : Bears e name = spells e.filename name 0 (λ i h.
        let base : 0 + i ≡ i = omega arith in
        rw base (ground (arith, char_behind name i, blank i))) in
      let (e', hit, reads) =
        search_only (only_entry e) e name short bears (record { number = small; kind = kind })
          (λ i h. refl) in
      (e, e', rw guard refl, hit, reads.number, reads.kind)

created_number :
    (name : List ℕ) (n t : ℕ) (p e : DirEntry) → create_dir_entry name n t p ≡ ok e → e.i_no ≡ n
unfolding create_dir_entry
created_number name n t p e made = ground arith

byte_behind : (e : DirEntry) → only_entry e 16 ≡ e.i_no % 256
unfolding only_entry entry_byte byte_of
byte_behind e = refl

zeros_behind : (e : DirEntry) (i : ℕ) → 24 ≤ i → only_entry e i ≡ 0
unfolding only_entry
zeros_behind e i h = ground arith

-- `create_dir_entry` accepts a name of 16 characters, but then no 0 ends it: where the low byte of
-- the inode's number is not 0, the search does not find the entry.
pub long_name_lost :
    (c : ℕ) (name : List ℕ) (n t : ℕ) (p e : DirEntry)
    → 0 < c
    → length name ≡ 15
    → n % 256 ≢ 0
    → create_dir_entry (c ∷ name) n t p ≡ ok e
    → search_entries (only_entry e) (c ∷ name) 0 21 ≡ none
unfolding search_entries
long_name_lost c name n t p e pos long low made =
    elim (Bool-cases (same_name (only_entry e) 0 (c ∷ name))) [
      | inl hit ↦
          let at : 0 + length (c ∷ name) ≡ 16 = omega arith in
          let end : only_entry e 16 ≡ 0 = rw at at (ends_in_zero (only_entry e) (c ∷ name) 0 hit) in
          absurd (
            low (
              sym (ap (λ i. i % 256) (created_number (c ∷ name) n t p e made))
              ∙ sym (byte_behind e)
              ∙ end))
      | inr miss ↦ rw miss (zero_slots (only_entry e) c name 20 24 pos (λ i h. zeros_behind e i h))
    ]
