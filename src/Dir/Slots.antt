-- ===== src/Dir/Slots.antt =====
-- Entries in a sector: what `free_slot` finds, and what a search finds once an entry is put in.
use sparrow_os.Base.{
  ℕ, zero, suc, ◌+◌, ◌-◌, ◌*◌, ◌^◌, ◌≤◌, ◌<◌, ◌≡◌, ◌≢◌, ◌∙◌, refl, ap, sym, inl, inr, true, false,
  Option, none, some, List, [], ◌∷◌, ◌==◌, arith, length, Bool-cases,
}
use sparrow_os.OpenInodes.{word, byte_of}
use sparrow_os.OpenInodes.Image.{word_lem}
use sparrow_os.Dir.{
  DirEntry, entry_byte, load_entry, same_name, search_entries, put_entry, only_entry, free_slot,
}

-- A comparison reads the bytes of the name and the one behind them.
pub same_name-local :
    (mem mem' : ℕ → ℕ) (name : List ℕ) (a : ℕ)
    → ((i : ℕ) → a ≤ i → i ≤ a + length name → mem i ≡ mem' i)
    → same_name mem a name ≡ same_name mem' a name
unfolding same_name
same_name-local mem mem' [] a h = ap (λ c. c == 0) (h a (omega arith) (omega arith))
same_name-local mem mem' (c ∷ name) a h =
    rw
      (
        h a (omega arith) (omega arith),
        same_name-local mem mem' name (a + 1) (λ i lo hi. h i (omega arith) (omega arith)),
      )
      refl

same_name-shift :
    (mem : ℕ → ℕ) (name : List ℕ) (a j : ℕ)
    → same_name (λ i. mem (a + i)) j name ≡ same_name mem (a + j) name
unfolding same_name
same_name-shift mem [] a j = refl
same_name-shift mem (c ∷ name) a j =
    let next : a + (j + 1) ≡ a + j + 1 = omega arith in
    rw (same_name-shift mem name a (j + 1), next) refl

-- The entry itself bears the name.
abbrev pub Bears : DirEntry → List ℕ → Type 0
Bears e name = same_name e.filename 0 name ≡ true

-- The entry fits in its fields.
pub record FitsEntry (e : DirEntry) : Type 0 where
  pub number : e.i_no < 2 ^ 32
  pub kind : e.f_type < 2 ^ 32

-- A memory that holds the bytes of an entry at `a`.
abbrev pub Holds : (ℕ → ℕ) → ℕ → DirEntry → Type 0
Holds mem a e = (i : ℕ) → i < 24 → mem (a + i) ≡ entry_byte e i

-- An entry is read back as it was written.
pub record Reads (e e' : DirEntry) : Type 0 where
  pub number : e'.i_no ≡ e.i_no
  pub kind : e'.f_type ≡ e.f_type
  pub name : (i : ℕ) → i < 16 → e'.filename i ≡ e.filename i

module _ (mem : ℕ → ℕ) (a : ℕ) (e : DirEntry) (holds : Holds mem a e) where
  held_word :
      (w off : ℕ)
      → w < 2 ^ 32
      → off + 4 ≤ 24
      → ((k : ℕ) → k < 4 → entry_byte e (off + k) ≡ byte_of w k)
      → word mem (a + off) ≡ w
  held_word w off fits room bytes =
      let place : a + off ≡ a + off + 4 * 0 = omega arith in
      ap (word mem) place
      ∙ word_lem mem (λ q. w) (a + off) 0 fits
          λ k h.
            let at : a + off + 4 * 0 + k ≡ a + (off + k) = omega arith in
            ap mem at ∙ holds (off + k) (omega arith) ∙ bytes k h

  pub load_held : FitsEntry e → Reads e (load_entry mem a)
  unfolding load_entry entry_byte
  load_held f = record {
    number =
        held_word e.i_no 16 f.number (omega arith) λ k h.
          let back : 16 + k - 16 ≡ k = omega arith in ground (arith, ap (byte_of e.i_no) back);
    kind = held_word e.f_type 20 f.kind (omega arith) λ k h.
        let back : 20 + k - 20 ≡ k = omega arith in ground (arith, ap (byte_of e.f_type) back);
    name = λ i h. holds i (omega arith) ∙ ground arith;
  }

  pub same_name_held :
      (name : List ℕ) → length name < 16 → Bears e name → same_name mem a name ≡ true
  unfolding entry_byte
  same_name_held name short bears =
      let base : a + 0 ≡ a = omega arith in
      ap (λ a. same_name mem a name) (sym base)
      ∙ sym (same_name-shift mem name a 0)
      ∙ same_name-local (λ i. mem (a + i)) e.filename name 0
          (λ i lo hi. holds i (omega arith) ∙ ground arith)
      ∙ bears

-- The bytes of a sector with an entry put in.
pub put_held : (buf : ℕ → ℕ) (off : ℕ) (e : DirEntry) → Holds (put_entry buf off e) off e
unfolding put_entry
put_held buf off e i h =
    let back : off + i - off ≡ i = omega arith in ground (arith, ap (entry_byte e) back)

pub put_before :
    (buf : ℕ → ℕ) (off : ℕ) (e : DirEntry) (i : ℕ) → i < off → put_entry buf off e i ≡ buf i
unfolding put_entry
put_before buf off e i h = ground arith

-- A memory that holds an entry in a slot, and before it what another one does.
module _ (mem buf : ℕ → ℕ) (off : ℕ) (e : DirEntry) (held : Holds mem off e)
    (before : (i : ℕ) → i < off → mem i ≡ buf i) (name : List ℕ) (short : length name < 16)
    (bears : Bears e name) (f : FitsEntry e) where
  -- The search where the name was not, once the entry is in one of the slots.
  pub search_put :
      (n a k : ℕ)
      → off ≡ a + 24 * k
      → k < n
      → search_entries buf name a n ≡ none
      → (e' : DirEntry) × (search_entries mem name a n ≡ some e') × Reads e e'
  unfolding search_entries
  search_put zero a k at inside none_there = absurd (omega arith)
  search_put (suc n) a zero at inside none_there =
      let here : off ≡ a = omega arith in
      let hit : same_name mem off name ≡ true = same_name_held mem off e held name short bears in
      (load_entry mem off, rw (← here, hit) refl, load_held mem off e held f)
  search_put (suc n) a (suc k) at inside none_there =
      let miss : same_name buf a name ≡ false = ground arith in
      let still : same_name mem a name ≡ false =
        same_name-local mem buf name a (λ i lo hi. before i (omega arith)) ∙ miss in
      let (e', run, reads) = search_put n (a + 24) k (omega arith) (omega arith) (ground arith) in
      (e', rw still run, reads)

only_held : (e : DirEntry) → Holds (only_entry e) 0 e
unfolding only_entry
only_held e i h = let back : 0 + i ≡ i = omega arith in rw back (ground arith)

-- The search in a sector that holds only the entry.
pub search_only :
    (mem : ℕ → ℕ) (e : DirEntry) (name : List ℕ)
    → length name < 16
    → Bears e name
    → FitsEntry e
    → ((i : ℕ) → i < 512 → mem i ≡ only_entry e i)
    → (e' : DirEntry) × (search_entries mem name 0 21 ≡ some e') × Reads e e'
unfolding search_entries
search_only mem e name short bears f same =
    let holds : Holds mem 0 e = λ i h. same (0 + i) (omega arith) ∙ only_held e i h in
    (
      load_entry mem 0,
      rw (same_name_held mem 0 e holds name short bears) refl,
      load_held mem 0 e holds f,
    )

-- What `free_slot` may come to: the first slot that is not in use.
abbrev pub FirstSlot : (ℕ → ℕ) → ℕ → ℕ → Option ℕ → Type 0
FirstSlot mem a n (some off) =
    (k : ℕ) × (off ≡ a + 24 * k)
    × (k < n)
    × (word mem (off + 20) ≡ 0)
    × ((j : ℕ) → j < k → word mem (a + 24 * j + 20) ≢ 0)
FirstSlot mem a n none = (j : ℕ) → j < n → word mem (a + 24 * j + 20) ≢ 0

slot_here : (a j : ℕ) (mem : ℕ → ℕ) → j ≡ 0 → word mem (a + 24 * j + 20) ≡ word mem (a + 20)
slot_here a j mem e = let place : a + 24 * j + 20 ≡ a + 20 = omega arith in ap (word mem) place

slot_next :
    (a j : ℕ) (mem : ℕ → ℕ)
    → 0 < j
    → word mem (a + 24 * j + 20) ≡ word mem (a + 24 + 24 * (j - 1) + 20)
slot_next a j mem h =
    let place : a + 24 * j + 20 ≡ a + 24 + 24 * (j - 1) + 20 = omega arith in ap (word mem) place

pub free_slot_lem : (mem : ℕ → ℕ) (n a : ℕ) → FirstSlot mem a n (free_slot mem a n)
unfolding free_slot
free_slot_lem mem zero a = λ j h. absurd (omega arith)
free_slot_lem mem (suc n) a = elim (Bool-cases (word mem (a + 20) == 0)) [
  | inl e ↦ rw e (0, omega arith, omega arith, ground arith, λ j h. absurd (omega arith))
  | inr e ↦ rw e (later (free_slot mem (a + 24) n) (ground arith) (free_slot_lem mem n (a + 24)))
]
  where
    behind :
        word mem (a + 20) ≢ 0
        → (m : ℕ) → ((j : ℕ) → j < m → word mem (a + 24 + 24 * j + 20) ≢ 0)
        → (j : ℕ) → j < suc m
        → word mem (a + 24 * j + 20) ≢ 0
    behind used m all j h = elim (Bool-cases (j == 0)) [
      | inl e ↦ λ z. used (sym (slot_here a j mem (ground arith)) ∙ z)
      | inr e ↦ λ z. all (j - 1) (ground arith) (sym (slot_next a j mem (ground arith)) ∙ z)
    ]

    later :
        (o : Option ℕ)
        → word mem (a + 20) ≢ 0
        → FirstSlot mem (a + 24) n o
        → FirstSlot mem a (suc n) o
    later none used all = behind used n all
    later (some off) used (k, at, inside, free, all) =
        (suc k, omega arith, omega arith, free, behind used k all)
