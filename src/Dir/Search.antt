-- ===== src/Dir/Search.antt =====
-- `search_dir_entry` is the search for a name in the list of all entries of the directory.
use sparrow_os.Base.{
  ℕ, zero, suc, ◌+◌, ◌<◌, ◌≡◌, ◌∙◌, refl, ap, sym, inl, inr, Bool, true, false, ◌&&◌, Option, none,
  some, List, [], ◌∷◌, ◌++◌, ◌==◌, if◌then◌else◌, arith, length, Bool-cases,
}
use sparrow_os.Inode.{ide_read}
use sparrow_os.Blocks.{Volume, all_blocks}
use sparrow_os.Dir.{
  DirEntry, dir_entry_size, dir_entrys_per_sec, load_entry, same_name, or_else, search_entries,
  search_blocks, search_dir_entry,
}

-- The name of an entry: its bytes before the first 0, at most 16.
pub name_bytes : (ℕ → ℕ) → ℕ → ℕ → List ℕ
name_bytes mem a zero = []
name_bytes mem a (suc k) =
    let rest = name_bytes mem (a + 1) k in if mem a == 0 then [] else mem a ∷ rest

pub name_of : DirEntry → List ℕ
unfolding name_bytes
name_of e = name_bytes e.filename 0 16

pub list_eq : List ℕ → List ℕ → Bool
list_eq [] [] = true
list_eq [] (b ∷ t) = false
list_eq (a ∷ s) [] = false
list_eq (a ∷ s) (b ∷ t) = (a == b) && list_eq s t

-- The first entry with a name.
pub find_entry : List ℕ → List DirEntry → Option DirEntry
find_entry name [] = none
find_entry name (e ∷ es) = if list_eq (name_of e) name then some e else find_entry name es

-- The entries of a sector, and of all the blocks that a directory has.
unfoldable pub sector_entries : (ℕ → ℕ) → ℕ → ℕ → List DirEntry
sector_entries mem a zero = []
sector_entries mem a (suc n) = load_entry mem a ∷ sector_entries mem (a + dir_entry_size) n

unfoldable pub dir_entries : (ℕ → ℕ) → (ℕ → ℕ) → ℕ → ℕ → List DirEntry
dir_entries disk all b zero = []
dir_entries disk all b (suc left) =
    (if all b == 0 then [] else sector_entries (ide_read disk (all b)) 0 dir_entrys_per_sec)
    ++ dir_entries disk all (b + 1) left

-- A string: none of its characters is 0.
abbrev pub IsString : List ℕ → Type 0
IsString [] = Unit
IsString (c ∷ s) = (0 < c) × IsString s

same_name-list_eq :
    (mem : ℕ → ℕ) (name : List ℕ) (a k : ℕ)
    → IsString name
    → length name < k
    → same_name mem a name ≡ list_eq (name_bytes mem a k) name
unfolding same_name list_eq name_bytes
same_name-list_eq mem [] a (suc k) s h = ground arith
same_name-list_eq mem (c ∷ name) a (suc k) s h =
    ground (arith, same_name-list_eq mem name (a + 1) k s.1)
same_name-list_eq mem name a zero s h = absurd (omega arith)

name_bytes_shift :
    (mem : ℕ → ℕ) (a j k : ℕ) → name_bytes (λ i. mem (a + i)) j k ≡ name_bytes mem (a + j) k
unfolding name_bytes
name_bytes_shift mem a j zero = refl
name_bytes_shift mem a j (suc k) =
    let next : a + (j + 1) ≡ a + j + 1 = omega arith in
    let later = name_bytes_shift mem a (j + 1) k ∙ ap (λ i. name_bytes mem i k) next in
    rw later refl

module _ (name : List ℕ) (string : IsString name) (short : length name < 16) where
  pub same_name_lem :
      (mem : ℕ → ℕ) (a : ℕ) → same_name mem a name ≡ list_eq (name_of (load_entry mem a)) name
  unfolding name_of load_entry
  same_name_lem mem a =
      let same : a + 0 ≡ a = omega arith in
      same_name-list_eq mem name a 16 string short
      ∙ sym (
          ap (λ s. list_eq s name)
            (name_bytes_shift mem a 0 16 ∙ ap (λ i. name_bytes mem i 16) same))

  pub search_entries-find :
      (mem : ℕ → ℕ) (a n : ℕ)
      → search_entries mem name a n ≡ find_entry name (sector_entries mem a n)
  unfolding search_entries find_entry sector_entries
  search_entries-find mem a zero = refl
  search_entries-find mem a (suc n) =
      rw (same_name_lem mem a, search_entries-find mem (a + dir_entry_size) n) refl

  find-append :
      (es fs : List DirEntry)
      → find_entry name (es ++ fs) ≡ or_else (find_entry name es) (find_entry name fs)
  unfolding find_entry or_else
  find-append [] fs = refl
  find-append (e ∷ es) fs = elim (Bool-cases (list_eq (name_of e) name)) [
    | inl h ↦ rw h refl
    | inr h ↦ rw h (find-append es fs)
  ]

  find_empty : find_entry name [] ≡ none
  unfolding find_entry
  find_empty = refl

  search_blocks-find :
      (disk all : ℕ → ℕ) (b left : ℕ)
      → search_blocks disk all name b left ≡ find_entry name (dir_entries disk all b left)
  unfolding search_blocks dir_entries
  search_blocks-find disk all b zero = sym find_empty
  search_blocks-find disk all b (suc left) = elim (Bool-cases (all b == 0)) [
    | inl h ↦ rw h (search_blocks-find disk all (b + 1) left)
    | inr h ↦
        rw
          (
            h,
            search_entries-find (ide_read disk (all b)) 0 21,
            search_blocks-find disk all (b + 1) left,
          )
          (sym (
            find-append (sector_entries (ide_read disk (all b)) 0 21)
              (dir_entries disk all (b + 1) left)))
  ]

  -- `search_dir_entry` for a name of at most 15 characters, with memory for the addresses, gives the
  -- first entry of that name in the directory, and fails only where there is none.
  pub search_dir_entry-find :
      (v : Volume) (i_blocks : ℕ → ℕ)
      → search_dir_entry true v i_blocks name
        ≡ find_entry name (dir_entries v.disk (all_blocks i_blocks v.disk) 0 140)
  unfolding search_dir_entry
  search_dir_entry-find v i_blocks = search_blocks-find v.disk (all_blocks i_blocks v.disk) 0 140
