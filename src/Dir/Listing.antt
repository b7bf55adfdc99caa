-- ===== src/Dir/Listing.antt =====
-- `dir_is_empty` and `dir_read` of fs/dir.c, and that successive reads list the entries in use.
use sparrow_os.Base.{
  ℕ, zero, suc, ◌+◌, ◌-◌, ◌*◌, ◌%◌, ◌^◌, ◌≤◌, ◌<◌, ◌≡◌, refl, ap, sym, inl, inr, Bool, true, false,
  Option, none, some, List, [], ◌∷◌, ◌++◌, Res, ok, check, ◌>>=◌, ◌>>◌, ltb, leb, ◌==◌,
  if◌then◌else◌, arith, length, get_elem?, Bool-cases,
}
use sparrow_os.Inode.{ide_read}
use sparrow_os.OpenInodes.{Inode, word}
use sparrow_os.Blocks.{Volume, all_blocks}
use sparrow_os.Dir.{DirEntry, dir_entry_size, dir_entrys_per_sec, load_entry}
use sparrow_os.Dir.Search.{sector_entries, dir_entries}

-- `dir_is_empty`
unfoldable pub dir_is_empty : Inode → Bool
dir_is_empty dir_inode = dir_inode.i_size == dir_entry_size * 2

-- The loop of `dir_read` over the entries of a sector: an entry, or the position behind them.
pub read_entries : (ℕ → ℕ) → ℕ → ℕ → ℕ → ℕ → Res (Option DirEntry × ℕ)
read_entries mem off zero cur_dir_entry_pos dir_pos = ok (none, cur_dir_entry_pos)
read_entries mem off (suc left) cur_dir_entry_pos dir_pos =
    let cur' =
      if word mem (off + 20) == 0 then cur_dir_entry_pos else cur_dir_entry_pos + dir_entry_size in
    let rest = read_entries mem (off + dir_entry_size) left cur' dir_pos in
    if word mem (off + 20) == 0 then rest else if ltb cur_dir_entry_pos dir_pos then rest else (do
      check (cur_dir_entry_pos == dir_pos)
      ok (some (load_entry mem off), cur_dir_entry_pos))

-- The loop of `dir_read` over the blocks.
pub read_blocks : (ℕ → ℕ) → (ℕ → ℕ) → ℕ → ℕ → ℕ → ℕ → ℕ → Res (Option DirEntry)
read_blocks disk all i_size dir_pos b zero cur = ok none
read_blocks disk all i_size dir_pos b (suc left) cur = if leb i_size dir_pos then ok none else (do
  (found, cur') ←
      if all b == 0
      then ok (none, cur)
      else read_entries (ide_read disk (all b)) 0 dir_entrys_per_sec cur dir_pos
  elim found [
    | some e ↦ ok (some e)
    | none ↦ read_blocks disk all i_size dir_pos (b + 1) left cur'
  ])

-- `dir_read`, with the position of the directory.
pub dir_read : Volume → Inode → ℕ → Res (Option DirEntry × ℕ)
dir_read v dir_inode dir_pos = do
  let block_cnt = if dir_inode.i_blocks 12 == 0 then 12 else 140
  found ←
      read_blocks v.disk (all_blocks dir_inode.i_blocks v.disk) dir_inode.i_size dir_pos 0 block_cnt
        0
  elim found [
    | none ↦ ok (none, dir_pos)
    | some e ↦ ok (some e, (dir_pos + dir_entry_size) % 2 ^ 32)
  ]

-- The entries in use.
pub used : List DirEntry → List DirEntry
used [] = []
used (e ∷ es) = if e.f_type == 0 then used es else e ∷ used es

used-append : (es fs : List DirEntry) → used (es ++ fs) ≡ used es ++ used fs
unfolding used
used-append [] fs = refl
used-append (e ∷ es) fs = elim (Bool-cases (e.f_type == 0)) [
  | inl h ↦ rw h (used-append es fs)
  | inr h ↦ rw (h, used-append es fs) refl
]

elem_low : (es fs : List DirEntry) (i : ℕ) → i < length es → get_elem? (es ++ fs) i ≡ get_elem? es i
elem_low [] fs i h = absurd (omega arith)
elem_low (e ∷ es) fs zero h = refl
elem_low (e ∷ es) fs (suc i) h = elem_low es fs i (omega arith)

elem_high :
    (es fs : List DirEntry) (i : ℕ)
    → length es ≤ i
    → get_elem? (es ++ fs) i ≡ get_elem? fs (i - length es)
elem_high [] fs i h = let e : i - 0 ≡ i = omega arith in rw e refl
elem_high (e ∷ es) fs zero h = absurd (omega arith)
elem_high (e ∷ es) fs (suc i) h =
    let m : suc i - suc (length es) ≡ i - length es = omega arith in
    rw m (elem_high es fs i (omega arith))

elem_some :
    (es : List DirEntry) (i : ℕ) → i < length es → (e : DirEntry) × (get_elem? es i ≡ some e)
elem_some [] i h = absurd (omega arith)
elem_some (e ∷ es) zero h = (e, refl)
elem_some (e ∷ es) (suc i) h = elem_some es i (omega arith)

used-none : (i : ℕ) → get_elem? (used []) i ≡ none
unfolding used
used-none i = refl

-- The loop over a sector, at the entry `j` of the directory where the entry `k` is wanted: it gives
-- the entry, or goes past all that are in use.
abbrev ReadsTo : List DirEntry → ℕ → ℕ → Res (Option DirEntry × ℕ) → Type 0
ReadsTo us j k r =
    ((e : DirEntry) → get_elem? us (k - j) ≡ some e → r ≡ ok (some e, 24 * k))
    × (length us ≤ k - j → r ≡ ok (none, 24 * (j + length us)))

read_entries_lem :
    (mem : ℕ → ℕ) (n off j k : ℕ)
    → j ≤ k
    → ReadsTo (used (sector_entries mem off n)) j k (read_entries mem off n (24 * j) (24 * k))
unfolding read_entries used sector_entries load_entry
read_entries_lem mem zero off j k le =
    (λ e h. cc, λ h. let same : 24 * j ≡ 24 * (j + 0) = omega arith in rw (← same) refl)
read_entries_lem mem (suc n) off j k le = elim (Bool-cases (word mem (off + 20) == 0)) [
  | inl free ↦ rw free (read_entries_lem mem n (off + 24) j k le)
  | inr busy ↦ elim (Bool-cases (ltb (24 * j) (24 * k))) [
    | inl before ↦
        let next : 24 * j + 24 ≡ 24 * (j + 1) = omega arith in
        let (found, past) = read_entries_lem mem n (off + 24) (j + 1) k (ground arith) in
        let step : k - j ≡ suc (k - (j + 1)) = ground arith in
        rw (busy, before, next)
          (
            λ e h. found e (rw step at h),
            λ h.
                let rest = used (sector_entries mem (off + 24) n) in
                let more : suc (length rest) ≤ k - j = h in
                let m : 24 * (j + suc (length rest)) ≡ 24 * (j + 1 + length rest) = omega arith in
                rw m (past (omega arith)),
          )
    | inr here ↦
        let same : j ≡ k = ground arith in
        let zero_left : k - j ≡ 0 = omega arith in
        let at : 24 * j ≡ 24 * k = omega arith in
        let self : 24 * k == 24 * k ≡ true = ground arith in
        rw (busy, here, zero_left, at, self)
          (λ e q. ap (λ o. ok (o, 24 * k)) q, λ h. absurd (omega arith))
  ]
]

-- The loop over the blocks gives the entry with the number that is left, if there is one.
read_blocks_lem :
    (disk all : ℕ → ℕ) (size k left b j : ℕ)
    → j ≤ k
    → 24 * k < size
    → read_blocks disk all size (24 * k) b left (24 * j)
      ≡ ok (get_elem? (used (dir_entries disk all b left)) (k - j))
unfolding read_blocks dir_entries
read_blocks_lem disk all size k zero b j le inside = ap ok (sym (used-none (k - j)))
read_blocks_lem disk all size k (suc left) b j le inside =
    let more : leb size (24 * k) ≡ false = ground arith in
    let later = used (dir_entries disk all (b + 1) left) in
    elim (Bool-cases (all b == 0)) [
      | inl hole ↦ rw (more, hole) (read_blocks_lem disk all size k left (b + 1) j le inside)
      | inr block ↦
          let here = used (sector_entries (ide_read disk (all b)) 0 21) in
          let (found, past) = read_entries_lem (ide_read disk (all b)) 21 0 j k le in
          elim (Bool-cases (ltb (k - j) (length here))) [
            | inl low ↦
                let (e, at) = elem_some here (k - j) (ground arith) in
                rw (more, block, used-append)
                  (rw (found e at) (rw (elem_low here later (k - j) (ground arith), at) refl))
            | inr high ↦
                let passed : length here ≤ k - j = ground arith in
                let m : k - j - length here ≡ k - (j + length here) = omega arith in
                rw (more, block, used-append)
                  (rw (past passed) (
                    rw (elem_high here later (k - j) passed, m)
                      (read_blocks_lem disk all size k left (b + 1) (j + length here) (omega arith)
                        inside)))
          ]
    ]

-- What the reads at a position come to: the entry, and the next position.
abbrev pub listed : Option DirEntry → ℕ → Option DirEntry × ℕ
listed none dir_pos = (none, dir_pos)
listed (some e) dir_pos = (some e, (dir_pos + 24) % 2 ^ 32)

-- `dir_read` at the position `24 k`, before the end that the size gives, gives the entry in use with
-- number `k` of all the blocks, in their order, and moves to the position after it; where there is no
-- such entry it gives none and stays.
pub dir_read_lem :
    (v : Volume) (node : Inode) (k : ℕ)
    → 24 * k < node.i_size
    → dir_read v node (24 * k)
      ≡ ok (
          listed
            (get_elem?
              (used (
                dir_entries v.disk
                  (all_blocks node.i_blocks v.disk)
                  0
                  (if node.i_blocks 12 == 0 then 12 else 140)))
              k)
            (24 * k))
unfolding dir_read
dir_read_lem v node k inside =
    let cnt : ℕ = if node.i_blocks 12 == 0 then 12 else 140 in
    let all = all_blocks node.i_blocks v.disk in
    let run = read_blocks_lem v.disk all node.i_size k cnt 0 0 (omega arith) inside in
    let origin : 24 * 0 ≡ 0 = omega arith in
    let whole : k - 0 ≡ k = omega arith in
    let read : read_blocks v.disk all node.i_size (24 * k) 0 cnt 0
        ≡ ok (get_elem? (used (dir_entries v.disk all 0 cnt)) k) =
      rw (origin, whole) at run in
    rw read (go (get_elem? (used (dir_entries v.disk all 0 cnt)) k))
  where
    go :
        (o : Option DirEntry)
        → (elim o as (λ o. Res (Option DirEntry × ℕ)) [
          | none ↦ ok (none, 24 * k)
          | some e ↦ ok (some e, (24 * k + 24) % 2 ^ 32)
        ])
          ≡ ok (listed o (24 * k))
    go none = refl
    go (some e) = refl
