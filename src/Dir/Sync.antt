-- ===== src/Dir/Sync.antt =====
-- What `sync_dir_entry` writes, `search_dir_entry` finds: the two cases of a directory whose direct
-- blocks have room.
use sparrow_os.Base.{
  ℕ, zero, suc, ◌+◌, ◌-◌, ◌%◌, ◌^◌, ◌≤◌, ◌<◌, ◌≡◌, ◌≢◌, ◌∙◌, refl, ap, sym, subst, true, false,
  none, some, List, ◌==◌, arith, length, ok,
}
use sparrow_os.Inode.{ide_read, ide_write}
use sparrow_os.OpenInodes.{Inode}
use sparrow_os.Blocks.{Volume, all_blocks}
use sparrow_os.Dir.{
  DirEntry, search_entries, search_dir_entry, put_entry, free_slot, sync_loop, direct_blocks,
  sync_dir_entry,
}
use sparrow_os.Dir.Slots.{
  Bears, FitsEntry, Reads, FirstSlot, put_held, put_before, search_put, free_slot_lem,
}
use sparrow_os.Dir.Install.{read_back, read_other, search_none-local, search_reaches, search_misses}

pub direct_lem : (i_blocks : ℕ → ℕ) (b : ℕ) → b < 12 → direct_blocks i_blocks b ≡ i_blocks b
unfolding direct_blocks
direct_lem i_blocks b h = ground arith

all_lem : (i_blocks disk : ℕ → ℕ) (b : ℕ) → b < 12 → all_blocks i_blocks disk b ≡ i_blocks b
unfolding all_blocks
all_lem i_blocks disk b h = ground arith

-- A directory that has only direct blocks, each of them once, and not the name.
pub record IsSmall (node : Inode) (v : Volume) (name : List ℕ) : Type 0 where
  pub whole : node.i_size % 24 ≡ 0
  pub no_table : node.i_blocks 12 ≡ 0
  pub once :
      (i j : ℕ) → i < 12 → j < 12 → node.i_blocks i ≢ 0 → node.i_blocks i ≡ node.i_blocks j → i ≡ j
  pub absent : search_dir_entry true v node.i_blocks name ≡ none

-- All the blocks before `r` are there, and their entries are in use.
abbrev pub FullBefore : Inode → Volume → ℕ → Type 0
FullBefore node v r =
    (i : ℕ)
    → i < r
    → (node.i_blocks i ≢ 0) × (free_slot (ide_read v.disk (node.i_blocks i)) 0 21 ≡ none)

sync_skip :
    (e : DirEntry) (all : ℕ → ℕ) (node : Inode) (v : Volume) (b left : ℕ)
    → all b ≢ 0
    → free_slot (ide_read v.disk (all b)) 0 21 ≡ none
    → sync_loop e all node v b (suc left) ≡ sync_loop e all node v (b + 1) left
unfolding sync_loop
sync_skip e all node v b left used full =
    let there : all b == 0 ≡ false = ground arith in rw (there, full) refl

-- The loop comes to the first block with room.
pub sync_reaches :
    (e : DirEntry) (node : Inode) (v : Volume) (r : ℕ)
    → r ≤ 12
    → FullBefore node v r
    → (m b left : ℕ) → b + m ≡ r
    → sync_loop e (direct_blocks node.i_blocks) node v b (m + left)
      ≡ sync_loop e (direct_blocks node.i_blocks) node v r left
sync_reaches e node v r low full zero b left at =
    let same : b ≡ r = omega arith in
    let rest : 0 + left ≡ left = omega arith in rw (same, rest) refl
sync_reaches e node v r low full (suc m) b left at =
    let (used, in_use) = full b (omega arith) in
    let direct : direct_blocks node.i_blocks b ≡ node.i_blocks b =
      direct_lem node.i_blocks b (omega arith) in
    let rest : suc m + left ≡ suc (m + left) = omega arith in
    rw rest (
      sync_skip e (direct_blocks node.i_blocks) node v b (m + left) (rw direct used)
        (rw direct in_use)
      ∙ sync_reaches e node v r low full m (b + 1) left (omega arith))

-- A search that comes to a direct block with the name.
pub found_after :
    (v : Volume) (i_blocks : ℕ → ℕ) (name : List ℕ) (r : ℕ) (e : DirEntry)
    → r < 12
    → i_blocks r ≢ 0
    → search_entries (ide_read v.disk (i_blocks r)) name 0 21 ≡ some e
    → ((i : ℕ)
        → i < r
        → i_blocks i ≢ 0
        → search_entries (ide_read v.disk (i_blocks i)) name 0 21 ≡ none)
    → search_dir_entry true v i_blocks name ≡ some e
unfolding search_dir_entry
found_after v i_blocks name r e low used hit before =
    let at = all_lem i_blocks v.disk r low in
    search_reaches v.disk (all_blocks i_blocks v.disk) name r e 140 0 (omega arith) (omega arith)
      (λ i lo hi ne.
        let here = all_lem i_blocks v.disk i (omega arith) in rw here (before i hi (rw here at ne)))
      (rw at used) (rw at hit)

module _ (node : Inode) (v : Volume) (name : List ℕ) (e : DirEntry) (r : ℕ)
    (small : IsSmall node v name) (short : length name < 16) (bears : Bears e name)
    (fits : FitsEntry e) (low : r < 12) (full : FullBefore node v r) where
  -- No direct block has the name before.
  pub not_there :
      (i : ℕ)
      → i < 12
      → node.i_blocks i ≢ 0
      → search_entries (ide_read v.disk (node.i_blocks i)) name 0 21 ≡ none
  unfolding search_dir_entry
  not_there i h ne =
      let here = all_lem node.i_blocks v.disk i h in
      rw (← here) (
        search_misses v.disk (all_blocks node.i_blocks v.disk) name 140 0 small.absent i
          (omega arith) (omega arith) (rw here ne))

  abbrev pub grown : Inode
  grown = record node { i_size = (node.i_size + 24) % 2 ^ 32 }

  pub starts :
      sync_dir_entry node e v ≡ sync_loop e (direct_blocks node.i_blocks) node v r (suc (139 - r))
  unfolding sync_dir_entry
  starts =
      let guard : node.i_size % 24 == 0 ≡ true = ground (arith, small.whole) in
      let rounds : 140 ≡ r + suc (139 - r) = omega arith in
      rw guard (
        ap (sync_loop e (direct_blocks node.i_blocks) node v 0) rounds
        ∙ sync_reaches e node v r (omega arith) full r 0 (suc (139 - r)) (omega arith))

  module _ (off : ℕ) (there : node.i_blocks r ≢ 0)
      (slot : free_slot (ide_read v.disk (node.i_blocks r)) 0 21 ≡ some off) where
    abbrev pub written : Volume
    written = record v {
      disk =
          ide_write v.disk (node.i_blocks r) (put_entry (ide_read v.disk (node.i_blocks r)) off e)
            1;
    }

    apart : (i : ℕ) → i < r → node.i_blocks r ≢ node.i_blocks i
    apart i lo same = absurd (omega (arith, small.once r i low (omega arith) there same))

    put_run :
        sync_loop e (direct_blocks node.i_blocks) node v r (suc (139 - r))
        ≡ ok (true, grown, written)
    unfolding sync_loop
    put_run =
        let direct = direct_lem node.i_blocks r low in
        let all = direct_blocks node.i_blocks in
        let used : all r == 0 ≡ false = rw direct (ground arith) in
        let found : free_slot (ide_read v.disk (all r)) 0 21 ≡ some off = rw direct slot in
        rw (used, found)
          (ap
            (λ lba. ok (
              true,
              grown,
              record v { disk = ide_write v.disk lba (put_entry (ide_read v.disk lba) off e) 1 },
            ))
            direct)

    slot_at : FirstSlot (ide_read v.disk (node.i_blocks r)) 0 21 (some off)
    slot_at =
        subst (FirstSlot (ide_read v.disk (node.i_blocks r)) 0 21) slot
          (free_slot_lem (ide_read v.disk (node.i_blocks r)) 21 0)

    -- A directory without indirect blocks, with direct blocks that differ, a size of whole entries,
    -- and no entry with the name, which has at most 15 characters, and an entry of
    -- that name whose fields fit in it: where the direct blocks before
    -- `r` are in use and full and `r` is in use and has a slot, `sync_dir_entry` puts the entry in the
    -- first slot of `r`, and then the search for the name finds it.
    pub sync_slot :
        (sync_dir_entry node e v ≡ ok (true, grown, written))
        × (e' : DirEntry) × (search_dir_entry true written grown.i_blocks name ≡ some e')
        × Reads e e'
    sync_slot =
        let lba = node.i_blocks r in
        let buf = ide_read v.disk lba in
        let (k, at, inside, unused, used) = slot_at in
        let mem = ide_read written.disk lba in
        let byte : (i : ℕ) → i < 512 → mem i ≡ put_entry buf off e i =
          λ i h. read_back v.disk _ lba i h in
        let (e', hit, reads) =
          search_put mem buf off e (λ i h. byte (off + i) (omega arith) ∙ put_held buf off e i h)
            (λ i h. byte i (omega arith) ∙ put_before buf off e i h) name short bears fits 21 0 k at
            inside (not_there r low there) in
        (
          starts ∙ put_run,
          e',
          found_after written node.i_blocks name r e' low there hit λ i lo ne.
              search_none-local (ide_read v.disk (node.i_blocks i)) _ name 21 0 short (omega arith)
                (λ j h. sym (read_other v.disk _ lba (node.i_blocks i) j h (apart i lo)))
                (not_there i (omega arith) ne),
          reads,
        )
