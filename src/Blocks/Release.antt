-- ===== src/Blocks/Release.antt =====
-- What `inode_release` gives back.
use sparrow_os.Base.{
  ℕ, zero, suc, ◌+◌, ◌-◌, ◌%◌, ◌^◌, ◌≤◌, ◌<◌, ◌≡◌, ◌≢◌, ◌∙◌, refl, ap, sym, inl, inr, Bool, true,
  false, ok, ltb, ◌==◌, if◌then◌else◌, arith, Bool-cases,
}
use sparrow_os.Bitmap.{scan_test}
use sparrow_os.Bitmap.Bits.{IsBytes, set_lem}
use sparrow_os.DiskMaps.{DiskMaps, blocks, bitmap_sync}
use sparrow_os.Blocks.{Volume, all_blocks, bit_of, free_block, free_loop, free_blocks}

-- A volume whose map of blocks is `m`, and which is otherwise as before but for the disk.
pub record Freed (v v' : Volume) : Type 0 where
  pub bytes : IsBytes v'.maps.block_bitmap
  pub part : v'.part ≡ v.part
  pub start : v'.maps.data_start_lba ≡ v.maps.data_start_lba
  pub inode_bitmap : v'.maps.inode_bitmap ≡ v.maps.inode_bitmap
  pub cleared :
      (j : ℕ) → scan_test v.maps.block_bitmap j ≡ false → scan_test v'.maps.block_bitmap j ≡ false

-- A block behind the first of the data.
abbrev pub IsData : ℕ → ℕ → Type 0
IsData start lba = (start < lba) × (lba < 2 ^ 32)

pub zero_lt_two : 0 < 2
zero_lt_two = omega arith

free_block_lem :
    (v : Volume) (start lba : ℕ)
    → v.maps.data_start_lba ≡ start
    → IsBytes v.maps.block_bitmap
    → IsData start lba
    → (v' : Volume) × (free_block lba v ≡ ok v')
      × Freed v v'
      × ((j : ℕ)
          → scan_test v'.maps.block_bitmap j
            ≡ (if (lba - start) == j then false else scan_test v.maps.block_bitmap j))
unfolding free_block bit_of
free_block_lem v start lba e bytes at =
    let i = lba - start in
    let plain : (lba + (2 ^ 32 - v.maps.data_start_lba)) % 2 ^ 32 ≡ i = omega arith in
    let guard : ltb 0 i ≡ true = ground arith in
    let (map, run, len, b, bits) = set_lem v.maps.block_bitmap bytes i 0 zero_lt_two in
    let maps : DiskMaps = record v.maps { block_bitmap = map } in
    (
      record v { maps = maps; disk = bitmap_sync maps i blocks v.disk },
      rw (plain, guard, run) refl,
      record {
        bytes = b;
        part = refl;
        start = refl;
        inode_bitmap = refl;
        cleared = λ j h. ground (arith, bits j);
      },
      λ j. ground (arith, bits j),
    )

Freed-trans : (u v w : Volume) → Freed u v → Freed v w → Freed u w
Freed-trans u v w f g = record {
  bytes = g.bytes;
  part = g.part ∙ f.part;
  start = g.start ∙ f.start;
  inode_bitmap = g.inode_bitmap ∙ f.inode_bitmap;
  cleared = λ j h. g.cleared j (f.cleared j h);
}

Freed-refl : (v : Volume) → IsBytes v.maps.block_bitmap → Freed v v
Freed-refl v b = record {
  bytes = b;
  part = refl;
  start = refl;
  inode_bitmap = refl;
  cleared = λ j h. h;
}

-- The bits of the blocks from `b` up to `end` are clear, and each other bit is as it was.
record Range (all : ℕ → ℕ) (start b end : ℕ) (v v' : Volume) : Type 0 where
  pub freed : Freed v v'
  pub free :
      (i : ℕ) → b ≤ i → i < end → all i ≢ 0 → scan_test v'.maps.block_bitmap (all i - start) ≡ false
  pub kept :
      (j : ℕ)
      → ((i : ℕ) → b ≤ i → i < end → all i ≢ 0 → all i - start ≢ j)
      → scan_test v'.maps.block_bitmap j ≡ scan_test v.maps.block_bitmap j

module _ (all : ℕ → ℕ) (start : ℕ) where
  skipped :
      (left b : ℕ) (v v' : Volume)
      → all b ≡ 0
      → Range all start (b + 1) (b + 1 + left) v v'
      → Range all start b (b + suc left) v v'
  skipped left b v v' hole r = record {
    freed = r.freed;
    free = λ i lo hi ne. r.free i (above i lo ne) (omega arith) ne;
    kept = λ j h. r.kept j (λ i lo hi ne. h i (omega arith) (omega arith) ne);
  }
    where
      above : (i : ℕ) → b ≤ i → all i ≢ 0 → b + 1 ≤ i
      above i lo ne = elim (Bool-cases (b == i)) [
        | inl e ↦ let same : b ≡ i = ground arith in absurd (ne (sym (ap all same) ∙ hole))
        | inr e ↦ ground arith
      ]

  joined :
      (left b : ℕ) (v v₁ v' : Volume)
      → Freed v v₁
      → ((j : ℕ)
          → scan_test v₁.maps.block_bitmap j
            ≡ (if (all b - start) == j then false else scan_test v.maps.block_bitmap j))
      → Range all start (b + 1) (b + 1 + left) v₁ v'
      → all b ≢ 0
      → Range all start b (b + suc left) v v'
  joined left b v v₁ v' f bits r used = record {
    freed = Freed-trans v v₁ v' f r.freed;
    free = λ i lo hi ne. elim (Bool-cases (b == i)) [
      | inl e ↦
          let same : i ≡ b = ground arith in
          ap (λ i. scan_test v'.maps.block_bitmap (all i - start)) same
          ∙ r.freed.cleared (all b - start) (ground (arith, bits (all b - start)))
      | inr e ↦ r.free i (ground arith) (omega arith) ne
    ];
    kept = λ j h.
        r.kept j (λ i lo hi ne. h i (omega arith) (omega arith) ne)
        ∙ ground (arith, bits j, h b (omega arith) (omega arith) used);
  }

  free_loop_lem :
      (left b : ℕ) (v : Volume)
      → v.maps.data_start_lba ≡ start
      → IsBytes v.maps.block_bitmap
      → ((i : ℕ) → b ≤ i → i < b + left → all i ≢ 0 → IsData start (all i))
      → (v' : Volume) × (free_loop all b left v ≡ ok v') × Range all start b (b + left) v v'
  unfolding free_loop
  free_loop_lem zero b v e bytes at = (
    v,
    refl,
    record {
      freed = Freed-refl v bytes;
      free = λ i lo hi ne. absurd (omega arith);
      kept = λ j h. refl;
    },
  )
  free_loop_lem (suc left) b v e bytes at = elim (Bool-cases (all b == 0)) [
    | inl hole ↦
        let (v', run, r) =
          free_loop_lem left (b + 1) v e bytes
            (λ i lo hi ne. at i (omega arith) (omega arith) ne) in
        (v', rw hole run, skipped left b v v' (ground arith) r)
    | inr used ↦
        let (v₁, first, f, bits) =
          free_block_lem v start (all b) e bytes
            (at b (omega arith) (omega arith) (ground arith)) in
        let (v', run, r) =
          free_loop_lem left (b + 1) v₁ (f.start ∙ e) f.bytes
            (λ i lo hi ne. at i (omega arith) (omega arith) ne) in
        (v', rw (used, first) run, joined left b v v₁ v' f bits r (ground arith))
  ]

-- What the blocks of an inode come to: the bits of its table and of all the blocks are clear, and
-- each other bit of the map is as it was.
pub record Returned (i_blocks : ℕ → ℕ) (v v' : Volume) : Type 0 where
  pub freed : Freed v v'
  pub table :
      i_blocks 12 ≢ 0 → scan_test v'.maps.block_bitmap (i_blocks 12 - v.maps.data_start_lba) ≡ false
  pub free :
      (i : ℕ)
      → i < 140
      → all_blocks i_blocks v.disk i ≢ 0
      → scan_test v'.maps.block_bitmap (all_blocks i_blocks v.disk i - v.maps.data_start_lba)
        ≡ false
  pub kept :
      (j : ℕ)
      → (i_blocks 12 ≢ 0 → i_blocks 12 - v.maps.data_start_lba ≢ j)
      → ((i : ℕ)
          → i < 140
          → all_blocks i_blocks v.disk i ≢ 0
          → all_blocks i_blocks v.disk i - v.maps.data_start_lba ≢ j)
      → scan_test v'.maps.block_bitmap j ≡ scan_test v.maps.block_bitmap j

-- The blocks of an inode lie in the data, behind the first block.
pub record InData (i_blocks : ℕ → ℕ) (v : Volume) : Type 0 where
  pub bytes : IsBytes v.maps.block_bitmap
  pub table : i_blocks 12 ≢ 0 → IsData v.maps.data_start_lba (i_blocks 12)
  pub others :
      (i : ℕ)
      → i < 140
      → all_blocks i_blocks v.disk i ≢ 0
      → IsData v.maps.data_start_lba (all_blocks i_blocks v.disk i)

is_zero : (x : ℕ) → x == 0 ≡ true → x ≡ 0
is_zero x e = ground arith

nonzero : (x : ℕ) → x == 0 ≡ false → x ≢ 0
nonzero x e = ground arith

same_bit : (x : ℕ) (old : Bool) → (if x == x then false else old) ≡ false
same_bit x old = ground arith

other_bit : (x j : ℕ) (old : Bool) → x ≢ j → (if x == j then false else old) ≡ old
other_bit x j old ne = ground arith

module _ (i_blocks : ℕ → ℕ) (v : Volume) (d : InData i_blocks v) where
  abbrev all : ℕ → ℕ
  all = all_blocks i_blocks v.disk

  abbrev first : ℕ
  first = v.maps.data_start_lba

  no_table : i_blocks 12 ≡ 0 → (i : ℕ) → 12 ≤ i → all i ≡ 0
  unfolding all_blocks
  no_table e i h = ground arith

  not_above : (i : ℕ) → all i ≢ 0 → i_blocks 12 ≡ 0 → i < 12
  not_above i ne e = elim (Bool-cases (ltb i 12)) [
    | inl low ↦ ground arith
    | inr high ↦ absurd (ne (no_table e i (ground arith)))
  ]

  -- `free_blocks` gives back the table and the blocks of an inode, and nothing else.
  pub free_blocks_lem : (v' : Volume) × (free_blocks i_blocks v ≡ ok v') × Returned i_blocks v v'
  unfolding free_blocks
  free_blocks_lem = elim (Bool-cases (i_blocks 12 == 0)) [
    | inl none ↦
        let below : (i : ℕ) → all i ≢ 0 → i < 12 =
          λ i ne. not_above i ne (is_zero (i_blocks 12) none) in
        let (v', run, r) =
          free_loop_lem all first 12 0 v refl d.bytes (λ i lo hi ne. d.others i (omega arith) ne) in
        (
          v',
          rw none run,
          record {
            freed = r.freed;
            table = λ ne. absurd (ne (is_zero (i_blocks 12) none));
            free = λ i h ne. r.free i (omega arith) (below i ne) ne;
            kept = λ j t h. r.kept j (λ i lo hi ne. h i (omega arith) ne);
          },
        )
    | inr some ↦
        let used : i_blocks 12 ≢ 0 = nonzero (i_blocks 12) some in
        let (v₁, once, f, bits) =
          free_block_lem v first (i_blocks 12) refl d.bytes (d.table used) in
        let (v', run, r) =
          free_loop_lem all first 140 0 v₁ f.start f.bytes
            (λ i lo hi ne. d.others i (omega arith) ne) in
        (
          v',
          rw (some, once) run,
          record {
            freed = Freed-trans v v₁ v' f r.freed;
            table = λ ne.
                r.freed.cleared _ (bits (i_blocks 12 - first) ∙ same_bit (i_blocks 12 - first) _);
            free = λ i h ne. r.free i (omega arith) (omega arith) ne;
            kept = λ j t h.
                r.kept j (λ i lo hi ne. h i (omega arith) ne)
                ∙ bits j
                ∙ other_bit (i_blocks 12 - first) j _ (t used);
          },
        )
  ]
