-- ===== src/FileData/Growth.antt =====
-- The loop of `file_write` that allocates direct blocks.
use sparrow_os.Base.{
  ℕ, zero, suc, ◌+◌, ◌-◌, ◌/◌, ◌%◌, ◌^◌, ◌≤◌, ◌<◌, ◌≡◌, ◌≢◌, ◌∙◌, refl, sym, inl, inr, ◌⊎◌, true,
  false, Option, none, some, Res, ok, panic, arith, ltb, leb, ◌==◌, if◌then◌else◌, Bool-cases,
  update,
}
use sparrow_os.Bitmap.{Bitmap, scan, scan_test, total}
use sparrow_os.Bitmap as Bitmap
use sparrow_os.Bitmap.Bits.{IsBytes, set_lem}
use sparrow_os.Bitmap.Scan.{Starts, FirstFit, scan-FirstFit}
use sparrow_os.Inode.{ide_read}
use sparrow_os.DiskMaps.{blocks, lba_of, bitmap_sync}
use sparrow_os.DiskMaps.Sectors.{block_run, bitmap_sync-other}
use sparrow_os.Blocks.{Volume, bit_of}
use sparrow_os.Dir.{set_block}
use sparrow_os.FileData.{Growing, take_block, grow_loop}

-- The map of blocks lies before the data, the data end below the largest address, and the `left`
-- blocks from `tail` on are free.
pub record Room (v : Volume) (tail left : ℕ) : Type 0 where
  pub bytes : IsBytes v.maps.block_bitmap
  pub ends : v.maps.data_start_lba + total v.maps.block_bitmap ≤ 2 ^ 32
  pub before : v.maps.block_bitmap_lba + total v.maps.block_bitmap / 4096 < v.maps.data_start_lba
  pub inside : tail + left ≤ total v.maps.block_bitmap
  pub clear : (j : ℕ) → tail ≤ j → j < tail + left → scan_test v.maps.block_bitmap j ≡ false

-- A block has been taken.
pub record Taken (v : Volume) (tail lba : ℕ) (v' : Volume) : Type 0 where
  pub part : v'.part ≡ v.part
  pub start : v'.maps.data_start_lba ≡ v.maps.data_start_lba
  pub map_lba : v'.maps.block_bitmap_lba ≡ v.maps.block_bitmap_lba
  pub len : total v'.maps.block_bitmap ≡ total v.maps.block_bitmap
  pub bytes : IsBytes v'.maps.block_bitmap
  pub above : v.maps.data_start_lba ≤ lba
  pub small : lba < 2 ^ 32
  pub was_clear : scan_test v.maps.block_bitmap (lba - v.maps.data_start_lba) ≡ false
  pub low : lba - v.maps.data_start_lba ≤ tail
  pub bits :
      (j : ℕ)
      → scan_test v'.maps.block_bitmap j
        ≡ (if (lba - v.maps.data_start_lba) == j then true else scan_test v.maps.block_bitmap j)
  pub disk :
      (x i : ℕ) → i < 512 → v.maps.data_start_lba ≤ x → ide_read v'.disk x i ≡ ide_read v.disk x i

-- What a search finds where some bit is clear.
first_clear :
    (m : Bitmap)
    → IsBytes m
    → (tail : ℕ) → tail < total m
    → scan_test m tail ≡ false
    → (i : ℕ) × (scan m 1 ≡ ok (some i)) × (i < total m) × (scan_test m i ≡ false) × (i ≤ tail)
first_clear m bytes tail inside clear = go (scan m 1) refl (scan-FirstFit m bytes)
  where
    lowest : (i : ℕ) → Starts m i → (leb i tail ≡ true) ⊎ (leb i tail ≡ false) → i ≤ tail
    lowest i s (inl le) = ground arith
    lowest i s (inr gt) = absurd (let set = s.below tail (ground arith) in cc (set, clear))

    go :
        (r : Res (Option ℕ))
        → scan m 1 ≡ r
        → FirstFit m bytes r
        → (i : ℕ) × (scan m 1 ≡ ok (some i)) × (i < total m) × (scan_test m i ≡ false) × (i ≤ tail)
    go (ok (some i)) e s = (i, e, s.inside, s.clear, lowest i s (Bool-cases (leb i tail)))
    go (ok none) e s = absurd s
    go panic e full = (let set = full tail inside in cc)

take_run :
    (v : Volume) (i : ℕ) (map : Bitmap)
    → scan v.maps.block_bitmap 1 ≡ ok (some i)
    → Bitmap.set v.maps.block_bitmap i 1 ≡ ok map
    → v.maps.data_start_lba + i < 2 ^ 32
    → take_block v
      ≡ ok (
        some (v.maps.data_start_lba + i),
        record {
          part = v.part;
          maps = record v.maps { block_bitmap = map };
          disk = bitmap_sync (record v.maps { block_bitmap = map }) i blocks v.disk;
        },
      )
unfolding take_block bit_of
take_run v i map found marks fits =
    let whole : (v.maps.data_start_lba + i) % 2 ^ 32 ≡ v.maps.data_start_lba + i = omega arith in
    let back : (v.maps.data_start_lba + i + (2 ^ 32 - v.maps.data_start_lba)) % 2 ^ 32 ≡ i =
      omega arith in
    rw (block_run v.maps i found map marks, whole, back) refl

take_block_lem :
    (v : Volume) (tail left : ℕ)
    → Room v tail (suc left)
    → (lba : ℕ) × (v' : Volume) × (take_block v ≡ ok (some lba, v')) × Taken v tail lba v'
unfolding lba_of
take_block_lem v tail left r =
    let (i, found, inside, clear, low) =
      first_clear v.maps.block_bitmap r.bytes tail (omega (arith, r.inside))
        (r.clear tail (omega arith) (omega arith)) in
    let (map, marks, len, bytes, bits) = set_lem v.maps.block_bitmap r.bytes i 1 (omega arith) in
    let back : v.maps.data_start_lba + i - v.maps.data_start_lba ≡ i = omega arith in
    let same : total map ≡ total v.maps.block_bitmap = rw len refl in
    (
      v.maps.data_start_lba + i,
      _,
      take_run v i map found marks (omega (arith, r.ends, inside)),
      record {
        part = refl;
        start = refl;
        map_lba = refl;
        len = same;
        bytes = bytes;
        above = omega arith;
        small = omega (arith, r.ends, inside);
        was_clear = rw back clear;
        low = rw back low;
        bits = λ j. rw back (bits j);
        disk = λ x k h in_data.
            bitmap_sync-other (record v.maps { block_bitmap = map }) i x k blocks v.disk h
              (λ e. absurd (omega (arith, r.before, inside)));
      },
    )

-- What the loop comes to for the blocks from `b` up to `e`.
pub record Grown (b e : ℕ) (g g' : Growing) : Type 0 where
  pub fine : g'.fine ≡ true
  pub part : g'.volume.part ≡ g.volume.part
  pub i_no : g'.node.i_no ≡ g.node.i_no
  pub i_size : g'.node.i_size ≡ g.node.i_size
  pub node_other : (c : ℕ) → (c < b) ⊎ (e ≤ c) → g'.node.i_blocks c ≡ g.node.i_blocks c
  pub all_other : (c : ℕ) → (c < b) ⊎ (e ≤ c) → g'.all c ≡ g.all c
  pub node_new : (c : ℕ) → b ≤ c → c < e → g'.node.i_blocks c ≡ g'.all c
  pub above : (c : ℕ) → b ≤ c → c < e → g.volume.maps.data_start_lba ≤ g'.all c
  pub free :
      (c : ℕ)
      → b ≤ c
      → c < e
      → scan_test g.volume.maps.block_bitmap (g'.all c - g.volume.maps.data_start_lba) ≡ false
  pub apart : (c d : ℕ) → b ≤ c → c < e → b ≤ d → d < e → c ≢ d → g'.all c ≢ g'.all d
  pub marked :
      (c : ℕ)
      → b ≤ c
      → c < e
      → scan_test g'.volume.maps.block_bitmap (g'.all c - g.volume.maps.data_start_lba) ≡ true
  pub kept :
      (j : ℕ)
      → scan_test g.volume.maps.block_bitmap j ≡ true
      → scan_test g'.volume.maps.block_bitmap j ≡ true
  pub disk :
      (x i : ℕ)
      → i < 512
      → g.volume.maps.data_start_lba ≤ x
      → ide_read g'.volume.disk x i ≡ ide_read g.volume.disk x i

pub Grown-none : (b : ℕ) (g : Growing) → g.fine ≡ true → Grown b (b + 0) g g
Grown-none b g fine = record {
  fine = fine;
  part = refl;
  i_no = refl;
  i_size = refl;
  node_other = λ c h. refl;
  all_other = λ c h. refl;
  node_new = λ c lo hi. absurd (omega arith);
  above = λ c lo hi. absurd (omega arith);
  free = λ c lo hi. absurd (omega arith);
  apart = λ c d lo hi. absurd (omega arith);
  marked = λ c lo hi. absurd (omega arith);
  kept = λ j h. h;
  disk = λ x i h above. refl;
}

module _ (g : Growing) (b tail lba : ℕ) (v : Volume) (t : Taken g.volume tail lba v) where
  -- After a round for a direct block.
  abbrev pub stepped : Growing
  stepped = record {
    fine = true;
    node = set_block b lba g.node;
    all = update g.all b lba;
    volume = v;
  }

  Room-stepped : (left : ℕ) → Room g.volume tail (suc left) → Room v (tail + 1) left
  Room-stepped left r = record {
    bytes = t.bytes;
    ends = omega (arith, t.start, t.len, r.ends);
    before = omega (arith, t.start, t.len, t.map_lba, r.before);
    inside = omega (arith, t.len, r.inside);
    clear = λ j lo hi. t.bits j ∙ ground (arith, t.low, r.clear j (omega arith) (omega arith));
  }

  abbrev bit_at : ℕ → ℕ
  bit_at x = x - g.volume.maps.data_start_lba

  -- What was free after the round was free before, and is not the new block.
  still :
      (x : ℕ)
      → scan_test v.maps.block_bitmap (bit_at x) ≡ false
      → (scan_test g.volume.maps.block_bitmap (bit_at x) ≡ false) × (lba ≢ x)
  still x h = ground (arith, t.bits (bit_at x), h)

  module _ (e : ℕ) (g' : Growing) (less : b < e) (r : Grown (b + 1) e stepped g') where
    here : g'.all b ≡ lba
    here = r.all_other b (inl (omega arith)) ∙ ground arith

    was_free :
        (c : ℕ)
        → b ≤ c
        → c < e
        → b ≢ c
        → (scan_test g.volume.maps.block_bitmap (bit_at (g'.all c)) ≡ false) × (lba ≢ g'.all c)
    was_free c lo hi ne =
        still (g'.all c) (let h = r.free c (omega (arith, lo, ne)) hi in rw t.start at h)

    set_now : scan_test v.maps.block_bitmap (bit_at lba) ≡ true
    set_now = t.bits (bit_at lba) ∙ ground arith

    -- The first block and the later ones together.
    Grown-step : Grown b e g g'
    Grown-step = record {
      fine = r.fine;
      part = r.part ∙ t.part;
      i_no = r.i_no;
      i_size = r.i_size;
      node_other = λ c h.
          r.node_other c (elim h [ inl lt ↦ inl (omega (arith, lt)) | inr le ↦ inr le ])
          ∙ elim h [ inl lt ↦ ground arith | inr le ↦ ground arith ];
      all_other = λ c h.
          r.all_other c (elim h [ inl lt ↦ inl (omega (arith, lt)) | inr le ↦ inr le ])
          ∙ elim h [ inl lt ↦ ground arith | inr le ↦ ground arith ];
      node_new = λ c lo hi. elim (Bool-cases (b == c)) [
        | inl same ↦
            let at : c ≡ b = ground arith in
            rw at (r.node_other b (inl (omega arith)) ∙ ground (arith, here))
        | inr other ↦ r.node_new c (ground arith) hi
      ];
      above = λ c lo hi. elim (Bool-cases (b == c)) [
        | inl same ↦ let at : c ≡ b = ground arith in rw (at, here) t.above
        | inr other ↦ let h = r.above c (ground arith) hi in rw t.start at h
      ];
      free = λ c lo hi. elim (Bool-cases (b == c)) [
        | inl same ↦ let at : c ≡ b = ground arith in rw (at, here) t.was_clear
        | inr other ↦ (was_free c lo hi (ground arith)).0
      ];
      apart = λ c d lo hi lo' hi' ne. elim (Bool-cases (b == c)) [
        | inl same ↦
            let at : c ≡ b = ground arith in
            rw (at, here) (was_free d lo' hi' (omega (arith, ne, at))).1
        | inr other ↦ elim (Bool-cases (b == d)) [
          | inl same ↦
              let at : d ≡ b = ground arith in
              rw (at, here) (λ q. (was_free c lo hi (ground arith)).1 (sym q))
          | inr others ↦ r.apart c d (ground arith) hi (ground arith) hi' ne
        ]
      ];
      marked = λ c lo hi. elim (Bool-cases (b == c)) [
        | inl same ↦ let at : c ≡ b = ground arith in rw (at, here) (r.kept (bit_at lba) set_now)
        | inr other ↦ let h = r.marked c (ground arith) hi in rw t.start at h
      ];
      kept = λ j h. r.kept j (t.bits j ∙ ground (arith, h));
      disk = λ x i h above. r.disk x i h (rw t.start above) ∙ t.disk x i h above;
    }

-- Where the direct blocks from `b` on are missing and as many blocks are free, the loop allocates
-- them all: each is another block, which was free.
pub grow_loop_lem :
    (left b tail : ℕ) (g : Growing)
    → g.fine ≡ true
    → Room g.volume tail left
    → b + left ≤ 12
    → ((c : ℕ) → b ≤ c → c < b + left → g.node.i_blocks c ≡ 0)
    → (g' : Growing) × (grow_loop b left g ≡ ok g') × Grown b (b + left) g g'
unfolding grow_loop
grow_loop_lem zero b tail g fine room direct missing = (g, refl, Grown-none b g fine)
grow_loop_lem (suc left) b tail g fine room direct missing =
    let (lba, v, takes, t) = take_block_lem g.volume tail left room in
    let low : ltb b 12 ≡ true = ground arith in
    let hole : g.node.i_blocks b ≡ 0 = missing b (omega arith) (omega arith) in
    let (g', run, r) =
      grow_loop_lem left (b + 1) (tail + 1) (stepped g b tail lba v t) refl
        (Room-stepped g b tail lba v t left room) (omega arith)
        (λ c lo hi. let old = missing c (omega arith) (omega arith) in ground (arith, old)) in
    let sum : b + 1 + left ≡ b + suc left = omega arith in
    (
      g',
      rw (takes, low) (rw hole run),
      rw (sym sum) (Grown-step g b tail lba v t (b + 1 + left) g' (omega arith) r),
    )
