-- ===== src/Dir/Grow.antt =====
-- `sync_dir_entry` where a direct block is missing: a new block gets the entry.
use sparrow_os.Base.{
  ℕ, suc, ◌+◌, ◌-◌, ◌/◌, ◌%◌, ◌^◌, ◌≤◌, ◌<◌, ◌≡◌, ◌≢◌, ◌∙◌, refl, sym, subst, true, false, some,
  List, ltb, ◌==◌, arith, length, ok, not,
}
use sparrow_os.Bitmap.{Bitmap, scan, scan_test}
use sparrow_os.Bitmap.Bits.{IsBytes}
use sparrow_os.Bitmap.Scan.{FirstFit, scan-FirstFit}
use sparrow_os.Inode.{ide_read, ide_write}
use sparrow_os.DiskMaps.{blocks, lba_of, bitmap_sync}
use sparrow_os.DiskMaps.Sectors.{block_bitmap_alloc_lem, bitmap_sync-other}
use sparrow_os.OpenInodes.{Inode}
use sparrow_os.Blocks.{Volume, bit_of}
use sparrow_os.Dir.{
  DirEntry, search_dir_entry, only_entry, new_block, add_block, first_entry, set_block, sync_loop,
  direct_blocks, sync_dir_entry,
}
use sparrow_os.Dir.Slots.{Bears, FitsEntry, Reads, search_only}
use sparrow_os.Dir.Install.{read_back, read_other, search_none-local}
use sparrow_os.Dir.Sync.{IsSmall, FullBefore, direct_lem, found_after, not_there, starts}

-- The block `i` of the data is the first free one, the map of blocks lies before the data, and the
-- blocks of the directory are marked in it.
pub record HasBlock (node : Inode) (v : Volume) (i : ℕ) : Type 0 where
  pub free : scan v.maps.block_bitmap 1 ≡ ok (some i)
  pub bytes : IsBytes v.maps.block_bitmap
  pub begins : 0 < v.maps.data_start_lba
  pub ends : v.maps.data_start_lba + i < 2 ^ 32
  pub before : v.maps.block_bitmap_lba + i / 4096 < v.maps.data_start_lba
  pub marked :
      (b : ℕ)
      → b < 12
      → node.i_blocks b ≢ 0
      → (v.maps.data_start_lba ≤ node.i_blocks b)
        × (scan_test v.maps.block_bitmap (node.i_blocks b - v.maps.data_start_lba) ≡ true)

module _ (node : Inode) (v : Volume) (i : ℕ) (h : HasBlock node v i) where
  abbrev pub lba : ℕ
  lba = v.maps.data_start_lba + i

  clear : scan_test v.maps.block_bitmap i ≡ false
  clear =
      (subst (FirstFit v.maps.block_bitmap h.bytes) h.free
        (scan-FirstFit v.maps.block_bitmap h.bytes)).clear

  -- The new block is not one of the directory.
  fresh : (b : ℕ) → b < 12 → node.i_blocks b ≢ 0 → lba ≢ node.i_blocks b
  fresh b low used same =
      let (above, set) = h.marked b low used in
      let bit : node.i_blocks b - v.maps.data_start_lba ≡ i = omega arith in
      let both = rw bit at set in cc clear

  new_run :
      (map : Bitmap) × (new_block v
        ≡ ok (
          some lba,
          record {
            part = v.part;
            maps = record v.maps { block_bitmap = map };
            disk = bitmap_sync (record v.maps { block_bitmap = map }) i blocks v.disk;
          },
        ))
  unfolding new_block bit_of
  new_run =
      let (map, run, b, bits) = block_bitmap_alloc_lem v.maps i h.free h.bytes in
      let whole : (v.maps.data_start_lba + i) % 2 ^ 32 ≡ lba = omega arith in
      let back : (lba + (2 ^ 32 - v.maps.data_start_lba)) % 2 ^ 32 ≡ i = omega arith in
      let guard : not (i == 2 ^ 32 - 1) ≡ true = ground (arith, h.begins, h.ends) in
      (map, rw (run, whole, back, guard) refl)

  -- The directory and the volume that the branch gives.
  abbrev pub extended : ℕ → Inode
  extended r = record (set_block r lba node) { i_size = (node.i_size + 24) % 2 ^ 32 }

  abbrev pub filled : DirEntry → Bitmap → Volume
  filled e map = record {
    part = v.part;
    maps = record v.maps { block_bitmap = map };
    disk =
        ide_write (bitmap_sync (record v.maps { block_bitmap = map }) i blocks v.disk) lba
          (only_entry e) 1;
  }

  grow_run :
      (e : DirEntry) (r : ℕ)
      → r < 12
      → (map : Bitmap) × (add_block e r (direct_blocks node.i_blocks) node v
          ≡ ok (true, extended r, filled e map))
  unfolding add_block first_entry
  grow_run e r low =
      let (map, run) = new_run in
      let direct : ltb r 12 ≡ true = ground arith in (map, rw (run, direct) refl)

  before_data :
      (map : Bitmap) (x : ℕ)
      → v.maps.data_start_lba ≤ x
      → lba_of blocks (record v.maps { block_bitmap = map }) + i / 4096 ≢ x
  unfolding lba_of
  before_data map x above same = absurd (omega (arith, h.before))

  -- The sectors of the directory stay.
  sector_kept :
      (e : DirEntry) (map : Bitmap) (b j : ℕ)
      → b < 12
      → node.i_blocks b ≢ 0
      → j < 512
      → ide_read (filled e map).disk (node.i_blocks b) j ≡ ide_read v.disk (node.i_blocks b) j
  sector_kept e map b j low used inside =
      let (above, set) = h.marked b low used in
      read_other _ (only_entry e) lba (node.i_blocks b) j inside (fresh b low used)
      ∙ bitmap_sync-other (record v.maps { block_bitmap = map }) i (node.i_blocks b) j blocks v.disk
          inside (before_data map (node.i_blocks b) above)

  module _ (name : List ℕ) (e : DirEntry) (r : ℕ) (small : IsSmall node v name)
      (short : length name < 16) (bears : Bears e name) (fits : FitsEntry e) (low : r < 12)
      (full : FullBefore node v r) (missing : node.i_blocks r ≡ 0) where
    grow_step :
        (map : Bitmap) × (sync_loop e (direct_blocks node.i_blocks) node v r (suc (139 - r))
          ≡ ok (true, extended r, filled e map))
    unfolding sync_loop
    grow_step =
        let (map, run) = grow_run e r low in
        let hole : direct_blocks node.i_blocks r == 0 ≡ true =
          rw (direct_lem node.i_blocks r low) (ground arith) in
        (map, rw hole run)

    -- A direct block that is missing, with a free block on the disk: `sync_dir_entry` takes the block,
    -- and then the search finds the entry.
    pub sync_grow :
        (map : Bitmap) × (sync_dir_entry node e v ≡ ok (true, extended r, filled e map))
        × (e' : DirEntry) × (search_dir_entry true (filled e map) (extended r).i_blocks name
            ≡ some e')
        × Reads e e'
    sync_grow =
        let (map, run) = grow_step in
        let disk₁ = bitmap_sync (record v.maps { block_bitmap = map }) i blocks v.disk in
        let here : (extended r).i_blocks r ≡ lba = ground arith in
        let used : (extended r).i_blocks r ≢ 0 = rw here (λ z. absurd (omega (arith, h.begins))) in
        let (e', hit, reads) =
          search_only (ide_read (filled e map).disk lba) e name short bears fits
            (λ j q. read_back disk₁ (only_entry e) lba j q) in
        (
          map,
          starts node v name e r small short bears fits low full ∙ run,
          e',
          found_after (filled e map) (extended r).i_blocks name r e' low used (rw here hit)
              λ b lo ne.
                let old : (extended r).i_blocks b ≡ node.i_blocks b = ground arith in
                let there = rw old at ne in
                rw old (
                  search_none-local (ide_read v.disk (node.i_blocks b)) _ name 21 0 short
                    (omega arith) (λ j q. sym (sector_kept e map b j (omega arith) there q))
                    (not_there node v name e r small short bears fits low full b (omega arith)
                      there)),
          reads,
        )
