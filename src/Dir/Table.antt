-- ===== src/Dir/Table.antt =====
-- `sync_dir_entry` on a directory whose twelve direct blocks are full.
use sparrow_os.Base.{
  ℕ, ◌+◌, ◌-◌, ◌*◌, ◌/◌, ◌%◌, ◌^◌, ◌≤◌, ◌<◌, ◌≡◌, ◌≢◌, ◌∙◌, refl, ap, true, false, some, ltb, ◌==◌,
  arith, ok, update,
}
use sparrow_os.Inode.{ide_read, ide_write}
use sparrow_os.OpenInodes.{Inode, word, byte_of}
use sparrow_os.OpenInodes.Image.{word_lem}
use sparrow_os.Blocks.{Volume, all_blocks}
use sparrow_os.Dir.{
  DirEntry, only_entry, new_block, add_block, first_entry, set_block, table_bytes, sync_loop,
  direct_blocks, sync_dir_entry,
}
use sparrow_os.Dir.Install.{read_back, read_other}
use sparrow_os.Dir.Sync.{FullBefore, sync_reaches}

no_direct : (i_blocks : ℕ → ℕ) (b : ℕ) → 12 ≤ b → direct_blocks i_blocks b ≡ 0
unfolding direct_blocks
no_direct i_blocks b h = ground arith

table_byte :
    (all : ℕ → ℕ) (q k : ℕ) → k < 4 → table_bytes all (4 * q + k) ≡ byte_of (all (12 + q)) k
unfolding table_bytes
table_byte all q k h =
    let whole : (4 * q + k) / 4 ≡ q = omega arith in
    let rest : (4 * q + k) % 4 ≡ k = omega arith in rw (whole, rest) refl

module _ (node : Inode) (v v₁ v₂ : Volume) (e : DirEntry) (table lba : ℕ)
    (full : FullBefore node v 12) (first : new_block v ≡ ok (some table, v₁))
    (second : new_block v₁ ≡ ok (some lba, v₂)) where
  -- The addresses that are written to the new table.
  abbrev listed : ℕ → ℕ
  listed = update (direct_blocks node.i_blocks) 12 lba

  abbrev replaced : Inode
  replaced = record (set_block 12 table node) { i_size = (node.i_size + 24) % 2 ^ 32 }

  abbrev after : Volume
  after = record v₂ {
    disk = ide_write (ide_write v₂.disk table (table_bytes listed) 1) lba (only_entry e) 1;
  }

  table_run : node.i_size % 24 ≡ 0 → sync_dir_entry node e v ≡ ok (true, replaced, after)
  unfolding sync_dir_entry sync_loop add_block first_entry
  table_run whole =
      let guard : node.i_size % 24 == 0 ≡ true = ground arith in
      let hole : direct_blocks node.i_blocks 12 == 0 ≡ true =
        rw (no_direct node.i_blocks 12 (omega arith)) refl in
      rw guard (
        sync_reaches e node v 12 (omega arith) full 12 0 128 (omega arith)
        ∙ rw (hole, first) (rw second refl))

  listed_zero : (b : ℕ) → 12 < b → listed b ≡ 0
  listed_zero b h = ground (arith, no_direct node.i_blocks b)

  listed_word :
      (b : ℕ)
      → 12 ≤ b
      → b < 140
      → lba ≢ table
      → listed b < 2 ^ 32
      → word (ide_read after.disk table) (4 * (b - 12)) ≡ listed b
  listed_word b lo hi apart fits =
      let q = b - 12 in
      let back : 12 + q ≡ b = omega arith in
      let origin : 4 * q ≡ 0 + 4 * q = omega arith in
      ap (word (ide_read after.disk table)) origin
      ∙ word_lem (ide_read after.disk table) (λ q. listed (12 + q)) 0 q (rw back fits)
          (λ k h.
            let at : 0 + 4 * q + k ≡ 4 * q + k = omega arith in
            rw at (
              read_other _ (only_entry e) lba table (4 * q + k) (omega arith) apart
              ∙ read_back v₂.disk (table_bytes listed) table (4 * q + k) (omega arith)
              ∙ table_byte listed q k h))
      ∙ ap listed back

  -- Where the twelve direct blocks are full, each entry replaces the table of the directory by a new
  -- one, which holds only the new block: the 127 other indirect blocks are gone from the directory,
  -- whatever its old table held.
  pub lost_table :
      node.i_size % 24 ≡ 0
      → table ≢ 0
      → lba ≢ table
      → lba < 2 ^ 32
      → (node' : Inode) × (v' : Volume) × (sync_dir_entry node e v ≡ ok (true, node', v'))
        × (all_blocks node'.i_blocks v'.disk 12 ≡ lba)
        × ((b : ℕ) → 12 < b → b < 140 → all_blocks node'.i_blocks v'.disk b ≡ 0)
  unfolding all_blocks
  lost_table whole used apart fits =
      let there : table == 0 ≡ false = ground arith in
      (
        replaced,
        after,
        table_run whole,
        rw there (listed_word 12 (omega arith) (omega arith) apart fits),
        λ b lo hi.
            let indirect : ltb b 12 ≡ false = ground arith in
            let zero_there = listed_zero b lo in
            rw (indirect, there)
              (listed_word b (omega arith) hi apart (rw zero_there (omega arith)) ∙ zero_there),
      )
