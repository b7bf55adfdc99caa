-- ===== src/Dir/Delete.antt =====
-- `delete_dir_entry` of fs/dir.c.
pub mod Removal
use sparrow_os.Base.{
  ℕ, zero, suc, ◌+◌, ◌-◌, ◌*◌, ◌%◌, ◌^◌, ◌≤◌, ◌<◌, ◌≡◌, ◌≢◌, refl, Bool, true, false, not, ◌&&◌,
  Option, none, some, List, [], ◌∷◌, Res, ok, panic, check, ◌>>=◌, ◌>>◌, ltb, leb, ◌==◌,
  if◌then◌else◌, update, arith,
}
use sparrow_os.Bitmap
use sparrow_os.Inode.{ide_read, ide_write, inode_sync}
use sparrow_os.DiskMaps.{DiskMaps, blocks, bitmap_sync}
use sparrow_os.OpenInodes.{Inode, word, pure_inode}
use sparrow_os.Blocks.{Volume, all_blocks, bit_of}
use sparrow_os.Dir.{
  DirEntry, dir_entry_size, dir_entrys_per_sec, load_entry, same_name, set_block, table_bytes,
}

-- The names "." and "..".
abbrev pub dot : List ℕ
dot = 46 ∷ []

abbrev pub dot_dot : List ℕ
dot_dot = 46 ∷ 46 ∷ []

-- `dir_entry_cnt`, `is_dir_first_block` and `dir_entry_found`, which is an offset in the sector.
pub record Scanned : Type 0 where
  pub dir_entry_cnt : ℕ
  pub is_dir_first_block : Bool
  pub dir_entry_found : Option ℕ

unfoldable pub is_none : Option ℕ → Bool
is_none none = true
is_none (some off) = false

-- An entry that is in use.
unfoldable pub count_entry : (ℕ → ℕ) → ℕ → ℕ → Scanned → Res Scanned
unfolding is_none
count_entry mem inode_no off st =
    if same_name mem off dot
    then ok (record st { is_dir_first_block = true })
    else if same_name mem off dot_dot
    then ok st
    else let st' : Scanned = record st { dir_entry_cnt = (st.dir_entry_cnt + 1) % 256 } in
      if word mem (off + 16) == inode_no
      then (do check (is_none st.dir_entry_found); ok (record st' { dir_entry_found = some off }))
      else ok st'

-- The loop of `delete_dir_entry` over the entries of a sector.
unfoldable pub scan_entries : (ℕ → ℕ) → ℕ → ℕ → ℕ → Scanned → Res Scanned
scan_entries mem inode_no off zero st = ok st
scan_entries mem inode_no off (suc left) st = do
  st' ← if word mem (off + 20) == 0 then ok st else count_entry mem inode_no off st
  scan_entries mem inode_no (off + dir_entry_size) left st'

-- An entry that is set to 0.
pub clear_entry : (ℕ → ℕ) → ℕ → ℕ → ℕ
clear_entry buf off i = if leb off i && ltb i (off + dir_entry_size) then 0 else buf i

-- The loop that counts the indirect blocks: it does not move its index. `none` means that the fuel
-- ran out.
unfoldable pub count_loop : ℕ → (ℕ → ℕ) → ℕ → ℕ → Option ℕ
count_loop zero all indirect_block_idx count = none
count_loop (suc fuel) all indirect_block_idx count =
    let rest =
      count_loop fuel all indirect_block_idx
        (if all indirect_block_idx == 0 then count else (count + 1) % 2 ^ 32) in
    if ltb indirect_block_idx 140 then rest else some count

-- An indirect block is taken out of the table; the table of no other block is given back too.
pub drop_address : ℕ → ℕ → (ℕ → ℕ) → Inode → Volume → Res (Inode × Volume)
drop_address indirect_blocks b all dir_inode v =
    let table = dir_inode.i_blocks 12 in
    let disk = ide_write v.disk table (table_bytes (update all b 0)) 1 in
    do
      check (leb 1 indirect_blocks)
      if ltb 1 indirect_blocks then ok (dir_inode, record v { disk = disk }) else (do
        map ← Bitmap.set v.maps.block_bitmap (bit_of table v) 0
        let maps : DiskMaps = record v.maps { block_bitmap = map }
        ok (
          set_block 12 0 dir_inode,
          record v { maps = maps; disk = bitmap_sync maps (bit_of table v) blocks disk },
        ))

-- The fuel for the loop is more than the 128 rounds of one that moves. A loop that does not end is
-- `panic` too.
abbrev pub count_fuel : ℕ
count_fuel = 256

-- The block of the only entry is given back.
pub drop_block : ℕ → ℕ → (ℕ → ℕ) → Inode → Volume → Res (Inode × Volume)
unfolding count_loop
drop_block b lba all dir_inode v = do
  map ← Bitmap.set v.maps.block_bitmap (bit_of lba v) 0
  let maps : DiskMaps = record v.maps { block_bitmap = map }
  let v₁ : Volume = record v { maps = maps; disk = bitmap_sync maps (bit_of lba v) blocks v.disk }
  if ltb b 12 then ok (set_block b 0 dir_inode, v₁) else (elim (count_loop count_fuel all 12 0) [
    | none ↦ panic
    | some indirect_blocks ↦ drop_address indirect_blocks b all dir_inode v₁
  ])

-- The third step of `delete_dir_entry`, with the sector in which the entry was found.
pub remove_entry : ℕ → ℕ → (ℕ → ℕ) → ℕ → Scanned → Inode → Volume → Res (Inode × Volume)
remove_entry b lba all off st dir_inode v = do
  check (leb 1 st.dir_entry_cnt)
  (node, v₁) ←
      if (st.dir_entry_cnt == 1) && not st.is_dir_first_block
      then drop_block b lba all dir_inode v
      else ok (
        dir_inode,
        record v { disk = ide_write v.disk lba (clear_entry (ide_read v.disk lba) off) 1 },
      )
  check (leb dir_entry_size node.i_size)
  let node' : Inode = record node { i_size = node.i_size - dir_entry_size }
  disk ← inode_sync v₁.part node'.i_no (pure_inode node') v₁.disk
  ok (node', record v₁ { disk = disk })

abbrev pub none_yet : Scanned
none_yet = record { dir_entry_cnt = 0; is_dir_first_block = false; dir_entry_found = none }

-- The loop of `delete_dir_entry` over the blocks.
unfoldable pub delete_loop : ℕ → (ℕ → ℕ) → Inode → Volume → ℕ → ℕ → Res (Bool × Inode × Volume)
delete_loop inode_no all dir_inode v b zero = ok (false, dir_inode, v)
delete_loop inode_no all dir_inode v b (suc left) =
    let rest = delete_loop inode_no all dir_inode v (b + 1) left in
    if all b == 0 then rest else (do
      st ← scan_entries (ide_read v.disk (all b)) inode_no 0 dir_entrys_per_sec none_yet
      elim st.dir_entry_found [
        | none ↦ rest
        | some off ↦ do
          (node, v') ← remove_entry b (all b) all off st dir_inode v
          ok (true, node, v')
      ])

-- `delete_dir_entry`
unfoldable pub delete_dir_entry : ℕ → Inode → Volume → Res (Bool × Inode × Volume)
delete_dir_entry inode_no dir_inode v =
    delete_loop inode_no (all_blocks dir_inode.i_blocks v.disk) dir_inode v 0 140
