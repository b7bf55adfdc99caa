-- ===== src/Dir/Delete/Removal.antt =====
-- What `delete_dir_entry` does to the disk once it has found the entry.
use sparrow_os.Base.{
  ℕ, zero, suc, ◌+◌, ◌-◌, ◌*◌, ◌%◌, ◌≤◌, ◌≡◌, ◌≢◌, ◌∙◌, refl, ap, inl, inr, true, false, not, ◌&&◌,
  none, some, ok, panic, ltb, leb, ◌==◌, if◌then◌else◌, arith, Bool-cases,
}
use sparrow_os.Bitmap.Bits.{IsBytes, set_lem}
use sparrow_os.Inode.{ide_read, ide_write}
use sparrow_os.Inode.Place.{place, in_inode, inode_sync_lem}
use sparrow_os.OpenInodes.{Inode, pure_inode}
use sparrow_os.Blocks.{Volume, bit_of}
use sparrow_os.Blocks.Release.{zero_lt_two}
use sparrow_os.Dir.Delete.{
  Scanned, none_yet, scan_entries, clear_entry, count_loop, drop_block, remove_entry, delete_loop,
}

-- A sector with an entry cleared, written back: 24 bytes of the disk become 0.
cleared :
    (disk : ℕ → ℕ) (lba off a : ℕ)
    → off + 24 ≤ 512
    → ide_write disk lba (clear_entry (ide_read disk lba) off) 1 a
      ≡ (if leb (lba * 512 + off) a && ltb a (lba * 512 + off + 24) then 0 else disk a)
unfolding ide_write clear_entry ide_read
cleared disk lba off a room = elim (Bool-cases (leb (lba * 512) a)) [
  | inl e ↦
      let back : lba * 512 + (a - lba * 512) ≡ a = ground arith in ground (arith, ap disk back)
  | inr e ↦ ground arith
]

module _ (b lba off : ℕ) (all : ℕ → ℕ) (st : Scanned) (node : Inode) (v : Volume) where
  abbrev shrunk : Inode
  shrunk = record node { i_size = node.i_size - 24 }

  -- An entry that is not the only one of its block, or is in the first block of the directory: its
  -- 24 bytes become 0, the directory is 24 bytes smaller, and apart from the entry only the bytes of
  -- the directory's inode change.
  pub remove_entry_lem :
      1 ≤ st.dir_entry_cnt
      → (st.dir_entry_cnt == 1) && not st.is_dir_first_block ≡ false
      → 24 ≤ node.i_size
      → off + 24 ≤ 512
      → v.part.inode_table_lba + 38 ≤ v.part.start_lba + v.part.sec_cnt
      → (v' : Volume) × (remove_entry b lba all off st node v ≡ ok (shrunk, v'))
        × (v'.maps ≡ v.maps)
        × ((a : ℕ)
            → v'.disk a ≡ (
                if in_inode v.part (node.i_no % 256) a
                then pure_inode shrunk (a - place v.part (node.i_no % 256))
                else if leb (lba * 512 + off) a && ltb a (lba * 512 + off + 24)
                then 0
                else v.disk a))
  unfolding remove_entry
  remove_entry_lem counted several size room inside =
      let guard₁ : leb 1 st.dir_entry_cnt ≡ true = ground arith in
      let guard₂ : leb 24 node.i_size ≡ true = ground arith in
      let disk₁ = ide_write v.disk lba (clear_entry (ide_read v.disk lba) off) 1 in
      let (disk, run, bytes) = inode_sync_lem v.part node.i_no (pure_inode shrunk) disk₁ inside in
      (
        record v { disk = disk },
        rw (guard₁, several, guard₂, run) refl,
        refl,
        λ a.
            bytes a
            ∙ ap
                (λ x.
                  if in_inode v.part (node.i_no % 256) a
                  then pure_inode shrunk (a - place v.part (node.i_no % 256))
                  else x)
                (cleared v.disk lba off a room),
      )

  -- The loop that counts the blocks comes to no end with any fuel.
  count_loop_lem : (fuel count : ℕ) → count_loop fuel all 12 count ≡ none
  unfolding count_loop
  count_loop_lem zero count = refl
  count_loop_lem (suc fuel) count = count_loop_lem fuel _

  -- The only entry of an indirect block: the removal never ends.
  remove_hangs :
      12 ≤ b
      → st.dir_entry_cnt ≡ 1
      → st.is_dir_first_block ≡ false
      → IsBytes v.maps.block_bitmap
      → remove_entry b lba all off st node v ≡ panic
  unfolding remove_entry drop_block
  remove_hangs indirect one second bytes =
      let (map, run, len, by, bits) =
        set_lem v.maps.block_bitmap bytes (bit_of lba v) 0 zero_lt_two in
      let high : ltb b 12 ≡ false = ground arith in rw (one, second, run, high) refl

-- `delete_dir_entry` never returns from an indirect block in which it finds the entry and no other:
-- the loop that counts the indirect blocks comes to no end, however much fuel it has.
pub delete_hangs :
    (inode_no : ℕ) (all : ℕ → ℕ) (node : Inode) (v : Volume) (b left off : ℕ) (st : Scanned)
    → 12 ≤ b
    → all b ≢ 0
    → IsBytes v.maps.block_bitmap
    → scan_entries (ide_read v.disk (all b)) inode_no 0 21 none_yet ≡ ok st
    → st.dir_entry_found ≡ some off
    → st.dir_entry_cnt ≡ 1
    → st.is_dir_first_block ≡ false
    → (delete_loop inode_no all node v b (suc left) ≡ panic)
      × ((fuel : ℕ) → count_loop fuel all 12 0 ≡ none)
unfolding delete_loop
delete_hangs inode_no all node v b left off st indirect used bytes scanned found one second =
    let there : all b == 0 ≡ false = ground arith in
    (
      rw (there, scanned)
          (rw found (rw (remove_hangs b (all b) off all st node v indirect one second bytes) refl)),
      λ fuel. count_loop_lem b (all b) off all st node v fuel 0,
    )
