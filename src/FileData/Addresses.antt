-- ===== src/FileData/Addresses.antt =====
-- The addresses that `file_write` works with where the file has direct blocks only, before and after.
use sparrow_os.Base.{
  ℕ, ◌+◌, ◌-◌, ◌*◌, ◌/◌, ◌%◌, ◌^◌, ◌≤◌, ◌<◌, ◌≡◌, ◌≢◌, ◌∙◌, refl, sym, inl, inr, true, false, ok,
  arith, ltb, leb, ◌==◌, Bool-cases, update,
}
use sparrow_os.Bitmap.{scan_test}
use sparrow_os.Inode.{ide_read}
use sparrow_os.OpenInodes.{Inode}
use sparrow_os.Blocks.{Volume}
use sparrow_os.FileData.{Growing, first_block, write_addresses, write_data, file_write, grow_loop}
use sparrow_os.FileData.Growth.{Room, Grown, Grown-none, grow_loop_lem}

-- A file of direct blocks, each marked and different from the others, which has no block behind its
-- last one; and blocks enough, from `tail` on, for `count` bytes more. The data lie behind the table
-- of inodes.
pub record Fits (node : Inode) (v : Volume) (count tail : ℕ) : Type 0 where
  pub direct : (node.i_size + count) / 512 < 12
  pub behind : v.part.inode_table_lba + 609 ≤ v.maps.data_start_lba
  pub above : (b : ℕ) → b ≤ node.i_size / 512 → v.maps.data_start_lba ≤ node.i_blocks b
  pub marked :
      (b : ℕ)
      → b ≤ node.i_size / 512
      → scan_test v.maps.block_bitmap (node.i_blocks b - v.maps.data_start_lba) ≡ true
  pub apart :
      (b c : ℕ)
      → b ≤ node.i_size / 512
      → c ≤ node.i_size / 512
      → b ≢ c
      → node.i_blocks b ≢ node.i_blocks c
  pub missing : (b : ℕ) → node.i_size / 512 < b → b < 12 → node.i_blocks b ≡ 0
  pub room : Room v tail ((node.i_size + count) / 512 - node.i_size / 512)
  pub inside : v.part.inode_table_lba + 38 ≤ v.part.start_lba + v.part.sec_cnt

-- All the blocks for the old bytes and the new ones are there, up to the block `end`.
pub record Ready (node : Inode) (v : Volume) (end : ℕ) (g : Growing) : Type 0 where
  pub fine : g.fine ≡ true
  pub part : g.volume.part ≡ v.part
  pub i_size : g.node.i_size ≡ node.i_size
  pub blocks : (b : ℕ) → node.i_size / 512 ≤ b → b ≤ end → g.all b ≡ g.node.i_blocks b
  pub old : (b : ℕ) → b ≤ node.i_size / 512 → g.node.i_blocks b ≡ node.i_blocks b
  pub above : (b : ℕ) → b ≤ end → v.maps.data_start_lba ≤ g.node.i_blocks b
  pub apart : (b c : ℕ) → b ≤ end → c ≤ end → b ≢ c → g.node.i_blocks b ≢ g.node.i_blocks c
  pub disk :
      (x i : ℕ)
      → i < 512
      → v.maps.data_start_lba ≤ x
      → ide_read g.volume.disk x i ≡ ide_read v.disk x i

module _ (node : Inode) (v : Volume) (count tail : ℕ) (f : Fits node v count tail) where
  abbrev pub last : ℕ
  last = node.i_size / 512

  abbrev pub end : ℕ
  end = (node.i_size + count) / 512

  abbrev before : Growing
  before = record {
    fine = true;
    node = node;
    all = update (λ b. 0) last (node.i_blocks last);
    volume = v;
  }

  used : (b : ℕ) → b ≤ last → node.i_blocks b == 0 ≡ false
  used b h = ground (arith, f.above b h, f.room.before)

  begins :
      (src : ℕ → ℕ) (fd_pos : ℕ) (g : Growing)
      → write_addresses
          (last + 1)
          (end + 1)
          (record { fine = true; node = node; all = λ b. 0; volume = v })
        ≡ ok g
      → file_write node fd_pos v src count ≡ write_data src count fd_pos g
  unfolding file_write first_block
  begins src fd_pos g run =
      let sum : (node.i_size + count) % 2 ^ 32 ≡ node.i_size + count = omega (arith, f.direct) in
      let guard : ltb (512 * 140) (node.i_size + count) ≡ false = ground (arith, f.direct) in
      let few : leb (end + 1) 140 ≡ true = ground (arith, f.direct) in
      rw (sum, guard, used 0 (omega arith)) (rw (few, run) refl)

  -- The addresses where no block is missing, and where some are.
  none_missing :
      end ≡ last
      → write_addresses
          (last + 1)
          (end + 1)
          (record { fine = true; node = node; all = λ b. 0; volume = v })
        ≡ ok before
  unfolding write_addresses
  none_missing e =
      let same : end + 1 == last + 1 ≡ true = ground arith in
      let small : leb (last + 1) 12 ≡ true = ground (arith, f.direct) in
      let index : last + 1 - 1 ≡ last = omega arith in rw (same, small, index) refl

  some_missing :
      last < end
      → write_addresses
          (last + 1)
          (end + 1)
          (record { fine = true; node = node; all = λ b. 0; volume = v })
        ≡ grow_loop (last + 1) (end - last) before
  unfolding write_addresses
  some_missing h =
      let other : end + 1 == last + 1 ≡ false = ground arith in
      let small : leb (end + 1) 12 ≡ true = ground (arith, f.direct) in
      let index : last + 1 - 1 ≡ last = omega arith in
      let more : end + 1 - (last + 1) ≡ end - last = omega arith in
      rw (other, small, index, more, used last (omega arith)) refl

  addresses :
      (g : Growing) × (write_addresses
          (last + 1)
          (end + 1)
          (record { fine = true; node = node; all = λ b. 0; volume = v })
        ≡ ok g)
      × Grown (last + 1) (end + 1) before g
  addresses = elim (Bool-cases (ltb last end)) [
    | inl more ↦
        let lt : last < end = ground arith in
        let (g, run, r) =
          grow_loop_lem (end - last) (last + 1) tail before refl f.room (omega (arith, f.direct))
            (λ c lo hi. f.missing c (omega arith) (omega (arith, f.direct))) in
        let sum : last + 1 + (end - last) ≡ end + 1 = omega arith in
        (g, some_missing lt ∙ run, rw (sym sum) r)
    | inr same ↦
        let e : end ≡ last = ground arith in
        let sum : last + 1 + 0 ≡ end + 1 = omega arith in
        (before, none_missing e, rw (sym sum) (Grown-none (last + 1) before refl))
  ]

  module _ (g : Growing) (r : Grown (last + 1) (end + 1) before g) where
    old_block : (b : ℕ) → b ≤ last → g.node.i_blocks b ≡ node.i_blocks b
    old_block b h = r.node_other b (inl (omega arith))

    fresh_block : (b : ℕ) → last < b → b ≤ end → g.node.i_blocks b ≡ g.all b
    fresh_block b lo hi = r.node_new b (omega arith) (omega arith)

    -- An old block and a new one.
    old_new : (b c : ℕ) → b ≤ last → last < c → c ≤ end → g.node.i_blocks b ≢ g.node.i_blocks c
    old_new b c h lo hi e =
        let same : node.i_blocks b ≡ g.all c = sym (old_block b h) ∙ e ∙ fresh_block c lo hi in
        let set : scan_test v.maps.block_bitmap (g.all c - v.maps.data_start_lba) ≡ true =
          rw (sym same) (f.marked b h) in
        absurd (let clear = r.free c (omega arith) (omega arith) in cc (set, clear))

    Ready-grown : Ready node v end g
    Ready-grown = record {
      fine = r.fine;
      part = r.part;
      i_size = r.i_size;
      blocks = λ b lo hi. elim (Bool-cases (b == last)) [
        | inl same ↦
            let at : b ≡ last = ground arith in
            rw at (
              r.all_other last (inl (omega arith))
              ∙ ground arith
              ∙ sym (old_block last (omega arith)))
        | inr other ↦ sym (fresh_block b (ground arith) hi)
      ];
      old = old_block;
      above = λ b h. elim (Bool-cases (leb b last)) [
        | inl low ↦ rw (old_block b (ground arith)) (f.above b (ground arith))
        | inr high ↦ rw (fresh_block b (ground arith) h) (r.above b (ground arith) (omega arith))
      ];
      apart = λ b c h k ne. elim (Bool-cases (leb b last)) [
        | inl low ↦ elim (Bool-cases (leb c last)) [
          | inl low' ↦
              rw (old_block b (ground arith), old_block c (ground arith))
                (f.apart b c (ground arith) (ground arith) ne)
          | inr high ↦ old_new b c (ground arith) (ground arith) k
        ]
        | inr high ↦ elim (Bool-cases (leb c last)) [
          | inl low ↦ λ e. old_new c b (ground arith) (ground arith) h (sym e)
          | inr high' ↦
              rw (fresh_block b (ground arith) h, fresh_block c (ground arith) k)
                (r.apart b c (ground arith) (omega arith) (ground arith) (omega arith) ne)
        ]
      ];
      disk = r.disk;
    }

  -- `file_write` comes to its last part, with all blocks there.
  pub file_write-Ready :
      (src : ℕ → ℕ) (fd_pos : ℕ)
      → (g : Growing) × (file_write node fd_pos v src count ≡ write_data src count fd_pos g)
        × Ready node v end g
  file_write-Ready src fd_pos =
      let (g, run, r) = addresses in (g, begins src fd_pos g run, Ready-grown g r)
