-- ===== src/OpenInodes/Image.antt =====
-- The bytes of an inode, and what comes back from the disk after `inode_sync`.
use sparrow_os.Base.{
  ℕ, ◌+◌, ◌-◌, ◌*◌, ◌/◌, ◌%◌, ◌^◌, ◌≤◌, ◌<◌, ◌≡◌, ◌∙◌, refl, ap, sym, false, none, ok, arith, ◌≢◌,
  ◌∷◌, update,
}
use sparrow_os.Inode.{Partition, inode_sync, ide_read, sizeof_inode}
use sparrow_os.Inode.Place.{place, inode_locate_lem, inode_sync_lem}
use sparrow_os.OpenInodes.{
  Inode, Inodes, word, byte_of, pure_word, pure_inode, load_inode, open_loop, inode_open,
}

-- The four bytes of a word give it back.
pub byte_of_word :
    (w : ℕ)
    → w < 2 ^ 32
    → byte_of w 0 + 256 * byte_of w 1 + 65536 * byte_of w 2 + 16777216 * byte_of w 3 ≡ w
unfolding byte_of
byte_of_word w h = omega arith

-- A memory that holds the bytes of words, at the place of one of them.
pub word_lem :
    (mem g : ℕ → ℕ) (a q : ℕ)
    → g q < 2 ^ 32
    → ((k : ℕ) → k < 4 → mem (a + 4 * q + k) ≡ byte_of (g q) k)
    → word mem (a + 4 * q) ≡ g q
unfolding word
word_lem mem g a q h bytes =
    let zero_off : a + 4 * q + 0 ≡ a + 4 * q = omega arith in
    let first : mem (a + 4 * q) ≡ byte_of (g q) 0 = ap mem (sym zero_off) ∙ bytes 0 (omega arith) in
    rw (first, bytes 1 (omega arith), bytes 2 (omega arith), bytes 3 (omega arith))
      (byte_of_word (g q) h)

read_at : (disk : ℕ → ℕ) (lba i : ℕ) → ide_read disk lba i ≡ disk (lba * 512 + i)
unfolding ide_read
read_at disk lba i = refl

-- An inode whose fields fit in their words.
pub record Fits (node : Inode) : Type 0 where
  pub number : node.i_no < 2 ^ 32
  pub size : node.i_size < 2 ^ 32
  pub blocks : (b : ℕ) → b < 13 → node.i_blocks b < 2 ^ 32

pub pure_word_lt : (node : Inode) → Fits node → (q : ℕ) → pure_word node q < 2 ^ 32
unfolding pure_word
pure_word_lt node f q = ground (arith, f.blocks (q - 4))

pub pure_inode_byte :
    (node : Inode) (q k : ℕ) → k < 4 → pure_inode node (4 * q + k) ≡ byte_of (pure_word node q) k
unfolding pure_inode
pure_inode_byte node q k h =
    let whole : (4 * q + k) / 4 ≡ q = omega arith in
    let rest : (4 * q + k) % 4 ≡ k = omega arith in rw (whole, rest) refl

-- Two inodes agree in what the disk keeps.
pub record SameOnDisk (n m : Inode) : Type 0 where
  pub number : n.i_no ≡ m.i_no
  pub size : n.i_size ≡ m.i_size
  pub blocks : (b : ℕ) → b < 13 → n.i_blocks b ≡ m.i_blocks b

-- The words and the flag of an inode whose bytes lie in a memory.
module _ (node : Inode) (mem : ℕ → ℕ) (a : ℕ)
    (bytes : (i : ℕ) → i < sizeof_inode → mem (a + i) ≡ pure_inode node i) where
  loaded_word : Fits node → (q : ℕ) → q < 19 → word mem (a + 4 * q) ≡ pure_word node q
  loaded_word f q h = word_lem mem (pure_word node) a q (pure_word_lt node f q) λ k j.
      let e : a + 4 * q + k ≡ a + (4 * q + k) = omega arith in
      ap mem e ∙ bytes (4 * q + k) (omega arith) ∙ pure_inode_byte node q k j

  loaded_block : Fits node → (b : ℕ) → b < 13 → word mem (a + 16 + 4 * b) ≡ node.i_blocks b
  unfolding pure_word
  loaded_block f b h =
      let place : a + 16 + 4 * b ≡ a + 4 * (b + 4) = omega arith in
      let back : b + 4 - 4 ≡ b = omega arith in
      ap (word mem) place
      ∙ loaded_word f (b + 4) (omega arith)
      ∙ ground (arith, ap node.i_blocks back)

  loaded_number : Fits node → word mem a ≡ node.i_no
  unfolding pure_word
  loaded_number f =
      let place : a ≡ a + 4 * 0 = omega arith in ap (word mem) place ∙ loaded_word f 0 (omega arith)

  loaded_size : Fits node → word mem (a + 4) ≡ node.i_size
  unfolding pure_word
  loaded_size f =
      let place : a + 4 ≡ a + 4 * 1 = omega arith in
      ap (word mem) place ∙ loaded_word f 1 (omega arith)

  loaded_flag : Fits node → word mem (a + 12) ≡ 0
  unfolding pure_word
  loaded_flag f =
      let place : a + 12 ≡ a + 4 * 3 = omega arith in
      ap (word mem) place ∙ loaded_word f 3 (omega arith)

  -- The bytes of an inode, read as an inode.
  pub load_pure :
      Fits node → SameOnDisk (load_inode mem a) node × ((load_inode mem a).write_deny ≡ false)
  unfolding load_inode
  load_pure f = (
    record { number = loaded_number f; size = loaded_size f; blocks = loaded_block f },
    rw (loaded_flag f) refl,
  )

-- Where `inode_open` of an inode that is not open finds the bytes of `node` on the disk.
pub open_loaded :
    (part : Partition) (disk : ℕ → ℕ) (node : Inode) (n fresh : ℕ) (s : Inodes)
    → Fits node
    → n < 4096
    → ((i : ℕ) → i < sizeof_inode → disk (place part n + i) ≡ pure_inode node i)
    → open_loop s.inode n s.open_inodes ≡ none
    → (s' : Inodes) × (inode_open part disk fresh n s ≡ ok (fresh, s'))
      × SameOnDisk (s'.inode fresh) node
      × ((s'.inode fresh).i_open_cnts ≡ 1)
      × ((s'.inode fresh).write_deny ≡ false)
      × (s'.open_inodes ≡ fresh ∷ s.open_inodes)
      × ((b : ℕ) → fresh ≢ b → s'.inode b ≡ s.inode b)
unfolding inode_open
open_loaded part disk node n fresh s f small bytes closed =
    let (pos, run, at, off, room) = inode_locate_lem part n small in
    let mem = ide_read disk pos.sec_lba in
    let there : (i : ℕ) → i < sizeof_inode → mem (pos.off_size + i) ≡ pure_inode node i = λ i h.
      read_at disk pos.sec_lba (pos.off_size + i) ∙ ap disk (omega (arith, at)) ∙ bytes i h in
    let (same, flag) = load_pure node mem pos.off_size there f in
    let new : Inode = record (load_inode mem pos.off_size) { i_open_cnts = 1 } in
    let s' : Inodes = record {
      inode = update s.inode fresh new;
      open_inodes = fresh ∷ s.open_inodes;
    } in
    let here : s'.inode fresh ≡ new = ground arith in
    (
      s',
      rw (closed, inode_open) (rw run refl),
      rw here (record { number = same.number; size = same.size; blocks = same.blocks }),
      rw here refl,
      rw here flag,
      refl,
      λ b ne. ground arith,
    )

-- What `inode_sync` writes of an inode with a number below 256, `inode_open` reads back: the number,
-- the size and the thirteen blocks, with a count of 1 and the flag clear.
pub inode_sync-open :
    (part : Partition) (node : Inode) (disk : ℕ → ℕ) (fresh : ℕ) (s : Inodes)
    → Fits node
    → node.i_no < 256
    → part.inode_table_lba + 38 ≤ part.start_lba + part.sec_cnt
    → open_loop s.inode node.i_no s.open_inodes ≡ none
    → (disk' : ℕ → ℕ) × (s' : Inodes) × (inode_sync part node.i_no (pure_inode node) disk
        ≡ ok disk')
      × (inode_open part disk' fresh node.i_no s ≡ ok (fresh, s'))
      × SameOnDisk (s'.inode fresh) node
      × ((s'.inode fresh).i_open_cnts ≡ 1)
      × ((s'.inode fresh).write_deny ≡ false)
      × (s'.open_inodes ≡ fresh ∷ s.open_inodes)
inode_sync-open part node disk fresh s f small inside closed =
    let (disk', run, bytes) = inode_sync_lem part node.i_no (pure_inode node) disk inside in
    let whole : node.i_no % 256 ≡ node.i_no = omega arith in
    let there : (i : ℕ) → i < sizeof_inode → disk' (place part node.i_no + i) ≡ pure_inode node i =
      λ i h.
        let back : place part node.i_no + i - place part node.i_no ≡ i = omega arith in
        bytes (place part node.i_no + i) ∙ rw (whole, back) (ground arith) in
    let (s', opens, same, count, flag, list, others) =
      open_loaded part disk' node node.i_no fresh s f (omega arith) there closed in
    (disk', s', run, opens, same, count, flag, list)
