-- ===== src/Inode/Place.antt =====
-- The places of the inodes on the disk, and what `inode_sync` writes.
use sparrow_os.Base.{
  ℕ, ◌+◌, ◌-◌, ◌*◌, ◌/◌, ◌%◌, ◌≤◌, ◌<◌, ◌≡◌, ◌∙◌, refl, ap, inl, inr, Bool, true, ◌&&◌, ok, arith,
  ltb, leb, Bool-cases, if◌then◌else◌,
}
use sparrow_os.Inode.{
  Partition, InodePosition, sizeof_inode, inode_locate, ide_read, ide_write, splice, inode_sync,
}

-- The first byte of an inode in its table.
abbrev pub place : Partition → ℕ → ℕ
place part n = part.inode_table_lba * 512 + n * sizeof_inode

-- `inode_locate` of a number below 4096 gives the byte of the table at which the inode lies: the
-- inode is inside the sector, or, with the flag, inside that and the next one.
pub inode_locate_lem :
    (part : Partition) (n : ℕ)
    → n < 4096
    → (pos : InodePosition) × (inode_locate part n ≡ ok pos)
      × (pos.sec_lba * 512 + pos.off_size ≡ place part n)
      × (pos.off_size < 512)
      × (pos.off_size + sizeof_inode ≤ (if pos.two_sec then 1024 else 512))
unfolding inode_locate
inode_locate_lem part n h =
    let guard : ltb n 4096 ≡ true = ground arith in
    let pos : InodePosition = record {
      two_sec = ltb (512 - n * sizeof_inode % 512) sizeof_inode;
      sec_lba = part.inode_table_lba + n * sizeof_inode / 512;
      off_size = n * sizeof_inode % 512;
    } in
    (pos, rw guard refl, omega arith, omega arith, ground arith)

-- Is a byte among those of an inode?
abbrev pub in_inode : Partition → ℕ → ℕ → Bool
in_inode part n a = leb (place part n) a && ltb a (place part n + sizeof_inode)

-- Reading the sectors, putting bytes in and writing them back changes those bytes only.
pub written :
    (disk pure_inode : ℕ → ℕ) (lba off n a : ℕ)
    → off + sizeof_inode ≤ n * 512
    → ide_write disk lba (splice (ide_read disk lba) off pure_inode) n a ≡ (
        if leb (lba * 512 + off) a && ltb a (lba * 512 + off + sizeof_inode)
        then pure_inode (a - (lba * 512 + off))
        else disk a)
unfolding ide_write splice ide_read
written disk pure_inode lba off n a room = elim (Bool-cases (leb (lba * 512) a)) [
  | inl e ↦
      let back : lba * 512 + (a - lba * 512) ≡ a = ground arith in
      let same : disk (lba * 512 + (a - lba * 512)) ≡ disk a = ap disk back in
      let shift : a - lba * 512 - off ≡ a - (lba * 512 + off) = omega arith in
      ground (arith, ap pure_inode shift)
  | inr e ↦ ground arith
]

-- `inode_sync` of any inode, whose place lies inside the partition, writes the bytes of the inode
-- and no other; but they go to the place of the inode whose number is the rest modulo 256.
pub inode_sync_lem :
    (part : Partition) (i_no : ℕ) (pure_inode disk : ℕ → ℕ)
    → part.inode_table_lba + 38 ≤ part.start_lba + part.sec_cnt
    → (disk' : ℕ → ℕ) × (inode_sync part i_no pure_inode disk ≡ ok disk')
      × ((a : ℕ)
          → disk' a ≡ (
              if in_inode part (i_no % 256) a
              then pure_inode (a - place part (i_no % 256))
              else disk a))
unfolding inode_sync
inode_sync_lem part i_no pure_inode disk inside =
    let n = i_no % 256 in
    let (pos, run, at, off, room) = inode_locate_lem part n (omega arith) in
    let guard : leb pos.sec_lba (part.start_lba + part.sec_cnt) ≡ true = ground arith in
    let sectors = if pos.two_sec then 2 else 1 in
    (
      ide_write disk pos.sec_lba (splice (ide_read disk pos.sec_lba) pos.off_size pure_inode)
          sectors,
      rw (run, guard) refl,
      λ a.
          written disk pure_inode pos.sec_lba pos.off_size sectors a (ground arith)
          ∙ ap (λ p. if leb p a && ltb a (p + sizeof_inode) then pure_inode (a - p) else disk a) at,
    )
