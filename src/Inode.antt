-- ===== src/Inode.antt =====
-- fs/inode.c: where an inode lies on the disk, and `inode_sync`, which writes it there. The disk is
-- its bytes by their number; a sector has 512 of them. The 76 bytes of the `struct inode` are an
-- argument, after the fields that only count in memory have been cleared.
pub mod Place
use sparrow_os.Base.{
  ℕ, ◌+◌, ◌-◌, ◌*◌, ◌/◌, ◌%◌, Bool, ◌&&◌, Res, ok, check, ◌>>=◌, ◌>>◌, ltb, leb, if◌then◌else◌,
}

-- What is used of `struct partition` and its super block.
pub record Partition : Type 0 where
  pub start_lba : ℕ
  pub sec_cnt : ℕ
  pub inode_table_lba : ℕ

-- `struct inode_position`
pub record InodePosition : Type 0 where
  pub two_sec : Bool
  pub sec_lba : ℕ
  pub off_size : ℕ

-- `sizeof(struct inode)`: four words, thirteen block numbers and two pointers.
abbrev pub sizeof_inode : ℕ
sizeof_inode = 76

pub inode_locate : Partition → ℕ → Res InodePosition
inode_locate part inode_no = do
  check (ltb inode_no 4096)
  let off_size = inode_no * sizeof_inode
  let off_size_in_sec = off_size % 512
  let left_in_sec = 512 - off_size_in_sec
  ok (record {
    two_sec = ltb left_in_sec sizeof_inode;
    sec_lba = part.inode_table_lba + off_size / 512;
    off_size = off_size_in_sec;
  })

-- `ide_read` and `ide_write` of `n` sectors.
unfoldable pub ide_read : (ℕ → ℕ) → ℕ → ℕ → ℕ
ide_read disk lba i = disk (lba * 512 + i)

unfoldable pub ide_write : (ℕ → ℕ) → ℕ → (ℕ → ℕ) → ℕ → ℕ → ℕ
ide_write disk lba buf n a =
    if leb (lba * 512) a && ltb a (lba * 512 + n * 512) then buf (a - lba * 512) else disk a

-- `memcpy(inode_buf + off_size, &pure_inode, sizeof(struct inode))`
pub splice : (ℕ → ℕ) → ℕ → (ℕ → ℕ) → ℕ → ℕ
splice buf off_size pure_inode i =
    if leb off_size i && ltb i (off_size + sizeof_inode) then pure_inode (i - off_size) else buf i

-- `inode_sync`, on the number of the inode and its bytes. The number is cut to a byte.
pub inode_sync : Partition → ℕ → (ℕ → ℕ) → (ℕ → ℕ) → Res (ℕ → ℕ)
inode_sync part i_no pure_inode disk = do
  let inode_no = i_no % 256
  pos ← inode_locate part inode_no
  check (leb pos.sec_lba (part.start_lba + part.sec_cnt))
  let n = if pos.two_sec then 2 else 1
  let inode_buf = ide_read disk pos.sec_lba
  ok (ide_write disk pos.sec_lba (splice inode_buf pos.off_size pure_inode) n)
