-- ===== src/OpenInodes.antt =====
-- The inodes in memory, of fs/inode.c: the bytes of a `struct inode`, `inode_init`, `inode_open` and
-- `inode_close`. A `struct inode` is at an address, which `sys_malloc` gives; the list `open_inodes`
-- of the partition holds the addresses of those that are open.
pub mod Image
pub mod Sharing
pub mod Closing
mod Tests
use sparrow_os.Base.{
  ℕ, zero, suc, ◌+◌, ◌-◌, ◌*◌, ◌/◌, ◌%◌, ◌^◌, Bool, true, false, not, Option, none, some, List, [],
  ◌∷◌, Res, ok, ◌>>=◌, ltb, ◌==◌, if◌then◌else◌, update, erase,
}
use sparrow_os.Inode.{Partition, InodePosition, inode_locate, ide_read}

-- `struct inode` less its `inode_tag`.
pub record Inode : Type 0 where
  pub i_no : ℕ
  pub i_size : ℕ
  pub i_open_cnts : ℕ
  pub write_deny : Bool
  pub i_blocks : ℕ → ℕ

-- The inodes by their address, and `open_inodes`, the first first.
pub record Inodes : Type 0 where
  pub inode : ℕ → Inode
  pub open_inodes : List ℕ

-- `inode_init`; the thirteen blocks are set to 0.
unfoldable pub inode_init : ℕ → Inode → Inode
inode_init inode_no new_inode = record {
  i_no = inode_no;
  i_size = 0;
  i_open_cnts = 0;
  write_deny = false;
  i_blocks = λ b. if ltb b 13 then 0 else new_inode.i_blocks b;
}

-- A word of a memory of bytes, and a byte of a word.
unfoldable pub word : (ℕ → ℕ) → ℕ → ℕ
word mem a = mem a + 256 * mem (a + 1) + 65536 * mem (a + 2) + 16777216 * mem (a + 3)

unfoldable pub byte_of : ℕ → ℕ → ℕ
byte_of w k =
    if k == 0
    then w % 256
    else if k == 1
    then w / 256 % 256
    else if k == 2
    then w / 65536 % 256
    else w / 16777216 % 256

-- The words of `pure_inode`, which `inode_sync` writes: the count, the flag, which is
-- an `int`, and the two pointers are cleared.
pub pure_word : Inode → ℕ → ℕ
pure_word node q =
    if q == 0
    then node.i_no
    else if q == 1
    then node.i_size
    else if ltb q 4
    then 0
    else if ltb q 17
    then node.i_blocks (q - 4)
    else 0

-- The bytes of `pure_inode`.
pub pure_inode : Inode → ℕ → ℕ
unfolding pure_word byte_of
pure_inode node i = byte_of (pure_word node (i / 4)) (i % 4)

-- The `struct inode` whose bytes lie at an address.
pub load_inode : (ℕ → ℕ) → ℕ → Inode
load_inode mem a = record {
  i_no = word mem a;
  i_size = word mem (a + 4);
  i_open_cnts = word mem (a + 8);
  write_deny = not (word mem (a + 12) == 0);
  i_blocks = λ b. word mem (a + 16 + 4 * b);
}

-- The loop of `inode_open`: the first inode with the number.
unfoldable pub open_loop : (ℕ → Inode) → ℕ → List ℕ → Option ℕ
open_loop inode inode_no [] = none
open_loop inode inode_no (a ∷ rest) =
    if (inode a).i_no == inode_no then some a else open_loop inode inode_no rest

-- `inode_open`, with the disk and the address that `sys_malloc` gives where the inode is not open.
pub inode_open : Partition → (ℕ → ℕ) → ℕ → ℕ → Inodes → Res (ℕ × Inodes)
inode_open part disk fresh inode_no s = elim (open_loop s.inode inode_no s.open_inodes) [
  | some a ↦
      let node = s.inode a in
      ok (
        a,
        record s {
          inode = update s.inode a (record node { i_open_cnts = (node.i_open_cnts + 1) % 2 ^ 32 });
        },
      )
  | none ↦ do
    pos ← inode_locate part inode_no
    let node = load_inode (ide_read disk pos.sec_lba) pos.off_size
    ok (
      fresh,
      record {
        inode = update s.inode fresh (record node { i_open_cnts = 1 });
        open_inodes = fresh ∷ s.open_inodes;
      },
    )
]

-- `inode_close`. What is freed stays in the store, but the list has it no more. The interrupt flag
-- is in the end what it was.
unfoldable pub inode_close : ℕ → Inodes → Inodes
inode_close a s =
    let node = s.inode a in
    let cnts = (node.i_open_cnts + (2 ^ 32 - 1)) % 2 ^ 32 in
    record {
      inode = update s.inode a (record node { i_open_cnts = cnts });
      open_inodes = if cnts == 0 then erase a s.open_inodes else s.open_inodes;
    }
