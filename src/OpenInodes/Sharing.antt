-- ===== src/OpenInodes/Sharing.antt =====
-- All who open an inode share one `struct inode`: `inode_open` and `inode_close` keep that, and
-- undo one another.
use sparrow_os.Base.{
  ℕ, ◌+◌, ◌-◌, ◌*◌, ◌%◌, ◌^◌, ◌<◌, ◌≡◌, ◌≢◌, refl, inl, inr, true, false, Option, none, some, List,
  [], ◌∷◌, ok, ◌==◌, arith, update, has, Distinct, Bool-cases,
}
use sparrow_os.Inode.{Partition, InodePosition, inode_locate, ide_read}
use sparrow_os.Inode.Place.{place, inode_locate_lem}
use sparrow_os.OpenInodes.{Inode, Inodes, load_inode, word, open_loop, inode_open, inode_close}

-- The list of open inodes has each address once and each number once, and all of them are counted.
pub record IsShared (s : Inodes) : Type 0 where
  pub distinct : Distinct s.open_inodes
  pub single :
      (a b : ℕ)
      → has a s.open_inodes ≡ true
      → has b s.open_inodes ≡ true
      → (s.inode a).i_no ≡ (s.inode b).i_no
      → a ≡ b
  pub counted :
      (a : ℕ)
      → has a s.open_inodes ≡ true
      → (0 < (s.inode a).i_open_cnts) × ((s.inode a).i_open_cnts < 2 ^ 32)

-- What the search of `inode_open` may come to.
abbrev pub Found : (ℕ → Inode) → ℕ → List ℕ → Option ℕ → Type 0
Found inode n l (some a) = (has a l ≡ true) × ((inode a).i_no ≡ n)
Found inode n l none = (a : ℕ) → has a l ≡ true → (inode a).i_no ≢ n

pub open_loop_lem : (inode : ℕ → Inode) (n : ℕ) (l : List ℕ) → Found inode n l (open_loop inode n l)
unfolding open_loop
open_loop_lem inode n [] = λ a h. cc
open_loop_lem inode n (a ∷ l) = elim (Bool-cases ((inode a).i_no == n)) [
  | inl e ↦ rw e (ground arith, ground arith)
  | inr e ↦ rw e (later (open_loop inode n l) (open_loop_lem inode n l) (ground arith))
]
  where
    later : (o : Option ℕ) → Found inode n l o → (inode a).i_no ≢ n → Found inode n (a ∷ l) o
    later (some b) (h, e) ne = (ground arith, e)
    later none f ne = λ b h. elim (Bool-cases (b == a)) [
      | inl e ↦ let same : b ≡ a = ground arith in rw same ne
      | inr e ↦ f b (ground arith)
    ]

-- The number of an inode that is read from its place.
loaded_at :
    (part : Partition) (disk : ℕ → ℕ) (n : ℕ) (pos : InodePosition)
    → pos.sec_lba * 512 + pos.off_size ≡ place part n
    → word disk (place part n) ≡ n
    → (load_inode (ide_read disk pos.sec_lba) pos.off_size).i_no ≡ n
unfolding load_inode word ide_read
loaded_at part disk n pos at number =
    let b0 = at in
    let b1 : pos.sec_lba * 512 + (pos.off_size + 1) ≡ place part n + 1 = omega (arith, at) in
    let b2 : pos.sec_lba * 512 + (pos.off_size + 2) ≡ place part n + 2 = omega (arith, at) in
    let b3 : pos.sec_lba * 512 + (pos.off_size + 3) ≡ place part n + 3 = omega (arith, at) in
    rw (b0, b1, b2, b3) number

-- The state after a hit, and after a miss.
abbrev pub reopened : ℕ → Inodes → Inodes
reopened a s = record s {
  inode =
      update s.inode a
        (record (s.inode a) { i_open_cnts = ((s.inode a).i_open_cnts + 1) % 2 ^ 32 });
}

abbrev added : Inode → ℕ → Inodes → Inodes
added node a s = record {
  inode = update s.inode a (record node { i_open_cnts = 1 });
  open_inodes = a ∷ s.open_inodes;
}

-- What `inode_open` comes to: the inode with the number, which is open, with all that was open
-- before, and every other inode as it was; `inode_close` of it goes back to the list and the inodes
-- that were open.
pub record Opened (s : Inodes) (n a : ℕ) (s' : Inodes) : Type 0 where
  pub shared : IsShared s'
  pub listed : has a s'.open_inodes ≡ true
  pub number : (s'.inode a).i_no ≡ n
  pub others : (b : ℕ) → a ≢ b → s'.inode b ≡ s.inode b
  pub closes : (inode_close a s').open_inodes ≡ s.open_inodes
  pub restores : (b : ℕ) → has b s.open_inodes ≡ true → (inode_close a s').inode b ≡ s.inode b

module _ (s : Inodes) (shared : IsShared s) where
  open shared use {distinct, single, counted}

  reopened-IsShared :
      (a : ℕ)
      → has a s.open_inodes ≡ true
      → (s.inode a).i_open_cnts + 1 < 2 ^ 32
      → IsShared (reopened a s)
  reopened-IsShared a h room = record {
    distinct = distinct;
    single = λ b c p q e. single b c p q (ground arith);
    counted = λ b p. ground (arith, counted b p);
  }

  added-IsShared :
      (node : Inode) (a : ℕ)
      → has a s.open_inodes ≡ false
      → ((b : ℕ) → has b s.open_inodes ≡ true → (s.inode b).i_no ≢ node.i_no)
      → IsShared (added node a s)
  added-IsShared node a new other = record {
    distinct = (new, distinct);
    single = λ b c p q e. ground (arith, single b c, other b, other c);
    counted = λ b p. ground (arith, counted b);
  }

  -- One count more and one less.
  count_back : (c : ℕ) → c + 1 < 2 ^ 32 → ((c + 1) % 2 ^ 32 + (2 ^ 32 - 1)) % 2 ^ 32 ≡ c
  count_back c h = omega arith

  pub reopened-Opened :
      (n a : ℕ)
      → has a s.open_inodes ≡ true
      → (s.inode a).i_no ≡ n
      → (s.inode a).i_open_cnts + 1 < 2 ^ 32
      → Opened s n a (reopened a s)
  unfolding inode_close
  reopened-Opened n a h e room = record {
    shared = reopened-IsShared a h room;
    listed = h;
    number = ground arith;
    others = λ b ne. ground arith;
    closes = ground (arith, counted a h);
    restores = λ b p. elim (Bool-cases (a == b)) [
      | inl same ↦
          let eq : b ≡ a = ground arith in
          let self : a == a ≡ true = ground arith in
          rw (eq, self, count_back (s.inode a).i_open_cnts room) refl
      | inr other ↦ rw other refl
    ];
  }

  added-Opened :
      (node : Inode) (n a : ℕ)
      → has a s.open_inodes ≡ false
      → node.i_no ≡ n
      → ((b : ℕ) → has b s.open_inodes ≡ true → (s.inode b).i_no ≢ n)
      → Opened s n a (added node a s)
  unfolding inode_close
  added-Opened node n a new e other = record {
    shared = added-IsShared node a new (λ b h. rw e (other b h));
    listed = ground arith;
    number = ground arith;
    others = λ b ne. ground arith;
    closes = ground arith;
    restores = λ b p. ground arith;
  }

module _ (part : Partition) (disk : ℕ → ℕ) (fresh n : ℕ) (s : Inodes) where
  pub open_hit :
      (a : ℕ)
      → open_loop s.inode n s.open_inodes ≡ some a
      → inode_open part disk fresh n s ≡ ok (a, reopened a s)
  unfolding inode_open
  open_hit a e = rw (e, inode_open) refl

  open_miss :
      (pos : InodePosition)
      → open_loop s.inode n s.open_inodes ≡ none
      → inode_locate part n ≡ ok pos
      → inode_open part disk fresh n s
        ≡ ok (fresh, added (load_inode (ide_read disk pos.sec_lba) pos.off_size) fresh s)
  unfolding inode_open
  open_miss pos e run = rw (e, inode_open) (rw run refl)

  -- `inode_open` of a number below 4096, whose place on the disk holds that number, gives the one
  -- inode in memory with the number and keeps all sharing; closing it again goes back to what was
  -- open. The address from `sys_malloc` is not in use, and no count runs over.
  pub inode_open-Opened :
      IsShared s
      → n < 4096
      → has fresh s.open_inodes ≡ false
      → word disk (place part n) ≡ n
      → ((a : ℕ) → has a s.open_inodes ≡ true → (s.inode a).i_open_cnts + 1 < 2 ^ 32)
      → (a : ℕ) × (s' : Inodes) × (inode_open part disk fresh n s ≡ ok (a, s')) × Opened s n a s'
  inode_open-Opened shared small new number room =
      go (open_loop s.inode n s.open_inodes) refl (open_loop_lem s.inode n s.open_inodes)
    where
      go :
          (o : Option ℕ)
          → open_loop s.inode n s.open_inodes ≡ o
          → Found s.inode n s.open_inodes o
          → (a : ℕ) × (s' : Inodes) × (inode_open part disk fresh n s ≡ ok (a, s'))
            × Opened s n a s'
      go (some a) e (h, same) = (a, _, open_hit a e, reopened-Opened s shared n a h same (room a h))
      go none e other =
          let (pos, run, at, off, fits) = inode_locate_lem part n small in
          let mem = ide_read disk pos.sec_lba in
          (
            fresh,
            _,
            open_miss pos e run,
            added-Opened s shared (load_inode mem pos.off_size) n fresh new
                (loaded_at part disk n pos at number) other,
          )
