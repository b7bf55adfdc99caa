-- ===== src/Paging/Map.antt =====
-- What `page_table_add`, `addr_v2p` and `page_table_pte_remove` do to the mapping of every address.
use sparrow_os.Base.{
  ℕ, ◌+◌, ◌*◌, ◌/◌, ◌%◌, ◌^◌, ◌<◌, ◌≡◌, ◌≢◌, ◌∙◌, ap, sym, refl, inl, inr, true, false, ok, arith,
  ◌==◌, Bool-cases, update,
}
use sparrow_os.Paging.{
  Mmu, frame, present, pde_idx, pte_idx, pde_of, pte_at, entry_of, translate, load, store, pte_ptr,
  pde_ptr, page_table_add, addr_v2p,
}
use sparrow_os.Paging.Walk.{IsMapped, translate-pde_ptr, translate-pte_ptr, translate_run}

-- The entry of the directory with a number.
abbrev pub dir : Mmu → ℕ → ℕ
dir m i = m.word (m.cr3 + i * 4)

-- No two entries of the directory lead to the same page; the last leads to the directory itself.
pub record IsPaged (m : Mmu) : Type 0 where
  pub mapped : IsMapped m
  pub apart :
      (i j : ℕ)
      → i < 1024
      → j < 1024
      → i ≢ j
      → present (dir m i) ≡ true
      → present (dir m j) ≡ true
      → frame (dir m i) ≢ frame (dir m j)

-- A memory with the same directory.
pub IsPaged_same :
    (m m' : Mmu)
    → m'.cr3 ≡ m.cr3
    → ((i : ℕ) → i < 1024 → dir m' i ≡ dir m i)
    → IsPaged m
    → IsPaged m'
IsPaged_same m m' c same is =
    let last : m'.word (m'.cr3 + 4092) ≡ m.word (m.cr3 + 4092) = same 1023 (omega arith) in
    record {
      mapped = record {
        aligned = ap (λ x. x % 4096) c ∙ is.mapped.aligned;
        self_frame = ap frame last ∙ is.mapped.self_frame ∙ sym c;
        self_present = ap present last ∙ is.mapped.self_present;
      };
      apart = λ i j hi hj ne p q e.
          is.apart i j hi hj ne (ap present (sym (same i hi)) ∙ p)
            (ap present (sym (same j hj)) ∙ q)
            (ap frame (sym (same i hi)) ∙ e ∙ ap frame (same j hj));
    }

-- An address whose two entries are the same.
pub translate_same :
    (m m' : Mmu) (w : ℕ)
    → pde_of m' w ≡ pde_of m w
    → (present (pde_of m w) ≡ true → m'.word (pte_at m w) ≡ m.word (pte_at m w))
    → translate m' w ≡ translate m w
unfolding translate
translate_same m m' w e f = ground (arith, ap (λ p. frame p + pte_idx w * 4) e)

module _ (m : Mmu) (is : IsPaged m) where
  open is use {mapped, apart}

  -- The pages of the tables are not the directory's.
  pub table_apart : (i : ℕ) → i < 1023 → present (dir m i) ≡ true → frame (dir m i) ≢ m.cr3
  table_apart i h p e =
      apart i 1023 (omega arith) (omega arith) (omega arith) p mapped.self_present
        (e ∙ sym mapped.self_frame)

  -- A write to a word of a table, and one that clears a page, leave the directory.
  pub dir_off :
      (f : ℕ) (o i : ℕ) → f % 4096 ≡ 0 → o < 4096 → f ≢ m.cr3 → i < 1024 → f + o ≢ m.cr3 + i * 4
  dir_off f o i a h ne hi = ground (arith, mapped.aligned)

  module _ (v : ℕ) (width : v < 2 ^ 32) (low : pde_idx v ≢ 1023) where
    -- The memory after a write to the table entry of the address.
    pub written : ℕ → Mmu
    written e = record m { word = update m.word (pte_at m v) e }

    dir-written : (e i : ℕ) → present (pde_of m v) ≡ true → i < 1024 → dir (written e) i ≡ dir m i
    unfolding written
    dir-written e i p hi =
        let ne : pte_at m v ≢ m.cr3 + i * 4 =
          dir_off (frame (pde_of m v)) (pte_idx v * 4) i (omega arith) (omega arith)
            (table_apart (pde_idx v) (omega arith) p) hi in
        ground arith

    pub written-IsPaged : (e : ℕ) → present (pde_of m v) ≡ true → IsPaged (written e)
    unfolding written
    written-IsPaged e p = IsPaged_same m (written e) refl (λ i hi. dir-written e i p hi) is

    pub written_here :
        (e : ℕ)
        → present (pde_of m v) ≡ true
        → (pde_of (written e) v ≡ pde_of m v) × ((written e).word (pte_at (written e) v) ≡ e)
    unfolding written
    written_here e p =
        let d : pde_of (written e) v ≡ pde_of m v = dir-written e (pde_idx v) p (omega arith) in
        (d, ap (written e).word (ap (λ x. frame x + pte_idx v * 4) d) ∙ ground arith)

    pub written_else :
        (e w : ℕ)
        → present (pde_of m v) ≡ true
        → w < 2 ^ 32
        → pde_idx w ≢ 1023
        → w / 4096 ≢ v / 4096
        → translate (written e) w ≡ translate m w
    unfolding written
    written_else e w p hw lw ne =
        translate_same m (written e) w (dir-written e (pde_idx w) p (omega arith)) (λ q.
          elim (Bool-cases (pde_idx w == pde_idx v)) [
            | inl same ↦
                let i : pde_idx w ≡ pde_idx v = ground arith in
                let f : frame (pde_of m w) ≡ frame (pde_of m v) = ap (λ i. frame (dir m i)) i in
                ground (arith)
            | inr other ↦
                let f =
                  apart (pde_idx w) (pde_idx v) (omega arith) (omega arith) (ground arith) q p in
                ground (arith)
          ])

    pub load-pte : present (pde_of m v) ≡ true → load m (pte_ptr v) ≡ ok (m.word (pte_at m v))
    unfolding load
    load-pte p = rw (translate-pte_ptr m mapped v width p) refl

    pub store-pte : (e : ℕ) → present (pde_of m v) ≡ true → store m (pte_ptr v) e ≡ ok (written e)
    unfolding store written
    store-pte e p = rw (translate-pte_ptr m mapped v width p) refl

    pub load-pde : load m (pde_ptr v) ≡ ok (pde_of m v)
    unfolding load
    load-pde = rw (translate-pde_ptr m mapped v width) refl

    translated :
        present (pde_of m v) ≡ true
        → (addr : ℕ) → translate m v ≡ ok addr
        → ok (m.word (pte_at m v) / 4096 * 4096 + v % 4096) ≡ ok addr
    unfolding translate
    translated p addr e = ground arith

    stopped : present (pde_of m v) ≡ false → (addr : ℕ) → translate m v ≢ ok addr
    unfolding translate
    stopped p addr e = ground arith

    -- `addr_v2p` agrees with the processor's translation, wherever the address is mapped.
    pub addr_v2p-translate : (addr : ℕ) → translate m v ≡ ok addr → addr_v2p m v ≡ ok addr
    unfolding addr_v2p
    addr_v2p-translate addr e = elim (Bool-cases (present (pde_of m v))) [
      | inl p ↦ rw (load-pte p) (translated p addr e)
      | inr p ↦ absurd (stopped p addr e)
    ]

-- What the mapping of one page more comes to: the address translates, the other pages as before.
pub record Added (m : Mmu) (v phyaddr : ℕ) (m' : Mmu) : Type 0 where
  pub paged : IsPaged m'
  pub maps : translate m' v ≡ ok (phyaddr + v % 4096)
  pub others :
      (w : ℕ) → w < 2 ^ 32 → pde_idx w ≢ 1023 → w / 4096 ≢ v / 4096 → translate m' w ≡ translate m w

pub entry_of-frame :
    (a : ℕ) → a % 4096 ≡ 0 → (frame (entry_of a) ≡ a) × (present (entry_of a) ≡ true)
entry_of-frame a h = (omega arith, ground arith)

module _ (m : Mmu) (is : IsPaged m) (v : ℕ) (width : v < 2 ^ 32) (low : pde_idx v ≢ 1023)
    (phyaddr : ℕ) (page : phyaddr % 4096 ≡ 0) where
  pub here-Added :
      present (pde_of m v) ≡ true → Added m v phyaddr (written m is v width low (entry_of phyaddr))
  here-Added p =
      let m' = written m is v width low (entry_of phyaddr) in
      let (d, e) = written_here m is v width low (entry_of phyaddr) p in
      let (f, q) = entry_of-frame phyaddr page in
      record {
        paged = written-IsPaged m is v width low (entry_of phyaddr) p;
        maps =
            translate_run m' v (pde_of m v) (entry_of phyaddr) d p
              (ap (λ x. m'.word (frame x + pte_idx v * 4)) (sym d) ∙ e) q
            ∙ ap (λ x. ok (x + v % 4096)) f;
        others = λ w hw lw ne. written_else m is v width low (entry_of phyaddr) w p hw lw ne;
      }

  -- The table is there.
  pub add_present_run :
      (table : ℕ)
      → present (pde_of m v) ≡ true
      → present (m.word (pte_at m v)) ≡ false
      → page_table_add m v phyaddr table ≡ ok (written m is v width low (entry_of phyaddr))
  unfolding page_table_add
  add_present_run table p q =
      rw
        (
          load-pde m is v width low,
          p,
          load-pte m is v width low p,
          q,
          store-pte m is v width low (entry_of phyaddr) p,
        )
        refl
