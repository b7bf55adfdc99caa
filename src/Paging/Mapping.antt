-- ===== src/Paging/Mapping.antt =====
-- The theorems on `page_table_add` and `page_table_pte_remove`, whatever tables are there.
use sparrow_os.Base.{
  ℕ, ◌-◌, ◌/◌, ◌%◌, ◌^◌, ◌<◌, ◌≡◌, ◌≢◌, ◌∙◌, ap, refl, inl, inr, true, false, none, ◌==◌,
  if◌then◌else◌, ok, panic, arith, Bool-cases,
}
use sparrow_os.Paging.{
  Mmu, present, pde_idx, pde_of, pte_at, entry_of, translate, page_table_add, clear_pte, Cpu,
  from_tlb, access, invlpg, page_table_pte_remove,
}
use sparrow_os.Paging.Walk.{translate_fault}
use sparrow_os.Paging.Map.{
  IsPaged, written, written-IsPaged, written_here, written_else, load-pte, store-pte, load-pde,
  Added, here-Added, add_present_run,
}
use sparrow_os.Paging.Fresh.{IsFresh, add_fresh_run, fresh-Added}

module _ (m : Mmu) (is : IsPaged m) (v : ℕ) (width : v < 2 ^ 32) (low : pde_idx v ≢ 1023) where
  -- An address that translates has both its entries.
  both :
      (addr : ℕ)
      → translate m v ≡ ok addr
      → (present (pde_of m v) ≡ true) × (present (m.word (pte_at m v)) ≡ true)
  unfolding translate
  both addr e = (ground arith, ground arith)

  remove_run :
      present (pde_of m v) ≡ true
      → clear_pte m v
        ≡ ok (written m is v width low (m.word (pte_at m v) - m.word (pte_at m v) % 2))
  unfolding clear_pte
  remove_run p =
      rw
        (
          load-pte m is v width low p,
          store-pte m is v width low (m.word (pte_at m v) - m.word (pte_at m v) % 2) p,
        )
        refl

  -- `page_table_add` of an address below the last 4 MB that is not mapped, to a page, with a page
  -- fresh for a table that is missing: by the tables, the address translates to that page, the other
  -- pages below the last 4 MB that were mapped keep their translation and those that were not still
  -- fault, and the tables stay apart.
  pub page_table_add_lem :
      (phyaddr table : ℕ)
      → phyaddr % 4096 ≡ 0
      → (present (pde_of m v) ≡ true → present (m.word (pte_at m v)) ≡ false)
      → (present (pde_of m v) ≡ false → IsFresh m table)
      → (m' : Mmu) × (page_table_add m v phyaddr table ≡ ok m') × Added m v phyaddr m'
  page_table_add_lem phyaddr table page unmapped fresh = elim (Bool-cases (present (pde_of m v))) [
    | inl p ↦ (
      written m is v width low (entry_of phyaddr),
      add_present_run m is v width low phyaddr page table p (unmapped p),
      here-Added m is v width low phyaddr page p,
    )
    | inr a ↦ (
      _,
      add_fresh_run m is v width low table (fresh a) a phyaddr,
      fresh-Added m is v width low table (fresh a) a phyaddr page,
    )
  ]

  -- `page_table_add` of an address that is mapped fails its assertion.
  pub page_table_add_twice :
      (phyaddr table addr : ℕ) → translate m v ≡ ok addr → page_table_add m v phyaddr table ≡ panic
  unfolding page_table_add
  page_table_add_twice phyaddr table addr e =
      let (p, q) = both addr e in
      rw (load-pde m is v width low, p, load-pte m is v width low p, q) refl

  -- In the tables the address has no translation any more, and the other pages below the last 4 MB
  -- keep theirs.
  clear_pte_lem :
      (addr : ℕ)
      → translate m v ≡ ok addr
      → (m' : Mmu) × (clear_pte m v ≡ ok m')
        × IsPaged m'
        × (translate m' v ≡ panic)
        × ((w : ℕ)
            → w < 2 ^ 32
            → pde_idx w ≢ 1023
            → w / 4096 ≢ v / 4096
            → translate m' w ≡ translate m w)
  clear_pte_lem addr e =
      let (p, q) = both addr e in
      let old = m.word (pte_at m v) in
      let off : present (old - old % 2) ≡ false = ground arith in
      let m' = written m is v width low (old - old % 2) in
      (
        m',
        remove_run p,
        written-IsPaged m is v width low (old - old % 2) p,
        translate_fault m' v (ap present (written_here m is v width low (old - old % 2) p).1 ∙ off),
        λ w hw lw ne. written_else m is v width low (old - old % 2) w p hw lw ne,
      )

-- `page_table_pte_remove` of an address that is mapped below the last 4 MB: in the tables it has no
-- translation any more, the other pages below the last 4 MB keep theirs, and the page of the
-- parameter `vaddr` itself leaves the cache, and no other. So an access to the address faults if
-- its page was not in the cache, or is the page of the parameter; else the processor still takes
-- the address to the frame that it has in the cache.
pub page_table_pte_remove_lem :
    (c : Cpu) (place v addr : ℕ)
    → IsPaged c.mmu
    → v < 2 ^ 32
    → pde_idx v ≢ 1023
    → translate c.mmu v ≡ ok addr
    → (c' : Cpu) × (page_table_pte_remove c place v ≡ ok c')
      × IsPaged c'.mmu
      × (translate c'.mmu v ≡ panic)
      × ((w : ℕ)
          → w < 2 ^ 32
          → pde_idx w ≢ 1023
          → w / 4096 ≢ v / 4096
          → translate c'.mmu w ≡ translate c.mmu w)
      × ((page : ℕ) → c'.tlb page ≡ (if page == place / 4096 then none else c.tlb page))
      × (access c' v
          ≡ (if v / 4096 == place / 4096 then panic else from_tlb (c.tlb (v / 4096)) v panic))
unfolding page_table_pte_remove invlpg access
page_table_pte_remove_lem c place v addr is width low maps =
    let (m, run, paged, faults, others) = clear_pte_lem c.mmu is v width low addr maps in
    let c' : Cpu = record c {
      mmu = m;
      tlb = λ page. if page == place / 4096 then none else c.tlb page;
    } in
    (
      c',
      rw run refl,
      paged,
      faults,
      others,
      λ page. refl,
      ap (from_tlb (c'.tlb (v / 4096)) v) faults ∙ elim (Bool-cases (v / 4096 == place / 4096)) [
        | inl e ↦ rw e (unfold from_tlb in refl)
        | inr e ↦ rw e refl
      ],
    )
