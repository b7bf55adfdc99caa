-- ===== src/Paging/Tests.antt =====
-- A directory at 1 MB with one table, whose first entry maps a page.
use sparrow_os.Base.{
  ℕ, ◌/◌, ◌^◌, ◌<◌, ◌≡◌, ◌≢◌, refl, none, some, ok, panic, arith, ◌==◌, if◌then◌else◌,
}
use sparrow_os.Paging.{
  Mmu, pde_idx, translate, page_table_add, Cpu, from_tlb, access, page_table_pte_remove,
}
use sparrow_os.Paging.Map.{IsPaged, Added}
use sparrow_os.Paging.Fresh.{IsFresh}
use sparrow_os.Paging.Mapping.{page_table_add_lem, page_table_pte_remove_lem}

abbrev small_mmu : Mmu
small_mmu = record {
  cr3 = 0x100000;
  word = λ a.
      if a == 0x100ffc
      then 0x100007
      else if a == 0x100000
      then 0x101007
      else if a == 0x101000
      then 0x5007
      else 0;
}

small_mmu-IsPaged : IsPaged small_mmu
small_mmu-IsPaged = record {
  mapped = record { aligned = refl; self_frame = refl; self_present = refl };
  apart = λ i j hi hj ne p q e. ground arith;
}

-- The page behind the table is free.
small_mmu-IsFresh : IsFresh small_mmu 0x102000
small_mmu-IsFresh = record { aligned = refl; unused = λ i h p e. ground arith }

first_page : translate small_mmu 5 ≡ ok 0x5005
unfolding translate
first_page = refl

page_table_add_lem_example :
    (m' : Mmu) × (page_table_add small_mmu 0x400010 0x7000 0x102000 ≡ ok m')
    × Added small_mmu 0x400010 0x7000 m'
page_table_add_lem_example =
    page_table_add_lem small_mmu small_mmu-IsPaged 0x400010 (omega arith) (omega arith) 0x7000
      0x102000 refl (λ p. absurd (ground arith)) (λ p. small_mmu-IsFresh)

-- The page is in the cache, and the parameter lies in another one.
abbrev small_cpu : Cpu
small_cpu = record { mmu = small_mmu; tlb = λ page. if page == 0 then some 0x5000 else none }

page_table_pte_remove_lem_example :
    (c' : Cpu) × (page_table_pte_remove small_cpu 0xc009e000 5 ≡ ok c')
    × IsPaged c'.mmu
    × (translate c'.mmu 5 ≡ panic)
    × ((w : ℕ)
        → w < 2 ^ 32
        → pde_idx w ≢ 1023
        → w / 4096 ≢ 0
        → translate c'.mmu w ≡ translate small_mmu w)
    × ((page : ℕ) → c'.tlb page ≡ (if page == 0xc009e then none else small_cpu.tlb page))
    × (access c' 5 ≡ from_tlb (some 0x5000) 5 panic)
page_table_pte_remove_lem_example =
    page_table_pte_remove_lem small_cpu 0xc009e000 5 0x5005 small_mmu-IsPaged (omega arith)
      (omega arith) first_page
