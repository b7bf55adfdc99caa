-- ===== src/Paging.antt =====
-- The page tables of kernel/memory.c: `pte_ptr`, `pde_ptr`, `page_table_add`, `addr_v2p` and
-- `page_table_pte_remove`, over the translation of addresses that the processor does. The masks of
-- the source select whole bit fields, so they are written as quotients and remainders, and so is
-- `| PG_US_U | PG_RW_W | PG_P_1`, which sets the three low bits.
pub mod Walk
pub mod Map
pub mod Fresh
pub mod Mapping
pub mod Tests
use sparrow_os.Base.{
  ℕ, ◌+◌, ◌-◌, ◌*◌, ◌/◌, ◌%◌, ◌^◌, Bool, not, Option, none, some, Res, ok, panic, check, ◌>>=◌,
  ◌>>◌, ◌==◌, if◌then◌else◌, update,
}

-- The memory that the page tables lie in, by the physical address of a word, and the register CR3.
pub record Mmu : Type 0 where
  pub cr3 : ℕ
  pub word : ℕ → ℕ

abbrev pub pg_size : ℕ
pg_size = 4096

-- The frame that an entry leads to, and its P bit.
abbrev pub frame : ℕ → ℕ
frame entry = entry / 4096 * 4096

abbrev pub present : ℕ → Bool
present entry = entry % 2 == 1

-- `PDE_IDX` and `PTE_IDX`
abbrev pub pde_idx : ℕ → ℕ
pde_idx addr = addr / 2 ^ 22

abbrev pub pte_idx : ℕ → ℕ
pte_idx addr = addr / 2 ^ 12 % 2 ^ 10

-- Where the entries of an address lie, physically.
abbrev pub pde_of : Mmu → ℕ → ℕ
pde_of m v = m.word (m.cr3 + pde_idx v * 4)

abbrev pub pte_at : Mmu → ℕ → ℕ
pte_at m v = frame (pde_of m v) + pte_idx v * 4

-- The translation of an address. An address that is not mapped raises a page fault, whose handler
-- stops the machine.
pub translate : Mmu → ℕ → Res ℕ
translate m v = do
  check (present (pde_of m v))
  let pte = m.word (pte_at m v)
  check (present pte)
  ok (frame pte + v % 4096)

pub load : Mmu → ℕ → Res ℕ
load m v = do addr ← translate m v; ok (m.word addr)

pub store : Mmu → ℕ → ℕ → Res Mmu
store m v value = do addr ← translate m v; ok (record m { word = update m.word addr value })

-- `memset(v, 0, PG_SIZE)` on a page.
pub clear_page : Mmu → ℕ → Res Mmu
clear_page m v = do
  addr ← translate m v
  ok (record m { word = λ a. if a / 4096 == addr / 4096 then 0 else m.word a })

pub pte_ptr : ℕ → ℕ
pte_ptr vaddr = 0xffc00000 + vaddr / 2 ^ 22 * 2 ^ 12 + pte_idx vaddr * 4

pub pde_ptr : ℕ → ℕ
pde_ptr vaddr = 0xfffff000 + pde_idx vaddr * 4

-- The value `phyaddr | PG_US_U | PG_RW_W | PG_P_1`
abbrev pub entry_of : ℕ → ℕ
entry_of phyaddr = phyaddr / 8 * 8 + 7

-- `page_table_add`, where `table` is the frame that `palloc` gives when it is called, 0 for `NULL`.
pub page_table_add : Mmu → ℕ → ℕ → ℕ → Res Mmu
page_table_add m vaddr page_phyaddr table = do
  let pde = pde_ptr vaddr
  let pte = pte_ptr vaddr
  dir_entry ← load m pde
  if present dir_entry
      then (do old ← load m pte; check (not (present old)); store m pte (entry_of page_phyaddr))
      else (do
        m₁ ← store m pde (entry_of table)
        m₂ ← clear_page m₁ (pte / 4096 * 4096)
        old ← load m₂ pte
        check (not (present old))
        store m₂ pte (entry_of page_phyaddr))

pub addr_v2p : Mmu → ℕ → Res ℕ
addr_v2p m vaddr = do pte ← load m (pte_ptr vaddr); ok (pte / 4096 * 4096 + vaddr % 4096)

-- The P bit of the entry of an address is cleared: what `page_table_pte_remove` does to the tables.
pub clear_pte : Mmu → ℕ → Res Mmu
clear_pte m vaddr = do let pte = pte_ptr vaddr; old ← load m pte; store m pte (old - old % 2)

-- The processor with its cache of translations, the frame for the number of a page.
pub record Cpu : Type 0 where
  pub mmu : Mmu
  pub tlb : ℕ → Option ℕ

-- What the processor takes an address for: the cache comes first.
pub from_tlb : Option ℕ → ℕ → Res ℕ → Res ℕ
from_tlb none v walked = walked
from_tlb (some cached) v walked = ok (cached + v % 4096)

pub access : Cpu → ℕ → Res ℕ
unfolding translate from_tlb
access c v = from_tlb (c.tlb (v / 4096)) v (translate c.mmu v)

-- `invlpg` with an operand in memory: the page of the operand leaves the cache.
pub invlpg : ℕ → Cpu → Cpu
invlpg operand c = record c { tlb = λ page. if page == operand / 4096 then none else c.tlb page }

-- `page_table_pte_remove`, with the place of the parameter `vaddr` on the stack. The operand of the
-- `invlpg` is that place, not the address that it holds.
pub page_table_pte_remove : Cpu → ℕ → ℕ → Res Cpu
unfolding clear_pte invlpg
page_table_pte_remove c place vaddr = do
  mmu ← clear_pte c.mmu vaddr
  ok (invlpg place (record c { mmu = mmu }))
