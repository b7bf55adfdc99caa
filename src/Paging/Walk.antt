-- ===== src/Paging/Walk.antt =====
-- The page directory is its own last table: through that entry `pte_ptr` and `pde_ptr` reach the
-- entries of every address.
use sparrow_os.Base.{
  ℕ, ◌+◌, ◌*◌, ◌/◌, ◌%◌, ◌^◌, ◌<◌, ◌≡◌, ◌∙◌, ap, refl, true, false, ok, panic, arith,
}
use sparrow_os.Paging.{
  Mmu, frame, present, pde_idx, pte_idx, pde_of, pte_at, translate, pte_ptr, pde_ptr,
}

-- The directory is a page of its own, and its last entry leads to itself.
pub record IsMapped (m : Mmu) : Type 0 where
  pub aligned : m.cr3 % 4096 ≡ 0
  pub self_frame : frame (m.word (m.cr3 + 4092)) ≡ m.cr3
  pub self_present : present (m.word (m.cr3 + 4092)) ≡ true

-- The fields of the two pointers.
pub pte_ptr_fields :
    (v : ℕ)
    → v < 2 ^ 32
    → (pde_idx (pte_ptr v) ≡ 1023)
      × (pte_idx (pte_ptr v) ≡ pde_idx v)
      × (pte_ptr v % 4096 ≡ pte_idx v * 4)
      × (pte_ptr v / 4096 ≡ 0xffc00 + pde_idx v)
unfolding pte_ptr
pte_ptr_fields v w = (omega arith, omega arith, omega arith, omega arith)

pub pde_ptr_fields :
    (v : ℕ)
    → v < 2 ^ 32
    → (pde_idx (pde_ptr v) ≡ 1023)
      × (pte_idx (pde_ptr v) ≡ 1023)
      × (pde_ptr v % 4096 ≡ pde_idx v * 4)
unfolding pde_ptr
pde_ptr_fields v w = (omega arith, omega arith, omega arith)

-- A translation by the two entries it meets.
pub translate_run :
    (m : Mmu) (v pde pte : ℕ)
    → pde_of m v ≡ pde
    → present pde ≡ true
    → m.word (frame pde + pte_idx v * 4) ≡ pte
    → present pte ≡ true
    → translate m v ≡ ok (frame pte + v % 4096)
unfolding translate
translate_run m v pde pte e p f q = rw (e, p, f, q) refl

-- A translation that the first entry or the second stops.
pub translate_fault :
    (m : Mmu) (v : ℕ) → present (m.word (pte_at m v)) ≡ false → translate m v ≡ panic
unfolding translate
translate_fault m v q = ground arith

module _ (m : Mmu) (is : IsMapped m) (v : ℕ) (width : v < 2 ^ 32) where
  open is use {aligned, self_frame, self_present}

  self_entry : (i : ℕ) → i ≡ 1023 → m.word (m.cr3 + i * 4) ≡ m.word (m.cr3 + 4092)
  self_entry i e = ap (λ j. m.word (m.cr3 + j * 4)) e

  -- `pde_ptr` is an address of the word that holds the directory entry.
  pub translate-pde_ptr : translate m (pde_ptr v) ≡ ok (m.cr3 + pde_idx v * 4)
  translate-pde_ptr =
      let (d, t, o) = pde_ptr_fields v width in
      let self = m.word (m.cr3 + 4092) in
      let second : m.word (frame self + pte_idx (pde_ptr v) * 4) ≡ self =
        ap m.word (ap (λ f. f + pte_idx (pde_ptr v) * 4) self_frame) ∙ self_entry _ t in
      translate_run m (pde_ptr v) self self (self_entry _ d) self_present second self_present
      ∙ ap ok (ap (λ o. frame self + o) o ∙ ap (λ f. f + pde_idx v * 4) self_frame)

  -- `pte_ptr` is an address of the word that holds the table entry, if there is a table.
  pub translate-pte_ptr : present (pde_of m v) ≡ true → translate m (pte_ptr v) ≡ ok (pte_at m v)
  translate-pte_ptr here =
      let (d, t, o, _) = pte_ptr_fields v width in
      let self = m.word (m.cr3 + 4092) in
      let second : m.word (frame self + pte_idx (pte_ptr v) * 4) ≡ pde_of m v =
        ap m.word (ap (λ f. f + pte_idx (pte_ptr v) * 4) self_frame ∙ ap (λ i. m.cr3 + i * 4) t) in
      translate_run m (pte_ptr v) self (pde_of m v) (self_entry _ d) self_present second here
      ∙ ap ok (ap (λ o. frame (pde_of m v) + o) o)
