-- ===== src/Paging/Fresh.antt =====
-- `page_table_add` where the table of the address is missing: a page is entered for it and cleared.
use sparrow_os.Base.{
  ℕ, ◌+◌, ◌*◌, ◌/◌, ◌%◌, ◌^◌, ◌<◌, ◌≡◌, ◌≢◌, ◌∙◌, ap, sym, refl, inl, inr, true, false, ok, panic,
  arith, ◌==◌, Bool-cases, if◌then◌else◌, update,
}
use sparrow_os.Paging.{
  Mmu, frame, present, pde_idx, pte_idx, pde_of, pte_at, entry_of, translate, store, clear_page,
  pte_ptr, pde_ptr, page_table_add,
}
use sparrow_os.Paging.Walk.{translate-pde_ptr, translate-pte_ptr, translate_fault}
use sparrow_os.Paging.Map.{
  dir, IsPaged, IsPaged_same, translate_same, table_apart, written, load-pte, store-pte, load-pde,
  Added, entry_of-frame, here-Added,
}

-- A page that is no table and not the directory.
pub record IsFresh (m : Mmu) (table : ℕ) : Type 0 where
  pub aligned : table % 4096 ≡ 0
  pub unused : (i : ℕ) → i < 1024 → present (dir m i) ≡ true → frame (dir m i) ≢ table

module _ (m : Mmu) (is : IsPaged m) (v : ℕ) (width : v < 2 ^ 32) (low : pde_idx v ≢ 1023)
    (table : ℕ) (fresh : IsFresh m table) (absent : present (pde_of m v) ≡ false) where
  open is use {mapped, apart}

  -- With the new entry in the directory.
  entered : Mmu
  entered = record m { word = update m.word (m.cr3 + pde_idx v * 4) (entry_of table) }

  dir-entered : (i : ℕ) → dir entered i ≡ (if pde_idx v == i then entry_of table else dir m i)
  unfolding entered
  dir-entered i = ground arith

  entered-IsPaged : IsPaged entered
  unfolding entered
  entered-IsPaged =
      let (f, p) = entry_of-frame table fresh.aligned in
      let last : dir entered 1023 ≡ dir m 1023 = ground (arith, dir-entered 1023) in
      record {
        mapped = record {
          aligned = mapped.aligned;
          self_frame = ap frame last ∙ mapped.self_frame;
          self_present = ap present last ∙ mapped.self_present;
        };
        apart = λ i j hi hj ne a b e. elim (Bool-cases (pde_idx v == i)) [
          | inl x ↦ elim (Bool-cases (pde_idx v == j)) [
            | inl y ↦ absurd (ground arith)
            | inr y ↦
                let r : dir entered i ≡ entry_of table = dir-entered i ∙ rw x refl in
                let t : dir entered j ≡ dir m j = dir-entered j ∙ rw y refl in
                fresh.unused j hj (ap present (sym t) ∙ b)
                  (ap frame (sym t) ∙ sym e ∙ ap frame r ∙ f)
          ]
          | inr x ↦ elim (Bool-cases (pde_idx v == j)) [
            | inl y ↦
                let r : dir entered i ≡ dir m i = dir-entered i ∙ rw x refl in
                let t : dir entered j ≡ entry_of table = dir-entered j ∙ rw y refl in
                fresh.unused i hi (ap present (sym r) ∙ a) (ap frame (sym r) ∙ e ∙ ap frame t ∙ f)
            | inr y ↦
                let r : dir entered i ≡ dir m i = dir-entered i ∙ rw x refl in
                let t : dir entered j ≡ dir m j = dir-entered j ∙ rw y refl in
                apart i j hi hj ne (ap present (sym r) ∙ a) (ap present (sym t) ∙ b)
                  (ap frame (sym r) ∙ e ∙ ap frame t)
          ]
        ];
      }

  table_off : table ≢ m.cr3
  table_off e = fresh.unused 1023 (omega arith) mapped.self_present (mapped.self_frame ∙ sym e)

  -- With the table cleared.
  pub cleared : Mmu
  unfolding entered
  cleared = record entered { word = λ a. if a / 4096 == table / 4096 then 0 else entered.word a }

  dir-cleared : (i : ℕ) → i < 1024 → dir cleared i ≡ dir entered i
  unfolding cleared entered
  dir-cleared i h =
      let off : (m.cr3 + i * 4) / 4096 ≢ table / 4096 =
        λ e. table_off (omega (arith, mapped.aligned, fresh.aligned)) in
      ground arith

  pub cleared-IsPaged : IsPaged cleared
  unfolding cleared entered
  cleared-IsPaged = IsPaged_same entered cleared refl dir-cleared entered-IsPaged

  entered_here : pde_of entered v ≡ entry_of table
  entered_here = dir-entered (pde_idx v) ∙ ground arith

  cleared_here : pde_of cleared v ≡ entry_of table
  unfolding cleared entered
  cleared_here = dir-cleared (pde_idx v) (omega arith) ∙ entered_here

  cleared_pte : (w : ℕ) → pde_idx w ≡ pde_idx v → present (cleared.word (pte_at cleared w)) ≡ false
  unfolding cleared entered
  cleared_pte w i =
      let f : frame (pde_of cleared w) ≡ table =
        ap (λ i. frame (dir cleared i)) i
        ∙ ap frame cleared_here
        ∙ (entry_of-frame table fresh.aligned).0 in
      ground (arith, fresh.aligned)

  absent_fault : (w : ℕ) → present (pde_of m w) ≡ false → translate m w ≡ panic
  unfolding translate
  absent_fault w h = rw h refl

  cleared_else : (w : ℕ) → w < 2 ^ 32 → pde_idx w ≢ 1023 → translate cleared w ≡ translate m w
  unfolding cleared entered
  cleared_else w hw lw = elim (Bool-cases (pde_idx v == pde_idx w)) [
    | inl e ↦
        let i : pde_idx w ≡ pde_idx v = ground arith in
        translate_fault cleared w (cleared_pte w i)
        ∙ sym (absent_fault w (ap (λ i. present (dir m i)) i ∙ absent))
    | inr e ↦
        let d : pde_of cleared w ≡ pde_of m w =
          dir-cleared (pde_idx w) (omega arith) ∙ dir-entered (pde_idx w) ∙ rw e refl in
        translate_same m cleared w d (λ q.
          let t = fresh.unused (pde_idx w) (omega arith) q in
          let c = table_apart m is (pde_idx w) (omega arith) q in
          ground (arith, fresh.aligned, mapped.aligned))
  ]

  enter_run : store m (pde_ptr v) (entry_of table) ≡ ok entered
  unfolding store entered
  enter_run = rw (translate-pde_ptr m mapped v width) refl

  pte_page : pte_ptr v / 4096 * 4096 ≡ pte_ptr (pde_idx v * 2 ^ 22)
  unfolding pte_ptr
  pte_page = omega arith

  clear_run : clear_page entered (pte_ptr v / 4096 * 4096) ≡ ok cleared
  unfolding clear_page cleared
  clear_run =
      let (f, p) = entry_of-frame table fresh.aligned in
      let w = pde_idx v * 2 ^ 22 in
      let i : pde_idx w ≡ pde_idx v = omega arith in
      let d : pde_of entered w ≡ entry_of table = ap (dir entered) i ∙ entered_here in
      let at : translate entered (pte_ptr v / 4096 * 4096) ≡ ok table =
        ap (translate entered) pte_page
        ∙ translate-pte_ptr entered entered-IsPaged.mapped w (omega arith) (ap present d ∙ p)
        ∙ ap ok (ap (λ x. frame x + pte_idx w * 4) d ∙ omega (arith, f)) in
      rw at refl

  pub add_fresh_run :
      (phyaddr : ℕ)
      → page_table_add m v phyaddr table
        ≡ ok (written cleared cleared-IsPaged v width low (entry_of phyaddr))
  unfolding page_table_add
  add_fresh_run phyaddr =
      let p : present (pde_of cleared v) ≡ true =
        ap present cleared_here ∙ (entry_of-frame table fresh.aligned).1 in
      rw
        (
          load-pde m is v width low,
          absent,
          enter_run,
          clear_run,
          load-pte cleared cleared-IsPaged v width low p,
          cleared_pte v refl,
          store-pte cleared cleared-IsPaged v width low (entry_of phyaddr) p,
        )
        refl

  pub fresh-Added :
      (phyaddr : ℕ)
      → phyaddr % 4096 ≡ 0
      → Added m v phyaddr (written cleared cleared-IsPaged v width low (entry_of phyaddr))
  fresh-Added phyaddr page =
      let p : present (pde_of cleared v) ≡ true =
        ap present cleared_here ∙ (entry_of-frame table fresh.aligned).1 in
      let added = here-Added cleared cleared-IsPaged v width low phyaddr page p in
      record {
        paged = added.paged;
        maps = added.maps;
        others = λ w hw lw ne. added.others w hw lw ne ∙ cleared_else w hw lw;
      }
