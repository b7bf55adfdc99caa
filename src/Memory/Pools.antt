-- ===== src/Memory/Pools.antt =====
-- `palloc` and `pfree` on the map of a pool.
use sparrow_os.Base.{
  ℕ, ◌+◌, ◌*◌, ◌/◌, ◌^◌, ◌≤◌, ◌<◌, ◌≡◌, ◌∙◌, refl, sym, ap, Bool, true, false, Option, none, some,
  Res, ok, panic, arith, leb, ◌==◌, if◌then◌else◌,
}
use sparrow_os.Bitmap.{Bitmap, total, scan_test, scan}
use sparrow_os.Bitmap as Bitmap
use sparrow_os.Bitmap.Bits.{IsBytes, set_lem}
use sparrow_os.Bitmap.Scan.{Starts, FirstFit, scan-FirstFit}
use sparrow_os.Paging.{pg_size}
use sparrow_os.Memory.{Pool, Memory, plus, minus, palloc, free_page, pfree}

-- Is a page of the pool in use?
abbrev pub used : Pool → ℕ → Bool
used p i = scan_test p.pool_bitmap i

-- The address of a page.
abbrev pub page_at : Pool → ℕ → ℕ
page_at p i = p.phy_addr_start + i * pg_size

-- A pool whose pages all have 32-bit addresses.
pub record IsPool (p : Pool) : Type 0 where
  pub bytes : IsBytes p.pool_bitmap
  pub reach : page_at p (total p.pool_bitmap) ≤ 2 ^ 32

-- The same pool but for the bits of its map.
pub record SamePool (p p' : Pool) : Type 0 where
  pub pool : IsPool p'
  pub base : p'.phy_addr_start ≡ p.phy_addr_start
  pub pages : total p'.pool_bitmap ≡ total p.pool_bitmap

index_back : (a i : ℕ) → a + i * 4096 < 2 ^ 32 → minus (a + i * 4096) a / 4096 ≡ i
index_back a i h = omega arith

module _ (p : Pool) (is : IsPool p) where
  open is use {bytes, reach}

  -- The pool with one bit of its map written.
  marked :
      (i value : ℕ)
      → value < 2
      → (map : Bitmap) × (Bitmap.set p.pool_bitmap i value ≡ ok map)
        × SamePool p (record p { pool_bitmap = map })
        × ((j : ℕ) → scan_test map j ≡ (if i == j then value == 1 else used p j))
  marked i value small =
      let (map, run, len, bytes', bits) = set_lem p.pool_bitmap bytes i value small in
      (
        map,
        run,
        record {
          pool = record { bytes = bytes'; reach = ground arith };
          base = refl;
          pages = ap (λ n. n * 8) len;
        },
        bits,
      )

  palloc_run :
      (i : ℕ) (map : Bitmap)
      → scan p.pool_bitmap 1 ≡ ok (some i)
      → Bitmap.set p.pool_bitmap i 1 ≡ ok map
      → palloc p ≡ ok (some (plus p.phy_addr_start (i * pg_size)), record p { pool_bitmap = map })
  unfolding palloc
  palloc_run i map e f = rw (e, f) refl

  found :
      (j : ℕ)
      → j < total p.pool_bitmap
      → used p j ≡ false
      → (i : ℕ) × (scan p.pool_bitmap 1 ≡ ok (some i)) × Starts p.pool_bitmap i
  found j h free = go (scan p.pool_bitmap 1) refl (scan-FirstFit p.pool_bitmap bytes)
    where
      go :
          (o : Res (Option ℕ))
          → scan p.pool_bitmap 1 ≡ o
          → FirstFit p.pool_bitmap bytes o
          → (i : ℕ) × (scan p.pool_bitmap 1 ≡ ok (some i)) × Starts p.pool_bitmap i
      go (ok (some i)) e st = (i, e, st)
      go (ok none) e st = absurd st
      go panic e full = absurd (cc (full j h, free))

  -- `palloc` of a pool with a free page returns the address of the lowest one and marks it, and
  -- no other page.
  pub palloc_lem :
      (j : ℕ)
      → j < total p.pool_bitmap
      → used p j ≡ false
      → (i : ℕ) × (p' : Pool) × (palloc p ≡ ok (some (page_at p i), p'))
        × Starts p.pool_bitmap i
        × SamePool p p'
        × ((j : ℕ) → used p' j ≡ (if i == j then true else used p j))
  palloc_lem j h free =
      let (i, e, st) = found j h free in
      let (map, run, same, bits) = marked i 1 (omega arith) in
      let a : plus p.phy_addr_start (i * pg_size) ≡ page_at p i = omega (arith, st.inside) in
      (
        i,
        record p { pool_bitmap = map },
        palloc_run i map e run ∙ ap (λ a. ok (some a, record p { pool_bitmap = map })) a,
        st,
        same,
        bits,
      )

  -- `palloc` of a pool with no free page does not return `NULL`: the assertion of `bitmap_scan`
  -- fails.
  pub palloc_exhausted : ((j : ℕ) → j < total p.pool_bitmap → used p j ≡ true) → palloc p ≡ panic
  unfolding palloc
  palloc_exhausted all = go (scan p.pool_bitmap 1) refl (scan-FirstFit p.pool_bitmap bytes)
    where
      go :
          (o : Res (Option ℕ))
          → scan p.pool_bitmap 1 ≡ o
          → FirstFit p.pool_bitmap bytes o
          → palloc p ≡ panic
      go (ok (some i)) e st = absurd (cc (all i st.inside, st.clear))
      go (ok none) e st = absurd st
      go panic e full = rw e refl

  -- Giving back a page by its address clears its bit.
  pub free_page_lem :
      (i : ℕ)
      → i < total p.pool_bitmap
      → (p' : Pool) × (free_page p (page_at p i) ≡ ok p')
        × SamePool p p'
        × ((j : ℕ) → used p' j ≡ (if i == j then false else used p j))
  unfolding free_page
  free_page_lem i h =
      let (map, run, same, bits) = marked i 0 (omega arith) in
      let at : minus (page_at p i) p.phy_addr_start / 4096 ≡ i =
        index_back p.phy_addr_start i (omega arith) in
      (record p { pool_bitmap = map }, rw (at, run) refl, same, bits)

-- The two pools, the kernel's below the user's.
pub record IsPools (s : Memory) : Type 0 where
  pub kernel : IsPool s.kernel_pool
  pub user : IsPool s.user_pool
  pub order : page_at s.kernel_pool (total s.kernel_pool.pool_bitmap) ≤ s.user_pool.phy_addr_start

module _ (s : Memory) (is : IsPools s) where
  open is use {kernel, user, order}

  -- `pfree` of a page of the user pool clears its bit in that pool and leaves the kernel's.
  pub pfree-user :
      (i : ℕ)
      → i < total s.user_pool.pool_bitmap
      → (s' : Memory) × (pfree (page_at s.user_pool i) s ≡ ok s')
        × IsPools s'
        × ((j : ℕ) → used s'.user_pool j ≡ (if i == j then false else used s.user_pool j))
        × (s'.kernel_pool ≡ s.kernel_pool)
  unfolding pfree
  pfree-user i h =
      let (p, run, same, bits) = free_page_lem s.user_pool user i h in
      let side : leb s.user_pool.phy_addr_start (page_at s.user_pool i) ≡ true = ground arith in
      (
        record s { user_pool = p },
        rw (side, run) refl,
        record { kernel = kernel; user = same.pool; order = ground (arith, same.base) },
        bits,
        refl,
      )

  -- `pfree` of a page of the kernel pool clears its bit in that pool and leaves the user's.
  pub pfree-kernel :
      (i : ℕ)
      → i < total s.kernel_pool.pool_bitmap
      → (s' : Memory) × (pfree (page_at s.kernel_pool i) s ≡ ok s')
        × IsPools s'
        × ((j : ℕ) → used s'.kernel_pool j ≡ (if i == j then false else used s.kernel_pool j))
        × (s'.user_pool ≡ s.user_pool)
  unfolding pfree
  pfree-kernel i h =
      let (p, run, same, bits) = free_page_lem s.kernel_pool kernel i h in
      let side : leb s.user_pool.phy_addr_start (page_at s.kernel_pool i) ≡ false = ground arith in
      (
        record s { kernel_pool = p },
        rw (side, run) refl,
        record { kernel = same.pool; user = user; order = ground (arith, same.base, same.pages) },
        bits,
        refl,
      )

-- A page that `palloc` has taken is, once `free_page` has it back, as it was: every bit of the map
-- is what it was before.
pub palloc-free_page :
    (p : Pool)
    → IsPool p
    → (j : ℕ) → j < total p.pool_bitmap
    → used p j ≡ false
    → (a : ℕ) × (p' p'' : Pool) × (palloc p ≡ ok (some a, p'))
      × (free_page p' a ≡ ok p'')
      × ((j : ℕ) → used p'' j ≡ used p j)
palloc-free_page p is j h free =
    let (i, p', run, st, same, bits) = palloc_lem p is j h free in
    let (p'', run', _, bits') =
      free_page_lem p' same.pool i (omega (arith, same.pages, st.inside)) in
    (
      page_at p i,
      p',
      p'',
      run,
      ap (λ b. free_page p' (b + i * 4096)) (sym same.base) ∙ run',
      λ j. ground (arith, bits j, bits' j, st.clear),
    )
