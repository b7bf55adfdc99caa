-- ===== src/Memory/Runs.antt =====
-- `vaddr_get` and `vaddr_remove` on the map of a pool of addresses.
use sparrow_os.Base.{
  ℕ, zero, suc, ◌+◌, ◌*◌, ◌/◌, ◌^◌, ◌≤◌, ◌<◌, ◌≡◌, ◌∙◌, refl, ap, subst, Bool, true, ◌&&◌, some, ok,
  arith, ltb, leb, ◌==◌, if◌then◌else◌,
}
use sparrow_os.Bitmap.{Bitmap, scan_test, scan}
use sparrow_os.Bitmap.Bits.{IsBytes, set_lem}
use sparrow_os.Bitmap.Scan.{FirstFit, scan-FirstFit}
use sparrow_os.Bitmap.Runs.{Clear, RunFound, scan-RunFound}
use sparrow_os.Paging.{pg_size}
use sparrow_os.Memory.{VirtualAddr, plus, minus, set_run, reserve, unreserve}

-- Does a bit lie in a run?
abbrev pub in_run : ℕ → ℕ → ℕ → Bool
in_run i n j = leb i j && ltb j (i + n)

-- The loop of `bitmap_set` writes the bits of the run and no other.
pub set_run_lem :
    (n : ℕ) (m : Bitmap) (i value : ℕ)
    → IsBytes m
    → value < 2
    → (m' : Bitmap) × (set_run m i value n ≡ ok m')
      × (m'.btmp_bytes_len ≡ m.btmp_bytes_len)
      × IsBytes m'
      × ((j : ℕ) → scan_test m' j ≡ (if in_run i n j then value == 1 else scan_test m j))
unfolding set_run
set_run_lem zero m i value bytes small = (m, refl, refl, bytes, λ j. ground arith)
set_run_lem (suc n) m i value bytes small =
    let (m₁, run, len, bytes₁, bits) = set_lem m bytes i value small in
    let (m₂, run', len', bytes₂, bits') = set_run_lem n m₁ (i + 1) value bytes₁ small in
    (m₂, rw run run', len' ∙ len, bytes₂, λ j. ground (arith, bits j, bits' j))

-- A run that `bitmap_scan` returns is clear.
found-Clear :
    (m : Bitmap) → IsBytes m → (cnt i : ℕ) → 1 ≤ cnt → scan m cnt ≡ ok (some i) → Clear m i cnt
found-Clear m bytes zero i h e = absurd (omega arith)
found-Clear m bytes (suc zero) i h e =
    let st = subst (FirstFit m bytes) e (scan-FirstFit m bytes) in
    λ j p q. let same : j ≡ i = omega arith in ap (scan_test m) same ∙ st.clear
found-Clear m bytes (suc (suc cnt)) i h e =
    (subst (RunFound m bytes (suc (suc cnt)) (omega arith)) e
      (scan-RunFound m bytes (suc (suc cnt)) (omega arith))).0

module _ (pool : VirtualAddr) (bytes : IsBytes pool.vaddr_bitmap) (cnt : ℕ) (some_pages : 1 ≤ cnt)
    (i : ℕ) (found : scan pool.vaddr_bitmap cnt ≡ ok (some i)) where
  -- Reserving addresses where `bitmap_scan` finds a run: the pages of the run were free, and they
  -- and no others become used; the address of the first one is returned.
  pub reserve_lem :
      (pool' : VirtualAddr) × (reserve pool cnt
        ≡ ok (some (plus pool.vaddr_start (i * pg_size)), pool'))
      × Clear pool.vaddr_bitmap i cnt
      × (pool'.vaddr_start ≡ pool.vaddr_start)
      × IsBytes pool'.vaddr_bitmap
      × ((j : ℕ)
          → scan_test pool'.vaddr_bitmap j
            ≡ (if in_run i cnt j then true else scan_test pool.vaddr_bitmap j))
  unfolding reserve
  reserve_lem =
      let (map, run, len, bytes', bits) =
        set_run_lem cnt pool.vaddr_bitmap i 1 bytes (omega arith) in
      (
        record pool { vaddr_bitmap = map },
        rw (found, run) refl,
        found-Clear pool.vaddr_bitmap bytes cnt i some_pages found,
        refl,
        bytes',
        bits,
      )

  start_back : (a : ℕ) → a + i * 4096 < 2 ^ 32 → minus (plus a (i * pg_size)) a / pg_size ≡ i
  start_back a h = omega arith

  -- Addresses that are reserved and released again leave the map as it was, if the first of them
  -- has 32 bits.
  pub reserve-unreserve :
      pool.vaddr_start + i * pg_size < 2 ^ 32
      → (v : ℕ) × (pool' pool'' : VirtualAddr) × (reserve pool cnt ≡ ok (some v, pool'))
        × (unreserve pool' v cnt ≡ ok pool'')
        × ((j : ℕ) → scan_test pool''.vaddr_bitmap j ≡ scan_test pool.vaddr_bitmap j)
  unfolding unreserve
  reserve-unreserve reach =
      let (pool', run, clear, base, bytes', bits) = reserve_lem in
      let (map, run', _, _, bits') = set_run_lem cnt pool'.vaddr_bitmap i 0 bytes' (omega arith) in
      let v = plus pool.vaddr_start (i * pg_size) in
      let at : minus v pool'.vaddr_start / pg_size ≡ i =
        ap (λ b. minus v b / pg_size) base ∙ start_back pool.vaddr_start reach in
      (
        v,
        pool',
        record pool' { vaddr_bitmap = map },
        run,
        rw (at, run') refl,
        λ j. ground (arith, bits j, bits' j, clear j),
      )
