-- ===== src/Pids/Allocate.antt =====
-- `allocate_pid` and `release_pid` where the lock is free.
use sparrow_os.Base.{
  ℕ, ◌+◌, ◌-◌, ◌%◌, ◌^◌, ◌<◌, ◌≡◌, refl, true, false, Option, none, some, ok, panic, arith, ◌==◌,
  if◌then◌else◌, Res, subst, ◌⊎◌, inl, inr,
}
use sparrow_os.Bitmap.{Bitmap, total, scan_test, scan}
use sparrow_os.Bitmap as Bitmap
use sparrow_os.Bitmap.Bits.{IsBytes, set_lem}
use sparrow_os.Bitmap.Scan.{Starts, FirstFit, scan-FirstFit}
use sparrow_os.Thread.{Kernel}
use sparrow_os.Sync.Used.{Used}
use sparrow_os.Pids.{PidPool, index_of, allocate_pid, release_pid}

-- What a search may return.
found_cases : (r : Res (Option ℕ)) → ((i : ℕ) × (r ≡ ok (some i))) ⊎ (r ≡ ok none) ⊎ (r ≡ panic)
found_cases (ok (some i)) = inl (i, refl)
found_cases (ok none) = inr (inl refl)
found_cases panic = inr (inr refl)

module _ (pool : PidPool) (k : Kernel) (u : Used pool.pid_lock k) where
  -- The run of `allocate_pid` from what the search and the marking give.
  allocate_run :
      (i : ℕ) (map : Bitmap)
      → scan pool.pid_bitmap 1 ≡ ok (some i)
      → Bitmap.set pool.pid_bitmap i 1 ≡ ok map
      → allocate_pid pool k
        ≡ ok (
          some ((i + pool.pid_start) % 2 ^ 16),
          record pool { pid_bitmap = map; pid_lock = u.freed },
          u.after,
        )
  unfolding allocate_pid index_of
  allocate_run i map s m = rw (u.takes, s, m, u.gives) refl

  -- The run of `release_pid`.
  release_run :
      (pid : ℕ) (map : Bitmap)
      → Bitmap.set pool.pid_bitmap ((pid + (2 ^ 32 - pool.pid_start)) % 2 ^ 32) 0 ≡ ok map
      → release_pid pid pool k
        ≡ ok (true, record pool { pid_bitmap = map; pid_lock = u.freed }, u.after)
  unfolding release_pid
  release_run pid map m = rw (u.takes, m, u.gives) refl

  module _ (bytes : IsBytes pool.pid_bitmap) where
    pub Allocated : ℕ → Type 0
    Allocated i =
        Starts pool.pid_bitmap i
        × (map : Bitmap) × (allocate_pid pool k
            ≡ ok (
              some ((i + pool.pid_start) % 2 ^ 16),
              record pool { pid_bitmap = map; pid_lock = u.freed },
              u.after,
            ))
        × IsBytes map
        × ((j : ℕ) → scan_test map j ≡ (if i == j then true else scan_test pool.pid_bitmap j))

    allocated : (i : ℕ) → scan pool.pid_bitmap 1 ≡ ok (some i) → Allocated i
    unfolding Allocated
    allocated i e =
        let (map, run, len, b, bits) = set_lem pool.pid_bitmap bytes i 1 (omega arith) in
        (
          subst (FirstFit pool.pid_bitmap bytes) e (scan-FirstFit pool.pid_bitmap bytes),
          map,
          allocate_run i map e run,
          b,
          bits,
        )

    -- Where the lock is free and some pid is, `allocate_pid` takes the lowest free one, marks it and
    -- no other, and leaves the lock free.
    pub allocate_pid_lem :
        (j : ℕ)
        → j < total pool.pid_bitmap
        → scan_test pool.pid_bitmap j ≡ false
        → (i : ℕ) × Allocated i
    allocate_pid_lem j low clear = elim (found_cases (scan pool.pid_bitmap 1)) [
      | inl (i, e) ↦ (i, allocated i e)
      | inr (inl e) ↦
          absurd (subst (FirstFit pool.pid_bitmap bytes) e (scan-FirstFit pool.pid_bitmap bytes))
      | inr (inr e) ↦
          let full =
            subst (FirstFit pool.pid_bitmap bytes) e (scan-FirstFit pool.pid_bitmap bytes) in
          (let set = full j low in cc)
    ]
