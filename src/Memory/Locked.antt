-- ===== src/Memory/Locked.antt =====
-- The callers of the page allocation that map one page at a given address, under the lock of a pool:
-- `get_a_page` and `get_a_page_without_opvaddrbitmap`. The result `none` means that the task was
-- switched out, waiting for the lock.
use sparrow_os.Base.{
  ℕ, ◌/◌, Bool, true, false, Option, none, some, Res, ok, panic, check, ◌>>=◌, ◌>>◌, ltb,
  if◌then◌else◌, ◌≡◌, refl,
}
use sparrow_os.Bitmap as Bitmap
use sparrow_os.Thread.{Kernel}
use sparrow_os.Sync.Defs.{Lock, lock_acquire, lock_release}
use sparrow_os.Sync.Used.{Used}
use sparrow_os.Paging.{pg_size}
use sparrow_os.Memory.{
  VirtualAddr, PoolFlags, pf_kernel, pf_user, Memory, minus, palloc_from, add_page,
}

-- The pool of a flag, and its lock.
lock_of : PoolFlags → Memory → Lock
lock_of pf_kernel s = s.kernel_pool.lock
lock_of pf_user s = s.user_pool.lock

with_lock : PoolFlags → Lock → Memory → Memory
with_lock pf_kernel l s = record s { kernel_pool = record s.kernel_pool { lock = l } }
with_lock pf_user l s = record s { user_pool = record s.user_pool { lock = l } }

-- `lock_acquire`, a body and `lock_release`, on the lock of a pool.
locked :
    {A : Type 0}
    → PoolFlags
    → (Memory → Res (A × Memory))
    → Memory
    → Kernel
    → Res (Option A × Memory × Kernel)
unfolding lock_of with_lock
locked pf body s k = do
  (got, l, k₁) ← lock_acquire (lock_of pf s) k
  if got
      then (do
        (a, s₁) ← body (with_lock pf l s)
        (l', k₂) ← lock_release (lock_of pf s₁) k₁
        ok (some a, with_lock pf l' s₁, k₂))
      else ok (none, with_lock pf l s, k₁)

-- A page of a pool, mapped at an address.
place_page : PoolFlags → ℕ → Memory → Res (Option ℕ × Memory)
place_page pf vaddr s = do
  (page, s₁) ← palloc_from pf s
  elim page [
    | none ↦ ok (none, s₁)
    | some page_phyaddr ↦ do s₂ ← add_page vaddr page_phyaddr s₁; ok (some vaddr, s₂)
  ]

-- The bit of an address in a pool of addresses.
mark : VirtualAddr → ℕ → Res VirtualAddr
mark pool vaddr = do
  map ← Bitmap.set pool.vaddr_bitmap (minus vaddr pool.vaddr_start / pg_size) 1
  ok (record pool { vaddr_bitmap = map })

-- The first half of `get_a_page`: a process marks an address of its own, a kernel thread one of the
-- kernel's, but not the first; all else is a panic.
mark_address : Bool → PoolFlags → ℕ → Memory → Res Memory
unfolding mark
mark_address true pf_user vaddr s = do
  pool ← mark s.userprog_vaddr vaddr
  ok (record s { userprog_vaddr = pool })
mark_address false pf_kernel vaddr s = do
  check (ltb 0 (minus vaddr s.kernel_vaddr.vaddr_start / pg_size))
  pool ← mark s.kernel_vaddr vaddr
  ok (record s { kernel_vaddr = pool })
mark_address true pf_kernel vaddr s = panic
mark_address false pf_user vaddr s = panic

get_a_page : PoolFlags → ℕ → Memory → Kernel → Res (Option (Option ℕ) × Memory × Kernel)
unfolding locked place_page mark_address
get_a_page pf vaddr s k =
    locked pf (λ s. mark_address (k.task k.cur).user pf vaddr s >>= λ s₁. place_page pf vaddr s₁) s
      k

get_a_page_without_opvaddrbitmap :
    PoolFlags → ℕ → Memory → Kernel → Res (Option (Option ℕ) × Memory × Kernel)
unfolding locked place_page
get_a_page_without_opvaddrbitmap pf vaddr s k = locked pf (place_page pf vaddr) s k

-- Where the lock of the pool is free, a caller runs its body under the lock and then leaves the lock
-- free, provided that the body does not touch the lock.
module _ {A : Type 0} (pf : PoolFlags) (s : Memory) (k : Kernel) (u : Used (lock_of pf s) k)
    (s₁ : Memory) (kept : lock_of pf s₁ ≡ u.held) where
  locked_run :
      (body : Memory → Res (A × Memory)) (a : A)
      → body (with_lock pf u.held s) ≡ ok (a, s₁)
      → locked pf body s k ≡ ok (some a, with_lock pf u.freed s₁, u.after)
  unfolding locked
  locked_run body a run = rw (u.takes, run, kept, u.gives) refl

module _ (pf : PoolFlags) (s : Memory) (k : Kernel) (u : Used (lock_of pf s) k) (s₁ : Memory)
    (kept : lock_of pf s₁ ≡ u.held) (got : Option ℕ) where
  get_a_page-run :
      (vaddr : ℕ)
      → (mark_address (k.task k.cur).user pf vaddr (with_lock pf u.held s) >>= λ s.
          place_page pf vaddr s)
        ≡ ok (got, s₁)
      → get_a_page pf vaddr s k ≡ ok (some got, with_lock pf u.freed s₁, u.after)
  unfolding get_a_page
  get_a_page-run vaddr run =
      locked_run pf s k u s₁ kept
        (λ s. mark_address (k.task k.cur).user pf vaddr s >>= λ s₁. place_page pf vaddr s₁) got run

  get_a_page_without_opvaddrbitmap-run :
      (vaddr : ℕ)
      → place_page pf vaddr (with_lock pf u.held s) ≡ ok (got, s₁)
      → get_a_page_without_opvaddrbitmap pf vaddr s k
        ≡ ok (some got, with_lock pf u.freed s₁, u.after)
  unfolding get_a_page_without_opvaddrbitmap
  get_a_page_without_opvaddrbitmap-run vaddr run =
      locked_run pf s k u s₁ kept (place_page pf vaddr) got run
