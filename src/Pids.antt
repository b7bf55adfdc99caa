-- ===== src/Pids.antt =====
-- The pids of thread/thread.c: `pid_pool_init`, `allocate_pid` and `release_pid`.
pub mod Allocate
mod Tests
use sparrow_os.Base.{ℕ, ◌+◌, ◌-◌, ◌%◌, ◌^◌, Bool, Option, none, some, Res, ok, ◌>>=◌, if◌then◌else◌}
use sparrow_os.Bitmap.{Bitmap}
use sparrow_os.Bitmap as Bitmap
use sparrow_os.Thread.{Kernel}
use sparrow_os.Sync.Defs.{Lock, lock_init, lock_acquire, lock_release}

-- `struct pid_pool`
pub record PidPool : Type 0 where
  pub pid_bitmap : Bitmap
  pub pid_start : ℕ
  pub pid_lock : Lock

-- `pid_pool_init`, with the memory of the map.
pid_pool_init : (ℕ → ℕ) → PidPool
pid_pool_init pid_bitmap_bits = record {
  pid_bitmap = Bitmap.init (record { btmp_bytes_len = 128; bits = pid_bitmap_bits });
  pid_start = 1;
  pid_lock = lock_init;
}

-- The number for -1, cast as `bitmap_set` takes it.
pub index_of : Option ℕ → ℕ
index_of none = 2 ^ 32 - 1
index_of (some bit_idx) = bit_idx

-- `allocate_pid`; `none` means that the task was switched out, waiting for the lock. A pid has 16
-- bits.
pub allocate_pid : PidPool → Kernel → Res (Option ℕ × PidPool × Kernel)
unfolding index_of
allocate_pid pool k = do
  (got, l, k₁) ← lock_acquire pool.pid_lock k
  if got
      then (do
        found ← Bitmap.scan pool.pid_bitmap 1
        map ← Bitmap.set pool.pid_bitmap (index_of found) 1
        (l', k₂) ← lock_release l k₁
        ok (
          some ((index_of found + pool.pid_start) % 2 ^ 16),
          record pool { pid_bitmap = map; pid_lock = l' },
          k₂,
        ))
      else ok (none, record pool { pid_lock = l }, k₁)

-- `release_pid`; the Boolean says whether the lock was got.
pub release_pid : ℕ → PidPool → Kernel → Res (Bool × PidPool × Kernel)
release_pid pid pool k = do
  (got, l, k₁) ← lock_acquire pool.pid_lock k
  if got
      then (do
        map ← Bitmap.set pool.pid_bitmap ((pid + (2 ^ 32 - pool.pid_start)) % 2 ^ 32) 0
        (l', k₂) ← lock_release l k₁
        ok (got, record pool { pid_bitmap = map; pid_lock = l' }, k₂))
      else ok (got, record pool { pid_lock = l }, k₁)
