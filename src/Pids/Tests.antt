-- ===== src/Pids/Tests.antt =====
-- The pool of pids after its initialisation.
use sparrow_os.Base.{◌≡◌, refl}
use sparrow_os.Pids.{pid_pool_init}

-- Pids begin at 1, and the lock is free.
first_pid : (pid_pool_init (λ i. 255)).pid_start ≡ 1
unfolding pid_pool_init
first_pid = refl
