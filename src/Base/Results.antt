-- ===== src/Base/Results.antt =====
-- Results of kernel code: a value, or the endless loop of `panic_spin`, in which a failed `ASSERT`
-- and a `PANIC` end (kernel/debug.c and kernel/debug.h).
use mathlib.Core.Bool.{Bool, true, false}

pub data Res {ℓ} (A : Type ℓ) : Type ℓ where
  ok : A → Res A
  panic : Res A

infixl 5 ◌>>=◌ ◌>>◌
abbrev pub ◌>>=◌ {ℓ κ} : {A : Type ℓ} {B : Type κ} → Res A → (A → Res B) → Res B
ok a >>= f = f a
panic >>= f = panic

abbrev pub ◌>>◌ {ℓ} : {B : Type ℓ} → Res (Unit {0}) → Res B → Res B
m >> k = m >>= λ _. k

-- The macro `ASSERT`.
abbrev pub check : Bool → Res (Unit {0})
check true = ok tt
check false = panic
