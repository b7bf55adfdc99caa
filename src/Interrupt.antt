-- ===== src/Interrupt.antt =====
-- kernel/interrupt.c: the interrupt flag of the processor. The flag is the bit IF of EFLAGS; `true`
-- is `INTR_ON`. Each function returns the status from before, and the new flag.
use sparrow_os.Base.{Bool, true, false, ◌≡◌, refl, if◌then◌else◌}

unfoldable pub enable : Bool → Bool × Bool
enable flag = if flag then (true, flag) else (false, true)

unfoldable pub disable : Bool → Bool × Bool
disable flag = if flag then (true, false) else (false, flag)

unfoldable pub set_status : Bool → Bool → Bool × Bool
unfolding enable disable
set_status status flag = if status then enable flag else disable flag

-- To set the status that `intr_disable` returned gives back the flag from before.
pub set_status-disable :
    (flag : Bool) → let (old, off) = disable flag in (set_status old off).1 ≡ flag
unfolding set_status
set_status-disable true = refl
set_status-disable false = refl

pub disable_off : (flag : Bool) → (disable flag).1 ≡ false
unfolding disable
disable_off true = refl
disable_off false = refl

pub disable_was : (flag : Bool) → (disable flag).0 ≡ flag
unfolding disable
disable_was true = refl
disable_was false = refl

pub set_status_lem : (status flag : Bool) → (set_status status flag).1 ≡ status
unfolding set_status
set_status_lem true true = refl
set_status_lem true false = refl
set_status_lem false true = refl
set_status_lem false false = refl
