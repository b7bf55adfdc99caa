-- ===== src/Keyboard.antt =====
-- device/keyboard.c: from scan codes to characters in the ring of the keyboard. Scan codes and
-- characters are numbers; masks that select one field are quotients and remainders.
pub mod Decode
pub mod Ring
pub mod Tests
use sparrow_os.Base.{
  ℕ, ◌+◌, ◌-◌, ◌*◌, ◌/◌, ◌%◌, Bool, true, false, not, ◌&&◌, ◌||◌, Option, none, some, List, [], ◌∷◌,
  Res, ok, panic, check, ◌>>=◌, ◌>>◌, ltb, ◌==◌, if◌then◌else◌, get_elem?,
}
use sparrow_os.Thread.{Kernel}
use sparrow_os.IoQueue.{IoQueue, full, putchar}

-- The five flags that the handler keeps between interrupts.
pub record Keys : Type 0 where
  pub ctrl_status : Bool
  pub shift_status : Bool
  pub alt_status : Bool
  pub caps_lock_status : Bool
  pub ext_scancode : Bool

-- `keymap`, by make code: without and with shift.
abbrev pub keymap : List (ℕ × ℕ)
keymap =
    (0, 0)
    ∷ (27, 27)
    ∷ (49, 33)
    ∷ (50, 64)
    ∷ (51, 35)
    ∷ (52, 36)
    ∷ (53, 37)
    ∷ (54, 94)
    ∷ (55, 38)
    ∷ (56, 42)
    ∷ (57, 40)
    ∷ (48, 41)
    ∷ (45, 95)
    ∷ (61, 43)
    ∷ (8, 8)
    ∷ (9, 9)
    ∷ (113, 81)
    ∷ (119, 87)
    ∷ (101, 69)
    ∷ (114, 82)
    ∷ (116, 84)
    ∷ (121, 89)
    ∷ (117, 85)
    ∷ (105, 73)
    ∷ (111, 79)
    ∷ (112, 80)
    ∷ (91, 123)
    ∷ (93, 125)
    ∷ (13, 13)
    ∷ (0, 0)
    ∷ (97, 65)
    ∷ (115, 83)
    ∷ (100, 68)
    ∷ (102, 70)
    ∷ (103, 71)
    ∷ (104, 72)
    ∷ (106, 74)
    ∷ (107, 75)
    ∷ (108, 76)
    ∷ (59, 58)
    ∷ (39, 34)
    ∷ (96, 126)
    ∷ (0, 0)
    ∷ (92, 124)
    ∷ (122, 90)
    ∷ (120, 88)
    ∷ (99, 67)
    ∷ (118, 86)
    ∷ (98, 66)
    ∷ (110, 78)
    ∷ (109, 77)
    ∷ (44, 60)
    ∷ (46, 62)
    ∷ (47, 63)
    ∷ (0, 0)
    ∷ (42, 42)
    ∷ (0, 0)
    ∷ (32, 32)
    ∷ (0, 0)
    ∷ []

abbrev pub ctrl_l_make : ℕ
ctrl_l_make = 0x1d

abbrev pub ctrl_r_make : ℕ
ctrl_r_make = 0xe01d

abbrev pub shift_l_make : ℕ
shift_l_make = 0x2a

abbrev pub shift_r_make : ℕ
shift_r_make = 0x36

abbrev pub alt_l_make : ℕ
alt_l_make = 0x38

abbrev pub alt_r_make : ℕ
alt_r_make = 0xe038

abbrev pub caps_lock_make : ℕ
caps_lock_make = 0x3a

-- The three tests on control keys, as they stand in the source.
is_ctrl : ℕ → Bool
is_ctrl code = (code == ctrl_l_make) || (code == ctrl_r_make)

is_shift : ℕ → Bool
is_shift code = (code == shift_l_make) || (code == shift_r_make)

is_alt : ℕ → Bool
is_alt code = (code == alt_l_make) || (code == alt_r_make)

-- What follows a break code: the flag of a control key that is released.
pub released : ℕ → Keys → Keys
unfolding is_ctrl is_shift is_alt
released make_code k =
    if is_ctrl make_code
    then record k { ctrl_status = false }
    else if is_shift make_code
    then record k { shift_status = false }
    else if is_alt make_code
    then record k { alt_status = false }
    else k

-- What follows the make code of a key without a character.
pub pressed : ℕ → Keys → Keys
unfolding is_ctrl is_shift is_alt
pressed scancode k =
    if is_ctrl scancode
    then record k { ctrl_status = true }
    else if is_shift scancode
    then record k { shift_status = true }
    else if is_alt scancode
    then record k { alt_status = true }
    else if scancode == caps_lock_make
    then record k { caps_lock_status = not k.caps_lock_status }
    else k

-- The keys with two characters on them.
two_chars : ℕ → Bool
two_chars c =
    ltb c 0x0e
    || (c == 0x29)
    || (c == 0x1a)
    || (c == 0x1b)
    || (c == 0x2b)
    || (c == 0x27)
    || (c == 0x28)
    || (c == 0x33)
    || (c == 0x34)
    || (c == 0x35)

-- The local `shift`: which column of `keymap` is read.
pub shifted : ℕ → Keys → Bool
unfolding two_chars
shifted scancode k =
    if two_chars scancode
    then k.shift_status
    else if k.shift_status && k.caps_lock_status
    then false
    else (k.shift_status || k.caps_lock_status)

-- `keymap[index][shift]`; behind the table lies what the model does not know.
pub lookup : ℕ → Bool → Option ℕ
lookup index shift = elim (get_elem? keymap index) [
  | none ↦ none
  | some (plain, upper) ↦ some (if shift then upper else plain)
]

-- `ctrl` with `l` or `u`.
pub shortcut : Keys → ℕ → ℕ
shortcut k cur_char =
    if (k.ctrl_status && (cur_char == 108)) || (k.ctrl_status && (cur_char == 117))
    then cur_char - 97
    else cur_char

-- What an interrupt comes to, up to the ring: the flags, and the character to put.
pub record Decoded : Type 0 where
  pub keys : Keys
  pub char : Option ℕ

-- The branch of a make code that the table holds, or the right alt or ctrl key.
pub make_key : ℕ → Keys → Res Decoded
unfolding lookup
make_key scancode k = elim (lookup (scancode % 256) (shifted scancode k)) [
  | none ↦ panic
  | some cur_char ↦
      if not (cur_char == 0)
      then ok (record { keys = k; char = some (shortcut k cur_char) })
      else ok (record { keys = pressed (scancode % 256) k; char = none })
]

-- The handler on a whole scan code, when a prefix has been joined to it.
pub scan_code : ℕ → Keys → Res Decoded
unfolding released
scan_code scancode k =
    if scancode / 128 % 2 == 1
    then ok (record { keys = released (scancode - 128) k; char = none })
    else if ltb 0 scancode && ltb scancode 0x3b
        || (scancode == alt_r_make)
        || (scancode == ctrl_r_make)
    then make_key scancode k
    else ok (record { keys = k; char = none })

-- `intr_keyboard_handler` up to the ring, on the byte that the port gives.
pub decode : ℕ → Keys → Res Decoded
unfolding scan_code
decode byte k =
    if byte == 0xe0
    then ok (record { keys = record k { ext_scancode = true }; char = none })
    else if k.ext_scancode
    then scan_code (0xe000 + byte) (record k { ext_scancode = false })
    else scan_code byte k

-- The character goes into the ring if there is room.
put_char : Option ℕ → IoQueue → Kernel → Res (IoQueue × Kernel)
put_char none kbd_buf s = ok (kbd_buf, s)
put_char (some cur_char) kbd_buf s = do
  no_room ← full kbd_buf s
  if no_room
      then ok (kbd_buf, s)
      else (do (_, kbd_buf', s') ← putchar cur_char kbd_buf s; ok (kbd_buf', s'))

-- `intr_keyboard_handler`
pub intr_keyboard_handler : ℕ → Keys → IoQueue → Kernel → Res (Keys × IoQueue × Kernel)
unfolding decode put_char
intr_keyboard_handler byte k kbd_buf s = do
  d ← decode byte k
  (kbd_buf', s') ← put_char d.char kbd_buf s
  ok (d.keys, kbd_buf', s')
