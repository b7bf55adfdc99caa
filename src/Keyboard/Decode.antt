-- ===== src/Keyboard/Decode.antt =====
-- What one scan code does to the flags, and which character a letter key gives.
use sparrow_os.Base.{
  ℕ, ◌-◌, ◌≤◌, ◌<◌, ◌≡◌, refl, Bool, true, false, not, ◌&&◌, ◌||◌, Option, none, some, Res, ok,
  panic, arith, leb, ◌==◌, if◌then◌else◌,
}
use sparrow_os.Base.Table.{holds_below, holds_below_lem}
use sparrow_os.Keyboard.{
  Keys, Decoded, decode, scan_code, make_key, pressed, released, shifted, lookup, shortcut,
  two_chars, is_ctrl, is_shift, is_alt,
}

-- The flags after a byte, each by the keys that it stands for: ctrl and alt on either side, with
-- or without the prefix; shift without it; caps lock, which changes on every press.
pub keys_after : ℕ → Keys → Keys
keys_after byte k = record {
  ctrl_status = if byte == 0x1d then true else if byte == 0x9d then false else k.ctrl_status;
  shift_status =
      if k.ext_scancode
      then k.shift_status
      else if (byte == 0x2a) || (byte == 0x36)
      then true
      else if (byte == 0xaa) || (byte == 0xb6)
      then false
      else k.shift_status;
  alt_status = if byte == 0x38 then true else if byte == 0xb8 then false else k.alt_status;
  caps_lock_status =
      if not k.ext_scancode && (byte == 0x3a) then not k.caps_lock_status else k.caps_lock_status;
  ext_scancode = byte == 0xe0;
}

iff : Bool → Bool → Bool
iff a b = if a then b else not b

same_keys : Keys → Keys → Bool
unfolding iff
same_keys k l =
    iff k.ctrl_status l.ctrl_status
    && iff k.shift_status l.shift_status
    && iff k.alt_status l.alt_status
    && iff k.caps_lock_status l.caps_lock_status
    && iff k.ext_scancode l.ext_scancode

iff_sound : (a b : Bool) → iff a b ≡ true → a ≡ b
unfolding iff
iff_sound a b h = ground arith

decoded_ok : ℕ → Keys → Res Decoded → Bool
unfolding same_keys keys_after
decoded_ok byte k panic = false
decoded_ok byte k (ok d) = same_keys d.keys (keys_after byte k)

-- Every byte with every state of the flags.
all_bools : (Bool → Bool) → Bool
all_bools p = p true && p false

abbrev flags : Bool → Bool → Bool → Bool → Bool → Keys
flags a b c d e = record {
  ctrl_status = a;
  shift_status = b;
  alt_status = c;
  caps_lock_status = d;
  ext_scancode = e;
}

abbrev from_ctrl_on : (Keys → Bool) → Bool → Bool
from_ctrl_on p a =
    all_bools (λ b. all_bools (λ c. all_bools (λ d. all_bools (λ e. p (flags a b c d e)))))

abbrev from_alt_on : (Keys → Bool) → Bool → Bool → Bool → Bool
from_alt_on p a b c = all_bools (λ d. all_bools (λ e. p (flags a b c d e)))

all_keys : (Keys → Bool) → Bool
all_keys p = all_bools (from_ctrl_on p)

all_bools_sound : (p : Bool → Bool) (b : Bool) → all_bools p ≡ true → p b ≡ true
unfolding all_bools
all_bools_sound p true h = ground arith
all_bools_sound p false h = ground arith

all_keys_sound : (p : Keys → Bool) (k : Keys) → all_keys p ≡ true → p k ≡ true
unfolding all_keys
all_keys_sound p k h =
    let a = k.ctrl_status in
    let b = k.shift_status in
    let c = k.alt_status in
    let d = k.caps_lock_status in
    all_bools_sound (λ e. p (flags a b c d e)) k.ext_scancode
      (all_bools_sound (λ d. all_bools (λ e. p (flags a b c d e))) d
        (all_bools_sound (from_alt_on p a b) c (
          all_bools_sound (λ b. all_bools (from_alt_on p a b)) b
            (all_bools_sound (from_ctrl_on p) a h))))

table : holds_below 256 (λ byte. all_keys (λ k. decoded_ok byte k (decode byte k))) ≡ true
unfolding holds_below all_keys all_bools decoded_ok same_keys iff keys_after decode scan_code
    make_key pressed released shifted lookup shortcut two_chars is_ctrl is_shift is_alt
table = refl

checked : (byte : ℕ) (k : Keys) → byte < 256 → decoded_ok byte k (decode byte k) ≡ true
checked byte k h =
    all_keys_sound (λ k. decoded_ok byte k (decode byte k)) k
      (holds_below_lem 256 (λ byte. all_keys (λ k. decoded_ok byte k (decode byte k))) byte table h)

same_keys_sound : (k l : Keys) → same_keys k l ≡ true → k ≡ l
unfolding same_keys
same_keys_sound k l h = ground (
  arith,
  iff_sound k.ctrl_status l.ctrl_status,
  iff_sound k.shift_status l.shift_status,
  iff_sound k.alt_status l.alt_status,
  iff_sound k.caps_lock_status l.caps_lock_status,
  iff_sound k.ext_scancode l.ext_scancode,
)

-- The handler never reads behind its key map, whatever byte the port gives and whatever the flags
-- are, and it leaves the flags as the keys that are held down say.
pub decode_lem :
    (byte : ℕ) (k : Keys)
    → byte < 256
    → (d : Decoded) × (decode byte k ≡ ok d) × (d.keys ≡ keys_after byte k)
unfolding decoded_ok
decode_lem byte k h = go (decode byte k) refl (checked byte k h)
  where
    go :
        (o : Res Decoded)
        → decode byte k ≡ o
        → decoded_ok byte k o ≡ true
        → (d : Decoded) × (decode byte k ≡ ok d) × (d.keys ≡ keys_after byte k)
    go panic e g = cc
    go (ok d) e g = (d, e, same_keys_sound d.keys (keys_after byte k) g)

-- Shift and caps lock cancel each other.
abbrev pub upper_case : Keys → Bool
upper_case k = if k.shift_status then not k.caps_lock_status else k.caps_lock_status

letter_ok : Keys → Option ℕ → Option ℕ → Bool
letter_ok k (some c) (some char) =
    if leb 97 c && leb c 122 && not k.ext_scancode && not k.ctrl_status
    then char == (if upper_case k then c - 32 else c)
    else true
letter_ok k (some c) none = not (leb 97 c && leb c 122 && not k.ext_scancode && not k.ctrl_status)
letter_ok k none char = true

char_of : Res Decoded → Option ℕ
char_of panic = none
char_of (ok d) = d.char

letter_table :
    holds_below 256 (λ b. all_keys (λ k. letter_ok k (lookup b false) (char_of (decode b k))))
    ≡ true
unfolding holds_below all_keys all_bools letter_ok char_of decode scan_code make_key pressed
    released shifted lookup shortcut two_chars is_ctrl is_shift is_alt
letter_table = refl

letter_checked :
    (byte : ℕ) (k : Keys)
    → byte < 256
    → letter_ok k (lookup byte false) (char_of (decode byte k)) ≡ true
letter_checked byte k h =
    all_keys_sound (λ k. letter_ok k (lookup byte false) (char_of (decode byte k))) k
      (holds_below_lem 256
        (λ b. all_keys (λ k. letter_ok k (lookup b false) (char_of (decode b k)))) byte letter_table
        h)

-- A letter key, pressed without ctrl and without the prefix, gives the letter of its row in the
-- key map, as a capital where exactly one of shift and caps lock is on; the flags stay.
pub decode_letter :
    (byte c : ℕ) (k : Keys)
    → byte < 256
    → lookup byte false ≡ some c
    → 97 ≤ c
    → c ≤ 122
    → k.ext_scancode ≡ false
    → k.ctrl_status ≡ false
    → (d : Decoded) × (decode byte k ≡ ok d) × (d.char ≡ some (if upper_case k then c - 32 else c))
unfolding letter_ok char_of
decode_letter byte c k h e lo hi ext ctrl =
    let (d, run, _) = decode_lem byte k h in
    (d, run, go d.char (ground (arith, letter_checked byte k h)))
  where
    go :
        (o : Option ℕ)
        → letter_ok k (some c) o ≡ true
        → o ≡ some (if upper_case k then c - 32 else c)
    go none g = ground arith
    go (some x) g = ground arith
