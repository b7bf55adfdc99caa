-- ===== src/Keyboard/Tests.antt =====
-- Keys on the ring of a test of pipes.
use sparrow_os.Base.{◌≡◌, true, false, ok, arith}
use sparrow_os.Thread.{Kernel}
use sparrow_os.IoQueue.{IoQueue}
use sparrow_os.IoQueue.Ring.{contents}
use sparrow_os.IoQueue.Effects.{IsIo}
use sparrow_os.Pipe.Tests.{quiet, wrapped, wrapped-IsIo}
use sparrow_os.Keyboard.{Keys, Decoded, decode, intr_keyboard_handler}
use sparrow_os.Keyboard.Decode.{keys_after}
use sparrow_os.Keyboard.Ring.{with_char, handler_lem}

-- Shift is held down.
abbrev shift_down : Keys
shift_down = record {
  ctrl_status = false;
  shift_status = true;
  alt_status = false;
  caps_lock_status = false;
  ext_scancode = false;
}

handler_lem_example :
    (d : Decoded) × (q' : IoQueue) × (s' : Kernel) × (decode 0x1e shift_down ≡ ok d)
    × (intr_keyboard_handler 0x1e shift_down wrapped quiet
        ≡ ok (keys_after 0x1e shift_down, q', s'))
    × IsIo q' s'
    × (contents q' ≡ with_char d.char wrapped)
    × (s'.cur ≡ 1)
handler_lem_example = handler_lem 0x1e shift_down wrapped quiet (omega arith) wrapped-IsIo
