-- ===== src/Bitmap/Tests.antt =====
-- bitmap.c on small maps.
use sparrow_os.Base.{
  ◌≡◌, refl, true, none, some, ok, panic, arith, ltb, not, ◌||◌, ◌==◌, if◌then◌else◌,
}
use sparrow_os.Base.Table.{holds_below, holds_below_lem}
use sparrow_os.Bitmap.{Bitmap, bit, scan_test, first_byte, first_bit, find_run, start, scan}
use sparrow_os.Bitmap.Bits.{IsBytes}
use sparrow_os.Bitmap.Scan.{FirstFit, scan-FirstFit}
use sparrow_os.Bitmap.Runs.{Clear, RunFound, scan-RunFound}

-- Two bytes; the bits 10 and 12 to 15 are clear, and all behind the map is set.
abbrev two_bytes : Bitmap
two_bytes = record { btmp_bytes_len = 2; bits = λ i. if i == 1 then 0x0b else 0xff }

-- One byte whose last bit is clear, and clear memory behind it.
abbrev last_clear : Bitmap
last_clear = record { btmp_bytes_len = 1; bits = λ i. if i == 0 then 0x7f else 0 }

two_bytes-IsBytes : IsBytes two_bytes
two_bytes-IsBytes i = ground arith

last_clear-IsBytes : IsBytes last_clear
last_clear-IsBytes i = ground arith

scan_one : scan two_bytes 1 ≡ ok (some 10)
unfolding scan first_byte start first_bit find_run bit
scan_one = refl

scan_three : scan two_bytes 3 ≡ ok (some 12)
unfolding scan first_byte start first_bit find_run bit scan_test
scan_three = refl

scan_six : scan two_bytes 6 ≡ ok none
unfolding scan first_byte start first_bit find_run bit scan_test
scan_six = refl

scan_full_map : scan (record two_bytes { btmp_bytes_len = 1 }) 1 ≡ panic
unfolding scan first_byte
scan_full_map = refl

scan-FirstFit_example : FirstFit two_bytes two_bytes-IsBytes (scan two_bytes 1)
scan-FirstFit_example = scan-FirstFit two_bytes two_bytes-IsBytes

scan-RunFound_example : RunFound two_bytes two_bytes-IsBytes 3 (omega arith) (scan two_bytes 3)
scan-RunFound_example = scan-RunFound two_bytes two_bytes-IsBytes 3 (omega arith)

clear_table : holds_below 16 (λ j. ltb j 12 || not (scan_test two_bytes j)) ≡ true
unfolding holds_below bit scan_test
clear_table = refl

free_four : Clear two_bytes 12 4
free_four j p q =
    ground
      (arith, holds_below_lem 16 (λ j. ltb j 12 || not (scan_test two_bytes j)) j clear_table q)

used_table : holds_below 7 (scan_test last_clear) ≡ true
unfolding holds_below bit scan_test
used_table = refl
