-- ===== src/Support/Bitmap/Tests.antt =====
-- Tests of lib/bitmap.cc on a map of two bytes.
use shmily.Base.{◌≡◌, refl, arith, ◌==◌, if◌then◌else◌, minus_one}
use shmily.Base.Bytes.{test_bit}
use shmily.Support.Bitmap.{Bitmap, IsValid, bitmap_verify_bit, bitmap_scan}
use shmily.Support.Bitmap.Runs.{LowestRun, scan_many-LowestRun}

-- Bits 8, 10, 11 and 12 are clear, and so is all memory behind the map.
abbrev map : Bitmap
map = record { bytes_len = 2; base = λ i. if i == 0 then 255 else if i == 1 then 226 else 0 }

map-IsValid : IsValid map
map-IsValid = record { bytes = λ i. ground arith; small = omega arith }

scans : (bitmap_scan map 1 ≡ 8) × (bitmap_scan map 3 ≡ 10) × (bitmap_scan map 4 ≡ minus_one)
unfolding bitmap_scan bitmap_verify_bit test_bit
scans = (refl, refl, refl)

scan_many-LowestRun_example : LowestRun map 3 17 (bitmap_scan map 3)
scan_many-LowestRun_example = scan_many-LowestRun map 3 map-IsValid (omega arith) (omega arith)

-- The last bit of this map is the only clear one: a run of two reaches past the end.
abbrev nearly_full : Bitmap
nearly_full = record { bytes_len = 1; base = λ i. if i == 0 then 127 else 0 }

past_the_end : bitmap_scan nearly_full 2 ≡ 7
unfolding bitmap_scan bitmap_verify_bit test_bit
past_the_end = refl
