-- ===== src/Ds/Bitmap/Tests.antt =====
-- Runs of the bitmap's functions, and the theorems at concrete bitmaps.
use cerberos.Base.{◌≡◌, refl, arith, false, [], ◌∷◌}
use cerberos.Bits.{bit_not}
use cerberos.Ds.Bitmap.{
  Bitmap, bitmap_get, bitmap_set, bitmap_clear, bitmap_set_range, bitmap_clear_range,
  bitmap_find_range,
}
use cerberos.Ds.Bitmap.Find.{IsFirstRun, bitmap_find_range_lem}

-- Bits 0 to 4 and 9 are set.
abbrev two_bytes : Bitmap
two_bytes = record { size = 16; bytes = 0x1f ∷ 0x02 ∷ [] }

find_in_two_bytes : bitmap_find_range two_bytes 0 false 5 ≡ 10
unfolding bitmap_find_range bitmap_get
find_in_two_bytes = refl

set_range_of_two_bytes : (bitmap_set_range two_bytes 6 5).bytes ≡ 0xdf ∷ 0x07 ∷ []
unfolding bitmap_set_range bitmap_set
set_range_of_two_bytes = refl

clear_range_of_two_bytes : (bitmap_clear_range two_bytes 3 7).bytes ≡ 0x07 ∷ 0 ∷ []
unfolding bitmap_clear_range bitmap_clear bit_not
clear_range_of_two_bytes = refl

bitmap_find_range_lem_example :
    IsFirstRun two_bytes 2 false 3 (bitmap_find_range two_bytes 2 false 3)
bitmap_find_range_lem_example = bitmap_find_range_lem two_bytes 2 false 3 (omega arith)
