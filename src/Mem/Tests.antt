-- ===== src/Mem/Tests.antt =====
-- Runs of the byte routines, and their theorems at concrete buffers.
use cerberos.Base.{ℕ, ◌≡◌, inr, refl, arith, List, [], ◌∷◌, get_or}
use cerberos.Base.Int.{pos, negsuc}
use cerberos.Mem.{Memory, memcpy, memmove, memset, memcmp}
use cerberos.Mem.Copy.{copied, memcpy_lem, memmove_lem}

-- "abc", then 0, then 1, 0, 2 and 1, 0, 3.
abbrev bytes : List ℕ
bytes = 97 ∷ 98 ∷ 99 ∷ 0 ∷ 1 ∷ 0 ∷ 2 ∷ 1 ∷ 0 ∷ 3 ∷ []

abbrev memory : Memory
memory a = get_or bytes a 0

-- Upwards onto itself `memcpy` smears the first byte, and `memmove` does not.
memcpy_overlap : memcpy memory 1 0 3 3 ≡ 97
unfolding memcpy
memcpy_overlap = refl

memmove_overlap : memmove memory 1 0 3 3 ≡ 99
unfolding memmove
memmove_overlap = refl

memset_low_byte : memset memory 2 0x141 2 3 ≡ 0x41
unfolding memset
memset_low_byte = refl

memcmp_orders : memcmp memory 0 1 3 ≡ negsuc 0
unfolding memcmp
memcmp_orders = refl

-- The buffers 1, 0, 2 and 1, 0, 3 are equal to `memcmp`.
memcmp_misses : memcmp memory 4 7 3 ≡ pos 0
unfolding memcmp
memcmp_misses = refl

memcpy_lem_example : memcpy memory 20 0 3 21 ≡ copied memory 20 0 3 21
memcpy_lem_example = memcpy_lem memory 20 0 3 21 (inr (omega arith))

memmove_lem_example : memmove memory 1 0 3 2 ≡ copied memory 1 0 3 2
memmove_lem_example = memmove_lem memory 1 0 3 2
