-- ===== src/Sys.antt =====
-- src/lib/include/sys/misc.h: the address macros, over 64-bit words.
pub mod Align
use cerberos.Base.{ℕ, ◌+◌, ◌-◌, ◌%◌, ◌^◌, bit_and, if◌then◌else◌, ltb}
use cerberos.Bits.{bit_not}

-- `size_t` and `uint64_t` addition and subtraction wrap.
abbrev pub add64 : ℕ → ℕ → ℕ
add64 a b = (a + b) % 2 ^ 64

abbrev pub sub64 : ℕ → ℕ → ℕ
sub64 a b = (a + 2 ^ 64 - b) % 2 ^ 64

-- `(size_t) -1`
abbrev pub minus_one : ℕ
minus_one = 0xffff_ffff_ffff_ffff

-- MIN and MAX
abbrev pub min_of : ℕ → ℕ → ℕ
min_of a b = if ltb a b then a else b

abbrev pub max_of : ℕ → ℕ → ℕ
max_of a b = if ltb b a then a else b

-- ALIGN_DOWN and ALIGN_UP
unfoldable pub align_down : ℕ → ℕ → ℕ
align_down addr align = bit_and addr (bit_not 64 (align - 1))

unfoldable pub align_up : ℕ → ℕ → ℕ
align_up addr align = bit_and ((addr + align - 1) % 2 ^ 64) (bit_not 64 (align - 1))
