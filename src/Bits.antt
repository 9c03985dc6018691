-- ===== src/Bits.antt =====
-- Machine words as native numbers: single bits, the complement, and the laws of `&`, `|`, `~` and
-- the shifts that the C code relies on, each read off bit by bit.
mod Digits
pub mod Laws
pub mod Masks
pub mod Fields
pub mod Single
use cerberos.Base.{ℕ, zero, suc, ◌-◌, ◌/◌, ◌%◌, ◌^◌, Bool, ◌==◌}

-- Bit `i` of `n`.
abbrev pub test_bit : ℕ → ℕ → Bool
test_bit n zero = n % 2 == 1
test_bit n (suc i) = test_bit (n / 2) i

-- `~x` on a word of `w` bits.
unfoldable pub bit_not : ℕ → ℕ → ℕ
bit_not w x = 2 ^ w - 1 - x
