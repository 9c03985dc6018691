-- ===== src/Bits/Fields.antt =====
-- Words that are made of fields.
use Prim.Native.Nat.{bit_or-bitwise}
use native.Mathlib.Nat.{pow-suc}
use cerberos.Base.{ℕ, zero, suc, ◌+◌, ◌*◌, ◌/◌, ◌^◌, ◌<◌, bit_or, ◌≡◌, refl, arith}
use cerberos.Bits.Digits.{bit_or_digit}

bit_or-zero : (b : ℕ) → bit_or 0 b ≡ b
bit_or-zero b = simp bit_or-bitwise refl

-- Fields that do not overlap are joined by adding them.
pub bit_or-fields : (w a b : ℕ) → a < 2 ^ w → bit_or a (b * 2 ^ w) ≡ a + b * 2 ^ w
bit_or-fields zero a b h =
    let e : a ≡ 0 = omega arith in
    let e' : b * 2 ^ 0 ≡ b = omega arith in rw (e, e') (omega (arith, bit_or-zero b))
bit_or-fields (suc w) a b h =
    let p : 2 ^ suc w ≡ 2 * 2 ^ w = omega (arith, pow-suc 2 w) in
    let q : b * (2 * 2 ^ w) ≡ 2 * (b * 2 ^ w) = grind arith in
    let ih = bit_or-fields w (a / 2) b (omega arith) in
    let d = bit_or_digit a (2 * (b * 2 ^ w)) in
    let half : 2 * (b * 2 ^ w) / 2 ≡ b * 2 ^ w = omega arith in
    let d' = rw (half, ih) at d in rw (p, q) (ground arith)
