-- ===== src/Sys/Align.antt =====
-- The alignment macros round to a multiple, for every power of two.
use native.Mathlib.Nat.{one-le-pow, mod-add-div', mod-lt}
use cerberos.Base.{ℕ, ◌+◌, ◌-◌, ◌*◌, ◌/◌, ◌%◌, ◌^◌, ◌≤◌, ◌<◌, ◌≡◌, arith}
use cerberos.Bits.Masks.{bit_and_high}
use cerberos.Sys.{align_down, align_up}

pub align_down_lem : (k x : ℕ) → x < 2 ^ 64 → k ≤ 64 → align_down x (2 ^ k) ≡ x / 2 ^ k * 2 ^ k
unfolding align_down
align_down_lem k x h le = bit_and_high 64 k x h le

-- ALIGN_DOWN by `2^k` is the largest multiple of `2^k` that is at most `x`.
pub align_down_bounds :
    (k x : ℕ)
    → x < 2 ^ 64
    → k ≤ 64
    → (align_down x (2 ^ k) ≤ x) × (x < align_down x (2 ^ k) + 2 ^ k)
align_down_bounds k x h le =
    rw (align_down_lem k x h le)
      (omega (arith, mod-add-div' x (2 ^ k), mod-lt x {m = 2 ^ k} (one-le-pow k 2 (omega arith))))

pub align_up_lem :
    (k x : ℕ) → x + 2 ^ k ≤ 2 ^ 64 → k ≤ 64 → align_up x (2 ^ k) ≡ (x + 2 ^ k - 1) / 2 ^ k * 2 ^ k
unfolding align_up
align_up_lem k x h le =
    let pos : 0 < 2 ^ k = one-le-pow k 2 (omega arith) in
    let e : (x + 2 ^ k - 1) % 2 ^ 64 ≡ x + 2 ^ k - 1 = omega arith in
    rw e (bit_and_high 64 k (x + 2 ^ k - 1) (omega arith) le)

-- ALIGN_UP by `2^k`, where the sum does not wrap, is the least multiple that is at least `x`.
pub align_up_bounds :
    (k x : ℕ)
    → x + 2 ^ k ≤ 2 ^ 64
    → k ≤ 64
    → (x ≤ align_up x (2 ^ k)) × (align_up x (2 ^ k) < x + 2 ^ k)
align_up_bounds k x h le =
    let pos : 0 < 2 ^ k = one-le-pow k 2 (omega arith) in
    rw (align_up_lem k x h le)
      (omega (arith, mod-add-div' (x + 2 ^ k - 1) (2 ^ k), mod-lt (x + 2 ^ k - 1) {m = 2 ^ k} pos))
