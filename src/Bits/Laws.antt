-- ===== src/Bits/Laws.antt =====
-- What bit `i` of each operation is, and that a number is determined by its bits.
use native.Mathlib.Nat.{pow-suc, pow-succ', one-le-pow, mul_assoc}
use cerberos.Base.{
  ℕ, zero, suc, ◌+◌, ◌-◌, ◌*◌, ◌/◌, ◌^◌, ◌≤◌, ◌<◌, bit_and, bit_or, ◌≡◌, ap, refl, sym, ◌∙◌, arith,
  false, ◌&&◌, ◌||◌, not, ◌==◌, ltb,
}
use cerberos.Bits.{test_bit, bit_not}
use cerberos.Bits.Digits.{bit_and_digit, bit_or_digit}

pub test_bit-zero : (i : ℕ) → test_bit 0 i ≡ false
test_bit-zero zero = refl
test_bit-zero (suc i) = test_bit-zero i

pub test_bit-bit_and : (a b i : ℕ) → test_bit (bit_and a b) i ≡ (test_bit a i && test_bit b i)
test_bit-bit_and a b zero = ground (arith, bit_and_digit a b)
test_bit-bit_and a b (suc i) =
    let half : bit_and a b / 2 ≡ bit_and (a / 2) (b / 2) = omega (arith, bit_and_digit a b) in
    rw half (test_bit-bit_and (a / 2) (b / 2) i)

pub test_bit-bit_or : (a b i : ℕ) → test_bit (bit_or a b) i ≡ (test_bit a i || test_bit b i)
test_bit-bit_or a b zero = ground (arith, bit_or_digit a b)
test_bit-bit_or a b (suc i) =
    let half : bit_or a b / 2 ≡ bit_or (a / 2) (b / 2) = omega (arith, bit_or_digit a b) in
    rw half (test_bit-bit_or (a / 2) (b / 2) i)

-- A word has no bit above its width.
pub test_bit_high : (w x i : ℕ) → x < 2 ^ w → w ≤ i → test_bit x i ≡ false
test_bit_high zero x i h le = let e : x ≡ 0 = omega arith in rw e (test_bit-zero i)
test_bit_high (suc w) x zero h le = absurd (omega arith)
test_bit_high (suc w) x (suc i) h le =
    test_bit_high w (x / 2) i (omega (arith, pow-suc 2 w)) (omega arith)

pub test_bit-bit_not :
    (w x i : ℕ) → x < 2 ^ w → test_bit (bit_not w x) i ≡ (ltb i w && not (test_bit x i))
unfolding bit_not
test_bit-bit_not zero x i h = ground (arith, test_bit-zero i)
test_bit-bit_not (suc w) x zero h = ground (arith, pow-suc 2 w, one-le-pow w 2)
test_bit-bit_not (suc w) x (suc i) h =
    let half : (2 ^ suc w - 1 - x) / 2 ≡ 2 ^ w - 1 - x / 2 =
      omega (arith, pow-suc 2 w, one-le-pow w 2) in
    rw half (ground (arith, test_bit-bit_not w (x / 2) i (omega (arith, pow-suc 2 w))))

-- `1 << k` has the one bit `k`.
pub test_bit-pow : (k i : ℕ) → test_bit (2 ^ k) i ≡ (k == i)
test_bit-pow zero zero = refl
test_bit-pow zero (suc i) = ground (arith, test_bit-zero i)
test_bit-pow (suc k) zero = ground (arith, pow-suc 2 k)
test_bit-pow (suc k) (suc i) =
    let half : 2 ^ suc k / 2 ≡ 2 ^ k = omega (arith, pow-suc 2 k) in
    rw half (ground (arith, test_bit-pow k i))

ext_below : (f a b : ℕ) → a < f → b < f → ((i : ℕ) → test_bit a i ≡ test_bit b i) → a ≡ b
ext_below zero a b ha hb h = absurd (omega arith)
ext_below (suc f) zero zero ha hb h = refl
ext_below (suc f) zero (suc b) ha hb h =
    let ih = ext_below f zero (suc b / 2) (omega arith) (omega arith) (λ i. h (suc i)) in
    ground (arith, ih, h 0)
ext_below (suc f) (suc a) b ha hb h =
    let ih = ext_below f (suc a / 2) (b / 2) (omega arith) (omega arith) (λ i. h (suc i)) in
    ground (arith, ih, h 0)

-- Numbers with the same bits are equal.
pub eq_of_bits : (a b : ℕ) → ((i : ℕ) → test_bit a i ≡ test_bit b i) → a ≡ b
eq_of_bits a b h = ext_below (suc (a + b)) a b (omega arith) (omega arith) h

pub pow_add : (a b : ℕ) → 2 ^ (a + b) ≡ 2 ^ a * 2 ^ b
pow_add zero b = ap (λ n. 2 ^ n) {x = 0 + b} {y = b} (omega arith) ∙ omega arith
pow_add (suc a) b =
    let e : suc a + b ≡ suc (a + b) = omega arith in
    ap (λ n. 2 ^ n) e
    ∙ pow-succ' 2 (a + b)
    ∙ ap (λ n. 2 * n) (pow_add a b)
    ∙ sym (mul_assoc 2 (2 ^ a) (2 ^ b))
    ∙ ap (λ n. n * 2 ^ b) (sym (pow-succ' 2 a))
