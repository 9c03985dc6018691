-- ===== src/Bits/Masks.antt =====
-- Low masks, alignment, and writing a field of a word.
use native.Mathlib.Nat.{pow-suc, one-le-pow, pow-le-pow_right, div-div-eq-div-mul, mod-add-div'}
use native.Mathlib.Nat.{mod-lt, mul-one, sub-zero, div-one, add-zero}
use cerberos.Base.{
  ℕ, zero, suc, ◌+◌, ◌-◌, ◌*◌, ◌/◌, ◌%◌, ◌^◌, ◌≤◌, ◌<◌, bit_and, bit_or, ◌≡◌, sym, ap, ◌∙◌, arith,
  false, ◌&&◌, ltb, leb, Bool-cases, inl, inr,
}
use cerberos.Bits.{test_bit, bit_not}
use cerberos.Bits.Laws.{
  test_bit-zero, test_bit-bit_and, test_bit-bit_or, test_bit-bit_not, test_bit_high, eq_of_bits,
}
use cerberos.Bits.Digits.{bit_and_digit}

bit_and-zero : (x : ℕ) → bit_and x 0 ≡ 0
bit_and-zero x = eq_of_bits _ _ (λ i. ground (arith, test_bit-bit_and x 0 i, test_bit-zero i))

-- The low `k + 1` bits are the low `k` bits of the half, and the parity.
low_digit : (k x : ℕ) → x % 2 ^ suc k ≡ x / 2 % 2 ^ k * 2 + x % 2
low_digit k x =
    let q : ℕ = x / 2 ^ suc k in
    let same : x / 2 / 2 ^ k ≡ q =
      div-div-eq-div-mul x 2 (2 ^ k) ∙ ap (λ t. x / t) (omega (arith, pow-suc 2 k)) in
    let shift : q * 2 ^ suc k ≡ 2 * (q * 2 ^ k) =
      omega (arith, ap (λ (t : ℕ). q * t) (pow-suc 2 k)) in
    let whole : x % 2 ^ suc k + q * 2 ^ suc k ≡ x = mod-add-div' x (2 ^ suc k) in
    let half : x / 2 % 2 ^ k + q * 2 ^ k ≡ x / 2 = rw same at (mod-add-div' (x / 2) (2 ^ k)) in
    omega arith

-- `x & (2^k - 1)`
pub bit_and_low : (k x : ℕ) → bit_and x (2 ^ k - 1) ≡ x % 2 ^ k
bit_and_low zero x = ground (arith, bit_and-zero x)
bit_and_low (suc k) x =
    let half : (2 ^ suc k - 1) / 2 ≡ 2 ^ k - 1 = omega (arith, pow-suc 2 k, one-le-pow k 2) in
    let odd : (2 ^ suc k - 1) % 2 ≡ 1 = omega (arith, pow-suc 2 k, one-le-pow k 2) in
    rw (bit_and_digit, half, odd, bit_and_low k (x / 2), low_digit k x) (omega arith)

test_bit_low : (k i : ℕ) → test_bit (2 ^ k - 1) i ≡ ltb i k
test_bit_low zero i = ground (arith, test_bit-zero i)
test_bit_low (suc k) zero = ground (arith, pow-suc 2 k, one-le-pow k 2)
test_bit_low (suc k) (suc i) =
    let half : (2 ^ suc k - 1) / 2 ≡ 2 ^ k - 1 = omega (arith, pow-suc 2 k, one-le-pow k 2) in
    rw half (ground (arith, test_bit_low k i))

test_bit_shifted : (k x i : ℕ) → test_bit (x * 2 ^ k) i ≡ (leb k i && test_bit x (i - k))
test_bit_shifted zero x i = rw (mul-one, sub-zero) (ground arith)
test_bit_shifted (suc k) x zero = ground (arith, ap (λ (t : ℕ). x * t) (pow-suc 2 k))
test_bit_shifted (suc k) x (suc i) =
    let half : x * 2 ^ suc k / 2 ≡ x * 2 ^ k = omega (arith, ap (λ (t : ℕ). x * t) (pow-suc 2 k)) in
    rw half (ground (arith, test_bit_shifted k x i))

test_bit-shr : (k x i : ℕ) → test_bit (x / 2 ^ k) i ≡ test_bit x (i + k)
test_bit-shr zero x i = rw (div-one, add-zero)
test_bit-shr (suc k) x i =
    let e : x / 2 ^ suc k ≡ x / 2 / 2 ^ k =
      ap (λ t. x / t) (omega (arith, pow-suc 2 k)) ∙ sym (div-div-eq-div-mul x 2 (2 ^ k)) in
    let f : i + suc k ≡ suc (i + k) = omega arith in rw (e, f) (test_bit-shr k (x / 2) i)

test_bit_aligned : (k x i : ℕ) → test_bit (x / 2 ^ k * 2 ^ k) i ≡ (leb k i && test_bit x i)
test_bit_aligned k x i =
    rw (test_bit_shifted k (x / 2 ^ k) i, test_bit-shr k x (i - k))
      (elim (Bool-cases (leb k i)) [
        | inl le ↦ let e : i - k + k ≡ i = ground arith in rw e
        | inr gt ↦ rw gt
      ])

-- `x & ~(2^k - 1)` clears the low `k` bits.
pub bit_and_high :
    (w k x : ℕ) → x < 2 ^ w → k ≤ w → bit_and x (bit_not w (2 ^ k - 1)) ≡ x / 2 ^ k * 2 ^ k
bit_and_high w k x h le = eq_of_bits _ _ bits
  where
    fits : 2 ^ k - 1 < 2 ^ w
    fits = omega (arith, one-le-pow k 2, pow-le-pow_right {n = 2} (omega arith) le)

    bits : (i : ℕ) → test_bit (bit_and x (bit_not w (2 ^ k - 1))) i ≡ test_bit (x / 2 ^ k * 2 ^ k) i
    bits i = ground (
      arith,
      test_bit-bit_and x (bit_not w (2 ^ k - 1)) i,
      test_bit-bit_not w (2 ^ k - 1) i fits,
      test_bit_low k i,
      test_bit_aligned k x i,
      test_bit_high w x i h,
    )

-- A number fits a word if it has no bit above the word's width.
fits_of_bits : (w x : ℕ) → ((i : ℕ) → w ≤ i → test_bit x i ≡ false) → x < 2 ^ w
fits_of_bits w x h =
    let e : x % 2 ^ w ≡ x =
      eq_of_bits _ _ λ i. rw (← bit_and_low w x, test_bit-bit_and, test_bit_low) (same i) in
    omega (arith, mod-lt x {m = 2 ^ w} (one-le-pow w 2 (omega arith)))
  where
    same : (i : ℕ) → (test_bit x i && ltb i w) ≡ test_bit x i
    same i = ground (arith, h i)

pub bit_or-lt : (w a b : ℕ) → a < 2 ^ w → b < 2 ^ w → bit_or a b < 2 ^ w
bit_or-lt w a b ha hb = fits_of_bits w _ λ i le.
    ground (arith, test_bit-bit_or a b i, test_bit_high w a i ha le, test_bit_high w b i hb le)

pub bit_and-lt : (w a b : ℕ) → a < 2 ^ w → bit_and a b < 2 ^ w
bit_and-lt w a b ha =
    fits_of_bits w _ λ i le. ground (arith, test_bit-bit_and a b i, test_bit_high w a i ha le)

-- Masks without a common bit.
abbrev pub Disjoint : ℕ → ℕ → Type 0
Disjoint a b = bit_and a b ≡ 0

apart : (a b i : ℕ) → Disjoint a b → (test_bit a i && test_bit b i) ≡ false
apart a b i d = sym (test_bit-bit_and a b i) ∙ ap (λ n. test_bit n i) d ∙ test_bit-zero i

-- `(e & ~m) | (v & m)` writes the bits of the mask `m`: reading them gives those of `v` back,
pub read-write_field :
    (w e v m : ℕ)
    → m < 2 ^ w
    → bit_and (bit_or (bit_and e (bit_not w m)) (bit_and v m)) m ≡ bit_and v m
read-write_field w e v m h =
    eq_of_bits _ _
      λ i. simp (test_bit-bit_and, test_bit-bit_or, test_bit-bit_not w m i h) (ground arith)

-- and the bits of a disjoint mask stay what they were.
pub read-write_other :
    (w e v m f : ℕ)
    → m < 2 ^ w
    → e < 2 ^ w
    → Disjoint m f
    → bit_and (bit_or (bit_and e (bit_not w m)) (bit_and v m)) f ≡ bit_and e f
read-write_other w e v m f h he d = eq_of_bits _ _ λ i.
    simp (test_bit-bit_and, test_bit-bit_or, test_bit-bit_not w m i h)
      (ground (arith, apart m f i d, test_bit_high w e i he))

-- `e | f` has all the bits of `f`, and those of a mask disjoint from `f` as before.
pub bit_and-bit_or_self : (e f : ℕ) → bit_and (bit_or e f) f ≡ f
bit_and-bit_or_self e f =
    eq_of_bits _ _ λ i. simp (test_bit-bit_and, test_bit-bit_or) (ground arith)

pub bit_and-bit_or_other : (e f m : ℕ) → Disjoint f m → bit_and (bit_or e f) m ≡ bit_and e m
bit_and-bit_or_other e f m d =
    eq_of_bits _ _ λ i. simp (test_bit-bit_and, test_bit-bit_or) (ground (arith, apart f m i d))

-- Storing into `w` bits keeps the low ones.
pub test_bit-mod : (w x i : ℕ) → test_bit (x % 2 ^ w) i ≡ (test_bit x i && ltb i w)
test_bit-mod w x i = rw (← bit_and_low w x, test_bit-bit_and, test_bit_low)

-- `1 << a` fits a word that is wider than `a`.
pub pow_mono : (a b : ℕ) → a < b → 2 ^ a < 2 ^ b
pow_mono a b h = omega (
  arith,
  pow-suc 2 a,
  one-le-pow a 2,
  pow-le-pow_right {n = 2} (omega arith) {i = suc a} {j = b} h,
)

pub bit_and_comm : (a b : ℕ) → bit_and a b ≡ bit_and b a
bit_and_comm a b = eq_of_bits _ _ λ i. simp test_bit-bit_and (ground arith)

-- Masking with `w` ones from bit `k` on.
pub bit_and_field : (k w x : ℕ) → bit_and x ((2 ^ w - 1) * 2 ^ k) ≡ x / 2 ^ k % 2 ^ w * 2 ^ k
bit_and_field k w x = eq_of_bits _ _ λ i.
    simp (test_bit-bit_and, test_bit_shifted, test_bit-mod, test_bit_low, test_bit-shr)
      (elim (Bool-cases (leb k i)) [
        | inl le ↦ let e : i - k + k ≡ i = ground arith in rw e (ground arith)
        | inr gt ↦ rw gt (ground arith)
      ])

-- `e & ~f` has no bit of `f`, and those of a disjoint mask as before.
pub bit_and-clear_self : (w e f : ℕ) → f < 2 ^ w → bit_and (bit_and e (bit_not w f)) f ≡ 0
bit_and-clear_self w e f h =
    eq_of_bits _ _
      λ i. simp (test_bit-bit_and, test_bit-bit_not w f i h, test_bit-zero) (ground arith)

pub bit_and-clear_other :
    (w e f m : ℕ)
    → e < 2 ^ w
    → f < 2 ^ w
    → Disjoint f m
    → bit_and (bit_and e (bit_not w f)) m ≡ bit_and e m
bit_and-clear_other w e f m he hf d = eq_of_bits _ _ λ i.
    simp (test_bit-bit_and, test_bit-bit_not w f i hf)
      (ground (arith, apart f m i d, test_bit_high w e i he))
