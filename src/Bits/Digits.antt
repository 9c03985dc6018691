-- ===== src/Bits/Digits.antt =====
-- The native `&` and `|` by their lowest digit and the rest.
use Prim.Native.Nat.{min, max, digits, bitwise, bit_and-bitwise, bit_or-bitwise}
use cerberos.Base.{ℕ, zero, suc, ◌+◌, ◌*◌, ◌/◌, ◌%◌, ◌≤◌, bit_and, bit_or, ◌≡◌, refl, arith}

module _ (rest : ℕ → ℕ) (op : ℕ → ℕ → ℕ) where
  -- Any two amounts of fuel that cover `a` give the same digits.
  same_digits : (k l a b : ℕ) → a ≤ l → a ≤ k → digits rest op k a b ≡ digits rest op l a b
  same_digits zero zero zero b hl hk = refl
  same_digits zero (suc l) zero b hl hk = refl
  same_digits (suc k) zero zero b hl hk = refl
  same_digits (suc k) (suc l) zero b hl hk = refl
  same_digits zero l (suc a) b hl hk = absurd (omega arith)
  same_digits (suc k) zero (suc a) b hl hk = absurd (omega arith)
  same_digits (suc k) (suc l) (suc a) b hl hk =
      let ih = same_digits k l (suc a / 2) (b / 2) (omega arith) (omega arith) in rw ih

  bitwise_digit :
      (a b : ℕ)
      → bitwise rest op (suc a) b ≡ bitwise rest op (suc a / 2) (b / 2) * 2 + op (suc a % 2) (b % 2)
  bitwise_digit a b =
      let same = same_digits a (suc a / 2) (suc a / 2) (b / 2) (omega arith) (omega arith) in
      omega (arith, same)

pub bit_and_digit : (a b : ℕ) → bit_and a b ≡ bit_and (a / 2) (b / 2) * 2 + min (a % 2) (b % 2)
bit_and_digit zero b = simp bit_and-bitwise (omega arith)
bit_and_digit (suc a) b = simp bit_and-bitwise (bitwise_digit (λ _. 0) min a b)

pub bit_or_digit : (a b : ℕ) → bit_or a b ≡ bit_or (a / 2) (b / 2) * 2 + max (a % 2) (b % 2)
bit_or_digit zero b = simp bit_or-bitwise (omega arith)
bit_or_digit (suc a) b = simp bit_or-bitwise (bitwise_digit (λ y. y) max a b)
