-- ===== src/Bits/Single.antt =====
-- Testing one bit with a mask, as C code does.
use cerberos.Base.{
  ℕ, ◌^◌, ◌≡◌, ◌≢◌, ap, arith, bit_and, true, false, not, ◌&&◌, ◌==◌, Bool-cases, inl, inr,
}
use cerberos.Bits.{test_bit}
use cerberos.Bits.Laws.{test_bit-zero, test_bit-bit_and, test_bit-pow, eq_of_bits}

-- `x & (1 << k)`, as a truth value.
pub masked_bit : (x k : ℕ) → not (bit_and x (2 ^ k) == 0) ≡ test_bit x k
masked_bit x k = elim (Bool-cases (test_bit x k)) [
  | inl e ↦
      let set : test_bit (bit_and x (2 ^ k)) k ≡ true =
        ground (arith, test_bit-bit_and x (2 ^ k) k, test_bit-pow k k) in
      let nz : bit_and x (2 ^ k) ≢ 0 =
        λ z. ground (arith, ap (λ n. test_bit n k) z, test_bit-zero k) in
      ground arith
  | inr e ↦
      let z : bit_and x (2 ^ k) ≡ 0 =
        eq_of_bits _ _ λ i. simp (test_bit-bit_and, test_bit-pow, test_bit-zero) (masked i e) in
      rw (z, e)
]
  where
    masked : (i : ℕ) → test_bit x k ≡ false → (test_bit x i && (k == i)) ≡ false
    masked i e = elim (Bool-cases (k == i)) [
      | inl same ↦ let q : k ≡ i = ground arith in ground (arith, ap (test_bit x) q)
      | inr other ↦ ground arith
    ]
