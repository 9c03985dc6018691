-- ===== src/Log/Signed.antt =====
-- The signed number printers of the log.
use native.Mathlib.Nat.{mod-lt}
use cerberos.Base.{
  ◌≤◌, ℕ, zero, suc, ◌+◌, ◌-◌, ◌/◌, ◌%◌, ◌^◌, ◌<◌, ◌≡◌, ◌≢◌, ◌⊎◌, inl, inr, refl, sym, ap, arith,
  false, List, [], ◌∷◌, ltb, ◌==◌, ==_iff, Bool-cases,
}
use cerberos.Base.Result.{Result, ok, ◌>>=◌}
use cerberos.Log.{digit_loop, print_signed, print_ld}
use cerberos.Log.Digits.{decimal, read_number, digit_loop_lem}

-- A longer buffer has one more free slot in the end.
abbrev longer : Result (ℕ × List ℕ) → Result (ℕ × List ℕ)
longer r = do (j, t) ← r; ok (suc j, t)

digit_loop-suc :
    (i val j : ℕ) (text t : List ℕ)
    → val < 10 ^ i
    → digit_loop i val text ≡ ok (j, t)
    → digit_loop (suc i) val text ≡ ok (suc j, t)
unfolding digit_loop
digit_loop-suc zero val j text t h run =
    let e : val ≡ 0 = omega arith in rw e (ap longer (rw e at run))
digit_loop-suc (suc i) val j text t h run = elim (Bool-cases (val == 0)) [
  | inl e ↦ rw (digit_loop, e) (ap longer (rw (digit_loop, e) at run))
  | inr e ↦
      rw (digit_loop, e)
        (digit_loop-suc i (val / 10) j ((48 + val % 10) ∷ text) t (omega arith)
          (rw (digit_loop, e) at run))
]

-- The characters '0' to '9'.
abbrev pub AllDigits : List ℕ → Type 0
AllDigits [] = Unit
AllDigits (c ∷ cs) = (48 ≤ c) × (c < 58) × AllDigits cs

digit_loop-AllDigits :
    (i val j : ℕ) (text t : List ℕ)
    → AllDigits text
    → digit_loop i val text ≡ ok (j, t)
    → AllDigits t
unfolding digit_loop
digit_loop-AllDigits zero val j text t d run = ground arith
digit_loop-AllDigits (suc i) val j text t d run = elim (Bool-cases (val == 0)) [
  | inl e ↦ (let r = rw (digit_loop, e) at run in let same : text ≡ t = cc in rw (sym same) d)
  | inr e ↦
      let less = mod-lt val {m = 10} (omega arith) in
      digit_loop-AllDigits i (val / 10) j ((48 + val % 10) ∷ text) t (omega arith, omega arith, d)
        (rw (digit_loop, e) at run)
]

-- What a signed printer writes for `val`: the digits `u`, after a minus sign if the sign bit is set.
abbrev pub Signed : ℕ → Result (List ℕ) → ℕ → List ℕ → Type 0
Signed w printed val u =
    AllDigits u
    × (((val < 2 ^ (w - 1)) × (printed ≡ ok u) × (read_number 10 decimal 0 u ≡ val))
        ⊎ ((2 ^ (w - 1) < val)
            × (printed ≡ ok (45 ∷ u))
            × (read_number 10 decimal 0 u ≡ 2 ^ w - val)))

print_signed_lem :
    (w i val : ℕ)
    → val < 2 ^ w
    → val ≢ 2 ^ (w - 1)
    → 2 ^ (w - 1) < 10 ^ i
    → 2 ^ w ≡ 2 ^ (w - 1) + 2 ^ (w - 1)
    → 0 < 2 ^ (w - 1)
    → (u : List ℕ) × Signed w (print_signed w (suc i) val) val u
unfolding print_signed
print_signed_lem w i val h ne room half positive = elim (Bool-cases (val == 0)) [
  | inl e ↦
      let none : val ≡ 0 = (==_iff val 0).0 e in
      (48 ∷ [], ((omega arith, omega arith, tt), inl (omega arith, rw e refl, sym none)))
  | inr e ↦ elim (Bool-cases (ltb val (2 ^ (w - 1)))) [
    | inl l ↦
        let (j, t, run, value, size) = digit_loop_lem i val [] (ground arith) in
        (
          t,
          (
            digit_loop-AllDigits i val j [] t tt run,
            inl (
              ground arith,
              rw (e, l, digit_loop-suc i val j [] t (ground arith) run) refl,
              value,
            ),
          ),
        )
    | inr l ↦
        let (j, t, run, value, size) = digit_loop_lem i (2 ^ w - val) [] (ground arith) in
        let odd : (val == 2 ^ (w - 1)) ≡ false = ground arith in
        (
          t,
          (
            digit_loop-AllDigits i (2 ^ w - val) j [] t tt run,
            inr (
              ground arith,
              rw (e, l, odd, digit_loop-suc i (2 ^ w - val) j [] t (ground arith) run) refl,
              value,
            ),
          ),
        )
  ]
]

-- `print_ld` returns for every 64-bit word but the least one, without leaving its buffer: digits
-- that spell a word that is not negative, and a minus sign with the digits of the absolute value of
-- a negative one.
pub print_ld_lem :
    (val : ℕ) → val < 2 ^ 64 → val ≢ 2 ^ 63 → (u : List ℕ) × Signed 64 (print_ld val) val u
unfolding print_ld
print_ld_lem val h ne = print_signed_lem 64 19 val h ne (omega arith) (omega arith) (omega arith)
