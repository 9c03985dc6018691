-- ===== src/Log/Digits.antt =====
-- Reading back what the number printers of the log write.
use native.Mathlib.Nat.{
  mod-lt, mod-add-div, add-mul-mod_self_left, mod-eq_of_lt, mod-one, one-le-pow, add-zero,
  mul_assoc, mul_comm,
}
use cerberos.Base.{
  ℕ, zero, suc, ◌+◌, ◌-◌, ◌*◌, ◌/◌, ◌%◌, ◌^◌, ◌<◌, ◌≤◌, ◌≡◌, refl, sym, ap, ◌∙◌, arith, bit_and,
  List, [], ◌∷◌, length, if◌then◌else◌, ltb, ◌==◌, ==_iff, Bool-cases, inl, inr,
}
use cerberos.Base.Result.{ok}
use cerberos.Bits.Masks.{bit_and_low}
use cerberos.Bits.Laws.{pow_add}
use cerberos.Log.{
  hex_digit, shift_right_4, hex_loop, print_x, print_lx, digit_loop, print_u, print_lu,
  print_unsigned,
}

-- The value of a decimal digit, and of a hexadecimal one.
abbrev pub decimal : ℕ → ℕ
decimal c = c - 48

abbrev pub hexadecimal : ℕ → ℕ
hexadecimal c = if ltb c 58 then c - 48 else c - 87

-- The number that the digits of `base` spell, after those of `n`.
abbrev pub read_number : ℕ → (ℕ → ℕ) → ℕ → List ℕ → ℕ
read_number base value n [] = n
read_number base value n (c ∷ cs) = read_number base value (n * base + value c) cs

-- A loop with enough room writes the digits of `val` in front of the text, and takes no more room
-- than there is.
pub digit_loop_lem :
    (i val : ℕ) (text : List ℕ)
    → val < 10 ^ i
    → (j : ℕ) × (t : List ℕ) × (digit_loop i val text ≡ ok (j, t))
      × (read_number 10 decimal 0 t ≡ read_number 10 decimal val text)
      × (j + length t ≡ i + length text)
unfolding digit_loop
digit_loop_lem zero val text h = let e : val ≡ 0 = omega arith in (0, text, rw e, rw e, refl)
digit_loop_lem (suc i) val text h =
    let small : val / 10 < 10 ^ i = omega arith in
    let rest = digit_loop_lem i (val / 10) ((48 + val % 10) ∷ text) small in
    elim (Bool-cases (val == 0)) [
      | inl e ↦
          let zero_val : val ≡ 0 = (==_iff val 0).0 e in
          (suc i, text, rw (digit_loop, e) refl, rw zero_val refl, refl)
      | inr e ↦
          let same : (val / 10) * 10 + decimal (48 + val % 10) ≡ val = omega arith in
          (
            rest.0,
            rest.1,
            rw (digit_loop, e) rest.2,
            rest.3 ∙ ap (λ n. read_number 10 decimal n text) same,
            omega (arith, rest.4),
          )
    ]

split_nibble : (M val : ℕ) → 0 < M → (val / 16 % M) * 16 + val % 16 ≡ val % (16 * M)
split_nibble M val h =
    let q : ℕ = val / 16 / M in
    let r : ℕ = (val / 16 % M) * 16 + val % 16 in
    let small : val / 16 % M < M = mod-lt (val / 16) h in
    let inner : val / 16 % M + M * q ≡ val / 16 = mod-add-div (val / 16) M in
    let whole : val ≡ r + 16 * M * q = omega arith in
    sym (
      ap (λ n. n % (16 * M)) whole
      ∙ add-mul-mod_self_left r (16 * M) q
      ∙ mod-eq_of_lt (omega arith))

pow_hex : (r : ℕ) → 2 ^ (4 * suc r) ≡ 16 * 2 ^ (4 * r)
pow_hex r = let e : 4 * suc r ≡ 4 + 4 * r = omega arith in ap (λ n. 2 ^ n) e ∙ pow_add 4 (4 * r)

swap : (a b c : ℕ) → a * (b * c) ≡ b * (a * c)
swap a b c = sym (mul_assoc a b c) ∙ ap (λ n. n * c) (mul_comm a b) ∙ mul_assoc b a c

-- The copies of the sign bit stay above the digits to go.
shift_right_4-mod :
    (r w val : ℕ) → 4 * suc r ≤ w → shift_right_4 w val % 2 ^ (4 * r) ≡ val / 16 % 2 ^ (4 * r)
shift_right_4-mod r w val h =
    let M : ℕ = 2 ^ (4 * r) in
    let e : w - 4 ≡ 4 * r + (w - 4 - 4 * r) = omega arith in
    let sign : 15 * 2 ^ (w - 4) ≡ M * (15 * 2 ^ (w - 4 - 4 * r)) =
      ap (λ n. 15 * 2 ^ n) e
      ∙ ap (λ n. 15 * n) (pow_add (4 * r) (w - 4 - 4 * r))
      ∙ swap 15 M (2 ^ (w - 4 - 4 * r)) in
    elim (Bool-cases (ltb val (2 ^ (w - 1)))) [
      | inl l ↦ rw l (ap (λ n. n % M) (add-zero (val / 16)))
      | inr l ↦ rw (l, sign) (add-mul-mod_self_left (val / 16) M (15 * 2 ^ (w - 4 - 4 * r)))
    ]

low_digit : (val : ℕ) → hexadecimal (hex_digit (bit_and val 0xf)) ≡ val % 16
low_digit val = let low : bit_and val 0xf ≡ val % 16 = bit_and_low 4 val in rw low (ground arith)

hex_loop_lem :
    (rounds w val : ℕ) (text : List ℕ)
    → 4 * rounds ≤ w
    → (read_number 16 hexadecimal 0 (hex_loop w rounds val text)
        ≡ read_number 16 hexadecimal (val % 2 ^ (4 * rounds)) text)
      × (length (hex_loop w rounds val text) ≡ rounds + length text)
unfolding hex_loop
hex_loop_lem zero w val text h =
    (ap (λ n. read_number 16 hexadecimal n text) (sym (mod-one val)), omega arith)
hex_loop_lem (suc r) w val text h =
    let rest =
      hex_loop_lem r w (shift_right_4 w val) (hex_digit (bit_and val 0xf) ∷ text) (omega arith) in
    let digit : hexadecimal (hex_digit (bit_and val 0xf)) ≡ val % 16 = low_digit val in
    let same : (shift_right_4 w val % 2 ^ (4 * r)) * 16 + hexadecimal (hex_digit (bit_and val 0xf))
        ≡ val % 2 ^ (4 * suc r) =
      rw (shift_right_4-mod r w val h, digit, pow_hex r)
        (split_nibble (2 ^ (4 * r)) val (one-le-pow (4 * r) 2 (omega arith))) in
    (rest.0 ∙ ap (λ n. read_number 16 hexadecimal n text) same, omega (arith, rest.1))

-- `print_x` writes eight hexadecimal digits, and they spell the word's bits, whether or not its
-- sign bit is set.
pub print_x_lem :
    (val : ℕ)
    → val < 2 ^ 32
    → (read_number 16 hexadecimal 0 (print_x val) ≡ val) × (length (print_x val) ≡ 8)
unfolding print_x
print_x_lem val h =
    let (value, size) = hex_loop_lem 8 32 val [] (omega arith) in (value ∙ mod-eq_of_lt h, size)

-- `print_lx` writes sixteen hexadecimal digits, and they spell the word's bits, whether or not its
-- sign bit is set.
pub print_lx_lem :
    (val : ℕ)
    → val < 2 ^ 64
    → (read_number 16 hexadecimal 0 (print_lx val) ≡ val) × (length (print_lx val) ≡ 16)
unfolding print_lx
print_lx_lem val h =
    let (value, size) = hex_loop_lem 16 64 val [] (omega arith) in (value ∙ mod-eq_of_lt h, size)

print_unsigned_lem :
    (i val : ℕ)
    → val < 10 ^ i
    → 0 < i
    → (t : List ℕ) × (print_unsigned i val ≡ ok t)
      × (read_number 10 decimal 0 t ≡ val)
      × (length t ≤ i)
unfolding print_unsigned
print_unsigned_lem i val h room =
    let (j, t, run, value, size) = digit_loop_lem i val [] h in
    elim (Bool-cases (val == 0)) [
      | inl e ↦
          let none : val ≡ 0 = (==_iff val 0).0 e in (48 ∷ [], rw e refl, sym none, omega arith)
      | inr e ↦ (t, rw (e, run) refl, value, omega arith)
    ]

-- `print_u` returns for every 32-bit word, without leaving its buffer, and its digits, ten at most,
-- spell the word.
pub print_u_lem :
    (val : ℕ)
    → val < 2 ^ 32
    → (t : List ℕ) × (print_u val ≡ ok t) × (read_number 10 decimal 0 t ≡ val) × (length t ≤ 10)
unfolding print_u
print_u_lem val h = print_unsigned_lem 10 val (omega arith) (omega arith)

-- `print_lu` returns for every 64-bit word, without leaving its buffer, and its digits, twenty at
-- most, spell the word.
pub print_lu_lem :
    (val : ℕ)
    → val < 2 ^ 64
    → (t : List ℕ) × (print_lu val ≡ ok t) × (read_number 10 decimal 0 t ≡ val) × (length t ≤ 20)
unfolding print_lu
print_lu_lem val h = print_unsigned_lem 20 val (omega arith) (omega arith)
