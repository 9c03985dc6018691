-- ===== src/Dev/Com.antt =====
-- src/kernel/dev/com.c, src/kernel/include/dev/com.h
mod Tests
use cerberos.Base.{
  ◌-◌, ◌*◌, ℕ, zero, suc, ◌+◌, ◌/◌, ◌%◌, ◌^◌, ◌<◌, ◌≡◌, ◌≢◌, refl, arith, false, Option, none, some,
  List, [], ◌∷◌, ◌++◌, map, if◌then◌else◌, ◌==◌,
}
use cerberos.Base.Result.{Result, ok, fault, ◌>>=◌}
use cerberos.Mem.{Memory}

-- A port and the byte that `outb` writes to it.
abbrev pub Write : Type 0
Write = ℕ × ℕ

-- SERIAL_COM1 and SERIAL_ENABLE_DLB
abbrev pub serial_com1 : ℕ
serial_com1 = 0x3f8

abbrev pub serial_enable_dlb : ℕ
serial_enable_dlb = 0x80

pub com_putc : ℕ → ℕ → List Write
com_putc port c = (port, c) ∷ []

-- The loop of `com_write` from address `buf` on, with the rounds that are left.
pub write_loop : Memory → ℕ → ℕ → ℕ → List Write
write_loop m port buf zero = []
write_loop m port buf (suc rounds) = com_putc port (m buf) ++ write_loop m port (buf + 1) rounds

-- `len` is converted to a `uint32_t`, which the index then reaches without wrapping around.
pub com_write : Memory → ℕ → ℕ → ℕ → List Write
unfolding write_loop
com_write m port buf len = write_loop m port buf (len % 2 ^ 32)

-- The loop of `__com_puts` from index `i` on, on fuel: a fault where the fuel runs out, and where the
-- index, an `int`, overflows.
pub puts_loop : ℕ → Memory → ℕ → ℕ → Result (List Write)
puts_loop zero m buf i = fault
puts_loop (suc fuel) m buf i =
    let rest = puts_loop fuel m buf (i + 1) in
    let more : Result (List Write) = (do
      writes ← rest
      ok (com_putc serial_com1 (m (buf + i)) ++ writes)) in
    if m (buf + i) == 0 then ok [] else if i == 2 ^ 31 - 1 then fault else more

pub com_puts : ℕ → Memory → ℕ → Result (List Write)
unfolding puts_loop
com_puts fuel m buf = puts_loop fuel m buf 0

-- `__com_init`
pub com_init_line : ℕ → ℕ → List Write
com_init_line port divisor =
    ((port + 3) % 2 ^ 16, serial_enable_dlb)
    ∷ (port, divisor % 2 ^ 8)
    ∷ ((port + 1) % 2 ^ 16, divisor / 2 ^ 8 % 2 ^ 8)
    ∷ ((port + 3) % 2 ^ 16, 0x03)
    ∷ ((port + 2) % 2 ^ 16, 0xc7)
    ∷ ((port + 4) % 2 ^ 16, 0x03)
    ∷ []

pub com_init : List Write
com_init = com_init_line serial_com1 3

-- The bytes of a buffer, each to the first line.
abbrev pub line_of : Memory → ℕ → ℕ → List Write
line_of m buf zero = []
line_of m buf (suc n) = (0x3f8, m buf) ∷ line_of m (buf + 1) n

write_loop_lem : (m : Memory) (buf n : ℕ) → write_loop m serial_com1 buf n ≡ line_of m buf n
unfolding write_loop com_putc
write_loop_lem m buf zero = refl
write_loop_lem m buf (suc n) = let rest = write_loop_lem m (buf + 1) n in rw (rest) refl

puts_loop_lem :
    (m : Memory) (n fuel buf i : ℕ)
    → n < fuel
    → i + n < 2 ^ 31
    → ((j : ℕ) → j < n → m (buf + i + j) ≢ 0)
    → m (buf + i + n) ≡ 0
    → puts_loop fuel m buf i ≡ ok (line_of m (buf + i) n)
unfolding puts_loop com_putc
puts_loop_lem m n zero buf i lt small live end = absurd (omega arith)
puts_loop_lem m zero (suc fuel) buf i lt small live end =
    let e : buf + i + 0 ≡ buf + i = omega arith in
    let z : m (buf + i) ≡ 0 = rw (e) at end in ground arith
puts_loop_lem m (suc n) (suc fuel) buf i lt small live end =
    let e : buf + i + 0 ≡ buf + i = omega arith in
    let o : m (buf + i) ≢ 0 = rw (e) at (live 0 (omega arith)) in
    let shift : (j : ℕ) → buf + (i + 1) + j ≡ buf + i + suc j = (λ j. omega arith) in
    let next : buf + (i + 1) ≡ buf + i + 1 = omega arith in
    let rest =
      puts_loop_lem m n fuel buf (i + 1) (omega arith) (omega arith)
        (λ j l. (let s = shift j in rw (s) (live (suc j) (omega arith))))
        (let s = shift n in rw (s) end) in
    let o' : (m (buf + i) == 0) ≡ false = ground arith in
    let inside : (i == 2 ^ 31 - 1) ≡ false = ground arith in
    let rest' = rw (next) at rest in rw (o', inside, rest) (rw (next) refl)

-- `__com_puts` of a string of a given length below 2 ^ 31 ends, and it writes what `com_write` of its
-- characters writes to the first line: each of them in order, to port 0x3f8.
pub com_puts-com_write :
    (m : Memory) (n fuel buf : ℕ)
    → n < fuel
    → n < 2 ^ 31
    → ((i : ℕ) → i < n → m (buf + i) ≢ 0)
    → m (buf + n) ≡ 0
    → (com_puts fuel m buf ≡ ok (com_write m serial_com1 buf n))
      × (com_write m serial_com1 buf n ≡ line_of m buf n)
unfolding com_puts com_write
com_puts-com_write m n fuel buf lt small live end =
    let zero_index : buf + 0 ≡ buf = omega arith in
    let len : n % 2 ^ 32 ≡ n = omega arith in
    let written = write_loop_lem m buf n in
    let run =
      puts_loop_lem m n fuel buf 0 lt (omega arith) (λ j l. (rw (zero_index) (live j l)))
        (rw (zero_index) end) in
    (rw (len, written) (rw (zero_index) at run), rw (len) written)
