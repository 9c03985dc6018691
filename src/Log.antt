-- ===== src/Log.antt =====
-- src/log/log.c, src/log/log.h: the serial log. The characters that go to `__com_putc` are the
-- output, a list. A buffer that is filled from its end is the text from index `i` on, and `i`
-- slots are free in front of it: one digit more than that leaves the array, a fault. A signed word
-- is its bits; `-val` overflows on the least one, which is undefined and a fault too.
pub mod Digits
pub mod Signed
pub mod Format
mod Tests
use cerberos.Base.{
  ℕ, zero, suc, ◌+◌, ◌-◌, ◌*◌, ◌/◌, ◌%◌, ◌^◌, bit_and, Bool, true, false, List, [], ◌∷◌, ◌++◌,
  if◌then◌else◌, ltb, leb, ◌==◌,
}
use cerberos.Base.Result.{Result, ok, panic, fault, ◌>>=◌}
use cerberos.Base.Int.{ℤ, pos, negsuc}

-- `digits[d]`, of "0123456789abcdef".
abbrev pub hex_digit : ℕ → ℕ
hex_digit d = if ltb d 10 then 48 + d else 87 + d

-- `val >>= 4` on a signed `w`-bit word copies the sign bit.
abbrev pub shift_right_4 : ℕ → ℕ → ℕ
shift_right_4 w val = val / 16 + (if ltb val (2 ^ (w - 1)) then 0 else 15 * 2 ^ (w - 4))

-- The loop of `print_x` and `print_lx`, with `rounds` digits to go.
pub hex_loop : ℕ → ℕ → ℕ → List ℕ → List ℕ
hex_loop w zero val text = text
hex_loop w (suc rounds) val text =
    hex_loop w rounds (shift_right_4 w val) (hex_digit (bit_and val 0xf) ∷ text)

pub print_x : ℕ → List ℕ
unfolding hex_loop
print_x val = hex_loop 32 8 val []

pub print_lx : ℕ → List ℕ
unfolding hex_loop
print_lx val = hex_loop 64 16 val []

-- `while (val)` with `buf[--i]`: the free slots and the text.
pub digit_loop : ℕ → ℕ → List ℕ → Result (ℕ × List ℕ)
digit_loop zero val text = if val == 0 then ok (0, text) else fault
digit_loop (suc i) val text = elim (val == 0) [
  | true ↦ ok (suc i, text)
  | false ↦ digit_loop i (val / 10) ((48 + val % 10) ∷ text)
]

abbrev pub print_unsigned : ℕ → ℕ → Result (List ℕ)
unfolding digit_loop
print_unsigned i val =
    let digits : Result (List ℕ) = (do (_, text) ← digit_loop i val []; ok text) in
    if val == 0 then ok (48 ∷ []) else digits

unfoldable pub print_u : ℕ → Result (List ℕ)
print_u val = print_unsigned 10 val

unfoldable pub print_lu : ℕ → Result (List ℕ)
print_lu val = print_unsigned 20 val

-- `buf[--i] = '-'`
abbrev pub put_sign : ℕ × List ℕ → Result (List ℕ)
put_sign (zero, text) = fault
put_sign (suc i, text) = ok (45 ∷ text)

abbrev pub print_signed : ℕ → ℕ → ℕ → Result (List ℕ)
unfolding digit_loop
print_signed w i val =
    let digits : Result (List ℕ) = (do (_, text) ← digit_loop i val []; ok text) in
    let negative : Result (List ℕ) = (do slots ← digit_loop i (2 ^ w - val) []; put_sign slots) in
    if val == 0
    then ok (48 ∷ [])
    else if ltb val (2 ^ (w - 1))
    then digits
    else if val == 2 ^ (w - 1)
    then fault
    else negative

unfoldable pub print_d : ℕ → Result (List ℕ)
print_d val = print_signed 32 11 val

unfoldable pub print_ld : ℕ → Result (List ℕ)
print_ld val = print_signed 64 20 val

-- `log_level_t`
pub data LogLevel : Type 0 where
  info todo error warning none : LogLevel

-- "[INFO]: " and so on.
pub print_level : LogLevel → List ℕ
print_level LogLevel.info = 91 ∷ 73 ∷ 78 ∷ 70 ∷ 79 ∷ 93 ∷ 58 ∷ 32 ∷ []
print_level LogLevel.todo = 91 ∷ 84 ∷ 79 ∷ 68 ∷ 79 ∷ 93 ∷ 58 ∷ 32 ∷ []
print_level LogLevel.error = 91 ∷ 69 ∷ 82 ∷ 82 ∷ 79 ∷ 82 ∷ 93 ∷ 58 ∷ 32 ∷ []
print_level LogLevel.warning = 91 ∷ 87 ∷ 65 ∷ 82 ∷ 78 ∷ 73 ∷ 78 ∷ 71 ∷ 93 ∷ 58 ∷ 32 ∷ []
print_level LogLevel.none = []

-- An argument that `va_arg` takes: a word, or the string that a pointer leads to. Taking one that
-- is not there, or of the other kind, is undefined, a fault.
pub data Argument : Type 0 where
  word : ℕ → Argument
  string : List ℕ → Argument

-- What a directive sends to the log with the arguments that it leaves, or `unknown`: `return -1`.
pub data Printed : Type 0 where
  printed : List ℕ → List Argument → Printed
  unknown : Printed

-- `va_arg` of a word, cut to the handler's width.
abbrev pub with_word : ℕ → List Argument → (ℕ → Result (List ℕ)) → Result Printed
with_word w (Argument.word n ∷ args) print = do out ← print (n % 2 ^ w); ok (printed out args)
with_word w _ print = fault

abbrev pub with_text : List Argument → Result Printed
with_text (Argument.string s ∷ args) = ok (printed s args)
with_text _ = fault

-- The inner `switch` on the character after `%`; `l` is treated by the loop.
pub print_short : ℕ → List Argument → Result Printed
unfolding print_x print_u print_d
print_short c args =
    if c == 37
    then ok (printed (37 ∷ []) args)
    else if c == 99
    then with_word 8 args (λ n. ok (n ∷ []))
    else if c == 115
    then with_text args
    else if c == 120
    then with_word 32 args (λ n. ok (print_x n))
    else if c == 117
    then with_word 32 args print_u
    else if c == 100
    then with_word 32 args print_d
    else ok unknown

-- The `switch` on the character after `%l`.
pub print_long : ℕ → List Argument → Result Printed
unfolding print_lx print_lu print_ld
print_long c args =
    if c == 120
    then with_word 64 args (λ n. ok (print_lx n))
    else if c == 117
    then with_word 64 args print_lu
    else if c == 100
    then with_word 64 args print_ld
    else ok unknown

-- Where `buf` stands: in plain text, after `%`, or after `%l`.
pub data Mode : Type 0 where
  plain percent long : Mode

-- Going on behind a directive.
abbrev pub after :
    Result Printed → List ℕ → (List ℕ → List Argument → Result (ℤ × List ℕ)) → Result (ℤ × List ℕ)
after (ok (printed text args)) out next = next (out ++ text) args
after (ok unknown) out next = ok (negsuc 0, out)
after panic out next = panic
after fault out next = fault

-- The loop of `log_impl`: the status it returns and the output.
pub log_loop : List ℕ → Mode → List Argument → List ℕ → Result (ℤ × List ℕ)
unfolding print_short print_long
log_loop [] Mode.plain args out = ok (pos 0, out)
log_loop [] _ args out = ok (negsuc 0, out)
log_loop (c ∷ format) Mode.plain args out = elim (c == 37) [
  | true ↦ log_loop format Mode.percent args out
  | false ↦ log_loop format Mode.plain args (out ++ (c ∷ []))
]
log_loop (c ∷ format) Mode.percent args out = elim (c == 108) [
  | true ↦ log_loop format Mode.long args out
  | false ↦ after (print_short c args) out (λ o rest. log_loop format Mode.plain rest o)
]
log_loop (c ∷ format) Mode.long args out =
    after (print_long c args) out (λ o rest. log_loop format Mode.plain rest o)

pub log_impl : LogLevel → List ℕ → List Argument → Result (ℤ × List ℕ)
unfolding print_level log_loop
log_impl level format args = log_loop format Mode.plain args (print_level level)
