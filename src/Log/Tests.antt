-- ===== src/Log/Tests.antt =====
-- The log at concrete formats and numbers.
use cerberos.Base.{◌-◌, ◌^◌, ◌≡◌, refl, arith, List, [], ◌∷◌, ◌++◌}
use cerberos.Base.Int.{pos}
use cerberos.Base.Result.{ok, fault}
use cerberos.Log.{
  LogLevel, word, string, print_level, print_x, print_u, print_d, hex_loop, digit_loop, print_short,
  log_loop, log_impl,
}
use cerberos.Log.Signed.{Signed}
use cerberos.Log.Format.{
  Piece, character, d_word, s_string, format_of, args_of, render, with_status, log_impl_lem,
}

-- -1 as "ffffffff", 1024 as "1024", -5 as "-5".
minus_one_hex : print_x 0xffff_ffff ≡ 102 ∷ 102 ∷ 102 ∷ 102 ∷ 102 ∷ 102 ∷ 102 ∷ 102 ∷ []
unfolding print_x hex_loop
minus_one_hex = refl

decimal_run : print_u 1024 ≡ ok (49 ∷ 48 ∷ 50 ∷ 52 ∷ [])
unfolding print_u digit_loop
decimal_run = refl

negative_run : print_d (2 ^ 32 - 5) ≡ ok (45 ∷ 53 ∷ [])
unfolding print_d digit_loop
negative_run = refl

-- The least word cannot be negated.
least_run : print_d (2 ^ 31) ≡ fault
unfolding print_d digit_loop
least_run = refl

-- "a%d%s"
abbrev pieces : List Piece
pieces = character 97 (omega arith) ∷ d_word (2 ^ 32 - 5) ∷ s_string (98 ∷ []) ∷ []

log_run :
    log_impl LogLevel.none
      (97 ∷ 37 ∷ 100 ∷ 37 ∷ 115 ∷ [])
      (word (2 ^ 32 - 5) ∷ string (98 ∷ []) ∷ [])
    ≡ ok (pos 0, 97 ∷ 45 ∷ 53 ∷ 98 ∷ [])
unfolding log_impl log_loop print_short print_level print_d digit_loop
log_run = refl

log_impl_lem_example :
    log_impl LogLevel.info (format_of pieces) (args_of pieces ++ [])
    ≡ with_status (pos 0) (render pieces (print_level LogLevel.info))
log_impl_lem_example = log_impl_lem LogLevel.info pieces []
