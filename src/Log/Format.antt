-- ===== src/Log/Format.antt =====
-- The format language of the log.
use mathlib.Core.List.{append-nil}
use cerberos.Base.{
  ℕ, ◌%◌, ◌^◌, ◌≡◌, ◌≢◌, refl, ◌∙◌, arith, false, List, [], ◌∷◌, ◌++◌, ◌==◌, Bool, ◌||◌,
}
use cerberos.Base.Int.{ℤ, pos, negsuc}
use cerberos.Base.Result.{bind-ext, Result, ok, panic, fault, ◌>>=◌}
use cerberos.Log.{
  LogLevel, Argument, word, string, printed, plain, print_level, print_x, print_lx, print_u,
  print_lu, print_d, print_ld, print_short, print_long, after, log_loop, log_impl,
}

-- A piece of a format: a character other than `%`, or a directive with the argument it prints.
pub data Piece : Type 0 where
  character : (c : ℕ) → c ≢ 37 → Piece
  percent : Piece
  c_word x_word u_word d_word lx_word lu_word ld_word : ℕ → Piece
  s_string : List ℕ → Piece

-- Its characters in the format.
abbrev pub spelled : Piece → List ℕ
spelled (character c _) = c ∷ []
spelled percent = 37 ∷ 37 ∷ []
spelled (c_word n) = 37 ∷ 99 ∷ []
spelled (x_word n) = 37 ∷ 120 ∷ []
spelled (u_word n) = 37 ∷ 117 ∷ []
spelled (d_word n) = 37 ∷ 100 ∷ []
spelled (lx_word n) = 37 ∷ 108 ∷ 120 ∷ []
spelled (lu_word n) = 37 ∷ 108 ∷ 117 ∷ []
spelled (ld_word n) = 37 ∷ 108 ∷ 100 ∷ []
spelled (s_string s) = 37 ∷ 115 ∷ []

-- Its arguments.
abbrev pub taken : Piece → List Argument
taken (character c _) = []
taken percent = []
taken (c_word n) = word n ∷ []
taken (x_word n) = word n ∷ []
taken (u_word n) = word n ∷ []
taken (d_word n) = word n ∷ []
taken (lx_word n) = word n ∷ []
taken (lu_word n) = word n ∷ []
taken (ld_word n) = word n ∷ []
taken (s_string s) = string s ∷ []

-- What it prints.
abbrev pub shown : Piece → Result (List ℕ)
shown (character c _) = ok (c ∷ [])
shown percent = ok (37 ∷ [])
shown (c_word n) = ok (n % 2 ^ 8 ∷ [])
shown (x_word n) = ok (print_x (n % 2 ^ 32))
shown (u_word n) = print_u (n % 2 ^ 32)
shown (d_word n) = print_d (n % 2 ^ 32)
shown (lx_word n) = ok (print_lx (n % 2 ^ 64))
shown (lu_word n) = print_lu (n % 2 ^ 64)
shown (ld_word n) = print_ld (n % 2 ^ 64)
shown (s_string s) = ok s

abbrev pub format_of : List Piece → List ℕ
format_of [] = []
format_of (p ∷ ps) = spelled p ++ format_of ps

abbrev pub args_of : List Piece → List Argument
args_of [] = []
args_of (p ∷ ps) = taken p ++ args_of ps

-- The output after `out`.
abbrev pub render : List Piece → List ℕ → Result (List ℕ)
render [] out = ok out
render (p ∷ ps) out = do text ← shown p; render ps (out ++ text)

abbrev pub with_status : ℤ → Result (List ℕ) → Result (ℤ × List ℕ)
with_status status r = do out ← r; ok (status, out)

after-print :
    (r : Result (List ℕ)) (args : List Argument) (out : List ℕ)
    (next : List ℕ → List Argument → Result (ℤ × List ℕ)) (f : List ℕ → Result (List ℕ))
    (g : List ℕ → Result (ℤ × List ℕ))
    → ((o : List ℕ) → next o args ≡ (f o >>= g))
    → after (r >>= (λ text. ok (printed text args))) out next
      ≡ ((r >>= (λ text. f (out ++ text))) >>= g)
after-print (ok t) args out next f g h = h (out ++ t)
after-print panic args out next f g h = refl
after-print fault args out next f g h = refl

log_loop_lem :
    (ps : List Piece) (rest : List ℕ) (args : List Argument) (out : List ℕ)
    → log_loop (format_of ps ++ rest) plain (args_of ps ++ args) out
      ≡ (do o ← render ps out; log_loop rest plain args o)
unfolding log_loop print_short print_long
log_loop_lem [] rest args out = refl
log_loop_lem (character c ne ∷ ps) rest args out =
    let other : (c == 37) ≡ false = ground arith in
    rw (log_loop, other) (log_loop_lem ps rest args (out ++ (c ∷ [])))
log_loop_lem (Piece.percent ∷ ps) rest args out = log_loop_lem ps rest args (out ++ (37 ∷ []))
log_loop_lem (c_word n ∷ ps) rest args out = log_loop_lem ps rest args (out ++ (n % 2 ^ 8 ∷ []))
log_loop_lem (x_word n ∷ ps) rest args out = log_loop_lem ps rest args (out ++ print_x (n % 2 ^ 32))
log_loop_lem (u_word n ∷ ps) rest args out =
    after-print (print_u (n % 2 ^ 32)) (args_of ps ++ args) out
      (λ o left. log_loop (format_of ps ++ rest) plain left o) (render ps)
      (λ o. log_loop rest plain args o) (log_loop_lem ps rest args)
log_loop_lem (d_word n ∷ ps) rest args out =
    after-print (print_d (n % 2 ^ 32)) (args_of ps ++ args) out
      (λ o left. log_loop (format_of ps ++ rest) plain left o) (render ps)
      (λ o. log_loop rest plain args o) (log_loop_lem ps rest args)
log_loop_lem (lx_word n ∷ ps) rest args out =
    log_loop_lem ps rest args (out ++ print_lx (n % 2 ^ 64))
log_loop_lem (lu_word n ∷ ps) rest args out =
    after-print (print_lu (n % 2 ^ 64)) (args_of ps ++ args) out
      (λ o left. log_loop (format_of ps ++ rest) plain left o) (render ps)
      (λ o. log_loop rest plain args o) (log_loop_lem ps rest args)
log_loop_lem (ld_word n ∷ ps) rest args out =
    after-print (print_ld (n % 2 ^ 64)) (args_of ps ++ args) out
      (λ o left. log_loop (format_of ps ++ rest) plain left o) (render ps)
      (λ o. log_loop rest plain args o) (log_loop_lem ps rest args)
log_loop_lem (s_string s ∷ ps) rest args out = log_loop_lem ps rest args (out ++ s)

-- A format that is put together from characters other than `%` and the directives that the log has, with
-- at least their arguments, is printed piece by piece behind the level, and `log_impl` returns 0;
-- if a directive's number printer faults, so does `log_impl`.
pub log_impl_lem :
    (level : LogLevel) (ps : List Piece) (args : List Argument)
    → log_impl level (format_of ps) (args_of ps ++ args)
      ≡ with_status (pos 0) (render ps (print_level level))
unfolding log_impl log_loop
log_impl_lem level ps args =
    rw (← append-nil (format_of ps)) (log_loop_lem ps [] args (print_level level))

-- The characters behind `%`, and behind `%l`, that the log treats.
abbrev pub is_short : ℕ → Bool
is_short c = c == 37 || c == 99 || c == 115 || c == 120 || c == 117 || c == 100 || c == 108

abbrev pub is_long : ℕ → Bool
is_long c = c == 120 || c == 117 || c == 100

-- What does not go on with a directive that is documented.
pub data IsUnknown : List ℕ → Type 0 where
  percent_end : IsUnknown (37 ∷ [])
  long_end : IsUnknown (37 ∷ 108 ∷ [])
  other_short : (c : ℕ) (cs : List ℕ) → is_short c ≡ false → IsUnknown (37 ∷ c ∷ cs)
  other_long : (c : ℕ) (cs : List ℕ) → is_long c ≡ false → IsUnknown (37 ∷ 108 ∷ c ∷ cs)

log_loop-unknown :
    (bad : List ℕ) (args : List Argument) (out : List ℕ)
    → IsUnknown bad
    → log_loop bad plain args out ≡ ok (negsuc 0, out)
unfolding log_loop print_short print_long
log_loop-unknown _ args out percent_end = refl
log_loop-unknown _ args out long_end = refl
log_loop-unknown _ args out (other_short c cs h) = ground arith
log_loop-unknown _ args out (other_long c cs h) = ground arith

-- A `%` or `%l` at the end of the format, or a directive that is not documented, ends `log_impl`
-- with -1, after what stands in front of it has been printed.
pub log_impl-unknown :
    (level : LogLevel) (ps : List Piece) (bad : List ℕ) (args : List Argument)
    → IsUnknown bad
    → log_impl level (format_of ps ++ bad) (args_of ps ++ args)
      ≡ with_status (negsuc 0) (render ps (print_level level))
unfolding log_impl
log_impl-unknown level ps bad args h =
    log_loop_lem ps bad args (print_level level)
    ∙ bind-ext (render ps (print_level level)) (λ o. log_loop bad plain args o)
        (λ o. ok (negsuc 0, o)) (λ out. log_loop-unknown bad args out h)
