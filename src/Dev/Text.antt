-- ===== src/Dev/Text.antt =====
-- src/kernel/dev/text.c, src/kernel/include/dev/text.h
use cerberos.Base.{
  ℕ, ◌+◌, ◌*◌, ◌/◌, ◌%◌, ◌^◌, ◌<◌, bit_or, ◌≡◌, ◌≢◌, arith, List, [], ◌∷◌, if◌then◌else◌, ◌==◌,
}
use cerberos.Bits.Fields.{bit_or-fields}

-- `text_color_t`
pub data TextColor : Type 0 where
  black blue green cyan red magenta brown light_grey : TextColor
  dark_grey light_blue light_green light_cyan light_red light_magenta light_brown white : TextColor

-- The values of the enumeration.
abbrev pub color : TextColor → ℕ
color black = 0
color blue = 1
color green = 2
color cyan = 3
color red = 4
color magenta = 5
color brown = 6
color light_grey = 7
color dark_grey = 8
color light_blue = 9
color light_green = 10
color light_cyan = 11
color light_red = 12
color light_magenta = 13
color light_brown = 14
color white = 15

-- The buffer of the screen, by cells of 16 bits.
pub text_write : (ℕ → ℕ) → ℕ → ℕ → ℕ → ℕ → ℕ → ℕ
text_write text_buffer loc c fg bg x =
    if x == loc then bit_or (bit_or c (fg * 2 ^ 8)) (bg * 2 ^ 12) % 2 ^ 16 else text_buffer x

-- TEXT_CMD_PORT with HIGH_BYTE_CMD and LOW_BYTE_CMD, and TEXT_DATA_PORT
pub move_cursor : ℕ → List (ℕ × ℕ)
move_cursor loc =
    (0x3d4, 14) ∷ (0x3d5, loc / 2 ^ 8 % 2 ^ 8) ∷ (0x3d4, 15) ∷ (0x3d5, loc % 2 ^ 8) ∷ []

-- `text_write` of a character in two colours writes one cell, with the character in its low byte and
-- the colours in the four bits above and the four bits above those.
pub text_write_lem :
    (text_buffer : ℕ → ℕ) (loc c fg bg : ℕ)
    → c < 2 ^ 8
    → fg < 2 ^ 4
    → bg < 2 ^ 4
    → (text_write text_buffer loc c fg bg loc ≡ c + 2 ^ 8 * fg + 2 ^ 12 * bg)
      × ((x : ℕ) → x ≢ loc → text_write text_buffer loc c fg bg x ≡ text_buffer x)
unfolding text_write
text_write_lem text_buffer loc c fg bg hc hf hb =
    let low = bit_or-fields 8 c fg hc in
    let high = bit_or-fields 12 (c + fg * 2 ^ 8) bg (omega arith) in
    let e : bit_or (bit_or c (fg * 2 ^ 8)) (bg * 2 ^ 12) ≡ c + fg * 2 ^ 8 + bg * 2 ^ 12 =
      rw (low) high in
    (ground arith, λ x o. ground arith)
