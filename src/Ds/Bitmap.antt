-- ===== src/Ds/Bitmap.antt =====
-- src/lib/include/ds/bitmap.h and src/lib/ds/bitmap.c: a bitmap over an array of bytes.
-- The array is a list: a read out of range gives 0 and a write out of range is lost, and
-- `Fits` (in `Bitmap.Access`) rules both out.
pub mod Access
pub mod Range
pub mod Find
mod Tests
use cerberos.Base.{
  ℕ, zero, suc, ◌+◌, ◌-◌, ◌*◌, ◌/◌, ◌%◌, ◌^◌, bit_and, bit_or, Bool, not, ◌&&◌, List, get_or, set,
  length, if◌then◌else◌, ◌==◌, ltb,
}
use cerberos.Bits.{bit_not}
use cerberos.Sys.{add64, minus_one}

-- `bitmap_t`; the field `data` is `bytes` here.
pub record Bitmap : Type 0 where
  pub size : ℕ
  pub bytes : List ℕ

get_byte_index : ℕ → ℕ
get_byte_index bit = bit / 8

get_bit_index : ℕ → ℕ
get_bit_index bit = bit % 8

-- The byte is stored back as a `uint8_t`.
unfoldable pub bitmap_set : Bitmap → ℕ → Bitmap
unfolding get_byte_index get_bit_index
bitmap_set bitmap bit =
    let byte_index = get_byte_index bit in
    let bit_index = get_bit_index bit in
    record bitmap {
      bytes =
          set bitmap.bytes byte_index
            (bit_or (get_or bitmap.bytes byte_index 0) (2 ^ bit_index) % 2 ^ 8);
    }

-- `~(1 << bit_index)` is a 32-bit `int`.
unfoldable pub bitmap_clear : Bitmap → ℕ → Bitmap
unfolding get_byte_index get_bit_index
bitmap_clear bitmap bit =
    let byte_index = get_byte_index bit in
    let bit_index = get_bit_index bit in
    record bitmap {
      bytes =
          set bitmap.bytes byte_index
            (bit_and (get_or bitmap.bytes byte_index 0) (bit_not 32 (2 ^ bit_index)) % 2 ^ 8);
    }

unfoldable pub bitmap_get : Bitmap → ℕ → Bool
unfolding get_byte_index get_bit_index
bitmap_get bitmap bit =
    not (bit_and (get_or bitmap.bytes (get_byte_index bit) 0) (2 ^ get_bit_index bit) == 0)

-- The loop `for (i = 0; i < num_bits; i++)`: the rounds before the last one, then the last.
unfoldable pub bitmap_set_range : Bitmap → ℕ → ℕ → Bitmap
bitmap_set_range bitmap bit zero = bitmap
bitmap_set_range bitmap bit (suc i) = bitmap_set (bitmap_set_range bitmap bit i) (add64 bit i)

unfoldable pub bitmap_clear_range : Bitmap → ℕ → ℕ → Bitmap
bitmap_clear_range bitmap bit zero = bitmap
bitmap_clear_range bitmap bit (suc i) = bitmap_clear (bitmap_clear_range bitmap bit i) (add64 bit i)

unfoldable pub bitmap_size_bytes : Bitmap → ℕ
bitmap_size_bytes bitmap = bitmap.size / 8 + (if bitmap.size % 8 == 0 then 0 else 1)

-- `==` on `bool`
abbrev pub same_bit : Bool → Bool → Bool
same_bit a b = if a then b else not b

-- The loop of `bitmap_find_range`, on the rounds that are left. `idx` is below the size, so that
-- `idx++` does not wrap, and neither does `found_length++`.
find_range_loop : Bitmap → Bool → ℕ → ℕ → ℕ → ℕ → ℕ → ℕ
find_range_loop bitmap bit length zero idx found_length found_idx = minus_one
find_range_loop bitmap bit length (suc rounds) idx found_length found_idx =
    let hit = same_bit (bitmap_get bitmap idx) bit in
    let found_idx' = if hit then (if found_length == 0 then idx else found_idx) else minus_one in
    let found_length' = if hit then found_length + 1 else 0 in
    let rest = find_range_loop bitmap bit length rounds (idx + 1) found_length' found_idx' in
    if found_length' == length then found_idx' else rest

unfoldable pub bitmap_find_range : Bitmap → ℕ → Bool → ℕ → ℕ
unfolding find_range_loop
bitmap_find_range bitmap first_idx bit length =
    find_range_loop bitmap bit length (bitmap.size - first_idx) first_idx 0 minus_one
