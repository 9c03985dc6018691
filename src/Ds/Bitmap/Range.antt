-- ===== src/Ds/Bitmap/Range.antt =====
-- Setting and clearing a range of bits.
use cerberos.Base.{
  ℕ, zero, suc, ◌+◌, ◌*◌, ◌^◌, ◌≤◌, ◌≡◌, refl, ◌∙◌, arith, Bool, not, ◌&&◌, ◌||◌, length, ltb, leb,
}
use cerberos.Sys.{add64}
use cerberos.Ds.Bitmap.{Bitmap, bitmap_get, bitmap_set_range, bitmap_clear_range}
use cerberos.Ds.Bitmap.Access.{
  bitmap_get-bitmap_set, bitmap_get-bitmap_clear, length-bitmap_set, length-bitmap_clear,
  size-bitmap_set, size-bitmap_clear,
}

pub length-bitmap_set_range :
    (b : Bitmap) (i n : ℕ) → length (bitmap_set_range b i n).bytes ≡ length b.bytes
unfolding bitmap_set_range
length-bitmap_set_range b i zero = refl
length-bitmap_set_range b i (suc n) = length-bitmap_set _ _ ∙ length-bitmap_set_range b i n

pub length-bitmap_clear_range :
    (b : Bitmap) (i n : ℕ) → length (bitmap_clear_range b i n).bytes ≡ length b.bytes
unfolding bitmap_clear_range
length-bitmap_clear_range b i zero = refl
length-bitmap_clear_range b i (suc n) = length-bitmap_clear _ _ ∙ length-bitmap_clear_range b i n

pub size-bitmap_set_range : (b : Bitmap) (i n : ℕ) → (bitmap_set_range b i n).size ≡ b.size
unfolding bitmap_set_range
size-bitmap_set_range b i zero = refl
size-bitmap_set_range b i (suc n) = size-bitmap_set _ _ ∙ size-bitmap_set_range b i n

pub size-bitmap_clear_range : (b : Bitmap) (i n : ℕ) → (bitmap_clear_range b i n).size ≡ b.size
unfolding bitmap_clear_range
size-bitmap_clear_range b i zero = refl
size-bitmap_clear_range b i (suc n) = size-bitmap_clear _ _ ∙ size-bitmap_clear_range b i n

-- The index `j` lies in the `n` bits from `i` on.
abbrev pub in_range : ℕ → ℕ → ℕ → Bool
in_range i n j = leb i j && ltb j (i + n)

-- `bitmap_set_range` inside the array sets the bits of the range, and no other.
pub bitmap_get-bitmap_set_range :
    (b : Bitmap) (i n j : ℕ)
    → i + n ≤ 8 * length b.bytes
    → i + n ≤ 2 ^ 64
    → bitmap_get (bitmap_set_range b i n) j ≡ (in_range i n j || bitmap_get b j)
unfolding bitmap_set_range
bitmap_get-bitmap_set_range b i zero j h w = ground arith
bitmap_get-bitmap_set_range b i (suc n) j h w =
    let e : add64 i n ≡ i + n = omega arith in
    rw e (
      ground (
        arith,
        length-bitmap_set_range b i n,
        bitmap_get-bitmap_set (bitmap_set_range b i n) (i + n) j,
        bitmap_get-bitmap_set_range b i n j (omega arith) (omega arith),
      ))

-- `bitmap_clear_range` inside the array clears the bits of the range, and no other.
pub bitmap_get-bitmap_clear_range :
    (b : Bitmap) (i n j : ℕ)
    → i + n ≤ 8 * length b.bytes
    → i + n ≤ 2 ^ 64
    → bitmap_get (bitmap_clear_range b i n) j ≡ (not (in_range i n j) && bitmap_get b j)
unfolding bitmap_clear_range
bitmap_get-bitmap_clear_range b i zero j h w = ground arith
bitmap_get-bitmap_clear_range b i (suc n) j h w =
    let e : add64 i n ≡ i + n = omega arith in
    rw e (
      ground (
        arith,
        length-bitmap_clear_range b i n,
        bitmap_get-bitmap_clear (bitmap_clear_range b i n) (i + n) j,
        bitmap_get-bitmap_clear_range b i n j (omega arith) (omega arith),
      ))
