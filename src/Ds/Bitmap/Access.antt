-- ===== src/Ds/Bitmap/Access.antt =====
-- A bitmap is an array of booleans: reading after a write.
use cerberos.Base.{
  ℕ, ◌+◌, ◌*◌, ◌/◌, ◌%◌, ◌^◌, ◌≤◌, ◌<◌, ◌≡◌, ◌≢◌, arith, not, ◌&&◌, ◌||◌, length, length-set,
  get_or, get_or-set_self, get_or-set_ne, ◌==◌, Bool-cases, inl, inr, refl,
}
use cerberos.Bits.{test_bit}
use cerberos.Bits.Laws.{test_bit-bit_and, test_bit-bit_or, test_bit-bit_not, test_bit-pow}
use cerberos.Bits.Masks.{test_bit-mod, pow_mono}
use cerberos.Bits.Single.{masked_bit}
use cerberos.Ds.Bitmap.{Bitmap, bitmap_set, bitmap_clear, bitmap_get, bitmap_size_bytes}

-- Every bit below the size has its byte.
abbrev pub Fits : Bitmap → Type 0
Fits b = b.size ≤ 8 * length b.bytes

-- The bit that `bitmap_get` reads.
pub bitmap_get_lem :
    (b : Bitmap) (i : ℕ) → bitmap_get b i ≡ test_bit (get_or b.bytes (i / 8) 0) (i % 8)
unfolding bitmap_get
bitmap_get_lem b i = masked_bit _ _

-- Two bits are the same iff their byte and their place in it are.
same_place : (i j : ℕ) → (i == j) ≡ ((i / 8 == j / 8) && (i % 8 == j % 8))
same_place i j = ground arith

-- `bitmap_set` sets its bit, and no other.
pub bitmap_get-bitmap_set :
    (b : Bitmap) (i j : ℕ)
    → i < 8 * length b.bytes
    → bitmap_get (bitmap_set b i) j ≡ ((i == j) || bitmap_get b j)
unfolding bitmap_set
bitmap_get-bitmap_set b i j h =
    rw (bitmap_get_lem, bitmap_get_lem b j, same_place i j)
      (elim (Bool-cases (i / 8 == j / 8)) [
        | inl e ↦
            let q : i / 8 ≡ j / 8 = ground arith in
            rw (q, get_or-set_self b.bytes (j / 8) _ 0 (omega arith))
              (simp (test_bit-mod, test_bit-bit_or, test_bit-pow) (ground arith))
        | inr e ↦
            let q : i / 8 ≢ j / 8 = ground arith in
            rw (get_or-set_ne b.bytes (i / 8) (j / 8) _ 0 q, e)
      ])

-- `bitmap_clear` clears its bit, and no other.
pub bitmap_get-bitmap_clear :
    (b : Bitmap) (i j : ℕ)
    → i < 8 * length b.bytes
    → bitmap_get (bitmap_clear b i) j ≡ (not (i == j) && bitmap_get b j)
unfolding bitmap_clear
bitmap_get-bitmap_clear b i j h =
    rw (bitmap_get_lem, bitmap_get_lem b j, same_place i j)
      (elim (Bool-cases (i / 8 == j / 8)) [
        | inl e ↦
            let q : i / 8 ≡ j / 8 = ground arith in
            rw (q, get_or-set_self b.bytes (j / 8) _ 0 (omega arith))
              (simp
                (
                  test_bit-mod,
                  test_bit-bit_and,
                  test_bit-bit_not 32 (2 ^ (i % 8)) (j % 8) (pow_mono (i % 8) 32 (omega arith)),
                  test_bit-pow,
                )
                (ground arith))
        | inr e ↦
            let q : i / 8 ≢ j / 8 = ground arith in
            rw (get_or-set_ne b.bytes (i / 8) (j / 8) _ 0 q, e)
      ])

pub length-bitmap_set : (b : Bitmap) (i : ℕ) → length (bitmap_set b i).bytes ≡ length b.bytes
unfolding bitmap_set
length-bitmap_set b i = length-set b.bytes _ _

pub length-bitmap_clear : (b : Bitmap) (i : ℕ) → length (bitmap_clear b i).bytes ≡ length b.bytes
unfolding bitmap_clear
length-bitmap_clear b i = length-set b.bytes _ _

pub size-bitmap_set : (b : Bitmap) (i : ℕ) → (bitmap_set b i).size ≡ b.size
unfolding bitmap_set
size-bitmap_set b i = refl

pub size-bitmap_clear : (b : Bitmap) (i : ℕ) → (bitmap_clear b i).size ≡ b.size
unfolding bitmap_clear
size-bitmap_clear b i = refl

-- `bitmap_size_bytes` is the least number of bytes that holds every bit.
pub bitmap_size_bytes_lem :
    (b : Bitmap) → (b.size ≤ 8 * bitmap_size_bytes b) × (8 * bitmap_size_bytes b < b.size + 8)
unfolding bitmap_size_bytes
bitmap_size_bytes_lem b = ground arith
