-- ===== src/Mm/Pmm/Count.antt =====
-- How many pages of a zone are free, and how a range that is taken or given back changes that.
use cerberos.Base.{
  ℕ, zero, suc, ◌+◌, ◌-◌, ◌*◌, ◌^◌, ◌≤◌, ◌<◌, ◌≡◌, arith, Bool, true, false, length, if◌then◌else◌,
}
use cerberos.Sys.{min_of}
use cerberos.Ds.Bitmap.{Bitmap, bitmap_get, bitmap_set_range, bitmap_clear_range}
use cerberos.Ds.Bitmap.Range.{bitmap_get-bitmap_set_range, bitmap_get-bitmap_clear_range}

-- The clear bits among the first `m`.
unfoldable pub count_free : Bitmap → ℕ → ℕ
count_free b zero = 0
count_free b (suc m) = count_free b m + (if bitmap_get b m then 0 else 1)

-- The part of the `n` indices from `i` on that is below `m`.
abbrev overlap : ℕ → ℕ → ℕ → ℕ
overlap i n m = min_of m (i + n) - i

-- Every bit of the range is `bit`.
abbrev pub AllBits : Bitmap → ℕ → ℕ → Bool → Type 0
AllBits b i n bit = (j : ℕ) → i ≤ j → j < i + n → bitmap_get b j ≡ bit

module _ (b : Bitmap) (i n : ℕ) (inside : i + n ≤ 8 * length b.bytes) (small : i + n ≤ 2 ^ 64) where
  count-set :
      (m : ℕ)
      → AllBits b i n false
      → count_free (bitmap_set_range b i n) m + overlap i n m ≡ count_free b m
  unfolding count_free
  count-set zero h = ground arith
  count-set (suc m) h =
      ground (arith, bitmap_get-bitmap_set_range b i n m inside small, count-set m h, h m)

  count-clear :
      (m : ℕ)
      → AllBits b i n true
      → count_free (bitmap_clear_range b i n) m ≡ count_free b m + overlap i n m
  unfolding count_free
  count-clear zero h = ground arith
  count-clear (suc m) h =
      ground (arith, bitmap_get-bitmap_clear_range b i n m inside small, count-clear m h, h m)

  -- Taking `n` free pages leaves that many fewer,
  pub count_free-bitmap_set_range :
      (m : ℕ)
      → i + n ≤ m
      → AllBits b i n false
      → count_free (bitmap_set_range b i n) m + n ≡ count_free b m
  count_free-bitmap_set_range m h free = ground (arith, count-set m free)

  -- and giving back `n` used pages that many more.
  pub count_free-bitmap_clear_range :
      (m : ℕ)
      → i + n ≤ m
      → AllBits b i n true
      → count_free (bitmap_clear_range b i n) m ≡ count_free b m + n
  count_free-bitmap_clear_range m h used = ground (arith, count-clear m used)

pub count_free-le : (b : Bitmap) (m : ℕ) → count_free b m ≤ m
unfolding count_free
count_free-le b zero = omega arith
count_free-le b (suc m) = ground (arith, count_free-le b m)
