-- ===== src/Ds/Bitmap/Find.antt =====
-- `bitmap_find_range` finds the first run of equal bits that is long enough, if there is one.
use cerberos.Base.{
  ℕ, zero, suc, ◌+◌, ◌-◌, ◌≤◌, ◌<◌, ◌≡◌, ◌≢◌, ◌⊎◌, inl, inr, refl, arith, Bool, true, false, ◌==◌,
  ltb, leb, Bool-cases, if◌then◌else◌,
}
use cerberos.Sys.{minus_one}
use cerberos.Ds.Bitmap.{Bitmap, bitmap_get, same_bit, find_range_loop, bitmap_find_range}

pub same_bit_iff : (a b : Bool) → same_bit a b ≡ true → a ≡ b
same_bit_iff true true h = refl
same_bit_iff true false h = cc
same_bit_iff false true h = cc
same_bit_iff false false h = refl

same_bit_refl : (b : Bool) → same_bit b b ≡ true
same_bit_refl true = refl
same_bit_refl false = refl

-- At `i` begins a run of `length` bits that are all `bit`, inside the bitmap.
pub record IsRun (b : Bitmap) (first : ℕ) (bit : Bool) (length i : ℕ) : Type 0 where
  pub after : first ≤ i
  pub inside : i + length ≤ b.size
  pub all : (j : ℕ) → i ≤ j → j < i + length → bitmap_get b j ≡ bit

abbrev pub IsFirstRun : Bitmap → ℕ → Bool → ℕ → ℕ → Type 0
IsFirstRun b first bit length r =
    ((r ≡ minus_one) × ((i : ℕ) → ¬ IsRun b first bit length i))
    ⊎ (IsRun b first bit length r × ((i : ℕ) → IsRun b first bit length i → r ≤ i))

module _ (b : Bitmap) (first : ℕ) (bit : Bool) (length : ℕ) (some_bits : 0 < length) where
  -- What the loop knows at `idx`: the `n` bits before it are a run, and none begins earlier.
  record Scanned (idx n found : ℕ) : Type 0 where
    room : first + n ≤ idx
    short : n < length
    start : n ≢ 0 → found ≡ idx - n
    run : (j : ℕ) → idx - n ≤ j → j < idx → bitmap_get b j ≡ bit
    earlier : (i : ℕ) → i < idx - n → ¬ IsRun b first bit length i

  scan-miss :
      {idx n found : ℕ}
      → Scanned idx n found
      → same_bit (bitmap_get b idx) bit ≡ false
      → Scanned (idx + 1) 0 minus_one
  scan-miss {idx} {n} s miss = record {
    room = omega (arith, s.room);
    short = some_bits;
    start = λ h. absurd (h refl);
    run = λ j lo hi. absurd (omega arith);
    earlier = λ i lt r. elim (Bool-cases (ltb i (idx - n))) [
      | inl before ↦ s.earlier i (ground arith) r
      | inr from ↦
          let e : bitmap_get b idx ≡ bit =
            r.all idx (omega arith) (ground (arith, s.short, s.room)) in
          ground (arith, same_bit_refl bit)
    ];
  }

  scan-hit :
      {idx n found : ℕ}
      → Scanned idx n found
      → same_bit (bitmap_get b idx) bit ≡ true
      → n + 1 ≢ length
      → Scanned (idx + 1) (n + 1) (if n == 0 then idx else found)
  scan-hit {idx} {n} {found} s hit more = record {
    room = omega (arith, s.room);
    short = omega (arith, s.short);
    start = λ _. ground (arith, s.start, s.room);
    run = λ j lo hi. elim (Bool-cases (j == idx)) [
      | inl e ↦ let q : j ≡ idx = ground arith in rw q (same_bit_iff _ _ hit)
      | inr ne ↦ s.run j (omega (arith, s.room)) (ground arith)
    ];
    earlier = λ i lt. s.earlier i (omega (arith, s.room));
  }

  scan-end :
      {idx n found : ℕ}
      → Scanned idx n found
      → same_bit (bitmap_get b idx) bit ≡ true
      → n + 1 ≡ length
      → idx < b.size
      → IsFirstRun b first bit length (if n == 0 then idx else found)
  scan-end {idx} {n} {found} s hit done below =
      let at : (if n == 0 then idx else found) ≡ idx - n = ground (arith, s.start, s.room) in
      rw at (
        inr (
          record {
            after = omega (arith, s.room);
            inside = omega (arith, s.room);
            all = λ j lo hi. elim (Bool-cases (j == idx)) [
              | inl e ↦ let q : j ≡ idx = ground arith in rw q (same_bit_iff _ _ hit)
              | inr ne ↦ s.run j lo (ground (arith, s.room))
            ];
          },
          λ i r. elim (Bool-cases (ltb i (idx - n))) [
            | inl before ↦ absurd (s.earlier i (ground arith) r)
            | inr from ↦ ground arith
          ],
        ))

  find_range_loop_lem :
      (rounds idx n found : ℕ)
      → Scanned idx n found
      → idx + rounds ≡ b.size
      → IsFirstRun b first bit length (find_range_loop b bit length rounds idx n found)
  unfolding find_range_loop
  find_range_loop_lem zero idx n found s e = inl (
    refl,
    λ i r. elim (Bool-cases (ltb i (idx - n))) [
      | inl before ↦ s.earlier i (ground arith) r
      | inr from ↦ ground (arith, r.inside, s.short, s.room)
    ],
  )
  find_range_loop_lem (suc rounds) idx n found s e =
      elim (Bool-cases (same_bit (bitmap_get b idx) bit)) [
        | inl hit ↦ rw hit (elim (Bool-cases (n + 1 == length)) [
          | inl done ↦ rw done (scan-end s hit (ground arith) (omega arith))
          | inr more ↦ rw more (
              find_range_loop_lem rounds (idx + 1) (n + 1) _ (scan-hit s hit (ground arith))
                (omega arith))
        ])
        | inr miss ↦
            let ne : (0 == length) ≡ false = ground arith in
            rw (miss, ne)
              (find_range_loop_lem rounds (idx + 1) 0 minus_one (scan-miss s miss) (omega arith))
      ]

  -- `bitmap_find_range` returns the least index of a run of `length` bits that are `bit`, at or
  -- after `first`, or `(size_t) -1` if there is none.
  pub bitmap_find_range_lem : IsFirstRun b first bit length (bitmap_find_range b first bit length)
  unfolding bitmap_find_range
  bitmap_find_range_lem = elim (Bool-cases (leb first b.size)) [
    | inl le ↦ find_range_loop_lem (b.size - first) first 0 minus_one before (ground arith)
    | inr gt ↦
        let e : b.size - first ≡ 0 = ground arith in
        rw e (inl (refl, λ i r. ground (arith, r.inside, r.after)))
  ]
    where
      before : Scanned first 0 minus_one
      before = record {
        room = omega arith;
        short = some_bits;
        start = λ h. absurd (h refl);
        run = λ j lo hi. absurd (omega arith);
        earlier = λ i lt r. ground (arith, r.after);
      }

find_range_loop-zero :
    (b : Bitmap) (bit : Bool) (rounds idx n found : ℕ)
    → find_range_loop b bit 0 rounds idx n found ≡ minus_one
unfolding find_range_loop
find_range_loop-zero b bit zero idx n found = refl
find_range_loop-zero b bit (suc rounds) idx n found =
    elim (Bool-cases (same_bit (bitmap_get b idx) bit)) [
      | inl hit ↦
          let ne : (n + 1 == 0) ≡ false = ground arith in
          rw (hit, ne) (find_range_loop-zero b bit rounds (idx + 1) (n + 1) _)
      | inr miss ↦ rw miss
    ]

-- A range of no bits is never found.
pub bitmap_find_range-zero :
    (b : Bitmap) (first : ℕ) (bit : Bool) → bitmap_find_range b first bit 0 ≡ minus_one
unfolding bitmap_find_range
bitmap_find_range-zero b first bit = find_range_loop-zero b bit (b.size - first) first 0 minus_one
