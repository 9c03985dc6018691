-- ===== src/Ds/Map/Find.antt =====
-- The search of a bucket for a key, and what it reads of the memory.
use cerberos.Base.{
  ℕ, zero, suc, ◌+◌, ◌-◌, ◌≤◌, ◌<◌, ◌≡◌, ◌⊎◌, inl, inr, refl, ap, arith, Bool, true, false, Option,
  none, some, ◌==◌, Bool-cases,
}
use cerberos.Base.Result.{ok}
use cerberos.Sys.{minus_one}
use cerberos.Mem.{Memory, memcpy, memcmp, strncmp}
use cerberos.Mem.Copy.{memcpy_lem}
use cerberos.Ds.Vector.{vector_get}
use cerberos.Ds.Vector.Elements.{IsVector}
use cerberos.Ds.Map.{MapPair, Bucket, hash_loop, find_pair, is_zero}

-- The `n` bytes from `a` on and the `k` bytes from `b` on do not overlap.
abbrev pub Apart : ℕ → ℕ → ℕ → ℕ → Type 0
Apart a n b k = (a + n ≤ b) ⊎ (b + k ≤ a)

-- The two memories agree on the `n` bytes from `a` on.
abbrev pub SameBytes : Memory → Memory → ℕ → ℕ → Type 0
SameBytes m m' a n = (i : ℕ) → i < n → m' (a + i) ≡ m (a + i)

SameBytes-tail : (m m' : Memory) (a n : ℕ) → SameBytes m m' a (suc n) → SameBytes m m' (a + 1) n
SameBytes-tail m m' a n same i lt =
    let e : a + 1 + i ≡ a + suc i = omega arith in rw (e) (same (suc i) (omega arith))

SameBytes-head : (m m' : Memory) (a n : ℕ) → SameBytes m m' a (suc n) → m' a ≡ m a
SameBytes-head m m' a n same = let e : a + 0 ≡ a = omega arith in rw (e) at (same 0 (omega arith))

pub memcmp-same :
    (m m' : Memory) (n a b : ℕ)
    → SameBytes m m' a n
    → SameBytes m m' b n
    → memcmp m' a b n ≡ memcmp m a b n
unfolding memcmp strncmp
memcmp-same m m' zero a b p q = refl
memcmp-same m m' (suc n) a b p q =
    let rest =
      memcmp-same m m' n (a + 1) (b + 1) (SameBytes-tail m m' a n p) (SameBytes-tail m m' b n q) in
    let pa = SameBytes-head m m' a n p in
    let qb = SameBytes-head m m' b n q in rw (pa, qb, rest) refl

pub hash_loop-same :
    (m m' : Memory) (n a hash : ℕ)
    → SameBytes m m' a n
    → hash_loop m' a n hash ≡ hash_loop m a n hash
unfolding hash_loop
hash_loop-same m m' zero a hash p = refl
hash_loop-same m m' (suc n) a hash p =
    let pa = SameBytes-head m m' a n p in
    rw (pa) (hash_loop-same m m' n (a + 1) _ (SameBytes-tail m m' a n p))

pub memcpy-SameBytes :
    (m : Memory) (dest src n a k : ℕ)
    → Apart src n dest n
    → Apart a k dest n
    → SameBytes m (memcpy m dest src n) a k
memcpy-SameBytes m dest src n a k ap off i lt =
    let e =
      memcpy_lem m dest src n (a + i) (elim ap [ inl h ↦ inr h | inr h ↦ inl (omega arith) ]) in
    ground arith

pub memcpy_copies :
    (m : Memory) (dest src n i : ℕ)
    → Apart src n dest n
    → i < n
    → memcpy m dest src n (dest + i) ≡ m (src + i)
memcpy_copies m dest src n i ap lt =
    let e =
      memcpy_lem m dest src n (dest + i) (elim ap [ inl h ↦ inr h | inr h ↦ inl (omega arith) ]) in
    let back : dest + i - dest ≡ i = omega arith in ground arith

-- The pair at index `i` has a key that `memcmp` finds equal.
abbrev pub pair_matches : Memory → ℕ → ℕ → Option MapPair → Bool
pair_matches m key n o = elim o [ none ↦ false | some pair ↦ is_zero (memcmp m key pair.key n) ]

abbrev pub matches : Memory → Bucket → ℕ → ℕ → ℕ → Bool
matches m bucket key n i = pair_matches m key n (vector_get bucket i)

-- Each place of the bucket below its size holds a pair.
abbrev pub Filled : Bucket → Type 0
Filled b = (i : ℕ) → i < b.size → (p : MapPair) × (vector_get b i ≡ some p)

pub record IsFilled (b : Bucket) : Type 0 where
  pub vector : IsVector b
  pub filled : Filled b

-- The search ends at the first pair that matches.
pub find_pair-first :
    (m : Memory) (b : Bucket) (key n i rounds k : ℕ)
    → Filled b
    → i ≤ k
    → k < i + rounds
    → k < b.size
    → ((j : ℕ) → i ≤ j → j < k → matches m b key n j ≡ false)
    → matches m b key n k ≡ true
    → find_pair m b key n i rounds ≡ ok k
unfolding find_pair
find_pair-first m b key n i zero k f le lt small no_one hit = absurd (omega arith)
find_pair-first m b key n i (suc rounds) k f le lt small no_one hit =
    let (p, e) = f i (omega arith) in
    elim (Bool-cases (i == k)) [
      | inl here ↦ (let same : i ≡ k = ground arith in ground arith)
      | inr later ↦
          let rest =
            find_pair-first m b key n (i + 1) rounds k f (ground arith) (omega arith) small
              (λ j l1 l2. no_one j (omega arith) l2) hit in
          let miss = no_one i (omega arith) (ground arith) in ground arith
    ]

pub find_pair-none :
    (m : Memory) (b : Bucket) (key n i rounds : ℕ)
    → Filled b
    → i + rounds ≤ b.size
    → ((j : ℕ) → i ≤ j → j < i + rounds → matches m b key n j ≡ false)
    → find_pair m b key n i rounds ≡ ok minus_one
unfolding find_pair
find_pair-none m b key n i zero f le no_one = refl
find_pair-none m b key n i (suc rounds) f le no_one =
    let (p, e) = f i (omega arith) in
    let miss = no_one i (omega arith) (omega arith) in
    let rest =
      find_pair-none m b key n (i + 1) rounds f (omega arith)
        (λ j l1 l2. no_one j (omega arith) (omega arith)) in
    ground arith

-- Either nothing matches, or there is a first pair that does.
pub first-match :
    (m : Memory) (b : Bucket) (key n k : ℕ)
    → ((j : ℕ) → j < k → matches m b key n j ≡ false)
      ⊎ ((i : ℕ) × (i < k)
          × (matches m b key n i ≡ true)
          × ((j : ℕ) → j < i → matches m b key n j ≡ false))
first-match m b key n zero = inl (λ j lt. absurd (omega arith))
first-match m b key n (suc k) = elim (first-match m b key n k) [
  | inr q ↦ inr (q.0, omega arith, q.2, q.3)
  | inl no_one ↦ elim (Bool-cases (matches m b key n k)) [
    | inl hit ↦ inr (k, omega arith, hit, no_one)
    | inr miss ↦ inl (λ j lt. elim (Bool-cases (j == k)) [
      | inl e ↦ (let same : j ≡ k = ground arith in rw (same) miss)
      | inr o ↦ no_one j (ground arith)
    ])
  ]
]
