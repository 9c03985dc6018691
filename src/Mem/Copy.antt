-- ===== src/Mem/Copy.antt =====
-- What `memcpy`, `memmove` and `memset` leave at each address.
use cerberos.Base.{
  ℕ, zero, suc, ◌+◌, ◌-◌, ◌%◌, ◌^◌, ◌≤◌, ◌<◌, ◌≡◌, ◌⊎◌, inl, inr, refl, ◌∙◌, ap, arith, Bool, true,
  false, ◌&&◌, List, [], ◌∷◌, ◌++◌, length, length-append, get_or, if◌then◌else◌, ◌==◌, ltb, leb,
  Bool-cases,
}
use cerberos.Mem.{Memory, memcpy, memmove, memset, fill_temp, copy_temp}

-- `x` is one of the `n` addresses from `a` on.
abbrev pub within : ℕ → ℕ → ℕ → Bool
within a n x = leb a x && ltb x (a + n)

-- The copy of `n` bytes from `src` to `dest`, as an array assignment all at once.
abbrev pub copied : Memory → ℕ → ℕ → ℕ → ℕ → ℕ
copied m dest src n x = if within dest n x then m (src + (x - dest)) else m x

length-fill_temp : (m : Memory) (src n : ℕ) → length (fill_temp m src n) ≡ n
unfolding fill_temp
length-fill_temp m src zero = refl
length-fill_temp m src (suc n) =
    omega (arith, length-append (fill_temp m src n) (m (src + n) ∷ []), length-fill_temp m src n)

get_or-append :
    (xs : List ℕ) (y i d : ℕ)
    → get_or (xs ++ (y ∷ [])) i d ≡ (if length xs == i then y else get_or xs i d)
get_or-append [] y zero d = refl
get_or-append [] y (suc i) d = ground arith
get_or-append (x ∷ xs) y zero d = ground arith
get_or-append (x ∷ xs) y (suc i) d = ground (arith, get_or-append xs y i d)

get_or-fill_temp : (m : Memory) (src n i : ℕ) → i < n → get_or (fill_temp m src n) i 0 ≡ m (src + i)
unfolding fill_temp
get_or-fill_temp m src zero i h = absurd (omega arith)
get_or-fill_temp m src (suc n) i h = elim (Bool-cases (n == i)) [
  | inl e ↦
      let q : n ≡ i = ground arith in
      ground (arith, last, length-fill_temp m src n, ap (λ k. m (src + k)) q)
  | inr ne ↦ ground (arith, last, length-fill_temp m src n, get_or-fill_temp m src n i)
]
  where
    last :
        get_or (fill_temp m src n ++ (m (src + n) ∷ [])) i 0
        ≡ (if length (fill_temp m src n) == i then m (src + n) else get_or (fill_temp m src n) i 0)
    last = get_or-append (fill_temp m src n) (m (src + n)) i 0

copy_temp_lem :
    (m : Memory) (dest n : ℕ) (temp : List ℕ) (x : ℕ)
    → copy_temp m dest temp n x ≡ (if within dest n x then get_or temp (x - dest) 0 else m x)
unfolding copy_temp
copy_temp_lem m dest zero temp x = ground arith
copy_temp_lem m dest (suc n) temp x = elim (Bool-cases (dest + n == x)) [
  | inl e ↦
      let q : x - dest ≡ n = ground arith in
      let here : within dest (suc n) x ≡ true = ground arith in rw (e, here, q)
  | inr ne ↦
      let same : within dest (suc n) x ≡ within dest n x = ground arith in
      rw (ne, same) (copy_temp_lem m dest n temp x)
]

-- `memmove` copies correctly whether or not the two buffers overlap, and writes nowhere else.
pub memmove_lem : (m : Memory) (dest src n x : ℕ) → memmove m dest src n x ≡ copied m dest src n x
unfolding memmove
memmove_lem m dest src n x = copy_temp_lem m dest n (fill_temp m src n) x ∙ read
  where
    read :
        (if within dest n x then get_or (fill_temp m src n) (x - dest) 0 else m x)
        ≡ copied m dest src n x
    read = elim (Bool-cases (within dest n x)) [
      | inl e ↦ rw e (get_or-fill_temp m src n (x - dest) (ground arith))
      | inr e ↦ rw e
    ]

-- `memcpy` copies correctly where `dest` does not lie inside the source behind its start, that is,
-- where the buffers are disjoint or the copy goes downwards; it writes nowhere else.
pub memcpy_lem :
    (m : Memory) (dest src n x : ℕ)
    → (dest ≤ src) ⊎ (src + n ≤ dest)
    → memcpy m dest src n x ≡ copied m dest src n x
unfolding memcpy
memcpy_lem m dest src zero x apart = ground arith
memcpy_lem m dest src (suc n) x apart = elim (Bool-cases (dest + n == x)) [
  | inl e ↦
      let q : x - dest ≡ n = ground arith in
      let here : within dest (suc n) x ≡ true = ground arith in
      let unread : within dest n (src + n) ≡ false = before n apart in
      rw (e, here, q) (memcpy_lem m dest src n (src + n) (less n apart) ∙ (rw unread))
  | inr ne ↦
      let same : within dest (suc n) x ≡ within dest n x = ground arith in
      rw (ne, same) (memcpy_lem m dest src n x (less n apart))
]
  where
    less : (n : ℕ) → (dest ≤ src) ⊎ (src + suc n ≤ dest) → (dest ≤ src) ⊎ (src + n ≤ dest)
    less n (inl h) = inl h
    less n (inr h) = inr (omega arith)

    before : (n : ℕ) → (dest ≤ src) ⊎ (src + suc n ≤ dest) → within dest n (src + n) ≡ false
    before n (inl h) = ground arith
    before n (inr h) = ground arith

-- `memset` fills its buffer, and writes nowhere else.
pub memset_lem :
    (m : Memory) (buf c n x : ℕ) → memset m buf c n x ≡ (if within buf n x then c % 2 ^ 8 else m x)
unfolding memset
memset_lem m buf c zero x = ground arith
memset_lem m buf c (suc n) x = ground (arith, memset_lem m buf c n x)
