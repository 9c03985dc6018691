-- ===== src/Mem/Compare.antt =====
-- When `strncmp` and `memcmp` say that two buffers are equal.
use cerberos.Base.{
  ℕ, zero, suc, ◌+◌, ◌≤◌, ◌<◌, ◌≡◌, ◌≢◌, ◌↔◌, inl, inr, refl, arith, not, ◌&&◌, ◌==◌, Bool-cases,
}
use cerberos.Base.Int.{pos, sub_ℕ}
use cerberos.Mem.{Memory, strncmp, memcmp}

-- The two buffers agree at every place up to the first zero byte of the first, that place included.
abbrev pub SameText : Memory → ℕ → ℕ → ℕ → Type 0
SameText m a b n = (i : ℕ) → i < n → ((j : ℕ) → j < i → m (a + j) ≢ 0) → m (a + i) ≡ m (b + i)

sub_ℕ-zero : (x y : ℕ) → sub_ℕ x y ≡ pos 0 → x ≡ y
sub_ℕ-zero x y h = ground arith

sub_ℕ_self : (x : ℕ) → sub_ℕ x x ≡ pos 0
sub_ℕ_self x = ground arith

next : (m : Memory) (a b i : ℕ) → m (a + 1 + i) ≡ m (b + 1 + i) → m (a + suc i) ≡ m (b + suc i)
next m a b i h =
    let p : a + suc i ≡ a + 1 + i = omega arith in
    let q : b + suc i ≡ b + 1 + i = omega arith in rw (p, q) h

sound : (m : Memory) (n a b : ℕ) → strncmp m a b n ≡ pos 0 → SameText m a b n
unfolding strncmp
sound m zero a b h i lt live = absurd (omega arith)
sound m (suc n) a b h zero lt live =
    let p : a + 0 ≡ a = omega arith in
    let q : b + 0 ≡ b = omega arith in
    rw (p, q)
      (elim (Bool-cases (not (m a == 0) && (m a == m b))) [
        | inl go ↦ ground arith
        | inr stop ↦ sub_ℕ-zero (m a) (m b) (rw stop at h)
      ])
sound m (suc n) a b h (suc i) lt live =
    let p : a + 0 ≡ a = omega arith in
    let alive : m a ≢ 0 = rw p at (live 0 (omega arith)) in
    elim (Bool-cases (not (m a == 0) && (m a == m b))) [
      | inl go ↦ next m a b i (
          sound m n (a + 1) (b + 1) (rw go at h) i (omega arith) λ j lt'.
            let r : a + 1 + j ≡ a + suc j = omega arith in rw r (live (suc j) (omega arith)))
      | inr stop ↦ let same : m a ≡ m b = sub_ℕ-zero (m a) (m b) (rw stop at h) in ground arith
    ]

complete : (m : Memory) (n a b : ℕ) → SameText m a b n → strncmp m a b n ≡ pos 0
unfolding strncmp
complete m zero a b h = refl
complete m (suc n) a b h =
    let p : a + 0 ≡ a = omega arith in
    let q : b + 0 ≡ b = omega arith in
    let same : m a ≡ m b = rw (p, q) at (h 0 (omega arith) (λ j lt. absurd (omega arith))) in
    elim (Bool-cases (not (m a == 0) && (m a == m b))) [
      | inl go ↦ rw go (
          complete m n (a + 1) (b + 1) λ i lt live.
            let r : a + 1 + i ≡ a + suc i = omega arith in
            let s : b + 1 + i ≡ b + suc i = omega arith in
            rw (r, s) (h (suc i) (omega arith) (live_before live i (omega arith) (ground arith))))
      | inr stop ↦ rw (stop, same) (sub_ℕ_self (m b))
    ]
  where
    live_before :
        {i : ℕ}
        → ((j : ℕ) → j < i → m (a + 1 + j) ≢ 0)
        → (k : ℕ) → k ≤ i
        → m a ≢ 0
        → (j : ℕ) → j < suc k
        → m (a + j) ≢ 0
    live_before live k le alive zero lt = let p : a + 0 ≡ a = omega arith in rw p alive
    live_before live k le alive (suc j) lt =
        let r : a + suc j ≡ a + 1 + j = omega arith in rw r (live j (omega arith))

-- `memcmp` returns 0 exactly if the buffers agree up to the first zero byte of the first: it stops
-- there, since it is `strncmp`.
pub memcmp_lem : (m : Memory) (n a b : ℕ) → (memcmp m a b n ≡ pos 0) ↔ SameText m a b n
unfolding memcmp
memcmp_lem m n a b = (sound m n a b, complete m n a b)

-- So two buffers that begin with a zero byte are equal to `memcmp`, whatever follows.
pub memcmp-zero : (m : Memory) (n a b : ℕ) → m a ≡ 0 → m b ≡ 0 → memcmp m a b n ≡ pos 0
unfolding memcmp strncmp
memcmp-zero m zero a b p q = refl
memcmp-zero m (suc n) a b p q = rw (p, q)
