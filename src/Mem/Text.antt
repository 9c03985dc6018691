-- ===== src/Mem/Text.antt =====
-- `strlen` and `strcpy` on a terminated string; enough fuel is one more round than it has bytes.
use cerberos.Base.{
  ℕ, zero, suc, ◌+◌, ◌-◌, ◌≤◌, ◌<◌, ◌≡◌, ◌≢◌, ◌⊎◌, inl, inr, ◌∙◌, ap, arith, true, false, some,
  if◌then◌else◌, ◌==◌, Bool-cases,
}
use native.Mathlib.Nat.{zero-add}
use cerberos.Mem.{Memory, store, strlen, strlen_loop, strcpy, strcpy_loop}
use cerberos.Mem.Copy.{within, copied}

-- The first zero byte of the string at `a` is `n` bytes on.
pub record IsText (m : Memory) (a n : ℕ) : Type 0 where
  pub live : (i : ℕ) → i < n → m (a + i) ≢ 0
  pub ends : m (a + n) ≡ 0

strlen_loop_lem :
    (m : Memory) (a k i fuel : ℕ)
    → IsText m a (i + k)
    → k < fuel
    → strlen_loop fuel m a i ≡ some (i + k)
unfolding strlen_loop
strlen_loop_lem m a k i zero t h = absurd (omega arith)
strlen_loop_lem m a zero i (suc fuel) t h =
    let p : i + 0 ≡ i = omega arith in let e : m (a + i) ≡ 0 = rw p at t.ends in rw (e, p)
strlen_loop_lem m a (suc k) i (suc fuel) t h =
    let p : i + suc k ≡ i + 1 + k = omega arith in
    let ne : (m (a + i) == 0) ≡ false = ground (arith, t.live i (omega arith)) in
    rw (ne, p) (strlen_loop_lem m a k (i + 1) fuel (rw p at t) (omega arith))

-- `strlen` returns the number of bytes before the first zero byte.
pub strlen_lem : (m : Memory) (a n fuel : ℕ) → IsText m a n → n < fuel → strlen fuel m a ≡ some n
unfolding strlen
strlen_lem m a n fuel t h =
    let p : 0 + n ≡ n = omega arith in strlen_loop_lem m a n 0 fuel (rw p t) h ∙ ap some p

-- The bytes that are still to be copied are those of the original memory.
strcpy_loop_lem :
    (m : Memory) (d a k i fuel : ℕ)
    → (d + (i + k) < a) ⊎ (a + (i + k) < d)
    → IsText m a (i + k)
    → k < fuel
    → (m' : Memory) × (strcpy_loop fuel m d a i ≡ some m')
      × ((x : ℕ) → m' x ≡ (if within (d + i) (suc k) x then m (a + (x - d)) else m x))
unfolding strcpy_loop
strcpy_loop_lem m d a k i zero apart t h = absurd (omega arith)
strcpy_loop_lem m d a zero i (suc fuel) apart t h =
    let p : i + 0 ≡ i = omega arith in
    let e : m (a + i) ≡ 0 = rw p at t.ends in
    (
      store m (d + i) 0,
      rw e,
      λ x. elim (Bool-cases (d + i == x)) [
        | inl at ↦
            let q : x - d ≡ i = ground arith in
            let here : within (d + i) 1 x ≡ true = ground arith in rw (at, here, q, e)
        | inr off ↦ let out : within (d + i) 1 x ≡ false = ground arith in rw (off, out)
      ],
    )
strcpy_loop_lem m d a (suc k) i (suc fuel) apart t h =
    let p : i + suc k ≡ i + 1 + k = omega arith in
    let ne : (m (a + i) == 0) ≡ false = ground (arith, t.live i (omega arith)) in
    let m₁ : Memory = store m (d + i) (m (a + i)) in
    let t' : IsText m₁ a (i + 1 + k) = record {
      live = λ j lt.
          let off : (d + i == a + j) ≡ false = other apart j (omega arith) in
          rw off (t.live j (omega arith));
      ends =
          let off : (d + i == a + (i + 1 + k)) ≡ false = other apart (i + 1 + k) (omega arith) in
          rw (off, ← p) t.ends;
    } in
    let (m', e, same) = strcpy_loop_lem m₁ d a k (i + 1) fuel (shift apart) t' (omega arith) in
    (m', rw ne e, λ x. same x ∙ step x)
  where
    other :
        (d + (i + suc k) < a) ⊎ (a + (i + suc k) < d)
        → (j : ℕ) → j ≤ i + suc k
        → (d + i == a + j) ≡ false
    other (inl h) j le = ground arith
    other (inr h) j le = ground arith

    step :
        (x : ℕ)
        → (if within (d + (i + 1)) (suc k) x
            then store m (d + i) (m (a + i)) (a + (x - d))
            else store m (d + i) (m (a + i)) x)
          ≡ (if within (d + i) (suc (suc k)) x then m (a + (x - d)) else m x)
    step x = elim (Bool-cases (d + i == x)) [
      | inl at ↦
          let q : x - d ≡ i = ground arith in
          let past : within (d + (i + 1)) (suc k) x ≡ false = ground arith in
          let here : within (d + i) (suc (suc k)) x ≡ true = ground arith in rw (past, at, here, q)
      | inr off ↦ elim (Bool-cases (within (d + (i + 1)) (suc k) x)) [
        | inl later ↦
            let here : within (d + i) (suc (suc k)) x ≡ true = ground arith in
            let far : (d + i == a + (x - d)) ≡ false = other apart (x - d) (ground arith) in
            rw (later, here, far)
        | inr out ↦
            let out' : within (d + i) (suc (suc k)) x ≡ false = ground arith in rw (out, out', off)
      ]
    ]

    shift :
        (d + (i + suc k) < a) ⊎ (a + (i + suc k) < d)
        → (d + (i + 1 + k) < a) ⊎ (a + (i + 1 + k) < d)
    shift (inl h) = inl (omega arith)
    shift (inr h) = inr (omega arith)

-- `strcpy` of a string of `n` bytes into a buffer that does not overlap it copies those bytes and
-- the terminator, and writes nowhere else.
pub strcpy_lem :
    (m : Memory) (d a n fuel : ℕ)
    → (d + n < a) ⊎ (a + n < d)
    → IsText m a n
    → n < fuel
    → (m' : Memory) × (strcpy fuel m d a ≡ some m') × ((x : ℕ) → m' x ≡ copied m d a (n + 1) x)
unfolding strcpy
strcpy_lem m d a n fuel apart t h =
    let (m', e, same) = strcpy_loop_lem m d a n 0 fuel (from apart) (rw zero-add t) h in
    (
      m',
      e,
      λ x.
          same x
          ∙ (let p : d + 0 ≡ d = omega arith in let q : n + 1 ≡ suc n = omega arith in rw (p, q)),
    )
  where
    from : (d + n < a) ⊎ (a + n < d) → (d + (0 + n) < a) ⊎ (a + (0 + n) < d)
    from (inl h) = inl (omega arith)
    from (inr h) = inr (omega arith)
