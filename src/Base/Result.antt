-- ===== src/Base/Result.antt =====
-- How a run of kernel code ends: with a value, in `panic` (which logs and halts for good), or in a
-- fault, where the C code is undefined: it leaves its arrays, follows a pointer that leads nowhere,
-- or overflows a signed integer.
use mathlib.Core.Path.{◌≡◌, refl}

pub data Result {ℓ} (A : Type ℓ) : Type ℓ where
  ok : A → Result A
  panic fault : Result A

module _ {ℓ κ} {A : Type ℓ} {B : Type κ} where
  infixl 5 ◌>>=◌
  abbrev pub ◌>>=◌ : Result A → (A → Result B) → Result B
  run >>= next = elim run [ ok a ↦ next a | panic ↦ panic | fault ↦ fault ]

  -- Inversion of a run that returns.
  pub >>=-eq-ok :
      (run : Result A) (next : A → Result B) {b : B}
      → (run >>= next) ≡ ok b
      → (a : A) × (run ≡ ok a) × (next a ≡ ok b)
  >>=-eq-ok (ok a) next h = (a, refl, h)
  >>=-eq-ok panic next h = cc
  >>=-eq-ok fault next h = cc

  pub bind-ext :
      (run : Result A) (f g : A → Result B) → ((a : A) → f a ≡ g a) → (run >>= f) ≡ (run >>= g)
  bind-ext (ok a) f g same = same a
  bind-ext panic f g same = refl
  bind-ext fault f g same = refl
