-- ===== src/Intr/Lapic/Effects.antt =====
-- What the local controller is told.
use native.Mathlib.Nat.{mul_comm}
use cerberos.Base.{
  ℕ, ◌+◌, ◌*◌, ◌/◌, ◌%◌, ◌^◌, ◌≡◌, ◌⊎◌, refl, arith, bit_and, bit_or, Bool, false, not, ◌||◌, List,
  [], ◌∷◌, ◌++◌, if◌then◌else◌, ◌==◌,
}
use cerberos.Base.Result.{ok}
use cerberos.Bits.{test_bit}
use cerberos.Bits.Single.{masked_bit}
use cerberos.Intr.Lapic.{Write, LapicNmi, lapic_id, lvt_nmi, configure_nmi, lapic_enable, lapic_eoi}
use cerberos.Intr.LapicReg.{
  offset, lapic_isr_31_0, lapic_eoi_reg, lapic_spr_intr_vec_reg, lapic_lvt_lint0_reg,
}

-- The bit of a vector in the in-service registers, 32 to a register.
abbrev pub in_service : (ℕ → ℕ) → ℕ → Bool
in_service read vec = test_bit (read ((offset lapic_isr_31_0) + 16 * (vec / 32))) (vec % 32)

-- `lapic_eoi` writes to the end-of-interrupt register exactly if the interrupt is in service, and
-- to no other register.
pub lapic_eoi_lem :
    (read : ℕ → ℕ) (vec : ℕ)
    → lapic_eoi read vec ≡ (if in_service read vec then ((offset lapic_eoi_reg), 1) ∷ [] else [])
unfolding lapic_eoi
lapic_eoi_lem read vec =
    let isr : ℕ = read ((offset lapic_isr_31_0) + 16 * (vec / 32)) in
    let bit : not (bit_and isr (2 ^ (vec % 32)) == 0) ≡ test_bit isr (vec % 32) =
      masked_bit isr (vec % 32) in
    rw (mul_comm (vec / 32) 16, ← bit) (ground arith)

-- An entry for this processor, or for all of them.
abbrev pub is_for : ℕ → LapicNmi → Bool
is_for id nmi = id == nmi.acpi_processor_id || nmi.acpi_processor_id == 0xff

-- The entries for this processor name an input that there is, LINT0 or LINT1.
abbrev pub AllInputs : ℕ → List LapicNmi → Type 0
AllInputs id [] = Unit
AllInputs id (nmi ∷ nmis) =
    ((is_for id nmi ≡ false) ⊎ ((nmi.lint ≡ 0) ⊎ (nmi.lint ≡ 1))) × AllInputs id nmis

-- The writes that the entries ask for, in order.
abbrev pub wanted : ℕ → List LapicNmi → List Write
wanted id [] = []
wanted id (nmi ∷ nmis) =
    let rest = wanted id nmis in
    if is_for id nmi
    then ((offset lapic_lvt_lint0_reg) + 0x10 * nmi.lint, lvt_nmi nmi.flags) ∷ rest
    else rest

configure_nmi_lem :
    (read : ℕ → ℕ) (nmis : List LapicNmi)
    → AllInputs (lapic_id read) nmis
    → configure_nmi read nmis ≡ ok (wanted (lapic_id read) nmis)
unfolding configure_nmi
configure_nmi_lem read [] h = refl
configure_nmi_lem read (nmi ∷ nmis) h =
    let rest = configure_nmi_lem read nmis h.1 in rw (configure_nmi, rest) (ground (arith, h.0))

-- If every entry for this processor names LINT0 or LINT1, `lapic_enable` sets the input of each of
-- them, in order, as the entry says, and then the enable bit of the spurious vector register.
pub lapic_enable_lem :
    (read : ℕ → ℕ) (nmis : List LapicNmi)
    → AllInputs (lapic_id read) nmis
    → lapic_enable read nmis
      ≡ ok (
          wanted (lapic_id read) nmis
          ++ ((
            (offset lapic_spr_intr_vec_reg),
            bit_or (read (offset lapic_spr_intr_vec_reg)) (2 ^ 8),
          )
              ∷ []))
unfolding lapic_enable
lapic_enable_lem read nmis h = rw (configure_nmi_lem read nmis h) refl
