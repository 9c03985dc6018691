-- ===== src/Intr/Lapic.antt =====
-- src/kernel/intr/lapic.c, src/kernel/include/intr/lapic.h: the local interrupt controller. What a
-- register reads is an argument, by the register's offset; a function is the list of its register
-- writes, in order, or a panic.
pub mod Effects
mod Tests
use cerberos.Base.{
  ℕ, ◌+◌, ◌-◌, ◌*◌, ◌/◌, ◌%◌, ◌^◌, bit_and, bit_or, ◌||◌, List, [], ◌∷◌, ◌++◌, if◌then◌else◌, ◌==◌,
}
use cerberos.Base.Result.{Result, ok, panic, fault, ◌>>=◌}
use cerberos.Bits.{bit_not}
use cerberos.Intr.LapicReg.{
  offset, lapic_id_reg, lapic_eoi_reg, lapic_spr_intr_vec_reg, lapic_isr_31_0, lapic_lvt_lint0_reg,
  lapic_lvt_lint1_reg, lapic_icr_high, lapic_icr_low, lvt_raw, lvt_nmi_mode, lvt_high, lvt_low,
  lvt_edge, lvt_level, lvt_unmask,
}

abbrev pub Write : Type 0
Write = ℕ × ℕ

-- `madt_lapic_nmi_t`
pub record LapicNmi : Type 0 where
  pub acpi_processor_id : ℕ
  pub flags : ℕ
  pub lint : ℕ

pub lapic_id : (ℕ → ℕ) → ℕ
lapic_id read = read (offset lapic_id_reg) / 2 ^ 24 % 2 ^ 8

-- `lvt_nmi.raw`; the fields that are not set are 0.
pub lvt_nmi : ℕ → ℕ
lvt_nmi flags = lvt_raw (record {
  vector = 2;
  delivery_mode = lvt_nmi_mode;
  reserved0 = 0;
  deliver_status = 0;
  pin_polarity = if bit_and flags 2 == 0 then lvt_high else lvt_low;
  remote_irr = 0;
  trigger_level = if bit_and flags 8 == 0 then lvt_edge else lvt_level;
  mask = lvt_unmask;
  reserved1 = 0;
})

-- The loop of `configure_nmi` over the entries that are left.
pub configure_nmi : (ℕ → ℕ) → List LapicNmi → Result (List Write)
unfolding lapic_id lvt_nmi
configure_nmi read [] = ok []
configure_nmi read (nmi ∷ nmis) =
    let rest = configure_nmi read nmis in
    let put : ℕ → Result (List Write) =
      λ reg. (do writes ← rest; ok ((reg, lvt_nmi nmi.flags) ∷ writes)) in
    if lapic_id read == nmi.acpi_processor_id || nmi.acpi_processor_id == 0xff
    then if nmi.lint == 0
      then put (offset lapic_lvt_lint0_reg)
      else if nmi.lint == 1
      then put (offset lapic_lvt_lint1_reg)
      else panic
    else rest

pub lapic_enable : (ℕ → ℕ) → List LapicNmi → Result (List Write)
unfolding configure_nmi
lapic_enable read nmis = do
  writes ← configure_nmi read nmis
  ok (
      writes
      ++ (((offset lapic_spr_intr_vec_reg), bit_or (read (offset lapic_spr_intr_vec_reg)) (2 ^ 8))
          ∷ []))

pub lapic_disable : (ℕ → ℕ) → List Write
lapic_disable read =
    (
      (offset lapic_spr_intr_vec_reg),
      bit_and (read (offset lapic_spr_intr_vec_reg)) (bit_not 32 (2 ^ 8)),
    )
    ∷ []

pub lapic_eoi : (ℕ → ℕ) → ℕ → List Write
lapic_eoi read intr_vec =
    let isr = read ((offset lapic_isr_31_0) + intr_vec / 32 * 0x10) in
    if bit_and isr (2 ^ (intr_vec % 32)) == 0 then [] else ((offset lapic_eoi_reg), 1) ∷ []

-- `ipi_t`, a union with two words.
pub record Ipi : Type 0 where
  pub vector : ℕ
  pub delivery_mode : ℕ
  pub dest_mode : ℕ
  pub delivery_status : ℕ
  pub reserved0 : ℕ
  pub level : ℕ
  pub trigger_mode : ℕ
  pub reserved1 : ℕ
  pub dest_shorthand : ℕ
  pub reserved2 : ℕ
  pub destination : ℕ

abbrev pub ipi_low_raw : Ipi → ℕ
ipi_low_raw ipi =
    ipi.vector
    + 2 ^ 8 * ipi.delivery_mode
    + 2 ^ 11 * ipi.dest_mode
    + 2 ^ 12 * ipi.delivery_status
    + 2 ^ 13 * ipi.reserved0
    + 2 ^ 14 * ipi.level
    + 2 ^ 15 * ipi.trigger_mode
    + 2 ^ 16 * ipi.reserved1
    + 2 ^ 18 * ipi.dest_shorthand
    + 2 ^ 20 * (ipi.reserved2 % 2 ^ 12)

abbrev pub ipi_high_raw : Ipi → ℕ
ipi_high_raw ipi = ipi.reserved2 / 2 ^ 12 + 2 ^ 24 * ipi.destination

-- The write to the low word sends the interrupt.
pub lapic_ipi : Ipi → List Write
lapic_ipi ipi =
    (offset lapic_icr_high, ipi_high_raw ipi) ∷ (offset lapic_icr_low, ipi_low_raw ipi) ∷ []
