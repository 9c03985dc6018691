-- ===== src/Intr/Apic.antt =====
-- src/kernel/intr/apic.c. The tag of the boot loader with the processors and what the firmware lists
-- are arguments. Messages to the log are left out.
use cerberos.Base.{ℕ, Bool, true, Option, none, some, List, [], ◌∷◌, if◌then◌else◌}
use cerberos.Base.Result.{Result, ok, panic, ◌>>=◌}
use cerberos.Intr.Ioapic.{Ioapics, RedtblEntry, ioapic_register, ioapic_set_gsi}
use cerberos.Intr.Lapic.{LapicNmi, Write, lapic_enable}

-- The globals, with the state of the I/O APICs.
pub record Apic : Type 0 where
  pub id : ℕ
  pub bsp_lapic_id_valid : Bool
  pub io_apic_valid : Bool
  pub io : Ioapics

-- `madt_ioapic_t`
pub record MadtIoapic : Type 0 where
  pub io_apic_id : ℕ
  pub io_apic_addr : ℕ
  pub gsi_base : ℕ

-- `madt_intr_src_override_t`
pub record MadtOverride : Type 0 where
  pub irq_src : ℕ
  pub gsi : ℕ
  pub flags : ℕ

pub register_all : Ioapics → List MadtIoapic → Result Ioapics
register_all s [] = ok s
register_all s (e ∷ rest) = do
  s' ← ioapic_register s e.io_apic_id e.io_apic_addr e.gsi_base
  register_all s' rest

pub bsp_lapic_id : Apic → ℕ
bsp_lapic_id s = if s.bsp_lapic_id_valid then s.id else 0

pub override_all : RedtblEntry → ℕ → Ioapics → List MadtOverride → Ioapics
override_all unset bsp_id s [] = s
override_all unset bsp_id s (e ∷ rest) =
    override_all unset bsp_id (ioapic_set_gsi s unset bsp_id e.irq_src e.gsi e.flags) rest

-- `if (!bsp_lapic_id_valid)`; `smp_info` is the id in the tag, or `none` where the tag is missing.
unfoldable pub set_bsp_lapic_id : Apic → Option ℕ → Result Apic
set_bsp_lapic_id s smp_info =
    let found : Result Apic = elim smp_info [
      | none ↦ panic
      | some id ↦ ok (record s { id = id; bsp_lapic_id_valid = true })
    ] in
    if s.bsp_lapic_id_valid then ok s else found

-- `if (!io_apic_valid)`
pub set_io_apics : RedtblEntry → Apic → List MadtIoapic → List MadtOverride → Result Apic
set_io_apics unset s io_apics overrides =
    let registered : Result Apic = (do
      io' ← register_all s.io io_apics
      ok (record s {
        io = override_all unset (bsp_lapic_id s) io' overrides;
        io_apic_valid = true;
      })) in
    if s.io_apic_valid then ok s else registered

-- The new state, and the writes to the registers of the local APIC.
unfoldable pub apic_init :
    RedtblEntry
    → (ℕ → ℕ)
    → Apic
    → Option ℕ
    → List MadtIoapic
    → List MadtOverride
    → List LapicNmi
    → Result (Apic × List Write)
apic_init unset read s smp_info io_apics overrides nmis = do
  s₁ ← set_bsp_lapic_id s smp_info
  s₂ ← set_io_apics unset s₁ io_apics overrides
  writes ← lapic_enable read nmis
  ok (s₂, writes)
