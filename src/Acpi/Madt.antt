-- ===== src/Acpi/Madt.antt =====
-- src/kernel/acpi/madt.c, src/kernel/include/acpi/madt.h: the interrupt controllers that the
-- firmware lists. The counts and arrays of `madt_info_t` are those of one entry type each, so here
-- they go by the type, and an array is the offsets of the entries in it, with as much room as the
-- count that it was allocated for: to write behind that is a fault. A loop that has not ended after
-- the rounds it is given is a fault too. Messages to the log are left out.
pub mod Scan
mod Tests
use cerberos.Base.{
  ℕ, zero, suc, ◌+◌, ◌-◌, ◌*◌, ◌%◌, ◌^◌, Bool, true, false, ◌||◌, Option, none, some, List, [], ◌∷◌,
  ◌++◌, length, if◌then◌else◌, ltb, ◌==◌,
}
use cerberos.Base.Result.{Result, ok, panic, fault, ◌>>=◌}

-- MADT_OFFSET, MADT_LAPIC_ADDR_OVERRIDE
abbrev pub madt_offset : ℕ
madt_offset = 0x2c

abbrev pub madt_lapic_addr_override : ℕ
madt_lapic_addr_override = 5

-- The types with a count and an array: MADT_LAPIC, MADT_IOAPIC, MADT_INTR_SRC_OVERRIDE,
-- MADT_APIC_NMI_SRC, MADT_LAPIC_NMI and MADT_LX2APIC.
abbrev pub is_listed : ℕ → Bool
is_listed t = t == 0 || t == 1 || t == 2 || t == 3 || t == 4 || t == 9

-- `madt_t`: `sdt_hdr.length`, `lapic_addr`, and the bytes of `data`.
pub record Madt : Type 0 where
  pub total : ℕ
  pub lapic_addr : ℕ
  pub bytes : ℕ → ℕ

-- `madt_info_t`
pub record MadtInfo : Type 0 where
  pub num : ℕ → ℕ
  pub arrays : ℕ → List ℕ
  pub lapic_addr_override : Option ℕ
  pub lapic_paddr : ℕ

-- `reset_madt_info`
pub reset_madt_info : MadtInfo
reset_madt_info = record {
  num = λ t. 0;
  arrays = λ t. [];
  lapic_addr_override = none;
  lapic_paddr = 0;
}

-- The two loops, with the body of the `switch`, which takes the entry's type and offset. The index
-- is a `uint8_t`.
pub entry_loop : (ℕ → ℕ → MadtInfo → Result MadtInfo) → Madt → ℕ → ℕ → MadtInfo → Result MadtInfo
entry_loop body madt zero i info = fault
entry_loop body madt (suc rounds) i info =
    let next : Result MadtInfo = (do
      info' ← body (madt.bytes i) i info
      entry_loop body madt rounds ((i + madt.bytes (i + 1)) % 2 ^ 8) info') in
    if ltb i ((madt.total + 2 ^ 32 - madt_offset) % 2 ^ 32) then next else ok info

-- The first `switch`: it counts.
pub count_entry : ℕ → ℕ → MadtInfo → Result MadtInfo
count_entry t i info =
    let once : Result MadtInfo = elim info.lapic_addr_override [
      | none ↦ ok (record info { lapic_addr_override = some i })
      | some j ↦ panic
    ] in
    if is_listed t
    then ok (record info { num = λ u. if u == t then info.num u + 1 else info.num u })
    else if t == madt_lapic_addr_override
    then once
    else ok info

-- The 64-bit address in the entry at an offset.
read_lapic_paddr : Madt → ℕ → ℕ
read_lapic_paddr madt i = go 8 (i + 4)
  where
    go : ℕ → ℕ → ℕ
    go zero a = 0
    go (suc n) a = madt.bytes a + 2 ^ 8 * go n (a + 1)

-- The second `switch`: it fills the arrays.
pub store_entry : Madt → ℕ → ℕ → MadtInfo → Result MadtInfo
unfolding read_lapic_paddr
store_entry madt t i info =
    let address : Result MadtInfo = elim info.lapic_addr_override [
      | none ↦ fault
      | some j ↦ ok (record info { lapic_paddr = read_lapic_paddr madt j })
    ] in
    let put : Result MadtInfo =
      (if ltb (length (info.arrays t)) (info.num t)
        then ok (record info {
          arrays = λ u. if u == t then info.arrays u ++ (i ∷ []) else info.arrays u;
        })
        else fault) in
    if is_listed t then put else if t == madt_lapic_addr_override then address else ok info

pub parse_madt : ℕ → Madt → Result MadtInfo
unfolding entry_loop count_entry store_entry reset_madt_info
parse_madt rounds madt = do
  counted ←
      entry_loop count_entry madt rounds 0
        (record reset_madt_info { lapic_paddr = madt.lapic_addr })
  entry_loop (store_entry madt) madt rounds 0 counted
