-- ===== src/Intr/Ioapic.antt =====
-- src/kernel/intr/ioapic.c, src/kernel/include/intr/ioapic.h: the I/O interrupt controllers. Behind
-- the address of a register select word stands a controller, with its registers; the code reads
-- and writes a register through the window once it is selected. Messages to the log are left out.
pub mod Redirect
mod Tests
use cerberos.Base.{
  ℕ, zero, suc, ◌+◌, ◌-◌, ◌*◌, ◌/◌, ◌%◌, ◌^◌, bit_and, Bool, true, false, ◌&&◌, if◌then◌else◌, ltb,
  leb, ◌==◌,
}
use cerberos.Base.Result.{Result, ok, fault}

-- MAX_IOAPICS
abbrev pub max_ioapics : ℕ
max_ioapics = 16

-- IOAPICVER, and INTR_DEV_OFFSET of src/kernel/include/intr/interrupt.h
abbrev pub ioapicver : ℕ
ioapicver = 1

abbrev pub intr_dev_offset : ℕ
intr_dev_offset = 0x20

-- IOREDTBL_REG_LOW and IOREDTBL_REG_HIGH, as the `uint8_t` that they are passed as.
abbrev pub ioredtbl_reg_low : ℕ → ℕ
ioredtbl_reg_low irq = (0x10 + 2 * irq) % 2 ^ 8

abbrev pub ioredtbl_reg_high : ℕ → ℕ
ioredtbl_reg_high irq = (0x10 + 2 * irq + 1) % 2 ^ 8

-- `redtbl_entry_t`, with its reserved field as the 15 bits of the low word and the 24 of the high.
pub record RedtblEntry : Type 0 where
  pub vector : ℕ
  pub delivery_mode : ℕ
  pub dest_mode : ℕ
  pub delivery_status : ℕ
  pub pin_polarity : ℕ
  pub remote_irr : ℕ
  pub trigger_mode : ℕ
  pub interrupt_mask : ℕ
  pub reserved_low : ℕ
  pub reserved_high : ℕ
  pub destination : ℕ

-- The two views of the union.
abbrev pub low_raw : RedtblEntry → ℕ
low_raw e =
    e.vector
    + 2 ^ 8 * e.delivery_mode
    + 2 ^ 11 * e.dest_mode
    + 2 ^ 12 * e.delivery_status
    + 2 ^ 13 * e.pin_polarity
    + 2 ^ 14 * e.remote_irr
    + 2 ^ 15 * e.trigger_mode
    + 2 ^ 16 * e.interrupt_mask
    + 2 ^ 17 * e.reserved_low

abbrev pub high_raw : RedtblEntry → ℕ
high_raw e = e.reserved_high + 2 ^ 24 * e.destination

abbrev pub from_raw : ℕ → ℕ → RedtblEntry
from_raw low high = record {
  vector = low % 2 ^ 8;
  delivery_mode = low / 2 ^ 8 % 2 ^ 3;
  dest_mode = low / 2 ^ 11 % 2;
  delivery_status = low / 2 ^ 12 % 2;
  pin_polarity = low / 2 ^ 13 % 2;
  remote_irr = low / 2 ^ 14 % 2;
  trigger_mode = low / 2 ^ 15 % 2;
  interrupt_mask = low / 2 ^ 16 % 2;
  reserved_low = low / 2 ^ 17;
  reserved_high = high % 2 ^ 24;
  destination = high / 2 ^ 24;
}

-- `ioapic_t`
pub record Ioapic : Type 0 where
  pub present : Bool
  pub ioapic_id : ℕ
  pub ioregsel : ℕ
  pub iowin : ℕ
  pub gsi_base : ℕ
  pub redtbl_entries : ℕ

-- `ioapics`, and each controller's registers, by the address of its select word.
pub record Ioapics : Type 0 where
  pub ioapics : ℕ → Ioapic
  pub registers : ℕ → ℕ → ℕ

abbrev pub is_registered : Ioapics → ℕ → Bool
is_registered s id = ltb id max_ioapics && (s.ioapics id).present

pub ioapic_read : Ioapics → ℕ → ℕ → ℕ
ioapic_read s id reg = if is_registered s id then s.registers (s.ioapics id).ioregsel reg else 0

-- `*ioregsel = reg; *iowin = val;`
abbrev pub put_register : Ioapics → ℕ → ℕ → ℕ → Ioapics
put_register s sel reg val = record s {
  registers =
      λ a r. if a == sel then if r == reg then val else s.registers a r else s.registers a r;
}

pub ioapic_write : Ioapics → ℕ → ℕ → ℕ → Ioapics
ioapic_write s id reg val =
    if is_registered s id then put_register s (s.ioapics id).ioregsel reg val else s

-- `madt_ioapic_t`: `io_apic_id`, `io_apic_addr` and `gsi_base`. An id outside the array is a fault.
pub ioapic_register : Ioapics → ℕ → ℕ → ℕ → Result Ioapics
unfolding ioapic_read
ioapic_register s id addr gsi_base =
    let entry : ℕ → Ioapic = λ entries. record {
      present = true;
      ioapic_id = id;
      ioregsel = addr;
      iowin = (addr + 0x10) % 2 ^ 32;
      gsi_base = gsi_base;
      redtbl_entries = entries;
    } in
    let put : ℕ → Ioapics =
      λ entries. record s { ioapics = λ i. if i == id then entry entries else s.ioapics i } in
    let old : ℕ = (s.ioapics id).redtbl_entries in
    if ltb id max_ioapics
    then ok (put (ioapic_read (put old) id ioapicver / 2 ^ 16 % 2 ^ 8 + 1))
    else fault

pub ioapic_set_irq : Ioapics → ℕ → ℕ → RedtblEntry → Ioapics
ioapic_set_irq s id irq entry =
    if is_registered s id
    then ioapic_write (ioapic_write s id (ioredtbl_reg_high irq) (high_raw entry)) id
        (ioredtbl_reg_low irq) (low_raw entry)
    else s

pub ioapic_quickset_irq : Ioapics → ℕ → ℕ → ℕ → ℕ → Ioapics
ioapic_quickset_irq s id irq lapic_id vector =
    let high = ioapic_read s id (ioredtbl_reg_high irq) in
    let low = ioapic_read s id (ioredtbl_reg_low irq) in
    let entry = record (from_raw low high) {
      destination = bit_and lapic_id 0xf;
      interrupt_mask = 0;
      dest_mode = 0;
      delivery_mode = 0;
      vector = vector;
    } in
    if is_registered s id then ioapic_set_irq s id irq entry else s

-- The search of `ioapic_set_gsi` after `i` rounds: the last controller that fits, or 255.
pub find_ioapic : Ioapics → ℕ → ℕ → ℕ
find_ioapic s gsi zero = 255
find_ioapic s gsi (suc i) =
    let before = find_ioapic s gsi i in
    if (s.ioapics i).present && ltb (s.ioapics i).gsi_base gsi then i else before

-- `madt_intr_src_override_t`: `irq_src`, `gsi` and the low byte of `flags`. The fields of the local
-- variable `entry` that are not set are those of `unset`.
pub ioapic_set_gsi : Ioapics → RedtblEntry → ℕ → ℕ → ℕ → ℕ → Ioapics
unfolding find_ioapic
ioapic_set_gsi s unset bsp_lapic_id irq_src gsi flags =
    let id = find_ioapic s gsi max_ioapics in
    let entry = record unset {
      vector = (intr_dev_offset + irq_src) % 2 ^ 8;
      delivery_mode = 0;
      dest_mode = 0;
      pin_polarity = if bit_and flags 2 == 0 then 0 else 1;
      trigger_mode = if bit_and flags 8 == 0 then 0 else 1;
      interrupt_mask = 1;
      destination = bsp_lapic_id % 2 ^ 8;
    } in
    if leb max_ioapics id then s else ioapic_set_irq s id irq_src entry
