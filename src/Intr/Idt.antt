-- ===== src/Intr/Idt.antt =====
-- src/kernel/intr/idt.c, src/kernel/include/intr/idt.h: the interrupt descriptor table. The
-- addresses of the entry points (`isr_addr_table`, in assembly) are an argument; `idt_load` is the
-- `lidt` instruction.
pub mod Address
mod Tests
use cerberos.Base.{
  ℕ, zero, suc, ◌+◌, ◌-◌, ◌*◌, ◌/◌, ◌%◌, ◌^◌, bit_and, bit_or, List, set, if◌then◌else◌, ◌==◌,
}

-- `idt_desc_t`
pub record Descriptor : Type 0 where
  pub isr_low : ℕ
  pub seg_sel : ℕ
  pub ist : ℕ
  pub attributes : ℕ
  pub isr_mid : ℕ
  pub isr_high : ℕ
  pub reserve2 : ℕ

-- KERNEL_CS, IDT_MAX_ENTRIES, and INT_GATE | PL0 | PRESENT
abbrev pub kernel_cs : ℕ
kernel_cs = 0x08

abbrev pub idt_max_entries : ℕ
idt_max_entries = 256

abbrev pub gate_attributes : ℕ
gate_attributes = bit_or (bit_or 0x0e 0x00) 0x80

-- The descriptor that `idt_set_descriptor` fills in.
abbrev pub descriptor : ℕ → ℕ → Descriptor
descriptor isr attributes = record {
  isr_low = bit_and isr 0xffff;
  seg_sel = kernel_cs;
  ist = 0;
  attributes = attributes;
  isr_mid = bit_and (isr / 2 ^ 16) 0xffff;
  isr_high = bit_and (isr / 2 ^ 32) 0xffff_ffff;
  reserve2 = 0;
}

pub idt_set_descriptor : List Descriptor → ℕ → ℕ → ℕ → List Descriptor
idt_set_descriptor idt vector isr attributes = set idt vector (descriptor isr attributes)

-- `register_intr_handler` of src/kernel/intr/interrupt.c: the table of the handlers' addresses, and the
-- descriptors.
pub register_intr_handler : (ℕ → ℕ) → List Descriptor → ℕ → ℕ → (ℕ → ℕ) × List Descriptor
unfolding idt_set_descriptor
register_intr_handler isr_addr_table idt handler irq_num =
    let table = λ (i : ℕ). if i == irq_num then handler else isr_addr_table i in
    (table, idt_set_descriptor idt irq_num (table irq_num) gate_attributes)

-- The loop of `idt_init` after `i` rounds; the index becomes a `uint8_t`.
pub idt_loop : List Descriptor → (ℕ → ℕ) → ℕ → List Descriptor
unfolding idt_set_descriptor
idt_loop idt isr_addr_table zero = idt
idt_loop idt isr_addr_table (suc i) =
    idt_set_descriptor (idt_loop idt isr_addr_table i) (i % 2 ^ 8) (isr_addr_table i)
      gate_attributes

-- `idtr_t`, whose `address` is that of the table.
pub record Idtr : Type 0 where
  pub size : ℕ
  pub address : ℕ

-- `sizeof(idt_desc_t)` is 16.
pub idt_init : List Descriptor → ℕ → (ℕ → ℕ) → List Descriptor × Idtr
unfolding idt_loop
idt_init idt address isr_addr_table = (
  idt_loop idt isr_addr_table idt_max_entries,
  record { size = 16 * idt_max_entries - 1; address = address },
)
