-- ===== src/Dev/Kbd.antt =====
-- src/kernel/dev/kbd.c, src/kernel/include/dev/kbd.h: the keyboard. Its entry point in assembly is an
-- address; what a port and a register of the local controller read is an argument.
mod Tests
use cerberos.Base.{
  ℕ, zero, suc, ◌+◌, ◌*◌, ◌/◌, ◌%◌, ◌^◌, ◌<◌, ◌≡◌, ◌≢◌, refl, sym, ap, ◌∙◌, arith, true, bit_or,
  List, [], ◌∷◌, length, get_or, get_or-set_self, get_or-set_ne, if◌then◌else◌, ◌==◌,
}
use cerberos.Intr.Idt.{
  Descriptor, descriptor, gate_attributes, idt_set_descriptor, register_intr_handler,
}
use cerberos.Intr.Idt.Address.{
  isr_of, isr_of-descriptor, register_intr_handler-here, register_intr_handler-other,
}
use cerberos.Intr.Ioapic.{
  Ioapics, intr_dev_offset, is_registered, from_raw, ioredtbl_reg_low, ioredtbl_reg_high,
  ioapic_read, ioapic_quickset_irq,
}
use cerberos.Intr.Ioapic.Redirect.{ioapic_quickset_irq_lem}
use cerberos.Intr.Lapic.{Write, lapic_eoi}
use cerberos.Dev.Text.{color, red, green, text_write, text_write_lem}

-- KBD_IRQ and KBD_INTR_VEC
abbrev pub kbd_irq : ℕ
kbd_irq = 1

abbrev pub kbd_intr_vec : ℕ
kbd_intr_vec = kbd_irq + intr_dev_offset

-- The handlers' addresses, the descriptors, and the I/O APICs.
pub kbd_init : ℕ → (ℕ → ℕ) → List Descriptor → Ioapics → (ℕ → ℕ) × List Descriptor × Ioapics
kbd_init wrapper_kbd_intr_handler isr_addr_table idt io =
    let (table, idt') =
      register_intr_handler isr_addr_table idt wrapper_kbd_intr_handler kbd_intr_vec in
    (table, idt', ioapic_quickset_irq io 0 kbd_irq 0 kbd_intr_vec)

-- The static letter `temp`, as the byte that it is, and the buffer of the screen.
pub record Kbd : Type 0 where
  pub temp : ℕ
  pub text_buffer : ℕ → ℕ

-- The byte that is read from the port is dropped.
pub kbd_intr_handler : (ℕ → ℕ) → Kbd → Kbd × List Write
kbd_intr_handler read s = (
  record {
    temp = (s.temp + 1) % 2 ^ 8;
    text_buffer = text_write s.text_buffer 0 s.temp (color red) (color green);
  },
  lapic_eoi read kbd_intr_vec,
)

-- After `kbd_init`, with a registered controller 0, the line of the keyboard is unmasked, and the
-- descriptor of the vector that it is redirected to leads to the keyboard's entry point; the
-- descriptors of the other vectors stay.
pub kbd_init_lem :
    (handler : ℕ) (table : ℕ → ℕ) (idt : List Descriptor) (io : Ioapics) (d : Descriptor)
    → length idt ≡ 256
    → handler < 2 ^ 64
    → is_registered io 0 ≡ true
    → (low high : ℕ) → ioapic_read (kbd_init handler table idt io).2 0 (ioredtbl_reg_low 1) ≡ low
    → ioapic_read (kbd_init handler table idt io).2 0 (ioredtbl_reg_high 1) ≡ high
    → ((from_raw low high).interrupt_mask ≡ 0)
      × (isr_of (get_or (kbd_init handler table idt io).1 (from_raw low high).vector d) ≡ handler)
      × ((get_or (kbd_init handler table idt io).1 (from_raw low high).vector d).attributes ≡ 0x8e)
      × ((v : ℕ)
          → v ≢ (from_raw low high).vector
          → get_or (kbd_init handler table idt io).1 v d ≡ get_or idt v d)
unfolding kbd_init
kbd_init_lem handler table idt io d len small present low high el eh =
    let q =
      ioapic_quickset_irq_lem io 0 1 0 kbd_intr_vec present (omega arith) (omega arith) _ _ low high
        refl refl el eh in
    let vec = q.0 in
    let here = register_intr_handler-here table idt handler kbd_intr_vec d (omega arith) in
    (
      q.3,
      rw (vec, here) (isr_of-descriptor handler gate_attributes small),
      rw (vec, here) refl,
      λ v o. register_intr_handler-other table idt handler kbd_intr_vec d v (λ e. o (e ∙ sym vec)),
    )

-- The state after `n` interrupts.
pub kbd_interrupts : (ℕ → ℕ) → ℕ → Kbd → Kbd
unfolding kbd_intr_handler
kbd_interrupts read zero s = s
kbd_interrupts read (suc n) s = (kbd_intr_handler read (kbd_interrupts read n s)).0

temp-kbd_interrupts :
    (read : ℕ → ℕ) (n : ℕ) (s : Kbd)
    → s.temp < 2 ^ 8
    → (kbd_interrupts read n s).temp ≡ (s.temp + n) % 2 ^ 8
unfolding kbd_interrupts
temp-kbd_interrupts read zero s h = omega arith
temp-kbd_interrupts read (suc n) s h = let e = temp-kbd_interrupts read n s h in omega arith

-- After one interrupt more than `n`, the first cell of the screen shows the letter that is `n`
-- behind the first one, in red on green, and the other cells are as they were.
pub kbd_interrupts_lem :
    (read : ℕ → ℕ) (n : ℕ) (s : Kbd)
    → s.temp < 2 ^ 8
    → ((kbd_interrupts read (suc n) s).text_buffer 0
        ≡ (s.temp + n) % 2 ^ 8 + 2 ^ 8 * 4 + 2 ^ 12 * 2)
      × ((x : ℕ) → x ≢ 0 → (kbd_interrupts read (suc n) s).text_buffer x ≡ s.text_buffer x)
unfolding kbd_interrupts
kbd_interrupts_lem read zero s h =
    let t =
      text_write_lem s.text_buffer 0 s.temp (color red) (color green) h (omega arith)
        (omega arith) in
    (omega (arith, t.0), t.1)
kbd_interrupts_lem read (suc n) s h =
    let m = suc n in
    let e = temp-kbd_interrupts read m s h in
    let b = (kbd_interrupts read m s).text_buffer in
    let t =
      text_write_lem b 0 (kbd_interrupts read m s).temp (color red) (color green) (omega arith)
        (omega arith) (omega arith) in
    let before = kbd_interrupts_lem read n s h in
    (omega (arith, t.0, e), λ x o. (t.1 x o ∙ before.1 x o))
