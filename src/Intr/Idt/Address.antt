-- ===== src/Intr/Idt/Address.antt =====
-- The address that the processor reads from a descriptor.
use cerberos.Base.{
  ℕ, zero, suc, ◌+◌, ◌-◌, ◌*◌, ◌/◌, ◌%◌, ◌^◌, ◌≤◌, ◌<◌, ◌≡◌, ◌≢◌, refl, sym, true, ap, ◌∙◌, arith,
  List, get_or, length, length-set, get_or-set_self, get_or-set_ne, inl, inr, ◌==◌, Bool-cases,
  ==_iff,
}
use cerberos.Bits.Masks.{bit_and_low}
use cerberos.Intr.Idt.{
  Descriptor, descriptor, gate_attributes, idt_set_descriptor, idt_loop, idt_init,
  register_intr_handler,
}

abbrev pub isr_of : Descriptor → ℕ
isr_of d = d.isr_low + 2 ^ 16 * d.isr_mid + 2 ^ 32 * d.isr_high

pub isr_of-descriptor :
    (isr attributes : ℕ) → isr < 2 ^ 64 → isr_of (descriptor isr attributes) ≡ isr
isr_of-descriptor isr attributes h =
    rw (bit_and_low 16 isr, bit_and_low 16 (isr / 2 ^ 16), bit_and_low 32 (isr / 2 ^ 32))
      (omega arith)

length-idt_loop :
    (idt : List Descriptor) (table : ℕ → ℕ) (n : ℕ) → length (idt_loop idt table n) ≡ length idt
unfolding idt_loop idt_set_descriptor
length-idt_loop idt table zero = refl
length-idt_loop idt table (suc n) =
    length-set (idt_loop idt table n) (n % 2 ^ 8) (descriptor (table n) gate_attributes)
    ∙ length-idt_loop idt table n

idt_loop_lem :
    (idt : List Descriptor) (table : ℕ → ℕ) (d : Descriptor) (n i : ℕ)
    → length idt ≡ 256
    → n ≤ 256
    → i < n
    → get_or (idt_loop idt table n) i d ≡ descriptor (table i) gate_attributes
unfolding idt_loop idt_set_descriptor
idt_loop_lem idt table d zero i len le h = absurd (omega arith)
idt_loop_lem idt table d (suc n) i len le h =
    let small : n % 2 ^ 8 ≡ n = omega arith in
    elim (Bool-cases (n == i)) [
      | inl e ↦
          let same : n ≡ i = (==_iff n i).0 e in
          rw (idt_loop, small, same)
            (get_or-set_self (idt_loop idt table i) i (descriptor (table i) gate_attributes) d
              (omega (arith, length-idt_loop idt table i)))
      | inr e ↦
          rw (idt_loop, small)
            (get_or-set_ne (idt_loop idt table n) n i (descriptor (table n) gate_attributes) d
                (ground arith)
              ∙ idt_loop_lem idt table d n i len (omega arith) (ground arith))
    ]

-- After `idt_init`, every one of the 256 descriptors of the table leads to the entry point of its
-- vector, as a present interrupt gate of the kernel's code segment, and the limit that `lidt` loads
-- is that of the whole table.
pub idt_init_lem :
    (idt : List Descriptor) (address : ℕ) (table : ℕ → ℕ) (d : Descriptor) (i : ℕ)
    → length idt ≡ 256
    → i < 256
    → table i < 2 ^ 64
    → (isr_of (get_or (idt_init idt address table).0 i d) ≡ table i)
      × ((get_or (idt_init idt address table).0 i d).attributes ≡ 0x8e)
      × ((get_or (idt_init idt address table).0 i d).seg_sel ≡ 0x08)
      × ((idt_init idt address table).1.size ≡ 16 * length idt - 1)
unfolding idt_init
idt_init_lem idt address table d i len h small =
    let e = idt_loop_lem idt table d 256 i len (omega arith) h in
    (
      ap isr_of e ∙ isr_of-descriptor (table i) gate_attributes small,
      ap (λ x. x.attributes) e,
      ap (λ x. x.seg_sel) e,
      omega arith,
    )

module _ (table : ℕ → ℕ) (idt : List Descriptor) (handler vec : ℕ) (d : Descriptor) where
  -- `register_intr_handler` puts the handler's gate at its vector, and nothing elsewhere.
  pub register_intr_handler-here :
      vec < length idt
      → get_or (register_intr_handler table idt handler vec).1 vec d
        ≡ descriptor handler gate_attributes
  unfolding register_intr_handler idt_set_descriptor
  register_intr_handler-here lt =
      let same : (vec == vec) ≡ true = ground arith in
      rw (same) (get_or-set_self idt vec (descriptor handler gate_attributes) d lt)

  pub register_intr_handler-other :
      (v : ℕ)
      → v ≢ vec
      → get_or (register_intr_handler table idt handler vec).1 v d ≡ get_or idt v d
  unfolding register_intr_handler idt_set_descriptor
  register_intr_handler-other v o = get_or-set_ne idt vec v _ d (λ e. o (sym e))
