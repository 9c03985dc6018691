-- ===== src/Intr/Pic/Masks.antt =====
-- Which line of which controller a call masks.
use cerberos.Base.{
  ◌⊎◌, inl, inr, ℕ, ◌%◌, ◌^◌, ◌≤◌, ◌<◌, ◌≡◌, refl, arith, bit_and, bit_or, not, ◌&&◌, ◌||◌, [], ◌∷◌,
  ltb, ◌==◌, Bool-cases,
}
use cerberos.Bits.{test_bit, bit_not}
use cerberos.Bits.Laws.{test_bit-bit_and, test_bit-bit_or, test_bit-bit_not, test_bit-pow}
use cerberos.Bits.Masks.{test_bit-mod, pow_mono}
use cerberos.Intr.Pic.{
  data_port, line_of, slave_command_port, master_command_port, pic_enable_irq, pic_disable_irq,
  pic_eoi,
}

-- For one of the sixteen lines, `pic_enable_irq` writes to the mask register of the line's own
-- controller, once, and there clears the line's bit and keeps the seven others.
pub pic_enable_irq_lem :
    (inb : ℕ → ℕ) (irq bit : ℕ)
    → irq < 16
    → bit < 8
    → (mask : ℕ) × (pic_enable_irq inb irq ≡ (data_port irq, mask) ∷ [])
      × (test_bit mask bit ≡ (test_bit (inb (data_port irq)) bit && not (bit == line_of irq)))
unfolding pic_enable_irq
pic_enable_irq_lem inb irq bit h k =
    let old : ℕ = inb (data_port irq) in
    let line : ℕ = line_of irq in
    let small : line < 32 = ground arith in
    let fits : 2 ^ line < 2 ^ 32 = pow_mono line 32 small in
    (
      bit_and old (bit_not 32 (2 ^ line)) % 2 ^ 8,
      ground arith,
      rw
          (
            test_bit-mod 8 (bit_and old (bit_not 32 (2 ^ line))) bit,
            test_bit-bit_and old (bit_not 32 (2 ^ line)) bit,
            test_bit-bit_not 32 (2 ^ line) bit fits,
            test_bit-pow line bit,
          )
          (ground arith),
    )

-- For one of the sixteen lines, `pic_disable_irq` writes to the mask register of the line's own
-- controller, once, and there sets the line's bit and keeps the seven others.
pub pic_disable_irq_lem :
    (inb : ℕ → ℕ) (irq bit : ℕ)
    → irq < 16
    → bit < 8
    → (mask : ℕ) × (pic_disable_irq inb irq ≡ (data_port irq, mask) ∷ [])
      × (test_bit mask bit ≡ (test_bit (inb (data_port irq)) bit || (bit == line_of irq)))
unfolding pic_disable_irq
pic_disable_irq_lem inb irq bit h k =
    let old : ℕ = inb (data_port irq) in
    let line : ℕ = line_of irq in
    (
      bit_or old (2 ^ line) % 2 ^ 8,
      ground arith,
      rw
          (
            test_bit-mod 8 (bit_or old (2 ^ line)) bit,
            test_bit-bit_or old (2 ^ line) bit,
            test_bit-pow line bit,
          )
          (ground arith),
    )

-- `pic_eoi` of any of the sixteen lines, of the master's eight too, ends the interrupt at the slave
-- and then at the master, and of no other number does it write.
pub pic_eoi_lem :
    (irq : ℕ)
    → ((irq < 16) × (pic_eoi irq ≡ (slave_command_port, 0x20) ∷ (master_command_port, 0x20) ∷ []))
      ⊎ ((16 ≤ irq) × (pic_eoi irq ≡ []))
unfolding pic_eoi
pic_eoi_lem irq = elim (Bool-cases (ltb 15 irq)) [
  | inl e ↦ inr (ground arith, rw e refl)
  | inr e ↦ inl (ground arith, ground arith)
]
