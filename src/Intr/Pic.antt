-- ===== src/Intr/Pic.antt =====
-- src/kernel/intr/pic.c, src/kernel/include/intr/pic.h: the 8259 interrupt controllers. A function
-- is the list of its port writes, in order; what `inb` reads from a port is an argument. `io_wait`
-- is left out.
pub mod Masks
mod Tests
use cerberos.Base.{
  ℕ, ◌+◌, ◌-◌, ◌*◌, ◌/◌, ◌%◌, ◌^◌, bit_and, bit_or, ◌||◌, List, [], ◌∷◌, ◌++◌, if◌then◌else◌, ltb,
  leb,
}
use cerberos.Bits.{bit_not}

-- A port and the byte that `outb` writes to it.
abbrev pub Write : Type 0
Write = ℕ × ℕ

abbrev pub master_command_port : ℕ
master_command_port = 0x20

abbrev pub master_data_port : ℕ
master_data_port = 0x21

abbrev pub slave_command_port : ℕ
slave_command_port = 0xa0

abbrev pub slave_data_port : ℕ
slave_data_port = 0xa1

-- ICW1, ICW2, ICW3 and ICW4, then everything masked.
pub pic_remap : List Write
pic_remap =
    (master_command_port, 0x11)
    ∷ (slave_command_port, 0x11)
    ∷ (master_data_port, 0x20)
    ∷ (slave_data_port, 0x28)
    ∷ (master_data_port, 0x04)
    ∷ (slave_data_port, 0x02)
    ∷ (master_data_port, 0x01)
    ∷ (slave_data_port, 0x01)
    ∷ (master_data_port, 0xff)
    ∷ (slave_data_port, 0xff)
    ∷ []

pub pic_disable_all : List Write
pic_disable_all = (master_data_port, 0xff) ∷ (slave_data_port, 0xff) ∷ []

pub pic_disable : List Write
unfolding pic_remap pic_disable_all
pic_disable = pic_remap ++ pic_disable_all

-- The data port of the controller that has the line, and the line on it.
abbrev pub data_port : ℕ → ℕ
data_port irq = if ltb irq 8 then master_data_port else slave_data_port

abbrev pub line_of : ℕ → ℕ
line_of irq = if ltb irq 8 then irq else irq - 8

-- The mask is a `uint8_t`; `~(1 << irq)` is an `int`.
pub pic_enable_irq : (ℕ → ℕ) → ℕ → List Write
pic_enable_irq inb irq =
    if ltb 15 irq
    then []
    else (data_port irq, bit_and (inb (data_port irq)) (bit_not 32 (2 ^ line_of irq)) % 2 ^ 8) ∷ []

pub pic_disable_irq : (ℕ → ℕ) → ℕ → List Write
pic_disable_irq inb irq =
    if ltb 15 irq
    then []
    else (data_port irq, bit_or (inb (data_port irq)) (2 ^ line_of irq) % 2 ^ 8) ∷ []

-- The second test is of `irq >= 8 || irq <= 15`.
pub pic_eoi : ℕ → List Write
pic_eoi irq =
    if ltb 15 irq
    then []
    else (if leb 8 irq || leb irq 15 then (slave_command_port, 0x20) ∷ [] else [])
      ++ ((master_command_port, 0x20) ∷ [])

-- SLAVE_LINE is 2.
pub pic_init : (ℕ → ℕ) → List Write
unfolding pic_remap pic_disable_all pic_enable_irq
pic_init inb = pic_remap ++ pic_disable_all ++ pic_enable_irq inb 2
