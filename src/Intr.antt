-- ===== src/Intr.antt =====
-- src/kernel/intr: the interrupt descriptors and controllers.
pub mod Idt
pub mod Pic
pub mod Ioapic
pub mod LapicReg
pub mod Lapic
pub mod Apic
