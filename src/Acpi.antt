-- ===== src/Acpi.antt =====
-- src/kernel/acpi: the tables of the firmware.
pub mod Checksum
pub mod Madt
pub mod Tables
