-- ===== src/Mm.antt =====
-- src/kernel/mm: memory management.
pub mod Pmm
pub mod Paging
pub mod Kheap
pub mod Gdt
