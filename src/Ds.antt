-- ===== src/Ds.antt =====
-- src/lib/ds: the kernel's data structures.
pub mod Bitmap
pub mod Queue
pub mod Vector
pub mod Map
