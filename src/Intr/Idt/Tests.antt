-- ===== src/Intr/Idt/Tests.antt =====
-- A table of entry points in the kernel's upper half.
use cerberos.Base.{ℕ, ◌+◌, ◌*◌, List, replicate}
use cerberos.Intr.Idt.{Descriptor, descriptor}

abbrev empty : Descriptor
empty = descriptor 0 0

abbrev empty_idt : List Descriptor
empty_idt = replicate 256 empty

abbrev entry_points : ℕ → ℕ
entry_points i = 0xffff_ffff_8000_0000 + 16 * i
