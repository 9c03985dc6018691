-- ===== src/Mm/Gdt/Tests.antt =====
-- A task state segment in the kernel's upper half, and the descriptors of the kernel.
use cerberos.Base.{ℕ, ◌≡◌, refl, map, [], ◌∷◌}
use cerberos.Mm.Gdt.{gdt_create_entry, gdt_init}

abbrev tss : ℕ
tss = 0xffff_ffff_8000_5000

access_run :
    map (λ d. d.access) (gdt_init 0x1000 tss).0.gdt_entries ≡ 0 ∷ 0x9a ∷ 0x92 ∷ 0xfa ∷ 0xf2 ∷ []
unfolding gdt_init gdt_create_entry
access_run = refl
