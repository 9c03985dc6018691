-- ===== src/Intr/Lapic/Tests.antt =====
-- Processor 1, with a non-maskable interrupt at LINT1 of every processor.
use cerberos.Base.{ℕ, ◌^◌, ◌≡◌, refl, List, [], ◌∷◌, if◌then◌else◌, ◌==◌}
use cerberos.Base.Result.{panic}
use cerberos.Intr.Lapic.{LapicNmi, lapic_id, configure_nmi, lapic_eoi}

abbrev one : ℕ → ℕ
one reg = if reg == 0x20 then 2 ^ 24 else if reg == 0x110 then 2 else 0

abbrev nmis : List LapicNmi
nmis = record { acpi_processor_id = 0xff; flags = 5; lint = 1 } ∷ []

-- Vector 33 is in service, 34 is not.
eoi_run : (lapic_eoi one 33 ≡ (0xb0, 1) ∷ []) × (lapic_eoi one 34 ≡ [])
unfolding lapic_eoi
eoi_run = (refl, refl)

bad_input : configure_nmi one (record { acpi_processor_id = 1; flags = 0; lint = 2 } ∷ []) ≡ panic
unfolding configure_nmi lapic_id
bad_input = refl
