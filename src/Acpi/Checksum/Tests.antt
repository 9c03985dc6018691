-- ===== src/Acpi/Checksum/Tests.antt =====
-- A descriptor of revision 0, at address 0, whose checksum byte is 251.
use cerberos.Base.{ℕ, ◌≡◌, refl, true, false, if◌then◌else◌, ◌==◌}
use cerberos.Acpi.Checksum.{checksum_loop, verify_rsdp_checksum}

abbrev descriptor : ℕ → ℕ
descriptor a = if a == 0 then 5 else if a == 8 then 251 else 0

accepted : verify_rsdp_checksum descriptor 0 ≡ true
unfolding verify_rsdp_checksum checksum_loop
accepted = refl

rejected : verify_rsdp_checksum descriptor 1 ≡ false
unfolding verify_rsdp_checksum checksum_loop
rejected = refl
