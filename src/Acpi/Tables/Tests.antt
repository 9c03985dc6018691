-- ===== src/Acpi/Tables/Tests.antt =====
-- The search for a table in a root table of two pointers.
use cerberos.Base.{ℕ, ◌≡◌, inl, refl, arith, some, if◌then◌else◌, ◌==◌}
use cerberos.Base.Result.{ok}
use cerberos.Mem.{Memory, strlen, strlen_loop}
use cerberos.Acpi.Tables.{
  Rsdt, IsSearched, entry_at, entry_count, acpi_find_table, acpi_find_table_lem,
}

-- A root table of version 1 at 100, with pointers to 50 and 60, and the string "APIC" at 200 and, as
-- a signature, at 60.
abbrev memory : Memory
memory = λ a.
    if a == 104
    then 44
    else if a == 136
    then 50
    else if a == 140
    then 60
    else if a == 60
    then 65
    else if a == 61
    then 80
    else if a == 62
    then 73
    else if a == 63
    then 67
    else if a == 200
    then 65
    else if a == 201
    then 80
    else if a == 202
    then 73
    else if a == 203
    then 67
    else 0

abbrev root : Rsdt
root = record { sdt_hdr = 100; acpi_version = 0; table_ptr = 136 }

length_of_name : strlen 5 memory 200 ≡ some 4
unfolding strlen strlen_loop
length_of_name = refl

acpi_find_table_lem_example :
    (found : ℕ) × (acpi_find_table 5 memory root 200 ≡ ok found)
    × IsSearched memory (entry_at memory 0 136) 200 0 (entry_count memory 0 100) found
acpi_find_table_lem_example =
    acpi_find_table_lem 5 memory root 200 (inl refl) (omega arith) (omega arith) length_of_name
