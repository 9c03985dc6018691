-- ===== src/Acpi/Madt/Tests.antt =====
-- A table with a local controller, of 8 bytes, and an I/O controller, of 12.
use cerberos.Base.{ℕ, ◌+◌, ◌≡◌, refl, arith, List, [], ◌∷◌, if◌then◌else◌, ◌==◌}
use cerberos.Base.Result.{Result, ok, fault, ◌>>=◌}
use cerberos.Acpi.Madt.{
  Madt, MadtInfo, parse_madt, entry_loop, count_entry, store_entry, reset_madt_info,
}
use cerberos.Acpi.Madt.Scan.{Entries, at_end, entry, visit, parse_madt_lem}

abbrev table : Madt
table = record {
  total = 0x2c + 20;
  lapic_addr = 0xfee0_0000;
  bytes = λ i. if i == 1 then 8 else if i == 8 then 1 else if i == 9 then 12 else 0;
}

abbrev seen : Result MadtInfo → Result (List ℕ × List ℕ × ℕ)
seen r = do info ← r; ok (info.arrays 0, info.arrays 1, info.lapic_paddr)

table_run : seen (parse_madt 256 table) ≡ ok (0 ∷ [], 8 ∷ [], 0xfee0_0000)
unfolding parse_madt entry_loop count_entry store_entry reset_madt_info
table_run = refl

-- An entry of length 0 keeps the loop where it is.
stuck_run :
    entry_loop count_entry
      (record { total = 0x2c + 20; lapic_addr = 0; bytes = λ i. 0 })
      40
      0
      reset_madt_info
    ≡ fault
unfolding entry_loop count_entry reset_madt_info
stuck_run = refl

table-Entries : Entries table 0 (0 ∷ 8 ∷ [])
table-Entries =
    entry 0 (8 ∷ []) (omega arith) (omega arith) (omega arith)
      (entry 8 [] (omega arith) (omega arith) (omega arith) (at_end 20 (omega arith)))

parse_madt_lem_example : parse_madt 3 table ≡ (do
  counted ←
      visit count_entry table
        (0 ∷ 8 ∷ [])
        (record reset_madt_info { lapic_paddr = table.lapic_addr })
  visit (store_entry table) table (0 ∷ 8 ∷ []) counted)
parse_madt_lem_example =
    parse_madt_lem 3 table (0 ∷ 8 ∷ []) (omega arith) (omega arith) table-Entries (omega arith)
