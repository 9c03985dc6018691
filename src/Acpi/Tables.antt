-- ===== src/Acpi/Tables.antt =====
-- `acpi_find_table` and `acpi_init` of src/kernel/acpi/acpi.c. Memory is read by bytes, the low byte of
-- a number first; strings are given by their addresses. Messages to the log are left out.
mod Tests
use cerberos.Base.{
  ℕ, zero, suc, ◌+◌, ◌-◌, ◌*◌, ◌/◌, ◌%◌, ◌^◌, ◌<◌, ◌≤◌, ◌≡◌, ◌≢◌, ◌⊎◌, inl, inr, refl, arith, Bool,
  true, false, not, ◌&&◌, ◌||◌, Option, none, some, if◌then◌else◌, ◌==◌, Bool-cases,
}
use cerberos.Base.Int.{ℤ, pos, negsuc}
use cerberos.Base.Result.{Result, ok, panic, fault, ◌>>=◌}
use cerberos.Sys.{add64, sub64}
use cerberos.Mem.{Memory, strlen, strncmp}
use cerberos.Acpi.Checksum.{verify_rsdp_checksum, verify_sdt_checksum}
use cerberos.Acpi.Madt.{Madt, MadtInfo, parse_madt}

-- ACPI_V1, ACPI_V2, `sizeof(sdt_header_t)` and VA_HHDM
abbrev pub acpi_v1 : ℕ
acpi_v1 = 0

abbrev pub acpi_v2 : ℕ
acpi_v2 = 2

abbrev pub sdt_header_size : ℕ
sdt_header_size = 36

abbrev pub va_hhdm : ℕ
va_hhdm = 0xffff_8000_0000_0000

-- P2V
abbrev pub p2v : ℕ → ℕ
p2v paddr = add64 paddr va_hhdm

abbrev pub read32 : Memory → ℕ → ℕ
read32 m a = m a + 2 ^ 8 * m (a + 1) + 2 ^ 16 * m (a + 2) + 2 ^ 24 * m (a + 3)

abbrev pub read64 : Memory → ℕ → ℕ
read64 m a = read32 m a + 2 ^ 32 * read32 m (a + 4)

-- `rsdt_t`
pub record Rsdt : Type 0 where
  pub sdt_hdr : ℕ
  pub acpi_version : ℕ
  pub table_ptr : ℕ

-- `sdt_hdr->length`
abbrev pub sdt_length : Memory → ℕ → ℕ
sdt_length m sdt_hdr = read32 m (sdt_hdr + 4)

-- `!strncmp(table, sdt_hdr->signature, 4)`
abbrev pub has_signature : Memory → ℕ → ℕ → Bool
has_signature m table sdt_hdr = elim (strncmp m table sdt_hdr 4) [
  | pos n ↦ n == 0
  | negsuc n ↦ false
]

-- The two loops, over the pointers that `entry` gives, from number `i` on.
pub find_loop : Memory → (ℕ → ℕ) → ℕ → ℕ → ℕ → ℕ
find_loop m entry table i zero = 0
find_loop m entry table i (suc rounds) =
    if has_signature m table (entry i) then entry i else find_loop m entry table (i + 1) rounds

-- `fuel` is for `strlen`, which faults on a string with no end.
pub acpi_find_table : ℕ → Memory → Rsdt → ℕ → Result ℕ
unfolding find_loop
acpi_find_table fuel m rsdt table =
    let bytes = sub64 (sdt_length m rsdt.sdt_hdr) sdt_header_size in
    let entry32 = λ (i : ℕ). read32 m (rsdt.table_ptr + 4 * i) in
    let entry64 = λ (i : ℕ). read64 m (rsdt.table_ptr + 8 * i) in
    let search =
      (if rsdt.acpi_version == acpi_v1
        then find_loop m entry32 table 0 (bytes / 4)
        else if rsdt.acpi_version == acpi_v2
        then find_loop m entry64 table 0 (bytes / 8)
        else 0) in
    if rsdt.sdt_hdr == 0
    then ok 0
    else if rsdt.table_ptr == 0
    then ok 0
    else elim (strlen fuel m table) [
      | none ↦ fault
      | some len ↦ if len == 4 then ok search else ok 0
    ]

-- The table of `madt.c` at an address.
abbrev pub madt_at : Memory → ℕ → Madt
madt_at m a = record {
  total = sdt_length m a;
  lapic_addr = read32 m (a + 36);
  bytes = λ i. m (a + 44 + i);
}

-- `rsdp_tag` is the address in the boot loader's tag, `apic` that of the string "APIC", and `rounds`
-- are for the loops of `parse_madt`.
unfoldable pub acpi_init : ℕ → ℕ → Memory → Option ℕ → ℕ → Result (Rsdt × MadtInfo)
acpi_init fuel rounds m rsdp_tag apic = elim rsdp_tag [
  | none ↦ panic
  | some rsdp ↦
      let sdt_hdr = p2v (read32 m (rsdp + 16)) in
      let rsdt : Rsdt = record {
        sdt_hdr = sdt_hdr;
        acpi_version = m (rsdp + 15);
        table_ptr = sdt_hdr + sdt_header_size;
      } in
      let parsed : ℕ → Result (Rsdt × MadtInfo) =
        λ madt_hdr. (do info ← parse_madt rounds (madt_at m (p2v madt_hdr)); ok (rsdt, info)) in
      let searched : Result (Rsdt × MadtInfo) = (do
        madt_hdr ← acpi_find_table fuel m rsdt apic
        if madt_hdr == 0 then panic else parsed madt_hdr) in
      if not (verify_rsdp_checksum m rsdp)
      then panic
      else if not (verify_sdt_checksum m sdt_hdr (sdt_length m sdt_hdr))
      then panic
      else searched
]

-- The pointers of the root table, and how many there are: of 32 bits in version 1, and else of 64.
abbrev pub entry_at : Memory → ℕ → ℕ → ℕ → ℕ
entry_at m acpi_version table_ptr i =
    if acpi_version == acpi_v1 then read32 m (table_ptr + 4 * i) else read64 m (table_ptr + 8 * i)

abbrev pub entry_count : Memory → ℕ → ℕ → ℕ
entry_count m acpi_version sdt_hdr =
    let bytes = sub64 (sdt_length m sdt_hdr) sdt_header_size in
    if acpi_version == acpi_v1 then bytes / 4 else bytes / 8

-- What a search among `n` pointers comes to: null if none leads to a table with the signature, and
-- else the first that does.
abbrev pub IsSearched : Memory → (ℕ → ℕ) → ℕ → ℕ → ℕ → ℕ → Type 0
IsSearched m entry table i n found =
    ((found ≡ 0) × ((j : ℕ) → i ≤ j → j < n → has_signature m table (entry j) ≡ false))
    ⊎ ((k : ℕ) × (i ≤ k)
        × (k < n)
        × (found ≡ entry k)
        × (has_signature m table (entry k) ≡ true)
        × ((j : ℕ) → i ≤ j → j < k → has_signature m table (entry j) ≡ false))

find_loop_lem :
    (m : Memory) (entry : ℕ → ℕ) (table rounds i n : ℕ)
    → i + rounds ≡ n
    → IsSearched m entry table i n (find_loop m entry table i rounds)
unfolding find_loop
find_loop_lem m entry table zero i n e = inl (refl, λ j l1 l2. absurd (omega arith))
find_loop_lem m entry table (suc rounds) i n e =
    elim (Bool-cases (has_signature m table (entry i))) [
      | inl hit ↦
          inr (i, omega arith, omega arith, (rw (hit) refl), hit, λ j l1 l2. absurd (omega arith))
      | inr miss ↦ elim (find_loop_lem m entry table rounds (i + 1) n (omega arith)) [
        | inl q ↦ inl (
          (rw (miss) q.0),
          λ j l1 l2. elim (Bool-cases (j == i)) [
            | inl e' ↦ (let same : j ≡ i = ground arith in rw (same) miss)
            | inr o ↦ q.1 j (ground arith) (omega arith)
          ],
        )
        | inr q ↦ inr (
          q.0,
          omega (arith, q.1),
          omega (arith, q.2),
          (rw (miss) q.3),
          q.4,
          λ j l1 l2. elim (Bool-cases (j == i)) [
            | inl e' ↦ (let same : j ≡ i = ground arith in rw (same) miss)
            | inr o ↦ q.5 j (ground arith) l2
          ],
        )
      ]
    ]

runs :
    (fuel : ℕ) (m : Memory) (hdr v ptr table : ℕ)
    → (v ≡ acpi_v1) ⊎ (v ≡ acpi_v2)
    → hdr ≢ 0
    → ptr ≢ 0
    → strlen fuel m table ≡ some 4
    → acpi_find_table fuel m (record { sdt_hdr = hdr; acpi_version = v; table_ptr = ptr }) table
      ≡ ok (find_loop m (entry_at m v ptr) table 0 (entry_count m v hdr))
unfolding acpi_find_table
runs fuel m hdr v ptr table version h p len =
    let h0 : (hdr == 0) ≡ false = ground arith in
    let p0 : (ptr == 0) ≡ false = ground arith in
    elim version [ inl e ↦ (rw (h0, p0, len, e) refl) | inr e ↦ (rw (h0, p0, len, e) refl) ]

-- With a root table of version 0 or 2 at an address that is not null, `acpi_find_table` of a string of
-- length 4 returns the first table that it lists with that signature, or null if there is none.
pub acpi_find_table_lem :
    (fuel : ℕ) (m : Memory) (rsdt : Rsdt) (table : ℕ)
    → (rsdt.acpi_version ≡ acpi_v1) ⊎ (rsdt.acpi_version ≡ acpi_v2)
    → rsdt.sdt_hdr ≢ 0
    → rsdt.table_ptr ≢ 0
    → strlen fuel m table ≡ some 4
    → (found : ℕ) × (acpi_find_table fuel m rsdt table ≡ ok found)
      × IsSearched m
          (entry_at m rsdt.acpi_version rsdt.table_ptr)
          table
          0
          (entry_count m rsdt.acpi_version rsdt.sdt_hdr)
          found
acpi_find_table_lem fuel m rsdt table version hdr ptr len =
    let n = entry_count m rsdt.acpi_version rsdt.sdt_hdr in
    let entry = entry_at m rsdt.acpi_version rsdt.table_ptr in
    (
      find_loop m entry table 0 n,
      runs fuel m rsdt.sdt_hdr rsdt.acpi_version rsdt.table_ptr table version hdr ptr len,
      find_loop_lem m entry table n 0 n (omega arith),
    )
