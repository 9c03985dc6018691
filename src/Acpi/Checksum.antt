-- ===== src/Acpi/Checksum.antt =====
-- `verify_rsdp_checksum` of src/kernel/acpi/acpi.c and `verify_sdt_checksum` of
-- src/kernel/acpi/sdt.c. Bytes are read from memory by their address.
mod Tests
use cerberos.Base.{
  ℕ, zero, suc, ◌+◌, ◌-◌, ◌*◌, ◌/◌, ◌%◌, ◌^◌, ◌≤◌, ◌≡◌, ◌↔◌, ◌⊎◌, ◌<◌, refl, ap, ◌∙◌, arith, Bool,
  true, false, not, ◌&&◌, ◌||◌, Option, none, some, if◌then◌else◌, ◌==◌, Bool-cases, inl, inr,
}
use cerberos.Base.Result.{Result, ok, panic, fault}

-- RSDP_DESC_SIZE_V1, RSDP_DESC_SIZE_V2, and the place of `revision`
abbrev pub rsdp_desc_size_v1 : ℕ
rsdp_desc_size_v1 = 20

abbrev pub rsdp_desc_size_v2 : ℕ
rsdp_desc_size_v2 = 36

abbrev pub revision_offset : ℕ
revision_offset = 15

-- The loop `checksum += *ptr; ptr++` of `rounds` rounds, on a `uint8_t`.
pub checksum_loop : (ℕ → ℕ) → ℕ → ℕ → ℕ → ℕ
checksum_loop m ptr checksum zero = checksum
checksum_loop m ptr checksum (suc rounds) =
    checksum_loop m (ptr + 1) ((checksum + m ptr) % 2 ^ 8) rounds

pub verify_rsdp_checksum : (ℕ → ℕ) → ℕ → Bool
unfolding checksum_loop
verify_rsdp_checksum m rsdp =
    let first = checksum_loop m rsdp 0 rsdp_desc_size_v1 in
    let second =
      checksum_loop m (rsdp + rsdp_desc_size_v1) first (rsdp_desc_size_v2 - rsdp_desc_size_v1) in
    if m (rsdp + revision_offset) == 0 then first == 0 else (first == 0) && (second == 0)

-- The table's length is that of its header.
pub verify_sdt_checksum : (ℕ → ℕ) → ℕ → ℕ → Bool
unfolding checksum_loop
verify_sdt_checksum m sdt_hdr length = checksum_loop m sdt_hdr 0 length == 0

-- The sum of `n` bytes.
abbrev pub sum_bytes : (ℕ → ℕ) → ℕ → ℕ → ℕ
sum_bytes m a zero = 0
sum_bytes m a (suc n) = m a + sum_bytes m (a + 1) n

checksum_loop_lem :
    (m : ℕ → ℕ) (a c n : ℕ) → c < 2 ^ 8 → checksum_loop m a c n ≡ (c + sum_bytes m a n) % 2 ^ 8
unfolding checksum_loop
checksum_loop_lem m a c zero h = omega arith
checksum_loop_lem m a c (suc n) h =
    omega (arith, checksum_loop_lem m (a + 1) ((c + m a) % 2 ^ 8) n (omega arith))

checksum_from_zero : (m : ℕ → ℕ) (a n : ℕ) → checksum_loop m a 0 n ≡ sum_bytes m a n % 2 ^ 8
checksum_from_zero m a n = omega (arith, checksum_loop_lem m a 0 n (omega arith))

checksum_two :
    (m : ℕ → ℕ) (a b n k : ℕ)
    → checksum_loop m b (checksum_loop m a 0 n) k ≡ (sum_bytes m a n + sum_bytes m b k) % 2 ^ 8
checksum_two m a b n k =
    let first = checksum_from_zero m a n in
    omega (arith, checksum_loop_lem m b (checksum_loop m a 0 n) k (omega arith))

accepts :
    (m : ℕ → ℕ) (rsdp first second : ℕ) {s t : ℕ}
    → first ≡ s
    → second ≡ t
    → ((if m (rsdp + 15) == 0 then first == 0 else (first == 0) && (second == 0)) ≡ true)
      ↔ ((s ≡ 0) × ((m (rsdp + 15) ≡ 0) ⊎ (t ≡ 0)))
accepts m rsdp first second e f = ground arith

-- `verify_rsdp_checksum` accepts a descriptor of revision 0 exactly if its first 20 bytes sum to 0
-- modulo 256, and one of a later revision exactly if besides all its 36 bytes do.
pub verify_rsdp_checksum_lem :
    (m : ℕ → ℕ) (rsdp : ℕ)
    → (verify_rsdp_checksum m rsdp ≡ true) ↔ (
        (sum_bytes m rsdp 20 % 2 ^ 8 ≡ 0)
        × ((m (rsdp + 15) ≡ 0) ⊎ ((sum_bytes m rsdp 20 + sum_bytes m (rsdp + 20) 16) % 2 ^ 8 ≡ 0)))
unfolding verify_rsdp_checksum
verify_rsdp_checksum_lem m rsdp =
    accepts m rsdp (checksum_loop m rsdp 0 20)
      (checksum_loop m (rsdp + 20) (checksum_loop m rsdp 0 20) 16) (checksum_from_zero m rsdp 20)
      (checksum_two m rsdp (rsdp + 20) 20 16)

-- `verify_sdt_checksum` accepts a table exactly if its bytes sum to 0 modulo 256.
pub verify_sdt_checksum_lem :
    (m : ℕ → ℕ) (sdt_hdr length : ℕ)
    → (verify_sdt_checksum m sdt_hdr length ≡ true) ↔ (sum_bytes m sdt_hdr length % 2 ^ 8 ≡ 0)
unfolding verify_sdt_checksum
verify_sdt_checksum_lem m sdt_hdr length =
    rw (checksum_loop_lem m sdt_hdr 0 length (omega arith)) (ground arith)
