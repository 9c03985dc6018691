-- ===== src/Mm/Gdt/Segment.antt =====
-- The base and the limit that the processor reads from a descriptor.
use cerberos.Base.{ℕ, ◌+◌, ◌*◌, ◌/◌, ◌%◌, ◌^◌, ◌<◌, ◌≤◌, ◌≡◌, ◌↔◌, refl, arith}
use cerberos.Bits.Masks.{bit_and_low}
use cerberos.Mm.Gdt.{SegDesc, TssDesc, truth, gdt_create_entry, gdt_create_tss_entry}

abbrev pub base_of : SegDesc → ℕ
base_of d = d.base_low + 2 ^ 16 * d.base_mid + 2 ^ 24 * d.base_high

abbrev pub limit_of : SegDesc → ℕ
limit_of d = d.limit_low + 2 ^ 16 * d.limit_high

abbrev pub tss_base_of : TssDesc → ℕ
tss_base_of d = d.base_15_0 + 2 ^ 16 * d.base_23_16 + 2 ^ 24 * d.base_31_24 + 2 ^ 32 * d.base_63_32

-- A segment descriptor has the base it is given up to bit 23 and the limit up to bit 15; of the
-- bits above, it has only one, that says whether any of them is set.
pub gdt_create_entry_lem :
    (limit base access flags : ℕ)
    → base < 2 ^ 32
    → limit < 2 ^ 20
    → (base_of (gdt_create_entry limit base access flags)
        ≡ base % 2 ^ 24 + 2 ^ 24 * truth (base / 2 ^ 24))
      × (limit_of (gdt_create_entry limit base access flags)
          ≡ limit % 2 ^ 16 + 2 ^ 16 * truth (limit / 2 ^ 16))
unfolding gdt_create_entry
gdt_create_entry_lem limit base access flags h k = (
  rw (bit_and_low 16 base, bit_and_low 8 (base / 2 ^ 16)) (omega arith),
  rw (bit_and_low 16 limit) refl,
)

-- The descriptor of a task state segment above 4 GiB has the low half of its address and 1 as the
-- high half, so it is the address only for the 4 GiB from 2 ^ 32 on.
pub gdt_create_tss_entry_high :
    (tss : ℕ)
    → 2 ^ 32 ≤ tss
    → tss < 2 ^ 64
    → (tss_base_of (gdt_create_tss_entry tss) ≡ 2 ^ 32 + tss % 2 ^ 32)
      × ((tss_base_of (gdt_create_tss_entry tss) ≡ tss) ↔ (tss < 2 ^ 33))
unfolding gdt_create_tss_entry
gdt_create_tss_entry_high tss h k =
    let set : truth (tss / 2 ^ 32) ≡ 1 = ground arith in
    let value : tss_base_of (gdt_create_tss_entry tss) ≡ 2 ^ 32 + tss % 2 ^ 32 =
      rw (bit_and_low 16 tss, bit_and_low 8 (tss / 2 ^ 16), bit_and_low 8 (tss / 2 ^ 24), set)
        (omega arith) in
    (value, rw value (λ e. omega arith, λ e. omega arith))
