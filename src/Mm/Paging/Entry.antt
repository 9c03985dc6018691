-- ===== src/Mm/Paging/Entry.antt =====
-- The fields of a page table entry: the flags and the address do not disturb each other.
use cerberos.Base.{
  ℕ, ◌+◌, ◌*◌, ◌/◌, ◌%◌, ◌^◌, ◌<◌, ◌≡◌, ◌≢◌, ◌∙◌, arith, bit_and, true, false, ◌==◌, Bool-cases,
  inl, inr,
}
use cerberos.Bits.Masks.{
  Disjoint, bit_and_low, read-write_field, read-write_other, bit_and-bit_or_self,
  bit_and-bit_or_other, bit_and_comm, bit_and_field, bit_and-clear_self, bit_and-clear_other,
}
use cerberos.Sys.Align.{align_down_lem}
use cerberos.Mm.Pmm.{page_size}
use cerberos.Mm.Paging.{
  page_addr, paging_set_flags, paging_clear_flags, paging_check_flags, paging_set_paddr,
  paging_get_paddr, page_aligned, paging_vaddr_idx,
}

-- `page_aligned` is the start of the page that holds the address.
pub page_aligned_lem : (x : ℕ) → x < 2 ^ 64 → page_aligned x ≡ x / 2 ^ 12 * 2 ^ 12
unfolding page_aligned
page_aligned_lem x h = ground (arith, align_down_lem 12 x h (omega arith))

-- The address in an entry is bits 12 to 51.
pub paging_get_paddr_lem : (e : ℕ) → paging_get_paddr e ≡ e / 2 ^ 12 % 2 ^ 40 * 2 ^ 12
unfolding paging_get_paddr
paging_get_paddr_lem e = bit_and_field 12 40 e

-- `paging_vaddr_idx` is the 9 bits of the address for that level.
pub paging_vaddr_idx_lem : (v level : ℕ) → paging_vaddr_idx v level ≡ v / 2 ^ (9 * level + 12) % 512
unfolding paging_vaddr_idx
paging_vaddr_idx_lem v level = bit_and_low 9 (v / 2 ^ (9 * level + 12))

-- The address that is written is the address that is read, for a page below 2^52.
pub paging_get_paddr-paging_set_paddr :
    (e p : ℕ) → p < 2 ^ 52 → p % page_size ≡ 0 → paging_get_paddr (paging_set_paddr e p) ≡ p
unfolding paging_get_paddr paging_set_paddr page_aligned
paging_get_paddr-paging_set_paddr e p small aligned =
    let same : (p % page_size == 0) ≡ true = ground arith in
    rw (same, read-write_field 64 e p page_addr (omega arith)) (bit_and_field 12 40 p ∙ omega arith)

-- Writing the address keeps every flag.
pub paging_check_flags-paging_set_paddr :
    (e p f : ℕ) → e < 2 ^ 64 → paging_check_flags (paging_set_paddr e p) f ≡ paging_check_flags e f
unfolding paging_check_flags paging_set_paddr
paging_check_flags-paging_set_paddr e p f h = elim (Bool-cases (bit_and f page_addr == 0)) [
  | inl legal ↦
      let apart : Disjoint page_addr f = bit_and_comm page_addr f ∙ ground arith in
      rw (legal, read-write_other 64 e (page_aligned p) page_addr f (omega arith) h apart)
  | inr illegal ↦ rw illegal
]

-- Setting flags keeps the address and sets them.
pub paging_set_flags_lem :
    (e f : ℕ)
    → Disjoint f page_addr
    → (paging_get_paddr (paging_set_flags e f) ≡ paging_get_paddr e)
      × (paging_check_flags (paging_set_flags e f) f ≡ true)
unfolding paging_get_paddr paging_set_flags paging_check_flags
paging_set_flags_lem e f legal =
    let ok : (bit_and f page_addr == 0) ≡ true = ground arith in
    (rw ok (bit_and-bit_or_other e f page_addr legal), rw (ok, bit_and-bit_or_self) (ground arith))

-- Clearing flags keeps the address and leaves none of them set.
pub paging_clear_flags_lem :
    (e f : ℕ)
    → e < 2 ^ 64
    → f < 2 ^ 64
    → Disjoint f page_addr
    → (paging_get_paddr (paging_clear_flags e f) ≡ paging_get_paddr e)
      × (bit_and (paging_clear_flags e f) f ≡ 0)
unfolding paging_get_paddr paging_clear_flags
paging_clear_flags_lem e f he hf legal =
    let ok : (bit_and f page_addr == 0) ≡ true = ground arith in
    (rw ok (bit_and-clear_other 64 e f page_addr he hf legal), rw ok (bit_and-clear_self 64 e f hf))

-- A request that names bits of the address changes nothing.
pub paging_flags_illegal :
    (e f : ℕ)
    → bit_and f page_addr ≢ 0
    → (paging_set_flags e f ≡ e) × (paging_clear_flags e f ≡ e) × (paging_check_flags e f ≡ false)
unfolding paging_set_flags paging_clear_flags paging_check_flags
paging_flags_illegal e f illegal = ground arith
