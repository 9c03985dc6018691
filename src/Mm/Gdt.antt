-- ===== src/Mm/Gdt.antt =====
-- src/kernel/mm/gdt.c, src/kernel/include/mm/gdt.h: the global descriptor table. `gdt_load` is the
-- `lgdt` instruction. In C, `x && y` is 0 or 1.
pub mod Segment
mod Tests
use cerberos.Base.{
  ℕ, ◌+◌, ◌-◌, ◌*◌, ◌/◌, ◌%◌, ◌^◌, bit_and, bit_or, not, List, [], ◌∷◌, if◌then◌else◌, ◌==◌,
}

-- The value of `x && 0xFF` and the like.
abbrev pub truth : ℕ → ℕ
truth x = if x == 0 then 0 else 1

-- `seg_desc_t`; `limit_high` and `flags` have four bits each.
pub record SegDesc : Type 0 where
  pub limit_low : ℕ
  pub base_low : ℕ
  pub base_mid : ℕ
  pub access : ℕ
  pub limit_high : ℕ
  pub flags : ℕ
  pub base_high : ℕ

-- `tss_desc_t`
pub record TssDesc : Type 0 where
  pub limit_15_0 : ℕ
  pub base_15_0 : ℕ
  pub base_23_16 : ℕ
  pub kind : ℕ
  pub zeroes1 : ℕ
  pub dpl : ℕ
  pub present : ℕ
  pub limit_19_16 : ℕ
  pub avl : ℕ
  pub zeroes2 : ℕ
  pub granularity : ℕ
  pub base_31_24 : ℕ
  pub base_63_32 : ℕ
  pub reserve1 : ℕ
  pub zeroes3 : ℕ
  pub reserve2 : ℕ

-- `sizeof(tss_t)`: 4 + 3 * 8 + 8 + 7 * 8 + 8 + 2 + 2.
abbrev pub tss_size : ℕ
tss_size = 4 + 3 * 8 + 8 + 7 * 8 + 8 + 2 + 2

pub gdt_create_entry : ℕ → ℕ → ℕ → ℕ → SegDesc
gdt_create_entry limit base access flags = record {
  limit_low = bit_and limit 0xffff;
  base_low = bit_and base 0xffff;
  base_mid = bit_and (base / 2 ^ 16) 0xff;
  access = access;
  limit_high = truth (limit / 2 ^ 16);
  flags = flags % 2 ^ 4;
  base_high = truth (base / 2 ^ 24);
}

-- The argument is the address of the task state segment.
pub gdt_create_tss_entry : ℕ → TssDesc
gdt_create_tss_entry base = record {
  limit_15_0 = bit_and tss_size 0xffff;
  base_15_0 = bit_and base 0xffff;
  base_23_16 = bit_and (base / 2 ^ 16) 0xff;
  kind = 9;
  zeroes1 = 0;
  dpl = 0;
  present = 1;
  limit_19_16 = bit_and (tss_size / 2 ^ 16) 0x0f;
  avl = 0;
  zeroes2 = 0;
  granularity = 0;
  base_31_24 = bit_and (base / 2 ^ 24) 0xff;
  base_63_32 = truth (base / 2 ^ 32);
  reserve1 = 0;
  zeroes3 = 0;
  reserve2 = 0;
}

-- GDT_ACCESS_PRESENT and so on, GDT_FLAGS_LONG_MODE
abbrev pub access_present : ℕ
access_present = 0x80

abbrev pub access_pl3 : ℕ
access_pl3 = 0x60

abbrev pub access_seg_sys : ℕ
access_seg_sys = 0x10

abbrev pub access_exec : ℕ
access_exec = 0x08

abbrev pub access_rw : ℕ
access_rw = 0x02

abbrev pub flags_long_mode : ℕ
flags_long_mode = 2

-- `gdt_t`
pub record Gdt : Type 0 where
  pub gdt_entries : List SegDesc
  pub tss_desc : TssDesc

-- `gdtr_t`
pub record Gdtr : Type 0 where
  pub size : ℕ
  pub address : ℕ

-- `address` and `tss` are those of the two globals; `sizeof(gdt_t)` is 5 * 8 + 16.
pub gdt_init : ℕ → ℕ → Gdt × Gdtr
unfolding gdt_create_entry gdt_create_tss_entry
gdt_init address tss =
    let kernel = bit_or access_present access_seg_sys in
    let user = bit_or (bit_or access_present access_pl3) access_seg_sys in
    (
      record {
        gdt_entries =
            gdt_create_entry 0 0 0 0
            ∷ gdt_create_entry 0 0 (bit_or (bit_or kernel access_exec) access_rw) flags_long_mode
            ∷ gdt_create_entry 0 0 (bit_or kernel access_rw) 0
            ∷ gdt_create_entry 0 0 (bit_or (bit_or user access_exec) access_rw) flags_long_mode
            ∷ gdt_create_entry 0 0 (bit_or user access_rw) 0
            ∷ [];
        tss_desc = gdt_create_tss_entry tss;
      },
      record { size = 5 * 8 + 16 - 1; address = address },
    )
