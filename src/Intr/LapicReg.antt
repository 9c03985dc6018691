-- ===== src/Intr/LapicReg.antt =====
-- The registers of the local interrupt controller and the entries of its vector table, in
-- src/kernel/include/intr/lapic.h.
use cerberos.Base.{ℕ, ◌+◌, ◌*◌, ◌^◌}

-- `lapic_reg_e`
pub data LapicReg : Type 0 where
  lapic_id_reg lapic_version_reg lapic_eoi_reg lapic_spr_intr_vec_reg lapic_icr_low : LapicReg
  lapic_icr_high lapic_isr_31_0 lapic_isr_63_32 lapic_isr_95_64 lapic_isr_127_96 : LapicReg
  lapic_isr_159_128 lapic_isr_191_160 lapic_isr_223_192 lapic_isr_255_224 : LapicReg
  lapic_lvt_cmi_reg lapic_lvt_timer_reg lapic_lvt_thermal_reg lapic_lvt_perf_reg : LapicReg
  lapic_lvt_lint0_reg lapic_lvt_lint1_reg lapic_lvt_error_reg lapic_init_count_reg : LapicReg
  lapic_curr_count_reg lapic_divide_config_reg : LapicReg

-- The values of the enumeration: offsets from the base of the registers.
abbrev pub offset : LapicReg → ℕ
offset lapic_id_reg = 0x20
offset lapic_version_reg = 0x30
offset lapic_eoi_reg = 0xb0
offset lapic_spr_intr_vec_reg = 0xf0
offset lapic_icr_low = 0x300
offset lapic_icr_high = 0x310
offset lapic_isr_31_0 = 0x100
offset lapic_isr_63_32 = 0x110
offset lapic_isr_95_64 = 0x120
offset lapic_isr_127_96 = 0x130
offset lapic_isr_159_128 = 0x140
offset lapic_isr_191_160 = 0x150
offset lapic_isr_223_192 = 0x160
offset lapic_isr_255_224 = 0x170
offset lapic_lvt_cmi_reg = 0x2f0
offset lapic_lvt_timer_reg = 0x320
offset lapic_lvt_thermal_reg = 0x330
offset lapic_lvt_perf_reg = 0x340
offset lapic_lvt_lint0_reg = 0x350
offset lapic_lvt_lint1_reg = 0x360
offset lapic_lvt_error_reg = 0x370
offset lapic_init_count_reg = 0x380
offset lapic_curr_count_reg = 0x390
offset lapic_divide_config_reg = 0x3e0

-- LVT_NMI, LVT_HIGH and LVT_LOW, LVT_EDGE and LVT_LEVEL, LVT_UNMASK
abbrev pub lvt_nmi_mode : ℕ
lvt_nmi_mode = 4

abbrev pub lvt_high : ℕ
lvt_high = 0

abbrev pub lvt_low : ℕ
lvt_low = 1

abbrev pub lvt_edge : ℕ
lvt_edge = 0

abbrev pub lvt_level : ℕ
lvt_level = 1

abbrev pub lvt_unmask : ℕ
lvt_unmask = 0

-- `lvt_entry_t`, a union with a word.
pub record LvtEntry : Type 0 where
  pub vector : ℕ
  pub delivery_mode : ℕ
  pub reserved0 : ℕ
  pub deliver_status : ℕ
  pub pin_polarity : ℕ
  pub remote_irr : ℕ
  pub trigger_level : ℕ
  pub mask : ℕ
  pub reserved1 : ℕ

abbrev pub lvt_raw : LvtEntry → ℕ
lvt_raw e =
    e.vector
    + 2 ^ 8 * e.delivery_mode
    + 2 ^ 11 * e.reserved0
    + 2 ^ 12 * e.deliver_status
    + 2 ^ 13 * e.pin_polarity
    + 2 ^ 14 * e.remote_irr
    + 2 ^ 15 * e.trigger_level
    + 2 ^ 16 * e.mask
    + 2 ^ 17 * e.reserved1
