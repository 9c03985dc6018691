-- ===== src/Dev/Kbd/Tests.antt =====
-- The keyboard on a controller with no redirections.
use cerberos.Base.{ℕ, ◌≡◌, ◌≢◌, refl, arith, List, get_or, replicate, ◌==◌}
use cerberos.Intr.Idt.{Descriptor, descriptor}
use cerberos.Intr.Idt.Address.{isr_of}
use cerberos.Intr.Ioapic.{
  Ioapics, RedtblEntry, from_raw, ioredtbl_reg_low, ioredtbl_reg_high, ioapic_read,
}
use cerberos.Dev.Kbd.{kbd_init, kbd_init_lem}

abbrev controller : Ioapics
controller = record {
  ioapics = λ i. record {
    present = i == 0;
    ioapic_id = 0;
    ioregsel = 0xfec0_0000;
    iowin = 0xfec0_0010;
    gsi_base = 0;
    redtbl_entries = 24;
  };
  registers = λ a r. 0x1_0000;
}

abbrev handler : ℕ
handler = 0xffff_ffff_8000_1230

abbrev nothing : Descriptor
nothing = descriptor 0 0

abbrev after : (ℕ → ℕ) × List Descriptor × Ioapics
after = kbd_init handler (λ i. 0) (replicate 256 nothing) controller

abbrev entry : RedtblEntry
entry =
    from_raw (ioapic_read after.2 0 (ioredtbl_reg_low 1))
      (ioapic_read after.2 0 (ioredtbl_reg_high 1))

kbd_init_lem_example :
    (entry.interrupt_mask ≡ 0)
    × (isr_of (get_or after.1 entry.vector nothing) ≡ handler)
    × ((get_or after.1 entry.vector nothing).attributes ≡ 0x8e)
    × ((v : ℕ)
        → v ≢ entry.vector
        → get_or after.1 v nothing ≡ get_or (replicate 256 nothing) v nothing)
kbd_init_lem_example =
    kbd_init_lem handler (λ i. 0) (replicate 256 nothing) controller nothing refl (omega arith) refl
      (ioapic_read after.2 0 (ioredtbl_reg_low 1)) (ioapic_read after.2 0 (ioredtbl_reg_high 1))
      refl refl
