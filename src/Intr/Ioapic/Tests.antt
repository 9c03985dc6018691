-- ===== src/Intr/Ioapic/Tests.antt =====
-- A machine with controller 0 at 0xfec00000, for the lines from 0 on.
use cerberos.Base.{ℕ, ◌+◌, ◌≡◌, refl, if◌then◌else◌, ◌==◌}
use cerberos.Base.Result.{ok, ◌>>=◌}
use cerberos.Intr.Ioapic.{
  Ioapics, RedtblEntry, ioredtbl_reg_low, ioredtbl_reg_high, from_raw, ioapic_read, ioapic_register,
  ioapic_quickset_irq,
}

abbrev base : ℕ
base = 0xfec0_0000

abbrev machine : Ioapics
machine = record {
  ioapics = λ i. record {
    present = i == 0;
    ioapic_id = i;
    ioregsel = base + i;
    iowin = base + i + 0x10;
    gsi_base = 0;
    redtbl_entries = 24;
  };
  registers = λ a r. if r == 1 then 0x17_0011 else 0x1_0000;
}

abbrev keyboard : RedtblEntry
keyboard = from_raw 0x1_a021 0x0300_0000

-- The version register says how many entries there are.
entries_run : (do s ← ioapic_register machine 0 base 0; ok (s.ioapics 0).redtbl_entries) ≡ ok 24
unfolding ioapic_register ioapic_read
entries_run = refl

abbrev low_after : ℕ
low_after = ioapic_read (ioapic_quickset_irq machine 0 1 2 0x21) 0 (ioredtbl_reg_low 1)

abbrev high_after : ℕ
high_after = ioapic_read (ioapic_quickset_irq machine 0 1 2 0x21) 0 (ioredtbl_reg_high 1)

read_back : (r : ℕ) → (ioapic_read machine 0 r) ≡ (if r == 1 then 0x17_0011 else 0x1_0000)
unfolding ioapic_read
read_back r = refl
