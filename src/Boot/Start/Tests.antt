-- ===== src/Boot/Start/Tests.antt =====
-- The start of the kernel with a boot loader that gives a memory map and no other tag.
use cerberos.Base.{◌^◌, some, List, [], ◌∷◌, ◌+◌, ◌*◌, none, false}
use cerberos.Mm.Pmm.{Pmm}
use cerberos.Mm.Pmm.Init.{MmapEntry}
use cerberos.Mm.Kheap.{Kheap}
use cerberos.Intr.Apic.{Apic}
use cerberos.Boot.Start.{Platform, Handover}

abbrev memmap : List MmapEntry
memmap = record { base = 0; length = 2 ^ 25; kind = 1 } ∷ []

abbrev nothing_else : Handover
nothing_else = record {
  memmap = some memmap;
  kernel_base = none;
  pmrs = none;
  hhdm = none;
  rsdp = none;
  smp = none;
}

abbrev platform : Platform
platform = record {
  alloc_area = 0x10_0000;
  gdt_address = 0x20_0000;
  tss_address = 0x20_1000;
  idt_address = 0x20_2000;
  isr_addr_table = λ i. 0x30_0000 + 16 * i;
  wrapper_page_fault_intr_handler = 0x40_0000;
  wrapper_kbd_intr_handler = 0x40_0100;
  smp_ap_entry = 0x40_0200;
  pmr_writable = 2;
  memory = λ a. 0;
  apic_signature = 0x20_4000;
  lapic_read = λ r. 0;
  unset = record {
    vector = 0;
    delivery_mode = 0;
    dest_mode = 0;
    delivery_status = 0;
    pin_polarity = 0;
    remote_irr = 0;
    trigger_mode = 0;
    interrupt_mask = 0;
    reserved_low = 0;
    reserved_high = 0;
    destination = 0;
  };
}

abbrev no_heap : Kheap
no_heap = record {
  headers = λ a. record { next = 0; prev = 0; free_next = 0; free_prev = 0; size = 0 };
  kheap_top = 0;
  kheap_max = 0;
  free_head = 0;
  block_head = 0;
}

abbrev no_apic : Apic
no_apic = record {
  id = 0;
  bsp_lapic_id_valid = false;
  io_apic_valid = false;
  io = record {
    ioapics = λ i. record {
      present = false;
      ioapic_id = 0;
      ioregsel = 0;
      iowin = 0;
      gsi_base = 0;
      redtbl_entries = 0;
    };
    registers = λ a r. 0;
  };
}
