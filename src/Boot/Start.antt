-- ===== src/Boot/Start.antt =====
-- `_start` of src/kernel/boot/boot.c: the calls that start the kernel, each on the state that the ones
-- before it leave.
mod Tests
use mathlib.Core.Option
use cerberos.Base.{
  ℕ, ◌+◌, ◌*◌, ◌^◌, ◌≡◌, ◌⊎◌, inl, inr, false, Option, none, some, List, [], ◌∷◌, ◌++◌, map,
}
use cerberos.Base.Result.{Result, ok, ◌>>=◌}
use cerberos.Mem.{Memory}
use cerberos.Mm.Gdt.{Gdt, Gdtr, gdt_init}
use cerberos.Mm.Pmm.{Pmm}
use cerberos.Mm.Pmm.Init.{MmapEntry, pmm_init}
use cerberos.Mm.Paging.{Machine}
use cerberos.Mm.Paging.Init.{Pmr, paging_init}
use cerberos.Mm.Kheap.{Kheap, kheap_init}
use cerberos.Intr.Idt.{Descriptor, Idtr, idt_init, register_intr_handler}
use cerberos.Intr.Pic.{pic_disable}
use cerberos.Intr.Ioapic.{Ioapics, RedtblEntry}
use cerberos.Intr.Lapic.{LapicNmi, Write}
use cerberos.Intr.Apic.{Apic, MadtIoapic, MadtOverride, apic_init}
use cerberos.Acpi.Madt.{Madt, MadtInfo}
use cerberos.Acpi.Tables.{Rsdt, read32, p2v, madt_at, acpi_find_table, acpi_init}
use cerberos.Dev.Com.{com_init}
use cerberos.Dev.Kbd.{kbd_init}
use cerberos.Boot.{SmpInfo, smp_init}

-- The tags of the handover, `none` where one is missing: the memory map, the bases of the kernel, the
-- regions, the direct map, the ACPI root pointer, and the bootstrap processor with the processors.
pub record Handover : Type 0 where
  pub memmap : Option (List MmapEntry)
  pub kernel_base : Option (ℕ × ℕ)
  pub pmrs : Option (List Pmr)
  pub hhdm : Option ℕ
  pub rsdp : Option ℕ
  pub smp : Option (ℕ × List SmpInfo)

-- What stands outside the C code: the addresses of globals and of code in assembly, the constant of
-- the boot protocol, the memory that the firmware filled, and what the local controller reads.
-- `unset` is what the stack held in front of a local variable that is not set in full.
pub record Platform : Type 0 where
  pub alloc_area : ℕ
  pub gdt_address : ℕ
  pub tss_address : ℕ
  pub idt_address : ℕ
  pub isr_addr_table : ℕ → ℕ
  pub wrapper_page_fault_intr_handler : ℕ
  pub wrapper_kbd_intr_handler : ℕ
  pub smp_ap_entry : ℕ
  pub pmr_writable : ℕ
  pub memory : Memory
  pub apic_signature : ℕ
  pub lapic_read : ℕ → ℕ
  pub unset : RedtblEntry

-- The globals, with the tables and the frames of Mm/Paging, and the writes to ports and to the local
-- controller.
pub record Kernel : Type 0 where
  pub gdt : Gdt
  pub gdtr : Gdtr
  pub isr_addr_table : ℕ → ℕ
  pub idt : List Descriptor
  pub idtr : Idtr
  pub machine : Machine
  pub kheap : Kheap
  pub rsdt : Rsdt
  pub madt_info : MadtInfo
  pub apic : Apic
  pub processors : List SmpInfo
  pub port_writes : List (ℕ × ℕ)
  pub lapic_writes : List Write

-- KHEAP_INIT_PAGES and PAGE_FAULT_IRQ_VEC
abbrev pub kheap_init_pages : ℕ
kheap_init_pages = 1

abbrev pub page_fault_irq_vec : ℕ
page_fault_irq_vec = 0xe

-- The entries that the pointers of `madt_info_t` lead to, by their offsets in the table.
abbrev pub ioapic_entry : Madt → ℕ → MadtIoapic
ioapic_entry madt i = record {
  io_apic_id = madt.bytes (i + 2);
  io_apic_addr = read32 madt.bytes (i + 4);
  gsi_base = read32 madt.bytes (i + 8);
}

abbrev pub override_entry : Madt → ℕ → MadtOverride
override_entry madt i = record {
  irq_src = madt.bytes (i + 3);
  gsi = read32 madt.bytes (i + 4);
  flags = madt.bytes (i + 8) + 2 ^ 8 * madt.bytes (i + 9);
}

abbrev pub lapic_nmi_entry : Madt → ℕ → LapicNmi
lapic_nmi_entry madt i = record {
  acpi_processor_id = madt.bytes (i + 2);
  flags = madt.bytes (i + 3) + 2 ^ 8 * madt.bytes (i + 4);
  lint = madt.bytes (i + 5);
}

-- `apic_init` on what `acpi_init` found. The entries lie in the table that `acpi_init` has found.
pub apic_start : ℕ → Platform → Option ℕ → Apic → Rsdt → MadtInfo → Result (Apic × List Write)
apic_start fuel p bsp apic rsdt info = do
  madt_hdr ← acpi_find_table fuel p.memory rsdt p.apic_signature
  let madt = madt_at p.memory (p2v madt_hdr)
  apic_init p.unset p.lapic_read apic bsp (map (ioapic_entry madt) (info.arrays 1))
      (map (override_entry madt) (info.arrays 2)) (map (lapic_nmi_entry madt) (info.arrays 4))

-- `pmm_init`, `paging_init` and `kheap_init`; `kheap` and `tables` are what they start from.
pub memory_start : Platform → Handover → Kheap → (ℕ → ℕ) → Result (Kheap × Machine)
memory_start p h kheap tables = do
  pmm ← pmm_init p.alloc_area h.memmap
  machine ←
      paging_init p.pmr_writable (record { entries = tables; pmm = pmm; cr3 = 0 }) h.kernel_base
        h.pmrs h.hhdm (Option.map (map (λ e. (e.base, e.length))) h.memmap)
  kheap_init kheap machine (Option.map (map (λ r. (r.base, r.length))) h.pmrs) kheap_init_pages

-- `acpi_init`, `apic_init` and `smp_init`.
pub platform_start :
    ℕ
    → ℕ
    → Platform
    → Handover
    → Apic
    → Pmm
    → Result (Rsdt × MadtInfo × (Apic × List Write) × (List SmpInfo × Pmm))
platform_start fuel rounds p h apic pmm = do
  (rsdt, info) ← acpi_init fuel rounds p.memory h.rsdp p.apic_signature
  controllers ← apic_start fuel p (Option.map (λ s. s.0) h.smp) apic rsdt info
  processors ← smp_init p.smp_ap_entry pmm h.smp
  ok (rsdt, info, controllers, processors)

-- The state in front of the loop that halts. `idt`, `kheap`, `tables` and `apic` are the globals and
-- the memory at the start, `fuel` is for the length of a string, and `rounds` are for `parse_madt`.
-- `paging_init` registers the handler of page faults, which only it does in between. The arrays that
-- `parse_madt` allocates are lists, so that the heap is the one that `kheap_init` leaves.
pub start : ℕ → ℕ → Platform → Handover → List Descriptor → Kheap → (ℕ → ℕ) → Apic → Result Kernel
start fuel rounds p h idt kheap tables apic =
    let (gdt, gdtr) = gdt_init p.gdt_address p.tss_address in
    let (idt₁, idtr) = idt_init idt p.idt_address p.isr_addr_table in
    let (isrs₂, idt₂) =
      register_intr_handler p.isr_addr_table idt₁ p.wrapper_page_fault_intr_handler
        page_fault_irq_vec in
    do
      (kheap', machine) ← memory_start p h kheap tables
      (rsdt, info, (apic', lapic_writes), (processors, pmm)) ←
          platform_start fuel rounds p h apic machine.pmm
      let (isrs₃, idt₃, io) = kbd_init p.wrapper_kbd_intr_handler isrs₂ idt₂ apic'.io
      ok (record {
        gdt = gdt;
        gdtr = gdtr;
        isr_addr_table = isrs₃;
        idt = idt₃;
        idtr = idtr;
        machine = record machine { pmm = pmm };
        kheap = kheap';
        rsdt = rsdt;
        madt_info = info;
        apic = record apic' { io = io };
        processors = processors;
        port_writes = com_init ++ pic_disable;
        lapic_writes = lapic_writes;
      })

-- A start in which a call does not find the tag that it needs, where those in front of it return.
pub data IsMissingTag (fuel rounds : ℕ) (p : Platform) (h : Handover) (kheap : Kheap)
    (tables : ℕ → ℕ) (apic : Apic) : Type 0 where
  no_memmap : h.memmap ≡ none → IsMissingTag fuel rounds p h kheap tables apic
  no_paging_tag :
      (pmm : Pmm)
      → pmm_init p.alloc_area h.memmap ≡ ok pmm
      → (h.kernel_base ≡ none) ⊎ ((h.pmrs ≡ none) ⊎ (h.hhdm ≡ none))
      → IsMissingTag fuel rounds p h kheap tables apic
  no_rsdp :
      (memory : Kheap × Machine)
      → memory_start p h kheap tables ≡ ok memory
      → h.rsdp ≡ none
      → IsMissingTag fuel rounds p h kheap tables apic
  no_smp :
      (memory : Kheap × Machine) (found : Rsdt × MadtInfo) (madt : ℕ)
      → memory_start p h kheap tables ≡ ok memory
      → acpi_init fuel rounds p.memory h.rsdp p.apic_signature ≡ ok found
      → acpi_find_table fuel p.memory found.0 p.apic_signature ≡ ok madt
      → apic.bsp_lapic_id_valid ≡ false
      → h.smp ≡ none
      → IsMissingTag fuel rounds p h kheap tables apic
  no_processors :
      (memory : Kheap × Machine) (found : Rsdt × MadtInfo) (controllers : Apic × List Write)
      → memory_start p h kheap tables ≡ ok memory
      → acpi_init fuel rounds p.memory h.rsdp p.apic_signature ≡ ok found
      → apic_start fuel p (Option.map (λ s. s.0) h.smp) apic found.0 found.1 ≡ ok controllers
      → h.smp ≡ none
      → IsMissingTag fuel rounds p h kheap tables apic
