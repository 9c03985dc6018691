-- ===== src/Lib.antt =====
-- Cerberos, a small 64-bit kernel: its memory management, its containers, its log, and the tables
-- and controllers of interrupts, as functions on explicit state.
--
-- The parts and their files. A C function has here the name it has in C.
--   Bits, Sys     masks and bits of a word, the address macros of src/lib/include/sys/misc.h
--   Ds/Bitmap     src/lib/include/ds/bitmap.h, src/lib/ds/bitmap.c
--   Ds/Queue      src/lib/ds/queue.c, a linked list on a heap of nodes
--   Ds/Vector     src/lib/ds/vector.c, a buffer indexed by objects
--   Ds/Map        src/lib/ds/map.c, src/lib/ds/hash.c: buckets, over the vector, of pairs that point to
--                 copies of key and value
--   Mem           src/lib/mem/mem.c, on a memory of bytes
--   Mm/Pmm        src/kernel/mm/pmm.c: page frames, in zones that each have a bitmap; Mm/Pmm/Init
--                 is pmm_init
--   Mm/Paging     src/kernel/mm/paging.c: four-level tables, in frames that Mm/Pmm hands out.
--                 Mm/Paging/Init is paging_init, Mm/Paging/Fault the handler of page faults
--   Mm/Kheap      src/kernel/mm/kheap.c: blocks behind their headers, in pages that Mm/Paging maps.
--                 Mm/Kheap/Runs has runs of its calls, Mm/Kheap/Debug the two walks for debugging,
--                 Mm/Kheap/Move the moving of a block by krealloc
--   Mm/Gdt        src/kernel/mm/gdt.c
--   Intr          src/kernel/intr: Idt, Pic, Ioapic, Lapic and Apic, each for the file of that name;
--                 LapicReg is the registers of src/kernel/include/intr/lapic.h
--   Acpi          src/kernel/acpi: the checksums, the search for a table, and the parser of madt.c, whose
--                 entries Intr/Apic hands to Ioapic and Lapic
--   Boot          stivale2_get_tag of src/kernel/boot/stivale2.c, smp_init of src/kernel/cpu/smp.c.
--                 Boot/Header is the header of stivale2.c, Boot/Start is _start of src/kernel/boot/boot.c,
--                 Boot/Stacks the stacks of the other processors
--   Dev           src/kernel/dev: com.c, text.c and kbd.c
--   Log           src/log/log.c, whose output is the list of characters sent to the serial line
--
-- Globals are the fields of a record that each function takes and returns. A run ends with a value,
-- with a panic, or with a fault, where C is undefined (Base/Result). Words are natural numbers, with
-- the wrap-around of 64-bit (or narrower) arithmetic written out where it can happen. Pointers are
-- addresses, 0 or `none` is null. What the hardware reads back from a port or a register is an
-- argument. The containers take the addresses that kmalloc returns as arguments too, so that for them
-- kmalloc succeeds, and what krealloc keeps of a buffer: it does not keep it in every case.
--
-- A counted loop runs on the rounds that are left. The loops with no bound in C take fuel: the
-- string loops, where more than the string's length is enough, and the loops of parse_madt, where
-- more than the number of entries is. The search of kmalloc takes more rounds than there are free
-- blocks, kmalloc two calls of itself, and the search of the boot loader's tags more rounds than tags.
-- A walk over the heap's blocks takes as many rounds as the heap has bytes, one over the free list more
-- than there are free blocks. The zone loops of pmm_init have at most a round for each zone
-- before C leaves the array.
--
-- Not modelled: code in assembly, single instructions, and messages to the log, but for those of the
-- handler of page faults and of the walks over the heap. The structures of the boot protocol are of a
-- library outside the repository, so their fields are arguments. smp_ap_entry, where the other
-- processors start, only logs and halts.
pub mod Base
pub mod Bits
pub mod Sys
pub mod Ds
pub mod Mm
pub mod Mem
pub mod Log
pub mod Intr
pub mod Acpi
pub mod Boot
pub mod Dev
