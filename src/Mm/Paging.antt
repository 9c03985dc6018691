-- ===== src/Mm/Paging.antt =====
-- src/kernel/mm/paging.c, src/kernel/include/mm/paging.h: four-level page tables. The tables are
-- 64-bit entries in memory, by the address of the entry; a pointer to a table or an entry is its
-- address, and `none` is the null pointer. Messages to the log are left out.
pub mod Entry
pub mod Walk
pub mod Map
pub mod Range
pub mod Init
pub mod Fault
mod Tests
use cerberos.Base.{
  ℕ, zero, suc, ◌+◌, ◌-◌, ◌*◌, ◌/◌, ◌%◌, ◌^◌, bit_and, bit_or, Bool, true, false, not, ◌&&◌, Option,
  none, some, if◌then◌else◌, ◌==◌, leb,
}
use cerberos.Base.Result.{Result, ok, fault, ◌>>=◌}
use cerberos.Bits.{bit_not}
use cerberos.Sys.{add64, align_down}
use cerberos.Mm.Pmm.{Pmm, page_size, pmm_alloc, pmm_free}

-- `pmask_e`
abbrev pub page_present : ℕ
page_present = 0x1

abbrev pub page_writable : ℕ
page_writable = 0x2

abbrev pub page_addr : ℕ
page_addr = 0x000f_ffff_ffff_f000

-- The levels of the hierarchy
abbrev pub pml4 : ℕ
pml4 = 3

abbrev pub pml1 : ℕ
pml1 = 0

-- PMM_ZONE_NORMAL
abbrev pub zone_normal : ℕ
zone_normal = 1

pub record Machine : Type 0 where
  pub entries : ℕ → ℕ
  pub pmm : Pmm
  pub cr3 : ℕ

abbrev pub write_entry : Machine → ℕ → ℕ → Machine
write_entry m a v = record m { entries = λ x. if a == x then v else m.entries x }

unfoldable pub paging_set_flags : ℕ → ℕ → ℕ
paging_set_flags pentry flags = if bit_and flags page_addr == 0 then bit_or pentry flags else pentry

pub paging_clear_flags : ℕ → ℕ → ℕ
paging_clear_flags pentry flags =
    if bit_and flags page_addr == 0 then bit_and pentry (bit_not 64 flags) else pentry

unfoldable pub paging_check_flags : ℕ → ℕ → Bool
paging_check_flags pentry flags =
    if bit_and flags page_addr == 0 then bit_and pentry flags == flags else false

-- The test for alignment that several functions begin with.
unfoldable pub page_aligned : ℕ → ℕ
page_aligned addr = if addr % page_size == 0 then addr else align_down addr page_size

unfoldable pub paging_set_paddr : ℕ → ℕ → ℕ
paging_set_paddr pentry paddr =
    bit_or (bit_and pentry (bit_not 64 page_addr)) (bit_and (page_aligned paddr) page_addr)

unfoldable pub paging_get_paddr : ℕ → ℕ
paging_get_paddr pentry = bit_and pentry page_addr

unfoldable pub paging_vaddr_idx : ℕ → ℕ → ℕ
paging_vaddr_idx vaddr level = bit_and (vaddr / 2 ^ (9 * level + 12)) 0x1ff

-- `&curr_table->entries[idx]`
abbrev pub entry_addr : ℕ → ℕ → ℕ → ℕ
entry_addr table vaddr level = table + 8 * paging_vaddr_idx vaddr level

-- `sizeof(ptable)` is the size of the pointer, 8 bytes: the `memset` clears one entry.
pub paging_create : Machine → Result (ℕ × Machine)
paging_create m = do
  (ptable, pmm') ← pmm_alloc m.pmm zone_normal 1
  ok (ptable, write_entry (record m { pmm = pmm' }) ptable 0)

pub paging_destroy : Machine → ℕ → Result Machine
paging_destroy m ptable = do
  pmm' ← pmm_free m.pmm (page_aligned ptable) 1
  ok (record m { pmm = pmm' })

-- The loop of `paging_walk` from level `i` down.
unfoldable pub walk_loop : Machine → ℕ → ℕ → ℕ → Bool → ℕ → Result (Option ℕ × Machine)
walk_loop m curr_table vaddr level create zero =
    if level == 0 then ok (some (entry_addr curr_table vaddr 0), m) else ok (none, m)
walk_loop m curr_table vaddr level create (suc i) =
    let pentry = entry_addr curr_table vaddr (suc i) in
    let present = walk_loop m (paging_get_paddr (m.entries pentry)) vaddr level create i in
    let created : Result (Option ℕ × Machine) = (do
      (child_table, m') ← paging_create m
      let entry = paging_set_flags (paging_set_paddr (m'.entries pentry) child_table) page_present
      walk_loop (write_entry m' pentry entry) child_table vaddr level create i) in
    if leb level (suc i)
    then if suc i == level
      then ok (some pentry, m)
      else if paging_check_flags (m.entries pentry) page_present
      then present
      else if create
      then created
      else ok (none, m)
    else ok (none, m)

unfoldable pub paging_walk : Machine → ℕ → ℕ → ℕ → Bool → Result (Option ℕ × Machine)
paging_walk m pml4_table vaddr level create =
    if pml4_table == 0
    then ok (none, m)
    else walk_loop m pml4_table (page_aligned vaddr) level create pml4

-- What `__paging_map` does with the entry that it has found; a null pointer is followed.
unfoldable pub map_entry : Machine → Option ℕ → ℕ → ℕ → Result Machine
map_entry m none paddr flags = fault
map_entry m (some pentry) paddr flags =
    if paging_check_flags (m.entries pentry) page_present
    then ok m
    else ok
        (write_entry m pentry (paging_set_paddr (paging_set_flags (m.entries pentry) flags) paddr))

-- `__paging_map`
unfoldable pub paging_map_in : Machine → ℕ → ℕ → ℕ → ℕ → Result Machine
paging_map_in m pml4_table vaddr paddr flags =
    let mapped : Result Machine = (do
      (pentry, m') ← paging_walk m pml4_table (page_aligned vaddr) pml1 true
      map_entry m' pentry (page_aligned paddr) flags) in
    if pml4_table == 0 then ok m else mapped

-- `__paging_maps`
pub paging_maps_in : Machine → ℕ → ℕ → ℕ → ℕ → ℕ → Result Machine
paging_maps_in m pml4_table vaddr paddr zero flags = ok m
paging_maps_in m pml4_table vaddr paddr (suc num) flags = do
  m' ← paging_map_in m pml4_table vaddr paddr flags
  paging_maps_in m' pml4_table (add64 vaddr page_size) (add64 paddr page_size) num flags

pub unmap_entry : Machine → Option ℕ → Result Machine
unmap_entry m none = fault
unmap_entry m (some pentry) = ok (write_entry m pentry 0)

-- `__paging_unmap`
pub paging_unmap_in : Machine → ℕ → ℕ → Result Machine
paging_unmap_in m pml4_table vaddr =
    let unmapped : Result Machine = (do
      (pentry, m') ← paging_walk m pml4_table (page_aligned vaddr) pml1 false
      unmap_entry m' pentry) in
    if pml4_table == 0 then ok m else unmapped

-- `__paging_unmaps`
pub paging_unmaps_in : Machine → ℕ → ℕ → ℕ → Result Machine
paging_unmaps_in m pml4_table vaddr zero = ok m
paging_unmaps_in m pml4_table vaddr (suc num) = do
  m' ← paging_unmap_in m pml4_table vaddr
  paging_unmaps_in m' pml4_table (add64 vaddr page_size) num

unfoldable pub paging_cr3 : Machine → ℕ
paging_cr3 m = align_down m.cr3 page_size

unfoldable pub paging_map : Machine → ℕ → ℕ → ℕ → Result Machine
paging_map m vaddr paddr flags = paging_map_in m (paging_cr3 m) vaddr paddr flags

pub paging_maps : Machine → ℕ → ℕ → ℕ → ℕ → Result Machine
paging_maps m vaddr paddr zero flags = ok m
paging_maps m vaddr paddr (suc num) flags = do
  m' ← paging_map m vaddr paddr flags
  paging_maps m' (add64 vaddr page_size) (add64 paddr page_size) num flags

-- The processor's cache of translations, which `invlpg` clears, is not part of the state.
pub paging_unmap : Machine → ℕ → Result Machine
paging_unmap m vaddr = paging_unmap_in m (paging_cr3 m) vaddr

pub paging_unmaps : Machine → ℕ → ℕ → Result Machine
paging_unmaps m vaddr zero = ok m
paging_unmaps m vaddr (suc num) = do
  m' ← paging_unmap m vaddr
  paging_unmaps m' (add64 vaddr page_size) num
