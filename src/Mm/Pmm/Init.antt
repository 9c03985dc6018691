-- ===== src/Mm/Pmm/Init.antt =====
-- `pmm_init` of src/kernel/mm/pmm.c, with `alloc` and the memory map of
-- src/kernel/include/mm/memmap.h. The memory map of the bootloader is an argument, `none` where
-- `get_memmap` finds no tag.
pub mod Setup
pub mod Release
pub mod Rounds
pub mod Entries
pub mod Valid
mod Tests
use cerberos.Base.{
  ℕ, zero, suc, ◌+◌, ◌-◌, ◌*◌, ◌/◌, ◌%◌, ◌^◌, Bool, true, false, ◌&&◌, Option, none, some, List, [],
  ◌∷◌, set, replicate, if◌then◌else◌, ◌==◌, ltb, leb,
}
use cerberos.Base.Result.{Result, ok, panic, fault, ◌>>=◌}
use cerberos.Sys.{add64, sub64, min_of, minus_one, align_up, align_down}
use cerberos.Ds.Bitmap.{Bitmap, bitmap_set_range, bitmap_size_bytes}
use cerberos.Mm.Pmm.{Zone, Pmm, page_size, zone_at, give_pages}

-- `struct stivale2_mmap_entry`
pub record MmapEntry : Type 0 where
  pub base : ℕ
  pub length : ℕ
  pub kind : ℕ

abbrev pub mem_usable : ℕ
mem_usable = 1

-- PMM_NUM_ZONES
abbrev pub num_zones : ℕ
num_zones = 2

abbrev pub min_memory : ℕ
min_memory = 16 * 2 ^ 20

-- The end of the last entry; with no entry the code reads before the array.
unfoldable pub get_mem_size : List MmapEntry → Result ℕ
get_mem_size [] = fault
get_mem_size (e ∷ []) = ok (add64 e.base e.length)
get_mem_size (e ∷ f ∷ es) = get_mem_size (f ∷ es)

-- The initial value of `mem_zone[zone]`.
abbrev unset_zone : ℕ → Zone
unset_zone offset = record {
  mem_total = minus_one;
  mem_free = minus_one;
  mem_used = minus_one;
  offset = offset;
  bitmap = record { size = minus_one; bytes = [] };
  first_free_idx = minus_one;
}

abbrev pub initial : ℕ → Pmm
initial alloc_area = record {
  mem_size = 0;
  mem_zone = unset_zone 0 ∷ unset_zone min_memory ∷ [];
  alloc_ptr = alloc_area;
}

-- `alloc`: the new value of `alloc_ptr`. The bytes that it returns are all 0. The code does not
-- test for the end of `alloc_area`; to clear bytes behind it is a fault.
pub alloc : ℕ → ℕ → ℕ → ℕ → Result ℕ
alloc area_end alloc_ptr size align =
    let ret = align_up alloc_ptr align in
    if ltb area_end (ret + size) then fault else ok (ret + size)

-- One round of the loop that initializes the zone structs, once `mem_total` is known.
pub setup_zone : ℕ → ℕ → Zone → ℕ → Result (Zone × ℕ)
unfolding alloc
setup_zone area_end alloc_ptr z total = do
  let size = total / page_size
  let bytes = bitmap_size_bytes (record { size = size; bytes = [] })
  alloc_ptr' ← alloc area_end alloc_ptr bytes 8
  ok (
    record z {
      mem_total = total;
      mem_used = total;
      mem_free = 0;
      bitmap = bitmap_set_range (record { size = size; bytes = replicate bytes 0 }) 0 size;
    },
    alloc_ptr',
  )

pub setup_zones : ℕ → ℕ → ℕ → List Zone → Result (List Zone × ℕ)
unfolding setup_zone
setup_zones mem_size area_end alloc_ptr [] = ok ([], alloc_ptr)
setup_zones mem_size area_end alloc_ptr (z ∷ []) = do
  (z', alloc_ptr') ← setup_zone area_end alloc_ptr z (sub64 mem_size z.offset)
  ok (z' ∷ [], alloc_ptr')
setup_zones mem_size area_end alloc_ptr (z ∷ next ∷ zs) = do
  (z', alloc_ptr') ← setup_zone area_end alloc_ptr z (sub64 next.offset z.offset)
  (zs', alloc_ptr'') ← setup_zones mem_size area_end alloc_ptr' (next ∷ zs)
  ok (z' ∷ zs', alloc_ptr'')

abbrev pub offset_at : List Zone → ℕ → Result ℕ
offset_at zs i = do z ← zone_at zs i; ok z.offset

-- `curr_zone_end`
pub zone_end : Pmm → ℕ → Result ℕ
zone_end p curr =
    let next = offset_at p.mem_zone (curr + 1) in
    if curr + 1 == num_zones then ok p.mem_size else next

-- `while (curr_zone_end < entry_start)`, with the rounds that are left. Each round moves to the
-- next zone, so that after `num_zones` of them the code has left the array.
pub skip_zones : Pmm → ℕ → ℕ → ℕ → ℕ → ℕ → Result (ℕ × ℕ × ℕ)
unfolding zone_end
skip_zones p zero start curr zone_start zone_stop =
    if ltb zone_stop start then fault else ok (curr, zone_start, zone_stop)
skip_zones p (suc rounds) start curr zone_start zone_stop =
    let next : Result (ℕ × ℕ × ℕ) = (do
      zone_start' ← offset_at p.mem_zone (curr + 1)
      zone_stop' ← zone_end p (curr + 1)
      skip_zones p rounds start (curr + 1) zone_start' zone_stop') in
    if ltb zone_stop start then next else ok (curr, zone_start, zone_stop)

-- The inner `while (true)`: gives the pages of the entry that lie in the current zone back, and
-- goes on in the next zone where the entry does.
pub release : ℕ → Pmm → ℕ → ℕ → ℕ → ℕ → ℕ → Result (ℕ × Pmm)
release zero p start stop curr zone_start zone_stop = fault
release (suc rounds) p start stop curr zone_start zone_stop = do
  z ← zone_at p.mem_zone curr
  let idx = sub64 start zone_start / page_size
  let size = sub64 (min_of stop zone_stop) start / page_size
  let p' = record p { mem_zone = set p.mem_zone curr (give_pages z idx size) }
  let curr' = curr + 1
  let rest : Result (ℕ × Pmm) = (do
    zone_start' ← (if ltb num_zones (curr' + 1) then ok p.mem_size else offset_at p.mem_zone curr')
    zone_stop' ←
        (if leb num_zones (curr' + 1) then ok p.mem_size else offset_at p.mem_zone (curr' + 1))
    release rounds p' (min_of zone_stop stop) stop curr' zone_start' zone_stop')
  if leb stop zone_stop then ok (curr, p') else rest

-- One round of the loop over the memory map.
pub release_entry : Pmm → ℕ → MmapEntry → Result (ℕ × Pmm)
unfolding zone_end skip_zones release
release_entry p curr entry =
    let usable : Result (ℕ × Pmm) = (do
      let start = align_up entry.base 4096
      let stop = align_down (add64 entry.base entry.length) 4096
      zone_start ← offset_at p.mem_zone curr
      zone_stop ← zone_end p curr
      (curr', zone_start', zone_stop') ← skip_zones p num_zones start curr zone_start zone_stop
      release (suc num_zones) p start stop curr' zone_start' zone_stop') in
    if entry.kind == mem_usable then usable else ok (curr, p)

pub release_entries : Pmm → ℕ → List MmapEntry → Result Pmm
unfolding release_entry
release_entries p curr [] = ok p
release_entries p curr (e ∷ es) = do
  (curr', p') ← release_entry p curr e
  release_entries p' curr' es

-- `alloc_area` is the address of the static area of 1 MiB.
unfoldable pub pmm_init : ℕ → Option (List MmapEntry) → Result Pmm
unfolding get_mem_size setup_zones release_entries
pmm_init alloc_area none = panic
pmm_init alloc_area (some memmap) = do
  mem_size ← get_mem_size memmap
  let start = initial alloc_area
  let go : Result Pmm = (do
    (zones, alloc_ptr) ← setup_zones mem_size (alloc_area + 2 ^ 20) alloc_area start.mem_zone
    release_entries (record { mem_size = mem_size; mem_zone = zones; alloc_ptr = alloc_ptr }) 0
        memmap)
  if ltb mem_size min_memory then panic else go
