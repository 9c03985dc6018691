-- ===== src/Mm/Pmm.antt =====
-- src/kernel/mm/pmm.c, src/kernel/include/mm/pmm.h: the physical memory manager. The globals
-- `mem_size`, `mem_zone` and `alloc_ptr` are the record `Pmm`, which each function takes and
-- returns. An index outside `mem_zone` is a fault.
pub mod Count
pub mod Zones
pub mod Alloc
pub mod Free
pub mod Init
pub mod Tests
use cerberos.Base.{
  ℕ, zero, suc, ◌+◌, ◌-◌, ◌*◌, ◌/◌, ◌%◌, ◌^◌, Bool, true, false, ◌&&◌, Option, none, some, List, [],
  ◌∷◌, set, if◌then◌else◌, ◌==◌, ltb, leb,
}
use cerberos.Base.Result.{Result, ok, panic, fault, ◌>>=◌}
use cerberos.Sys.{add64, sub64, minus_one}
use cerberos.Ds.Bitmap.{Bitmap, bitmap_set_range, bitmap_clear_range, bitmap_find_range}

abbrev pub page_size : ℕ
page_size = 4096

-- PMM_USED and PMM_FREE
abbrev pub pmm_used : Bool
pmm_used = true

abbrev pub pmm_unused : Bool
pmm_unused = false

-- `zone_t`
pub record Zone : Type 0 where
  pub mem_total : ℕ
  pub mem_free : ℕ
  pub mem_used : ℕ
  pub offset : ℕ
  pub bitmap : Bitmap
  pub first_free_idx : ℕ

-- `zone_e` is the index into the array.
pub record Pmm : Type 0 where
  pub mem_size : ℕ
  pub mem_zone : List Zone
  pub alloc_ptr : ℕ

-- `mem_zone[zone]`
abbrev pub zone_at : List Zone → ℕ → Result Zone
zone_at [] i = fault
zone_at (z ∷ zs) zero = ok z
zone_at (z ∷ zs) (suc i) = zone_at zs i

-- What `pmm_alloc` does to its zone once it has found the pages.
pub take_pages : Zone → ℕ → ℕ → Zone
take_pages z idx size = record z {
  bitmap = bitmap_set_range z.bitmap idx size;
  mem_free = sub64 z.mem_free (size * page_size % 2 ^ 64);
  mem_used = add64 z.mem_used (size * page_size % 2 ^ 64);
  first_free_idx = add64 idx size;
}

unfoldable pub pmm_alloc : Pmm → ℕ → ℕ → Result (ℕ × Pmm)
unfolding take_pages
pmm_alloc pmm zone size = do
  z ← zone_at pmm.mem_zone zone
  let idx = bitmap_find_range z.bitmap z.first_free_idx pmm_unused size
  if idx == minus_one
      then panic
      else ok (
        add64 z.offset (page_size * idx % 2 ^ 64),
        record pmm { mem_zone = set pmm.mem_zone zone (take_pages z idx size) },
      )

-- The search loop of `pmm_free`, over the zones from number `zone` on.
pub find_zone : ℕ → ℕ → ℕ → List Zone → Option ℕ
find_zone mem_size addr zone [] = none
find_zone mem_size addr zone (z ∷ []) =
    if leb z.offset addr && ltb addr mem_size then some zone else none
find_zone mem_size addr zone (z ∷ next ∷ zs) =
    let rest = find_zone mem_size addr (zone + 1) (next ∷ zs) in
    if leb z.offset addr && ltb addr next.offset then some zone else rest

-- What `pmm_free` does to the zone that it has found.
pub give_pages : Zone → ℕ → ℕ → Zone
give_pages z idx size = record z {
  bitmap = bitmap_clear_range z.bitmap idx size;
  mem_free = add64 z.mem_free (size * page_size % 2 ^ 64);
  mem_used = sub64 z.mem_used (size * page_size % 2 ^ 64);
  first_free_idx = if ltb idx z.first_free_idx then idx else z.first_free_idx;
}

-- `none` is the loop's end with no zone found.
pub free_in : Pmm → ℕ → ℕ → Option ℕ → Result Pmm
unfolding give_pages
free_in pmm addr size none = panic
free_in pmm addr size (some zone) = do
  z ← zone_at pmm.mem_zone zone
  let idx = sub64 addr z.offset / page_size
  ok (record pmm { mem_zone = set pmm.mem_zone zone (give_pages z idx size) })

pub pmm_free : Pmm → ℕ → ℕ → Result Pmm
unfolding find_zone free_in
pmm_free pmm addr size = free_in pmm addr size (find_zone pmm.mem_size addr 0 pmm.mem_zone)
