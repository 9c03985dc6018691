-- ===== src/Mm/Pmm/Init/Tests.antt =====
-- A run of `pmm_init`.
use cerberos.Base.{arith, ℕ, ◌≡◌, refl, some, List, [], ◌∷◌}
use cerberos.Base.Result.{ok, ◌>>=◌}
use cerberos.Bits.{bit_not}
use cerberos.Sys.{align_up, align_down}
use cerberos.Ds.Bitmap.{
  bitmap_size_bytes, bitmap_set_range, bitmap_set, bitmap_clear_range, bitmap_clear,
}
use cerberos.Mm.Pmm.{Pmm, Zone, give_pages}
use cerberos.Mm.Pmm.Zones.{IsValid}
use cerberos.Mm.Pmm.Init.{MmapEntry, get_mem_size, pmm_init}
use cerberos.Mm.Pmm.Init.Entries.{IsOrdered}
use cerberos.Mm.Pmm.Init.Valid.{HaveUsable, pmm_init-IsValid}

-- One usable entry that crosses into the second zone, which has two pages.
abbrev memmap : List MmapEntry
memmap =
    record { base = 0; length = 0x1800; kind = 2 }
    ∷ record { base = 0x1800; length = 0xff_f800; kind = 1 }
    ∷ record { base = 0x100_1000; length = 0x1000; kind = 2 }
    ∷ []

abbrev counters : Pmm → List (ℕ × ℕ × ℕ)
counters p = go p.mem_zone
  where
    go : List Zone → List (ℕ × ℕ × ℕ)
    go [] = []
    go (z ∷ zs) = (z.mem_free, z.mem_used, z.first_free_idx) ∷ go zs

init_counters :
    (do p ← pmm_init 0x10_0000 (some memmap); ok (counters p))
    ≡ ok ((0xff_e000, 0x2000, 2) ∷ (0x1000, 0x1000, 0) ∷ [])
unfolding pmm_init bit_not bitmap_size_bytes align_up align_down bitmap_set_range bitmap_set
    bitmap_clear_range bitmap_clear give_pages
init_counters = refl

memmap_size : get_mem_size memmap ≡ ok 0x100_2000
unfolding get_mem_size
memmap_size = refl

memmap-IsOrdered : IsOrdered 0x100_2000 0 memmap
memmap-IsOrdered = (
  omega arith,
  omega arith,
  λ kind. omega arith,
  (
    omega arith,
    omega arith,
    λ kind. omega arith,
    (omega arith, omega arith, λ kind. omega arith, tt),
  ),
)

pmm_init-IsValid_example :
    (p : Pmm) × (pmm_init 0x10_0000 (some memmap) ≡ ok p)
    × IsValid p
    × (p.mem_size ≡ 0x100_2000)
    × HaveUsable memmap p.mem_zone
pmm_init-IsValid_example =
    pmm_init-IsValid 0x10_0000 0x100_2000 memmap memmap_size (omega arith) (omega arith)
      (omega arith) memmap-IsOrdered
