-- ===== src/Mm/Paging/Tests.antt =====
-- The page table theorems at one hierarchy of tables.
use cerberos.Base.{◌⊎◌}
use cerberos.Base.{
  ℕ, zero, suc, ◌+◌, ◌*◌, ◌<◌, ◌≡◌, refl, arith, false, none, some, [], ◌∷◌, ◌==◌, if◌then◌else◌,
}
use cerberos.Base.Result.{ok}
use cerberos.Ds.Bitmap.{bitmap_get, bitmap_set_range, bitmap_set, bitmap_find_range}
use cerberos.Mm.Pmm.{pmm_alloc}
use cerberos.Mm.Paging.{Machine, zone_normal, paging_walk, paging_maps_in, paging_unmap_in}
use cerberos.Mm.Paging.Walk.{entry_for, translate_at, translate, paging_walk_lem}
use cerberos.Mm.Paging.Map.{translate-paging_unmap_in, IsRequest}
use cerberos.Mm.Paging.Range.{IsFreeRange, translate-paging_maps_in}

-- Tables at 0x1000, 0x2000, 0x3000 and 0x4000; in the last, page 6 is mapped to 0x9000.
abbrev entries : ℕ → ℕ
entries a =
    if a == 0x1000
    then 0x2003
    else if a == 0x2000
    then 0x3003
    else if a == 0x3000
    then 0x4003
    else if a == 0x4030
    then 0x9003
    else 0

abbrev machine : Machine
machine = record {
  entries = entries;
  pmm = record {
    mem_size = 0x8000;
    mem_zone =
        record {
          mem_total = 0;
          mem_free = 0;
          mem_used = 0;
          offset = 0;
          bitmap = record { size = 0; bytes = [] };
          first_free_idx = 0;
        }
        ∷ record {
          mem_total = 0x8000;
          mem_free = 0x2000;
          mem_used = 0x6000;
          offset = 0;
          bitmap = record { size = 8; bytes = 0x3f ∷ [] };
          first_free_idx = 0;
        }
        ∷ [];
    alloc_ptr = 0;
  };
  cr3 = 0x1000;
}

request : IsRequest 0x5000 0xa000 3
request = record {
  vaddr_aligned = refl;
  paddr_aligned = refl;
  paddr_small = omega arith;
  flags_small = omega arith;
  flags_legal = refl;
  flags_present = refl;
}

way : entry_for entries 0x1000 0x5000 3 ≡ some 0x4028
unfolding entry_for
way = refl

way_six : entry_for entries 0x1000 0x6000 3 ≡ some 0x4030
unfolding entry_for
way_six = refl

no_way : entry_for entries 0x1000 0x20_0000 3 ≡ none
unfolding entry_for
no_way = refl

translate_six : translate entries 0x1000 0x6123 ≡ some 0x9123
unfolding translate translate_at
translate_six = refl

paging_walk_lem_example :
    paging_walk machine 0x1000 0x6000 0 false ≡ ok (entry_for entries 0x1000 0x6000 3, machine)
paging_walk_lem_example =
    paging_walk_lem machine 0x1000 0x6000 (omega arith) refl
      (λ here. (refl, λ here. (refl, λ here. (refl, tt))))

translate-paging_unmap_in_example :
    (m' : Machine) × (paging_unmap_in machine 0x1000 0x6000 ≡ ok m')
    × (translate m'.entries 0x1000 0x6000 ≡ none)
    × ((x : ℕ) → (x ≡ 0x4030) ⊎ (m'.entries x ≡ entries x))
    × (m'.pmm ≡ machine.pmm)
translate-paging_unmap_in_example =
    translate-paging_unmap_in machine 0x1000 0x6000 (omega arith) refl way_six

page_taken :
    pmm_alloc machine.pmm zone_normal 1
    ≡ ok (
      0x6000,
      record machine.pmm {
        mem_zone =
            record {
              mem_total = 0;
              mem_free = 0;
              mem_used = 0;
              offset = 0;
              bitmap = record { size = 0; bytes = [] };
              first_free_idx = 0;
            }
            ∷ record {
              mem_total = 0x8000;
              mem_free = 0x1000;
              mem_used = 0x7000;
              offset = 0;
              bitmap = record { size = 8; bytes = 0x7f ∷ [] };
              first_free_idx = 7;
            }
            ∷ [];
      },
    )
unfolding pmm_alloc bitmap_find_range bitmap_get bitmap_set_range bitmap_set
page_taken = refl

-- Two pages behind the one that is mapped.
abbrev entry_of : ℕ → ℕ
entry_of i = 0x4040 + 8 * i

range-IsFreeRange : IsFreeRange machine 0x1000 0x8000 0xa000 2 3 entry_of
unfolding entry_for
range-IsFreeRange = record {
  vaddr_aligned = refl;
  paddr_aligned = refl;
  vaddr_small = omega arith;
  paddr_small = omega arith;
  flags_small = omega arith;
  flags_legal = refl;
  flags_present = refl;
  way = way_of;
  word = λ i lt. ground arith;
  free = λ i lt. ground arith;
  apart = λ i j li lj o. ground arith;
}
  where
    way_of : (i : ℕ) → i < 2 → entry_for entries 0x1000 (0x8000 + i * 4096) 3 ≡ some (entry_of i)
    way_of zero lt = refl
    way_of (suc zero) lt = refl
    way_of (suc (suc i)) lt = absurd (omega arith)

translate-paging_maps_in_example :
    (m' : Machine) × (paging_maps_in machine 0x1000 0x8000 0xa000 2 3 ≡ ok m')
    × ((i : ℕ) → i < 2 → translate m'.entries 0x1000 (0x8000 + i * 4096) ≡ some (0xa000 + i * 4096))
    × ((other frame : ℕ)
        → translate entries 0x1000 other ≡ some frame
        → translate m'.entries 0x1000 other ≡ some frame)
    × (m'.pmm ≡ machine.pmm)
translate-paging_maps_in_example =
    translate-paging_maps_in machine 0x1000 0x8000 0xa000 2 3 entry_of (omega arith)
      range-IsFreeRange
