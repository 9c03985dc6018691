-- ===== src/Mm/Pmm/Tests.antt =====
-- Runs of the allocator, and its theorems at concrete zones.
use cerberos.Base.{◌+◌, ◌*◌, ◌≤◌, ◌≡◌, refl, arith, [], ◌∷◌}
use cerberos.Base.Result.{ok, panic}
use cerberos.Ds.Bitmap.{bitmap_set, bitmap_get, bitmap_set_range, bitmap_find_range}
use cerberos.Mm.Pmm.{Zone, Pmm, pmm_alloc, pmm_free, page_size}
use cerberos.Mm.Pmm.Count.{count_free}
use cerberos.Mm.Pmm.Zones.{IsValid}
use cerberos.Mm.Pmm.Alloc.{AllocOutcome, pmm_alloc_lem, pmm_alloc-IsValid, pmm_alloc_ascends}
use cerberos.Mm.Pmm.Free.{Restored, pmm_free-pmm_alloc}

-- A zone of eight pages, of which 0, 2 and 3 are free, and one of four, all used.
abbrev pub low : Zone
low = record {
  mem_total = 0x8000;
  mem_free = 0x3000;
  mem_used = 0x5000;
  offset = 0;
  bitmap = record { size = 8; bytes = 0xf2 ∷ [] };
  first_free_idx = 0;
}

abbrev pub high : Zone
high = record {
  mem_total = 0x4000;
  mem_free = 0;
  mem_used = 0x4000;
  offset = 0x8000;
  bitmap = record { size = 4; bytes = 0x0f ∷ [] };
  first_free_idx = 0;
}

abbrev memory : Pmm
memory = record { mem_size = 0xc000; mem_zone = low ∷ high ∷ []; alloc_ptr = 0 }

memory-IsValid : IsValid memory
unfolding count_free bitmap_get
memory-IsValid = record {
  zones = (
    record {
      fits = omega arith;
      covers = omega arith;
      counted = refl;
      total = refl;
      placed = omega arith;
    },
    (
      record {
        fits = omega arith;
        covers = omega arith;
        counted = refl;
        total = refl;
        placed = omega arith;
      },
      tt,
    ),
  );
  tiled = (refl, refl);
}

-- The state after the two pages 2 and 3 are taken.
abbrev memory_taken : Pmm
memory_taken = record {
  mem_size = 0xc000;
  mem_zone =
      record {
        mem_total = 0x8000;
        mem_free = 0x1000;
        mem_used = 0x7000;
        offset = 0;
        bitmap = record { size = 8; bytes = 0xfe ∷ [] };
        first_free_idx = 4;
      }
      ∷ high
      ∷ [];
  alloc_ptr = 0;
}

alloc_two : pmm_alloc memory 0 2 ≡ ok (0x2000, memory_taken)
unfolding pmm_alloc bitmap_find_range bitmap_get bitmap_set_range bitmap_set
alloc_two = refl

-- Page 0 is free, and the hint has moved past it.
free_page_lost : pmm_alloc memory_taken 0 1 ≡ panic
unfolding pmm_alloc bitmap_find_range bitmap_get
free_page_lost = refl

pmm_alloc_lem_example : AllocOutcome memory 0 low 2
pmm_alloc_lem_example = pmm_alloc_lem memory 0 2 memory-IsValid refl (omega arith)

pmm_alloc-IsValid_example : IsValid memory_taken
pmm_alloc-IsValid_example = pmm_alloc-IsValid memory 0 2 memory-IsValid (omega arith) alloc_two

-- The same zone with two more free pages, 5 and 6.
abbrev roomy : Pmm
roomy = record memory {
  mem_zone =
      record low {
        mem_free = 0x5000;
        mem_used = 0x3000;
        bitmap = record { size = 8; bytes = 0x92 ∷ [] };
      }
      ∷ high
      ∷ [];
}

abbrev roomy_taken : Pmm
roomy_taken = record memory {
  mem_zone =
      record low {
        mem_free = 0x3000;
        mem_used = 0x5000;
        bitmap = record { size = 8; bytes = 0x9e ∷ [] };
        first_free_idx = 4;
      }
      ∷ high
      ∷ [];
}

abbrev roomy_full : Pmm
roomy_full = record memory {
  mem_zone =
      record low {
        mem_free = 0x1000;
        mem_used = 0x7000;
        bitmap = record { size = 8; bytes = 0xfe ∷ [] };
        first_free_idx = 7;
      }
      ∷ high
      ∷ [];
}

roomy-IsValid : IsValid roomy
unfolding count_free bitmap_get
roomy-IsValid = record {
  zones = (
    record {
      fits = omega arith;
      covers = omega arith;
      counted = refl;
      total = refl;
      placed = omega arith;
    },
    memory-IsValid.zones.1,
  );
  tiled = (refl, refl);
}

roomy_first : pmm_alloc roomy 0 2 ≡ ok (0x2000, roomy_taken)
unfolding pmm_alloc bitmap_find_range bitmap_get bitmap_set_range bitmap_set
roomy_first = refl

roomy_second : pmm_alloc roomy_taken 0 2 ≡ ok (0x5000, roomy_full)
unfolding pmm_alloc bitmap_find_range bitmap_get bitmap_set_range bitmap_set
roomy_second = refl

pmm_alloc_ascends_example : 0x2000 + page_size * 2 ≤ 0x5000
pmm_alloc_ascends_example =
    pmm_alloc_ascends roomy 0 2 2 roomy-IsValid (omega arith) (omega arith) roomy_first roomy_second

pmm_free-pmm_alloc_example : Restored memory 0 low (pmm_free memory_taken 0x2000 2)
pmm_free-pmm_alloc_example =
    pmm_free-pmm_alloc memory 0 2 memory-IsValid refl (omega arith) alloc_two

-- A first zone of four pages, all used, and a normal zone of eight.
abbrev pub with_normal : Pmm
with_normal = record {
  mem_size = 0xc000;
  mem_zone = record high { offset = 0 } ∷ record low { offset = 0x4000 } ∷ [];
  alloc_ptr = 0;
}

pub with_normal-IsValid : IsValid with_normal
unfolding count_free bitmap_get
with_normal-IsValid = record {
  zones = (
    record {
      fits = omega arith;
      covers = omega arith;
      counted = refl;
      total = refl;
      placed = omega arith;
    },
    (
      record {
        fits = omega arith;
        covers = omega arith;
        counted = refl;
        total = refl;
        placed = omega arith;
      },
      tt,
    ),
  );
  tiled = (refl, refl);
}
