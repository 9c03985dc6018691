-- ===== src/Mm/Kheap/Runs/Tests.antt =====
-- A run of the kernel heap on one page: two blocks handed out.
use cerberos.Base.{
  ℕ, ◌+◌, ◌-◌, ◌%◌, ◌^◌, ◌<◌, ◌≤◌, ◌≡◌, ◌≢◌, ◌⊎◌, refl, if◌then◌else◌, ◌==◌, arith, some, [], ◌∷◌,
}
use cerberos.Base.Result.{ok}
use cerberos.Bits.{bit_not}
use cerberos.Sys.{align_up}
use cerberos.Mm.Paging.{Machine}
use cerberos.Mm.Kheap.{
  Kheap, kheap_init, kmalloc, kfree, find_block, split, freelist_remove, freelist_insert,
}
use cerberos.Mm.Kheap.Init.{first_heap}
use cerberos.Mm.Kheap.Tests.{machine, mapped, blank, top, map_last, regions_max}
use cerberos.Mm.Kheap.Runs.{
  Reach, kheap_init_run, kmalloc_run, Reach-apart, kfree-returns, kmalloc-new,
}

kheap_init_page :
    kheap_init blank machine (some ((0xffff_ffff_8000_0000, 0x20_0000) ∷ [])) 1
    ≡ ok (first_heap blank top 0xffff_ffff_8020_0000 4056, mapped 0x4ff8)
unfolding kheap_init
kheap_init_page = rw (regions_max, map_last) refl

abbrev pub first : Kheap
first = first_heap blank top 0xffff_ffff_8020_0000 4056

abbrev pub started : Machine
started = mapped 0x4ff8

first-Reach : Reach first started (λ p. 0)
first-Reach =
    kheap_init_run blank first machine started ((0xffff_ffff_8000_0000, 0x20_0000) ∷ []) 1
      (omega arith) (omega arith) kheap_init_page

-- Two calls of `kmalloc` for 100 bytes.
unfoldable pub second_made :
    (t : Kheap) × (kmalloc 2 3 first started 100 ≡ ok (2 ^ 64 - 104, t, started))
unfolding kmalloc find_block split freelist_remove freelist_insert align_up bit_not
second_made = (_, refl)

abbrev pub second : Kheap
second = second_made.0

room_first : 100 + 2 ^ 13 < first.kheap_top
room_first = omega arith

pub second-Reach : Reach second started (λ p. if p == 2 ^ 64 - 104 then 100 else 0)
second-Reach =
    kmalloc_run first second started started (λ p. 0) 3 100 (2 ^ 64 - 104) first-Reach (omega arith)
      (omega arith) room_first second_made.1

third_made : (t : Kheap) × (kmalloc 2 3 second started 100 ≡ ok (2 ^ 64 - 248, t, started))
unfolding kmalloc find_block split freelist_remove freelist_insert align_up bit_not second_made
third_made = (_, refl)

abbrev third : Kheap
third = third_made.0

room_second : 100 + 2 ^ 13 < second.kheap_top
unfolding second_made freelist_remove
room_second = omega arith

abbrev live : ℕ → ℕ
live = λ p. if p == 2 ^ 64 - 248 then 100 else if p == 2 ^ 64 - 104 then 100 else 0

third-Reach : Reach third started live
third-Reach =
    kmalloc_run second third started started (λ p. if p == 2 ^ 64 - 104 then 100 else 0) 3 100
      (2 ^ 64 - 248) second-Reach (omega arith) (omega arith) room_second third_made.1

Reach-apart_example :
    (third.kheap_top < 2 ^ 64 - 248)
    × (2 ^ 64 - 248 + 100 ≤ 2 ^ 64)
    × ((2 ^ 64 - 248) % 8 ≡ 0)
    × (2 ^ 64 - 248 ≢ 2 ^ 64 - 104
        → (2 ^ 64 - 248 + 100 ≤ 2 ^ 64 - 104) ⊎ (2 ^ 64 - 104 + 100 ≤ 2 ^ 64 - 248))
Reach-apart_example =
    Reach-apart (2 ^ 64 - 248) (2 ^ 64 - 104) third-Reach (omega arith) (omega arith)

kfree-returns_example :
    (t : Kheap) × (kfree third (2 ^ 64 - 248) ≡ ok t)
    × Reach t started (λ p. if p == 2 ^ 64 - 248 then 0 else live p)
kfree-returns_example = kfree-returns (2 ^ 64 - 248) third-Reach (omega arith)

kmalloc-new_example : ◌≡◌ {A = ℕ} (if 2 ^ 64 - 248 == 2 ^ 64 - 104 then 100 else 0) 0
kmalloc-new_example =
    kmalloc-new 3 100 (2 ^ 64 - 248) second-Reach (omega arith) (omega arith) room_second
      third_made.1
