-- ===== src/Mm/Kheap/Init.antt =====
-- `kheap_init`.
use cerberos.Base.{
  ℕ, ◌+◌, ◌-◌, ◌*◌, ◌%◌, ◌^◌, ◌<◌, ◌≤◌, false, ◌≡◌, refl, if◌then◌else◌, ◌==◌, ltb, arith, some,
  List,
}
use cerberos.Base.Result.{ok}
use cerberos.Sys.{add64, sub64}
use cerberos.Mm.Paging.{Machine}
use cerberos.Mm.Pmm.{page_size}
use cerberos.Mm.Kheap.{Kheap, kheap_init, map_pages, max_of_regions, va_end}
use cerberos.Mm.Kheap.Blocks.{IsHeap}

-- The heap of one free block from `top` on.
abbrev pub first_heap : Kheap → ℕ → ℕ → ℕ → Kheap
first_heap s top kheap_max size = record s {
  headers = λ a.
      if a == top
      then record { next = 0; prev = 0; free_next = top; free_prev = top; size = size }
      else s.headers a;
  kheap_top = top;
  kheap_max = kheap_max;
  free_head = top;
  block_head = top;
}

pub first_heap-IsHeap :
    (s : Kheap) (top kheap_max bytes : ℕ)
    → 0 < top
    → 40 ≤ bytes
    → top + bytes ≡ 2 ^ 64
    → top % 8 ≡ 0
    → IsHeap (first_heap s top kheap_max (bytes - 40)) (λ x. x == top) (λ x. x == top) 1
first_heap-IsHeap s top kheap_max bytes pos large whole words = record {
  tiled = record {
    head_in = ground arith;
    head_top = refl;
    top_pos = pos;
    above = λ x b. ground arith;
    aligned = λ x b. ground arith;
    words = λ x b. ground arith;
    last = λ x b. ground arith;
    next_in = λ x b. ground arith;
    adjacent = λ x b. ground arith;
    prev_of_next = λ x b. ground arith;
    prev_head = ground arith;
    prev_in = λ x b. ground arith;
    next_of_prev = λ x b. ground arith;
    fits = λ x b. ground arith;
    apart = λ x y bx by. ground arith;
  };
  ring = record {
    not_null = ground arith;
    forward = λ x f. ground arith;
    backward = λ x f. ground arith;
    prev_of_next = λ x f. ground arith;
    next_of_prev = λ x f. ground arith;
    head_in = λ h. ground arith;
    empty = λ x h. ground arith;
    rank = λ x. 0;
    rank_head = λ h. refl;
    rank_next = λ x f o. ground arith;
    rank_bound = λ x f. omega arith;
  };
  free_in = λ x f. f;
  marked = λ x b. ground arith;
}

-- The start of the heap that `kheap_init` takes.
abbrev pub first_top : ℕ → ℕ
first_top num_pages = 2 ^ 64 - num_pages * 4096

-- `kheap_init`, where the tag is found and the heap stays above all regions, leaves a well-formed
-- heap of one free block, which takes up all the pages that it maps but for its header.
pub kheap_init-IsHeap :
    (s : Kheap) (m m' : Machine) (regions : List (ℕ × ℕ)) (num_pages : ℕ)
    → 0 < num_pages
    → num_pages < 2 ^ 52
    → max_of_regions s.kheap_max regions ≤ first_top num_pages
    → map_pages m 0xffff_ffff_ffff_f000 num_pages ≡ ok m'
    → (t : Kheap) × (kheap_init s m (some regions) num_pages ≡ ok (t, m'))
      × IsHeap t (λ x. x == first_top num_pages) (λ x. x == first_top num_pages) 1
      × ((t.headers (first_top num_pages)).size + 40 ≡ num_pages * 4096)
unfolding kheap_init
kheap_init-IsHeap s m m' regions num_pages pos small bound mapped =
    let top = first_top num_pages in
    let kheap_max = max_of_regions s.kheap_max regions in
    let a : add64 (sub64 va_end (page_size * num_pages % 2 ^ 64)) 1 ≡ top = omega arith in
    let z : sub64 (num_pages * page_size % 2 ^ 64) 40 ≡ num_pages * 4096 - 40 = omega arith in
    let n : (num_pages == 0) ≡ false = ground arith in
    let l : ltb top kheap_max ≡ false = ground arith in
    (
      first_heap s top kheap_max (num_pages * 4096 - 40),
      rw (a, z, n, l, mapped) refl,
      first_heap-IsHeap s top kheap_max (num_pages * 4096) (omega arith) (omega arith) (omega arith)
          (omega arith),
      ground arith,
    )
