-- ===== src/Mm/Kheap/Tests.antt =====
-- The theorems on the kernel heap at heaps of one page.
use cerberos.Base.{ℕ, ◌+◌, ◌-◌, ◌≤◌, Bool, ◌≡◌, refl, if◌then◌else◌, ◌==◌, arith, [], ◌∷◌}
use cerberos.Base.Result.{ok}
use cerberos.Bits.{bit_not}
use cerberos.Sys.{align_up, align_down}
use cerberos.Mem.{Memory}
use cerberos.Ds.Bitmap.{bitmap_get, bitmap_set_range, bitmap_set, bitmap_find_range}
use cerberos.Mm.Pmm.{pmm_alloc}
use cerberos.Mm.Paging.{
  Machine, write_entry, paging_get_paddr, paging_set_paddr, paging_set_flags, paging_check_flags,
  paging_walk, paging_map_in, paging_map, paging_cr3, walk_loop, map_entry, page_aligned,
  paging_vaddr_idx,
}
use cerberos.Mm.Kheap.{
  Kheap, max_of_regions, map_pages, kfree, krealloc, freelist_remove, block_start_addr,
}
use cerberos.Mm.Kheap.Ring.{insert_in, remove_from}
use cerberos.Mm.Kheap.Blocks.{IsHeap, removed-IsHeap}
use cerberos.Mm.Kheap.Split.{split_heap, split_heap-IsHeap}
use cerberos.Mm.Kheap.Merge.{IsMerged}
use cerberos.Mm.Kheap.Free.{kfree-IsMerged}
use cerberos.Mm.Kheap.Init.{first_heap, first_heap-IsHeap}
use cerberos.Mm.Kheap.Realloc.{krealloc-shrinks}

-- Tables at 0x1000, 0x2000, 0x3000 and 0x4000 for the end of the address space; one free page.
abbrev pub machine : Machine
machine = record {
  entries = λ a.
      if a == 0x1ff8
      then 0x2003
      else if a == 0x2ff8
      then 0x3003
      else if a == 0x3ff8
      then 0x4003
      else 0;
  pmm = record {
    mem_size = 0x8000;
    mem_zone =
        record {
          mem_total = 0;
          mem_free = 0;
          mem_used = 0;
          offset = 0;
          bitmap = record { size = 0; bytes = [] };
          first_free_idx = 0;
        }
        ∷ record {
          mem_total = 0x8000;
          mem_free = 0x2000;
          mem_used = 0x6000;
          offset = 0;
          bitmap = record { size = 8; bytes = 0x3f ∷ [] };
          first_free_idx = 0;
        }
        ∷ [];
    alloc_ptr = 0;
  };
  cr3 = 0x1000;
}

-- The machine with the page taken and entered in the last table at `a`.
abbrev pub mapped : ℕ → Machine
mapped a =
    write_entry
      (record machine {
        pmm = record machine.pmm {
          mem_zone =
              record {
                mem_total = 0;
                mem_free = 0;
                mem_used = 0;
                offset = 0;
                bitmap = record { size = 0; bytes = [] };
                first_free_idx = 0;
              }
              ∷ record {
                mem_total = 0x8000;
                mem_free = 0x1000;
                mem_used = 0x7000;
                offset = 0;
                bitmap = record { size = 8; bytes = 0x7f ∷ [] };
                first_free_idx = 7;
              }
              ∷ [];
        };
      })
      a 0x6003

pub map_last : map_pages machine 0xffff_ffff_ffff_f000 1 ≡ ok (mapped 0x4ff8)
unfolding map_pages paging_map paging_cr3 paging_map_in paging_walk walk_loop map_entry page_aligned
    paging_check_flags paging_get_paddr paging_set_flags paging_set_paddr paging_vaddr_idx bit_not
    align_down pmm_alloc bitmap_find_range bitmap_get bitmap_set_range bitmap_set
map_last = refl

abbrev pub blank : Kheap
blank = record {
  headers = λ a. record { next = 0; prev = 0; free_next = 0; free_prev = 0; size = 0 };
  kheap_top = 0;
  kheap_max = 0;
  free_head = 0;
  block_head = 0;
}

abbrev no_bytes : Memory
no_bytes = λ a. 0

abbrev pub top : ℕ
top = 0xffff_ffff_ffff_f000

pub regions_max : max_of_regions 0 ((0xffff_ffff_8000_0000, 0x20_0000) ∷ []) ≡ 0xffff_ffff_8020_0000
unfolding max_of_regions
regions_max = refl

-- The heap of one free page, and the one with that page in use.
abbrev pub page : Kheap
page = first_heap blank top 0 4056

abbrev pub is_top : ℕ → Bool
is_top x = x == top

pub page-IsHeap : IsHeap page is_top is_top 1
page-IsHeap = first_heap-IsHeap blank top 0 4096 (omega arith) (omega arith) refl refl

used_page-IsHeap : IsHeap (freelist_remove page top) is_top (remove_from is_top top) 0
used_page-IsHeap = removed-IsHeap page is_top is_top 1 top page-IsHeap refl refl

pub room : 104 + 41 ≤ 4056
room = omega arith

aligned : align_up 100 8 ≡ 104
unfolding align_up bit_not
aligned = refl

-- The page split: its last 104 bytes are a block of their own.
abbrev pub parts : Kheap
parts = split_heap page is_top is_top 1 top 104 page-IsHeap refl room refl

abbrev pub part : ℕ
part = top + 4056 - 104

pub parts-IsHeap : IsHeap parts (insert_in is_top part) (insert_in is_top part) 2
parts-IsHeap = split_heap-IsHeap page is_top is_top 1 top 104 page-IsHeap refl room refl

abbrev not_part : ℕ → Bool
not_part = remove_from (insert_in is_top part) part

used_part-IsHeap : IsHeap (freelist_remove parts part) (insert_in is_top part) not_part 1
used_part-IsHeap =
    removed-IsHeap parts (insert_in is_top part) (insert_in is_top part) 2 part parts-IsHeap refl
      refl

kfree-IsMerged_example :
    (t : Kheap) × (kfree (freelist_remove parts part) (block_start_addr part) ≡ ok t)
    × IsMerged (freelist_remove parts part) (insert_in is_top part) (insert_in not_part part) 2 t
kfree-IsMerged_example =
    kfree-IsMerged (freelist_remove parts part) (insert_in is_top part) not_part 1 part
      used_part-IsHeap refl refl

size_kept : ((freelist_remove page top).headers top).size ≡ 4056
unfolding freelist_remove
size_kept = refl

next_kept : ((freelist_remove page top).headers top).next ≡ 0
unfolding freelist_remove
next_kept = refl

krealloc-shrinks_example :
    (new : ℕ) × (t : Kheap) × (krealloc 2 3
        (freelist_remove page top)
        machine
        no_bytes
        (block_start_addr top)
        100
      ≡ ok (block_start_addr new, t, machine, no_bytes))
    × (new ≡ top + ((freelist_remove page top).headers top).size - align_up 100 8)
    × IsHeap t (insert_in is_top new) (insert_in (remove_from is_top top) new) 1
krealloc-shrinks_example =
    krealloc-shrinks (freelist_remove page top) is_top (remove_from is_top top) 0 top 2 3 100
      machine no_bytes used_page-IsHeap refl refl (rw (next_kept) refl) (omega arith)
      (rw (aligned, size_kept) (omega arith))
