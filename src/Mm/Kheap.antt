-- ===== src/Mm/Kheap.antt =====
-- src/kernel/mm/kheap.c, src/kernel/include/mm/kheap.h: the kernel heap, whose blocks lie side by
-- side from `kheap_top` to the end of the address space, each behind its header. The headers are a
-- map from their addresses; 0 is the null pointer, and to follow it is a fault. The bytes that the
-- blocks hold are a memory of their own. Messages to the log are left out.
mod Ring
mod Blocks
mod Split
mod Alloc
mod Merge
mod Coalesce
mod Free
mod Expand
mod Malloc
mod Init
mod Realloc
mod Returns
mod Move
mod Runs
mod Debug
mod Tests
use cerberos.Base.{
  ℕ, zero, suc, ◌+◌, ◌-◌, ◌*◌, ◌/◌, ◌%◌, ◌^◌, bit_or, Bool, true, false, not, ◌&&◌, Option, none,
  some, List, [], ◌∷◌, if◌then◌else◌, ◌==◌, ltb, leb,
}
use cerberos.Base.Result.{Result, ok, panic, fault, ◌>>=◌}
use cerberos.Sys.{add64, sub64, max_of, align_up}
use cerberos.Mem.{Memory, memcpy}
use cerberos.Mm.Pmm.{Pmm, page_size, pmm_alloc}
use cerberos.Mm.Paging.{Machine, paging_map, page_present, page_writable, zone_normal}

-- `memblock_t`
pub record Memblock : Type 0 where
  pub next : ℕ
  pub prev : ℕ
  pub free_next : ℕ
  pub free_prev : ℕ
  pub size : ℕ

-- The globals, and the headers by their addresses.
pub record Kheap : Type 0 where
  pub headers : ℕ → Memblock
  pub kheap_top : ℕ
  pub kheap_max : ℕ
  pub free_head : ℕ
  pub block_head : ℕ

-- `sizeof(memblock_t)`, VA_END and KHEAP_MIN_FREE_SIZE
abbrev pub header_size : ℕ
header_size = 40

abbrev pub va_end : ℕ
va_end = 0xffff_ffff_ffff_ffff

abbrev pub kheap_min_free_size : ℕ
kheap_min_free_size = 1

abbrev pub put : Kheap → ℕ → Memblock → Kheap
put s p b = record s { headers = λ a. if a == p then b else s.headers a }

abbrev pub set_next : Kheap → ℕ → ℕ → Kheap
set_next s p v = put s p (record (s.headers p) { next = v })

abbrev pub set_prev : Kheap → ℕ → ℕ → Kheap
set_prev s p v = put s p (record (s.headers p) { prev = v })

abbrev pub set_free_next : Kheap → ℕ → ℕ → Kheap
set_free_next s p v = put s p (record (s.headers p) { free_next = v })

abbrev pub set_free_prev : Kheap → ℕ → ℕ → Kheap
set_free_prev s p v = put s p (record (s.headers p) { free_prev = v })

abbrev pub set_size : Kheap → ℕ → ℕ → Kheap
set_size s p v = put s p (record (s.headers p) { size = v })

abbrev pub is_free : Memblock → Bool
is_free b = not (b.free_next == 0) && not (b.free_prev == 0)

abbrev pub block_start_addr : ℕ → ℕ
block_start_addr hdr = add64 hdr header_size

abbrev pub block_end_addr : Kheap → ℕ → ℕ
block_end_addr s hdr = (hdr + header_size - 1 + (s.headers hdr).size) % 2 ^ 64

pub freelist_insert : Kheap → ℕ → Result Kheap
freelist_insert s hdr =
    let alone = record (set_free_prev (set_free_next s hdr hdr) hdr hdr) { free_head = hdr } in
    let s₁ = set_free_next s hdr s.free_head in
    let s₂ = set_free_prev s₁ hdr (s₁.headers s.free_head).free_prev in
    let last = (s₂.headers s.free_head).free_prev in
    let s₃ = set_free_prev (set_free_next s₂ last hdr) s.free_head hdr in
    if s.free_head == 0
    then ok alone
    else if last == 0
    then fault
    else ok (record s₃ { free_head = hdr })

pub freelist_remove : Kheap → ℕ → Kheap
freelist_remove s hdr =
    let next_hdr = (s.headers hdr).free_next in
    let prev_hdr = (s.headers hdr).free_prev in
    let cleared = λ (t : Kheap). set_free_prev (set_free_next t hdr 0) hdr 0 in
    let linked = cleared (set_free_prev (set_free_next s prev_hdr next_hdr) next_hdr prev_hdr) in
    if s.free_head == 0
    then s
    else if not (is_free (s.headers hdr))
    then s
    else if next_hdr == hdr && prev_hdr == hdr
    then (if hdr == s.free_head then record (cleared s) { free_head = 0 } else s)
    else if hdr == s.free_head
    then record linked { free_head = next_hdr }
    else linked

-- `if (p != NULL) p->prev = v;`
abbrev pub set_prev_of : Kheap → ℕ → ℕ → Kheap
set_prev_of s p v = if p == 0 then s else set_prev s p v

-- A function that returns a header returns its address beside the new state.
pub merge_right : Kheap → ℕ → ℕ × Kheap
merge_right s header =
    let right = (s.headers header).next in
    let after = (s.headers right).next in
    let s₁ =
      set_size s header (add64 (sub64 (block_end_addr s right) (block_start_addr header)) 1) in
    let s₂ = set_prev_of (set_next s₁ header after) after header in
    if header == 0
    then (0, s)
    else if not (right == 0) && is_free (s.headers right)
    then (header, freelist_remove s₂ right)
    else if right == 0
    then (header, set_size s header (add64 (sub64 va_end (block_start_addr header)) 1))
    else (header, set_size s header (sub64 right (block_start_addr header)))

-- `memmove` of the header to another address.
abbrev pub move_header : Kheap → ℕ → ℕ → Kheap
move_header s to from = put s to (s.headers from)

pub merge_left : Kheap → ℕ → ℕ × Kheap
unfolding freelist_remove
merge_left s header =
    let left = (s.headers header).prev in
    let after = (s.headers header).next in
    let s₁ = set_size s left (add64 (sub64 (block_end_addr s header) (block_start_addr left)) 1) in
    let s₂ = set_prev_of (set_next s₁ left after) after left in
    let first =
      set_size s header
        (add64 (sub64 (sub64 (block_end_addr s header) s.kheap_top) header_size) 1) in
    let later =
      set_size s header
        (sub64 (sub64 (block_end_addr s header) (block_end_addr s left)) header_size) in
    let behind = add64 (block_end_addr s left) 1 in
    if header == 0
    then (0, s)
    else if not (is_free (s.headers header))
    then (0, s)
    else if not (left == 0) && is_free (s.headers left)
    then (left, freelist_remove s₂ header)
    else if left == 0
    then (if header == s.block_head
        then (s.kheap_top, move_header first s.kheap_top header)
        else (0, s))
    else (behind, move_header later behind header)

pub merge : Kheap → ℕ → ℕ × Kheap
merge s header = let (header', s') = merge_right s header in merge_left s' header'

pub split : Kheap → ℕ → ℕ → Result (ℕ × Kheap)
split s hdr num_bytes =
    let num = align_up num_bytes 8 in
    let size = (s.headers hdr).size in
    let low =
      sub64 (add64 (sub64 (sub64 (block_end_addr s hdr) num) header_size) 1)
        (block_start_addr hdr) in
    let s₁ = set_size s hdr low in
    let new_hdr = add64 (block_end_addr s₁ hdr) 1 in
    let after = (s.headers hdr).next in
    let s₂ = set_next (set_prev (set_size s₁ new_hdr num) new_hdr hdr) new_hdr after in
    let s₃ = set_prev_of (set_next s₂ hdr new_hdr) after new_hdr in
    let parted : Result (ℕ × Kheap) = (do s₄ ← freelist_insert s₃ new_hdr; ok (new_hdr, s₄)) in
    if hdr == 0
    then ok (0, s)
    else if ltb (sub64 size num) (header_size + kheap_min_free_size)
    then ok (hdr, s)
    else parted

-- The loop that maps pages, downwards from `curr_page`, with `num_pages` to go.
pub map_pages : Machine → ℕ → ℕ → Result Machine
map_pages m curr_page zero = ok m
map_pages m curr_page (suc num_pages) = do
  (frame, pmm') ← pmm_alloc m.pmm zone_normal 1
  m' ← paging_map (record m { pmm = pmm' }) curr_page frame (bit_or page_present page_writable)
  map_pages m' (sub64 curr_page page_size) num_pages

-- What `kheap_expand` does once `kheap_top` is the new one.
pub add_block : Kheap → Result Kheap
add_block s =
    let header = s.kheap_top in
    let s₁ = set_size s header (sub64 s.block_head (block_start_addr header)) in
    let s₂ = set_prev (set_next s₁ header s.block_head) header 0 in
    let s₃ = record (set_prev s₂ s.block_head header) { block_head = header } in
    let added : Result Kheap = (do s₄ ← freelist_insert s₃ header; ok (merge_right s₄ header).1) in
    if s.block_head == 0 then fault else added

pub kheap_expand : Kheap → Machine → ℕ → Result (Kheap × Machine)
kheap_expand s m num_pages =
    let s₁ = record s { kheap_top = sub64 s.kheap_top (num_pages * page_size % 2 ^ 64) } in
    let expanded : Result (Kheap × Machine) = (do
      m' ← map_pages m (sub64 s.kheap_top page_size) num_pages
      s₂ ← (if ltb s₁.kheap_top s.kheap_max then panic else add_block s₁)
      ok (s₂, m')) in
    if num_pages == 0 then ok (s, m) else expanded

-- The search of `kmalloc`, with the rounds that are left, after which the loop has not ended: a
-- block taken, or `none`.
pub find_block : Kheap → ℕ → ℕ → ℕ → Result (Option (ℕ × Kheap))
find_block s size zero curr = fault
find_block s size (suc rounds) curr =
    let here = (s.headers curr).size in
    let next_block = (s.headers curr).free_next in
    let cut : Result (Option (ℕ × Kheap)) = (do
      (new_hdr, s') ← split s curr size
      ok (some (block_start_addr new_hdr, freelist_remove s' new_hdr))) in
    let rest = find_block s size rounds next_block in
    if curr == 0
    then ok none
    else if here == size
    then ok (some (block_start_addr curr, freelist_remove s curr))
    else if ltb size here
    then cut
    else if next_block == s.free_head
    then ok none
    else rest

-- The pages that `kmalloc` asks for.
pub pages_for : Kheap → ℕ → ℕ
pages_for s size =
    let whole = add64 size header_size in
    let less = add64 (sub64 size (s.headers s.block_head).size) header_size in
    let pages = λ (n : ℕ). n / page_size + (if n % page_size == 0 then 0 else 1) in
    if is_free (s.headers s.block_head) then pages less else pages whole

-- `kmalloc` calls itself after it has expanded the heap: `calls` bounds how often, and `rounds` the
-- rounds of its search.
pub kmalloc : ℕ → ℕ → Kheap → Machine → ℕ → Result (ℕ × Kheap × Machine)
kmalloc zero rounds s m size = fault
kmalloc (suc calls) rounds s m size =
    let size' = align_up size 8 in
    let more : Result (ℕ × Kheap × Machine) = (do
      (s', m') ← kheap_expand s m (pages_for s size')
      kmalloc calls rounds s' m' size') in
    let expand : Result (ℕ × Kheap × Machine) = (if s.block_head == 0 then fault else more) in
    let search : Result (ℕ × Kheap × Machine) = (do
      found ← find_block s size' rounds s.free_head
      elim found [ none ↦ expand | some (ptr, s') ↦ ok (ptr, s', m) ]) in
    if size == 0 then ok (0, s, m) else search

pub kfree : Kheap → ℕ → Result Kheap
kfree s ptr =
    let header = sub64 ptr header_size in
    let freed : Result Kheap = (do s' ← freelist_insert s header; ok (merge s' header).1) in
    if is_free (s.headers header) then ok s else freed

-- Where it has to move the block, `krealloc` copies the bytes; `bytes` is what the blocks hold.
pub krealloc : ℕ → ℕ → Kheap → Machine → Memory → ℕ → ℕ → Result (ℕ × Kheap × Machine × Memory)
krealloc calls rounds s m bytes ptr size =
    let header = sub64 ptr header_size in
    let (header', s₁) = merge_right s header in
    let stay : Result (ℕ × Kheap × Machine × Memory) = (do
      (h, s') ← split s₁ header' size
      ok (block_start_addr h, s', m, bytes)) in
    let move : Result (ℕ × Kheap × Machine × Memory) = (do
      (new_ptr, s₂, m₂) ← kmalloc calls rounds s₁ m size
      let copied = memcpy bytes new_ptr ptr (s₂.headers header').size
      let done : Result (ℕ × Kheap × Machine × Memory) = (do
        s₃ ← kfree s₂ ptr
        ok (new_ptr, s₃, m₂, copied))
      if new_ptr == 0 then ok (0, s₂, m₂, bytes) else done) in
    if is_free (s.headers header)
    then ok (0, s, m, bytes)
    else if leb size (s₁.headers header').size
    then stay
    else move

-- The regions of `struct stivale2_struct_tag_pmrs`: a base and a length.
pub max_of_regions : ℕ → List (ℕ × ℕ) → ℕ
max_of_regions kheap_max [] = kheap_max
max_of_regions kheap_max ((base, length) ∷ rest) =
    max_of_regions (max_of kheap_max (add64 base length)) rest

-- The two globals for the lists are set to the one block; `none` is a tag that is not found.
pub kheap_init : Kheap → Machine → Option (List (ℕ × ℕ)) → ℕ → Result (Kheap × Machine)
unfolding max_of_regions
kheap_init s m pmrs num_pages =
    let top = add64 (sub64 va_end (page_size * num_pages % 2 ^ 64)) 1 in
    let block = record (s.headers top) {
      size = sub64 (num_pages * page_size % 2 ^ 64) header_size;
      next = 0;
      prev = 0;
      free_next = top;
      free_prev = top;
    } in
    let start : ℕ → Result (Kheap × Machine) = λ kheap_max. (do
      m' ← map_pages m (add64 (sub64 va_end page_size) 1) num_pages
      ok (
        put (record s { kheap_top = top; kheap_max = kheap_max; free_head = top; block_head = top })
            top block,
        m',
      )) in
    if num_pages == 0 then ok (s, m) else elim pmrs [
      | none ↦ panic
      | some regions ↦
          let kheap_max = max_of_regions s.kheap_max regions in
          if ltb top kheap_max then panic else start kheap_max
    ]
