-- ===== src/Mm/Kheap/Debug/Tests.antt =====
-- The lists of a heap of one page in one block.
use cerberos.Base.{ℕ, ◌+◌, ◌^◌, ◌≤◌, ◌≡◌, List, arith}
use cerberos.Base.Result.{ok}
use cerberos.Mm.Kheap.Tests.{page, is_top, page-IsHeap}
use cerberos.Mm.Kheap.Debug.{
  Line, has_line, IsRow, parse_blocklist, parse_freelist, parse_blocklist_lem, parse_freelist_lem,
}

room : 2 ^ 64 ≤ 4096 + page.kheap_top
room = omega arith

parse_blocklist_lem_example :
    (lines : List Line) × (parse_blocklist 4096 page ≡ ok lines)
    × ((x : ℕ) → has_line lines x ≡ is_top x)
    × IsRow page.kheap_top lines
parse_blocklist_lem_example = parse_blocklist_lem page is_top is_top 1 page-IsHeap 4096 room

parse_freelist_lem_example :
    (lines : List Line) × (parse_freelist 3 page ≡ ok lines)
    × ((x : ℕ) → has_line lines x ≡ is_top x)
parse_freelist_lem_example = parse_freelist_lem page is_top is_top 1 page-IsHeap 3 (omega arith)
