-- ===== src/Mm/Kheap/Move/Tests.antt =====
-- The last block of a heap of one page, of 104 bytes, reallocated to 200.
use cerberos.Base.{ℕ, ◌+◌, ◌-◌, ◌%◌, ◌^◌, ◌<◌, ◌≤◌, ◌≡◌, ◌⊎◌, refl, arith, if◌then◌else◌, ◌==◌}
use cerberos.Base.Result.{ok}
use cerberos.Bits.{bit_not}
use cerberos.Sys.{align_up}
use cerberos.Mem.{Memory}
use cerberos.Mm.Kheap.{
  Kheap, kmalloc, krealloc, find_block, split, merge_right, freelist_remove, freelist_insert,
  block_start_addr,
}
use cerberos.Mm.Kheap.Runs.{IsServing, Reach-IsServing}
use cerberos.Mm.Kheap.Runs.Tests.{second, second_made, second-Reach, started}
use cerberos.Mm.Kheap.Move.{IsMoved, krealloc-moves}

serving : IsServing second (λ p. if p == 2 ^ 64 - 104 then 100 else 0)
serving = Reach-IsServing second-Reach

abbrev old : ℕ
old = 2 ^ 64 - 144

merged : (t : Kheap) × (merge_right second old ≡ (old, t))
unfolding second_made merge_right freelist_remove
merged = (_, refl)

abbrev wide : Kheap
wide = merged.0

less : (wide.headers old).size < 200
unfolding merged second_made freelist_remove
less = omega arith

room : 200 + 2 ^ 13 < wide.kheap_top
unfolding merged second_made freelist_remove
room = omega arith

made : (u : Kheap) × (kmalloc 2 3 wide started 200 ≡ ok (2 ^ 64 - 344, u, started))
unfolding merged second_made kmalloc find_block split freelist_remove freelist_insert align_up
    bit_not
made = (_, refl)

abbrev bytes : Memory
bytes = λ a. a % 2 ^ 8

size_old : (second.headers old).size ≡ 104
unfolding second_made freelist_remove
size_old = refl

krealloc-moves_example :
    (v : Kheap) × (bytes' : Memory) × (krealloc 2 3 second started bytes (block_start_addr old) 200
      ≡ ok (2 ^ 64 - 344, v, started, bytes'))
    × IsMoved second serving.blocks serving.free old (align_up 200 8) (2 ^ 64 - 344) v
    × ((i : ℕ)
        → i < (second.headers old).size
        → bytes' (2 ^ 64 - 344 + i) ≡ bytes (block_start_addr old + i))
    × ((a : ℕ) → (a < 2 ^ 64 - 344) ⊎ (2 ^ 64 - 344 + align_up 200 8 ≤ a) → bytes' a ≡ bytes a)
krealloc-moves_example =
    krealloc-moves second wide made.0 serving.blocks serving.free serving.count old 3 200
      (2 ^ 64 - 344) started started bytes serving.heap
      (serving.is_block (2 ^ 64 - 104) (omega arith)) (serving.is_used (2 ^ 64 - 104) (omega arith))
      merged.1 less (omega arith) room made.1
