-- ===== src/Mm/Kheap/Blocks.antt =====
-- The blocks of the kernel heap: `IsHeap` says that they tile the addresses from `kheap_top` to the
-- end of the address space, and that those that are free are the ring of the free list.
use cerberos.Base.{ℕ, ◌+◌, ◌-◌, ◌%◌, ◌^◌, ◌<◌, ◌≤◌, Bool, true, false, ◌≡◌, ◌≢◌, arith}
use cerberos.Mm.Kheap.{Kheap, is_free, freelist_remove}
use cerberos.Mm.Kheap.Ring.{
  IsRing, SameBlocks, insert_in, remove_from, inserted, inserted-SameBlocks, inserted-is_free,
  inserted-IsRing, freelist_remove-SameBlocks, removed-is_free, removed-IsRing,
}

-- The headers of `B` are linked in the order of their addresses, and each block ends where the next
-- one begins.
pub record IsTiled (s : Kheap) (B : ℕ → Bool) : Type 0 where
  pub head_in : B s.block_head ≡ true
  pub head_top : s.block_head ≡ s.kheap_top
  pub top_pos : 0 < s.kheap_top
  pub above : (x : ℕ) → B x ≡ true → s.kheap_top ≤ x
  pub aligned : (x : ℕ) → B x ≡ true → x % 8 ≡ 0
  pub words : (x : ℕ) → B x ≡ true → (s.headers x).size % 8 ≡ 0
  pub last : (x : ℕ) → B x ≡ true → (s.headers x).next ≡ 0 → x + 40 + (s.headers x).size ≡ 2 ^ 64
  pub next_in : (x : ℕ) → B x ≡ true → (s.headers x).next ≢ 0 → B ((s.headers x).next) ≡ true
  pub adjacent :
      (x : ℕ)
      → B x ≡ true
      → (s.headers x).next ≢ 0
      → x + 40 + (s.headers x).size ≡ (s.headers x).next
  pub prev_of_next :
      (x : ℕ) → B x ≡ true → (s.headers x).next ≢ 0 → (s.headers ((s.headers x).next)).prev ≡ x
  pub prev_head : (s.headers s.block_head).prev ≡ 0
  pub prev_in : (x : ℕ) → B x ≡ true → x ≢ s.block_head → B ((s.headers x).prev) ≡ true
  pub next_of_prev :
      (x : ℕ) → B x ≡ true → x ≢ s.block_head → (s.headers ((s.headers x).prev)).next ≡ x
  pub fits : (x : ℕ) → B x ≡ true → x + 40 + (s.headers x).size ≤ 2 ^ 64
  pub apart : (x y : ℕ) → B x ≡ true → B y ≡ true → x < y → x + 40 + (s.headers x).size ≤ y

-- Beside that, the blocks of `F`, `n` at most, are the free ones.
pub record IsHeap (s : Kheap) (B F : ℕ → Bool) (n : ℕ) : Type 0 where
  pub tiled : IsTiled s B
  pub ring : IsRing s F n
  pub free_in : (x : ℕ) → F x ≡ true → B x ≡ true
  pub marked : (x : ℕ) → B x ≡ true → is_free (s.headers x) ≡ F x

pub IsTiled-same : (s t : Kheap) (B : ℕ → Bool) → SameBlocks s t → IsTiled s B → IsTiled t B
IsTiled-same s t B e h =
    let n = e.same_next in
    let p = e.same_prev in
    let z = e.same_size in
    let eh = e.same_head in
    let et = e.same_top in
    record {
      head_in = (let a = h.head_in in cc);
      head_top = (let a = h.head_top in cc);
      top_pos = (let a = h.top_pos in ground arith);
      above = λ x b. (let a = h.above x b in ground arith);
      aligned = h.aligned;
      words = λ x b. (let a = h.words x b in let zx = z x in ground arith);
      last = λ x b. (let a = h.last x b in let zx = z x in let nx = n x in ground arith);
      next_in = λ x b. (let a = h.next_in x b in let nx = n x in ground arith);
      adjacent = λ x b. (let a = h.adjacent x b in let zx = z x in let nx = n x in ground arith);
      prev_of_next = λ x b.
          (let a = h.prev_of_next x b in
            let nx = n x in let px = p (s.headers x).next in ground arith);
      prev_head = (let a = h.prev_head in let px = p s.block_head in ground arith);
      prev_in = λ x b. (let a = h.prev_in x b in let px = p x in ground arith);
      next_of_prev = λ x b.
          (let a = h.next_of_prev x b in
            let px = p x in let nx = n (s.headers x).prev in ground arith);
      fits = λ x b. (let a = h.fits x b in let zx = z x in ground arith);
      apart = λ x y bx by. (let a = h.apart x y bx by in let zx = z x in ground arith);
    }

module _ (s : Kheap) (B F : ℕ → Bool) (n x : ℕ) (h : IsHeap s B F n) (bx : B x ≡ true) where
  pub not_null_block : x ≢ 0
  not_null_block = let a = h.tiled.above x bx in let b = h.tiled.top_pos in ground arith

  pub inserted-IsHeap : F x ≡ false → IsHeap (inserted s x) B (insert_in F x) (n + 1)
  inserted-IsHeap out = record {
    tiled = IsTiled-same s (inserted s x) B (inserted-SameBlocks s x) h.tiled;
    ring = inserted-IsRing s F n x h.ring out not_null_block;
    free_in = λ y fy. (let f = h.free_in y in ground arith);
    marked = λ y by.
        (let m = h.marked y by in
          let i = inserted-is_free s F n x h.ring out not_null_block y in ground arith);
  }

  pub removed-IsHeap : F x ≡ true → IsHeap (freelist_remove s x) B (remove_from F x) (n - 1)
  removed-IsHeap isin = record {
    tiled = IsTiled-same s (freelist_remove s x) B (freelist_remove-SameBlocks s x) h.tiled;
    ring = removed-IsRing s F n x h.ring isin;
    free_in = λ y fy. (let f = h.free_in y in ground arith);
    marked = λ y by.
        (let m = h.marked y by in let i = removed-is_free s F n x h.ring isin y in ground arith);
  }
