-- ===== src/Mm/Kheap/Realloc.antt =====
-- `krealloc` where the block is larger than what is asked for.
use cerberos.Base.{
  ℕ, ◌+◌, ◌-◌, ◌*◌, ◌/◌, ◌%◌, ◌^◌, ◌<◌, ◌≤◌, Bool, true, false, ◌≡◌, inl, inr, refl, ◌==◌, arith,
  Bool-cases,
}
use cerberos.Base.Result.{ok}
use cerberos.Sys.{add64, sub64, align_up}
use cerberos.Sys.Align.{align_up_lem}
use cerberos.Mem.{Memory}
use cerberos.Mm.Paging.{Machine}
use cerberos.Mm.Kheap.{Kheap, krealloc, merge_right, split, block_start_addr, set_size, va_end}
use cerberos.Mm.Kheap.Ring.{insert_in}
use cerberos.Mm.Kheap.Blocks.{IsHeap, not_null_block}
use cerberos.Mm.Kheap.Split.{split_heap, split_heap-IsHeap, split-room, new_block}
use cerberos.Mm.Kheap.Coalesce.{resized-IsHeap, merge_right_lem}

module _ (s : Kheap) (B F : ℕ → Bool) (n x : ℕ) (h : IsHeap s B F n) (b : B x ≡ true)
    (used : F (s.headers x).next ≡ false) where
  -- `merge_right` keeps a block whose neighbour is in use.
  pub merge_right-same : merge_right s x ≡ (x, set_size s x (s.headers x).size)
  merge_right-same =
      let o = not_null_block s B F n x h b in
      let right = (s.headers x).next in
      let mk = h.marked right in
      let ni = h.tiled.next_in x b in
      let fit = h.tiled.fits x b in
      let la = h.tiled.last x b in
      let ad = h.tiled.adjacent x b in
      let top = h.tiled.top_pos in
      let ab = h.tiled.above x b in
      elim (Bool-cases (right == 0)) [
        | inl last ↦
            let e : add64 (sub64 va_end (block_start_addr x)) 1 ≡ (s.headers x).size =
              ground arith in
            rw (merge_right_lem s x, e) (ground arith)
        | inr more ↦
            let e : sub64 right (block_start_addr x) ≡ (s.headers x).size = ground arith in
            rw (merge_right_lem s x, e) (ground arith)
      ]

  krealloc-split :
      (calls rounds size new : ℕ) (m : Machine) (bytes : Memory) (t : Kheap)
      → F x ≡ false
      → size ≤ (s.headers x).size
      → split (set_size s x (s.headers x).size) x size ≡ ok (new, t)
      → krealloc calls rounds s m bytes (block_start_addr x) size
        ≡ ok (block_start_addr new, t, m, bytes)
  unfolding krealloc
  krealloc-split calls rounds size new m bytes t f le e =
      let fit = h.tiled.fits x b in
      let back : sub64 (block_start_addr x) 40 ≡ x = omega arith in
      let mk = h.marked x b in let mr = merge_right-same in rw (back, mr, e) (ground arith)

-- `krealloc` to a size that leaves room for another header returns the high end of the block, none
-- of whose bytes it writes, and which is on the free list: the old block stays in use.
pub krealloc-shrinks :
    (s : Kheap) (B F : ℕ → Bool) (n x calls rounds size : ℕ) (m : Machine) (bytes : Memory)
    → IsHeap s B F n
    → B x ≡ true
    → F x ≡ false
    → F (s.headers x).next ≡ false
    → size < 2 ^ 63
    → align_up size 8 + 41 ≤ (s.headers x).size
    → (new : ℕ) × (t : Kheap) × (krealloc calls rounds s m bytes (block_start_addr x) size
        ≡ ok (block_start_addr new, t, m, bytes))
      × (new ≡ x + (s.headers x).size - align_up size 8)
      × IsHeap t (insert_in B new) (insert_in F new) (n + 1)
krealloc-shrinks s B F n x calls rounds size m bytes h b f used small room =
    let w = align_up size 8 in
    let up : w ≡ (size + 8 - 1) / 8 * 8 = align_up_lem 3 size (omega arith) (omega arith) in
    let s₁ = set_size s x (s.headers x).size in
    let h₁ = resized-IsHeap s B F n x (s.headers x).size refl h in
    let z : (s₁.headers x).size ≡ (s.headers x).size = ground arith in
    let room₁ : w + 41 ≤ (s₁.headers x).size = omega arith in
    let words : w % 8 ≡ 0 = omega arith in
    let st = split-room s₁ B F n x w h₁ b room₁ words size refl in
    (
      new_block s₁ B F n x w h₁ b room₁ words,
      split_heap s₁ B F n x w h₁ b room₁ words,
      krealloc-split s B F n x h b used calls rounds size _ m bytes _ f (omega arith) st,
      omega arith,
      split_heap-IsHeap s₁ B F n x w h₁ b room₁ words,
    )
