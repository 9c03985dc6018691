-- ===== src/Mm/Kheap/Expand.antt =====
-- Expanding the kernel heap downwards.
use cerberos.Base.{
  ℕ, ◌+◌, ◌-◌, ◌*◌, ◌%◌, ◌^◌, ◌<◌, ◌≤◌, Bool, true, false, ◌≡◌, ◌≢◌, refl, if◌then◌else◌, ◌==◌, ltb,
  ◌∙◌, arith,
}
use cerberos.Base.Result.{Result, ok, fault, ◌>>=◌}
use cerberos.Sys.{sub64}
use cerberos.Mm.Paging.{Machine}
use cerberos.Mm.Pmm.{page_size}
use cerberos.Mm.Kheap.{
  Kheap, is_free, freelist_insert, merge_right, add_block, kheap_expand, map_pages,
  block_start_addr, set_size, set_next, set_prev,
}
use cerberos.Mm.Kheap.Ring.{
  IsRing, IsRing-same, insert_in, freelist_insert-ok, inserted, inserted-SameBlocks,
  inserted-IsRing, inserted-is_free,
}
use cerberos.Mm.Kheap.Blocks.{IsTiled, IsTiled-same, IsHeap}
use cerberos.Mm.Kheap.Merge.{IsMerged}
use cerberos.Mm.Kheap.Coalesce.{merge_right-IsMerged}

-- A block of `size` bytes at `header`, before all others.
place : Kheap → ℕ → ℕ → Kheap
place s header size =
    let s₁ = set_size s header size in
    let s₂ = set_prev (set_next s₁ header s.block_head) header 0 in
    record (set_prev s₂ s.block_head header) { kheap_top = header; block_head = header }

add_block_lem :
    (s : Kheap)
    → add_block s ≡ (
        let header = s.kheap_top in
        let size = sub64 s.block_head (block_start_addr header) in
        let added : Result Kheap = (do
          t ← freelist_insert (place s header size) header
          ok (merge_right t header).1) in
        if s.block_head == 0 then fault else added)
unfolding add_block place
add_block_lem s = refl

module _ (s : Kheap) (B F : ℕ → Bool) (n bytes : ℕ) (h : IsHeap s B F n) (words : bytes % 8 ≡ 0)
    (room : 40 < bytes) (above : bytes < s.kheap_top) where
  abbrev pub new_top : ℕ
  new_top = s.kheap_top - bytes

  abbrev pub lowered : Kheap
  lowered = record s { kheap_top = new_top }

  abbrev placed : Kheap
  placed = place lowered new_top (bytes - 40)

  top-not_block : B new_top ≡ false
  top-not_block = let a = h.tiled.above new_top in ground arith

  top-not_free : F new_top ≡ false
  top-not_free = let f = h.free_in new_top in let o = top-not_block in ground arith

  placed-IsTiled : IsTiled placed (insert_in B new_top)
  unfolding place
  placed-IsTiled =
      let i = h.tiled in
      let out = top-not_block in
      let ht = i.head_top in
      let hi = i.head_in in
      let fit = i.fits s.block_head hi in
      let al = i.aligned s.block_head hi in
      let ph = i.prev_head in
      let pos = i.top_pos in
      record {
        head_in = ground arith;
        head_top = ground arith;
        top_pos = ground arith;
        above = λ x bx. (let a = i.above x in ground arith);
        aligned = λ x bx. (let a = i.aligned x in ground arith);
        words = λ x bx. (let a = i.words x in ground arith);
        last = λ x bx. (let a = i.last x in ground arith);
        next_in = λ x bx. (let a = i.next_in x in ground arith);
        adjacent = λ x bx. (let a = i.adjacent x in ground arith);
        prev_of_next = λ x bx.
            (let a = i.prev_of_next x in let c = i.next_in x in let d = i.above x in ground arith);
        prev_head = ground arith;
        prev_in = λ x bx. (let a = i.prev_in x in ground arith);
        next_of_prev = λ x bx. (let a = i.next_of_prev x in let c = i.prev_in x in ground arith);
        fits = λ x bx. (let a = i.fits x in ground arith);
        apart = λ x y bx by.
            (let a = i.apart x y in let c = i.above y in let d = i.above x in ground arith);
      }

  placed-IsRing : IsRing placed F n
  unfolding place
  placed-IsRing = IsRing-same s placed F n (λ x. ground arith) (λ x. ground arith) refl h.ring

  placed-is_free : (x : ℕ) → x ≢ new_top → is_free (placed.headers x) ≡ is_free (s.headers x)
  unfolding place
  placed-is_free x o = ground arith

  placed-size :
      (x : ℕ) → (placed.headers x).size ≡ (if x == new_top then bytes - 40 else (s.headers x).size)
  unfolding place
  placed-size x = ground arith

  placed-next : (placed.headers new_top).next ≡ s.block_head
  unfolding place
  placed-next = let i = h.tiled in let ht = i.head_top in ground arith

  abbrev begun : Kheap
  begun = inserted placed new_top

  begun-IsHeap : IsHeap begun (insert_in B new_top) (insert_in F new_top) (n + 1)
  begun-IsHeap =
      let r = placed-IsRing in
      let o : new_top ≢ 0 = omega arith in
      record {
        tiled =
            IsTiled-same placed begun (insert_in B new_top) (inserted-SameBlocks placed new_top)
              placed-IsTiled;
        ring = inserted-IsRing placed F n new_top r top-not_free o;
        free_in = λ x fx. (let f = h.free_in x in ground arith);
        marked = λ x bx.
            (let m = h.marked x in
              let i = inserted-is_free placed F n new_top r top-not_free o x in
              let c = placed-is_free x in ground arith);
      }

  begun-size :
      (x : ℕ) → (begun.headers x).size ≡ (if x == new_top then bytes - 40 else (s.headers x).size)
  begun-size x = (inserted-SameBlocks placed new_top).same_size x ∙ placed-size x

  begun-next : (begun.headers new_top).next ≡ s.block_head
  begun-next = (inserted-SameBlocks placed new_top).same_next new_top ∙ placed-next

  kept-not_top : (x : ℕ) → B x ≡ true → (x == new_top) ≡ false
  kept-not_top x b = let o = top-not_block in ground arith

  still_used : (x : ℕ) → B x ≡ true → F x ≡ false → insert_in F new_top x ≡ false
  still_used x b f = let o = kept-not_top x b in ground arith

  -- What expanding leaves: the heap is well-formed, the blocks in use are kept, what was free is in
  -- free blocks, and the block at `new_top` is free and as large as the new bytes allow, together
  -- with the block that was first, if that is free.
  pub record IsExpanded (t : Kheap) : Type 0 where
    pub merged : IsMerged s B F (n + 1) t
    pub top_free : merged.free new_top ≡ true
    pub top_size :
        (t.headers new_top).size
        ≡ (if F s.block_head then bytes + (s.headers s.block_head).size else bytes - 40)

  pub add_block-IsExpanded : (t : Kheap) × (add_block lowered ≡ ok t) × IsExpanded t
  add_block-IsExpanded =
      let i = begun-IsHeap in
      let (t, e, m, fx, z) =
        merge_right-IsMerged begun (insert_in B new_top) (insert_in F new_top) (n + 1) new_top i
          (ground arith) in
      let ht = h.tiled.head_top in
      let ins = freelist_insert-ok placed F n new_top placed-IsRing in
      let bh = h.tiled.head_in in
      let fit = h.tiled.fits s.block_head bh in
      let sz : sub64 s.block_head (block_start_addr new_top) ≡ bytes - 40 = ground arith in
      (
        t,
        rw (add_block_lem lowered, sz, ins, e) (ground arith),
        record {
          merged = record {
            blocks = m.blocks;
            free = m.free;
            count = m.count;
            heap = m.heap;
            count_le = m.count_le;
            keeps = record {
              kept_block = λ x b f. m.keeps.kept_block x (ground arith) (still_used x b f);
              kept_used = λ x b f. m.keeps.kept_used x (ground arith) (still_used x b f);
              kept_size = λ x b f.
                  (let a = m.keeps.kept_size x (ground arith) (still_used x b f) in
                    let q = begun-size x in let o = kept-not_top x b in ground arith);
            };
            cover = m.cover;
            cover_free = λ x f. m.cover_free x (ground arith);
            cover_low = λ x f. m.cover_low x (ground arith);
            cover_high = λ x f.
                (let a = m.cover_high x (ground arith) in
                  let q = begun-size x in let o = kept-not_top x (h.free_in x f) in ground arith);
          };
          top_free = fx;
          top_size =
              (let q = begun-size new_top in
                let q' = begun-size s.block_head in
                let nx = begun-next in let o = kept-not_top s.block_head bh in ground arith);
        },
      )

  -- Expanding by pages that can be mapped, and that leave `kheap_max` below the heap.
  pub kheap_expand-IsExpanded :
      (m m' : Machine) (pages : ℕ)
      → pages * 4096 ≡ bytes
      → map_pages m (sub64 s.kheap_top page_size) pages ≡ ok m'
      → s.kheap_max ≤ new_top
      → (t : Kheap) × (kheap_expand s m pages ≡ ok (t, m')) × IsExpanded t
  unfolding kheap_expand
  kheap_expand-IsExpanded m m' pages e mapped bound =
      let (t, added, x) = add_block-IsExpanded in
      let bh = h.tiled.head_in in
      let ht = h.tiled.head_top in
      let fit = h.tiled.fits s.block_head bh in
      let top : sub64 s.kheap_top (pages * page_size % 2 ^ 64) ≡ new_top = omega arith in
      let less : ltb new_top s.kheap_max ≡ false = ground arith in
      (t, rw (mapped, top, less, added) (ground arith), x)
