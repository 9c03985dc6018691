-- ===== src/Mm/Kheap/Split.antt =====
-- Splitting a block of the kernel heap.
use cerberos.Base.{
  ℕ, ◌+◌, ◌-◌, ◌%◌, ◌^◌, ◌<◌, ◌≤◌, Bool, true, false, ◌≡◌, ◌≢◌, refl, if◌then◌else◌, ◌==◌, ltb,
  arith,
}
use cerberos.Base.Result.{Result, ok, ◌>>=◌}
use cerberos.Sys.{add64, sub64, align_up}
use cerberos.Mm.Kheap.{
  Kheap, is_free, freelist_insert, split, set_size, set_next, set_prev, set_prev_of, block_end_addr,
  block_start_addr,
}
use cerberos.Mm.Kheap.Ring.{
  IsRing, insert_in, inserted, freelist_insert-ok, inserted-IsRing, inserted-is_free, IsRing-same,
  inserted-SameBlocks,
}
use cerberos.Mm.Kheap.Blocks.{IsTiled, IsTiled-same, IsHeap}

-- The block at `hdr` cut down to `low` bytes, and a new one of `num` bytes at `new_hdr`.
pub cut : Kheap → ℕ → ℕ → ℕ → ℕ → Kheap
cut s hdr num low new_hdr =
    let s₁ = set_size s hdr low in
    let after = (s.headers hdr).next in
    let s₂ = set_next (set_prev (set_size s₁ new_hdr num) new_hdr hdr) new_hdr after in
    set_prev_of (set_next s₂ hdr new_hdr) after new_hdr

parted : Kheap → ℕ → ℕ → ℕ → ℕ → Result (ℕ × Kheap)
parted s hdr num low new_hdr = do
  t ← freelist_insert (cut s hdr num low new_hdr) new_hdr
  ok (new_hdr, t)

-- The sizes and addresses as `split` computes them.
low_of : Kheap → ℕ → ℕ → ℕ
low_of s hdr num =
    sub64 (add64 (sub64 (sub64 (block_end_addr s hdr) num) 40) 1) (block_start_addr hdr)

addr_of : Kheap → ℕ → ℕ → ℕ
addr_of s hdr low = add64 (block_end_addr (set_size s hdr low) hdr) 1

split_lem :
    (s : Kheap) (hdr num_bytes : ℕ)
    → split s hdr num_bytes ≡ (
        let num = align_up num_bytes 8 in
        let low = low_of s hdr num in
        if hdr == 0
        then ok (0, s)
        else if ltb (sub64 (s.headers hdr).size num) 41
        then ok (hdr, s)
        else parted s hdr num low (addr_of s hdr low))
unfolding split parted cut low_of addr_of
split_lem s hdr num_bytes = refl

module _ (s : Kheap) (B F : ℕ → Bool) (n hdr num : ℕ) (h : IsHeap s B F n) (b : B hdr ≡ true)
    (room : num + 41 ≤ (s.headers hdr).size) (words : num % 8 ≡ 0) where
  abbrev pub new_block : ℕ
  new_block = hdr + (s.headers hdr).size - num

  abbrev pub low_size : ℕ
  low_size = (s.headers hdr).size - num - 40

  pub new-not_block : B new_block ≡ false
  new-not_block = let a = h.tiled.apart hdr new_block b in ground arith

  cut-IsTiled : IsTiled (cut s hdr num low_size new_block) (insert_in B new_block)
  unfolding cut
  cut-IsTiled =
      let new = new_block in
      let out = new-not_block in
      let i = h.tiled in
      let ab = i.above hdr b in
      let pos = i.top_pos in
      let ad = i.adjacent hdr b in
      let la = i.last hdr b in
      let ni = i.next_in hdr b in
      let pn = i.prev_of_next hdr b in
      let hi = i.head_in in
      let al = i.aligned hdr b in
      let ws = i.words hdr b in
      record {
        head_in = ground arith;
        head_top = (let a = i.head_top in ground arith);
        top_pos = (let a = i.top_pos in ground arith);
        above = λ x bx. (let a = i.above x in ground arith);
        aligned = λ x bx. (let a = i.aligned x in ground arith);
        words = λ x bx. (let a = i.words x in ground arith);
        last = λ x bx. (let a = i.last x in let c = i.adjacent x in ground arith);
        next_in = λ x bx. (let a = i.next_in x in ground arith);
        adjacent = λ x bx. (let a = i.adjacent x in ground arith);
        prev_of_next = λ x bx. (let a = i.prev_of_next x in let c = i.next_in x in ground arith);
        prev_head = (let a = i.prev_head in ground arith);
        prev_in = λ x bx. (let a = i.prev_in x in ground arith);
        next_of_prev = λ x bx.
            (let a = i.next_of_prev x in let c = i.prev_in x in let d = i.above x in ground arith);
        fits = λ x bx. (let a = i.fits x in let c = i.fits hdr b in ground arith);
        apart = λ x y bx by.
            (let a = i.apart x y in
              let c = i.apart hdr y b in
              let d = i.apart x hdr in let e = i.apart hdr x b in ground arith);
      }

  cut-IsRing : IsRing (cut s hdr num low_size new_block) F n
  unfolding cut
  cut-IsRing =
      let new = new_block in
      IsRing-same s (cut s hdr num low_size new) F n (λ x. ground arith) (λ x. ground arith)
        (ground arith) h.ring

  -- The heap with the block split.
  abbrev pub split_heap : Kheap
  split_heap = inserted (cut s hdr num low_size new_block) new_block

  pub new-not_free : F new_block ≡ false
  new-not_free = let f = h.free_in new_block in let o = new-not_block in ground arith

  cut-is_free :
      (x : ℕ)
      → x ≢ new_block
      → is_free ((cut s hdr num low_size new_block).headers x) ≡ is_free (s.headers x)
  unfolding cut
  cut-is_free x o = let new = new_block in ground arith

  pub new-not_null : new_block ≢ 0
  new-not_null = let a = h.tiled.above hdr b in let c = h.tiled.top_pos in ground arith

  pub split_heap-IsHeap : IsHeap split_heap (insert_in B new_block) (insert_in F new_block) (n + 1)
  split_heap-IsHeap =
      let t = cut s hdr num low_size new_block in
      let r = cut-IsRing in
      record {
        tiled =
            IsTiled-same t split_heap (insert_in B new_block) (inserted-SameBlocks t new_block)
              cut-IsTiled;
        ring = inserted-IsRing t F n new_block r new-not_free new-not_null;
        free_in = λ x fx. (let f = h.free_in x in ground arith);
        marked = λ x bx.
            (let m = h.marked x in
              let i = inserted-is_free t F n new_block r new-not_free new-not_null x in
              let c = cut-is_free x in ground arith);
      }

  low_of_lem : low_of s hdr num ≡ low_size
  unfolding low_of
  low_of_lem = let f = h.tiled.fits hdr b in omega arith

  addr_of_lem : addr_of s hdr low_size ≡ new_block
  unfolding addr_of
  addr_of_lem = let f = h.tiled.fits hdr b in ground arith

  parted_lem : parted s hdr num low_size new_block ≡ ok (new_block, split_heap)
  unfolding parted
  parted_lem =
      rw (freelist_insert-ok (cut s hdr num low_size new_block) F n new_block cut-IsRing) refl

  -- In a well-formed heap, `split` of a block that has room for the bytes asked for, aligned up to 8,
  -- and for another header, returns the new block at its high end, in the heap with the block cut
  -- down and the new one put on the free list.
  pub split-room :
      (num_bytes : ℕ)
      → align_up num_bytes 8 ≡ num
      → split s hdr num_bytes ≡ ok (new_block, split_heap)
  split-room num_bytes e =
      let f = h.tiled.fits hdr b in
      let a = h.tiled.above hdr b in
      let c = h.tiled.top_pos in
      let pl = parted_lem in
      rw (split_lem s hdr num_bytes, e, low_of_lem, addr_of_lem, parted_lem) (ground arith)

  cut-size :
      (x : ℕ)
      → ((cut s hdr num low_size new_block).headers x).size
        ≡ (if x == new_block then num else if x == hdr then low_size else (s.headers x).size)
  unfolding cut
  cut-size x = let new = new_block in ground arith

  pub split_heap-size :
      (x : ℕ)
      → (split_heap.headers x).size
        ≡ (if x == new_block then num else if x == hdr then low_size else (s.headers x).size)
  split_heap-size x =
      let e = (inserted-SameBlocks (cut s hdr num low_size new_block) new_block).same_size x in
      let c = cut-size x in cc

-- A block without that room stays as it is.
pub split-no_room :
    (s : Kheap) (hdr num_bytes num : ℕ)
    → hdr ≢ 0
    → align_up num_bytes 8 ≡ num
    → num ≤ (s.headers hdr).size
    → (s.headers hdr).size < 2 ^ 64
    → (s.headers hdr).size < num + 41
    → split s hdr num_bytes ≡ ok (hdr, s)
split-no_room s hdr num_bytes num o e le bound small =
    rw (split_lem s hdr num_bytes, e) (ground arith)
