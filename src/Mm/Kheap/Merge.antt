-- ===== src/Mm/Kheap/Merge.antt =====
-- Merging neighbouring blocks of the kernel heap.
use cerberos.Base.{ℕ, ◌+◌, ◌-◌, ◌≤◌, Bool, true, ◌≡◌, ◌≢◌, if◌then◌else◌, ◌==◌, ◌∙◌, arith, ap}
use cerberos.Sys.{add64, sub64}
use cerberos.Mm.Kheap.{
  Kheap, Memblock, is_free, freelist_remove, block_start_addr, block_end_addr, set_size, set_next,
  set_prev_of,
}
use cerberos.Mm.Kheap.Ring.{
  IsRing, IsRing-same, SameBlocks, remove_from, freelist_remove-SameBlocks, removed-is_free,
  removed-IsRing,
}
use cerberos.Mm.Kheap.Blocks.{IsTiled, IsTiled-same, IsHeap}
use cerberos.Mm.Kheap.Alloc.{Keeps}

-- The block at `low` takes the place of itself and the next, at `high`.
unfoldable pub absorb : Kheap → ℕ → ℕ → ℕ → Kheap
absorb s low high size =
    let after = (s.headers high).next in
    set_prev_of (set_next (set_size s low size) low after) after low

module _ (s : Kheap) (B F : ℕ → Bool) (n low high : ℕ) (h : IsHeap s B F n) (b : B low ≡ true)
    (next : (s.headers low).next ≡ high) (f : F high ≡ true) where
  abbrev pub joint_size : ℕ
  joint_size = (s.headers low).size + 40 + (s.headers high).size

  high-is_block : B high ≡ true
  high-is_block = h.free_in high f

  absorb-IsTiled : IsTiled (absorb s low high joint_size) (remove_from B high)
  unfolding absorb
  absorb-IsTiled =
      let i = h.tiled in
      let nn = h.ring.not_null in
      let bh = high-is_block in
      let ad = i.adjacent low b in
      let adh = i.adjacent high bh in
      let nih = i.next_in high bh in
      let pn = i.prev_of_next low b in
      let pnh = i.prev_of_next high bh in
      let pos = i.top_pos in
      let ph = i.prev_head in
      let ab = i.above low b in
      let al = i.aligned low b in
      record {
        head_in = (let a = i.head_in in ground arith);
        head_top = (let a = i.head_top in ground arith);
        top_pos = (let a = i.top_pos in ground arith);
        above = λ x bx. (let a = i.above x in ground arith);
        aligned = λ x bx. (let a = i.aligned x in ground arith);
        words = λ x bx.
            (let a = i.words x in let c = i.words low in let d = i.words high in ground arith);
        last = λ x bx. (let a = i.last x in let c = i.last high in ground arith);
        next_in = λ x bx. (let a = i.next_in x in let c = i.prev_of_next x in ground arith);
        adjacent = λ x bx. (let a = i.adjacent x in ground arith);
        prev_of_next = λ x bx. (let a = i.prev_of_next x in let c = i.next_in x in ground arith);
        prev_head = (let a = i.prev_in high bh in ground arith);
        prev_in = λ x bx.
            (let a = i.prev_in x in let c = i.next_of_prev x in let d = i.above x in ground arith);
        next_of_prev = λ x bx.
            (let a = i.next_of_prev x in let c = i.prev_in x in let d = i.above x in ground arith);
        fits = λ x bx. (let a = i.fits x in let c = i.fits high bh in ground arith);
        apart = λ x y bx by.
            (let a = i.apart x y in
              let c = i.apart high y bh in let d = i.apart low y b in ground arith);
      }

  absorb-IsRing : IsRing (absorb s low high joint_size) F n
  unfolding absorb
  absorb-IsRing =
      IsRing-same s (absorb s low high joint_size) F n (λ x. ground arith) (λ x. ground arith)
        (ground arith) h.ring

  absorb-is_free :
      (x : ℕ) → is_free ((absorb s low high joint_size).headers x) ≡ is_free (s.headers x)
  unfolding absorb
  absorb-is_free x = ground arith

  absorb-size :
      (x : ℕ)
      → ((absorb s low high joint_size).headers x).size
        ≡ (if x == low then joint_size else (s.headers x).size)
  unfolding absorb
  absorb-size x = ground arith

  abbrev pub joined : Kheap
  joined = freelist_remove (absorb s low high joint_size) high

  pub joined-IsHeap : IsHeap joined (remove_from B high) (remove_from F high) (n - 1)
  joined-IsHeap =
      let t = absorb s low high joint_size in
      let r = absorb-IsRing in
      record {
        tiled =
            IsTiled-same t joined (remove_from B high) (freelist_remove-SameBlocks t high)
              absorb-IsTiled;
        ring = removed-IsRing t F n high r f;
        free_in = λ x fx. (let a = h.free_in x in ground arith);
        marked = λ x bx.
            (let m = h.marked x in
              let i = removed-is_free t F n high r f x in let c = absorb-is_free x in ground arith);
      }

  pub joined-size :
      (x : ℕ) → (joined.headers x).size ≡ (if x == low then joint_size else (s.headers x).size)
  joined-size x =
      let e = (freelist_remove-SameBlocks (absorb s low high joint_size) high).same_size x in
      let c = absorb-size x in cc

  -- The size as the code computes it.
  pub joint_size_lem : add64 (sub64 (block_end_addr s high) (block_start_addr low)) 1 ≡ joint_size
  joint_size_lem =
      let bh = high-is_block in
      let fit = h.tiled.fits high bh in
      let ad = h.tiled.adjacent low b in
      let ab = h.tiled.above high bh in let pos = h.tiled.top_pos in ground arith

-- The blocks in use are kept, and what was free lies in a block that is free,
-- one of `n` at most.
pub record IsMerged (s : Kheap) (B F : ℕ → Bool) (n : ℕ) (t : Kheap) : Type 0 where
  pub blocks : ℕ → Bool
  pub free : ℕ → Bool
  pub count : ℕ
  pub heap : IsHeap t blocks free count
  pub count_le : count ≤ n
  pub keeps : Keeps s t B F blocks free
  pub cover : ℕ → ℕ
  pub cover_free : (x : ℕ) → F x ≡ true → free (cover x) ≡ true
  pub cover_low : (x : ℕ) → F x ≡ true → cover x ≤ x
  pub cover_high :
      (x : ℕ) → F x ≡ true → x + (s.headers x).size ≤ cover x + (t.headers (cover x)).size

-- A heap in which the headers are the same, but for what no block reads.
pub SameHeap-IsHeap :
    (s t : Kheap) (B F : ℕ → Bool) (n : ℕ)
    → ((x : ℕ) → t.headers x ≡ s.headers x)
    → SameBlocks s t
    → t.free_head ≡ s.free_head
    → IsHeap s B F n
    → IsHeap t B F n
SameHeap-IsHeap s t B F n e same head h = record {
  tiled = IsTiled-same s t B same h.tiled;
  ring =
      IsRing-same s t F n (λ x. ap (λ (b : Memblock). b.free_next) (e x))
        (λ x. ap (λ (b : Memblock). b.free_prev) (e x)) head h.ring;
  free_in = h.free_in;
  marked = λ x bx. (let m = h.marked x bx in let q = e x in ap is_free q ∙ m);
}

module _ (s : Kheap) (B F : ℕ → Bool) (n low high : ℕ) (h : IsHeap s B F n) (fl : F low ≡ true)
    (next : (s.headers low).next ≡ high) (f : F high ≡ true) where
  pub joined-IsMerged :
      (m : IsMerged s B F n (joined s B F n low high h (h.free_in low fl) next f)) × (m.free low
        ≡ true)
  joined-IsMerged =
      let b = h.free_in low fl in
      let bh = h.free_in high f in
      let z = joined-size s B F n low high h b next f in
      let zl = z low in
      let nn = h.ring.not_null in
      let ad = h.tiled.adjacent low b in
      let ne : low ≢ high = ground arith in
      (
        record {
          blocks = remove_from B high;
          free = remove_from F high;
          count = n - 1;
          heap = joined-IsHeap s B F n low high h b next f;
          count_le = omega arith;
          keeps = record {
            kept_block = λ x bx fx. ground arith;
            kept_used = λ x bx fx. ground arith;
            kept_size = λ x bx fx. (let zx = z x in ground arith);
          };
          cover = λ x. if x == high then low else x;
          cover_free = λ x fx. ground arith;
          cover_low = λ x fx. ground arith;
          cover_high = λ x fx. (let zx = z x in ground arith);
        },
        ground arith,
      )
