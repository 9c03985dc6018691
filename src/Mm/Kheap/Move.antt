-- ===== src/Mm/Kheap/Move.antt =====
-- `krealloc` where it has to move the block.
mod Tests
use cerberos.Base.{
  ℕ, ◌+◌, ◌-◌, ◌*◌, ◌/◌, ◌%◌, ◌^◌, ◌<◌, ◌≤◌, Bool, true, false, not, ◌&&◌, ◌||◌, ◌≡◌, ◌≢◌, ◌⊎◌, inl,
  inr, refl, if◌then◌else◌, ◌==◌, leb, ◌∙◌, sym, ap, arith, Bool-cases,
}
use cerberos.Base.Result.{ok}
use cerberos.Sys.{add64, sub64, align_up}
use cerberos.Sys.Align.{align_up_lem}
use cerberos.Mem.{Memory, memcpy}
use cerberos.Mem.Copy.{within, memcpy_lem}
use cerberos.Mm.Paging.{Machine}
use cerberos.Mm.Kheap.{
  Kheap, krealloc, kmalloc, kfree, merge_right, is_free, block_start_addr, block_end_addr, set_size,
  va_end,
}
use cerberos.Mm.Kheap.Ring.{insert_in, remove_from}
use cerberos.Mm.Kheap.Blocks.{IsHeap, not_null_block}
use cerberos.Mm.Kheap.Alloc.{IsAllocated}
use cerberos.Mm.Kheap.Merge.{joined, joined-IsHeap, joined-size, joint_size_lem}
use cerberos.Mm.Kheap.Coalesce.{resized-IsHeap, merge_right_lem}
use cerberos.Mm.Kheap.Realloc.{merge_right-same}
use cerberos.Mm.Kheap.Free.{kfree-IsMerged}
use cerberos.Mm.Kheap.Returns.{kmalloc-returned}

-- The block in use at `x` may have grown, and the others in use are as they were.
pub record IsGrown (s : Kheap) (B F : ℕ → Bool) (x : ℕ) (t : Kheap) : Type 0 where
  pub blocks : ℕ → Bool
  pub free : ℕ → Bool
  pub count : ℕ
  pub heap : IsHeap t blocks free count
  pub is_block : blocks x ≡ true
  pub is_used : free x ≡ false
  pub size_le : (s.headers x).size ≤ (t.headers x).size
  pub kept_block : (y : ℕ) → B y ≡ true → F y ≡ false → blocks y ≡ true
  pub kept_used : (y : ℕ) → B y ≡ true → F y ≡ false → free y ≡ false
  pub kept_size :
      (y : ℕ) → y ≢ x → B y ≡ true → F y ≡ false → (t.headers y).size ≡ (s.headers y).size

module _ (s : Kheap) (B F : ℕ → Bool) (n x : ℕ) (h : IsHeap s B F n) (b : B x ≡ true)
    (used : F x ≡ false) where
  -- `merge_right` on a block in use takes in the block on the right if that is free.
  pub merge_right-IsGrown : (t : Kheap) × (merge_right s x ≡ (x, t)) × IsGrown s B F x t
  merge_right-IsGrown =
      let o = not_null_block s B F n x h b in
      let right = (s.headers x).next in
      let nn = h.ring.not_null in
      let mk = h.marked right in
      let ni = h.tiled.next_in x b in
      let fit = h.tiled.fits x b in
      let la = h.tiled.last x b in
      let ad = h.tiled.adjacent x b in
      let top = h.tiled.top_pos in
      let ab = h.tiled.above x b in
      elim (Bool-cases (F right)) [
        | inl fr ↦
            let e = joint_size_lem s B F n x right h b refl fr in
            let z = joined-size s B F n x right h b refl fr in
            (
              joined s B F n x right h b refl fr,
              rw (merge_right_lem s x, e) (ground arith),
              record {
                blocks = remove_from B right;
                free = remove_from F right;
                count = n - 1;
                heap = joined-IsHeap s B F n x right h b refl fr;
                is_block = ground arith;
                is_used = ground arith;
                size_le = (let zx = z x in ground arith);
                kept_block = λ y by fy. ground arith;
                kept_used = λ y by fy. ground arith;
                kept_size = λ y q by fy. (let zy = z y in ground arith);
              },
            )
        | inr nf ↦ (
          set_size s x (s.headers x).size,
          merge_right-same s B F n x h b nf,
          record {
            blocks = B;
            free = F;
            count = n;
            heap = resized-IsHeap s B F n x (s.headers x).size refl h;
            is_block = b;
            is_used = used;
            size_le = ground arith;
            kept_block = λ y by fy. by;
            kept_used = λ y by fy. fy;
            kept_size = λ y q by fy. ground arith;
          },
        )
      ]

-- A block of at least `size` bytes at `ptr` took the place of the one at `x`, whose bytes are in the free
-- block `cover` now, and the other blocks in use are as they were, in a well-formed heap.
pub record IsMoved (s : Kheap) (B F : ℕ → Bool) (x size ptr : ℕ) (t : Kheap) : Type 0 where
  pub blocks : ℕ → Bool
  pub free : ℕ → Bool
  pub count : ℕ
  pub heap : IsHeap t blocks free count
  pub behind_header : 40 ≤ ptr
  pub is_block : blocks (ptr - 40) ≡ true
  pub is_used : free (ptr - 40) ≡ false
  pub enough : size ≤ (t.headers (ptr - 40)).size
  pub cover : ℕ
  pub cover_free : free cover ≡ true
  pub cover_low : cover ≤ x
  pub cover_high : x + (s.headers x).size ≤ cover + (t.headers cover).size
  pub kept_block : (y : ℕ) → y ≢ x → B y ≡ true → F y ≡ false → blocks y ≡ true
  pub kept_used : (y : ℕ) → y ≢ x → B y ≡ true → F y ≡ false → free y ≡ false
  pub kept_size :
      (y : ℕ) → y ≢ x → B y ≡ true → F y ≡ false → (t.headers y).size ≡ (s.headers y).size

-- The old block is freed once the new one is there.
freed-IsMoved :
    (s t u : Kheap) (B F : ℕ → Bool) (x size ptr : ℕ) (g : IsGrown s B F x t)
    → (a : IsAllocated t g.blocks g.free size ptr u)
    → (v : Kheap) × (kfree u (block_start_addr x) ≡ ok v) × IsMoved s B F x size ptr v
freed-IsMoved s t u B F x size ptr g a =
    let k = a.keeps in
    let bx = k.kept_block x g.is_block g.is_used in
    let ux = k.kept_used x g.is_block g.is_used in
    let (v, e, m) = kfree-IsMerged u a.blocks a.free a.count x a.heap bx ux in
    let begins = a.begins in
    let back : ptr - 40 ≡ a.block = omega arith in
    let new : a.block ≢ x =
      (let w = a.was_free in let gb = g.is_block in let gu = g.is_used in ground arith) in
    let q = m.keeps in
    let still = q.kept_block a.block a.is_block (let isu = a.is_used in ground arith) in
    let still_used = q.kept_used a.block a.is_block (let isu = a.is_used in ground arith) in
    let still_size = q.kept_size a.block a.is_block (let isu = a.is_used in ground arith) in
    let en = a.enough in
    let inserted : insert_in a.free x x ≡ true = ground arith in
    (
      v,
      e,
      record {
        blocks = m.blocks;
        free = m.free;
        count = m.count;
        heap = m.heap;
        behind_header = omega arith;
        is_block = rw (back) still;
        is_used = rw (back) still_used;
        enough = rw (back) (ground arith);
        cover = m.cover x;
        cover_free = m.cover_free x inserted;
        cover_low = m.cover_low x inserted;
        cover_high =
            (let c = m.cover_high x inserted in
              let z = g.size_le in let zk = k.kept_size x g.is_block g.is_used in omega arith);
        kept_block = λ y o by fy.
            (let k1 = k.kept_block y (g.kept_block y by fy) (g.kept_used y by fy) in
              let k2 = k.kept_used y (g.kept_block y by fy) (g.kept_used y by fy) in
              q.kept_block y k1 (ground arith));
        kept_used = λ y o by fy.
            (let k1 = k.kept_block y (g.kept_block y by fy) (g.kept_used y by fy) in
              let k2 = k.kept_used y (g.kept_block y by fy) (g.kept_used y by fy) in
              q.kept_used y k1 (ground arith));
        kept_size = λ y o by fy.
            (let k1 = k.kept_block y (g.kept_block y by fy) (g.kept_used y by fy) in
              let k2 = k.kept_used y (g.kept_block y by fy) (g.kept_used y by fy) in
              q.kept_size y k1 (ground arith)
              ∙ k.kept_size y (g.kept_block y by fy) (g.kept_used y by fy)
              ∙ g.kept_size y o by fy);
      },
    )

krealloc-moved :
    (s t u v : Kheap) (x rounds size ptr : ℕ) (m m' : Machine) (bytes : Memory)
    → x < 2 ^ 64
    → is_free (s.headers x) ≡ false
    → merge_right s x ≡ (x, t)
    → (t.headers x).size < size
    → kmalloc 2 rounds t m size ≡ ok (ptr, u, m')
    → ptr ≢ 0
    → kfree u (block_start_addr x) ≡ ok v
    → krealloc 2 rounds s m bytes (block_start_addr x) size
      ≡ ok (ptr, v, m', memcpy bytes ptr (block_start_addr x) (u.headers x).size)
unfolding krealloc
krealloc-moved s t u v x rounds size ptr m m' bytes word used mr less e o fe =
    let back : sub64 (block_start_addr x) 40 ≡ x = omega arith in
    let larger : leb size (t.headers x).size ≡ false = ground arith in
    let there : (ptr == 0) ≡ false = ground arith in rw (back, used, mr, larger, e, there, fe) refl

-- In a well-formed heap, `krealloc` of a block in use that is too small, also with a free block on its right, where `kmalloc`
-- returns for a size below 2 ^ 63 and more than 8 KiB below the start of the heap, returns what that
-- returns: a block of at least the bytes asked for, to which the bytes of the old one are copied. No
-- other byte is written, the bytes of the old block are in a free block afterwards, and the other blocks in use are as they were.
pub krealloc-moves :
    (s t u : Kheap) (B F : ℕ → Bool) (n x rounds size ptr : ℕ) (m m' : Machine) (bytes : Memory)
    → IsHeap s B F n
    → B x ≡ true
    → F x ≡ false
    → merge_right s x ≡ (x, t)
    → (t.headers x).size < size
    → size < 2 ^ 63
    → size + 2 ^ 13 < t.kheap_top
    → kmalloc 2 rounds t m size ≡ ok (ptr, u, m')
    → (v : Kheap) × (bytes' : Memory) × (krealloc 2 rounds s m bytes (block_start_addr x) size
        ≡ ok (ptr, v, m', bytes'))
      × IsMoved s B F x (align_up size 8) ptr v
      × ((i : ℕ) → i < (s.headers x).size → bytes' (ptr + i) ≡ bytes (block_start_addr x + i))
      × ((a : ℕ) → (a < ptr) ⊎ (ptr + align_up size 8 ≤ a) → bytes' a ≡ bytes a)
krealloc-moves s t u B F n x rounds size ptr m m' bytes h b used mr less small room e =
    let (t', mr', g₁) = merge_right-IsGrown s B F n x h b used in
    let same : t' ≡ t = ap (λ q. q.1) (sym mr' ∙ mr) in
    let g : IsGrown s B F x t = rw (same) at g₁ in
    let a =
      kmalloc-returned t u g.blocks g.free g.count rounds size ptr m m' g.heap (omega arith) small
        room e in
    let (v, fe, moved) = freed-IsMoved s t u B F x (align_up size 8) ptr g a in
    let k = a.keeps in
    let bx = k.kept_block x g.is_block g.is_used in
    let z = k.kept_size x g.is_block g.is_used in
    let grown = g.size_le in
    let fit = a.heap.tiled.fits x bx in
    let low = a.heap.tiled.apart x a.block bx a.is_block in
    let high = a.heap.tiled.apart a.block x a.is_block bx in
    let begins = a.begins in
    let new : a.block ≢ x =
      (let w = a.was_free in let gb = g.is_block in let gu = g.is_used in ground arith) in
    let up = align_up_lem 3 size (omega arith) (omega arith) in
    let src = block_start_addr x in
    let num = (u.headers x).size in
    let apart : (ptr ≤ src) ⊎ (src + num ≤ ptr) = elim (Bool-cases (leb ptr src)) [
      | inl le ↦ inl (ground arith)
      | inr gt ↦ inr (ground arith)
    ] in
    let copy = λ (c : ℕ). memcpy_lem bytes ptr src num c apart in
    (
      v,
      memcpy bytes ptr src num,
      krealloc-moved s t u v x rounds size ptr m m' bytes (let f = h.tiled.fits x b in omega arith)
          (let mk = h.marked x b in ground arith) mr less e (omega arith) fe,
      moved,
      λ i lt.
          (let back : ptr + i - ptr ≡ i = omega arith in
            let here : within ptr num (ptr + i) ≡ true = ground arith in
            copy (ptr + i) ∙ (rw (here, back) refl)),
      λ c out. (let there : within ptr num c ≡ false = ground arith in copy c ∙ (rw (there) refl)),
    )
