-- ===== src/Mm/Kheap/Malloc.antt =====
-- `kmalloc` and `kheap_init`.
use cerberos.Base.{
  ℕ, suc, ◌+◌, ◌-◌, ◌*◌, ◌/◌, ◌%◌, ◌^◌, ◌<◌, ◌≤◌, Bool, true, ◌≡◌, ◌≢◌, inl, inr, refl,
  if◌then◌else◌, ◌∙◌, arith, none, some,
}
use cerberos.Base.Result.{ok}
use cerberos.Sys.{sub64, align_up}
use cerberos.Sys.Align.{align_up_lem}
use cerberos.Mm.Paging.{Machine}
use cerberos.Mm.Pmm.{page_size}
use cerberos.Mm.Kheap.{Kheap, is_free, kmalloc, kheap_expand, find_block, pages_for, map_pages}
use cerberos.Mm.Kheap.Blocks.{IsHeap}
use cerberos.Mm.Kheap.Alloc.{IsAllocated, find_block_lem, align_up-same}
use cerberos.Mm.Kheap.Merge.{IsMerged}
use cerberos.Mm.Kheap.Expand.{kheap_expand-IsExpanded}

-- A block taken after others were merged.
merged-IsAllocated :
    (s t u : Kheap) (B F : ℕ → Bool) (n size ptr : ℕ) (m : IsMerged s B F n t)
    → IsAllocated t m.blocks m.free size ptr u
    → IsAllocated s B F size ptr u
merged-IsAllocated s t u B F n size ptr m a =
    let mk = m.keeps in
    let ak = a.keeps in
    record {
      blocks = a.blocks;
      free = a.free;
      count = a.count;
      heap = a.heap;
      block = a.block;
      begins = a.begins;
      is_block = a.is_block;
      is_used = a.is_used;
      enough = a.enough;
      was_free = λ b.
          (let kb = mk.kept_block a.block b in
            let ku = mk.kept_used a.block b in let w = a.was_free in ground arith);
      keeps = record {
        kept_block = λ x b f. ak.kept_block x (mk.kept_block x b f) (mk.kept_used x b f);
        kept_used = λ x b f. ak.kept_used x (mk.kept_block x b f) (mk.kept_used x b f);
        kept_size = λ x b f.
            (ak.kept_size x (mk.kept_block x b f) (mk.kept_used x b f) ∙ mk.kept_size x b f);
      };
    }

module _ (rounds : ℕ) (s : Kheap) (m : Machine) (size : ℕ) (pos : size ≢ 0) where
  pub kmalloc-found :
      (calls ptr : ℕ) (t : Kheap)
      → find_block s (align_up size 8) rounds s.free_head ≡ ok (some (ptr, t))
      → kmalloc (suc calls) rounds s m size ≡ ok (ptr, t, m)
  unfolding kmalloc
  kmalloc-found calls ptr t e = rw (e) (ground arith)

  kmalloc-found_aligned :
      (calls ptr : ℕ) (t : Kheap)
      → align_up size 8 ≡ size
      → find_block s size rounds s.free_head ≡ ok (some (ptr, t))
      → kmalloc (suc calls) rounds s m size ≡ ok (ptr, t, m)
  kmalloc-found_aligned calls ptr t a e = kmalloc-found calls ptr t (rw (a) e)

  kmalloc-none :
      (calls : ℕ) (t : Kheap) (m' : Machine)
      → s.block_head ≢ 0
      → find_block s (align_up size 8) rounds s.free_head ≡ ok none
      → kheap_expand s m (pages_for s (align_up size 8)) ≡ ok (t, m')
      → kmalloc (suc calls) rounds s m size ≡ kmalloc calls rounds t m' (align_up size 8)
  unfolding kmalloc
  kmalloc-none calls t m' o e x = rw (e, x) (ground arith)

-- The pages asked for make up for what is missing.
pub pages_for-enough :
    (s : Kheap) (size : ℕ)
    → size ≤ 2 ^ 63
    → (is_free (s.headers s.block_head) ≡ true → (s.headers s.block_head).size ≤ size)
    → size + 40
      ≤ (if is_free (s.headers s.block_head) then (s.headers s.block_head).size else 0)
        + pages_for s size * 4096
unfolding pages_for
pages_for-enough s size small less = ground arith

-- No more than a page beyond what is missing is asked for.
pub pages_for-bound :
    (s : Kheap) (size : ℕ)
    → size ≤ 2 ^ 63
    → (is_free (s.headers s.block_head) ≡ true → (s.headers s.block_head).size ≤ size)
    → pages_for s size * 4096 < size + 40 + 4096
unfolding pages_for
pages_for-bound s size small less = ground arith

pub kmalloc-IsAllocated :
    (s : Kheap) (B F : ℕ → Bool) (n rounds size : ℕ) (m m' : Machine)
    → IsHeap s B F n
    → n + 1 < rounds
    → size ≢ 0
    → size < 2 ^ 63
    → map_pages m (sub64 s.kheap_top page_size) (pages_for s (align_up size 8)) ≡ ok m'
    → pages_for s (align_up size 8) * 4096 + s.kheap_max ≤ s.kheap_top
    → pages_for s (align_up size 8) * 4096 < s.kheap_top
    → (ptr : ℕ) × (t : Kheap) × (m'' : Machine) × (kmalloc 2 rounds s m size ≡ ok (ptr, t, m''))
      × IsAllocated s B F (align_up size 8) ptr t
kmalloc-IsAllocated s B F n rounds size m m' h more pos small mapped bound room =
    let w = align_up size 8 in
    let up : w ≡ (size + 8 - 1) / 8 * 8 = align_up_lem 3 size (omega arith) (omega arith) in
    let words : w % 8 ≡ 0 = omega arith in
    let wpos : 0 < w = omega arith in
    let wsmall : w ≤ 2 ^ 63 = omega arith in
    let again = align_up-same w words (omega arith) in
    elim (find_block_lem s B F n w h wpos words (omega arith) rounds (omega arith)) [
      | inr q ↦ (q.0, q.1, m, kmalloc-found rounds s m size pos 1 q.0 q.1 q.2, q.3)
      | inl q ↦
          let bh = h.tiled.head_in in
          let ht = h.tiled.head_top in
          let top = h.tiled.top_pos in
          let mk = h.marked s.block_head bh in
          let less = q.1 s.block_head in
          let pages = pages_for s w in
          let enough = pages_for-enough s w wsmall (λ f. ground arith) in
          let large : 40 < pages * 4096 = ground arith in
          let words' : (pages * 4096) % 8 ≡ 0 = omega arith in
          let (t, expanded, x) =
            kheap_expand-IsExpanded s B F n (pages * 4096) h words' large room m m' pages refl
              mapped (omega arith) in
          let g = x.merged in
          let count = g.count_le in
          elim (find_block_lem t g.blocks g.free g.count w g.heap wpos words (omega arith) rounds
            (omega arith)) [
              | inr p ↦ (
                p.0,
                p.1,
                m',
                kmalloc-none rounds s m size pos 1 t m' (ground arith) q.0 expanded
                    ∙ kmalloc-found_aligned rounds t m' w (omega arith) 0 p.0 p.1 again p.2,
                merged-IsAllocated s t p.1 B F (n + 1) w p.0 g p.3,
              )
              | inl p ↦
                  let small_top = p.1 (s.kheap_top - pages * 4096) x.top_free in
                  let size_top = x.top_size in let absurd : ⊥ = ground arith in elim absurd [ ]
            ]
    ]
