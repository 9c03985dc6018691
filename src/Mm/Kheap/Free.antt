-- ===== src/Mm/Kheap/Free.antt =====
-- Freeing a block of the kernel heap.
use cerberos.Base.{ℕ, ◌+◌, Bool, true, false, ◌≡◌, ◌∙◌, arith}
use cerberos.Base.Result.{ok}
use cerberos.Sys.{sub64}
use cerberos.Mm.Kheap.{Kheap, merge, kfree, block_start_addr}
use cerberos.Mm.Kheap.Ring.{insert_in, freelist_insert-ok, inserted, inserted-SameBlocks}
use cerberos.Mm.Kheap.Blocks.{IsHeap, inserted-IsHeap}
use cerberos.Mm.Kheap.Merge.{IsMerged}
use cerberos.Mm.Kheap.Coalesce.{merge_right-IsMerged, merge_left-IsMerged}

IsMerged-trans :
    (s t u : Kheap) (B F : ℕ → Bool) (n : ℕ) (m : IsMerged s B F n t)
    → IsMerged t m.blocks m.free m.count u
    → IsMerged s B F n u
IsMerged-trans s t u B F n m k =
    let mk = m.keeps in
    let kk = k.keeps in
    record {
      blocks = k.blocks;
      free = k.free;
      count = k.count;
      heap = k.heap;
      count_le = (let a = m.count_le in let c = k.count_le in omega arith);
      keeps = record {
        kept_block = λ x b f. kk.kept_block x (mk.kept_block x b f) (mk.kept_used x b f);
        kept_used = λ x b f. kk.kept_used x (mk.kept_block x b f) (mk.kept_used x b f);
        kept_size = λ x b f.
            (let e = mk.kept_size x b f in
              let e' = kk.kept_size x (mk.kept_block x b f) (mk.kept_used x b f) in e' ∙ e);
      };
      cover = λ x. k.cover (m.cover x);
      cover_free = λ x f. k.cover_free (m.cover x) (m.cover_free x f);
      cover_low = λ x f.
          (let a = m.cover_low x f in
            let c = k.cover_low (m.cover x) (m.cover_free x f) in omega arith);
      cover_high = λ x f.
          (let a = m.cover_high x f in
            let c = k.cover_high (m.cover x) (m.cover_free x f) in omega arith);
    }

-- `merge` on a free block.
merge-IsMerged :
    (s : Kheap) (B F : ℕ → Bool) (n x : ℕ)
    → IsHeap s B F n
    → F x ≡ true
    → (y : ℕ) × (t : Kheap) × (merge s x ≡ (y, t)) × IsMerged s B F n t
unfolding merge
merge-IsMerged s B F n x h f =
    let (t, e, m, fx, _) = merge_right-IsMerged s B F n x h f in
    let (y, u, e', k) = merge_left-IsMerged t m.blocks m.free m.count x m.heap fx in
    (y, u, rw (e) e', IsMerged-trans s t u B F n m k)

-- `kfree` on a block in use makes it free: its bytes, and those of all the free blocks, are in free
-- blocks afterwards, the other blocks in use keep their places and sizes, and the heap is
-- well-formed.
pub kfree-IsMerged :
    (s : Kheap) (B F : ℕ → Bool) (n x : ℕ)
    → IsHeap s B F n
    → B x ≡ true
    → F x ≡ false
    → (t : Kheap) × (kfree s (block_start_addr x) ≡ ok t) × IsMerged s B (insert_in F x) (n + 1) t
unfolding kfree
kfree-IsMerged s B F n x h b used =
    let i = inserted-IsHeap s B F n x h b used in
    let (y, t, e, m) = merge-IsMerged (inserted s x) B (insert_in F x) (n + 1) x i (ground arith) in
    let same = inserted-SameBlocks s x in
    let fit = h.tiled.fits x b in
    let mk = h.marked x b in
    let back : sub64 (block_start_addr x) 40 ≡ x = omega arith in
    let ins = freelist_insert-ok s F n x h.ring in
    (
      t,
      rw (back, ins, e) (ground arith),
      record {
        blocks = m.blocks;
        free = m.free;
        count = m.count;
        heap = m.heap;
        count_le = m.count_le;
        keeps = record {
          kept_block = m.keeps.kept_block;
          kept_used = m.keeps.kept_used;
          kept_size = λ z bz fz. m.keeps.kept_size z bz fz ∙ same.same_size z;
        };
        cover = m.cover;
        cover_free = m.cover_free;
        cover_low = m.cover_low;
        cover_high =
            λ z fz. (let a = m.cover_high z fz in let q = same.same_size z in ground arith);
      },
    )
