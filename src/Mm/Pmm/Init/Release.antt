-- ===== src/Mm/Pmm/Init/Release.antt =====
-- The loop of `pmm_init` over the memory map: the pages of the usable entries are given back, each to
-- its zone.
use cerberos.Base.{
  Bool, not, ◌&&◌, ℕ, ◌+◌, ◌-◌, ◌*◌, ◌/◌, ◌≤◌, ◌<◌, ◌≡◌, refl, ap, ◌∙◌, arith, true, ltb, leb,
  if◌then◌else◌,
}
use cerberos.Ds.Bitmap.{bitmap_get}
use cerberos.Ds.Bitmap.Range.{size-bitmap_clear_range}
use cerberos.Mm.Pmm.{Zone, page_size, give_pages}
use cerberos.Mm.Pmm.Zones.{IsZone}
use cerberos.Mm.Pmm.Free.{UsedPages, IsZone-give_pages, bitmap_get-give_pages}
use cerberos.Mm.Pmm.Init.{min_memory}

-- The pages of the memory from `i` to `k` become free.
abbrev pub released : ℕ → ℕ → (ℕ → Bool) → ℕ → Bool
released i k free j = if leb i j && ltb j k then true else free j

-- The two zones of a state that the loop works on: which pages of the memory are free, and that those from
-- the address `from` on are in use.
pub record IsReleased (mem_size : ℕ) (dma normal : Zone) (from : ℕ) (free : ℕ → Bool) : Type 0 where
  pub dma_valid : IsZone dma
  pub normal_valid : IsZone normal
  pub dma_at : dma.offset ≡ 0
  pub normal_at : normal.offset ≡ min_memory
  pub dma_total : dma.mem_total ≡ min_memory
  pub normal_total : normal.mem_total + min_memory ≡ mem_size
  pub dma_size : dma.bitmap.size ≡ 4096
  pub normal_size : normal.bitmap.size ≡ (mem_size - min_memory) / page_size
  pub dma_used :
      (j : ℕ) → from ≤ page_size * j → j < dma.bitmap.size → bitmap_get dma.bitmap j ≡ true
  pub normal_used :
      (j : ℕ)
      → from ≤ min_memory + page_size * j
      → j < normal.bitmap.size
      → bitmap_get normal.bitmap j ≡ true
  pub dma_bits : (j : ℕ) → j < dma.bitmap.size → bitmap_get dma.bitmap j ≡ not (free j)
  pub normal_bits :
      (j : ℕ) → j < normal.bitmap.size → bitmap_get normal.bitmap j ≡ not (free (4096 + j))

-- Pages are given back in a zone that stays where it is.
give_pages-same :
    (z : Zone) (idx size : ℕ)
    → ((give_pages z idx size).offset ≡ z.offset)
      × ((give_pages z idx size).mem_total ≡ z.mem_total)
      × ((give_pages z idx size).bitmap.size ≡ z.bitmap.size)
unfolding give_pages
give_pages-same z idx size = (refl, refl, size-bitmap_clear_range z.bitmap idx size)

module _ (mem_size from : ℕ) (dma normal : Zone) (free : ℕ → Bool)
    (r : IsReleased mem_size dma normal from free) where
  pub IsReleased-later :
      (later : ℕ) (free' : ℕ → Bool)
      → from ≤ later
      → ((j : ℕ) → free' j ≡ free j)
      → IsReleased mem_size dma normal later free'
  IsReleased-later later free' le same = record {
    dma_valid = r.dma_valid;
    normal_valid = r.normal_valid;
    dma_at = r.dma_at;
    normal_at = r.normal_at;
    dma_total = r.dma_total;
    normal_total = r.normal_total;
    dma_size = r.dma_size;
    normal_size = r.normal_size;
    dma_used = λ j l1 l2. r.dma_used j (omega arith) l2;
    normal_used = λ j l1 l2. r.normal_used j (omega arith) l2;
    dma_bits = λ j lt. (let f = same j in let g = r.dma_bits j lt in ground arith);
    normal_bits = λ j lt. (let f = same (4096 + j) in let g = r.normal_bits j lt in ground arith);
  }

  -- The pages from `i` to `k` of the low zone.
  pub give_dma :
      (i k : ℕ)
      → from ≤ page_size * i
      → i ≤ k
      → k ≤ 4096
      → IsReleased mem_size (give_pages dma i (k - i)) normal (page_size * k) (released i k free)
  give_dma i k le le' inside =
      let used : UsedPages dma (k - i) i = record {
        inside = (let s = r.dma_size in omega arith);
        all = λ j l1 l2. r.dma_used j (omega arith) (let s = r.dma_size in omega arith);
      } in
      let (o, t, s) = give_pages-same dma i (k - i) in
      record {
        dma_valid = IsZone-give_pages (k - i) i r.dma_valid used;
        normal_valid = r.normal_valid;
        dma_at = o ∙ r.dma_at;
        normal_at = r.normal_at;
        dma_total = t ∙ r.dma_total;
        normal_total = r.normal_total;
        dma_size = s ∙ r.dma_size;
        normal_size = r.normal_size;
        dma_used = λ j l1 l2.
            (let b = bitmap_get-give_pages (k - i) i r.dma_valid used j in
              let u = r.dma_used j (omega arith) (omega arith) in ground arith);
        normal_used = λ j l1 l2. r.normal_used j (omega arith) l2;
        dma_bits = λ j lt.
            (let b = bitmap_get-give_pages (k - i) i r.dma_valid used j in
              let g = r.dma_bits j (omega arith) in ground arith);
        normal_bits = λ j lt. (let g = r.normal_bits j lt in ground arith);
      }

  -- The pages from `i` to `k` of the memory that lie in the high zone.
  pub give_normal :
      (i k : ℕ)
      → from ≤ page_size * i
      → 4096 ≤ i
      → i ≤ k
      → page_size * k ≤ mem_size
      → IsReleased mem_size dma
          (give_pages normal (i - 4096) (k - i))
          (page_size * k)
          (released i k free)
  give_normal i k le high le' inside =
      let size = r.normal_size in
      let used : UsedPages normal (k - i) (i - 4096) = record {
        inside = omega arith;
        all = λ j l1 l2. r.normal_used j (omega arith) (omega arith);
      } in
      let (o, t, s) = give_pages-same normal (i - 4096) (k - i) in
      record {
        dma_valid = r.dma_valid;
        normal_valid = IsZone-give_pages (k - i) (i - 4096) r.normal_valid used;
        dma_at = r.dma_at;
        normal_at = o ∙ r.normal_at;
        dma_total = r.dma_total;
        normal_total = ap (λ x. x + min_memory) t ∙ r.normal_total;
        dma_size = r.dma_size;
        normal_size = s ∙ r.normal_size;
        dma_used = λ j l1 l2. r.dma_used j (omega arith) l2;
        normal_used = λ j l1 l2.
            (let b = bitmap_get-give_pages (k - i) (i - 4096) r.normal_valid used j in
              let u = r.normal_used j (omega arith) (omega arith) in ground arith);
        dma_bits = λ j lt. (let g = r.dma_bits j lt in let z = r.dma_size in ground arith);
        normal_bits = λ j lt.
            (let b = bitmap_get-give_pages (k - i) (i - 4096) r.normal_valid used j in
              let g = r.normal_bits j (omega arith) in ground arith);
      }
