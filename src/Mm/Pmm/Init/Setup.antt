-- ===== src/Mm/Pmm/Init/Setup.antt =====
-- The zones as `pmm_init` sets them up: the memory manager's invariant, with every page in use.
use cerberos.Base.{
  ℕ, zero, suc, ◌+◌, ◌*◌, ◌/◌, ◌^◌, ◌≤◌, ◌<◌, ◌≡◌, refl, ap, ◌∙◌, arith, true, false, [], ◌∷◌,
  length, replicate, length-replicate, ltb,
}
use cerberos.Base.Result.{ok, fault}
use cerberos.Sys.{align_up, sub64}
use cerberos.Sys.Align.{align_up_bounds}
use cerberos.Ds.Bitmap.{Bitmap, bitmap_get, bitmap_set_range, bitmap_size_bytes}
use cerberos.Ds.Bitmap.Access.{bitmap_size_bytes_lem}
use cerberos.Ds.Bitmap.Range.{
  bitmap_get-bitmap_set_range, length-bitmap_set_range, size-bitmap_set_range,
}
use cerberos.Mm.Pmm.{Zone, page_size}
use cerberos.Mm.Pmm.Count.{count_free}
use cerberos.Mm.Pmm.Zones.{IsZone, IsValid}
use cerberos.Mm.Pmm.Init.{alloc, setup_zone, setup_zones, initial, unset_zone, min_memory}

count_free-all_set :
    (b : Bitmap) (n m : ℕ)
    → n ≤ 8 * length b.bytes
    → n ≤ 2 ^ 64
    → m ≤ n
    → count_free (bitmap_set_range b 0 n) m ≡ 0
unfolding count_free
count_free-all_set b n zero h w le = refl
count_free-all_set b n (suc m) h w le = ground (
  arith,
  bitmap_get-bitmap_set_range b 0 n m (omega arith) (omega arith),
  count_free-all_set b n m h w (omega arith),
)

-- A zone of `total` bytes with no page free.
pub record IsFresh (z : Zone) (offset total : ℕ) : Type 0 where
  pub valid : IsZone z
  pub at : z.offset ≡ offset
  pub size : z.mem_total ≡ total
  pub none_free : z.mem_free ≡ 0
  pub pages : z.bitmap.size ≡ total / page_size
  pub all_used : (j : ℕ) → j < z.bitmap.size → bitmap_get z.bitmap j ≡ true

-- The area has room behind `alloc_ptr` for the bitmap of `total` bytes of memory.
abbrev Room : ℕ → ℕ → ℕ → Type 0
Room area_end alloc_ptr total = alloc_ptr + total / 2 ^ 15 + 9 ≤ area_end

setup_zone_lem :
    (area_end alloc_ptr total : ℕ) (z : Zone)
    → Room area_end alloc_ptr total
    → area_end < 2 ^ 64
    → z.offset + total < 2 ^ 64
    → (z' : Zone) × (ptr : ℕ) × (setup_zone area_end alloc_ptr z total ≡ ok (z', ptr))
      × IsFresh z' z.offset total
      × (ptr ≤ alloc_ptr + total / 2 ^ 15 + 9)
      × (alloc_ptr ≤ ptr)
unfolding setup_zone alloc
setup_zone_lem area_end alloc_ptr total z room small placed =
    let size : ℕ = total / page_size in
    let empty : Bitmap = record { size = size; bytes = [] } in
    let bytes : ℕ = bitmap_size_bytes empty in
    let all : Bitmap = record { size = size; bytes = replicate bytes 0 } in
    let b : Bitmap = bitmap_set_range all 0 size in
    let (enough, tight) = bitmap_size_bytes_lem empty in
    let (lo, hi) = align_up_bounds 3 alloc_ptr (omega arith) (omega arith) in
    let len : length all.bytes ≡ bytes = length-replicate bytes 0 in
    let none_clear : count_free b b.size ≡ 0 =
      ap (count_free b) (size-bitmap_set_range all 0 size)
      ∙ count_free-all_set all size size (omega arith) (omega arith) (omega arith) in
    let fits : ltb area_end (align_up alloc_ptr 8 + bytes) ≡ false = ground arith in
    (
      record z { mem_total = total; mem_used = total; mem_free = 0; bitmap = b },
      align_up alloc_ptr 8 + bytes,
      rw fits,
      record {
        valid = record {
          fits =
              omega (arith, length-bitmap_set_range all 0 size, size-bitmap_set_range all 0 size);
          covers = omega (arith, size-bitmap_set_range all 0 size);
          counted = omega (arith, none_clear);
          total = omega arith;
          placed = placed;
        };
        at = refl;
        size = refl;
        none_free = refl;
        pages = size-bitmap_set_range all 0 size;
        all_used = λ j lt.
            (let same = size-bitmap_set_range all 0 size in
              let g = bitmap_get-bitmap_set_range all 0 size j (omega arith) (omega arith) in
              ground arith);
      },
      omega arith,
      omega arith,
    )

setup_zone_overrun :
    (area_end alloc_ptr total : ℕ) (z : Zone)
    → area_end < alloc_ptr + total / 2 ^ 15
    → alloc_ptr + 8 ≤ 2 ^ 64
    → setup_zone area_end alloc_ptr z total ≡ fault
unfolding setup_zone alloc
setup_zone_overrun area_end alloc_ptr total z over small =
    let empty : Bitmap = record { size = total / page_size; bytes = [] } in
    let (enough, tight) = bitmap_size_bytes_lem empty in
    let (lo, hi) = align_up_bounds 3 alloc_ptr small (omega arith) in
    let full : ltb area_end (align_up alloc_ptr 8 + bitmap_size_bytes empty) ≡ true =
      ground arith in
    rw full

-- The two zones that the set-up makes.
pub setup_zones-IsFresh :
    (mem_size alloc_area : ℕ)
    → min_memory ≤ mem_size
    → mem_size ≤ 2 ^ 34
    → alloc_area + 2 ^ 20 < 2 ^ 64
    → (dma : Zone) × (normal : Zone) × (ptr : ℕ) × (setup_zones mem_size
          (alloc_area + 2 ^ 20)
          alloc_area
          (initial alloc_area).mem_zone
        ≡ ok (dma ∷ normal ∷ [], ptr))
      × IsFresh dma 0 min_memory
      × IsFresh normal min_memory (sub64 mem_size min_memory)
unfolding setup_zones
setup_zones-IsFresh mem_size alloc_area lo hi area =
    let (dma, p, e, fd, le, ge) =
      setup_zone_lem (alloc_area + 2 ^ 20) alloc_area min_memory (unset_zone 0) (omega arith) area
        (omega arith) in
    let (normal, q, e', fn, _, _) =
      setup_zone_lem (alloc_area + 2 ^ 20) p (sub64 mem_size min_memory) (unset_zone min_memory)
        (omega arith) area (omega arith) in
    (dma, normal, q, rw (e, e') refl, fd, fn)

-- With at least 16 MiB and at most 16 GiB of memory the set-up succeeds: the two zones tile the
-- memory, satisfy the invariant, and have no free page.
pub setup_zones_lem :
    (mem_size alloc_area : ℕ)
    → min_memory ≤ mem_size
    → mem_size ≤ 2 ^ 34
    → alloc_area + 2 ^ 20 < 2 ^ 64
    → (dma : Zone) × (normal : Zone) × (ptr : ℕ) × (setup_zones mem_size
          (alloc_area + 2 ^ 20)
          alloc_area
          (initial alloc_area).mem_zone
        ≡ ok (dma ∷ normal ∷ [], ptr))
      × IsValid (record { mem_size = mem_size; mem_zone = dma ∷ normal ∷ []; alloc_ptr = ptr })
      × (dma.mem_free + normal.mem_free ≡ 0)
setup_zones_lem mem_size alloc_area lo hi area =
    let (dma, normal, q, e, fd, fn) = setup_zones-IsFresh mem_size alloc_area lo hi area in
    (
      dma,
      normal,
      q,
      e,
      record {
        zones = (fd.valid, (fn.valid, tt));
        tiled = (omega (arith, fd.at, fd.size, fn.at), omega (arith, fn.at, fn.size));
      },
      omega (arith, fd.none_free, fn.none_free),
    )

-- The code never asks whether the area is used up: with 64 GiB of memory or more, the bitmap of the
-- second zone does not fit into the 1 MiB, and the set-up writes behind the area.
pub setup_zones_overrun :
    (mem_size alloc_area : ℕ)
    → 2 ^ 36 ≤ mem_size
    → mem_size < 2 ^ 64
    → alloc_area + 2 ^ 20 < 2 ^ 64
    → setup_zones mem_size (alloc_area + 2 ^ 20) alloc_area (initial alloc_area).mem_zone ≡ fault
unfolding setup_zones
setup_zones_overrun mem_size alloc_area lo hi area =
    let (dma, p, e, fd, le, ge) =
      setup_zone_lem (alloc_area + 2 ^ 20) alloc_area min_memory (unset_zone 0) (omega arith) area
        (omega arith) in
    rw (
      e,
      setup_zone_overrun (alloc_area + 2 ^ 20) p (sub64 mem_size min_memory) (unset_zone min_memory)
          (omega arith) (omega (arith, le)),
    )
