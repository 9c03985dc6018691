-- ===== src/Mm/Pmm/Init/Valid.antt =====
-- `pmm_init` as a whole: the state that it leaves.
use cerberos.Base.{
  ◌*◌, Bool, true, not, ◌&&◌, ◌==◌, leb, if◌then◌else◌, ℕ, ◌+◌, ◌-◌, ◌/◌, ◌^◌, ◌≤◌, ◌<◌, ◌≡◌, inl,
  refl, ap, ◌∙◌, arith, false, some, List, [], ◌∷◌, ltb,
}
use cerberos.Base.Result.{ok}
use cerberos.Sys.{sub64}
use cerberos.Mm.Pmm.{Zone, Pmm, page_size}
use cerberos.Ds.Bitmap.{bitmap_get}
use cerberos.Mm.Pmm.Zones.{IsValid}
use cerberos.Mm.Pmm.Init.{
  MmapEntry, mem_usable, min_memory, initial, get_mem_size, setup_zones, release_entries, pmm_init,
}
use cerberos.Mm.Pmm.Init.Setup.{IsFresh, setup_zones-IsFresh}
use cerberos.Mm.Pmm.Init.Release.{IsReleased}
use cerberos.Mm.Pmm.Init.Rounds.{two}
use cerberos.Mm.Pmm.Init.Entries.{
  freed, freed_all, IsOrdered, release_entries-IsReleased, IsReleased-IsValid,
}

-- Whether the page lies wholly in a usable entry.
abbrev pub is_usable : List MmapEntry → ℕ → Bool
is_usable [] j = false
is_usable (e ∷ es) j =
    if e.kind == mem_usable
      && leb e.base (page_size * j)
      && leb (page_size * (j + 1)) (e.base + e.length)
    then true
    else is_usable es j

-- The free pages of each zone are those of the usable entries.
abbrev pub HaveUsable : List MmapEntry → List Zone → Type 0
HaveUsable memmap [] = Unit
HaveUsable memmap (z ∷ zs) =
    ((j : ℕ)
      → j < z.bitmap.size
      → bitmap_get z.bitmap j ≡ not (is_usable memmap (z.offset / page_size + j)))
    × HaveUsable memmap zs

freed_all_lem :
    (es : List MmapEntry) (free : ℕ → Bool) (j : ℕ)
    → freed_all es free j ≡ (if is_usable es j then true else free j)
freed_all_lem [] free j = refl
freed_all_lem (e ∷ es) free j = let rest = freed_all_lem es (freed e free) j in ground arith

none_else : (es : List MmapEntry) (j : ℕ) → freed_all es (λ _. false) j ≡ is_usable es j
none_else es j = let f = freed_all_lem es (λ _. false) j in ground arith

IsReleased-HaveUsable :
    (mem_size from : ℕ) (dma normal : Zone) (memmap : List MmapEntry)
    → IsReleased mem_size dma normal from (freed_all memmap (λ _. false))
    → HaveUsable memmap (dma ∷ normal ∷ [])
IsReleased-HaveUsable mem_size from dma normal memmap r = (
  λ j lt.
      (let page : dma.offset / page_size + j ≡ j = (let o = r.dma_at in omega arith) in
        rw (page) (r.dma_bits j lt ∙ ap not (none_else memmap j))),
  (
    λ j lt.
        (let page : normal.offset / page_size + j ≡ 4096 + j =
            (let o = r.normal_at in omega arith) in
          rw (page) (r.normal_bits j lt ∙ ap not (none_else memmap (4096 + j)))),
    tt,
  ),
)

fresh-IsReleased :
    (mem_size : ℕ) (dma normal : Zone)
    → min_memory ≤ mem_size
    → mem_size ≤ 2 ^ 34
    → IsFresh dma 0 min_memory
    → IsFresh normal min_memory (sub64 mem_size min_memory)
    → IsReleased mem_size dma normal 0 (λ _. false)
fresh-IsReleased mem_size dma normal lo hi fd fn =
    let rest : sub64 mem_size min_memory ≡ mem_size - min_memory = omega arith in
    record {
      dma_valid = fd.valid;
      normal_valid = fn.valid;
      dma_at = fd.at;
      normal_at = fn.at;
      dma_total = fd.size;
      normal_total = (let t = fn.size in omega arith);
      dma_size = (let t = fd.pages in omega arith);
      normal_size = fn.pages ∙ ap (λ x. x / page_size) rest;
      dma_used = λ j l1 l2. fd.all_used j l2;
      normal_used = λ j l1 l2. fn.all_used j l2;
      dma_bits = fd.all_used;
      normal_bits = fn.all_used;
    }

pmm_init-step :
    (alloc_area mem_size ptr : ℕ) (memmap : List MmapEntry) (zones : List Zone)
    → get_mem_size memmap ≡ ok mem_size
    → ltb mem_size min_memory ≡ false
    → setup_zones mem_size (alloc_area + 2 ^ 20) alloc_area (initial alloc_area).mem_zone
      ≡ ok (zones, ptr)
    → pmm_init alloc_area (some memmap)
      ≡ release_entries (record { mem_size = mem_size; mem_zone = zones; alloc_ptr = ptr }) 0 memmap
unfolding pmm_init
pmm_init-step alloc_area mem_size ptr memmap zones size enough zs = rw (size, enough, zs) refl

-- On a memory map of at least 16 MiB and at most 16 GiB, whose entries are in order and do not overlap, and
-- whose usable entries are of a page at least, `pmm_init` returns, and its state is valid: the zones tile
-- the memory, their counters say how many of their pages are free, and the free pages are those that
-- lie wholly in a usable entry.
pub pmm_init-IsValid :
    (alloc_area mem_size : ℕ) (memmap : List MmapEntry)
    → get_mem_size memmap ≡ ok mem_size
    → min_memory ≤ mem_size
    → mem_size ≤ 2 ^ 34
    → alloc_area + 2 ^ 20 < 2 ^ 64
    → IsOrdered mem_size 0 memmap
    → (p : Pmm) × (pmm_init alloc_area (some memmap) ≡ ok p)
      × IsValid p
      × (p.mem_size ≡ mem_size)
      × HaveUsable memmap p.mem_zone
pmm_init-IsValid alloc_area mem_size memmap size lo hi area o =
    let (dma, normal, ptr, zs, fd, fn) = setup_zones-IsFresh mem_size alloc_area lo hi area in
    let r = fresh-IsReleased mem_size dma normal lo hi fd fn in
    let (dma', normal', done, r') =
      release_entries-IsReleased mem_size ptr hi 0 0 dma normal (λ _. false) memmap r (inl refl)
        (omega arith) o in
    (
      two mem_size ptr dma' normal',
      pmm_init-step alloc_area mem_size ptr memmap (dma ∷ normal ∷ []) size (ground arith) zs
          ∙ done,
      IsReleased-IsValid mem_size ptr hi mem_size dma' normal' (freed_all memmap (λ _. false)) r',
      refl,
      IsReleased-HaveUsable mem_size mem_size dma' normal' memmap r',
    )
