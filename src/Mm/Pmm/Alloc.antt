-- ===== src/Mm/Pmm/Alloc.antt =====
-- `pmm_alloc`: which pages it returns, when it panics, and what it leaves.
use cerberos.Base.{ℕ, ◌+◌, ◌*◌, ◌≤◌, ◌<◌, ◌≡◌, ◌⊎◌, inl, inr, refl, arith, false, ◌||◌, set}
use cerberos.Base.Result.{Result, ok, panic, >>=-eq-ok}
use cerberos.Ds.Bitmap.{bitmap_get, bitmap_find_range}
use cerberos.Ds.Bitmap.Range.{
  in_range, bitmap_get-bitmap_set_range, length-bitmap_set_range, size-bitmap_set_range,
}
use cerberos.Ds.Bitmap.Find.{IsRun, bitmap_find_range_lem, bitmap_find_range-zero}
use cerberos.Mm.Pmm.{Zone, Pmm, zone_at, take_pages, pmm_alloc, page_size}
use cerberos.Mm.Pmm.Count.{count_free-bitmap_set_range}
use cerberos.Mm.Pmm.Zones.{
  IsZone, IsValid, IsZone-zone_at, AllZones-set, Tiled-set, zone_at-set_self,
}

-- A run of `size` free pages of the zone at or after its hint.
abbrev pub FreeRun : Zone → ℕ → ℕ → Type 0
FreeRun z size idx = IsRun z.bitmap z.first_free_idx false size idx

-- The state after pages `idx` to `idx + size` of zone number `zone` are taken.
abbrev pub taken : Pmm → ℕ → Zone → ℕ → ℕ → Pmm
taken p zone z idx size = record p { mem_zone = set p.mem_zone zone (take_pages z idx size) }

module _ {z : Zone} (size idx : ℕ) (v : IsZone z) (run : FreeRun z size idx) where
  pub IsZone-take_pages : IsZone (take_pages z idx size)
  unfolding take_pages
  IsZone-take_pages = ground (
    arith,
    run.inside,
    size-bitmap_set_range z.bitmap idx size,
    length-bitmap_set_range z.bitmap idx size,
    count_free-bitmap_set_range z.bitmap idx size (omega (arith, run.inside))
        (omega (arith, run.inside)) z.bitmap.size run.inside run.all,
  )

  -- The bits of the pages that are taken are set, and no others.
  pub bitmap_get-take_pages :
      (j : ℕ)
      → bitmap_get (take_pages z idx size).bitmap j ≡ (in_range idx size j || bitmap_get z.bitmap j)
  unfolding take_pages
  bitmap_get-take_pages j =
      bitmap_get-bitmap_set_range z.bitmap idx size j (omega (arith, run.inside))
        (omega (arith, run.inside))

-- The first run of that many free pages at or after the zone's hint is taken, or there is none.
abbrev pub AllocOutcome : Pmm → ℕ → Zone → ℕ → Type 0
AllocOutcome p zone z size =
    ((pmm_alloc p zone size ≡ panic) × ((i : ℕ) → ¬ FreeRun z size i))
    ⊎ ((idx : ℕ) × FreeRun z size idx
        × ((i : ℕ) → FreeRun z size i → idx ≤ i)
        × (pmm_alloc p zone size ≡ ok (z.offset + page_size * idx, taken p zone z idx size)))

-- In a valid state and an existing zone a request for some pages has two outcomes. It takes the
-- first run of that many free pages at or after the zone's hint and returns its address, or it
-- panics, and then there is no such run.
pub pmm_alloc_lem :
    (p : Pmm) (zone size : ℕ) {z : Zone}
    → IsValid p
    → zone_at p.mem_zone zone ≡ ok z
    → 0 < size
    → AllocOutcome p zone z size
unfolding pmm_alloc
pmm_alloc_lem p zone size {z} v e pos =
    let vz = IsZone-zone_at p.mem_zone zone v.zones e in
    let b = z.bitmap in
    elim (bitmap_find_range_lem z.bitmap z.first_free_idx false size pos) [
      | inl (failed, no_run) ↦ inl (rw (e, failed), no_run)
      | inr (run, least) ↦ inr (
        bitmap_find_range z.bitmap z.first_free_idx false size,
        run,
        least,
        ground (arith, e, run.inside, vz.fits, vz.covers, vz.placed),
      )
    ]

-- A request for no pages panics.
pub pmm_alloc-zero :
    (p : Pmm) (zone : ℕ) {z : Zone} → zone_at p.mem_zone zone ≡ ok z → pmm_alloc p zone 0 ≡ panic
unfolding pmm_alloc
pmm_alloc-zero p zone {z} e = rw (e, bitmap_find_range-zero)

pub taken-IsValid :
    (p : Pmm) (zone size idx : ℕ) {z : Zone}
    → IsValid p
    → zone_at p.mem_zone zone ≡ ok z
    → FreeRun z size idx
    → IsValid (taken p zone z idx size)
unfolding take_pages
taken-IsValid p zone size idx {z} v e run =
    let vz = IsZone-zone_at p.mem_zone zone v.zones e in
    record {
      zones = AllZones-set p.mem_zone zone _ v.zones (IsZone-take_pages size idx vz run);
      tiled = Tiled-set p.mem_size p.mem_zone zone _ v.tiled e refl refl;
    }

zone_of_alloc :
    (p : Pmm) (zone size : ℕ) {r : ℕ × Pmm}
    → pmm_alloc p zone size ≡ ok r
    → (z : Zone) × (zone_at p.mem_zone zone ≡ ok z)
unfolding pmm_alloc
zone_of_alloc p zone size e = let (z, at, _) = >>=-eq-ok (zone_at p.mem_zone zone) _ e in (z, at)

pub addr_of : {r : Result (ℕ × Pmm)} {a b : ℕ} {p q : Pmm} → r ≡ ok (a, p) → r ≡ ok (b, q) → a ≡ b
addr_of e f = cc

pub state_of : {r : Result (ℕ × Pmm)} {a b : ℕ} {p q : Pmm} → r ≡ ok (a, p) → r ≡ ok (b, q) → p ≡ q
state_of e f = cc

-- A successful allocation keeps the invariant: in particular the counters of each zone still say
-- how many of its pages are free.
pub pmm_alloc-IsValid :
    (p : Pmm) (zone size : ℕ) {addr : ℕ} {p' : Pmm}
    → IsValid p
    → 0 < size
    → pmm_alloc p zone size ≡ ok (addr, p')
    → IsValid p'
pmm_alloc-IsValid p zone size v pos e =
    let (z, at) = zone_of_alloc p zone size e in
    elim (pmm_alloc_lem p zone size v at pos) [
      | inl (failed, _) ↦ cc
      | inr (idx, run, _, e') ↦ rw (state_of e e') (taken-IsValid p zone size idx v at run)
    ]

-- Between two successful allocations in one zone, with nothing freed, the pages returned by the
-- second lie wholly above those of the first. So live allocations never overlap, and a free page
-- below an earlier allocation is not found again before a free lowers the hint.
pub pmm_alloc_ascends :
    (p : Pmm) (zone m n : ℕ) {a b : ℕ} {p' p'' : Pmm}
    → IsValid p
    → 0 < m
    → 0 < n
    → pmm_alloc p zone m ≡ ok (a, p')
    → pmm_alloc p' zone n ≡ ok (b, p'')
    → a + page_size * m ≤ b
unfolding take_pages
pmm_alloc_ascends p zone m n {a} {b} {p'} v hm hn e f =
    let (z, at) = zone_of_alloc p zone m e in
    let v' = pmm_alloc-IsValid p zone m v hm e in
    elim (pmm_alloc_lem p zone m v at hm) [
      | inl (failed, _) ↦ cc
      | inr (idx, run, _, e') ↦
          let vz = IsZone-zone_at p.mem_zone zone v.zones at in
          let at' : zone_at p'.mem_zone zone ≡ ok (take_pages z idx m) =
            rw (state_of e e') (zone_at-set_self p.mem_zone zone _ at) in
          elim (pmm_alloc_lem p' zone n v' at' hn) [
            | inl (failed, _) ↦ cc
            | inr (idx', run', _, f') ↦
                ground
                  (arith, addr_of e e', addr_of f f', run.inside, run'.after, vz.covers, vz.placed)
          ]
    ]
