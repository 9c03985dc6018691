-- ===== src/Mm/Pmm/Free.antt =====
-- `pmm_free`: giving pages back, and the round trip with `pmm_alloc`.
use cerberos.Base.{
  ℕ, ◌+◌, ◌*◌, ◌/◌, ◌≤◌, ◌<◌, ◌≡◌, inl, inr, refl, arith, true, not, ◌&&◌, none, some, List, [],
  ◌∷◌, set,
}
use cerberos.Base.Result.{Result, ok, panic}
use cerberos.Sys.{sub64}
use cerberos.Ds.Bitmap.{bitmap_get, bitmap_clear_range}
use cerberos.Ds.Bitmap.Range.{
  in_range, bitmap_get-bitmap_clear_range, length-bitmap_clear_range, size-bitmap_clear_range,
  size-bitmap_set_range,
}
use cerberos.Mm.Pmm.{
  Zone, Pmm, zone_at, find_zone, take_pages, give_pages, free_in, pmm_alloc, pmm_free, page_size,
}
use cerberos.Mm.Pmm.Count.{AllBits, count_free-le, count_free-bitmap_clear_range}
use cerberos.Mm.Pmm.Zones.{
  IsZone, IsValid, Tiled, IsZone-zone_at, AllZones-set, Tiled-set, zone_at-set_self,
  find_zone-zone_at,
}
use cerberos.Mm.Pmm.Alloc.{
  FreeRun, taken, pmm_alloc_lem, taken-IsValid, bitmap_get-take_pages, IsZone-take_pages, addr_of,
  state_of,
}

-- `size` pages of the zone from `idx` on, all in use.
pub record UsedPages (z : Zone) (size idx : ℕ) : Type 0 where
  pub inside : idx + size ≤ z.bitmap.size
  pub all : AllBits z.bitmap idx size true

abbrev pub given : Pmm → ℕ → Zone → ℕ → ℕ → Pmm
given p zone z idx size = record p { mem_zone = set p.mem_zone zone (give_pages z idx size) }

module _ {z : Zone} (size idx : ℕ) (v : IsZone z) (used : UsedPages z size idx) where
  pub IsZone-give_pages : IsZone (give_pages z idx size)
  unfolding give_pages
  IsZone-give_pages = ground (
    arith,
    used.inside,
    count_free-le (bitmap_clear_range z.bitmap idx size) z.bitmap.size,
    size-bitmap_clear_range z.bitmap idx size,
    length-bitmap_clear_range z.bitmap idx size,
    count_free-bitmap_clear_range z.bitmap idx size (omega (arith, used.inside))
        (omega (arith, used.inside)) z.bitmap.size used.inside used.all,
  )

  pub bitmap_get-give_pages :
      (j : ℕ)
      → bitmap_get (give_pages z idx size).bitmap j
        ≡ (not (in_range idx size j) && bitmap_get z.bitmap j)
  unfolding give_pages
  bitmap_get-give_pages j =
      bitmap_get-bitmap_clear_range z.bitmap idx size j (omega (arith, used.inside))
        (omega (arith, used.inside))

-- Freeing `size` used pages of a zone by the address of the first finds the zone and clears those
-- pages there; the state stays valid.
pub pmm_free_lem :
    (p : Pmm) (zone size idx : ℕ) {z : Zone}
    → IsValid p
    → zone_at p.mem_zone zone ≡ ok z
    → 0 < size
    → UsedPages z size idx
    → (pmm_free p (z.offset + page_size * idx) size ≡ ok (given p zone z idx size))
      × IsValid (given p zone z idx size)
unfolding pmm_free free_in
pmm_free_lem p zone size idx {z} v e pos used =
    let vz = IsZone-zone_at p.mem_zone zone v.zones e in
    let addr : ℕ = z.offset + page_size * idx in
    let found : find_zone p.mem_size addr 0 p.mem_zone ≡ some (0 + zone) =
      find_zone-zone_at p.mem_size addr 0 p.mem_zone zone v.tiled e (omega arith)
        (omega (arith, vz.covers, used.inside)) in
    let here : 0 + zone ≡ zone = omega arith in
    let back : sub64 addr z.offset / page_size ≡ idx =
      omega (arith, vz.placed, vz.covers, used.inside) in
    (
      rw (found, here, e, back),
      record {
        zones = AllZones-set p.mem_zone zone _ v.zones (IsZone-give_pages size idx vz used);
        tiled = unfold give_pages in Tiled-set p.mem_size p.mem_zone zone _ v.tiled e refl refl;
      },
    )

-- An address that no zone holds.
find_zone-none :
    (s addr k : ℕ) (zs : List Zone) → Tiled s zs → s ≤ addr → find_zone s addr k zs ≡ none
unfolding find_zone
find_zone-none s addr k [] h le = refl
find_zone-none s addr k (x ∷ []) h le = ground arith
find_zone-none s addr k (x ∷ y ∷ zs) h le =
    ground (arith, find_zone-none s addr (k + 1) (y ∷ zs) h.1 le, Tiled-le s y zs h.1)
  where
    Tiled-le : (s : ℕ) (y : Zone) (zs : List Zone) → Tiled s (y ∷ zs) → y.offset ≤ s
    Tiled-le s y [] h = omega arith
    Tiled-le s y (w ∷ zs) h = omega (arith, Tiled-le s w zs h.1)

-- Freeing an address past the end of memory panics.
pub pmm_free_outside :
    (p : Pmm) (addr size : ℕ) → IsValid p → p.mem_size ≤ addr → pmm_free p addr size ≡ panic
unfolding pmm_free free_in
pmm_free_outside p addr size v le = rw (find_zone-none p.mem_size addr 0 p.mem_zone v.tiled le)

-- What a free leaves after an allocation of the same pages: the zone at its old place reads the
-- same bits and has the same counters as before both.
pub record Restored (p : Pmm) (zone : ℕ) (z : Zone) (r : Result Pmm) : Type 0 where
  pub state : Pmm
  pub zone_now : Zone
  pub returns : r ≡ ok state
  pub at : zone_at state.mem_zone zone ≡ ok zone_now
  pub bits : (j : ℕ) → bitmap_get zone_now.bitmap j ≡ bitmap_get z.bitmap j
  pub free : zone_now.mem_free ≡ z.mem_free
  pub used : zone_now.mem_used ≡ z.mem_used
  pub valid : IsValid state

-- The zone after its pages are taken, and after they are given back.
module _ (p : Pmm) (zone size idx : ℕ) {z : Zone} (v : IsValid p)
    (e : zone_at p.mem_zone zone ≡ ok z) (pos : 0 < size) (vz : IsZone z)
    (run : FreeRun z size idx) where
  taken_pages_used : UsedPages (take_pages z idx size) size idx
  taken_pages_used = record {
    inside =
        unfold take_pages in omega (arith, run.inside, size-bitmap_set_range z.bitmap idx size);
    all = λ j lo hi. ground (arith, bitmap_get-take_pages size idx vz run j);
  }

  taken_zone : zone_at (taken p zone z idx size).mem_zone zone ≡ ok (take_pages z idx size)
  taken_zone = zone_at-set_self p.mem_zone zone _ e

  undo_bits :
      (j : ℕ)
      → bitmap_get (give_pages (take_pages z idx size) idx size).bitmap j ≡ bitmap_get z.bitmap j
  undo_bits j = ground (
    arith,
    bitmap_get-give_pages size idx (IsZone-take_pages size idx vz run) taken_pages_used j,
    bitmap_get-take_pages size idx vz run j,
    run.all j,
  )

  undo : Restored p zone z (pmm_free (taken p zone z idx size) (z.offset + page_size * idx) size)
  unfolding take_pages give_pages
  undo =
      let v' = taken-IsValid p zone size idx v e run in
      let (done, valid) =
        pmm_free_lem (taken p zone z idx size) zone size idx v' taken_zone pos taken_pages_used in
      record {
        state = given (taken p zone z idx size) zone (take_pages z idx size) idx size;
        zone_now = give_pages (take_pages z idx size) idx size;
        returns = done;
        at = zone_at-set_self _ zone _ taken_zone;
        bits = undo_bits;
        free = omega (arith, run.inside, vz.covers, vz.placed, vz.total);
        used = omega (arith, run.inside, vz.covers, vz.placed, vz.total);
        valid = valid;
      }

-- `pmm_free` undoes `pmm_alloc`: the pages are free again, every other page is as it was, and the
-- counters have their old values.
pub pmm_free-pmm_alloc :
    (p : Pmm) (zone size : ℕ) {z : Zone} {addr : ℕ} {p' : Pmm}
    → IsValid p
    → zone_at p.mem_zone zone ≡ ok z
    → 0 < size
    → pmm_alloc p zone size ≡ ok (addr, p')
    → Restored p zone z (pmm_free p' addr size)
pmm_free-pmm_alloc p zone size {z} {addr} {p'} v e pos alloc =
    elim (pmm_alloc_lem p zone size v e pos) [
      | inl (failed, _) ↦ cc
      | inr (idx, run, _, done) ↦
          let vz = IsZone-zone_at p.mem_zone zone v.zones e in
          rw (addr_of alloc done, state_of alloc done) (undo p zone size idx v e pos vz run)
    ]
