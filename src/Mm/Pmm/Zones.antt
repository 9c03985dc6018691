-- ===== src/Mm/Pmm/Zones.antt =====
-- The invariant of a zone and of the array of zones.
use cerberos.Base.{
  ℕ, zero, suc, ◌+◌, ◌*◌, ◌^◌, ◌≤◌, ◌<◌, ◌≡◌, refl, arith, false, some, List, [], ◌∷◌, set, ◌==◌,
}
use cerberos.Base.Result.{ok}
use cerberos.Ds.Bitmap.Access.{Fits}
use cerberos.Mm.Pmm.{Zone, Pmm, zone_at, find_zone, page_size}
use cerberos.Mm.Pmm.Count.{count_free}

-- The bitmap covers the zone's whole pages, and the counters say how many of them are free.
pub record IsZone (z : Zone) : Type 0 where
  pub fits : Fits z.bitmap
  pub covers : page_size * z.bitmap.size ≤ z.mem_total
  pub counted : z.mem_free ≡ page_size * count_free z.bitmap z.bitmap.size
  pub total : z.mem_free + z.mem_used ≡ z.mem_total
  pub placed : z.offset + z.mem_total < 2 ^ 64

-- Each zone ends where the next begins, and the last one at the end of memory.
abbrev pub Tiled : ℕ → List Zone → Type 0
Tiled mem_size [] = Unit
Tiled mem_size (z ∷ []) = z.offset + z.mem_total ≡ mem_size
Tiled mem_size (z ∷ next ∷ zs) = (z.offset + z.mem_total ≡ next.offset) × Tiled mem_size (next ∷ zs)

abbrev pub AllZones : List Zone → Type 0
AllZones [] = Unit
AllZones (z ∷ zs) = IsZone z × AllZones zs

pub record IsValid (p : Pmm) : Type 0 where
  pub zones : AllZones p.mem_zone
  pub tiled : Tiled p.mem_size p.mem_zone

pub IsZone-zone_at :
    (zs : List Zone) (i : ℕ) {z : Zone} → AllZones zs → zone_at zs i ≡ ok z → IsZone z
IsZone-zone_at [] i h e = cc
IsZone-zone_at (x ∷ zs) zero h e = ground arith
IsZone-zone_at (x ∷ zs) (suc i) h e = IsZone-zone_at zs i h.1 e

pub AllZones-set :
    (zs : List Zone) (i : ℕ) (z : Zone) → AllZones zs → IsZone z → AllZones (set zs i z)
AllZones-set [] i z h k = tt
AllZones-set (x ∷ zs) zero z h k = (k, h.1)
AllZones-set (x ∷ zs) (suc i) z h k = (h.0, AllZones-set zs i z h.1 k)

-- A zone that keeps its place can be put back.
pub Tiled-set :
    (s : ℕ) (zs : List Zone) (i : ℕ) {z : Zone} (w : Zone)
    → Tiled s zs
    → zone_at zs i ≡ ok z
    → w.offset ≡ z.offset
    → w.mem_total ≡ z.mem_total
    → Tiled s (set zs i w)
Tiled-set s [] i w h e o t = tt
Tiled-set s (x ∷ []) zero w h e o t = ground arith
Tiled-set s (x ∷ []) (suc i) w h e o t = cc
Tiled-set s (x ∷ y ∷ zs) zero w h e o t = ground arith
Tiled-set s (x ∷ y ∷ zs) (suc zero) w h e o t = (ground arith, Tiled-set s (y ∷ zs) 0 w h.1 e o t)
Tiled-set s (x ∷ y ∷ zs) (suc (suc i)) w h e o t = (h.0, Tiled-set s (y ∷ zs) (suc i) w h.1 e o t)

pub zone_at-set_self :
    (zs : List Zone) (i : ℕ) {z : Zone} (w : Zone)
    → zone_at zs i ≡ ok z
    → zone_at (set zs i w) i ≡ ok w
zone_at-set_self [] i w e = cc
zone_at-set_self (x ∷ zs) zero w e = refl
zone_at-set_self (x ∷ zs) (suc i) w e = zone_at-set_self zs i w e

pub zone_at-set_ne :
    (zs : List Zone) (i j : ℕ) (w : Zone) → (i == j) ≡ false → zone_at (set zs i w) j ≡ zone_at zs j
zone_at-set_ne [] i j w e = refl
zone_at-set_ne (x ∷ zs) zero zero w e = ground arith
zone_at-set_ne (x ∷ zs) zero (suc j) w e = refl
zone_at-set_ne (x ∷ zs) (suc i) zero w e = refl
zone_at-set_ne (x ∷ zs) (suc i) (suc j) w e = zone_at-set_ne zs i j w (ground arith)

-- Zones further on begin no earlier.
zone_after :
    (s : ℕ) (x : Zone) (zs : List Zone) (i : ℕ) {z : Zone}
    → Tiled s (x ∷ zs)
    → zone_at zs i ≡ ok z
    → x.offset + x.mem_total ≤ z.offset
zone_after s x [] i h e = cc
zone_after s x (y ∷ zs) zero h e = ground arith
zone_after s x (y ∷ zs) (suc i) h e = omega (arith, zone_after s y zs i h.1 e)

-- The search of `pmm_free` finds the zone whose memory holds the address.
pub find_zone-zone_at :
    (s addr k : ℕ) (zs : List Zone) (i : ℕ) {z : Zone}
    → Tiled s zs
    → zone_at zs i ≡ ok z
    → z.offset ≤ addr
    → addr < z.offset + z.mem_total
    → find_zone s addr k zs ≡ some (k + i)
unfolding find_zone
find_zone-zone_at s addr k [] i h e lo hi = cc
find_zone-zone_at s addr k (x ∷ []) zero h e lo hi = ground arith
find_zone-zone_at s addr k (x ∷ []) (suc i) h e lo hi = cc
find_zone-zone_at s addr k (x ∷ y ∷ zs) zero h e lo hi = ground arith
find_zone-zone_at s addr k (x ∷ y ∷ zs) (suc i) h e lo hi =
    ground (
      arith,
      zone_after s x (y ∷ zs) i h e,
      find_zone-zone_at s addr (k + 1) (y ∷ zs) i h.1 e lo hi,
    )
