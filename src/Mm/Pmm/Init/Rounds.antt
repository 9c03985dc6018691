-- ===== src/Mm/Pmm/Init/Rounds.antt =====
-- A round of the loop of `pmm_init` over the memory map, for a usable entry.
use cerberos.Base.{
  Bool, ℕ, zero, suc, ◌+◌, ◌-◌, ◌*◌, ◌/◌, ◌^◌, ◌≤◌, ◌<◌, ◌≡◌, inl, inr, ◌⊎◌, refl, ap, ◌∙◌, arith,
  true, false, [], ◌∷◌, ltb, leb, ◌==◌, Bool-cases,
}
use cerberos.Base.Result.{Result, ok}
use cerberos.Sys.{add64, sub64, min_of, align_up, align_down}
use cerberos.Mm.Pmm.{Zone, Pmm, page_size, give_pages}
use cerberos.Mm.Pmm.Init.{
  MmapEntry, mem_usable, min_memory, num_zones, release, skip_zones, zone_end, offset_at,
  release_entry,
}
use cerberos.Mm.Pmm.Init.Release.{released, IsReleased, IsReleased-later, give_dma, give_normal}

abbrev pub two : ℕ → ℕ → Zone → Zone → Pmm
two mem_size ptr dma normal = record {
  mem_size = mem_size;
  mem_zone = dma ∷ normal ∷ [];
  alloc_ptr = ptr;
}

-- The zone in which the loop goes on reaches down to the address.
abbrev pub InZone : ℕ → ℕ → Type 0
InZone curr from = (curr ≡ 0) ⊎ ((curr ≡ 1) × (min_memory ≤ from))

-- What a round comes to: two zones as before, used from the address on, with these free pages.
abbrev pub IsRound : ℕ → ℕ → ℕ → (ℕ → Bool) → Result (ℕ × Pmm) → Type 0
IsRound mem_size ptr from free result =
    (curr : ℕ) × (dma : Zone) × (normal : Zone) × (result ≡ ok (curr, two mem_size ptr dma normal))
    × IsReleased mem_size dma normal from free
    × InZone curr from

release_entry-step :
    (p : Pmm) (entry : MmapEntry) (curr start stop : ℕ) {low high curr' low' high' : ℕ}
    → (entry.kind == mem_usable) ≡ true
    → align_up entry.base 4096 ≡ start
    → align_down (add64 entry.base entry.length) 4096 ≡ stop
    → offset_at p.mem_zone curr ≡ ok low
    → zone_end p curr ≡ ok high
    → skip_zones p num_zones start curr low high ≡ ok (curr', low', high')
    → release_entry p curr entry ≡ release (suc num_zones) p start stop curr' low' high'
unfolding release_entry
release_entry-step p entry curr start stop usable up down at end skip =
    rw (usable, up, down, at, end, skip) refl

skip_zones-stay :
    (p : Pmm) (rounds start curr low high : ℕ)
    → ltb high start ≡ false
    → skip_zones p rounds start curr low high ≡ ok (curr, low, high)
unfolding skip_zones
skip_zones-stay p zero start curr low high stay = rw (stay) refl
skip_zones-stay p (suc rounds) start curr low high stay = rw (stay) refl

skip_zones-next :
    (p : Pmm) (rounds start curr low high : ℕ) {low' high' : ℕ}
    → ltb high start ≡ true
    → offset_at p.mem_zone (curr + 1) ≡ ok low'
    → zone_end p (curr + 1) ≡ ok high'
    → skip_zones p (suc rounds) start curr low high
      ≡ skip_zones p rounds start (curr + 1) low' high'
unfolding skip_zones
skip_zones-next p rounds start curr low high next at end = rw (next, at, end) refl

module _ (mem_size ptr : ℕ) (small : mem_size ≤ 2 ^ 34) where
  release-normal :
      (rounds i k : ℕ) (dma normal : Zone)
      → 4096 ≤ i
      → i ≤ k
      → page_size * k ≤ mem_size
      → release
          (suc rounds)
          (two mem_size ptr dma normal)
          (page_size * i)
          (page_size * k)
          1
          min_memory
          mem_size
        ≡ ok (1, two mem_size ptr dma (give_pages normal (i - 4096) (k - i)))
  unfolding release
  release-normal rounds i k dma normal high le inside =
      let idx : sub64 (page_size * i) min_memory / page_size ≡ i - 4096 = omega arith in
      let least : min_of (page_size * k) mem_size ≡ page_size * k = ground arith in
      let size : sub64 (page_size * k) (page_size * i) / page_size ≡ k - i = omega arith in
      let last : leb (page_size * k) mem_size ≡ true = ground arith in
      rw (idx, least, size, last) refl

  release-dma :
      (rounds i k : ℕ) (dma normal : Zone)
      → i ≤ k
      → k ≤ 4096
      → release
          (suc rounds)
          (two mem_size ptr dma normal)
          (page_size * i)
          (page_size * k)
          0
          0
          min_memory
        ≡ ok (0, two mem_size ptr (give_pages dma i (k - i)) normal)
  unfolding release
  release-dma rounds i k dma normal le inside =
      let idx : sub64 (page_size * i) 0 / page_size ≡ i = omega arith in
      let least : min_of (page_size * k) min_memory ≡ page_size * k = ground arith in
      let size : sub64 (page_size * k) (page_size * i) / page_size ≡ k - i = omega arith in
      let last : leb (page_size * k) min_memory ≡ true = ground arith in
      rw (idx, least, size, last) refl

  release-across :
      (rounds i k : ℕ) (dma normal : Zone)
      → normal.offset ≡ min_memory
      → i ≤ 4096
      → 4096 < k
      → page_size * k ≤ mem_size
      → release
          (suc rounds)
          (two mem_size ptr dma normal)
          (page_size * i)
          (page_size * k)
          0
          0
          min_memory
        ≡ release rounds
            (two mem_size ptr (give_pages dma i (4096 - i)) normal)
            (page_size * 4096)
            (page_size * k)
            1
            min_memory
            mem_size
  unfolding release
  release-across rounds i k dma normal at low high inside =
      let idx : sub64 (page_size * i) 0 / page_size ≡ i = omega arith in
      let least : min_of (page_size * k) min_memory ≡ min_memory = ground arith in
      let least' : min_of min_memory (page_size * k) ≡ min_memory = ground arith in
      let size : sub64 min_memory (page_size * i) / page_size ≡ 4096 - i = omega arith in
      let last : leb (page_size * k) min_memory ≡ false = ground arith in
      rw (idx, least, least', size, last, at) refl

  module _ (from : ℕ) (dma normal : Zone) (free : ℕ → Bool)
      (r : IsReleased mem_size dma normal from free) where
    release-high :
        (rounds i k : ℕ)
        → from ≤ page_size * i
        → 4096 ≤ i
        → i ≤ k
        → page_size * k ≤ mem_size
        → IsRound mem_size ptr (page_size * k) (released i k free) (
            release
              (suc rounds)
              (two mem_size ptr dma normal)
              (page_size * i)
              (page_size * k)
              1
              min_memory
              mem_size)
    release-high rounds i k lo high le inside = (
      1,
      dma,
      give_pages normal (i - 4096) (k - i),
      release-normal rounds i k dma normal high le inside,
      give_normal mem_size from dma normal free r i k lo high le inside,
      inr (refl, omega arith),
    )

    release-low :
        (i k : ℕ)
        → from ≤ page_size * i
        → i ≤ 4096
        → i ≤ k
        → page_size * k ≤ mem_size
        → IsRound mem_size ptr (page_size * k) (released i k free) (
            release
              (suc num_zones)
              (two mem_size ptr dma normal)
              (page_size * i)
              (page_size * k)
              0
              0
              min_memory)
    release-low i k lo low le inside = elim (Bool-cases (leb k 4096)) [
      | inl fits ↦ (
        0,
        give_pages dma i (k - i),
        normal,
        release-dma num_zones i k dma normal le (ground arith),
        give_dma mem_size from dma normal free r i k lo le (ground arith),
        inl refl,
      )
      | inr over ↦
          let high : 4096 < k = ground arith in
          let first = give_dma mem_size from dma normal free r i 4096 lo low (omega arith) in
          let low_zone = give_pages dma i (4096 - i) in
          let high_zone = give_pages normal (4096 - 4096) (k - 4096) in
          let second =
            give_normal mem_size (page_size * 4096) low_zone normal (released i 4096 free) first
              4096 k (omega arith) (omega arith) (omega arith) inside in
          (
            1,
            give_pages dma i (4096 - i),
            give_pages normal (4096 - 4096) (k - 4096),
            release-across num_zones i k dma normal r.normal_at low high inside
                ∙ release-normal 1 4096 k (give_pages dma i (4096 - i)) normal (omega arith)
                    (omega arith) inside,
            IsReleased-later mem_size (page_size * k) low_zone high_zone
                (released 4096 k (released i 4096 free)) second (page_size * k) (released i k free)
                (omega arith) (λ j. ground arith),
            inr (refl, omega arith),
          )
    ]

    -- From the zone where the loop is, the entry's pages from `i` to `k` are given back.
    module _ (i k : ℕ) (entry : MmapEntry) (start : align_up entry.base 4096 ≡ page_size * i)
        (stop : align_down (add64 entry.base entry.length) 4096 ≡ page_size * k)
        (usable : entry.kind ≡ mem_usable) (lo : from ≤ page_size * i) (le : i ≤ k)
        (inside : page_size * k ≤ mem_size) where
      here : (entry.kind == mem_usable) ≡ true
      here = ground arith

      entry-low :
          i ≤ 4096
          → release_entry (two mem_size ptr dma normal) 0 entry
            ≡ release
                (suc num_zones)
                (two mem_size ptr dma normal)
                (page_size * i)
                (page_size * k)
                0
                0
                min_memory
      unfolding zone_end
      entry-low low =
          release_entry-step (two mem_size ptr dma normal) entry 0 (page_size * i) (page_size * k)
            here start stop (ap ok r.dma_at) (ap ok r.normal_at)
            (skip_zones-stay (two mem_size ptr dma normal) num_zones (page_size * i) 0 0 min_memory
              (ground arith))

      entry-skip :
          4096 < i
          → release_entry (two mem_size ptr dma normal) 0 entry
            ≡ release
                (suc num_zones)
                (two mem_size ptr dma normal)
                (page_size * i)
                (page_size * k)
                1
                min_memory
                mem_size
      unfolding zone_end
      entry-skip high =
          release_entry-step (two mem_size ptr dma normal) entry 0 (page_size * i) (page_size * k)
            here start stop (ap ok r.dma_at) (ap ok r.normal_at)
            (skip_zones-next (two mem_size ptr dma normal) 1 (page_size * i) 0 0 min_memory
                (ground arith) (ap ok r.normal_at) refl
              ∙ skip_zones-stay (two mem_size ptr dma normal) 1 (page_size * i) 1 min_memory
                  mem_size (ground arith))

      entry-high :
          release_entry (two mem_size ptr dma normal) 1 entry
          ≡ release
              (suc num_zones)
              (two mem_size ptr dma normal)
              (page_size * i)
              (page_size * k)
              1
              min_memory
              mem_size
      unfolding zone_end
      entry-high =
          release_entry-step (two mem_size ptr dma normal) entry 1 (page_size * i) (page_size * k)
            here start stop (ap ok r.normal_at) refl
            (skip_zones-stay (two mem_size ptr dma normal) num_zones (page_size * i) 1 min_memory
              mem_size (ground arith))

      pub usable-IsRound :
          (curr : ℕ)
          → InZone curr from
          → IsRound mem_size ptr
              (page_size * k)
              (released i k free)
              (release_entry (two mem_size ptr dma normal) curr entry)
      usable-IsRound curr (inr (one, high)) =
          rw (one, entry-high) (release-high num_zones i k lo (omega arith) le inside)
      usable-IsRound curr (inl zero_) = elim (Bool-cases (leb i 4096)) [
        | inl low ↦
            rw (zero_, entry-low (ground arith)) (release-low i k lo (ground arith) le inside)
        | inr high ↦
            rw (zero_, entry-skip (ground arith))
              (release-high num_zones i k lo (ground arith) le inside)
      ]
