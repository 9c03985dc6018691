-- ===== src/Mm/Pmm/Init/Entries.antt =====
-- The entries of the memory map in the loop of `pmm_init`, one after the other.
use cerberos.Base.{
  Bool, ◌&&◌, ℕ, ◌+◌, ◌-◌, ◌*◌, ◌/◌, ◌^◌, ◌≤◌, ◌≡◌, inl, inr, refl, ap, ◌∙◌, arith, true, false,
  List, [], ◌∷◌, leb, ◌==◌, if◌then◌else◌, Bool-cases,
}
use cerberos.Base.Result.{ok}
use cerberos.Sys.{add64, align_up, align_down}
use cerberos.Sys.Align.{align_up_lem, align_down_lem}
use cerberos.Mm.Pmm.{Zone, Pmm, page_size}
use cerberos.Mm.Pmm.Zones.{IsValid}
use cerberos.Mm.Pmm.Init.{MmapEntry, mem_usable, release_entry, release_entries}
use cerberos.Mm.Pmm.Init.Release.{released, IsReleased, IsReleased-later}
use cerberos.Mm.Pmm.Init.Rounds.{two, InZone, IsRound, usable-IsRound}

-- The entries follow each other from the address on, without overlap and inside the memory, and the usable
-- ones are of a page at least.
abbrev pub IsOrdered : ℕ → ℕ → List MmapEntry → Type 0
IsOrdered mem_size from [] = Unit
IsOrdered mem_size from (e ∷ es) =
    (from ≤ e.base)
    × (e.base + e.length ≤ mem_size)
    × (e.kind ≡ mem_usable → page_size ≤ e.length)
    × IsOrdered mem_size (e.base + e.length) es

-- The pages that lie wholly in the entry become free if it is usable.
abbrev pub freed : MmapEntry → (ℕ → Bool) → ℕ → Bool
freed e free j =
    if e.kind == mem_usable
      && leb e.base (page_size * j)
      && leb (page_size * (j + 1)) (e.base + e.length)
    then true
    else free j

-- What the entries leave free.
abbrev pub freed_all : List MmapEntry → (ℕ → Bool) → ℕ → Bool
freed_all [] free = free
freed_all (e ∷ es) free = freed_all es (freed e free)

module _ (mem_size ptr : ℕ) (small : mem_size ≤ 2 ^ 34) where
  InZone-later : (curr from later : ℕ) → from ≤ later → InZone curr from → InZone curr later
  InZone-later curr from later le (inl z) = inl z
  InZone-later curr from later le (inr (one, high)) = inr (one, omega arith)

  skipped :
      (p : Pmm) (curr : ℕ) (e : MmapEntry)
      → (e.kind == mem_usable) ≡ false
      → release_entry p curr e ≡ ok (curr, p)
  unfolding release_entry
  skipped p curr e other = rw (other) refl

  release_entry-IsRound :
      (from curr : ℕ) (dma normal : Zone) (free : ℕ → Bool) (e : MmapEntry)
      → IsReleased mem_size dma normal from free
      → InZone curr from
      → from ≤ e.base
      → e.base + e.length ≤ mem_size
      → (e.kind ≡ mem_usable → page_size ≤ e.length)
      → IsRound mem_size ptr
          (e.base + e.length)
          (freed e free)
          (release_entry (two mem_size ptr dma normal) curr e)
  release_entry-IsRound from curr dma normal free e r z le inside page =
      elim (Bool-cases (e.kind == mem_usable)) [
        | inl here ↦
            let usable : e.kind ≡ mem_usable = ground arith in
            let long = page usable in
            let i : ℕ = (e.base + page_size - 1) / page_size in
            let k : ℕ = (e.base + e.length) / page_size in
            let sum : add64 e.base e.length ≡ e.base + e.length = omega arith in
            let start : align_up e.base 4096 ≡ page_size * i =
              align_up_lem 12 e.base (omega arith) (omega arith) ∙ omega arith in
            let stop : align_down (add64 e.base e.length) 4096 ≡ page_size * k =
              ap (λ x. align_down x 4096) sum
              ∙ align_down_lem 12 (e.base + e.length) (omega arith) (omega arith)
              ∙ omega arith in
            let (curr', dma', normal', done, r', z') =
              usable-IsRound mem_size ptr small from dma normal free r i k e start stop usable
                (omega arith) (omega arith) (omega arith) curr z in
            (
              curr',
              dma',
              normal',
              done,
              IsReleased-later mem_size (page_size * k) dma' normal' (released i k free) r'
                  (e.base + e.length) (freed e free) (omega arith) (λ j. ground arith),
              InZone-later curr' (page_size * k) (e.base + e.length) (omega arith) z',
            )
        | inr other ↦ (
          curr,
          dma,
          normal,
          skipped (two mem_size ptr dma normal) curr e other,
          IsReleased-later mem_size from dma normal free r (e.base + e.length) (freed e free)
              (omega arith) (λ j. ground arith),
          InZone-later curr from (e.base + e.length) (omega arith) z,
        )
      ]

  release_entries-step :
      (p p' : Pmm) (curr curr' : ℕ) (e : MmapEntry) (es : List MmapEntry)
      → release_entry p curr e ≡ ok (curr', p')
      → release_entries p curr (e ∷ es) ≡ release_entries p' curr' es
  unfolding release_entries
  release_entries-step p p' curr curr' e es done = rw (done) refl

  -- The loop over all entries returns.
  pub release_entries-IsReleased :
      (from curr : ℕ) (dma normal : Zone) (free : ℕ → Bool) (es : List MmapEntry)
      → IsReleased mem_size dma normal from free
      → InZone curr from
      → from ≤ mem_size
      → IsOrdered mem_size from es
      → (dma' : Zone) × (normal' : Zone) × (release_entries (two mem_size ptr dma normal) curr es
          ≡ ok (two mem_size ptr dma' normal'))
        × IsReleased mem_size dma' normal' mem_size (freed_all es free)
  unfolding release_entries
  release_entries-IsReleased from curr dma normal free [] r z le o = (
    dma,
    normal,
    refl,
    IsReleased-later mem_size from dma normal free r mem_size free le (λ j. refl),
  )
  release_entries-IsReleased from curr dma normal free (e ∷ es) r z le o =
      let (curr', dma₁, normal₁, done, r₁, z₁) =
        release_entry-IsRound from curr dma normal free e r z o.0 o.1 o.2 in
      let (dma', normal', rest, r') =
        release_entries-IsReleased (e.base + e.length) curr' dma₁ normal₁ (freed e free) es r₁ z₁
          o.1 o.3 in
      (
        dma',
        normal',
        release_entries-step (two mem_size ptr dma normal) (two mem_size ptr dma₁ normal₁) curr
              curr' e es done
            ∙ rest,
        r',
      )

  pub IsReleased-IsValid :
      (from : ℕ) (dma normal : Zone) (free : ℕ → Bool)
      → IsReleased mem_size dma normal from free
      → IsValid (two mem_size ptr dma normal)
  IsReleased-IsValid from dma normal free r = record {
    zones = (r.dma_valid, (r.normal_valid, tt));
    tiled = (
      (let a = r.dma_at in let t = r.dma_total in let n = r.normal_at in omega arith),
      (let n = r.normal_at in let t = r.normal_total in omega arith),
    );
  }
