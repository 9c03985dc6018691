-- ===== src/Boot/Stacks.antt =====
-- The stacks that `smp_init` gives to the processors.
mod Tests
use cerberos.Base.{
  ℕ, ◌+◌, ◌*◌, ◌<◌, ◌≤◌, ◌≡◌, ◌≢◌, inl, inr, refl, sym, ap, ◌∙◌, arith, some, List, [], ◌∷◌, ◌==◌,
  Bool-cases, ==_iff,
}
use cerberos.Base.Result.{ok, ◌>>=◌, >>=-eq-ok}
use cerberos.Mm.Pmm.{Pmm, page_size, pmm_alloc}
use cerberos.Mm.Pmm.Zones.{IsValid}
use cerberos.Mm.Pmm.Alloc.{pmm_alloc-IsValid, pmm_alloc_ascends}
use cerberos.Mm.Paging.{zone_normal}
use cerberos.Boot.{SmpInfo, start_processors, smp_init}

-- The processors after the loop, which leads from one state of the page frames to another and where no
-- stack is below `low`: the bootstrap processor is as it was, and each other one has the base of a page
-- that was allocated for it alone, above those of the ones before it, and enters the kernel at `entry`.
pub data HaveStacks (bsp entry : ℕ) : ℕ → Pmm → List SmpInfo → List SmpInfo → Pmm → Type 0 where
  no_processor : (low : ℕ) (pmm : Pmm) → HaveStacks bsp entry low pmm [] [] pmm
  bootstrap :
      (low : ℕ) (pmm pmm' : Pmm) (p : SmpInfo) (ps qs : List SmpInfo)
      → p.lapic_id ≡ bsp
      → HaveStacks bsp entry low pmm ps qs pmm'
      → HaveStacks bsp entry low pmm (p ∷ ps) (p ∷ qs) pmm'
  application :
      (low stack : ℕ) (pmm pmm₁ pmm' : Pmm) (p : SmpInfo) (ps qs : List SmpInfo)
      → p.lapic_id ≢ bsp
      → low ≤ stack
      → pmm_alloc pmm zone_normal 1 ≡ ok (stack, pmm₁)
      → HaveStacks bsp entry (stack + page_size) pmm₁ ps qs pmm'
      → HaveStacks bsp entry low pmm
          (p ∷ ps)
          (record p { target_stack = stack; goto_address = entry } ∷ qs)
          pmm'

-- A page that is allocated next lies at `low` or above.
abbrev IsAbove : ℕ → Pmm → Type 0
IsAbove low pmm = (a : ℕ) (pmm' : Pmm) → pmm_alloc pmm zone_normal 1 ≡ ok (a, pmm') → low ≤ a

start_processors-HaveStacks :
    (bsp entry low : ℕ) (pmm pmm' : Pmm) (ps qs : List SmpInfo)
    → IsValid pmm
    → IsAbove low pmm
    → start_processors bsp entry pmm ps ≡ ok (qs, pmm')
    → HaveStacks bsp entry low pmm ps qs pmm' × IsValid pmm'
unfolding start_processors
start_processors-HaveStacks bsp entry low pmm pmm' [] qs v above e =
    let same : [] ≡ qs = cc in
    let same_pmm : pmm ≡ pmm' = cc in
    (rw (sym same, sym same_pmm) (no_processor low pmm), rw (sym same_pmm) v)
start_processors-HaveStacks bsp entry low pmm pmm' (p ∷ ps) qs v above e =
    elim (Bool-cases (p.lapic_id == bsp)) [
      | inl here ↦
          let (rest, er, end) = >>=-eq-ok (start_processors bsp entry pmm ps) _ (rw (here) at e) in
          let (stacks, v') =
            start_processors-HaveStacks bsp entry low pmm rest.1 ps rest.0 v above er in
          let eq : p ∷ rest.0 ≡ qs = cc in
          let eq_pmm : rest.1 ≡ pmm' = cc in
          (
            rw (sym eq, sym eq_pmm)
                (bootstrap low pmm rest.1 p ps rest.0 ((==_iff p.lapic_id bsp).0 here) stacks),
            rw (sym eq_pmm) v',
          )
      | inr other ↦
          let (a, ea, more) = >>=-eq-ok (pmm_alloc pmm zone_normal 1) _ (rw (other) at e) in
          let (rest, er, end) = >>=-eq-ok (start_processors bsp entry a.1 ps) _ more in
          let v₁ = pmm_alloc-IsValid pmm zone_normal 1 v (omega arith) ea in
          let next : IsAbove (a.0 + page_size) a.1 = λ b pmm₂ eb.
            (let up = pmm_alloc_ascends pmm zone_normal 1 1 v (omega arith) (omega arith) ea eb in
              omega arith) in
          let (stacks, v') =
            start_processors-HaveStacks bsp entry (a.0 + page_size) a.1 rest.1 ps rest.0 v₁ next
              er in
          let eq : record p { target_stack = a.0; goto_address = entry } ∷ rest.0 ≡ qs = cc in
          let eq_pmm : rest.1 ≡ pmm' = cc in
          (
            rw (sym eq, sym eq_pmm)
                (application low a.0 pmm a.1 rest.1 p ps rest.0 (ground arith) (above a.0 a.1 ea) ea
                  stacks),
            rw (sym eq_pmm) v',
          )
    ]

-- Where `smp_init` returns in a valid state, `target_stack` of each processor but the bootstrap one is the
-- base of a page that `pmm_alloc` took for it, above those of the ones before it, `goto_address` is
-- where it enters the kernel, the bootstrap processor is as it was, and the page frames stay valid.
pub smp_init-HaveStacks :
    (bsp entry : ℕ) (pmm pmm' : Pmm) (ps qs : List SmpInfo)
    → IsValid pmm
    → smp_init entry pmm (some (bsp, ps)) ≡ ok (qs, pmm')
    → HaveStacks bsp entry 0 pmm ps qs pmm' × IsValid pmm'
unfolding smp_init
smp_init-HaveStacks bsp entry pmm pmm' ps qs v e =
    start_processors-HaveStacks bsp entry 0 pmm pmm' ps qs v (λ a p q. omega arith) e
