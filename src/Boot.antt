-- ===== src/Boot.antt =====
-- `stivale2_get_tag` of src/kernel/boot/stivale2.c and `smp_init` of src/kernel/cpu/smp.c. The
-- structures of the boot protocol are declared in a library that is not part of the repository: its
-- fields are arguments, functions of an address.
pub mod Header
pub mod Stacks
pub mod Start
mod Tests
use cerberos.Base.{
  ℕ, zero, suc, ◌+◌, ◌<◌, ◌≡◌, ◌≢◌, refl, arith, Bool, true, false, Option, none, some, List, [],
  ◌∷◌, length, if◌then◌else◌, ◌==◌,
}
use cerberos.Base.Result.{Result, ok, panic, fault, ◌>>=◌}
use cerberos.Mm.Pmm.{Pmm, pmm_alloc}
use cerberos.Mm.Paging.{zone_normal}

module _ (identifier next : ℕ → ℕ) where
  -- The loop of `stivale2_get_tag`, with the rounds that are left; a loop that has not ended then is
  -- a fault.
  pub stivale2_get_tag : ℕ → ℕ → ℕ → Result ℕ
  stivale2_get_tag zero current_tag id = fault
  stivale2_get_tag (suc rounds) current_tag id =
      let rest = stivale2_get_tag rounds (next current_tag) id in
      if current_tag == 0
      then ok 0
      else if identifier current_tag == id
      then ok current_tag
      else rest

  -- The tags from an address on.
  abbrev pub IsChain : ℕ → List ℕ → Type 0
  IsChain a [] = a ≡ 0
  IsChain a (t ∷ ts) = (a ≡ t) × (t ≢ 0) × IsChain (next t) ts

  -- The first tag of an identifier, or 0.
  abbrev pub first_tag : ℕ → List ℕ → ℕ
  first_tag id [] = 0
  first_tag id (t ∷ ts) = if identifier t == id then t else first_tag id ts

  -- On a list of tags that ends in null, `stivale2_get_tag` ends, with the first tag of the
  -- identifier, or null if there is none.
  pub stivale2_get_tag_lem :
      (ts : List ℕ) (a id rounds : ℕ)
      → IsChain a ts
      → length ts < rounds
      → stivale2_get_tag rounds a id ≡ ok (first_tag id ts)
  unfolding stivale2_get_tag
  stivale2_get_tag_lem ts a id zero chain lt = absurd (omega arith)
  stivale2_get_tag_lem [] a id (suc rounds) chain lt = ground arith
  stivale2_get_tag_lem (t ∷ ts) a id (suc rounds) chain lt =
      let e = chain.0 in
      let o = chain.1 in
      let rest = stivale2_get_tag_lem ts (next t) id rounds chain.2 (omega arith) in
      rw (e) (ground arith)

-- `struct stivale2_smp_info`
pub record SmpInfo : Type 0 where
  pub lapic_id : ℕ
  pub target_stack : ℕ
  pub goto_address : ℕ

-- The loop of `smp_init` over the processors; `smp_ap_entry` is the address of that function.
pub start_processors : ℕ → ℕ → Pmm → List SmpInfo → Result (List SmpInfo × Pmm)
start_processors bsp_lapic_id smp_ap_entry pmm [] = ok ([], pmm)
start_processors bsp_lapic_id smp_ap_entry pmm (proc ∷ procs) =
    let started : Result (List SmpInfo × Pmm) = (do
      (stack, pmm') ← pmm_alloc pmm zone_normal 1
      (procs', pmm'') ← start_processors bsp_lapic_id smp_ap_entry pmm' procs
      ok (record proc { target_stack = stack; goto_address = smp_ap_entry } ∷ procs', pmm'')) in
    let kept : Result (List SmpInfo × Pmm) = (do
      (procs', pmm') ← start_processors bsp_lapic_id smp_ap_entry pmm procs
      ok (proc ∷ procs', pmm')) in
    if proc.lapic_id == bsp_lapic_id then kept else started

-- The tag that the boot loader gives, if there is one: the bootstrap processor, and the processors.
pub smp_init : ℕ → Pmm → Option (ℕ × List SmpInfo) → Result (List SmpInfo × Pmm)
smp_init smp_ap_entry pmm smp_info = elim smp_info [
  | none ↦ panic
  | some (bsp_lapic_id, procs) ↦ start_processors bsp_lapic_id smp_ap_entry pmm procs
]
