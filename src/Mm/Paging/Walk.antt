-- ===== src/Mm/Paging/Walk.antt =====
-- `paging_walk` against the walk of the processor (section 4.5 of the Intel manual).
use cerberos.Base.{
  ◌-◌, refl, ℕ, zero, suc, ◌+◌, ◌*◌, ◌/◌, ◌%◌, ◌^◌, ◌≡◌, ◌≢◌, ◌∙◌, arith, bit_and, Bool, true,
  false, Option, none, some, if◌then◌else◌, ◌==◌, leb, Bool-cases, Option-cases, inl, inr,
}
use cerberos.Base.Result.{ok}
use cerberos.Bits.Masks.{bit_and_low}
use cerberos.Mm.Pmm.{page_size}
use cerberos.Mm.Paging.{
  Machine, page_present, paging_check_flags, page_aligned, entry_addr, walk_loop, paging_walk,
}
use cerberos.Mm.Paging.Entry.{paging_get_paddr_lem, paging_vaddr_idx_lem}

-- The present bit, and the physical address of the next table or of the page.
abbrev pub is_present : ℕ → Bool
is_present e = e % 2 == 1

abbrev pub table_of : ℕ → ℕ
table_of e = e / 2 ^ 12 % 2 ^ 40 * 2 ^ 12

-- The page-size bit: above level 0, such an entry maps a large page and leads to no table.
abbrev pub is_large : ℕ → Bool
is_large e = e / 2 ^ 7 % 2 == 1

-- Where the entry for an address stands in a table of the given level.
abbrev pub slot : ℕ → ℕ → ℕ → ℕ
slot table vaddr level = table + 8 * (vaddr / 2 ^ (9 * level + 12) % 512)

-- The address of the level 0 entry for `vaddr`, if every entry above it is present and leads to a table.
unfoldable pub entry_for : (ℕ → ℕ) → ℕ → ℕ → ℕ → Option ℕ
entry_for entries table vaddr zero = some (slot table vaddr 0)
entry_for entries table vaddr (suc level) =
    let e = entries (slot table vaddr (suc level)) in
    let below = entry_for entries (table_of e) vaddr level in
    if is_present e then (if is_large e then none else below) else none

-- The physical address in the page of 4 KiB of an entry, and in the large page of an entry of the given
-- level; at level 3 the page-size bit is a fault.
abbrev pub frame_of : ℕ → ℕ → Option ℕ
frame_of e vaddr = if is_present e then some (table_of e + vaddr % page_size) else none

abbrev pub large_frame : ℕ → ℕ → ℕ → Option ℕ
large_frame e vaddr level =
    if level == 3
    then none
    else some (
        e / 2 ^ (9 * level + 12) % 2 ^ (40 - 9 * level) * 2 ^ (9 * level + 12)
        + vaddr % 2 ^ (9 * level + 12))

-- The physical address that the processor finds for a virtual one, from a table of the given level on.
unfoldable pub translate_at : (ℕ → ℕ) → ℕ → ℕ → ℕ → Option ℕ
translate_at entries table vaddr zero = frame_of (entries (slot table vaddr 0)) vaddr
translate_at entries table vaddr (suc level) =
    let e = entries (slot table vaddr (suc level)) in
    let below = translate_at entries (table_of e) vaddr level in
    if is_present e then (if is_large e then large_frame e vaddr (suc level) else below) else none

unfoldable pub translate : (ℕ → ℕ) → ℕ → ℕ → Option ℕ
unfolding translate_at
translate entries root vaddr = translate_at entries root vaddr 3

-- An address that has an entry of level 0 is translated by it.
pub translate_at-entry :
    (f : ℕ → ℕ) (vaddr level table : ℕ) {a : ℕ}
    → entry_for f table vaddr level ≡ some a
    → translate_at f table vaddr level ≡ frame_of (f a) vaddr
unfolding entry_for translate_at
translate_at-entry f vaddr zero table {a} e =
    let same : slot table vaddr 0 ≡ a = cc in rw (same) refl
translate_at-entry f vaddr (suc i) table e =
    let entry = f (slot table vaddr (suc i)) in
    elim (Bool-cases (is_present entry)) [
      | inl here ↦ elim (Bool-cases (is_large entry)) [
        | inl large ↦ let bad = rw (here, large) at e in cc
        | inr small ↦
            rw (here, small) (translate_at-entry f vaddr i (table_of entry) (rw (here, small) at e))
      ]
      | inr away ↦ let bad = rw away at e in cc
    ]

-- No present entry above level 0 on the way of `vaddr` maps a large page.
abbrev pub NoLarge : (ℕ → ℕ) → ℕ → ℕ → ℕ → Type 0
NoLarge entries table vaddr zero = Unit
NoLarge entries table vaddr (suc level) =
    is_present (entries (slot table vaddr (suc level))) ≡ true
    → (is_large (entries (slot table vaddr (suc level))) ≡ false)
      × NoLarge entries (table_of (entries (slot table vaddr (suc level)))) vaddr level

pub check_present : (e : ℕ) → paging_check_flags e page_present ≡ is_present e
unfolding paging_check_flags
check_present e = let low : bit_and e 1 ≡ e % 2 = bit_and_low 1 e in rw low

pub entry_addr_lem : (table vaddr level : ℕ) → entry_addr table vaddr level ≡ slot table vaddr level
entry_addr_lem table vaddr level = rw paging_vaddr_idx_lem

module _ (m : Machine) (vaddr : ℕ) where
  -- The loop finds the entry that the processor would use,
  walk_loop-some :
      (create : Bool) (level table : ℕ) {a : ℕ}
      → entry_for m.entries table vaddr level ≡ some a
      → walk_loop m table vaddr 0 create level ≡ ok (some a, m)
  unfolding walk_loop entry_for
  walk_loop-some create zero table e = rw entry_addr_lem (ground arith)
  walk_loop-some create (suc i) table {a} e =
      let entry : ℕ = m.entries (slot table vaddr (suc i)) in
      rw (entry_addr_lem, check_present, paging_get_paddr_lem)
        (elim (Bool-cases (is_present entry)) [
          | inl here ↦ elim (Bool-cases (is_large entry)) [
            | inl large ↦ let bad = rw (here, large) at e in cc
            | inr small ↦
                let low : leb 0 (suc i) ≡ true = ground arith in
                let ne : (suc i == 0) ≡ false = ground arith in
                rw (low, ne, here)
                  (walk_loop-some create i (table_of entry) (rw (here, small) at e))
          ]
          | inr away ↦ let bad = rw away at e in cc
        ])

  -- and without `create` it gives up where a table is missing.
  walk_loop-none :
      (level table : ℕ)
      → NoLarge m.entries table vaddr level
      → entry_for m.entries table vaddr level ≡ none
      → walk_loop m table vaddr 0 false level ≡ ok (none, m)
  unfolding walk_loop entry_for
  walk_loop-none zero table no_large e = cc
  walk_loop-none (suc i) table no_large e =
      let entry : ℕ = m.entries (slot table vaddr (suc i)) in
      let low : leb 0 (suc i) ≡ true = ground arith in
      let ne : (suc i == 0) ≡ false = ground arith in
      rw (entry_addr_lem, check_present, paging_get_paddr_lem, low, ne)
        (elim (Bool-cases (is_present entry)) [
          | inl here ↦
              let (small, below) = no_large here in
              rw here (walk_loop-none i (table_of entry) below (rw (here, small) at e))
          | inr away ↦ rw away
        ])

pub page_aligned_self : (v : ℕ) → v % page_size ≡ 0 → page_aligned v ≡ v
unfolding page_aligned
page_aligned_self v h = ground arith

module _ (m : Machine) (root vaddr : ℕ) (valid_root : root ≢ 0)
    (aligned : vaddr % page_size ≡ 0) where
  start : (create : Bool) → paging_walk m root vaddr 0 create ≡ walk_loop m root vaddr 0 create 3
  unfolding paging_walk
  start create =
      let ne : (root == 0) ≡ false = ground arith in rw (ne, page_aligned_self vaddr aligned)

  pub paging_walk-some :
      (create : Bool) {a : ℕ}
      → entry_for m.entries root vaddr 3 ≡ some a
      → paging_walk m root vaddr 0 create ≡ ok (some a, m)
  paging_walk-some create e = start create ∙ walk_loop-some m vaddr create 3 root e

  -- Without `create`, and where no entry on the way maps a large page, `paging_walk` returns the entry
  -- that the processor uses for the address, or null where a table is missing, and changes nothing.
  pub paging_walk_lem :
      NoLarge m.entries root vaddr 3
      → paging_walk m root vaddr 0 false ≡ ok (entry_for m.entries root vaddr 3, m)
  paging_walk_lem no_large = elim (Option-cases (entry_for m.entries root vaddr 3)) [
    | inl e ↦ rw e (start false ∙ walk_loop-none m vaddr 3 root no_large e)
    | inr (a, e) ↦ rw e (paging_walk-some false e)
  ]
