-- ===== src/Mm/Paging/Map.antt =====
-- `__paging_map` and `__paging_unmap` against the processor's translation.
use cerberos.Base.{◌⊎◌, inl, inr, ==_iff, Bool-cases}
use cerberos.Base.{
  none, Option, ℕ, zero, suc, ◌+◌, ◌*◌, ◌%◌, ◌^◌, ◌<◌, ◌≡◌, ◌≢◌, refl, sym, ◌∙◌, ap, arith, bit_and,
  true, false, none, some, if◌then◌else◌, ◌==◌, Bool-cases, inl, inr,
}
use cerberos.Base.Result.{ok, fault}
use cerberos.Bits.Laws.{test_bit-bit_or}
use cerberos.Bits.Masks.{Disjoint, bit_or-lt}
use cerberos.Mm.Pmm.{Pmm, page_size, pmm_alloc}
use cerberos.Mm.Paging.{
  paging_walk, Machine, write_entry, page_present, page_addr, zone_normal, paging_set_flags,
  paging_set_paddr, paging_create, map_entry, unmap_entry, paging_map_in, paging_unmap_in,
}
use cerberos.Mm.Paging.Entry.{
  paging_get_paddr_lem, paging_get_paddr-paging_set_paddr, paging_check_flags-paging_set_paddr,
}
use cerberos.Mm.Paging.Walk.{
  is_present, is_large, table_of, slot, entry_for, translate, translate_at, translate_at-entry,
  NoLarge, check_present, paging_walk-some, paging_walk_lem, page_aligned_self,
}

-- The entries with one of them written.
abbrev pub written : (ℕ → ℕ) → ℕ → ℕ → ℕ → ℕ
written f a v x = if a == x then v else f x

-- Writing an entry that is not present leaves the way to every entry as it was: the way leads
-- through present ones.
entry_for-written :
    (f : ℕ → ℕ) (a v vaddr level table : ℕ) {b : ℕ}
    → is_present (f a) ≡ false
    → entry_for f table vaddr level ≡ some b
    → entry_for (written f a v) table vaddr level ≡ some b
unfolding entry_for
entry_for-written f a v vaddr zero table free e = e
entry_for-written f a v vaddr (suc i) table free e =
    elim (Bool-cases (a == slot table vaddr (suc i))) [
      | inl at ↦
          let q : a ≡ slot table vaddr (suc i) = ground arith in
          let gone = rw (rw q at free) at e in cc
      | inr off ↦ elim (Bool-cases (is_present (f (slot table vaddr (suc i))))) [
        | inl here ↦ elim (Bool-cases (is_large (f (slot table vaddr (suc i))))) [
          | inl large ↦ let bad = rw (here, large) at e in cc
          | inr small ↦
              rw (off, here, small) (entry_for-written f a v vaddr i _ free (rw (here, small) at e))
        ]
        | inr away ↦ let gone = rw away at e in cc
      ]
    ]

-- A legal request: a page below 2^52 at an aligned address, with flags that include the present
-- bit and none of the address.
pub record IsRequest (vaddr paddr flags : ℕ) : Type 0 where
  pub vaddr_aligned : vaddr % page_size ≡ 0
  pub paddr_aligned : paddr % page_size ≡ 0
  pub paddr_small : paddr < 2 ^ 52
  pub flags_small : flags < 2 ^ 64
  pub flags_legal : Disjoint flags page_addr
  pub flags_present : is_present flags ≡ true

-- The entry that a request writes.
abbrev pub new_entry : ℕ → ℕ → ℕ → ℕ
new_entry old paddr flags = paging_set_paddr (paging_set_flags old flags) paddr

table_of-new_entry :
    (old vaddr paddr flags : ℕ)
    → IsRequest vaddr paddr flags
    → table_of (new_entry old paddr flags) ≡ paddr
table_of-new_entry old vaddr paddr flags r =
    sym (paging_get_paddr_lem (new_entry old paddr flags))
    ∙ paging_get_paddr-paging_set_paddr (paging_set_flags old flags) paddr r.paddr_small
        r.paddr_aligned

is_present-set_flags :
    (old flags : ℕ)
    → Disjoint flags page_addr
    → is_present flags ≡ true
    → is_present (paging_set_flags old flags) ≡ true
unfolding paging_set_flags
is_present-set_flags old flags legal p =
    let ok : (bit_and flags page_addr == 0) ≡ true = ground arith in
    rw ok (ground (arith, test_bit-bit_or old flags 0))

set_flags-lt : (old flags : ℕ) → old < 2 ^ 64 → flags < 2 ^ 64 → paging_set_flags old flags < 2 ^ 64
unfolding paging_set_flags
set_flags-lt old flags ho hf = ground (arith, bit_or-lt 64 old flags ho hf)

is_present-new_entry :
    (old vaddr paddr flags : ℕ)
    → old < 2 ^ 64
    → IsRequest vaddr paddr flags
    → is_present (new_entry old paddr flags) ≡ true
is_present-new_entry old vaddr paddr flags small r =
    sym (check_present (new_entry old paddr flags))
    ∙ paging_check_flags-paging_set_paddr (paging_set_flags old flags) paddr page_present
        (set_flags-lt old flags small r.flags_small)
    ∙ check_present (paging_set_flags old flags)
    ∙ is_present-set_flags old flags r.flags_legal r.flags_present

ok_injective : {m n : Machine} → ok m ≡ ok n → m ≡ n
ok_injective e = cc

module _ (m : Machine) (root vaddr paddr flags : ℕ) (valid_root : root ≢ 0)
    (r : IsRequest vaddr paddr flags) {a : ℕ}
    (way : entry_for m.entries root vaddr 3 ≡ some a) where
  map_step : paging_map_in m root vaddr paddr flags ≡ map_entry m (some a) paddr flags
  unfolding paging_map_in
  map_step =
      let ne : (root == 0) ≡ false = ground arith in
      rw (
        ne,
        page_aligned_self vaddr r.vaddr_aligned,
        page_aligned_self paddr r.paddr_aligned,
        paging_walk-some m root vaddr valid_root r.vaddr_aligned true way,
      )

  -- Where the page's tables exist and the page is not mapped, `__paging_map` writes its entry alone.
  paging_map_in-free :
      is_present (m.entries a) ≡ false
      → paging_map_in m root vaddr paddr flags
        ≡ ok (write_entry m a (new_entry (m.entries a) paddr flags))
  paging_map_in-free free = map_step ∙ go
    where
      go :
          map_entry m (some a) paddr flags
          ≡ ok (write_entry m a (new_entry (m.entries a) paddr flags))
      go = unfold map_entry in rw (check_present, free)

  -- An existing mapping is never replaced: the request leaves the machine as it is.
  pub paging_map_in-mapped :
      is_present (m.entries a) ≡ true → paging_map_in m root vaddr paddr flags ≡ ok m
  paging_map_in-mapped here = map_step ∙ go
    where
      go : map_entry m (some a) paddr flags ≡ ok m
      go = unfold map_entry in rw (check_present, here)

  -- Mapping a page whose tables exist and that is not mapped succeeds, the processor then translates
  -- its address to the frame asked for, and only the page's entry is written.
  pub translate-paging_map_in :
      m.entries a < 2 ^ 64
      → is_present (m.entries a) ≡ false
      → (m' : Machine) × (paging_map_in m root vaddr paddr flags ≡ ok m')
        × (translate m'.entries root vaddr ≡ some paddr)
        × ((x : ℕ) → (x ≡ a) ⊎ (m'.entries x ≡ m.entries x))
        × (m'.pmm ≡ m.pmm)
  unfolding translate
  translate-paging_map_in small free =
      let v : ℕ = new_entry (m.entries a) paddr flags in
      let m' : Machine = write_entry m a v in
      let way' : entry_for m'.entries root vaddr 3 ≡ some a =
        entry_for-written m.entries a v vaddr 3 root free way in
      let self : (a == a) ≡ true = ground arith in
      let here : is_present v ≡ true =
        is_present-new_entry (m.entries a) vaddr paddr flags small r in
      let frame : table_of v ≡ paddr = table_of-new_entry (m.entries a) vaddr paddr flags r in
      (
        m',
        paging_map_in-free free,
        translate_at-entry m'.entries vaddr 3 root way'
            ∙ rw (self, here, frame) (ap some (omega (arith, r.vaddr_aligned))),
        (λ x. elim (Bool-cases (a == x)) [
          | inl e ↦ inl (sym ((==_iff a x).0 e))
          | inr off ↦ inr (rw off)
        ]),
        refl,
      )

  -- Every other page whose entry is another one keeps its translation.
  pub translate-paging_map_in_other :
      (other : ℕ) {b : ℕ} {m' : Machine}
      → is_present (m.entries a) ≡ false
      → entry_for m.entries root other 3 ≡ some b
      → a ≢ b
      → paging_map_in m root vaddr paddr flags ≡ ok m'
      → translate m'.entries root other ≡ translate m.entries root other
  unfolding translate
  translate-paging_map_in_other other {b} {m'} free e ne run =
      let v : ℕ = new_entry (m.entries a) paddr flags in
      let same : m' ≡ write_entry m a v = ok_injective (sym run ∙ paging_map_in-free free) in
      let way' = entry_for-written m.entries a v other 3 root free e in
      let off : (a == b) ≡ false = ground arith in
      let new = translate_at-entry (written m.entries a v) other 3 root way' in
      let old = translate_at-entry m.entries other 3 root e in
      rw (same) (new ∙ (rw (off) (sym old)))

module _ (m : Machine) (root vaddr : ℕ) (valid_root : root ≢ 0)
    (aligned : vaddr % page_size ≡ 0) where
  unmap_step :
      (entry : Option ℕ)
      → paging_walk m root vaddr 0 false ≡ ok (entry, m)
      → paging_unmap_in m root vaddr ≡ unmap_entry m entry
  unfolding paging_unmap_in
  unmap_step entry e =
      let ne : (root == 0) ≡ false = ground arith in rw (ne, page_aligned_self vaddr aligned, e)

  -- `__paging_unmap` of a page for which a table is missing follows a null pointer.
  pub paging_unmap_in-missing :
      NoLarge m.entries root vaddr 3
      → entry_for m.entries root vaddr 3 ≡ none
      → paging_unmap_in m root vaddr ≡ fault
  paging_unmap_in-missing no_large e =
      let walk = paging_walk_lem m root vaddr valid_root aligned no_large in
      unmap_step none (rw (e) at walk) ∙ (unfold unmap_entry in refl)

  -- `__paging_unmap` of a page whose tables exist clears its entry alone.
  pub paging_unmap_in-found :
      {a : ℕ}
      → entry_for m.entries root vaddr 3 ≡ some a
      → paging_unmap_in m root vaddr ≡ ok (write_entry m a 0)
  paging_unmap_in-found {a} e =
      unmap_step (some a) (paging_walk-some m root vaddr valid_root aligned false e)
      ∙ (unfold unmap_entry in refl)

-- Clearing the entry of an address leaves no translation for it.
translate_at-cleared :
    (f : ℕ → ℕ) (a vaddr level table : ℕ)
    → entry_for f table vaddr level ≡ some a
    → translate_at (written f a 0) table vaddr level ≡ none
unfolding entry_for translate_at
translate_at-cleared f a vaddr zero table e =
    let same : slot table vaddr 0 ≡ a = cc in
    let self : (a == a) ≡ true = ground arith in rw (same, self) refl
translate_at-cleared f a vaddr (suc i) table e = elim (Bool-cases (a == slot table vaddr (suc i))) [
  | inl at ↦ rw (at) refl
  | inr off ↦ elim (Bool-cases (is_present (f (slot table vaddr (suc i))))) [
    | inl here ↦ elim (Bool-cases (is_large (f (slot table vaddr (suc i))))) [
      | inl large ↦ let bad = rw (here, large) at e in cc
      | inr small ↦
          rw (off, here, small) (translate_at-cleared f a vaddr i _ (rw (here, small) at e))
    ]
    | inr away ↦ let gone = rw away at e in cc
  ]
]

-- `__paging_unmap` of an aligned page whose tables exist succeeds, the processor then finds no
-- translation for its address, only the page's entry is written, and the page frames stay as they
-- are.
pub translate-paging_unmap_in :
    (m : Machine) (root vaddr : ℕ) {a : ℕ}
    → root ≢ 0
    → vaddr % page_size ≡ 0
    → entry_for m.entries root vaddr 3 ≡ some a
    → (m' : Machine) × (paging_unmap_in m root vaddr ≡ ok m')
      × (translate m'.entries root vaddr ≡ none)
      × ((x : ℕ) → (x ≡ a) ⊎ (m'.entries x ≡ m.entries x))
      × (m'.pmm ≡ m.pmm)
unfolding translate
translate-paging_unmap_in m root vaddr {a} valid_root aligned way = (
  write_entry m a 0,
  paging_unmap_in-found m root vaddr valid_root aligned way,
  translate_at-cleared m.entries a vaddr 3 root way,
  (λ x. elim (Bool-cases (a == x)) [
    | inl e ↦ inl (sym ((==_iff a x).0 e))
    | inr off ↦ inr (rw off)
  ]),
  refl,
)

-- `paging_create` takes a page, but clears only its first entry: each of the other 511 keeps what
-- the page held before, so that a new table can begin with present entries.
pub paging_create_lem :
    (m : Machine) {table : ℕ} {p : Pmm}
    → pmm_alloc m.pmm zone_normal 1 ≡ ok (table, p)
    → (m' : Machine) × (paging_create m ≡ ok (table, m'))
      × (m'.entries table ≡ 0)
      × ((i : ℕ) → m'.entries (table + 8 * (i + 1)) ≡ m.entries (table + 8 * (i + 1)))
unfolding paging_create
paging_create_lem m {table} {p} e =
    let self : (table == table) ≡ true = ground arith in
    (
      write_entry (record m { pmm = p }) table 0,
      rw e,
      rw self,
      λ i. let off : (table == table + 8 * (i + 1)) ≡ false = ground arith in rw off,
    )
