-- ===== src/Mm/Paging/Range.antt =====
-- `__paging_maps` against the processor's translation.
use cerberos.Base.{
  ℕ, zero, suc, ◌+◌, ◌-◌, ◌*◌, ◌%◌, ◌^◌, ◌<◌, ◌≡◌, ◌≢◌, ◌⊎◌, refl, ◌∙◌, arith, true, false, some,
  ◌==◌, Bool-cases, inl, inr,
}
use cerberos.Base.Result.{ok}
use cerberos.Sys.{add64}
use cerberos.Bits.Masks.{Disjoint}
use cerberos.Mm.Pmm.{page_size}
use cerberos.Mm.Paging.{Machine, page_addr, paging_maps_in}
use cerberos.Mm.Paging.Walk.{is_present, is_large, slot, entry_for, translate_at, translate}
use cerberos.Mm.Paging.Map.{IsRequest, translate-paging_map_in}

-- The entries that are present stay as they are.
abbrev pub Extends : (ℕ → ℕ) → (ℕ → ℕ) → Type 0
Extends f g = (x : ℕ) → is_present (f x) ≡ true → g x ≡ f x

entry_for-Extends :
    (f g : ℕ → ℕ) (vaddr level table : ℕ) {b : ℕ}
    → Extends f g
    → entry_for f table vaddr level ≡ some b
    → entry_for g table vaddr level ≡ some b
unfolding entry_for
entry_for-Extends f g vaddr zero table more e = e
entry_for-Extends f g vaddr (suc i) table more e =
    let at = slot table vaddr (suc i) in
    elim (Bool-cases (is_present (f at))) [
      | inl here ↦
          let same = more at here in
          elim (Bool-cases (is_large (f at))) [
            | inl large ↦ let bad = rw (here, large) at e in cc
            | inr small ↦
                rw (same, here, small)
                  (entry_for-Extends f g vaddr i _ more (rw (here, small) at e))
          ]
      | inr away ↦ let gone = rw away at e in cc
    ]

-- A translation that there is stays.
translate_at-Extends :
    (f g : ℕ → ℕ) (vaddr frame level table : ℕ)
    → Extends f g
    → translate_at f table vaddr level ≡ some frame
    → translate_at g table vaddr level ≡ some frame
unfolding translate_at
translate_at-Extends f g vaddr frame zero table more e =
    elim (Bool-cases (is_present (f (slot table vaddr 0)))) [
      | inl here ↦ let same = more (slot table vaddr 0) here in rw (same) e
      | inr away ↦ let gone = rw away at e in cc
    ]
translate_at-Extends f g vaddr frame (suc i) table more e =
    let at = slot table vaddr (suc i) in
    elim (Bool-cases (is_present (f at))) [
      | inl here ↦
          let same = more at here in
          elim (Bool-cases (is_large (f at))) [
            | inl large ↦ rw (same, here, large) (rw (here, large) at e)
            | inr small ↦
                rw (same, here, small)
                  (translate_at-Extends f g vaddr frame i _ more (rw (here, small) at e))
          ]
      | inr away ↦ let gone = rw away at e in cc
    ]

pub translate-Extends :
    (f g : ℕ → ℕ) (root vaddr frame : ℕ)
    → Extends f g
    → translate f root vaddr ≡ some frame
    → translate g root vaddr ≡ some frame
unfolding translate
translate-Extends f g root vaddr frame more e = translate_at-Extends f g vaddr frame 3 root more e

-- A range of pages whose tables exist, and none of which is mapped: page `i` has its entry at
-- `entry i`. The frames are below 2^52, and the flags are legal.
pub record IsFreeRange (m : Machine) (root vaddr paddr num flags : ℕ) (entry : ℕ → ℕ) : Type 0 where
  pub vaddr_aligned : vaddr % page_size ≡ 0
  pub paddr_aligned : paddr % page_size ≡ 0
  pub vaddr_small : vaddr + num * page_size < 2 ^ 64
  pub paddr_small : paddr + num * page_size < 2 ^ 52
  pub flags_small : flags < 2 ^ 64
  pub flags_legal : Disjoint flags page_addr
  pub flags_present : is_present flags ≡ true
  pub way : (i : ℕ) → i < num → entry_for m.entries root (vaddr + i * page_size) 3 ≡ some (entry i)
  pub word : (i : ℕ) → i < num → m.entries (entry i) < 2 ^ 64
  pub free : (i : ℕ) → i < num → is_present (m.entries (entry i)) ≡ false
  pub apart : (i j : ℕ) → i < num → j < num → i ≢ j → entry i ≢ entry j

module _ (m : Machine) (root vaddr paddr num flags : ℕ) (entry : ℕ → ℕ)
    (r : IsFreeRange m root vaddr paddr (suc num) flags entry) (valid_root : root ≢ 0) where
  first-IsRequest : IsRequest vaddr paddr flags
  first-IsRequest = record {
    vaddr_aligned = r.vaddr_aligned;
    paddr_aligned = r.paddr_aligned;
    paddr_small = (let s = r.paddr_small in omega arith);
    flags_small = r.flags_small;
    flags_legal = r.flags_legal;
    flags_present = r.flags_present;
  }

  first_way : entry_for m.entries root vaddr 3 ≡ some (entry 0)
  first_way =
      let e : vaddr + 0 * page_size ≡ vaddr = omega arith in rw (e) at (r.way 0 (omega arith))

  -- The pages behind the first one are a range like that once the first is mapped.
  rest-IsFreeRange :
      (m' : Machine)
      → ((x : ℕ) → (x ≡ entry 0) ⊎ (m'.entries x ≡ m.entries x))
      → Extends m.entries m'.entries
      → IsFreeRange m' root (vaddr + page_size) (paddr + page_size) num flags (λ i. entry (i + 1))
  rest-IsFreeRange m' only more =
      let same : (i : ℕ) → i < num → m'.entries (entry (i + 1)) ≡ m.entries (entry (i + 1)) =
        λ i lt. (elim (only (entry (i + 1))) [
          | inl e ↦ absurd (r.apart (i + 1) 0 (omega arith) (omega arith) (omega arith) e)
          | inr e ↦ e
        ]) in
      record {
        vaddr_aligned = (let a = r.vaddr_aligned in omega arith);
        paddr_aligned = (let a = r.paddr_aligned in omega arith);
        vaddr_small = (let s = r.vaddr_small in omega arith);
        paddr_small = (let s = r.paddr_small in omega arith);
        flags_small = r.flags_small;
        flags_legal = r.flags_legal;
        flags_present = r.flags_present;
        way = λ i lt.
            (let e : vaddr + page_size + i * page_size ≡ vaddr + (i + 1) * page_size =
                omega arith in
              rw (e) (
                entry_for-Extends m.entries m'.entries (vaddr + (i + 1) * page_size) 3 root more
                  (r.way (i + 1) (omega arith))));
        word = λ i lt. (let e = same i lt in let w = r.word (i + 1) (omega arith) in rw (e) w);
        free = λ i lt. (let e = same i lt in let w = r.free (i + 1) (omega arith) in rw (e) w);
        apart = λ i j li lj o. r.apart (i + 1) (j + 1) (omega arith) (omega arith) (omega arith);
      }

paging_maps_in-Extends :
    (m : Machine) (root vaddr paddr num flags : ℕ) (entry : ℕ → ℕ)
    → root ≢ 0
    → IsFreeRange m root vaddr paddr num flags entry
    → (m' : Machine) × (paging_maps_in m root vaddr paddr num flags ≡ ok m')
      × ((i : ℕ)
          → i < num
          → translate m'.entries root (vaddr + i * page_size) ≡ some (paddr + i * page_size))
      × Extends m.entries m'.entries
      × (m'.pmm ≡ m.pmm)
unfolding paging_maps_in
paging_maps_in-Extends m root vaddr paddr zero flags entry valid_root r =
    (m, refl, λ i lt. absurd (omega arith), λ x here. refl, refl)
paging_maps_in-Extends m root vaddr paddr (suc num) flags entry valid_root r =
    let first = first-IsRequest m root vaddr paddr num flags entry r valid_root in
    let way = first_way m root vaddr paddr num flags entry r valid_root in
    let free = r.free 0 (omega arith) in
    let (m₁, e, page, only, same_pmm) =
      translate-paging_map_in m root vaddr paddr flags valid_root first way (r.word 0 (omega arith))
        free in
    let more : Extends m.entries m₁.entries = λ x here. (elim (only x) [
      | inl at ↦ (let no_one = rw (at) at here in absurd (let t = free in ground arith))
      | inr same ↦ same
    ]) in
    let (m₂, e', pages, more', same_pmm') =
      paging_maps_in-Extends m₁ root (vaddr + page_size) (paddr + page_size) num flags
        (λ i. entry (i + 1)) valid_root
        (rest-IsFreeRange m root vaddr paddr num flags entry r valid_root m₁ only more) in
    let v : add64 vaddr page_size ≡ vaddr + page_size = (let s = r.vaddr_small in omega arith) in
    let p : add64 paddr page_size ≡ paddr + page_size = (let s = r.paddr_small in omega arith) in
    (
      m₂,
      rw (e, v, p) e',
      λ i lt. elim (Bool-cases (i == 0)) [
        | inl z ↦
            let first_page = translate-Extends m₁.entries m₂.entries root vaddr paddr more' page in
            let ev : vaddr + i * page_size ≡ vaddr = ground arith in
            let ep : paddr + i * page_size ≡ paddr = ground arith in rw (ev, ep) first_page
        | inr o ↦
            let later = pages (i - 1) (ground arith) in
            let ev : vaddr + page_size + (i - 1) * page_size ≡ vaddr + i * page_size =
              ground arith in
            let ep : paddr + page_size + (i - 1) * page_size ≡ paddr + i * page_size =
              ground arith in
            rw (ev, ep) at later
      ],
      λ x here. (let a = more x here in let b = more' x (rw (a) here) in b ∙ a),
      same_pmm' ∙ same_pmm,
    )

-- `__paging_maps` of a range of aligned pages below 2 ^ 64 whose tables exist, each with an entry of its own, and none of which
-- is mapped, to frames below 2 ^ 52 with the present flag and none of the bits of an address, returns: the
-- processor then translates each page of the range to its frame, every translation that there was
-- stays, and so do the page frames.
pub translate-paging_maps_in :
    (m : Machine) (root vaddr paddr num flags : ℕ) (entry : ℕ → ℕ)
    → root ≢ 0
    → IsFreeRange m root vaddr paddr num flags entry
    → (m' : Machine) × (paging_maps_in m root vaddr paddr num flags ≡ ok m')
      × ((i : ℕ)
          → i < num
          → translate m'.entries root (vaddr + i * page_size) ≡ some (paddr + i * page_size))
      × ((other frame : ℕ)
          → translate m.entries root other ≡ some frame
          → translate m'.entries root other ≡ some frame)
      × (m'.pmm ≡ m.pmm)
translate-paging_maps_in m root vaddr paddr num flags entry valid_root r =
    let (m', e, pages, more, p) =
      paging_maps_in-Extends m root vaddr paddr num flags entry valid_root r in
    (
      m',
      e,
      pages,
      λ other frame t. translate-Extends m.entries m'.entries root other frame more t,
      p,
    )
