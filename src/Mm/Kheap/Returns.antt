-- ===== src/Mm/Kheap/Returns.antt =====
-- What a call of `kmalloc` or of `kheap_init` that returned says of the heap before and after it.
use cerberos.Base.{
  ℕ, zero, suc, ◌+◌, ◌-◌, ◌*◌, ◌%◌, ◌^◌, ◌<◌, ◌≤◌, Bool, false, ◌≡◌, ◌≢◌, ◌⊎◌, inl, inr,
  if◌then◌else◌, ◌==◌, ltb, ◌∙◌, sym, ap, arith, Bool-cases, Option-cases, Option, none, some, List,
}
use cerberos.Base.Result.{Result, ok, panic, fault, ◌>>=◌, >>=-eq-ok}
use cerberos.Mm.Kheap.Init.{first_top, kheap_init-IsHeap}
use cerberos.Sys.{add64, sub64, align_up}
use cerberos.Sys.Align.{align_up_lem}
use cerberos.Mm.Paging.{Machine}
use cerberos.Mm.Pmm.{page_size}
use cerberos.Mm.Kheap.Blocks.{IsHeap}
use cerberos.Mm.Kheap.Alloc.{IsAllocated, find_block_lem}
use cerberos.Mm.Kheap.Malloc.{kmalloc-found, pages_for-bound, pages_for-enough, kmalloc-IsAllocated}
use cerberos.Mm.Kheap.{
  Kheap, kheap_init, kmalloc, max_of_regions, va_end, kheap_expand, add_block, find_block,
  pages_for, map_pages,
}

-- The fuel of the search does not change what it finds.
find_block-more :
    (s : Kheap) (size rounds more x : ℕ) (r : Option (ℕ × Kheap))
    → rounds ≤ more
    → find_block s size rounds x ≡ ok r
    → find_block s size more x ≡ ok r
unfolding find_block
find_block-more s size zero more x r le e = cc
find_block-more s size (suc rounds) zero x r le e = absurd (omega arith)
find_block-more s size (suc rounds) (suc more) x r le e =
    let ih = find_block-more s size rounds more (s.headers x).free_next r (omega arith) in
    ground arith

fault-ok : {A : Type 0} (a : A) → fault ≡ ok a → ⊥
fault-ok a e = cc

panic-ok : {A : Type 0} (a : A) → panic ≡ ok a → ⊥
panic-ok a e = cc

module _ (calls rounds : ℕ) (s : Kheap) (m : Machine) (size : ℕ) (pos : size ≢ 0)
    (r : ℕ × Kheap × Machine) where
  kmalloc-none :
      find_block s (align_up size 8) rounds s.free_head ≡ ok none
      → kmalloc (suc calls) rounds s m size ≡ (
          if s.block_head == 0 then fault else (do
            (s', m') ← kheap_expand s m (pages_for s (align_up size 8))
            kmalloc calls rounds s' m' (align_up size 8)))
  unfolding kmalloc
  kmalloc-none e = rw (e) (ground arith)

  -- A call that returns has found a block, or has found that there is none.
  kmalloc-search :
      kmalloc (suc calls) rounds s m size ≡ ok r
      → (find_block s (align_up size 8) rounds s.free_head ≡ ok none)
        ⊎ ((ptr : ℕ) × (t : Kheap) × (find_block s (align_up size 8) rounds s.free_head
              ≡ ok (some (ptr, t))))
  unfolding kmalloc
  kmalloc-search e =
      let o : (size == 0) ≡ false = ground arith in
      let (found, ef, rest) =
        >>=-eq-ok (find_block s (align_up size 8) rounds s.free_head) _ (rw (o) at e) in
      elim (Option-cases found) [
        | inl n ↦ inl (ef ∙ ap ok n)
        | inr (p, q) ↦ inr (p.0, p.1, ef ∙ ap ok q)
      ]

  kmalloc-again :
      find_block s (align_up size 8) rounds s.free_head ≡ ok none
      → kmalloc (suc calls) rounds s m size ≡ ok r
      → (s' : Kheap) × (m' : Machine) × (kheap_expand s m (pages_for s (align_up size 8))
          ≡ ok (s', m'))
        × (kmalloc calls rounds s' m' (align_up size 8) ≡ ok r)
        × (s.block_head ≢ 0)
  kmalloc-again none_found e =
      let body = sym (kmalloc-none none_found) ∙ e in
      elim (Bool-cases (s.block_head == 0)) [
        | inl z ↦ (let no_run = rw (z) at body in absurd (fault-ok r no_run))
        | inr o ↦
            let (x, ex, again) =
              >>=-eq-ok (kheap_expand s m (pages_for s (align_up size 8))) _ (rw (o) at body) in
            (x.0, x.1, ex, again, ground arith)
      ]

kmalloc-zero :
    {r : ℕ × Kheap × Machine} (rounds : ℕ) (s : Kheap) (m : Machine) (size : ℕ)
    → kmalloc zero rounds s m size ≡ ok r
    → ⊥
unfolding kmalloc
kmalloc-zero rounds s m size e = fault-ok _ e

-- A call of `kmalloc` that returns does so with more fuel for its search too.
kmalloc-more :
    (calls rounds more : ℕ) (s : Kheap) (m : Machine) (size ptr : ℕ) (t : Kheap) (m' : Machine)
    → size ≢ 0
    → size ≤ 2 ^ 63
    → rounds ≤ more
    → kmalloc calls rounds s m size ≡ ok (ptr, t, m')
    → kmalloc calls more s m size ≡ ok (ptr, t, m')
kmalloc-more zero rounds more s m size ptr t m' pos small le e =
    absurd (kmalloc-zero rounds s m size e)
kmalloc-more (suc calls) rounds more s m size ptr t m' pos small le e =
    elim (kmalloc-search calls rounds s m size pos (ptr, t, m') e) [
      | inl ef ↦
          let (s', m₁, ex, again, o) = kmalloc-again calls rounds s m size pos (ptr, t, m') ef e in
          let ef' = find_block-more s (align_up size 8) rounds more s.free_head none le ef in
          let head : (s.block_head == 0) ≡ false = ground arith in
          let up = align_up_lem 3 size (omega arith) (omega arith) in
          let rest =
            kmalloc-more calls rounds more s' m₁ (align_up size 8) ptr t m' (omega arith)
              (omega arith) le again in
          kmalloc-none calls more s m size pos (ptr, t, m') ef' ∙ rw (head, ex) rest
      | inr (ptr', t', ef) ↦
          let ef' =
            find_block-more s (align_up size 8) rounds more s.free_head (some (ptr', t')) le ef in
          let a = kmalloc-found rounds s m size pos calls ptr' t' ef in
          let b = kmalloc-found more s m size pos calls ptr' t' ef' in b ∙ sym a ∙ e
    ]

-- An expansion that returns has mapped its pages, and leaves `kheap_max` below the heap.
kheap_expand-returned :
    (s t : Kheap) (m m' : Machine) (num_pages : ℕ)
    → num_pages ≢ 0
    → num_pages * 4096 < s.kheap_top
    → s.kheap_top < 2 ^ 64
    → kheap_expand s m num_pages ≡ ok (t, m')
    → (map_pages m (sub64 s.kheap_top page_size) num_pages ≡ ok m')
      × (num_pages * 4096 + s.kheap_max ≤ s.kheap_top)
unfolding kheap_expand
kheap_expand-returned s t m m' num_pages pos room word e =
    let o : (num_pages == 0) ≡ false = ground arith in
    let (m₁, mapped, rest) =
      >>=-eq-ok (map_pages m (sub64 s.kheap_top page_size) num_pages) _ (rw (o) at e) in
    let top : sub64 s.kheap_top (num_pages * page_size % 2 ^ 64) ≡ s.kheap_top - num_pages * 4096 =
      omega arith in
    elim (Bool-cases (ltb (sub64 s.kheap_top (num_pages * page_size % 2 ^ 64)) s.kheap_max)) [
      | inl below ↦ (let no_run = rw (below) at rest in absurd (panic-ok _ no_run))
      | inr above ↦
          let (s₂, added, end) =
            >>=-eq-ok
              (add_block
                (record s { kheap_top = sub64 s.kheap_top (num_pages * page_size % 2 ^ 64) }))
              _ (rw (above) at rest) in
          let same : m₁ ≡ m' = cc in (mapped ∙ ap ok same, ground arith)
    ]

same-IsAllocated :
    (s : Kheap) (B F : ℕ → Bool) (size : ℕ) (p q : ℕ × Kheap × Machine)
    → Result.ok p ≡ ok q
    → IsAllocated s B F size p.0 p.1
    → IsAllocated s B F size q.0 q.1
same-IsAllocated s B F size p q e a = let same : p ≡ q = cc in rw (same) at a

-- A call of `kmalloc` that returns in a well-formed heap has allocated a block, where the pages that
-- it may ask for do not reach below address 0.
pub kmalloc-returned :
    (s t : Kheap) (B F : ℕ → Bool) (n rounds size ptr : ℕ) (m m' : Machine)
    → IsHeap s B F n
    → size ≢ 0
    → size < 2 ^ 63
    → size + 2 ^ 13 < s.kheap_top
    → kmalloc 2 rounds s m size ≡ ok (ptr, t, m')
    → IsAllocated s B F (align_up size 8) ptr t
kmalloc-returned s t B F n rounds size ptr m m' h pos small room e =
    let more = n + 2 + rounds in
    let w = align_up size 8 in
    let up = align_up_lem 3 size (omega arith) (omega arith) in
    let e' = kmalloc-more 2 rounds more s m size ptr t m' pos (omega arith) (omega arith) e in
    elim (find_block_lem s B F n w h (omega arith) (omega arith) (omega arith) more (omega arith)) [
      | inr q ↦
          same-IsAllocated s B F w (q.0, q.1, m) (ptr, t, m')
            (sym (kmalloc-found more s m size pos 1 q.0 q.1 q.2) ∙ e') q.3
      | inl q ↦
          let (s', m₁, ex, again, o) = kmalloc-again 1 more s m size pos (ptr, t, m') q.0 e' in
          let top = h.tiled.head_top in
          let fit = h.tiled.fits s.block_head h.tiled.head_in in
          let mk = h.marked s.block_head h.tiled.head_in in
          let less = q.1 s.block_head in
          let enough = pages_for-enough s w (omega arith) (λ f. ground arith) in
          let bounded = pages_for-bound s w (omega arith) (λ f. ground arith) in
          let some_pages : pages_for s w ≢ 0 = ground arith in
          let (mapped, bound) =
            kheap_expand-returned s s' m m₁ (pages_for s w) some_pages (omega (arith, bounded, up))
              (omega arith) ex in
          let (ptr', t', m'', eq, al) =
            kmalloc-IsAllocated s B F n more size m m₁ h (omega arith) pos small mapped bound
              (omega (arith, bounded, up)) in
          same-IsAllocated s B F w (ptr', t', m'') (ptr, t, m') (sym eq ∙ e') al
    ]

first_top-IsHeap :
    (num_pages : ℕ) (p q : Kheap × Machine)
    → Result.ok p ≡ ok q
    → IsHeap p.0 (λ x. x == first_top num_pages) (λ x. x == first_top num_pages) 1
    → IsHeap q.0 (λ x. x == first_top num_pages) (λ x. x == first_top num_pages) 1
first_top-IsHeap num_pages p q e h = let same : p ≡ q = cc in rw (same) at h

-- A call of `kheap_init` that returns leaves a heap of one free block.
pub kheap_init-returned :
    (s t : Kheap) (m m' : Machine) (regions : List (ℕ × ℕ)) (num_pages : ℕ)
    → 0 < num_pages
    → num_pages < 2 ^ 52
    → kheap_init s m (some regions) num_pages ≡ ok (t, m')
    → IsHeap t (λ x. x == first_top num_pages) (λ x. x == first_top num_pages) 1
unfolding kheap_init
kheap_init-returned s t m m' regions num_pages pos small e =
    let top = first_top num_pages in
    let kheap_max = max_of_regions s.kheap_max regions in
    let a : add64 (sub64 va_end (page_size * num_pages % 2 ^ 64)) 1 ≡ top = omega arith in
    let o : (num_pages == 0) ≡ false = ground arith in
    let body = rw (o, a) at e in
    elim (Bool-cases (ltb top kheap_max)) [
      | inl below ↦ (let no_run = rw (below) at body in absurd (panic-ok _ no_run))
      | inr above ↦
          let (m₁, mapped, end) =
            >>=-eq-ok (map_pages m 0xffff_ffff_ffff_f000 num_pages) _ (rw (above) at body) in
          let (t', e', h, z) =
            kheap_init-IsHeap s m m₁ regions num_pages pos small (ground arith) mapped in
          first_top-IsHeap num_pages (t', m₁) (t, m') (sym e' ∙ e) h
    ]
