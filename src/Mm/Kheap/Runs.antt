-- ===== src/Mm/Kheap/Runs.antt =====
-- Runs of the kernel heap: `kheap_init`, then calls of `kmalloc`, whose sizes `Reach` bounds, and of
-- `kfree`, for what was handed out, in any order.
pub mod Tests
use cerberos.Base.{
  ℕ, zero, suc, ◌+◌, ◌-◌, ◌*◌, ◌/◌, ◌%◌, ◌^◌, ◌<◌, ◌≤◌, Bool, true, false, ◌≡◌, ◌≢◌, ◌⊎◌, inl, inr,
  refl, if◌then◌else◌, ◌==◌, ltb, ◌∙◌, sym, ap, arith, Bool-cases, Option, none, some, List,
}
use cerberos.Base.Result.{ok}
use cerberos.Sys.{sub64, align_up}
use cerberos.Sys.Align.{align_up_lem}
use cerberos.Mm.Paging.{Machine}
use cerberos.Mm.Kheap.{Kheap, kheap_init, kmalloc, kfree, pages_for, block_start_addr}
use cerberos.Mm.Kheap.Ring.{insert_in}
use cerberos.Mm.Kheap.Blocks.{IsHeap}
use cerberos.Mm.Kheap.Alloc.{IsAllocated}
use cerberos.Mm.Kheap.Merge.{IsMerged}
use cerberos.Mm.Kheap.Free.{kfree-IsMerged}
use cerberos.Mm.Kheap.Returns.{kmalloc-returned, kheap_init-returned}

-- The states of the heap and the machine that calls lead to, with what the calls have handed out
-- and not taken back: the size asked for at each address, or 0. A size is not 0, less than half of the
-- address space, and more than 8 KiB below the start of the heap.
pub data Reach : Kheap → Machine → (ℕ → ℕ) → Type 0 where
  kheap_init_run :
      (s t : Kheap) (m m' : Machine) (regions : List (ℕ × ℕ)) (num_pages : ℕ)
      → 0 < num_pages
      → num_pages < 2 ^ 52
      → kheap_init s m (some regions) num_pages ≡ ok (t, m')
      → Reach t m' (λ p. 0)
  kmalloc_run :
      (s t : Kheap) (m m' : Machine) (live : ℕ → ℕ) (rounds size ptr : ℕ)
      → Reach s m live
      → size ≢ 0
      → size < 2 ^ 63
      → size + 2 ^ 13 < s.kheap_top
      → kmalloc 2 rounds s m size ≡ ok (ptr, t, m')
      → Reach t m' (λ p. if p == ptr then size else live p)
  kfree_run :
      (s t : Kheap) (m : Machine) (live : ℕ → ℕ) (ptr : ℕ)
      → Reach s m live
      → live ptr ≢ 0
      → kfree s ptr ≡ ok t
      → Reach t m (λ p. if p == ptr then 0 else live p)

-- The heap is well-formed, and each address handed out begins the bytes of a block in use.
pub record IsServing (s : Kheap) (live : ℕ → ℕ) : Type 0 where
  pub blocks : ℕ → Bool
  pub free : ℕ → Bool
  pub count : ℕ
  pub heap : IsHeap s blocks free count
  pub behind_header : (p : ℕ) → live p ≢ 0 → 40 ≤ p
  pub is_block : (p : ℕ) → live p ≢ 0 → blocks (p - 40) ≡ true
  pub is_used : (p : ℕ) → live p ≢ 0 → free (p - 40) ≡ false
  pub enough : (p : ℕ) → live p ≢ 0 → live p ≤ (s.headers (p - 40)).size

allocated-IsServing :
    (s t : Kheap) (live : ℕ → ℕ) (size ptr : ℕ) (i : IsServing s live)
    → size ≢ 0
    → size < 2 ^ 63
    → IsAllocated s i.blocks i.free (align_up size 8) ptr t
    → IsServing t (λ p. if p == ptr then size else live p)
allocated-IsServing s t live size ptr i pos small a =
    let up = align_up_lem 3 size (omega arith) (omega arith) in
    let begins = a.begins in
    let k = a.keeps in
    let back : ptr - 40 ≡ a.block = omega arith in
    record {
      blocks = a.blocks;
      free = a.free;
      count = a.count;
      heap = a.heap;
      behind_header = λ p o. (let b = i.behind_header p in ground arith);
      is_block = λ p o.
          (let isb = a.is_block in
            let b = i.is_block p in
            let u = i.is_used p in let kb = k.kept_block (p - 40) in ground arith);
      is_used = λ p o.
          (let isu = a.is_used in
            let b = i.is_block p in
            let u = i.is_used p in let kb = k.kept_used (p - 40) in ground arith);
      enough = λ p o.
          (let en = a.enough in
            let b = i.is_block p in
            let u = i.is_used p in
            let kb = k.kept_size (p - 40) in let e = i.enough p in ground arith);
    }

freed-IsServing :
    (s : Kheap) (live : ℕ → ℕ) (ptr : ℕ) (i : IsServing s live)
    → live ptr ≢ 0
    → (t : Kheap) × (kfree s ptr ≡ ok t) × IsServing t (λ p. if p == ptr then 0 else live p)
freed-IsServing s live ptr i o =
    let b = i.is_block ptr o in
    let behind = i.behind_header ptr o in
    let fit = i.heap.tiled.fits (ptr - 40) b in
    let (t, e, m) =
      kfree-IsMerged s i.blocks i.free i.count (ptr - 40) i.heap b (i.is_used ptr o) in
    let start : block_start_addr (ptr - 40) ≡ ptr = (let e' = i.enough ptr o in omega arith) in
    let k = m.keeps in
    (
      t,
      rw (start) at e,
      record {
        blocks = m.blocks;
        free = m.free;
        count = m.count;
        heap = m.heap;
        behind_header = λ p q. (let b' = i.behind_header p in ground arith);
        is_block = λ p q.
            (let b' = i.is_block p in
              let u = i.is_used p in
              let kb = k.kept_block (p - 40) in let bh = i.behind_header p in ground arith);
        is_used = λ p q.
            (let b' = i.is_block p in
              let u = i.is_used p in
              let kb = k.kept_used (p - 40) in let bh = i.behind_header p in ground arith);
        enough = λ p q.
            (let b' = i.is_block p in
              let u = i.is_used p in
              let kb = k.kept_size (p - 40) in
              let bh = i.behind_header p in let e' = i.enough p in ground arith);
      },
    )

same-IsServing : (t u : Kheap) (live : ℕ → ℕ) → ok t ≡ ok u → IsServing t live → IsServing u live
same-IsServing t u live e i = let same : t ≡ u = cc in rw (same) at i

pub Reach-IsServing : {s : Kheap} {m : Machine} {live : ℕ → ℕ} → Reach s m live → IsServing s live
Reach-IsServing (kheap_init_run s t m m' regions num_pages pos small e) = record {
  blocks = _;
  free = _;
  count = 1;
  heap = kheap_init-returned s t m m' regions num_pages pos small e;
  behind_header = λ p o. absurd (o refl);
  is_block = λ p o. absurd (o refl);
  is_used = λ p o. absurd (o refl);
  enough = λ p o. absurd (o refl);
}
Reach-IsServing (kmalloc_run s t m m' live rounds size ptr r pos small room e) =
    let i = Reach-IsServing r in
    allocated-IsServing s t live size ptr i pos small
      (kmalloc-returned s t i.blocks i.free i.count rounds size ptr m m' i.heap pos small room e)
Reach-IsServing (kfree_run s t m live ptr r o e) =
    let (u, eu, i) = freed-IsServing s live ptr (Reach-IsServing r) o in
    same-IsServing u t (λ p. if p == ptr then 0 else live p) (sym eu ∙ e) i

-- In every state that `kheap_init` with at least one and fewer than 2 ^ 52 pages and calls in any
-- order lead to, of `kmalloc` for sizes other than 0,
-- below 2 ^ 63 and more than 8 KiB below the start of the heap, and of `kfree` for addresses handed out, the
-- bytes asked for at the addresses handed out lie inside the heap, from a multiple of 8 on, and
-- those of two addresses do not overlap.
pub Reach-apart :
    {s : Kheap} {m : Machine} {live : ℕ → ℕ} (p q : ℕ)
    → Reach s m live
    → live p ≢ 0
    → live q ≢ 0
    → (s.kheap_top < p)
      × (p + live p ≤ 2 ^ 64)
      × (p % 8 ≡ 0)
      × (p ≢ q → (p + live p ≤ q) ⊎ (q + live q ≤ p))
Reach-apart {s} {live} p q r op oq =
    let i = Reach-IsServing r in
    let t = i.heap.tiled in
    let bp = i.is_block p op in
    let bq = i.is_block q oq in
    let hp = i.behind_header p op in
    let hq = i.behind_header q oq in
    let ep = i.enough p op in
    let eq = i.enough q oq in
    let fit = t.fits (p - 40) bp in
    let al = t.aligned (p - 40) bp in
    let above = t.above (p - 40) bp in
    let low = t.apart (p - 40) (q - 40) bp bq in
    let high = t.apart (q - 40) (p - 40) bq bp in
    (omega arith, omega arith, omega arith, λ o. ground arith)

-- In every state that `kheap_init` with at least one and fewer than 2 ^ 52 pages and calls in any
-- order lead to, of `kmalloc` for sizes other than 0,
-- below 2 ^ 63 and more than 8 KiB below the start of the heap, and of `kfree` for addresses handed out,
-- `kfree` of an address handed out returns.
pub kfree-returns :
    {s : Kheap} {m : Machine} {live : ℕ → ℕ} (ptr : ℕ)
    → Reach s m live
    → live ptr ≢ 0
    → (t : Kheap) × (kfree s ptr ≡ ok t) × Reach t m (λ p. if p == ptr then 0 else live p)
kfree-returns {s} {m} {live} ptr r o =
    let (t, e, i) = freed-IsServing s live ptr (Reach-IsServing r) o in
    (t, e, kfree_run s t m live ptr r o e)

-- In a state that `kheap_init` with at least one and fewer than 2 ^ 52 pages and calls in any
-- order lead to, of `kmalloc` for sizes other than 0, below
-- 2 ^ 63 and more than 8 KiB below the start of the heap, and of `kfree` for addresses handed out, what
-- `kmalloc` returns for such a size is not handed out yet.
pub kmalloc-new :
    {s t : Kheap} {m m' : Machine} {live : ℕ → ℕ} (rounds size ptr : ℕ)
    → Reach s m live
    → size ≢ 0
    → size < 2 ^ 63
    → size + 2 ^ 13 < s.kheap_top
    → kmalloc 2 rounds s m size ≡ ok (ptr, t, m')
    → live ptr ≡ 0
kmalloc-new {s} {t} {m} {m'} {live} rounds size ptr r pos small room e =
    let i = Reach-IsServing r in
    let a =
      kmalloc-returned s t i.blocks i.free i.count rounds size ptr m m' i.heap pos small room e in
    let begins = a.begins in
    let back : ptr - 40 ≡ a.block = omega arith in
    let w = a.was_free in let b = i.is_block ptr in let u = i.is_used ptr in ground arith
