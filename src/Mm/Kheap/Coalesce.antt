-- ===== src/Mm/Kheap/Coalesce.antt =====
-- `merge_right` and `merge_left` of the kernel heap on a free block.
use cerberos.Base.{
  ℕ, ◌+◌, Bool, true, not, ◌&&◌, ◌≡◌, inl, inr, refl, if◌then◌else◌, ◌==◌, arith, Bool-cases, ap,
}
use cerberos.Sys.{add64, sub64}
use cerberos.Mm.Kheap.{
  Kheap, Memblock, is_free, freelist_remove, merge_right, merge_left, block_start_addr,
  block_end_addr, set_size, move_header, va_end,
}
use cerberos.Mm.Kheap.Blocks.{IsHeap, not_null_block}
use cerberos.Mm.Kheap.Merge.{
  absorb, joint_size_lem, joined, joined-size, joined-IsMerged, IsMerged, SameHeap-IsHeap,
}

-- A write that changes nothing.
pub resized-IsHeap :
    (s : Kheap) (B F : ℕ → Bool) (n x v : ℕ)
    → (s.headers x).size ≡ v
    → IsHeap s B F n
    → IsHeap (set_size s x v) B F n
resized-IsHeap s B F n x v e h =
    let t = set_size s x v in
    let same : (y : ℕ) → t.headers y ≡ s.headers y = (λ y. ground arith) in
    SameHeap-IsHeap s t B F n same
      (record {
        same_next = λ y. ap (λ (b : Memblock). b.next) (same y);
        same_prev = λ y. ap (λ (b : Memblock). b.prev) (same y);
        same_size = λ y. ap (λ (b : Memblock). b.size) (same y);
        same_top = refl;
        same_max = refl;
        same_head = refl;
      })
      refl h

moved-IsHeap :
    (s : Kheap) (B F : ℕ → Bool) (n x : ℕ) → IsHeap s B F n → IsHeap (move_header s x x) B F n
moved-IsHeap s B F n x h =
    let t = move_header s x x in
    let same : (y : ℕ) → t.headers y ≡ s.headers y = (λ y. ground arith) in
    SameHeap-IsHeap s t B F n same
      (record {
        same_next = λ y. ap (λ (b : Memblock). b.next) (same y);
        same_prev = λ y. ap (λ (b : Memblock). b.prev) (same y);
        same_size = λ y. ap (λ (b : Memblock). b.size) (same y);
        same_top = refl;
        same_max = refl;
        same_head = refl;
      })
      refl h

-- Nothing is merged.
still-IsMerged :
    (s t : Kheap) (B F : ℕ → Bool) (n : ℕ)
    → ((x : ℕ) → (t.headers x).size ≡ (s.headers x).size)
    → IsHeap t B F n
    → (m : IsMerged s B F n t) × ((x : ℕ) → F x ≡ true → m.free x ≡ true)
still-IsMerged s t B F n size h = (
  record {
    blocks = B;
    free = F;
    count = n;
    heap = h;
    count_le = omega arith;
    keeps = record { kept_block = λ x b f. b; kept_used = λ x b f. f; kept_size = λ x b f. size x };
    cover = λ x. x;
    cover_free = λ x f. f;
    cover_low = λ x f. omega arith;
    cover_high = λ x f. (let e = size x in ground arith);
  },
  λ x f. f,
)

pub merge_right_lem :
    (s : Kheap) (x : ℕ)
    → merge_right s x ≡ (
        let right = (s.headers x).next in
        if x == 0
        then (0, s)
        else if not (right == 0) && is_free (s.headers right)
        then (
          x,
          freelist_remove
              (absorb s x right (add64 (sub64 (block_end_addr s right) (block_start_addr x)) 1))
              right,
        )
        else if right == 0
        then (x, set_size s x (add64 (sub64 va_end (block_start_addr x)) 1))
        else (x, set_size s x (sub64 right (block_start_addr x))))
unfolding merge_right absorb
merge_right_lem s x = refl

merge_left_lem :
    (s : Kheap) (x : ℕ)
    → merge_left s x ≡ (
        let left = (s.headers x).prev in
        let behind = add64 (block_end_addr s left) 1 in
        let first = add64 (sub64 (sub64 (block_end_addr s x) s.kheap_top) 40) 1 in
        let later = sub64 (sub64 (block_end_addr s x) (block_end_addr s left)) 40 in
        if x == 0
        then (0, s)
        else if not (is_free (s.headers x))
        then (0, s)
        else if not (left == 0) && is_free (s.headers left)
        then (
          left,
          freelist_remove
              (absorb s left x (add64 (sub64 (block_end_addr s x) (block_start_addr left)) 1))
              x,
        )
        else if left == 0
        then (if x == s.block_head
            then (s.kheap_top, move_header (set_size s x first) s.kheap_top x)
            else (0, s))
        else (behind, move_header (set_size s x later) behind x))
unfolding merge_left absorb
merge_left_lem s x = refl

module _ (s : Kheap) (B F : ℕ → Bool) (n x : ℕ) (h : IsHeap s B F n) (f : F x ≡ true) where
  -- `merge_right` on a free block.
  pub merge_right-IsMerged :
      (t : Kheap) × (merge_right s x ≡ (x, t))
      × (m : IsMerged s B F n t) × (m.free x ≡ true)
      × ((t.headers x).size ≡ (
          let right = (s.headers x).next in
          if F right then (s.headers x).size + 40 + (s.headers right).size else (s.headers x).size))
  merge_right-IsMerged =
      let b = h.free_in x f in
      let o = not_null_block s B F n x h b in
      let right = (s.headers x).next in
      let nn = h.ring.not_null in
      let mk = h.marked right in
      let ni = h.tiled.next_in x b in
      let fit = h.tiled.fits x b in
      let la = h.tiled.last x b in
      let ad = h.tiled.adjacent x b in
      elim (Bool-cases (F right)) [
        | inl fr ↦
            let e = joint_size_lem s B F n x right h b refl fr in
            (
              joined s B F n x right h b refl fr,
              rw (merge_right_lem s x, e) (ground arith),
              (joined-IsMerged s B F n x right h f refl fr).0,
              (joined-IsMerged s B F n x right h f refl fr).1,
              (let z = joined-size s B F n x right h b refl fr x in ground arith),
            )
        | inr fr ↦ elim (Bool-cases (right == 0)) [
          | inl last ↦
              let v = add64 (sub64 va_end (block_start_addr x)) 1 in
              let e : (s.headers x).size ≡ v = ground arith in
              let t = set_size s x v in
              (
                t,
                rw (merge_right_lem s x) (ground arith),
                (still-IsMerged s t B F n (λ y. ground arith) (resized-IsHeap s B F n x v e h)).0,
                (still-IsMerged s t B F n (λ y. ground arith) (resized-IsHeap s B F n x v e h)).1 x
                    f,
                ground arith,
              )
          | inr more ↦
              let v = sub64 right (block_start_addr x) in
              let e : (s.headers x).size ≡ v = ground arith in
              let t = set_size s x v in
              (
                t,
                rw (merge_right_lem s x) (ground arith),
                (still-IsMerged s t B F n (λ y. ground arith) (resized-IsHeap s B F n x v e h)).0,
                (still-IsMerged s t B F n (λ y. ground arith) (resized-IsHeap s B F n x v e h)).1 x
                    f,
                ground arith,
              )
        ]
      ]

  -- `merge_left` on a free block.
  pub merge_left-IsMerged : (y : ℕ) × (t : Kheap) × (merge_left s x ≡ (y, t)) × IsMerged s B F n t
  merge_left-IsMerged =
      let b = h.free_in x f in
      let o = not_null_block s B F n x h b in
      let left = (s.headers x).prev in
      let nn = h.ring.not_null in
      let mk = h.marked left in
      let mx = h.marked x b in
      let fit = h.tiled.fits x b in
      let ht = h.tiled.head_top in
      let pos = h.tiled.top_pos in
      let ph = h.tiled.prev_head in
      elim (Bool-cases (F left)) [
        | inl fl ↦
            let bl = h.free_in left fl in
            let hd = h.tiled.above left bl in
            let np = h.tiled.next_of_prev x b in
            let next : (s.headers left).next ≡ x = ground arith in
            let e = joint_size_lem s B F n left x h bl next f in
            (
              left,
              joined s B F n left x h bl next f,
              rw (merge_left_lem s x, e) (ground arith),
              (joined-IsMerged s B F n left x h fl next f).0,
            )
        | inr fl ↦ elim (Bool-cases (x == s.block_head)) [
          | inl first ↦
              let v = add64 (sub64 (sub64 (block_end_addr s x) x) 40) 1 in
              let e : (s.headers x).size ≡ v = ground arith in
              let t = move_header (set_size s x v) x x in
              let g : s.kheap_top ≡ x = ground arith in
              (
                x,
                t,
                rw (merge_left_lem s x, g) (ground arith),
                (still-IsMerged s t B F n (λ y. ground arith)
                    (moved-IsHeap (set_size s x v) B F n x (resized-IsHeap s B F n x v e h))).0,
              )
          | inr later ↦
              let bl = h.tiled.prev_in x b (ground arith) in
              let np = h.tiled.next_of_prev x b (ground arith) in
              let fitl = h.tiled.fits left bl in
              let ad = h.tiled.adjacent left bl in
              let ab = h.tiled.above left bl in
              let v = sub64 (sub64 (block_end_addr s x) (block_end_addr s left)) 40 in
              let e : (s.headers x).size ≡ v = ground arith in
              let t = move_header (set_size s x v) x x in
              let g : add64 (block_end_addr s left) 1 ≡ x = ground arith in
              (
                x,
                t,
                rw (merge_left_lem s x, g) (ground arith),
                (still-IsMerged s t B F n (λ y. ground arith)
                    (moved-IsHeap (set_size s x v) B F n x (resized-IsHeap s B F n x v e h))).0,
              )
        ]
      ]
