-- ===== src/Mm/Kheap/Ring.antt =====
-- The free list of the kernel heap as a ring: what inserting and removing a block do to it.
use cerberos.Base.{
  ℕ, zero, suc, ◌+◌, ◌-◌, ◌<◌, ◌≤◌, Bool, true, false, not, ◌&&◌, ◌||◌, ◌≡◌, ◌≢◌, refl,
  if◌then◌else◌, ◌==◌, ltb, arith,
}
use cerberos.Base.Result.{ok}
use cerberos.Mm.Kheap.{Kheap, is_free, freelist_insert, freelist_remove}

-- The blocks that `F` holds of are linked in one ring of `n` blocks: `rank` counts from the head.
pub record IsRing (s : Kheap) (F : ℕ → Bool) (n : ℕ) : Type 0 where
  pub not_null : F 0 ≡ false
  pub forward : (x : ℕ) → F x ≡ true → F ((s.headers x).free_next) ≡ true
  pub backward : (x : ℕ) → F x ≡ true → F ((s.headers x).free_prev) ≡ true
  pub prev_of_next : (x : ℕ) → F x ≡ true → (s.headers ((s.headers x).free_next)).free_prev ≡ x
  pub next_of_prev : (x : ℕ) → F x ≡ true → (s.headers ((s.headers x).free_prev)).free_next ≡ x
  pub head_in : s.free_head ≢ 0 → F s.free_head ≡ true
  pub empty : (x : ℕ) → s.free_head ≡ 0 → F x ≡ false
  pub rank : ℕ → ℕ
  pub rank_head : s.free_head ≢ 0 → rank s.free_head ≡ 0
  pub rank_next :
      (x : ℕ) → F x ≡ true → x ≢ s.free_head → rank x ≡ suc (rank ((s.headers x).free_prev))
  pub rank_bound : (x : ℕ) → F x ≡ true → rank x < n

abbrev pub insert_in : (ℕ → Bool) → ℕ → ℕ → Bool
insert_in F x y = (y == x) || F y

abbrev pub remove_from : (ℕ → Bool) → ℕ → ℕ → Bool
remove_from F x y = not (y == x) && F y

-- Nothing but the links of the free list differs.
pub record SameBlocks (s t : Kheap) : Type 0 where
  pub same_next : (x : ℕ) → (t.headers x).next ≡ (s.headers x).next
  pub same_prev : (x : ℕ) → (t.headers x).prev ≡ (s.headers x).prev
  pub same_size : (x : ℕ) → (t.headers x).size ≡ (s.headers x).size
  pub same_top : t.kheap_top ≡ s.kheap_top
  pub same_max : t.kheap_max ≡ s.kheap_max
  pub same_head : t.block_head ≡ s.block_head

-- What inserting a block leaves.
pub inserted : Kheap → ℕ → Kheap
inserted s x = elim (freelist_insert s x) [ ok t ↦ t | _ ↦ s ]

pub freelist_insert-ok :
    (s : Kheap) (F : ℕ → Bool) (n x : ℕ) → IsRing s F n → freelist_insert s x ≡ ok (inserted s x)
unfolding freelist_insert inserted
freelist_insert-ok s F n x r =
    let h = r.head_in in let b = r.backward s.free_head in let nn = r.not_null in ground arith

pub inserted-SameBlocks : (s : Kheap) (x : ℕ) → SameBlocks s (inserted s x)
unfolding freelist_insert inserted
inserted-SameBlocks s x = record {
  same_next = λ y. ground arith;
  same_prev = λ y. ground arith;
  same_size = λ y. ground arith;
  same_top = ground arith;
  same_max = ground arith;
  same_head = ground arith;
}

pub freelist_remove-SameBlocks : (s : Kheap) (x : ℕ) → SameBlocks s (freelist_remove s x)
unfolding freelist_remove
freelist_remove-SameBlocks s x = record {
  same_next = λ y. ground arith;
  same_prev = λ y. ground arith;
  same_size = λ y. ground arith;
  same_top = ground arith;
  same_max = ground arith;
  same_head = ground arith;
}

-- A block outside the ring becomes its head.
module _ (s : Kheap) (F : ℕ → Bool) (n x : ℕ) (r : IsRing s F n) (out : F x ≡ false)
    (some_x : x ≢ 0) where
  pub inserted-is_free :
      (y : ℕ) → is_free ((inserted s x).headers y) ≡ ((y == x) || is_free (s.headers y))
  unfolding freelist_insert inserted
  inserted-is_free y =
      let h = r.head_in in
      let b = r.backward s.free_head in
      let nn = r.not_null in
      let f = r.forward s.free_head in
      let last = (s.headers s.free_head).free_prev in
      let fl = r.forward last in let bl = r.backward last in ground arith

  pub inserted-IsRing : IsRing (inserted s x) (insert_in F x) (n + 1)
  unfolding freelist_insert inserted
  inserted-IsRing =
      let h = r.head_in in
      let b = r.backward s.free_head in
      let bb = r.next_of_prev s.free_head in
      let nn = r.not_null in
      record {
        not_null = ground arith;
        forward = λ y fy. (let f = r.forward y in let e = r.empty in ground arith);
        backward = λ y fy. (let f = r.backward y in ground arith);
        prev_of_next = λ y fy. (let f = r.forward y in let g = r.prev_of_next y in ground arith);
        next_of_prev = λ y fy. (let f = r.backward y in let g = r.next_of_prev y in ground arith);
        head_in = λ e. ground arith;
        empty = λ y e. ground arith;
        rank = λ y. if y == x then 0 else r.rank y + 1;
        rank_head = ground arith;
        rank_next = λ y fy o.
            (let f = r.rank_next y in
              let b' = r.backward y in let k = r.rank_head in let e = r.empty y in ground arith);
        rank_bound = λ y fy. (let f = r.rank_bound y in ground arith);
      }

-- The rank tells the blocks of a ring apart.
module _ (s : Kheap) (F : ℕ → Bool) (n : ℕ) (r : IsRing s F n) where
  rank-zero : (x : ℕ) → F x ≡ true → r.rank x ≡ 0 → x ≡ s.free_head
  rank-zero x fx e = let k = r.rank_next x fx in ground arith

  rank-inj_below : (k x y : ℕ) → F x ≡ true → F y ≡ true → r.rank x ≡ k → r.rank y ≡ k → x ≡ y
  rank-inj_below zero x y fx fy e e' = let a = rank-zero x fx e in let b = rank-zero y fy e' in cc
  rank-inj_below (suc k) x y fx fy e e' =
      let h = r.rank_head in
      let none_x = r.empty x in
      let kx = r.rank_next x fx in
      let ky = r.rank_next y fy in
      let same =
        rank-inj_below k (s.headers x).free_prev (s.headers y).free_prev (r.backward x fx)
          (r.backward y fy) in
      let nx = r.next_of_prev x fx in let ny = r.next_of_prev y fy in ground arith

  pub rank-inj : (x y : ℕ) → F x ≡ true → F y ≡ true → r.rank x ≡ r.rank y → x ≡ y
  rank-inj x y fx fy e = rank-inj_below (r.rank y) x y fx fy e refl

  alone_below :
      (k x : ℕ)
      → (s.headers s.free_head).free_next ≡ s.free_head
      → F x ≡ true
      → r.rank x ≡ k
      → x ≡ s.free_head
  alone_below zero x e fx h = rank-zero x fx h
  alone_below (suc k) x e fx h =
      let kx = r.rank_next x fx in
      let before = alone_below k (s.headers x).free_prev e (r.backward x fx) in
      let nx = r.next_of_prev x fx in ground arith

  -- A block that is its own successor is the only one.
  pub ring-alone :
      (x : ℕ) → (s.headers s.free_head).free_next ≡ s.free_head → F x ≡ true → x ≡ s.free_head
  ring-alone x e fx = alone_below (r.rank x) x e fx refl

-- The block before the head has the highest rank.
module _ (s : Kheap) (F : ℕ → Bool) (n x : ℕ) (r : IsRing s F n) (isin : F x ≡ true)
    (closes : (s.headers x).free_next ≡ s.free_head) where
  nothing_above : (k y : ℕ) → F y ≡ true → r.rank y ≢ suc (k + r.rank x)
  nothing_above zero y fy e =
      let ky = r.rank_next y fy in
      let h = r.rank_head in
      let empty = r.empty y in
      let same = rank-inj s F n r (s.headers y).free_prev x (r.backward y fy) isin in
      let ny = r.next_of_prev y fy in ground arith
  nothing_above (suc k) y fy e =
      let ky = r.rank_next y fy in
      let h = r.rank_head in
      let empty = r.empty y in
      let before = nothing_above k (s.headers y).free_prev (r.backward y fy) in ground arith

  pub rank-last : (y : ℕ) → F y ≡ true → r.rank y ≤ r.rank x
  rank-last y fy = let o = nothing_above (r.rank y - suc (r.rank x)) y fy in ground arith

-- A block of the ring leaves it.
module _ (s : Kheap) (F : ℕ → Bool) (n x : ℕ) (r : IsRing s F n) (isin : F x ≡ true) where
  pub removed-is_free :
      (y : ℕ) → is_free ((freelist_remove s x).headers y) ≡ (not (y == x) && is_free (s.headers y))
  unfolding freelist_remove
  removed-is_free y =
      let e = r.empty x in
      let nn = r.not_null in
      let next_x = (s.headers x).free_next in
      let prev_x = (s.headers x).free_prev in
      let f = r.forward x isin in
      let b = r.backward x isin in
      let p = r.prev_of_next x isin in
      let q = r.next_of_prev x isin in
      let ff = r.forward next_x f in
      let fb = r.backward prev_x b in let k = r.rank_next x isin in ground arith

  pub removed-IsRing : IsRing (freelist_remove s x) (remove_from F x) (n - 1)
  unfolding freelist_remove
  removed-IsRing =
      let e = r.empty x in
      let nn = r.not_null in
      let f = r.forward x isin in
      let b = r.backward x isin in
      let p = r.prev_of_next x isin in
      let q = r.next_of_prev x isin in
      let k = r.rank_next x isin in
      let k0 = r.rank_head in
      let kb = r.rank_bound x isin in
      record {
        not_null = ground arith;
        forward = λ y fy.
            (let f' = r.forward y in
              let q' = r.prev_of_next y in let u = r.prev_of_next x in ground arith);
        backward = λ y fy. (let f' = r.backward y in let q' = r.next_of_prev y in ground arith);
        prev_of_next = λ y fy.
            (let f' = r.forward y in
              let q' = r.prev_of_next y in let u = r.prev_of_next x in ground arith);
        next_of_prev = λ y fy. (let f' = r.backward y in let q' = r.next_of_prev y in ground arith);
        head_in = λ h. (let hi = r.head_in in ground arith);
        empty = λ y h. (let al = ring-alone s F n r y in ground arith);
        rank = λ y. if ltb (r.rank x) (r.rank y) then r.rank y - 1 else r.rank y;
        rank_head = λ h. (let hi = r.rank_next (s.headers x).free_next f in ground arith);
        rank_next = λ y fy o.
            (let ky = r.rank_next y in
              let by = r.backward y in
              let ny = r.next_of_prev y in
              let inj = rank-inj s F n r (s.headers y).free_prev x in ground arith);
        rank_bound =
            λ y fy. (let by = r.rank_bound y in let inj = rank-inj s F n r y x in ground arith);
      }

-- A ring only depends on the links of the free list.
pub IsRing-same :
    (s t : Kheap) (F : ℕ → Bool) (n : ℕ)
    → ((x : ℕ) → (t.headers x).free_next ≡ (s.headers x).free_next)
    → ((x : ℕ) → (t.headers x).free_prev ≡ (s.headers x).free_prev)
    → t.free_head ≡ s.free_head
    → IsRing s F n
    → IsRing t F n
IsRing-same s t F n nexts prevs head r = record {
  not_null = r.not_null;
  forward = λ x fx. (let f = r.forward x fx in let e = nexts x in cc);
  backward = λ x fx. (let f = r.backward x fx in let e = prevs x in cc);
  prev_of_next = λ x fx.
      (let f = r.prev_of_next x fx in
        let e = nexts x in let e' = prevs (s.headers x).free_next in cc);
  next_of_prev = λ x fx.
      (let f = r.next_of_prev x fx in
        let e = prevs x in let e' = nexts (s.headers x).free_prev in cc);
  head_in = λ h. (let f = r.head_in in ground arith);
  empty = λ x h. (let f = r.empty x in ground arith);
  rank = r.rank;
  rank_head = λ h. (let f = r.rank_head in ground arith);
  rank_next = λ x fx o. (let f = r.rank_next x fx in let e = prevs x in ground arith);
  rank_bound = r.rank_bound;
}
