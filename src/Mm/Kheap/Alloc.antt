-- ===== src/Mm/Kheap/Alloc.antt =====
-- Finding a block of the kernel heap for `kmalloc`.
use cerberos.Base.{
  ℕ, zero, suc, ◌+◌, ◌-◌, ◌%◌, ◌^◌, ◌<◌, ◌≤◌, Bool, true, false, ◌≡◌, ◌≢◌, ◌⊎◌, inl, inr, ◌==◌, ltb,
  leb, ◌∙◌, arith, Bool-cases, Option, some, none,
}
use cerberos.Base.Result.{Result, ok}
use cerberos.Sys.{align_up}
use cerberos.Sys.Align.{align_up_lem}
use cerberos.Mm.Kheap.{Kheap, freelist_remove, find_block, block_start_addr}
use cerberos.Mm.Kheap.Ring.{insert_in, remove_from, freelist_remove-SameBlocks, rank-inj, rank-last}
use cerberos.Mm.Kheap.Blocks.{IsHeap, removed-IsHeap}
use cerberos.Mm.Kheap.Split.{
  split_heap, split_heap-IsHeap, split_heap-size, split-room, split-no_room, new-not_block,
  new_block,
}

-- The blocks in use stay where they are, with their sizes.
pub record Keeps (s t : Kheap) (B F B' F' : ℕ → Bool) : Type 0 where
  pub kept_block : (x : ℕ) → B x ≡ true → F x ≡ false → B' x ≡ true
  pub kept_used : (x : ℕ) → B x ≡ true → F x ≡ false → F' x ≡ false
  pub kept_size : (x : ℕ) → B x ≡ true → F x ≡ false → (t.headers x).size ≡ (s.headers x).size

-- From the heap `s`, a block for `size` bytes was taken, whose bytes begin at `ptr`.
pub record IsAllocated (s : Kheap) (B F : ℕ → Bool) (size ptr : ℕ) (t : Kheap) : Type 0 where
  pub blocks : ℕ → Bool
  pub free : ℕ → Bool
  pub count : ℕ
  pub heap : IsHeap t blocks free count
  pub block : ℕ
  pub begins : ptr ≡ block + 40
  pub is_block : blocks block ≡ true
  pub is_used : free block ≡ false
  pub enough : size ≤ (t.headers block).size
  pub was_free : B block ≡ true → F block ≡ true
  pub keeps : Keeps s t B F blocks free

pub align_up-same : (size : ℕ) → size % 8 ≡ 0 → size + 8 ≤ 2 ^ 64 → align_up size 8 ≡ size
align_up-same size words le = rw (align_up_lem 3 size le (omega arith)) (omega arith)

module _ (s : Kheap) (B F : ℕ → Bool) (n size x : ℕ) (h : IsHeap s B F n) (f : F x ≡ true)
    (pos : 0 < size) (words : size % 8 ≡ 0) (le : size ≤ (s.headers x).size) where
  -- The whole block is taken.
  whole-IsAllocated : IsAllocated s B F size (block_start_addr x) (freelist_remove s x)
  whole-IsAllocated =
      let b = h.free_in x f in
      let same = freelist_remove-SameBlocks s x in
      let e = same.same_size x in
      let fit = h.tiled.fits x b in
      record {
        blocks = B;
        free = remove_from F x;
        count = n - 1;
        heap = removed-IsHeap s B F n x h b f;
        block = x;
        begins = omega arith;
        is_block = b;
        is_used = ground arith;
        enough = ground arith;
        was_free = λ _. f;
        keeps = record {
          kept_block = λ y by fy. by;
          kept_used = λ y by fy. ground arith;
          kept_size = λ y by fy. same.same_size y;
        };
      }

  -- The high end of the block is taken.
  module _ (room : size + 41 ≤ (s.headers x).size) where
    abbrev split_of_x : Kheap
    split_of_x = split_heap s B F n x size h (h.free_in x f) room words

    abbrev new_of_x : ℕ
    new_of_x = new_block s B F n x size h (h.free_in x f) room words

    part-IsAllocated :
        IsAllocated s B F size (block_start_addr new_of_x) (freelist_remove split_of_x new_of_x)
    part-IsAllocated =
        let b = h.free_in x f in
        let new = new_of_x in
        let t = split_of_x in
        let B' = insert_in B new in
        let F' = insert_in F new in
        let h' = split_heap-IsHeap s B F n x size h b room words in
        let out = new-not_block s B F n x size h b room words in
        let same = freelist_remove-SameBlocks t new in
        let e = same.same_size new in
        let z = split_heap-size s B F n x size h b room words in
        let zn = z new in
        let fit = h.tiled.fits x b in
        record {
          blocks = B';
          free = remove_from F' new;
          count = n + 1 - 1;
          heap = removed-IsHeap t B' F' (n + 1) new h' (ground arith) (ground arith);
          block = new;
          begins = omega arith;
          is_block = ground arith;
          is_used = ground arith;
          enough = ground arith;
          was_free = λ bn. ground arith;
          keeps = record {
            kept_block = λ y by fy. ground arith;
            kept_used = λ y by fy. ground arith;
            kept_size = λ y by fy. (let sy = same.same_size y in let zy = z y in ground arith);
          };
        }

-- What the search comes to: nothing from `curr` on is large enough, or a block is taken.
abbrev pub IsFound :
    (s : Kheap) (B F : ℕ → Bool) (rank : ℕ → ℕ) → ℕ → ℕ → Result (Option (ℕ × Kheap)) → Type 0
IsFound s B F rank size curr result =
    ((result ≡ ok none) × ((y : ℕ) → F y ≡ true → rank curr ≤ rank y → (s.headers y).size < size))
    ⊎ ((ptr : ℕ) × (t : Kheap) × (result ≡ ok (some (ptr, t))) × IsAllocated s B F size ptr t)

module _ (s : Kheap) (B F : ℕ → Bool) (n size : ℕ) (h : IsHeap s B F n) (pos : 0 < size)
    (words : size % 8 ≡ 0) (small : size + 8 ≤ 2 ^ 64) where
  found-here :
      (rounds x : ℕ)
      → F x ≡ true
      → size ≤ (s.headers x).size
      → (ptr : ℕ) × (t : Kheap) × (find_block s size (suc rounds) x ≡ ok (some (ptr, t)))
        × IsAllocated s B F size ptr t
  unfolding find_block
  found-here rounds x f le =
      let b = h.free_in x f in
      let above = h.tiled.above x b in
      let top = h.tiled.top_pos in
      let fit = h.tiled.fits x b in
      let same = align_up-same size words small in
      elim (Bool-cases (ltb (s.headers x).size (size + 41))) [
        | inl e ↦
            let st =
              split-no_room s x size size (ground arith) same le (ground arith) (ground arith) in
            (
              block_start_addr x,
              freelist_remove s x,
              ground arith,
              whole-IsAllocated s B F n size x h f pos words le,
            )
        | inr e ↦
            let room : size + 41 ≤ (s.headers x).size = ground arith in
            let st = split-room s B F n x size h b room words size same in
            (_, _, ground arith, part-IsAllocated s B F n size x h f pos words le room)
      ]

  find_block-step :
      (rounds x : ℕ)
      → x ≢ 0
      → (s.headers x).size < size
      → (s.headers x).free_next ≢ s.free_head
      → find_block s size (suc rounds) x ≡ find_block s size rounds (s.headers x).free_next
  unfolding find_block
  find_block-step rounds x o less on = ground arith

  find_block-end :
      (rounds x : ℕ)
      → x ≢ 0
      → (s.headers x).size < size
      → (s.headers x).free_next ≡ s.free_head
      → find_block s size (suc rounds) x ≡ ok none
  unfolding find_block
  find_block-end rounds x o less on = ground arith

  pub find_block-from :
      (rounds x : ℕ)
      → F x ≡ true
      → n ≤ rounds + h.ring.rank x
      → IsFound s B F h.ring.rank size x (find_block s size rounds x)
  find_block-from zero x f fuel =
      let b = h.ring.rank_bound x f in let e : ⊥ = omega arith in elim e [ ]
  find_block-from (suc rounds) x f fuel =
      let r = h.ring in
      let next = (s.headers x).free_next in
      let fwd = r.forward x f in
      let o : x ≢ 0 = (let nn = r.not_null in ground arith) in
      elim (Bool-cases (leb size (s.headers x).size)) [
        | inl large ↦ inr (found-here rounds x f (ground arith))
        | inr less ↦ elim (Bool-cases (next == s.free_head)) [
          | inl ends ↦ inl (
            find_block-end rounds x o (ground arith) (ground arith),
            λ y fy le.
                (let l = rank-last s F n x r f (ground arith) y fy in
                  let same = rank-inj s F n r y x fy f in ground arith),
          )
          | inr goes ↦
              let step = find_block-step rounds x o (ground arith) (ground arith) in
              let up = r.rank_next next fwd (ground arith) in
              let back = r.prev_of_next x f in
              let le : n ≤ rounds + r.rank next = (let e = up in ground arith) in
              elim (find_block-from rounds next fwd le) [
                | inl q ↦ inl (
                  step ∙ q.0,
                  λ y fy le.
                      (let l = q.1 y fy in let same = rank-inj s F n r y x fy f in ground arith),
                )
                | inr q ↦ inr (q.0, q.1, step ∙ q.2, q.3)
              ]
        ]
      ]

  find_block-null :
      (rounds : ℕ) → s.free_head ≡ 0 → find_block s size (suc rounds) s.free_head ≡ ok none
  unfolding find_block
  find_block-null rounds e = ground arith

  -- The search of `kmalloc` from the head of the free list, with more rounds than free blocks, ends:
  -- with nothing only if each free block is too small, and else with a block that is large enough,
  -- was free or is new, is used now, and is apart from the others in a heap that is well-formed; the
  -- blocks that were in use keep their places and sizes.
  pub find_block_lem :
      (rounds : ℕ)
      → n < rounds
      → ((find_block s size rounds s.free_head ≡ ok none)
          × ((y : ℕ) → F y ≡ true → (s.headers y).size < size))
        ⊎ ((ptr : ℕ) × (t : Kheap) × (find_block s size rounds s.free_head ≡ ok (some (ptr, t)))
            × IsAllocated s B F size ptr t)
  find_block_lem zero more = elim more [ ]
  find_block_lem (suc rounds) more = elim (Bool-cases (s.free_head == 0)) [
    | inl null ↦
        let e : s.free_head ≡ 0 = ground arith in
        inl (find_block-null rounds e, λ y fy. (let none_y = h.ring.empty y e in ground arith))
    | inr o ↦
        let f = h.ring.head_in (ground arith) in
        let k = h.ring.rank_head (ground arith) in
        elim (find_block-from (suc rounds) s.free_head f (omega arith)) [
          | inl q ↦ inl (q.0, λ y fy. q.1 y fy (omega arith))
          | inr q ↦ inr q
        ]
  ]
