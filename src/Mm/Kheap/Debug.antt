-- ===== src/Mm/Kheap/Debug.antt =====
-- `parse_blocklist` and `parse_freelist` of src/kernel/mm/kheap.c, which log the two lists of the
-- heap: the lines that they log, in order.
mod Tests
use cerberos.Base.{
  ℕ, zero, suc, ◌+◌, ◌-◌, ◌^◌, ◌<◌, ◌≤◌, Bool, true, false, not, ◌&&◌, ◌||◌, ◌≡◌, ◌≢◌, ◌⊎◌, inl,
  inr, refl, if◌then◌else◌, ◌==◌, leb, arith, Bool-cases, List, [], ◌∷◌,
}
use cerberos.Base.Result.{Result, ok, panic, fault, ◌>>=◌}
use cerberos.Mm.Kheap.{Kheap, is_free}
use cerberos.Mm.Kheap.Ring.{IsRing, rank-inj, rank-last}
use cerberos.Mm.Kheap.Blocks.{IsTiled, IsHeap}

-- A line on a block: the address of its header, its size, and whether it is free. A line of
-- `parse_freelist` leaves out the last.
pub record Line : Type 0 where
  pub header_addr : ℕ
  pub size : ℕ
  pub free : Bool

abbrev pub line_of : Kheap → ℕ → Line
line_of s curr = record {
  header_addr = curr;
  size = (s.headers curr).size;
  free = is_free (s.headers curr);
}

-- The loops, with the rounds that are left, after which the loop has not ended.
pub blocklist_loop : Kheap → ℕ → ℕ → Result (List Line)
blocklist_loop s zero curr = fault
blocklist_loop s (suc rounds) curr =
    let next = (s.headers curr).next in
    let rest = blocklist_loop s rounds next in
    let more : Result (List Line) = (do lines ← rest; ok (line_of s curr ∷ lines)) in
    if curr == 0 then ok [] else if next == 0 then ok (line_of s curr ∷ []) else more

pub parse_blocklist : ℕ → Kheap → Result (List Line)
parse_blocklist rounds s = blocklist_loop s rounds s.block_head

pub freelist_loop : Kheap → ℕ → ℕ → Result (List Line)
freelist_loop s zero curr = fault
freelist_loop s (suc rounds) curr =
    let next = (s.headers curr).free_next in
    let rest = freelist_loop s rounds next in
    let more : Result (List Line) = (do lines ← rest; ok (line_of s curr ∷ lines)) in
    if curr == 0
    then ok []
    else if next == 0
    then ok (line_of s curr ∷ [])
    else if next == s.free_head
    then ok (line_of s curr ∷ [])
    else more

pub parse_freelist : ℕ → Kheap → Result (List Line)
parse_freelist rounds s = freelist_loop s rounds s.free_head

-- Whether a block has a line.
abbrev pub has_line : List Line → ℕ → Bool
has_line [] x = false
has_line (l ∷ ls) x = (x == l.header_addr) || has_line ls x

-- The blocks of the lines lie side by side from `a` to the end of the address space.
abbrev pub IsRow : ℕ → List Line → Type 0
IsRow a [] = a ≡ 2 ^ 64
IsRow a (l ∷ ls) = (l.header_addr ≡ a) × IsRow (a + 40 + l.size) ls

module _ (s : Kheap) (B F : ℕ → Bool) (n : ℕ) (h : IsHeap s B F n) where
  blocklist_loop-lines :
      (rounds curr : ℕ)
      → B curr ≡ true
      → 2 ^ 64 ≤ rounds + curr
      → (lines : List Line) × (blocklist_loop s rounds curr ≡ ok lines)
        × ((x : ℕ) → has_line lines x ≡ (leb curr x && B x))
        × IsRow curr lines
  unfolding blocklist_loop
  blocklist_loop-lines zero curr b fuel = let fit = h.tiled.fits curr b in absurd (omega arith)
  blocklist_loop-lines (suc rounds) curr b fuel =
      let t = h.tiled in
      let next = (s.headers curr).next in
      let fit = t.fits curr b in
      let top = t.top_pos in
      let above = t.above curr b in
      let apart = λ (x : ℕ) (bx : B x ≡ true). t.apart curr x b bx in
      elim (Bool-cases (next == 0)) [
        | inl ends ↦
            let last = t.last curr b in
            (
              line_of s curr ∷ [],
              ground arith,
              λ x. (let a = apart x in let fx = t.fits x in ground arith),
              (refl, ground arith),
            )
        | inr goes ↦
            let adj = t.adjacent curr b (ground arith) in
            let bn = t.next_in curr b (ground arith) in
            let (lines, e, has, row) = blocklist_loop-lines rounds next bn (ground arith) in
            (
              line_of s curr ∷ lines,
              ground arith,
              λ x. (let a = apart x in let hx = has x in ground arith),
              (refl, rw (adj) row),
            )
      ]

  -- With enough rounds `parse_blocklist` ends in a well-formed heap, with a line for each block, and
  -- for nothing else, in the order of their addresses: each block ends where the next one begins.
  pub parse_blocklist_lem :
      (rounds : ℕ)
      → 2 ^ 64 ≤ rounds + s.kheap_top
      → (lines : List Line) × (parse_blocklist rounds s ≡ ok lines)
        × ((x : ℕ) → has_line lines x ≡ B x)
        × IsRow s.kheap_top lines
  unfolding parse_blocklist
  parse_blocklist_lem rounds fuel =
      let top = h.tiled.head_top in
      let (lines, e, has, row) =
        blocklist_loop-lines rounds s.block_head h.tiled.head_in (omega arith) in
      (lines, e, λ x. (let hx = has x in let a = h.tiled.above x in ground arith), rw (top) at row)

  freelist_loop-lines :
      (rounds curr : ℕ)
      → F curr ≡ true
      → n ≤ rounds + h.ring.rank curr
      → (lines : List Line) × (freelist_loop s rounds curr ≡ ok lines)
        × ((x : ℕ) → has_line lines x ≡ (leb (h.ring.rank curr) (h.ring.rank x) && F x))
  unfolding freelist_loop
  freelist_loop-lines zero curr f fuel = let b = h.ring.rank_bound curr f in absurd (omega arith)
  freelist_loop-lines (suc rounds) curr f fuel =
      let r = h.ring in
      let next = (s.headers curr).free_next in
      let fwd = r.forward curr f in
      let nn = r.not_null in
      let inj = λ (x : ℕ) (fx : F x ≡ true). rank-inj s F n r x curr fx f in
      elim (Bool-cases (next == s.free_head)) [
        | inl ends ↦ (
          line_of s curr ∷ [],
          ground arith,
          λ x. (let l = rank-last s F n curr r f (ground arith) x in let i = inj x in ground arith),
        )
        | inr goes ↦
            let up = r.rank_next next fwd (ground arith) in
            let back = r.prev_of_next curr f in
            let le : n ≤ rounds + r.rank next = (let e = up in ground arith) in
            let (lines, e, has) = freelist_loop-lines rounds next fwd le in
            (
              line_of s curr ∷ lines,
              ground arith,
              λ x. (let i = inj x in let hx = has x in ground arith),
            )
      ]

  -- With more rounds than free blocks `parse_freelist` ends in a well-formed heap, with a line for
  -- each free block and for nothing else.
  pub parse_freelist_lem :
      (rounds : ℕ)
      → n < rounds
      → (lines : List Line) × (parse_freelist rounds s ≡ ok lines)
        × ((x : ℕ) → has_line lines x ≡ F x)
  unfolding parse_freelist freelist_loop
  parse_freelist_lem zero fuel = absurd (omega arith)
  parse_freelist_lem (suc rounds) fuel = elim (Bool-cases (s.free_head == 0)) [
    | inl null ↦ ([], ground arith, λ x. (let e = h.ring.empty x in ground arith))
    | inr o ↦
        let k = h.ring.rank_head (ground arith) in
        let (lines, e, has) =
          freelist_loop-lines (suc rounds) s.free_head (h.ring.head_in (ground arith))
            (omega arith) in
        (lines, e, λ x. (let hx = has x in ground arith))
  ]
