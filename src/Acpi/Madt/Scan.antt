-- ===== src/Acpi/Madt/Scan.antt =====
-- The entries that the two loops of `parse_madt` visit.
use cerberos.Base.{
  ℕ, zero, suc, ◌+◌, ◌-◌, ◌%◌, ◌^◌, ◌<◌, ◌≤◌, ◌≡◌, refl, arith, true, false, List, [], ◌∷◌, length,
  ltb,
}
use cerberos.Base.Result.{bind-ext, Result, ok, ◌>>=◌}
use cerberos.Acpi.Madt.{
  Madt, MadtInfo, entry_loop, count_entry, store_entry, reset_madt_info, parse_madt, madt_offset,
}

-- From offset `i` on, the entries of the table follow each other up to its end: their offsets. The
-- table is short enough for the index, a `uint8_t`.
pub data Entries (madt : Madt) : ℕ → List ℕ → Type 0 where
  at_end : (i : ℕ) → madt.total ≤ madt_offset + i → Entries madt i []
  entry :
      (i : ℕ) (es : List ℕ)
      → madt_offset + i < madt.total
      → 0 < madt.bytes (i + 1)
      → i + madt.bytes (i + 1) < 2 ^ 8
      → Entries madt (i + madt.bytes (i + 1)) es
      → Entries madt i (i ∷ es)

-- A body for each entry, in order.
abbrev pub visit : (ℕ → ℕ → MadtInfo → Result MadtInfo) → Madt → List ℕ → MadtInfo → Result MadtInfo
visit body madt [] info = ok info
visit body madt (i ∷ es) info = do info' ← body (madt.bytes i) i info; visit body madt es info'

entry_loop_lem :
    (body : ℕ → ℕ → MadtInfo → Result MadtInfo) (madt : Madt) (rounds i : ℕ) (es : List ℕ)
    (info : MadtInfo)
    → madt_offset ≤ madt.total
    → madt.total < 2 ^ 32
    → Entries madt i es
    → length es < rounds
    → entry_loop body madt rounds i info ≡ visit body madt es info
unfolding entry_loop
entry_loop_lem body madt zero i es info big small e h = absurd (omega arith)
entry_loop_lem body madt (suc rounds) i _ info big small (at_end _ stop) h =
    let out : ltb i ((madt.total + 2 ^ 32 - madt_offset) % 2 ^ 32) ≡ false = ground arith in
    rw (entry_loop, out) refl
entry_loop_lem body madt (suc rounds) i _ info big small (entry _ es more some_bytes fits rest) h =
    let go : ltb i ((madt.total + 2 ^ 32 - madt_offset) % 2 ^ 32) ≡ true = ground arith in
    let step : (i + madt.bytes (i + 1)) % 2 ^ 8 ≡ i + madt.bytes (i + 1) = omega arith in
    rw (entry_loop, go, step)
      (bind-ext (body (madt.bytes i) i info)
        (λ info'. entry_loop body madt rounds (i + madt.bytes (i + 1)) info')
        (λ info'. visit body madt es info')
        (λ info'.
          entry_loop_lem body madt rounds (i + madt.bytes (i + 1)) es info' big small rest
            (omega arith)))

-- On a table whose entries follow each other up to its end, in fewer than 256 bytes, so that the index
-- does not wrap around, `parse_madt` ends: it visits each entry once, in order, first to count and then to store.
pub parse_madt_lem :
    (rounds : ℕ) (madt : Madt) (es : List ℕ)
    → madt_offset ≤ madt.total
    → madt.total < 2 ^ 32
    → Entries madt 0 es
    → length es < rounds
    → parse_madt rounds madt ≡ (do
      counted ← visit count_entry madt es (record reset_madt_info { lapic_paddr = madt.lapic_addr })
      visit (store_entry madt) madt es counted)
unfolding parse_madt
parse_madt_lem rounds madt es big small e h =
    let start : MadtInfo = record reset_madt_info { lapic_paddr = madt.lapic_addr } in
    rw (entry_loop_lem count_entry madt rounds 0 es start big small e h) (
      bind-ext (visit count_entry madt es start)
        (λ info. entry_loop (store_entry madt) madt rounds 0 info)
        (λ info. visit (store_entry madt) madt es info)
        (λ info. entry_loop_lem (store_entry madt) madt rounds 0 es info big small e h))
