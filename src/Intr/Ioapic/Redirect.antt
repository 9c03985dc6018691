-- ===== src/Intr/Ioapic/Redirect.antt =====
-- What the redirection table holds after it has been set.
use cerberos.Base.{
  ℕ, zero, suc, ◌%◌, ◌^◌, ◌<◌, ◌≤◌, ◌≡◌, ◌≢◌, ◌⊎◌, inl, inr, refl, sym, ap, ◌∙◌, arith, bit_and,
  true, false, ltb, Bool-cases,
}
use cerberos.Bits.Masks.{bit_and_low}
use cerberos.Intr.Ioapic.{
  Ioapics, RedtblEntry, is_registered, ioredtbl_reg_low, ioredtbl_reg_high, low_raw, high_raw,
  from_raw, put_register, ioapic_read, ioapic_write, ioapic_set_irq, ioapic_quickset_irq,
  find_ioapic, ioapic_set_gsi, max_ioapics,
}

read_lem :
    (s : Ioapics) (id reg : ℕ)
    → is_registered s id ≡ true
    → ioapic_read s id reg ≡ s.registers (s.ioapics id).ioregsel reg
unfolding ioapic_read
read_lem s id reg present = rw present refl

write_lem :
    (s : Ioapics) (id reg val : ℕ)
    → is_registered s id ≡ true
    → ioapic_write s id reg val ≡ put_register s (s.ioapics id).ioregsel reg val
unfolding ioapic_write
write_lem s id reg val present = rw present refl

abbrev written : Ioapics → ℕ → ℕ → RedtblEntry → Ioapics
written s sel irq entry =
    put_register (put_register s sel (ioredtbl_reg_high irq) (high_raw entry)) sel
      (ioredtbl_reg_low irq) (low_raw entry)

set_irq_lem :
    (s : Ioapics) (id irq : ℕ) (entry : RedtblEntry)
    → is_registered s id ≡ true
    → ioapic_set_irq s id irq entry ≡ written s (s.ioapics id).ioregsel irq entry
unfolding ioapic_set_irq
set_irq_lem s id irq entry present =
    let sel : ℕ = (s.ioapics id).ioregsel in
    let first = write_lem s id (ioredtbl_reg_high irq) (high_raw entry) present in
    let second =
      write_lem (put_register s sel (ioredtbl_reg_high irq) (high_raw entry)) id
        (ioredtbl_reg_low irq) (low_raw entry) present in
    rw (present, first, second) refl

-- On a registered controller, `ioapic_set_irq` puts the two words of the entry into the line's two
-- registers.
pub ioapic_set_irq_lem :
    (s : Ioapics) (id irq : ℕ) (entry : RedtblEntry)
    → is_registered s id ≡ true
    → irq < 24
    → (ioapic_read (ioapic_set_irq s id irq entry) id (ioredtbl_reg_low irq) ≡ low_raw entry)
      × (ioapic_read (ioapic_set_irq s id irq entry) id (ioredtbl_reg_high irq) ≡ high_raw entry)
ioapic_set_irq_lem s id irq entry present h =
    let sel : ℕ = (s.ioapics id).ioregsel in
    let t : Ioapics = written s sel irq entry in
    rw
      (
        set_irq_lem s id irq entry present,
        read_lem t id (ioredtbl_reg_low irq) present,
        read_lem t id (ioredtbl_reg_high irq) present,
      )
      (ground arith, ground arith)

-- The registers of the other controllers, and the other registers of this one, stay as they are
-- under `ioapic_set_irq`.
pub ioapic_set_irq_other :
    (s : Ioapics) (id irq : ℕ) (entry : RedtblEntry) (a r : ℕ)
    → is_registered s id ≡ true
    → (a ≢ (s.ioapics id).ioregsel) ⊎ ((r ≢ ioredtbl_reg_low irq) × (r ≢ ioredtbl_reg_high irq))
    → (ioapic_set_irq s id irq entry).registers a r ≡ s.registers a r
ioapic_set_irq_other s id irq entry a r present other =
    rw (set_irq_lem s id irq entry present) (ground arith)

-- On a registered controller, `ioapic_quickset_irq` redirects the line, unmasked, as a fixed
-- interrupt with the given vector, to the processor that the low four bits of `lapic_id` number, and
-- keeps the line's polarity, trigger mode and status bits, and the reserved bits.
pub ioapic_quickset_irq_lem :
    (s : Ioapics) (id irq lapic_id vector : ℕ)
    → is_registered s id ≡ true
    → irq < 24
    → vector < 2 ^ 8
    → (low high low' high' : ℕ) → ioapic_read s id (ioredtbl_reg_low irq) ≡ low
    → ioapic_read s id (ioredtbl_reg_high irq) ≡ high
    → ioapic_read (ioapic_quickset_irq s id irq lapic_id vector) id (ioredtbl_reg_low irq) ≡ low'
    → ioapic_read (ioapic_quickset_irq s id irq lapic_id vector) id (ioredtbl_reg_high irq) ≡ high'
    → ((from_raw low' high').vector ≡ vector)
      × ((from_raw low' high').delivery_mode ≡ 0)
      × ((from_raw low' high').dest_mode ≡ 0)
      × ((from_raw low' high').interrupt_mask ≡ 0)
      × ((from_raw low' high').destination ≡ lapic_id % 16)
      × ((from_raw low' high').delivery_status ≡ (from_raw low high).delivery_status)
      × ((from_raw low' high').pin_polarity ≡ (from_raw low high).pin_polarity)
      × ((from_raw low' high').remote_irr ≡ (from_raw low high).remote_irr)
      × ((from_raw low' high').trigger_mode ≡ (from_raw low high).trigger_mode)
      × ((from_raw low' high').reserved_low ≡ (from_raw low high).reserved_low)
      × ((from_raw low' high').reserved_high ≡ (from_raw low high).reserved_high)
unfolding ioapic_quickset_irq
ioapic_quickset_irq_lem s id irq lapic_id vector present h k low high low' high' el eh el' eh' =
    let old : RedtblEntry = from_raw low high in
    let entry : RedtblEntry = record old {
      destination = bit_and lapic_id 0xf;
      interrupt_mask = 0;
      dest_mode = 0;
      delivery_mode = 0;
      vector = vector;
    } in
    let same : ioapic_quickset_irq s id irq lapic_id vector ≡ ioapic_set_irq s id irq entry =
      rw (present, el, eh) refl in
    let (l, u) = ioapic_set_irq_lem s id irq entry present h in
    let cpu : bit_and lapic_id 0xf ≡ lapic_id % 16 = bit_and_low 4 lapic_id in
    let el'' : low' ≡ low_raw entry =
      sym el' ∙ ap (λ t. ioapic_read t id (ioredtbl_reg_low irq)) same ∙ l in
    let eh'' : high' ≡ high_raw entry =
      sym eh' ∙ ap (λ t. ioapic_read t id (ioredtbl_reg_high irq)) same ∙ u in
    (
      omega arith,
      omega arith,
      omega arith,
      omega arith,
      omega arith,
      omega arith,
      omega arith,
      omega arith,
      omega arith,
      omega arith,
      omega arith,
    )

find_ioapic_none :
    (s : Ioapics) (gsi n : ℕ)
    → ((i : ℕ) → (s.ioapics i).present ≡ true → gsi ≤ (s.ioapics i).gsi_base)
    → find_ioapic s gsi n ≡ 255
unfolding find_ioapic
find_ioapic_none s gsi zero h = refl
find_ioapic_none s gsi (suc n) h =
    let rest = find_ioapic_none s gsi n h in
    elim (Bool-cases ((s.ioapics n).present)) [
      | inl e ↦
          let base = h n e in
          let out : ltb (s.ioapics n).gsi_base gsi ≡ false = ground arith in rw (e, out, rest) refl
      | inr e ↦ rw (e, rest) refl
    ]

-- An override whose interrupt number is the first of a controller, and above the first of no other,
-- is dropped: `ioapic_set_gsi` changes nothing. So for one controller that begins at 0, an override
-- to 0 is lost.
pub ioapic_set_gsi_first :
    (s : Ioapics) (unset : RedtblEntry) (bsp_lapic_id irq_src gsi flags : ℕ)
    → ((i : ℕ) → (s.ioapics i).present ≡ true → gsi ≤ (s.ioapics i).gsi_base)
    → ioapic_set_gsi s unset bsp_lapic_id irq_src gsi flags ≡ s
unfolding ioapic_set_gsi
ioapic_set_gsi_first s unset bsp_lapic_id irq_src gsi flags h =
    rw (find_ioapic_none s gsi max_ioapics h) refl
