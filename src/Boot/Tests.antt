-- ===== src/Boot/Tests.antt =====
-- The search of the boot loader's tags, and the start of the processors, at small lists.
use cerberos.Base.{◌≢◌, ℕ, ◌≡◌, refl, arith, [], ◌∷◌, if◌then◌else◌, ◌==◌}
use cerberos.Base.Result.{ok}
use cerberos.Boot.Header.{PerTag, AreApart, tag_at, stivale_hdr, stivale_hdr_lem}
use cerberos.Boot.{stivale2_get_tag, stivale2_get_tag_lem}

-- Tags at 8, 24 and 16, with their addresses for identifiers.
abbrev next : ℕ → ℕ
next a = if a == 8 then 24 else if a == 24 then 16 else 0

stivale2_get_tag_lem_example : stivale2_get_tag (λ a. a) next 4 8 16 ≡ ok 16
stivale2_get_tag_lem_example =
    stivale2_get_tag_lem (λ a. a) next (8 ∷ 24 ∷ 16 ∷ []) 8 16 4
      (refl, omega arith, (refl, omega arith, (refl, omega arith, refl))) (omega arith)

-- The header with its tags at 0x1000 to 0x1400.
abbrev addresses : PerTag
addresses = record {
  smp = 0x1000;
  kernel_base = 0x1100;
  pmrs = 0x1200;
  hhdm = 0x1300;
  rsdp = 0x1400;
}

abbrev identifiers : PerTag
identifiers = record { smp = 11; kernel_base = 12; pmrs = 13; hhdm = 14; rsdp = 15 }

addresses-AreApart : AreApart addresses
addresses-AreApart = ground arith

identifiers-AreApart : AreApart identifiers
identifiers-AreApart = ground arith

stivale_hdr_lem_example :
    let find =
      stivale2_get_tag
        (λ a. (tag_at identifiers addresses a).identifier)
        (λ a. (tag_at identifiers addresses a).next)
        6
        (stivale_hdr addresses 0x8000).tags in
    (find 11 ≡ ok 0x1000)
    × (find 12 ≡ ok 0x1100)
    × (find 13 ≡ ok 0x1200)
    × (find 14 ≡ ok 0x1300)
    × (find 15 ≡ ok 0x1400)
    × ((id : ℕ) → id ≢ 11 → id ≢ 12 → id ≢ 13 → id ≢ 14 → id ≢ 15 → find id ≡ ok 0)
stivale_hdr_lem_example =
    stivale_hdr_lem identifiers addresses 0x8000 addresses-AreApart identifiers-AreApart
