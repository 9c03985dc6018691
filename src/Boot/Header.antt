-- ===== src/Boot/Header.antt =====
-- The header that src/kernel/boot/stivale2.c hands to the boot loader. The addresses of its static
-- objects are the linker's, and the identifiers are those of the boot protocol: both are arguments.
use cerberos.Base.{
  ℕ, ◌+◌, ◌*◌, ◌%◌, ◌^◌, bit_or, ◌≡◌, ◌≢◌, refl, ◌∙◌, arith, [], ◌∷◌, if◌then◌else◌, ◌==◌,
}
use cerberos.Base.Result.{ok}
use cerberos.Boot.{IsChain, stivale2_get_tag, stivale2_get_tag_lem}

-- One number for each tag of the header: an address, or an identifier.
pub record PerTag : Type 0 where
  pub smp : ℕ
  pub kernel_base : ℕ
  pub pmrs : ℕ
  pub hhdm : ℕ
  pub rsdp : ℕ

-- `tag.identifier` and `tag.next`; the other fields of a tag are 0.
pub record HeaderTag : Type 0 where
  pub identifier : ℕ
  pub next : ℕ

-- `struct stivale2_header`
pub record Header : Type 0 where
  pub entry_point : ℕ
  pub stack : ℕ
  pub flags : ℕ
  pub tags : ℕ

pub smp_hdr_tag : PerTag → HeaderTag
smp_hdr_tag ids = record { identifier = ids.smp; next = 0 }

pub kernel_base_addr_struct_tag : PerTag → PerTag → HeaderTag
kernel_base_addr_struct_tag ids at = record { identifier = ids.kernel_base; next = at.smp }

pub pmr_struct_tag : PerTag → PerTag → HeaderTag
pmr_struct_tag ids at = record { identifier = ids.pmrs; next = at.kernel_base }

pub hhdm_struct_tag : PerTag → PerTag → HeaderTag
hhdm_struct_tag ids at = record { identifier = ids.hhdm; next = at.pmrs }

pub rsdp_struct_tag : PerTag → PerTag → HeaderTag
rsdp_struct_tag ids at = record { identifier = ids.rsdp; next = at.hhdm }

-- `stack` is the address of the static stack of 16 KiB.
pub stivale_hdr : PerTag → ℕ → Header
stivale_hdr at stack = record {
  entry_point = 0;
  stack = (stack + 16 * 2 ^ 10) % 2 ^ 64;
  flags = bit_or (bit_or (bit_or (2 ^ 1) (2 ^ 2)) (2 ^ 3)) (2 ^ 4);
  tags = at.rsdp;
}

-- The tags in memory.
pub tag_at : PerTag → PerTag → ℕ → HeaderTag
unfolding smp_hdr_tag kernel_base_addr_struct_tag pmr_struct_tag hhdm_struct_tag rsdp_struct_tag
tag_at ids at a =
    if a == at.smp
    then smp_hdr_tag ids
    else if a == at.kernel_base
    then kernel_base_addr_struct_tag ids at
    else if a == at.pmrs
    then pmr_struct_tag ids at
    else if a == at.hhdm
    then hhdm_struct_tag ids at
    else rsdp_struct_tag ids at

-- No two of the numbers are the same, and none is 0.
abbrev pub AreApart : PerTag → Type 0
AreApart x =
    (x.smp ≢ 0)
    × (x.kernel_base ≢ 0)
    × (x.pmrs ≢ 0)
    × (x.hhdm ≢ 0)
    × (x.rsdp ≢ 0)
    × (x.smp ≢ x.kernel_base)
    × (x.smp ≢ x.pmrs)
    × (x.smp ≢ x.hhdm)
    × (x.smp ≢ x.rsdp)
    × (x.kernel_base ≢ x.pmrs)
    × (x.kernel_base ≢ x.hhdm)
    × (x.kernel_base ≢ x.rsdp)
    × (x.pmrs ≢ x.hhdm)
    × (x.pmrs ≢ x.rsdp)
    × (x.hhdm ≢ x.rsdp)

abbrev identifier_at : PerTag → PerTag → ℕ → ℕ
identifier_at ids at a = (tag_at ids at a).identifier

abbrev next_at : PerTag → PerTag → ℕ → ℕ
next_at ids at a = (tag_at ids at a).next

-- From the header the tags form a chain of the five that ends in null.
header-IsChain :
    (ids at : PerTag) (stack : ℕ)
    → AreApart at
    → IsChain
        (identifier_at ids at)
        (next_at ids at)
        (stivale_hdr at stack).tags
        (at.rsdp ∷ at.hhdm ∷ at.pmrs ∷ at.kernel_base ∷ at.smp ∷ [])
unfolding tag_at stivale_hdr smp_hdr_tag kernel_base_addr_struct_tag pmr_struct_tag hhdm_struct_tag
    rsdp_struct_tag
header-IsChain ids at stack apart = (
  refl,
  ground arith,
  (
    ground arith,
    ground arith,
    (
      ground arith,
      ground arith,
      (ground arith, ground arith, (ground arith, ground arith, ground arith)),
    ),
  ),
)

-- The tags of the header are a chain that ends in null after the five of them: a search from the
-- header finds the tag of each of the five identifiers, where these differ from each other and from 0,
-- and so do the addresses, and null for any other identifier.
pub stivale_hdr_lem :
    (ids at : PerTag) (stack : ℕ)
    → AreApart at
    → AreApart ids
    → let find =
        stivale2_get_tag (identifier_at ids at) (next_at ids at) 6 (stivale_hdr at stack).tags in
      (find ids.smp ≡ ok at.smp)
      × (find ids.kernel_base ≡ ok at.kernel_base)
      × (find ids.pmrs ≡ ok at.pmrs)
      × (find ids.hhdm ≡ ok at.hhdm)
      × (find ids.rsdp ≡ ok at.rsdp)
      × ((id : ℕ)
          → id ≢ ids.smp
          → id ≢ ids.kernel_base
          → id ≢ ids.pmrs
          → id ≢ ids.hhdm
          → id ≢ ids.rsdp
          → find id ≡ ok 0)
unfolding tag_at stivale_hdr smp_hdr_tag kernel_base_addr_struct_tag pmr_struct_tag hhdm_struct_tag
    rsdp_struct_tag
stivale_hdr_lem ids at stack apart apart_ids =
    let tags = at.rsdp ∷ at.hhdm ∷ at.pmrs ∷ at.kernel_base ∷ at.smp ∷ [] in
    let find = λ (id : ℕ).
      stivale2_get_tag_lem (identifier_at ids at) (next_at ids at) tags (stivale_hdr at stack).tags
        id 6 (header-IsChain ids at stack apart) (omega arith) in
    (
      find ids.smp ∙ ground arith,
      find ids.kernel_base ∙ ground arith,
      find ids.pmrs ∙ ground arith,
      find ids.hhdm ∙ ground arith,
      find ids.rsdp ∙ ground arith,
      λ id o1 o2 o3 o4 o5. find id ∙ ground arith,
    )
