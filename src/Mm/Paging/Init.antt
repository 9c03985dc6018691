-- ===== src/Mm/Paging/Init.antt =====
-- `paging_init` of src/kernel/mm/paging.c. The tags of the boot loader are arguments, `none` where one
-- is missing; so is the mask of a region's permission to write, which its protocol defines. The
-- handler of page faults, which `paging_init` enters into the descriptors, is left out.
use cerberos.Base.{
  ℕ, ◌/◌, bit_and, bit_or, ◌≡◌, ◌⊎◌, inl, inr, refl, Option, none, some, List, [], ◌∷◌,
  if◌then◌else◌, ◌==◌,
}
use cerberos.Base.Result.{Result, ok, panic, fault, ◌>>=◌}
use cerberos.Sys.{add64, sub64}
use cerberos.Mm.Pmm.{page_size}
use cerberos.Mm.Paging.{Machine, paging_create, paging_maps_in, page_present, page_writable}

-- `struct stivale2_pmr`
pub record Pmr : Type 0 where
  pub base : ℕ
  pub length : ℕ
  pub permissions : ℕ

-- The flags of a region's pages.
pub pmr_flags : ℕ → Pmr → ℕ
pmr_flags pmr_writable entry =
    if bit_and entry.permissions pmr_writable == 0
    then page_present
    else bit_or page_present page_writable

-- The loop over the regions.
pub map_pmrs : ℕ → Machine → ℕ → ℕ → ℕ → List Pmr → Result Machine
map_pmrs pmr_writable m pml4_table pbase vbase [] = ok m
map_pmrs pmr_writable m pml4_table pbase vbase (entry ∷ rest) = do
  let pentry = add64 pbase (sub64 entry.base vbase)
  m' ←
      paging_maps_in m pml4_table entry.base pentry (entry.length / page_size)
        (pmr_flags pmr_writable entry)
  map_pmrs pmr_writable m' pml4_table pbase vbase rest

-- P2V
abbrev pub p2v : ℕ → ℕ
p2v paddr = add64 paddr 0xffff_8000_0000_0000

-- The end of the last entry of the memory map; with no entry, the code reads in front of the array.
abbrev pub mem_end : List (ℕ × ℕ) → Result ℕ
mem_end [] = fault
mem_end ((base, length) ∷ []) = ok (add64 base length)
mem_end (_ ∷ (e ∷ rest)) = mem_end (e ∷ rest)

-- Physical memory is mapped twice: to itself, and behind VA_HHDM.
pub map_memory : Machine → ℕ → ℕ → Result Machine
map_memory m pml4_table num_pages = do
  m' ← paging_maps_in m pml4_table page_size page_size num_pages (bit_or page_present page_writable)
  paging_maps_in m' pml4_table (p2v page_size) page_size num_pages
      (bit_or page_present page_writable)

-- Behind the tests for the tags.
pub map_all : ℕ → Machine → ℕ × ℕ → List Pmr → List (ℕ × ℕ) → Result Machine
map_all pmr_writable m (pbase, vbase) pmrs memmap = do
  (pml4_table, m₁) ← paging_create m
  m₂ ← map_pmrs pmr_writable m₁ pml4_table pbase vbase pmrs
  end ← mem_end memmap
  m₃ ← map_memory m₂ pml4_table (sub64 end page_size / page_size)
  ok (record m₃ { cr3 = pml4_table })

-- The physical and the virtual base of the kernel, the regions, the address of the direct map, and
-- the entries of the memory map.
pub paging_init :
    ℕ
    → Machine
    → Option (ℕ × ℕ)
    → Option (List Pmr)
    → Option ℕ
    → Option (List (ℕ × ℕ))
    → Result Machine
paging_init pmr_writable m (some kernel_base) (some pmrs) (some hhdm_addr) (some memmap) =
    map_all pmr_writable m kernel_base pmrs memmap
paging_init pmr_writable m _ _ _ _ = panic

-- Without the bases of the kernel, the regions or the direct map `paging_init` panics.
pub paging_init_missing :
    (pmr_writable : ℕ) (m : Machine) (kernel_base : Option (ℕ × ℕ)) (pmrs : Option (List Pmr))
    (hhdm_addr : Option ℕ) (memmap : Option (List (ℕ × ℕ)))
    → (kernel_base ≡ none) ⊎ ((pmrs ≡ none) ⊎ (hhdm_addr ≡ none))
    → paging_init pmr_writable m kernel_base pmrs hhdm_addr memmap ≡ panic
unfolding paging_init
paging_init_missing w m none pmrs hhdm memmap o = refl
paging_init_missing w m (some k) none hhdm memmap o = refl
paging_init_missing w m (some k) (some p) none memmap o = refl
paging_init_missing w m (some k) (some p) (some a) none o = refl
paging_init_missing w m (some k) (some p) (some a) (some mm) (inl e) = cc
paging_init_missing w m (some k) (some p) (some a) (some mm) (inr (inl e)) = cc
paging_init_missing w m (some k) (some p) (some a) (some mm) (inr (inr e)) = cc
