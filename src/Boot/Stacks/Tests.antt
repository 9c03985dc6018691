-- ===== src/Boot/Stacks/Tests.antt =====
-- Three processors, the second of which is the bootstrap one.
use cerberos.Base.{ℕ, ◌≡◌, refl, some, List, [], ◌∷◌}
use cerberos.Base.Result.{ok}
use cerberos.Ds.Bitmap.{bitmap_set, bitmap_get, bitmap_set_range, bitmap_find_range}
use cerberos.Mm.Pmm.{Pmm, pmm_alloc}
use cerberos.Mm.Pmm.Zones.{IsValid}
use cerberos.Mm.Pmm.Tests.{with_normal, with_normal-IsValid}
use cerberos.Boot.{SmpInfo, start_processors, smp_init}
use cerberos.Boot.Stacks.{HaveStacks, smp_init-HaveStacks}

abbrev processor : ℕ → SmpInfo
processor id = record { lapic_id = id; target_stack = 0; goto_address = 0 }

abbrev processors : List SmpInfo
processors = processor 3 ∷ processor 0 ∷ processor 5 ∷ []

started :
    (qs : List SmpInfo) × (pmm : Pmm) × (smp_init 0x9000 with_normal (some (0, processors))
      ≡ ok (qs, pmm))
unfolding smp_init start_processors pmm_alloc bitmap_find_range bitmap_get bitmap_set_range
    bitmap_set
started = (_, _, refl)

smp_init-HaveStacks_example :
    HaveStacks 0 0x9000 0 with_normal processors started.0 started.1 × IsValid started.1
smp_init-HaveStacks_example =
    smp_init-HaveStacks 0 0x9000 with_normal started.1 processors started.0 with_normal-IsValid
      started.2
