-- ===== src/Intr/Pic/Tests.antt =====
-- Line 10 with every line masked, and the start.
use cerberos.Base.{ℕ, ◌≡◌, refl, [], ◌∷◌}
use cerberos.Bits.{test_bit}
use cerberos.Intr.Pic.{pic_remap, pic_disable_all, pic_enable_irq, pic_init}

abbrev all_masked : ℕ → ℕ
all_masked port = 0xff

-- In the end only the slave's line of the master is open.
pic_init_run :
    pic_init all_masked
    ≡ (0x20, 0x11)
      ∷ (0xa0, 0x11)
      ∷ (0x21, 0x20)
      ∷ (0xa1, 0x28)
      ∷ (0x21, 0x04)
      ∷ (0xa1, 0x02)
      ∷ (0x21, 0x01)
      ∷ (0xa1, 0x01)
      ∷ (0x21, 0xff)
      ∷ (0xa1, 0xff)
      ∷ (0x21, 0xff)
      ∷ (0xa1, 0xff)
      ∷ (0x21, 0xfb)
      ∷ []
unfolding pic_init pic_remap pic_disable_all pic_enable_irq cerberos.Bits.bit_not
pic_init_run = refl
