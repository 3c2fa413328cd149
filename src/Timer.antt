-- ===== src/Timer.antt =====
-- The timer driver, sw/ibex/common/drivers/v0.5/src/timer.c with v0.5/inc/timer.h. The control
-- register is write-only, so the driver keeps its value in the static `timer_ctrl_reg_shadow`,
-- which each function here takes and returns.
pub mod Shadow
use mlab_mcu_edu.Prelude.{ℕ, ◌+◌, ◌*◌, ◌^◌, not32, u8, u16, bit_and, bit_or}
use mlab_mcu_edu.Machine.{Cmd, pure, ◌>>=◌, ◌>>◌, store}

abbrev pub timer_base_addr : ℕ
timer_base_addr = 0x2000_0000

-- The registers of `timer_reg_map_t`, from the address of the first.
abbrev pub timer_ctrl : ℕ → ℕ
timer_ctrl t = t

abbrev pub timer_mod : ℕ → ℕ
timer_mod t = t + 4

abbrev pub timer_ctrl_cnt_en : ℕ
timer_ctrl_cnt_en = 2 ^ 0

abbrev pub timer_ctrl_ena_int : ℕ
timer_ctrl_ena_int = 2 ^ 1

abbrev pub timer_ctrl_flag : ℕ
timer_ctrl_flag = 2 ^ 2

abbrev pub timer_ctrl_pre_scalr_msk : ℕ
timer_ctrl_pre_scalr_msk = 0xF * 2 ^ 8

abbrev pub timer_ctrl_pre_scalr : ℕ → ℕ
timer_ctrl_pre_scalr value = bit_and value 0xF * 2 ^ 8

-- `timer_set` on the shadow, before the registers are written.
unfoldable pub set_shadow : ℕ → ℕ → ℕ
set_shadow shadow pre_scl =
    bit_or (bit_and shadow (not32 timer_ctrl_pre_scalr_msk)) (timer_ctrl_pre_scalr pre_scl)

module _ {G : Type 0} where
  -- The pointer to the registers, and the new shadow.
  unfoldable pub timer_init : Cmd G (ℕ × ℕ)
  timer_init = do
    store (timer_ctrl timer_base_addr) 0
    store (timer_mod timer_base_addr) 0
    pure (timer_base_addr, 0)

  unfoldable pub timer_ack_intrq : ℕ → Cmd G (Unit {0})
  timer_ack_intrq t = store (timer_ctrl t) timer_ctrl_flag

  unfoldable pub timer_clear_ctrl : ℕ → Cmd G ℕ
  timer_clear_ctrl t = do store (timer_ctrl t) 0; pure 0

  -- `mod` is a `uint16_t` and `pre_scl` a `uint8_t`.
  unfoldable pub timer_set : ℕ → ℕ → ℕ → ℕ → Cmd G ℕ
  timer_set t shadow mod_value pre_scl = do
    let shadow' = set_shadow shadow (u8 pre_scl)
    store (timer_mod t) (u16 mod_value)
    store (timer_ctrl t) shadow'
    pure shadow'

  unfoldable pub timer_en : ℕ → ℕ → Cmd G ℕ
  timer_en t shadow = do
    let shadow' = bit_or shadow (bit_or timer_ctrl_cnt_en timer_ctrl_ena_int)
    store (timer_ctrl t) shadow'
    pure shadow'
