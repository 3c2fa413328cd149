-- ===== src/I2c.antt =====
-- The I2C master driver, sw/ibex/common/drivers/i2c/v0.1/i2c_master.c and i2c_master.h: the types
-- and macros here, the blocking functions in Blocking, the interrupt-driven ones in Interrupt.
pub mod Blocking
pub mod Interrupt
pub mod Frames
pub mod Nested
pub mod Calls
use mlab_mcu_edu.Prelude.{ℕ, ◌+◌, ◌-◌, ◌*◌, ◌/◌, ◌^◌, Bool, not32, u16, is_clear, bit_and, bit_or}
use mlab_mcu_edu.Machine.{Hardware, Cmd, pure, ◌>>=◌, ◌>>◌, load, store, wait_clear, update}

-- The registers of `I2C_reg_map_t`, from the address of the first.
abbrev pub prer_lo : ℕ → ℕ
prer_lo regs = regs

abbrev pub prer_hi : ℕ → ℕ
prer_hi regs = regs + 4

abbrev pub ctr : ℕ → ℕ
ctr regs = regs + 8

abbrev pub trxr : ℕ → ℕ
trxr regs = regs + 12

abbrev pub csr : ℕ → ℕ
csr regs = regs + 16

-- Bits of the control register.
abbrev pub i2c_en : ℕ
i2c_en = 2 ^ 7

abbrev pub i2c_ien : ℕ
i2c_ien = 2 ^ 6

-- Bits of a command.
abbrev pub i2c_sta : ℕ
i2c_sta = 2 ^ 7

abbrev pub i2c_sto : ℕ
i2c_sto = 2 ^ 6

abbrev pub i2c_rd : ℕ
i2c_rd = 2 ^ 5

abbrev pub i2c_wr : ℕ
i2c_wr = 2 ^ 4

abbrev pub i2c_ack : ℕ
i2c_ack = 2 ^ 3

abbrev pub i2c_iack : ℕ
i2c_iack = 2 ^ 0

-- Bits of the status.
abbrev pub i2c_rxack : ℕ
i2c_rxack = 2 ^ 7

abbrev pub i2c_busy : ℕ
i2c_busy = 2 ^ 6

abbrev pub i2c_tip : ℕ
i2c_tip = 2 ^ 1

abbrev pub i2c_if : ℕ
i2c_if = 2 ^ 0

-- `I2C_States_t`
pub data State : Type 0 where
  ready busy busy_tx_it busy_rx_it : State

-- `I2C_Interupt_Transmit_States_t`
pub data TxState : Type 0 where
  tx_it_ready tx_it_address tx_it_data tx_it_end : TxState

-- `I2C_Interupt_Receive_States_t`
pub data RxState : Type 0 where
  rx_it_ready rx_it_address rx_it_data rx_it_get_data rx_it_end : RxState

-- `I2C_Interupt_Transmit_t`
pub record InteruptTransmit : Type 0 where
  pub state : TxState
  pub address : ℕ
  pub buf : ℕ
  pub size : ℕ

-- `I2C_Interupt_Receive_t`
pub record InteruptReceive : Type 0 where
  pub state : RxState
  pub address : ℕ
  pub buf : ℕ
  pub size : ℕ

-- `I2C_HandleTypeDef`
pub record I2cHandle : Type 0 where
  pub regs : ℕ
  pub interupt_transmit : InteruptTransmit
  pub interupt_receive : InteruptReceive
  pub state : State

-- `I2C_PRESCALE(CPU_Freq, I2C_Freq)` in a `uint16_t`, for a frequency that is not 0.
unfoldable pub prescale : ℕ → ℕ → ℕ
prescale cpu_freq speed = u16 (cpu_freq * 200 / speed + 2 ^ 16 - 1)

-- `--` on a `uint16_t`.
abbrev pub pred16 : ℕ → ℕ
pred16 n = u16 (n + 2 ^ 16 - 1)

module _ {G : Type 0} (hw : Hardware) where
  -- `I2C_ACK_RECEIVED`
  abbrev pub ack_received : I2cHandle → Cmd G Bool
  ack_received i2c = do v ← load hw (csr i2c.regs); pure (is_clear v i2c_rxack)

  -- `I2C_WAIT_BUSY` and `I2C_WAIT_TIP`
  abbrev pub wait_busy : I2cHandle → Cmd G (Unit {0})
  wait_busy i2c = wait_clear hw (csr i2c.regs) i2c_busy

  abbrev pub wait_tip : I2cHandle → Cmd G (Unit {0})
  wait_tip i2c = wait_clear hw (csr i2c.regs) i2c_tip

  -- `I2C_ENABLE_INT` and `I2C_DISABLE_INT`
  abbrev pub enable_int : I2cHandle → Cmd G (Unit {0})
  enable_int i2c = update hw (ctr i2c.regs) (λ v. bit_or v i2c_ien)

  abbrev pub disable_int : I2cHandle → Cmd G (Unit {0})
  disable_int i2c = update hw (ctr i2c.regs) (λ v. bit_and v (not32 i2c_ien))
