-- ===== src/I2c/Blocking.antt =====
-- `I2C_Init`, and the functions of i2c_master.c that wait for each transfer to end.
pub mod Transmit
pub mod Receive
pub mod Init
pub mod Footprint
pub mod Traffic
use mlab_mcu_edu.Prelude.{
  ℕ, zero, suc, ◌*◌, ◌^◌, true, false, none, ◌==◌, if◌then◌else◌, is_clear, u8, bit_and, bit_or,
}
use mlab_mcu_edu.Machine.{Hardware, Cmd, pure, ◌>>=◌, ◌>>◌, load, store, update, peek, poke, next}
use mlab_mcu_edu.I2c.{
  I2cHandle, ready, prer_lo, prer_hi, ctr, trxr, csr, i2c_en, i2c_sta, i2c_sto, i2c_rd, i2c_wr,
  i2c_ack, i2c_iack, i2c_if, prescale, wait_busy, wait_tip, ack_received,
}

module _ {G : Type 0} (hw : Hardware) where
  -- `speed` is a `uint16_t` and `cpu_freq` a `uint8_t`. A speed of 0 divides by zero, which is
  -- undefined: the result is `none`.
  unfoldable pub i2c_init : I2cHandle → ℕ → ℕ → ℕ → Cmd G I2cHandle
  i2c_init i2c base_address speed cpu_freq = if speed == 0 then (λ _. none) else do
    let scale = prescale cpu_freq speed
    let i2c₁ = record i2c { regs = base_address }
    wait_busy hw i2c₁
    store (ctr base_address) 0
    status ← load hw (csr base_address)
    if is_clear status i2c_if
        then pure tt
        else update hw (csr base_address) (λ v. bit_or v i2c_iack)
    store (prer_lo base_address) scale
    store (prer_hi base_address) (scale * 2 ^ 8)
    store (ctr base_address) i2c_en
    pure (record i2c₁ { state = ready })

  -- 0 if the slave acknowledged, else (uint8_t)-1.
  unfoldable pub send_byte : I2cHandle → ℕ → ℕ → Cmd G ℕ
  send_byte i2c byte flags = do
    store (trxr i2c.regs) byte
    store (csr i2c.regs) flags
    wait_tip hw i2c
    acked ← ack_received hw i2c
    pure (if acked then 0 else 255)

  unfoldable pub read_byte : I2cHandle → ℕ → Cmd G ℕ
  read_byte i2c flags = do
    store (csr i2c.regs) flags
    wait_tip hw i2c
    v ← load hw (trxr i2c.regs)
    pure (u8 v)

  -- `while (I2C_Master_Send_Byte(i2c, byte, I2C_STA | I2C_WR));` with `n` rounds at most.
  unfoldable pub send_address : ℕ → I2cHandle → ℕ → Cmd G (Unit {0})
  send_address zero i2c byte = λ _. none
  send_address (suc n) i2c byte = do
    r ← send_byte i2c byte (bit_or i2c_sta i2c_wr)
    elim (r == 0) [ true ↦ pure tt | false ↦ send_address n i2c byte ]

  -- The data loop of `I2C_Master_Transmit`; the number is `Size`.
  unfoldable pub send_data : ℕ → I2cHandle → ℕ → Cmd G (Unit {0})
  send_data zero i2c buf = pure tt
  send_data (suc n) i2c buf = do
    byte ← peek buf
    _ ← send_byte i2c byte (if n == 0 then bit_or i2c_wr i2c_sto else i2c_wr)
    send_data n i2c (next buf)

  -- `I2C_Master_Transmit` past its guard.
  unfoldable pub transmit : I2cHandle → ℕ → ℕ → ℕ → Cmd G (Unit {0})
  transmit i2c dev_address buf size = do
    send_address hw.polls i2c (bit_and dev_address 0xFE)
    send_data size i2c buf
    store (csr i2c.regs) i2c_iack

  unfoldable pub master_transmit : I2cHandle → ℕ → ℕ → ℕ → Cmd G (Unit {0})
  master_transmit i2c dev_address buf size = elim i2c.state [
    | ready ↦ transmit i2c dev_address buf size
    | _ ↦ pure tt
  ]

  -- The data loop of `I2C_Master_Receive`.
  unfoldable pub receive_data : ℕ → I2cHandle → ℕ → Cmd G (Unit {0})
  receive_data zero i2c buf = pure tt
  receive_data (suc n) i2c buf = do
    byte ← read_byte i2c (if n == 0 then bit_or i2c_rd i2c_ack else i2c_rd)
    poke buf byte
    receive_data n i2c (next buf)

  -- `I2C_Master_Receive` past its guard.
  unfoldable pub receive : I2cHandle → ℕ → ℕ → ℕ → Cmd G (Unit {0})
  receive i2c dev_address buf size = do
    send_address hw.polls i2c (bit_or dev_address 0x01)
    receive_data size i2c buf
    store (csr i2c.regs) i2c_sto
    store (csr i2c.regs) i2c_iack

  unfoldable pub master_receive : I2cHandle → ℕ → ℕ → ℕ → Cmd G (Unit {0})
  master_receive i2c dev_address buf size = elim i2c.state [
    | ready ↦ receive i2c dev_address buf size
    | _ ↦ pure tt
  ]
