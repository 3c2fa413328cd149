-- ===== src/I2c/Nested/Blocking.antt =====
-- The functions of that copy that wait for each transfer to end.
use mlab_mcu_edu.Prelude.{ℕ, zero, suc, none, true, false, ◌==◌, if◌then◌else◌, u8, bit_and, bit_or}
use mlab_mcu_edu.Machine.{Hardware, Cmd, pure, ◌>>=◌, ◌>>◌, load, store, peek, poke, next}
use mlab_mcu_edu.I2c.{
  I2cHandle, ready, trxr, csr, i2c_sta, i2c_sto, i2c_rd, i2c_wr, i2c_ack, i2c_iack, wait_tip,
  ack_received,
}

module _ {G : Type 0} (hw : Hardware) where
  unfoldable pub i2c_send_byte : I2cHandle → ℕ → ℕ → Cmd G ℕ
  i2c_send_byte i2c byte flags = do
    store (trxr i2c.regs) byte
    store (csr i2c.regs) flags
    wait_tip hw i2c
    acked ← ack_received hw i2c
    pure (if acked then 0 else 255)

  unfoldable pub i2c_read_byte : I2cHandle → ℕ → Cmd G ℕ
  i2c_read_byte i2c flags = do
    store (csr i2c.regs) flags
    wait_tip hw i2c
    v ← load hw (trxr i2c.regs)
    pure (u8 v)

  -- The loop on the address, with `n` rounds at most.
  unfoldable pub address_loop : ℕ → I2cHandle → ℕ → Cmd G (Unit {0})
  address_loop zero i2c byte = λ _. none
  address_loop (suc n) i2c byte = do
    refused ← i2c_send_byte i2c byte (bit_or i2c_sta i2c_wr)
    elim (refused == 0) [ true ↦ pure tt | false ↦ address_loop n i2c byte ]

  -- The loops on `Size`.
  unfoldable pub tx_loop : ℕ → I2cHandle → ℕ → Cmd G (Unit {0})
  tx_loop zero i2c buf = pure tt
  tx_loop (suc n) i2c buf = do
    let flags = if suc n == 1 then bit_or i2c_wr i2c_sto else i2c_wr
    byte ← peek buf
    _ ← i2c_send_byte i2c byte flags
    tx_loop n i2c (next buf)

  unfoldable pub rx_loop : ℕ → I2cHandle → ℕ → Cmd G (Unit {0})
  rx_loop zero i2c buf = pure tt
  rx_loop (suc n) i2c buf = do
    let flags = if suc n == 1 then bit_or i2c_rd i2c_ack else i2c_rd
    byte ← i2c_read_byte i2c flags
    poke buf byte
    rx_loop n i2c (next buf)

  unfoldable pub i2c_master_tx : I2cHandle → ℕ → ℕ → ℕ → Cmd G (Unit {0})
  i2c_master_tx i2c dev_address buf size = elim i2c.state [
    | ready ↦ do
      address_loop hw.polls i2c (bit_and dev_address 0xFE)
      tx_loop size i2c buf
      store (csr i2c.regs) i2c_iack
    | _ ↦ pure tt
  ]

  unfoldable pub i2c_master_rx : I2cHandle → ℕ → ℕ → ℕ → Cmd G (Unit {0})
  i2c_master_rx i2c dev_address buf size = elim i2c.state [
    | ready ↦ do
      address_loop hw.polls i2c (bit_or dev_address 0x01)
      rx_loop size i2c buf
      store (csr i2c.regs) i2c_sto
      store (csr i2c.regs) i2c_iack
    | _ ↦ pure tt
  ]
