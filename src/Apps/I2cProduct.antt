-- ===== src/Apps/I2cProduct.antt =====
-- The I2C test, sw/ibex/other_test/i2c/core/src/main.c: two bytes are read from the slave and written
-- back with their product, first waiting and then from the interrupt. The arrays are `data` at `d`
-- and `data_to_write` at `w`; `read_only_data_address` is the byte at `p`.
pub mod Product
use mlab_mcu_edu.Prelude.{ℕ, ◌+◌, ◌*◌, ◌/◌, ◌^◌, u8, u16, u32}
use mlab_mcu_edu.Machine.{Hardware, Cmd, pure, ◌>>=◌, ◌>>◌, peek, poke}
use mlab_mcu_edu.I2c.{I2cHandle}
use mlab_mcu_edu.I2c.Blocking.{i2c_init, master_transmit, master_receive}
use mlab_mcu_edu.I2c.Interrupt.{Callback, master_transmit_it, master_receive_it}

abbrev pub i2c_base_addr : ℕ
i2c_base_addr = 0x3000_0000

abbrev pub tb_i2c_addr : ℕ
tb_i2c_addr = 0x3C * 2

module _ {G : Type 0} where
  -- `data_to_write[1]` to `[4]` from `data`: the two bytes, and their product, high byte first.
  -- `& 0xFF` is written as the remainder that it is.
  unfoldable pub store_product : (w d : ℕ) → Cmd G (Unit {0})
  store_product w d = do
    x ← peek d
    poke (u32 (w + 1)) x
    y ← peek (u32 (d + 1))
    poke (u32 (w + 2)) y
    let new_number = u16 (x * y)
    poke (u32 (w + 4)) (u8 new_number)
    poke (u32 (w + 3)) (u8 (new_number / 2 ^ 8))

module _ {G : Type 0} (hw : Hardware) (w d p : ℕ) where
  -- `main`
  unfoldable pub i2c_main : Callback G → I2cHandle → Cmd G I2cHandle
  i2c_main rx_cplt i2c₀ = do
    i2c ← i2c_init hw i2c₀ i2c_base_addr 400 80
    master_transmit hw i2c tb_i2c_addr p 1
    master_receive hw i2c tb_i2c_addr d 2
    store_product w d
    master_transmit hw i2c tb_i2c_addr w 5
    a ← peek p
    poke p (u8 (a + 2))
    master_transmit hw i2c tb_i2c_addr p 1
    master_receive_it hw rx_cplt i2c tb_i2c_addr d 2

  -- `I2C_MasterTxCpltCallback` and `I2C_MasterRxCpltCallback`
  abbrev pub master_tx_cplt_callback : Callback G
  master_tx_cplt_callback = pure

  unfoldable pub master_rx_cplt_callback : Callback G
  master_rx_cplt_callback i2c = do
    a ← peek w
    poke w (u8 (a + 4))
    store_product w d
    master_transmit_it hw master_tx_cplt_callback i2c tb_i2c_addr w 5
