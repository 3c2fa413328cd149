-- ===== src/I2c/Calls.antt =====
-- The calls of the interrupt-driven functions of i2c_master.c, in any order, with its interrupts.
pub mod Sequences
pub mod Valid
use mlab_mcu_edu.Prelude.{ℕ, List, [], ◌∷◌}
use mlab_mcu_edu.Machine.{Hardware, Cmd, pure, ◌>>=◌}
use mlab_mcu_edu.I2c.{I2cHandle}
use mlab_mcu_edu.I2c.Interrupt.{Callback, master_transmit_it, master_receive_it, irq_handler}

-- A call of the application, or an interrupt.
pub data Call : Type 0 where
  transmit_it receive_it : (dev_address buf size : ℕ) → Call
  irq : Call

module _ {G : Type 0} (hw : Hardware) (tx_cplt rx_cplt : Callback G) where
  unfoldable pub call : Call → I2cHandle → Cmd G I2cHandle
  call (transmit_it dev_address buf size) i2c =
      master_transmit_it hw tx_cplt i2c dev_address buf size
  call (receive_it dev_address buf size) i2c = master_receive_it hw rx_cplt i2c dev_address buf size
  call irq i2c = irq_handler hw tx_cplt rx_cplt i2c

  unfoldable pub calls : List Call → I2cHandle → Cmd G I2cHandle
  calls [] i2c = pure i2c
  calls (c ∷ cs) i2c = call c i2c >>= calls cs
