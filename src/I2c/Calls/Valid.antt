-- ===== src/I2c/Calls/Valid.antt =====
-- What holds of the handle after any calls and interrupts, whatever the hardware answers.
use mlab_mcu_edu.Prelude.{ℕ, ◌^◌, ◌<◌, ◌≡◌, refl, List, [], ◌∷◌}
use mlab_mcu_edu.Machine.{Hardware, Machine}
use mlab_mcu_edu.I2c.{I2cHandle, State, ready, busy, busy_tx_it, busy_rx_it}
use mlab_mcu_edu.I2c.Interrupt.{
  Callback, send_byte_it, tx_ready, tx_end, tx_data, transmit_it_sequence, rx_ready, rx_end,
  rx_data, rx_get_data, receive_it_sequence, master_transmit_it, master_receive_it, irq_handler,
}
use mlab_mcu_edu.I2c.Calls.{Call, transmit_it, receive_it, irq, call, calls}
use mlab_mcu_edu.I2c.Calls.Sequences.{
  IsValid, CallOk, CallsOk, ReturnsValid, KeepsValid, ReturnsValid->>=, tx_valid, rx_valid,
}

module _ {G : Type 0} where
  module _ (hw : Hardware) (tx_cplt rx_cplt : Callback G) (tx_keeps : KeepsValid tx_cplt)
      (rx_keeps : KeepsValid rx_cplt) where
    irq_valid :
        (i2c : I2cHandle) (m : Machine G)
        → IsValid i2c
        → ReturnsValid (irq_handler hw tx_cplt rx_cplt i2c m)
    unfolding irq_handler
    irq_valid i2c m v = by_state i2c.state refl
      where
        by_state : (s : State) → i2c.state ≡ s → ReturnsValid (irq_handler hw tx_cplt rx_cplt i2c m)
        by_state ready s = rw s v
        by_state busy s = absurd (rw s at v)
        by_state busy_tx_it s = rw s (tx_valid hw tx_cplt tx_keeps i2c _ s (rw s at v))
        by_state busy_rx_it s = rw s (rx_valid hw rx_cplt rx_keeps i2c _ s (rw s at v))

    transmit_valid :
        (i2c : I2cHandle) (dev_address buf size : ℕ) (m : Machine G)
        → IsValid i2c
        → 0 < size
        → size < 2 ^ 16
        → ReturnsValid (master_transmit_it hw tx_cplt i2c dev_address buf size m)
    unfolding master_transmit_it transmit_it_sequence tx_data tx_end tx_ready send_byte_it
    transmit_valid i2c dev_address buf size m v pos small = by_state i2c.state refl
      where
        by_state :
            (s : State)
            → i2c.state ≡ s
            → ReturnsValid (master_transmit_it hw tx_cplt i2c dev_address buf size m)
        by_state ready s = rw s (pos, small)
        by_state busy s = absurd (rw s at v)
        by_state busy_tx_it s = rw s (rw s at v)
        by_state busy_rx_it s = rw s (rw s at v)

    receive_valid :
        (i2c : I2cHandle) (dev_address buf size : ℕ) (m : Machine G)
        → IsValid i2c
        → ReturnsValid (master_receive_it hw rx_cplt i2c dev_address buf size m)
    unfolding master_receive_it receive_it_sequence rx_get_data rx_data rx_end rx_ready send_byte_it
    receive_valid i2c dev_address buf size m v = by_state i2c.state refl
      where
        by_state :
            (s : State)
            → i2c.state ≡ s
            → ReturnsValid (master_receive_it hw rx_cplt i2c dev_address buf size m)
        by_state ready s = rw s tt
        by_state busy s = absurd (rw s at v)
        by_state busy_tx_it s = rw s (rw s at v)
        by_state busy_rx_it s = rw s (rw s at v)

    call_valid :
        (c : Call) (i2c : I2cHandle) (m : Machine G)
        → CallOk c
        → IsValid i2c
        → ReturnsValid (call hw tx_cplt rx_cplt c i2c m)
    unfolding call
    call_valid (transmit_it dev_address buf size) i2c m (pos, small) v =
        transmit_valid i2c dev_address buf size m v pos small
    call_valid (receive_it dev_address buf size) i2c m ok v =
        receive_valid i2c dev_address buf size m v
    call_valid irq i2c m ok v = irq_valid i2c m v

    -- From a valid handle, for instance a ready one, any calls of the two interrupt-driven
    -- functions and any interrupts between them, in any order and whatever the hardware answers,
    -- all return and leave the handle valid: it is ready, or in a transmission that waits for the
    -- address, for a byte with 1 to 65535 bytes to go, or for the end with none, or in a reception
    -- that waits for the address or for a byte. The transmissions asked for are of 1 to 65535 bytes,
    -- and a completion callback, given a ready handle, returns a valid one.
    pub calls-IsValid :
        (cs : List Call) (i2c : I2cHandle) (m : Machine G)
        → CallsOk cs
        → IsValid i2c
        → ReturnsValid (calls hw tx_cplt rx_cplt cs i2c m)
    unfolding calls
    calls-IsValid [] i2c m ok v = v
    calls-IsValid (c ∷ cs) i2c m (ok, oks) v =
        ReturnsValid->>= (call hw tx_cplt rx_cplt c i2c) (calls hw tx_cplt rx_cplt cs) m
          (call_valid c i2c m ok v) (λ i2c' m' v'. calls-IsValid cs i2c' m' oks v')
