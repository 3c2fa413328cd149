-- ===== src/I2c/Nested/Equivalence.antt =====
-- The copy of the driver in the test of nested interrupts against version 0.1.
use mlab_mcu_edu.Prelude.{ℕ, ◌≡◌, refl, List, [], ◌∷◌, arith}
use mlab_mcu_edu.Machine.{write, Hardware, Machine, Cmd, pure, ◌>>=◌}
use mlab_mcu_edu.I2c.{
  I2cHandle, State, ready, busy, busy_tx_it, busy_rx_it, tx_it_ready, rx_it_ready, csr, i2c_iack,
}
use mlab_mcu_edu.Machine.Runs.{>>=-same}
use mlab_mcu_edu.I2c.Blocking.{master_transmit, master_receive}
use mlab_mcu_edu.I2c.Interrupt.{
  Callback, send_byte_it, read_byte_it, tx_ready, tx_end, tx_next_byte, tx_data,
  transmit_it_sequence, rx_ready, rx_end, rx_data, rx_store, rx_get_data, receive_it_sequence,
  master_transmit_it, master_receive_it, irq_handler,
}
use mlab_mcu_edu.I2c.Calls.{Call, transmit_it, receive_it, irq, call, calls}
use mlab_mcu_edu.I2c.Nested.{
  i2c_send_byte_it, i2c_read_byte_it, if_tx_address, if_tx_data, if_tx_end, if_tx_ready,
  i2c_master_tx_it_sequence, if_rx_address, if_rx_get_data, if_rx_data, if_rx_end, if_rx_ready,
  i2c_master_rx_it_sequence, i2c_master_tx_it, i2c_master_rx_it, i2c_irq_handler,
}
use mlab_mcu_edu.I2c.Nested.Blocking.{i2c_master_tx, i2c_master_rx}
use mlab_mcu_edu.I2c.Nested.Waiting.{tx_ready_same, rx_ready_same}

module _ {G : Type 0} (hw : Hardware) (tx_cplt rx_cplt : Callback G) where
  tx_sequence_same :
      (i2c : I2cHandle) (m : Machine G)
      → i2c_master_tx_it_sequence hw tx_cplt i2c m ≡ transmit_it_sequence hw tx_cplt i2c m
  unfolding i2c_master_tx_it_sequence if_tx_address if_tx_data if_tx_end if_tx_ready
      i2c_send_byte_it transmit_it_sequence tx_data tx_next_byte tx_end tx_ready send_byte_it
  tx_sequence_same i2c m = ground arith

  rx_sequence_same :
      (i2c : I2cHandle) (m : Machine G)
      → i2c_master_rx_it_sequence hw rx_cplt i2c m ≡ receive_it_sequence hw rx_cplt i2c m
  unfolding i2c_master_rx_it_sequence if_rx_address if_rx_get_data if_rx_data if_rx_end if_rx_ready
      i2c_send_byte_it i2c_read_byte_it receive_it_sequence rx_get_data rx_store rx_data rx_end
      rx_ready send_byte_it read_byte_it
  rx_sequence_same i2c m = ground arith

  -- A call or an interrupt, with the functions of the copy.
  unfoldable pub nested_call : Call → I2cHandle → Cmd G I2cHandle
  nested_call (transmit_it dev_address buf size) i2c =
      i2c_master_tx_it hw tx_cplt i2c dev_address buf size
  nested_call (receive_it dev_address buf size) i2c =
      i2c_master_rx_it hw rx_cplt i2c dev_address buf size
  nested_call irq i2c = i2c_irq_handler hw tx_cplt rx_cplt i2c

  unfoldable pub nested_calls : List Call → I2cHandle → Cmd G I2cHandle
  nested_calls [] i2c = pure i2c
  nested_calls (c ∷ cs) i2c = nested_call c i2c >>= nested_calls cs

  transmit_same :
      (i2c : I2cHandle) (dev_address buf size : ℕ) (m : Machine G)
      → i2c_master_tx_it hw tx_cplt i2c dev_address buf size m
        ≡ master_transmit_it hw tx_cplt i2c dev_address buf size m
  unfolding i2c_master_tx_it master_transmit_it
  transmit_same i2c dev_address buf size m = by_state i2c.state refl
    where
      by_state :
          (s : State)
          → i2c.state ≡ s
          → i2c_master_tx_it hw tx_cplt i2c dev_address buf size m
            ≡ master_transmit_it hw tx_cplt i2c dev_address buf size m
      by_state ready s = rw s (
          tx_sequence_same
            (record i2c {
              state = busy_tx_it;
              interupt_transmit = record {
                state = tx_it_ready;
                address = dev_address;
                buf = buf;
                size = size;
              };
            })
            _)
      by_state busy s = rw s refl
      by_state busy_tx_it s = rw s refl
      by_state busy_rx_it s = rw s refl

  receive_same :
      (i2c : I2cHandle) (dev_address buf size : ℕ) (m : Machine G)
      → i2c_master_rx_it hw rx_cplt i2c dev_address buf size m
        ≡ master_receive_it hw rx_cplt i2c dev_address buf size m
  unfolding i2c_master_rx_it master_receive_it
  receive_same i2c dev_address buf size m = by_state i2c.state refl
    where
      by_state :
          (s : State)
          → i2c.state ≡ s
          → i2c_master_rx_it hw rx_cplt i2c dev_address buf size m
            ≡ master_receive_it hw rx_cplt i2c dev_address buf size m
      by_state ready s = rw s (
          rx_sequence_same
            (record i2c {
              state = busy_rx_it;
              interupt_receive = record {
                state = rx_it_ready;
                address = dev_address;
                buf = buf;
                size = size;
              };
            })
            _)
      by_state busy s = rw s refl
      by_state busy_tx_it s = rw s refl
      by_state busy_rx_it s = rw s refl

  irq_same :
      (i2c : I2cHandle) (m : Machine G)
      → i2c_irq_handler hw tx_cplt rx_cplt i2c m ≡ irq_handler hw tx_cplt rx_cplt i2c m
  unfolding i2c_irq_handler irq_handler
  irq_same i2c m = by_state i2c.state refl
    where
      by_state :
          (s : State)
          → i2c.state ≡ s
          → i2c_irq_handler hw tx_cplt rx_cplt i2c m ≡ irq_handler hw tx_cplt rx_cplt i2c m
      by_state ready s = rw s refl
      by_state busy s = rw s refl
      by_state busy_tx_it s =
          rw s (tx_sequence_same i2c (record m { log = write (csr i2c.regs) i2c_iack ∷ m.log }))
      by_state busy_rx_it s =
          rw s (rx_sequence_same i2c (record m { log = write (csr i2c.regs) i2c_iack ∷ m.log }))

  nested_call-call :
      (c : Call) (i2c : I2cHandle) (m : Machine G)
      → nested_call c i2c m ≡ call hw tx_cplt rx_cplt c i2c m
  unfolding nested_call call
  nested_call-call (transmit_it dev_address buf size) i2c m =
      transmit_same i2c dev_address buf size m
  nested_call-call (receive_it dev_address buf size) i2c m = receive_same i2c dev_address buf size m
  nested_call-call irq i2c m = irq_same i2c m

  -- Any calls of the interrupt-driven functions, with interrupts between them in any order, do the
  -- same with the copy as with version 0.1, whatever the hardware answers: the same accesses in the
  -- same order, the same memory, the same handle and the same calls of the completion callbacks.
  pub nested_calls-calls :
      (cs : List Call) (i2c : I2cHandle) (m : Machine G)
      → nested_calls cs i2c m ≡ calls hw tx_cplt rx_cplt cs i2c m
  unfolding nested_calls calls
  nested_calls-calls [] i2c m = refl
  nested_calls-calls (c ∷ cs) i2c m =
      >>=-same (nested_call c i2c) (call hw tx_cplt rx_cplt c i2c) _ _ m (nested_call-call c i2c m)
        (nested_calls-calls cs)

module _ {G : Type 0} (hw : Hardware) where
  -- The functions that wait do the same on every handle and machine, for every size and whatever
  -- the hardware answers: `i2c_master_tx` as `I2C_Master_Transmit`, `i2c_master_rx` as
  -- `I2C_Master_Receive`.
  pub i2c_master_tx-rx_same :
      (i2c : I2cHandle) (dev_address buf size : ℕ) (m : Machine G)
      → (i2c_master_tx hw i2c dev_address buf size m
          ≡ master_transmit hw i2c dev_address buf size m)
        × (i2c_master_rx hw i2c dev_address buf size m
            ≡ master_receive hw i2c dev_address buf size m)
  unfolding i2c_master_tx i2c_master_rx master_transmit master_receive
  i2c_master_tx-rx_same i2c dev buf size m = (tx i2c.state refl, rx i2c.state refl)
    where
      tx :
          (s : State)
          → i2c.state ≡ s
          → i2c_master_tx hw i2c dev buf size m ≡ master_transmit hw i2c dev buf size m
      tx ready s = rw s (tx_ready_same hw (record i2c { state = ready }) dev buf size m)
      tx busy s = rw s refl
      tx busy_tx_it s = rw s refl
      tx busy_rx_it s = rw s refl

      rx :
          (s : State)
          → i2c.state ≡ s
          → i2c_master_rx hw i2c dev buf size m ≡ master_receive hw i2c dev buf size m
      rx ready s = rw s (rx_ready_same hw (record i2c { state = ready }) dev buf size m)
      rx busy s = rw s refl
      rx busy_tx_it s = rw s refl
      rx busy_rx_it s = rw s refl
