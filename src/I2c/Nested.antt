-- ===== src/I2c/Nested.antt =====
-- The copy of the I2C master driver in the test of nested interrupts,
-- sw/ibex/other_test/nested_interrupts/drivers/src/i2c_master.c, with the types of I2c. A function
-- that returns early is the row of its `if` statements, each of which either returns or goes on to
-- the next with the handle as it is then.
pub mod Blocking
pub mod Waiting
pub mod Equivalence
use mlab_mcu_edu.Prelude.{
  ℕ, zero, suc, ◌*◌, ◌^◌, none, ◌==◌, if◌then◌else◌, is_clear, u8, bit_and, bit_or,
}
use mlab_mcu_edu.Machine.{Hardware, Cmd, pure, ◌>>=◌, ◌>>◌, load, store, update, peek, poke}
use mlab_mcu_edu.I2c.{
  I2cHandle, ready, busy_tx_it, busy_rx_it, tx_it_ready, tx_it_address, tx_it_data, tx_it_end,
  rx_it_ready, rx_it_address, rx_it_data, rx_it_get_data, rx_it_end, prer_lo, prer_hi, ctr, trxr,
  csr, i2c_en, i2c_sta, i2c_sto, i2c_rd, i2c_wr, i2c_ack, i2c_iack, i2c_if, prescale, wait_busy,
  ack_received, enable_int, disable_int,
}
use mlab_mcu_edu.I2c.Interrupt.{
  Callback, set_tx_state, set_rx_state, sent_one, stored_one, asked_one,
}

-- A function after one of its statements: it goes on, or it has returned.
pub data Flow : Type 0 where
  going returned : I2cHandle → Flow

-- The next statement, unless the function has returned, and the end of the function.
infixl 5 ◌▷◌
abbrev pub ◌▷◌ : {G : Type 0} → Cmd G Flow → (I2cHandle → Cmd G Flow) → Cmd G Flow
c ▷ statement = c >>= λ f. elim f [ going i2c ↦ statement i2c | returned i2c ↦ pure (returned i2c) ]

abbrev pub end_of : {G : Type 0} → Cmd G Flow → Cmd G I2cHandle
end_of c = c >>= λ f. elim f [ going i2c ↦ pure i2c | returned i2c ↦ pure i2c ]

module _ {G : Type 0} (hw : Hardware) where
  -- The pending interrupt is acknowledged before the core is disabled.
  unfoldable pub i2c_handle_init : I2cHandle → ℕ → ℕ → ℕ → Cmd G I2cHandle
  i2c_handle_init i2c base_address speed cpu_freq = if speed == 0 then (λ _. none) else do
    let scale = prescale cpu_freq speed
    let i2c₁ = record i2c { regs = base_address }
    wait_busy hw i2c₁
    status ← load hw (csr base_address)
    if is_clear status i2c_if
        then pure tt
        else update hw (csr base_address) (λ v. bit_or v i2c_iack)
    store (ctr base_address) 0
    store (prer_lo base_address) scale
    store (prer_hi base_address) (scale * 2 ^ 8)
    store (ctr base_address) i2c_en
    pure (record i2c₁ { state = ready })

  unfoldable pub i2c_send_byte_it : I2cHandle → ℕ → ℕ → Cmd G (Unit {0})
  i2c_send_byte_it i2c byte flags = do store (trxr i2c.regs) byte; store (csr i2c.regs) flags

  unfoldable pub i2c_read_byte_it : I2cHandle → ℕ → Cmd G (Unit {0})
  i2c_read_byte_it i2c flags = store (csr i2c.regs) flags

  -- The `if` statements of `i2c_master_tx_it_Sequence`, by the state that each one tests.
  unfoldable pub if_tx_address : I2cHandle → Cmd G Flow
  if_tx_address i2c = elim i2c.interupt_transmit.state [
    | tx_it_address ↦ do
      acked ← ack_received hw i2c
      pure (going (set_tx_state (if acked then tx_it_data else tx_it_ready) i2c))
    | _ ↦ pure (going i2c)
  ]

  unfoldable pub if_tx_data : I2cHandle → Cmd G Flow
  if_tx_data i2c = elim i2c.interupt_transmit.state [
    | tx_it_data ↦ do
      acked ← ack_received hw i2c
      if acked
          then (do
            let last = i2c.interupt_transmit.size == 1
            let flags = if last then bit_or i2c_wr i2c_sto else i2c_wr
            let i2c₁ = if last then set_tx_state tx_it_end i2c else i2c
            byte ← peek i2c₁.interupt_transmit.buf
            i2c_send_byte_it i2c₁ byte flags
            pure (returned (sent_one i2c₁)))
          else pure (going (set_tx_state tx_it_end i2c))
    | _ ↦ pure (going i2c)
  ]

  unfoldable pub if_tx_end : Callback G → I2cHandle → Cmd G Flow
  if_tx_end tx_cplt i2c = elim i2c.interupt_transmit.state [
    | tx_it_end ↦ do
      let i2c₁ = record (set_tx_state tx_it_ready i2c) { state = ready }
      disable_int hw i2c₁
      i2c₂ ← tx_cplt i2c₁
      pure (returned i2c₂)
    | _ ↦ pure (going i2c)
  ]

  unfoldable pub if_tx_ready : I2cHandle → Cmd G Flow
  if_tx_ready i2c = elim i2c.interupt_transmit.state [
    | tx_it_ready ↦ do
      let address = bit_and i2c.interupt_transmit.address 0xFE
      i2c_send_byte_it i2c address (bit_or i2c_sta i2c_wr)
      pure (returned (set_tx_state tx_it_address i2c))
    | _ ↦ pure (going i2c)
  ]

  unfoldable pub i2c_master_tx_it_sequence : Callback G → I2cHandle → Cmd G I2cHandle
  i2c_master_tx_it_sequence tx_cplt i2c =
      end_of (if_tx_address i2c ▷ if_tx_data ▷ if_tx_end tx_cplt ▷ if_tx_ready)

  -- The `if` statements of `i2c_master_rx_it_Sequence`.
  unfoldable pub if_rx_address : I2cHandle → Cmd G Flow
  if_rx_address i2c = elim i2c.interupt_receive.state [
    | rx_it_address ↦ do
      acked ← ack_received hw i2c
      pure (going (set_rx_state (if acked then rx_it_data else rx_it_ready) i2c))
    | _ ↦ pure (going i2c)
  ]

  unfoldable pub if_rx_get_data : I2cHandle → Cmd G Flow
  if_rx_get_data i2c = elim i2c.interupt_receive.state [
    | rx_it_get_data ↦ do
      acked ← ack_received hw i2c
      if acked
          then (do
            v ← load hw (trxr i2c.regs)
            poke i2c.interupt_receive.buf (u8 v)
            pure (going (set_rx_state rx_it_data (stored_one i2c))))
          else pure (going (set_rx_state rx_it_end i2c))
    | _ ↦ pure (going i2c)
  ]

  unfoldable pub if_rx_data : I2cHandle → Cmd G Flow
  if_rx_data i2c = elim i2c.interupt_receive.state [
    | rx_it_data ↦ do
      let last = i2c.interupt_receive.size == 1
      i2c_read_byte_it i2c (if last then bit_or i2c_rd i2c_ack else i2c_rd)
      pure (returned (asked_one (set_rx_state rx_it_get_data i2c)))
    | _ ↦ pure (going i2c)
  ]

  unfoldable pub if_rx_end : Callback G → I2cHandle → Cmd G Flow
  if_rx_end rx_cplt i2c = elim i2c.interupt_receive.state [
    | rx_it_end ↦ do
      v ← load hw (trxr i2c.regs)
      poke i2c.interupt_receive.buf (u8 v)
      let i2c₁ = record (set_rx_state rx_it_ready i2c) { state = ready }
      disable_int hw i2c₁
      store (csr i2c.regs) i2c_sto
      i2c₂ ← rx_cplt i2c₁
      pure (returned i2c₂)
    | _ ↦ pure (going i2c)
  ]

  unfoldable pub if_rx_ready : I2cHandle → Cmd G Flow
  if_rx_ready i2c = elim i2c.interupt_receive.state [
    | rx_it_ready ↦ do
      let address = bit_or i2c.interupt_receive.address 0x01
      i2c_send_byte_it i2c address (bit_or i2c_sta i2c_wr)
      pure (returned (set_rx_state rx_it_address i2c))
    | _ ↦ pure (going i2c)
  ]

  unfoldable pub i2c_master_rx_it_sequence : Callback G → I2cHandle → Cmd G I2cHandle
  i2c_master_rx_it_sequence rx_cplt i2c =
      end_of (if_rx_address i2c ▷ if_rx_get_data ▷ if_rx_data ▷ if_rx_end rx_cplt ▷ if_rx_ready)

  unfoldable pub i2c_master_tx_it : Callback G → I2cHandle → ℕ → ℕ → ℕ → Cmd G I2cHandle
  i2c_master_tx_it tx_cplt i2c dev_address buf size = elim i2c.state [
    | ready ↦ do
      let i2c₁ = record i2c { state = busy_tx_it }
      enable_int hw i2c₁
      i2c_master_tx_it_sequence tx_cplt (record i2c₁ {
        interupt_transmit = record {
          state = tx_it_ready;
          address = dev_address;
          buf = buf;
          size = size;
        };
      })
    | _ ↦ pure i2c
  ]

  unfoldable pub i2c_master_rx_it : Callback G → I2cHandle → ℕ → ℕ → ℕ → Cmd G I2cHandle
  i2c_master_rx_it rx_cplt i2c dev_address buf size = elim i2c.state [
    | ready ↦ do
      let i2c₁ = record i2c { state = busy_rx_it }
      enable_int hw i2c₁
      i2c_master_rx_it_sequence rx_cplt (record i2c₁ {
        interupt_receive = record {
          state = rx_it_ready;
          address = dev_address;
          buf = buf;
          size = size;
        };
      })
    | _ ↦ pure i2c
  ]

  unfoldable pub i2c_irq_handler : Callback G → Callback G → I2cHandle → Cmd G I2cHandle
  i2c_irq_handler tx_cplt rx_cplt i2c = do
    store (csr i2c.regs) i2c_iack
    elim i2c.state [
      | busy_tx_it ↦ i2c_master_tx_it_sequence tx_cplt i2c
      | busy_rx_it ↦ i2c_master_rx_it_sequence rx_cplt i2c
      | _ ↦ pure i2c
    ]
