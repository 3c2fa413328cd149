-- ===== src/I2c/Calls/Sequences.antt =====
-- The sequence functions keep the handle valid, whatever the hardware answers.
use mlab_mcu_edu.Prelude.{
  ℕ, ◌^◌, ◌<◌, ◌≡◌, refl, Option, none, some, List, [], ◌∷◌, arith, is_clear, Bool-cases, ◌==◌, inl,
  inr,
}
use mlab_mcu_edu.Machine.{Hardware, Machine, Cmd, ◌>>=◌}
use mlab_mcu_edu.I2c.{
  I2cHandle, State, ready, busy, busy_tx_it, busy_rx_it, TxState, tx_it_ready, tx_it_address,
  tx_it_data, tx_it_end, RxState, rx_it_ready, rx_it_address, rx_it_data, rx_it_get_data, rx_it_end,
  csr, i2c_rxack,
}
use mlab_mcu_edu.I2c.Interrupt.{
  Callback, send_byte_it, read_byte_it, tx_ready, tx_end, tx_next_byte, tx_data,
  transmit_it_sequence, rx_ready, rx_end, rx_data, rx_store, rx_get_data, receive_it_sequence,
}
use mlab_mcu_edu.I2c.Calls.{Call, transmit_it, receive_it, irq}

-- Between calls a transmission waits in the state of the address or of the data, with 1 to 65535
-- bytes to go, or of the end, with none; a reception waits in the state of the address or of the
-- data asked for.
abbrev pub TxValid : TxState → ℕ → Type 0
TxValid tx_it_ready size = ⊥
TxValid tx_it_address size = (0 < size) × (size < 2 ^ 16)
TxValid tx_it_data size = (0 < size) × (size < 2 ^ 16)
TxValid tx_it_end size = size ≡ 0

abbrev pub RxValid : RxState → Type 0
RxValid rx_it_ready = ⊥
RxValid rx_it_address = Unit
RxValid rx_it_data = ⊥
RxValid rx_it_get_data = Unit
RxValid rx_it_end = ⊥

abbrev pub StateValid : State → I2cHandle → Type 0
StateValid ready i2c = Unit
StateValid busy i2c = ⊥
StateValid busy_tx_it i2c = TxValid i2c.interupt_transmit.state i2c.interupt_transmit.size
StateValid busy_rx_it i2c = RxValid i2c.interupt_receive.state

abbrev pub IsValid : I2cHandle → Type 0
IsValid i2c = StateValid i2c.state i2c

-- A request for at least one byte, and an interrupt.
abbrev pub CallOk : Call → Type 0
CallOk (transmit_it dev_address buf size) = (0 < size) × (size < 2 ^ 16)
CallOk (receive_it dev_address buf size) = Unit
CallOk irq = Unit

abbrev pub CallsOk : List Call → Type 0
CallsOk [] = Unit
CallsOk (c ∷ cs) = CallOk c × CallsOk cs

module _ {G : Type 0} where
  -- A result, with a valid handle.
  abbrev pub ReturnsValid : Option (I2cHandle × Machine G) → Type 0
  ReturnsValid none = ⊥
  ReturnsValid (some (i2c, m)) = IsValid i2c

  -- A callback that, given a ready handle, returns a valid one: it may start the next transfer.
  abbrev pub KeepsValid : Callback G → Type 0
  KeepsValid cplt =
      (i2c : I2cHandle) (m : Machine G) → i2c.state ≡ ready → ReturnsValid (cplt i2c m)

  pub ReturnsValid->>= :
      (c : Cmd G I2cHandle) (f : I2cHandle → Cmd G I2cHandle) (m : Machine G)
      → ReturnsValid (c m)
      → ((i2c : I2cHandle) (m' : Machine G) → IsValid i2c → ReturnsValid (f i2c m'))
      → ReturnsValid ((c >>= f) m)
  ReturnsValid->>= c f m = next (c m)
    where
      next :
          (r : Option (I2cHandle × Machine G))
          → ReturnsValid r
          → ((i2c : I2cHandle) (m' : Machine G) → IsValid i2c → ReturnsValid (f i2c m'))
          → ReturnsValid (elim r [ none ↦ none | some (a, m') ↦ f a m' ])
      next none v g = absurd v
      next (some (i2c, m')) v g = g i2c m' v

  module _ (hw : Hardware) (tx_cplt : Callback G) (tx_keeps : KeepsValid tx_cplt) where
    -- The statements of the sequence functions, on handles of the states that they test.
    tx_data_valid :
        (i2c : I2cHandle) (m : Machine G)
        → i2c.state ≡ busy_tx_it
        → i2c.interupt_transmit.state ≡ tx_it_data
        → 0 < i2c.interupt_transmit.size
        → i2c.interupt_transmit.size < 2 ^ 16
        → ReturnsValid (tx_data hw tx_cplt i2c m)
    unfolding tx_data tx_end tx_next_byte send_byte_it
    tx_data_valid i2c m e s pos small =
        elim (Bool-cases (is_clear (hw.value m.log (csr i2c.regs)) i2c_rxack)) [
          | inl acked ↦ elim (Bool-cases (i2c.interupt_transmit.size == 1)) [
            | inl last ↦ rw (s, acked, last, e) (ground arith)
            | inr more ↦ rw (s, acked, more, e) (ground arith)
          ]
          | inr nack ↦ rw (s, nack) (tx_keeps _ _ refl)
        ]

    tx_address_valid :
        (i2c : I2cHandle) (m : Machine G)
        → i2c.state ≡ busy_tx_it
        → i2c.interupt_transmit.state ≡ tx_it_address
        → 0 < i2c.interupt_transmit.size
        → i2c.interupt_transmit.size < 2 ^ 16
        → ReturnsValid (transmit_it_sequence hw tx_cplt i2c m)
    unfolding transmit_it_sequence tx_data tx_end tx_ready send_byte_it
    tx_address_valid i2c m e s pos small =
        elim (Bool-cases (is_clear (hw.value m.log (csr i2c.regs)) i2c_rxack)) [
          | inl acked ↦ rw (s, acked) (tx_data_valid _ _ e refl pos small)
          | inr nack ↦ rw (s, nack) (rw e (pos, small))
        ]

    pub tx_valid :
        (i2c : I2cHandle) (m : Machine G)
        → i2c.state ≡ busy_tx_it
        → TxValid i2c.interupt_transmit.state i2c.interupt_transmit.size
        → ReturnsValid (transmit_it_sequence hw tx_cplt i2c m)
    unfolding transmit_it_sequence tx_data tx_end
    tx_valid i2c m e v = by_state i2c.interupt_transmit.state refl
      where
        by_state :
            (s : TxState)
            → i2c.interupt_transmit.state ≡ s
            → ReturnsValid (transmit_it_sequence hw tx_cplt i2c m)
        by_state tx_it_ready s = absurd (rw s at v)
        by_state tx_it_address s =
            let (pos, small) = rw s at v in tx_address_valid i2c m e s pos small
        by_state tx_it_data s =
            let (pos, small) = rw s at v in rw s (tx_data_valid _ m e refl pos small)
        by_state tx_it_end s = rw s (tx_keeps _ _ refl)

  module _ (hw : Hardware) (rx_cplt : Callback G) (rx_keeps : KeepsValid rx_cplt) where
    rx_data_valid :
        (i2c : I2cHandle) (m : Machine G)
        → i2c.state ≡ busy_rx_it
        → i2c.interupt_receive.state ≡ rx_it_data
        → ReturnsValid (rx_data hw rx_cplt i2c m)
    unfolding rx_data read_byte_it
    rx_data_valid i2c m e s = rw (s, e) tt

    rx_end_valid :
        (i2c : I2cHandle) (m : Machine G)
        → i2c.interupt_receive.state ≡ rx_it_end
        → ReturnsValid (rx_data hw rx_cplt i2c m)
    unfolding rx_data rx_end
    rx_end_valid i2c m s = rw s (rx_keeps _ _ refl)

    rx_get_data_valid :
        (i2c : I2cHandle) (m : Machine G)
        → i2c.state ≡ busy_rx_it
        → i2c.interupt_receive.state ≡ rx_it_get_data
        → ReturnsValid (receive_it_sequence hw rx_cplt i2c m)
    unfolding receive_it_sequence rx_get_data rx_store
    rx_get_data_valid i2c m e s =
        elim (Bool-cases (is_clear (hw.value m.log (csr i2c.regs)) i2c_rxack)) [
          | inl acked ↦ rw (s, acked) (rx_data_valid _ _ e refl)
          | inr nack ↦ rw (s, nack) (rx_end_valid _ _ refl)
        ]

    rx_address_valid :
        (i2c : I2cHandle) (m : Machine G)
        → i2c.state ≡ busy_rx_it
        → i2c.interupt_receive.state ≡ rx_it_address
        → ReturnsValid (receive_it_sequence hw rx_cplt i2c m)
    unfolding receive_it_sequence rx_get_data rx_data rx_end rx_ready send_byte_it read_byte_it
    rx_address_valid i2c m e s =
        elim (Bool-cases (is_clear (hw.value m.log (csr i2c.regs)) i2c_rxack)) [
          | inl acked ↦ rw (s, acked, e) tt
          | inr nack ↦ rw (s, nack, e) tt
        ]

    pub rx_valid :
        (i2c : I2cHandle) (m : Machine G)
        → i2c.state ≡ busy_rx_it
        → RxValid i2c.interupt_receive.state
        → ReturnsValid (receive_it_sequence hw rx_cplt i2c m)
    rx_valid i2c m e v = by_state i2c.interupt_receive.state refl
      where
        by_state :
            (s : RxState)
            → i2c.interupt_receive.state ≡ s
            → ReturnsValid (receive_it_sequence hw rx_cplt i2c m)
        by_state rx_it_ready s = absurd (rw s at v)
        by_state rx_it_address s = rx_address_valid i2c m e s
        by_state rx_it_data s = absurd (rw s at v)
        by_state rx_it_get_data s = rx_get_data_valid i2c m e s
        by_state rx_it_end s = absurd (rw s at v)
