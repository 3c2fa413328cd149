-- ===== src/I2c/Interrupt.antt =====
-- The interrupt-driven functions of i2c_master.c. Each `if` of a sequence function is a function of
-- its own, named for the state that it tests, which goes on to the next where the source does. The
-- completion callbacks are weak and come from the application, so they are arguments.
pub mod Transmit
pub mod Transmission
pub mod Receive
pub mod Reception
pub mod Runaway
use mlab_mcu_edu.Prelude.{ℕ, ◌==◌, if◌then◌else◌, u8, bit_and, bit_or}
use mlab_mcu_edu.Machine.{Hardware, Cmd, pure, ◌>>=◌, ◌>>◌, load, store, peek, poke, next}
use mlab_mcu_edu.I2c.{
  I2cHandle, ready, busy_tx_it, busy_rx_it, TxState, tx_it_ready, tx_it_address, tx_it_data,
  tx_it_end, RxState, rx_it_ready, rx_it_address, rx_it_data, rx_it_get_data, rx_it_end, trxr, csr,
  i2c_sta, i2c_sto, i2c_rd, i2c_wr, i2c_ack, i2c_iack, pred16, ack_received, enable_int,
  disable_int,
}

abbrev pub set_tx_state : TxState → I2cHandle → I2cHandle
set_tx_state s i2c = record i2c { interupt_transmit = record (i2c.interupt_transmit) { state = s } }

abbrev pub set_rx_state : RxState → I2cHandle → I2cHandle
set_rx_state s i2c = record i2c { interupt_receive = record (i2c.interupt_receive) { state = s } }

-- `Data++` and `Size--` of a transmission, and of a reception.
abbrev pub sent_one : I2cHandle → I2cHandle
sent_one i2c =
    let t = i2c.interupt_transmit in
    record i2c { interupt_transmit = record t { buf = next t.buf; size = pred16 t.size } }

abbrev pub stored_one : I2cHandle → I2cHandle
stored_one i2c =
    let r = i2c.interupt_receive in record i2c { interupt_receive = record r { buf = next r.buf } }

abbrev pub asked_one : I2cHandle → I2cHandle
asked_one i2c =
    let r = i2c.interupt_receive in
    record i2c { interupt_receive = record r { size = pred16 r.size } }

-- A user's completion callback.
abbrev pub Callback : Type 0 → Type 0
Callback G = I2cHandle → Cmd G I2cHandle

module _ {G : Type 0} (hw : Hardware) where
  unfoldable pub send_byte_it : I2cHandle → ℕ → ℕ → Cmd G (Unit {0})
  send_byte_it i2c byte flags = do store (trxr i2c.regs) byte; store (csr i2c.regs) flags

  unfoldable pub read_byte_it : I2cHandle → ℕ → Cmd G (Unit {0})
  read_byte_it i2c flags = store (csr i2c.regs) flags

  unfoldable pub tx_ready : I2cHandle → Cmd G I2cHandle
  tx_ready i2c = elim i2c.interupt_transmit.state [
    | tx_it_ready ↦ do
      send_byte_it i2c (bit_and i2c.interupt_transmit.address 0xFE) (bit_or i2c_sta i2c_wr)
      pure (set_tx_state tx_it_address i2c)
    | _ ↦ pure i2c
  ]

  unfoldable pub tx_end : Callback G → I2cHandle → Cmd G I2cHandle
  tx_end tx_cplt i2c = elim i2c.interupt_transmit.state [
    | tx_it_end ↦ do
      let i2c₁ = record (set_tx_state tx_it_ready i2c) { state = ready }
      disable_int hw i2c₁
      tx_cplt i2c₁
    | _ ↦ tx_ready i2c
  ]

  -- The branch of an acknowledged byte: the next byte goes out, the last one with a stop.
  unfoldable pub tx_next_byte : I2cHandle → Cmd G I2cHandle
  tx_next_byte i2c = do
    let last = i2c.interupt_transmit.size == 1
    let i2c₁ = if last then set_tx_state tx_it_end i2c else i2c
    byte ← peek i2c.interupt_transmit.buf
    send_byte_it i2c₁ byte (if last then bit_or i2c_wr i2c_sto else i2c_wr)
    pure (sent_one i2c₁)

  unfoldable pub tx_data : Callback G → I2cHandle → Cmd G I2cHandle
  tx_data tx_cplt i2c = elim i2c.interupt_transmit.state [
    | tx_it_data ↦ do
      acked ← ack_received hw i2c
      if acked then tx_next_byte i2c else tx_end tx_cplt (set_tx_state tx_it_end i2c)
    | _ ↦ tx_end tx_cplt i2c
  ]

  unfoldable pub transmit_it_sequence : Callback G → I2cHandle → Cmd G I2cHandle
  transmit_it_sequence tx_cplt i2c = elim i2c.interupt_transmit.state [
    | tx_it_address ↦ do
      acked ← ack_received hw i2c
      tx_data tx_cplt (set_tx_state (if acked then tx_it_data else tx_it_ready) i2c)
    | _ ↦ tx_data tx_cplt i2c
  ]

  unfoldable pub rx_ready : I2cHandle → Cmd G I2cHandle
  rx_ready i2c = elim i2c.interupt_receive.state [
    | rx_it_ready ↦ do
      send_byte_it i2c (bit_or i2c.interupt_receive.address 0x01) (bit_or i2c_sta i2c_wr)
      pure (set_rx_state rx_it_address i2c)
    | _ ↦ pure i2c
  ]

  unfoldable pub rx_end : Callback G → I2cHandle → Cmd G I2cHandle
  rx_end rx_cplt i2c = elim i2c.interupt_receive.state [
    | rx_it_end ↦ do
      v ← load hw (trxr i2c.regs)
      poke i2c.interupt_receive.buf (u8 v)
      let i2c₁ = record (set_rx_state rx_it_ready i2c) { state = ready }
      disable_int hw i2c₁
      store (csr i2c.regs) i2c_sto
      rx_cplt i2c₁
    | _ ↦ rx_ready i2c
  ]

  unfoldable pub rx_data : Callback G → I2cHandle → Cmd G I2cHandle
  rx_data rx_cplt i2c = elim i2c.interupt_receive.state [
    | rx_it_data ↦ do
      let last = i2c.interupt_receive.size == 1
      read_byte_it i2c (if last then bit_or i2c_rd i2c_ack else i2c_rd)
      pure (asked_one (set_rx_state rx_it_get_data i2c))
    | _ ↦ rx_end rx_cplt i2c
  ]

  -- The branch of a byte that was acknowledged, so is not the last: it is stored.
  unfoldable pub rx_store : Callback G → I2cHandle → Cmd G I2cHandle
  rx_store rx_cplt i2c = do
    v ← load hw (trxr i2c.regs)
    poke i2c.interupt_receive.buf (u8 v)
    rx_data rx_cplt (set_rx_state rx_it_data (stored_one i2c))

  unfoldable pub rx_get_data : Callback G → I2cHandle → Cmd G I2cHandle
  rx_get_data rx_cplt i2c = elim i2c.interupt_receive.state [
    | rx_it_get_data ↦ do
      acked ← ack_received hw i2c
      if acked then rx_store rx_cplt i2c else rx_data rx_cplt (set_rx_state rx_it_end i2c)
    | _ ↦ rx_data rx_cplt i2c
  ]

  unfoldable pub receive_it_sequence : Callback G → I2cHandle → Cmd G I2cHandle
  receive_it_sequence rx_cplt i2c = elim i2c.interupt_receive.state [
    | rx_it_address ↦ do
      acked ← ack_received hw i2c
      rx_get_data rx_cplt (set_rx_state (if acked then rx_it_data else rx_it_ready) i2c)
    | _ ↦ rx_get_data rx_cplt i2c
  ]

  unfoldable pub master_transmit_it : Callback G → I2cHandle → ℕ → ℕ → ℕ → Cmd G I2cHandle
  master_transmit_it tx_cplt i2c dev_address buf size = elim i2c.state [
    | ready ↦ do
      enable_int hw i2c
      transmit_it_sequence tx_cplt (record i2c {
        state = busy_tx_it;
        interupt_transmit = record {
          state = tx_it_ready;
          address = dev_address;
          buf = buf;
          size = size;
        };
      })
    | _ ↦ pure i2c
  ]

  unfoldable pub master_receive_it : Callback G → I2cHandle → ℕ → ℕ → ℕ → Cmd G I2cHandle
  master_receive_it rx_cplt i2c dev_address buf size = elim i2c.state [
    | ready ↦ do
      enable_int hw i2c
      receive_it_sequence rx_cplt (record i2c {
        state = busy_rx_it;
        interupt_receive = record {
          state = rx_it_ready;
          address = dev_address;
          buf = buf;
          size = size;
        };
      })
    | _ ↦ pure i2c
  ]

  unfoldable pub irq_handler : Callback G → Callback G → I2cHandle → Cmd G I2cHandle
  irq_handler tx_cplt rx_cplt i2c = do
    store (csr i2c.regs) i2c_iack
    elim i2c.state [
      | busy_tx_it ↦ transmit_it_sequence tx_cplt i2c
      | busy_rx_it ↦ receive_it_sequence rx_cplt i2c
      | _ ↦ pure i2c
    ]
