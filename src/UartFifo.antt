-- ===== src/UartFifo.antt =====
-- The UART driver for the peripheral with FIFOs, sw/ibex/other_test/uart/core/src/uart.c and
-- core/inc/uart.h. Interrupts are turned on and off in the `mie` register of the core.
pub mod Room
pub mod Reception
pub mod HalfFull
pub mod HalfEmpty
pub mod Blocking
pub mod Overrun
use mlab_mcu_edu.Prelude.{
  ℕ, zero, suc, ◌+◌, ◌/◌, ◌^◌, none, ltb, ◌==◌, if◌then◌else◌, u8, bit_and, bit_or,
}
use mlab_mcu_edu.Machine.{
  Hardware, Cmd, pure, ◌>>=◌, ◌>>◌, load, store, set_mie, clear_mie, peek, poke, next,
}
use mlab_mcu_edu.Uart.{
  uart_base_addr, uart_setup_baud_mask, UartState, reset, ready, busy_tx, busy_rx, pred16, shl32,
}

-- The registers of `UART_reg_map_t`, from the address of the first.
abbrev pub fifo_setup : ℕ → ℕ
fifo_setup r = r

abbrev pub fifo_status : ℕ → ℕ
fifo_status r = r + 4

abbrev pub fifo_rx_data : ℕ → ℕ
fifo_rx_data r = r + 8

abbrev pub fifo_tx_data : ℕ → ℕ
fifo_tx_data r = r + 12

abbrev pub fifo_rx_enable : ℕ → ℕ
fifo_rx_enable r = r + 16

abbrev pub it_fifo_threshold : ℕ
it_fifo_threshold = 115200

abbrev pub half_fifo_len : ℕ
half_fifo_len = 8

-- The bits of `mie`, one for each interrupt of the UART.
abbrev pub mie_rx_half_full : ℕ
mie_rx_half_full = 2 ^ 18

abbrev pub mie_tx_half_empty : ℕ
mie_tx_half_empty = 2 ^ 19

abbrev pub mie_rx_not_empty : ℕ
mie_rx_not_empty = 2 ^ 20

abbrev pub mie_tx_not_full : ℕ
mie_tx_not_full = 2 ^ 21

-- `UART_InitTypeDef`
pub record FifoInit : Type 0 where
  pub baud_rate : ℕ
  pub word_length : ℕ
  pub stop_bits : ℕ
  pub parity : ℕ
  pub parity_mode : ℕ
  pub parity_lock : ℕ
  pub hw_flow_ctrl : ℕ

-- `UART_HandleTypeDef`
pub record FifoHandle : Type 0 where
  pub instance_addr : ℕ
  pub init : FifoInit
  pub tx_buff_ptr : ℕ
  pub tx_xfer_size : ℕ
  pub tx_xfer_count : ℕ
  pub rx_buff_ptr : ℕ
  pub rx_xfer_size : ℕ
  pub rx_xfer_count : ℕ
  pub g_state : UartState
  pub rx_state : UartState

-- The word that `UART_Init` writes to the setup register.
unfoldable pub fifo_setup_word : FifoInit → ℕ
fifo_setup_word i =
    bit_or
      (bit_or
        (bit_or
          (bit_or
            (bit_or (bit_or (bit_and i.baud_rate uart_setup_baud_mask) (shl32 i.parity_mode 24))
              (shl32 i.parity_lock 25))
            (shl32 i.parity 26))
          (shl32 i.stop_bits 27))
        (shl32 i.word_length 28))
      (shl32 i.hw_flow_ctrl 30)

-- `(FIFO >> 18) & 0xF` and `(FIFO >> 2) & 0xF`
abbrev pub free_spaces : ℕ → ℕ
free_spaces fifo = bit_and (fifo / 2 ^ 18) 0xF

abbrev pub valid_data : ℕ → ℕ
valid_data fifo = bit_and (fifo / 2 ^ 2) 0xF

module _ {G : Type 0} where
  unfoldable pub fifo_init : FifoHandle → Cmd G FifoHandle
  fifo_init huart = elim huart.g_state [
    | reset ↦ do
      store (fifo_setup uart_base_addr) (fifo_setup_word huart.init)
      pure (record huart { instance_addr = uart_base_addr; g_state = ready; rx_state = ready })
    | _ ↦ pure huart
  ]

  -- The inner loop of `UART_Transmit`: while there is room and something to send. What is left of
  -- the buffer and of the size is returned.
  unfoldable pub fill_fifo : ℕ → ℕ → FifoHandle → ℕ → Cmd G (ℕ × ℕ)
  fill_fifo zero size huart buf = pure (buf, size)
  fill_fifo (suc room) zero huart buf = pure (buf, zero)
  fill_fifo (suc room) (suc size) huart buf = do
    byte ← peek buf
    store (fifo_tx_data huart.instance_addr) byte
    fill_fifo room size huart (next buf)

  unfoldable pub fifo_transmit_it : FifoHandle → ℕ → ℕ → Cmd G FifoHandle
  fifo_transmit_it huart buf size = elim huart.g_state [
    | ready ↦ do
      set_mie (
          if ltb it_fifo_threshold huart.init.baud_rate then mie_tx_not_full else mie_tx_half_empty)
      pure (record huart {
        tx_buff_ptr = buf;
        tx_xfer_size = size;
        tx_xfer_count = size;
        g_state = busy_tx;
      })
    | _ ↦ pure huart
  ]

  unfoldable pub fifo_receive_it : FifoHandle → ℕ → ℕ → Cmd G FifoHandle
  fifo_receive_it huart buf size = elim huart.rx_state [
    | ready ↦ do
      set_mie (
          if ltb it_fifo_threshold huart.init.baud_rate then mie_rx_not_empty else mie_rx_half_full)
      pure (record huart {
        rx_buff_ptr = buf;
        rx_xfer_size = size;
        rx_xfer_count = size;
        rx_state = busy_rx;
      })
    | _ ↦ pure huart
  ]

  -- One byte of a transmit handler, with the pointer and the count moved on.
  unfoldable pub send_one : FifoHandle → Cmd G FifoHandle
  send_one huart = do
    byte ← peek huart.tx_buff_ptr
    store (fifo_tx_data huart.instance_addr) byte
    pure (record huart {
      tx_buff_ptr = next huart.tx_buff_ptr;
      tx_xfer_count = pred16 huart.tx_xfer_count;
    })

  -- The loop of `UART_TX_Half_Empty_IRQHandler`, which goes on after the count has come to 0.
  unfoldable pub tx_half_empty_loop : ℕ → FifoHandle → Cmd G FifoHandle
  tx_half_empty_loop zero huart = pure huart
  tx_half_empty_loop (suc n) huart = do
    huart₁ ← send_one huart
    huart₂ ←
        if huart₁.tx_xfer_count == 0
        then (clear_mie mie_tx_half_empty >> pure (record huart₁ { g_state = ready }))
        else pure huart₁
    tx_half_empty_loop n huart₂

  unfoldable pub tx_half_empty_irq_handler : FifoHandle → Cmd G FifoHandle
  tx_half_empty_irq_handler huart = elim huart.g_state [
    | busy_tx ↦
        tx_half_empty_loop
          (if ltb huart.tx_xfer_count half_fifo_len then u8 huart.tx_xfer_count else half_fifo_len)
          huart
    | _ ↦ pure huart
  ]

  unfoldable pub fifo_tx_not_full_irq_handler : FifoHandle → Cmd G FifoHandle
  fifo_tx_not_full_irq_handler huart = elim huart.g_state [
    | busy_tx ↦ do
      huart₁ ← send_one huart
      if huart₁.tx_xfer_count == 0
          then (clear_mie mie_tx_not_full >> pure (record huart₁ { g_state = ready }))
          else pure huart₁
    | _ ↦ pure huart
  ]

module _ {G : Type 0} (hw : Hardware) where
  -- The outer loop of `UART_Transmit`, with `n` rounds at most: a round may find no room.
  unfoldable pub transmit_rounds : ℕ → ℕ → FifoHandle → ℕ → Cmd G (Unit {0})
  transmit_rounds n zero huart buf = pure tt
  transmit_rounds zero (suc size) huart buf = λ _. none
  transmit_rounds (suc n) (suc size) huart buf = do
    fifo ← load hw (fifo_status huart.instance_addr)
    rest ← fill_fifo (free_spaces fifo) (suc size) huart buf
    transmit_rounds n rest.1 huart rest.0

  unfoldable pub fifo_transmit : FifoHandle → ℕ → ℕ → Cmd G (Unit {0})
  fifo_transmit huart buf size = transmit_rounds hw.polls size huart buf

  -- The inner loop of `UART_Receive`: as many bytes as the FIFO holds, whatever the size.
  unfoldable pub drain_fifo : ℕ → ℕ → FifoHandle → ℕ → Cmd G (ℕ × ℕ)
  drain_fifo zero size huart buf = pure (buf, size)
  drain_fifo (suc n) size huart buf = do
    v ← load hw (fifo_rx_data huart.instance_addr)
    poke buf (u8 v)
    drain_fifo n (pred16 size) huart (next buf)

  unfoldable pub receive_rounds : ℕ → ℕ → FifoHandle → ℕ → Cmd G (Unit {0})
  receive_rounds n zero huart buf = pure tt
  receive_rounds zero (suc size) huart buf = λ _. none
  receive_rounds (suc n) (suc size) huart buf = do
    fifo ← load hw (fifo_status huart.instance_addr)
    rest ← drain_fifo (valid_data fifo) (suc size) huart buf
    receive_rounds n rest.1 huart rest.0

  unfoldable pub fifo_receive : FifoHandle → ℕ → ℕ → Cmd G (Unit {0})
  fifo_receive huart buf size = receive_rounds hw.polls size huart buf

  -- One byte of a receive handler, with the pointer and the count moved on.
  unfoldable pub receive_one : FifoHandle → Cmd G FifoHandle
  receive_one huart = do
    v ← load hw (fifo_rx_data huart.instance_addr)
    poke huart.rx_buff_ptr (u8 v)
    pure (record huart {
      rx_buff_ptr = next huart.rx_buff_ptr;
      rx_xfer_count = pred16 huart.rx_xfer_count;
    })

  unfoldable pub rx_half_full_loop : ℕ → FifoHandle → Cmd G FifoHandle
  rx_half_full_loop zero huart = pure huart
  rx_half_full_loop (suc n) huart = do
    huart₁ ← receive_one huart
    huart₂ ←
        if huart₁.rx_xfer_count == 0
        then (clear_mie mie_rx_half_full >> pure (record huart₁ { rx_state = ready }))
        else pure huart₁
    rx_half_full_loop n huart₂

  unfoldable pub rx_half_full_irq_handler : FifoHandle → Cmd G FifoHandle
  rx_half_full_irq_handler huart = elim huart.rx_state [
    | busy_rx ↦
        rx_half_full_loop
          (if ltb huart.rx_xfer_count half_fifo_len then u8 huart.rx_xfer_count else half_fifo_len)
          huart
    | _ ↦ pure huart
  ]

  -- `huart->RxState == UART_STATE_READY;` is a comparison: the state is not set.
  unfoldable pub fifo_rx_not_empty_irq_handler : FifoHandle → Cmd G FifoHandle
  fifo_rx_not_empty_irq_handler huart = elim huart.rx_state [
    | busy_rx ↦ do
      huart₁ ← receive_one huart
      if huart₁.rx_xfer_count == 0 then (clear_mie mie_rx_not_empty >> pure huart₁) else pure huart₁
    | _ ↦ pure huart
  ]
