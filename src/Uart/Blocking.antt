-- ===== src/Uart/Blocking.antt =====
-- The transfers of sw/ibex/other_test/uart_no_fifo/core/src/uart.c that wait for the peripheral.
pub mod Transmission
pub mod Reception
pub mod Unheard
use mlab_mcu_edu.Prelude.{
  ℕ, zero, suc, true, false, none, ◌==◌, ◌||◌, if◌then◌else◌, u8, u16, is_clear,
}
use mlab_mcu_edu.Machine.{
  Hardware, Cmd, pure, ◌>>=◌, ◌>>◌, load, store, peek, poke, next, wait_clear,
}
use mlab_mcu_edu.Uart.{UartHandle, ready, uart_rx_data, uart_tx_data, uart_rx_empty, uart_tx_busy}

module _ {G : Type 0} (hw : Hardware) where
  -- The loop of `UART_Transmit`, which tests the busy bit before each byte: the wait for a byte
  -- polls until the bit is clear.
  unfoldable pub transmit_bytes : ℕ → UartHandle → ℕ → Cmd G (Unit {0})
  transmit_bytes zero huart buf = pure tt
  transmit_bytes (suc n) huart buf = do
    wait_clear hw (uart_tx_data huart.instance_addr) uart_tx_busy
    byte ← peek buf
    store (uart_tx_data huart.instance_addr) byte
    transmit_bytes n huart (next buf)

  -- `UART_Transmit` past its guards.
  unfoldable pub transmit : UartHandle → ℕ → ℕ → Cmd G (Unit {0})
  transmit huart buf size = do
    transmit_bytes size huart buf
    wait_clear hw (uart_tx_data huart.instance_addr) uart_tx_busy

  -- `NULL` is the pointer 0.
  unfoldable pub uart_transmit : UartHandle → ℕ → ℕ → Cmd G (Unit {0})
  uart_transmit huart buf size = elim huart.g_state [
    | ready ↦ if buf == 0 || size == 0 then pure tt else transmit huart buf size
    | _ ↦ pure tt
  ]

  -- One wait of `UART_Receive`: the receive register, once it shows a byte, of `n` reads at most.
  unfoldable pub receive_byte : ℕ → UartHandle → Cmd G ℕ
  receive_byte zero huart = λ _. none
  receive_byte (suc n) huart = do
    v ← load hw (uart_rx_data huart.instance_addr)
    elim (is_clear (u16 v) uart_rx_empty) [ true ↦ receive_byte n huart | false ↦ pure (u16 v) ]

  unfoldable pub uart_receive : ℕ → UartHandle → ℕ → Cmd G (Unit {0})
  uart_receive zero huart buf = pure tt
  uart_receive (suc n) huart buf = do
    v ← receive_byte hw.polls huart
    poke buf (u8 v)
    uart_receive n huart (next buf)
