-- ===== src/Uart/Interrupt.antt =====
-- The interrupt-driven transfers of sw/ibex/other_test/uart_no_fifo/core/src/uart.c.
pub mod Transmission
pub mod Reception
pub mod Restart
pub mod Duplex
use mlab_mcu_edu.Prelude.{ℕ, ◌^◌, ◌==◌, ◌||◌, if◌then◌else◌, not32, u8, bit_and, bit_or}
use mlab_mcu_edu.Machine.{Hardware, Cmd, pure, ◌>>=◌, ◌>>◌, load, store, update, peek, poke, next}
use mlab_mcu_edu.Uart.{
  UartHandle, ready, busy_tx, busy_rx, uart_control, uart_rx_data, uart_tx_data, uart_tx_int_en,
  uart_rx_int_en, pred16,
}

-- A completion callback of the application.
abbrev pub Callback : Type 0 → Type 0
Callback G = UartHandle → Cmd G UartHandle

module _ {G : Type 0} (hw : Hardware) where
  unfoldable pub uart_transmit_it : UartHandle → ℕ → ℕ → Cmd G UartHandle
  uart_transmit_it huart buf size = elim huart.g_state [
    | ready ↦ if buf == 0 || size == 0 then pure huart else do
      update hw (uart_control huart.instance_addr) (λ v. bit_or v uart_tx_int_en)
      pure (record huart {
        tx_buff_ptr = buf;
        tx_xfer_size = size;
        tx_xfer_count = size;
        g_state = busy_tx;
      })
    | _ ↦ pure huart
  ]

  -- A null pointer and a size of 0 are let through.
  unfoldable pub uart_receive_it : UartHandle → ℕ → ℕ → Cmd G UartHandle
  uart_receive_it huart buf size = elim huart.rx_state [
    | ready ↦ do
      update hw (uart_control huart.instance_addr) (λ v. bit_or v (2 ^ 1))
      pure (record huart {
        rx_buff_ptr = buf;
        rx_xfer_size = size;
        rx_xfer_count = size;
        rx_state = busy_rx;
      })
    | _ ↦ pure huart
  ]

  -- The part of the receive handler that the last byte runs: the state is set after the callback.
  unfoldable pub rx_complete : Callback G → UartHandle → Cmd G UartHandle
  rx_complete rx_cplt huart = do
    update hw (uart_control huart.instance_addr) (λ v. bit_and v (not32 uart_rx_int_en))
    huart' ← rx_cplt huart
    pure (record huart' { rx_state = ready })

  unfoldable pub rx_not_empty_irq_handler : Callback G → UartHandle → Cmd G UartHandle
  rx_not_empty_irq_handler rx_cplt huart = elim huart.rx_state [
    | busy_rx ↦ do
      v ← load hw (uart_rx_data huart.instance_addr)
      poke huart.rx_buff_ptr (u8 v)
      huart' ← if huart.rx_xfer_count == 1 then rx_complete rx_cplt huart else pure huart
      pure (record huart' {
        rx_buff_ptr = next huart'.rx_buff_ptr;
        rx_xfer_count = pred16 huart'.rx_xfer_count;
      })
    | _ ↦ pure huart
  ]

  -- The two branches of the transmit handler on the count.
  unfoldable pub tx_complete : Callback G → UartHandle → Cmd G UartHandle
  tx_complete tx_cplt huart = do
    update hw (uart_control huart.instance_addr) (λ v. bit_and v (not32 uart_tx_int_en))
    tx_cplt (record huart { g_state = ready })

  unfoldable pub tx_byte : UartHandle → Cmd G UartHandle
  tx_byte huart = do
    byte ← peek huart.tx_buff_ptr
    store (uart_tx_data huart.instance_addr) byte
    pure huart

  unfoldable pub tx_not_full_irq_handler : Callback G → UartHandle → Cmd G UartHandle
  tx_not_full_irq_handler tx_cplt huart = elim huart.g_state [
    | busy_tx ↦ do
      huart' ← if huart.tx_xfer_count == 0 then tx_complete tx_cplt huart else tx_byte huart
      pure (record huart' {
        tx_buff_ptr = next huart'.tx_buff_ptr;
        tx_xfer_count = pred16 huart'.tx_xfer_count;
      })
    | _ ↦ pure huart
  ]
