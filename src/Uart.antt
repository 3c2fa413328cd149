-- ===== src/Uart.antt =====
-- The UART driver for the peripheral without FIFOs, sw/ibex/other_test/uart_no_fifo/core/src/uart.c
-- and inc/uart.h (the copies in test/uart_simple and other_test/full_peripheral_v2 are the same
-- files). The blocking and the interrupt-driven transfers are in modules of their own.
pub mod Blocking
pub mod Interrupt
use mlab_mcu_edu.Prelude.{
  ℕ, zero, suc, ◌+◌, ◌-◌, ◌*◌, ◌^◌, true, false, none, ◌==◌, ◌||◌, if◌then◌else◌, not32, u8, u16,
  u32, is_clear, bit_and, bit_or,
}
use mlab_mcu_edu.Machine.{
  Hardware, Cmd, pure, ◌>>=◌, ◌>>◌, load, store, update, peek, poke, next, wait_clear,
}

abbrev pub uart_base_addr : ℕ
uart_base_addr = 0x5000_0000

abbrev pub uart_setup_baud_mask : ℕ
uart_setup_baud_mask = 0xFF_FFFF

-- The registers of `UART_reg_map_t`, from the address of the first.
abbrev pub uart_setup : ℕ → ℕ
uart_setup r = r

abbrev pub uart_control : ℕ → ℕ
uart_control r = r + 4

abbrev pub uart_rx_data : ℕ → ℕ
uart_rx_data r = r + 8

abbrev pub uart_tx_data : ℕ → ℕ
uart_tx_data r = r + 12

-- Bits of the control register.
abbrev pub uart_tx_rst : ℕ
uart_tx_rst = 2 ^ 5

abbrev pub uart_tx_int_en : ℕ
uart_tx_int_en = 2 ^ 4

abbrev pub uart_tx_en : ℕ
uart_tx_en = 2 ^ 3

abbrev pub uart_rx_rst : ℕ
uart_rx_rst = 2 ^ 2

abbrev pub uart_rx_int_en : ℕ
uart_rx_int_en = 2 ^ 1

abbrev pub uart_rx_en : ℕ
uart_rx_en = 2 ^ 0

-- Bit 8 of the receive register. It is set when a byte is there, in spite of its name.
abbrev pub uart_rx_empty : ℕ
uart_rx_empty = 2 ^ 8

-- Bit 9 of the transmit register.
abbrev pub uart_tx_busy : ℕ
uart_tx_busy = 2 ^ 9

-- `UART_InitTypeDef`
pub record UartInit : Type 0 where
  pub baud_rate : ℕ
  pub word_length : ℕ
  pub stop_bits : ℕ
  pub parity : ℕ
  pub parity_mode : ℕ
  pub parity_lock : ℕ

-- `UART_StateTypeDef`
pub data UartState : Type 0 where
  reset ready busy busy_tx busy_rx busy_tx_rx timeout error : UartState

-- `UART_HandleTypeDef`
pub record UartHandle : Type 0 where
  pub instance_addr : ℕ
  pub init : UartInit
  pub tx_buff_ptr : ℕ
  pub tx_xfer_size : ℕ
  pub tx_xfer_count : ℕ
  pub rx_buff_ptr : ℕ
  pub rx_xfer_size : ℕ
  pub rx_xfer_count : ℕ
  pub g_state : UartState
  pub rx_state : UartState

-- `--` on a `uint16_t`.
abbrev pub pred16 : ℕ → ℕ
pred16 n = u16 (n + 2 ^ 16 - 1)

-- `a << k` on a `uint32_t`, and the word that `UART_Init` writes to the setup register.
abbrev pub shl32 : ℕ → ℕ → ℕ
shl32 a k = u32 (a * 2 ^ k)

unfoldable pub setup_word : UartInit → ℕ
setup_word i =
    bit_or
      (bit_or
        (bit_or
          (bit_or (bit_or (bit_and i.baud_rate uart_setup_baud_mask) (shl32 i.parity_mode 24))
            (shl32 i.parity_lock 25))
          (shl32 i.parity 26))
        (shl32 i.stop_bits 27))
      (shl32 i.word_length 28)

module _ {G : Type 0} where
  unfoldable pub uart_init : UartHandle → Cmd G UartHandle
  uart_init huart = elim huart.g_state [
    | reset ↦ do
      store (uart_setup uart_base_addr) (setup_word huart.init)
      pure (record huart { instance_addr = uart_base_addr; g_state = ready; rx_state = ready })
    | _ ↦ pure huart
  ]

module _ {G : Type 0} (hw : Hardware) where
  unfoldable pub tx_enable : UartHandle → Cmd G (Unit {0})
  tx_enable huart = elim huart.g_state [
    | ready ↦ update hw (uart_control huart.instance_addr) (λ v. bit_or v uart_tx_en)
    | _ ↦ pure tt
  ]

  unfoldable pub tx_disable : UartHandle → Cmd G (Unit {0})
  tx_disable huart = elim huart.g_state [
    | ready ↦ update hw (uart_control huart.instance_addr) (λ v. bit_and v (not32 uart_tx_en))
    | _ ↦ pure tt
  ]

  unfoldable pub tx_reset : UartHandle → Cmd G (Unit {0})
  tx_reset huart = update hw (uart_control huart.instance_addr) (λ v. bit_or v uart_tx_rst)

  unfoldable pub rx_enable : UartHandle → Cmd G (Unit {0})
  rx_enable huart = elim huart.rx_state [
    | ready ↦ update hw (uart_control huart.instance_addr) (λ v. bit_or v uart_rx_en)
    | _ ↦ pure tt
  ]

  unfoldable pub rx_disable : UartHandle → Cmd G (Unit {0})
  rx_disable huart = elim huart.rx_state [
    | ready ↦ update hw (uart_control huart.instance_addr) (λ v. bit_and v (not32 uart_rx_en))
    | _ ↦ pure tt
  ]

  unfoldable pub rx_reset : UartHandle → Cmd G (Unit {0})
  rx_reset huart = update hw (uart_control huart.instance_addr) (λ v. bit_or v uart_rx_rst)
