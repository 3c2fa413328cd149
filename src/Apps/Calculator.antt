-- ===== src/Apps/Calculator.antt =====
-- The calculator of sw/ibex/test/uart_simple/core/src/main.c: a round of the loop of `main`, which asks
-- for two numbers of one digit and an operation over the UART and prints the result. `atoi` and `itoa` are
-- newlib's and parameters: the value that a text in memory starts with, and the bytes of the text of a
-- 32-bit value, its 0 at the end included.
pub mod Talk
pub mod Round
use mlab_mcu_edu.Prelude.{
  ℕ, ◌+◌, ◌-◌, ◌^◌, List, [], ◌∷◌, true, false, none, some, ◌==◌, ltb, if◌then◌else◌, u8, u32,
  bit_or,
}
use mlab_mcu_edu.Machine.{Hardware, Machine, Cmd, pure, ◌>>=◌, ◌>>◌, peek, update}
use mlab_mcu_edu.Machine.Buffers.{fill}
use mlab_mcu_edu.Gpio.{GpioHandle, gpio_init, gpio_aux, gpio_oe}
use mlab_mcu_edu.Uart.{UartHandle, uart_init, tx_enable, rx_enable}
use mlab_mcu_edu.Apps.FullPeripheral.{uart_baud_interval}
use mlab_mcu_edu.Uart.Blocking.{uart_transmit, uart_receive}

-- What the program takes from newlib, and what `ans` and the stack hold before they are assigned.
pub record Newlib : Type 0 where
  pub atoi : (ℕ → ℕ) → ℕ → ℕ
  pub itoa : ℕ → List ℕ

-- The addresses of the texts, of `receive` and of `toPrint`.
pub record Addresses : Type 0 where
  pub enter_1st : ℕ
  pub entered : ℕ
  pub enter_2nd : ℕ
  pub enter_operation : ℕ
  pub result : ℕ
  pub receive : ℕ
  pub to_print : ℕ

-- `int8_t` to `int`, as a 32-bit word.
abbrev pub sign_extend : ℕ → ℕ
sign_extend b = if ltb b (2 ^ 7) then b else b + (2 ^ 32 - 2 ^ 8)

-- `ans`: for another operation it is not assigned, and what it holds is `junk`.
unfoldable pub answer : (junk op num1 num2 : ℕ) → ℕ
answer junk op num1 num2 =
    if op == 0x2B
    then u8 (num1 + num2)
    else if op == 0x2D
    then u8 (num1 + 2 ^ 8 - num2)
    else u8 junk

module _ {G : Type 0} (hw : Hardware) (lib : Newlib) (at : Addresses) (huart : UartHandle) where
  -- The four calls that ask for a byte.
  unfoldable pub ask : ℕ → ℕ → Cmd G (Unit {0})
  ask prompt size = do
    uart_transmit hw huart prompt size
    uart_receive hw 1 huart at.receive
    uart_transmit hw huart at.entered 8
    uart_transmit hw huart at.receive 1

  -- `atoi(receive)` in a `uint8_t`.
  unfoldable pub number : Cmd G ℕ
  number m = some (u8 (lib.atoi m.mem at.receive), m)

  -- `itoa(ans, toPrint, 10)`
  unfoldable pub print : ℕ → Cmd G (Unit {0})
  print ans m = some (tt, record m { mem = fill m.mem at.to_print (lib.itoa (sign_extend ans)) })

  unfoldable pub calculator_round : ℕ → Cmd G (Unit {0})
  calculator_round junk = do
    ask at.enter_1st 18
    num1 ← number
    ask at.enter_2nd 18
    num2 ← number
    ask at.enter_operation 17
    uart_transmit hw huart at.result 8
    op ← peek at.receive
    print (answer junk op num1 num2)
    uart_transmit hw huart at.to_print 3

-- `main` up to its loop: the UART is set up and turned on, and its output is put on pin 1.
module _ {G : Type 0} (hw : Hardware) where
  unfoldable pub calculator_setup : GpioHandle → UartHandle → ℕ → Cmd G (GpioHandle × UartHandle)
  calculator_setup gpio₀ huart₀ transmit = do
    let gpio = gpio_init gpio₀
    huart ← uart_init (record huart₀ {
      init = record {
        baud_rate = uart_baud_interval 80 115200;
        word_length = 0;
        stop_bits = 0;
        parity = 0;
        parity_mode = 0;
        parity_lock = 0;
      };
    })
    tx_enable hw huart
    rx_enable hw huart
    update hw (gpio_aux gpio.regs) (λ v. bit_or v (2 ^ 1))
    update hw (gpio_oe gpio.regs) (λ v. bit_or v (2 ^ 1))
    uart_transmit hw huart transmit 13
    pure (gpio, huart)
