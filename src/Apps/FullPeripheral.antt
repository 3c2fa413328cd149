-- ===== src/Apps/FullPeripheral.antt =====
-- The test of all peripherals, sw/ibex/other_test/full_peripheral_v2/core: the states of inc/test.h,
-- the loop and the callbacks of src/main.c, and the interrupt entries of src/int.c. Its drivers are
-- copies of those in I2c, Uart and Timer; its GPIO is used by its registers.
pub mod Order
pub mod Verdict
pub mod Eeprom
use mlab_mcu_edu.Prelude.{
  ℕ, ◌+◌, ◌*◌, ◌/◌, ◌^◌, Option, none, some, true, false, ◌==◌, if◌then◌else◌, is_clear, bit_or,
  u32,
}
use mlab_mcu_edu.Machine.{
  Hardware, Cmd, pure, ◌>>=◌, ◌>>◌, load, store, update, peek, get_app, put_app,
}
use mlab_mcu_edu.Gpio.{gpio_base_addr, gpio_out, gpio_oe, gpio_inte, gpio_ctrl, gpio_ints}
use mlab_mcu_edu.Timer.{
  timer_base_addr, timer_init, timer_ack_intrq, timer_clear_ctrl, timer_set, timer_en,
}
use mlab_mcu_edu.I2c.{I2cHandle}
use mlab_mcu_edu.I2c.Blocking.{i2c_init, master_transmit, master_receive}
use mlab_mcu_edu.Uart.{UartHandle, uart_init, tx_enable, rx_enable, tx_disable}
use mlab_mcu_edu.Uart.Interrupt.{
  uart_transmit_it, tx_not_full_irq_handler, rx_not_empty_irq_handler,
}

-- `enum TEST_STATE`
pub data TestState : Type 0 where
  test_start wait_gpio_8_irq set_gpio_0 set_timer wait_timer_irq set_gpio_1 : TestState
  i2c_write_to_eeprom set_gpio_2 i2c_read_from_eeprom set_gpio_3 check_rw_data : TestState
  set_gpio_4 uart_tx uart_tx_wait_cplt uart_tx_cplt set_gpio_5 uart_rx set_gpio_6 : TestState
  finish : TestState

-- The globals of main.c, and the shadow of the timer's control register.
pub record Globals : Type 0 where
  pub gpio_int_status : ℕ
  pub timer_int_status : ℕ
  pub uart_tx_cmpl_callback : ℕ
  pub timer_shadow : ℕ
  pub huart : UartHandle

-- `UART_BAUD_INTERVAL`
abbrev pub uart_baud_interval : ℕ → ℕ → ℕ
uart_baud_interval cpu_freq baudrate = cpu_freq * 1_000_000 / baudrate

-- A state's commands, then the next state.
abbrev pub go_on : {G : Type 0} → Cmd G (Unit {0}) → TestState → Cmd G (Option TestState)
go_on c s = c >>= λ _. pure (some s)

abbrev pub set_shadow_to : ℕ → Cmd Globals (Unit {0})
set_shadow_to shadow = do g ← get_app; put_app (record g { timer_shadow = shadow })

module _ (hw : Hardware) where
  -- `GPIO->OE |= pin; GPIO->OUT |= pin;`
  abbrev pub drive_pin : ℕ → Cmd Globals (Unit {0})
  drive_pin pin = do
    update hw (gpio_oe gpio_base_addr) (λ v. bit_or v pin)
    update hw (gpio_out gpio_base_addr) (λ v. bit_or v pin)

  -- `gpio_handler`, from `GPIO_IRQHandler`.
  unfoldable pub gpio_handler : Cmd Globals (Unit {0})
  gpio_handler = do
    status ← load hw (gpio_ints gpio_base_addr)
    g ← get_app
    put_app (record g { gpio_int_status = status })
    store (gpio_ints gpio_base_addr) 0

  -- `TIMER_IRQHandler`, which initialises the timer before it acknowledges the interrupt.
  unfoldable pub timer_irq_handler : Cmd Globals (Unit {0})
  timer_irq_handler = do
    t ← timer_init
    set_shadow_to t.1
    timer_ack_intrq t.0
    g ← get_app
    put_app (record g { timer_int_status = 1 })

  -- `UART_TxCpltCallback` and `UART_RxCpltCallback`
  abbrev pub tx_cplt_callback : UartHandle → Cmd Globals UartHandle
  tx_cplt_callback huart = do
    g ← get_app
    put_app (record g { uart_tx_cmpl_callback = 1 })
    pure huart

  abbrev pub rx_cplt_callback : UartHandle → Cmd Globals UartHandle
  rx_cplt_callback = pure

  -- `UART_TX_NOT_FULL_IRQHandler` and `UART_RX_NOT_EMPTY_IRQHandler`
  unfoldable pub uart_tx_irq_handler : Cmd Globals (Unit {0})
  uart_tx_irq_handler = do
    g ← get_app
    huart ← tx_not_full_irq_handler hw tx_cplt_callback g.huart
    g' ← get_app
    put_app (record g' { huart = huart })

  unfoldable pub uart_rx_irq_handler : Cmd Globals (Unit {0})
  uart_rx_irq_handler = do
    g ← get_app
    huart ← rx_not_empty_irq_handler hw rx_cplt_callback g.huart
    g' ← get_app
    put_app (record g' { huart = huart })

  -- `main` up to its loop: timer, I2C core and UART are initialised, and the UART is turned on.
  unfoldable pub test_setup : I2cHandle → Cmd Globals I2cHandle
  test_setup i2c₀ = do
    t ← timer_init
    set_shadow_to t.1
    i2c ← i2c_init hw i2c₀ 0x3000_0000 400 80
    g ← get_app
    huart ← uart_init (record (g.huart) {
      init = record {
        baud_rate = uart_baud_interval 80 115200;
        word_length = 0;
        stop_bits = 0;
        parity = 0;
        parity_mode = 0;
        parity_lock = 0;
      };
    })
    put_app (record g { huart = huart })
    tx_enable hw huart
    rx_enable hw huart
    pure i2c

  -- The I2C handle and the buffers are locals of `main`, `uart_tx_buf` a global.
  module _ (i2c : I2cHandle) (test_write_data test_read_data uart_tx_buf : ℕ) where
    abbrev pub i2c_dev_addr : ℕ
    i2c_dev_addr = 0xA0

    unfoldable pub i2c_write : Cmd Globals (Unit {0})
    i2c_write = do
      master_transmit hw i2c i2c_dev_addr test_write_data 4
      master_transmit hw i2c i2c_dev_addr test_write_data 2

    unfoldable pub start_timer : Cmd Globals (Unit {0})
    start_timer = do
      g ← get_app
      shadow ← timer_set timer_base_addr g.timer_shadow 0x400 0
      shadow' ← timer_en timer_base_addr shadow
      set_shadow_to shadow'

    unfoldable pub stop_timer : Cmd Globals (Unit {0})
    stop_timer = do
      g ← get_app
      put_app (record g { timer_int_status = 0 })
      shadow ← timer_clear_ctrl timer_base_addr
      set_shadow_to shadow

    unfoldable pub start_uart : Cmd Globals (Unit {0})
    start_uart = do
      g ← get_app
      huart ← uart_transmit_it hw g.huart uart_tx_buf 38
      put_app (record g { huart = huart })

    -- Whether the bytes read are those written, past the two bytes of the address.
    unfoldable pub check_data : Cmd Globals (Option TestState)
    check_data = do
      w₀ ← peek (u32 (test_write_data + 2))
      r₀ ← peek test_read_data
      w₁ ← peek (u32 (test_write_data + 3))
      r₁ ← peek (u32 (test_read_data + 1))
      pure (if w₀ == r₀ then if w₁ == r₁ then some set_gpio_4 else none else none)

    -- One round of the loop of `main`: the next state, or none where the source loops for ever.
    unfoldable pub step : TestState → Cmd Globals (Option TestState)
    step test_start =
        go_on (store (gpio_inte gpio_base_addr) (2 ^ 8) >> store (gpio_ctrl gpio_base_addr) 1)
          wait_gpio_8_irq
    step wait_gpio_8_irq = do
      g ← get_app
      if is_clear g.gpio_int_status (2 ^ 8)
          then pure (some wait_gpio_8_irq)
          else go_on
              (put_app (record g { gpio_int_status = 0 }) >> store (gpio_ctrl gpio_base_addr) 0)
              set_gpio_0
    step set_gpio_0 =
        go_on (store (gpio_oe gpio_base_addr) (2 ^ 2) >> store (gpio_out gpio_base_addr) (2 ^ 2))
          set_timer
    step set_timer = go_on start_timer wait_timer_irq
    step wait_timer_irq = do
      g ← get_app
      if g.timer_int_status == 0 then pure (some wait_timer_irq) else go_on stop_timer set_gpio_1
    step set_gpio_1 = go_on (drive_pin (2 ^ 3)) i2c_write_to_eeprom
    step i2c_write_to_eeprom = go_on i2c_write set_gpio_2
    step set_gpio_2 = go_on (drive_pin (2 ^ 4)) i2c_read_from_eeprom
    step i2c_read_from_eeprom =
        go_on (master_receive hw i2c i2c_dev_addr test_read_data 2) set_gpio_3
    step set_gpio_3 = go_on (drive_pin (2 ^ 5)) check_rw_data
    step check_rw_data = check_data
    step set_gpio_4 = go_on (drive_pin (2 ^ 6)) uart_tx
    step uart_tx = go_on start_uart uart_tx_wait_cplt
    step uart_tx_wait_cplt = do
      g ← get_app
      if g.uart_tx_cmpl_callback == 0
          then pure (some uart_tx_wait_cplt)
          else go_on (tx_disable hw g.huart) uart_tx_cplt
    step uart_tx_cplt = go_on (drive_pin (2 ^ 7)) finish
    step set_gpio_5 = pure none
    step uart_rx = pure none
    step set_gpio_6 = pure none
    step finish = pure none
