-- ===== src/Apps/Peripherals.antt =====
-- The first test of the peripherals, sw/ibex/test/full_peripheral/core/src: main.c and the entries of
-- int.c. Its loop is that of FullPeripheral with other pins and no UART. It has the same states up to
-- the check of the data, the same globals but those of the UART, which stay unused here, and the same
-- helpers; its GPIO and timer handlers are the same text.
pub mod Rounds
pub mod Traffic
pub mod Verdict
use mlab_mcu_edu.Prelude.{ℕ, ◌^◌, Option, none, some, List, [], ◌∷◌, ◌==◌, if◌then◌else◌, is_clear}
use mlab_mcu_edu.Machine.{Hardware, Cmd, pure, ◌>>=◌, ◌>>◌, store, get_app, put_app}
use mlab_mcu_edu.Gpio.{gpio_base_addr, gpio_out, gpio_oe, gpio_inte, gpio_ctrl}
use mlab_mcu_edu.I2c.{I2cHandle}
use mlab_mcu_edu.I2c.Blocking.{i2c_init, master_receive}
use mlab_mcu_edu.Timer.{timer_init}
use mlab_mcu_edu.Apps.FullPeripheral.{
  TestState, test_start, wait_gpio_8_irq, set_gpio_0, set_timer, wait_timer_irq, set_gpio_1,
  i2c_write_to_eeprom, set_gpio_2, i2c_read_from_eeprom, set_gpio_3, check_rw_data, set_gpio_4,
  finish, Globals, go_on, drive_pin, i2c_write, start_timer, stop_timer, check_data, set_shadow_to,
  gpio_handler, timer_irq_handler,
}

-- A round of the loop, or an interrupt before the next one: that of the GPIO, that of the timer, or
-- one of the others, whose entries loop for ever.
pub data PeripheralsEvent : Type 0 where
  round gpio_irq timer_irq other_irq : PeripheralsEvent

-- `main` up to its loop: timer and I2C core are initialised. `GPIO_init` is an address.
unfoldable pub peripherals_setup : Hardware → I2cHandle → Cmd Globals I2cHandle
peripherals_setup hw i2c₀ = do
  t ← timer_init
  set_shadow_to t.1
  i2c_init hw i2c₀ 0x3000_0000 400 80

module _ (hw : Hardware) (i2c : I2cHandle) (test_write_data test_read_data unused : ℕ) where
  -- One round of the loop of `main`: the next state, or none where the source loops for ever.
  unfoldable pub peripherals_step : TestState → Cmd Globals (Option TestState)
  peripherals_step test_start =
      go_on (store (gpio_inte gpio_base_addr) (2 ^ 8) >> store (gpio_ctrl gpio_base_addr) 1)
        wait_gpio_8_irq
  peripherals_step wait_gpio_8_irq = do
    g ← get_app
    if is_clear g.gpio_int_status (2 ^ 8)
        then pure (some wait_gpio_8_irq)
        else go_on
            (put_app (record g { gpio_int_status = 0 }) >> store (gpio_ctrl gpio_base_addr) 0)
            set_gpio_0
  peripherals_step set_gpio_0 =
      go_on (store (gpio_oe gpio_base_addr) 1 >> store (gpio_out gpio_base_addr) 1) set_timer
  peripherals_step set_timer =
      go_on (start_timer hw i2c test_write_data test_read_data unused) wait_timer_irq
  peripherals_step wait_timer_irq = do
    g ← get_app
    if g.timer_int_status == 0
        then pure (some wait_timer_irq)
        else go_on (stop_timer hw i2c test_write_data test_read_data unused) set_gpio_1
  peripherals_step set_gpio_1 = go_on (drive_pin hw (2 ^ 1)) i2c_write_to_eeprom
  peripherals_step i2c_write_to_eeprom =
      go_on (i2c_write hw i2c test_write_data test_read_data unused) set_gpio_2
  peripherals_step set_gpio_2 = go_on (drive_pin hw (2 ^ 2)) i2c_read_from_eeprom
  peripherals_step i2c_read_from_eeprom =
      go_on (master_receive hw i2c 0xA0 test_read_data 2) set_gpio_3
  peripherals_step set_gpio_3 = go_on (drive_pin hw (2 ^ 3)) check_rw_data
  peripherals_step check_rw_data = check_data hw i2c test_write_data test_read_data unused
  peripherals_step set_gpio_4 = go_on (drive_pin hw (2 ^ 4)) finish
  peripherals_step _ = pure none

  unfoldable pub peripherals_event : PeripheralsEvent → TestState → Cmd Globals (Option TestState)
  peripherals_event round s = peripherals_step s
  peripherals_event gpio_irq s = go_on (gpio_handler hw) s
  peripherals_event timer_irq s = go_on (timer_irq_handler hw) s
  peripherals_event other_irq s = pure none

  -- Events from a state on, as far as there is a next state.
  unfoldable pub peripherals_run :
      List PeripheralsEvent → TestState → Cmd Globals (Option TestState)
  peripherals_run [] s = pure (some s)
  peripherals_run (e ∷ es) s = do
    next ← peripherals_event e s
    elim next [ none ↦ pure none | some s' ↦ peripherals_run es s' ]

module _ (hw : Hardware) (test_write_data test_read_data unused : ℕ) where
  -- `main`, with the events of its loop.
  unfoldable pub peripherals_main :
      I2cHandle → List PeripheralsEvent → Cmd Globals (Option TestState)
  peripherals_main i2c₀ es = do
    i2c ← peripherals_setup hw i2c₀
    peripherals_run hw i2c test_write_data test_read_data unused es test_start
