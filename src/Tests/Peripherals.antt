-- ===== src/Tests/Peripherals.antt =====
-- The first test of the peripherals, run with its interrupts.
use mlab_mcu_edu.Prelude.{◌≡◌, refl, Option, none, some, List, ◌∷◌, replicate, ◌==◌, if◌then◌else◌}
use mlab_mcu_edu.Machine.{Hardware, Machine, poll_clear, wait_clear}
use mlab_mcu_edu.Uart.{reset}
use mlab_mcu_edu.Timer.{
  timer_init, timer_set, timer_en, timer_ack_intrq, timer_clear_ctrl, set_shadow,
}
use mlab_mcu_edu.I2c.{prescale}
use mlab_mcu_edu.I2c.Blocking.{
  i2c_init, master_receive, master_transmit, read_byte, receive, receive_data, send_address,
  send_byte, send_data, transmit,
}
use mlab_mcu_edu.Apps.FullPeripheral.{
  TestState, finish, Globals, gpio_handler, timer_irq_handler, start_timer, stop_timer, check_data,
  i2c_write,
}
use mlab_mcu_edu.Apps.FullPeripheral.Verdict.Run.{PoweredUp}
use mlab_mcu_edu.Apps.Peripherals.{
  PeripheralsEvent, round, gpio_irq, timer_irq, peripherals_setup, peripherals_step,
  peripherals_event, peripherals_run, peripherals_main,
}
use mlab_mcu_edu.Apps.FullPeripheral.Eeprom.Setup.{FromEeprom}
use mlab_mcu_edu.Apps.Peripherals.Verdict.{Verified, peripherals_main-Verified}
use mlab_mcu_edu.Tests.Apps.{tested, bus}

-- An EEPROM that answers 0xBC, and pin 8.
abbrev eeprom_board : Hardware
eeprom_board = record {
  value = λ l a. if a == 0x3000_000C then 0xBC else if a == 0x4000_001C then 256 else 0;
  polls = 1;
}

abbrev switched_on : Machine Globals
switched_on = record tested {
  app = record (tested.app) { huart = record (tested.app.huart) { g_state = reset } };
}

switched_on-PoweredUp : PoweredUp switched_on
switched_on-PoweredUp = record { log = refl; gpio = refl; timer = refl; flag = refl; uart = refl }

abbrev test_events : List PeripheralsEvent
test_events =
    round ∷ round ∷ gpio_irq ∷ round ∷ round ∷ round ∷ round ∷ timer_irq ∷ replicate 8 round

abbrev end_of : Option (Option TestState × Machine Globals) → Machine Globals
end_of none = switched_on
end_of (some (s, m)) = m

reaches_finish :
    peripherals_main eeprom_board 16 32 48 bus test_events switched_on
    ≡ some
        (some finish, end_of (peripherals_main eeprom_board 16 32 48 bus test_events switched_on))
unfolding peripherals_main peripherals_run peripherals_event peripherals_setup peripherals_step
    gpio_handler timer_irq_handler start_timer stop_timer check_data i2c_write timer_init timer_set
    timer_en timer_ack_intrq timer_clear_ctrl set_shadow prescale i2c_init master_receive
    master_transmit read_byte receive receive_data send_address send_byte send_data transmit
    poll_clear wait_clear
reaches_finish = refl

peripherals_main-Verified_example :
    Verified 16 32 (end_of (peripherals_main eeprom_board 16 32 48 bus test_events switched_on))
    × FromEeprom
        (switched_on.mem)
        16
        32
        (end_of (peripherals_main eeprom_board 16 32 48 bus test_events switched_on))
peripherals_main-Verified_example =
    peripherals_main-Verified eeprom_board 16 32 48 bus test_events switched_on
      (end_of (peripherals_main eeprom_board 16 32 48 bus test_events switched_on))
      switched_on-PoweredUp reaches_finish
