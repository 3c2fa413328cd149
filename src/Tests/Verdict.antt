-- ===== src/Tests/Verdict.antt =====
-- The test of all peripherals, run with its interrupts.
use mlab_mcu_edu.Prelude.{
  ℕ, ◌≡◌, refl, Option, none, some, List, [], ◌∷◌, ◌++◌, inl, replicate, arith, ◌==◌, if◌then◌else◌,
}
use mlab_mcu_edu.Machine.{Hardware, Machine}
use mlab_mcu_edu.Uart.{reset}
use mlab_mcu_edu.Apps.FullPeripheral.Verdict.{run, event}
use mlab_mcu_edu.Apps.FullPeripheral.{
  test_setup, step, gpio_handler, timer_irq_handler, start_timer, stop_timer, check_data, i2c_write,
  start_uart, uart_rx_irq_handler, uart_tx_irq_handler,
}
use mlab_mcu_edu.Timer.{
  timer_init, timer_set, timer_en, timer_ack_intrq, timer_clear_ctrl, set_shadow,
}
use mlab_mcu_edu.I2c.{prescale}
use mlab_mcu_edu.I2c.Blocking.{
  i2c_init, master_receive, master_transmit, read_byte, receive, receive_data, send_address,
  send_byte, send_data, transmit,
}
use mlab_mcu_edu.Uart.Interrupt.{
  uart_transmit_it, tx_not_full_irq_handler, tx_byte, tx_complete, rx_complete,
  rx_not_empty_irq_handler,
}
use mlab_mcu_edu.Uart.{uart_init, setup_word, tx_enable, rx_enable, tx_disable}
use mlab_mcu_edu.Machine.{poll_clear, wait_clear}
use mlab_mcu_edu.Apps.FullPeripheral.{TestState, finish, Globals}
use mlab_mcu_edu.Apps.FullPeripheral.Verdict.{
  Event, round, gpio_irq, timer_irq, uart_tx_irq, uart_rx_irq, test_main, Passed,
}
use mlab_mcu_edu.Apps.FullPeripheral.Verdict.Run.{PoweredUp}
use mlab_mcu_edu.Apps.FullPeripheral.Eeprom.Setup.{FromEeprom}
use mlab_mcu_edu.Apps.FullPeripheral.Eeprom.Run.{test_main-Passed}
use mlab_mcu_edu.Apps.FullPeripheral.Verdict.Transfers.{heard}
use mlab_mcu_edu.Apps.FullPeripheral.Verdict.Completion.{matches, whole_test, test_main-decides}
use mlab_mcu_edu.Tests.Apps.{tested, bus}

-- An EEPROM that answers 0xBC, and pin 8.
abbrev board : Hardware
board = record {
  value = λ l a. if a == 0x3000_000C then 0xBC else if a == 0x4000_001C then 256 else 0;
  polls = 1;
}

abbrev powered : Machine Globals
powered = record tested {
  app = record (tested.app) { huart = record (tested.app.huart) { g_state = reset } };
}

powered_up : PoweredUp powered
powered_up = record { log = refl; gpio = refl; timer = refl; flag = refl; uart = refl }

abbrev schedule : List Event
schedule =
    round
    ∷ round
    ∷ gpio_irq
    ∷ round
    ∷ round
    ∷ round
    ∷ round
    ∷ timer_irq
    ∷ (replicate 9 round
        ++ (uart_rx_irq ∷ round ∷ (replicate 39 uart_tx_irq ++ (round ∷ round ∷ []))))

abbrev machine_of : Option (Option TestState × Machine Globals) → Machine Globals
machine_of none = powered
machine_of (some (s, m)) = m

passes :
    test_main board 16 32 48 bus schedule powered
    ≡ some (some finish, machine_of (test_main board 16 32 48 bus schedule powered))
unfolding test_main run event test_setup step gpio_handler timer_irq_handler start_timer stop_timer
    check_data i2c_write start_uart uart_rx_irq_handler uart_tx_irq_handler timer_init timer_set
    timer_en timer_ack_intrq timer_clear_ctrl set_shadow prescale i2c_init master_receive
    master_transmit read_byte receive receive_data send_address send_byte send_data transmit
    uart_transmit_it tx_not_full_irq_handler tx_byte tx_complete rx_complete
    rx_not_empty_irq_handler uart_init setup_word tx_enable rx_enable tx_disable poll_clear
    wait_clear
passes = refl

test_main-Passed_example :
    Passed 16 32 48 (machine_of (test_main board 16 32 48 bus schedule powered))
    × FromEeprom (powered.mem) 16 32 (machine_of (test_main board 16 32 48 bus schedule powered))
test_main-Passed_example =
    test_main-Passed board 16 32 48 (omega arith) bus schedule powered
      (machine_of (test_main board 16 32 48 bus schedule powered)) powered_up passes

test_main-decides_example :
    (v₀ v₁ : ℕ) × (before : List ℕ) × (m' : Machine Globals) × (heard m' ≡ v₁ ∷ v₀ ∷ before)
    × (test_main board 16 32 48 bus (whole_test 2 3 (replicate 39 1)) powered
        ≡ some ((if matches powered.mem 16 v₀ v₁ then some finish else none), m'))
test_main-decides_example =
    test_main-decides board 16 32 48 bus 0 2 3 (replicate 39 1) powered powered_up (λ l. tt)
      (λ l. tt) (λ l _. refl) (omega arith) (omega arith) (λ l. refl) (omega arith) (omega arith)
      (inl (omega arith)) (omega arith) refl
