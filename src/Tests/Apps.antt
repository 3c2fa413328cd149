-- ===== src/Tests/Apps.antt =====
-- Examples on the programs.
use mlab_mcu_edu.Prelude.{◌≡◌, refl, some, [], ◌∷◌, ◌++◌}
use mlab_mcu_edu.Machine.{Hardware, Machine, ◌>>=◌, ◌>>◌}
use mlab_mcu_edu.Machine.{Cmd, pure, set_mie, read, write}
use mlab_mcu_edu.Apps.NestedInterrupts.{nested_gpio_irq, nested_gpio_irq_lem}
use mlab_mcu_edu.Machine.Runs.{writes}
use mlab_mcu_edu.Machine.Buffers.{sent_log}
use mlab_mcu_edu.Gpio.{GpioHandle, gpio_irq_handler}
use mlab_mcu_edu.I2c.{I2cHandle, ready, tx_it_ready, rx_it_ready}
use mlab_mcu_edu.Apps.FullPeripheral.{Globals}
use mlab_mcu_edu.Apps.GpioShift.{
  Shifts, exti_callback, shift_round, rightwards, not_pressed, shift_round_lem,
}
use mlab_mcu_edu.Tests.{quiet, start}
use mlab_mcu_edu.Tests.Uart.{line}

abbrev pins : GpioHandle
pins = record { regs = 0x4000_0000; interrupt_status = 0 }

-- Button 6 is pressed.
abbrev six : Hardware
six = record { value = λ l a. 64; polls = 1 }

abbrev shifts : Machine Shifts
shifts = record { log = []; mem = λ p. 0; cpu = start.cpu; app = not_pressed }

shift_round_lem_example :
    (m' : Machine Shifts) × ((gpio_irq_handler six exti_callback pins >>= λ h.
    shift_round h >> shift_round h)
        shifts
      ≡ some (tt, m'))
    × (writes m'.log ≡ [] ++ (sent_log 0x4000_0004 rightwards ++ ((0x4000_001C, 0) ∷ [])))
    × (m'.app ≡ not_pressed)
    × (m'.mem ≡ shifts.mem)
shift_round_lem_example = shift_round_lem six pins shifts refl

abbrev pub bus : I2cHandle
bus = record {
  regs = 0x3000_0000;
  interupt_transmit = record { state = tx_it_ready; address = 0; buf = 0; size = 0 };
  interupt_receive = record { state = rx_it_ready; address = 0; buf = 0; size = 0 };
  state = ready;
}

abbrev pub tested : Machine Globals
tested = record {
  log = [];
  mem = λ p. 0xBC;
  cpu = start.cpu;
  app = record {
    gpio_int_status = 0;
    timer_int_status = 0;
    uart_tx_cmpl_callback = 0;
    timer_shadow = 0;
    huart = line;
  };
}

-- A callback that turns an interrupt on and leaves it on.
abbrev careless : GpioHandle → Cmd (Unit {0}) GpioHandle
careless gpio = do set_mie 4; pure gpio

nested_gpio_irq_lem_example :
    nested_gpio_irq quiet careless pins start
    ≡ some (
      pins,
      record start { log = write 0x4000_001C 0 ∷ read 0x4000_001C 0 ∷ []; cpu = start.cpu },
    )
nested_gpio_irq_lem_example =
    nested_gpio_irq_lem quiet careless pins pins start
      (record start {
        log = write 0x4000_001C 0 ∷ read 0x4000_001C 0 ∷ [];
        cpu = record { mie = 4; mstatus = 8; mepc = 0 };
      })
      refl
