-- ===== src/Tests/GpioSimple.antt =====
-- The simple GPIO example, with two interrupts of pin 3 before a round.
use mlab_mcu_edu.Prelude.{ℕ, ◌≡◌, refl, some, List, [], ◌∷◌, length}
use mlab_mcu_edu.Machine.{Hardware, Machine}
use mlab_mcu_edu.Machine.Runs.{written}
use mlab_mcu_edu.Machine.Buffers.{reads_of, latest_first}
use mlab_mcu_edu.Apps.GpioSimple.{
  SimpleGlobals, SimpleEvent, round, gpio_irq, gpio_reg, simple_main,
}
use mlab_mcu_edu.Apps.GpioSimple.Walks.{lights, simple_main-Walked}
use mlab_mcu_edu.Tests.Apps.{tested}

abbrev pin_3 : Hardware
pin_3 = record { value = λ l a. 8; polls = 1 }

abbrev simple_start : Machine SimpleGlobals
simple_start = record {
  log = [];
  mem = tested.mem;
  cpu = tested.cpu;
  app = record { counter = 1; stepper = 255; gpio_int_status = 0 };
}

abbrev presses : List SimpleEvent
presses = gpio_irq ∷ gpio_irq ∷ round ∷ round ∷ []

simple_main-Walked_example :
    (vs : List ℕ) × (m' : Machine SimpleGlobals) × (simple_main pin_3 presses simple_start
      ≡ some (tt, m'))
    × (length vs ≡ 2)
    × (reads_of (gpio_reg 7) m'.log ≡ latest_first vs)
    × (written (gpio_reg 1) m'.log ≡ latest_first (lights 0 presses vs))
    × (m'.mem ≡ simple_start.mem)
simple_main-Walked_example = simple_main-Walked pin_3 presses simple_start refl refl
