-- ===== src/Tests/Pins.antt =====
-- Examples on the output pins and the timer.
use mlab_mcu_edu.Prelude.{ℕ, ◌≡◌, some, none, [], ◌∷◌, arith}
use mlab_mcu_edu.Prelude.Bits.{bit}
use mlab_mcu_edu.Machine.{read, write, Hardware, Machine}
use mlab_mcu_edu.Machine.Runs.{last_write}
use mlab_mcu_edu.Gpio.{GpioHandle, pin_reset, gpio_write_pin, gpio_toggle}
use mlab_mcu_edu.Gpio.Pins.{write_pin-level, toggle-toggle}
use mlab_mcu_edu.Timer.Shadow.{set, op, op-last_write}
use mlab_mcu_edu.Tests.{start}

abbrev pins : GpioHandle
pins = record { regs = 0x4000_0000; interrupt_status = 0 }

-- Registers that read as they were last written, and as 5 before.
abbrev memory : Hardware
memory = record { value = λ l a. elim (last_write a l) [ none ↦ 5 | some v ↦ v ]; polls = 3 }

write_pin-level_example :
    (w : ℕ) × (gpio_write_pin memory pins 4 pin_reset start
      ≡ some (tt, record start { log = write 0x4000_0004 w ∷ read 0x4000_0004 5 ∷ [] }))
    × (bit 2 w ≡ 0)
write_pin-level_example =
    write_pin-level memory pins 4 2 pin_reset start (omega arith) (omega arith)

toggle-toggle_example :
    (m₁ m₂ : Machine Unit) × (gpio_toggle memory pins 6 start ≡ some (tt, m₁))
    × (gpio_toggle memory pins 6 m₁ ≡ some (tt, m₂))
    × (bit 2 (memory.value m₁.log 0x4000_0004) ≡ 0)
    × (bit 2 (memory.value m₂.log 0x4000_0004) ≡ 1)
toggle-toggle_example = toggle-toggle memory pins 6 start (λ l v. ground arith) 2

op-last_write_example :
    (shadow' : ℕ) × (m' : Machine Unit) × (op 0x2000_0000 (set 1000 5) 3 start ≡ some (shadow', m'))
    × (bit 10 shadow' ≡ 1)
    × (last_write 0x2000_0000 m'.log ≡ some shadow')
op-last_write_example = op-last_write 0x2000_0000 (set 1000 5) 3 10 start (omega arith)
