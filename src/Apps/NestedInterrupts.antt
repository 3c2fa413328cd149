-- ===== src/Apps/NestedInterrupts.antt =====
-- The interrupt entries that let other interrupts in, sw/ibex/other_test/nested_interrupts: the
-- macros and entries of core/src/int.c, with the acknowledgements of its driver headers and the
-- handlers of its gpio.c and timer.c. The callbacks of the application are arguments.
pub mod Main
use mlab_mcu_edu.Prelude.{ℕ, ◌∷◌, ◌≡◌, refl, some, bit_and, bit_or, not32}
use mlab_mcu_edu.Machine.{
  Hardware, Machine, Cpu, Cmd, pure, ◌>>=◌, ◌>>◌, load, store, update, read, write,
}
use mlab_mcu_edu.Gpio.{GpioHandle, gpio_base_addr, gpio_ints}
use mlab_mcu_edu.Timer.{timer_base_addr, timer_ctrl, timer_ctrl_ena_int, timer_ctrl_flag}
use mlab_mcu_edu.I2c.{I2cHandle, csr, i2c_iack}

-- `timer_handle_init` and `gpio_handle_init`
unfoldable pub timer_handle_init : ℕ
timer_handle_init = timer_base_addr

unfoldable pub gpio_handle_init : GpioHandle → GpioHandle
gpio_handle_init gpio = record { regs = gpio_base_addr; interrupt_status = 0 }

module _ {G : Type 0} where
  -- `csrr` of the three registers, and `csrsi mstatus, 0x8`.
  unfoldable pub critical_section_entry : Cmd G Cpu
  critical_section_entry m =
      some (m.cpu, record m { cpu = record (m.cpu) { mstatus = bit_or m.cpu.mstatus 8 } })

  -- `csrci mstatus, 0x8`, then each register from its copy.
  unfoldable pub critical_section_exit : Cpu → Cmd G (Unit {0})
  critical_section_exit bak m =
      let c₁ = record (m.cpu) { mstatus = bit_and m.cpu.mstatus (not32 8) } in
      let c₂ = record c₁ { mie = bak.mie } in
      let c₃ = record c₂ { mstatus = bak.mstatus } in
      some (tt, record m { cpu = record c₃ { mepc = bak.mepc } })

  -- A handler between entry and exit.
  unfoldable pub nested : {A : Type 0} → Cmd G A → Cmd G A
  nested body = do bak ← critical_section_entry; r ← body; critical_section_exit bak; pure r

module _ {G : Type 0} (hw : Hardware) where
  -- `TIMER_IRQHandler`, with `TIMER_ACK_INT_AND_DISABLE_IRQ`.
  unfoldable pub nested_timer_irq : (t : ℕ) → (callback : Cmd G (Unit {0})) → Cmd G (Unit {0})
  nested_timer_irq t callback = do
    update hw (timer_ctrl t) (λ v. bit_or (bit_and v (not32 timer_ctrl_ena_int)) timer_ctrl_flag)
    nested callback

  -- `GPIO_IRQHandler`, with `GPIO_ACK_INT_AND_SAVE_INTS`.
  unfoldable pub nested_gpio_irq :
      (callback : GpioHandle → Cmd G GpioHandle) → GpioHandle → Cmd G GpioHandle
  nested_gpio_irq callback gpio = do
    ints ← load hw (gpio_ints gpio.regs)
    store (gpio_ints gpio.regs) 0
    nested (callback (record gpio { interrupt_status = ints }))

  -- `I2C_IRQHandler`, with `I2C_ACK_INT`; the handler of the driver is an argument.
  unfoldable pub nested_i2c_irq :
      (handler : I2cHandle → Cmd G I2cHandle) → I2cHandle → Cmd G I2cHandle
  nested_i2c_irq handler i2c = do store (csr i2c.regs) i2c_iack; nested (handler i2c)

  -- Whatever a callback does to the control and status registers, an interrupt that is nested in it
  -- included, `GPIO_IRQHandler` gives all three back the values that they had when it was entered,
  -- if the callback, which is entered with interrupts on, returns. The rest of the machine is as the
  -- callback left it.
  pub nested_gpio_irq_lem :
      (callback : GpioHandle → Cmd G GpioHandle) (gpio gpio' : GpioHandle) (m m' : Machine G)
      → let a = gpio_ints gpio.regs in
        let v = hw.value m.log a in
        callback
            (record gpio { interrupt_status = v })
            (record m {
              log = write a 0 ∷ read a v ∷ m.log;
              cpu = record (m.cpu) { mstatus = bit_or m.cpu.mstatus 8 };
            })
          ≡ some (gpio', m')
        → nested_gpio_irq callback gpio m ≡ some (gpio', record m' { cpu = m.cpu })
  unfolding nested_gpio_irq nested critical_section_entry critical_section_exit
  nested_gpio_irq_lem callback gpio gpio' m m' e = rw (e, ◌>>=◌) refl
