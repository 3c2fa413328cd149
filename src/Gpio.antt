-- ===== src/Gpio.antt =====
-- The GPIO driver, sw/ibex/common/drivers/gpio/v0.1/gpio.c with its header gpio.h: the handle, the
-- output pins and the interrupt handler. `GPIO_EXTI_Callback` is weak and comes from the
-- application, so the handler takes it as an argument.
pub mod Pins
use mlab_mcu_edu.Prelude.{ℕ, ◌+◌, not32, bit_and, bit_or, bit_xor}
use mlab_mcu_edu.Machine.{Hardware, Cmd, ◌>>=◌, ◌>>◌, load, store, update}

abbrev pub gpio_base_addr : ℕ
gpio_base_addr = 0x4000_0000

-- The registers of `GPIO_reg_map_t`, from the address of the first.
abbrev pub gpio_in : ℕ → ℕ
gpio_in regs = regs

abbrev pub gpio_out : ℕ → ℕ
gpio_out regs = regs + 4

abbrev pub gpio_oe : ℕ → ℕ
gpio_oe regs = regs + 8

abbrev pub gpio_inte : ℕ → ℕ
gpio_inte regs = regs + 12

abbrev pub gpio_ptrig : ℕ → ℕ
gpio_ptrig regs = regs + 16

abbrev pub gpio_aux : ℕ → ℕ
gpio_aux regs = regs + 20

abbrev pub gpio_ctrl : ℕ → ℕ
gpio_ctrl regs = regs + 24

abbrev pub gpio_ints : ℕ → ℕ
gpio_ints regs = regs + 28

-- `GPIO_HandleTypeDef`
pub record GpioHandle : Type 0 where
  pub regs : ℕ
  pub interrupt_status : ℕ

-- `GPIO_PinState`
pub data PinState : Type 0 where
  pin_reset pin_set : PinState

unfoldable pub gpio_init : GpioHandle → GpioHandle
gpio_init gpio = record gpio { regs = gpio_base_addr }

module _ {G : Type 0} (hw : Hardware) where
  unfoldable pub gpio_write_pin : GpioHandle → ℕ → PinState → Cmd G (Unit {0})
  gpio_write_pin gpio pin pin_set = update hw (gpio_out gpio.regs) (λ v. bit_or v pin)
  gpio_write_pin gpio pin pin_reset = update hw (gpio_out gpio.regs) (λ v. bit_and v (not32 pin))

  unfoldable pub gpio_toggle : GpioHandle → ℕ → Cmd G (Unit {0})
  gpio_toggle gpio pin = update hw (gpio_out gpio.regs) (λ v. bit_xor v pin)

  unfoldable pub gpio_irq_handler : (GpioHandle → Cmd G GpioHandle) → GpioHandle → Cmd G GpioHandle
  gpio_irq_handler exti_callback gpio = do
    status ← load hw (gpio_ints gpio.regs)
    store (gpio_ints gpio.regs) 0
    exti_callback (record gpio { interrupt_status = status })
