-- ===== src/Apps/ImemHop.antt =====
-- The test of calls over the whole instruction memory, sw/ibex/other_test/imem_hop: the functions of
-- core/src/main.c, which call each other and `main` again, the entry of core/src/int.c and the
-- handle of driver/src/gpio.c. The functions that call `main` take it as an argument.
pub mod Run
use mlab_mcu_edu.Prelude.{ℕ, zero, suc, none, true, false, ◌==◌, bit_or}
use mlab_mcu_edu.Machine.{Hardware, Cmd, pure, ◌>>=◌, ◌>>◌, load, store, update, get_app, put_app}
use mlab_mcu_edu.Gpio.{
  GpioHandle, gpio_base_addr, gpio_out, gpio_oe, gpio_inte, gpio_ctrl, gpio_ints,
}

-- `enum test_state`
pub data HopState : Type 0 where
  initialized wait_gpio_pin_8_irq started imem_hopping_started imem_hopping_finished : HopState

-- The globals of main.c.
pub record HopGlobals : Type 0 where
  pub g_gpio_handle : GpioHandle
  pub g_main_flag : ℕ

abbrev pub HopCmd : Type 0 → Type 0
HopCmd A = Cmd HopGlobals A

abbrev pub set_ints : ℕ → HopCmd (Unit {0})
set_ints ints = do
  g ← get_app
  put_app (record g { g_gpio_handle = record (g.g_gpio_handle) { interrupt_status = ints } })

-- `SYS_FILL_IMEM_…`: instructions that do nothing.
abbrev pub sys_fill_imem : HopCmd (Unit {0})
sys_fill_imem = pure tt

-- `gpio_handle_init`
unfoldable pub hop_handle_init : GpioHandle → GpioHandle
hop_handle_init gpio = record { regs = gpio_base_addr; interrupt_status = 0 }

module _ (hw : Hardware) where
  -- `g_gpio_handle.regs->OE |= pin`, and of `OUT`.
  abbrev pub enable_pin : ℕ → HopCmd (Unit {0})
  enable_pin pin = do g ← get_app; update hw (gpio_oe g.g_gpio_handle.regs) (λ v. bit_or v pin)

  abbrev pub raise_pin : ℕ → HopCmd (Unit {0})
  raise_pin pin = do g ← get_app; update hw (gpio_out g.g_gpio_handle.regs) (λ v. bit_or v pin)

  abbrev pub hop_pin : ℕ → HopCmd (Unit {0})
  hop_pin pin = do enable_pin pin; raise_pin pin

  -- `OE = GPIO_PIN_0; OUT = GPIO_PIN_0;`
  abbrev pub only_pin_0 : HopCmd (Unit {0})
  only_pin_0 = do
    g ← get_app
    store (gpio_oe g.g_gpio_handle.regs) 0x1
    store (gpio_out g.g_gpio_handle.regs) 0x1

  -- `GPIO_IRQHandler` of int.c, with the callback.
  unfoldable pub hop_gpio_irq : HopCmd (Unit {0})
  hop_gpio_irq = do
    g ← get_app
    ints ← load hw (gpio_ints g.g_gpio_handle.regs)
    set_ints ints
    store (gpio_ints g.g_gpio_handle.regs) 0
    only_pin_0

  module _ (main : HopCmd ℕ) where
    -- `TEST_imem_call_0(0)`
    unfoldable pub imem_call_0_again : HopCmd (Unit {0})
    imem_call_0_again = do
      sys_fill_imem
      hop_pin 0x10
      _ ← main
      sys_fill_imem
      _ ← main
      hop_pin 0x40

    unfoldable pub imem_call_3 : HopCmd (Unit {0})
    imem_call_3 = do
      _ ← main
      hop_pin 0x8
      sys_fill_imem
      imem_call_0_again
      sys_fill_imem
      _ ← main
      sys_fill_imem
      enable_pin 0x20
      _ ← main
      sys_fill_imem
      raise_pin 0x20
      _ ← main
      pure tt

    unfoldable pub imem_call_2 : HopCmd (Unit {0})
    imem_call_2 = do
      hop_pin 0x4
      sys_fill_imem
      _ ← main
      sys_fill_imem
      imem_call_3
      _ ← main
      sys_fill_imem

    unfoldable pub imem_call_1 : HopCmd (Unit {0})
    imem_call_1 = do _ ← main; hop_pin 0x2; sys_fill_imem; _ ← main; imem_call_2

    -- `TEST_imem_call_0(1)`
    unfoldable pub imem_call_0 : HopCmd (Unit {0})
    imem_call_0 = do
      sys_fill_imem
      only_pin_0
      imem_call_1
      _ ← main
      sys_fill_imem
      _ ← main
      hop_pin 0x40

  -- The loop of `main` from a state, with `n` rounds at most. In the state that waits, an
  -- interrupt of the GPIO comes in each round that does not leave it.
  unfoldable pub hop_loop : ℕ → HopCmd ℕ → HopState → HopCmd (Unit {0})
  hop_loop zero main s = λ _. none
  hop_loop (suc n) main wait_gpio_pin_8_irq = do
    g ← get_app
    elim (g.g_gpio_handle.interrupt_status == 0x100) [
      | true ↦ do set_ints 0; hop_loop n main started
      | false ↦ do hop_gpio_irq; hop_loop n main wait_gpio_pin_8_irq
    ]
  hop_loop (suc n) main started = do imem_call_0 main; hop_loop n main imem_hopping_finished
  hop_loop (suc n) main imem_hopping_finished = hop_pin 0x80
  hop_loop (suc n) main initialized = λ _. none
  hop_loop (suc n) main imem_hopping_started = λ _. none

  -- `main`, which may be called again `depth` times deep.
  unfoldable pub hop_main : (depth rounds : ℕ) → HopCmd ℕ
  hop_main zero rounds = λ _. none
  hop_main (suc depth) rounds = do
    g ← get_app
    elim (g.g_main_flag == 0) [
      | true ↦ do
        let gpio = hop_handle_init g.g_gpio_handle
        put_app (record { g_gpio_handle = gpio; g_main_flag = 1 })
        store (gpio_inte gpio.regs) 0x100
        store (gpio_ctrl gpio.regs) 0x1
        hop_loop rounds (hop_main depth rounds) wait_gpio_pin_8_irq
        pure 0
      | false ↦ pure 0
    ]
