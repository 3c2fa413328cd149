-- ===== src/Apps/NestedInterrupts/Main.antt =====
-- The application of the test of nested interrupts,
-- sw/ibex/other_test/nested_interrupts/core/src/main.c, built with FPGA as 0. An interrupt arrives
-- while a loop of the program waits for a flag: then its entry runs, whose callback may wait in
-- turn. The interrupts to come are a list, of which each wait takes the next until its flag is set.
pub mod Run
use mlab_mcu_edu.Prelude.{
  ℕ, zero, suc, Option, none, some, List, [], ◌∷◌, true, false, Bool, not, ◌==◌, ◌||◌,
  if◌then◌else◌, is_clear, bit_or,
}
use mlab_mcu_edu.Machine.{
  Hardware, Cmd, pure, ◌>>=◌, ◌>>◌, store, update, peek, get_app, put_app, next,
}
use mlab_mcu_edu.Gpio.{GpioHandle, gpio_out, gpio_oe, gpio_inte, gpio_ctrl}
use mlab_mcu_edu.Timer.{timer_ctrl, timer_mod, timer_ctrl_cnt_en, timer_ctrl_ena_int}
use mlab_mcu_edu.I2c.{I2cHandle}
use mlab_mcu_edu.I2c.Nested.{i2c_handle_init, i2c_master_tx_it, i2c_master_rx_it, i2c_irq_handler}
use mlab_mcu_edu.I2c.Nested.Blocking.{i2c_master_tx}
use mlab_mcu_edu.Apps.NestedInterrupts.{
  timer_handle_init, gpio_handle_init, nested_timer_irq, nested_gpio_irq, nested_i2c_irq,
}

-- `int_ack`
pub record IntAck : Type 0 where
  pub timer : ℕ
  pub gpio : ℕ
  pub i2c_tx : ℕ
  pub i2c_rx : ℕ

pub data Irq : Type 0 where
  timer_irq gpio_irq i2c_irq : Irq

-- The globals of main.c, where the handle of the timer is the address of its registers, and the
-- interrupts to come.
pub record NestedGlobals : Type 0 where
  pub g_ack : IntAck
  pub g_timer : ℕ
  pub g_gpio : GpioHandle
  pub g_i2c : I2cHandle
  pub arrivals : List Irq

abbrev pub NestedCmd : Type 0 → Type 0
NestedCmd A = Cmd NestedGlobals A

-- A loop that waits until the globals pass a test.
abbrev pub Wait : Type 0
Wait = (NestedGlobals → Bool) → NestedCmd (Unit {0})

-- Assignments of single globals.
abbrev pub acknowledge : (IntAck → IntAck) → NestedCmd (Unit {0})
acknowledge f = do g ← get_app; put_app (record g { g_ack = f g.g_ack })

abbrev pub set_gpio : GpioHandle → NestedCmd (Unit {0})
set_gpio gpio = do g ← get_app; put_app (record g { g_gpio = gpio })

abbrev pub set_i2c : I2cHandle → NestedCmd (Unit {0})
set_i2c i2c = do g ← get_app; put_app (record g { g_i2c = i2c })

abbrev pub next_arrival : NestedCmd Irq
next_arrival m = elim m.app.arrivals [
  | [] ↦ none
  | irq ∷ irqs ↦ some (irq, record m { app = record (m.app) { arrivals = irqs } })
]

abbrev pub i2c_base_address : ℕ
i2c_base_address = 0x3000_0000

abbrev pub g_i2c_dev_addr : ℕ
g_i2c_dev_addr = 0xA0

unfoldable pub int_ack_init : IntAck → IntAck
int_ack_init ack = record { timer = 0; gpio = 0; i2c_tx = 0; i2c_rx = 0 }

-- The addresses of `g_i2c_tx_buf` and `g_i2c_rx_buf` are the linker's.
module _ (hw : Hardware) (tx_buf rx_buf : ℕ) where
  -- `regs->OE |= pin; regs->OUT |= pin;` on the GPIO.
  abbrev pub light : ℕ → ℕ → NestedCmd (Unit {0})
  light regs pin = do
    update hw (gpio_oe regs) (λ v. bit_or v pin)
    update hw (gpio_out regs) (λ v. bit_or v pin)

  -- The check of the received bytes; a byte that differs stalls for ever.
  unfoldable pub check_received : ℕ → ℕ → ℕ → NestedCmd (Unit {0})
  check_received zero tx rx = pure tt
  check_received (suc n) tx rx = do
    tx_byte ← peek tx
    rx_byte ← peek rx
    elim (tx_byte == rx_byte) [ true ↦ check_received n (next tx) (next rx) | false ↦ λ _. none ]

  unfoldable pub rx_cplt_callback : I2cHandle → NestedCmd I2cHandle
  rx_cplt_callback i2c = do
    acknowledge (λ ack. record ack { i2c_rx = 1 })
    g ← get_app
    light g.g_gpio.regs 0x8
    check_received 2 (next (next tx_buf)) rx_buf
    light g.g_gpio.regs 0x10
    pure i2c

  unfoldable pub tx_cplt_callback : I2cHandle → NestedCmd I2cHandle
  tx_cplt_callback i2c = do
    acknowledge (λ ack. record ack { i2c_tx = 1 })
    g ← get_app
    light g.g_gpio.regs 0x4
    i2c_master_tx hw i2c g_i2c_dev_addr tx_buf 2
    i2c_master_rx_it hw rx_cplt_callback i2c g_i2c_dev_addr rx_buf 2

  -- The callback of the timer; `t` is its registers.
  unfoldable pub timer_callback : Wait → ℕ → NestedCmd (Unit {0})
  timer_callback wait t = do
    store (timer_ctrl t) 0
    wait (λ g. not (g.g_ack.gpio == 0))
    acknowledge (λ ack. record ack { timer = 1 })
    store (timer_mod t) 0xFFFF
    g ← get_app
    light g.g_gpio.regs 0x40

  -- The callback of the GPIO for its pin 0. Its handle is the global one.
  unfoldable pub gpio_callback : Wait → GpioHandle → NestedCmd GpioHandle
  gpio_callback wait gpio = if is_clear gpio.interrupt_status 0x1 then pure gpio else do
    set_gpio (record gpio { interrupt_status = 0 })
    acknowledge (λ ack. record ack { gpio = 1 })
    store (gpio_inte gpio.regs) 0
    store (gpio_oe gpio.regs) 0x1
    store (gpio_out gpio.regs) 0x1
    g ← get_app
    i2c ← i2c_master_tx_it hw tx_cplt_callback g.g_i2c g_i2c_dev_addr tx_buf 4
    set_i2c i2c
    light gpio.regs 0x2
    wait (λ h. not (h.g_ack.i2c_tx == 0) || not (h.g_ack.i2c_rx == 0))
    light gpio.regs 0x20
    h ← get_app
    pure h.g_gpio

  -- The entry of an interrupt, with the callback of the application.
  unfoldable pub take : Wait → Irq → NestedCmd (Unit {0})
  take wait timer_irq = do
    g ← get_app
    nested_timer_irq hw g.g_timer (timer_callback wait g.g_timer)
  take wait gpio_irq = do
    g ← get_app
    gpio ← nested_gpio_irq hw (gpio_callback wait) g.g_gpio
    set_gpio gpio
  take wait i2c_irq = do
    g ← get_app
    i2c ← nested_i2c_irq hw (i2c_irq_handler hw tx_cplt_callback rx_cplt_callback) g.g_i2c
    set_i2c i2c

  -- `while (!flag);` with at most `n` interrupts, each of which may wait itself.
  unfoldable pub wait_until : ℕ → Wait
  wait_until zero test = λ _. none
  wait_until (suc n) test = do
    g ← get_app
    elim (test g) [
      | true ↦ pure tt
      | false ↦ do irq ← next_arrival; take (wait_until n) irq; wait_until n test
    ]

  unfoldable pub nested_main : ℕ → NestedCmd ℕ
  nested_main n = do
    acknowledge int_ack_init
    g ← get_app
    let t = timer_handle_init
    put_app (record g { g_timer = t })
    store (timer_mod t) 0x40
    store (timer_ctrl t) 0
    let gpio = gpio_handle_init g.g_gpio
    set_gpio gpio
    store (gpio_inte gpio.regs) 0x1
    i2c ← i2c_handle_init hw g.g_i2c i2c_base_address 400 80
    set_i2c i2c
    store (gpio_ctrl gpio.regs) 0x1
    update hw (timer_ctrl t) (λ v. bit_or v (bit_or timer_ctrl_cnt_en timer_ctrl_ena_int))
    wait_until n (λ h. not (h.g_ack.timer == 0))
    light gpio.regs 0x80
    pure 0
