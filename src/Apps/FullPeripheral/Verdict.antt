-- ===== src/Apps/FullPeripheral/Verdict.antt =====
-- The test of all peripherals with its interrupts: rounds of the loop of `main` and interrupts in any
-- order, and what must have been seen by the time that the test reports success on pin 7.
pub mod Evidence
pub mod UartRounds
pub mod Rounds
pub mod Irqs
pub mod Run
pub mod Stages
pub mod ToI2c
pub mod Completion
pub mod UartIrq
pub mod Message
pub mod Transfers
use mlab_mcu_edu.Prelude.{
  ℕ, ◌+◌, ◌≡◌, ◌⊎◌, Option, none, some, List, [], ◌∷◌, Bool, true, false, ◌==◌, ◌&&◌, ◌||◌, not,
  is_clear, if◌then◌else◌, u32,
}
use mlab_mcu_edu.Machine.{Access, read, write, Hardware, Machine, Cmd, pure, ◌>>=◌}
use mlab_mcu_edu.Machine.Runs.{written}
use mlab_mcu_edu.Machine.Buffers.{bytes, advance, latest_first}
use mlab_mcu_edu.Gpio.{gpio_base_addr, gpio_ints}
use mlab_mcu_edu.Timer.{timer_base_addr, timer_ctrl, timer_ctrl_flag}
use mlab_mcu_edu.I2c.{I2cHandle}
use mlab_mcu_edu.Uart.{UartHandle, ready, busy_tx, uart_base_addr, uart_tx_data}
use mlab_mcu_edu.Apps.FullPeripheral.{
  TestState, test_start, wait_gpio_8_irq, set_gpio_0, set_timer, wait_timer_irq, set_gpio_1,
  i2c_write_to_eeprom, set_gpio_2, i2c_read_from_eeprom, set_gpio_3, check_rw_data, set_gpio_4,
  uart_tx, uart_tx_wait_cplt, uart_tx_cplt, set_gpio_5, uart_rx, set_gpio_6, finish, Globals, go_on,
  gpio_handler, timer_irq_handler, uart_tx_irq_handler, uart_rx_irq_handler, test_setup, step,
}

-- A round of the loop, or an interrupt before the next one.
pub data Event : Type 0 where
  round gpio_irq timer_irq uart_tx_irq uart_rx_irq : Event

module _ (hw : Hardware) where
  module _ (w r u : ℕ) where
    unfoldable pub event : I2cHandle → Event → TestState → Cmd Globals (Option TestState)
    event i2c round s = step hw i2c w r u s
    event i2c gpio_irq s = go_on (gpio_handler hw) s
    event i2c timer_irq s = go_on (timer_irq_handler hw) s
    event i2c uart_tx_irq s = go_on (uart_tx_irq_handler hw) s
    event i2c uart_rx_irq s = go_on (uart_rx_irq_handler hw) s

    -- Events from a state on. The source loops for ever where there is no next state.
    unfoldable pub run : I2cHandle → List Event → TestState → Cmd Globals (Option TestState)
    run i2c [] s = pure (some s)
    run i2c (e ∷ es) s = do
      next ← event i2c e s
      elim next [ none ↦ pure none | some s' ↦ run i2c es s' ]

    -- `main`, with the events of its loop.
    unfoldable pub test_main : I2cHandle → List Event → Cmd Globals (Option TestState)
    test_main i2c₀ es = do i2c ← test_setup hw i2c₀; run i2c es test_start

-- The register of the UART that the test sends by.
abbrev pub tx_data : ℕ
tx_data = uart_tx_data uart_base_addr

-- The interrupt status of the GPIO was read with pin 8 in it.
abbrev pub pressed : List Access → Bool
pressed [] = false
pressed (read a v ∷ l) = ((a == gpio_ints gpio_base_addr) && not (is_clear v 256)) || pressed l
pressed (write a v ∷ l) = pressed l

-- An interrupt of the timer was acknowledged.
abbrev pub ticked : List Access → Bool
ticked [] = false
ticked (read a v ∷ l) = ticked l
ticked (write a v ∷ l) = ((a == timer_ctrl timer_base_addr) && (v == timer_ctrl_flag)) || ticked l

-- The two bytes of the data to write, past those of the address, are the bytes read.
abbrev pub compared : (w r : ℕ) → (ℕ → ℕ) → Bool
compared w r mem = (mem (u32 (w + 2)) == mem r) && (mem (u32 (w + 3)) == mem (u32 (r + 1)))

-- What a passed test shows, in the log and in memory.
pub record Passed (w r u : ℕ) (m : Machine Globals) : Type 0 where
  pub button : pressed m.log ≡ true
  pub tick : ticked m.log ≡ true
  pub eeprom : compared w r m.mem ≡ true
  pub message : written tx_data m.log ≡ latest_first (bytes m.mem 38 u)

-- What has to be seen before the test goes on from a state.
abbrev pub gpio_due : TestState → Bool
gpio_due test_start = true
gpio_due wait_gpio_8_irq = true
gpio_due _ = false

abbrev pub timer_due : TestState → Bool
timer_due set_gpio_0 = true
timer_due set_timer = true
timer_due wait_timer_irq = true
timer_due s = gpio_due s

abbrev pub data_due : TestState → Bool
data_due set_gpio_1 = true
data_due i2c_write_to_eeprom = true
data_due set_gpio_2 = true
data_due i2c_read_from_eeprom = true
data_due set_gpio_3 = true
data_due check_rw_data = true
data_due s = timer_due s

-- The transmission of the message, by state.
pub data Phase : Type 0 where
  not_yet under_way over : Phase

abbrev pub uart_phase : TestState → Phase
uart_phase set_gpio_4 = not_yet
uart_phase uart_tx = not_yet
uart_phase uart_tx_wait_cplt = under_way
uart_phase s = if data_due s then not_yet else over

module _ (u : ℕ) where
  -- The message on its way: `j` of its bytes are sent and `k` are left.
  pub record Sending (m : Machine Globals) : Type 0 where
    pub j : ℕ
    pub k : ℕ
    pub total : j + k ≡ 38
    pub busy : m.app.huart.g_state ≡ busy_tx
    pub count : m.app.huart.tx_xfer_count ≡ k
    pub at : m.app.huart.tx_buff_ptr ≡ advance j u
    pub flag : m.app.uart_tx_cmpl_callback ≡ 0
    pub sent : written tx_data m.log ≡ latest_first (bytes m.mem j u)

  pub record Delivered (m : Machine Globals) : Type 0 where
    pub idle : m.app.huart.g_state ≡ ready
    pub sent : written tx_data m.log ≡ latest_first (bytes m.mem 38 u)

  pub record NotSent (m : Machine Globals) : Type 0 where
    pub idle : m.app.huart.g_state ≡ ready
    pub flag : m.app.uart_tx_cmpl_callback ≡ 0
    pub sent : written tx_data m.log ≡ []

  abbrev pub InPhase : Phase → Machine Globals → Type 0
  InPhase not_yet m = NotSent m
  InPhase under_way m = Sending m ⊎ Delivered m
  InPhase over m = Delivered m

-- The invariant of the loop: what is seen, what the globals say is seen, and the UART.
pub record Sound (w r u : ℕ) (g t d : Bool) (p : Phase) (m : Machine Globals) : Type 0 where
  pub gpio : ((g && is_clear m.app.gpio_int_status 256) || pressed m.log) ≡ true
  pub timer : ((t && (m.app.timer_int_status == 0)) || ticked m.log) ≡ true
  pub data_seen : (d || compared w r m.mem) ≡ true
  pub addr : m.app.huart.instance_addr ≡ uart_base_addr
  pub rx : m.app.huart.rx_state ≡ ready
  pub uart : InPhase u p m

abbrev pub SoundAt : (w r u : ℕ) → TestState → Machine Globals → Type 0
SoundAt w r u s m = Sound w r u (gpio_due s) (timer_due s) (data_due s) (uart_phase s) m

abbrev pub SoundNext : (w r u : ℕ) → Option TestState → Machine Globals → Type 0
SoundNext w r u none m = Unit
SoundNext w r u (some s) m = SoundAt w r u s m
