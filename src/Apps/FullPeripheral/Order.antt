-- ===== src/Apps/FullPeripheral/Order.antt =====
-- The order in which the test of all peripherals goes through its states.
use mlab_mcu_edu.Prelude.{
  ℕ, ◌+◌, ◌≡◌, refl, subst, Option, none, some, ◌⊎◌, inl, inr, ◌==◌, is_clear, Bool, true, false,
  if◌then◌else◌, u32,
}
use mlab_mcu_edu.Machine.{Hardware, Machine, Cmd}
use mlab_mcu_edu.I2c.{I2cHandle}
use mlab_mcu_edu.Apps.FullPeripheral.{
  TestState, test_start, wait_gpio_8_irq, set_gpio_0, set_timer, wait_timer_irq, set_gpio_1,
  i2c_write_to_eeprom, set_gpio_2, i2c_read_from_eeprom, set_gpio_3, check_rw_data, set_gpio_4,
  uart_tx, uart_tx_wait_cplt, uart_tx_cplt, set_gpio_5, uart_rx, set_gpio_6, finish, Globals, go_on,
  check_data, step, start_timer, stop_timer, i2c_write, start_uart,
}
use mlab_mcu_edu.I2c.Blocking.{master_receive}
use mlab_mcu_edu.Uart.{tx_disable}

-- The state after a state whose work is done, in the order of the test.
abbrev pub following : TestState → Option TestState
following test_start = some wait_gpio_8_irq
following wait_gpio_8_irq = some set_gpio_0
following set_gpio_0 = some set_timer
following set_timer = some wait_timer_irq
following wait_timer_irq = some set_gpio_1
following set_gpio_1 = some i2c_write_to_eeprom
following i2c_write_to_eeprom = some set_gpio_2
following set_gpio_2 = some i2c_read_from_eeprom
following i2c_read_from_eeprom = some set_gpio_3
following set_gpio_3 = some check_rw_data
following check_rw_data = some set_gpio_4
following set_gpio_4 = some uart_tx
following uart_tx = some uart_tx_wait_cplt
following uart_tx_wait_cplt = some uart_tx_cplt
following uart_tx_cplt = some finish
following _ = none

-- What a round may leave: the state that follows, the same state, or no state.
abbrev pub Moves : TestState → Option TestState → Type 0
Moves s next = (next ≡ following s) ⊎ ((next ≡ some s) ⊎ (next ≡ none))

-- A command all of whose results satisfy a predicate.
abbrev Ends : {A : Type 0} → (A → Type 0) → Option (A × Machine Globals) → Type 0
Ends P none = Unit
Ends P (some (a, m)) = P a

go_on-Ends :
    (c : Cmd Globals (Unit {0})) (s : TestState) (P : Option TestState → Type 0)
    (m : Machine Globals)
    → P (some s)
    → Ends P (go_on c s m)
go_on-Ends c s P m p = case (c m)
  where
    case :
        (r : Option (Unit {0} × Machine Globals))
        → Ends P (elim r [ none ↦ none | some (a, m') ↦ some (some s, m') ])
    case none = tt
    case (some (a, m')) = p

if-Ends :
    (b : Bool) (c d : Cmd Globals (Option TestState)) (P : Option TestState → Type 0)
    (m : Machine Globals)
    → Ends P (c m)
    → Ends P (d m)
    → Ends P ((if b then c else d) m)
if-Ends true c d P m p q = p
if-Ends false c d P m p q = q

Ends-result :
    {A : Type 0} (P : A → Type 0) (r : Option (A × Machine Globals)) {a : A} {m : Machine Globals}
    → Ends P r
    → r ≡ some (a, m)
    → P a
Ends-result P r p e = subst (Ends P) e p

check-Moves :
    (b c : Bool) → Moves check_rw_data (if b then if c then some set_gpio_4 else none else none)
check-Moves true true = inl refl
check-Moves true false = inr (inr refl)
check-Moves false c = inr (inr refl)

module _ (hw : Hardware) (i2c : I2cHandle) (w r u : ℕ) where
  step-Ends : (s : TestState) (m : Machine Globals) → Ends (Moves s) (step hw i2c w r u s m)
  unfolding step check_data
  step-Ends test_start m = inl refl
  step-Ends wait_gpio_8_irq m =
      if-Ends (is_clear m.app.gpio_int_status 256) _ _ (Moves wait_gpio_8_irq) m (inr (inl refl))
        (inl refl)
  step-Ends set_gpio_0 m = inl refl
  step-Ends set_timer m =
      go_on-Ends (start_timer hw i2c w r u) wait_timer_irq (Moves set_timer) m (inl refl)
  step-Ends wait_timer_irq m =
      if-Ends (m.app.timer_int_status == 0) _ _ (Moves wait_timer_irq) m (inr (inl refl))
        (go_on-Ends (stop_timer hw i2c w r u) set_gpio_1 (Moves wait_timer_irq) m (inl refl))
  step-Ends set_gpio_1 m = inl refl
  step-Ends i2c_write_to_eeprom m =
      go_on-Ends (i2c_write hw i2c w r u) set_gpio_2 (Moves i2c_write_to_eeprom) m (inl refl)
  step-Ends set_gpio_2 m = inl refl
  step-Ends i2c_read_from_eeprom m =
      go_on-Ends (master_receive hw i2c 0xA0 r 2) set_gpio_3 (Moves i2c_read_from_eeprom) m
        (inl refl)
  step-Ends set_gpio_3 m = inl refl
  step-Ends check_rw_data m =
      check-Moves (m.mem (u32 (w + 2)) == m.mem r) (m.mem (u32 (w + 3)) == m.mem (u32 (r + 1)))
  step-Ends set_gpio_4 m = inl refl
  step-Ends uart_tx m =
      go_on-Ends (start_uart hw i2c w r u) uart_tx_wait_cplt (Moves uart_tx) m (inl refl)
  step-Ends uart_tx_wait_cplt m =
      if-Ends (m.app.uart_tx_cmpl_callback == 0) _ _ (Moves uart_tx_wait_cplt) m (inr (inl refl))
        (go_on-Ends (tx_disable hw m.app.huart) uart_tx_cplt (Moves uart_tx_wait_cplt) m (inl refl))
  step-Ends uart_tx_cplt m = inl refl
  step-Ends set_gpio_5 m = inl refl
  step-Ends uart_rx m = inl refl
  step-Ends set_gpio_6 m = inl refl
  step-Ends finish m = inl refl

  -- A round of the loop that returns leaves the state that follows in the order of the test, the
  -- same state, or none, where the source loops for ever: no state is skipped and none comes back.
  pub step-Moves :
      (s : TestState) (m : Machine Globals) (next : Option TestState) (m' : Machine Globals)
      → step hw i2c w r u s m ≡ some (next, m')
      → Moves s next
  step-Moves s m next m' e = Ends-result (Moves s) (step hw i2c w r u s m) (step-Ends s m) e
