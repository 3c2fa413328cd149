-- ===== src/Apps/Peripherals/Traffic.antt =====
-- The traffic with the EEPROM in the first test of the peripherals, whatever the hardware answers.
use mlab_mcu_edu.Prelude.{ℕ, ◌^◌, ◌≡◌, ◌∙◌, List, [], ◌∷◌, ◌==◌, is_clear}
use mlab_mcu_edu.Machine.{write, Hardware, Machine}
use mlab_mcu_edu.Machine.Keeps.{Ensures, Ensures-map, Ensures->>=, Ensures-next}
use mlab_mcu_edu.I2c.{I2cHandle, ready}
use mlab_mcu_edu.I2c.Blocking.{i2c_init}
use mlab_mcu_edu.Timer.{timer_init, timer_clear_ctrl, timer_set, timer_en}
use mlab_mcu_edu.Apps.FullPeripheral.{
  TestState, test_start, wait_gpio_8_irq, set_gpio_0, set_timer, wait_timer_irq, set_gpio_1,
  i2c_write_to_eeprom, set_gpio_2, i2c_read_from_eeprom, set_gpio_3, check_rw_data, set_gpio_4,
  uart_tx, uart_tx_wait_cplt, uart_tx_cplt, set_gpio_5, uart_rx, set_gpio_6, finish, Globals,
  drive_pin, start_timer, stop_timer, gpio_handler, timer_irq_handler,
}
use mlab_mcu_edu.Apps.FullPeripheral.Verdict.Evidence.{if-Ensures}
use mlab_mcu_edu.Apps.FullPeripheral.Verdict.Run.{Ensures-both, init-regs}
use mlab_mcu_edu.Apps.FullPeripheral.Eeprom.{
  sent_off, read_back, progress, AtState, AtNext, quiet-AtNext, write-AtNext, read-AtNext,
}
use mlab_mcu_edu.Apps.FullPeripheral.Eeprom.Setup.{
  drive_pin-Inert, gpio_handler-Inert, timer_irq_handler-Inert, i2c_init-Inert, init-ready,
  check-AtNext,
}
use mlab_mcu_edu.Apps.Peripherals.{
  PeripheralsEvent, round, gpio_irq, timer_irq, other_irq, peripherals_setup, peripherals_step,
  peripherals_event, peripherals_run,
}

module _ (hw : Hardware) (mem₀ : ℕ → ℕ) (w r u : ℕ) where
  module _ (i2c : I2cHandle) (at : i2c.regs ≡ 0x3000_0000) (isReady : i2c.state ≡ ready) where
    wait_gpio-AtNext :
        (m : Machine Globals)
        → m.mem ≡ mem₀
        → Ensures (AtNext mem₀ w r) (peripherals_step hw i2c w r u wait_gpio_8_irq m)
    unfolding peripherals_step
    wait_gpio-AtNext m v =
        if-Ensures (AtNext mem₀ w r) (is_clear m.app.gpio_int_status 256) _ _ m (λ _. v) (λ _. v)

    wait_timer-AtNext :
        (m : Machine Globals)
        → m.mem ≡ mem₀
        → Ensures (AtNext mem₀ w r) (peripherals_step hw i2c w r u wait_timer_irq m)
    unfolding peripherals_step stop_timer timer_clear_ctrl
    wait_timer-AtNext m v =
        if-Ensures (AtNext mem₀ w r) (m.app.timer_int_status == 0) _ _ m (λ _. v) (λ _. v)

    step-AtNext :
        (s : TestState) (m : Machine Globals)
        → AtState mem₀ w r s m
        → Ensures (AtNext mem₀ w r) (peripherals_step hw i2c w r u s m)
    unfolding peripherals_step start_timer timer_set timer_en
    step-AtNext test_start m v = v
    step-AtNext wait_gpio_8_irq m v = wait_gpio-AtNext m v
    step-AtNext set_gpio_0 m v = v
    step-AtNext set_timer m v = v
    step-AtNext wait_timer_irq m v = wait_timer-AtNext m v
    step-AtNext set_gpio_1 m v = v
    step-AtNext i2c_write_to_eeprom m v = write-AtNext mem₀ w r hw i2c at isReady u m v
    step-AtNext set_gpio_2 m v =
        quiet-AtNext mem₀ w r (drive_pin hw (2 ^ 2)) i2c_read_from_eeprom sent_off m (λ _ x. x)
          (drive_pin-Inert hw (2 ^ 2)) v
    step-AtNext i2c_read_from_eeprom m v = read-AtNext mem₀ w r hw i2c at isReady m v
    step-AtNext set_gpio_3 m v =
        quiet-AtNext mem₀ w r (drive_pin hw (2 ^ 3)) check_rw_data read_back m (λ _ x. x)
          (drive_pin-Inert hw (2 ^ 3)) v
    step-AtNext check_rw_data m v = check-AtNext hw mem₀ w r u i2c m v
    step-AtNext set_gpio_4 m v =
        quiet-AtNext mem₀ w r (drive_pin hw (2 ^ 4)) finish read_back m (λ _ x. x)
          (drive_pin-Inert hw (2 ^ 4)) v
    step-AtNext uart_tx m v = tt
    step-AtNext uart_tx_wait_cplt m v = tt
    step-AtNext uart_tx_cplt m v = tt
    step-AtNext set_gpio_5 m v = tt
    step-AtNext uart_rx m v = tt
    step-AtNext set_gpio_6 m v = tt
    step-AtNext finish m v = tt

    event-AtNext :
        (e : PeripheralsEvent) (s : TestState) (m : Machine Globals)
        → AtState mem₀ w r s m
        → Ensures (AtNext mem₀ w r) (peripherals_event hw i2c w r u e s m)
    unfolding peripherals_event
    event-AtNext round s m v = step-AtNext s m v
    event-AtNext gpio_irq s m v =
        quiet-AtNext mem₀ w r (gpio_handler hw) s (progress s) m (λ _ x. x) (gpio_handler-Inert hw)
          v
    event-AtNext timer_irq s m v =
        quiet-AtNext mem₀ w r (timer_irq_handler hw) s (progress s) m (λ _ x. x)
          (timer_irq_handler-Inert hw) v
    event-AtNext other_irq s m v = tt

    pub run-AtNext :
        (es : List PeripheralsEvent) (s : TestState) (m : Machine Globals)
        → AtState mem₀ w r s m
        → Ensures (AtNext mem₀ w r) (peripherals_run hw i2c w r u es s m)
    unfolding peripherals_run
    run-AtNext [] s m v = v
    run-AtNext (e ∷ es) s m v =
        Ensures->>= (AtNext mem₀ w r) (AtNext mem₀ w r) (peripherals_event hw i2c w r u e s) _ m
          (event-AtNext e s m v)
          (Ensures-next (AtNext mem₀ w r) _ (λ s' m' v'. run-AtNext es s' m' v'))

  pub setup-AtState :
      (i2c₀ : I2cHandle) (m : Machine Globals)
      → m.mem ≡ mem₀
      → Ensures
          (λ i2c m'.
            (i2c.regs ≡ 0x3000_0000) × (i2c.state ≡ ready) × AtState mem₀ w r test_start m')
          (peripherals_setup hw i2c₀ m)
  unfolding peripherals_setup timer_init
  setup-AtState i2c₀ m e =
      let m₁ : Machine Globals = record m {
        log = write 0x2000_0004 0 ∷ write 0x2000_0000 0 ∷ m.log;
        app = record (m.app) { timer_shadow = 0 };
      } in
      let init = i2c_init hw i2c₀ 0x3000_0000 400 80 in
      let P : I2cHandle → Machine Globals → Type 0 = λ i2c _. i2c.regs ≡ 0x3000_0000 in
      let Q : I2cHandle → Machine Globals → Type 0 =
        λ i2c m'. (i2c.state ≡ ready) × (m'.mem ≡ mem₀) in
      Ensures-map (init m₁)
        (Ensures-both P Q (init m₁) (init-regs hw i2c₀ m₁) (
          Ensures-both (λ i2c _. i2c.state ≡ ready) (λ _ m'. m'.mem ≡ mem₀) (init m₁)
            (init-ready hw i2c₀ m₁)
            (Ensures-map (init m₁) ((i2c_init-Inert hw i2c₀).inert m₁) (λ _ m' t. t.mem ∙ e))))
        (λ i2c m' (at, both). (at, both.0, both.1))
