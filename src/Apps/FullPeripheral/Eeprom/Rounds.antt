-- ===== src/Apps/FullPeripheral/Eeprom/Rounds.antt =====
-- The traffic with the EEPROM in the rounds and the interrupts of the test of all peripherals,
-- whatever the hardware answers. What the UART's registers are is known from the invariant of the
-- verdict.
use mlab_mcu_edu.Prelude.{
  ℕ, zero, suc, ◌^◌, ◌<◌, ◌≡◌, refl, ◌∙◌, inl, inr, [], Bool, false, ◌==◌, is_clear, arith,
}
use mlab_mcu_edu.Machine.{Hardware, Machine, Cmd, pure}
use mlab_mcu_edu.Machine.Keeps.{Ensures, Ensures-map}
use mlab_mcu_edu.Machine.Traffic.{Moved}
use mlab_mcu_edu.I2c.{I2cHandle, ready}
use mlab_mcu_edu.Timer.{timer_clear_ctrl, timer_set, timer_en}
use mlab_mcu_edu.Uart.{UartState, tx_disable, uart_control, uart_tx_data, uart_base_addr}
use mlab_mcu_edu.Uart.Interrupt.{rx_not_empty_irq_handler}
use mlab_mcu_edu.Uart.Interrupt.Transmission.{uart_transmit_it_ready}
use mlab_mcu_edu.Apps.FullPeripheral.{
  TestState, test_start, wait_gpio_8_irq, set_gpio_0, set_timer, wait_timer_irq, set_gpio_1,
  i2c_write_to_eeprom, set_gpio_2, i2c_read_from_eeprom, set_gpio_3, check_rw_data, set_gpio_4,
  uart_tx, uart_tx_wait_cplt, uart_tx_cplt, set_gpio_5, uart_rx, set_gpio_6, finish, Globals, go_on,
  drive_pin, start_timer, stop_timer, start_uart, step, gpio_handler, timer_irq_handler,
  uart_tx_irq_handler, uart_rx_irq_handler,
}
use mlab_mcu_edu.Apps.FullPeripheral.Verdict.{
  Event, round, gpio_irq, timer_irq, uart_tx_irq, uart_rx_irq, event, Phase, not_yet, under_way,
  over, uart_phase, Sending, Sound, SoundAt,
}
use mlab_mcu_edu.Apps.FullPeripheral.Verdict.Evidence.{if-Ensures, go_on-Ensures}
use mlab_mcu_edu.Apps.FullPeripheral.Verdict.UartIrq.{tx_idle, tx_next, tx_end}
use mlab_mcu_edu.Apps.FullPeripheral.Verdict.UartRounds.{Delivered-flag}
use mlab_mcu_edu.Apps.FullPeripheral.Eeprom.{
  i2c_data, sent_off, read_back, progress, Progress, At, AtState, AtNext, At-Moved, quiet-AtNext,
  write-AtNext, read-AtNext,
}
use mlab_mcu_edu.Apps.FullPeripheral.Eeprom.Setup.{
  drive_pin-Inert, gpio_handler-Inert, timer_irq_handler-Inert, check-AtNext,
}

other_control : (a : ℕ) → a ≡ uart_base_addr → (i2c_data == uart_control a) ≡ false
other_control a e = rw e refl

other_data : (a : ℕ) → a ≡ uart_base_addr → (i2c_data == uart_tx_data a) ≡ false
other_data a e = rw e refl

module _ (hw : Hardware) (mem₀ : ℕ → ℕ) (w r u : ℕ) where
  -- One run of commands that leaves the register and memory alone.
  moved-AtNext :
      (c : Cmd Globals (Unit {0})) (s : TestState) (p : Progress) (m : Machine Globals)
      → ((m' : Machine Globals) → At mem₀ w r p m' → AtState mem₀ w r s m')
      → Ensures (λ _ m'. Moved i2c_data [] [] m m') (c m)
      → At mem₀ w r p m
      → Ensures (AtNext mem₀ w r) (go_on c s m)
  moved-AtNext c s p m next h v =
      go_on-Ensures (AtNext mem₀ w r) c s m
        (Ensures-map (c m) h (λ _ m' t. next m' (At-Moved mem₀ w r p t v)))

  -- The interrupts of the UART.
  tx_idle-Moved :
      (m : Machine Globals)
      → m.app.huart.g_state ≡ UartState.ready
      → Ensures (λ _ m'. Moved i2c_data [] [] m m') (uart_tx_irq_handler hw m)
  tx_idle-Moved m e =
      rw (tx_idle hw m e, Ensures) (record { wrote = refl; heard = refl; mem = refl })

  module _ {g t d : Bool} (m : Machine Globals) where
    tx-Sending-Moved :
        {p : Phase} (k : ℕ)
        → Sound w r u g t d p m
        → (v : Sending u m) → v.k ≡ k
        → Ensures (λ _ m'. Moved i2c_data [] [] m m') (uart_tx_irq_handler hw m)
    tx-Sending-Moved zero s v e =
        let other = other_control m.app.huart.instance_addr s.addr in
        rw (tx_end hw m v.busy (v.count ∙ e), Ensures)
          (record { wrote = rw other refl; heard = rw other refl; mem = refl })
    tx-Sending-Moved (suc k) s v e =
        let small : suc k < 2 ^ 16 = omega (arith, v.total) in
        let other = other_data m.app.huart.instance_addr s.addr in
        rw (tx_next hw m k v.busy (v.count ∙ e) small, Ensures)
          (record { wrote = rw other refl; heard = refl; mem = refl })

    uart_tx_irq-Moved :
        (p : Phase)
        → Sound w r u g t d p m
        → Ensures (λ _ m'. Moved i2c_data [] [] m m') (uart_tx_irq_handler hw m)
    uart_tx_irq-Moved not_yet s = tx_idle-Moved m s.uart.idle
    uart_tx_irq-Moved under_way s = elim s.uart [
      | inl v ↦ tx-Sending-Moved v.k s v refl
      | inr v ↦ tx_idle-Moved m v.idle
    ]
    uart_tx_irq-Moved over s = tx_idle-Moved m s.uart.idle

    uart_rx_irq-Moved :
        {p : Phase}
        → Sound w r u g t d p m
        → Ensures (λ _ m'. Moved i2c_data [] [] m m') (uart_rx_irq_handler hw m)
    unfolding uart_rx_irq_handler rx_not_empty_irq_handler
    uart_rx_irq-Moved s = rw (s.rx, Ensures) (record { wrote = refl; heard = refl; mem = refl })

  -- The rounds that use the UART.
  start_uart-Moved :
      (i2c : I2cHandle) (m : Machine Globals)
      → 0 < u
      → SoundAt w r u uart_tx m
      → Ensures (λ _ m'. Moved i2c_data [] [] m m') (start_uart hw i2c w r u m)
  unfolding start_uart
  start_uart-Moved i2c m notNull s =
      let other = other_control m.app.huart.instance_addr s.addr in
      rw (uart_transmit_it_ready hw pure m.app.huart u 37 m s.uart.idle notNull, Ensures)
        (record { wrote = rw other refl; heard = rw other refl; mem = refl })

  tx_disable-Moved :
      (m : Machine Globals)
      → m.app.huart.g_state ≡ UartState.ready
      → m.app.huart.instance_addr ≡ uart_base_addr
      → Ensures (λ _ m'. Moved i2c_data [] [] m m') (tx_disable hw m.app.huart m)
  unfolding tx_disable
  tx_disable-Moved m e a =
      let other = other_control m.app.huart.instance_addr a in
      rw (e, Ensures) (record { wrote = rw other refl; heard = rw other refl; mem = refl })

  module _ (i2c : I2cHandle) (at : i2c.regs ≡ 0x3000_0000) (isReady : i2c.state ≡ ready)
      (notNull : 0 < u) where
    wait_gpio-AtNext :
        (m : Machine Globals)
        → m.mem ≡ mem₀
        → Ensures (AtNext mem₀ w r) (step hw i2c w r u wait_gpio_8_irq m)
    unfolding step
    wait_gpio-AtNext m v =
        if-Ensures (AtNext mem₀ w r) (is_clear m.app.gpio_int_status 256) _ _ m (λ _. v) (λ _. v)

    wait_timer-AtNext :
        (m : Machine Globals)
        → m.mem ≡ mem₀
        → Ensures (AtNext mem₀ w r) (step hw i2c w r u wait_timer_irq m)
    unfolding step stop_timer timer_clear_ctrl
    wait_timer-AtNext m v =
        if-Ensures (AtNext mem₀ w r) (m.app.timer_int_status == 0) _ _ m (λ _. v) (λ _. v)

    wait_uart-AtNext :
        (m : Machine Globals)
        → SoundAt w r u uart_tx_wait_cplt m
        → AtState mem₀ w r uart_tx_wait_cplt m
        → Ensures (AtNext mem₀ w r) (step hw i2c w r u uart_tx_wait_cplt m)
    unfolding step
    wait_uart-AtNext m s v =
        if-Ensures (AtNext mem₀ w r) (m.app.uart_tx_cmpl_callback == 0) _ _ m (λ _. v)
          (λ called.
            let idle = (Delivered-flag hw w r u m called s.uart).idle in
            moved-AtNext (tx_disable hw m.app.huart) uart_tx_cplt read_back m (λ _ x. x)
              (tx_disable-Moved m idle s.addr) v)

    quiet :
        (pin : ℕ) (s : TestState) (p : Progress) (m : Machine Globals)
        → ((m' : Machine Globals) → At mem₀ w r p m' → AtState mem₀ w r s m')
        → At mem₀ w r p m
        → Ensures (AtNext mem₀ w r) (go_on (drive_pin hw pin) s m)
    quiet pin s p m next v =
        quiet-AtNext mem₀ w r (drive_pin hw pin) s p m next (drive_pin-Inert hw pin) v

    step-AtNext :
        (s : TestState) (m : Machine Globals)
        → SoundAt w r u s m
        → AtState mem₀ w r s m
        → Ensures (AtNext mem₀ w r) (step hw i2c w r u s m)
    unfolding step start_timer timer_set timer_en
    step-AtNext test_start m s v = v
    step-AtNext wait_gpio_8_irq m s v = wait_gpio-AtNext m v
    step-AtNext set_gpio_0 m s v = v
    step-AtNext set_timer m s v = v
    step-AtNext wait_timer_irq m s v = wait_timer-AtNext m v
    step-AtNext set_gpio_1 m s v = v
    step-AtNext i2c_write_to_eeprom m s v = write-AtNext mem₀ w r hw i2c at isReady u m v
    step-AtNext set_gpio_2 m s v = quiet (2 ^ 4) i2c_read_from_eeprom sent_off m (λ _ x. x) v
    step-AtNext i2c_read_from_eeprom m s v = read-AtNext mem₀ w r hw i2c at isReady m v
    step-AtNext set_gpio_3 m s v = quiet (2 ^ 5) check_rw_data read_back m (λ _ x. x) v
    step-AtNext check_rw_data m s v = check-AtNext hw mem₀ w r u i2c m v
    step-AtNext set_gpio_4 m s v = quiet (2 ^ 6) uart_tx read_back m (λ _ x. x) v
    step-AtNext uart_tx m s v =
        moved-AtNext (start_uart hw i2c w r u) uart_tx_wait_cplt read_back m (λ _ x. x)
          (start_uart-Moved i2c m notNull s) v
    step-AtNext uart_tx_wait_cplt m s v = wait_uart-AtNext m s v
    step-AtNext uart_tx_cplt m s v = quiet (2 ^ 7) finish read_back m (λ _ x. x) v
    step-AtNext set_gpio_5 m s v = tt
    step-AtNext uart_rx m s v = tt
    step-AtNext set_gpio_6 m s v = tt
    step-AtNext finish m s v = tt

    pub event-AtNext :
        (e : Event) (s : TestState) (m : Machine Globals)
        → SoundAt w r u s m
        → AtState mem₀ w r s m
        → Ensures (AtNext mem₀ w r) (event hw w r u i2c e s m)
    unfolding event
    event-AtNext round s m o v = step-AtNext s m o v
    event-AtNext gpio_irq s m o v =
        quiet-AtNext mem₀ w r (gpio_handler hw) s (progress s) m (λ _ x. x) (gpio_handler-Inert hw)
          v
    event-AtNext timer_irq s m o v =
        quiet-AtNext mem₀ w r (timer_irq_handler hw) s (progress s) m (λ _ x. x)
          (timer_irq_handler-Inert hw) v
    event-AtNext uart_tx_irq s m o v =
        moved-AtNext (uart_tx_irq_handler hw) s (progress s) m (λ _ x. x)
          (uart_tx_irq-Moved m (uart_phase s) o) v
    event-AtNext uart_rx_irq s m o v =
        moved-AtNext (uart_rx_irq_handler hw) s (progress s) m (λ _ x. x) (uart_rx_irq-Moved m o) v
