-- ===== src/Apps/FullPeripheral/Verdict/UartRounds.antt =====
-- The rounds of the loop that send the message keep the invariant of the test.
use mlab_mcu_edu.Prelude.{
  ℕ, ◌<◌, ◌≡◌, refl, ◌∙◌, ◌⊎◌, inl, inr, [], ◌∷◌, false, ◌==◌, bit_or, bit_and, not32, arith,
}
use mlab_mcu_edu.Machine.{read, write, Hardware, Machine, pure}
use mlab_mcu_edu.Machine.Keeps.{Ensures}
use mlab_mcu_edu.I2c.{I2cHandle}
use mlab_mcu_edu.Uart.{tx_disable, uart_control, uart_tx_int_en, uart_tx_en}
use mlab_mcu_edu.Uart.Interrupt.Transmission.{uart_transmit_it_ready}
use mlab_mcu_edu.Apps.FullPeripheral.{
  set_gpio_4, uart_tx, uart_tx_wait_cplt, uart_tx_cplt, Globals, step, start_uart,
}
use mlab_mcu_edu.Apps.FullPeripheral.Verdict.{tx_data, Sending, Delivered, SoundAt, SoundNext}
use mlab_mcu_edu.Apps.FullPeripheral.Verdict.Evidence.{
  gpio-append, timer-append, silent_log, if-Ensures,
}

module _ (hw : Hardware) (w r u : ℕ) where
  pub start_uart-SoundNext :
      (i2c : I2cHandle) (m : Machine Globals)
      → 0 < u
      → SoundAt w r u uart_tx m
      → Ensures (SoundNext w r u) (step hw i2c w r u uart_tx m)
  unfolding step start_uart
  start_uart-SoundNext i2c m notNull s =
      let c = uart_control m.app.huart.instance_addr in
      let v = hw.value m.log c in
      let k = write c (bit_or v uart_tx_int_en) ∷ read c v ∷ [] in
      let other : (tx_data == c) ≡ false = rw s.addr refl in
      rw (uart_transmit_it_ready hw pure m.app.huart u 37 m s.uart.idle notNull, Ensures)
        (record {
          gpio = gpio-append false k m.log s.gpio;
          timer = timer-append false k m.log s.timer;
          data_seen = s.data_seen;
          addr = s.addr;
          rx = s.rx;
          uart = inl (record {
            j = 0;
            k = 38;
            total = refl;
            busy = refl;
            count = refl;
            at = refl;
            flag = s.uart.flag;
            sent = silent_log k m.log (rw other refl) ∙ s.uart.sent;
          });
        })

  pub Delivered-flag :
      (m : Machine Globals)
      → (m.app.uart_tx_cmpl_callback == 0) ≡ false
      → Sending u m ⊎ Delivered u m
      → Delivered u m
  Delivered-flag m called (inl s) = absurd (ground (arith, s.flag))
  Delivered-flag m called (inr d) = d

  pub wait_uart-SoundNext :
      (i2c : I2cHandle) (m : Machine Globals)
      → SoundAt w r u uart_tx_wait_cplt m
      → Ensures (SoundNext w r u) (step hw i2c w r u uart_tx_wait_cplt m)
  unfolding step tx_disable
  wait_uart-SoundNext i2c m s =
      if-Ensures (SoundNext w r u) (m.app.uart_tx_cmpl_callback == 0) _ _ m (λ still. s)
        (λ called.
          let d = Delivered-flag m called s.uart in
          let c = uart_control m.app.huart.instance_addr in
          let v = hw.value m.log c in
          let k = write c (bit_and v (not32 uart_tx_en)) ∷ read c v ∷ [] in
          let other : (tx_data == c) ≡ false = rw s.addr refl in
          rw (d.idle, Ensures)
            (record {
              gpio = gpio-append false k m.log s.gpio;
              timer = timer-append false k m.log s.timer;
              data_seen = s.data_seen;
              addr = s.addr;
              rx = s.rx;
              uart = record { idle = refl; sent = silent_log k m.log (rw other refl) ∙ d.sent };
            }))

  pub done-SoundNext :
      (i2c : I2cHandle) (m : Machine Globals)
      → SoundAt w r u uart_tx_cplt m
      → Ensures (SoundNext w r u) (step hw i2c w r u uart_tx_cplt m)
  unfolding step
  done-SoundNext i2c m s = record {
    gpio = s.gpio;
    timer = s.timer;
    data_seen = s.data_seen;
    addr = s.addr;
    rx = s.rx;
    uart = record { idle = s.uart.idle; sent = s.uart.sent };
  }

  pub set_gpio_4-SoundNext :
      (i2c : I2cHandle) (m : Machine Globals)
      → SoundAt w r u set_gpio_4 m
      → Ensures (SoundNext w r u) (step hw i2c w r u set_gpio_4 m)
  unfolding step
  set_gpio_4-SoundNext i2c m s = record {
    gpio = s.gpio;
    timer = s.timer;
    data_seen = s.data_seen;
    addr = s.addr;
    rx = s.rx;
    uart = record { idle = s.uart.idle; flag = s.uart.flag; sent = s.uart.sent };
  }
