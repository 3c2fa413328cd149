-- ===== src/Apps/FullPeripheral/Verdict/Rounds.antt =====
-- A round of the loop keeps the invariant of the test, whatever the hardware answers.
use mlab_mcu_edu.Prelude.{
  ℕ, ◌+◌, ◌^◌, ◌<◌, refl, inl, inr, [], ◌∷◌, Bool, true, ◌==◌, is_clear, bit_or, Bool-cases, u32,
}
use mlab_mcu_edu.Machine.{write, Hardware, Machine, Cmd}
use mlab_mcu_edu.Machine.Keeps.{Ensures, Ensures-map, Keeps, Keeps->>=, Keeps-update, Keeps-store}
use mlab_mcu_edu.I2c.{I2cHandle}
use mlab_mcu_edu.I2c.Blocking.Footprint.{Outside, master_transmit-Keeps, master_receive-Keeps}
use mlab_mcu_edu.Gpio.{gpio_base_addr, gpio_out, gpio_oe, gpio_inte, gpio_ctrl}
use mlab_mcu_edu.Timer.{timer_clear_ctrl, timer_set, timer_en, set_shadow}
use mlab_mcu_edu.Apps.FullPeripheral.{
  TestState, test_start, wait_gpio_8_irq, set_gpio_0, set_timer, wait_timer_irq, set_gpio_1,
  i2c_write_to_eeprom, set_gpio_2, i2c_read_from_eeprom, set_gpio_3, check_rw_data, set_gpio_4,
  uart_tx, uart_tx_wait_cplt, uart_tx_cplt, set_gpio_5, uart_rx, set_gpio_6, finish, Globals, go_on,
  check_data, step, start_timer, stop_timer, i2c_write, drive_pin,
}
use mlab_mcu_edu.Apps.FullPeripheral.Verdict.{tx_data, not_yet, Sound, SoundAt, SoundNext}
use mlab_mcu_edu.Apps.FullPeripheral.Verdict.Evidence.{
  timer-append, Sound-before, go_on-Ensures, if-Ensures,
}
use mlab_mcu_edu.Apps.FullPeripheral.Verdict.UartRounds.{
  start_uart-SoundNext, wait_uart-SoundNext, done-SoundNext, set_gpio_4-SoundNext,
}

module _ (hw : Hardware) (w r u : ℕ) where
  -- Commands that leave the UART and the globals alone, before the data is checked.
  round-before :
      {g t : Bool} (c : Cmd Globals (Unit {0})) (s : TestState) (m : Machine Globals)
      → ((m' : Machine Globals) → Sound w r u g t true not_yet m' → SoundAt w r u s m')
      → Keeps tx_data c
      → Sound w r u g t true not_yet m
      → Ensures (SoundNext w r u) (go_on c s m)
  round-before c s m next k v =
      go_on-Ensures (SoundNext w r u) c s m
        (Ensures-map (c m) (k.keeps m) (λ _ m' alone. next m' (Sound-before w r u alone v)))

  pub drive_pin-Keeps : (pin : ℕ) → Keeps tx_data (drive_pin hw pin)
  drive_pin-Keeps pin =
      Keeps->>= tx_data (Keeps-update tx_data hw (gpio_oe gpio_base_addr) (λ v. bit_or v pin) refl)
        (λ _. Keeps-update tx_data hw (gpio_out gpio_base_addr) (λ v. bit_or v pin) refl)

  wait_gpio-SoundNext :
      (i2c : I2cHandle) (m : Machine Globals)
      → SoundAt w r u wait_gpio_8_irq m
      → Ensures (SoundNext w r u) (step hw i2c w r u wait_gpio_8_irq m)
  unfolding step
  wait_gpio-SoundNext i2c m s =
      if-Ensures (SoundNext w r u) (is_clear m.app.gpio_int_status 256) _ _ m (λ still. s)
        (λ came. record {
          gpio = rw came at s.gpio;
          timer = s.timer;
          data_seen = refl;
          addr = s.addr;
          rx = s.rx;
          uart = record { idle = s.uart.idle; flag = s.uart.flag; sent = s.uart.sent };
        })

  wait_timer-SoundNext :
      (i2c : I2cHandle) (m : Machine Globals)
      → SoundAt w r u wait_timer_irq m
      → Ensures (SoundNext w r u) (step hw i2c w r u wait_timer_irq m)
  unfolding step stop_timer timer_clear_ctrl
  wait_timer-SoundNext i2c m s =
      if-Ensures (SoundNext w r u) (m.app.timer_int_status == 0) _ _ m (λ still. s)
        (λ came. record {
          gpio = s.gpio;
          timer = rw came at s.timer;
          data_seen = refl;
          addr = s.addr;
          rx = s.rx;
          uart = record { idle = s.uart.idle; flag = s.uart.flag; sent = s.uart.sent };
        })

  set_timer-SoundNext :
      (i2c : I2cHandle) (m : Machine Globals)
      → SoundAt w r u set_timer m
      → Ensures (SoundNext w r u) (step hw i2c w r u set_timer m)
  unfolding step start_timer timer_set timer_en
  set_timer-SoundNext i2c m s = record {
    gpio = s.gpio;
    timer =
        timer-append (m.app.timer_int_status == 0)
          (write 0x2000_0000 (bit_or (set_shadow m.app.timer_shadow 0) 3)
            ∷ write 0x2000_0000 (set_shadow m.app.timer_shadow 0)
            ∷ write 0x2000_0004 0x400
            ∷ [])
          m.log s.timer;
    data_seen = refl;
    addr = s.addr;
    rx = s.rx;
    uart = record { idle = s.uart.idle; flag = s.uart.flag; sent = s.uart.sent };
  }

  check-SoundNext :
      (i2c : I2cHandle) (m : Machine Globals)
      → SoundAt w r u check_rw_data m
      → Ensures (SoundNext w r u) (step hw i2c w r u check_rw_data m)
  unfolding step check_data
  check-SoundNext i2c m s = elim (Bool-cases (m.mem (u32 (w + 2)) == m.mem r)) [
    | inl first ↦ elim (Bool-cases (m.mem (u32 (w + 3)) == m.mem (u32 (r + 1)))) [
      | inl second ↦
          rw (first, second, Ensures)
            (record {
              gpio = s.gpio;
              timer = s.timer;
              data_seen = rw (first, second) refl;
              addr = s.addr;
              rx = s.rx;
              uart = s.uart;
            })
      | inr other ↦ rw (first, other, Ensures) tt
    ]
    | inr other ↦ rw (other, Ensures) tt
  ]

  pub i2c_write-Keeps :
      (i2c : I2cHandle) → Outside tx_data i2c.regs → Keeps tx_data (i2c_write hw i2c w r u)
  unfolding i2c_write
  i2c_write-Keeps i2c out =
      Keeps->>= tx_data (master_transmit-Keeps hw tx_data i2c out 0xA0 w 4)
        (λ _. master_transmit-Keeps hw tx_data i2c out 0xA0 w 2)

  -- A round, from every state.
  pub step-SoundNext :
      (i2c : I2cHandle) (s : TestState) (m : Machine Globals)
      → Outside tx_data i2c.regs
      → 0 < u
      → SoundAt w r u s m
      → Ensures (SoundNext w r u) (step hw i2c w r u s m)
  step-SoundNext i2c test_start m out nn s =
      unfold step in
      round-before _ wait_gpio_8_irq m (λ m' v. v)
        (Keeps->>= tx_data (Keeps-store tx_data (gpio_inte gpio_base_addr) (2 ^ 8) refl)
          (λ _. Keeps-store tx_data (gpio_ctrl gpio_base_addr) 1 refl))
        s
  step-SoundNext i2c wait_gpio_8_irq m out nn s = wait_gpio-SoundNext i2c m s
  step-SoundNext i2c set_gpio_0 m out nn s =
      unfold step in
      round-before _ set_timer m (λ m' v. v)
        (Keeps->>= tx_data (Keeps-store tx_data (gpio_oe gpio_base_addr) (2 ^ 2) refl)
          (λ _. Keeps-store tx_data (gpio_out gpio_base_addr) (2 ^ 2) refl))
        s
  step-SoundNext i2c set_timer m out nn s = set_timer-SoundNext i2c m s
  step-SoundNext i2c wait_timer_irq m out nn s = wait_timer-SoundNext i2c m s
  step-SoundNext i2c set_gpio_1 m out nn s =
      unfold step in round-before _ i2c_write_to_eeprom m (λ m' v. v) (drive_pin-Keeps (2 ^ 3)) s
  step-SoundNext i2c i2c_write_to_eeprom m out nn s =
      unfold step in round-before _ set_gpio_2 m (λ m' v. v) (i2c_write-Keeps i2c out) s
  step-SoundNext i2c set_gpio_2 m out nn s =
      unfold step in round-before _ i2c_read_from_eeprom m (λ m' v. v) (drive_pin-Keeps (2 ^ 4)) s
  step-SoundNext i2c i2c_read_from_eeprom m out nn s =
      unfold step in
      round-before _ set_gpio_3 m (λ m' v. v) (master_receive-Keeps hw tx_data i2c out 0xA0 r 2) s
  step-SoundNext i2c set_gpio_3 m out nn s =
      unfold step in round-before _ check_rw_data m (λ m' v. v) (drive_pin-Keeps (2 ^ 5)) s
  step-SoundNext i2c check_rw_data m out nn s = check-SoundNext i2c m s
  step-SoundNext i2c set_gpio_4 m out nn s = set_gpio_4-SoundNext hw w r u i2c m s
  step-SoundNext i2c uart_tx m out nn s = start_uart-SoundNext hw w r u i2c m nn s
  step-SoundNext i2c uart_tx_wait_cplt m out nn s = wait_uart-SoundNext hw w r u i2c m s
  step-SoundNext i2c uart_tx_cplt m out nn s = done-SoundNext hw w r u i2c m s
  step-SoundNext i2c set_gpio_5 m out nn s = unfold step in tt
  step-SoundNext i2c uart_rx m out nn s = unfold step in tt
  step-SoundNext i2c set_gpio_6 m out nn s = unfold step in tt
  step-SoundNext i2c finish m out nn s = unfold step in tt
