-- ===== src/Apps/Peripherals/Rounds.antt =====
-- A round of the loop of the first test of the peripherals keeps what has been seen, whatever the
-- hardware answers.
use mlab_mcu_edu.Prelude.{
  ℕ, ◌+◌, ◌^◌, ◌≡◌, refl, Option, none, some, [], ◌∷◌, Bool, true, ◌==◌, ◌&&◌, ◌||◌, is_clear,
  bit_or, inl, inr, Bool-cases, u32,
}
use mlab_mcu_edu.Machine.{write, Hardware, Machine, Cmd}
use mlab_mcu_edu.Machine.Keeps.{Ensures, Ensures-map, Keeps, Keeps->>=, Keeps-store, LeftAlone}
use mlab_mcu_edu.I2c.{I2cHandle}
use mlab_mcu_edu.I2c.Blocking.Footprint.{Outside, master_receive-Keeps}
use mlab_mcu_edu.Gpio.{gpio_base_addr, gpio_out, gpio_oe, gpio_inte, gpio_ctrl}
use mlab_mcu_edu.Timer.{timer_clear_ctrl, timer_set, timer_en, set_shadow}
use mlab_mcu_edu.Apps.FullPeripheral.{
  TestState, test_start, wait_gpio_8_irq, set_gpio_0, set_timer, wait_timer_irq, set_gpio_1,
  i2c_write_to_eeprom, set_gpio_2, i2c_read_from_eeprom, set_gpio_3, check_rw_data, set_gpio_4,
  uart_tx, uart_tx_wait_cplt, uart_tx_cplt, set_gpio_5, uart_rx, set_gpio_6, finish, Globals, go_on,
  check_data, start_timer, stop_timer,
}
use mlab_mcu_edu.Apps.FullPeripheral.Verdict.{
  tx_data, pressed, ticked, compared, gpio_due, timer_due, data_due,
}
use mlab_mcu_edu.Apps.FullPeripheral.Verdict.Evidence.{
  gpio-append, timer-append, go_on-Ensures, if-Ensures,
}
use mlab_mcu_edu.Apps.FullPeripheral.Verdict.Rounds.{drive_pin-Keeps, i2c_write-Keeps}
use mlab_mcu_edu.Apps.Peripherals.{peripherals_step}

-- The invariant of the loop: what is seen, and what the globals say is seen.
pub record Seen (w r : ℕ) (g t d : Bool) (m : Machine Globals) : Type 0 where
  pub gpio : ((g && is_clear m.app.gpio_int_status 256) || pressed m.log) ≡ true
  pub timer : ((t && (m.app.timer_int_status == 0)) || ticked m.log) ≡ true
  pub data_seen : (d || compared w r m.mem) ≡ true

abbrev pub SeenAt : (w r : ℕ) → TestState → Machine Globals → Type 0
SeenAt w r s m = Seen w r (gpio_due s) (timer_due s) (data_due s) m

abbrev pub SeenNext : (w r : ℕ) → Option TestState → Machine Globals → Type 0
SeenNext w r none m = Unit
SeenNext w r (some s) m = SeenAt w r s m

-- Commands that leave memory's data unchecked and the globals alone.
pub Seen-before :
    (w r : ℕ) {g t : Bool} {m m' : Machine Globals}
    → LeftAlone tx_data m m'
    → Seen w r g t true m
    → Seen w r g t true m'
Seen-before w r {g} {t} {m} alone s = record {
  gpio =
      rw (alone.app, alone.log)
        (gpio-append (g && is_clear m.app.gpio_int_status 256) alone.added m.log s.gpio);
  timer =
      rw (alone.app, alone.log)
        (timer-append (t && (m.app.timer_int_status == 0)) alone.added m.log s.timer);
  data_seen = refl;
}

module _ (hw : Hardware) (w r u : ℕ) (i2c : I2cHandle) (out : Outside tx_data i2c.regs) where
  round-before :
      {g t : Bool} (c : Cmd Globals (Unit {0})) (s : TestState) (m : Machine Globals)
      → ((m' : Machine Globals) → Seen w r g t true m' → SeenAt w r s m')
      → Keeps tx_data c
      → Seen w r g t true m
      → Ensures (SeenNext w r) (go_on c s m)
  round-before c s m next k v =
      go_on-Ensures (SeenNext w r) c s m
        (Ensures-map (c m) (k.keeps m) (λ _ m' alone. next m' (Seen-before w r alone v)))

  wait_gpio-SeenNext :
      (m : Machine Globals)
      → SeenAt w r wait_gpio_8_irq m
      → Ensures (SeenNext w r) (peripherals_step hw i2c w r u wait_gpio_8_irq m)
  unfolding peripherals_step
  wait_gpio-SeenNext m s =
      if-Ensures (SeenNext w r) (is_clear m.app.gpio_int_status 256) _ _ m (λ still. s)
        (λ came. record { gpio = rw came at s.gpio; timer = s.timer; data_seen = refl })

  wait_timer-SeenNext :
      (m : Machine Globals)
      → SeenAt w r wait_timer_irq m
      → Ensures (SeenNext w r) (peripherals_step hw i2c w r u wait_timer_irq m)
  unfolding peripherals_step stop_timer timer_clear_ctrl
  wait_timer-SeenNext m s =
      if-Ensures (SeenNext w r) (m.app.timer_int_status == 0) _ _ m (λ still. s)
        (λ came. record { gpio = s.gpio; timer = rw came at s.timer; data_seen = refl })

  set_timer-SeenNext :
      (m : Machine Globals)
      → SeenAt w r set_timer m
      → Ensures (SeenNext w r) (peripherals_step hw i2c w r u set_timer m)
  unfolding peripherals_step start_timer timer_set timer_en
  set_timer-SeenNext m s = record {
    gpio = s.gpio;
    timer =
        timer-append (m.app.timer_int_status == 0)
          (write 0x2000_0000 (bit_or (set_shadow m.app.timer_shadow 0) 3)
            ∷ write 0x2000_0000 (set_shadow m.app.timer_shadow 0)
            ∷ write 0x2000_0004 0x400
            ∷ [])
          m.log s.timer;
    data_seen = refl;
  }

  check-SeenNext :
      (m : Machine Globals)
      → SeenAt w r check_rw_data m
      → Ensures (SeenNext w r) (peripherals_step hw i2c w r u check_rw_data m)
  unfolding peripherals_step check_data
  check-SeenNext m s = elim (Bool-cases (m.mem (u32 (w + 2)) == m.mem r)) [
    | inl first ↦ elim (Bool-cases (m.mem (u32 (w + 3)) == m.mem (u32 (r + 1)))) [
      | inl second ↦
          rw (first, second, Ensures)
            (record { gpio = s.gpio; timer = s.timer; data_seen = rw (first, second) refl })
      | inr other ↦ rw (first, other, Ensures) tt
    ]
    | inr other ↦ rw (other, Ensures) tt
  ]

  last_pin-SeenNext :
      (m : Machine Globals)
      → SeenAt w r set_gpio_4 m
      → Ensures (SeenNext w r) (peripherals_step hw i2c w r u set_gpio_4 m)
  unfolding peripherals_step
  last_pin-SeenNext m s = record { gpio = s.gpio; timer = s.timer; data_seen = s.data_seen }

  -- A round, from every state.
  pub step-SeenNext :
      (s : TestState) (m : Machine Globals)
      → SeenAt w r s m
      → Ensures (SeenNext w r) (peripherals_step hw i2c w r u s m)
  step-SeenNext test_start m s =
      unfold peripherals_step in
      round-before _ wait_gpio_8_irq m (λ m' v. v)
        (Keeps->>= tx_data (Keeps-store tx_data (gpio_inte gpio_base_addr) (2 ^ 8) refl)
          (λ _. Keeps-store tx_data (gpio_ctrl gpio_base_addr) 1 refl))
        s
  step-SeenNext wait_gpio_8_irq m s = wait_gpio-SeenNext m s
  step-SeenNext set_gpio_0 m s =
      unfold peripherals_step in
      round-before _ set_timer m (λ m' v. v)
        (Keeps->>= tx_data (Keeps-store tx_data (gpio_oe gpio_base_addr) 1 refl)
          (λ _. Keeps-store tx_data (gpio_out gpio_base_addr) 1 refl))
        s
  step-SeenNext set_timer m s = set_timer-SeenNext m s
  step-SeenNext wait_timer_irq m s = wait_timer-SeenNext m s
  step-SeenNext set_gpio_1 m s =
      unfold peripherals_step in
      round-before _ i2c_write_to_eeprom m (λ m' v. v) (drive_pin-Keeps hw w r u (2 ^ 1)) s
  step-SeenNext i2c_write_to_eeprom m s =
      unfold peripherals_step in
      round-before _ set_gpio_2 m (λ m' v. v) (i2c_write-Keeps hw w r u i2c out) s
  step-SeenNext set_gpio_2 m s =
      unfold peripherals_step in
      round-before _ i2c_read_from_eeprom m (λ m' v. v) (drive_pin-Keeps hw w r u (2 ^ 2)) s
  step-SeenNext i2c_read_from_eeprom m s =
      unfold peripherals_step in
      round-before _ set_gpio_3 m (λ m' v. v) (master_receive-Keeps hw tx_data i2c out 0xA0 r 2) s
  step-SeenNext set_gpio_3 m s =
      unfold peripherals_step in
      round-before _ check_rw_data m (λ m' v. v) (drive_pin-Keeps hw w r u (2 ^ 3)) s
  step-SeenNext check_rw_data m s = check-SeenNext m s
  step-SeenNext set_gpio_4 m s = last_pin-SeenNext m s
  step-SeenNext uart_tx m s = unfold peripherals_step in tt
  step-SeenNext uart_tx_wait_cplt m s = unfold peripherals_step in tt
  step-SeenNext uart_tx_cplt m s = unfold peripherals_step in tt
  step-SeenNext set_gpio_5 m s = unfold peripherals_step in tt
  step-SeenNext uart_rx m s = unfold peripherals_step in tt
  step-SeenNext set_gpio_6 m s = unfold peripherals_step in tt
  step-SeenNext finish m s = unfold peripherals_step in tt
