-- ===== src/Apps/Peripherals/Verdict.antt =====
-- The first test of the peripherals with its interrupts: what must have been seen by the time that it
-- reports success on pin 4.
use mlab_mcu_edu.Prelude.{ℕ, ◌≡◌, refl, some, List, [], ◌∷◌, Bool, true, false, ◌&&◌, is_clear}
use mlab_mcu_edu.Machine.{write, Hardware, Machine}
use mlab_mcu_edu.Machine.Keeps.{
  Ensures, Ensures-map, Ensures->>=, Ensures-next, Ensures-result, LeftAlone,
}
use mlab_mcu_edu.I2c.{I2cHandle, ready}
use mlab_mcu_edu.I2c.Blocking.{i2c_init}
use mlab_mcu_edu.I2c.Blocking.Footprint.{Outside, i2c_init-Keeps}
use mlab_mcu_edu.Gpio.{gpio_base_addr, gpio_ints}
use mlab_mcu_edu.Timer.{timer_init, timer_ack_intrq}
use mlab_mcu_edu.Apps.FullPeripheral.{
  TestState, test_start, finish, Globals, gpio_handler, timer_irq_handler,
}
use mlab_mcu_edu.Apps.FullPeripheral.Verdict.{tx_data, pressed, ticked, compared}
use mlab_mcu_edu.Apps.FullPeripheral.Verdict.Evidence.{or_true, go_on-Ensures}
use mlab_mcu_edu.Apps.FullPeripheral.Verdict.Irqs.{gpio_now}
use mlab_mcu_edu.Apps.FullPeripheral.Verdict.Run.{
  PoweredUp, i2c_regs, Ensures-both, init-regs, outside,
}
use mlab_mcu_edu.Apps.FullPeripheral.Eeprom.{AtState, AtNext}
use mlab_mcu_edu.Apps.FullPeripheral.Eeprom.Setup.{FromEeprom, compared-FromEeprom}
use mlab_mcu_edu.Apps.Peripherals.Traffic.{setup-AtState, run-AtNext}
use mlab_mcu_edu.Apps.Peripherals.Rounds.{Seen, SeenAt, SeenNext, Seen-before, step-SeenNext}
use mlab_mcu_edu.Apps.Peripherals.{
  PeripheralsEvent, round, gpio_irq, timer_irq, other_irq, peripherals_setup, peripherals_event,
  peripherals_run, peripherals_main,
}

-- What a passed test shows, in the log and in memory.
pub record Verified (w r : ℕ) (m : Machine Globals) : Type 0 where
  pub button : pressed m.log ≡ true
  pub tick : ticked m.log ≡ true
  pub eeprom : compared w r m.mem ≡ true

module _ (hw : Hardware) (w r u : ℕ) (i2c : I2cHandle) (out : Outside tx_data i2c.regs) where
  gpio_irq-Seen :
      {g t d : Bool} (m : Machine Globals)
      → Seen w r g t d m
      → Ensures (λ _ m'. Seen w r g t d m') (gpio_handler hw m)
  unfolding gpio_handler
  gpio_irq-Seen {g} m s = record {
    gpio =
        gpio_now g (is_clear m.app.gpio_int_status 256)
          (is_clear (hw.value m.log (gpio_ints gpio_base_addr)) 256) (pressed m.log) s.gpio;
    timer = s.timer;
    data_seen = s.data_seen;
  }

  timer_irq-Seen :
      {g t d : Bool} (m : Machine Globals)
      → Seen w r g t d m
      → Ensures (λ _ m'. Seen w r g t d m') (timer_irq_handler hw m)
  unfolding timer_irq_handler timer_init timer_ack_intrq
  timer_irq-Seen {t = t} m s = record {
    gpio = s.gpio;
    timer = or_true (t && false);
    data_seen = s.data_seen;
  }

  event-SeenNext :
      (e : PeripheralsEvent) (s : TestState) (m : Machine Globals)
      → SeenAt w r s m
      → Ensures (SeenNext w r) (peripherals_event hw i2c w r u e s m)
  unfolding peripherals_event
  event-SeenNext round s m v = step-SeenNext hw w r u i2c out s m v
  event-SeenNext gpio_irq s m v =
      go_on-Ensures (SeenNext w r) (gpio_handler hw) s m (gpio_irq-Seen m v)
  event-SeenNext timer_irq s m v =
      go_on-Ensures (SeenNext w r) (timer_irq_handler hw) s m (timer_irq-Seen m v)
  event-SeenNext other_irq s m v = tt

  run-SeenNext :
      (es : List PeripheralsEvent) (s : TestState) (m : Machine Globals)
      → SeenAt w r s m
      → Ensures (SeenNext w r) (peripherals_run hw i2c w r u es s m)
  unfolding peripherals_run
  run-SeenNext [] s m v = v
  run-SeenNext (e ∷ es) s m v =
      Ensures->>= (SeenNext w r) (SeenNext w r) (peripherals_event hw i2c w r u e s) _ m
        (event-SeenNext e s m v)
        (Ensures-next (SeenNext w r) _ (λ s' m' v'. run-SeenNext es s' m' v'))

module _ (hw : Hardware) (w r u : ℕ) where
  setup-Seen :
      (i2c₀ : I2cHandle) (m : Machine Globals)
      → PoweredUp m
      → Ensures
          (λ i2c m'. (i2c.regs ≡ i2c_regs) × SeenAt w r test_start m')
          (peripherals_setup hw i2c₀ m)
  unfolding peripherals_setup timer_init
  setup-Seen i2c₀ m on =
      let m₁ : Machine Globals = record m {
        log = write 0x2000_0004 0 ∷ write 0x2000_0000 0 ∷ m.log;
        app = record (m.app) { timer_shadow = 0 };
      } in
      let init = i2c_init hw i2c₀ i2c_regs 400 80 in
      let v : SeenAt w r test_start m₁ = record {
        gpio = rw on.gpio refl;
        timer = rw on.timer refl;
        data_seen = refl;
      } in
      Ensures-map (init m₁)
        (Ensures-both (λ i2c _. i2c.regs ≡ i2c_regs) (λ _ m₂. LeftAlone tx_data m₁ m₂) (init m₁)
          (init-regs hw i2c₀ m₁)
          ((i2c_init-Keeps hw tx_data i2c_regs (outside i2c_regs refl) i2c₀ 400 80).keeps m₁))
        (λ i2c m₂ (e, alone). (e, Seen-before w r alone v))

  main-AtNext :
      (i2c₀ : I2cHandle) (es : List PeripheralsEvent) (m : Machine Globals)
      → Ensures (AtNext m.mem w r) (peripherals_main hw w r u i2c₀ es m)
  unfolding peripherals_main
  main-AtNext i2c₀ es m =
      Ensures->>=
        (λ i2c m₁. (i2c.regs ≡ i2c_regs) × (i2c.state ≡ ready) × AtState m.mem w r test_start m₁)
        (AtNext m.mem w r) (peripherals_setup hw i2c₀) _ m
        (setup-AtState hw m.mem w r u i2c₀ m refl)
        (λ i2c m₁ (at, isReady, v). run-AtNext hw m.mem w r u i2c at isReady es test_start m₁ v)

  -- Whatever the hardware answers, and whatever interrupts come between the rounds of the loop of
  -- `main` and in whatever order: if the first test of the peripherals, from power-up, reports
  -- success on pin 4 and reaches its last state, then the GPIO's interrupt status was read with pin 8
  -- in it, an interrupt of the timer was acknowledged, and the buffers of the data agree. The data
  -- register of the I2C core was given the address and the four bytes of the data to write, as it was
  -- at first, and the address and the first two of them. The last two values that it was read for
  -- are what the last two of those four bytes of the buffer are at the end.
  pub peripherals_main-Verified :
      (i2c₀ : I2cHandle) (es : List PeripheralsEvent) (m m' : Machine Globals)
      → PoweredUp m
      → peripherals_main hw w r u i2c₀ es m ≡ some (some finish, m')
      → Verified w r m' × FromEeprom m.mem w r m'
  unfolding peripherals_main
  peripherals_main-Verified i2c₀ es m m' on e =
      let ends : Ensures (SeenNext w r) (peripherals_main hw w r u i2c₀ es m) =
        Ensures->>= (λ i2c m₁. (i2c.regs ≡ i2c_regs) × SeenAt w r test_start m₁) (SeenNext w r)
          (peripherals_setup hw i2c₀) _ m (setup-Seen i2c₀ m on)
          (λ i2c m₁ (at, v). run-SeenNext hw w r u i2c (outside i2c.regs at) es test_start m₁ v) in
      let v = Ensures-result (SeenNext w r) (peripherals_main hw w r u i2c₀ es m) ends e in
      let t =
        Ensures-result (AtNext m.mem w r) (peripherals_main hw w r u i2c₀ es m)
          (main-AtNext i2c₀ es m) e in
      (
        record { button = v.gpio; tick = v.timer; eeprom = v.data_seen },
        compared-FromEeprom m.mem w r m' v.data_seen t,
      )
