-- ===== src/Apps/FullPeripheral/Eeprom/Run.antt =====
-- The test of all peripherals from its start to success.
use mlab_mcu_edu.Prelude.{ℕ, ◌<◌, ◌≡◌, refl, ap, ◌∙◌, Option, some, List, [], ◌∷◌}
use mlab_mcu_edu.Machine.{write, Hardware, Machine}
use mlab_mcu_edu.Machine.Keeps.{
  Ensures, Ensures->>=, Ensures-map, Ensures-next, Ensures-result, LeftAlone,
}
use mlab_mcu_edu.I2c.{I2cHandle, ready}
use mlab_mcu_edu.I2c.Blocking.{i2c_init}
use mlab_mcu_edu.I2c.Blocking.Footprint.{i2c_init-Keeps}
use mlab_mcu_edu.Uart.{UartState, uart_init, tx_enable, rx_enable}
use mlab_mcu_edu.Timer.{timer_init}
use mlab_mcu_edu.Apps.FullPeripheral.{TestState, test_start, finish, Globals, test_setup}
use mlab_mcu_edu.Apps.FullPeripheral.Verdict.{
  Event, event, run, test_main, tx_data, Passed, SoundAt, SoundNext,
}
use mlab_mcu_edu.Apps.FullPeripheral.Verdict.Run.{
  PoweredUp, i2c_regs, outside, Ensures-both, setup-Sound, event-SoundNext,
}
use mlab_mcu_edu.Apps.FullPeripheral.Eeprom.{AtState, AtNext}
use mlab_mcu_edu.Apps.FullPeripheral.Eeprom.Setup.{
  FromEeprom, compared-FromEeprom, i2c_init-Inert, init-ready,
}
use mlab_mcu_edu.Apps.FullPeripheral.Eeprom.Rounds.{event-AtNext}

module _ (hw : Hardware) (w r u : ℕ) (notNull : 0 < u) where
  -- The invariants of the verdict and of the traffic, together.
  abbrev BothNext : (mem₀ : ℕ → ℕ) → Option TestState → Machine Globals → Type 0
  BothNext mem₀ next m = SoundNext w r u next m × AtNext mem₀ w r next m

  run-BothNext :
      (mem₀ : ℕ → ℕ) (i2c : I2cHandle) (es : List Event) (s : TestState) (m : Machine Globals)
      → i2c.regs ≡ i2c_regs
      → i2c.state ≡ ready
      → SoundAt w r u s m
      → AtState mem₀ w r s m
      → Ensures (BothNext mem₀) (run hw w r u i2c es s m)
  unfolding run
  run-BothNext mem₀ i2c [] s m at isReady v t = (v, t)
  run-BothNext mem₀ i2c (e ∷ es) s m at isReady v t =
      let P = BothNext mem₀ in
      Ensures->>= P P (event hw w r u i2c e s) _ m
        (Ensures-both (SoundNext w r u) (AtNext mem₀ w r) (event hw w r u i2c e s m)
          (event-SoundNext hw w r u notNull i2c e s m at v)
          (event-AtNext hw mem₀ w r u i2c at isReady notNull e s m v t))
        (Ensures-next P _ (λ s' m' (v', t'). run-BothNext mem₀ i2c es s' m' at isReady v' t'))

  setup-AtState :
      (i2c₀ : I2cHandle) (m : Machine Globals)
      → PoweredUp m
      → Ensures
          (λ i2c m'. (i2c.state ≡ ready) × AtState m.mem w r test_start m')
          (test_setup hw i2c₀ m)
  unfolding test_setup timer_init uart_init tx_enable rx_enable
  setup-AtState i2c₀ m on =
      let m₁ : Machine Globals = record m {
        log = write 0x2000_0004 0 ∷ write 0x2000_0000 0 ∷ m.log;
        app = record (m.app) { timer_shadow = 0 };
      } in
      let init = i2c_init hw i2c₀ i2c_regs 400 80 in
      let out = outside i2c_regs refl in
      let P : I2cHandle → Machine Globals → Type 0 = λ i2c _. i2c.state ≡ ready in
      let Q : I2cHandle → Machine Globals → Type 0 =
        λ _ m₂. LeftAlone tx_data m₁ m₂ × (m₂.mem ≡ m.mem) in
      Ensures->>= (λ i2c m₂. P i2c m₂ × Q i2c m₂) _ init _ m₁
        (Ensures-both P Q (init m₁) (init-ready hw i2c₀ m₁) (
          Ensures-both (λ _ m₂. LeftAlone tx_data m₁ m₂) (λ _ m₂. m₂.mem ≡ m.mem) (init m₁)
            ((i2c_init-Keeps hw tx_data i2c_regs out i2c₀ 400 80).keeps m₁)
            (Ensures-map (init m₁) ((i2c_init-Inert hw i2c₀).inert m₁) (λ _ m₂ t. t.mem))))
        (λ i2c m₂ (isReady, (alone, same)).
          let off : m₂.app.huart.g_state ≡ UartState.reset =
            ap (λ x. x.huart.g_state) alone.app ∙ on.uart in
          rw (off, Ensures) (isReady, same))

  -- Whatever the hardware answers, and whatever interrupts come between the rounds of the loop of
  -- `main` and in whatever order: if the test, from power-up, reports success on pin 7 and reaches
  -- its last state, then the GPIO's interrupt status was read with pin 8 in it, an interrupt of the
  -- timer was acknowledged, the buffers of the data agree, and what was written to the transmit
  -- register of the UART is the message, its 38 bytes in order. The data register of the I2C core was
  -- given the address and the four bytes of the data to write, as it was at first, and the address
  -- and the first two of them. The last two values that it was read for
  -- are what the last two of those four bytes of the buffer are at the end. The message is not at address 0.
  pub test_main-Passed :
      (i2c₀ : I2cHandle) (es : List Event) (m m' : Machine Globals)
      → PoweredUp m
      → test_main hw w r u i2c₀ es m ≡ some (some finish, m')
      → Passed w r u m' × FromEeprom m.mem w r m'
  unfolding test_main
  test_main-Passed i2c₀ es m m' on e =
      let P : I2cHandle → Machine Globals → Type 0 =
        λ i2c m₁. (i2c.regs ≡ i2c_regs) × SoundAt w r u test_start m₁ in
      let Q : I2cHandle → Machine Globals → Type 0 =
        λ i2c m₁. (i2c.state ≡ ready) × AtState m.mem w r test_start m₁ in
      let ends : Ensures (BothNext m.mem) (test_main hw w r u i2c₀ es m) =
        Ensures->>= (λ i2c m₁. P i2c m₁ × Q i2c m₁) (BothNext m.mem) (test_setup hw i2c₀) _ m
          (Ensures-both P Q (test_setup hw i2c₀ m) (setup-Sound hw w r u notNull i2c₀ m on)
            (setup-AtState i2c₀ m on))
          (λ i2c m₁ ((at, v), (isReady, t)).
            run-BothNext m.mem i2c es test_start m₁ at isReady v t) in
      let (v, t) = Ensures-result (BothNext m.mem) (test_main hw w r u i2c₀ es m) ends e in
      (
        record { button = v.gpio; tick = v.timer; eeprom = v.data_seen; message = v.uart.sent },
        compared-FromEeprom m.mem w r m' v.data_seen t,
      )
