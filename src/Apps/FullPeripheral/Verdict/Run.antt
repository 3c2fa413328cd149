-- ===== src/Apps/FullPeripheral/Verdict/Run.antt =====
-- The set-up of the test of all peripherals, and one event, keep the invariant of the verdict.
use mlab_mcu_edu.Prelude.{
  ℕ, ◌≡◌, ◌<◌, refl, ap, ◌∙◌, Option, none, some, [], ◌∷◌, is_clear, if◌then◌else◌, bit_or,
}
use mlab_mcu_edu.Machine.{read, write, Hardware, Machine, Cmd, pure, wait_clear, update}
use mlab_mcu_edu.Machine.Runs.{written}
use mlab_mcu_edu.Machine.Keeps.{Ensures, Ensures->>=, LeftAlone}
use mlab_mcu_edu.I2c.{I2cHandle, csr, ctr, i2c_busy, i2c_if, i2c_iack}
use mlab_mcu_edu.I2c.Blocking.{i2c_init}
use mlab_mcu_edu.I2c.Blocking.Footprint.{Outside, i2c_init-Keeps}
use mlab_mcu_edu.Uart.{reset, uart_init, tx_enable, rx_enable}
use mlab_mcu_edu.Timer.{timer_init}
use mlab_mcu_edu.Apps.FullPeripheral.{
  TestState, test_start, Globals, test_setup, gpio_handler, timer_irq_handler, uart_tx_irq_handler,
  uart_rx_irq_handler,
}
use mlab_mcu_edu.Apps.FullPeripheral.Verdict.{
  Event, round, gpio_irq, timer_irq, uart_tx_irq, uart_rx_irq, event, tx_data, SoundAt, SoundNext,
  uart_phase,
}
use mlab_mcu_edu.Apps.FullPeripheral.Verdict.Evidence.{go_on-Ensures, same_written}
use mlab_mcu_edu.Apps.FullPeripheral.Verdict.Rounds.{step-SoundNext}
use mlab_mcu_edu.Apps.FullPeripheral.Verdict.Irqs.{
  gpio_irq-Sound, timer_irq-Sound, uart_tx_irq-Sound, uart_rx_irq-Sound,
}

-- The machine as `main` finds it: no access yet, and the globals as they are initialised.
pub record PoweredUp (m : Machine Globals) : Type 0 where
  pub log : m.log ≡ []
  pub gpio : m.app.gpio_int_status ≡ 0
  pub timer : m.app.timer_int_status ≡ 0
  pub flag : m.app.uart_tx_cmpl_callback ≡ 0
  pub uart : m.app.huart.g_state ≡ reset

abbrev pub i2c_regs : ℕ
i2c_regs = 0x3000_0000

pub outside : (regs : ℕ) → regs ≡ i2c_regs → Outside tx_data regs
outside regs e = record {
  prer_lo = rw e refl;
  prer_hi = rw e refl;
  ctr = rw e refl;
  trxr = rw e refl;
  csr = rw e refl;
}

-- Nothing is said of a run, or two things.
pub Ensures-any :
    {A : Type 0} (r : Option (A × Machine Globals)) → Ensures {G = Globals} (λ _ _. Unit {0}) r
Ensures-any none = tt
Ensures-any (some (a, m)) = tt

pub Ensures-both :
    {A : Type 0} (P Q : A → Machine Globals → Type 0) (r : Option (A × Machine Globals))
    → Ensures P r
    → Ensures Q r
    → Ensures (λ a m. P a m × Q a m) r
Ensures-both P Q none p q = tt
Ensures-both P Q (some (a, m)) p q = (p, q)

module _ (hw : Hardware) where
  pub init-regs :
      (i2c : I2cHandle) (m : Machine Globals)
      → Ensures (λ i2c' _. i2c'.regs ≡ i2c_regs) (i2c_init hw i2c i2c_regs 400 80 m)
  unfolding i2c_init
  init-regs i2c m =
      let P : Unit {0} → Machine Globals → Type 0 = λ _ _. Unit {0} in
      let Q : I2cHandle → Machine Globals → Type 0 = λ i2c' _. i2c'.regs ≡ i2c_regs in
      let wait : Cmd Globals (Unit {0}) = wait_clear hw (csr i2c_regs) i2c_busy in
      let ack : ℕ → Cmd Globals (Unit {0}) = λ status.
        if is_clear status i2c_if
        then pure tt
        else update hw (csr i2c_regs) (λ v. bit_or v i2c_iack) in
      Ensures->>= P Q wait _ m (Ensures-any (wait m)) (λ _ m₁ _.
        let m₂ : Machine Globals = record m₁ { log = write (ctr i2c_regs) 0 ∷ m₁.log } in
        let status = hw.value m₂.log (csr i2c_regs) in
        let m₃ : Machine Globals = record m₂ { log = read (csr i2c_regs) status ∷ m₂.log } in
        Ensures->>= P Q (ack status) _ m₃ (Ensures-any (ack status m₃)) (λ _ m₄ _. refl))

  module _ (w r u : ℕ) (notNull : 0 < u) where
    pub setup-Sound :
        (i2c₀ : I2cHandle) (m : Machine Globals)
        → PoweredUp m
        → Ensures
            (λ i2c m'. (i2c.regs ≡ i2c_regs) × SoundAt w r u test_start m')
            (test_setup hw i2c₀ m)
    unfolding test_setup timer_init uart_init tx_enable rx_enable
    setup-Sound i2c₀ m on =
        let m₁ : Machine Globals = record m {
          log = write 0x2000_0004 0 ∷ write 0x2000_0000 0 ∷ m.log;
          app = record (m.app) { timer_shadow = 0 };
        } in
        let init = i2c_init hw i2c₀ i2c_regs 400 80 in
        Ensures->>= (λ i2c m₂. (i2c.regs ≡ i2c_regs) × LeftAlone tx_data m₁ m₂) _ init _ m₁
          (Ensures-both (λ i2c _. i2c.regs ≡ i2c_regs) (λ _ m₂. LeftAlone tx_data m₁ m₂) (init m₁)
            (init-regs i2c₀ m₁)
            ((i2c_init-Keeps hw tx_data i2c_regs (outside i2c_regs refl) i2c₀ 400 80).keeps m₁))
          (λ i2c m₂ (e, alone).
            let off : m₂.app.huart.g_state ≡ reset =
              ap (λ x. x.huart.g_state) alone.app ∙ on.uart in
            let none_sent : written tx_data m₁.log ≡ [] = ap (written tx_data) on.log in
            let gpio : m₂.app.gpio_int_status ≡ 0 =
              ap (λ x. x.gpio_int_status) alone.app ∙ on.gpio in
            let timer : m₂.app.timer_int_status ≡ 0 =
              ap (λ x. x.timer_int_status) alone.app ∙ on.timer in
            rw (off, Ensures)
              (
                e,
                record {
                  gpio = rw gpio refl;
                  timer = rw timer refl;
                  data_seen = refl;
                  addr = refl;
                  rx = refl;
                  uart = record {
                    idle = refl;
                    flag = ap (λ x. x.uart_tx_cmpl_callback) alone.app ∙ on.flag;
                    sent = same_written w r u alone ∙ none_sent;
                  };
                },
              ))

    pub event-SoundNext :
        (i2c : I2cHandle) (e : Event) (s : TestState) (m : Machine Globals)
        → i2c.regs ≡ i2c_regs
        → SoundAt w r u s m
        → Ensures (SoundNext w r u) (event hw w r u i2c e s m)
    unfolding event
    event-SoundNext i2c round s m at v =
        step-SoundNext hw w r u i2c s m (outside i2c.regs at) notNull v
    event-SoundNext i2c gpio_irq s m at v =
        go_on-Ensures (SoundNext w r u) (gpio_handler hw) s m (gpio_irq-Sound hw w r u m v)
    event-SoundNext i2c timer_irq s m at v =
        go_on-Ensures (SoundNext w r u) (timer_irq_handler hw) s m (timer_irq-Sound hw w r u m v)
    event-SoundNext i2c uart_tx_irq s m at v =
        go_on-Ensures (SoundNext w r u) (uart_tx_irq_handler hw) s m
          (uart_tx_irq-Sound hw w r u (uart_phase s) m v)
    event-SoundNext i2c uart_rx_irq s m at v =
        go_on-Ensures (SoundNext w r u) (uart_rx_irq_handler hw) s m
          (uart_rx_irq-Sound hw w r u m v)
