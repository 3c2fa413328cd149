-- ===== src/Apps/FullPeripheral/Verdict/Completion.antt =====
-- The test of all peripherals comes to its end: it passes just if the bytes read are those written.
use mlab_mcu_edu.Prelude.{
  ℕ, ◌+◌, ◌^◌, ◌<◌, ◌≤◌, ◌≡◌, ◌⊎◌, refl, ap, sym, ◌∙◌, none, some, List, [], ◌∷◌, ◌++◌, append-nil,
  length, Bool, replicate, true, false, ◌==◌, ◌&&◌, arith, if◌then◌else◌, is_clear, u8, u32, bit_or,
}
use mlab_mcu_edu.Machine.{Access, read, write, Hardware, Machine, ◌>>=◌}
use mlab_mcu_edu.Machine.Keeps.{Ensures-result, LeftAlone}
use mlab_mcu_edu.Machine.Runs.{ClearsIn}
use mlab_mcu_edu.Machine.Buffers.{fill}
use mlab_mcu_edu.I2c.{I2cHandle, csr, i2c_busy}
use mlab_mcu_edu.I2c.Frames.{EndsTransfers, AcksFrom}
use mlab_mcu_edu.I2c.Blocking.{i2c_init}
use mlab_mcu_edu.I2c.Blocking.Init.{i2c_init-divider}
use mlab_mcu_edu.I2c.Blocking.Footprint.{i2c_init-Keeps}
use mlab_mcu_edu.Gpio.{gpio_base_addr, gpio_ints}
use mlab_mcu_edu.Timer.{timer_init}
use mlab_mcu_edu.Uart.{
  UartState, UartInit, setup_word, uart_base_addr, uart_tx_en, uart_rx_en, reset, uart_init,
  tx_enable, rx_enable, uart_control,
}
use mlab_mcu_edu.Apps.FullPeripheral.{
  check_rw_data, set_gpio_4, finish, Globals, step, check_data, test_setup, uart_baud_interval,
}
use mlab_mcu_edu.Apps.FullPeripheral.Verdict.{Event, round, event, run, test_main, tx_data}
use mlab_mcu_edu.Apps.FullPeripheral.Verdict.Run.{PoweredUp, outside}
use mlab_mcu_edu.Apps.FullPeripheral.Verdict.Stages.{Calm}
use mlab_mcu_edu.Apps.FullPeripheral.Verdict.ToI2c.{to_i2c_events, to_i2c}
use mlab_mcu_edu.Apps.FullPeripheral.Verdict.Message.{sends, to_finish}
use mlab_mcu_edu.Apps.FullPeripheral.Verdict.Transfers.{i2c_regs, heard, Heard, bus, to_check}

-- What the check sees of memory after the reception, for buffers that lie apart.
module _ (mem₀ : ℕ → ℕ) (w r v₀ v₁ : ℕ) (fits_w : w + 4 ≤ 2 ^ 32) (fits_r : r + 2 ≤ 2 ^ 32)
    (apart : (w + 4 ≤ r) ⊎ (r + 2 ≤ w)) where
  abbrev filled : ℕ → ℕ
  filled = fill mem₀ r (v₀ ∷ v₁ ∷ [])

  kept_2 : filled (u32 (w + 2)) ≡ mem₀ (u32 (w + 2))
  kept_2 = ground arith

  kept_3 : filled (u32 (w + 3)) ≡ mem₀ (u32 (w + 3))
  kept_3 = ground arith

  stored_0 : filled r ≡ u8 v₀
  stored_0 = ground arith

  stored_1 : filled (u32 (r + 1)) ≡ u8 v₁
  stored_1 = ground arith

-- The two bytes of data to be written are the values.
abbrev pub matches : (ℕ → ℕ) → (w v₀ v₁ : ℕ) → Bool
matches mem w v₀ v₁ = (mem (u32 (w + 2)) == u8 v₀) && (mem (u32 (w + 3)) == u8 v₁)

check_case :
    (b c : Bool)
    → (if b then if c then some set_gpio_4 else none else none)
      ≡ (if b && c then some set_gpio_4 else none)
check_case true c = refl
check_case false c = refl

module _ (hw : Hardware) (w r u : ℕ) (i2c₀ : I2cHandle) where
  checks :
      (mem₀ : ℕ → ℕ) (v₀ v₁ : ℕ) (m : Machine Globals)
      → w + 4 ≤ 2 ^ 32
      → r + 2 ≤ 2 ^ 32
      → (w + 4 ≤ r) ⊎ (r + 2 ≤ w)
      → m.mem ≡ fill mem₀ r (v₀ ∷ v₁ ∷ [])
      → step hw (bus hw w r u i2c₀) w r u check_rw_data m
        ≡ some ((if matches mem₀ w v₀ v₁ then some set_gpio_4 else none), m)
  unfolding step check_data
  checks mem₀ v₀ v₁ m fw fr apart e =
      let at : (q : ℕ) → m.mem q ≡ fill mem₀ r (v₀ ∷ v₁ ∷ []) q = λ q. ap (λ f. f q) e in
      rw
        (
          at (u32 (w + 2)) ∙ kept_2 mem₀ w r v₀ v₁ fw fr apart,
          at r ∙ stored_0 mem₀ w r v₀ v₁ fw fr apart,
          at (u32 (w + 3)) ∙ kept_3 mem₀ w r v₀ v₁ fw fr apart,
          at (u32 (r + 1)) ∙ stored_1 mem₀ w r v₀ v₁ fw fr apart,
        )
        (ap (λ x. some (x, m))
          (check_case (mem₀ (u32 (w + 2)) == u8 v₀) (mem₀ (u32 (w + 3)) == u8 v₁)))

  setup_done :
      (m : Machine Globals)
      → PoweredUp m
      → ((l : List Access) → ClearsIn hw (csr i2c_regs) i2c_busy hw.polls l)
      → (m₁ : Machine Globals) × (test_setup hw i2c₀ m ≡ some (bus hw w r u i2c₀, m₁))
        × Calm m.mem m₁
  unfolding test_setup timer_init uart_init tx_enable rx_enable
  setup_done m on free =
      let m₁ : Machine Globals = record m {
        log = write 0x2000_0004 0 ∷ write 0x2000_0000 0 ∷ m.log;
        app = record (m.app) { timer_shadow = 0 };
      } in
      let (_, _, m₂, e, _, _, _, _, mem) =
        i2c_init-divider hw i2c₀ i2c_regs 400 80 m₁ (omega arith) (free m₁.log) in
      let alone =
        Ensures-result (λ _ m'. LeftAlone tx_data m₁ m') (i2c_init hw i2c₀ i2c_regs 400 80 m₁)
          ((i2c_init-Keeps hw tx_data i2c_regs (outside i2c_regs refl) i2c₀ 400 80).keeps m₁) e in
      let off : m₂.app.huart.g_state ≡ reset = ap (λ x. x.huart.g_state) alone.app ∙ on.uart in
      let c = uart_control uart_base_addr in
      let init : UartInit = record {
        baud_rate = uart_baud_interval 80 115200;
        word_length = 0;
        stop_bits = 0;
        parity = 0;
        parity_mode = 0;
        parity_lock = 0;
      } in
      let l₁ = write uart_base_addr (setup_word init) ∷ m₂.log in
      let t = hw.value l₁ c in
      let l₂ = write c (bit_or t uart_tx_en) ∷ read c t ∷ l₁ in
      let x = hw.value l₂ c in
      (
        record m₂ {
          log = write c (bit_or x uart_rx_en) ∷ read c x ∷ l₂;
          app = record (m₂.app) {
            huart = record (m₂.app.huart) {
              init = init;
              instance_addr = uart_base_addr;
              g_state = UartState.ready;
              rx_state = UartState.ready;
            };
          };
        },
        rw (e, ◌>>=◌) (rw off refl),
        record {
          uart = refl;
          flag = ap (λ x. x.uart_tx_cmpl_callback) alone.app ∙ on.flag;
          gpio = ap (λ x. x.gpio_int_status) alone.app ∙ on.gpio;
          timer = ap (λ x. x.timer_int_status) alone.app ∙ on.timer;
          mem = mem;
          addr = refl;
        },
      )

-- The rounds and the interrupts of a whole test: `a` rounds of waiting for the interrupt of pin 8, `b`
-- for that of the timer, and those of `ns` before each interrupt of the UART.
abbrev pub whole_test : ℕ → ℕ → List ℕ → List Event
whole_test a b ns =
    to_i2c_events a b
    ++ (replicate 4 round ++ (round ∷ (replicate 2 round ++ (sends ns ++ replicate 2 round))))

module _ (hw : Hardware) (w r u : ℕ) (i2c₀ : I2cHandle) where
  -- From the check on, where the test goes on to its end.
  passes_on :
      (mem₀ : ℕ → ℕ) (ns vs : List ℕ) (m : Machine Globals)
      → 0 < u
      → length ns ≡ 39
      → Calm mem₀ m
      → heard m ≡ vs
      → (m' : Machine Globals) × (heard m' ≡ vs)
        × (run hw w r u
              (bus hw w r u i2c₀)
              (replicate 2 round ++ (sends ns ++ replicate 2 round))
              set_gpio_4
              m
            ≡ some (some finish, m'))
  unfolding run
  passes_on mem₀ ns vs m nn all c h =
      let t = to_finish hw w r u i2c₀ mem₀ ns vs m nn all c h in
      let es = replicate 2 round ++ (sends ns ++ replicate 2 round) in
      (
        t.after,
        t.holds,
        ap (λ l. run hw w r u (bus hw w r u i2c₀) l set_gpio_4 m) (sym (append-nil es)) ∙ t.runs [],
      )

  after_check :
      (mem₀ : ℕ → ℕ) (ns : List ℕ) (v₀ v₁ : ℕ) (before : List ℕ) (m : Machine Globals)
      → w + 4 ≤ 2 ^ 32
      → r + 2 ≤ 2 ^ 32
      → (w + 4 ≤ r) ⊎ (r + 2 ≤ w)
      → 0 < u
      → length ns ≡ 39
      → Heard mem₀ r v₀ v₁ before m
      → (b : Bool) → matches mem₀ w v₀ v₁ ≡ b
      → (m' : Machine Globals) × (heard m' ≡ v₁ ∷ v₀ ∷ before)
        × (run hw w r u
              (bus hw w r u i2c₀)
              (round ∷ (replicate 2 round ++ (sends ns ++ replicate 2 round)))
              check_rw_data
              m
            ≡ some ((if b then some finish else none), m'))
  unfolding run event
  after_check mem₀ ns v₀ v₁ before m fw fr apart nn all h true e =
      let (m', heard', runs) =
        passes_on (fill mem₀ r (v₀ ∷ v₁ ∷ [])) ns (v₁ ∷ v₀ ∷ before) m nn all h.calm h.fresh in
      (m', heard', rw (checks hw w r u i2c₀ mem₀ v₀ v₁ m fw fr apart h.calm.mem, ◌>>=◌) (rw e runs))
  after_check mem₀ ns v₀ v₁ before m fw fr apart nn all h false e =
      (m, h.fresh, rw (checks hw w r u i2c₀ mem₀ v₀ v₁ m fw fr apart h.calm.mem, ◌>>=◌) (rw e refl))

  -- Where every transfer of the I2C core ends within the polls of a wait loop, the bus is found free,
  -- the slave acknowledges from its `n`-th start condition on, in reach of the address loop, and
  -- the GPIO's status shows pin 8: the test of all peripherals, from power-up, with the interrupts
  -- that it waits for and any number of rounds in each wait, returns. It passes just if the
  -- two values that were last read from the data register of the I2C core are, each as a byte, the
  -- two bytes of data that were to be written; if they are not, it stops at the check. The
  -- buffers lie within memory, those of the data apart, and the message is not at address 0.
  pub test_main-decides :
      (n : ℕ) (a b : ℕ) (ns : List ℕ) (m : Machine Globals)
      → PoweredUp m
      → EndsTransfers hw i2c_regs
      → ((l : List Access) → ClearsIn hw (csr i2c_regs) i2c_busy hw.polls l)
      → AcksFrom hw i2c_regs n
      → 0 < hw.polls
      → n ≤ hw.polls
      → ((l : List Access) → is_clear (hw.value l (gpio_ints gpio_base_addr)) 256 ≡ false)
      → w + 4 ≤ 2 ^ 32
      → r + 2 ≤ 2 ^ 32
      → (w + 4 ≤ r) ⊎ (r + 2 ≤ w)
      → 0 < u
      → length ns ≡ 39
      → (v₀ v₁ : ℕ) × (before : List ℕ) × (m' : Machine Globals) × (heard m' ≡ v₁ ∷ v₀ ∷ before)
        × (test_main hw w r u i2c₀ (whole_test a b ns) m
            ≡ some ((if matches m.mem w v₀ v₁ then some finish else none), m'))
  unfolding test_main
  test_main-decides n a b ns m on ends free acks pos reach pin fw fr apart nn all =
      let (m₁, e₁, c₁) = setup_done hw w r u i2c₀ m on free in
      let i2c = bus hw w r u i2c₀ in
      let t₁ = to_i2c hw w r u i2c m.mem a b m₁ pin c₁ in
      let t₂ = to_check hw w r u i2c₀ n ends acks pos reach m.mem t₁.after fr t₁.holds in
      let (v₀, v₁, before, h) = t₂.holds in
      let rest = round ∷ (replicate 2 round ++ (sends ns ++ replicate 2 round)) in
      let (m', heard', e₃) =
        after_check m.mem ns v₀ v₁ before t₂.after fw fr apart nn all h (matches m.mem w v₀ v₁)
          refl in
      (
        v₀,
        v₁,
        before,
        m',
        heard',
        rw (e₁, ◌>>=◌) (t₁.runs (replicate 4 round ++ rest) ∙ t₂.runs rest ∙ e₃),
      )
