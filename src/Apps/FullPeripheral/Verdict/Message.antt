-- ===== src/Apps/FullPeripheral/Verdict/Message.antt =====
-- The stages of the test of all peripherals in which the message goes out.
use mlab_mcu_edu.Prelude.{
  ℕ, zero, suc, ◌^◌, ◌<◌, ◌≡◌, refl, ◌∙◌, List, [], ◌∷◌, ◌++◌, length, replicate, ◌==◌, arith,
  bit_or, bit_and, not32,
}
use mlab_mcu_edu.Machine.{read, write, Hardware, Machine, pure, ◌>>=◌}
use mlab_mcu_edu.I2c.{I2cHandle}
use mlab_mcu_edu.Uart.{
  UartState, busy_tx, uart_base_addr, uart_control, uart_tx_int_en, uart_tx_en, tx_disable,
}
use mlab_mcu_edu.Uart.Interrupt.Transmission.{uart_transmit_it_ready, tx_at}
use mlab_mcu_edu.Apps.FullPeripheral.{
  set_gpio_4, uart_tx, uart_tx_wait_cplt, uart_tx_cplt, finish, Globals, step, start_uart,
}
use mlab_mcu_edu.Apps.FullPeripheral.Verdict.{Event, round, uart_tx_irq, event}
use mlab_mcu_edu.Apps.FullPeripheral.Verdict.UartIrq.{after_byte, after_last, tx_next, tx_end}
use mlab_mcu_edu.Apps.FullPeripheral.Verdict.Stages.{
  Calm, Calm-same, Stage, Stage-one, Stage-then, Stage-idle, if_true, if_false,
}
use mlab_mcu_edu.Apps.FullPeripheral.Verdict.Transfers.{heard, bus}

-- Interrupts of the UART, each after some rounds of waiting.
abbrev pub sends : List ℕ → List Event
sends [] = []
sends (n ∷ ns) = replicate n round ++ ((uart_tx_irq ∷ []) ++ sends ns)

module _ (hw : Hardware) (w r u : ℕ) (i2c₀ : I2cHandle) where
  -- The transmission of the message, with what was heard before: on its way with `k` bytes left, and
  -- delivered.
  pub record OnItsWay (k : ℕ) (vs : List ℕ) (m : Machine Globals) : Type 0 where
    pub uart : m.app.huart.g_state ≡ busy_tx
    pub count : m.app.huart.tx_xfer_count ≡ k
    pub flag : m.app.uart_tx_cmpl_callback ≡ 0
    pub addr : m.app.huart.instance_addr ≡ uart_base_addr
    pub fresh : heard m ≡ vs

  pub record Arrived (vs : List ℕ) (m : Machine Globals) : Type 0 where
    pub uart : m.app.huart.g_state ≡ UartState.ready
    pub flag : m.app.uart_tx_cmpl_callback ≡ 1
    pub addr : m.app.huart.instance_addr ≡ uart_base_addr
    pub fresh : heard m ≡ vs

  uart_waits :
      (n k : ℕ) (vs : List ℕ) (m : Machine Globals)
      → OnItsWay k vs m
      → Stage hw w r u
          (bus hw w r u i2c₀)
          (replicate n round)
          uart_tx_wait_cplt
          m
          uart_tx_wait_cplt
          (OnItsWay k vs)
  unfolding event step
  uart_waits n k vs m o =
      Stage-idle hw w r u (bus hw w r u i2c₀) n uart_tx_wait_cplt m (OnItsWay k vs)
        (if_true (m.app.uart_tx_cmpl_callback == 0) _ _ m (rw o.flag refl)) o

  sends_one :
      (k : ℕ) (vs : List ℕ) (m : Machine Globals)
      → suc k < 2 ^ 16
      → OnItsWay (suc k) vs m
      → Stage hw w r u
          (bus hw w r u i2c₀)
          (uart_tx_irq ∷ [])
          uart_tx_wait_cplt
          m
          uart_tx_wait_cplt
          (OnItsWay k vs)
  unfolding event
  sends_one k vs m small o =
      Stage-one hw w r u (bus hw w r u i2c₀) uart_tx_irq uart_tx_wait_cplt m uart_tx_wait_cplt
        (after_byte k m) (OnItsWay k vs) (rw (tx_next hw m k o.uart o.count small, ◌>>=◌) refl)
        (record { uart = o.uart; count = refl; flag = o.flag; addr = o.addr; fresh = o.fresh })

  sends_last :
      (vs : List ℕ) (m : Machine Globals)
      → OnItsWay 0 vs m
      → Stage hw w r u
          (bus hw w r u i2c₀)
          (uart_tx_irq ∷ [])
          uart_tx_wait_cplt
          m
          uart_tx_wait_cplt
          (Arrived vs)
  unfolding event
  sends_last vs m o =
      Stage-one hw w r u (bus hw w r u i2c₀) uart_tx_irq uart_tx_wait_cplt m uart_tx_wait_cplt
        (after_last hw m) (Arrived vs) (rw (tx_end hw m o.uart o.count, ◌>>=◌) refl)
        (record { uart = refl; flag = refl; addr = o.addr; fresh = rw o.addr o.fresh })

  pub all_sent :
      (k : ℕ) (ns : List ℕ) (vs : List ℕ) (m : Machine Globals)
      → length ns ≡ suc k
      → k < 2 ^ 16
      → OnItsWay k vs m
      → Stage hw w r u
          (bus hw w r u i2c₀)
          (sends ns)
          uart_tx_wait_cplt
          m
          uart_tx_wait_cplt
          (Arrived vs)
  all_sent k [] vs m e small o = absurd (omega arith)
  all_sent zero (n ∷ []) vs m e small o =
      Stage-then hw w r u (bus hw w r u i2c₀) (OnItsWay 0 vs) (Arrived vs) (uart_waits n 0 vs m o)
        λ m₁ o₁. sends_last vs m₁ o₁
  all_sent zero (n ∷ n' ∷ ns) vs m e small o = absurd (omega arith)
  all_sent (suc k) (n ∷ ns) vs m e small o =
      Stage-then hw w r u (bus hw w r u i2c₀) (OnItsWay (suc k) vs) (Arrived vs)
        (uart_waits n (suc k) vs m o)
        λ m₁ o₁.
          Stage-then hw w r u (bus hw w r u i2c₀) (OnItsWay k vs) (Arrived vs)
            (sends_one k vs m₁ small o₁) λ m₂ o₂. all_sent k ns vs m₂ (omega arith) (omega arith) o₂

  -- The rounds before the transmission, and those after it.
  drives_6 :
      (mem₀ : ℕ → ℕ) (vs : List ℕ) (m : Machine Globals)
      → Calm mem₀ m
      → heard m ≡ vs
      → Stage hw w r u
          (bus hw w r u i2c₀)
          (round ∷ [])
          set_gpio_4
          m
          uart_tx
          (λ m'. Calm mem₀ m' × (heard m' ≡ vs))
  unfolding event step
  drives_6 mem₀ vs m c h =
      Stage-one hw w r u (bus hw w r u i2c₀) round set_gpio_4 m uart_tx _
        (λ m'. Calm mem₀ m' × (heard m' ≡ vs)) refl (Calm-same m _ refl refl c, h)

  transmits :
      (mem₀ : ℕ → ℕ) (vs : List ℕ) (m : Machine Globals)
      → 0 < u
      → Calm mem₀ m
      → heard m ≡ vs
      → Stage hw w r u (bus hw w r u i2c₀) (round ∷ []) uart_tx m uart_tx_wait_cplt (OnItsWay 38 vs)
  unfolding event step start_uart
  transmits mem₀ vs m nn cm h =
      let c = uart_control m.app.huart.instance_addr in
      let v = hw.value m.log c in
      Stage-one hw w r u (bus hw w r u i2c₀) round uart_tx m uart_tx_wait_cplt
        (record m {
          log = write c (bit_or v uart_tx_int_en) ∷ read c v ∷ m.log;
          app = record (m.app) { huart = tx_at (record (m.app.huart) { tx_xfer_size = 38 }) u 38 };
        })
        (OnItsWay 38 vs)
        (rw (uart_transmit_it_ready hw pure m.app.huart u 37 m cm.uart nn, ◌>>=◌) refl)
        (record { uart = refl; count = refl; flag = cm.flag; addr = cm.addr; fresh = rw cm.addr h })

  turns_off :
      (vs : List ℕ) (m : Machine Globals)
      → Arrived vs m
      → Stage hw w r u
          (bus hw w r u i2c₀)
          (round ∷ [])
          uart_tx_wait_cplt
          m
          uart_tx_cplt
          (λ m'. heard m' ≡ vs)
  unfolding event step tx_disable
  turns_off vs m a =
      let c = uart_control m.app.huart.instance_addr in
      let v = hw.value m.log c in
      Stage-one hw w r u (bus hw w r u i2c₀) round uart_tx_wait_cplt m uart_tx_cplt
        (record m { log = write c (bit_and v (not32 uart_tx_en)) ∷ read c v ∷ m.log })
        (λ m'. heard m' ≡ vs)
        (if_false (m.app.uart_tx_cmpl_callback == 0) _ _ m (rw a.flag refl) ∙ rw (a.uart) refl)
        (rw a.addr a.fresh)

  drives_7 :
      (vs : List ℕ) (m : Machine Globals)
      → heard m ≡ vs
      → Stage hw w r u (bus hw w r u i2c₀) (round ∷ []) uart_tx_cplt m finish (λ m'. heard m' ≡ vs)
  unfolding event step
  drives_7 vs m h =
      Stage-one hw w r u (bus hw w r u i2c₀) round uart_tx_cplt m finish _ (λ m'. heard m' ≡ vs)
        refl h

  pub to_finish :
      (mem₀ : ℕ → ℕ) (ns vs : List ℕ) (m : Machine Globals)
      → 0 < u
      → length ns ≡ 39
      → Calm mem₀ m
      → heard m ≡ vs
      → Stage hw w r u
          (bus hw w r u i2c₀)
          (replicate 2 round ++ (sends ns ++ replicate 2 round))
          set_gpio_4
          m
          finish
          (λ m'. heard m' ≡ vs)
  to_finish mem₀ ns vs m nn all c h =
      let P : Machine Globals → Type 0 = λ m'. Calm mem₀ m' × (heard m' ≡ vs) in
      let Q : Machine Globals → Type 0 = λ m'. heard m' ≡ vs in
      Stage-then hw w r u (bus hw w r u i2c₀) P Q (drives_6 mem₀ vs m c h) λ m₁ (c₁, h₁).
        Stage-then hw w r u (bus hw w r u i2c₀) (OnItsWay 38 vs) Q (transmits mem₀ vs m₁ nn c₁ h₁)
          λ m₂ o.
            Stage-then hw w r u (bus hw w r u i2c₀) (Arrived vs) Q
              (all_sent 38 ns vs m₂ all (omega arith) o)
              λ m₃ a.
                Stage-then hw w r u (bus hw w r u i2c₀) Q Q (turns_off vs m₃ a)
                  λ m₄ h₄. drives_7 vs m₄ h₄
