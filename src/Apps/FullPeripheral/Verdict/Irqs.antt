-- ===== src/Apps/FullPeripheral/Verdict/Irqs.antt =====
-- An interrupt keeps the invariant of the test, in every state and whatever the hardware answers.
use mlab_mcu_edu.Prelude.{
  ℕ, zero, suc, ◌^◌, ◌<◌, ◌≡◌, refl, ap, ap₂, ◌∙◌, inl, inr, sym, List, [], ◌∷◌, ◌++◌, Bool, true,
  false, ◌==◌, ◌&&◌, ◌||◌, not, is_clear, arith, bit_and, not32,
}
use mlab_mcu_edu.Machine.{Access, read, write, Hardware, Machine, next}
use mlab_mcu_edu.Machine.Runs.{written}
use mlab_mcu_edu.Machine.Buffers.{bytes, advance, latest_first, latest_first-append}
use mlab_mcu_edu.Machine.Keeps.{Ensures}
use mlab_mcu_edu.Gpio.{gpio_base_addr, gpio_ints}
use mlab_mcu_edu.Timer.{timer_init, timer_ack_intrq}
use mlab_mcu_edu.Uart.{ready, uart_control, uart_tx_int_en, uart_tx_data, uart_base_addr}
use mlab_mcu_edu.Uart.Interrupt.{rx_not_empty_irq_handler}
use mlab_mcu_edu.Apps.FullPeripheral.{
  Globals, gpio_handler, timer_irq_handler, uart_tx_irq_handler, uart_rx_irq_handler,
}
use mlab_mcu_edu.Apps.FullPeripheral.Verdict.{
  tx_data, pressed, Phase, not_yet, under_way, over, Sending, InPhase, Sound,
}
use mlab_mcu_edu.Apps.FullPeripheral.Verdict.UartIrq.{tx_idle, tx_next, tx_end}
use mlab_mcu_edu.Apps.FullPeripheral.Verdict.Evidence.{
  gpio-append, timer-append, or_true, silent_log,
}

pub gpio_now :
    (g old new b : Bool) → ((g && old) || b) ≡ true → ((g && new) || (not new || b)) ≡ true
gpio_now g old true b h = ground arith
gpio_now g old false b h = or_true (g && false)

-- The buffer and the byte after it.
bytes-snoc :
    (mem : ℕ → ℕ) (j p : ℕ) → bytes mem (suc j) p ≡ bytes mem j p ++ (mem (advance j p) ∷ [])
bytes-snoc mem zero p = refl
bytes-snoc mem (suc j) p = ap (λ bs. mem p ∷ bs) (bytes-snoc mem j (next p))

latest-snoc :
    (mem : ℕ → ℕ) (j p : ℕ)
    → latest_first (bytes mem (suc j) p) ≡ mem (advance j p) ∷ latest_first (bytes mem j p)
latest-snoc mem j p =
    ap latest_first (bytes-snoc mem j p)
    ∙ latest_first-append (bytes mem j p) (mem (advance j p) ∷ [])

advance-snoc : (j p : ℕ) → next (advance j p) ≡ advance (suc j) p
advance-snoc zero p = refl
advance-snoc (suc j) p = advance-snoc j (next p)

written_now :
    {a : ℕ} (v : ℕ) (l : List Access)
    → a ≡ uart_base_addr
    → written tx_data (write (uart_tx_data a) v ∷ l) ≡ v ∷ written tx_data l
written_now v l e = rw e refl

module _ (hw : Hardware) (w r u : ℕ) where
  -- Accesses that are not of the transmit register, and globals other than the UART's, leave the
  -- transmission where it is.
  InPhase-other :
      (p : Phase) (m m' : Machine Globals)
      → written tx_data m'.log ≡ written tx_data m.log
      → m'.mem ≡ m.mem
      → m'.app.huart ≡ m.app.huart
      → m'.app.uart_tx_cmpl_callback ≡ m.app.uart_tx_cmpl_callback
      → InPhase u p m
      → InPhase u p m'
  InPhase-other not_yet m m' l e h f n = record {
    idle = ap (λ x. x.g_state) h ∙ n.idle;
    flag = f ∙ n.flag;
    sent = l ∙ n.sent;
  }
  InPhase-other under_way m m' l e h f (inl s) = inl (record {
    j = s.j;
    k = s.k;
    total = s.total;
    busy = ap (λ x. x.g_state) h ∙ s.busy;
    count = ap (λ x. x.tx_xfer_count) h ∙ s.count;
    at = ap (λ x. x.tx_buff_ptr) h ∙ s.at;
    flag = f ∙ s.flag;
    sent = l ∙ s.sent ∙ ap (λ x. latest_first (bytes x s.j u)) (sym e);
  })
  InPhase-other under_way m m' l e h f (inr d) = inr (record {
    idle = ap (λ x. x.g_state) h ∙ d.idle;
    sent = l ∙ d.sent ∙ ap (λ x. latest_first (bytes x 38 u)) (sym e);
  })
  InPhase-other over m m' l e h f d = record {
    idle = ap (λ x. x.g_state) h ∙ d.idle;
    sent = l ∙ d.sent ∙ ap (λ x. latest_first (bytes x 38 u)) (sym e);
  }

  module _ {g t d : Bool} {p : Phase} (m : Machine Globals) (s : Sound w r u g t d p m) where
    pub gpio_irq-Sound : Ensures (λ _ m'. Sound w r u g t d p m') (gpio_handler hw m)
    unfolding gpio_handler
    gpio_irq-Sound = record {
      gpio =
          gpio_now g (is_clear m.app.gpio_int_status 256)
            (is_clear (hw.value m.log (gpio_ints gpio_base_addr)) 256) (pressed m.log) s.gpio;
      timer = s.timer;
      data_seen = s.data_seen;
      addr = s.addr;
      rx = s.rx;
      uart = InPhase-other p m _ refl refl refl refl s.uart;
    }

    pub timer_irq-Sound : Ensures (λ _ m'. Sound w r u g t d p m') (timer_irq_handler hw m)
    unfolding timer_irq_handler timer_init timer_ack_intrq
    timer_irq-Sound = record {
      gpio = s.gpio;
      timer = or_true (t && false);
      data_seen = s.data_seen;
      addr = s.addr;
      rx = s.rx;
      uart = InPhase-other p m _ refl refl refl refl s.uart;
    }

    pub uart_rx_irq-Sound : Ensures (λ _ m'. Sound w r u g t d p m') (uart_rx_irq_handler hw m)
    unfolding uart_rx_irq_handler rx_not_empty_irq_handler
    uart_rx_irq-Sound = rw (s.rx, Ensures) s

    tx_idle-Sound :
        m.app.huart.g_state ≡ ready
        → Ensures (λ _ m'. Sound w r u g t d p m') (uart_tx_irq_handler hw m)
    tx_idle-Sound e = rw (tx_idle hw m e, Ensures) s

  -- The interrupt of a transmission that has a byte left, and of one that has none.
  tx_next-Sound :
      {g t d : Bool} (m : Machine Globals) (k : ℕ)
      → Sound w r u g t d under_way m
      → (v : Sending u m) → v.k ≡ suc k
      → Ensures (λ _ m'. Sound w r u g t d under_way m') (uart_tx_irq_handler hw m)
  tx_next-Sound {g} {t} m k s v ek =
      let l = write (uart_tx_data m.app.huart.instance_addr) (m.mem m.app.huart.tx_buff_ptr) in
      let byte : m.mem m.app.huart.tx_buff_ptr ≡ m.mem (advance v.j u) = ap m.mem v.at in
      let small : suc k < 2 ^ 16 = omega (arith, v.total) in
      rw (tx_next hw m k v.busy (v.count ∙ ek) small, Ensures)
        (record {
          gpio = gpio-append (g && is_clear m.app.gpio_int_status 256) (l ∷ []) m.log s.gpio;
          timer = timer-append (t && (m.app.timer_int_status == 0)) (l ∷ []) m.log s.timer;
          data_seen = s.data_seen;
          addr = s.addr;
          rx = s.rx;
          uart = inl (record {
            j = suc v.j;
            k = k;
            total = omega (arith, v.total);
            busy = v.busy;
            count = refl;
            at = ap next v.at ∙ advance-snoc v.j u;
            flag = v.flag;
            sent =
                written_now (m.mem m.app.huart.tx_buff_ptr) m.log s.addr
                ∙ ap₂ ◌∷◌ byte v.sent
                ∙ sym (latest-snoc m.mem v.j u);
          });
        })

  tx_end-Sound :
      {g t d : Bool} (m : Machine Globals)
      → Sound w r u g t d under_way m
      → (v : Sending u m) → v.k ≡ 0
      → Ensures (λ _ m'. Sound w r u g t d under_way m') (uart_tx_irq_handler hw m)
  tx_end-Sound {g} {t} m s v none_left =
      let c = uart_control m.app.huart.instance_addr in
      let x = hw.value m.log c in
      let k = write c (bit_and x (not32 uart_tx_int_en)) ∷ read c x ∷ [] in
      let all : v.j ≡ 38 = omega (arith, v.total) in
      let other : (tx_data == c) ≡ false = rw s.addr refl in
      rw (tx_end hw m v.busy (v.count ∙ none_left), Ensures)
        (record {
          gpio = gpio-append (g && is_clear m.app.gpio_int_status 256) k m.log s.gpio;
          timer = timer-append (t && (m.app.timer_int_status == 0)) k m.log s.timer;
          data_seen = s.data_seen;
          addr = s.addr;
          rx = s.rx;
          uart = inr (record {
            idle = refl;
            sent =
                silent_log k m.log (rw other refl)
                ∙ v.sent
                ∙ ap (λ n. latest_first (bytes m.mem n u)) all;
          });
        })

  tx_any-Sound :
      {g t d : Bool} (m : Machine Globals) (k : ℕ)
      → Sound w r u g t d under_way m
      → (v : Sending u m) → v.k ≡ k
      → Ensures (λ _ m'. Sound w r u g t d under_way m') (uart_tx_irq_handler hw m)
  tx_any-Sound m zero s v e = tx_end-Sound m s v e
  tx_any-Sound m (suc k) s v e = tx_next-Sound m k s v e

  pub uart_tx_irq-Sound :
      {g t d : Bool} (p : Phase) (m : Machine Globals)
      → Sound w r u g t d p m
      → Ensures (λ _ m'. Sound w r u g t d p m') (uart_tx_irq_handler hw m)
  uart_tx_irq-Sound not_yet m s = tx_idle-Sound m s s.uart.idle
  uart_tx_irq-Sound under_way m s = elim s.uart [
    | inl v ↦ tx_any-Sound m v.k s v refl
    | inr v ↦ tx_idle-Sound m s v.idle
  ]
  uart_tx_irq-Sound over m s = tx_idle-Sound m s s.uart.idle
