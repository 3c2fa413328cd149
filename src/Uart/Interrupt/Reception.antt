-- ===== src/Uart/Interrupt/Reception.antt =====
-- An interrupt-driven reception of the UART, from its start to the completion callback.
use mlab_mcu_edu.Prelude.{
  ℕ, zero, suc, ◌+◌, ◌^◌, ◌<◌, ◌≤◌, ◌≡◌, refl, ap, ◌∙◌, some, List, [], ◌∷◌, ◌++◌, length, map,
  arith, bit_and, bit_or, not32, u8,
}
use mlab_mcu_edu.Machine.{read, write, Hardware, Machine, Cmd, pure, ◌>>=◌, next}
use mlab_mcu_edu.Machine.Runs.{writes, >>=-pure}
use mlab_mcu_edu.Machine.Buffers.{bytes, advance, reads_of, latest_first, set_byte}
use mlab_mcu_edu.Machine.Got.{Got, Got-cons, bytes-Got}
use mlab_mcu_edu.Machine.Series.{interrupts}
use mlab_mcu_edu.Uart.{
  UartHandle, ready, busy_rx, uart_rx_data, uart_control, uart_rx_int_en, pred16,
}
use mlab_mcu_edu.Uart.Interrupt.{Callback, uart_receive_it, rx_complete, rx_not_empty_irq_handler}

-- A handle in a reception, with `n` bytes left to store from `p` on.
abbrev pub rx_at : UartHandle → ℕ → ℕ → UartHandle
rx_at huart p n = record huart { rx_buff_ptr = p; rx_xfer_count = n; rx_state = busy_rx }

-- What the receive handler does after the callback.
abbrev pub rx_moved : {G : Type 0} → UartHandle → Cmd G UartHandle
rx_moved h = pure (record h {
  rx_buff_ptr = next h.rx_buff_ptr;
  rx_xfer_count = pred16 h.rx_xfer_count;
  rx_state = ready;
})

module _ {G : Type 0} (hw : Hardware) (rx_cplt : Callback G) where
  rx_irq-byte :
      (huart : UartHandle) (p k : ℕ) (m : Machine G)
      → suc (suc k) < 2 ^ 16
      → let d = uart_rx_data huart.instance_addr in
        (m' : Machine G) × (rx_not_empty_irq_handler hw rx_cplt (rx_at huart p (suc (suc k))) m
          ≡ some (rx_at huart (next p) (suc k), m'))
        × Got (reads_of d) m [] (hw.value m.log d ∷ []) p m'
  unfolding rx_not_empty_irq_handler
  rx_irq-byte huart p k m h =
      let d = uart_rx_data huart.instance_addr in
      (
        record m {
          log = read d (hw.value m.log d) ∷ m.log;
          mem = set_byte m.mem p (u8 (hw.value m.log d));
        },
        ground arith,
        record { wrote = refl; heard = ground arith; mem = refl; app = refl; cpu = refl },
      )

  -- The interrupt of the last byte.
  rx_irq-last :
      (huart : UartHandle) (p : ℕ) (m : Machine G)
      → let d = uart_rx_data huart.instance_addr in
        let c = uart_control huart.instance_addr in
        (v : ℕ) × (m' : Machine G) × (rx_not_empty_irq_handler hw rx_cplt (rx_at huart p 1) m
          ≡ (rx_cplt (rx_at huart p 1) >>= rx_moved) m')
        × Got
            (reads_of d)
            m
            ((c, bit_and v (not32 uart_rx_int_en)) ∷ [])
            (hw.value m.log d ∷ [])
            p
            m'
  unfolding rx_not_empty_irq_handler rx_complete
  rx_irq-last huart p m =
      let d = uart_rx_data huart.instance_addr in
      let c = uart_control huart.instance_addr in
      let l₁ = read d (hw.value m.log d) ∷ m.log in
      let v = hw.value l₁ c in
      (
        v,
        record m {
          log = write c (bit_and v (not32 uart_rx_int_en)) ∷ read c v ∷ l₁;
          mem = set_byte m.mem p (u8 (hw.value m.log d));
        },
        ground arith,
        record { wrote = refl; heard = ground arith; mem = refl; app = refl; cpu = refl },
      )

  pub interrupts-rx :
      (k : ℕ) (huart : UartHandle) (p : ℕ) (m : Machine G)
      → suc k < 2 ^ 16
      → let d = uart_rx_data huart.instance_addr in
        let c = uart_control huart.instance_addr in
        (v : ℕ) × (vs : List ℕ) × (m' : Machine G) × (length vs ≡ suc k)
        × (interrupts (rx_not_empty_irq_handler hw rx_cplt) (suc k) (rx_at huart p (suc k)) m
            ≡ (rx_cplt (rx_at huart (advance k p) 1) >>= rx_moved) m')
        × Got (reads_of d) m ((c, bit_and v (not32 uart_rx_int_en)) ∷ []) vs p m'
  unfolding interrupts
  interrupts-rx zero huart p m h =
      let (v, m', e, g) = rx_irq-last huart p m in
      (
        v,
        hw.value m.log (uart_rx_data huart.instance_addr) ∷ [],
        m',
        refl,
        >>=-pure (rx_not_empty_irq_handler hw rx_cplt _) m ∙ e,
        g,
      )
  interrupts-rx (suc k) huart p m h =
      let (m₁, e₁, g₁) = rx_irq-byte huart p k m h in
      let (v, vs, m₂, len, e₂, g₂) = interrupts-rx k huart (next p) m₁ (omega arith) in
      (
        v,
        hw.value m.log (uart_rx_data huart.instance_addr) ∷ vs,
        m₂,
        ap suc len,
        rw (e₁, ◌>>=◌) e₂,
        Got-cons (reads_of (uart_rx_data huart.instance_addr)) g₁ g₂,
      )

  uart_receive_it_ready :
      (huart : UartHandle) (buf n : ℕ) (m : Machine G)
      → huart.rx_state ≡ ready
      → let c = uart_control huart.instance_addr in
        let v = hw.value m.log c in
        uart_receive_it hw huart buf n m
        ≡ some (
          rx_at (record huart { rx_xfer_size = n }) buf n,
          record m { log = write c (bit_or v uart_rx_int_en) ∷ read c v ∷ m.log },
        )
  unfolding uart_receive_it
  uart_receive_it_ready huart buf n m isReady = ground arith

  -- On a handle that is ready to receive, for a buffer of 1 to 65535 bytes that does not run past
  -- the end of memory, `UART_Receive_IT` and then one interrupt for each byte bring the driver to
  -- the completion callback, which finds the handle still busy, and then to the end of the handler,
  -- which makes the handle that the callback leaves ready and moves its pointer and count. The
  -- values that were read from the receive register are, in order and each as a byte, what the
  -- buffer holds; the interrupt was enabled and then disabled, and nothing else was written.
  pub uart_receive_it_complete :
      (huart : UartHandle) (buf k : ℕ) (m : Machine G)
      → huart.rx_state ≡ ready
      → suc k < 2 ^ 16
      → buf + suc k ≤ 2 ^ 32
      → let d = uart_rx_data huart.instance_addr in
        let c = uart_control huart.instance_addr in
        (v : ℕ) × (vs : List ℕ) × (m' : Machine G) × ((uart_receive_it hw huart buf (suc k)
              >>= interrupts (rx_not_empty_irq_handler hw rx_cplt) (suc k))
            m
          ≡ (rx_cplt (rx_at (record huart { rx_xfer_size = suc k }) (advance k buf) 1) >>= rx_moved)
              m')
        × (bytes m'.mem (suc k) buf ≡ map u8 vs)
        × (reads_of d m'.log ≡ latest_first vs ++ reads_of d m.log)
        × (writes m'.log
            ≡ (c, bit_and v (not32 uart_rx_int_en))
              ∷ (c, bit_or (hw.value m.log c) uart_rx_int_en)
              ∷ writes m.log)
        × (m'.app ≡ m.app)
  uart_receive_it_complete huart buf k m isReady h fits =
      let d = uart_rx_data huart.instance_addr in
      let c = uart_control huart.instance_addr in
      let m₁ : Machine G = record m {
        log =
            write c (bit_or (hw.value m.log c) uart_rx_int_en) ∷ read c (hw.value m.log c) ∷ m.log;
      } in
      let (v, vs, m₂, len, e, g) =
        interrupts-rx k (record huart { rx_xfer_size = suc k }) buf m₁ h in
      (
        v,
        vs,
        m₂,
        rw (uart_receive_it_ready huart buf (suc k) m isReady, ◌>>=◌) e,
        bytes-Got (reads_of d) (suc k) g len fits,
        g.heard ∙ ap (λ l. latest_first vs ++ l) (ground arith),
        g.wrote,
        g.app,
      )
