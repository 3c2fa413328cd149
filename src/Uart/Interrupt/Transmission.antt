-- ===== src/Uart/Interrupt/Transmission.antt =====
-- An interrupt-driven transmission of the UART, from its start to the completion callback.
use mlab_mcu_edu.Prelude.{
  ℕ, zero, suc, ◌^◌, ◌<◌, ◌≡◌, refl, ap, subst, ◌∙◌, some, [], ◌∷◌, ◌++◌, arith, bit_and, bit_or,
  not32, suc-==-zero,
}
use mlab_mcu_edu.Machine.{read, write, Hardware, Machine, Cmd, pure, ◌>>=◌, next}
use mlab_mcu_edu.Machine.Runs.{writes, Does, Sent-trans}
use mlab_mcu_edu.Machine.Buffers.{bytes, advance, sent_log}
use mlab_mcu_edu.Machine.Series.{interrupts, interrupts-last}
use mlab_mcu_edu.Uart.{
  UartHandle, ready, busy_tx, uart_tx_data, uart_control, uart_tx_int_en, pred16,
}
use mlab_mcu_edu.Uart.Interrupt.{
  Callback, uart_transmit_it, tx_byte, tx_complete, tx_not_full_irq_handler,
}

-- A handle in a transmission, with `n` bytes left from `p` on.
abbrev pub tx_at : UartHandle → ℕ → ℕ → UartHandle
tx_at huart p n = record huart { tx_buff_ptr = p; tx_xfer_count = n; g_state = busy_tx }

-- What the transmit handler does after its branches, the callback included.
abbrev pub tx_moved : {G : Type 0} → UartHandle → Cmd G UartHandle
tx_moved h =
    pure (record h { tx_buff_ptr = next h.tx_buff_ptr; tx_xfer_count = pred16 h.tx_xfer_count })

pred16-suc : (k : ℕ) → suc k < 2 ^ 16 → pred16 (suc k) ≡ k
pred16-suc k h = omega arith

module _ {G : Type 0} (hw : Hardware) (tx_cplt : Callback G) where
  tx_irq-byte :
      (huart : UartHandle) (p k : ℕ) (m : Machine G)
      → suc k < 2 ^ 16
      → Does
          (tx_not_full_irq_handler hw tx_cplt (tx_at huart p (suc k)))
          m
          ((uart_tx_data huart.instance_addr, m.mem p) ∷ [])
          (tx_at huart (next p) k)
  unfolding tx_not_full_irq_handler tx_byte
  tx_irq-byte huart p k m h =
      let m' : Machine G = record m {
        log = write (uart_tx_data huart.instance_addr) (m.mem p) ∷ m.log;
      } in
      (
        m',
        rw (suc-==-zero k) (ap (λ c. some (tx_at huart (next p) c, m')) (pred16-suc k h)),
        record { wrote = refl; mem = refl; app = refl; cpu = refl },
      )

  pub interrupts-tx :
      (k : ℕ) (huart : UartHandle) (p : ℕ) (m : Machine G)
      → k < 2 ^ 16
      → Does
          (interrupts (tx_not_full_irq_handler hw tx_cplt) k (tx_at huart p k))
          m
          (sent_log (uart_tx_data huart.instance_addr) (bytes m.mem k p))
          (tx_at huart (advance k p) 0)
  unfolding interrupts
  interrupts-tx zero huart p m h =
      (m, refl, record { wrote = refl; mem = refl; app = refl; cpu = refl })
  interrupts-tx (suc k) huart p m h =
      let (m₁, e₁, s₁) = tx_irq-byte huart p k m h in
      let (m₂, e₂, s₂) =
        subst
          (λ f.
            Does (interrupts (tx_not_full_irq_handler hw tx_cplt) k (tx_at huart (next p) k)) m₁
              (sent_log (uart_tx_data huart.instance_addr) (bytes f k (next p)))
              (tx_at huart (advance k (next p)) 0))
          s₁.mem (interrupts-tx k huart (next p) m₁ (omega arith)) in
      (m₂, rw (e₁, ◌>>=◌) e₂, Sent-trans s₁ s₂)

  -- The interrupt after the last byte.
  pub tx_irq-end :
      (huart : UartHandle) (p : ℕ) (m : Machine G)
      → let c = uart_control huart.instance_addr in
        let v = hw.value m.log c in
        tx_not_full_irq_handler hw tx_cplt (tx_at huart p 0) m
        ≡ (tx_cplt (record (tx_at huart p 0) { g_state = ready }) >>= tx_moved)
            (record m { log = write c (bit_and v (not32 uart_tx_int_en)) ∷ read c v ∷ m.log })
  unfolding tx_not_full_irq_handler tx_complete
  tx_irq-end huart p m = ground arith

  pub uart_transmit_it_ready :
      (huart : UartHandle) (buf k : ℕ) (m : Machine G)
      → huart.g_state ≡ ready
      → 0 < buf
      → let c = uart_control huart.instance_addr in
        let v = hw.value m.log c in
        uart_transmit_it hw huart buf (suc k) m
        ≡ some (
          tx_at (record huart { tx_xfer_size = suc k }) buf (suc k),
          record m { log = write c (bit_or v uart_tx_int_en) ∷ read c v ∷ m.log },
        )
  unfolding uart_transmit_it
  uart_transmit_it_ready huart buf k m isReady b = ground arith

  -- On a ready handle, for a buffer that is not null of 1 to 65535 bytes, `UART_Transmit_IT` and
  -- then one interrupt for each byte and one more bring the driver to the completion callback, with
  -- the handle ready and its count at 0, and then to the end of the handler, which moves the
  -- pointer and the count of the handle that the callback leaves. The interrupt was enabled, the
  -- bytes of the buffer were written to the transmit register in order, and the interrupt was
  -- disabled; no other register and no memory was written.
  pub uart_transmit_it_complete :
      (huart : UartHandle) (buf k : ℕ) (m : Machine G)
      → huart.g_state ≡ ready
      → 0 < buf
      → suc k < 2 ^ 16
      → let r = huart.instance_addr in
        (m' : Machine G) × (v : ℕ) × ((uart_transmit_it hw huart buf (suc k)
              >>= interrupts (tx_not_full_irq_handler hw tx_cplt) (suc (suc k)))
            m
          ≡ (tx_cplt (record huart {
            tx_xfer_size = suc k;
            tx_buff_ptr = advance (suc k) buf;
            tx_xfer_count = 0;
            g_state = ready;
          })
                >>= tx_moved)
              m')
        × (writes m'.log
            ≡ (uart_control r, bit_and v (not32 uart_tx_int_en))
              ∷ (sent_log (uart_tx_data r) (bytes m.mem (suc k) buf)
                  ++ ((uart_control r, bit_or (hw.value m.log (uart_control r)) uart_tx_int_en)
                      ∷ writes m.log)))
        × (m'.mem ≡ m.mem)
        × (m'.app ≡ m.app)
  uart_transmit_it_complete huart buf k m isReady b h =
      let c = uart_control huart.instance_addr in
      let m₁ : Machine G = record m {
        log =
            write c (bit_or (hw.value m.log c) uart_tx_int_en) ∷ read c (hw.value m.log c) ∷ m.log;
      } in
      let huart₁ = record huart { tx_xfer_size = suc k } in
      let (m₂, e₂, s₂) = interrupts-tx (suc k) huart₁ buf m₁ h in
      let v = hw.value m₂.log c in
      (
        record m₂ { log = write c (bit_and v (not32 uart_tx_int_en)) ∷ read c v ∷ m₂.log },
        v,
        rw (uart_transmit_it_ready huart buf k m isReady b, ◌>>=◌)
            (interrupts-last (tx_not_full_irq_handler hw tx_cplt) (suc k) _ m₁
              ∙ rw (e₂, ◌>>=◌) (tx_irq-end huart₁ (advance (suc k) buf) m₂)),
        ap (λ ws. (c, bit_and v (not32 uart_tx_int_en)) ∷ ws) s₂.wrote,
        s₂.mem,
        s₂.app,
      )
