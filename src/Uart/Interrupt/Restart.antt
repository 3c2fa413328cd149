-- ===== src/Uart/Interrupt/Restart.antt =====
-- A completion callback of the UART that starts the next transfer, as the applications' callbacks
-- do: what the handlers do after the callback falls on the new transfer.
use mlab_mcu_edu.Prelude.{
  ℕ, suc, ◌^◌, ◌<◌, ◌≡◌, refl, ap, subst, ◌++◌, ◌∙◌, some, [], ◌∷◌, arith, bit_and, bit_or, not32,
  u8,
}
use mlab_mcu_edu.Machine.{read, write, Hardware, Machine, ◌>>=◌, next}
use mlab_mcu_edu.Machine.Runs.{writes, Does, Sent-trans}
use mlab_mcu_edu.Machine.Buffers.{bytes, advance, sent_log, set_byte}
use mlab_mcu_edu.Machine.Series.{interrupts}
use mlab_mcu_edu.Uart.{
  UartHandle, ready, uart_tx_data, uart_rx_data, uart_control, uart_tx_int_en, uart_rx_int_en,
}
use mlab_mcu_edu.Uart.Interrupt.{
  Callback, uart_transmit_it, uart_receive_it, rx_complete, tx_not_full_irq_handler,
  rx_not_empty_irq_handler,
}
use mlab_mcu_edu.Uart.Interrupt.Transmission.{
  tx_at, interrupts-tx, tx_irq-end, uart_transmit_it_ready,
}
use mlab_mcu_edu.Uart.Interrupt.Reception.{rx_at}

module _ {G : Type 0} (hw : Hardware) where
  -- The interrupt that ends a transmission, with a callback that transmits a buffer of `k + 1`
  -- bytes: the handler moves the new transfer on by one byte.
  restart-tx :
      (huart : UartHandle) (p buf k : ℕ) (m : Machine G)
      → 0 < buf
      → suc k < 2 ^ 16
      → let again : Callback G = λ h. uart_transmit_it hw h buf (suc k) in
        let c = uart_control huart.instance_addr in
        (v w : ℕ) × Does
          (tx_not_full_irq_handler hw again (tx_at huart p 0))
          m
          ((c, bit_or w uart_tx_int_en) ∷ (c, bit_and v (not32 uart_tx_int_en)) ∷ [])
          (tx_at (record huart { tx_xfer_size = suc k }) (next buf) k)
  restart-tx huart p buf k m b h =
      let again : Callback G = λ h. uart_transmit_it hw h buf (suc k) in
      let c = uart_control huart.instance_addr in
      let v = hw.value m.log c in
      let m₁ : Machine G = record m {
        log = write c (bit_and v (not32 uart_tx_int_en)) ∷ read c v ∷ m.log;
      } in
      let w = hw.value m₁.log c in
      let m₂ : Machine G = record m₁ {
        log = write c (bit_or w uart_tx_int_en) ∷ read c w ∷ m₁.log;
      } in
      (
        v,
        w,
        (
          m₂,
          tx_irq-end hw again huart p m
              ∙ rw
                  (
                    uart_transmit_it_ready hw again (record (tx_at huart p 0) { g_state = ready })
                        buf k m₁ refl b,
                    ◌>>=◌,
                  )
                  (ap (λ n. some (tx_at (record huart { tx_xfer_size = suc k }) (next buf) n, m₂))
                    (omega arith)),
          record { wrote = refl; mem = refl; app = refl; cpu = refl },
        ),
      )

  -- Where the completion callback transmits a buffer of 1 to 65535 bytes that is not null, the
  -- first byte of that buffer is never sent: the interrupt that ends the old transmission disables
  -- and enables the interrupt, and then `k` more interrupts send the `k` bytes from the second on,
  -- and the count is 0.
  pub restart_tx_loses :
      (huart : UartHandle) (p buf k : ℕ) (m : Machine G)
      → 0 < buf
      → suc k < 2 ^ 16
      → let again : Callback G = λ h. uart_transmit_it hw h buf (suc k) in
        let c = uart_control huart.instance_addr in
        (v w : ℕ) × Does
          (interrupts (tx_not_full_irq_handler hw again) (suc k) (tx_at huart p 0))
          m
          (sent_log (uart_tx_data huart.instance_addr) (bytes m.mem k (next buf))
            ++ ((c, bit_or w uart_tx_int_en) ∷ (c, bit_and v (not32 uart_tx_int_en)) ∷ []))
          (tx_at (record huart { tx_xfer_size = suc k }) (advance k (next buf)) 0)
  unfolding interrupts
  restart_tx_loses huart p buf k m b h =
      let again : Callback G = λ h. uart_transmit_it hw h buf (suc k) in
      let huart₁ = record huart { tx_xfer_size = suc k } in
      let (v, w, first) = restart-tx huart p buf k m b h in
      let (m₁, e₁, s₁) = first in
      let (m₂, e₂, s₂) =
        subst
          (λ f.
            Does (interrupts (tx_not_full_irq_handler hw again) k (tx_at huart₁ (next buf) k)) m₁
              (sent_log (uart_tx_data huart.instance_addr) (bytes f k (next buf)))
              (tx_at huart₁ (advance k (next buf)) 0))
          s₁.mem (interrupts-tx hw again k huart₁ (next buf) m₁ (omega arith)) in
      (v, w, (m₂, rw (e₁, ◌>>=◌) e₂, Sent-trans s₁ s₂))

  -- Where the completion callback of a reception asks for the next one, the request is refused: the
  -- handle is still busy then. The interrupt of the last byte stores it, disables the interrupt, and
  -- leaves the handle ready with its count at 0, and the interrupt is not enabled again.
  restart_rx_refused :
      (huart : UartHandle) (p buf n : ℕ) (m : Machine G)
      → let again : Callback G = λ h. uart_receive_it hw h buf n in
        let d = uart_rx_data huart.instance_addr in
        let c = uart_control huart.instance_addr in
        (v : ℕ) × (m' : Machine G) × (rx_not_empty_irq_handler hw again (rx_at huart p 1) m
          ≡ some (record huart { rx_buff_ptr = next p; rx_xfer_count = 0; rx_state = ready }, m'))
        × (m'.mem ≡ set_byte m.mem p (u8 (hw.value m.log d)))
        × (writes m'.log ≡ (c, bit_and v (not32 uart_rx_int_en)) ∷ writes m.log)
  unfolding rx_not_empty_irq_handler rx_complete uart_receive_it
  restart_rx_refused huart p buf n m =
      let d = uart_rx_data huart.instance_addr in
      let c = uart_control huart.instance_addr in
      let l₁ = read d (hw.value m.log d) ∷ m.log in
      let v = hw.value l₁ c in
      (
        v,
        record m {
          log = write c (bit_and v (not32 uart_rx_int_en)) ∷ read c v ∷ l₁;
          mem = set_byte m.mem p (u8 (hw.value m.log d));
        },
        refl,
        refl,
        refl,
      )
