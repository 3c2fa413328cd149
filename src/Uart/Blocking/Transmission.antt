-- ===== src/Uart/Blocking/Transmission.antt =====
-- A blocking transmission of the UART.
use mlab_mcu_edu.Prelude.{ℕ, zero, suc, ◌<◌, ◌≡◌, refl, subst, ◌∙◌, List, [], ◌∷◌, arith, ap₂}
use mlab_mcu_edu.Machine.{Access, write, Hardware, Machine, ◌>>=◌, next}
use mlab_mcu_edu.Machine.Runs.{ClearsIn, Sent, Does, Sent-trans, wait_clear-Does}
use mlab_mcu_edu.Machine.Buffers.{bytes, sent_log}
use mlab_mcu_edu.Uart.{UartHandle, ready, uart_tx_data, uart_tx_busy}
use mlab_mcu_edu.Uart.Blocking.{transmit_bytes, transmit, uart_transmit}

-- Every transmission ends: whatever came before, the busy bit is seen clear within the polls of a
-- wait loop.
abbrev pub EndsTransmissions : Hardware → ℕ → Type 0
EndsTransmissions hw regs =
    (l : List Access) → ClearsIn hw (uart_tx_data regs) uart_tx_busy hw.polls l

-- The transmit register of a handle's peripheral.
abbrev pub tx_of : UartHandle → ℕ
tx_of huart = uart_tx_data huart.instance_addr

module _ {G : Type 0} (hw : Hardware) (huart : UartHandle)
    (ends : EndsTransmissions hw huart.instance_addr) where
  transmit_bytes_lem :
      (n buf : ℕ) (m : Machine G)
      → Does (transmit_bytes hw n huart buf) m (sent_log (tx_of huart) (bytes m.mem n buf)) tt
  unfolding transmit_bytes
  transmit_bytes_lem zero buf m =
      (m, refl, record { wrote = refl; mem = refl; app = refl; cpu = refl })
  transmit_bytes_lem (suc n) buf m =
      let (m₁, e₁, s₁) = wait_clear-Does hw (tx_of huart) uart_tx_busy m (ends m.log) in
      let m₂ : Machine G = record m₁ { log = write (tx_of huart) (m₁.mem buf) ∷ m₁.log } in
      let (m₃, e₃, s₃) =
        subst
          (λ f.
            Does (transmit_bytes hw n huart (next buf)) m₂
              (sent_log (tx_of huart) (bytes f n (next buf))) tt)
          s₁.mem (transmit_bytes_lem n (next buf) m₂) in
      let sent : Sent m ((tx_of huart, m.mem buf) ∷ []) m₂ = record {
        wrote = ap₂ (λ f ws. (tx_of huart, f buf) ∷ ws) s₁.mem s₁.wrote;
        mem = s₁.mem;
        app = s₁.app;
        cpu = s₁.cpu;
      } in
      (m₃, rw (e₁, ◌>>=◌) e₃, Sent-trans sent s₃)

  started :
      (buf size : ℕ) (m : Machine G)
      → huart.g_state ≡ ready
      → 0 < buf
      → 0 < size
      → uart_transmit hw huart buf size m ≡ transmit hw huart buf size m
  unfolding uart_transmit
  started buf size m isReady b s = ground arith

  -- On a ready handle, with a buffer that is neither null nor empty and a peripheral whose
  -- transmissions end within the polls of a wait loop, `UART_Transmit` returns. It has written the
  -- bytes of the buffer to the transmit register, in order, and no other register and no memory.
  pub uart_transmit_lem :
      (buf size : ℕ) (m : Machine G)
      → huart.g_state ≡ ready
      → 0 < buf
      → 0 < size
      → Does (uart_transmit hw huart buf size) m (sent_log (tx_of huart) (bytes m.mem size buf)) tt
  unfolding transmit
  uart_transmit_lem buf size m isReady b s =
      let (m₁, e₁, s₁) = transmit_bytes_lem size buf m in
      let (m₂, e₂, s₂) = wait_clear-Does hw (tx_of huart) uart_tx_busy m₁ (ends m₁.log) in
      (m₂, started buf size m isReady b s ∙ rw (e₁, ◌>>=◌) e₂, Sent-trans s₁ s₂)
