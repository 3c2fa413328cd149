-- ===== src/Uart/Blocking/Unheard.antt =====
-- A blocking transmission of the UART leaves what the receive register showed as it was.
use mlab_mcu_edu.Prelude.{
  ℕ, zero, suc, ◌≡◌, refl, true, false, Bool, ◌==◌, ◌||◌, arith, if◌then◌else◌,
}
use mlab_mcu_edu.Machine.{Hardware, Cmd, pure, next, wait_clear}
use mlab_mcu_edu.Machine.Unseen.{
  Unseen, Unseen->>=, Unseen-pure, Unseen-peek, Unseen-store, Unseen-wait_clear,
}
use mlab_mcu_edu.Uart.{
  UartHandle, UartState, reset, ready, busy, busy_tx, busy_rx, busy_tx_rx, timeout, error,
  uart_tx_data, uart_rx_data, uart_tx_busy,
}
use mlab_mcu_edu.Uart.Blocking.{transmit_bytes, transmit, uart_transmit}
use mlab_mcu_edu.Uart.Blocking.Reception.{shown, rx_of}

rx-ne-tx : (a : ℕ) → (uart_rx_data a == uart_tx_data a) ≡ false
rx-ne-tx a = ground arith

module _ {G : Type 0} (hw : Hardware) (huart : UartHandle) where
  wait-Unseen :
      Unseen
        (shown (rx_of huart))
        (wait_clear {G = G} hw (uart_tx_data huart.instance_addr) uart_tx_busy)
  wait-Unseen =
      Unseen-wait_clear (shown (rx_of huart)) hw (uart_tx_data huart.instance_addr) uart_tx_busy
        (λ l v. rw (rx-ne-tx huart.instance_addr) refl)

  bytes-Unseen : (n buf : ℕ) → Unseen (shown (rx_of huart)) (transmit_bytes {G = G} hw n huart buf)
  unfolding transmit_bytes
  bytes-Unseen zero buf = Unseen-pure (shown (rx_of huart)) tt
  bytes-Unseen (suc n) buf = Unseen->>= (shown (rx_of huart)) wait-Unseen λ _.
      Unseen->>= (shown (rx_of huart)) (Unseen-peek (shown (rx_of huart)) buf) λ byte.
        Unseen->>= (shown (rx_of huart))
          (Unseen-store (shown (rx_of huart)) (uart_tx_data huart.instance_addr) byte (λ l. refl))
          λ _. bytes-Unseen n (next buf)

  by_case :
      (b : Bool) {c : Cmd G (Unit {0})}
      → Unseen (shown (rx_of huart)) c
      → Unseen (shown (rx_of huart)) (if b then pure tt else c)
  by_case true u = Unseen-pure (shown (rx_of huart)) tt
  by_case false u = u

  by_state :
      {c : Cmd G (Unit {0})}
      → Unseen (shown (rx_of huart)) c
      → (s : UartState)
      → Unseen (shown (rx_of huart)) (elim s as (λ _. Cmd G (Unit {0})) [ ready ↦ c | _ ↦ pure tt ])
  by_state u ready = u
  by_state u reset = Unseen-pure (shown (rx_of huart)) tt
  by_state u busy = Unseen-pure (shown (rx_of huart)) tt
  by_state u busy_tx = Unseen-pure (shown (rx_of huart)) tt
  by_state u busy_rx = Unseen-pure (shown (rx_of huart)) tt
  by_state u busy_tx_rx = Unseen-pure (shown (rx_of huart)) tt
  by_state u timeout = Unseen-pure (shown (rx_of huart)) tt
  by_state u error = Unseen-pure (shown (rx_of huart)) tt

  pub uart_transmit-Unseen :
      (buf size : ℕ) → Unseen (shown (rx_of huart)) (uart_transmit {G = G} hw huart buf size)
  unfolding uart_transmit transmit
  uart_transmit-Unseen buf size =
      by_state
        (by_case (buf == 0 || size == 0)
          (Unseen->>= (shown (rx_of huart)) (bytes-Unseen size buf) λ _. wait-Unseen))
        huart.g_state
