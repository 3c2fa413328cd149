-- ===== src/Apps/FullPeripheral/Verdict/UartIrq.antt =====
-- The interrupt entry of the transmission, in the states of a transmission.
use mlab_mcu_edu.Prelude.{
  ℕ, suc, ◌^◌, ◌<◌, ◌≡◌, refl, some, ◌∷◌, arith, bit_and, not32, suc-==-zero,
}
use mlab_mcu_edu.Machine.{read, write, Hardware, Machine, next}
use mlab_mcu_edu.Uart.{ready, busy_tx, uart_control, uart_tx_int_en, uart_tx_data, pred16}
use mlab_mcu_edu.Uart.Interrupt.{tx_not_full_irq_handler, tx_byte, tx_complete}
use mlab_mcu_edu.Apps.FullPeripheral.{Globals, uart_tx_irq_handler}

-- The machine after a byte that leaves `k`, and after the interrupt that ends the transmission.
abbrev pub after_byte : ℕ → Machine Globals → Machine Globals
after_byte k m =
    let h = m.app.huart in
    record m {
      log = write (uart_tx_data h.instance_addr) (m.mem h.tx_buff_ptr) ∷ m.log;
      app = record (m.app) {
        huart = record h { tx_buff_ptr = next h.tx_buff_ptr; tx_xfer_count = k };
      };
    }

module _ (hw : Hardware) where
  abbrev pub after_last : Machine Globals → Machine Globals
  after_last m =
      let h = m.app.huart in
      let c = uart_control h.instance_addr in
      let v = hw.value m.log c in
      record m {
        log = write c (bit_and v (not32 uart_tx_int_en)) ∷ read c v ∷ m.log;
        app = record (m.app) {
          uart_tx_cmpl_callback = 1;
          huart = record h {
            tx_buff_ptr = next h.tx_buff_ptr;
            tx_xfer_count = pred16 0;
            g_state = ready;
          };
        };
      }

  pub tx_idle :
      (m : Machine Globals) → m.app.huart.g_state ≡ ready → uart_tx_irq_handler hw m ≡ some (tt, m)
  unfolding uart_tx_irq_handler tx_not_full_irq_handler
  tx_idle m e = rw e refl

  pub tx_next :
      (m : Machine Globals) (k : ℕ)
      → m.app.huart.g_state ≡ busy_tx
      → m.app.huart.tx_xfer_count ≡ suc k
      → suc k < 2 ^ 16
      → uart_tx_irq_handler hw m ≡ some (tt, after_byte k m)
  unfolding uart_tx_irq_handler tx_not_full_irq_handler tx_byte
  tx_next m k e c small =
      let down : pred16 (suc k) ≡ k = omega arith in rw (e, c) (rw (suc-==-zero k) (rw down refl))

  pub tx_end :
      (m : Machine Globals)
      → m.app.huart.g_state ≡ busy_tx
      → m.app.huart.tx_xfer_count ≡ 0
      → uart_tx_irq_handler hw m ≡ some (tt, after_last m)
  unfolding uart_tx_irq_handler tx_not_full_irq_handler tx_complete
  tx_end m e z = rw (e, z) refl
