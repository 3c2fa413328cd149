-- ===== src/UartFifo/Overrun.antt =====
-- Receptions of the FIFO UART: how far the inner loop of `UART_Receive` goes, and the state after an
-- interrupt-driven reception at a high baud rate.
use mlab_mcu_edu.Prelude.{
  ℕ, zero, suc, ◌+◌, ◌-◌, ◌^◌, ◌<◌, ◌≤◌, ◌≡◌, refl, ap, ◌∙◌, some, List, [], ◌∷◌, length, arith, u8,
  u16, bit_and, not32,
}
use mlab_mcu_edu.Machine.{read, Hardware, Machine, ◌>>=◌, next}
use mlab_mcu_edu.Machine.Buffers.{advance, reads_of, set_byte}
use mlab_mcu_edu.Machine.Got.{Got, Got-cons}
use mlab_mcu_edu.Uart.{busy_rx, pred16}
use mlab_mcu_edu.UartFifo.{
  FifoHandle, fifo_rx_data, drain_fifo, receive_one, fifo_receive_it, fifo_rx_not_empty_irq_handler,
  mie_rx_not_empty,
}

module _ {G : Type 0} (hw : Hardware) (huart : FifoHandle) where
  -- The inner loop of `UART_Receive`, for a FIFO that shows `n` bytes: all of them are read and
  -- stored, in order and each as a byte, from the pointer on, whatever the size is. The size that
  -- is left is the size less `n` modulo 2^16: for a FIFO that shows more than the size, the bytes
  -- run past the buffer and the outer loop goes on with a size near 2^16.
  pub drain_fifo_lem :
      (n size p : ℕ) (m : Machine G)
      → size < 2 ^ 16
      → n ≤ 2 ^ 16
      → let d = fifo_rx_data huart.instance_addr in
        (vs : List ℕ) × (m' : Machine G) × (length vs ≡ n)
        × (drain_fifo hw n size huart p m ≡ some ((advance n p, u16 (size + 2 ^ 16 - n)), m'))
        × Got (reads_of d) m [] vs p m'
  unfolding drain_fifo
  drain_fifo_lem zero size p m h few = (
    [],
    m,
    refl,
    ap (λ k. some ((p, k), m)) (omega arith),
    record { wrote = refl; heard = refl; mem = refl; app = refl; cpu = refl },
  )
  drain_fifo_lem (suc n) size p m h few =
      let d = fifo_rx_data huart.instance_addr in
      let v = hw.value m.log d in
      let m₁ : Machine G = record m { log = read d v ∷ m.log; mem = set_byte m.mem p (u8 v) } in
      let one : Got (reads_of d) m [] (v ∷ []) p m₁ = record {
        wrote = refl;
        heard = ground arith;
        mem = refl;
        app = refl;
        cpu = refl;
      } in
      let (vs, m₂, len, e, g) =
        drain_fifo_lem n (pred16 size) (next p) m₁ (omega arith) (omega arith) in
      (
        v ∷ vs,
        m₂,
        ap suc len,
        e ∙ ap (λ k. some ((advance n (next p), k), m₂)) (omega arith),
        Got-cons (reads_of d) one g,
      )

  -- The interrupt of the last byte of a reception at a high baud rate disables the interrupt and
  -- leaves the handle busy: whatever buffer `UART_Receive_IT` is then given, it does nothing, and
  -- no interrupt is enabled.
  pub receive_it_stuck :
      (p buf size : ℕ) (m : Machine G)
      → let h : FifoHandle = record huart {
        rx_buff_ptr = p;
        rx_xfer_count = 1;
        rx_state = busy_rx;
      } in
        let d = fifo_rx_data huart.instance_addr in
        let v = hw.value m.log d in
        (fifo_rx_not_empty_irq_handler hw h >>= λ h'. fifo_receive_it h' buf size) m
        ≡ some (
          record h { rx_buff_ptr = next p; rx_xfer_count = 0 },
          record m {
            log = read d v ∷ m.log;
            mem = set_byte m.mem p (u8 v);
            cpu = record (m.cpu) { mie = bit_and m.cpu.mie (not32 mie_rx_not_empty) };
          },
        )
  unfolding fifo_rx_not_empty_irq_handler receive_one fifo_receive_it
  receive_it_stuck p buf size m = refl
