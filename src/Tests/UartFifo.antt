-- ===== src/Tests/UartFifo.antt =====
-- Examples on the UART with FIFOs.
use mlab_mcu_edu.Prelude.{
  ℕ, ◌*◌, ◌^◌, ◌≡◌, refl, some, List, [], ◌∷◌, ◌++◌, length, map, u8, arith, ltb, if◌then◌else◌,
  Bool-cases, inl, inr, bit_and, bit_or, not32,
}
use mlab_mcu_edu.Machine.{read, Hardware, Machine, ◌>>=◌}
use mlab_mcu_edu.Machine.Runs.{writes, Sent}
use mlab_mcu_edu.Machine.Buffers.{bytes, fill, latest_first, reads_of, sent_log, set_byte}
use mlab_mcu_edu.Machine.Got.{Got}
use mlab_mcu_edu.Machine.Series.{interrupts}
use mlab_mcu_edu.Uart.{ready, busy_rx, uart_base_addr}
use mlab_mcu_edu.UartFifo.{
  FifoHandle, fifo_tx_data, fifo_rx_data, mie_tx_half_empty, mie_rx_not_empty, fifo_transmit,
  fifo_transmit_it, fifo_receive_it, fifo_receive, drain_fifo, tx_half_empty_irq_handler,
  rx_half_full_irq_handler, mie_rx_half_full, fifo_rx_not_empty_irq_handler,
}
use mlab_mcu_edu.UartFifo.Room.{Paced, Present}
use mlab_mcu_edu.UartFifo.HalfEmpty.{fifo_at, fifo_done, fifo_transmit_it_complete}
use mlab_mcu_edu.UartFifo.Blocking.{fifo_transmit_lem}
use mlab_mcu_edu.UartFifo.Overrun.{drain_fifo_lem, receive_it_stuck}
use mlab_mcu_edu.UartFifo.Reception.{Sends, fifo_receive_lem}
use mlab_mcu_edu.UartFifo.HalfFull.{filling, filled, fifo_receive_it_complete}
use mlab_mcu_edu.Tests.{quiet, start}

abbrev line : FifoHandle
line = record {
  instance_addr = uart_base_addr;
  init = record {
    baud_rate = 9600;
    word_length = 8;
    stop_bits = 1;
    parity = 0;
    parity_mode = 0;
    parity_lock = 0;
    hw_flow_ctrl = 0;
  };
  tx_buff_ptr = 0;
  tx_xfer_size = 0;
  tx_xfer_count = 0;
  rx_buff_ptr = 0;
  rx_xfer_size = 0;
  rx_xfer_count = 0;
  g_state = ready;
  rx_state = ready;
}

-- A transmit FIFO that always has room for two bytes.
abbrev roomy : Hardware
roomy = record { value = λ l a. 2 * 2 ^ 18; polls = 5 }

fifo_transmit_it_complete_example :
    (m₁ m' : Machine Unit) × (q : ℕ) × ((fifo_transmit_it line 16 9
          >>= interrupts tx_half_empty_irq_handler 1)
        start
      ≡ some (fifo_at (record line { tx_xfer_size = 9 }) 24 1, m₁))
    × (writes m₁.log
        ≡ sent_log (fifo_tx_data uart_base_addr) (16 ∷ 17 ∷ 18 ∷ 19 ∷ 20 ∷ 21 ∷ 22 ∷ 23 ∷ []) ++ [])
    × ((fifo_transmit_it line 16 9 >>= interrupts tx_half_empty_irq_handler 2) start
        ≡ some (fifo_done (record line { tx_xfer_size = 9 }) q, m'))
    × (writes m'.log
        ≡ sent_log (fifo_tx_data uart_base_addr) (16 ∷ 17 ∷ 18 ∷ 19 ∷ 20 ∷ 21 ∷ 22 ∷ 23 ∷ 24 ∷ [])
          ++ [])
    × (m'.mem ≡ start.mem)
    × (m'.cpu ≡ record (start.cpu) {
      mie = bit_and (bit_or 0 mie_tx_half_empty) (not32 mie_tx_half_empty);
    })
fifo_transmit_it_complete_example =
    fifo_transmit_it_complete line 16 9 1 1 start refl (omega arith) (omega arith) (omega arith)
      (omega arith) (omega arith)

fifo_transmit_lem_example :
    (m' : Machine Unit) × (fifo_transmit roomy line 16 3 start ≡ some (tt, m'))
    × Sent start (sent_log (fifo_tx_data uart_base_addr) (16 ∷ 17 ∷ 18 ∷ [])) m'
    × Paced uart_base_addr m'.log
fifo_transmit_lem_example = fifo_transmit_lem line roomy 1 (λ l. tt) 16 3 start (omega arith) tt

drain_fifo_lem_example :
    (vs : List ℕ) × (m' : Machine Unit) × (length vs ≡ 3)
    × (drain_fifo quiet 3 1 line 16 start ≡ some ((19, 65534), m'))
    × Got (reads_of (fifo_rx_data uart_base_addr)) start [] vs 16 m'
drain_fifo_lem_example = drain_fifo_lem quiet line 3 1 16 start (omega arith) (omega arith)

receive_it_stuck_example :
    let h : FifoHandle = record line { rx_buff_ptr = 16; rx_xfer_count = 1; rx_state = busy_rx } in
    (fifo_rx_not_empty_irq_handler quiet h >>= λ h'. fifo_receive_it h' 32 4) start
    ≡ some (
      record h { rx_buff_ptr = 17; rx_xfer_count = 0 },
      record start {
        log = read (fifo_rx_data uart_base_addr) 0 ∷ [];
        mem = set_byte start.mem 16 0;
        cpu = record (start.cpu) { mie = bit_and 0 (not32 mie_rx_not_empty) };
      },
    )
receive_it_stuck_example = receive_it_stuck quiet line 16 32 4 start

fifo_receive_it_complete_example :
    (ws : List ℕ) × (m₁ : Machine Unit) × ((fifo_receive_it line 16 9
          >>= interrupts (rx_half_full_irq_handler quiet) 1)
        start
      ≡ some (filling (record line { rx_xfer_size = 9 }) 24 1, m₁))
    × (length ws ≡ 8)
    × (reads_of (fifo_rx_data uart_base_addr) m₁.log ≡ latest_first ws ++ [])
    × (m₁.mem ≡ fill start.mem 16 ws)
    × (vs : List ℕ) × (m' : Machine Unit) × ((fifo_receive_it line 16 9
            >>= interrupts (rx_half_full_irq_handler quiet) 2)
          start
        ≡ some (filled (record line { rx_xfer_size = 9 }) 25, m'))
    × (length vs ≡ 9)
    × (bytes m'.mem 9 16 ≡ map u8 vs)
    × (reads_of (fifo_rx_data uart_base_addr) m'.log ≡ latest_first vs ++ [])
    × (writes m'.log ≡ [])
    × (m'.cpu
        ≡ record (start.cpu) { mie = bit_and (bit_or 0 mie_rx_half_full) (not32 mie_rx_half_full) })
fifo_receive_it_complete_example =
    fifo_receive_it_complete quiet line 16 9 1 1 start refl (omega arith) (omega arith)
      (omega arith) (omega arith) (omega arith) (omega arith)

-- A sender of three bytes, each of which is there at the first look.
abbrev three : Hardware
three = record {
  value = λ l a. if ltb (length (reads_of (fifo_rx_data uart_base_addr) l)) 3 then 4 else 0;
  polls = 3;
}

three-Sends : Sends three uart_base_addr 1 3
three-Sends l few = elim (Bool-cases (ltb (length (reads_of (fifo_rx_data uart_base_addr) l)) 3)) [
  | inl more ↦ (rw more (ground arith), λ _. rw more tt)
  | inr done ↦ (rw done (omega (arith, few)), λ less. absurd (ground arith))
]

fifo_receive_lem_example :
    (vs : List ℕ) × (m' : Machine Unit) × (fifo_receive three line 16 3 start ≡ some (tt, m'))
    × (length vs ≡ 3)
    × (bytes m'.mem 3 16 ≡ map u8 vs)
    × (reads_of (fifo_rx_data uart_base_addr) m'.log ≡ latest_first vs ++ [])
    × (writes m'.log ≡ [])
    × (m'.cpu ≡ start.cpu)
    × Present uart_base_addr m'.log
fifo_receive_lem_example =
    fifo_receive_lem three line 1 3 three-Sends 16 3 start refl (omega arith) (omega arith)
      (omega arith) tt
