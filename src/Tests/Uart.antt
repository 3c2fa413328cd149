-- ===== src/Tests/Uart.antt =====
-- Examples on the UART without FIFOs.
use mlab_mcu_edu.Prelude.{
  ℕ, ◌+◌, ◌≡◌, refl, some, List, [], ◌∷◌, ◌++◌, map, arith, bit_and, bit_or, not32, u8, inl,
}
use mlab_mcu_edu.Machine.{Hardware, Machine, pure, ◌>>=◌}
use mlab_mcu_edu.Machine.Runs.{writes, Does}
use mlab_mcu_edu.Machine.Buffers.{bytes, reads_of, latest_first, sent_log}
use mlab_mcu_edu.Machine.Series.{interrupts}
use mlab_mcu_edu.Uart.{
  UartHandle, ready, busy_tx, busy_rx, uart_base_addr, uart_control, uart_rx_data, uart_tx_data,
  uart_tx_int_en, uart_rx_int_en,
}
use mlab_mcu_edu.Uart.Blocking.{uart_transmit, uart_receive}
use mlab_mcu_edu.Uart.Blocking.Transmission.{uart_transmit_lem}
use mlab_mcu_edu.Uart.Blocking.Reception.{shown, uart_receive_lem}
use mlab_mcu_edu.Uart.Interrupt.{
  Callback, uart_transmit_it, uart_receive_it, tx_not_full_irq_handler, rx_not_empty_irq_handler,
}
use mlab_mcu_edu.Uart.Interrupt.Transmission.{tx_at, tx_moved, uart_transmit_it_complete}
use mlab_mcu_edu.Uart.Interrupt.Reception.{rx_at, rx_moved, uart_receive_it_complete}
use mlab_mcu_edu.Uart.Interrupt.Restart.{restart_tx_loses}
use mlab_mcu_edu.Uart.Interrupt.Duplex.{LineIrq, tx_irq, rx_irq, sending, receiving, line_irqs}
use mlab_mcu_edu.Uart.Interrupt.Duplex.Refinement.{Refined, line_irqs-Refined}
use mlab_mcu_edu.Tests.{quiet, start}

abbrev pub line : UartHandle
line = record {
  instance_addr = uart_base_addr;
  init = record {
    baud_rate = 9600;
    word_length = 8;
    stop_bits = 1;
    parity = 0;
    parity_mode = 0;
    parity_lock = 0;
  };
  tx_buff_ptr = 0;
  tx_xfer_size = 0;
  tx_xfer_count = 0;
  rx_buff_ptr = 0;
  rx_xfer_size = 0;
  rx_xfer_count = 0;
  g_state = ready;
  rx_state = ready;
}

abbrev idle : Callback (Unit {0})
idle = pure

-- A receive register that always shows the byte 65.
abbrev sender : Hardware
sender = record { value = λ l a. 256 + 65; polls = 3 }

uart_transmit_lem_example :
    Does
      (uart_transmit quiet line 16 3)
      start
      (sent_log (uart_tx_data uart_base_addr) (16 ∷ 17 ∷ 18 ∷ []))
      tt
uart_transmit_lem_example =
    uart_transmit_lem quiet line (λ l. tt) 16 3 start refl (omega arith) (omega arith)

uart_receive_lem_example :
    (vs : List ℕ) × (m' : Machine Unit) × (uart_receive sender 2 line 16 start ≡ some (tt, m'))
    × (bytes m'.mem 2 16 ≡ map u8 vs)
    × (shown (uart_rx_data uart_base_addr) m'.log ≡ latest_first vs ++ [])
    × (writes m'.log ≡ [])
uart_receive_lem_example = uart_receive_lem sender line 2 16 start (λ l. tt) (omega arith)

uart_transmit_it_complete_example :
    (m' : Machine Unit) × (v : ℕ) × ((uart_transmit_it quiet line 16 2
          >>= interrupts (tx_not_full_irq_handler quiet idle) 3)
        start
      ≡ (idle (record line {
        tx_xfer_size = 2;
        tx_buff_ptr = 18;
        tx_xfer_count = 0;
        g_state = ready;
      })
            >>= tx_moved)
          m')
    × (writes m'.log
        ≡ (uart_control uart_base_addr, bit_and v (not32 uart_tx_int_en))
          ∷ (sent_log (uart_tx_data uart_base_addr) (16 ∷ 17 ∷ [])
              ++ ((uart_control uart_base_addr, uart_tx_int_en) ∷ [])))
    × (m'.mem ≡ start.mem)
    × (m'.app ≡ tt)
uart_transmit_it_complete_example =
    uart_transmit_it_complete quiet idle line 16 1 start refl (omega arith) (omega arith)

uart_receive_it_complete_example :
    (v : ℕ) × (vs : List ℕ) × (m' : Machine Unit) × ((uart_receive_it sender line 16 2
          >>= interrupts (rx_not_empty_irq_handler sender idle) 2)
        start
      ≡ (idle (rx_at (record line { rx_xfer_size = 2 }) 17 1) >>= rx_moved) m')
    × (bytes m'.mem 2 16 ≡ map u8 vs)
    × (reads_of (uart_rx_data uart_base_addr) m'.log ≡ latest_first vs ++ [])
    × (writes m'.log
        ≡ (uart_control uart_base_addr, bit_and v (not32 uart_rx_int_en))
          ∷ (uart_control uart_base_addr, bit_or 321 uart_rx_int_en)
          ∷ [])
    × (m'.app ≡ tt)
uart_receive_it_complete_example =
    uart_receive_it_complete sender idle line 16 1 start refl (omega arith) (omega arith)

restart_tx_loses_example :
    let again : Callback (Unit {0}) = λ h. uart_transmit_it quiet h 16 3 in
    (v w : ℕ) × Does
      (interrupts (tx_not_full_irq_handler quiet again) 3 (tx_at line 5 0))
      start
      (sent_log (uart_tx_data uart_base_addr) (17 ∷ 18 ∷ [])
        ++ ((uart_control uart_base_addr, bit_or w uart_tx_int_en)
            ∷ (uart_control uart_base_addr, bit_and v (not32 uart_tx_int_en))
            ∷ []))
      (tx_at (record line { tx_xfer_size = 3 }) 19 0)
restart_tx_loses_example = restart_tx_loses quiet line 5 16 2 start (omega arith) (omega arith)

-- Two bytes go out from 0x100 while two come in at 0x200.
abbrev duplex : UartHandle
duplex = record line {
  tx_buff_ptr = 0x100;
  tx_xfer_count = 2;
  g_state = busy_tx;
  rx_buff_ptr = 0x200;
  rx_xfer_count = 2;
  rx_state = busy_rx;
}

abbrev both : List LineIrq
both = tx_irq ∷ rx_irq ∷ rx_irq ∷ tx_irq ∷ tx_irq ∷ rx_irq ∷ []

line_irqs-Refined_example :
    (h' : UartHandle) × (m' : Machine (Unit {0})) × (vs : List ℕ) × (line_irqs quiet both duplex
        start
      ≡ some (h', m'))
    × Refined both (sending (0 ∷ 1 ∷ [])) (receiving 2) duplex start h' m' vs
line_irqs-Refined_example =
    line_irqs-Refined quiet both (sending (0 ∷ 1 ∷ [])) (receiving 2) duplex start (record {
      tx = (refl, refl, omega arith, refl);
      rx = (refl, refl, omega arith, omega arith);
      apart = (omega arith, omega arith, inl (omega arith));
    })
