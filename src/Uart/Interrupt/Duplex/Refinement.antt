-- ===== src/Uart/Interrupt/Duplex/Refinement.antt =====
-- The handlers of uart.c refine the abstract line.
use mlab_mcu_edu.Prelude.{
  ℕ, zero, suc, ◌≡◌, refl, ap, ◌∙◌, some, List, [], ◌∷◌, ◌++◌, length, arith, u8,
}
use mlab_mcu_edu.Machine.{read, write, Hardware, Machine, ◌>>=◌, next}
use mlab_mcu_edu.Machine.Runs.{written}
use mlab_mcu_edu.Machine.Buffers.{set_byte, fill, latest_first}
use mlab_mcu_edu.Uart.{uart_rx_data, UartHandle, ready, uart_tx_data}
use mlab_mcu_edu.Uart.Interrupt.Duplex.{
  Outgoing, tx_idle, sending, Incoming, rx_idle, receiving, LineIrq, tx_irq, rx_irq, tx_after,
  rx_after, sent_by, taken_by, Stands, line_irqs,
}
use mlab_mcu_edu.Uart.Interrupt.Duplex.Steps.{
  first_of, rest_of, Apart-next_tx, Apart-next_rx, Apart-rx_idle, TxStands-set_byte, sent_before,
  tx_moved_on, rx_moved_on, tx_irq-idle, tx_irq-end, tx_irq-next, rx_irq-idle, rx_irq-next,
  rx_irq-last,
}

module _ {G : Type 0} where
  -- What interrupts leave, against the abstract line: it stands for the handle and the memory, the
  -- bytes that it sent were written in order, and a byte was stored for each one that it took.
  pub record Refined (is : List LineIrq) (o : Outgoing) (i : Incoming) (h : UartHandle)
      (m : Machine G) (h' : UartHandle) (m' : Machine G) (vs : List ℕ) : Type 0 where
    pub stands : Stands (tx_after is o) (rx_after is i) h' m'.mem
    pub sent :
        written (uart_tx_data h.instance_addr) m'.log
        ≡ latest_first (sent_by is o) ++ written (uart_tx_data h.instance_addr) m.log
    pub taken : length vs ≡ taken_by is i
    pub stored : m'.mem ≡ fill m.mem h.rx_buff_ptr vs

  module _ (hw : Hardware) where
    -- The interrupts of both directions, in any order and number and whatever the hardware answers,
    -- refine the line. From a line that stands for the handle and the memory, with what is left of the
    -- two buffers apart, and with completion callbacks that leave the handle alone, the handlers all
    -- return, and the line after the interrupts stands for the handle and the memory that they leave.
    -- The bytes that the line sent were written to the transmit register in that order, and as many
    -- values were stored from the receive pointer on, each as a byte, as the line took; nothing else in
    -- memory changed.
    pub line_irqs-Refined :
        (is : List LineIrq) (o : Outgoing) (i : Incoming) (h : UartHandle) (m : Machine G)
        → Stands o i h m.mem
        → (h' : UartHandle) × (m' : Machine G) × (vs : List ℕ) × (line_irqs hw is h m
            ≡ some (h', m'))
          × Refined is o i h m h' m' vs
    unfolding line_irqs
    line_irqs-Refined [] o i h m s =
        (h, m, [], refl, record { stands = s; sent = refl; taken = refl; stored = refl })
    line_irqs-Refined (tx_irq ∷ is) tx_idle i h m s =
        let (h', m', vs, e, r) = line_irqs-Refined is tx_idle i h m s in
        (
          h',
          m',
          vs,
          rw (tx_irq-idle hw h m s.tx, ◌>>=◌) e,
          record { stands = r.stands; sent = r.sent; taken = r.taken; stored = r.stored },
        )
    line_irqs-Refined (tx_irq ∷ is) (sending []) i h m s =
        let (t, c, small, bs) = s.tx in
        let (l, e₁, w) = tx_irq-end hw h m t c in
        let h₁ = record (tx_moved_on h) { g_state = ready } in
        let s₁ : Stands tx_idle i h₁ m.mem = record { tx = refl; rx = s.rx; apart = tt } in
        let (h', m', vs, e, r) = line_irqs-Refined is tx_idle i h₁ (record m { log = l }) s₁ in
        (
          h',
          m',
          vs,
          rw (e₁, ◌>>=◌) e,
          record {
            stands = r.stands;
            sent = r.sent ∙ ap (λ ws. latest_first (sent_by is tx_idle) ++ ws) w;
            taken = r.taken;
            stored = r.stored;
          },
        )
    line_irqs-Refined (tx_irq ∷ is) (sending (b ∷ bs)) i h m s =
        let (t, c, small, es) = s.tx in
        let d = uart_tx_data h.instance_addr in
        let m₁ : Machine G = record m { log = write d (m.mem h.tx_buff_ptr) ∷ m.log } in
        let s₁ : Stands (sending bs) i (tx_moved_on h) m.mem = record {
          tx = (t, rw c (omega arith), omega arith, ap rest_of es);
          rx = s.rx;
          apart = Apart-next_tx i b bs h.tx_buff_ptr h.rx_buff_ptr s.apart;
        } in
        let (h', m', vs, e, r) = line_irqs-Refined is (sending bs) i (tx_moved_on h) m₁ s₁ in
        (
          h',
          m',
          vs,
          rw (tx_irq-next hw h (length bs) m t c, ◌>>=◌) e,
          record {
            stands = r.stands;
            sent =
                r.sent
                ∙ sent_before (m.mem h.tx_buff_ptr) b (sent_by is (sending bs)) d m.log
                    (ap first_of es);
            taken = r.taken;
            stored = r.stored;
          },
        )
    line_irqs-Refined (rx_irq ∷ is) o rx_idle h m s =
        let (h', m', vs, e, r) = line_irqs-Refined is o rx_idle h m s in
        (
          h',
          m',
          vs,
          rw (rx_irq-idle hw h m s.rx, ◌>>=◌) e,
          record { stands = r.stands; sent = r.sent; taken = r.taken; stored = r.stored },
        )
    line_irqs-Refined (rx_irq ∷ is) o (receiving zero) h m s =
        let (t, c, pos, small) = s.rx in absurd (omega arith)
    line_irqs-Refined (rx_irq ∷ is) o (receiving (suc zero)) h m s =
        let (t, c, pos, small) = s.rx in
        let v = hw.value m.log (uart_rx_data h.instance_addr) in
        let (l, e₁, w) = rx_irq-last hw h m t c in
        let h₁ = record (rx_moved_on h) { rx_state = ready } in
        let m₁ : Machine G = record m { log = l; mem = set_byte m.mem h.rx_buff_ptr (u8 v) } in
        let s₁ : Stands o rx_idle h₁ m₁.mem = record {
          tx =
              TxStands-set_byte o 0 h.g_state h.tx_xfer_count h.tx_buff_ptr h.rx_buff_ptr (u8 v)
                m.mem s.apart s.tx;
          rx = refl;
          apart = Apart-rx_idle o h.tx_buff_ptr (next h.rx_buff_ptr);
        } in
        let (h', m', vs, e, r) = line_irqs-Refined is o rx_idle h₁ m₁ s₁ in
        (
          h',
          m',
          v ∷ vs,
          rw (e₁, ◌>>=◌) e,
          record {
            stands = r.stands;
            sent = r.sent ∙ ap (λ ws. latest_first (sent_by is o) ++ ws) w;
            taken = ap suc r.taken;
            stored = r.stored;
          },
        )
    line_irqs-Refined (rx_irq ∷ is) o (receiving (suc (suc n))) h m s =
        let (t, c, pos, small) = s.rx in
        let d = uart_rx_data h.instance_addr in
        let v = hw.value m.log d in
        let m₁ : Machine G = record m {
          log = read d v ∷ m.log;
          mem = set_byte m.mem h.rx_buff_ptr (u8 v);
        } in
        let s₁ : Stands o (receiving (suc n)) (rx_moved_on h) m₁.mem = record {
          tx =
              TxStands-set_byte o (suc n) h.g_state h.tx_xfer_count h.tx_buff_ptr h.rx_buff_ptr
                (u8 v) m.mem s.apart s.tx;
          rx = (t, rw c (omega arith), omega arith, omega arith);
          apart = Apart-next_rx o n h.tx_buff_ptr h.rx_buff_ptr s.apart;
        } in
        let (h', m', vs, e, r) = line_irqs-Refined is o (receiving (suc n)) (rx_moved_on h) m₁ s₁ in
        (
          h',
          m',
          v ∷ vs,
          rw (rx_irq-next hw h n m t c, ◌>>=◌) e,
          record { stands = r.stands; sent = r.sent; taken = ap suc r.taken; stored = r.stored },
        )
