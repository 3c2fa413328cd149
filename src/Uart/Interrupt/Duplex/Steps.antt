-- ===== src/Uart/Interrupt/Duplex/Steps.antt =====
-- The handlers of uart.c in each state of the abstract line, and what they leave of the buffers.
use mlab_mcu_edu.Prelude.{
  ℕ, suc, ◌≡◌, refl, ap, ◌∙◌, sym, append_assoc, some, List, [], ◌∷◌, ◌++◌, length, arith, u8,
  bit_and, not32, suc-==-zero,
}
use mlab_mcu_edu.Machine.{Access, read, write, Hardware, Machine, next}
use mlab_mcu_edu.Machine.Runs.{written}
use mlab_mcu_edu.Machine.Buffers.{bytes-set_byte, set_byte, latest_first}
use mlab_mcu_edu.Uart.{
  UartState, uart_control, uart_rx_data, uart_tx_int_en, uart_rx_int_en, pred16, UartHandle, ready,
  busy_tx, busy_rx, uart_tx_data,
}
use mlab_mcu_edu.Uart.Interrupt.{
  tx_not_full_irq_handler, rx_not_empty_irq_handler, tx_byte, tx_complete, rx_complete,
}
use mlab_mcu_edu.Uart.Interrupt.Duplex.{
  Outgoing, tx_idle, sending, Incoming, rx_idle, receiving, tx_irq, rx_irq, TxStands, BuffersApart,
  line_irq,
}

abbrev pub first_of : List ℕ → ℕ
first_of [] = 0
first_of (b ∷ bs) = b

abbrev pub rest_of : List ℕ → List ℕ
rest_of [] = []
rest_of (b ∷ bs) = bs

pub Apart-next_tx :
    (i : Incoming) (b : ℕ) (bs : List ℕ) (p q : ℕ)
    → BuffersApart (sending (b ∷ bs)) i p q
    → BuffersApart (sending bs) i (next p) q
Apart-next_tx rx_idle b bs p q a = tt
Apart-next_tx (receiving n) b bs p q a = ground arith

pub Apart-next_rx :
    (o : Outgoing) (n p q : ℕ)
    → BuffersApart o (receiving (suc (suc n))) p q
    → BuffersApart o (receiving (suc n)) p (next q)
Apart-next_rx tx_idle n p q a = tt
Apart-next_rx (sending bs) n p q a = ground arith

pub Apart-rx_idle : (o : Outgoing) (p q : ℕ) → BuffersApart o rx_idle p q
Apart-rx_idle tx_idle p q = tt
Apart-rx_idle (sending bs) p q = tt

pub TxStands-set_byte :
    (o : Outgoing) (n : ℕ) (state : UartState) (count p q v : ℕ) (mem : ℕ → ℕ)
    → BuffersApart o (receiving (suc n)) p q
    → TxStands o state count p mem
    → TxStands o state count p (set_byte mem q v)
TxStands-set_byte tx_idle n state count p q v mem a t = t
TxStands-set_byte (sending bs) n state count p q v mem (fits, _, out) (t, c, small, e) =
    (t, c, small, bytes-set_byte mem q v (length bs) p fits (ground arith) ∙ e)

-- A byte that was written before others.
pub sent_before :
    (v b : ℕ) (bs : List ℕ) (a : ℕ) (l : List Access)
    → v ≡ b
    → latest_first bs ++ written a (write a v ∷ l) ≡ latest_first (b ∷ bs) ++ written a l
sent_before v b bs a l e =
    let now : written a (write a v ∷ l) ≡ b ∷ written a l = ground arith in
    ap (λ ws. latest_first bs ++ ws) now
    ∙ sym (append_assoc (latest_first bs) (b ∷ []) (written a l))

-- A handle whose pointer and count an interrupt has moved.
abbrev pub tx_moved_on : UartHandle → UartHandle
tx_moved_on h = record h {
  tx_buff_ptr = next h.tx_buff_ptr;
  tx_xfer_count = pred16 h.tx_xfer_count;
}

abbrev pub rx_moved_on : UartHandle → UartHandle
rx_moved_on h = record h {
  rx_buff_ptr = next h.rx_buff_ptr;
  rx_xfer_count = pred16 h.rx_xfer_count;
}

module _ {G : Type 0} (hw : Hardware) where
  -- The handlers in each state of the line.
  pub tx_irq-idle :
      (h : UartHandle) (m : Machine G) → h.g_state ≡ ready → line_irq hw tx_irq h m ≡ some (h, m)
  unfolding line_irq tx_not_full_irq_handler
  tx_irq-idle h m e = ground arith

  pub tx_irq-end :
      (h : UartHandle) (m : Machine G)
      → h.g_state ≡ busy_tx
      → h.tx_xfer_count ≡ 0
      → (l : List Access) × (line_irq hw tx_irq h m
          ≡ some (record (tx_moved_on h) { g_state = ready }, record m { log = l }))
        × (written (uart_tx_data h.instance_addr) l ≡ written (uart_tx_data h.instance_addr) m.log)
  unfolding line_irq tx_not_full_irq_handler tx_complete
  tx_irq-end h m e z =
      let c = uart_control h.instance_addr in
      let v = hw.value m.log c in
      (write c (bit_and v (not32 uart_tx_int_en)) ∷ read c v ∷ m.log, rw (e, z) refl, ground arith)

  pub tx_irq-next :
      (h : UartHandle) (k : ℕ) (m : Machine G)
      → h.g_state ≡ busy_tx
      → h.tx_xfer_count ≡ suc k
      → line_irq hw tx_irq h m
        ≡ some (
          tx_moved_on h,
          record m { log = write (uart_tx_data h.instance_addr) (m.mem h.tx_buff_ptr) ∷ m.log },
        )
  unfolding line_irq tx_not_full_irq_handler tx_byte
  tx_irq-next h k m e c = rw (e, c) (rw (suc-==-zero k) refl)

  pub rx_irq-idle :
      (h : UartHandle) (m : Machine G) → h.rx_state ≡ ready → line_irq hw rx_irq h m ≡ some (h, m)
  unfolding line_irq rx_not_empty_irq_handler
  rx_irq-idle h m e = ground arith

  pub rx_irq-next :
      (h : UartHandle) (k : ℕ) (m : Machine G)
      → h.rx_state ≡ busy_rx
      → h.rx_xfer_count ≡ suc (suc k)
      → let d = uart_rx_data h.instance_addr in
        let v = hw.value m.log d in
        line_irq hw rx_irq h m
        ≡ some (
          rx_moved_on h,
          record m { log = read d v ∷ m.log; mem = set_byte m.mem h.rx_buff_ptr (u8 v) },
        )
  unfolding line_irq rx_not_empty_irq_handler
  rx_irq-next h k m e c = ground arith

  pub rx_irq-last :
      (h : UartHandle) (m : Machine G)
      → h.rx_state ≡ busy_rx
      → h.rx_xfer_count ≡ 1
      → let v = hw.value m.log (uart_rx_data h.instance_addr) in
        (l : List Access) × (line_irq hw rx_irq h m
          ≡ some (
            record (rx_moved_on h) { rx_state = ready },
            record m { log = l; mem = set_byte m.mem h.rx_buff_ptr (u8 v) },
          ))
        × (written (uart_tx_data h.instance_addr) l ≡ written (uart_tx_data h.instance_addr) m.log)
  unfolding line_irq rx_not_empty_irq_handler rx_complete
  rx_irq-last h m e one =
      let d = uart_rx_data h.instance_addr in
      let c = uart_control h.instance_addr in
      let l₁ = read d (hw.value m.log d) ∷ m.log in
      let v = hw.value l₁ c in
      (write c (bit_and v (not32 uart_rx_int_en)) ∷ read c v ∷ l₁, rw (e, one) refl, ground arith)
