-- ===== src/Uart/Interrupt/Duplex.antt =====
-- The two directions of the UART at once: an abstract line, which sends a list of bytes and takes a
-- number of them, and the transfers of uart.c with their interrupts in any order.
pub mod Steps
pub mod Refinement
use mlab_mcu_edu.Prelude.{ℕ, zero, suc, ◌+◌, ◌^◌, ◌≤◌, ◌<◌, ◌≡◌, ◌⊎◌, List, [], ◌∷◌, length}
use mlab_mcu_edu.Machine.{Hardware, Machine, Cmd, pure, ◌>>=◌}
use mlab_mcu_edu.Machine.Buffers.{bytes}
use mlab_mcu_edu.Uart.{UartHandle, UartState, ready, busy_tx, busy_rx}
use mlab_mcu_edu.Uart.Interrupt.{tx_not_full_irq_handler, rx_not_empty_irq_handler}

-- The abstract line: the bytes still to send, and how many are still to come. When all have been
-- sent, one more interrupt ends the transmission.
pub data Outgoing : Type 0 where
  tx_idle : Outgoing
  sending : List ℕ → Outgoing

pub data Incoming : Type 0 where
  rx_idle : Incoming
  receiving : ℕ → Incoming

pub data LineIrq : Type 0 where
  tx_irq rx_irq : LineIrq

abbrev pub after_tx : Outgoing → Outgoing
after_tx tx_idle = tx_idle
after_tx (sending []) = tx_idle
after_tx (sending (b ∷ bs)) = sending bs

abbrev pub after_rx : Incoming → Incoming
after_rx rx_idle = rx_idle
after_rx (receiving zero) = receiving zero
after_rx (receiving (suc zero)) = rx_idle
after_rx (receiving (suc (suc n))) = receiving (suc n)

-- The line after interrupts, the bytes that it has sent, and the number that it has taken.
abbrev pub tx_after : List LineIrq → Outgoing → Outgoing
tx_after [] o = o
tx_after (tx_irq ∷ is) o = tx_after is (after_tx o)
tx_after (rx_irq ∷ is) o = tx_after is o

abbrev pub rx_after : List LineIrq → Incoming → Incoming
rx_after [] i = i
rx_after (tx_irq ∷ is) i = rx_after is i
rx_after (rx_irq ∷ is) i = rx_after is (after_rx i)

abbrev pub put_on : Outgoing → List ℕ → List ℕ
put_on tx_idle rest = rest
put_on (sending []) rest = rest
put_on (sending (b ∷ bs)) rest = b ∷ rest

abbrev pub sent_by : List LineIrq → Outgoing → List ℕ
sent_by [] o = []
sent_by (tx_irq ∷ is) o = put_on o (sent_by is (after_tx o))
sent_by (rx_irq ∷ is) o = sent_by is o

abbrev pub one_taken : Incoming → ℕ → ℕ
one_taken rx_idle n = n
one_taken (receiving k) n = suc n

abbrev pub taken_by : List LineIrq → Incoming → ℕ
taken_by [] i = 0
taken_by (tx_irq ∷ is) i = taken_by is i
taken_by (rx_irq ∷ is) i = one_taken i (taken_by is (after_rx i))

-- The fields of a handle, and the memory, that stand for each direction.
abbrev pub TxStands : Outgoing → (state : UartState) → (count p : ℕ) → (ℕ → ℕ) → Type 0
TxStands tx_idle state count p mem = state ≡ ready
TxStands (sending bs) state count p mem =
    (state ≡ busy_tx) × (count ≡ length bs) × (length bs < 2 ^ 16) × (bytes mem (length bs) p ≡ bs)

abbrev pub RxStands : Incoming → (state : UartState) → (count : ℕ) → Type 0
RxStands rx_idle state count = state ≡ ready
RxStands (receiving n) state count = (state ≡ busy_rx) × (count ≡ n) × (0 < n) × (n < 2 ^ 16)

-- What is left of the two buffers lies apart, within memory.
abbrev pub Apart : (p k q n : ℕ) → Type 0
Apart p k q n = (p + k ≤ 2 ^ 32) × (q + n ≤ 2 ^ 32) × ((p + k ≤ q) ⊎ (q + n ≤ p))

abbrev pub BuffersApart : Outgoing → Incoming → (p q : ℕ) → Type 0
BuffersApart tx_idle i p q = Unit
BuffersApart (sending bs) rx_idle p q = Unit
BuffersApart (sending bs) (receiving n) p q = Apart p (length bs) q n

pub record Stands (o : Outgoing) (i : Incoming) (h : UartHandle) (mem : ℕ → ℕ) : Type 0 where
  pub tx : TxStands o h.g_state h.tx_xfer_count h.tx_buff_ptr mem
  pub rx : RxStands i h.rx_state h.rx_xfer_count
  pub apart : BuffersApart o i h.tx_buff_ptr h.rx_buff_ptr

-- The interrupts, with completion callbacks that leave the handle alone.
module _ {G : Type 0} (hw : Hardware) where
  unfoldable pub line_irq : LineIrq → UartHandle → Cmd G UartHandle
  line_irq tx_irq huart = tx_not_full_irq_handler hw pure huart
  line_irq rx_irq huart = rx_not_empty_irq_handler hw pure huart

  unfoldable pub line_irqs : List LineIrq → UartHandle → Cmd G UartHandle
  line_irqs [] huart = pure huart
  line_irqs (i ∷ is) huart = line_irq i huart >>= line_irqs is
