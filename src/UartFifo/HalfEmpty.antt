-- ===== src/UartFifo/HalfEmpty.antt =====
-- An interrupt-driven transmission of the FIFO UART at a low baud rate: an interrupt for each time
-- the FIFO is half empty.
use mlab_mcu_edu.Prelude.{
  ℕ, zero, suc, ◌+◌, ◌-◌, ◌*◌, ◌^◌, ◌<◌, ◌≤◌, ◌≡◌, refl, sym, ap, subst, ◌∙◌, some, List, [], ◌∷◌,
  ◌++◌, append_assoc, arith, bit_and, bit_or, not32, u8, ltb, ◌==◌, false, if◌then◌else◌,
}
use mlab_mcu_edu.Machine.{write, Cpu, Machine, ◌>>=◌, next}
use mlab_mcu_edu.Machine.Runs.{writes, Does, Sent, Sent-trans, >>=-pure}
use mlab_mcu_edu.Machine.Buffers.{bytes, advance, advance_add, sent_log, sent_log-split}
use mlab_mcu_edu.Machine.Series.{interrupts}
use mlab_mcu_edu.Uart.{ready, busy_tx, pred16}
use mlab_mcu_edu.UartFifo.{
  FifoHandle, fifo_tx_data, mie_tx_half_empty, half_fifo_len, it_fifo_threshold, fifo_transmit_it,
  send_one, tx_half_empty_loop, tx_half_empty_irq_handler,
}

-- A handle in a transmission, with `n` bytes left from `p` on, and at its end.
abbrev pub fifo_at : FifoHandle → ℕ → ℕ → FifoHandle
fifo_at huart p n = record huart { tx_buff_ptr = p; tx_xfer_count = n; g_state = busy_tx }

abbrev pub fifo_done : FifoHandle → ℕ → FifoHandle
fifo_done huart p = record huart { tx_buff_ptr = p; tx_xfer_count = 0; g_state = ready }

pred16-lem : (c : ℕ) → 0 < c → c < 2 ^ 16 → pred16 c ≡ c - 1
pred16-lem c pos h = omega arith

module _ {G : Type 0} where
  -- A run that made the writes `ws`, left memory alone and turned an interrupt off.
  pub record Finished (bit : ℕ) (m : Machine G) (ws : List (ℕ × ℕ)) (m' : Machine G) : Type 0 where
    pub wrote : writes m'.log ≡ ws ++ writes m.log
    pub mem : m'.mem ≡ m.mem
    pub app : m'.app ≡ m.app
    pub cpu : m'.cpu ≡ record (m.cpu) { mie = bit_and m.cpu.mie (not32 bit) }

  pub Finished-after :
      {bit : ℕ} {m m' m'' : Machine G} {ws vs : List (ℕ × ℕ)}
      → Sent m ws m'
      → Finished bit m' vs m''
      → Finished bit m (vs ++ ws) m''
  Finished-after {bit} {m = m} {ws = ws} {vs} s t = record {
    wrote = t.wrote ∙ ap (λ l. vs ++ l) s.wrote ∙ sym (append_assoc vs ws (writes m.log));
    mem = t.mem ∙ s.mem;
    app = t.app ∙ s.app;
    cpu = t.cpu ∙ ap {A = Cpu} (λ c. record c { mie = bit_and c.mie (not32 bit) }) s.cpu;
  }

module _ {G : Type 0} (huart : FifoHandle) where
  abbrev after_byte : ℕ → Machine G → Machine G
  after_byte p m = record m { log = write (fifo_tx_data huart.instance_addr) (m.mem p) ∷ m.log }

  loop-step :
      (n p c : ℕ) (m : Machine G)
      → 1 < c
      → c < 2 ^ 16
      → tx_half_empty_loop (suc n) (fifo_at huart p c) m
        ≡ tx_half_empty_loop n (fifo_at huart (next p) (c - 1)) (after_byte p m)
  unfolding tx_half_empty_loop send_one
  loop-step n p c m one h =
      let more : (c - 1 == 0) ≡ false = ground arith in
      rw (pred16-lem c (omega arith) h) (rw more refl)

  after_byte-Sent :
      (p : ℕ) (m : Machine G)
      → Sent m ((fifo_tx_data huart.instance_addr, m.mem p) ∷ []) (after_byte p m)
  after_byte-Sent p m = record { wrote = refl; mem = refl; app = refl; cpu = refl }

  -- `n` bytes of more.
  loop-part :
      (n p c : ℕ) (m : Machine G)
      → n < c
      → c < 2 ^ 16
      → Does
          (tx_half_empty_loop n (fifo_at huart p c))
          m
          (sent_log (fifo_tx_data huart.instance_addr) (bytes m.mem n p))
          (fifo_at huart (advance n p) (c - n))
  unfolding tx_half_empty_loop
  loop-part zero p c m one h =
      (m, unlooped, record { wrote = refl; mem = refl; app = refl; cpu = refl })
    where
      unlooped : tx_half_empty_loop 0 (fifo_at huart p c) m ≡ some (fifo_at huart p (c - 0), m)
      unlooped = ap (λ k. some (fifo_at huart p k, m)) (omega arith)
  loop-part (suc n) p c m one h =
      let (m', e, s) = loop-part n (next p) (c - 1) (after_byte p m) (omega arith) (omega arith) in
      (
        m',
        loop-step n p c m (omega arith) h
            ∙ e
            ∙ ap (λ k. some (fifo_at huart (advance n (next p)) k, m')) (omega arith),
        Sent-trans (after_byte-Sent p m) s,
      )

  -- All that is left.
  loop-all :
      (k p : ℕ) (m : Machine G)
      → suc k < 2 ^ 16
      → (m' : Machine G) × (tx_half_empty_loop (suc k) (fifo_at huart p (suc k)) m
          ≡ some (fifo_done huart (advance (suc k) p), m'))
        × Finished mie_tx_half_empty m
            (sent_log (fifo_tx_data huart.instance_addr) (bytes m.mem (suc k) p))
            m'
  unfolding tx_half_empty_loop send_one
  loop-all zero p m h =
      let m₁ = after_byte p m in
      (
        record m₁ { cpu = record (m.cpu) { mie = bit_and m.cpu.mie (not32 mie_tx_half_empty) } },
        refl,
        record { wrote = refl; mem = refl; app = refl; cpu = refl },
      )
  loop-all (suc k) p m h =
      let (m', e, s) = loop-all k (next p) (after_byte p m) (omega arith) in
      (
        m',
        loop-step (suc k) p (suc (suc k)) m (omega arith) h
            ∙ ap (λ c. tx_half_empty_loop (suc k) (fifo_at huart (next p) c) (after_byte p m))
                (omega arith)
            ∙ e,
        Finished-after (after_byte-Sent p m) s,
      )

  irq-part :
      (p c : ℕ) (m : Machine G)
      → half_fifo_len < c
      → c < 2 ^ 16
      → Does
          (tx_half_empty_irq_handler (fifo_at huart p c))
          m
          (sent_log (fifo_tx_data huart.instance_addr) (bytes m.mem half_fifo_len p))
          (fifo_at huart (advance half_fifo_len p) (c - half_fifo_len))
  unfolding tx_half_empty_irq_handler
  irq-part p c m more h =
      let (m', e, s) = loop-part half_fifo_len p c m more h in
      let len : (if ltb c half_fifo_len then u8 c else half_fifo_len) ≡ half_fifo_len =
        ground arith in
      (m', ap (λ n. tx_half_empty_loop n (fifo_at huart p c) m) len ∙ e, s)

  irq-all :
      (c p : ℕ) (m : Machine G)
      → 0 < c
      → c ≤ half_fifo_len
      → (m' : Machine G) × (tx_half_empty_irq_handler (fifo_at huart p c) m
          ≡ some (fifo_done huart (advance c p), m'))
        × Finished mie_tx_half_empty m
            (sent_log (fifo_tx_data huart.instance_addr) (bytes m.mem c p))
            m'
  unfolding tx_half_empty_irq_handler
  irq-all zero p m pos few = absurd (omega arith)
  irq-all (suc k) p m pos few =
      let (m', e, s) = loop-all k p m (omega arith) in
      let len : (if ltb (suc k) half_fifo_len then u8 (suc k) else half_fifo_len) ≡ suc k =
        ground arith in
      (m', ap (λ n. tx_half_empty_loop n (fifo_at huart p (suc k)) m) len ∙ e, s)

  -- `k` interrupts with more than `8 k` bytes left: each sends the next eight.
  interrupts-part :
      (k c p : ℕ) (m : Machine G)
      → k * half_fifo_len < c
      → c < 2 ^ 16
      → Does
          (interrupts tx_half_empty_irq_handler k (fifo_at huart p c))
          m
          (sent_log (fifo_tx_data huart.instance_addr) (bytes m.mem (k * half_fifo_len) p))
          (fifo_at huart (advance (k * half_fifo_len) p) (c - k * half_fifo_len))
  unfolding interrupts
  interrupts-part zero c p m low h = (
    m,
    ap (λ n. some (fifo_at huart p n, m)) (omega arith),
    record { wrote = refl; mem = refl; app = refl; cpu = refl },
  )
  interrupts-part (suc k) c p m low h =
      let tx = fifo_tx_data huart.instance_addr in
      let q = advance half_fifo_len p in
      let n = k * half_fifo_len in
      let all : half_fifo_len + n ≡ suc k * half_fifo_len = omega arith in
      let more : suc k * half_fifo_len - half_fifo_len ≡ n = omega arith in
      let (m₁, e₁, s₁) = irq-part p c m (omega arith) h in
      let (m₂, e₂, s₂) = interrupts-part k (c - half_fifo_len) q m₁ (omega arith) (omega arith) in
      let s₃ = subst (λ f. Sent m₁ (sent_log tx (bytes f n q)) m₂) s₁.mem s₂ in
      (
        m₂,
        rw (e₁, ◌>>=◌)
            (e₂
              ∙ ap (λ x. some (fifo_at huart x (c - half_fifo_len - n), m₂))
                  (advance_add half_fifo_len n p ∙ ap (λ x. advance x p) all)
              ∙ ap (λ x. some (fifo_at huart (advance (suc k * half_fifo_len) p) x, m₂))
                  (omega arith)),
        subst (λ ws. Sent m ws m₂)
            (ap (λ x. sent_log tx (bytes m.mem x q) ++ sent_log tx (bytes m.mem half_fifo_len p))
                (sym more)
              ∙ sym (sent_log-split tx m.mem half_fifo_len (suc k * half_fifo_len) p (omega arith)))
            (Sent-trans s₁ s₃),
      )

  interrupts-all :
      (j c p : ℕ) (m : Machine G)
      → j * half_fifo_len < c
      → c ≤ suc j * half_fifo_len
      → c < 2 ^ 16
      → (m' : Machine G) × (q : ℕ) × (interrupts tx_half_empty_irq_handler
            (suc j)
            (fifo_at huart p c)
            m
          ≡ some (fifo_done huart q, m'))
        × Finished mie_tx_half_empty m
            (sent_log (fifo_tx_data huart.instance_addr) (bytes m.mem c p))
            m'
  unfolding interrupts
  interrupts-all zero c p m low high h =
      let (m', e, s) = irq-all c p m (omega arith) (omega arith) in
      (m', advance c p, >>=-pure (tx_half_empty_irq_handler _) m ∙ e, s)
  interrupts-all (suc j) c p m low high h =
      let tx = fifo_tx_data huart.instance_addr in
      let (m₁, e₁, s₁) = irq-part p c m (omega arith) h in
      let (m₂, q, e₂, s₂) =
        interrupts-all j (c - half_fifo_len) (advance half_fifo_len p) m₁ (omega arith)
          (omega arith) (omega arith) in
      let s₃ =
        subst
          (λ f.
            Finished mie_tx_half_empty m₁
              (sent_log tx (bytes f (c - half_fifo_len) (advance half_fifo_len p))) m₂)
          s₁.mem s₂ in
      (
        m₂,
        q,
        rw (e₁, ◌>>=◌) e₂,
        subst (λ ws. Finished mie_tx_half_empty m ws m₂)
            (sym (sent_log-split tx m.mem half_fifo_len c p (omega arith))) (Finished-after s₁ s₃),
      )

fifo_transmit_it_ready :
    {G : Type 0} (huart : FifoHandle) (buf size : ℕ) (m : Machine G)
    → huart.g_state ≡ ready
    → huart.init.baud_rate ≤ it_fifo_threshold
    → fifo_transmit_it huart buf size m
      ≡ some (
        fifo_at (record huart { tx_xfer_size = size }) buf size,
        record m { cpu = record (m.cpu) { mie = bit_or m.cpu.mie mie_tx_half_empty } },
      )
unfolding fifo_transmit_it
fifo_transmit_it_ready huart buf size m isReady slow = ground arith

-- On a ready handle whose baud rate is not above the threshold, for 1 to 65535 bytes,
-- `UART_Transmit_IT` and then one interrupt for each eight bytes begun leave the handle ready with
-- its count at 0. The bytes of the buffer were written to the transmit register in order, nothing
-- else was written, and the interrupt was enabled in `mie` and disabled again. They go out in chunks
-- of eight: after any number `k` of the interrupts but the last, just the first `8 k` bytes have been
-- written, and the handle is busy with the others.
pub fifo_transmit_it_complete :
    {G : Type 0} (huart : FifoHandle) (buf size j k : ℕ) (m : Machine G)
    → huart.g_state ≡ ready
    → huart.init.baud_rate ≤ it_fifo_threshold
    → j * half_fifo_len < size
    → size ≤ suc j * half_fifo_len
    → size < 2 ^ 16
    → k ≤ j
    → let tx = fifo_tx_data huart.instance_addr in
      let huart₁ = record huart { tx_xfer_size = size } in
      let sent = k * half_fifo_len in
      (m₁ m' : Machine G) × (q : ℕ) × ((fifo_transmit_it huart buf size
            >>= interrupts tx_half_empty_irq_handler k)
          m
        ≡ some (fifo_at huart₁ (advance sent buf) (size - sent), m₁))
      × (writes m₁.log ≡ sent_log tx (bytes m.mem sent buf) ++ writes m.log)
      × ((fifo_transmit_it huart buf size >>= interrupts tx_half_empty_irq_handler (suc j)) m
          ≡ some (fifo_done huart₁ q, m'))
      × (writes m'.log ≡ sent_log tx (bytes m.mem size buf) ++ writes m.log)
      × (m'.mem ≡ m.mem)
      × (m'.cpu ≡ record (m.cpu) {
        mie = bit_and (bit_or m.cpu.mie mie_tx_half_empty) (not32 mie_tx_half_empty);
      })
fifo_transmit_it_complete huart buf size j k m isReady slow low high h some_left =
    let m₀ : Machine _ = record m {
      cpu = record (m.cpu) { mie = bit_or m.cpu.mie mie_tx_half_empty };
    } in
    let huart₁ = record huart { tx_xfer_size = size } in
    let start = fifo_transmit_it_ready huart buf size m isReady slow in
    let (m₁, e₁, s₁) = interrupts-part huart₁ k size buf m₀ (omega arith) h in
    let (m₂, q, e₂, s₂) = interrupts-all huart₁ j size buf m₀ low high h in
    (m₁, m₂, q, rw (start, ◌>>=◌) e₁, s₁.wrote, rw (start, ◌>>=◌) e₂, s₂.wrote, s₂.mem, s₂.cpu)
