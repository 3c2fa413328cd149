-- ===== src/UartFifo/HalfFull.antt =====
-- An interrupt-driven reception of the FIFO UART at a low baud rate: an interrupt for each time the
-- FIFO is half full.
use mlab_mcu_edu.Prelude.{
  ℕ, zero, suc, ◌+◌, ◌-◌, ◌*◌, ◌^◌, ◌<◌, ◌≤◌, ◌≡◌, refl, sym, ap, ap₂, Option, ◌∙◌, some, List, [],
  ◌∷◌, ◌++◌, append_assoc, length, length-append, map, subst, arith, bit_and, bit_or, not32, u8,
  ltb, ◌==◌, false, if◌then◌else◌,
}
use mlab_mcu_edu.Machine.{Access, read, Hardware, Machine, ◌>>=◌, next}
use mlab_mcu_edu.Machine.Runs.{writes, >>=-pure}
use mlab_mcu_edu.Machine.Buffers.{
  bytes, bytes-fill, advance, advance_add, fill, reads_of, latest_first, set_byte,
}
use mlab_mcu_edu.Machine.Got.{Got, Got-cons, Got-append}
use mlab_mcu_edu.Machine.Series.{interrupts}
use mlab_mcu_edu.Uart.{ready, busy_rx, pred16}
use mlab_mcu_edu.UartFifo.{
  FifoHandle, fifo_rx_data, mie_rx_half_full, half_fifo_len, it_fifo_threshold, fifo_receive_it,
  receive_one, rx_half_full_loop, rx_half_full_irq_handler,
}

-- A handle in a reception, with `n` bytes left to store from `p` on, and at its end.
abbrev pub filling : FifoHandle → ℕ → ℕ → FifoHandle
filling huart p n = record huart { rx_buff_ptr = p; rx_xfer_count = n; rx_state = busy_rx }

abbrev pub filled : FifoHandle → ℕ → FifoHandle
filled huart p = record huart { rx_buff_ptr = p; rx_xfer_count = 0; rx_state = ready }

pred16-lem : (c : ℕ) → 0 < c → c < 2 ^ 16 → pred16 c ≡ c - 1
pred16-lem c pos h = omega arith

module _ {G : Type 0} (hw : Hardware) (huart : FifoHandle) where
  -- A run that stored the values `vs` that the receive register gave from `p` on, wrote no register
  -- and turned the interrupt off.
  record Stored (m : Machine G) (vs : List ℕ) (p : ℕ) (m' : Machine G) : Type 0 where
    wrote : writes m'.log ≡ writes m.log
    heard :
        reads_of (fifo_rx_data huart.instance_addr) m'.log
        ≡ latest_first vs ++ reads_of (fifo_rx_data huart.instance_addr) m.log
    mem : m'.mem ≡ fill m.mem p vs
    app : m'.app ≡ m.app
    cpu : m'.cpu ≡ record (m.cpu) { mie = bit_and m.cpu.mie (not32 mie_rx_half_full) }

  abbrev heard_at : Machine G → ℕ
  heard_at m = hw.value m.log (fifo_rx_data huart.instance_addr)

  abbrev after_read : ℕ → Machine G → Machine G
  after_read p m = record m {
    log = read (fifo_rx_data huart.instance_addr) (heard_at m) ∷ m.log;
    mem = set_byte m.mem p (u8 (heard_at m));
  }

  -- The loop of the handler, on such a handle.
  abbrev loop : ℕ → ℕ → ℕ → Machine G → Option (FifoHandle × Machine G)
  loop n p c = rx_half_full_loop hw n (filling huart p c)

  loop-none :
      (p c : ℕ) (m : Machine G) → c ≡ c - 0 → loop 0 p c m ≡ some (filling huart p (c - 0), m)
  unfolding rx_half_full_loop
  loop-none p c m e = ap (λ k. some (filling huart p k, m)) e

  loop-step :
      (n p c : ℕ) (m : Machine G)
      → 1 < c
      → c < 2 ^ 16
      → rx_half_full_loop hw (suc n) (filling huart p c) m
        ≡ rx_half_full_loop hw n (filling huart (next p) (c - 1)) (after_read p m)
  unfolding rx_half_full_loop receive_one
  loop-step n p c m one h =
      let more : (c - 1 == 0) ≡ false = ground arith in
      rw (pred16-lem c (omega arith) h) (rw more refl)

  -- `a` bytes of more, then `n`.
  loop-split :
      (a n p c : ℕ) (m : Machine G)
      → a < c
      → c < 2 ^ 16
      → (m' : Machine G) × (loop a p c m ≡ some (filling huart (advance a p) (c - a), m'))
        × (loop (a + n) p c m ≡ loop n (advance a p) (c - a) m')
  loop-split zero n p c m few h =
      (m, loop-none p c m (omega arith), ap₂ (λ k d. loop k p d m) (omega arith) (omega arith))
  loop-split (suc a) n p c m few h =
      let (m', e, r) =
        loop-split a n (next p) (c - 1) (after_read p m) (omega arith) (omega arith) in
      let less : c - 1 - a ≡ c - suc a = omega arith in
      (
        m',
        loop-step a p c m (omega arith) h
            ∙ e
            ∙ ap (λ k. some (filling huart (advance a (next p)) k, m')) less,
        ap (λ k. loop k p c m) (omega arith)
            ∙ loop-step (a + n) p c m (omega arith) h
            ∙ r
            ∙ ap (λ k. loop n (advance a (next p)) k m') less,
      )

  -- The interrupts of a reception are its loop over all bytes.
  interrupts-loop :
      (j c p : ℕ) (m : Machine G)
      → j * half_fifo_len < c
      → c ≤ suc j * half_fifo_len
      → c < 2 ^ 16
      → interrupts (rx_half_full_irq_handler hw) (suc j) (filling huart p c) m ≡ loop c p c m
  unfolding interrupts rx_half_full_irq_handler
  interrupts-loop zero c p m low high h =
      let len : (if ltb c half_fifo_len then u8 c else half_fifo_len) ≡ c = ground arith in
      >>=-pure (rx_half_full_irq_handler hw (filling huart p c)) m ∙ ap (λ k. loop k p c m) len
  interrupts-loop (suc j) c p m low high h =
      let rest = c - half_fifo_len in
      let (m₁, e, r) = loop-split half_fifo_len rest p c m (omega arith) h in
      let len : (if ltb c half_fifo_len then u8 c else half_fifo_len) ≡ half_fifo_len =
        ground arith in
      rw (ap (λ k. loop k p c m) len ∙ e, ◌>>=◌)
        (interrupts-loop j rest (advance half_fifo_len p) m₁ (omega arith) (omega arith)
            (omega arith)
          ∙ sym r
          ∙ ap (λ k. loop k p c m) (omega arith))

  Stored-cons :
      (p : ℕ) (m m' : Machine G) (vs : List ℕ)
      → Stored (after_read p m) vs (next p) m'
      → Stored m (heard_at m ∷ vs) p m'
  Stored-cons p m m' vs s = record {
    wrote = s.wrote;
    heard =
        s.heard
        ∙ ap (λ l. latest_first vs ++ l) (read_heard (heard_at m) m.log)
        ∙ sym (append_assoc (latest_first vs) (heard_at m ∷ []) _);
    mem = s.mem;
    app = s.app;
    cpu = s.cpu;
  }
    where
      read_heard :
          (v : ℕ) (l : List Access)
          → reads_of
              (fifo_rx_data huart.instance_addr)
              (read (fifo_rx_data huart.instance_addr) v ∷ l)
            ≡ v ∷ reads_of (fifo_rx_data huart.instance_addr) l
      read_heard v l = ground arith

  loop-all :
      (k p : ℕ) (m : Machine G)
      → suc k < 2 ^ 16
      → (vs : List ℕ) × (m' : Machine G) × (length vs ≡ suc k)
        × (loop (suc k) p (suc k) m ≡ some (filled huart (advance (suc k) p), m'))
        × Stored m vs p m'
  unfolding rx_half_full_loop receive_one
  loop-all zero p m h =
      let off = bit_and m.cpu.mie (not32 mie_rx_half_full) in
      let m₁ = after_read p m in
      let m₂ : Machine G = record m₁ { cpu = record (m.cpu) { mie = off } } in
      (
        heard_at m ∷ [],
        m₂,
        refl,
        refl,
        Stored-cons p m m₂ []
            (record { wrote = refl; heard = refl; mem = refl; app = refl; cpu = refl }),
      )
  loop-all (suc k) p m h =
      let (vs, m', len, e, s) = loop-all k (next p) (after_read p m) (omega arith) in
      (
        heard_at m ∷ vs,
        m',
        ap suc len,
        loop-step (suc k) p (suc (suc k)) m (omega arith) h
            ∙ ap (λ c. loop (suc k) (next p) c (after_read p m)) (omega arith)
            ∙ e,
        Stored-cons p m m' vs s,
      )

  -- `a` bytes of more, stored.
  loop-part :
      (a p c : ℕ) (m : Machine G)
      → a < c
      → c < 2 ^ 16
      → (vs : List ℕ) × (m' : Machine G) × (length vs ≡ a)
        × (loop a p c m ≡ some (filling huart (advance a p) (c - a), m'))
        × Got (reads_of (fifo_rx_data huart.instance_addr)) m [] vs p m'
  loop-part zero p c m few h = (
    [],
    m,
    refl,
    loop-none p c m (omega arith),
    record { wrote = refl; heard = refl; mem = refl; app = refl; cpu = refl },
  )
  loop-part (suc a) p c m few h =
      let d = fifo_rx_data huart.instance_addr in
      let one : Got (reads_of d) m [] (heard_at m ∷ []) p (after_read p m) = record {
        wrote = refl;
        heard = ground arith;
        mem = refl;
        app = refl;
        cpu = refl;
      } in
      let (vs, m', len, e, g) =
        loop-part a (next p) (c - 1) (after_read p m) (omega arith) (omega arith) in
      (
        heard_at m ∷ vs,
        m',
        ap suc len,
        loop-step a p c m (omega arith) h
            ∙ e
            ∙ ap (λ k. some (filling huart (advance a (next p)) k, m')) (omega arith),
        Got-cons (reads_of d) one g,
      )

  irq-part :
      (p c : ℕ) (m : Machine G)
      → half_fifo_len < c
      → rx_half_full_irq_handler hw (filling huart p c) m ≡ loop half_fifo_len p c m
  unfolding rx_half_full_irq_handler
  irq-part p c m more =
      let len : (if ltb c half_fifo_len then u8 c else half_fifo_len) ≡ half_fifo_len =
        ground arith in
      ap (λ k. loop k p c m) len

  -- `k` interrupts with more than `8 k` bytes to come: each stores the next eight.
  interrupts-part :
      (k c p : ℕ) (m : Machine G)
      → k * half_fifo_len < c
      → c < 2 ^ 16
      → (vs : List ℕ) × (m' : Machine G) × (length vs ≡ k * half_fifo_len)
        × (interrupts (rx_half_full_irq_handler hw) k (filling huart p c) m
            ≡ some (filling huart (advance (k * half_fifo_len) p) (c - k * half_fifo_len), m'))
        × Got (reads_of (fifo_rx_data huart.instance_addr)) m [] vs p m'
  unfolding interrupts
  interrupts-part zero c p m low h = (
    [],
    m,
    refl,
    ap (λ n. some (filling huart p n, m)) (omega arith),
    record { wrote = refl; heard = refl; mem = refl; app = refl; cpu = refl },
  )
  interrupts-part (suc k) c p m low h =
      let d = fifo_rx_data huart.instance_addr in
      let q = advance half_fifo_len p in
      let n = k * half_fifo_len in
      let all : half_fifo_len + n ≡ suc k * half_fifo_len = omega arith in
      let (vs, m₁, len₁, e₁, g₁) = loop-part half_fifo_len p c m (omega arith) h in
      let (ws, m₂, len₂, e₂, g₂) =
        interrupts-part k (c - half_fifo_len) q m₁ (omega arith) (omega arith) in
      let g₃ = subst (λ x. Got (reads_of d) m₁ [] ws (advance x p) m₂) (sym len₁) g₂ in
      (
        vs ++ ws,
        m₂,
        length-append vs ws ∙ omega (arith, len₁, len₂),
        rw (irq-part p c m (omega arith) ∙ e₁, ◌>>=◌)
            (e₂
              ∙ ap (λ x. some (filling huart x (c - half_fifo_len - n), m₂))
                  (advance_add half_fifo_len n p ∙ ap (λ x. advance x p) all)
              ∙ ap (λ x. some (filling huart (advance (suc k * half_fifo_len) p) x, m₂))
                  (omega arith)),
        Got-append (reads_of d) vs ws g₁ g₃,
      )

  fifo_receive_it_ready :
      (buf size : ℕ) (m : Machine G)
      → huart.rx_state ≡ ready
      → huart.init.baud_rate ≤ it_fifo_threshold
      → fifo_receive_it huart buf size m
        ≡ some (
          filling (record huart { rx_xfer_size = size }) buf size,
          record m { cpu = record (m.cpu) { mie = bit_or m.cpu.mie mie_rx_half_full } },
        )
  unfolding fifo_receive_it
  fifo_receive_it_ready buf size m isReady slow = ground arith

-- On a handle that is ready to receive and whose baud rate is not above the threshold, for 1 to
-- 65535 bytes and a buffer that does not run past the end of memory, `UART_Receive_IT` and then one
-- interrupt for each eight bytes begun leave the handle ready to receive again, with its count at 0
-- and its pointer past the buffer. The values that were read from the receive register are, in order
-- and each as a byte, what the buffer holds, one for each byte; no register was written, and the
-- interrupt was enabled in `mie` and disabled again. Each interrupt but the last reads eight: after
-- any number `k` of those, just `8 k` values have been read and stored, and the handle is busy with
-- the others.
pub fifo_receive_it_complete :
    {G : Type 0} (hw : Hardware) (huart : FifoHandle) (buf size j k : ℕ) (m : Machine G)
    → huart.rx_state ≡ ready
    → huart.init.baud_rate ≤ it_fifo_threshold
    → j * half_fifo_len < size
    → size ≤ suc j * half_fifo_len
    → size < 2 ^ 16
    → buf + size ≤ 2 ^ 32
    → k ≤ j
    → let d = fifo_rx_data huart.instance_addr in
      let huart₁ = record huart { rx_xfer_size = size } in
      let got = k * half_fifo_len in
      (ws : List ℕ) × (m₁ : Machine G) × ((fifo_receive_it huart buf size
            >>= interrupts (rx_half_full_irq_handler hw) k)
          m
        ≡ some (filling huart₁ (advance got buf) (size - got), m₁))
      × (length ws ≡ got)
      × (reads_of d m₁.log ≡ latest_first ws ++ reads_of d m.log)
      × (m₁.mem ≡ fill m.mem buf ws)
      × (vs : List ℕ) × (m' : Machine G) × ((fifo_receive_it huart buf size
              >>= interrupts (rx_half_full_irq_handler hw) (suc j))
            m
          ≡ some (filled huart₁ (advance size buf), m'))
      × (length vs ≡ size)
      × (bytes m'.mem size buf ≡ map u8 vs)
      × (reads_of d m'.log ≡ latest_first vs ++ reads_of d m.log)
      × (writes m'.log ≡ writes m.log)
      × (m'.cpu ≡ record (m.cpu) {
        mie = bit_and (bit_or m.cpu.mie mie_rx_half_full) (not32 mie_rx_half_full);
      })
fifo_receive_it_complete hw huart buf zero j k m isReady slow low high h fits some_left =
    absurd (omega arith)
fifo_receive_it_complete hw huart buf (suc n) j k m isReady slow low high h fits some_left =
    let size = suc n in
    let huart₁ = record huart { rx_xfer_size = size } in
    let m₀ : Machine _ = record m {
      cpu = record (m.cpu) { mie = bit_or m.cpu.mie mie_rx_half_full };
    } in
    let start = fifo_receive_it_ready hw huart buf size m isReady slow in
    let (ws, m₁, len₁, e₁, g) = interrupts-part hw huart₁ k size buf m₀ (omega arith) h in
    let (vs, m₂, len, e, s) = loop-all hw huart₁ n buf m₀ h in
    (
      ws,
      m₁,
      rw (start, ◌>>=◌) e₁,
      len₁,
      g.heard,
      g.mem,
      vs,
      m₂,
      rw (start, ◌>>=◌) (interrupts-loop hw huart₁ j size buf m₀ low high h ∙ e),
      len,
      ap (λ f. bytes f size buf) s.mem ∙ stored_bytes m.mem buf size vs len fits,
      s.heard,
      s.wrote,
      s.cpu,
    )
  where
    stored_bytes :
        (mem : ℕ → ℕ) (p n : ℕ) (vs : List ℕ)
        → length vs ≡ n
        → p + n ≤ 2 ^ 32
        → bytes (fill mem p vs) n p ≡ map u8 vs
    stored_bytes mem p n vs e =
        subst (λ k. p + k ≤ 2 ^ 32 → bytes (fill mem p vs) k p ≡ map u8 vs) e (bytes-fill mem p vs)
