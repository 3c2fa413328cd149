-- ===== src/UartFifo/Reception.antt =====
-- A blocking reception of the FIFO UART, from a sender of just the bytes that are asked for.
use mlab_mcu_edu.Prelude.{
  ℕ, zero, suc, ◌+◌, ◌-◌, ◌*◌, ◌^◌, ◌<◌, ◌≤◌, ◌≡◌, refl, sym, ap, subst, ◌∙◌, some, List, [], ◌∷◌,
  ◌++◌, length, length-append, map, arith, u8, u16, ◌==◌, ==_iff, if◌then◌else◌, Bool-cases, inl,
  inr,
}
use mlab_mcu_edu.Machine.{Access, read, Hardware, Machine, ◌>>=◌}
use mlab_mcu_edu.Machine.Runs.{writes}
use mlab_mcu_edu.Machine.Buffers.{bytes, advance, reads_of, latest_first, length-latest_first}
use mlab_mcu_edu.Machine.Got.{Got, Got-append, Got-after, bytes-Got}
use mlab_mcu_edu.Machine.Keeps.{Ensures-result}
use mlab_mcu_edu.UartFifo.Room.{Present, receive_rounds-Present}
use mlab_mcu_edu.UartFifo.{
  FifoHandle, fifo_rx_data, fifo_status, valid_data, drain_fifo, receive_rounds, fifo_receive,
}
use mlab_mcu_edu.UartFifo.Blocking.{positive, left_rounds}
use mlab_mcu_edu.UartFifo.Overrun.{drain_fifo_lem}

-- Read at most `n` times from the log `l` on, the status shows a byte in the receive FIFO.
abbrev pub DataIn : Hardware → ℕ → ℕ → List Access → Type 0
DataIn hw r zero l = ⊥
DataIn hw r (suc n) l =
    let v = hw.value l (fifo_status r) in
    if valid_data v == 0 then DataIn hw r n (read (fifo_status r) v ∷ l) else Unit

-- As long as no more than `total` bytes have been read, those and the ones that the FIFO shows are
-- `total` at most, and while they are fewer, the FIFO shows one within `w` reads of the status.
abbrev pub Sends : Hardware → (r w total : ℕ) → Type 0
Sends hw r w total =
    (l : List Access)
    → length (reads_of (fifo_rx_data r) l) ≤ total
    → (length (reads_of (fifo_rx_data r) l) + valid_data (hw.value l (fifo_status r)) ≤ total)
      × (length (reads_of (fifo_rx_data r) l) < total → DataIn hw r w l)

module _ {G : Type 0} (hw : Hardware) (huart : FifoHandle) (w total : ℕ)
    (sends : Sends hw huart.instance_addr w total) where
  abbrev reads : Machine G → List ℕ
  reads m = reads_of (fifo_rx_data huart.instance_addr) m.log

  abbrev looked : Machine G → Machine G
  looked m = record m {
    log =
        read (fifo_status huart.instance_addr) (hw.value m.log (fifo_status huart.instance_addr))
        ∷ m.log;
  }

  abbrev data_shown : Machine G → ℕ
  data_shown m = valid_data (hw.value m.log (fifo_status huart.instance_addr))

  looked-Got :
      (p : ℕ) (m : Machine G)
      → Got (reads_of (fifo_rx_data huart.instance_addr)) m [] [] p (looked m)
  looked-Got p m = record { wrote = refl; heard = ground arith; mem = refl; app = refl; cpu = refl }

  rounds-done : (n p : ℕ) (m : Machine G) → receive_rounds hw n 0 huart p m ≡ some (tt, m)
  unfolding receive_rounds
  rounds-done zero p m = refl
  rounds-done (suc n) p m = refl

  round :
      (n size p : ℕ) (m m' : Machine G) {q : ℕ} {rest : ℕ}
      → drain_fifo hw (data_shown m) (suc size) huart p (looked m) ≡ some ((q, rest), m')
      → receive_rounds hw (suc n) (suc size) huart p m ≡ receive_rounds hw n rest huart q m'
  unfolding receive_rounds
  round n size p m m' e = rw (e, ◌>>=◌) refl

  drain-nothing :
      (k size p : ℕ) (m : Machine G) → k ≡ 0 → drain_fifo hw k size huart p m ≡ some ((p, size), m)
  unfolding drain_fifo
  drain-nothing k size p m e = ap (λ n. drain_fifo hw n size huart p m) e

  -- The inner loop in a round that sees no more bytes than are still to come.
  record Drained (size p : ℕ) (m : Machine G) : Type 0 where
    vs : List ℕ
    last : Machine G
    count : length vs ≡ data_shown m
    runs :
        drain_fifo hw (data_shown m) (suc size) huart p (looked m)
        ≡ some ((advance (data_shown m) p, suc size - data_shown m), last)
    got : Got (reads_of (fifo_rx_data huart.instance_addr)) m [] vs p last
    heard : length (reads last) ≡ data_shown m + length (reads m)

  drained :
      (size p : ℕ) (m : Machine G) → data_shown m ≤ suc size → suc size < 2 ^ 16 → Drained size p m
  drained size p m few small =
      let d = fifo_rx_data huart.instance_addr in
      let k = data_shown m in
      let (vs, m₁, len, e, g) =
        drain_fifo_lem hw huart k (suc size) p (looked m) small (omega arith) in
      let left : u16 (suc size + 2 ^ 16 - k) ≡ suc size - k = omega arith in
      let now = Got-after (reads_of d) (looked-Got p m) g in
      record {
        vs = vs;
        last = m₁;
        count = len;
        runs = e ∙ ap (λ x. some ((advance k p, x), m₁)) left;
        got = now;
        heard =
            ap length now.heard
            ∙ length-latest_first vs (reads m)
            ∙ ap (λ x. x + length (reads m)) len;
      }

  -- With `n` rounds left and `j` of them enough to see a byte, for the bytes still to come.
  rounds_lem :
      (n j size p : ℕ) (m : Machine G)
      → length (reads m) + size ≡ total
      → size < 2 ^ 16
      → (0 < size → DataIn hw huart.instance_addr j m.log)
      → ((s : ℕ) → size ≡ suc s → s * w + j ≤ n)
      → (vs : List ℕ) × (m' : Machine G) × (receive_rounds hw n size huart p m ≡ some (tt, m'))
        × (length vs ≡ size)
        × Got (reads_of (fifo_rx_data huart.instance_addr)) m [] vs p m'
  rounds_lem n j zero p m t small h fuel = (
    [],
    m,
    rounds-done n p m,
    refl,
    record { wrote = refl; heard = refl; mem = refl; app = refl; cpu = refl },
  )
  rounds_lem n zero (suc size) p m t small h fuel = absurd (h (omega arith))
  rounds_lem zero (suc j) (suc size) p m t small h fuel = absurd (omega (arith, fuel size refl))
  rounds_lem (suc n) (suc j) (suc size) p m t small h fuel =
      let k = data_shown m in
      let bound = (sends m.log (omega arith)).0 in
      elim (Bool-cases (k == 0)) [
        | inl none_shown ↦
            let nothing = drain-nothing k (suc size) p (looked m) ((==_iff k 0).0 none_shown) in
            let (vs, m', e, len, g) =
              rounds_lem n j (suc size) p (looked m)
                (ap (λ x. length x + suc size) (looked-Got p m).heard ∙ t) small
                (λ pos. rw none_shown at (h (omega arith))) (λ s eq. omega (arith, fuel s eq)) in
            (
              vs,
              m',
              round n size p m (looked m) nothing ∙ e,
              len,
              Got-after (reads_of (fifo_rx_data huart.instance_addr)) (looked-Got p m) g,
            )
        | inr shown ↦
            let d = fifo_rx_data huart.instance_addr in
            let r = drained size p m (omega arith) small in
            let some_read = positive k shown in
            let heard = r.heard in
            let (vs', m', e, len', g) =
              rounds_lem n w (suc size - k) (advance k p) r.last (omega arith) (omega arith)
                (λ pos. (sends r.last.log (omega arith)).1 (omega arith))
                (λ s eq. left_rounds w s size j n eq some_read (fuel size refl)) in
            let g' = subst (λ x. Got (reads_of d) r.last [] vs' (advance x p) m') (sym r.count) g in
            (
              r.vs ++ vs',
              m',
              round n size p m r.last r.runs ∙ e,
              length-append r.vs vs' ∙ omega (arith, r.count),
              Got-append (reads_of d) r.vs vs' r.got g',
            )
      ]

  -- Where the sender sends just `size` bytes, so that the FIFO never holds more than is still asked
  -- for and shows a byte at the latest at every `w`-th read of its status, for a buffer that does
  -- not run past the end of memory, and where the loop is given `size * w` rounds, `UART_Receive`
  -- returns. It has read `size` values from the receive register, which are, in order and each as a
  -- byte, what the buffer holds, and written no register. Each was read when the FIFO held one, by
  -- the count that the last read of the status showed less the reads since, if that was so of the
  -- reads before.
  pub fifo_receive_lem :
      (buf size : ℕ) (m : Machine G)
      → total ≡ length (reads m) + size
      → size < 2 ^ 16
      → buf + size ≤ 2 ^ 32
      → size * w ≤ hw.polls
      → Present huart.instance_addr m.log
      → (vs : List ℕ) × (m' : Machine G) × (fifo_receive hw huart buf size m ≡ some (tt, m'))
        × (length vs ≡ size)
        × (bytes m'.mem size buf ≡ map u8 vs)
        × (reads m' ≡ latest_first vs ++ reads m)
        × (writes m'.log ≡ writes m.log)
        × (m'.cpu ≡ m.cpu)
        × Present huart.instance_addr m'.log
  unfolding fifo_receive
  fifo_receive_lem buf size m t small fits fuel present =
      let d = fifo_rx_data huart.instance_addr in
      let (vs, m', e, len, g) =
        rounds_lem hw.polls w size buf m (sym t) small
          (λ pos. (sends m.log (omega arith)).1 (omega arith))
          (λ s eq. omega (arith, fuel, ap (λ k. k * w) eq)) in
      let Q : Unit {0} → Machine G → Type 0 = λ _ l. Present huart.instance_addr l.log in
      (
        vs,
        m',
        e,
        len,
        bytes-Got (reads_of d) size g len fits,
        g.heard,
        g.wrote,
        g.cpu,
        Ensures-result Q (receive_rounds hw hw.polls size huart buf m)
            (receive_rounds-Present huart hw hw.polls size buf m present) e,
      )
