-- ===== src/UartFifo/Blocking.antt =====
-- A blocking transmission of the FIFO UART.
use mlab_mcu_edu.Prelude.{
  ℕ, zero, suc, ◌+◌, ◌-◌, ◌*◌, ◌<◌, ◌≤◌, ◌≡◌, refl, sym, ap, subst, ◌∙◌, some, List, [], ◌∷◌, arith,
  ◌==◌, ==_iff, false, if◌then◌else◌, Bool-cases, inl, inr,
}
use native.Mathlib.Nat.{mul-le-mul_right}
use mlab_mcu_edu.Machine.{Access, read, write, Hardware, Machine, ◌>>=◌, next}
use mlab_mcu_edu.Machine.Runs.{Does, Sent, Sent-trans}
use mlab_mcu_edu.Machine.Buffers.{bytes, advance, sent_log, sent_log-split}
use mlab_mcu_edu.Machine.Keeps.{Ensures-result}
use mlab_mcu_edu.UartFifo.Room.{Paced, transmit_rounds-Paced}
use mlab_mcu_edu.UartFifo.{
  FifoHandle, fifo_tx_data, fifo_status, free_spaces, fill_fifo, transmit_rounds, fifo_transmit,
}

-- Read at most `n` times from the log `l` on, the status shows room in the transmit FIFO.
abbrev pub RoomIn : Hardware → ℕ → ℕ → List Access → Type 0
RoomIn hw r zero l = ⊥
RoomIn hw r (suc n) l =
    let v = hw.value l (fifo_status r) in
    if free_spaces v == 0 then RoomIn hw r n (read (fifo_status r) v ∷ l) else Unit

pub positive : (f : ℕ) → (f == 0) ≡ false → 0 < f
positive f h = ground arith

pub left_rounds :
    {k : ℕ} (w s size j n : ℕ)
    → suc size - k ≡ suc s
    → 0 < k
    → size * w + suc j ≤ suc n
    → s * w + w ≤ n
left_rounds w s size j n eq sends fuel =
    let more : suc s ≤ size = omega arith in omega (arith, mul-le-mul_right w more)

module _ {G : Type 0} (huart : FifoHandle) where
  -- `k` of the bytes go into the FIFO, some if there is room for one and one to send.
  record Filled (room size p : ℕ) (m : Machine G) : Type 0 where
    k : ℕ
    fits : k ≤ size
    some_sent : 0 < room → 0 < size → 0 < k
    run :
        Does
          (fill_fifo room size huart p)
          m
          (sent_log (fifo_tx_data huart.instance_addr) (bytes m.mem k p))
          (advance k p, size - k)

  fill_fifo_lem : (room size p : ℕ) (m : Machine G) → Filled room size p m
  unfolding fill_fifo
  fill_fifo_lem zero size p m = record {
    k = 0;
    fits = omega arith;
    some_sent = λ h _. h;
    run = (
      m,
      ap (λ n. some ((p, n), m)) (omega arith),
      record { wrote = refl; mem = refl; app = refl; cpu = refl },
    );
  }
  fill_fifo_lem (suc room) zero p m = record {
    k = 0;
    fits = omega arith;
    some_sent = λ _ h. h;
    run = (
      m,
      ap (λ n. some ((p, n), m)) (omega arith),
      record { wrote = refl; mem = refl; app = refl; cpu = refl },
    );
  }
  fill_fifo_lem (suc room) (suc size) p m =
      let tx = fifo_tx_data huart.instance_addr in
      let m₁ : Machine G = record m { log = write tx (m.mem p) ∷ m.log } in
      let t = fill_fifo_lem room size (next p) m₁ in
      let (m₂, e, s) = t.run in
      let one : Sent m ((tx, m.mem p) ∷ []) m₁ = record {
        wrote = refl;
        mem = refl;
        app = refl;
        cpu = refl;
      } in
      record {
        k = suc t.k;
        fits = omega (arith, t.fits);
        some_sent = λ _ _. omega arith;
        run = (
          m₂,
          e ∙ ap (λ n. some ((advance t.k (next p), n), m₂)) (omega (arith, t.fits)),
          Sent-trans one s,
        );
      }

  module _ (hw : Hardware) (w : ℕ)
      (room : (l : List Access) → RoomIn hw huart.instance_addr w l) where
    rounds-done : (n p : ℕ) (m : Machine G) → transmit_rounds hw n 0 huart p m ≡ some (tt, m)
    unfolding transmit_rounds
    rounds-done zero p m = refl
    rounds-done (suc n) p m = refl

    abbrev looked : Machine G → Machine G
    looked m = record m {
      log =
          read (fifo_status huart.instance_addr) (hw.value m.log (fifo_status huart.instance_addr))
          ∷ m.log;
    }

    abbrev space : Machine G → ℕ
    space m = free_spaces (hw.value m.log (fifo_status huart.instance_addr))

    -- One round, whose run of the inner loop is given.
    round :
        (n size p : ℕ) (m m' : Machine G) {q : ℕ} {rest : ℕ}
        → fill_fifo (space m) (suc size) huart p (looked m) ≡ some ((q, rest), m')
        → transmit_rounds hw (suc n) (suc size) huart p m ≡ transmit_rounds hw n rest huart q m'
    unfolding transmit_rounds
    round n size p m m' e = rw (e, ◌>>=◌) refl

    fill-nothing :
        (f size p : ℕ) (m : Machine G) → f ≡ 0 → fill_fifo f size huart p m ≡ some ((p, size), m)
    unfolding fill_fifo
    fill-nothing f size p m e = ap (λ k. fill_fifo k size huart p m) e

    -- With `n` rounds left and `j` of them enough to see room, for any number of bytes.
    rounds_lem :
        (n j size p : ℕ) (m : Machine G)
        → RoomIn hw huart.instance_addr j m.log
        → ((s : ℕ) → size ≡ suc s → s * w + j ≤ n)
        → Does
            (transmit_rounds hw n size huart p)
            m
            (sent_log (fifo_tx_data huart.instance_addr) (bytes m.mem size p))
            tt
    rounds_lem n j zero p m h fuel =
        (m, rounds-done n p m, record { wrote = refl; mem = refl; app = refl; cpu = refl })
    rounds_lem n zero (suc size) p m h fuel = absurd h
    rounds_lem zero (suc j) (suc size) p m h fuel = absurd (omega (arith, fuel size refl))
    rounds_lem (suc n) (suc j) (suc size) p m h fuel =
        let tx = fifo_tx_data huart.instance_addr in
        let t = fill_fifo_lem (space m) (suc size) p (looked m) in
        let (m₁, e₁, s₁) = t.run in
        elim (Bool-cases (space m == 0)) [
          | inl full ↦
              let nothing =
                fill-nothing (space m) (suc size) p (looked m) ((==_iff (space m) 0).0 full) in
              let (m', e, t) =
                rounds_lem n j (suc size) p (looked m) (rw full at h)
                  (λ s eq. omega (arith, fuel s eq)) in
              (
                m',
                round n size p m (looked m) nothing ∙ e,
                record { wrote = t.wrote; mem = t.mem; app = t.app; cpu = t.cpu },
              )
          | inr free ↦
              let sends = t.some_sent (positive (space m) free) (omega arith) in
              let rest = suc size - t.k in
              let (m₂, e₂, s₂) =
                subst
                  (λ f.
                    Does (transmit_rounds hw n rest huart (advance t.k p)) m₁
                      (sent_log tx (bytes f rest (advance t.k p))) tt)
                  s₁.mem
                  (rounds_lem n w rest (advance t.k p) m₁ (room m₁.log)
                    (λ s eq. left_rounds w s size j n eq sends (fuel size refl))) in
              let sent : Sent m (sent_log tx (bytes m.mem t.k p)) m₁ = record {
                wrote = s₁.wrote;
                mem = s₁.mem;
                app = s₁.app;
                cpu = s₁.cpu;
              } in
              (
                m₂,
                round n size p m m₁ e₁ ∙ e₂,
                subst (λ ws. Sent m ws m₂) (sym (sent_log-split tx m.mem t.k (suc size) p t.fits))
                    (Sent-trans sent s₂),
              )
        ]

    -- Where the status shows room for a byte at the latest at every `w`-th read, and the loop is
    -- given `size * w` rounds, `UART_Transmit` returns. It has written the bytes of the buffer to
    -- the transmit register, in order, and no other register and no memory. Each byte was written
    -- when there was room for it, by the free spaces that the last read of the status showed less
    -- the bytes written since, if that was so of the bytes written before.
    pub fifo_transmit_lem :
        (buf size : ℕ) (m : Machine G)
        → size * w ≤ hw.polls
        → Paced huart.instance_addr m.log
        → (m' : Machine G) × (fifo_transmit hw huart buf size m ≡ some (tt, m'))
          × Sent m (sent_log (fifo_tx_data huart.instance_addr) (bytes m.mem size buf)) m'
          × Paced huart.instance_addr m'.log
    unfolding fifo_transmit
    fifo_transmit_lem buf size m fuel paced =
        let (m', e, s) =
          rounds_lem hw.polls w size buf m (room m.log)
            (λ s eq. omega (arith, fuel, ap (λ k. k * w) eq)) in
        let Q : Unit {0} → Machine G → Type 0 = λ _ l. Paced huart.instance_addr l.log in
        (
          m',
          e,
          s,
          Ensures-result Q (transmit_rounds hw hw.polls size huart buf m)
              (transmit_rounds-Paced huart hw hw.polls size buf m paced) e,
        )
