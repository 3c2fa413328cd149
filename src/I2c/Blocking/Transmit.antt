-- ===== src/I2c/Blocking/Transmit.antt =====
-- A blocking transmission, end to end.
use mlab_mcu_edu.Prelude.{
  ℕ, zero, suc, ◌+◌, ◌≤◌, ◌<◌, ◌≡◌, refl, ap, ◌∙◌, subst, sym, some, List, [], ◌∷◌, ◌++◌, replicate,
  if◌then◌else◌, is_clear, bit_and, arith, Bool-cases, inl, inr, suc-==-zero,
}
use mlab_mcu_edu.Machine.{Access, read, write, Hardware, Machine, ◌>>=◌, next, wait_clear}
use mlab_mcu_edu.Machine.Runs.{writes, Sent, Does, Sent-trans, store-Does}
use mlab_mcu_edu.Machine.Waits.{Waited, poll_clear-Waited}
use mlab_mcu_edu.I2c.{I2cHandle, ready, csr, trxr, i2c_tip, i2c_rxack, i2c_iack, i2c_wr}
use mlab_mcu_edu.I2c.Blocking.{send_byte, send_address, send_data, transmit, master_transmit}
use mlab_mcu_edu.Machine.Buffers.{bytes}
use mlab_mcu_edu.I2c.Frames.{
  start_write, write_stop, data_frames, frame_log, frame_log-append, starts, EndsTransfers,
  AcksFrom, Tries, acked, in_vain,
}

starts-start :
    (regs byte : ℕ) (ws : List (ℕ × ℕ))
    → starts regs ((csr regs, start_write) ∷ (trxr regs, byte) ∷ ws) ≡ suc (starts regs ws)
starts-start regs byte ws = ground arith

module _ {G : Type 0} (hw : Hardware) (i2c : I2cHandle) (ends : EndsTransfers hw i2c.regs) where
  -- What `I2C_Master_Send_Byte` does, with the status that it returns.
  record SentByte (byte flags : ℕ) (m : Machine G) : Type 0 where
    status : ℕ
    last : Machine G
    runs : send_byte hw i2c byte flags m ≡ some (status, last)
    seen : List Access
    waited :
        Waited hw
          (csr i2c.regs)
          i2c_tip
          (write (csr i2c.regs) flags ∷ write (trxr i2c.regs) byte ∷ m.log)
          seen
    status_of : status ≡ (if is_clear (hw.value seen (csr i2c.regs)) i2c_rxack then 0 else 255)
    seen_of : writes seen ≡ (csr i2c.regs, flags) ∷ (trxr i2c.regs, byte) ∷ writes m.log
    last_of : last.log ≡ read (csr i2c.regs) (hw.value seen (csr i2c.regs)) ∷ seen
    effect : Sent m ((csr i2c.regs, flags) ∷ (trxr i2c.regs, byte) ∷ []) last

  send_byte_lem : (byte flags : ℕ) (m : Machine G) → SentByte byte flags m
  unfolding send_byte wait_clear
  send_byte_lem byte flags m =
      let m₁ : Machine G = record m {
        log = write (csr i2c.regs) flags ∷ write (trxr i2c.regs) byte ∷ m.log;
      } in
      let (l, w, e, same) = poll_clear-Waited hw hw.polls (csr i2c.regs) i2c_tip m₁ (ends m₁.log) in
      record {
        status = if is_clear (hw.value l (csr i2c.regs)) i2c_rxack then 0 else 255;
        last = record m { log = read (csr i2c.regs) (hw.value l (csr i2c.regs)) ∷ l };
        runs = rw (e, ◌>>=◌);
        seen = l;
        waited = w;
        status_of = refl;
        seen_of = same;
        last_of = refl;
        effect = record { wrote = same; mem = refl; app = refl; cpu = refl };
      }

  send_data_lem :
      (n buf : ℕ) (m : Machine G)
      → Does (send_data hw n i2c buf) m (frame_log i2c.regs (data_frames (bytes m.mem n buf))) tt
  unfolding send_data
  send_data_lem zero buf m = (m, refl, record { wrote = refl; mem = refl; app = refl; cpu = refl })
  send_data_lem (suc zero) buf m =
      let t = send_byte_lem (m.mem buf) write_stop m in (t.last, rw (t.runs, ◌>>=◌), t.effect)
  send_data_lem (suc (suc n)) buf m =
      let t = send_byte_lem (m.mem buf) i2c_wr m in
      let (m', e, s) =
        subst
          (λ f.
            Does (send_data hw (suc n) i2c (next buf)) t.last
              (frame_log i2c.regs (data_frames (bytes f (suc n) (next buf)))) tt)
          t.effect.mem (send_data_lem (suc n) (next buf) t.last) in
      (m', rw (suc-==-zero n, t.runs, ◌>>=◌) e, Sent-trans t.effect s)

  -- The address goes out until it is acknowledged, `r` times in vain.
  pub send_address_lem :
      (n fuel byte : ℕ) (m : Machine G)
      → AcksFrom hw i2c.regs n
      → 0 < fuel
      → n ≤ starts i2c.regs (writes m.log) + fuel
      → (r : ℕ) × (r < fuel)
        × (m' : Machine G) × Tries hw i2c.regs byte r m.log m'.log
        × (send_address hw fuel i2c byte m ≡ some (tt, m'))
        × Sent m (frame_log i2c.regs (replicate (suc r) (byte, start_write))) m'
  unfolding send_address
  send_address_lem n zero byte m acks pos h = absurd (omega arith)
  send_address_lem n (suc f) byte m acks pos h =
      let t = send_byte_lem byte start_write m in
      elim (Bool-cases (is_clear (hw.value t.seen (csr i2c.regs)) i2c_rxack)) [
        | inl yes_acked ↦ (
          0,
          omega arith,
          t.last,
          subst (Tries hw i2c.regs byte 0 m.log) (sym t.last_of) (acked t.waited yes_acked),
          rw (t.runs, ◌>>=◌) (rw (t.status_of, yes_acked)),
          t.effect,
        )
        | inr silent ↦
            let seen_starts = ap (starts i2c.regs) t.seen_of ∙ starts-start i2c.regs byte _ in
            let last_starts = ap (starts i2c.regs) t.effect.wrote ∙ starts-start i2c.regs byte _ in
            let early : ¬ (n ≤ starts i2c.regs (writes t.seen)) = λ le. cc (acks t.seen le) in
            let (r, small, m', tries, e, s) =
              send_address_lem n f byte t.last acks (omega arith) (omega arith) in
            (
              suc r,
              omega (arith, small),
              m',
              in_vain t.waited silent
                  (subst (λ l. Tries hw i2c.regs byte r l m'.log) t.last_of tries),
              rw (t.runs, ◌>>=◌) (rw (t.status_of, silent) e),
              Sent-trans t.effect s,
            )
      ]

  transmit_lem :
      (n dev_address buf size : ℕ) (m : Machine G)
      → AcksFrom hw i2c.regs n
      → 0 < hw.polls
      → n ≤ starts i2c.regs (writes m.log) + hw.polls
      → (r : ℕ) × (r < hw.polls)
        × (l : List Access) × Tries hw i2c.regs (bit_and dev_address 0xFE) r m.log l
        × Does
            (transmit hw i2c dev_address buf size)
            m
            ((csr i2c.regs, i2c_iack)
              ∷ frame_log i2c.regs (
                  replicate (suc r) (bit_and dev_address 0xFE, start_write)
                  ++ data_frames (bytes m.mem size buf)))
            tt
  unfolding transmit
  transmit_lem n dev buf size m acks pos h =
      let a = bit_and dev 0xFE in
      let (r, small, m₁, tries, e₁, s₁) = send_address_lem n hw.polls a m acks pos h in
      let (m₂, e₂, s₂) =
        subst
          (λ f.
            Does (send_data hw size i2c buf) m₁
              (frame_log i2c.regs (data_frames (bytes f size buf))) tt)
          s₁.mem (send_data_lem size buf m₁) in
      let (m₃, e₃, s₃) = store-Does (csr i2c.regs) i2c_iack m₂ in
      let frames =
        frame_log-append i2c.regs (replicate (suc r) (a, start_write))
          (data_frames (bytes m.mem size buf)) in
      (
        r,
        small,
        m₁.log,
        tries,
        (m₃, rw (e₁, ◌>>=◌) (rw (e₂, ◌>>=◌) e₃), rw frames (Sent-trans s₁ (Sent-trans s₂ s₃))),
      )

  master_transmit-ready :
      (dev_address buf size : ℕ) (m : Machine G)
      → i2c.state ≡ ready
      → master_transmit hw i2c dev_address buf size m ≡ transmit hw i2c dev_address buf size m
  unfolding master_transmit
  master_transmit-ready dev buf size m isReady = ground arith

  -- On a ready handle, where every transfer ends within the polls of a wait loop and the slave
  -- acknowledges from its `n`-th start condition on, in reach of the address loop,
  -- `I2C_Master_Transmit` returns. It has sent the address with its lowest bit 0, with a start
  -- condition: `r` times in vain, when the status after the transfer showed no acknowledgement, and
  -- then the time that it showed one. Then it has sent the bytes of the buffer in order, the last with
  -- a stop condition, then the acknowledgement of the interrupt, and written no other register and
  -- no memory.
  pub master_transmit_lem :
      (n dev_address buf size : ℕ) (m : Machine G)
      → i2c.state ≡ ready
      → AcksFrom hw i2c.regs n
      → 0 < hw.polls
      → n ≤ starts i2c.regs (writes m.log) + hw.polls
      → (r : ℕ) × (r < hw.polls)
        × (l : List Access) × Tries hw i2c.regs (bit_and dev_address 0xFE) r m.log l
        × Does
            (master_transmit hw i2c dev_address buf size)
            m
            ((csr i2c.regs, i2c_iack)
              ∷ frame_log i2c.regs (
                  replicate (suc r) (bit_and dev_address 0xFE, start_write)
                  ++ data_frames (bytes m.mem size buf)))
            tt
  master_transmit_lem n dev buf size m isReady acks pos h =
      let (r, small, l, tries, sent) = transmit_lem n dev buf size m acks pos h in
      let (m', e, s) = sent in
      (r, small, l, tries, (m', master_transmit-ready dev buf size m isReady ∙ e, s))
