-- ===== src/I2c/Interrupt/Receive.antt =====
-- An interrupt-driven reception: one interrupt, and the run of all of them.
use mlab_mcu_edu.Prelude.{
  ℕ, zero, suc, ◌+◌, ◌^◌, ◌<◌, ◌≡◌, refl, ap, ◌∙◌, some, List, [], ◌∷◌, ◌++◌, length, Bool, true,
  false, not, ◌&&◌, ◌==◌, if◌then◌else◌, suc-==-zero, is_clear, bit_and, bit_or, u8, arith, not32,
}
use mlab_mcu_edu.Machine.{Access, read, write, Hardware, Machine, ◌>>=◌, next}
use mlab_mcu_edu.Machine.Runs.{writes, >>=-pure}
use mlab_mcu_edu.Machine.Buffers.{set_byte, reads_of, advance}
use mlab_mcu_edu.I2c.{
  I2cHandle, ready, busy_rx_it, RxState, rx_it_ready, rx_it_address, rx_it_get_data,
  InteruptTransmit, csr, ctr, trxr, i2c_rxack, i2c_iack, i2c_ien, i2c_rd, i2c_ack, i2c_sto, pred16,
}
use mlab_mcu_edu.I2c.Interrupt.{
  Callback, send_byte_it, read_byte_it, rx_ready, rx_end, rx_data, rx_store, rx_get_data,
  receive_it_sequence, master_receive_it, irq_handler,
}
use mlab_mcu_edu.Machine.Got.{Got, Got-cons, Got-after}
use mlab_mcu_edu.Machine.Series.{interrupts}
use mlab_mcu_edu.I2c.Frames.{start_write}

-- A handle in a reception.
abbrev pub receiving : ℕ → InteruptTransmit → RxState → ℕ → ℕ → ℕ → I2cHandle
receiving regs tx s address buf size = record {
  regs = regs;
  interupt_transmit = tx;
  interupt_receive = record { state = s; address = address; buf = buf; size = size };
  state = busy_rx_it;
}

-- The handle that the completion callback is given.
abbrev pub done_receiving : ℕ → InteruptTransmit → ℕ → ℕ → ℕ → I2cHandle
done_receiving regs tx address buf size = record (receiving regs tx rx_it_ready address buf size) {
  state = ready;
}

-- `I2C_RD | I2C_ACK`, the read that the master does not acknowledge.
abbrev pub read_last : ℕ
read_last = i2c_rd + i2c_ack

-- The command for a byte when `k` more follow.
abbrev pub read_command : ℕ → ℕ
read_command k = if k == 0 then read_last else i2c_rd

-- The writes that ask for `n` bytes from interrupts, the latest first.
abbrev pub rx_log : ℕ → ℕ → List (ℕ × ℕ)
rx_log regs zero = []
rx_log regs (suc k) = rx_log regs k ++ ((csr regs, read_command k) ∷ (csr regs, i2c_iack) ∷ [])

-- Whether the last transfer was a read that the master did not acknowledge.
abbrev pub read_was_last : ℕ → List (ℕ × ℕ) → Bool
read_was_last regs [] = false
read_was_last regs ((a, v) ∷ ws) =
    if a == csr regs && not (v == i2c_iack) then v == read_last else read_was_last regs ws

-- The acknowledge bit of the status is that of the last transfer: after a read it is the master's
-- own, and a slave acknowledges each byte that it is sent.
abbrev pub MirrorsAck : Hardware → ℕ → Type 0
MirrorsAck hw regs =
    (l : List Access)
    → is_clear (hw.value l (csr regs)) i2c_rxack ≡ not (read_was_last regs (writes l))

read_was_last-command :
    (regs k : ℕ) (ws : List (ℕ × ℕ))
    → read_was_last regs ((csr regs, read_command k) ∷ ws) ≡ (k == 0)
read_was_last-command regs k ws = ground arith

pred16-suc : (k : ℕ) → suc k < 2 ^ 16 → pred16 (suc k) ≡ k
pred16-suc k h = omega arith

module _ {G : Type 0} (hw : Hardware) (tx_cplt rx : Callback G) (regs : ℕ) (tx : InteruptTransmit)
    (mirrors : MirrorsAck hw regs) (address : ℕ) where
  abbrev irq : Callback G
  irq = irq_handler hw tx_cplt rx

  -- One byte is in and more are to be asked for.
  irq-get :
      (buf k : ℕ) (m : Machine G)
      → suc k < 2 ^ 16
      → read_was_last regs (writes m.log) ≡ false
      → (v : ℕ) × (m' : Machine G) × (irq (receiving regs tx rx_it_get_data address buf (suc k)) m
          ≡ some (receiving regs tx rx_it_get_data address (next buf) k, m'))
        × Got
            (reads_of (trxr regs))
            m
            ((csr regs, read_command k) ∷ (csr regs, i2c_iack) ∷ [])
            (v ∷ [])
            buf
            m'
  unfolding irq_handler receive_it_sequence rx_get_data rx_store rx_data read_byte_it
  irq-get buf k m h more =
      let l₁ = write (csr regs) i2c_iack ∷ m.log in
      let l₂ = read (csr regs) (hw.value l₁ (csr regs)) ∷ l₁ in
      let v = hw.value l₂ (trxr regs) in
      let acked : is_clear (hw.value l₁ (csr regs)) i2c_rxack ≡ true = mirrors l₁ ∙ ground arith in
      (
        v,
        record m {
          log = write (csr regs) (read_command k) ∷ read (trxr regs) v ∷ l₂;
          mem = set_byte m.mem buf (u8 v);
        },
        rw acked (ground (arith, pred16-suc k h)),
        record { wrote = refl; heard = ground arith; mem = refl; app = refl; cpu = refl },
      )

  -- The address was acknowledged, and the first byte is asked for.
  irq-first :
      (buf k : ℕ) (m : Machine G)
      → suc k < 2 ^ 16
      → read_was_last regs (writes m.log) ≡ false
      → (m' : Machine G) × (irq (receiving regs tx rx_it_address address buf (suc k)) m
          ≡ some (receiving regs tx rx_it_get_data address buf k, m'))
        × Got
            (reads_of (trxr regs))
            m
            ((csr regs, read_command k) ∷ (csr regs, i2c_iack) ∷ [])
            []
            buf
            m'
  unfolding irq_handler receive_it_sequence rx_get_data rx_data read_byte_it
  irq-first buf k m h more =
      let l₁ = write (csr regs) i2c_iack ∷ m.log in
      let l₂ = read (csr regs) (hw.value l₁ (csr regs)) ∷ l₁ in
      let acked : is_clear (hw.value l₁ (csr regs)) i2c_rxack ≡ true = mirrors l₁ ∙ ground arith in
      (
        record m { log = write (csr regs) (read_command k) ∷ l₂ },
        rw acked (ground (arith, pred16-suc k h)),
        record { wrote = refl; heard = ground arith; mem = refl; app = refl; cpu = refl },
      )

  -- The last byte is in: it is stored, a stop is asked for, and the callback is called.
  irq-last :
      (buf size : ℕ) (m : Machine G)
      → read_was_last regs (writes m.log) ≡ true
      → (v c : ℕ) × (m' : Machine G) × (irq (receiving regs tx rx_it_get_data address buf size) m
          ≡ rx (done_receiving regs tx address buf size) m')
        × Got
            (reads_of (trxr regs))
            m
            ((csr regs, i2c_sto)
              ∷ (ctr regs, bit_and c (not32 i2c_ien))
              ∷ (csr regs, i2c_iack)
              ∷ [])
            (v ∷ [])
            buf
            m'
  unfolding irq_handler receive_it_sequence rx_get_data rx_data rx_end
  irq-last buf size m last =
      let l₁ = write (csr regs) i2c_iack ∷ m.log in
      let l₂ = read (csr regs) (hw.value l₁ (csr regs)) ∷ l₁ in
      let v = hw.value l₂ (trxr regs) in
      let l₃ = read (trxr regs) v ∷ l₂ in
      let c = hw.value l₃ (ctr regs) in
      let nack : is_clear (hw.value l₁ (csr regs)) i2c_rxack ≡ false = mirrors l₁ ∙ ground arith in
      (
        v,
        c,
        record m {
          log =
              write (csr regs) i2c_sto
              ∷ write (ctr regs) (bit_and c (not32 i2c_ien))
              ∷ read (ctr regs) c
              ∷ l₃;
          mem = set_byte m.mem buf (u8 v);
        },
        rw nack,
        record { wrote = refl; heard = ground arith; mem = refl; app = refl; cpu = refl },
      )

  -- With `k` bytes to be asked for and one on its way, `k + 1` interrupts end the reception.
  pub interrupts-get :
      (k buf : ℕ) (m : Machine G)
      → k < 2 ^ 16
      → read_was_last regs (writes m.log) ≡ (k == 0)
      → (vs : List ℕ) × (c : ℕ) × (m' : Machine G) × (length vs ≡ suc k)
        × (interrupts irq (suc k) (receiving regs tx rx_it_get_data address buf k) m
            ≡ rx (done_receiving regs tx address (advance k buf) 0) m')
        × Got
            (reads_of (trxr regs))
            m
            (((csr regs, i2c_sto)
                ∷ (ctr regs, bit_and c (not32 i2c_ien))
                ∷ (csr regs, i2c_iack)
                ∷ [])
              ++ rx_log regs k)
            vs
            buf
            m'
  unfolding interrupts
  interrupts-get zero buf m h last =
      let (v, c, m', e, g) = irq-last buf 0 m last in
      (v ∷ [], c, m', refl, >>=-pure (irq _) m ∙ e, g)
  interrupts-get (suc k) buf m h more =
      let (v, m₁, e, g) = irq-get buf k m h (more ∙ suc-==-zero k) in
      let (vs, c, m₂, n, e₂, g₂) = interrupts-get k (next buf) m₁ (omega arith) (
        ap (read_was_last regs) g.wrote
        ∙ read_was_last-command regs k ((csr regs, i2c_iack) ∷ writes m.log)) in
      (v ∷ vs, c, m₂, ap suc n, rw (e, ◌>>=◌) e₂, Got-cons (reads_of (trxr regs)) g g₂)

  -- From the address on, `n + 2` interrupts for `n + 1` bytes.
  pub interrupts-receive :
      (k buf : ℕ) (m : Machine G)
      → suc k < 2 ^ 16
      → read_was_last regs (writes m.log) ≡ false
      → (vs : List ℕ) × (c : ℕ) × (m' : Machine G) × (length vs ≡ suc k)
        × (interrupts irq (suc (suc k)) (receiving regs tx rx_it_address address buf (suc k)) m
            ≡ rx (done_receiving regs tx address (advance k buf) 0) m')
        × Got
            (reads_of (trxr regs))
            m
            (((csr regs, i2c_sto)
                ∷ (ctr regs, bit_and c (not32 i2c_ien))
                ∷ (csr regs, i2c_iack)
                ∷ [])
              ++ rx_log regs (suc k))
            vs
            buf
            m'
  unfolding interrupts
  interrupts-receive k buf m h fresh =
      let (m₁, e, g) = irq-first buf k m h fresh in
      let (vs, c, m₂, n, e₂, g₂) = interrupts-get k buf m₁ (omega arith) (
        ap (read_was_last regs) g.wrote
        ∙ read_was_last-command regs k ((csr regs, i2c_iack) ∷ writes m.log)) in
      (vs, c, m₂, n, rw (e, ◌>>=◌) e₂, Got-after (reads_of (trxr regs)) g g₂)

-- `I2C_Master_Receive_IT` on a ready handle: the address goes out, with interrupts on.
pub master_receive_it_ready :
    {G : Type 0} (hw : Hardware) (rx : Callback G) (i2c : I2cHandle) (dev_address buf size : ℕ)
    (m : Machine G)
    → i2c.state ≡ ready
    → let v = hw.value m.log (ctr i2c.regs) in
      master_receive_it hw rx i2c dev_address buf size m
      ≡ some (
        receiving i2c.regs i2c.interupt_transmit rx_it_address dev_address buf size,
        record m {
          log =
              write (csr i2c.regs) start_write
              ∷ write (trxr i2c.regs) (bit_or dev_address 0x01)
              ∷ write (ctr i2c.regs) (bit_or v i2c_ien)
              ∷ read (ctr i2c.regs) v
              ∷ m.log;
        },
      )
unfolding master_receive_it receive_it_sequence rx_get_data rx_data rx_end rx_ready send_byte_it
master_receive_it_ready hw rx i2c dev buf size m isReady = ground arith
