-- ===== src/I2c/Interrupt/Transmit.antt =====
-- An interrupt-driven transmission: one interrupt, and the run of all of them.
use mlab_mcu_edu.Prelude.{
  ℕ, zero, suc, ◌^◌, ◌<◌, ◌≡◌, refl, subst, some, List, [], ◌∷◌, ◌++◌, true, ◌==◌, if◌then◌else◌,
  suc-==-zero, is_clear, bit_and, bit_or, arith, not32,
}
use mlab_mcu_edu.Machine.{Access, read, write, Hardware, Machine, ◌>>=◌, next}
use mlab_mcu_edu.Machine.Runs.{Does, Sent-trans}
use mlab_mcu_edu.I2c.{
  I2cHandle, ready, busy_tx_it, TxState, tx_it_ready, tx_it_address, tx_it_data, tx_it_end,
  InteruptReceive, csr, ctr, trxr, i2c_rxack, i2c_iack, i2c_ien, i2c_wr, pred16,
}
use mlab_mcu_edu.I2c.Interrupt.{
  Callback, send_byte_it, tx_ready, tx_end, tx_next_byte, tx_data, transmit_it_sequence,
  master_transmit_it, irq_handler,
}
use mlab_mcu_edu.Machine.Series.{interrupts}
use mlab_mcu_edu.Machine.Buffers.{bytes, advance}
use mlab_mcu_edu.I2c.Frames.{start_write, write_stop, data_frames}

-- A handle in a transmission.
abbrev pub sending : ℕ → InteruptReceive → TxState → ℕ → ℕ → ℕ → I2cHandle
sending regs rx s address buf size = record {
  regs = regs;
  interupt_transmit = record { state = s; address = address; buf = buf; size = size };
  interupt_receive = rx;
  state = busy_tx_it;
}

-- The handle that the completion callback is given.
abbrev pub done_sending : ℕ → InteruptReceive → ℕ → ℕ → ℕ → I2cHandle
done_sending regs rx address buf size = record (sending regs rx tx_it_ready address buf size) {
  state = ready;
}

-- The slave acknowledges whenever it is asked.
abbrev pub AlwaysAcks : Hardware → ℕ → Type 0
AlwaysAcks hw regs = (l : List Access) → is_clear (hw.value l (csr regs)) i2c_rxack ≡ true

-- The writes of frames that are sent from interrupts: each has its interrupt acknowledged first.
abbrev pub it_log : ℕ → List (ℕ × ℕ) → List (ℕ × ℕ)
it_log regs [] = []
it_log regs ((b, f) ∷ fs) =
    it_log regs fs ++ ((csr regs, f) ∷ (trxr regs, b) ∷ (csr regs, i2c_iack) ∷ [])

pred16-suc : (k : ℕ) → suc k < 2 ^ 16 → pred16 (suc k) ≡ k
pred16-suc k h = omega arith

module _ {G : Type 0} (hw : Hardware) (tx rx_cplt : Callback G) (regs : ℕ)
    (rx : InteruptReceive) where
  abbrev pub irq : Callback G
  irq = irq_handler hw tx rx_cplt

  module _ (acks : AlwaysAcks hw regs) (address : ℕ) where
    -- The command that goes with a byte when `k` more follow, and the state after it.
    abbrev pub flags_before : ℕ → ℕ
    flags_before k = if k == 0 then write_stop else i2c_wr

    abbrev pub state_before : ℕ → TxState
    state_before k = if k == 0 then tx_it_end else tx_it_data

    irq-data :
        (buf k : ℕ) (m : Machine G)
        → suc k < 2 ^ 16
        → Does
            (irq (sending regs rx tx_it_data address buf (suc k)))
            m
            ((csr regs, flags_before k) ∷ (trxr regs, m.mem buf) ∷ (csr regs, i2c_iack) ∷ [])
            (sending regs rx (state_before k) address (next buf) k)
    unfolding irq_handler transmit_it_sequence tx_data tx_next_byte send_byte_it
    irq-data buf k m h =
        let v = hw.value (write (csr regs) i2c_iack ∷ m.log) (csr regs) in
        let acked = acks (write (csr regs) i2c_iack ∷ m.log) in
        (
          record m {
            log =
                write (csr regs) (flags_before k)
                ∷ write (trxr regs) (m.mem buf)
                ∷ read (csr regs) v
                ∷ write (csr regs) i2c_iack
                ∷ m.log;
          },
          rw acked (ground (arith, pred16-suc k h)),
          record { wrote = refl; mem = refl; app = refl; cpu = refl },
        )

    irq-address :
        (buf k : ℕ) (m : Machine G)
        → suc k < 2 ^ 16
        → Does
            (irq (sending regs rx tx_it_address address buf (suc k)))
            m
            ((csr regs, flags_before k) ∷ (trxr regs, m.mem buf) ∷ (csr regs, i2c_iack) ∷ [])
            (sending regs rx (state_before k) address (next buf) k)
    unfolding irq_handler transmit_it_sequence tx_data tx_next_byte send_byte_it
    irq-address buf k m h =
        let l₁ = write (csr regs) i2c_iack ∷ m.log in
        let l₂ = read (csr regs) (hw.value l₁ (csr regs)) ∷ l₁ in
        let l₃ = read (csr regs) (hw.value l₂ (csr regs)) ∷ l₂ in
        (
          record m { log = write (csr regs) (flags_before k) ∷ write (trxr regs) (m.mem buf) ∷ l₃ },
          rw (acks l₁) (rw (acks l₂) (ground (arith, pred16-suc k h))),
          record { wrote = refl; mem = refl; app = refl; cpu = refl },
        )

    -- From the state in which `k + 1` bytes are left to the one in which the last is on its way.
    interrupts-data :
        (k buf : ℕ) (m : Machine G)
        → suc k < 2 ^ 16
        → Does
            (interrupts irq (suc k) (sending regs rx tx_it_data address buf (suc k)))
            m
            (it_log regs (data_frames (bytes m.mem (suc k) buf)))
            (sending regs rx tx_it_end address (advance (suc k) buf) 0)
    unfolding interrupts
    interrupts-data zero buf m h = let (m₁, e₁, s₁) = irq-data buf 0 m h in (m₁, rw (e₁, ◌>>=◌), s₁)
    interrupts-data (suc k) buf m h =
        let (m₁, e₁, s₁) = rw (suc-==-zero k) at (irq-data buf (suc k) m h) in
        let (m₂, e₂, s₂) =
          subst
            (λ f.
              Does (interrupts irq (suc k) (sending regs rx tx_it_data address (next buf) (suc k)))
                m₁ (it_log regs (data_frames (bytes f (suc k) (next buf))))
                (sending regs rx tx_it_end address (advance (suc k) (next buf)) 0))
            s₁.mem (interrupts-data k (next buf) m₁ (omega arith)) in
        (m₂, rw (e₁, ◌>>=◌) e₂, Sent-trans s₁ s₂)

    pub interrupts-address :
        (k buf : ℕ) (m : Machine G)
        → suc k < 2 ^ 16
        → Does
            (interrupts irq (suc k) (sending regs rx tx_it_address address buf (suc k)))
            m
            (it_log regs (data_frames (bytes m.mem (suc k) buf)))
            (sending regs rx tx_it_end address (advance (suc k) buf) 0)
    unfolding interrupts
    interrupts-address zero buf m h =
        let (m₁, e₁, s₁) = irq-address buf 0 m h in (m₁, rw (e₁, ◌>>=◌), s₁)
    interrupts-address (suc k) buf m h =
        let (m₁, e₁, s₁) = rw (suc-==-zero k) at (irq-address buf (suc k) m h) in
        let (m₂, e₂, s₂) =
          subst
            (λ f.
              Does (interrupts irq (suc k) (sending regs rx tx_it_data address (next buf) (suc k)))
                m₁ (it_log regs (data_frames (bytes f (suc k) (next buf))))
                (sending regs rx tx_it_end address (advance (suc k) (next buf)) 0))
            s₁.mem (interrupts-data k (next buf) m₁ (omega arith)) in
        (m₂, rw (e₁, ◌>>=◌) e₂, Sent-trans s₁ s₂)

  -- The interrupt after the last byte: back to ready, interrupts off, and the callback.
  pub irq-end :
      (address buf size : ℕ) (m : Machine G)
      → let i2c = sending regs rx tx_it_end address buf size in
        let l₁ = write (csr regs) i2c_iack ∷ m.log in
        let v = hw.value l₁ (ctr regs) in
        irq i2c m
        ≡ tx (done_sending regs rx address buf size) (record m {
          log = write (ctr regs) (bit_and v (not32 i2c_ien)) ∷ read (ctr regs) v ∷ l₁;
        })
  unfolding irq_handler transmit_it_sequence tx_data tx_end
  irq-end address buf size m = refl

  -- `I2C_Master_Transmit_IT` on a ready handle: the address goes out, with interrupts on.
  pub master_transmit_it_ready :
      (i2c : I2cHandle) (dev_address buf size : ℕ) (m : Machine G)
      → i2c.state ≡ ready
      → let v = hw.value m.log (ctr i2c.regs) in
        master_transmit_it hw tx i2c dev_address buf size m
        ≡ some (
          sending i2c.regs i2c.interupt_receive tx_it_address dev_address buf size,
          record m {
            log =
                write (csr i2c.regs) start_write
                ∷ write (trxr i2c.regs) (bit_and dev_address 0xFE)
                ∷ write (ctr i2c.regs) (bit_or v i2c_ien)
                ∷ read (ctr i2c.regs) v
                ∷ m.log;
          },
        )
  unfolding master_transmit_it transmit_it_sequence tx_data tx_end tx_ready send_byte_it
  master_transmit_it_ready i2c dev buf size m isReady = ground arith
