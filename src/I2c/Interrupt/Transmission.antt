-- ===== src/I2c/Interrupt/Transmission.antt =====
-- An interrupt-driven transmission from its start to the completion callback, and the ways in which
-- it goes wrong.
use mlab_mcu_edu.Prelude.{
  ℕ, suc, ◌-◌, ◌^◌, ◌<◌, ◌≡◌, refl, ap, ◌∙◌, [], ◌∷◌, ◌++◌, false, is_clear, bit_and, bit_or, not32,
}
use mlab_mcu_edu.Machine.{read, write, Hardware, Machine, ◌>>=◌, next}
use mlab_mcu_edu.Machine.Runs.{writes, Does}
use mlab_mcu_edu.I2c.{
  I2cHandle, ready, InteruptReceive, tx_it_data, tx_it_address, csr, ctr, trxr, i2c_rxack, i2c_iack,
  i2c_ien, i2c_wr,
}
use mlab_mcu_edu.I2c.Interrupt.{
  Callback, send_byte_it, tx_ready, tx_end, tx_next_byte, tx_data, transmit_it_sequence,
  master_transmit_it, irq_handler,
}
use mlab_mcu_edu.I2c.Interrupt.Transmit.{
  sending, done_sending, AlwaysAcks, it_log, interrupts-address, irq-end, master_transmit_it_ready,
}
use mlab_mcu_edu.Machine.Series.{interrupts, interrupts-last}
use mlab_mcu_edu.Machine.Buffers.{bytes, advance}
use mlab_mcu_edu.I2c.Frames.{start_write, data_frames}

module _ {G : Type 0} (hw : Hardware) (tx rx_cplt : Callback G) where
  -- On a ready handle, for a buffer of 1 to 65535 bytes and a slave that always acknowledges,
  -- `I2C_Master_Transmit_IT` and then one interrupt for each byte and one more bring the driver to
  -- the completion callback, with the handle ready again and its count at 0. Interrupts were
  -- turned on, the address with its lowest bit 0 went out with a start condition, then the bytes of
  -- the buffer in order, the last with a stop condition, each after its interrupt was acknowledged,
  -- and interrupts were turned off; no other register and no memory was written.
  pub transmit_it_complete :
      (i2c : I2cHandle) (dev_address buf k : ℕ) (m : Machine G)
      → i2c.state ≡ ready
      → AlwaysAcks hw i2c.regs
      → suc k < 2 ^ 16
      → let r = i2c.regs in
        (m' : Machine G) × (c : ℕ) × ((master_transmit_it hw tx i2c dev_address buf (suc k)
              >>= interrupts (irq_handler hw tx rx_cplt) (suc (suc k)))
            m
          ≡ tx (done_sending r i2c.interupt_receive dev_address (advance (suc k) buf) 0) m')
        × (writes m'.log
            ≡ (ctr r, bit_and c (not32 i2c_ien))
              ∷ (csr r, i2c_iack)
              ∷ (it_log r (data_frames (bytes m.mem (suc k) buf))
                  ++ ((csr r, start_write)
                      ∷ (trxr r, bit_and dev_address 0xFE)
                      ∷ (ctr r, bit_or (hw.value m.log (ctr r)) i2c_ien)
                      ∷ writes m.log)))
        × (m'.mem ≡ m.mem)
        × (m'.app ≡ m.app)
  transmit_it_complete i2c dev buf k m isReady acks h =
      let r = i2c.regs in
      let rx = i2c.interupt_receive in
      let m₁ : Machine G = record m {
        log =
            write (csr r) start_write
            ∷ write (trxr r) (bit_and dev 0xFE)
            ∷ write (ctr r) (bit_or (hw.value m.log (ctr r)) i2c_ien)
            ∷ read (ctr r) (hw.value m.log (ctr r))
            ∷ m.log;
      } in
      let (m₂, e₂, s₂) = interrupts-address hw tx rx_cplt r rx acks dev k buf m₁ h in
      let l₁ = write (csr r) i2c_iack ∷ m₂.log in
      let v = hw.value l₁ (ctr r) in
      (
        record m₂ { log = write (ctr r) (bit_and v (not32 i2c_ien)) ∷ read (ctr r) v ∷ l₁ },
        v,
        rw (master_transmit_it_ready hw tx rx_cplt r rx i2c dev buf (suc k) m isReady, ◌>>=◌)
            (interrupts-last (irq_handler hw tx rx_cplt) (suc k) _ m₁
              ∙ rw (e₂, ◌>>=◌) (irq-end hw tx rx_cplt r rx dev (advance (suc k) buf) 0 m₂)),
        ap (λ ws. (ctr r, bit_and v (not32 i2c_ien)) ∷ (csr r, i2c_iack) ∷ ws) s₂.wrote,
        s₂.mem,
        s₂.app,
      )

  -- A data byte that is not acknowledged ends the transmission: the completion callback is called
  -- as after a success, with the count of the bytes not sent. No stop condition is asked for: the
  -- interrupt is acknowledged and interrupts are turned off, and that is all that is written.
  pub irq_nack :
      (regs address buf size : ℕ) (rx : InteruptReceive) (m : Machine G)
      → is_clear (hw.value (write (csr regs) i2c_iack ∷ m.log) (csr regs)) i2c_rxack ≡ false
      → (m' : Machine G) × (c : ℕ) × (irq_handler hw tx rx_cplt
            (sending regs rx tx_it_data address buf size)
            m
          ≡ tx (done_sending regs rx address buf size) m')
        × (writes m'.log
            ≡ (ctr regs, bit_and c (not32 i2c_ien)) ∷ (csr regs, i2c_iack) ∷ writes m.log)
  unfolding irq_handler transmit_it_sequence tx_data tx_end
  irq_nack regs address buf size rx m nack =
      let l₁ = write (csr regs) i2c_iack ∷ m.log in
      let l₂ = read (csr regs) (hw.value l₁ (csr regs)) ∷ l₁ in
      let v = hw.value l₂ (ctr regs) in
      (
        record m { log = write (ctr regs) (bit_and v (not32 i2c_ien)) ∷ read (ctr regs) v ∷ l₂ },
        v,
        rw nack,
        refl,
      )

  -- Where the address is not acknowledged, the interrupt sends it again and the transmission stays
  -- where it was, with nothing of the buffer consumed.
  pub irq_address_nack :
      (regs address buf size : ℕ) (rx : InteruptReceive) (m : Machine G)
      → is_clear (hw.value (write (csr regs) i2c_iack ∷ m.log) (csr regs)) i2c_rxack ≡ false
      → Does
          (irq_handler hw tx rx_cplt (sending regs rx tx_it_address address buf size))
          m
          ((csr regs, start_write) ∷ (trxr regs, bit_and address 0xFE) ∷ (csr regs, i2c_iack) ∷ [])
          (sending regs rx tx_it_address address buf size)
  unfolding irq_handler transmit_it_sequence tx_data tx_end tx_ready send_byte_it
  irq_address_nack regs address buf size rx m nack =
      let l₁ = write (csr regs) i2c_iack ∷ m.log in
      let l₂ = read (csr regs) (hw.value l₁ (csr regs)) ∷ l₁ in
      (
        record m {
          log = write (csr regs) start_write ∷ write (trxr regs) (bit_and address 0xFE) ∷ l₂;
        },
        rw nack,
        record { wrote = refl; mem = refl; app = refl; cpu = refl },
      )

  -- A transmission of size 0 does not end after the address: once the slave has acknowledged it,
  -- the first byte of the buffer is sent, without a stop, and 65535 bytes are left to send.
  pub transmit_it_zero :
      (i2c : I2cHandle) (dev_address buf : ℕ) (m : Machine G)
      → i2c.state ≡ ready
      → AlwaysAcks hw i2c.regs
      → let r = i2c.regs in
        Does
          (master_transmit_it hw tx i2c dev_address buf 0 >>= irq_handler hw tx rx_cplt)
          m
          ((csr r, i2c_wr)
            ∷ (trxr r, m.mem buf)
            ∷ (csr r, i2c_iack)
            ∷ (csr r, start_write)
            ∷ (trxr r, bit_and dev_address 0xFE)
            ∷ (ctr r, bit_or (hw.value m.log (ctr r)) i2c_ien)
            ∷ [])
          (sending r i2c.interupt_receive tx_it_data dev_address (next buf) (2 ^ 16 - 1))
  unfolding irq_handler transmit_it_sequence tx_data tx_next_byte send_byte_it
  transmit_it_zero i2c dev buf m isReady acks =
      let r = i2c.regs in
      let v = hw.value m.log (ctr r) in
      let l₁ =
        write (csr r) i2c_iack
        ∷ write (csr r) start_write
        ∷ write (trxr r) (bit_and dev 0xFE)
        ∷ write (ctr r) (bit_or v i2c_ien)
        ∷ read (ctr r) v
        ∷ m.log in
      let l₂ = read (csr r) (hw.value l₁ (csr r)) ∷ l₁ in
      let l₃ = read (csr r) (hw.value l₂ (csr r)) ∷ l₂ in
      (
        record m { log = write (csr r) i2c_wr ∷ write (trxr r) (m.mem buf) ∷ l₃ },
        rw
            (
              master_transmit_it_ready hw tx rx_cplt r i2c.interupt_receive i2c dev buf 0 m isReady,
              ◌>>=◌,
            )
            (rw (acks l₁) (rw (acks l₂) refl)),
        record { wrote = refl; mem = refl; app = refl; cpu = refl },
      )
