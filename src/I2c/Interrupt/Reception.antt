-- ===== src/I2c/Interrupt/Reception.antt =====
-- An interrupt-driven reception from its start to the completion callback.
use mlab_mcu_edu.Prelude.{
  ℕ, suc, ◌+◌, ◌^◌, ◌≤◌, ◌<◌, ◌≡◌, ap, ◌∙◌, List, ◌∷◌, ◌++◌, map, u8, bit_and, bit_or, not32, arith,
}
use mlab_mcu_edu.Machine.{read, write, Hardware, Machine, ◌>>=◌}
use mlab_mcu_edu.Machine.Runs.{writes}
use mlab_mcu_edu.Machine.Buffers.{bytes, advance, reads_of, latest_first}
use mlab_mcu_edu.I2c.{I2cHandle, ready, csr, ctr, trxr, i2c_iack, i2c_ien, i2c_sto}
use mlab_mcu_edu.I2c.Interrupt.{Callback, master_receive_it, irq_handler}
use mlab_mcu_edu.Machine.Got.{bytes-Got}
use mlab_mcu_edu.Machine.Series.{interrupts}
use mlab_mcu_edu.I2c.Interrupt.Receive.{
  done_receiving, rx_log, MirrorsAck, interrupts-receive, master_receive_it_ready,
}
use mlab_mcu_edu.I2c.Frames.{start_write}

module _ {G : Type 0} (hw : Hardware) (tx_cplt rx : Callback G) where
  -- On a ready handle, for a buffer of 1 to 65535 bytes that does not run past the end of memory
  -- and a core whose acknowledge bit is that of the last transfer, `I2C_Master_Receive_IT` and then
  -- one interrupt for each byte and one more bring the driver to the completion callback, with the
  -- handle ready again and its count at 0. The address went out with its lowest bit 1, then one
  -- read for each byte, the last not acknowledged, then a stop; no other command and no data was
  -- written. The values that were read from the data register are, in order and each as a byte,
  -- what the buffer holds.
  pub receive_it_complete :
      (i2c : I2cHandle) (dev_address buf k : ℕ) (m : Machine G)
      → i2c.state ≡ ready
      → MirrorsAck hw i2c.regs
      → suc k < 2 ^ 16
      → buf + suc k ≤ 2 ^ 32
      → let r = i2c.regs in
        (vs : List ℕ) × (c : ℕ) × (m' : Machine G) × ((master_receive_it hw rx i2c dev_address buf
                (suc k)
              >>= interrupts (irq_handler hw tx_cplt rx) (suc (suc k)))
            m
          ≡ rx (done_receiving r i2c.interupt_transmit dev_address (advance k buf) 0) m')
        × (bytes m'.mem (suc k) buf ≡ map u8 vs)
        × (reads_of (trxr r) m'.log ≡ latest_first vs ++ reads_of (trxr r) m.log)
        × (writes m'.log
            ≡ (csr r, i2c_sto)
              ∷ (ctr r, bit_and c (not32 i2c_ien))
              ∷ (csr r, i2c_iack)
              ∷ (rx_log r (suc k)
                  ++ ((csr r, start_write)
                      ∷ (trxr r, bit_or dev_address 0x01)
                      ∷ (ctr r, bit_or (hw.value m.log (ctr r)) i2c_ien)
                      ∷ writes m.log)))
        × (m'.app ≡ m.app)
  receive_it_complete i2c dev buf k m isReady mirrors h fits =
      let r = i2c.regs in
      let m₁ : Machine G = record m {
        log =
            write (csr r) start_write
            ∷ write (trxr r) (bit_or dev 0x01)
            ∷ write (ctr r) (bit_or (hw.value m.log (ctr r)) i2c_ien)
            ∷ read (ctr r) (hw.value m.log (ctr r))
            ∷ m.log;
      } in
      let (vs, c, m₂, n, e, g) =
        interrupts-receive hw tx_cplt rx r i2c.interupt_transmit mirrors dev k buf m₁ h
          (ground arith) in
      (
        vs,
        c,
        m₂,
        rw (master_receive_it_ready hw rx i2c dev buf (suc k) m isReady, ◌>>=◌) e,
        bytes-Got (reads_of (trxr r)) (suc k) g n fits,
        g.heard ∙ ap (λ l. latest_first vs ++ l) (ground arith),
        g.wrote,
        g.app,
      )
