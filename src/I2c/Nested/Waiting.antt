-- ===== src/I2c/Nested/Waiting.antt =====
-- The loops of the copy that wait, and those of version 0.1.
use mlab_mcu_edu.Prelude.{
  ℕ, zero, suc, ◌≡◌, refl, arith, ◌==◌, Bool, true, false, if◌then◌else◌, bit_and, bit_or,
}
use mlab_mcu_edu.Machine.{Hardware, Machine, Cmd, pure, ◌>>◌, store, next}
use mlab_mcu_edu.I2c.{I2cHandle, csr, i2c_iack, i2c_rd, i2c_wr, i2c_sto, i2c_ack}
use mlab_mcu_edu.Machine.Runs.{>>=-same}
use mlab_mcu_edu.I2c.Blocking.{
  send_byte, read_byte, send_address, send_data, transmit, receive_data, receive,
}
use mlab_mcu_edu.I2c.Nested.Blocking.{i2c_send_byte, i2c_read_byte, address_loop, tx_loop, rx_loop}

-- The tests for the last byte.
last_same : (n : ℕ) → (suc n == 1) ≡ (n == 0)
last_same n = ground arith

module _ {G : Type 0} (hw : Hardware) where
  address_same :
      (n : ℕ) (i2c : I2cHandle) (byte : ℕ) (m : Machine G)
      → address_loop hw n i2c byte m ≡ send_address hw n i2c byte m
  unfolding address_loop send_address i2c_send_byte send_byte
  address_same zero i2c byte m = refl
  address_same (suc n) i2c byte m =
      >>=-same (i2c_send_byte hw i2c byte 144) (send_byte hw i2c byte 144) _ _ m refl (λ r m'.
        elim (r == 0) as (λ b. again b m' ≡ again' b m') [
          | true ↦ refl
          | false ↦ address_same n i2c byte m'
        ])
    where
      again : Bool → Cmd G (Unit {0})
      again b = elim b [ true ↦ pure tt | false ↦ address_loop hw n i2c byte ]

      again' : Bool → Cmd G (Unit {0})
      again' b = elim b [ true ↦ pure tt | false ↦ send_address hw n i2c byte ]

  tx_loop-send_data :
      (n : ℕ) (i2c : I2cHandle) (buf : ℕ) (m : Machine G)
      → tx_loop hw n i2c buf m ≡ send_data hw n i2c buf m
  unfolding tx_loop send_data i2c_send_byte send_byte
  tx_loop-send_data zero i2c buf m = refl
  tx_loop-send_data (suc n) i2c buf m = rw (last_same n) (
      >>=-same (i2c_send_byte hw i2c (m.mem buf) (if n == 0 then bit_or i2c_wr i2c_sto else i2c_wr))
        (send_byte hw i2c (m.mem buf) (if n == 0 then bit_or i2c_wr i2c_sto else i2c_wr)) _ _ m refl
        (λ r m'. tx_loop-send_data n i2c (next buf) m'))

  rx_loop-receive_data :
      (n : ℕ) (i2c : I2cHandle) (buf : ℕ) (m : Machine G)
      → rx_loop hw n i2c buf m ≡ receive_data hw n i2c buf m
  unfolding rx_loop receive_data i2c_read_byte read_byte
  rx_loop-receive_data zero i2c buf m = refl
  rx_loop-receive_data (suc n) i2c buf m = rw (last_same n) (
      >>=-same (i2c_read_byte hw i2c (if n == 0 then bit_or i2c_rd i2c_ack else i2c_rd))
        (read_byte hw i2c (if n == 0 then bit_or i2c_rd i2c_ack else i2c_rd)) _ _ m refl
        (λ r m'.
          rx_loop-receive_data n i2c (next buf)
            (record m' { mem = λ q. if buf == q then r else m'.mem q })))

  pub tx_ready_same :
      (i2c : I2cHandle) (dev_address buf size : ℕ) (m : Machine G)
      → (do
        address_loop hw hw.polls i2c (bit_and dev_address 0xFE)
        tx_loop hw size i2c buf
        store (csr i2c.regs) i2c_iack)
          m
        ≡ transmit hw i2c dev_address buf size m
  unfolding transmit
  tx_ready_same i2c dev buf size m =
      let a = bit_and dev 0xFE in
      >>=-same (address_loop hw hw.polls i2c a) (send_address hw hw.polls i2c a) _ _ m
        (address_same hw.polls i2c a m)
        (λ r m'.
          >>=-same (tx_loop hw size i2c buf) (send_data hw size i2c buf)
            (λ _. store (csr i2c.regs) i2c_iack) _ m' (tx_loop-send_data size i2c buf m')
            (λ _ m''. refl))

  pub rx_ready_same :
      (i2c : I2cHandle) (dev_address buf size : ℕ) (m : Machine G)
      → (do
        address_loop hw hw.polls i2c (bit_or dev_address 0x01)
        rx_loop hw size i2c buf
        store (csr i2c.regs) i2c_sto
        store (csr i2c.regs) i2c_iack)
          m
        ≡ receive hw i2c dev_address buf size m
  unfolding receive
  rx_ready_same i2c dev buf size m =
      let a = bit_or dev 0x01 in
      >>=-same (address_loop hw hw.polls i2c a) (send_address hw hw.polls i2c a) _ _ m
        (address_same hw.polls i2c a m)
        (λ r m'.
          >>=-same (rx_loop hw size i2c buf) (receive_data hw size i2c buf)
            (λ _. store (csr i2c.regs) i2c_sto >> store (csr i2c.regs) i2c_iack) _ m'
            (rx_loop-receive_data size i2c buf m') (λ _ m''. refl))
