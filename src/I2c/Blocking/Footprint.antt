-- ===== src/I2c/Blocking/Footprint.antt =====
-- The functions of i2c_master.c that wait write the registers of the core and no other, whatever the
-- hardware answers.
use mlab_mcu_edu.Prelude.{
  ℕ, zero, suc, ◌+◌, ◌*◌, ◌^◌, ◌≡◌, Bool, true, false, ◌==◌, if◌then◌else◌, is_clear, bit_and,
  bit_or, u8,
}
use mlab_mcu_edu.Machine.{Hardware, Cmd, pure, next}
use mlab_mcu_edu.Machine.Keeps.{
  Keeps, Keeps->>=, Keeps-pure, Keeps-if, Keeps-load, Keeps-store, Keeps-peek, Keeps-poke,
  Keeps-update, Keeps-wait_clear,
}
use mlab_mcu_edu.I2c.{
  I2cHandle, State, ready, busy, busy_tx_it, busy_rx_it, prer_lo, prer_hi, ctr, trxr, csr, i2c_en,
  i2c_sta, i2c_sto, i2c_rd, i2c_wr, i2c_ack, i2c_iack, i2c_if, i2c_busy, i2c_tip, i2c_rxack,
  prescale, ack_received,
}
use mlab_mcu_edu.I2c.Blocking.{
  i2c_init, send_byte, read_byte, send_address, send_data, transmit, master_transmit, receive_data,
  receive, master_receive,
}

-- A register that is none of the core's.
pub record Outside (a regs : ℕ) : Type 0 where
  pub prer_lo : (a == regs) ≡ false
  pub prer_hi : (a == regs + 4) ≡ false
  pub ctr : (a == regs + 8) ≡ false
  pub trxr : (a == regs + 12) ≡ false
  pub csr : (a == regs + 16) ≡ false

module _ {G : Type 0} (hw : Hardware) (a : ℕ) (i2c : I2cHandle) (out : Outside a i2c.regs) where
  acked-Keeps : Keeps a (ack_received {G = G} hw i2c)
  acked-Keeps =
      Keeps->>= a (Keeps-load a hw (csr i2c.regs)) λ v. Keeps-pure a (is_clear v i2c_rxack)

  by_state :
      {c : Cmd G (Unit {0})}
      → Keeps a c
      → (s : State) → Keeps a (elim s as (λ _. Cmd G (Unit {0})) [ ready ↦ c | _ ↦ pure tt ])
  by_state k ready = k
  by_state k busy = Keeps-pure a tt
  by_state k busy_tx_it = Keeps-pure a tt
  by_state k busy_rx_it = Keeps-pure a tt

  until_acked :
      (b : Bool) {c : Cmd G (Unit {0})}
      → Keeps a c
      → Keeps a (elim b as (λ _. Cmd G (Unit {0})) [ true ↦ pure tt | false ↦ c ])
  until_acked true k = Keeps-pure a tt
  until_acked false k = k

  send_byte-Keeps : (byte flags : ℕ) → Keeps a (send_byte {G = G} hw i2c byte flags)
  unfolding send_byte
  send_byte-Keeps byte flags = Keeps->>= a (Keeps-store a (trxr i2c.regs) byte out.trxr) λ _.
      Keeps->>= a (Keeps-store a (csr i2c.regs) flags out.csr) λ _.
        Keeps->>= a (Keeps-wait_clear a hw (csr i2c.regs) i2c_tip)
          λ _. Keeps->>= a (acked-Keeps) λ acked. Keeps-pure a (if acked then 0 else 255)

  read_byte-Keeps : (flags : ℕ) → Keeps a (read_byte {G = G} hw i2c flags)
  unfolding read_byte
  read_byte-Keeps flags = Keeps->>= a (Keeps-store a (csr i2c.regs) flags out.csr) λ _.
      Keeps->>= a (Keeps-wait_clear a hw (csr i2c.regs) i2c_tip)
        λ _. Keeps->>= a (Keeps-load a hw (trxr i2c.regs)) λ v. Keeps-pure a (u8 v)

  send_address-Keeps : (n byte : ℕ) → Keeps a (send_address {G = G} hw n i2c byte)
  unfolding send_address
  send_address-Keeps zero byte = record { keeps = λ m. tt }
  send_address-Keeps (suc n) byte =
      Keeps->>= a (send_byte-Keeps byte (bit_or i2c_sta i2c_wr))
        λ r. until_acked (r == 0) (send_address-Keeps n byte)

  send_data-Keeps : (n buf : ℕ) → Keeps a (send_data {G = G} hw n i2c buf)
  unfolding send_data
  send_data-Keeps zero buf = Keeps-pure a tt
  send_data-Keeps (suc n) buf = Keeps->>= a (Keeps-peek a buf) λ byte.
      Keeps->>= a (send_byte-Keeps byte (if n == 0 then bit_or i2c_wr i2c_sto else i2c_wr))
        λ _. send_data-Keeps n (next buf)

  pub master_transmit-Keeps :
      (dev_address buf size : ℕ) → Keeps a (master_transmit {G = G} hw i2c dev_address buf size)
  unfolding master_transmit transmit
  master_transmit-Keeps dev_address buf size =
      by_state
        (Keeps->>= a (send_address-Keeps hw.polls (bit_and dev_address 0xFE)) λ _.
          Keeps->>= a (send_data-Keeps size buf) λ _. Keeps-store a (csr i2c.regs) i2c_iack out.csr)
        i2c.state

  receive_data-Keeps : (n buf : ℕ) → Keeps a (receive_data {G = G} hw n i2c buf)
  unfolding receive_data
  receive_data-Keeps zero buf = Keeps-pure a tt
  receive_data-Keeps (suc n) buf =
      Keeps->>= a (read_byte-Keeps (if n == 0 then bit_or i2c_rd i2c_ack else i2c_rd))
        λ byte. Keeps->>= a (Keeps-poke a buf byte) λ _. receive_data-Keeps n (next buf)

  pub master_receive-Keeps :
      (dev_address buf size : ℕ) → Keeps a (master_receive {G = G} hw i2c dev_address buf size)
  unfolding master_receive receive
  master_receive-Keeps dev_address buf size =
      by_state
        (Keeps->>= a (send_address-Keeps hw.polls (bit_or dev_address 0x01)) λ _.
          Keeps->>= a (receive_data-Keeps size buf) λ _.
            Keeps->>= a (Keeps-store a (csr i2c.regs) i2c_sto out.csr)
              λ _. Keeps-store a (csr i2c.regs) i2c_iack out.csr)
        i2c.state

-- `I2C_Init`, on the registers that it is given.
module _ {G : Type 0} (hw : Hardware) (a regs : ℕ) (out : Outside a regs) where
  pub i2c_init-Keeps :
      (i2c : I2cHandle) (speed cpu_freq : ℕ) → Keeps a (i2c_init {G = G} hw i2c regs speed cpu_freq)
  unfolding i2c_init
  i2c_init-Keeps i2c speed cpu_freq =
      let scale = prescale cpu_freq speed in
      Keeps-if a (speed == 0) (record { keeps = λ m. tt })
        (Keeps->>= a (Keeps-wait_clear a hw (csr regs) i2c_busy) λ _.
          Keeps->>= a (Keeps-store a (ctr regs) 0 out.ctr) λ _.
            Keeps->>= a (Keeps-load a hw (csr regs)) λ status.
              Keeps->>= a
                (Keeps-if a (is_clear status i2c_if) (Keeps-pure a tt)
                  (Keeps-update a hw (csr regs) (λ v. bit_or v i2c_iack) out.csr))
                λ _. Keeps->>= a (Keeps-store a (prer_lo regs) scale out.prer_lo) λ _.
                  Keeps->>= a (Keeps-store a (prer_hi regs) (scale * 2 ^ 8) out.prer_hi) λ _.
                    Keeps->>= a (Keeps-store a (ctr regs) i2c_en out.ctr)
                      λ _. Keeps-pure a (record i2c { regs = regs; state = ready }))
