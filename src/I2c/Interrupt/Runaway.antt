-- ===== src/I2c/Interrupt/Runaway.antt =====
-- An interrupt-driven reception from a core whose status always shows an acknowledgement.
use mlab_mcu_edu.Prelude.{
  ℕ, zero, suc, ◌+◌, ◌*◌, ◌-◌, ◌^◌, ◌≡◌, refl, ap, ◌∙◌, Option, some, List, [], ◌∷◌, length,
  if◌then◌else◌, ◌==◌, bit_or, u8, u16, arith,
}
use mlab_mcu_edu.Machine.{read, write, Hardware, Machine, ◌>>=◌, next}
use mlab_mcu_edu.Machine.Buffers.{advance, fill, set_byte}
use mlab_mcu_edu.Machine.Series.{interrupts}
use mlab_mcu_edu.I2c.{
  I2cHandle, ready, rx_it_address, rx_it_get_data, InteruptTransmit, csr, ctr, trxr, i2c_iack,
  i2c_ien, i2c_rd, i2c_ack, pred16,
}
use mlab_mcu_edu.I2c.Interrupt.{
  Callback, send_byte_it, read_byte_it, rx_ready, rx_end, rx_data, rx_store, rx_get_data,
  receive_it_sequence, master_receive_it, irq_handler,
}
use mlab_mcu_edu.I2c.Interrupt.Transmit.{AlwaysAcks}
use mlab_mcu_edu.I2c.Interrupt.Receive.{receiving}
use mlab_mcu_edu.I2c.Frames.{start_write}

-- The count after `n` bytes have been asked for.
abbrev pub count_after : ℕ → ℕ → ℕ
count_after n size = u16 (size + n * (2 ^ 16 - 1))

module _ {G : Type 0} (hw : Hardware) (tx_cplt rx_cplt : Callback G) (regs : ℕ)
    (tx : InteruptTransmit) (acks : AlwaysAcks hw regs) (address : ℕ) where
  irq-get :
      (buf c : ℕ) (m : Machine G)
      → (v : ℕ) × (m' : Machine G) × (irq_handler hw tx_cplt rx_cplt
            (receiving regs tx rx_it_get_data address buf c)
            m
          ≡ some (receiving regs tx rx_it_get_data address (next buf) (pred16 c), m'))
        × (m'.mem ≡ set_byte m.mem buf (u8 v))
  unfolding irq_handler receive_it_sequence rx_get_data rx_store rx_data read_byte_it
  irq-get buf c m =
      let l₁ = write (csr regs) i2c_iack ∷ m.log in
      let l₂ = read (csr regs) (hw.value l₁ (csr regs)) ∷ l₁ in
      let v = hw.value l₂ (trxr regs) in
      let flags = if c == 1 then bit_or i2c_rd i2c_ack else i2c_rd in
      (
        v,
        record m {
          log = write (csr regs) flags ∷ read (trxr regs) v ∷ l₂;
          mem = set_byte m.mem buf (u8 v);
        },
        rw (acks l₁) refl,
        refl,
      )

  interrupts-get :
      (n buf c : ℕ) (m : Machine G)
      → (vs : List ℕ) × (m' : Machine G) × (length vs ≡ n)
        × (interrupts
              (irq_handler hw tx_cplt rx_cplt)
              n
              (receiving regs tx rx_it_get_data address buf (u16 c))
              m
            ≡ some (receiving regs tx rx_it_get_data address (advance n buf) (count_after n c), m'))
        × (m'.mem ≡ fill m.mem buf vs)
  unfolding interrupts
  interrupts-get zero buf c m = (
    [],
    m,
    refl,
    ap (λ k. some (receiving regs tx rx_it_get_data address buf k, m)) (omega arith),
    refl,
  )
  interrupts-get (suc n) buf c m =
      let (v, m₁, e₁, f₁) = irq-get buf (u16 c) m in
      let (vs, m', len, e, f) = interrupts-get n (next buf) (c + (2 ^ 16 - 1)) m₁ in
      let next_count : pred16 (u16 c) ≡ u16 (c + (2 ^ 16 - 1)) = omega arith in
      let count : count_after n (c + (2 ^ 16 - 1)) ≡ count_after (suc n) c = omega arith in
      let on =
        ap
          (λ k.
            interrupts (irq_handler hw tx_cplt rx_cplt) n
              (receiving regs tx rx_it_get_data address (next buf) k) m₁)
          next_count in
      let end =
        ap (λ k. some (receiving regs tx rx_it_get_data address (advance n (next buf)) k, m'))
          count in
      (v ∷ vs, m', ap suc len, rw (e₁, ◌>>=◌) (on ∙ e ∙ end), f ∙ ap (λ g. fill g (next buf) vs) f₁)

  irq-first :
      (buf c : ℕ) (m : Machine G)
      → (m' : Machine G) × (irq_handler hw tx_cplt rx_cplt
            (receiving regs tx rx_it_address address buf c)
            m
          ≡ some (receiving regs tx rx_it_get_data address buf (pred16 c), m'))
        × (m'.mem ≡ m.mem)
  unfolding irq_handler receive_it_sequence rx_get_data rx_data read_byte_it
  irq-first buf c m =
      let l₁ = write (csr regs) i2c_iack ∷ m.log in
      let l₂ = read (csr regs) (hw.value l₁ (csr regs)) ∷ l₁ in
      let flags = if c == 1 then bit_or i2c_rd i2c_ack else i2c_rd in
      (record m { log = write (csr regs) flags ∷ l₂ }, rw (acks l₁) refl, refl)

master_receive_it-ready :
    {G : Type 0} (hw : Hardware) (rx_cplt : Callback G) (i2c : I2cHandle) (dev_address buf size : ℕ)
    (m : Machine G)
    → i2c.state ≡ ready
    → let r = i2c.regs in
      let v = hw.value m.log (ctr r) in
      master_receive_it hw rx_cplt i2c dev_address buf size m
      ≡ some (
        receiving r i2c.interupt_transmit rx_it_address dev_address buf size,
        record m {
          log =
              write (csr r) start_write
              ∷ write (trxr r) (bit_or dev_address 0x01)
              ∷ write (ctr r) (bit_or v i2c_ien)
              ∷ read (ctr r) v
              ∷ m.log;
        },
      )
unfolding master_receive_it receive_it_sequence rx_get_data rx_data rx_end rx_ready send_byte_it
master_receive_it-ready hw rx_cplt i2c dev buf size m isReady = ground arith

-- The end of a reception is seen in the acknowledge bit alone, not in the count. On a ready handle,
-- where the status shows an acknowledgement whenever it is read, `I2C_Master_Receive_IT` and then
-- one interrupt and `n` more store `n` bytes from the buffer on, for every `n`, past its size too,
-- and leave the handle in the reception, with a count that has wrapped around past 0. The completion
-- callback is not called.
pub receive_it_runs_on :
    {G : Type 0} (hw : Hardware) (tx_cplt rx_cplt : Callback G) (i2c : I2cHandle)
    (dev_address buf size n : ℕ) (m : Machine G)
    → i2c.state ≡ ready
    → AlwaysAcks hw i2c.regs
    → (vs : List ℕ) × (m' : Machine G) × (length vs ≡ n)
      × ((master_receive_it hw rx_cplt i2c dev_address buf size
              >>= interrupts (irq_handler hw tx_cplt rx_cplt) (suc n))
            m
          ≡ some (
            receiving i2c.regs i2c.interupt_transmit rx_it_get_data dev_address
                (advance n buf)
                (count_after (suc n) size),
            m',
          ))
      × (m'.mem ≡ fill m.mem buf vs)
unfolding interrupts
receive_it_runs_on {G} hw tx_cplt rx_cplt i2c dev buf size n m isReady acks =
    let r = i2c.regs in
    let tx = i2c.interupt_transmit in
    let v = hw.value m.log (ctr r) in
    let m₁ : Machine G = record m {
      log =
          write (csr r) start_write
          ∷ write (trxr r) (bit_or dev 0x01)
          ∷ write (ctr r) (bit_or v i2c_ien)
          ∷ read (ctr r) v
          ∷ m.log;
    } in
    let (m₂, e₂, f₂) = irq-first hw tx_cplt rx_cplt r tx acks dev buf size m₁ in
    let (vs, m₃, len, e₃, f₃) =
      interrupts-get hw tx_cplt rx_cplt r tx acks dev n buf (size + (2 ^ 16 - 1)) m₂ in
    let count : count_after n (size + (2 ^ 16 - 1)) ≡ count_after (suc n) size = omega arith in
    let first : pred16 size ≡ u16 (size + (2 ^ 16 - 1)) = omega arith in
    let on =
      ap
        (λ k.
          interrupts (irq_handler hw tx_cplt rx_cplt) n (receiving r tx rx_it_get_data dev buf k)
            m₂)
        first in
    let end =
      ap {B = Option (I2cHandle × Machine G)}
        (λ k. some (receiving r tx rx_it_get_data dev (advance n buf) k, m₃)) count in
    (
      vs,
      m₃,
      len,
      rw (master_receive_it-ready hw rx_cplt i2c dev buf size m isReady, ◌>>=◌)
          (rw (e₂, ◌>>=◌) (on ∙ e₃ ∙ end)),
      f₃ ∙ ap (λ g. fill g buf vs) f₂,
    )
