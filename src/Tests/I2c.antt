-- ===== src/Tests/I2c.antt =====
-- Examples on the I2C driver: four bytes to and from a slave, and the ways in which it goes wrong.
use mlab_mcu_edu.Prelude.{
  ℕ, suc, length, ◌-◌, ◌^◌, ◌%◌, ◌<◌, ◌≡◌, refl, some, List, [], ◌∷◌, ◌++◌, map, arith, bit_and,
  not32, u8, replicate, if◌then◌else◌, is_clear, not, ltb, Bool-cases, inl, inr,
}
use mlab_mcu_edu.Machine.{Access, Hardware, Machine, pure, ◌>>=◌}
use mlab_mcu_edu.Machine.Runs.{writes, last_write, Does}
use mlab_mcu_edu.Machine.Buffers.{bytes, fill, reads_of, latest_first}
use mlab_mcu_edu.Machine.Series.{interrupts}
use mlab_mcu_edu.I2c.{
  I2cHandle, ready, tx_it_ready, tx_it_data, rx_it_ready, rx_it_get_data, csr, ctr, trxr, prer_lo,
  prer_hi, i2c_iack, i2c_ien, i2c_sto, i2c_wr, i2c_en, prescale,
}
use mlab_mcu_edu.I2c.Blocking.{i2c_init, master_transmit, master_receive}
use mlab_mcu_edu.I2c.Blocking.Init.{divider, i2c_init-divider}
use mlab_mcu_edu.I2c.Blocking.Transmit.{master_transmit_lem}
use mlab_mcu_edu.I2c.Blocking.Receive.{read_commands, master_receive_lem}
use mlab_mcu_edu.I2c.Frames.{
  start_write, data_frames, frame_log, starts, EndsTransfers, AcksFrom, Tries,
}
use mlab_mcu_edu.I2c.Interrupt.{Callback, master_transmit_it, master_receive_it, irq_handler}
use mlab_mcu_edu.I2c.Interrupt.Transmit.{sending, done_sending, it_log}
use mlab_mcu_edu.I2c.Interrupt.Transmission.{transmit_it_complete, irq_nack, transmit_it_zero}
use mlab_mcu_edu.I2c.Interrupt.Receive.{receiving, done_receiving, rx_log, read_was_last}
use mlab_mcu_edu.I2c.Interrupt.Reception.{receive_it_complete}
use mlab_mcu_edu.I2c.Interrupt.Runaway.{receive_it_runs_on}
use mlab_mcu_edu.Tests.{quiet, start}

abbrev regs : ℕ
regs = 0x3000_0000

abbrev pub bus : I2cHandle
bus = record {
  regs = regs;
  interupt_transmit = record { state = tx_it_ready; address = 0; buf = 0; size = 0 };
  interupt_receive = record { state = rx_it_ready; address = 0; buf = 0; size = 0 };
  state = ready;
}

abbrev pub idle : Callback (Unit {0})
idle = pure

-- A slave that acknowledges from the second start condition on.
abbrev pub late : Hardware
late = record { value = λ l a. if ltb (starts regs (writes l)) 2 then 128 else 0; polls = 3 }

-- A core whose acknowledge bit is that of the last transfer, and whose data register counts.
abbrev mirror : Hardware
mirror = record { value = λ l a. if read_was_last regs (writes l) then 128 else 0; polls = 3 }

-- A slave that never acknowledges.
abbrev silent : Hardware
silent = record { value = λ l a. 128; polls = 3 }

transmit_it_complete_example :
    (m' : Machine Unit) × (c : ℕ) × ((master_transmit_it quiet idle bus 0xA0 16 4
          >>= interrupts (irq_handler quiet idle idle) 5)
        start
      ≡ idle (done_sending regs bus.interupt_receive 0xA0 20 0) m')
    × (writes m'.log
        ≡ (ctr regs, bit_and c (not32 i2c_ien))
          ∷ (csr regs, i2c_iack)
          ∷ (it_log regs (data_frames (16 ∷ 17 ∷ 18 ∷ 19 ∷ []))
              ++ ((csr regs, start_write) ∷ (trxr regs, 0xA0) ∷ (ctr regs, i2c_ien) ∷ [])))
    × (m'.mem ≡ start.mem)
    × (m'.app ≡ tt)
transmit_it_complete_example =
    transmit_it_complete quiet idle idle bus 0xA0 16 3 start refl (λ l. refl) (omega arith)

receive_it_complete_example :
    (vs : List ℕ) × (c : ℕ) × (m' : Machine Unit) × ((master_receive_it mirror idle bus 0xA0 16 4
          >>= interrupts (irq_handler mirror idle idle) 5)
        start
      ≡ idle (done_receiving regs bus.interupt_transmit 0xA0 19 0) m')
    × (bytes m'.mem 4 16 ≡ map u8 vs)
    × (reads_of (trxr regs) m'.log ≡ latest_first vs ++ [])
    × (writes m'.log
        ≡ (csr regs, i2c_sto)
          ∷ (ctr regs, bit_and c (not32 i2c_ien))
          ∷ (csr regs, i2c_iack)
          ∷ (rx_log regs 4
              ++ ((csr regs, start_write) ∷ (trxr regs, 0xA1) ∷ (ctr regs, i2c_ien) ∷ [])))
    × (m'.app ≡ tt)
receive_it_complete_example =
    receive_it_complete mirror idle idle bus 0xA0 16 3 start refl mirrors (omega arith)
      (omega arith)
  where
    mirrors :
        (l : List Access)
        → is_clear (mirror.value l (csr regs)) 128 ≡ not (read_was_last regs (writes l))
    mirrors l = ground arith

pub late_ends : EndsTransfers late regs
late_ends l = elim (Bool-cases (ltb (starts regs (writes l)) 2)) [
  | inl e ↦ rw e tt
  | inr e ↦ rw e tt
]

pub late_acks : AcksFrom late regs 2
late_acks l le = ground arith

master_transmit_lem_example :
    (r : ℕ) × (r < 3)
    × (l : List Access) × Tries late regs 0xA0 r [] l
    × Does
        (master_transmit late bus 0xA1 16 2)
        start
        ((csr regs, i2c_iack)
          ∷ frame_log regs (replicate (suc r) (0xA0, start_write) ++ data_frames (16 ∷ 17 ∷ [])))
        tt
master_transmit_lem_example =
    master_transmit_lem late bus late_ends 2 0xA1 16 2 start refl late_acks (omega arith)
      (omega arith)

master_receive_lem_example :
    (r : ℕ) × (r < 3)
    × (m₁ : Machine Unit) × Tries late regs 0xA1 r [] m₁.log
    × (writes m₁.log ≡ frame_log regs (replicate (suc r) (0xA1, start_write)) ++ [])
    × (vs : List ℕ) × (m' : Machine Unit) × (master_receive late bus 0xA0 16 2 start
        ≡ some (tt, m'))
    × (bytes m'.mem 2 16 ≡ map u8 vs)
    × (reads_of (trxr regs) m'.log ≡ latest_first vs ++ reads_of (trxr regs) m₁.log)
    × (writes m'.log
        ≡ (csr regs, i2c_iack) ∷ (csr regs, i2c_sto) ∷ (read_commands regs 2 ++ writes m₁.log))
    × (m'.app ≡ tt)
    × (length vs ≡ 2)
    × (m'.mem ≡ fill start.mem 16 vs)
master_receive_lem_example =
    master_receive_lem late bus late_ends 2 0xA0 16 2 start refl (omega arith) late_acks
      (omega arith) (omega arith)

irq_nack_example :
    (m' : Machine Unit) × (c : ℕ) × (irq_handler silent idle idle
        (sending regs bus.interupt_receive tx_it_data 0xA0 16 4)
        start
      ≡ idle (done_sending regs bus.interupt_receive 0xA0 16 4) m')
    × (writes m'.log ≡ (ctr regs, bit_and c (not32 i2c_ien)) ∷ (csr regs, i2c_iack) ∷ [])
irq_nack_example = irq_nack silent idle idle regs 0xA0 16 4 bus.interupt_receive start refl

transmit_it_zero_example :
    Does
      (master_transmit_it quiet idle bus 0xA0 16 0 >>= irq_handler quiet idle idle)
      start
      ((csr regs, i2c_wr)
        ∷ (trxr regs, 16)
        ∷ (csr regs, i2c_iack)
        ∷ (csr regs, start_write)
        ∷ (trxr regs, 0xA0)
        ∷ (ctr regs, i2c_ien)
        ∷ [])
      (sending regs bus.interupt_receive tx_it_data 0xA0 17 65535)
transmit_it_zero_example = transmit_it_zero quiet idle idle bus 0xA0 16 start refl (λ l. refl)

i2c_init-divider_example :
    (lo hi : ℕ) × (m' : Machine Unit) × (i2c_init quiet bus regs 1 1000 start
      ≡ some (record bus { regs = regs; state = ready }, m'))
    × (last_write (prer_lo regs) m'.log ≡ some lo)
    × (last_write (prer_hi regs) m'.log ≡ some hi)
    × (last_write (ctr regs) m'.log ≡ some i2c_en)
    × (divider lo hi ≡ prescale 1000 1 % 256)
    × (m'.mem ≡ start.mem)
i2c_init-divider_example = i2c_init-divider quiet bus regs 1 1000 start (omega arith) tt

-- A buffer of two bytes, and five interrupts after the first.
receive_it_runs_on_example :
    (vs : List ℕ) × (m' : Machine Unit) × (length vs ≡ 5)
    × ((master_receive_it quiet idle bus 0xA0 16 2 >>= interrupts (irq_handler quiet idle idle) 6)
          start
        ≡ some (receiving regs bus.interupt_transmit rx_it_get_data 0xA0 21 (2 ^ 16 - 4), m'))
    × (m'.mem ≡ fill start.mem 16 vs)
receive_it_runs_on_example =
    receive_it_runs_on quiet idle idle bus 0xA0 16 2 5 start refl (λ l. refl)
