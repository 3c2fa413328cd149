-- ===== src/I2c/Blocking/Receive.antt =====
-- A blocking reception, end to end.
use mlab_mcu_edu.Prelude.{
  ℕ, zero, suc, ◌+◌, ◌^◌, ◌≤◌, ◌<◌, ◌≡◌, ◌≢◌, refl, ap, ◌∙◌, some, List, [], ◌∷◌, ◌++◌, replicate,
  length, map, is_clear, bit_or, arith, u8, Bool-cases, inl, inr,
}
use mlab_mcu_edu.Machine.{
  Access, read, write, Hardware, Machine, ◌>>=◌, next, poll_clear, wait_clear,
}
use mlab_mcu_edu.Machine.Runs.{writes, ClearsIn, poll_clear-stop, poll_clear-again}
use mlab_mcu_edu.Machine.Buffers.{bytes, fill, reads_of, latest_first, set_byte}
use mlab_mcu_edu.Machine.Got.{Got, Got-cons, bytes-Got}
use mlab_mcu_edu.I2c.{I2cHandle, ready, csr, trxr, i2c_tip, i2c_iack, i2c_sto}
use mlab_mcu_edu.I2c.Blocking.{read_byte, receive_data, receive, master_receive}
use mlab_mcu_edu.I2c.Blocking.Transmit.{send_address_lem}
use mlab_mcu_edu.I2c.Interrupt.Receive.{read_command}
use mlab_mcu_edu.I2c.Frames.{start_write, frame_log, starts, EndsTransfers, AcksFrom, Tries}

-- The commands of a reception of `n` bytes, the latest first: a read for each byte, the last not
-- acknowledged.
abbrev pub read_commands : ℕ → ℕ → List (ℕ × ℕ)
read_commands regs zero = []
read_commands regs (suc k) = read_commands regs k ++ ((csr regs, read_command k) ∷ [])

module _ {G : Type 0} (hw : Hardware) where
  -- A loop that polls one register reads no other.
  poll_clear-hears :
      (n a mask d p : ℕ) (m : Machine G)
      → a ≢ d
      → ClearsIn hw a mask n m.log
      → (m' : Machine G) × (poll_clear hw n a mask m ≡ some (tt, m'))
        × Got (reads_of d) m [] [] p m'
  poll_clear-hears zero a mask d p m other h = absurd h
  poll_clear-hears (suc n) a mask d p m other h =
      let v = hw.value m.log a in
      let m₁ : Machine G = record m { log = read a v ∷ m.log } in
      elim (Bool-cases (is_clear v mask)) [
        | inl done ↦ (
          m₁,
          poll_clear-stop hw n a mask m done,
          record { wrote = refl; heard = ground arith; mem = refl; app = refl; cpu = refl },
        )
        | inr busy ↦
            let (m', e, g) = poll_clear-hears n a mask d p m₁ other (rw busy at h) in
            (
              m',
              poll_clear-again hw n a mask m busy ∙ e,
              record {
                wrote = g.wrote;
                heard = g.heard ∙ ground arith;
                mem = g.mem;
                app = g.app;
                cpu = g.cpu;
              },
            )
      ]

read_heard : (a v : ℕ) (l : List Access) → reads_of a (read a v ∷ l) ≡ v ∷ reads_of a l
read_heard a v l = ground arith

module _ {G : Type 0} (hw : Hardware) (i2c : I2cHandle) (ends : EndsTransfers hw i2c.regs) where
  -- `I2C_Master_Read_Byte`, and the byte stored.
  read_byte_lem :
      (flags p : ℕ) (m : Machine G)
      → (v : ℕ) × (m' : Machine G) × (read_byte hw i2c flags m ≡ some (u8 v, m'))
        × Got
            (reads_of (trxr i2c.regs))
            m
            ((csr i2c.regs, flags) ∷ [])
            (v ∷ [])
            p
            (record m' { mem = set_byte m'.mem p (u8 v) })
  unfolding read_byte wait_clear
  read_byte_lem flags p m =
      let d = trxr i2c.regs in
      let m₁ : Machine G = record m { log = write (csr i2c.regs) flags ∷ m.log } in
      let (m₂, e, g) =
        poll_clear-hears hw hw.polls (csr i2c.regs) i2c_tip d p m₁ (λ same. omega arith)
          (ends m₁.log) in
      let v = hw.value m₂.log d in
      (
        v,
        record m₂ { log = read d v ∷ m₂.log },
        rw (e, ◌>>=◌) refl,
        record {
          wrote = g.wrote;
          heard = read_heard d v m₂.log ∙ ap (λ l. v ∷ l) g.heard;
          mem = ap (λ f. set_byte f p (u8 v)) g.mem;
          app = g.app;
          cpu = g.cpu;
        },
      )

  receive_data_lem :
      (n buf : ℕ) (m : Machine G)
      → (vs : List ℕ) × (m' : Machine G) × (receive_data hw n i2c buf m ≡ some (tt, m'))
        × (length vs ≡ n)
        × Got (reads_of (trxr i2c.regs)) m (read_commands i2c.regs n) vs buf m'
  unfolding receive_data
  receive_data_lem zero buf m =
      ([], m, refl, refl, record { wrote = refl; heard = refl; mem = refl; app = refl; cpu = refl })
  receive_data_lem (suc n) buf m =
      let (v, m₁, e₁, g₁) = read_byte_lem (read_command n) buf m in
      let m₂ : Machine G = record m₁ { mem = set_byte m₁.mem buf (u8 v) } in
      let (vs, m', e, len, g) = receive_data_lem n (next buf) m₂ in
      (v ∷ vs, m', rw (e₁, ◌>>=◌) e, ap suc len, Got-cons (reads_of (trxr i2c.regs)) g₁ g)

  master_receive-ready :
      (dev_address buf size : ℕ) (m : Machine G)
      → i2c.state ≡ ready
      → master_receive hw i2c dev_address buf size m ≡ receive hw i2c dev_address buf size m
  unfolding master_receive
  master_receive-ready dev buf size m isReady = ground arith

  -- On a ready handle, for a buffer that does not run past the end of memory, where every transfer
  -- ends within the polls of a wait loop and the slave acknowledges from its `n`-th start condition
  -- on, in reach of the address loop, `I2C_Master_Receive` returns. It has sent the address with its
  -- lowest bit 1 and a start condition: `r` times in vain, when the status after the transfer showed
  -- no acknowledgement, and then the time that it showed one. Then it has sent a read command
  -- for each byte, the last without acknowledgement, then the stop condition and the acknowledgement
  -- of the interrupt. The values that were read from the data register after the address are, in
  -- order and each as a byte, what the buffer holds, one for each byte; nothing else in memory
  -- changed.
  pub master_receive_lem :
      (n dev_address buf size : ℕ) (m : Machine G)
      → i2c.state ≡ ready
      → buf + size ≤ 2 ^ 32
      → AcksFrom hw i2c.regs n
      → 0 < hw.polls
      → n ≤ starts i2c.regs (writes m.log) + hw.polls
      → let d = trxr i2c.regs in
        (r : ℕ) × (r < hw.polls)
        × (m₁ : Machine G) × Tries hw i2c.regs (bit_or dev_address 0x01) r m.log m₁.log
        × (writes m₁.log
            ≡ frame_log i2c.regs (replicate (suc r) (bit_or dev_address 0x01, start_write))
              ++ writes m.log)
        × (vs : List ℕ) × (m' : Machine G) × (master_receive hw i2c dev_address buf size m
            ≡ some (tt, m'))
        × (bytes m'.mem size buf ≡ map u8 vs)
        × (reads_of d m'.log ≡ latest_first vs ++ reads_of d m₁.log)
        × (writes m'.log
            ≡ (csr i2c.regs, i2c_iack)
              ∷ (csr i2c.regs, i2c_sto)
              ∷ (read_commands i2c.regs size ++ writes m₁.log))
        × (m'.app ≡ m.app)
        × (length vs ≡ size)
        × (m'.mem ≡ fill m.mem buf vs)
  unfolding receive
  master_receive_lem n dev buf size m isReady fits acks pos h =
      let d = trxr i2c.regs in
      let a = bit_or dev 0x01 in
      let (r, small, m₁, tries, e₁, s₁) = send_address_lem hw i2c ends n hw.polls a m acks pos h in
      let (vs, m₂, e₂, len, g) = receive_data_lem size buf m₁ in
      (
        r,
        small,
        m₁,
        tries,
        s₁.wrote,
        vs,
        record m₂ { log = write (csr i2c.regs) i2c_iack ∷ write (csr i2c.regs) i2c_sto ∷ m₂.log },
        master_receive-ready dev buf size m isReady ∙ rw (e₁, ◌>>=◌) (rw (e₂, ◌>>=◌) refl),
        bytes-Got (reads_of d) size g len fits,
        g.heard,
        ap (λ ws. (csr i2c.regs, i2c_iack) ∷ (csr i2c.regs, i2c_sto) ∷ ws) g.wrote,
        g.app ∙ s₁.app,
        len,
        g.mem ∙ ap (λ f. fill f buf vs) s₁.mem,
      )
