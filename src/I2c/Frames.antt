-- ===== src/I2c/Frames.antt =====
-- What a transfer is on the bus of the I2C core: frames, each a byte given to the transmit register
-- and the command that sends it, against the writes in the log.
use mlab_mcu_edu.Prelude.{
  ℕ, suc, ◌+◌, ◌≤◌, ◌≡◌, List, [], ◌∷◌, ◌++◌, append_assoc, append-nil, true, false, ◌&&◌, ◌==◌,
  if◌then◌else◌, is_clear,
}
use mlab_mcu_edu.Machine.{Access, read, write, Hardware}
use mlab_mcu_edu.Machine.Waits.{Waited}
use mlab_mcu_edu.Machine.Runs.{writes, ClearsIn}
use mlab_mcu_edu.I2c.{trxr, csr, i2c_sta, i2c_sto, i2c_wr, i2c_rxack, i2c_tip}

-- `I2C_STA | I2C_WR`, and the commands of a data byte.
abbrev pub start_write : ℕ
start_write = i2c_sta + i2c_wr

abbrev pub write_stop : ℕ
write_stop = i2c_wr + i2c_sto

-- The frames of the data of a transmission: a plain write for each byte, the last with a stop.
abbrev pub data_frames : List ℕ → List (ℕ × ℕ)
data_frames [] = []
data_frames (b ∷ []) = (b, write_stop) ∷ []
data_frames (b ∷ c ∷ bs) = (b, i2c_wr) ∷ data_frames (c ∷ bs)

module _ (regs : ℕ) where
  -- The writes that send the frames, the latest first.
  abbrev pub frame_log : List (ℕ × ℕ) → List (ℕ × ℕ)
  frame_log [] = []
  frame_log ((b, f) ∷ fs) = frame_log fs ++ ((csr regs, f) ∷ (trxr regs, b) ∷ [])

  pub frame_log-append :
      (fs gs : List (ℕ × ℕ)) → frame_log (fs ++ gs) ≡ frame_log gs ++ frame_log fs
  frame_log-append [] gs = rw append-nil
  frame_log-append ((b, f) ∷ fs) gs = rw (frame_log-append fs gs, append_assoc)

  -- How often a start condition was asked for.
  abbrev pub starts : List (ℕ × ℕ) → ℕ
  starts [] = 0
  starts ((a, v) ∷ ws) = (if a == csr regs && v == start_write then 1 else 0) + starts ws

module _ (hw : Hardware) (regs : ℕ) where
  -- Every transfer ends within the polls that a wait loop is given.
  abbrev pub EndsTransfers : Type 0
  EndsTransfers = (l : List Access) → ClearsIn hw (csr regs) i2c_tip hw.polls l

  -- The slave acknowledges from the `n`-th start condition on.
  abbrev pub AcksFrom : ℕ → Type 0
  AcksFrom n =
      (l : List Access)
      → n ≤ starts regs (writes l)
      → is_clear (hw.value l (csr regs)) i2c_rxack ≡ true

-- The address byte, sent with a start condition until it is acknowledged: from the first log to the
-- second it went out `r` times in vain, each time with the acknowledge bit of the status set when
-- the transfer had ended, and then once more, with the bit clear.
pub data Tries (hw : Hardware) (regs byte : ℕ) : ℕ → List Access → List Access → Type 0 where
  acked :
      {l l' : List Access}
      → Waited hw (csr regs) i2c_tip (write (csr regs) start_write ∷ write (trxr regs) byte ∷ l) l'
      → is_clear (hw.value l' (csr regs)) i2c_rxack ≡ true
      → Tries hw regs byte 0 l (read (csr regs) (hw.value l' (csr regs)) ∷ l')
  in_vain :
      {r : ℕ} {l l' l'' : List Access}
      → Waited hw (csr regs) i2c_tip (write (csr regs) start_write ∷ write (trxr regs) byte ∷ l) l'
      → is_clear (hw.value l' (csr regs)) i2c_rxack ≡ false
      → Tries hw regs byte r (read (csr regs) (hw.value l' (csr regs)) ∷ l') l''
      → Tries hw regs byte (suc r) l l''
