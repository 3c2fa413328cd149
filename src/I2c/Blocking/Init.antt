-- ===== src/I2c/Blocking/Init.antt =====
-- What `I2C_Init` leaves in the registers of the core.
use mlab_mcu_edu.Prelude.{
  ℕ, ◌+◌, ◌*◌, ◌%◌, ◌^◌, ◌<◌, ◌≡◌, some, ◌∷◌, false, u8, is_clear, ◌==◌, if◌then◌else◌, bit_or,
  arith,
}
use mlab_mcu_edu.Machine.{read, write, Hardware, Machine, ◌>>=◌}
use mlab_mcu_edu.Machine.Runs.{ClearsIn, last_write, wait_clear-Does}
use mlab_mcu_edu.I2c.{
  I2cHandle, ready, prer_lo, prer_hi, ctr, csr, i2c_en, i2c_busy, i2c_if, i2c_iack, prescale,
}
use mlab_mcu_edu.I2c.Blocking.{i2c_init}

-- The divider of the core: each prescale register takes the low byte of what is written to it.
abbrev pub divider : (lo hi : ℕ) → ℕ
divider lo hi = u8 lo + u8 hi * 2 ^ 8

module _ {G : Type 0} (hw : Hardware) where
  -- For a speed that is not 0 and a bus that is found free within the polls of a wait loop,
  -- `I2C_Init` returns a ready handle on the given registers, with the core enabled and its
  -- interrupts off. What it wrote to the two prescale registers makes the divider of the core the
  -- prescale value modulo 256: its high byte is lost.
  pub i2c_init-divider :
      (i2c : I2cHandle) (base speed cpu_freq : ℕ) (m : Machine G)
      → 0 < speed
      → ClearsIn hw (csr base) i2c_busy hw.polls m.log
      → (lo hi : ℕ) × (m' : Machine G) × (i2c_init hw i2c base speed cpu_freq m
          ≡ some (record i2c { regs = base; state = ready }, m'))
        × (last_write (prer_lo base) m'.log ≡ some lo)
        × (last_write (prer_hi base) m'.log ≡ some hi)
        × (last_write (ctr base) m'.log ≡ some i2c_en)
        × (divider lo hi ≡ prescale cpu_freq speed % 256)
        × (m'.mem ≡ m.mem)
  unfolding i2c_init
  i2c_init-divider i2c base speed cpu m pos free =
      let (m₁, e, s) = wait_clear-Does hw (csr base) i2c_busy m free in
      let p = prescale cpu speed in
      let some_speed : (speed == 0) ≡ false = ground arith in
      let l₁ = write (ctr base) 0 ∷ m₁.log in
      let v = hw.value l₁ (csr base) in
      let l₂ = read (csr base) v ∷ l₁ in
      let w = hw.value l₂ (csr base) in
      let l₃ = write (csr base) (bit_or w i2c_iack) ∷ read (csr base) w ∷ l₂ in
      let l = if is_clear v i2c_if then l₂ else l₃ in
      (
        p,
        p * 2 ^ 8,
        record m₁ {
          log =
              write (ctr base) i2c_en
              ∷ write (prer_hi base) (p * 2 ^ 8)
              ∷ write (prer_lo base) p
              ∷ l;
        },
        rw some_speed (rw (e, ◌>>=◌) (ground arith)),
        ground arith,
        ground arith,
        ground arith,
        omega arith,
        s.mem,
      )
