-- ===== src/Apps/FullPeripheral/Eeprom/Setup.antt =====
-- The traffic of the I2C core's set-up, of the check of the data and of the interrupts of the GPIO and
-- the timer; and what a passed check says of the traffic.
use mlab_mcu_edu.Prelude.{
  ℕ, ◌+◌, ◌*◌, ◌^◌, ◌≡◌, refl, ap, ◌∙◌, List, [], ◌∷◌, u8, u32, arith, Bool, true, false, ◌&&◌,
  ◌==◌, ==_iff, if◌then◌else◌, Bool-cases, inl, inr, is_clear, bit_or,
}
use mlab_mcu_edu.Machine.{read, write, Hardware, Machine, Cmd, pure, wait_clear, update}
use mlab_mcu_edu.Machine.Buffers.{fill, reads_of}
use mlab_mcu_edu.Machine.Keeps.{Ensures, Ensures->>=}
use mlab_mcu_edu.Machine.Traffic.{
  Inert, Inert->>=, Inert-pure, Inert-if, Inert-store, Inert-load, Inert-update, Inert-wait_clear,
}
use mlab_mcu_edu.I2c.{
  I2cHandle, ready, csr, ctr, prer_lo, prer_hi, i2c_busy, i2c_if, i2c_iack, i2c_en, prescale,
}
use mlab_mcu_edu.I2c.Blocking.{i2c_init}
use mlab_mcu_edu.Gpio.{gpio_base_addr, gpio_oe, gpio_out}
use mlab_mcu_edu.Timer.{timer_init, timer_ack_intrq}
use mlab_mcu_edu.Apps.FullPeripheral.{
  Globals, check_data, check_rw_data, gpio_handler, timer_irq_handler, drive_pin,
}
use mlab_mcu_edu.Apps.FullPeripheral.Verdict.{compared}
use mlab_mcu_edu.Apps.FullPeripheral.Verdict.Run.{Ensures-any}
use mlab_mcu_edu.Apps.FullPeripheral.Eeprom.{i2c_data, Wrote, ReadBack, AtState, AtNext}

-- What a passed test shows of the EEPROM: the two transmissions to it went out, the data in the buffer
-- as it was at first, and the two bytes that were read from it last are those that stand in that
-- buffer, past the two bytes of the address.
pub record FromEeprom (mem₀ : ℕ → ℕ) (w r : ℕ) (m : Machine Globals) : Type 0 where
  pub traffic : Wrote mem₀ w m
  pub v₀ : ℕ
  pub v₁ : ℕ
  pub before : List ℕ
  pub heard : reads_of i2c_data m.log ≡ v₁ ∷ v₀ ∷ before
  pub first : m.mem (u32 (w + 2)) ≡ u8 v₀
  pub second : m.mem (u32 (w + 3)) ≡ u8 v₁

and_both : (a b : Bool) → (a && b) ≡ true → (a ≡ true) × (b ≡ true)
and_both true b e = (refl, e)
and_both false b e = absurd (ground arith)

filled_first : (mem₀ : ℕ → ℕ) (r v₀ v₁ : ℕ) → fill mem₀ r (v₀ ∷ v₁ ∷ []) r ≡ u8 v₀
filled_first mem₀ r v₀ v₁ =
    let other : (u32 (r + 1) == r) ≡ false = ground arith in rw other (ground arith)

filled_second : (mem₀ : ℕ → ℕ) (r v₀ v₁ : ℕ) → fill mem₀ r (v₀ ∷ v₁ ∷ []) (u32 (r + 1)) ≡ u8 v₁
filled_second mem₀ r v₀ v₁ = ground arith

pub compared-FromEeprom :
    (mem₀ : ℕ → ℕ) (w r : ℕ) (m : Machine Globals)
    → compared w r m.mem ≡ true
    → Wrote mem₀ w m × ReadBack mem₀ r m
    → FromEeprom mem₀ w r m
compared-FromEeprom mem₀ w r m e (o, b) =
    let (same₀, same₁) = and_both (m.mem (u32 (w + 2)) == m.mem r) _ e in
    record {
      traffic = o;
      v₀ = b.v₀;
      v₁ = b.v₁;
      before = b.before;
      heard = b.heard;
      first =
          (==_iff (m.mem (u32 (w + 2))) (m.mem r)).0 same₀
          ∙ ap (λ f. f r) b.mem
          ∙ filled_first mem₀ r b.v₀ b.v₁;
      second =
          (==_iff (m.mem (u32 (w + 3))) (m.mem (u32 (r + 1)))).0 same₁
          ∙ ap (λ f. f (u32 (r + 1))) b.mem
          ∙ filled_second mem₀ r b.v₀ b.v₁;
    }

module _ (hw : Hardware) where
  pub drive_pin-Inert : (pin : ℕ) → Inert i2c_data (drive_pin hw pin)
  drive_pin-Inert pin =
      Inert->>= i2c_data
        (Inert-update i2c_data hw (gpio_oe gpio_base_addr) (λ v. bit_or v pin) refl)
        (λ _. Inert-update i2c_data hw (gpio_out gpio_base_addr) (λ v. bit_or v pin) refl)

  pub gpio_handler-Inert : Inert i2c_data (gpio_handler hw)
  unfolding gpio_handler
  gpio_handler-Inert = record { inert = λ m. record { wrote = refl; heard = refl; mem = refl } }

  pub timer_irq_handler-Inert : Inert i2c_data (timer_irq_handler hw)
  unfolding timer_irq_handler timer_init timer_ack_intrq
  timer_irq_handler-Inert = record {
    inert = λ m. record { wrote = refl; heard = refl; mem = refl };
  }

  -- The set-up of the I2C core.
  pub i2c_init-Inert :
      (i2c₀ : I2cHandle) → Inert {G = Globals} i2c_data (i2c_init hw i2c₀ 0x3000_0000 400 80)
  unfolding i2c_init
  i2c_init-Inert i2c₀ =
      let d = i2c_data in
      Inert->>= d (Inert-wait_clear d hw (csr 0x3000_0000) i2c_busy refl) λ _.
        Inert->>= d (Inert-store d (ctr 0x3000_0000) 0 refl) λ _.
          Inert->>= d (Inert-load d hw (csr 0x3000_0000) refl) λ status.
            Inert->>= d
              (Inert-if d (is_clear status i2c_if) (Inert-pure d tt)
                (Inert-update d hw (csr 0x3000_0000) (λ v. bit_or v i2c_iack) refl))
              λ _. Inert->>= d (Inert-store d (prer_lo 0x3000_0000) (prescale 80 400) refl) λ _.
                Inert->>= d (Inert-store d (prer_hi 0x3000_0000) (prescale 80 400 * 2 ^ 8) refl)
                  λ _.
                    Inert->>= d (Inert-store d (ctr 0x3000_0000) i2c_en refl)
                      λ _. Inert-pure d (record i2c₀ { regs = 0x3000_0000; state = ready })

  pub init-ready :
      (i2c : I2cHandle) (m : Machine Globals)
      → Ensures (λ i2c' _. i2c'.state ≡ ready) (i2c_init hw i2c 0x3000_0000 400 80 m)
  unfolding i2c_init
  init-ready i2c m =
      let P : Unit {0} → Machine Globals → Type 0 = λ _ _. Unit {0} in
      let Q : I2cHandle → Machine Globals → Type 0 = λ i2c' _. i2c'.state ≡ ready in
      let wait : Cmd Globals (Unit {0}) = wait_clear hw (csr 0x3000_0000) i2c_busy in
      let ack : ℕ → Cmd Globals (Unit {0}) = λ status.
        if is_clear status i2c_if
        then pure tt
        else update hw (csr 0x3000_0000) (λ v. bit_or v i2c_iack) in
      Ensures->>= P Q wait _ m (Ensures-any (wait m)) (λ _ m₁ _.
        let m₂ : Machine Globals = record m₁ { log = write (ctr 0x3000_0000) 0 ∷ m₁.log } in
        let status = hw.value m₂.log (csr 0x3000_0000) in
        let m₃ : Machine Globals = record m₂ { log = read (csr 0x3000_0000) status ∷ m₂.log } in
        Ensures->>= P Q (ack status) _ m₃ (Ensures-any (ack status m₃)) (λ _ m₄ _. refl))

  module _ (mem₀ : ℕ → ℕ) (w r u : ℕ) (i2c : I2cHandle) where
    pub check-AtNext :
        (m : Machine Globals)
        → AtState mem₀ w r check_rw_data m
        → Ensures (AtNext mem₀ w r) (check_data hw i2c w r u m)
    unfolding check_data
    check-AtNext m v = elim (Bool-cases (m.mem (u32 (w + 2)) == m.mem r)) [
      | inl first ↦ elim (Bool-cases (m.mem (u32 (w + 3)) == m.mem (u32 (r + 1)))) [
        | inl second ↦ rw (first, second, Ensures) v
        | inr other ↦ rw (first, other, Ensures) tt
      ]
      | inr other ↦ rw (other, Ensures) tt
    ]
