-- ===== src/Apps/FullPeripheral/Verdict/Transfers.antt =====
-- The stages of the test of all peripherals that use the I2C core.
use mlab_mcu_edu.Prelude.{
  ℕ, ◌+◌, ◌^◌, ◌<◌, ◌≤◌, ◌≡◌, refl, ap, ◌∙◌, List, [], ◌∷◌, ◌++◌, length, replicate, arith,
}
use mlab_mcu_edu.Machine.{Hardware, Machine, ◌>>=◌}
use mlab_mcu_edu.Machine.Buffers.{fill, reads_of, latest_first}
use mlab_mcu_edu.I2c.{I2cHandle, trxr, ready}
use mlab_mcu_edu.I2c.Frames.{EndsTransfers, AcksFrom}
use mlab_mcu_edu.I2c.Blocking.Transmit.{master_transmit_lem}
use mlab_mcu_edu.I2c.Blocking.Receive.{master_receive_lem}
use mlab_mcu_edu.Apps.FullPeripheral.{
  i2c_write_to_eeprom, set_gpio_2, i2c_read_from_eeprom, set_gpio_3, check_rw_data, Globals, step,
  i2c_write,
}
use mlab_mcu_edu.Apps.FullPeripheral.Verdict.{round, event}
use mlab_mcu_edu.Apps.FullPeripheral.Verdict.ToI2c.{drives_4}
use mlab_mcu_edu.Apps.FullPeripheral.Verdict.Stages.{Calm, Calm-same, Stage, Stage-one, Stage-then}

abbrev pub i2c_regs : ℕ
i2c_regs = 0x3000_0000

-- What the data register of the I2C core was read for so far, the latest first.
abbrev pub heard : Machine Globals → List ℕ
heard m = reads_of (trxr i2c_regs) m.log

-- The globals and memory after the reception of two values, and that they were the last ones heard.
pub record Heard (mem₀ : ℕ → ℕ) (r v₀ v₁ : ℕ) (before : List ℕ) (m : Machine Globals) : Type 0 where
  pub calm : Calm (fill mem₀ r (v₀ ∷ v₁ ∷ [])) m
  pub fresh : heard m ≡ v₁ ∷ v₀ ∷ before

abbrev pub HeardTwo : (ℕ → ℕ) → ℕ → Machine Globals → Type 0
HeardTwo mem₀ r m = (v₀ v₁ : ℕ) × (before : List ℕ) × Heard mem₀ r v₀ v₁ before m

Heard-two :
    (mem₀ : ℕ → ℕ) (r : ℕ) (vs before : List ℕ) (m : Machine Globals)
    → length vs ≡ 2
    → Calm (fill mem₀ r vs) m
    → heard m ≡ latest_first vs ++ before
    → HeardTwo mem₀ r m
Heard-two mem₀ r [] before m two c h = absurd (omega arith)
Heard-two mem₀ r (v₀ ∷ []) before m two c h = absurd (omega arith)
Heard-two mem₀ r (v₀ ∷ v₁ ∷ []) before m two c h = (v₀, v₁, before, record { calm = c; fresh = h })
Heard-two mem₀ r (v₀ ∷ v₁ ∷ v ∷ vs) before m two c h = absurd (omega arith)

module _ (hw : Hardware) (w r u : ℕ) (i2c₀ : I2cHandle) where
  abbrev pub bus : I2cHandle
  bus = record i2c₀ { regs = i2c_regs; state = ready }

  module _ (n : ℕ) (ends : EndsTransfers hw i2c_regs) (acks : AcksFrom hw i2c_regs n)
      (pos : 0 < hw.polls) (reach : n ≤ hw.polls) where
    written_eeprom :
        (mem₀ : ℕ → ℕ) (m : Machine Globals)
        → Calm mem₀ m
        → Stage hw w r u bus (round ∷ []) i2c_write_to_eeprom m set_gpio_2 (Calm mem₀)
    unfolding event step i2c_write
    written_eeprom mem₀ m c =
        let (_, _, _, _, (m₁, e₁, s₁)) =
          master_transmit_lem hw bus ends n 0xA0 w 4 m refl acks pos (omega arith) in
        let (_, _, _, _, (m₂, e₂, s₂)) =
          master_transmit_lem hw bus ends n 0xA0 w 2 m₁ refl acks pos (omega arith) in
        Stage-one hw w r u bus round i2c_write_to_eeprom m set_gpio_2 m₂ (Calm mem₀)
          (rw (e₁, ◌>>=◌) (rw (e₂, ◌>>=◌) refl))
          (Calm-same m m₂ (s₂.app ∙ s₁.app) (s₂.mem ∙ s₁.mem) c)

    read_eeprom :
        (mem₀ : ℕ → ℕ) (m : Machine Globals)
        → r + 2 ≤ 2 ^ 32
        → Calm mem₀ m
        → Stage hw w r u bus (round ∷ []) i2c_read_from_eeprom m set_gpio_3 (HeardTwo mem₀ r)
    unfolding event step
    read_eeprom mem₀ m fits c =
        let (_, _, m₁, _, _, vs, m₂, e, _, h, _, app, two, mem) =
          master_receive_lem hw bus ends n 0xA0 r 2 m refl fits acks pos (omega arith) in
        let c₂ : Calm (fill mem₀ r vs) m₂ = record {
          uart = ap (λ x. x.huart.g_state) app ∙ c.uart;
          flag = ap (λ x. x.uart_tx_cmpl_callback) app ∙ c.flag;
          gpio = ap (λ x. x.gpio_int_status) app ∙ c.gpio;
          timer = ap (λ x. x.timer_int_status) app ∙ c.timer;
          mem = mem ∙ ap (λ f. fill f r vs) c.mem;
          addr = ap (λ x. x.huart.instance_addr) app ∙ c.addr;
        } in
        Stage-one hw w r u bus round i2c_read_from_eeprom m set_gpio_3 m₂ (HeardTwo mem₀ r)
          (rw (e, ◌>>=◌) refl) (Heard-two mem₀ r vs (reads_of (trxr i2c_regs) m₁.log) m₂ two c₂ h)

    drives_5 :
        (mem₀ : ℕ → ℕ) (m : Machine Globals)
        → HeardTwo mem₀ r m
        → Stage hw w r u bus (round ∷ []) set_gpio_3 m check_rw_data (HeardTwo mem₀ r)
    unfolding event step
    drives_5 mem₀ m (v₀, v₁, before, h) =
        Stage-one hw w r u bus round set_gpio_3 m check_rw_data _ (HeardTwo mem₀ r) refl
          (v₀, v₁, before, record { calm = Calm-same m _ refl refl h.calm; fresh = h.fresh })

    -- From the first use of the I2C core to the check of the data.
    pub to_check :
        (mem₀ : ℕ → ℕ) (m : Machine Globals)
        → r + 2 ≤ 2 ^ 32
        → Calm mem₀ m
        → Stage hw w r u bus
            (replicate 4 round)
            i2c_write_to_eeprom
            m
            check_rw_data
            (HeardTwo mem₀ r)
    to_check mem₀ m fits c =
        let P = Calm mem₀ in
        let Q = HeardTwo mem₀ r in
        Stage-then hw w r u bus P Q (written_eeprom mem₀ m c) λ m₁ c₁.
          Stage-then hw w r u bus P Q (drives_4 hw w r u bus mem₀ m₁ c₁) λ m₂ c₂.
            Stage-then hw w r u bus Q Q (read_eeprom mem₀ m₂ fits c₂) λ m₃ h. drives_5 mem₀ m₃ h
