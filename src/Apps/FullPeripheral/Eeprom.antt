-- ===== src/Apps/FullPeripheral/Eeprom.antt =====
-- The traffic with the EEPROM in the tests of the peripherals: what went through the data register of
-- the I2C core by each state of the test, and memory.
pub mod Setup
pub mod Rounds
pub mod Run
use mlab_mcu_edu.Prelude.{
  ℕ, zero, suc, ◌+◌, ◌^◌, ◌≡◌, refl, ap, sym, subst, ◌∙◌, append_assoc, Option, none, some, List,
  [], ◌∷◌, ◌++◌, replicate, length, arith, u8, u32, Bool, true, false, ◌&&◌, ◌==◌, if◌then◌else◌,
  Bool-cases, inl, inr,
}
use mlab_mcu_edu.Machine.{Hardware, Machine, Cmd, ◌>>=◌, ◌>>◌}
use mlab_mcu_edu.Machine.Runs.{written}
use mlab_mcu_edu.Machine.Buffers.{bytes, fill, set_byte, reads_of, latest_first}
use mlab_mcu_edu.Machine.Keeps.{Ensures, Ensures-map, Ensures->>=}
use mlab_mcu_edu.Machine.Traffic.{Moved, Moved-trans, Inert}
use mlab_mcu_edu.I2c.{I2cHandle, State, ready, trxr}
use mlab_mcu_edu.I2c.Blocking.{master_transmit, master_receive}
use mlab_mcu_edu.I2c.Blocking.Traffic.{Fetched, master_transmit-Moved, master_receive-Fetched}
use mlab_mcu_edu.Apps.FullPeripheral.{
  TestState, test_start, wait_gpio_8_irq, set_gpio_0, set_timer, wait_timer_irq, set_gpio_1,
  i2c_write_to_eeprom, set_gpio_2, i2c_read_from_eeprom, set_gpio_3, check_rw_data, set_gpio_4,
  Globals, go_on, i2c_write, check_data,
}
use mlab_mcu_edu.Apps.FullPeripheral.Verdict.{compared}
use mlab_mcu_edu.Apps.FullPeripheral.Verdict.Evidence.{go_on-Ensures}

-- The data register of the I2C core.
abbrev pub i2c_data : ℕ
i2c_data = trxr 0x3000_0000

-- What the two transmissions to the EEPROM send, the latest first: each time the address, as often as
-- it took, and then the four bytes of the buffer, or its first two.
abbrev pub write_traffic : (mem₀ : ℕ → ℕ) (w k j : ℕ) → List ℕ
write_traffic mem₀ w k j =
    (latest_first (bytes mem₀ 2 w) ++ replicate (suc j) 0xA0)
    ++ (latest_first (bytes mem₀ 4 w) ++ replicate (suc k) 0xA0)

-- How far the traffic is.
pub data Progress : Type 0 where
  untouched sent_off read_back : Progress

abbrev pub progress : TestState → Progress
progress test_start = untouched
progress wait_gpio_8_irq = untouched
progress set_gpio_0 = untouched
progress set_timer = untouched
progress wait_timer_irq = untouched
progress set_gpio_1 = untouched
progress i2c_write_to_eeprom = untouched
progress set_gpio_2 = sent_off
progress i2c_read_from_eeprom = sent_off
progress _ = read_back

module _ (mem₀ : ℕ → ℕ) where
  -- The transmissions have been sent, perhaps with more sent before and after.
  pub record Wrote (w : ℕ) (m : Machine Globals) : Type 0 where
    pub k : ℕ
    pub j : ℕ
    pub later : List ℕ
    pub earlier : List ℕ
    pub sent : written i2c_data m.log ≡ later ++ (write_traffic mem₀ w k j ++ earlier)

  -- The last two values that the data register was read for are in the buffer.
  pub record ReadBack (r : ℕ) (m : Machine Globals) : Type 0 where
    pub v₀ : ℕ
    pub v₁ : ℕ
    pub before : List ℕ
    pub heard : reads_of i2c_data m.log ≡ v₁ ∷ v₀ ∷ before
    pub mem : m.mem ≡ fill mem₀ r (v₀ ∷ v₁ ∷ [])

  abbrev pub At : (w r : ℕ) → Progress → Machine Globals → Type 0
  At w r untouched m = m.mem ≡ mem₀
  At w r sent_off m = Wrote w m × (m.mem ≡ mem₀)
  At w r read_back m = Wrote w m × ReadBack r m

  abbrev pub AtState : (w r : ℕ) → TestState → Machine Globals → Type 0
  AtState w r s m = At w r (progress s) m

  abbrev pub AtNext : (w r : ℕ) → Option TestState → Machine Globals → Type 0
  AtNext w r none m = Unit
  AtNext w r (some s) m = AtState w r s m

  module _ (w r : ℕ) where
    Wrote-Moved :
        {ws rs : List ℕ} {m m' : Machine Globals}
        → Moved i2c_data ws rs m m'
        → Wrote w m
        → Wrote w m'
    Wrote-Moved {ws} t o = record {
      k = o.k;
      j = o.j;
      later = ws ++ o.later;
      earlier = o.earlier;
      sent =
          t.wrote
          ∙ ap (λ l. ws ++ l) o.sent
          ∙ sym (append_assoc ws o.later (write_traffic mem₀ w o.k o.j ++ o.earlier));
    }

    -- A run that leaves the register and memory alone leaves the traffic where it is.
    pub At-Moved :
        (p : Progress) {m m' : Machine Globals}
        → Moved i2c_data [] [] m m'
        → At w r p m
        → At w r p m'
    At-Moved untouched t v = t.mem ∙ v
    At-Moved sent_off t (o, e) = (Wrote-Moved t o, t.mem ∙ e)
    At-Moved read_back t (o, b) = (
      Wrote-Moved t o,
      record {
        v₀ = b.v₀;
        v₁ = b.v₁;
        before = b.before;
        heard = t.heard ∙ b.heard;
        mem = t.mem ∙ b.mem;
      },
    )

    -- A round of commands that leave the register and memory alone.
    pub quiet-AtNext :
        (c : Cmd Globals (Unit {0})) (s : TestState) (p : Progress) (m : Machine Globals)
        → ((m' : Machine Globals) → At w r p m' → AtState w r s m')
        → Inert i2c_data c
        → At w r p m
        → Ensures (AtNext w r) (go_on c s m)
    quiet-AtNext c s p m next k v =
        go_on-Ensures (AtNext w r) c s m
          (Ensures-map (c m) (k.inert m) (λ _ m' t. next m' (At-Moved p t v)))

    module _ (hw : Hardware) (i2c : I2cHandle) (at : i2c.regs ≡ 0x3000_0000)
        (isReady : i2c.state ≡ ready) where
      here :
          {ws rs : List ℕ} {m m' : Machine Globals}
          → Moved (trxr i2c.regs) ws rs m m'
          → Moved i2c_data ws rs m m'
      here {ws} {rs} {m} {m'} t = subst (λ a. Moved (trxr a) ws rs m m') at t

      -- The round that writes to the EEPROM.
      pub write-AtNext :
          (u : ℕ) (m : Machine Globals)
          → m.mem ≡ mem₀
          → Ensures (AtNext w r) (go_on (i2c_write hw i2c w r u) set_gpio_2 m)
      unfolding i2c_write
      write-AtNext u m e =
          let P : (n : ℕ) → Machine Globals → Machine Globals → Type 0 = λ n m₁ m'.
            (k : ℕ) × Moved (trxr i2c.regs)
              (latest_first (bytes m₁.mem n w) ++ replicate (suc k) 0xA0) [] m₁ m' in
          go_on-Ensures (AtNext w r)
            (master_transmit hw i2c 0xA0 w 4 >> master_transmit hw i2c 0xA0 w 2) set_gpio_2 m
            (Ensures->>= (λ _ m₁. P 4 m m₁) (λ _ m₂. AtState w r set_gpio_2 m₂)
              (master_transmit hw i2c 0xA0 w 4) _ m
              (master_transmit-Moved hw i2c 0xA0 w 4 m isReady)
              (λ _ m₁ (k, s).
                Ensures-map (master_transmit hw i2c 0xA0 w 2 m₁)
                  (master_transmit-Moved hw i2c 0xA0 w 2 m₁ isReady)
                  (λ _ m₂ (j, t).
                    let both = here (Moved-trans (trxr i2c.regs) s t) in
                    let first : m₁.mem ≡ mem₀ = s.mem ∙ e in
                    (
                      record {
                        k = k;
                        j = j;
                        later = [];
                        earlier = written i2c_data m.log;
                        sent = both.wrote ∙ (λ i.
                            ((latest_first (bytes (first i) 2 w) ++ replicate (suc j) 0xA0)
                              ++ (latest_first (bytes (e i) 4 w) ++ replicate (suc k) 0xA0))
                            ++ written i2c_data m.log);
                      },
                      both.mem ∙ e,
                    ))))

      two_of : (vs : List ℕ) → length vs ≡ 2 → (v₀ v₁ : ℕ) × (vs ≡ v₀ ∷ v₁ ∷ [])
      two_of [] e = absurd (omega arith)
      two_of (v ∷ []) e = absurd (omega arith)
      two_of (v ∷ x ∷ []) e = (v, x, refl)
      two_of (v ∷ x ∷ y ∷ vs) e = absurd (omega arith)

      -- The round that reads from it.
      pub read-AtNext :
          (m : Machine Globals)
          → AtState w r i2c_read_from_eeprom m
          → Ensures (AtNext w r) (go_on (master_receive hw i2c 0xA0 r 2) set_gpio_3 m)
      read-AtNext m (o, e) =
          go_on-Ensures (AtNext w r) (master_receive hw i2c 0xA0 r 2) set_gpio_3 m (
            Ensures-map (master_receive hw i2c 0xA0 r 2 m)
              (master_receive-Fetched hw i2c 0xA0 r 2 m isReady)
              (λ _ m' t.
                let (v₀, v₁, two) = two_of t.vs t.count in
                (
                  record {
                    k = o.k;
                    j = o.j;
                    later = t.xs ++ o.later;
                    earlier = o.earlier;
                    sent =
                        subst (λ a. written (trxr a) m'.log ≡ t.xs ++ written (trxr a) m.log) at
                          t.wrote
                        ∙ ap (λ l. t.xs ++ l) o.sent
                        ∙ sym
                            (append_assoc t.xs o.later (write_traffic mem₀ w o.k o.j ++ o.earlier));
                  },
                  record {
                    v₀ = v₀;
                    v₁ = v₁;
                    before = reads_of i2c_data m.log;
                    heard =
                        subst
                          (λ a.
                            reads_of (trxr a) m'.log ≡ latest_first t.vs ++ reads_of (trxr a) m.log)
                          at t.heard
                        ∙ ap (λ l. latest_first l ++ reads_of i2c_data m.log) two;
                    mem = t.mem ∙ (λ i. fill (e i) r (two i));
                  },
                )))
