-- ===== src/Apps/FullPeripheral/Verdict/ToI2c.antt =====
-- The stages of the test of all peripherals up to the use of the I2C core, with its two interrupts.
use mlab_mcu_edu.Prelude.{
  ℕ, ◌≡◌, refl, some, List, [], ◌∷◌, ◌++◌, replicate, false, ◌==◌, is_clear, bit_or,
}
use mlab_mcu_edu.Machine.{Access, read, write, Hardware, Machine, ◌>>=◌}
use mlab_mcu_edu.I2c.{I2cHandle}
use mlab_mcu_edu.Gpio.{gpio_base_addr, gpio_ints, gpio_ctrl}
use mlab_mcu_edu.Timer.{
  timer_init, timer_ack_intrq, timer_clear_ctrl, timer_set, timer_en, set_shadow,
}
use mlab_mcu_edu.Apps.FullPeripheral.{
  TestState, test_start, wait_gpio_8_irq, set_gpio_0, set_timer, wait_timer_irq, set_gpio_1,
  i2c_write_to_eeprom, set_gpio_2, i2c_read_from_eeprom, Globals, step, gpio_handler,
  timer_irq_handler, start_timer, stop_timer,
}
use mlab_mcu_edu.Apps.FullPeripheral.Verdict.{Event, round, gpio_irq, timer_irq, event, run}
use mlab_mcu_edu.Apps.FullPeripheral.Verdict.Stages.{
  Calm, Calm-same, if_true, if_false, Stage, Stage-one, Stage-then, Stage-idle,
}

-- The events up to the use of the I2C core: `a` rounds of waiting for the interrupt of pin 8, and `b`
-- for that of the timer.
abbrev pub to_i2c_events : ℕ → ℕ → List Event
to_i2c_events a b =
    (round ∷ [])
    ++ (replicate a round
        ++ ((gpio_irq ∷ round ∷ [])
            ++ ((round ∷ [])
                ++ ((round ∷ [])
                    ++ (replicate b round ++ ((timer_irq ∷ round ∷ []) ++ (round ∷ [])))))))

module _ (hw : Hardware) (w r u : ℕ) (i2c : I2cHandle) where
  module _ (mem₀ : ℕ → ℕ) where
    -- A round that changes the log alone.
    pub quiet_round :
        (s s' : TestState) (m : Machine Globals) (l : List Access)
        → event hw w r u i2c round s m ≡ some (some s', record m { log = l })
        → Calm mem₀ m
        → Stage hw w r u i2c (round ∷ []) s m s' (Calm mem₀)
    quiet_round s s' m l h c =
        Stage-one hw w r u i2c round s m s' (record m { log = l }) (Calm mem₀) h
          (Calm-same m _ refl refl c)

    step_wait_gpio :
        (m : Machine Globals)
        → is_clear m.app.gpio_int_status 256 ≡ false
        → step hw i2c w r u wait_gpio_8_irq m
          ≡ some (
            some set_gpio_0,
            record m {
              log = write (gpio_ctrl gpio_base_addr) 0 ∷ m.log;
              app = record (m.app) { gpio_int_status = 0 };
            },
          )
    unfolding step
    step_wait_gpio m came = if_false (is_clear m.app.gpio_int_status 256) _ _ m came

    -- The interrupt of pin 8, and the round that sees it.
    pub gpio_came :
        (m : Machine Globals)
        → is_clear (hw.value m.log (gpio_ints gpio_base_addr)) 256 ≡ false
        → Calm mem₀ m
        → Stage hw w r u i2c (gpio_irq ∷ round ∷ []) wait_gpio_8_irq m set_gpio_0 (Calm mem₀)
    unfolding run event gpio_handler
    gpio_came m pin c = record {
      after = record m {
        log =
            write (gpio_ctrl gpio_base_addr) 0
            ∷ write (gpio_ints gpio_base_addr) 0
            ∷ read (gpio_ints gpio_base_addr) (hw.value m.log (gpio_ints gpio_base_addr))
            ∷ m.log;
        app = record (m.app) { gpio_int_status = 0 };
      };
      runs = λ rest. rw (step_wait_gpio _ pin, ◌>>=◌) refl;
      holds = record {
        uart = c.uart;
        flag = c.flag;
        gpio = refl;
        timer = c.timer;
        mem = c.mem;
        addr = c.addr;
      };
    }

    pub timer_came :
        (m : Machine Globals)
        → Calm mem₀ m
        → Stage hw w r u i2c (timer_irq ∷ round ∷ []) wait_timer_irq m set_gpio_1 (Calm mem₀)
    unfolding run event step timer_irq_handler timer_init timer_ack_intrq stop_timer
        timer_clear_ctrl
    timer_came m c = record {
      after = record m {
        log =
            write 0x2000_0000 0
            ∷ write 0x2000_0000 4
            ∷ write 0x2000_0004 0
            ∷ write 0x2000_0000 0
            ∷ m.log;
        app = record (m.app) { timer_int_status = 0; timer_shadow = 0 };
      };
      runs = λ rest. refl;
      holds = record {
        uart = c.uart;
        flag = c.flag;
        gpio = c.gpio;
        timer = refl;
        mem = c.mem;
        addr = c.addr;
      };
    }

    pub timer_started :
        (m : Machine Globals)
        → Calm mem₀ m
        → Stage hw w r u i2c (round ∷ []) set_timer m wait_timer_irq (Calm mem₀)
    unfolding run event step start_timer timer_set timer_en
    timer_started m c = record {
      after = record m {
        log =
            write 0x2000_0000 (bit_or (set_shadow m.app.timer_shadow 0) 3)
            ∷ write 0x2000_0000 (set_shadow m.app.timer_shadow 0)
            ∷ write 0x2000_0004 0x400
            ∷ m.log;
        app = record (m.app) { timer_shadow = bit_or (set_shadow m.app.timer_shadow 0) 3 };
      };
      runs = λ rest. refl;
      holds = record {
        uart = c.uart;
        flag = c.flag;
        gpio = c.gpio;
        timer = c.timer;
        mem = c.mem;
        addr = c.addr;
      };
    }

    -- The rounds and interrupts up to the use of the I2C core, with rounds of waiting for each of the
    -- two interrupts.
    gpio_waits :
        (a : ℕ) (m : Machine Globals)
        → Calm mem₀ m
        → Stage hw w r u i2c (replicate a round) wait_gpio_8_irq m wait_gpio_8_irq (Calm mem₀)
    unfolding event step
    gpio_waits a m c =
        Stage-idle hw w r u i2c a wait_gpio_8_irq m (Calm mem₀)
          (if_true (is_clear m.app.gpio_int_status 256) _ _ m (rw c.gpio refl)) c

    timer_waits :
        (b : ℕ) (m : Machine Globals)
        → Calm mem₀ m
        → Stage hw w r u i2c (replicate b round) wait_timer_irq m wait_timer_irq (Calm mem₀)
    unfolding event step
    timer_waits b m c =
        Stage-idle hw w r u i2c b wait_timer_irq m (Calm mem₀)
          (if_true (m.app.timer_int_status == 0) _ _ m (rw c.timer refl)) c

    starts_off :
        (m : Machine Globals)
        → Calm mem₀ m
        → Stage hw w r u i2c (round ∷ []) test_start m wait_gpio_8_irq (Calm mem₀)
    unfolding event step
    starts_off m c = quiet_round test_start wait_gpio_8_irq m _ refl c

    drives_2 :
        (m : Machine Globals)
        → Calm mem₀ m
        → Stage hw w r u i2c (round ∷ []) set_gpio_0 m set_timer (Calm mem₀)
    unfolding event step
    drives_2 m c = quiet_round set_gpio_0 set_timer m _ refl c

    drives_3 :
        (m : Machine Globals)
        → Calm mem₀ m
        → Stage hw w r u i2c (round ∷ []) set_gpio_1 m i2c_write_to_eeprom (Calm mem₀)
    unfolding event step
    drives_3 m c = quiet_round set_gpio_1 i2c_write_to_eeprom m _ refl c

    pub drives_4 :
        (m : Machine Globals)
        → Calm mem₀ m
        → Stage hw w r u i2c (round ∷ []) set_gpio_2 m i2c_read_from_eeprom (Calm mem₀)
    unfolding event step
    drives_4 m c = quiet_round set_gpio_2 i2c_read_from_eeprom m _ refl c

    pub to_i2c :
        (a b : ℕ) (m : Machine Globals)
        → ((l : List Access) → is_clear (hw.value l (gpio_ints gpio_base_addr)) 256 ≡ false)
        → Calm mem₀ m
        → Stage hw w r u i2c (to_i2c_events a b) test_start m i2c_write_to_eeprom (Calm mem₀)
    to_i2c a b m pin c =
        let P = Calm mem₀ in
        Stage-then hw w r u i2c P P (starts_off m c) λ m₁ c₁.
          Stage-then hw w r u i2c P P (gpio_waits a m₁ c₁) λ m₂ c₂.
            Stage-then hw w r u i2c P P (gpio_came m₂ (pin m₂.log) c₂) λ m₃ c₃.
              Stage-then hw w r u i2c P P (drives_2 m₃ c₃) λ m₄ c₄.
                Stage-then hw w r u i2c P P (timer_started m₄ c₄) λ m₅ c₅.
                  Stage-then hw w r u i2c P P (timer_waits b m₅ c₅)
                    λ m₆ c₆. Stage-then hw w r u i2c P P (timer_came m₆ c₆) λ m₇ c₇. drives_3 m₇ c₇
