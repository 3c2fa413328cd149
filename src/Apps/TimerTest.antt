-- ===== src/Apps/TimerTest.antt =====
-- The tests of the timer. sw/ibex/other_test/timer/core: `main` of src/main.c and `TIMER_IRQHandler` of
-- src/int.c, on the driver of Timer; the pointer and the shadow of the control register are passed on.
-- sw/ibex/other_test/timer_handler_and_callback: `main` and the callback of core/src/main.c, the entry
-- of core/src/int.c and the driver drivers/src/timer.c, version 0.1, which keeps no shadow.
use mlab_mcu_edu.Prelude.{ℕ, zero, suc, ◌≡◌, refl, List, [], ◌∷◌, ◌++◌, bit_or}
use mlab_mcu_edu.Machine.{Machine, Cmd, pure, ◌>>=◌, ◌>>◌, store}
use mlab_mcu_edu.Machine.Runs.{Does, Does->>=, Sent-trans}
use mlab_mcu_edu.Machine.Series.{interrupts}
use mlab_mcu_edu.Timer.{
  timer_base_addr, timer_ctrl, timer_mod, timer_ctrl_cnt_en, timer_ctrl_ena_int, timer_ctrl_flag,
  timer_ctrl_pre_scalr, timer_init, timer_ack_intrq, set_shadow, timer_set, timer_en,
}

module _ {G : Type 0} where
  unfoldable pub timer_test_main : Cmd G (ℕ × ℕ)
  timer_test_main = do
    t ← timer_init
    shadow ← timer_set t.0 t.1 0x20 0xF
    shadow' ← timer_en t.0 shadow
    pure (t.0, shadow')

  unfoldable pub timer_test_irq : ℕ × ℕ → Cmd G (ℕ × ℕ)
  timer_test_irq (t, shadow) = do
    timer_ack_intrq t
    shadow' ← timer_set t shadow 0x10 0x04
    pure (t, shadow')

  -- The handle of version 0.1 is the address of the registers.
  unfoldable pub timer_handle_init : Cmd G ℕ
  timer_handle_init = pure timer_base_addr

  unfoldable pub timer_handle_irq : ℕ → Cmd G (Unit {0})
  timer_handle_irq regs = store (timer_ctrl regs) timer_ctrl_flag

  unfoldable pub handle_test_main : Cmd G ℕ
  handle_test_main = do
    regs ← timer_handle_init
    store (timer_mod regs) 0x20
    store (timer_ctrl regs)
        (bit_or (bit_or (timer_ctrl_pre_scalr 0x2) timer_ctrl_cnt_en) timer_ctrl_ena_int)
    pure regs

  unfoldable pub timer_irq_callback : ℕ → Cmd G (Unit {0})
  timer_irq_callback regs = do
    store (timer_mod regs) 0xFFFF
    store (timer_ctrl regs)
        (bit_or (bit_or (timer_ctrl_pre_scalr 0xF) timer_ctrl_cnt_en) timer_ctrl_ena_int)

  unfoldable pub handle_test_irq : ℕ → Cmd G ℕ
  handle_test_irq regs = do timer_handle_irq regs; timer_irq_callback regs; pure regs

-- What an interrupt of each test writes, the latest first, and `n` of them.
abbrev pub retuned : (value modulo : ℕ) → List (ℕ × ℕ)
retuned value modulo =
    (timer_ctrl timer_base_addr, value)
    ∷ (timer_mod timer_base_addr, modulo)
    ∷ (timer_ctrl timer_base_addr, timer_ctrl_flag)
    ∷ []

abbrev pub retuned_often : ℕ → (value modulo : ℕ) → List (ℕ × ℕ)
retuned_often zero value modulo = []
retuned_often (suc n) value modulo = retuned_often n value modulo ++ retuned value modulo

-- What `main` of each test writes.
abbrev pub first_tuned : List (ℕ × ℕ)
first_tuned =
    (timer_ctrl timer_base_addr, 0xF03)
    ∷ (timer_ctrl timer_base_addr, 0xF00)
    ∷ (timer_mod timer_base_addr, 0x20)
    ∷ (timer_mod timer_base_addr, 0)
    ∷ (timer_ctrl timer_base_addr, 0)
    ∷ []

module _ {G : Type 0} where
  -- An interrupt handler that writes the same each time, and leaves its handle as it is.
  interrupts-same :
      {H : Type 0} (irq : H → Cmd G H) (h : H) (value modulo : ℕ)
      → ((m : Machine G) → Does (irq h) m (retuned value modulo) h)
      → (n : ℕ) (m : Machine G) → Does (interrupts irq n h) m (retuned_often n value modulo) h
  unfolding interrupts
  interrupts-same irq h value modulo one zero m =
      (m, refl, record { wrote = refl; mem = refl; app = refl; cpu = refl })
  interrupts-same irq h value modulo one (suc n) m =
      let (m₁, e₁, s₁) = one m in
      let (m₂, e₂, s₂) = interrupts-same irq h value modulo one n m₁ in
      (m₂, rw (e₁, ◌>>=◌) e₂, Sent-trans s₁ s₂)

  test_irq_one :
      (shadow : ℕ) (m : Machine G)
      → set_shadow shadow 4 ≡ 0x403
      → Does
          (timer_test_irq (timer_base_addr, shadow))
          m
          (retuned 0x403 0x10)
          (timer_base_addr, 0x403)
  unfolding timer_test_irq timer_ack_intrq timer_set
  test_irq_one shadow m e =
      rw e (_, refl, record { wrote = refl; mem = refl; app = refl; cpu = refl })

  test_main_lem : (m : Machine G) → Does timer_test_main m first_tuned (timer_base_addr, 0xF03)
  unfolding timer_test_main timer_init timer_set timer_en set_shadow
  test_main_lem m = (_, refl, record { wrote = refl; mem = refl; app = refl; cpu = refl })

  -- `main` of other_test/timer sets the timer up with the modulo 0x20 and the largest prescaler, and
  -- turns it on with its interrupt. Any number of interrupts after it, from one on, each acknowledge
  -- the interrupt by the flag bit alone, set the modulo to 0x10, and give the control register the
  -- prescaler 4 with both enable bits, which the acknowledgement had cleared in the register and the
  -- shadow has kept. Nothing else is written.
  pub timer_test_lem :
      (n : ℕ) (m : Machine G)
      → Does
          (timer_test_main >>= interrupts timer_test_irq (suc n))
          m
          (retuned_often (suc n) 0x403 0x10 ++ first_tuned)
          (timer_base_addr, 0x403)
  unfolding interrupts set_shadow
  timer_test_lem n m =
      Does->>= timer_test_main (interrupts timer_test_irq (suc n)) m (test_main_lem m) λ m₁ _.
        Does->>= (timer_test_irq (timer_base_addr, 0xF03)) (interrupts timer_test_irq n) m₁
          (test_irq_one 0xF03 m₁ refl)
          λ m₂ _.
            interrupts-same timer_test_irq (timer_base_addr, 0x403) 0x403 0x10
              (λ m'. test_irq_one 0x403 m' refl) n m₂

  -- `main` of the test with handler and callback, and any number of interrupts after it: each writes
  -- the flag bit, the modulo 0xFFFF, and the largest prescaler with both enable bits.
  pub handle_test_lem :
      (n : ℕ) (m : Machine G)
      → Does
          (handle_test_main >>= interrupts handle_test_irq n)
          m
          (retuned_often n 0xF03 0xFFFF
            ++ ((timer_ctrl timer_base_addr, 0x203) ∷ (timer_mod timer_base_addr, 0x20) ∷ []))
          timer_base_addr
  unfolding handle_test_main handle_test_irq timer_handle_init timer_handle_irq timer_irq_callback
  handle_test_lem n m =
      Does->>= handle_test_main (interrupts handle_test_irq n) m
        (_, refl, record { wrote = refl; mem = refl; app = refl; cpu = refl })
        λ m₁ _.
          interrupts-same handle_test_irq timer_base_addr 0xF03 0xFFFF
            (λ m'. (_, refl, record { wrote = refl; mem = refl; app = refl; cpu = refl })) n m₁
