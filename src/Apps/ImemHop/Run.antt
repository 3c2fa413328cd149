-- ===== src/Apps/ImemHop/Run.antt =====
-- The run of the test: the hops come back, and the pins light in a fixed order.
use mlab_mcu_edu.Prelude.{
  ℕ, suc, ◌-◌, ◌≤◌, ◌≡◌, refl, subst, arith, List, [], ◌∷◌, ◌==◌, if◌then◌else◌,
}
use mlab_mcu_edu.Machine.{Access, read, write, Hardware, Machine}
use mlab_mcu_edu.Gpio.{gpio_base_addr, gpio_ints, gpio_oe, gpio_out}
use mlab_mcu_edu.Apps.ImemHop.{
  HopGlobals, hop_handle_init, hop_gpio_irq, imem_call_0_again, imem_call_3, imem_call_2,
  imem_call_1, imem_call_0, hop_loop, hop_main,
}
use mlab_mcu_edu.Machine.Runs.{written, Returned}

-- GPIO registers that read as they were last written, with pin 8 in the interrupt status.
abbrev last_value : ℕ → List Access → ℕ
last_value a [] = 0
last_value a (read b v ∷ l) = last_value a l
last_value a (write b v ∷ l) = if a == b then v else last_value a l

abbrev pub gpio_block : ℕ → Hardware
gpio_block polls = record {
  value = λ l a. if a == gpio_ints gpio_base_addr then 0x100 else last_value a l;
  polls = polls;
}

-- The test has passed: what the output and the enable register of the GPIO were given.
abbrev pub Hopped : Machine HopGlobals → ℕ → Machine HopGlobals → Type 0
Hopped m r m' =
    (r ≡ 0)
    × (written (gpio_out gpio_base_addr) m'.log
        ≡ 0xFF
          ∷ 0x7F
          ∷ 0x7F
          ∷ 0x5F
          ∷ 0x1F
          ∷ 0xF
          ∷ 0x7
          ∷ 0x3
          ∷ 0x1
          ∷ 0x1
          ∷ written (gpio_out gpio_base_addr) m.log)
    × (written (gpio_oe gpio_base_addr) m'.log
        ≡ 0xFF
          ∷ 0x7F
          ∷ 0x7F
          ∷ 0x5F
          ∷ 0x1F
          ∷ 0xF
          ∷ 0x7
          ∷ 0x3
          ∷ 0x1
          ∷ 0x1
          ∷ written (gpio_oe gpio_base_addr) m.log)
    × (m'.app.g_main_flag ≡ 1)
    × (m'.mem ≡ m.mem)

hop_run :
    (depth rounds polls : ℕ) (m : Machine HopGlobals)
    → m.app.g_main_flag ≡ 0
    → Returned
        (Hopped m)
        (hop_main (gpio_block polls) (suc (suc depth)) (suc (suc (suc (suc rounds)))) m)
unfolding hop_handle_init hop_gpio_irq imem_call_0_again imem_call_3 imem_call_2 imem_call_1
    imem_call_0 hop_loop hop_main
hop_run depth rounds polls m e = rw e (refl, refl, refl, refl, refl)

-- From a clear flag, where the GPIO registers read as they were written and the interrupt status
-- shows pin 8 alone, `main` waits for the interrupt, makes all hops and returns 0; the calls of
-- `main` on the way come back at once, so calls two deep and four rounds of the loop are enough.
-- The pins are driven in the order 0, 1, 2, 3, 4, 6, 5, 6, 7, each added to those before, after
-- pin 0 alone from the interrupt, and the output enables go the same way.
pub hop_main-Hopped :
    (depth rounds polls : ℕ) (m : Machine HopGlobals)
    → 2 ≤ depth
    → 4 ≤ rounds
    → m.app.g_main_flag ≡ 0
    → Returned (Hopped m) (hop_main (gpio_block polls) depth rounds m)
hop_main-Hopped depth rounds polls m deep long e =
    subst (λ d. Returned (Hopped m) (hop_main (gpio_block polls) d rounds m)) (omega arith)
      (subst (λ r. Returned (Hopped m) (hop_main (gpio_block polls) (suc (suc (depth - 2))) r m))
        (omega arith) (hop_run (depth - 2) (rounds - 4) polls m e))
