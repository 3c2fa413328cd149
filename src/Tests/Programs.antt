-- ===== src/Tests/Programs.antt =====
-- Examples on the delays and on the test of the instruction memory.
use mlab_mcu_edu.Prelude.{
  ℕ, zero, suc, ◌+◌, ◌-◌, ◌*◌, ◌^◌, ◌≤◌, ◌<◌, ◌≡◌, ◌⊎◌, refl, some, [], arith,
}
use mlab_mcu_edu.Machine.{Machine}
use mlab_mcu_edu.Machine.Runs.{Returned}
use mlab_mcu_edu.Apps.Delay.{cpu_freq, delay_us, Ticks, delay_us_lem, delay_us_torn}
use mlab_mcu_edu.Apps.ImemHop.{HopGlobals, hop_main}
use mlab_mcu_edu.Apps.ImemHop.Run.{gpio_block, Hopped, hop_main-Hopped}
use mlab_mcu_edu.Tests.{start}

-- A counter that is one further at each read.
by_one : (n i : ℕ) → i + 2 * n < 2 ^ 32 → Ticks (λ j. j) i n
by_one zero i h = tt
by_one (suc n) i h = (omega arith, omega arith, omega arith, by_one n (i + 2) (omega arith))

delay_us_lem_example :
    (j : ℕ) × (delay_us 81 (λ j. j) 10 1 ≡ some (j + 2))
    × (10 + 1 * cpu_freq ≤ j)
    × ((j ≡ 10) ⊎ (j - 2 < 10 + 1 * cpu_freq))
delay_us_lem_example =
    delay_us_lem 80 (λ j. j) 10 1 (by_one 81 10 (omega arith)) (omega arith) (omega arith)

-- A second that ends after four reads.
delay_us_torn_example : delay_us 2 (λ j. j + (2 ^ 32 - 3)) 0 1_000_000 ≡ some 4
delay_us_torn_example =
    delay_us_torn 0 (λ j. j + (2 ^ 32 - 3)) 0 1_000_000 0 (omega arith) (omega arith) (omega arith)
      (omega arith) (omega arith) (omega arith) (omega arith) (omega arith)

abbrev hopping : Machine HopGlobals
hopping = record {
  log = [];
  mem = start.mem;
  cpu = start.cpu;
  app = record { g_gpio_handle = record { regs = 0; interrupt_status = 0 }; g_main_flag = 0 };
}

hop_main-Hopped_example : Returned (Hopped hopping) (hop_main (gpio_block 0) 2 4 hopping)
hop_main-Hopped_example = hop_main-Hopped 2 4 0 hopping (omega arith) (omega arith) refl
