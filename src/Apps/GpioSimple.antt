-- ===== src/Apps/GpioSimple.antt =====
-- The simple GPIO example, sw/ibex/test/gpio_simple/core/src/gpio.c: a count, and a light that walks
-- along four pins when pin 3 has interrupted.
pub mod Walks
use mlab_mcu_edu.Prelude.{
  ℕ, zero, suc, ◌+◌, ◌*◌, ◌^◌, none, List, [], ◌∷◌, ◌==◌, ltb, if◌then◌else◌, u32,
}
use mlab_mcu_edu.Machine.{Hardware, Cmd, pure, ◌>>=◌, ◌>>◌, load, store, get_app, put_app}

-- The globals of the file.
pub record SimpleGlobals : Type 0 where
  pub counter : ℕ
  pub stepper : ℕ
  pub gpio_int_status : ℕ

-- `gpio_regs + i`, a pointer to words from `GPIO_ADDR`.
abbrev pub gpio_reg : ℕ → ℕ
gpio_reg i = 0x4000_0000 + 4 * i

-- `while (counter < 10) counter++;`, with at most `n` tests of the counter.
unfoldable pub count_up : ℕ → Cmd SimpleGlobals (Unit {0})
count_up zero = λ m. none
count_up (suc n) = do
  g ← get_app
  let rest = count_up n in
      if ltb g.counter 10 then put_app (record g { counter = g.counter + 1 }) >> rest else pure tt

-- `main` up to its loop, with `result`. Eleven tests are enough for every counter.
unfoldable pub simple_setup : Cmd SimpleGlobals ℕ
simple_setup = do
  count_up 11
  g ← get_app
  store (gpio_reg 6) 0x01
  store (gpio_reg 3) 0x08
  pure (u32 (g.stepper * g.counter))

-- The `for` loop, from `i` on, with `n` rounds to go.
unfoldable pub walk : (n i : ℕ) → Cmd SimpleGlobals (Unit {0})
walk zero i = pure tt
walk (suc n) i = do
  store (gpio_reg 2) (0x10 * 2 ^ i)
  store (gpio_reg 1) (0x10 * 2 ^ i)
  walk n (suc i)

-- One round of the loop of `main`.
unfoldable pub simple_round : Cmd SimpleGlobals (Unit {0})
simple_round = do
  g ← get_app
  if g.gpio_int_status == 8 then put_app (record g { gpio_int_status = 0 }) >> walk 4 0 else pure tt

-- `gpio_handler`
unfoldable pub simple_gpio_handler : Hardware → Cmd SimpleGlobals (Unit {0})
simple_gpio_handler hw = do
  status ← load hw (gpio_reg 7)
  g ← get_app
  put_app (record g { gpio_int_status = status })
  store (gpio_reg 7) 0

-- A round of the loop, or an interrupt before the next one.
pub data SimpleEvent : Type 0 where
  round gpio_irq : SimpleEvent

module _ (hw : Hardware) where
  unfoldable pub simple_event : SimpleEvent → Cmd SimpleGlobals (Unit {0})
  simple_event round = simple_round
  simple_event gpio_irq = simple_gpio_handler hw

  unfoldable pub simple_run : List SimpleEvent → Cmd SimpleGlobals (Unit {0})
  simple_run [] = pure tt
  simple_run (e ∷ es) = simple_event e >> simple_run es

  -- `main`, with the events of its loop.
  unfoldable pub simple_main : List SimpleEvent → Cmd SimpleGlobals (Unit {0})
  simple_main es = simple_setup >>= λ result. simple_run es
