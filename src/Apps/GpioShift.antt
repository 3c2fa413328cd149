-- ===== src/Apps/GpioShift.antt =====
-- The GPIO example, sw/ibex/test/gpio/core/src/main.c: two buttons that move a light along the pins
-- in one direction or the other.
use mlab_mcu_edu.Prelude.{
  ℕ, ◌^◌, ◌≡◌, refl, some, List, [], ◌∷◌, ◌++◌, Bool-cases, inl, inr, ◌==◌, if◌then◌else◌, is_clear,
  bit_or,
}
use mlab_mcu_edu.Machine.{Machine, Hardware, Cmd, pure, ◌>>=◌, ◌>>◌, store, get_app, put_app}
use mlab_mcu_edu.Machine.Runs.{writes}
use mlab_mcu_edu.Machine.Buffers.{sent_log}
use mlab_mcu_edu.Gpio.{
  GpioHandle, gpio_out, gpio_oe, gpio_inte, gpio_ctrl, gpio_ints, gpio_init, gpio_irq_handler,
}

-- The flags that the interrupt sets.
pub record Shifts : Type 0 where
  pub shift_right : ℕ
  pub shift_left : ℕ

-- `GPIO_EXTI_Callback`
unfoldable pub exti_callback : GpioHandle → Cmd Shifts GpioHandle
exti_callback gpio = do
  g ← get_app
  let g₁ = if is_clear gpio.interrupt_status (2 ^ 6) then g else record g { shift_right = 1 }
  let g₂ = if is_clear gpio.interrupt_status (2 ^ 7) then g₁ else record g₁ { shift_left = 1 }
  put_app g₂
  pure gpio

-- `main` up to its loop.
unfoldable pub main_init : GpioHandle → Cmd Shifts GpioHandle
main_init gpio₀ = do
  let gpio = gpio_init gpio₀
  store (gpio_oe gpio.regs) 0x3F
  store (gpio_ctrl gpio.regs) 1
  store (gpio_inte gpio.regs) (bit_or (2 ^ 6) (2 ^ 7))
  pure gpio

-- The values that a round writes to the output register.
unfoldable pub show : GpioHandle → List ℕ → Cmd Shifts (Unit {0})
show gpio [] = pure tt
show gpio (v ∷ vs) = store (gpio_out gpio.regs) v >> show gpio vs

abbrev pub rightwards : List ℕ
rightwards = 2 ∷ 4 ∷ 8 ∷ 16 ∷ 32 ∷ []

abbrev pub leftwards : List ℕ
leftwards = 32 ∷ 16 ∷ 8 ∷ 4 ∷ 2 ∷ []

-- One round of the loop of `main`.
unfoldable pub shift_round : GpioHandle → Cmd Shifts (Unit {0})
shift_round gpio = do
  g ← get_app
  if g.shift_right == 0
      then (if g.shift_left == 0
          then pure tt
          else (put_app (record g { shift_left = 0 }) >> show gpio leftwards))
      else (put_app (record g { shift_right = 0 }) >> show gpio rightwards)

abbrev pub not_pressed : Shifts
not_pressed = record { shift_right = 0; shift_left = 0 }

-- With no press pending, an interrupt whose status has the bits 6 and 7 as the buttons were pressed
-- is answered by the next two rounds: first the light goes right if button 6 was pressed, then it
-- goes left if button 7 was, and then no press is pending. Besides, the interrupt status was
-- cleared, and nothing else was written.
pub shift_round_lem :
    (hw : Hardware) (gpio : GpioHandle) (m : Machine Shifts)
    → m.app ≡ not_pressed
    → let status = hw.value m.log (gpio_ints gpio.regs) in
      let out = gpio_out gpio.regs in
      let right = if is_clear status (2 ^ 6) then [] else rightwards in
      let left = if is_clear status (2 ^ 7) then [] else leftwards in
      (m' : Machine Shifts) × ((gpio_irq_handler hw exti_callback gpio >>= λ h.
      shift_round h >> shift_round h)
          m
        ≡ some (tt, m'))
      × (writes m'.log
          ≡ sent_log out left ++ (sent_log out right ++ ((gpio_ints gpio.regs, 0) ∷ writes m.log)))
      × (m'.app ≡ not_pressed)
      × (m'.mem ≡ m.mem)
unfolding gpio_irq_handler exti_callback shift_round show
shift_round_lem hw gpio m idle =
    let status = hw.value m.log (gpio_ints gpio.regs) in
    elim (Bool-cases (is_clear status (2 ^ 6))) [
      | inl six ↦ elim (Bool-cases (is_clear status (2 ^ 7))) [
        | inl seven ↦ rw (idle, six, seven) (_, refl, refl, refl, refl)
        | inr seven ↦ rw (idle, six, seven) (_, refl, refl, refl, refl)
      ]
      | inr six ↦ elim (Bool-cases (is_clear status (2 ^ 7))) [
        | inl seven ↦ rw (idle, six, seven) (_, refl, refl, refl, refl)
        | inr seven ↦ rw (idle, six, seven) (_, refl, refl, refl, refl)
      ]
    ]
