-- ===== src/Gpio/Pins.antt =====
-- The output pins, bit by bit.
use mlab_mcu_edu.Prelude.{
  ℕ, ◌+◌, ◌-◌, ◌^◌, ◌%◌, ◌<◌, ◌≡◌, refl, ap, ◌∙◌, ◌==◌, if◌then◌else◌, some, ◌∷◌, arith, max,
  bit_xor, not32,
}
use mlab_mcu_edu.Prelude.Bits.{bit, bit-or, bit-and, bit-xor, bit-not32, bit-lt-two}
use mlab_mcu_edu.Machine.{read, write, Hardware, Machine}
use mlab_mcu_edu.Machine.Runs.{ReadsBack}
use mlab_mcu_edu.Gpio.{
  GpioHandle, PinState, pin_reset, pin_set, gpio_out, gpio_write_pin, gpio_toggle,
}

-- The level that a pin has after `GPIO_WritePin`: driven where the mask selects it, else kept.
abbrev pub pin_level : PinState → (selected old : ℕ) → ℕ
pin_level pin_set selected old = max old selected
pin_level pin_reset selected old = old - selected

module _ {G : Type 0} (hw : Hardware) where
  -- `GPIO_WritePin` writes the output register once, and pin `i` of what it writes is high after a
  -- set and low after a reset if the mask selects it, and as it read before if not, for masks and
  -- readings of 32 bits.
  pub write_pin-level :
      (gpio : GpioHandle) (pin i : ℕ) (s : PinState) (m : Machine G)
      → pin < 2 ^ 32
      → i < 32
      → let a = gpio_out gpio.regs in
        let v = hw.value m.log a in
        (w : ℕ) × (gpio_write_pin hw gpio pin s m
          ≡ some (tt, record m { log = write a w ∷ read a v ∷ m.log }))
        × (bit i w ≡ pin_level s (bit i pin) (bit i v))
  unfolding gpio_write_pin
  write_pin-level gpio pin i pin_set m hp hi = (_, refl, bit-or i _ pin)
  write_pin-level gpio pin i pin_reset m hp hi = (
    _,
    refl,
    omega (arith, bit-and i v (not32 pin), bit-not32 i pin hi hp, bit-lt-two i v, bit-lt-two i pin),
  )
    where
      v : ℕ
      v = hw.value m.log (gpio_out gpio.regs)

  -- Where the output register reads as it was last written, a call of `GPIO_Toggle` flips the pins
  -- that the mask selects and keeps the others, and a second call with that mask leaves every pin as
  -- the first call read it.
  pub toggle-toggle :
      (gpio : GpioHandle) (pin : ℕ) (m : Machine G)
      → ReadsBack hw (gpio_out gpio.regs)
      → (i : ℕ)
      → let a = gpio_out gpio.regs in
        let v = hw.value m.log a in
        (m₁ m₂ : Machine G) × (gpio_toggle hw gpio pin m ≡ some (tt, m₁))
        × (gpio_toggle hw gpio pin m₁ ≡ some (tt, m₂))
        × (bit i (hw.value m₁.log a) ≡ (if bit i pin == 1 then 1 - bit i v else bit i v))
        × (bit i (hw.value m₂.log a) ≡ bit i v)
  unfolding gpio_toggle
  toggle-toggle gpio pin m back i =
      let a = gpio_out gpio.regs in
      let v = hw.value m.log a in
      let l₀ = read a v ∷ m.log in
      let l₁ = write a (bit_xor v pin) ∷ l₀ in
      let v' = hw.value l₁ a in
      let once : v' ≡ bit_xor v pin = back l₀ (bit_xor v pin) in
      let twice = back (read a v' ∷ l₁) (bit_xor v' pin) in
      let flip : bit i v' ≡ (bit i v + bit i pin) % 2 = ap (bit i) once ∙ bit-xor i v pin in
      let again : bit i (bit_xor v' pin) ≡ (bit i v' + bit i pin) % 2 = bit-xor i v' pin in
      (
        record m { log = l₁ },
        record m { log = write a (bit_xor v' pin) ∷ read a v' ∷ l₁ },
        refl,
        refl,
        ground (arith, flip, bit-lt-two i v, bit-lt-two i pin),
        ap (bit i) twice ∙ omega (arith, flip, again, bit-lt-two i v, bit-lt-two i pin),
      )
