-- ===== src/Apps/I2cProduct/Product.antt =====
-- The two bytes that were read, and their product, written back to the slave.
use mlab_mcu_edu.Prelude.{ℕ, ◌+◌, ◌≤◌, ◌⊎◌, u32}
use mlab_mcu_edu.Machine.{Machine}
use mlab_mcu_edu.Machine.Buffers.{set_byte}

-- Arrays of five bytes at `w` and of two at `d` that do not overlap.
abbrev pub Apart : (w d : ℕ) → Type 0
Apart w d = (w + 5 ≤ d) ⊎ (d + 2 ≤ w)

-- Memory after the five bytes at `w` but the first were stored.
abbrev stored : (ℕ → ℕ) → (w x y hi lo : ℕ) → ℕ → ℕ
stored mem w x y hi lo =
    set_byte (set_byte (set_byte (set_byte mem (u32 (w + 1)) x) (u32 (w + 2)) y) (u32 (w + 4)) lo)
      (u32 (w + 3)) hi
