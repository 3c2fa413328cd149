-- ===== src/Prelude/Bits.antt =====
-- The bits of `&`, `|`, `^` and `~` at variables: one equation for the lowest digit of each native
-- operation, and from it one law for each bit.
use Prim.Native.Nat.{
  ℕ, zero, suc, ◌+◌, ◌-◌, ◌*◌, ◌/◌, ◌%◌, ◌^◌, ◌≤◌, ◌<◌, min, max, digits, bitwise, bit_and, bit_or,
  bit_xor, bit_and-bitwise, bit_or-bitwise, bit_xor-bitwise, differ,
}
use mathlib.Core.Path.{◌≡◌, refl, ◌∙◌, ap}
use mathlib.Core.Bool.{Bool, true, ◌&&◌}
use native.Mathlib.Decide.{dec_lt}
use native.Mathlib.Nat.{pow-suc, zero-add}
use native.Mathlib.Omega.{arith}

-- `digits` looks at one digit of its first operand for each unit of fuel, so fuel beyond the operand
-- itself is left over.
module _ (rest : ℕ → ℕ) (op : ℕ → ℕ → ℕ) where
  spare_unit : (k x y : ℕ) → x ≤ k → digits rest op (suc k) x y ≡ digits rest op k x y
  spare_unit zero zero y le = refl
  spare_unit zero (suc x) y le = absurd (omega arith)
  spare_unit (suc k) zero y le = refl
  spare_unit (suc k) (suc x) y le =
      ap (λ r. r * 2 + op (suc x % 2) (y % 2)) (spare_unit k (suc x / 2) (y / 2) (omega arith))

  own_fuel : (k x y : ℕ) → x ≤ k → digits rest op k x y ≡ bitwise rest op x y
  own_fuel zero zero y le = refl
  own_fuel zero (suc x) y le = absurd (omega arith)
  own_fuel (suc k) x y le = elim (dec_lt k x) [
    | yes top ↦ let e : suc k ≡ x = omega arith in ap (λ n. digits rest op n x y) e
    | no below ↦ spare_unit k x y (omega arith) ∙ own_fuel k x y (omega arith)
  ]

  lowest_digit :
      (x y : ℕ)
      → bitwise rest op (suc x) y ≡ op (suc x % 2) (y % 2) + 2 * bitwise rest op (suc x / 2) (y / 2)
  lowest_digit x y = omega (arith, own_fuel x (suc x / 2) (y / 2) (omega arith))

bit_or_low : (x y : ℕ) → bit_or x y ≡ max (x % 2) (y % 2) + 2 * bit_or (x / 2) (y / 2)
bit_or_low zero y = simp bit_or-bitwise (omega arith)
bit_or_low (suc x) y = simp bit_or-bitwise (lowest_digit (λ r. r) max x y)

bit_and_low : (x y : ℕ) → bit_and x y ≡ min (x % 2) (y % 2) + 2 * bit_and (x / 2) (y / 2)
bit_and_low zero y = simp bit_and-bitwise (omega arith)
bit_and_low (suc x) y = simp bit_and-bitwise (lowest_digit (λ _. 0) min x y)

bit_xor_low : (x y : ℕ) → bit_xor x y ≡ differ (x % 2) (y % 2) + 2 * bit_xor (x / 2) (y / 2)
bit_xor_low zero y = simp bit_xor-bitwise (ground arith)
bit_xor_low (suc x) y = simp bit_xor-bitwise (lowest_digit (λ r. r) differ x y)

-- Bit `i` of a word, as 0 or 1.
abbrev pub bit : ℕ → ℕ → ℕ
bit zero a = a % 2
bit (suc i) a = bit i (a / 2)

pub bit-or : (i a b : ℕ) → bit i (bit_or a b) ≡ max (bit i a) (bit i b)
bit-or zero a b = omega (arith, bit_or_low a b)
bit-or (suc i) a b = ap (bit i) (omega (arith, bit_or_low a b)) ∙ bit-or i (a / 2) (b / 2)

pub bit-and : (i a b : ℕ) → bit i (bit_and a b) ≡ min (bit i a) (bit i b)
bit-and zero a b = omega (arith, bit_and_low a b)
bit-and (suc i) a b = ap (bit i) (omega (arith, bit_and_low a b)) ∙ bit-and i (a / 2) (b / 2)

pub bit-lt-two : (i a : ℕ) → bit i a < 2
bit-lt-two zero a = omega arith
bit-lt-two (suc i) a = bit-lt-two i (a / 2)

differ_digits : (a b : ℕ) → a < 2 → b < 2 → differ a b ≡ (a + b) % 2
differ_digits zero b h k = omega arith
differ_digits (suc zero) zero h k = refl
differ_digits (suc zero) (suc zero) h k = refl
differ_digits (suc zero) (suc (suc b)) h k = absurd (omega arith)
differ_digits (suc (suc a)) b h k = absurd (omega arith)

-- `^` adds bit by bit, with no carry.
pub bit-xor : (i a b : ℕ) → bit i (bit_xor a b) ≡ (bit i a + bit i b) % 2
bit-xor zero a b =
    omega (arith, bit_xor_low a b, differ_digits (a % 2) (b % 2) (omega arith) (omega arith))
bit-xor (suc i) a b =
    ap (bit i)
      (omega (arith, bit_xor_low a b, differ_digits (a % 2) (b % 2) (omega arith) (omega arith)))
    ∙ bit-xor i (a / 2) (b / 2)

-- `~a` of a `w`-bit word flips each of its bits.
bit-not_width : (i w a : ℕ) → i < w → a < 2 ^ w → bit i (2 ^ w - 1 - a) ≡ 1 - bit i a
bit-not_width i zero a h k = absurd (omega arith)
bit-not_width zero (suc w) a h k = omega (arith, pow-suc 2 w)
bit-not_width (suc i) (suc w) a h k =
    ap (bit i) (omega (arith, pow-suc 2 w))
    ∙ bit-not_width i w (a / 2) (omega arith) (omega (arith, pow-suc 2 w))

pub bit-not32 : (i a : ℕ) → i < 32 → a < 2 ^ 32 → bit i (2 ^ 32 - 1 - a) ≡ 1 - bit i a
bit-not32 i a h k = bit-not_width i 32 a h k

shift_more : (k x : ℕ) → x * 2 ^ suc k ≡ x * 2 ^ k + x * 2 ^ k
shift_more k x = omega (arith, ap {A = ℕ} (λ p. x * p) (pow-suc 2 k))

-- Over a small range, check every value by evaluation.
unfoldable pub all_below : ℕ → (ℕ → Bool) → Bool
all_below zero p = true
all_below (suc n) p = p n && all_below n p

pub all_below_sound : (n : ℕ) (p : ℕ → Bool) (a : ℕ) → all_below n p ≡ true → a < n → p a ≡ true
unfolding all_below
all_below_sound zero p a h lt = absurd (omega arith)
all_below_sound (suc n) p a h lt = ground (arith, all_below_sound n p a)

-- `x << k`: the bits of `x` from `k` on, and zeros below.
pub bit-shl : (k i j x : ℕ) → j ≡ k + i → bit j (x * 2 ^ k) ≡ bit i x
bit-shl zero i j x e = rw (e ∙ zero-add i) (ap (bit i) (omega arith))
bit-shl (suc k) i zero x e = absurd (omega arith)
bit-shl (suc k) i (suc j) x e =
    ap (bit j) (omega (arith, shift_more k x)) ∙ bit-shl k i j x (omega arith)

pub bit-shl_below : (k j x : ℕ) → j < k → bit j (x * 2 ^ k) ≡ 0
bit-shl_below zero j x h = absurd (omega arith)
bit-shl_below (suc k) zero x h = omega (arith, shift_more k x)
bit-shl_below (suc k) (suc j) x h =
    ap (bit j) (omega (arith, shift_more k x)) ∙ bit-shl_below k j x (omega arith)

-- A word below `2 ^ k` and one shifted by `k` have no bit in common.
pub bit_or-shl : (k lo hi : ℕ) → lo < 2 ^ k → bit_or lo (hi * 2 ^ k) ≡ lo + hi * 2 ^ k
bit_or-shl zero lo hi h = let e : lo ≡ 0 = omega arith in rw e (simp bit_or-bitwise (omega arith))
bit_or-shl (suc k) lo hi h =
    let half : lo / 2 < 2 ^ k = omega (arith, pow-suc 2 k) in
    let shifted : hi * 2 ^ suc k / 2 ≡ hi * 2 ^ k = omega (arith, shift_more k hi) in
    let even : hi * 2 ^ suc k % 2 ≡ 0 = omega (arith, shift_more k hi) in
    bit_or_low lo (hi * 2 ^ suc k)
    ∙ rw (shifted, even) (rw (bit_or-shl k (lo / 2) hi half) (omega (arith, shift_more k hi)))
