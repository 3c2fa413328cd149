-- ===== src/Apps/Delay.antt =====
-- The delays of sw/ibex/other_test/uart/core/src/main.c, which watch the 64-bit cycle counter of the
-- core. The counter is a parameter: its value at each of the reads that the program makes, which
-- are of its low half (`mcycle`) and of its high half (`mcycleh`) in turn.
use mlab_mcu_edu.Prelude.{
  ℕ, zero, suc, ◌+◌, ◌-◌, ◌*◌, ◌/◌, ◌%◌, ◌^◌, ◌≤◌, ◌<◌, ◌≡◌, ◌⊎◌, inl, inr, refl, ◌∙◌, ap, Option,
  none, some, true, false, arith, ltb, u32, bit_or,
}
use mlab_mcu_edu.Prelude.Bits.{bit_or-shl}
use native.Mathlib.Decide.{dec_lt}

abbrev pub u64 : ℕ → ℕ
u64 x = x % 2 ^ 64

-- `CPUFreq`
abbrev pub cpu_freq : ℕ
cpu_freq = 80

-- `mcycle | (uint64_t)mcycleh << 32`, from the reads `i` and `suc i`.
unfoldable pub read_cycle : (count : ℕ → ℕ) → ℕ → ℕ
read_cycle count i = bit_or (u32 (count i)) (u64 (u32 (count (suc i) / 2 ^ 32) * 2 ^ 32))

-- The loop of `DELAY_US`, with `n` tests at most; it returns the number of the next read.
unfoldable pub delay_loop : ℕ → (count : ℕ → ℕ) → (i cycle wait : ℕ) → Option ℕ
delay_loop zero count i cycle wait = none
delay_loop (suc n) count i cycle wait = elim (ltb cycle wait) [
  | true ↦ delay_loop n count (i + 2) (read_cycle count i) wait
  | false ↦ some i
]

unfoldable pub delay_us : ℕ → (count : ℕ → ℕ) → (i wait : ℕ) → Option ℕ
delay_us n count i wait =
    let cycle = read_cycle count i in
    delay_loop n count (i + 2) cycle (u64 (u64 (wait * cpu_freq) + cycle))

unfoldable pub delay_ms : ℕ → (count : ℕ → ℕ) → (i wait : ℕ) → Option ℕ
delay_ms n count i wait = delay_us n count i (u64 (wait * 1000))

-- Over `n` pairs of reads from `i` on the counter goes up, below 2^64, and no pair has a carry into
-- the high half between its two reads.
abbrev pub Ticks : (count : ℕ → ℕ) → ℕ → ℕ → Type 0
Ticks count i zero = Unit
Ticks count i (suc n) =
    (count i < count (i + 2))
    × (count i < 2 ^ 64)
    × (count (suc i) / 2 ^ 32 ≡ count i / 2 ^ 32)
    × Ticks count (i + 2) n

read_cycle_lem :
    (count : ℕ → ℕ) (i : ℕ)
    → read_cycle count i ≡ u32 (count i) + u32 (count (suc i) / 2 ^ 32) * 2 ^ 32
unfolding read_cycle
read_cycle_lem count i =
    let h = u32 (count (suc i) / 2 ^ 32) in
    let e : u64 (h * 2 ^ 32) ≡ h * 2 ^ 32 = omega arith in
    ap (bit_or (u32 (count i))) e ∙ bit_or-shl 32 (u32 (count i)) h (omega arith)

read_cycle-count :
    (count : ℕ → ℕ) (i : ℕ)
    → count i < 2 ^ 64
    → count (suc i) / 2 ^ 32 ≡ count i / 2 ^ 32
    → read_cycle count i ≡ count i
read_cycle-count count i small same = read_cycle_lem count i ∙ omega arith

loop_stops :
    (n : ℕ) (count : ℕ → ℕ) (i cycle wait : ℕ)
    → wait ≤ cycle
    → delay_loop (suc n) count i cycle wait ≡ some i
unfolding delay_loop
loop_stops n count i cycle wait late =
    let e : ltb cycle wait ≡ false = ground arith in rw (e, delay_loop) refl

loop_goes_on :
    (n : ℕ) (count : ℕ → ℕ) (i cycle wait : ℕ)
    → cycle < wait
    → delay_loop (suc n) count i cycle wait ≡ delay_loop n count (i + 2) (read_cycle count i) wait
unfolding delay_loop
loop_goes_on n count i cycle wait early =
    let e : ltb cycle wait ≡ true = ground arith in rw (e, delay_loop) refl

two_back : (i : ℕ) → i + 2 - 2 ≡ i
two_back i = omega arith

loop_lem :
    (n : ℕ) (count : ℕ → ℕ) (i wait : ℕ)
    → Ticks count i (suc n)
    → wait ≤ count i + n
    → (j : ℕ) × (delay_loop (suc n) count (i + 2) (read_cycle count i) wait ≡ some (j + 2))
      × (wait ≤ count j)
      × ((j ≡ i) ⊎ (count (j - 2) < wait))
loop_lem zero count i wait (up, small, same, ticks) enough =
    let c = read_cycle-count count i small same in
    (i, loop_stops 0 count (i + 2) (read_cycle count i) wait (omega arith), omega arith, inl refl)
loop_lem (suc n) count i wait (up, small, same, ticks) enough =
    let c = read_cycle-count count i small same in
    elim (dec_lt (count i) wait) [
      | yes early ↦
          let (j, e, reached, tight) = loop_lem n count (i + 2) wait ticks (omega arith) in
          (
            j,
            loop_goes_on (suc n) count (i + 2) (read_cycle count i) wait (omega arith) ∙ e,
            reached,
            elim tight [
              | inl first ↦ inr (rw first (rw (two_back i) early))
              | inr before ↦ inr before
            ],
          )
      | no late ↦ (
        i,
        loop_stops (suc n) count (i + 2) (read_cycle count i) wait (omega arith),
        omega arith,
        inl refl,
      )
    ]

-- Where the counter goes up between the pairs of reads, below 2^64, and never carries into its high
-- half within a pair, and where the end is below 2^64, `DELAY_US` returns, within as many rounds
-- as there are cycles to wait. At the pair of reads on which it returns at least 80 cycles have gone
-- by for each microsecond, and at the pair before, if there is one, they had not.
pub delay_us_lem :
    (n : ℕ) (count : ℕ → ℕ) (i wait : ℕ)
    → Ticks count i (suc n)
    → wait * cpu_freq ≤ n
    → count i + wait * cpu_freq < 2 ^ 64
    → (j : ℕ) × (delay_us (suc n) count i wait ≡ some (j + 2))
      × (count i + wait * cpu_freq ≤ count j)
      × ((j ≡ i) ⊎ (count (j - 2) < count i + wait * cpu_freq))
unfolding delay_us
delay_us_lem n count i wait (up, small, same, ticks) enough fits =
    let e : u64 (u64 (wait * cpu_freq) + count i) ≡ count i + wait * cpu_freq = omega arith in
    let c = read_cycle-count count i small same in
    let (j, d, reached, tight) =
      loop_lem n count i (count i + wait * cpu_freq) (up, small, same, ticks) (omega arith) in
    (
      j,
      ap
            (λ x.
              delay_loop (suc n) count (i + 2) (read_cycle count i)
                (u64 (u64 (wait * cpu_freq) + x)))
            c
          ∙ ap (delay_loop (suc n) count (i + 2) (read_cycle count i)) e
          ∙ d,
      reached,
      tight,
    )

-- A carry within a pair of reads ends the delay: if the low half is read as all ones just before
-- the carry and the high half just after it, the program sees a counter that is almost 2^32 ahead,
-- and a delay of less than 2^32 cycles returns after its first test, however few cycles have gone
-- by since it began.
pub delay_us_torn :
    (n : ℕ) (count : ℕ → ℕ) (i wait h : ℕ)
    → h < 2 ^ 32 - 1
    → count i < (h + 1) * 2 ^ 32 - 1
    → h * 2 ^ 32 ≤ count i
    → count (suc i) / 2 ^ 32 ≡ h
    → count (i + 2) ≡ (h + 1) * 2 ^ 32 - 1
    → count (suc (i + 2)) ≡ (h + 1) * 2 ^ 32
    → 0 < wait
    → wait * cpu_freq < 2 ^ 32
    → delay_us (suc (suc n)) count i wait ≡ some (i + 4)
unfolding delay_us
delay_us_torn n count i wait h small below above same edge carry pos fits =
    let c = read_cycle-count count i (omega arith) (omega arith) in
    let high : count (suc (i + 2)) / 2 ^ 32 ≡ h + 1 = omega arith in
    let low : u32 (count (i + 2)) ≡ 2 ^ 32 - 1 = omega arith in
    let ahead : read_cycle count (i + 2) ≡ 2 ^ 32 - 1 + (h + 1) * 2 ^ 32 =
      read_cycle_lem count (i + 2) ∙ rw (high, low) (omega arith) in
    let end = u64 (u64 (wait * cpu_freq) + read_cycle count i) in
    let e : end ≡ wait * cpu_freq + count i = rw c (omega arith) in
    loop_goes_on (suc n) count (i + 2) (read_cycle count i) end (omega arith)
    ∙ loop_stops n count (i + 2 + 2) (read_cycle count (i + 2)) end (omega arith)
    ∙ ap some (omega arith)
