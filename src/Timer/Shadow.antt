-- ===== src/Timer/Shadow.antt =====
-- The shadow of the control register: which bits each function changes, and that the register
-- follows it.
use native.Mathlib.Decide.{dec_lt}
use mlab_mcu_edu.Prelude.{
  ℕ, ◌-◌, ◌<◌, ◌≡◌, refl, some, Bool, true, ◌&&◌, arith, ltb, ◌==◌, if◌then◌else◌, ==_iff, bit_and,
  not32, u8, bit_or,
}
use mlab_mcu_edu.Prelude.Bits.{
  bit, bit-or, bit-and, bit-lt-two, bit-shl, bit-shl_below, all_below, all_below_sound,
}
use mlab_mcu_edu.Machine.{Machine, Cmd, pure, ◌>>◌}
use mlab_mcu_edu.Machine.Runs.{last_write}
use mlab_mcu_edu.Timer.{
  timer_ctrl, timer_ctrl_flag, timer_ctrl_pre_scalr_msk, timer_ctrl_pre_scalr, timer_ack_intrq,
  timer_clear_ctrl, set_shadow, timer_set, timer_en,
}

abbrev pub in_prescaler : ℕ → Bool
in_prescaler i = ltb 7 i && ltb i 12

-- The mask of the prescaler and the mask of its value, bit by bit.
mask_bits :
    all_below 32 (λ i. bit i (not32 timer_ctrl_pre_scalr_msk) == (if in_prescaler i then 0 else 1))
    ≡ true
unfolding all_below
mask_bits = refl

value_bits : all_below 32 (λ i. bit i 0xF == (if ltb i 4 then 1 else 0)) ≡ true
unfolding all_below
value_bits = refl

bit-pre_scalr :
    (v i : ℕ)
    → i < 32
    → bit i (timer_ctrl_pre_scalr v) ≡ (if in_prescaler i then bit (i - 8) v else 0)
bit-pre_scalr v i h = elim (dec_lt i 8) [
  | yes low ↦ ground (arith, bit-shl_below 8 i (bit_and v 0xF) low)
  | no high ↦ ground (
    arith,
    bit-shl 8 (i - 8) i (bit_and v 0xF) (omega arith),
    bit-and (i - 8) v 0xF,
    bit-lt-two (i - 8) v,
    (==_iff (bit (i - 8) 0xF) _).0 (all_below_sound 32 _ (i - 8) value_bits (omega arith)),
  )
]

-- `timer_set` gives the prescaler, bits 8 to 11 of the shadow, the low four bits of `pre_scl`, and
-- leaves the other 28 bits as they were.
set_shadow-bits :
    (shadow pre_scl i : ℕ)
    → i < 32
    → bit i (set_shadow shadow pre_scl)
      ≡ (if in_prescaler i then bit (i - 8) pre_scl else bit i shadow)
unfolding set_shadow
set_shadow-bits shadow pre_scl i h = ground (
  arith,
  bit-or i (bit_and shadow (not32 timer_ctrl_pre_scalr_msk)) (timer_ctrl_pre_scalr pre_scl),
  bit-and i shadow (not32 timer_ctrl_pre_scalr_msk),
  bit-pre_scalr pre_scl i h,
  bit-lt-two i shadow,
  (==_iff (bit i (not32 timer_ctrl_pre_scalr_msk)) _).0 (all_below_sound 32 _ i mask_bits h),
)

-- A call of the driver on a started timer.
pub data Op : Type 0 where
  ack clear en : Op
  set : (mod_value pre_scl : ℕ) → Op

-- Bit `i` of the shadow after a call, from the bit before it.
abbrev pub bit_after : Op → (i before : ℕ) → ℕ
bit_after ack i before = before
bit_after clear i before = 0
bit_after en i before = if ltb i 2 then 1 else before
bit_after (set mod_value pre_scl) i before =
    if ltb 7 i && ltb i 12 then bit (i - 8) (u8 pre_scl) else before

enable_bits : all_below 32 (λ i. bit i 3 == (if ltb i 2 then 1 else 0)) ≡ true
unfolding all_below
enable_bits = refl

no_bits : all_below 32 (λ i. bit i 0 == 0) ≡ true
unfolding all_below
no_bits = refl

bit-enabled : (shadow i : ℕ) → i < 32 → bit i (bit_or shadow 3) ≡ bit_after en i (bit i shadow)
bit-enabled shadow i h = ground (
  arith,
  bit-or i shadow 3,
  bit-lt-two i shadow,
  (==_iff (bit i 3) _).0 (all_below_sound 32 _ i enable_bits h),
)

module _ {G : Type 0} where
  abbrev pub op : ℕ → Op → ℕ → Cmd G ℕ
  op t ack shadow = do timer_ack_intrq t; pure shadow
  op t clear shadow = timer_clear_ctrl t
  op t en shadow = timer_en t shadow
  op t (set mod_value pre_scl) shadow = timer_set t shadow mod_value pre_scl

  -- Each call returns a shadow whose bits, for each of the 32: are those it had, for
  -- `timer_ack_intrq`; are 0, for `timer_clear_ctrl`; are 1 in the two enable bits and else those it
  -- had, for `timer_en`; are the low four bits of the prescaler in the bits 8 to 11 and else those
  -- it had, for `timer_set`. The control register was last given that shadow, unless the call was
  -- `timer_ack_intrq`, which gives it the flag bit alone.
  pub op-last_write :
      (t : ℕ) (o : Op) (shadow i : ℕ) (m : Machine G)
      → i < 32
      → (shadow' : ℕ) × (m' : Machine G) × (op t o shadow m ≡ some (shadow', m'))
        × (bit i shadow' ≡ bit_after o i (bit i shadow))
        × (last_write (timer_ctrl t) m'.log ≡ some (elim o [ ack ↦ timer_ctrl_flag | _ ↦ shadow' ]))
  unfolding timer_ack_intrq timer_clear_ctrl timer_en timer_set
  op-last_write t ack shadow i m h = (_, _, refl, refl, ground arith)
  op-last_write t clear shadow i m h =
      (_, _, refl, (==_iff (bit i 0) 0).0 (all_below_sound 32 _ i no_bits h), ground arith)
  op-last_write t en shadow i m h = (_, _, refl, bit-enabled shadow i h, ground arith)
  op-last_write t (set a b) shadow i m h =
      (_, _, refl, set_shadow-bits shadow (u8 b) i h, ground arith)
