-- ===== src/Machine/Waits.antt =====
-- What a wait loop reads: the register again and again, up to the first time that it shows the bits
-- clear.
use mlab_mcu_edu.Prelude.{
  ℕ, zero, suc, ◌≡◌, refl, ◌∙◌, some, List, ◌∷◌, true, false, is_clear, Bool-cases, inl, inr,
}
use mlab_mcu_edu.Machine.{Access, read, Hardware, Machine, poll_clear}
use mlab_mcu_edu.Machine.Runs.{writes, ClearsIn, poll_clear-stop, poll_clear-again}

-- From the first log to the second, the register at `a` was read until it showed `mask` clear.
pub data Waited (hw : Hardware) (a mask : ℕ) : List Access → List Access → Type 0 where
  clear_now :
      {l : List Access}
      → is_clear (hw.value l a) mask ≡ true
      → Waited hw a mask l (read a (hw.value l a) ∷ l)
  set_still :
      {l l' : List Access}
      → is_clear (hw.value l a) mask ≡ false
      → Waited hw a mask (read a (hw.value l a) ∷ l) l'
      → Waited hw a mask l l'

module _ {G : Type 0} (hw : Hardware) where
  pub poll_clear-Waited :
      (n a mask : ℕ) (m : Machine G)
      → ClearsIn hw a mask n m.log
      → (l : List Access) × Waited hw a mask m.log l
        × (poll_clear hw n a mask m ≡ some (tt, record m { log = l }))
        × (writes l ≡ writes m.log)
  poll_clear-Waited zero a mask m h = absurd h
  poll_clear-Waited (suc n) a mask m h =
      let v = hw.value m.log a in
      let m₁ : Machine G = record m { log = read a v ∷ m.log } in
      elim (Bool-cases (is_clear v mask)) [
        | inl e ↦ (m₁.log, clear_now e, poll_clear-stop hw n a mask m e, refl)
        | inr e ↦
            let (l, w, run, same) = poll_clear-Waited n a mask m₁ (rw e at h) in
            (l, set_still e w, poll_clear-again hw n a mask m e ∙ run, same)
      ]
