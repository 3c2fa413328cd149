-- ===== src/Machine/Series.antt =====
-- Interrupts, one after the other: a handler takes the handle of its driver and gives it back.
use mlab_mcu_edu.Prelude.{ℕ, zero, suc, ◌≡◌, ap, ◌∙◌, fun_ext, arith}
use mlab_mcu_edu.Machine.{Machine, Cmd, pure, ◌>>=◌}

-- `n` interrupts, one after the other.
unfoldable pub interrupts : {G H : Type 0} → (H → Cmd G H) → ℕ → H → Cmd G H
interrupts irq zero h = pure h
interrupts irq (suc n) h = do h' ← irq h; interrupts irq n h'

-- The last interrupt of `n + 1` comes after the first `n`.
pub interrupts-last :
    {G H : Type 0} (irq : H → Cmd G H) (n : ℕ) (h : H) (m : Machine G)
    → interrupts irq (suc n) h m ≡ (interrupts irq n h >>= irq) m
unfolding interrupts
interrupts-last irq zero h m = ground arith
interrupts-last irq (suc n) h m =
    ap (λ f. (irq h >>= f) m) (fun_ext λ i. fun_ext λ l. interrupts-last irq n i l) ∙ ground arith
