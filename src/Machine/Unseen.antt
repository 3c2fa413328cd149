-- ===== src/Machine/Unseen.antt =====
-- Commands that an observer of the log does not see: what it finds in the log stays the same,
-- whatever the hardware answers.
use mlab_mcu_edu.Prelude.{ℕ, zero, suc, ◌≡◌, refl, ◌∙◌, List, ◌∷◌, is_clear, Bool-cases, inl, inr}
use mlab_mcu_edu.Machine.{
  Access, read, write, Hardware, Machine, Cmd, pure, ◌>>=◌, store, peek, poll_clear, wait_clear,
}
use mlab_mcu_edu.Machine.Runs.{poll_clear-stop, poll_clear-again}
use mlab_mcu_edu.Machine.Keeps.{Ensures, Ensures->>=, Ensures-map}

module _ {G : Type 0} (finds : List Access → List ℕ) where
  pub record Unseen {A : Type 0} (c : Cmd G A) : Type 0 where
    pub unseen : (m : Machine G) → Ensures (λ _ m'. finds m'.log ≡ finds m.log) (c m)

  pub Unseen->>= :
      {A B : Type 0} {c : Cmd G A} {f : A → Cmd G B}
      → Unseen c
      → ((r : A) → Unseen (f r))
      → Unseen (c >>= f)
  Unseen->>= {c = c} {f} h k = record {
    unseen = λ m.
        Ensures->>= (λ _ m'. finds m'.log ≡ finds m.log) (λ _ m'. finds m'.log ≡ finds m.log) c f m
          (h.unseen m) (λ r m' e. Ensures-map (f r m') ((k r).unseen m') (λ _ m'' e'. e' ∙ e));
  }

  pub Unseen-pure : {A : Type 0} (r : A) → Unseen (pure r)
  Unseen-pure r = record { unseen = λ m. refl }

  pub Unseen-peek : (p : ℕ) → Unseen (peek p)
  Unseen-peek p = record { unseen = λ m. refl }

  pub Unseen-store :
      (b v : ℕ) → ((l : List Access) → finds (write b v ∷ l) ≡ finds l) → Unseen (store b v)
  Unseen-store b v h = record { unseen = λ m. h m.log }

  module _ (hw : Hardware) (b mask : ℕ)
      (blind : (l : List Access) (v : ℕ) → finds (read b v ∷ l) ≡ finds l) where
    polls_unseen :
        (n : ℕ) (m : Machine G)
        → Ensures (λ _ m'. finds m'.log ≡ finds m.log) (poll_clear hw n b mask m)
    polls_unseen zero m = unfold poll_clear in tt
    polls_unseen (suc n) m =
        let v = hw.value m.log b in
        let m₁ : Machine G = record m { log = read b v ∷ m.log } in
        elim (Bool-cases (is_clear v mask)) [
          | inl done ↦ rw (poll_clear-stop hw n b mask m done) (blind m.log v)
          | inr busy ↦ rw (poll_clear-again hw n b mask m busy) (
              Ensures-map (poll_clear hw n b mask m₁) (polls_unseen n m₁)
                (λ _ m' e. e ∙ blind m.log v))
        ]

    pub Unseen-wait_clear : Unseen (wait_clear hw b mask)
    unfolding wait_clear
    Unseen-wait_clear = record { unseen = λ m. polls_unseen hw.polls m }
