-- ===== src/Machine/Traffic.antt =====
-- What went through one data register, in runs that leave memory alone: the values that it was given
-- and those that it was read for, whatever the hardware answers.
use mlab_mcu_edu.Prelude.{
  ℕ, zero, suc, ◌≡◌, refl, ap, sym, ◌∙◌, append_assoc, some, List, [], ◌∷◌, ◌++◌, true, false, Bool,
  is_clear, ◌==◌, if◌then◌else◌,
}
use mlab_mcu_edu.Machine.{
  read, Hardware, Machine, Cmd, pure, ◌>>=◌, load, store, poll_clear, wait_clear, update,
}
use mlab_mcu_edu.Machine.Runs.{written}
use mlab_mcu_edu.Machine.Buffers.{reads_of}
use mlab_mcu_edu.Machine.Keeps.{Ensures, Ensures->>=, Ensures-map}

module _ {G : Type 0} (d : ℕ) where
  -- The register was given `ws` and read for `rs`, the latest first, and memory is as it was.
  pub record Moved (ws rs : List ℕ) (m m' : Machine G) : Type 0 where
    pub wrote : written d m'.log ≡ ws ++ written d m.log
    pub heard : reads_of d m'.log ≡ rs ++ reads_of d m.log
    pub mem : m'.mem ≡ m.mem

  pub Moved-trans :
      {ws rs ws' rs' : List ℕ} {m m' m'' : Machine G}
      → Moved ws rs m m'
      → Moved ws' rs' m' m''
      → Moved (ws' ++ ws) (rs' ++ rs) m m''
  Moved-trans {ws} {rs} {ws'} {rs'} {m} s t = record {
    wrote = t.wrote ∙ ap (λ l. ws' ++ l) s.wrote ∙ sym (append_assoc ws' ws (written d m.log));
    heard = t.heard ∙ ap (λ l. rs' ++ l) s.heard ∙ sym (append_assoc rs' rs (reads_of d m.log));
    mem = t.mem ∙ s.mem;
  }

  -- A command that neither writes nor reads the register, nor memory but to read it.
  pub record Inert {A : Type 0} (c : Cmd G A) : Type 0 where
    pub inert : (m : Machine G) → Ensures (λ _ m'. Moved [] [] m m') (c m)

  pub Inert->>= :
      {A B : Type 0} {c : Cmd G A} {f : A → Cmd G B}
      → Inert c
      → ((r : A) → Inert (f r))
      → Inert (c >>= f)
  Inert->>= {c = c} {f} h k = record {
    inert = λ m.
        Ensures->>= (λ _ m'. Moved [] [] m m') (λ _ m'. Moved [] [] m m') c f m (h.inert m)
          (λ r m' s. Ensures-map (f r m') ((k r).inert m') (λ _ m'' t. Moved-trans s t));
  }

  pub Inert-pure : {A : Type 0} (r : A) → Inert (pure r)
  Inert-pure r = record { inert = λ m. record { wrote = refl; heard = refl; mem = refl } }

  pub Inert-if :
      {A : Type 0} (b : Bool) {c e : Cmd G A} → Inert c → Inert e → Inert (if b then c else e)
  Inert-if true h k = h
  Inert-if false h k = k

  pub Inert-store : (b v : ℕ) → (d == b) ≡ false → Inert (store b v)
  Inert-store b v other = record {
    inert = λ m. record { wrote = rw other refl; heard = refl; mem = refl };
  }

  module _ (hw : Hardware) where
    pub Inert-load : (b : ℕ) → (d == b) ≡ false → Inert (load hw b)
    Inert-load b other = record {
      inert = λ m. record { wrote = refl; heard = rw other refl; mem = refl };
    }

    pub Inert-update : (b : ℕ) (f : ℕ → ℕ) → (d == b) ≡ false → Inert (update hw b f)
    Inert-update b f other = Inert->>= (Inert-load b other) (λ v. Inert-store b (f v) other)

    pub Inert-poll_clear : (n b mask : ℕ) → (d == b) ≡ false → Inert (poll_clear hw n b mask)
    unfolding poll_clear
    Inert-poll_clear zero b mask other = record { inert = λ m. tt }
    Inert-poll_clear (suc n) b mask other = record {
      inert = λ m.
          let v = hw.value m.log b in
          let m₁ : Machine G = record m { log = read b v ∷ m.log } in
          let s : Moved [] [] m m₁ = record { wrote = refl; heard = rw other refl; mem = refl } in
          again (is_clear v mask) n b mask m m₁ s ((Inert-poll_clear n b mask other).inert m₁);
    }
      where
        again :
            (e : Bool) (k c q : ℕ) (m m₁ : Machine G)
            → Moved [] [] m m₁
            → Ensures (λ _ m'. Moved [] [] m₁ m') (poll_clear hw k c q m₁)
            → Ensures
                (λ _ m'. Moved [] [] m m')
                (elim e [ true ↦ some (tt, m₁) | false ↦ poll_clear hw k c q m₁ ])
        again true k c q m m₁ s t = s
        again false k c q m m₁ s t =
            Ensures-map (poll_clear hw k c q m₁) t (λ _ m'' u. Moved-trans s u)

    pub Inert-wait_clear : (b mask : ℕ) → (d == b) ≡ false → Inert (wait_clear hw b mask)
    unfolding wait_clear
    Inert-wait_clear b mask other = Inert-poll_clear hw.polls b mask other
