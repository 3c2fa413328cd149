-- ===== src/Machine/Keeps.antt =====
-- What holds of a command whenever it returns, whatever the hardware answers, and the commands that
-- leave one register and the globals of the application alone.
use mlab_mcu_edu.Prelude.{
  ℕ, zero, suc, ◌≡◌, refl, ap, ◌∙◌, sym, append_assoc, Option, none, some, List, [], ◌∷◌, ◌++◌,
  subst, true, false, Bool, is_clear, ◌==◌, if◌then◌else◌, Bool-cases, inl, inr,
}
use mlab_mcu_edu.Machine.{
  Access, read, write, Hardware, Machine, Cmd, pure, ◌>>=◌, load, store, poke, peek, poll_clear,
  wait_clear, update,
}
use mlab_mcu_edu.Machine.Runs.{written, poll_clear-stop, poll_clear-again}

-- What holds of the result and the machine of a run, if it returns.
abbrev pub Ensures : {G A : Type 0} → (A → Machine G → Type 0) → Option (A × Machine G) → Type 0
Ensures P none = Unit
Ensures P (some (r, m)) = P r m

pub written-append : (a : ℕ) (k l : List Access) → written a (k ++ l) ≡ written a k ++ written a l
written-append a [] l = refl
written-append a (read b v ∷ k) l = written-append a k l
written-append a (write b v ∷ k) l = elim (Bool-cases (a == b)) [
  | inl same ↦ rw same (ap (λ ws. v ∷ ws) (written-append a k l))
  | inr other ↦ rw other (written-append a k l)
]

module _ {G : Type 0} where
  pub Ensures->>= :
      {A B : Type 0} (P : A → Machine G → Type 0) (Q : B → Machine G → Type 0) (c : Cmd G A)
      (f : A → Cmd G B) (m : Machine G)
      → Ensures P (c m)
      → ((a : A) (m' : Machine G) → P a m' → Ensures Q (f a m'))
      → Ensures Q ((c >>= f) m)
  Ensures->>= {A} P Q c f m h after = case (c m) h
    where
      case :
          (r : Option (A × Machine G))
          → Ensures P r
          → Ensures Q (elim r [ none ↦ none | some (a, m') ↦ f a m' ])
      case none p = tt
      case (some (a, m')) p = after a m' p

  pub Ensures-map :
      {A : Type 0} {P Q : A → Machine G → Type 0} (r : Option (A × Machine G))
      → Ensures P r
      → ((a : A) (m' : Machine G) → P a m' → Q a m')
      → Ensures Q r
  Ensures-map none p f = tt
  Ensures-map (some (a, m')) p f = f a m' p

  pub Ensures-result :
      {A : Type 0} (P : A → Machine G → Type 0) (r : Option (A × Machine G)) {a : A} {m : Machine G}
      → Ensures P r
      → r ≡ some (a, m)
      → P a m
  Ensures-result P r p e = subst (Ensures P) e p

  -- A command that goes on from a state, where there is one.
  pub Ensures-next :
      {S : Type 0} (P : Option S → Machine G → Type 0) (go : S → Cmd G (Option S))
      → ((s : S) (m : Machine G) → P (some s) m → Ensures P (go s m))
      → (next : Option S) (m : Machine G) → P next m
      → Ensures P ((elim next as (λ _. Cmd G (Option S)) [ none ↦ pure none | some s ↦ go s ]) m)
  Ensures-next P go h none m p = p
  Ensures-next P go h (some s) m p = h s m p

-- A run that added to the log, and neither wrote the register at `a` nor assigned a global.
module _ {G : Type 0} (a : ℕ) where
  pub record LeftAlone (m m' : Machine G) : Type 0 where
    pub added : List Access
    pub log : m'.log ≡ added ++ m.log
    pub silent : written a added ≡ []
    pub app : m'.app ≡ m.app

  pub record Keeps {A : Type 0} (c : Cmd G A) : Type 0 where
    pub keeps : (m : Machine G) → Ensures (λ _ m'. LeftAlone m m') (c m)

  pub LeftAlone-trans : {m m' m'' : Machine G} → LeftAlone m m' → LeftAlone m' m'' → LeftAlone m m''
  LeftAlone-trans {m} s t = record {
    added = t.added ++ s.added;
    log = t.log ∙ ap (λ l. t.added ++ l) s.log ∙ sym (append_assoc t.added s.added m.log);
    silent = written-append a t.added s.added ∙ rw (t.silent, s.silent) refl;
    app = t.app ∙ s.app;
  }

  Ensures-trans :
      {A : Type 0} {m m' : Machine G} (r : Option (A × Machine G))
      → LeftAlone m m'
      → Ensures (λ _ m''. LeftAlone m' m'') r
      → Ensures (λ _ m''. LeftAlone m m'') r
  Ensures-trans none s t = tt
  Ensures-trans (some (r, m'')) s t = LeftAlone-trans s t

  pub Keeps->>= :
      {A B : Type 0} {c : Cmd G A} {f : A → Cmd G B}
      → Keeps c
      → ((r : A) → Keeps (f r))
      → Keeps (c >>= f)
  Keeps->>= {c = c} {f} h k = record {
    keeps = λ m.
        Ensures->>= (λ _ m'. LeftAlone m m') (λ _ m'. LeftAlone m m') c f m (h.keeps m)
          (λ r m' s. Ensures-trans (f r m') s ((k r).keeps m'));
  }

  pub Keeps-if :
      {A : Type 0} (b : Bool) {c d : Cmd G A} → Keeps c → Keeps d → Keeps (if b then c else d)
  Keeps-if true h k = h
  Keeps-if false h k = k

  pub Keeps-pure : {A : Type 0} (r : A) → Keeps (pure r)
  Keeps-pure r = record {
    keeps = λ m. record { added = []; log = refl; silent = refl; app = refl };
  }

  pub Keeps-store : (b v : ℕ) → (a == b) ≡ false → Keeps (store b v)
  Keeps-store b v other = record {
    keeps = λ m. record { added = write b v ∷ []; log = refl; silent = rw other refl; app = refl };
  }

  pub Keeps-peek : (p : ℕ) → Keeps (peek p)
  Keeps-peek p = record {
    keeps = λ m. record { added = []; log = refl; silent = refl; app = refl };
  }

  pub Keeps-poke : (p v : ℕ) → Keeps (poke p v)
  Keeps-poke p v = record {
    keeps = λ m. record { added = []; log = refl; silent = refl; app = refl };
  }

  module _ (hw : Hardware) where
    pub Keeps-load : (b : ℕ) → Keeps (load hw b)
    Keeps-load b = record {
      keeps = λ m. record {
        added = read b (hw.value m.log b) ∷ [];
        log = refl;
        silent = refl;
        app = refl;
      };
    }

    pub Keeps-update : (b : ℕ) (f : ℕ → ℕ) → (a == b) ≡ false → Keeps (update hw b f)
    Keeps-update b f other = Keeps->>= (Keeps-load b) (λ v. Keeps-store b (f v) other)

    poll_clear-LeftAlone :
        (n b mask : ℕ) (m : Machine G) → Ensures (λ _ m'. LeftAlone m m') (poll_clear hw n b mask m)
    poll_clear-LeftAlone zero b mask m = unfold poll_clear in tt
    poll_clear-LeftAlone (suc n) b mask m =
        let v = hw.value m.log b in
        let m₁ : Machine G = record m { log = read b v ∷ m.log } in
        let s : LeftAlone m m₁ = record {
          added = read b v ∷ [];
          log = refl;
          silent = refl;
          app = refl;
        } in
        elim (Bool-cases (is_clear v mask)) [
          | inl done ↦ rw (poll_clear-stop hw n b mask m done) s
          | inr busy ↦
              rw (poll_clear-again hw n b mask m busy)
                (Ensures-trans (poll_clear hw n b mask m₁) s (poll_clear-LeftAlone n b mask m₁))
        ]

    pub Keeps-wait_clear : (b mask : ℕ) → Keeps (wait_clear hw b mask)
    unfolding wait_clear
    Keeps-wait_clear b mask = record { keeps = λ m. poll_clear-LeftAlone hw.polls b mask m }
