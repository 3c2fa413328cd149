-- ===== src/Machine/Runs.antt =====
-- What a run did: the writes to the registers, and the runs that write in a given order whatever
-- the hardware answers to the polls between.
use mlab_mcu_edu.Prelude.{
  ℕ, zero, suc, ◌≡◌, refl, ap, ◌∙◌, Option, none, some, List, [], ◌∷◌, ◌++◌, append_assoc, true,
  false, arith, is_clear, ◌==◌, if◌then◌else◌, Bool-cases, inl, inr,
}
use mlab_mcu_edu.Machine.{
  Access, read, write, Hardware, Machine, Cmd, pure, ◌>>=◌, store, poll_clear, wait_clear,
}

-- The writes of a log, as pairs of an address and a value, the latest first.
abbrev pub writes : List Access → List (ℕ × ℕ)
writes [] = []
writes (read a v ∷ l) = writes l
writes (write a v ∷ l) = (a, v) ∷ writes l

-- The value that a register was last given.
abbrev pub last_write : ℕ → List Access → Option ℕ
last_write a [] = none
last_write a (read b v ∷ l) = last_write a l
last_write a (write b v ∷ l) = if a == b then some v else last_write a l

-- What a register was given, the latest first.
abbrev pub written : ℕ → List Access → List ℕ
written a [] = []
written a (read b v ∷ l) = written a l
written a (write b v ∷ l) = if a == b then v ∷ written a l else written a l

-- A run that returns, with what holds of its result and its machine.
abbrev pub Returned : {G A : Type 0} → (A → Machine G → Type 0) → Option (A × Machine G) → Type 0
Returned P none = ⊥
Returned P (some (r, m)) = P r m

-- A register that reads as it was last written.
abbrev pub ReadsBack : Hardware → ℕ → Type 0
ReadsBack hw a = (l : List Access) (v : ℕ) → hw.value (write a v ∷ l) a ≡ v

-- Polled at most `n` times from the log `l` on, the register at `a` shows the bits `mask` clear.
abbrev pub ClearsIn : Hardware → ℕ → ℕ → ℕ → List Access → Type 0
ClearsIn hw a mask zero l = ⊥
ClearsIn hw a mask (suc n) l =
    if is_clear (hw.value l a) mask then Unit else ClearsIn hw a mask n (read a (hw.value l a) ∷ l)

module _ {G : Type 0} where
  -- A run from `m` to `m'` that made the writes `ws`, the latest first, and left memory alone.
  pub record Sent (m : Machine G) (ws : List (ℕ × ℕ)) (m' : Machine G) : Type 0 where
    pub wrote : writes m'.log ≡ ws ++ writes m.log
    pub mem : m'.mem ≡ m.mem
    pub app : m'.app ≡ m.app
    pub cpu : m'.cpu ≡ m.cpu

  -- The command returns `a`, having made just the writes `ws`.
  abbrev pub Does : {A : Type 0} → Cmd G A → Machine G → List (ℕ × ℕ) → A → Type 0
  Does c m ws a = (m' : Machine G) × (c m ≡ some (a, m')) × Sent m ws m'

  pub Sent-trans :
      {m m' m'' : Machine G} {vs ws : List (ℕ × ℕ)}
      → Sent m ws m'
      → Sent m' vs m''
      → Sent m (vs ++ ws) m''
  Sent-trans {m} {vs = vs} {ws} s t = record {
    wrote = t.wrote ∙ ap (λ l. vs ++ l) s.wrote ∙ sym-assoc;
    mem = t.mem ∙ s.mem;
    app = t.app ∙ s.app;
    cpu = t.cpu ∙ s.cpu;
  }
    where
      sym-assoc : vs ++ (ws ++ writes m.log) ≡ (vs ++ ws) ++ writes m.log
      sym-assoc = rw append_assoc

  pub Does->>= :
      {A B : Type 0} (c : Cmd G A) (f : A → Cmd G B) (m : Machine G) {a : A} {b : B}
      {ws vs : List (ℕ × ℕ)}
      → Does c m ws a
      → ((m' : Machine G) → Sent m ws m' → Does (f a) m' vs b)
      → Does (c >>= f) m (vs ++ ws) b
  Does->>= c f m (m', e, s) next =
      let (m'', e', t) = next m' s in (m'', rw (e, ◌>>=◌) e', Sent-trans s t)

  module _ (hw : Hardware) where
    pub poll_clear-stop :
        (n a mask : ℕ) (m : Machine G)
        → is_clear (hw.value m.log a) mask ≡ true
        → poll_clear hw (suc n) a mask m
          ≡ some (tt, record m { log = read a (hw.value m.log a) ∷ m.log })
    unfolding poll_clear
    poll_clear-stop n a mask m e = rw (e, poll_clear)

    pub poll_clear-again :
        (n a mask : ℕ) (m : Machine G)
        → is_clear (hw.value m.log a) mask ≡ false
        → poll_clear hw (suc n) a mask m
          ≡ poll_clear hw n a mask (record m { log = read a (hw.value m.log a) ∷ m.log })
    unfolding poll_clear
    poll_clear-again n a mask m e = rw (e, poll_clear)

    pub poll_clear-Does :
        (n a mask : ℕ) (m : Machine G)
        → ClearsIn hw a mask n m.log
        → Does (poll_clear hw n a mask) m [] tt
    poll_clear-Does zero a mask m h = absurd h
    poll_clear-Does (suc n) a mask m h =
        let v = hw.value m.log a in
        let m₁ : Machine G = record m { log = read a v ∷ m.log } in
        elim (Bool-cases (is_clear v mask)) [
          | inl done ↦ (
            m₁,
            poll_clear-stop n a mask m done,
            record { wrote = refl; mem = refl; app = refl; cpu = refl },
          )
          | inr busy ↦
              let (m', e, s) = poll_clear-Does n a mask m₁ (rw busy at h) in
              (
                m',
                poll_clear-again n a mask m busy ∙ e,
                record { wrote = s.wrote; mem = s.mem; app = s.app; cpu = s.cpu },
              )
        ]

    pub wait_clear-Does :
        (a mask : ℕ) (m : Machine G)
        → ClearsIn hw a mask hw.polls m.log
        → Does (wait_clear hw a mask) m [] tt
    unfolding wait_clear
    wait_clear-Does a mask m h = poll_clear-Does hw.polls a mask m h

  -- Two commands that agree, and go on alike, agree together.
  pub >>=-same :
      {A B : Type 0} (c d : Cmd G A) (f g : A → Cmd G B) (m : Machine G)
      → c m ≡ d m
      → ((a : A) (m' : Machine G) → f a m' ≡ g a m')
      → (c >>= f) m ≡ (d >>= g) m
  >>=-same {A} c d f g m e h = rw (e, ◌>>=◌) (next (d m))
    where
      next :
          (r : Option (A × Machine G))
          → elim r [ none ↦ none | some (a, m') ↦ f a m' ]
            ≡ elim r [ none ↦ none | some (a, m') ↦ g a m' ]
      next none = refl
      next (some (a, m')) = h a m'

  pub >>=-pure : {A : Type 0} (c : Cmd G A) (m : Machine G) → (c >>= pure) m ≡ c m
  >>=-pure c m = ground arith

  pub store-Does : (a v : ℕ) (m : Machine G) → Does (store a v) m ((a, v) ∷ []) tt
  store-Does a v m = (
    record m { log = write a v ∷ m.log },
    refl,
    record { wrote = refl; mem = refl; app = refl; cpu = refl },
  )
