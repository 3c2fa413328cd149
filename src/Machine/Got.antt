-- ===== src/Machine/Got.antt =====
-- Runs that read bytes from a data register and store them in a buffer. What counts as a byte that
-- was heard is up to the driver: it is found in the log.
use mlab_mcu_edu.Prelude.{
  ℕ, ◌+◌, ◌^◌, ◌≤◌, ◌≡◌, sym, ap, subst, ◌∙◌, List, [], ◌∷◌, ◌++◌, length, map, append_assoc, u8,
}
use mlab_mcu_edu.Machine.{Access, Machine, next}
use mlab_mcu_edu.Machine.Runs.{writes}
use mlab_mcu_edu.Machine.Buffers.{
  bytes, bytes-fill, fill, advance, latest_first, latest_first-append, fill-append,
}

module _ {G : Type 0} (hears : List Access → List ℕ) where
  -- A run that made the writes `ws`, heard the values `vs`, as `hears` finds them in the log, and stored them
  -- from `p` on.
  pub record Got (m : Machine G) (ws : List (ℕ × ℕ)) (vs : List ℕ) (p : ℕ) (m' : Machine G)
      : Type 0 where
    pub wrote : writes m'.log ≡ ws ++ writes m.log
    pub heard : hears m'.log ≡ latest_first vs ++ hears m.log
    pub mem : m'.mem ≡ fill m.mem p vs
    pub app : m'.app ≡ m.app
    pub cpu : m'.cpu ≡ m.cpu

  pub Got-cons :
      {m m' m'' : Machine G} {ws ws' : List (ℕ × ℕ)} {v p : ℕ} {vs : List ℕ}
      → Got m ws (v ∷ []) p m'
      → Got m' ws' vs (next p) m''
      → Got m (ws' ++ ws) (v ∷ vs) p m''
  Got-cons {m} {ws = ws} {ws'} {v} {p} {vs} s t = record {
    wrote = t.wrote ∙ ap (λ l. ws' ++ l) s.wrote ∙ sym (append_assoc ws' ws (writes m.log));
    heard =
        t.heard
        ∙ ap (λ l. latest_first vs ++ l) s.heard
        ∙ sym (append_assoc (latest_first vs) (v ∷ []) (hears m.log));
    mem = t.mem ∙ ap (λ f. fill f (next p) vs) s.mem;
    app = t.app ∙ s.app;
    cpu = t.cpu ∙ s.cpu;
  }

  -- The same after a run that stored nothing.
  pub Got-after :
      {m m' m'' : Machine G} {ws ws' : List (ℕ × ℕ)} {p : ℕ} {vs : List ℕ}
      → Got m ws [] p m'
      → Got m' ws' vs p m''
      → Got m (ws' ++ ws) vs p m''
  Got-after {m} {ws = ws} {ws'} {p} {vs} s t = record {
    wrote = t.wrote ∙ ap (λ l. ws' ++ l) s.wrote ∙ sym (append_assoc ws' ws (writes m.log));
    heard = t.heard ∙ ap (λ l. latest_first vs ++ l) s.heard;
    mem = t.mem ∙ ap (λ f. fill f p vs) s.mem;
    app = t.app ∙ s.app;
    cpu = t.cpu ∙ s.cpu;
  }

  -- Two such runs, the second from where the first stopped.
  pub Got-append :
      {m m' m'' : Machine G} {ws ws' : List (ℕ × ℕ)} {p : ℕ} (vs vs' : List ℕ)
      → Got m ws vs p m'
      → Got m' ws' vs' (advance (length vs) p) m''
      → Got m (ws' ++ ws) (vs ++ vs') p m''
  Got-append {m} {ws = ws} {ws'} {p} vs vs' s t = record {
    wrote = t.wrote ∙ ap (λ l. ws' ++ l) s.wrote ∙ sym (append_assoc ws' ws (writes m.log));
    heard =
        t.heard
        ∙ ap (λ l. latest_first vs' ++ l) s.heard
        ∙ sym (append_assoc (latest_first vs') (latest_first vs) (hears m.log))
        ∙ ap (λ l. l ++ hears m.log) (sym (latest_first-append vs vs'));
    mem =
        t.mem
        ∙ ap (λ f. fill f (advance (length vs) p) vs') s.mem
        ∙ sym (fill-append m.mem p vs vs');
    app = t.app ∙ s.app;
    cpu = t.cpu ∙ s.cpu;
  }

  -- What such a run leaves in the buffer.
  pub bytes-Got :
      {m m' : Machine G} {ws : List (ℕ × ℕ)} {vs : List ℕ} {p : ℕ} (n : ℕ)
      → Got m ws vs p m'
      → length vs ≡ n
      → p + n ≤ 2 ^ 32
      → bytes m'.mem n p ≡ map u8 vs
  bytes-Got {m} {m'} {vs = vs} {p} n g e =
      subst (λ k. p + k ≤ 2 ^ 32 → bytes m'.mem k p ≡ map u8 vs) e
        (λ fits. ap (λ f. bytes f (length vs) p) g.mem ∙ bytes-fill m.mem p vs fits)
