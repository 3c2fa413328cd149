-- ===== src/Apps/GpioSimple/Walks.antt =====
-- The walks of the light against an abstract flag that holds the last status read.
use mlab_mcu_edu.Prelude.{
  ℕ, suc, ◌≡◌, refl, ap, ◌∙◌, some, List, [], ◌∷◌, ◌++◌, append_assoc, append-nil, sym, Bool-cases,
  inl, inr, ◌==◌, if◌then◌else◌, length, true, false,
}
use mlab_mcu_edu.Machine.{read, write, Hardware, Machine, ◌>>=◌}
use mlab_mcu_edu.Machine.Runs.{written}
use mlab_mcu_edu.Machine.Buffers.{latest_first, latest_first-append, reads_of}
use mlab_mcu_edu.Apps.GpioSimple.{
  SimpleGlobals, SimpleEvent, round, gpio_irq, gpio_reg, count_up, simple_setup, walk, simple_round,
  simple_gpio_handler, simple_event, simple_run, simple_main,
}

-- One walk of the light.
abbrev pub four_pins : List ℕ
four_pins = 16 ∷ 32 ∷ 64 ∷ 128 ∷ []

-- What the events write to the output register, by the statuses that the interrupts read: a round
-- walks just if the last status read is pin 3 alone and no round has walked for it.
abbrev pub lights : (status : ℕ) → List SimpleEvent → List ℕ → List ℕ
lights status [] vs = []
lights status (round ∷ es) vs =
    if status == 8 then four_pins ++ lights 0 es vs else lights status es vs
lights status (gpio_irq ∷ es) [] = []
lights status (gpio_irq ∷ es) (v ∷ vs) = lights v es vs

abbrev pub interrupts_in : List SimpleEvent → ℕ
interrupts_in [] = 0
interrupts_in (round ∷ es) = interrupts_in es
interrupts_in (gpio_irq ∷ es) = suc (interrupts_in es)

-- A run of events from `m`: the statuses `vs` were read, one for each interrupt, and the light went as
-- they say.
record Walked (status : ℕ) (es : List SimpleEvent) (vs : List ℕ) (m m' : Machine SimpleGlobals)
    : Type 0 where
  count : length vs ≡ interrupts_in es
  heard : reads_of (gpio_reg 7) m'.log ≡ latest_first vs ++ reads_of (gpio_reg 7) m.log
  lit :
      written (gpio_reg 1) m'.log ≡ latest_first (lights status es vs) ++ written (gpio_reg 1) m.log
  mem : m'.mem ≡ m.mem

-- A run that goes on from a machine with what it read and wrote before.
latest-more :
    (xs vs l : List ℕ) → latest_first vs ++ (latest_first xs ++ l) ≡ latest_first (xs ++ vs) ++ l
latest-more xs vs l =
    sym (append_assoc (latest_first vs) (latest_first xs) l)
    ∙ ap (λ k. k ++ l) (sym (latest_first-append xs vs))

module _ (hw : Hardware) where
  abbrev Runs : List SimpleEvent → Machine SimpleGlobals → Type 0
  Runs es m =
      (vs : List ℕ) × (m' : Machine SimpleGlobals) × (simple_run hw es m ≡ some (tt, m'))
      × Walked m.app.gpio_int_status es vs m m'

  run_walk :
      (es : List SimpleEvent) (m : Machine SimpleGlobals)
      → (m.app.gpio_int_status == 8) ≡ true
      → ((m₁ : Machine SimpleGlobals) → Runs es m₁)
      → Runs (round ∷ es) m
  unfolding simple_run simple_event simple_round walk
  run_walk es m e next =
      let m₁ : Machine SimpleGlobals = record m {
        log =
            write (gpio_reg 1) 128
            ∷ write (gpio_reg 2) 128
            ∷ write (gpio_reg 1) 64
            ∷ write (gpio_reg 2) 64
            ∷ write (gpio_reg 1) 32
            ∷ write (gpio_reg 2) 32
            ∷ write (gpio_reg 1) 16
            ∷ write (gpio_reg 2) 16
            ∷ m.log;
        app = record (m.app) { gpio_int_status = 0 };
      } in
      let (vs, m', run, w) = next m₁ in
      (
        vs,
        m',
        rw (e, ◌>>=◌) run,
        record {
          count = w.count;
          heard = w.heard;
          lit = rw e (w.lit ∙ latest-more four_pins (lights 0 es vs) (written (gpio_reg 1) m.log));
          mem = w.mem;
        },
      )

  run_still :
      (es : List SimpleEvent) (m : Machine SimpleGlobals)
      → (m.app.gpio_int_status == 8) ≡ false
      → Runs es m
      → Runs (round ∷ es) m
  unfolding simple_run simple_event simple_round
  run_still es m e (vs, m', run, w) = (
    vs,
    m',
    rw (e, ◌>>=◌) run,
    record { count = w.count; heard = w.heard; lit = rw e w.lit; mem = w.mem },
  )

  run_irq :
      (es : List SimpleEvent) (m : Machine SimpleGlobals)
      → ((m₁ : Machine SimpleGlobals) → Runs es m₁)
      → Runs (gpio_irq ∷ es) m
  unfolding simple_run simple_event simple_gpio_handler
  run_irq es m next =
      let status = hw.value m.log (gpio_reg 7) in
      let m₁ : Machine SimpleGlobals = record m {
        log = write (gpio_reg 7) 0 ∷ read (gpio_reg 7) status ∷ m.log;
        app = record (m.app) { gpio_int_status = status };
      } in
      let (vs, m', run, w) = next m₁ in
      (
        status ∷ vs,
        m',
        run,
        record {
          count = ap suc w.count;
          heard = w.heard ∙ latest-more (status ∷ []) vs (reads_of (gpio_reg 7) m.log);
          lit = w.lit;
          mem = w.mem;
        },
      )

  runs : (es : List SimpleEvent) (m : Machine SimpleGlobals) → Runs es m
  runs [] m =
      unfold simple_run in
      ([], m, refl, record { count = refl; heard = refl; lit = refl; mem = refl })
  runs (round ∷ es) m = elim (Bool-cases (m.app.gpio_int_status == 8)) [
    | inl e ↦ run_walk es m e (runs es)
    | inr e ↦ run_still es m e (runs es m)
  ]
  runs (gpio_irq ∷ es) m = run_irq es m (runs es)

  -- With its globals as they are initialised, `main` returns from any rounds of its loop and any
  -- interrupts between them, whatever the hardware answers. Each interrupt reads the status once; let
  -- `vs` be the values that were read, in order. Then what was written to the output register, in
  -- order, is a walk over the pins 4 to 7 for each round before which the last status read was pin 3
  -- alone and no round had walked for it yet, and nothing else: a second interrupt before the round
  -- takes the place of the first. Memory is left as it was.
  pub simple_main-Walked :
      (es : List SimpleEvent) (m : Machine SimpleGlobals)
      → m.log ≡ []
      → m.app ≡ record { counter = 1; stepper = 255; gpio_int_status = 0 }
      → (vs : List ℕ) × (m' : Machine SimpleGlobals) × (simple_main hw es m ≡ some (tt, m'))
        × (length vs ≡ interrupts_in es)
        × (reads_of (gpio_reg 7) m'.log ≡ latest_first vs)
        × (written (gpio_reg 1) m'.log ≡ latest_first (lights 0 es vs))
        × (m'.mem ≡ m.mem)
  unfolding simple_main simple_setup count_up
  simple_main-Walked es m l g =
      let m₁ : Machine SimpleGlobals = record m {
        log = write (gpio_reg 3) 8 ∷ write (gpio_reg 6) 1 ∷ [];
        app = record { counter = 10; stepper = 255; gpio_int_status = 0 };
      } in
      let (vs, m', run, w) = runs es m₁ in
      (
        vs,
        m',
        rw (g, l, ◌>>=◌) run,
        w.count,
        w.heard ∙ append-nil (latest_first vs),
        w.lit ∙ append-nil (latest_first (lights 0 es vs)),
        w.mem,
      )
