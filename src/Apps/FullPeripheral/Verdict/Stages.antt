-- ===== src/Apps/FullPeripheral/Verdict/Stages.antt =====
-- Stages of the test of all peripherals: events that lead from one state to another.
use mlab_mcu_edu.Prelude.{
  ℕ, zero, suc, ◌≡◌, refl, ap, ◌∙◌, Option, some, List, [], ◌∷◌, ◌++◌, append_assoc, replicate,
  Bool, true, false, if◌then◌else◌,
}
use mlab_mcu_edu.Machine.{Hardware, Machine, Cmd, ◌>>=◌}
use mlab_mcu_edu.I2c.{I2cHandle}
use mlab_mcu_edu.Uart.{UartState, uart_base_addr}
use mlab_mcu_edu.Apps.FullPeripheral.{TestState, Globals}
use mlab_mcu_edu.Apps.FullPeripheral.Verdict.{Event, round, event, run}

-- The UART is idle, no interrupt is noted, and memory is `mem₀`.
pub record Calm (mem₀ : ℕ → ℕ) (m : Machine Globals) : Type 0 where
  pub uart : m.app.huart.g_state ≡ UartState.ready
  pub flag : m.app.uart_tx_cmpl_callback ≡ 0
  pub gpio : m.app.gpio_int_status ≡ 0
  pub timer : m.app.timer_int_status ≡ 0
  pub mem : m.mem ≡ mem₀
  pub addr : m.app.huart.instance_addr ≡ uart_base_addr

pub Calm-same :
    {mem₀ : ℕ → ℕ} (m m' : Machine Globals)
    → m'.app ≡ m.app
    → m'.mem ≡ m.mem
    → Calm mem₀ m
    → Calm mem₀ m'
Calm-same m m' e f c = record {
  uart = ap (λ x. x.huart.g_state) e ∙ c.uart;
  flag = ap (λ x. x.uart_tx_cmpl_callback) e ∙ c.flag;
  gpio = ap (λ x. x.gpio_int_status) e ∙ c.gpio;
  timer = ap (λ x. x.timer_int_status) e ∙ c.timer;
  mem = f ∙ c.mem;
  addr = ap (λ x. x.huart.instance_addr) e ∙ c.addr;
}

pub if_true :
    (b : Bool) (c d : Cmd Globals (Option TestState)) (m : Machine Globals)
    → b ≡ true
    → (if b then c else d) m ≡ c m
if_true true c d m e = refl
if_true false c d m e = cc

pub if_false :
    (b : Bool) (c d : Cmd Globals (Option TestState)) (m : Machine Globals)
    → b ≡ false
    → (if b then c else d) m ≡ d m
if_false true c d m e = cc
if_false false c d m e = refl

module _ (hw : Hardware) (w r u : ℕ) (i2c : I2cHandle) where
  -- Events that lead from one state to another, whatever comes after them, and what holds then.
  pub record Stage (es : List Event) (s : TestState) (m : Machine Globals) (s' : TestState)
      (P : Machine Globals → Type 0) : Type 0 where
    pub after : Machine Globals
    pub runs :
        (rest : List Event) → run hw w r u i2c (es ++ rest) s m ≡ run hw w r u i2c rest s' after
    pub holds : P after

  pub Stage-one :
      (e : Event) (s : TestState) (m : Machine Globals) (s' : TestState) (m' : Machine Globals)
      (P : Machine Globals → Type 0)
      → event hw w r u i2c e s m ≡ some (some s', m')
      → P m'
      → Stage (e ∷ []) s m s' P
  Stage-one e s m s' m' P h p = record {
    after = m';
    runs = λ rest. unfold run in rw (h, ◌>>=◌) refl;
    holds = p;
  }

  pub Stage-then :
      {es es' : List Event} {s s' s'' : TestState} {m : Machine Globals}
      (P Q : Machine Globals → Type 0)
      → Stage es s m s' P
      → ((m' : Machine Globals) → P m' → Stage es' s' m' s'' Q)
      → Stage (es ++ es') s m s'' Q
  Stage-then {es} {es'} {s} {m = m} P Q a next =
      let b = next a.after a.holds in
      record {
        after = b.after;
        runs = λ rest.
            ap (λ l. run hw w r u i2c l s m) (append_assoc es es' rest)
            ∙ a.runs (es' ++ rest)
            ∙ b.runs rest;
        holds = b.holds;
      }

  -- Rounds that do nothing.
  one_idle :
      (es : List Event) (s : TestState) (m : Machine Globals)
      → event hw w r u i2c round s m ≡ some (some s, m)
      → run hw w r u i2c (round ∷ es) s m ≡ run hw w r u i2c es s m
  unfolding run
  one_idle es s m h = rw (h, ◌>>=◌) refl

  all_idle :
      (n : ℕ) (s : TestState) (m : Machine Globals)
      → event hw w r u i2c round s m ≡ some (some s, m)
      → (rest : List Event)
      → run hw w r u i2c (replicate n round ++ rest) s m ≡ run hw w r u i2c rest s m
  all_idle zero s m h rest = refl
  all_idle (suc n) s m h rest = one_idle (replicate n round ++ rest) s m h ∙ all_idle n s m h rest

  pub Stage-idle :
      (n : ℕ) (s : TestState) (m : Machine Globals) (P : Machine Globals → Type 0)
      → event hw w r u i2c round s m ≡ some (some s, m)
      → P m
      → Stage (replicate n round) s m s P
  Stage-idle n s m P h p = record { after = m; runs = all_idle n s m h; holds = p }
