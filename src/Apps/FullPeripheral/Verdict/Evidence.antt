-- ===== src/Apps/FullPeripheral/Verdict/Evidence.antt =====
-- What has been seen stays seen, and commands that leave the UART and the globals alone keep the
-- invariant of the test.
use mlab_mcu_edu.Prelude.{
  ℕ, ◌≡◌, refl, ap, ◌∙◌, Option, some, List, [], ◌∷◌, ◌++◌, Bool, true, false, ◌==◌, ◌&&◌, ◌||◌,
  is_clear, if◌then◌else◌,
}
use mlab_mcu_edu.Machine.{Access, read, write, Machine, Cmd}
use mlab_mcu_edu.Machine.Runs.{written}
use mlab_mcu_edu.Machine.Keeps.{Ensures, Ensures->>=, LeftAlone, written-append}
use mlab_mcu_edu.Apps.FullPeripheral.{TestState, Globals, go_on}
use mlab_mcu_edu.Apps.FullPeripheral.Verdict.{tx_data, pressed, ticked, not_yet, NotSent, Sound}

pub or_true : (b : Bool) → (b || true) ≡ true
or_true true = refl
or_true false = refl

pressed-append : (k l : List Access) → pressed l ≡ true → pressed (k ++ l) ≡ true
pressed-append [] l h = h
pressed-append (read a v ∷ k) l h = rw (pressed-append k l h) (or_true _)
pressed-append (write a v ∷ k) l h = pressed-append k l h

ticked-append : (k l : List Access) → ticked l ≡ true → ticked (k ++ l) ≡ true
ticked-append [] l h = h
ticked-append (read a v ∷ k) l h = ticked-append k l h
ticked-append (write a v ∷ k) l h = rw (ticked-append k l h) (or_true _)

-- What an invariant says of the evidence holds of a longer log.
or_mono : (b c d : Bool) → (c ≡ true → d ≡ true) → (b || c) ≡ true → (b || d) ≡ true
or_mono true c d h e = refl
or_mono false c d h e = h e

pub gpio-append :
    (b : Bool) (k l : List Access) → (b || pressed l) ≡ true → (b || pressed (k ++ l)) ≡ true
gpio-append b k l h = or_mono b (pressed l) (pressed (k ++ l)) (pressed-append k l) h

pub timer-append :
    (b : Bool) (k l : List Access) → (b || ticked l) ≡ true → (b || ticked (k ++ l)) ≡ true
timer-append b k l h = or_mono b (ticked l) (ticked (k ++ l)) (ticked-append k l) h

pub silent_log :
    (k l : List Access) → written tx_data k ≡ [] → written tx_data (k ++ l) ≡ written tx_data l
silent_log k l e = written-append tx_data k l ∙ ap (λ ws. ws ++ written tx_data l) e

module _ (w r u : ℕ) where
  module _ {m m' : Machine Globals} (alone : LeftAlone tx_data m m') where
    pub same_written : written tx_data m'.log ≡ written tx_data m.log
    same_written = ap (written tx_data) alone.log ∙ silent_log alone.added m.log alone.silent

    NotSent-alone : NotSent u m → NotSent u m'
    NotSent-alone n = record {
      idle = rw alone.app n.idle;
      flag = rw alone.app n.flag;
      sent = same_written ∙ n.sent;
    }

    -- Before the data is checked, memory may change.
    pub Sound-before :
        {g t : Bool} → Sound w r u g t true not_yet m → Sound w r u g t true not_yet m'
    Sound-before {g} {t} s = record {
      gpio =
          rw (alone.app, alone.log)
            (gpio-append (g && is_clear m.app.gpio_int_status 256) alone.added m.log s.gpio);
      timer =
          rw (alone.app, alone.log)
            (timer-append (t && (m.app.timer_int_status == 0)) alone.added m.log s.timer);
      data_seen = refl;
      addr = rw alone.app s.addr;
      rx = rw alone.app s.rx;
      uart = NotSent-alone s.uart;
    }

module _ (P : Option TestState → Machine Globals → Type 0) where
  pub go_on-Ensures :
      (c : Cmd Globals (Unit {0})) (s : TestState) (m : Machine Globals)
      → Ensures (λ _ m'. P (some s) m') (c m)
      → Ensures P (go_on c s m)
  go_on-Ensures c s m h = Ensures->>= (λ _ m'. P (some s) m') P c _ m h (λ a m' q. q)

  pub if-Ensures :
      (b : Bool) (c d : Cmd Globals (Option TestState)) (m : Machine Globals)
      → (b ≡ true → Ensures P (c m))
      → (b ≡ false → Ensures P (d m))
      → Ensures P ((if b then c else d) m)
  if-Ensures true c d m h k = h refl
  if-Ensures false c d m h k = k refl
