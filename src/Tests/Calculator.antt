-- ===== src/Tests/Calculator.antt =====
-- The calculator and the timer tests at concrete inputs.
use mlab_mcu_edu.Prelude.{ℕ, ◌+◌, ◌-◌, ◌≡◌, refl, some, [], ◌∷◌, ◌++◌, arith, inl, u8}
use mlab_mcu_edu.Machine.{Hardware, Machine, ◌>>=◌}
use mlab_mcu_edu.Machine.Runs.{writes, Does}
use mlab_mcu_edu.Machine.Buffers.{bytes, fill, set_byte, sent_log}
use mlab_mcu_edu.Machine.Series.{interrupts}
use mlab_mcu_edu.Uart.{UartHandle, ready}
use mlab_mcu_edu.Uart.Blocking.Transmission.{tx_of}
use mlab_mcu_edu.Uart.Blocking.Reception.{shown, rx_of}
use mlab_mcu_edu.Apps.Calculator.{Newlib, Addresses, sign_extend, calculator_round}
use mlab_mcu_edu.Apps.Calculator.Round.{IsAnswer, calculator_round_lem}
use mlab_mcu_edu.Apps.Calculator.Talk.{Layout, transcript, number_in}
use mlab_mcu_edu.Apps.TimerTest.{
  timer_test_main, timer_test_irq, retuned_often, first_tuned, timer_test_lem,
}
use mlab_mcu_edu.Tests.{start}
use mlab_mcu_edu.Tests.Uart.{line}

timer_test_lem_example :
    Does
      (timer_test_main >>= interrupts timer_test_irq 3)
      start
      (retuned_often 3 0x403 0x10 ++ first_tuned)
      (0x2000_0000, 0x403)
timer_test_lem_example = timer_test_lem 2 start

-- Every byte heard is a 5.
abbrev fives : Hardware
fives = record { value = λ l a. 0x135; polls = 1 }

abbrev digits : Newlib
digits = record { atoi = λ mem p. mem p - 48; itoa = λ v. (v + 48) ∷ 0 ∷ [] }

abbrev desk : UartHandle
desk = record line { g_state = ready }

abbrev places : Addresses
places = record {
  enter_1st = 100;
  entered = 200;
  enter_2nd = 300;
  enter_operation = 400;
  result = 500;
  receive = 600;
  to_print = 700;
}

laid_out : Layout places
laid_out = record {
  enter_1st = omega arith;
  entered = (omega arith, omega arith, inl (omega arith));
  enter_2nd = (omega arith, omega arith, inl (omega arith));
  enter_operation = (omega arith, omega arith, inl (omega arith));
  result = (omega arith, omega arith, inl (omega arith));
  receive = omega arith;
  to_print = omega arith;
}

calculator_round_lem_example :
    (v₁ v₂ v₃ : ℕ) × (m' : Machine (Unit {0})) × (calculator_round fives digits places desk 7 start
      ≡ some (tt, m'))
    × (shown (rx_of desk) m'.log ≡ v₃ ∷ v₂ ∷ v₁ ∷ [])
    × (ans : ℕ) × IsAnswer 7
        (u8 v₃)
        (number_in digits places (set_byte start.mem 600 (u8 v₁)))
        (number_in digits places (set_byte (set_byte start.mem 600 (u8 v₁)) 600 (u8 v₂)))
        ans
    × (m'.mem
        ≡ fill
            (set_byte (set_byte (set_byte start.mem 600 (u8 v₁)) 600 (u8 v₂)) 600 (u8 v₃))
            700
            (digits.itoa (sign_extend ans)))
    × (writes m'.log
        ≡ sent_log (tx_of desk) (transcript places start.mem v₁ v₂ v₃ (bytes m'.mem 3 700)) ++ [])
calculator_round_lem_example =
    calculator_round_lem fives digits places desk (λ l. tt) refl (λ l. tt) laid_out 7 start
