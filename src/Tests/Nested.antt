-- ===== src/Tests/Nested.antt =====
-- Examples on the calls of the I2C driver in any order, on its copy and on the test of nested
-- interrupts.
use mlab_mcu_edu.Prelude.{◌≡◌, refl, List, [], ◌∷◌, arith}
use mlab_mcu_edu.Machine.{Machine}
use mlab_mcu_edu.I2c.Blocking.{master_transmit, master_receive}
use mlab_mcu_edu.I2c.Calls.{Call, transmit_it, receive_it, irq, calls}
use mlab_mcu_edu.I2c.Calls.Sequences.{ReturnsValid}
use mlab_mcu_edu.I2c.Calls.Valid.{calls-IsValid}
use mlab_mcu_edu.I2c.Nested.Blocking.{i2c_master_tx, i2c_master_rx}
use mlab_mcu_edu.I2c.Nested.Equivalence.{nested_calls, nested_calls-calls, i2c_master_tx-rx_same}
use mlab_mcu_edu.Apps.NestedInterrupts.Main.{NestedGlobals, nested_main, i2c_irq}
use mlab_mcu_edu.Apps.NestedInterrupts.Main.Run.{
  answering, PassedEarly, schedule, nested_main_returns,
}
use mlab_mcu_edu.Machine.Runs.{Returned}
use mlab_mcu_edu.Tests.{quiet, start}
use mlab_mcu_edu.Tests.I2c.{bus, idle}

-- Two bytes go out, a reception is asked for too soon and again after the end.
abbrev some_calls : List Call
some_calls =
    transmit_it 0xA0 0x100 2
    ∷ irq
    ∷ receive_it 0xA0 0x200 3
    ∷ irq
    ∷ irq
    ∷ receive_it 0xA0 0x200 3
    ∷ irq
    ∷ irq
    ∷ []

calls-IsValid_example : ReturnsValid (calls quiet idle idle some_calls bus start)
calls-IsValid_example =
    calls-IsValid quiet idle idle (λ i2c m e. rw e tt) (λ i2c m e. rw e tt) some_calls bus start
      ((omega arith, omega arith), (tt, (tt, (tt, (tt, (tt, (tt, (tt, tt)))))))) tt

nested_calls-calls_example :
    nested_calls quiet idle idle some_calls bus start ≡ calls quiet idle idle some_calls bus start
nested_calls-calls_example = nested_calls-calls quiet idle idle some_calls bus start

i2c_master_tx-rx_same_example :
    (i2c_master_tx quiet bus 0xA0 0x100 3 start ≡ master_transmit quiet bus 0xA0 0x100 3 start)
    × (i2c_master_rx quiet bus 0xA0 0x100 3 start ≡ master_receive quiet bus 0xA0 0x100 3 start)
i2c_master_tx-rx_same_example = i2c_master_tx-rx_same quiet bus 0xA0 0x100 3 start

-- One more interrupt of the I2C core is to come.
abbrev nesting : Machine NestedGlobals
nesting = record {
  log = [];
  mem = λ p. p;
  cpu = start.cpu;
  app = record {
    g_ack = record { timer = 7; gpio = 7; i2c_tx = 7; i2c_rx = 7 };
    g_timer = 0;
    g_gpio = record { regs = 0; interrupt_status = 0 };
    g_i2c = bus;
    arrivals = schedule (i2c_irq ∷ []);
  };
}

nested_main_returns_example :
    Returned
      (PassedEarly 0x100 nesting (i2c_irq ∷ []))
      (nested_main (answering (λ l a. 0) 0) 0x100 0x200 10 nesting)
nested_main_returns_example =
    nested_main_returns (λ l a. 0) 0 0x100 0x200 10 (i2c_irq ∷ []) nesting (omega arith) refl
