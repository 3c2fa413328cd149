-- ===== src/Apps/NestedInterrupts/Main/Run.antt =====
-- The run of the test of nested interrupts against an I2C slave that answers.
use mlab_mcu_edu.Prelude.{
  ℕ, suc, ◌-◌, ◌≤◌, subst, arith, ◌≡◌, refl, some, List, ◌∷◌, ◌==◌, if◌then◌else◌, bit_or,
}
use mlab_mcu_edu.Machine.{Access, Hardware, Machine, next}
use mlab_mcu_edu.Machine.Runs.{last_write, written, Returned}
use mlab_mcu_edu.Gpio.{gpio_base_addr, gpio_ints, gpio_out}
use mlab_mcu_edu.I2c.{csr, trxr, busy_rx_it}
use mlab_mcu_edu.I2c.Nested.{i2c_handle_init}
use mlab_mcu_edu.Apps.NestedInterrupts.Main.{
  NestedGlobals, Irq, timer_irq, gpio_irq, i2c_irq, i2c_base_address, nested_main,
}
use mlab_mcu_edu.Machine.{wait_clear, poll_clear}
use mlab_mcu_edu.I2c.Nested.{
  i2c_send_byte_it, i2c_read_byte_it, if_tx_address, if_tx_data, if_tx_end, if_tx_ready,
  i2c_master_tx_it_sequence, if_rx_address, if_rx_get_data, if_rx_data, if_rx_end, if_rx_ready,
  i2c_master_rx_it_sequence, i2c_master_tx_it, i2c_master_rx_it, i2c_irq_handler,
}
use mlab_mcu_edu.I2c.Nested.Blocking.{
  i2c_send_byte, i2c_read_byte, address_loop, tx_loop, rx_loop, i2c_master_tx, i2c_master_rx,
}
use mlab_mcu_edu.Apps.NestedInterrupts.{
  timer_handle_init, gpio_handle_init, nested_timer_irq, nested_gpio_irq, nested_i2c_irq, nested,
  critical_section_entry, critical_section_exit,
}
use mlab_mcu_edu.Apps.NestedInterrupts.Main.{
  int_ack_init, check_received, rx_cplt_callback, tx_cplt_callback, timer_callback, gpio_callback,
  take, wait_until,
}

-- The status of an I2C core whose slave acknowledges and that has nothing in progress, the
-- interrupt status of the GPIO, and for every other register what `value` gives.
abbrev pub answering : (value : List Access → ℕ → ℕ) (polls : ℕ) → Hardware
answering value polls = record {
  value = λ l a.
      if a == csr i2c_base_address
      then 0
      else if a == gpio_ints gpio_base_addr
      then 0x1
      else value l a;
  polls = suc polls;
}

-- The timer's interrupt, then the GPIO's, then one of the I2C core for the address, for each of the
-- four bytes and for the end.
abbrev pub schedule : List Irq → List Irq
schedule irqs = timer_irq ∷ gpio_irq ∷ i2c_irq ∷ i2c_irq ∷ i2c_irq ∷ i2c_irq ∷ i2c_irq ∷ irqs

-- The test has passed, with a reception that has only been started.
abbrev pub PassedEarly :
    (tx_buf : ℕ) → Machine NestedGlobals → List Irq → ℕ → Machine NestedGlobals → Type 0
PassedEarly tx_buf m irqs r m' =
    (r ≡ 0)
    × (m'.app.g_ack ≡ record { timer = 1; gpio = 1; i2c_tx = 1; i2c_rx = 0 })
    × (m'.app.g_i2c.state ≡ busy_rx_it)
    × (m'.app.arrivals ≡ irqs)
    × (written (trxr i2c_base_address) m'.log
        ≡ 0xA1
          ∷ m.mem (next tx_buf)
          ∷ m.mem tx_buf
          ∷ 0xA0
          ∷ m.mem (next (next (next tx_buf)))
          ∷ m.mem (next (next tx_buf))
          ∷ m.mem (next tx_buf)
          ∷ m.mem tx_buf
          ∷ 0xA0
          ∷ written (trxr i2c_base_address) m.log)
    × ((v : ℕ) × (last_write (gpio_out gpio_base_addr) m'.log ≡ some (bit_or v 0x80)))
    × (m'.mem ≡ m.mem)
    × (m'.cpu ≡ m.cpu)

module _ (value : List Access → ℕ → ℕ) (polls tx_buf rx_buf : ℕ) where
  main_run :
      (k : ℕ) (irqs : List Irq) (m : Machine NestedGlobals)
      → m.app.arrivals ≡ schedule irqs
      → Returned (PassedEarly tx_buf m irqs) (
          nested_main
            (answering value polls)
            tx_buf
            rx_buf
            (suc (suc (suc (suc (suc (suc (suc (suc k))))))))
            m)
  unfolding poll_clear wait_clear i2c_handle_init i2c_send_byte_it i2c_read_byte_it if_tx_address
      if_tx_data if_tx_end if_tx_ready i2c_master_tx_it_sequence if_rx_address if_rx_get_data
      if_rx_data if_rx_end if_rx_ready i2c_master_rx_it_sequence i2c_master_tx_it i2c_master_rx_it
      i2c_irq_handler i2c_send_byte i2c_read_byte address_loop tx_loop rx_loop i2c_master_tx
      i2c_master_rx timer_handle_init gpio_handle_init nested_timer_irq nested_gpio_irq
      nested_i2c_irq nested critical_section_entry critical_section_exit int_ack_init check_received
      rx_cplt_callback tx_cplt_callback timer_callback gpio_callback take wait_until nested_main
  main_run k irqs m e = rw e (refl, refl, refl, refl, refl, (_, refl), refl, refl)

  -- With an I2C slave that acknowledges, if the timer's interrupt comes first, then that of the
  -- GPIO, nested in it, then five of the I2C core, nested in both, `main` returns 0 and has lit
  -- pin 7 last, for any bound of at least 8 on the interrupts that a loop takes. The core was given
  -- the address and the four bytes of the transmit buffer, then, from the completion callback, the
  -- address and the first two bytes again, then the address for reading. The control and status
  -- registers of the core are as at the start, and so is memory. No interrupt of a reception was
  -- needed: its flag is clear, its handle is still busy and its bytes were neither read nor checked.
  pub nested_main_returns :
      (n : ℕ) (irqs : List Irq) (m : Machine NestedGlobals)
      → 8 ≤ n
      → m.app.arrivals ≡ schedule irqs
      → Returned (PassedEarly tx_buf m irqs) (nested_main (answering value polls) tx_buf rx_buf n m)
  nested_main_returns n irqs m enough e =
      subst
        (λ x.
          Returned (PassedEarly tx_buf m irqs)
            (nested_main (answering value polls) tx_buf rx_buf x m))
        (omega arith) (main_run (n - 8) irqs m e)
