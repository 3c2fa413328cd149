-- ===== src/Tests.antt =====
-- The drivers at concrete inputs: the hardware and the machine that the examples run on, and the
-- theorems applied to them.
mod I2c
mod Uart
mod UartFifo
mod Pins
mod Apps
mod Nested
mod Programs
mod Verdict
mod Peripherals
mod GpioSimple
mod I2cProduct
mod Calculator
use mlab_mcu_edu.Prelude.{ℕ, ◌%◌, []}
use mlab_mcu_edu.Machine.{Hardware, Machine}

-- Every register reads as 0: the I2C slave acknowledges, nothing is busy.
abbrev pub quiet : Hardware
quiet = record { value = λ l a. 0; polls = 3 }

abbrev pub start : Machine (Unit {0})
start = record {
  log = [];
  mem = λ p. p % 256;
  cpu = record { mie = 0; mstatus = 8; mepc = 0 };
  app = tt;
}
