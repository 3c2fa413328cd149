-- ===== src/Lib.antt =====
-- The peripheral drivers of the microcontroller's software, sw/ibex: I2C master, UART with and
-- without FIFOs, GPIO and timer.
--
-- The parts and how they interact. A driver keeps a handle for its peripheral and reaches the
-- peripheral through memory-mapped registers. Its functions either wait in loops on status bits
-- (blocking) or set a transfer up and leave the rest to an interrupt handler, which calls a
-- completion callback of the application at the end. The drivers share no state.
--
-- The machine (Machine). A command takes the log of all register accesses, a flat byte memory with
-- the buffers, the control and status registers `mie`, `mstatus` and `mepc`, and the globals of the
-- application, and returns a result with a new machine, or `none`. What a `volatile` read returns
-- is a parameter, `Hardware`: a function from the accesses so far and the address, since the
-- peripherals are Verilog (rtl/) and no part of the software. A property states what it needs of
-- the hardware as a hypothesis: that a busy bit is seen clear within some number of reads, that a
-- slave acknowledges, that a register reads as it was written. Handles that the source passes by
-- pointer are passed and returned; a callback takes the handle and returns it. Machine/Runs says
-- what a run wrote, Machine/Got what it stored, Machine/Waits how often a wait loop had to look and
-- what it saw, Machine/Traffic what went through one register, Machine/Keeps what holds of a command
-- if it returns and which registers it leaves alone, Machine/Series runs interrupts in a row.
--
-- Where a part is modelled:
--   sw/ibex/common/drivers/i2c/v0.1/i2c_master.{c,h}: I2c has the registers, the handle and the
--     macros; I2c/Blocking `I2C_Init` and the functions that wait; I2c/Interrupt the rest, with one
--     function for each `if` of the two sequence functions. I2c/Frames gives the meaning of the
--     writes as frames on the bus.
--   sw/ibex/other_test/uart_no_fifo/core/{src/uart.c,inc/uart.h}: Uart, Uart/Blocking,
--     Uart/Interrupt, whose child Duplex has the abstract line that the two handlers are compared with.
--   sw/ibex/other_test/uart/core/{src/uart.c,inc/uart.h}: UartFifo.
--   sw/ibex/common/drivers/gpio/v0.1/gpio.{c,h}: Gpio.
--   sw/ibex/common/drivers/v0.5/{src/timer.c,inc/timer.h}: Timer; the static shadow of the control
--     register is passed and returned.
--   sw/ibex/other_test/full_peripheral_v2/core: Apps/FullPeripheral, whose state is that of the loop
--     of `main` and whose globals are those of main.c, with its runs in Apps/FullPeripheral/Verdict
--     and its traffic with the EEPROM in Apps/FullPeripheral/Eeprom;
--     sw/ibex/test/gpio/core/src/main.c: Apps/GpioShift; `_sbrk`, `_write` and `_read` of sw/ibex/other_test/uart_no_fifo/core:
--     Apps/Syscalls; main.c and int.c of sw/ibex/test/full_peripheral/core: Apps/Peripherals;
--     sw/ibex/other_test/i2c/core/src/main.c: Apps/I2cProduct; sw/ibex/test/gpio_simple/core/src/gpio.c:
--     Apps/GpioSimple.
--   sw/ibex/other_test/nested_interrupts: the entries of core/src/int.c in Apps/NestedInterrupts, the
--     program core/src/main.c in Apps/NestedInterrupts/Main, its copy of the I2C driver,
--     drivers/src/i2c_master.c, in I2c/Nested, which I2c/Nested/Equivalence compares with version 0.1
--     over the calls of I2c/Calls.
--   sw/ibex/test/uart_simple/core/src/main.c: Apps/Calculator; sw/ibex/other_test/timer and
--     timer_handler_and_callback: Apps/TimerTest.
--   sw/ibex/other_test/imem_hop: Apps/ImemHop; `DELAY_US` and `DELAY_MS` of
--     sw/ibex/other_test/uart/core/src/main.c: Apps/Delay.
-- Tests applies the theorems at concrete inputs.
--
-- Numbers. Bytes, counts and addresses are natural numbers with the wrap-around written out: a
-- 16-bit count goes from 0 to 65535 (`pred16`), a pointer is a 32-bit number (`next`).
--
-- Bounds. A wait loop of the source has no bound; here it reads at most `polls` times and is then
-- `none`. The theorems that a call returns give the hypothesis under which `polls` is enough, and
-- hold for every value of it; nothing is claimed of a run that ends in `none`. Loops on a size are
-- recursions on it. The depth of calls and of nested interrupts is bounded in the same way.
--
-- Interrupts. A theorem on a driver runs its handler between its calls, in any number and order. In
-- the test of nested interrupts the program waits in loops for flags that interrupts set: there an
-- interrupt arrives in a loop that waits, runs its entry and callback, which may wait in turn, and
-- the loop goes on. In the two tests of the peripherals they come between the rounds of the loop, in
-- any order. An interrupt
-- between two other statements is not modelled.
--
-- Not modelled: time but for the cycle counter of the delays, the weak default callbacks, newlib
-- (sw/ibex/common/lib), start-up code, linker scripts, the main programs of the tests but those named
-- above, and the hardware description.
pub mod Prelude
pub mod Machine
pub mod Gpio
pub mod Timer
pub mod I2c
pub mod Uart
pub mod UartFifo
pub mod Apps
pub mod Tests
