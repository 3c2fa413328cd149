-- ===== src/Apps.antt =====
-- Programs on the drivers.
pub mod FullPeripheral
pub mod Calculator
pub mod Delay
pub mod GpioShift
pub mod GpioSimple
pub mod I2cProduct
pub mod ImemHop
pub mod NestedInterrupts
pub mod Peripherals
pub mod Syscalls
pub mod TimerTest
