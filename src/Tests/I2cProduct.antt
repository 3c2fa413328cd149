-- ===== src/Tests/I2cProduct.antt =====
-- The I2C test: 200 and 201 at 456 are written back with their product, 40200, from 512.
use mlab_mcu_edu.Prelude.{◌%◌}
use mlab_mcu_edu.Machine.{Machine}
use mlab_mcu_edu.Tests.{start}

abbrev two_bytes : Machine (Unit {0})
two_bytes = record start { mem = λ p. p % 256 }
