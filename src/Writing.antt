-- ===== src/Writing.antt =====
-- ThermoCheck/Pods/nanopb/pb_encode.c: messages that are read from C structures and written to a stream.
pub mod Defaults
pub mod Values
pub mod Fields
pub mod Encode
pub mod Framing
pub mod Steady
use thermo_check.Common.{ℕ, List}
use thermo_check.Memory.{Memory}
use thermo_check.Fields.{Field}
use thermo_check.Output.{Encoder}

-- What the functions read, and what they take from outside.
-- `memory`: the memory of the process, which they do not change. `table`: the table of fields at an
-- address. `callback`: a user's encoding function, by its address, on a field and the address of its
-- argument. `extension_encoder`: a user's function for extensions, by its address, on the extension.
-- `extent`: how many bytes can be read from an address on, where a string is searched for its
-- terminator. `depth`: how many structures lie in one another at most, and `extensions`: how many
-- extensions a message has at most; what goes further is a fault.
pub record Context : Type 0 where
  pub memory : Memory
  pub table : ℕ → List Field
  pub callback : ℕ → Field → ℕ → Encoder
  pub extension_encoder : ℕ → ℕ → Encoder
  pub extent : ℕ → ℕ
  pub depth : ℕ
  pub extensions : ℕ
