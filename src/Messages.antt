-- ===== src/Messages.antt =====
-- ThermoCheck/Pods/nanopb/pb_decode.c: messages in the C structures that hold them. What the functions
-- store in memory before they return false is not modelled further than they go on to use it.
pub mod Defaults
pub mod Release
pub mod Values
pub mod Pointers
pub mod Callbacks
pub mod Fields
pub mod Decode
pub mod Tidy
pub mod Substreams
pub mod Nesting
pub mod Recursion
pub mod TidyValues
pub mod TidyStatic
pub mod TidyPointers
pub mod TidyFields
pub mod TidyRounds
pub mod Sound
pub mod Required
pub mod Marks
pub mod Missing
use thermo_check.Common.{ℕ, ◌≡◌, Bool, true, false, Option, none, some, List, ◌==◌, if◌then◌else◌}
use thermo_check.Common.Exec.{Outcome, ok, failed, fault, Exec, pure, continue, ◌>>=◌, ◌>>◌}
use thermo_check.Message.{Message}
use thermo_check.Memory.{Memory, load, store, copy, clear}
use thermo_check.Fields.{Field, Iter}
use thermo_check.Input.{IStream, Decoder}
use thermo_check.Input
use thermo_check.Wire.{pb_make_string_substream, pb_close_string_substream}

-- A stream, and the memory of the process.
pub record State : Type 0 where
  pub stream : IStream
  pub memory : Memory

abbrev pub Action : Type 0 → Type 0
Action A = Exec State A

-- What the functions take from outside.
-- `table`: the table of fields at an address. `callback`: a user's decoding function, by its address,
-- on a field and the address of its argument. `extension_decoder`: a user's function for extension
-- fields, by its address, on the extension, the tag and the wire type. `realloc` and `free`: the C
-- library's, of a pointer and a size, and of a pointer. `depth`: how many structures lie in one another
-- at most where defaults are set or memory is released, and `extensions`: how many extensions a
-- message has at most; what goes further is a fault.
pub record Env : Type 0 where
  pub table : ℕ → List Field
  pub callback : ℕ → Field → ℕ → Action (Unit {0})
  pub extension_decoder : ℕ → ℕ → ℕ → ℕ → Action (Unit {0})
  pub realloc : ℕ → ℕ → Memory → Option (ℕ × Memory)
  pub free : ℕ → Memory → Memory
  pub depth : ℕ
  pub extensions : ℕ

-- A call that uses the stream alone.
unfoldable pub on_stream : {A : Type 0} → Decoder A → Action A
on_stream d s = let (r, t) = d s.stream in (r, record s { stream = t })

unfoldable pub return_error : {A : Type 0} → Message → Action A
return_error m = on_stream (Input.return_error m)

unfoldable pub read : {A : Type 0} → (Memory → A) → Action A
read f s = (ok (f s.memory), s)

unfoldable pub write : (Memory → Memory) → Action (Unit {0})
write f s = (ok tt, record s { memory = f s.memory })

-- What may be `none` where C touches memory that it must not.
unfoldable pub demand : {A : Type 0} → Option A → Action A
demand none s = (fault, s)
demand (some a) s = (ok a, s)

-- A call that changes memory alone.
unfoldable pub put : Option Memory → Action (Unit {0})
put none s = (fault, s)
put (some m) s = (ok tt, record s { memory = m })

unfoldable pub on_memory : (Memory → Option Memory) → Action (Unit {0})
on_memory f s = put (f s.memory) s

-- What follows the calls on a substream, with the status that they had: the closing.
unfoldable pub close_with :
    {A : Type 0} → Outcome A → IStream → Memory → Outcome (Unit {0}) × IStream → Outcome A × State
close_with status stream memory (ok _, t) = (status, record { stream = t; memory = memory })
close_with status stream memory (failed, t) = (failed, record { stream = t; memory = memory })
close_with status stream memory (fault, t) = (fault, record { stream = t; memory = memory })

unfoldable pub close_substream : {A : Type 0} → IStream → Outcome A × State → Outcome A × State
close_substream stream (ok a, s) =
    close_with (ok a) stream s.memory (pb_close_string_substream s.stream stream)
close_substream stream (failed, s) =
    close_with failed stream s.memory (pb_close_string_substream s.stream stream)
close_substream stream (fault, s) = (fault, s)

-- `pb_make_string_substream`, `body` on the substream, and what `finish` does with the stream after it.
unfoldable pub with_substream :
    {A : Type 0}
    → (IStream → Outcome A × State → Outcome A × State)
    → Action A
    → Memory
    → Outcome IStream × IStream
    → Outcome A × State
with_substream finish body memory (ok substream, t) =
    finish t (body (record { stream = substream; memory = memory }))
with_substream finish body memory (failed, t) = (failed, record { stream = t; memory = memory })
with_substream finish body memory (fault, t) = (fault, record { stream = t; memory = memory })

unfoldable pub in_substream : {A : Type 0} → Action A → Action A
in_substream body s =
    with_substream close_substream body s.memory (pb_make_string_substream s.stream)
