-- ===== src/Messages/Callbacks.antt =====
-- ThermoCheck/Pods/nanopb/pb_decode.c: fields that a user's function decodes.
use thermo_check.Common.{ℕ, zero, suc, ◌||◌, List, length, ◌==◌, if◌then◌else◌}
use thermo_check.Common.Exec.{Outcome, ok, failed, fault, ◌>>=◌, ◌>>◌}
use thermo_check.Message.{callback_failed}
use thermo_check.Memory.{load, add_address}
use thermo_check.Fields.{Field, Iter}
use thermo_check.Input.{IStream, pb_istream_from_buffer}
use thermo_check.Wire.{wt_string, pb_skip_field, read_raw_value, pb_make_string_substream}
use thermo_check.Messages.{
  Env, State, Action, on_stream, return_error, read, close_substream, with_substream,
}

-- `do … while (substream.bytes_left)`. A callback is to read something or to fail, so a round for each
-- byte and one more is fuel enough.
unfoldable pub until_empty : Action (Unit {0}) → Action (Unit {0})
until_empty again s = if s.stream.bytes_left == 0 then (ok tt, s) else again s

unfoldable pub callback_loop : Action (Unit {0}) → ℕ → Action (Unit {0})
callback_loop decode zero = λ s. (fault, s)
callback_loop decode (suc fuel) = decode >> until_empty (callback_loop decode fuel)

-- What follows the loop, with the stream.
unfoldable pub finish_callback : IStream → Outcome (Unit {0}) × State → Outcome (Unit {0}) × State
finish_callback stream (ok a, s) = close_substream stream (ok a, s)
finish_callback stream (failed, s) =
    return_error callback_failed (record { stream = stream; memory = s.memory })
finish_callback stream (fault, s) = (fault, s)

-- A scalar value is copied to a buffer, and the callback reads it there.
abbrev pub from_buffer : Action (Unit {0}) → List ℕ → Action (Unit {0})
from_buffer decode bytes s =
    let (r, t) =
      decode (record { stream = pb_istream_from_buffer bytes (length bytes); memory = s.memory }) in
    (r, record s { memory = t.memory })

-- By the function, for a callback that has one.
unfoldable pub call_decode : Action (Unit {0}) → ℕ → Action (Unit {0})
call_decode decode wire_type s =
    if wire_type == wt_string
    then with_substream finish_callback (λ t. callback_loop decode (suc t.stream.bytes_left) t)
        s.memory (pb_make_string_substream s.stream)
    else (do bytes ← on_stream (read_raw_value wire_type 10); from_buffer decode bytes) s

-- A `pb_callback_t` has the function and its argument.
unfoldable pub decode_callback_field : Env → ℕ → Iter → Field → Action (Unit {0})
decode_callback_field env wire_type iter f = do
  decode ← read (λ m. load 8 m iter.p_data)
  if iter.p_data == 0 || decode == 0
      then on_stream (pb_skip_field wire_type)
      else call_decode (env.callback decode f (add_address iter.p_data 8)) wire_type
