-- ===== src/Output.antt =====
-- ThermoCheck/Pods/nanopb/pb_encode.c: pb_ostream_t and the function that writes to it.
-- A stream's `callback` and `state` are one value, a `Sink`. `size_t` has 64 bits.
pub mod Emits
pub mod Sound
use thermo_check.Common.{
  ℕ, ◌+◌, ◌-◌, ◌%◌, ◌^◌, Bool, true, false, ◌&&◌, ◌||◌, Option, none, List, [], ◌++◌, length, take,
  ltb, leb, if◌then◌else◌,
}
use thermo_check.Message.{Message, first_message, stream_full, io_error}
use thermo_check.Common.Exec.{Outcome, ok, failed, fault, Exec}

-- A user's callback: from its state, written as bytes, and the bytes to write to whether it
-- returned true, and its state afterwards.
abbrev pub WriteCallback : Type 0
WriteCallback = List ℕ → List ℕ → Bool × List ℕ

-- `sizing`: the callback is a null pointer. `memory`: the callback is `&buf_write`; `out` is what
-- has been written, and `room` the bytes of memory from the state on. `custom`: another callback
-- and its state.
pub data Sink : Type 0 where
  sizing : Sink
  memory : List ℕ → ℕ → Sink
  custom : WriteCallback → List ℕ → Sink

pub record OStream : Type 0 where
  pub sink : Sink
  pub max_size : ℕ
  pub bytes_written : ℕ
  pub errmsg : Option Message

abbrev pub Encoder : Type 0
Encoder = Exec OStream (Unit {0})

unfoldable pub return_error : Message → Encoder
return_error m s = (failed, record s { errmsg = first_message s.errmsg m })

abbrev pub has_callback : Sink → Bool
has_callback sizing = false
has_callback (memory out room) = true
has_callback (custom f state) = true

-- `buf_write`, on memory with `room` bytes left and a source of `count` bytes at least.
unfoldable pub buf_write : List ℕ → ℕ → List ℕ → ℕ → Outcome (Unit {0}) × Sink
buf_write out room buf count =
    if leb count room && leb count (length buf)
    then (ok tt, memory (out ++ take count buf) (room - count))
    else (fault, memory out room)

abbrev written : Bool → Outcome (Unit {0})
written true = ok tt
written false = failed

-- `stream->callback(stream, buf, count)`. A null callback is not called.
unfoldable pub call_callback : Sink → List ℕ → ℕ → Outcome (Unit {0}) × Sink
unfolding buf_write
call_callback sizing buf count = (fault, sizing)
call_callback (memory out room) buf count = buf_write out room buf count
call_callback (custom f state) buf count =
    if leb count (length buf)
    then (let (done, state') = f state (take count buf) in (written done, custom f state'))
    else (fault, custom f state)

-- `stream->bytes_written + count`, in a `size_t`.
abbrev pub add_size : ℕ → ℕ → ℕ
add_size a b = (a + b) % 2 ^ 64

-- What follows a call of the callback for `count` bytes.
unfoldable pub after_callback :
    ℕ → OStream → Outcome (Unit {0}) × Sink → Outcome (Unit {0}) × OStream
unfolding return_error
after_callback count s (ok _, sink) =
    (ok tt, record s { sink = sink; bytes_written = add_size s.bytes_written count })
after_callback count s (failed, sink) = return_error io_error (record s { sink = sink })
after_callback count s (fault, sink) = (fault, record s { sink = sink })

-- `buf` is `[]` for a null pointer.
unfoldable pub pb_write : List ℕ → ℕ → Encoder
unfolding return_error call_callback after_callback
pb_write buf count s =
    if ltb 0 count && has_callback s.sink
    then (if ltb (add_size s.bytes_written count) s.bytes_written
          || ltb s.max_size (add_size s.bytes_written count)
        then return_error stream_full s
        else after_callback count s (call_callback s.sink buf count))
    else (ok tt, record s { bytes_written = add_size s.bytes_written count })

unfoldable pub pb_ostream_from_buffer : ℕ → OStream
pb_ostream_from_buffer bufsize = record {
  sink = memory [] bufsize;
  max_size = bufsize;
  bytes_written = 0;
  errmsg = none;
}

-- PB_OSTREAM_SIZING: all zero.
abbrev pub sizing_stream : OStream
sizing_stream = record { sink = sizing; max_size = 0; bytes_written = 0; errmsg = none }
