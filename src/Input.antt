-- ===== src/Input.antt =====
-- ThermoCheck/Pods/nanopb/pb_decode.c: pb_istream_t and the functions that read from it.
-- A stream's `callback` and `state` are one value, a `Source`. The C code is compiled without
-- PB_BUFFER_ONLY and PB_NO_ERRMSG.
pub mod Sound
pub mod Takes
pub mod Buffer
use thermo_check.Common.{
  ℕ, zero, suc, ◌-◌, ◌≤◌, ◌<◌, ◌≡◌, Bool, true, false, ◌&&◌, Option, none, some, List, [], ◌∷◌,
  length, take, drop, ltb, leb, ◌==◌, if◌then◌else◌, All,
}
use thermo_check.Message.{Message, first_message, end_of_stream, io_error}
use thermo_check.Common.Exec.{Outcome, ok, failed, fault, Exec, pure, continue, ◌>>=◌, ◌>>◌}

-- A user's callback: from its state, written as bytes, and a count to the bytes that it stores, or
-- `none` where it returns false, and its state afterwards.
abbrev pub Callback : Type 0
Callback = List ℕ → ℕ → Option (List ℕ) × List ℕ

-- `buffer mem`: the callback is `&buf_read` and the state points at `mem`, the bytes up to the end
-- of the memory. `custom`: another callback and its state.
pub data Source : Type 0 where
  buffer : List ℕ → Source
  custom : Callback → List ℕ → Source

pub record IStream : Type 0 where
  pub source : Source
  pub bytes_left : ℕ
  pub errmsg : Option Message

abbrev pub Decoder : Type 0 → Type 0
Decoder A = Exec IStream A

unfoldable pub return_error : {A : Type 0} → Message → Decoder A
return_error m s = (failed, record s { errmsg = first_message s.errmsg m })

-- The bytes are copied where `buf` is no null pointer.
unfoldable pub buf_read : List ℕ → Bool → ℕ → Outcome (List ℕ) × Source
buf_read mem wanted count =
    if leb count (length mem)
    then (ok (if wanted then take count mem else []), buffer (drop count mem))
    else (fault, buffer mem)

abbrev answer : Option (List ℕ) → Outcome (List ℕ)
answer none = failed
answer (some bytes) = ok bytes

-- `stream->callback(stream, buf, count)`.
unfoldable pub call_callback : Source → Bool → ℕ → Outcome (List ℕ) × Source
unfolding buf_read
call_callback (buffer mem) wanted count = buf_read mem wanted count
call_callback (custom f state) wanted count =
    let (bytes, state') = f state count in (answer bytes, custom f state')

-- What follows a call of the callback for `count` bytes.
unfoldable pub after_callback : ℕ → IStream → Outcome (List ℕ) × Source → Outcome (List ℕ) × IStream
unfolding return_error
after_callback count s (ok bytes, source) =
    (ok bytes, record s { source = source; bytes_left = s.bytes_left - count })
after_callback count s (failed, source) = return_error io_error (record s { source = source })
after_callback count s (fault, source) = (fault, record s { source = source })

-- The part of `pb_read` behind the skipping of input.
unfoldable pub read_bytes : Bool → ℕ → Decoder (List ℕ)
unfolding return_error call_callback after_callback
read_bytes wanted count s =
    if ltb s.bytes_left count
    then return_error end_of_stream s
    else after_callback count s (call_callback s.source wanted count)

-- `pb_read` with a buffer.
unfoldable pub pb_read : ℕ → Decoder (List ℕ)
unfolding read_bytes
pb_read count s = if count == 0 then (ok [], s) else read_bytes true count s

-- `while (count > 16)` and the last read; the fuel bounds the rounds.
unfoldable pub skip_bytes : ℕ → ℕ → Decoder (Unit {0})
unfolding pb_read
skip_bytes zero count = λ s. (fault, s)
skip_bytes (suc fuel) count =
    let rest = skip_bytes fuel (count - 16) in
    if ltb 16 count then (pb_read 16 >> rest) else (pb_read count >> pure tt)

-- `pb_read` with a null pointer for a buffer, by the kind of callback.
unfoldable pub pb_read_null : ℕ → Decoder (Unit {0})
unfolding read_bytes skip_bytes
pb_read_null count s = elim s.source [
  | buffer mem ↦ if count == 0 then (ok tt, s) else (read_bytes false count >> pure tt) s
  | custom f state ↦ if count == 0 then (ok tt, s) else skip_bytes (suc count) count s
]

-- The byte that a read of one byte stores.
abbrev pub first_byte : List ℕ → Decoder ℕ
first_byte [] s = (fault, s)
first_byte (b ∷ bs) s = (ok b, s)

unfoldable pub pb_readbyte : Decoder ℕ
unfolding return_error call_callback after_callback
pb_readbyte s =
    if s.bytes_left == 0
    then return_error end_of_stream s
    else continue first_byte (after_callback 1 s (call_callback s.source true 1))

unfoldable pub pb_istream_from_buffer : List ℕ → ℕ → IStream
pb_istream_from_buffer buf bufsize = record {
  source = buffer buf;
  bytes_left = bufsize;
  errmsg = none;
}
