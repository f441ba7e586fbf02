-- ===== src/Wire.antt =====
-- ThermoCheck/Pods/nanopb/pb_decode.c: strings, tags and fields of unknown number, and substreams.
pub mod Sound
pub mod Substream
pub mod Progress
use thermo_check.Common.{
  ℕ, zero, suc, ◌-◌, ◌/◌, ◌%◌, ◌^◌, Bool, true, false, Option, List, [], ◌∷◌, length, ltb, ◌==◌,
  if◌then◌else◌, bit_and,
}
use thermo_check.Message.{invalid_wire_type, parent_stream_too_short}
use thermo_check.Common.Exec.{Outcome, ok, failed, fault, pure, continue, ◌>>=◌, ◌>>◌}
use thermo_check.Input.{IStream, Decoder, return_error, pb_read, pb_read_null, first_byte}
use thermo_check.Varint.{pb_decode_varint32_eof, pb_decode_varint32, pb_skip_varint}

unfoldable pub pb_skip_string : Decoder (Unit {0})
pb_skip_string = do length ← pb_decode_varint32; pb_read_null length

-- `*tag` and `*wire_type`.
pub record Tag : Type 0 where
  pub tag : ℕ
  pub wire_type : ℕ

-- What is stored through the pointers when true is returned, with `*eof`.
abbrev pub tag_of : Outcome ℕ × Bool × IStream → Outcome Tag × Bool × IStream
tag_of (ok temp, eof, s) =
    if temp == 0
    then (failed, true, s)
    else (ok (record { tag = temp / 2 ^ 3; wire_type = bit_and temp 7 }), eof, s)
tag_of (failed, eof, s) = (failed, eof, s)
tag_of (fault, eof, s) = (fault, eof, s)

unfoldable pub pb_decode_tag : IStream → Outcome Tag × Bool × IStream
pb_decode_tag s = tag_of (pb_decode_varint32_eof s)

-- PB_WT_VARINT, PB_WT_64BIT, PB_WT_STRING and PB_WT_32BIT.
abbrev pub wt_varint : ℕ
wt_varint = 0

abbrev pub wt_64bit : ℕ
wt_64bit = 1

abbrev pub wt_string : ℕ
wt_string = 2

abbrev pub wt_32bit : ℕ
wt_32bit = 5

unfoldable pub pb_skip_field : ℕ → Decoder (Unit {0})
pb_skip_field wire_type =
    if wire_type == wt_varint
    then pb_skip_varint
    else if wire_type == wt_64bit
    then pb_read_null 8
    else if wire_type == wt_string
    then pb_skip_string
    else if wire_type == wt_32bit
    then pb_read_null 4
    else return_error invalid_wire_type

-- `*buf++ & 0x80` after a byte of a raw varint; `again` reads the bytes behind it.
unfoldable pub raw_round : Decoder (List ℕ) → ℕ → Decoder (List ℕ)
raw_round again byte =
    if bit_and byte 0x80 == 0 then pure (byte ∷ []) else (do bytes ← again; pure (byte ∷ bytes))

-- The loop of `read_raw_value` with `room` bytes of `buf` to go.
unfoldable pub raw_varint : ℕ → Decoder (List ℕ)
raw_varint zero = λ s. (failed, s)
raw_varint (suc room) = do
  bytes ← pb_read 1
  byte ← first_byte bytes
  raw_round (raw_varint room) byte

-- `*size` is the length of what is returned.
unfoldable pub read_raw_value : ℕ → ℕ → Decoder (List ℕ)
read_raw_value wire_type max_size =
    if wire_type == wt_varint
    then raw_varint max_size
    else if wire_type == wt_64bit
    then pb_read 8
    else if wire_type == wt_32bit
    then pb_read 4
    else return_error invalid_wire_type

-- `*substream = *stream` with its length, and the stream without it.
abbrev pub divide : ℕ → Decoder IStream
divide size s =
    if ltb s.bytes_left size
    then return_error parent_stream_too_short s
    else (ok (record s { bytes_left = size }), record s { bytes_left = s.bytes_left - size })

unfoldable pub pb_make_string_substream : Decoder IStream
pb_make_string_substream = do size ← pb_decode_varint32; divide size

-- What follows the read of the bytes that the substream has left.
abbrev pub rejoin : Outcome (Unit {0}) × IStream → Decoder (Unit {0})
rejoin (ok _, substream) s =
    (ok tt, record s { source = substream.source; errmsg = substream.errmsg })
rejoin (failed, substream) s = (failed, s)
rejoin (fault, substream) s = (fault, s)

unfoldable pub pb_close_string_substream : IStream → Decoder (Unit {0})
pb_close_string_substream substream = rejoin (
    if substream.bytes_left == 0
    then (ok tt, substream)
    else pb_read_null substream.bytes_left substream)
