-- ===== src/Decode/Robust.antt =====
-- The decoders that a message's bytes reach, on any stream in order, which may stand over a buffer
-- or a user's callback: whatever the bytes are, no memory outside the buffer is touched, every loop
-- ends, and the stream stays in order.
use thermo_check.Common.{ℕ, ◌≤◌, length, All}
use thermo_check.Input.{IStream}
use thermo_check.Input.Sound.{IsByte, IsValid, Any, Ends}
use thermo_check.Varint.{pb_decode_varint, pb_decode_varint32}
use thermo_check.Varint.DecodeSound.{IsWord, pb_decode_varint-IsSound, pb_decode_varint32-IsSound}
use thermo_check.Wire.{pb_skip_field, read_raw_value}
use thermo_check.Wire.Sound.{pb_skip_field-IsSound, read_raw_value-IsSound}
use thermo_check.Decode.{pb_dec_varint, pb_dec_uvarint, pb_dec_svarint}
use thermo_check.Decode.Sound.{
  FitsSigned, FitsUnsigned, pb_dec_varint-IsSound, pb_dec_uvarint-IsSound, pb_dec_svarint-IsSound,
}

module _ (slack : ℕ) (s : IStream) where
  -- On a stream in order, over a buffer or over a callback that stores what it says,
  -- `pb_decode_varint` returns and touches no memory outside the buffer, whatever bytes it meets;
  -- it leaves the stream in order, with no more bytes left than before, and what it returns on
  -- success is a 64-bit word.
  pub pb_decode_varint-Ends :
      IsValid slack s → Ends slack (IsWord 64) s.bytes_left (pb_decode_varint s)
  pb_decode_varint-Ends v = pb_decode_varint-IsSound.run slack s v

  -- On a stream in order, over a buffer or over a callback that stores what it says,
  -- `pb_decode_varint32` returns and touches no memory outside the buffer, whatever bytes it meets;
  -- it leaves the stream in order, with no more bytes left than before, and what it returns on
  -- success is a 32-bit word.
  pb_decode_varint32-Ends :
      IsValid slack s → Ends slack (IsWord 32) s.bytes_left (pb_decode_varint32 s)
  pb_decode_varint32-Ends v = pb_decode_varint32-IsSound.run slack s v

  -- On a stream in order, over a buffer or over a callback that stores what it says,
  -- `pb_skip_field` returns and touches no memory outside the buffer, whatever bytes it meets; it
  -- leaves the stream in order, with no more bytes left than before, and this holds for every wire
  -- type.
  pub pb_skip_field-Ends :
      (wire_type : ℕ) → IsValid slack s → Ends slack Any s.bytes_left (pb_skip_field wire_type s)
  pb_skip_field-Ends wire_type v = (pb_skip_field-IsSound wire_type).run slack s v

  -- On a stream in order, over a buffer or over a callback that stores what it says,
  -- `read_raw_value` returns and touches no memory outside the buffer, whatever bytes it meets; it
  -- leaves the stream in order, with no more bytes left than before, and what it stores on success
  -- is bytes, at most as many as its buffer has room for; this holds for every wire type and a
  -- buffer of eight bytes or more.
  pub read_raw_value-Ends :
      (wire_type max_size : ℕ)
      → 8 ≤ max_size
      → IsValid slack s
      → Ends slack
          (λ bytes. (length bytes ≤ max_size) × All IsByte bytes)
          s.bytes_left
          (read_raw_value wire_type max_size s)
  read_raw_value-Ends wire_type max_size h v =
      (read_raw_value-IsSound wire_type max_size h).run slack s v

  -- On a stream in order, over a buffer or over a callback that stores what it says,
  -- `pb_dec_varint` returns and touches no memory outside the buffer, whatever bytes it meets; it
  -- leaves the stream in order, with no more bytes left than before, and what it stores on success
  -- is a 64-bit word that a signed field of the data size holds unchanged; this holds for every
  -- data size.
  pb_dec_varint-Ends :
      (n : ℕ) → IsValid slack s → Ends slack (FitsSigned n) s.bytes_left (pb_dec_varint n s)
  pb_dec_varint-Ends n v = (pb_dec_varint-IsSound n).run slack s v

  -- On a stream in order, over a buffer or over a callback that stores what it says,
  -- `pb_dec_uvarint` returns and touches no memory outside the buffer, whatever bytes it meets; it
  -- leaves the stream in order, with no more bytes left than before, and what it stores on success
  -- is a 64-bit word that an unsigned field of the data size holds unchanged; this holds for every
  -- data size.
  pub pb_dec_uvarint-Ends :
      (n : ℕ) → IsValid slack s → Ends slack (FitsUnsigned n) s.bytes_left (pb_dec_uvarint n s)
  pb_dec_uvarint-Ends n v = (pb_dec_uvarint-IsSound n).run slack s v

  -- On a stream in order, over a buffer or over a callback that stores what it says,
  -- `pb_dec_svarint` returns and touches no memory outside the buffer, whatever bytes it meets; it
  -- leaves the stream in order, with no more bytes left than before, and what it stores on success
  -- is a 64-bit word that a signed field of the data size holds unchanged; this holds for every
  -- data size.
  pb_dec_svarint-Ends :
      (n : ℕ) → IsValid slack s → Ends slack (FitsSigned n) s.bytes_left (pb_dec_svarint n s)
  pb_dec_svarint-Ends n v = (pb_dec_svarint-IsSound n).run slack s v
