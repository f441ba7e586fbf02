-- ===== src/Data/RoundTrip.antt =====
-- Fields of bytes and strings, from pb_encode.c back through pb_decode.c.
use thermo_check.Common.{
  ℕ, ◌+◌, ◌-◌, ◌%◌, ◌^◌, ◌≤◌, ◌<◌, ◌≡◌, refl, sym, true, false, ◌||◌, Option, some, List, ◌++◌,
  length, ltb, leb, ◌==◌, arith,
}
use thermo_check.Message.{Message}
use thermo_check.Common.Exec.{◌>>=◌}
use thermo_check.Input.{Decoder}
use thermo_check.Input.Buffer.{reading, gives, pb_read-buffer}
use thermo_check.Encode.{pb_encode_string, pb_enc_fixed_length_bytes}
use thermo_check.Varint.{pb_decode_varint32}
use thermo_check.RoundTrip.{Setting, HasRoom, Transfers, transfers, Reads}
use thermo_check.RoundTrip.Numbers.{varint32-Reads}
use thermo_check.RoundTrip.Framing.{framed, string-Emits, at_frame}
use thermo_check.RoundTrip.Strings.{length-framed}
use thermo_check.Data.{
  in_place, read_into, bytes_room, bytes_of_size, pb_dec_bytes, fixed_of_size,
  pb_dec_fixed_length_bytes, pb_enc_bytes,
}

-- A decoder that reads a length and what `body` makes of the frame's bytes.
pub frame-read :
    {A : Type 0} (body : ℕ → Decoder A) (bytes rest : List ℕ) (left : ℕ) (own : Option Message)
    → length bytes < 2 ^ 32
    → (pb_decode_varint32 >>= body)
        (reading (framed bytes ++ rest) (length (framed bytes) + left) own)
      ≡ body (length bytes) (reading (bytes ++ rest) (length bytes + left) own)
frame-read body bytes rest left own h =
    rw
      (
        at_frame bytes rest left own,
        varint32-Reads (length bytes) h (bytes ++ rest) (length bytes + left) own,
      )
      refl

pub read_into-buffer :
    (room : ℕ) (bytes rest : List ℕ) (left : ℕ) (own : Option Message)
    → length bytes ≤ room
    → read_into room (length bytes) (reading (bytes ++ rest) (length bytes + left) own)
      ≡ gives rest left own bytes
unfolding read_into
read_into-buffer room bytes rest left own h =
    rw (fits) (pb_read-buffer own (length bytes) bytes rest left refl)
  where
    fits : leb (length bytes) room ≡ true
    fits = ground arith

fixed-Reads :
    (data_size : ℕ) (src : List ℕ)
    → length src ≡ data_size
    → 0 < data_size
    → data_size < 2 ^ 32
    → Reads (framed src) (pb_dec_fixed_length_bytes data_size) src
unfolding pb_dec_fixed_length_bytes fixed_of_size
fixed-Reads data_size src e p h rest left own =
    rw
      (
        frame-read (fixed_of_size data_size) src rest left own (omega arith),
        small,
        some_bytes,
        same,
        sym e,
      )
      (read_into-buffer (length src) src rest left own (omega arith))
  where
    small : ltb (2 ^ 32 - 1) (length src) ≡ false
    small = ground arith

    some_bytes : (length src == 0) ≡ false
    some_bytes = ground arith

    same : (length src == data_size) ≡ true
    same = ground arith

-- For one byte or more, fewer than 2 ^ 32, and a field of that data size,
-- `pb_enc_fixed_length_bytes` on a stream over memory with room for the bytes and ten more succeeds
-- and appends bytes, from which `pb_dec_fixed_length_bytes` for that field reads them back,
-- stopping behind them.
pub pb_dec_fixed_length_bytes-pb_enc_fixed_length_bytes :
    (src : List ℕ) (s : Setting)
    → 0 < length src
    → length src < 2 ^ 32
    → HasRoom (10 + length src) s
    → Transfers s
        (pb_enc_fixed_length_bytes (length src) src)
        (pb_dec_fixed_length_bytes (length src))
        src
unfolding pb_enc_fixed_length_bytes
pb_dec_fixed_length_bytes-pb_enc_fixed_length_bytes src s p h r =
    transfers s (10 + length src) (framed src) (pb_encode_string src (length src))
      (pb_dec_fixed_length_bytes (length src)) src (string-Emits src (omega arith))
      (fixed-Reads (length src) src refl p h) (length-framed src) r

bytes-Reads :
    (data_size : ℕ) (src : List ℕ)
    → length src + 4 ≤ data_size
    → data_size < 2 ^ 32
    → Reads (framed src) (pb_dec_bytes (in_place data_size)) src
unfolding pb_dec_bytes bytes_of_size bytes_room
bytes-Reads data_size src k h rest left own =
    rw
      (
        frame-read (bytes_of_size (in_place data_size)) src rest left own (omega arith),
        whole,
        small,
        grows,
        fits,
      )
      (read_into-buffer (data_size - 4) src rest left own (omega arith))
  where
    whole : (length src + 4) % 2 ^ 64 ≡ length src + 4
    whole = omega arith

    small : ltb (2 ^ 32 - 1) (length src) ≡ false
    small = ground arith

    grows : ltb (length src + 4) (length src) ≡ false
    grows = ground arith

    fits : ltb data_size (length src + 4) ≡ false
    fits = ground arith

enc_bytes-eq :
    (data_size : ℕ) (src : List ℕ)
    → length src + 4 ≤ data_size
    → data_size < 2 ^ 32
    → pb_enc_bytes (in_place data_size) (some src) ≡ pb_encode_string src (length src)
unfolding pb_enc_bytes
enc_bytes-eq data_size src k h = rw (whole, fits) refl
  where
    whole : (length src + 4) % 2 ^ 64 ≡ length src + 4
    whole = omega arith

    fits : (ltb (length src + 4) (length src) || ltb data_size (length src + 4)) ≡ false
    fits = ground arith

-- For bytes that fit, with the four bytes of their size, a field in the structure whose data size
-- is below 2 ^ 32, `pb_enc_bytes` on a stream over memory with room for the bytes and ten more
-- succeeds and appends bytes, from which `pb_dec_bytes` for that field reads them back, stopping
-- behind them.
pub pb_dec_bytes-pb_enc_bytes :
    (data_size : ℕ) (src : List ℕ) (s : Setting)
    → length src + 4 ≤ data_size
    → data_size < 2 ^ 32
    → HasRoom (10 + length src) s
    → Transfers s
        (pb_enc_bytes (in_place data_size) (some src))
        (pb_dec_bytes (in_place data_size))
        src
pb_dec_bytes-pb_enc_bytes data_size src s k h r = rw (enc_bytes-eq data_size src k h) (
    transfers s (10 + length src) (framed src) (pb_encode_string src (length src))
      (pb_dec_bytes (in_place data_size)) src (string-Emits src (omega arith))
      (bytes-Reads data_size src k h) (length-framed src) r)
