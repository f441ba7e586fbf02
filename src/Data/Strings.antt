-- ===== src/Data/Strings.antt =====
-- Fields of strings: the length that the encoder counts, the round trip, and the encoders of bytes
-- and strings on any stream in order.
use mathlib.Core.Path.{fun_ext}
use thermo_check.Common.{
  ℕ, zero, suc, ◌+◌, ◌%◌, ◌^◌, ◌<◌, ◌≡◌, refl, true, false, ◌||◌, some, List, [], ◌∷◌, ◌++◌, inl,
  inr, length, length-append, take-append, All, ltb, leb, ◌==◌, arith, Bool-cases,
}
use thermo_check.Message.{bytes_size_exceeded}
use thermo_check.Output.{Sink, sizing, memory, custom, OStream, pb_write, call_callback, buf_write}
use thermo_check.Output.Emits.{take_all}
use thermo_check.Output.Sound.{IsOpen, Keeps, IsSafe, IsSafe-return_error}
use thermo_check.Encode.{pb_encode_string}
use thermo_check.Encode.Sound.{pb_encode_string-IsSafe}
use thermo_check.RoundTrip.{Setting, HasRoom, Transfers, transfers, Reads}
use thermo_check.RoundTrip.Framing.{framed, string-Emits}
use thermo_check.RoundTrip.Strings.{length-framed}
use thermo_check.Data.{
  Storage, in_place, string_room, terminate, string_of_size, pb_dec_string, pb_enc_bytes,
  pb_enc_string, static_below, string_size, string_limit,
}
use thermo_check.Data.RoundTrip.{frame-read, read_into-buffer}

-- A string of `text`, none of whose bytes is 0, in memory that goes on behind its terminator.
string_size-text :
    (max_size : ℕ) (text more : List ℕ)
    → All (λ b. 0 < b) text
    → length text < max_size
    → string_size max_size (text ++ (0 ∷ more)) ≡ some (length text)
unfolding string_size
string_size-text zero text more p h = absurd (omega arith)
string_size-text (suc max_size) [] more p h = refl
string_size-text (suc max_size) (b ∷ text) more (p, q) h =
    rw (positive, string_size-text max_size text more q (omega arith)) refl
  where
    positive : (b == 0) ≡ false
    positive = ground arith

-- Of a longer memory `pb_write` writes the first `count` bytes.
module _ (buf more : List ℕ) where
  call-prefix :
      (sink : Sink)
      → call_callback sink (buf ++ more) (length buf) ≡ call_callback sink buf (length buf)
  unfolding call_callback buf_write
  call-prefix sizing = refl
  call-prefix (memory out room) =
      rw (take-append (length buf) buf more refl, take_all buf, long, short) refl
    where
      long : leb (length buf) (length (buf ++ more)) ≡ true
      long = ground (arith, length-append buf more)

      short : leb (length buf) (length buf) ≡ true
      short = ground arith
  call-prefix (custom f state) =
      rw (take-append (length buf) buf more refl, take_all buf, long, short) refl
    where
      long : leb (length buf) (length (buf ++ more)) ≡ true
      long = ground (arith, length-append buf more)

      short : leb (length buf) (length buf) ≡ true
      short = ground arith

  write-prefix : pb_write (buf ++ more) (length buf) ≡ pb_write buf (length buf)
  unfolding pb_write
  write-prefix = fun_ext λ s. rw (call-prefix s.sink) refl

  encode_string-prefix :
      pb_encode_string (buf ++ more) (length buf) ≡ pb_encode_string buf (length buf)
  unfolding pb_encode_string
  encode_string-prefix = rw (write-prefix) refl

string-Reads :
    (data_size : ℕ) (text : List ℕ)
    → length text < data_size
    → data_size < 2 ^ 32
    → Reads (framed text) (pb_dec_string (in_place data_size)) (text ++ (0 ∷ []))
unfolding pb_dec_string string_of_size string_room terminate
string-Reads data_size text k h rest left own =
    rw
      (
        frame-read (string_of_size (in_place data_size)) text rest left own (omega arith),
        whole,
        grows,
        fits,
        read_into-buffer data_size text rest left own (omega arith),
        room,
      )
      refl
  where
    whole : (length text + 1) % 2 ^ 32 ≡ length text + 1
    whole = omega arith

    grows : ltb (length text + 1) (length text) ≡ false
    grows = ground arith

    fits : ltb data_size (length text + 1) ≡ false
    fits = ground arith

    room : ltb (length text) data_size ≡ true
    room = ground arith

-- For a field in the structure, whose data size is below 2 ^ 32, that holds a text shorter than the
-- data size, with no byte 0, its terminator and any bytes behind it, `pb_enc_string` on a stream
-- over memory with room for the text and ten bytes more succeeds and appends bytes, from which
-- `pb_dec_string` for that field reads the text with its terminator, stopping behind them.
pub pb_dec_string-pb_enc_string :
    (data_size : ℕ) (text more : List ℕ) (s : Setting)
    → All (λ b. 0 < b) text
    → length text < data_size
    → data_size < 2 ^ 32
    → HasRoom (10 + length text) s
    → Transfers s
        (pb_enc_string (in_place data_size) (some (text ++ (0 ∷ more))))
        (pb_dec_string (in_place data_size))
        (text ++ (0 ∷ []))
unfolding pb_enc_string
pb_dec_string-pb_enc_string data_size text more s p k h r =
    rw (string_size-text data_size text more p k, encode_string-prefix text (0 ∷ more))
      (transfers s (10 + length text) (framed text) (pb_encode_string text (length text))
        (pb_dec_string (in_place data_size)) (text ++ (0 ∷ [])) (string-Emits text (omega arith))
        (string-Reads data_size text k h) (length-framed text) r)

enc_bytes-IsSafe :
    (storage : Storage) (src : List ℕ)
    → length src < 2 ^ 32
    → IsSafe (pb_enc_bytes storage (some src))
unfolding pb_enc_bytes
enc_bytes-IsSafe storage src h =
    elim (Bool-cases (
      ltb ((length src + 4) % 2 ^ 64) (length src)
      || static_below storage ((length src + 4) % 2 ^ 64))) [
        | inl e ↦ rw e (IsSafe-return_error bytes_size_exceeded)
        | inr e ↦ rw e (pb_encode_string-IsSafe src (omega arith))
      ]

-- On a stream in order, with any room and any callback, `pb_enc_bytes` returns and writes no memory
-- behind `max_size`: it leaves the stream in order with the same `max_size`, so over memory
-- `bytes_written` still is the number of bytes written and at most `max_size`; this holds for every
-- field and fewer than 2 ^ 32 bytes.
pb_enc_bytes-Keeps :
    (storage : Storage) (src : List ℕ) (s : OStream)
    → length src < 2 ^ 32
    → IsOpen s
    → Keeps s.max_size (pb_enc_bytes storage (some src) s)
pb_enc_bytes-Keeps storage src s h o = (enc_bytes-IsSafe storage src h).run s o

-- On a stream in order, with any room and any callback, `pb_enc_string` returns and writes no
-- memory behind `max_size`: it leaves the stream in order with the same `max_size`, so over memory
-- `bytes_written` still is the number of bytes written and at most `max_size`; this holds for every
-- field that holds a text with no byte 0, shorter than 2 ^ 64 bytes and than the limit of the
-- search for the terminator, its terminator and any bytes behind it.
pb_enc_string-Keeps :
    (storage : Storage) (text more : List ℕ) (s : OStream)
    → All (λ b. 0 < b) text
    → length text < string_limit storage
    → length text < 2 ^ 64
    → IsOpen s
    → Keeps s.max_size (pb_enc_string storage (some (text ++ (0 ∷ more))) s)
unfolding pb_enc_string
pb_enc_string-Keeps storage text more s p k h o =
    rw (string_size-text (string_limit storage) text more p k, encode_string-prefix text (0 ∷ more))
      ((pb_encode_string-IsSafe text h).run s o)
