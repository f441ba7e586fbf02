-- ===== src/Encode/Sound.antt =====
-- The encoders of numbers, tags and strings on any stream in order, with too little room included.
use thermo_check.Common.{
  ℕ, ◌/◌, ◌^◌, ◌<◌, Option, none, some, List, [], ◌∷◌, length, length-append, bit_and, arith,
}
use thermo_check.Common.Words.{sign_extend}
use thermo_check.Message.{invalid_data_size}
use thermo_check.Output.{OStream, Encoder, pb_write}
use thermo_check.Output.Sound.{
  IsOpen, Keeps, IsSafe, IsSafe-return_error, IsSafe-bind, pb_write-IsSafe,
}
use thermo_check.Encode.{
  pb_encode_varint, zigzag, pb_encode_svarint, pb_encode_fixed64, pb_encode_string, load_signed,
  load_unsigned, encode_loaded, pb_enc_varint, pb_enc_uvarint, pb_enc_svarint,
}
use thermo_check.Encode.Varint.{varint, length-leading, leading, highest, pb_encode_varint-eq}

pub pb_encode_varint-IsSafe : (v : ℕ) → v < 2 ^ 64 → IsSafe (pb_encode_varint v)
pb_encode_varint-IsSafe v h = rw (pb_encode_varint-eq v h) (
    pb_write-IsSafe (varint v)
      (ground (arith, length-append (leading 9 v) (highest 9 v ∷ []), length-leading 9 v)))

zigzag-word : (v : ℕ) → zigzag v < 2 ^ 64
unfolding zigzag
zigzag-word v = ground arith

pub pb_encode_svarint-IsSafe : (v : ℕ) → IsSafe (pb_encode_svarint v)
unfolding pb_encode_svarint
pb_encode_svarint-IsSafe v = pb_encode_varint-IsSafe (zigzag v) (zigzag-word v)

pub pb_encode_fixed64-IsSafe : (v : ℕ) → IsSafe (pb_encode_fixed64 v)
unfolding pb_encode_fixed64
pb_encode_fixed64-IsSafe v =
    pb_write-IsSafe
      (bit_and v 0xff
        ∷ bit_and (v / 2 ^ 8) 0xff
        ∷ bit_and (v / 2 ^ 16) 0xff
        ∷ bit_and (v / 2 ^ 24) 0xff
        ∷ bit_and (v / 2 ^ 32) 0xff
        ∷ bit_and (v / 2 ^ 40) 0xff
        ∷ bit_and (v / 2 ^ 48) 0xff
        ∷ bit_and (v / 2 ^ 56) 0xff
        ∷ [])
      (omega arith)

pub pb_encode_string-IsSafe :
    (buf : List ℕ) → length buf < 2 ^ 64 → IsSafe (pb_encode_string buf (length buf))
unfolding pb_encode_string
pb_encode_string-IsSafe buf h =
    IsSafe-bind (pb_encode_varint (length buf)) (λ _. pb_write buf (length buf))
      (pb_encode_varint-IsSafe (length buf) h) (λ _. pb_write-IsSafe buf h)

IsLoaded : Option ℕ → Type 0
IsLoaded none = Unit
IsLoaded (some v) = v < 2 ^ 64

word_8 : (src : ℕ) → sign_extend 8 src < 2 ^ 64
unfolding sign_extend
word_8 src = ground arith

word_16 : (src : ℕ) → sign_extend 16 src < 2 ^ 64
unfolding sign_extend
word_16 src = ground arith

word_32 : (src : ℕ) → sign_extend 32 src < 2 ^ 64
unfolding sign_extend
word_32 src = ground arith

word_64 : (src : ℕ) → sign_extend 64 src < 2 ^ 64
unfolding sign_extend
word_64 src = ground arith

load_signed-IsLoaded : (n src : ℕ) → IsLoaded (load_signed n src)
unfolding load_signed IsLoaded
load_signed-IsLoaded n src = ground (arith, word_8 src, word_16 src, word_32 src, word_64 src)

load_unsigned-IsLoaded : (n src : ℕ) → IsLoaded (load_unsigned n src)
unfolding load_unsigned IsLoaded
load_unsigned-IsLoaded n src = ground arith

module _ (encode : ℕ → Encoder) (safe : (v : ℕ) → v < 2 ^ 64 → IsSafe (encode v)) where
  loaded : (o : Option ℕ) → IsLoaded o → IsSafe (encode_loaded encode o)
  unfolding IsLoaded
  loaded none h = IsSafe-return_error invalid_data_size
  loaded (some v) h = safe v h

-- On a stream in order, with any room and any callback, `pb_enc_varint` returns and writes no
-- memory behind `max_size`: it leaves the stream in order with the same `max_size`, so over memory
-- `bytes_written` still is the number of bytes written and at most `max_size`; this holds for every
-- data size and field.
pb_enc_varint-Keeps :
    (n src : ℕ) (s : OStream) → IsOpen s → Keeps s.max_size (pb_enc_varint n src s)
unfolding pb_enc_varint
pb_enc_varint-Keeps n src s o =
    (loaded pb_encode_varint pb_encode_varint-IsSafe (load_signed n src)
        (load_signed-IsLoaded n src)).run
      s o

-- On a stream in order, with any room and any callback, `pb_enc_uvarint` returns and writes no
-- memory behind `max_size`: it leaves the stream in order with the same `max_size`, so over memory
-- `bytes_written` still is the number of bytes written and at most `max_size`; this holds for every
-- data size and field.
pb_enc_uvarint-Keeps :
    (n src : ℕ) (s : OStream) → IsOpen s → Keeps s.max_size (pb_enc_uvarint n src s)
unfolding pb_enc_uvarint
pb_enc_uvarint-Keeps n src s o =
    (loaded pb_encode_varint pb_encode_varint-IsSafe (load_unsigned n src)
        (load_unsigned-IsLoaded n src)).run
      s o

-- On a stream in order, with any room and any callback, `pb_enc_svarint` returns and writes no
-- memory behind `max_size`: it leaves the stream in order with the same `max_size`, so over memory
-- `bytes_written` still is the number of bytes written and at most `max_size`; this holds for every
-- data size and field.
pub pb_enc_svarint-Keeps :
    (n src : ℕ) (s : OStream) → IsOpen s → Keeps s.max_size (pb_enc_svarint n src s)
unfolding pb_enc_svarint
pb_enc_svarint-Keeps n src s o =
    (loaded pb_encode_svarint (λ v _. pb_encode_svarint-IsSafe v) (load_signed n src)
        (load_signed-IsLoaded n src)).run
      s o

-- On a stream in order, with any room and any callback, `pb_encode_string` returns and writes no
-- memory behind `max_size`: it leaves the stream in order with the same `max_size`, so over memory
-- `bytes_written` still is the number of bytes written and at most `max_size`; this holds for every
-- buffer shorter than 2 ^ 64 bytes.
pub pb_encode_string-Keeps :
    (buf : List ℕ) (s : OStream)
    → length buf < 2 ^ 64
    → IsOpen s
    → Keeps s.max_size (pb_encode_string buf (length buf) s)
pb_encode_string-Keeps buf s h o = (pb_encode_string-IsSafe buf h).run s o
