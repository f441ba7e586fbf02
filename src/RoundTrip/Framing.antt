-- ===== src/RoundTrip/Framing.antt =====
-- Round trips of tags and strings, and the skipping of fields.
use mathlib.Core.List.{append_assoc}
use thermo_check.Common.{
  ℕ, ◌+◌, ◌-◌, ◌*◌, ◌/◌, ◌%◌, ◌^◌, ◌≤◌, ◌<◌, ◌≡◌, refl, ap, ◌∙◌, false, Option, List, ◌++◌, length,
  length-append, ltb, ◌==◌, bit_and, bit_or, arith,
}
use thermo_check.Common.Bits.{shifted-bit_or, bit_and_seven}
use thermo_check.Common.Exec.{Outcome, ok, failed, fault}
use thermo_check.Message.{Message}
use thermo_check.Input.{IStream, pb_readbyte}
use thermo_check.Input.Buffer.{reading, pb_read_null-buffer}
use thermo_check.Output.Emits.{Emits, writing, Emits-bind, pb_write-Emits}
use thermo_check.Varint.{pb_decode_varint32, pb_decode_varint32_eof, varint32_first}
use thermo_check.Varint.DecodeSound.{without_eof}
use thermo_check.Encode.{pb_encode_varint, pb_encode_tag, pb_encode_string}
use thermo_check.Encode.Varint.{varint, pb_encode_varint-Emits}
use thermo_check.Wire.{pb_decode_tag, pb_skip_string, pb_make_string_substream}
use thermo_check.RoundTrip.{Reads, Setting, HasRoom, target}
use thermo_check.RoundTrip.Numbers.{varint32-Reads, length-varint}

-- The word of a tag.
tag_word :
    (wiretype field_number : ℕ)
    → wiretype < 8
    → field_number < 2 ^ 29
    → bit_or (field_number * 2 ^ 3 % 2 ^ 64) wiretype ≡ field_number * 8 + wiretype
tag_word wiretype field_number h k =
    ap (λ (t : ℕ). bit_or t wiretype) unwrapped ∙ shifted-bit_or 3 field_number wiretype h
  where
    unwrapped : field_number * 2 ^ 3 % 2 ^ 64 ≡ field_number * 2 ^ 3
    unwrapped = omega arith

pub tag-Emits :
    (wiretype field_number : ℕ)
    → wiretype < 8
    → field_number < 2 ^ 29
    → Emits (varint (field_number * 8 + wiretype)) (pb_encode_tag wiretype field_number)
unfolding pb_encode_tag
tag-Emits wiretype field_number h k =
    rw (tag_word wiretype field_number h k) (pb_encode_varint-Emits _ (omega arith))

-- A 32-bit varint that is read leaves the flag unset.
eof_unset :
    (s t : IStream) (v : ℕ)
    → pb_decode_varint32 s ≡ (ok v, t)
    → pb_decode_varint32_eof s ≡ (ok v, false, t)
unfolding pb_decode_varint32_eof pb_decode_varint32
eof_unset s t v = first (pb_readbyte s)
  where
    first :
        (r : Outcome ℕ × IStream)
        → without_eof (varint32_first r) ≡ (ok v, t)
        → varint32_first r ≡ (ok v, false, t)
    first (ok byte, u) e = cc
    first (failed, u) e = cc
    first (fault, u) e = cc

-- A tag is read back without the flag, the stream behind it.
pub tag-read :
    (wiretype field_number : ℕ) (rest : List ℕ) (left : ℕ) (own : Option Message)
    → wiretype < 8
    → field_number < 2 ^ 29
    → 0 < field_number
    → pb_decode_tag (
        reading
          (varint (field_number * 8 + wiretype) ++ rest)
          (length (varint (field_number * 8 + wiretype)) + left)
          own)
      ≡ (ok (record { tag = field_number; wire_type = wiretype }), false, reading rest left own)
unfolding pb_decode_tag
tag-read wiretype field_number rest left own h k p = rw (
  eof_unset _ (reading rest left own) word (varint32-Reads word (omega arith) rest left own),
  not_zero,
  wire,
  number,
)
  where
    word : ℕ
    word = field_number * 8 + wiretype

    not_zero : (word == 0) ≡ false
    not_zero = ground arith

    wire : bit_and word 7 ≡ wiretype
    wire = omega (arith, bit_and_seven word)

    number : word / 2 ^ 3 ≡ field_number
    number = omega arith

-- For a wire type below 8 and a field number below 2 ^ 29 other than 0, `pb_encode_tag` on a stream
-- over memory with room for ten bytes succeeds and appends bytes, from which `pb_decode_tag` reads
-- the field number and the wire type back, with `*eof` false, stopping behind them.
pub pb_decode_tag-pb_encode_tag :
    (wiretype field_number : ℕ) (s : Setting)
    → wiretype < 8
    → field_number < 2 ^ 29
    → 0 < field_number
    → HasRoom 10 s
    → (bytes : List ℕ) × (pb_encode_tag wiretype field_number (target s) ≡ (
      ok tt,
      writing
          (s.out ++ bytes)
          (s.room - length bytes)
          s.max_size
          (s.written + length bytes)
          s.errmsg,
    ))
      × (pb_decode_tag (reading (bytes ++ s.rest) (length bytes + s.left) s.own) ≡ (
        ok (record { tag = field_number; wire_type = wiretype }),
        false,
        reading s.rest s.left s.own,
      ))
pb_decode_tag-pb_encode_tag wiretype field_number s h k p r = (
  word,
  (tag-Emits wiretype field_number h k).to_memory s.out s.room s.max_size s.written s.errmsg
      (omega (arith, short)) r.word (omega (arith, short)),
  tag-read wiretype field_number s.rest s.left s.own h k p,
)
  where
    word : List ℕ
    word = varint (field_number * 8 + wiretype)

    short : length word ≤ 10
    short = length-varint (field_number * 8 + wiretype)

-- The varint of the length, and the bytes.
abbrev pub framed : List ℕ → List ℕ
framed bytes = varint (length bytes) ++ bytes

pub string-Emits :
    (bytes : List ℕ)
    → length bytes < 2 ^ 64
    → Emits (framed bytes) (pb_encode_string bytes (length bytes))
unfolding pb_encode_string
string-Emits bytes h =
    Emits-bind (varint (length bytes)) bytes (pb_encode_varint (length bytes)) _
      (pb_encode_varint-Emits (length bytes) h) (pb_write-Emits bytes)

-- The stream at a frame, in the form of the lemmas on its length.
pub at_frame :
    (bytes rest : List ℕ) (left : ℕ) (own : Option Message)
    → reading (framed bytes ++ rest) (length (framed bytes) + left) own
      ≡ reading
          (varint (length bytes) ++ (bytes ++ rest))
          (length (varint (length bytes)) + (length bytes + left))
          own
at_frame bytes rest left own = rw (append_assoc (varint (length bytes)) bytes rest, count)
  where
    count : length (framed bytes) + left ≡ length (varint (length bytes)) + (length bytes + left)
    count = omega (arith, length-append (varint (length bytes)) bytes)

-- `pb_skip_string` passes over a frame.
pub skip_string-Reads :
    (bytes : List ℕ) → length bytes < 2 ^ 32 → Reads (framed bytes) pb_skip_string tt
unfolding pb_skip_string
skip_string-Reads bytes h rest left own =
    rw
      (
        at_frame bytes rest left own,
        varint32-Reads (length bytes) h (bytes ++ rest) (length bytes + left) own,
      )
      (pb_read_null-buffer own (length bytes) bytes rest left refl)

-- `pb_make_string_substream` at a frame: the substream holds its bytes, and the stream what follows.
pub substream-read :
    (bytes rest : List ℕ) (left : ℕ) (own : Option Message)
    → length bytes < 2 ^ 32
    → pb_make_string_substream (reading (framed bytes ++ rest) (length (framed bytes) + left) own)
      ≡ (ok (reading (bytes ++ rest) (length bytes) own), reading (bytes ++ rest) left own)
unfolding pb_make_string_substream
substream-read bytes rest left own h = rw (
  at_frame bytes rest left own,
  varint32-Reads (length bytes) h (bytes ++ rest) (length bytes + left) own,
  enough,
  behind,
)
  where
    enough : ltb (length bytes + left) (length bytes) ≡ false
    enough = ground arith

    behind : length bytes + left - length bytes ≡ left
    behind = omega arith
