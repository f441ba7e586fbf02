-- ===== src/Wire/Sound.antt =====
-- Strings, tags, unknown fields and substreams on any stream in order.
use thermo_check.Common.{
  ℕ, zero, suc, ◌+◌, ◌^◌, ◌≤◌, ◌<◌, Bool, List, [], ◌∷◌, inl, inr, length, All, ◌==◌, bit_and,
  arith, Bool-cases,
}
use thermo_check.Common.Bits.{bit_and_seven}
use thermo_check.Message.{invalid_wire_type}
use thermo_check.Common.Exec.{Outcome, ok, failed, fault, pure, ◌>>=◌}
use thermo_check.Input.{IStream, Decoder, pb_read, pb_read_null, first_byte}
use thermo_check.Input.Sound.{
  IsByte, IsValid, IsSound, Any, Ends, IsSound-bind, IsSound-pure, IsSound-weaken,
  IsSound-return_error,
}
use thermo_check.Input.Takes.{IsBytes, Takes-Ends, pb_read-Takes, pb_read_null-Takes}
use thermo_check.Varint.{pb_decode_varint32_eof, pb_decode_varint32}
use thermo_check.Varint.DecodeSound.{
  IsWord, without_eof, pb_decode_varint32-IsSound, pb_skip_varint-IsSound,
}
use thermo_check.Wire.{
  wt_varint, wt_64bit, wt_string, wt_32bit, pb_skip_string, Tag, tag_of, pb_decode_tag,
  pb_skip_field, raw_round, raw_varint, read_raw_value,
}

pb_read_null-IsSound : (count : ℕ) → IsSound (Any {A = Unit {0}}) (pb_read_null count)
pb_read_null-IsSound count = record {
  run = λ slack s v. Takes-Ends slack Any count s.bytes_left _ (pb_read_null-Takes slack count s v);
}

pub pb_read-IsSound : (count : ℕ) → IsSound (IsBytes count) (pb_read count)
pb_read-IsSound count = record {
  run = λ slack s v.
      Takes-Ends slack (IsBytes count) count s.bytes_left _ (pb_read-Takes slack count s v);
}

pub pb_skip_string-IsSound : IsSound (Any {A = Unit {0}}) pb_skip_string
unfolding pb_skip_string
pb_skip_string-IsSound =
    IsSound-bind (IsWord 32) Any pb_decode_varint32 pb_read_null pb_decode_varint32-IsSound
      (λ n h. pb_read_null-IsSound n)

-- `pb_skip_field` with any wire type on any stream in order: no fault.
pub pb_skip_field-IsSound : (wire_type : ℕ) → IsSound (Any {A = Unit {0}}) (pb_skip_field wire_type)
unfolding pb_skip_field
pb_skip_field-IsSound wire_type = elim (Bool-cases (wire_type == wt_varint)) [
  | inl e ↦ rw e pb_skip_varint-IsSound
  | inr e ↦ rw e (elim (Bool-cases (wire_type == wt_64bit)) [
    | inl e ↦ rw e (pb_read_null-IsSound 8)
    | inr e ↦ rw e (elim (Bool-cases (wire_type == wt_string)) [
      | inl e ↦ rw e pb_skip_string-IsSound
      | inr e ↦ rw e (elim (Bool-cases (wire_type == wt_32bit)) [
        | inl e ↦ rw e (pb_read_null-IsSound 4)
        | inr e ↦ rw e (IsSound-return_error Any invalid_wire_type)
      ])
    ])
  ])
]

-- A tag that is returned: the field number has 29 bits, the wire type three, and they are not both 0.
abbrev pub IsTag : Tag → Type 0
IsTag t = (t.tag < 2 ^ 29) × (t.wire_type < 8) × (0 < t.tag + t.wire_type)

tag_of-Ends :
    (slack left : ℕ) (r : Outcome ℕ × Bool × IStream)
    → Ends slack (IsWord 32) left (without_eof r)
    → Ends slack IsTag left (without_eof (tag_of r))
tag_of-Ends slack left (ok temp, eof, s) (h, v, k) = elim (Bool-cases (temp == 0)) [
  | inl e ↦ rw e (v, k)
  | inr e ↦
      rw e
        ((omega arith, omega (arith, bit_and_seven temp), ground (arith, bit_and_seven temp)), v, k)
]
tag_of-Ends slack left (failed, eof, s) e = e
tag_of-Ends slack left (fault, eof, s) e = e

-- On a stream in order, over a buffer or over a callback that stores what it says, `pb_decode_tag`
-- returns and touches no memory outside the buffer, whatever bytes it meets; it leaves the stream
-- in order, with no more bytes left than before, and on success the field number is below 2 ^ 29,
-- the wire type below 8, and they are not both 0.
pub pb_decode_tag-Ends :
    (slack : ℕ) (s : IStream)
    → IsValid slack s
    → Ends slack IsTag s.bytes_left (without_eof (pb_decode_tag s))
unfolding pb_decode_tag
pb_decode_tag-Ends slack s v =
    tag_of-Ends slack s.bytes_left (pb_decode_varint32_eof s)
      (unfold pb_decode_varint32 in pb_decode_varint32-IsSound.run slack s v)

raw_round-IsSound :
    (room byte : ℕ) (again : Decoder (List ℕ))
    → IsByte byte
    → IsSound (λ bytes. (length bytes ≤ room) × All IsByte bytes) again
    → IsSound (λ bytes. (length bytes ≤ suc room) × All IsByte bytes) (raw_round again byte)
unfolding raw_round
raw_round-IsSound room byte again h k = elim (Bool-cases (bit_and byte 0x80 == 0)) [
  | inl e ↦ rw e (IsSound-pure _ (byte ∷ []) (omega arith, (h, tt)))
  | inr e ↦ rw e (
      IsSound-bind (λ bytes. (length bytes ≤ room) × All IsByte bytes) _ again
        (λ bytes. pure (byte ∷ bytes)) k
        (λ bytes q. IsSound-pure _ (byte ∷ bytes) (omega arith, (h, q.1))))
]

first_byte-IsSound : (bytes : List ℕ) → IsBytes 1 bytes → IsSound IsByte (first_byte bytes)
first_byte-IsSound [] (e, h) = absurd (omega arith)
first_byte-IsSound (b ∷ bs) (e, h) = IsSound-pure IsByte b h.0

raw_varint-IsSound :
    (room : ℕ) → IsSound (λ bytes. (length bytes ≤ room) × All IsByte bytes) (raw_varint room)
unfolding raw_varint
raw_varint-IsSound zero = record { run = λ slack s v. (v, omega arith) }
raw_varint-IsSound (suc room) =
    IsSound-bind (IsBytes 1) _ (pb_read 1)
      (λ bytes. first_byte bytes >>= raw_round (raw_varint room)) (pb_read-IsSound 1)
      (λ bytes q.
        IsSound-bind IsByte _ (first_byte bytes) (raw_round (raw_varint room))
          (first_byte-IsSound bytes q)
          (λ b h. raw_round-IsSound room b (raw_varint room) h (raw_varint-IsSound room)))

-- `read_raw_value` with any wire type on any stream in order: no fault, and at most `max_size` bytes
-- are stored where the caller's buffer holds the fixed-width values.
pub read_raw_value-IsSound :
    (wire_type max_size : ℕ)
    → 8 ≤ max_size
    → IsSound
        (λ bytes. (length bytes ≤ max_size) × All IsByte bytes)
        (read_raw_value wire_type max_size)
unfolding read_raw_value
read_raw_value-IsSound wire_type max_size h = elim (Bool-cases (wire_type == wt_varint)) [
  | inl e ↦ rw e (raw_varint-IsSound max_size)
  | inr e ↦ rw e (elim (Bool-cases (wire_type == wt_64bit)) [
    | inl e ↦ rw e (fixed 8 (omega arith))
    | inr e ↦ rw e (elim (Bool-cases (wire_type == wt_32bit)) [
      | inl e ↦ rw e (fixed 4 (omega arith))
      | inr e ↦ rw e (IsSound-return_error _ invalid_wire_type)
    ])
  ])
]
  where
    fixed :
        (n : ℕ)
        → n ≤ max_size
        → IsSound (λ bytes. (length bytes ≤ max_size) × All IsByte bytes) (pb_read n)
    fixed n k =
        IsSound-weaken (IsBytes n) _ (pb_read n) (λ bytes q. (omega arith, q.1)) (pb_read-IsSound n)
