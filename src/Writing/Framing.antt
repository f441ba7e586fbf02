-- ===== src/Writing/Framing.antt =====
-- Submessages: the size and the bytes of `pb_encode`, and back to a substream.
use native.Mathlib.Nat.{zero-add}
use thermo_check.Common.{
  ℕ, ◌+◌, ◌-◌, ◌*◌, ◌%◌, ◌^◌, ◌≤◌, ◌<◌, ◌≡◌, refl, true, false, All, Option, none, List, ◌++◌,
  length, length-append, ltb, ◌==◌, arith,
}
use mathlib.Core.List.{append_assoc}
use thermo_check.Message.{Message}
use thermo_check.Common.Exec.{ok}
use thermo_check.Fields.{Field}
use thermo_check.Input.Buffer.{reading}
use thermo_check.Output.{Encoder}
use thermo_check.Output.Emits.{Emits, writing}
use thermo_check.Encode.Varint.{varint, pb_encode_varint-Emits}
use thermo_check.Wire.{pb_make_string_substream}
use thermo_check.RoundTrip.{Setting, HasRoom, target}
use thermo_check.RoundTrip.Framing.{framed, substream-read}
use thermo_check.RoundTrip.Strings.{length-framed}
use thermo_check.Writing.{Context}
use thermo_check.Writing.Values.{
  after_submessage, write_submessage, sized_submessage, encode_submessage,
}
use thermo_check.Writing.Encode.{pb_encode, pb_encode_submessage}
use thermo_check.Writing.Steady.{IsPlain, pb_encode-HasBytes}
use thermo_check.Fields.Tables.{IsMore, entries}

module _ (bytes : List ℕ) (body : Encoder) (h : Emits bytes body) (out : List ℕ)
    (room max_size n : ℕ) (errmsg : Option Message) (fits : n + length bytes ≤ max_size)
    (word : max_size < 2 ^ 64) (space : length bytes ≤ room) where
  write_submessage-bytes :
      write_submessage body (length bytes) (writing out room max_size n errmsg)
      ≡ (ok tt, writing (out ++ bytes) (room - length bytes) max_size (n + length bytes) none)
  unfolding write_submessage after_submessage
  write_submessage-bytes =
      rw
        (
          full,
          h.to_memory out room (length bytes) 0 none (omega arith) (omega arith) space,
          zero-add (length bytes),
          same,
          whole,
        )
        refl
    where
      full : ltb max_size ((n + length bytes) % 2 ^ 64) ≡ false
      full = ground arith

      same : (length bytes == length bytes) ≡ true
      same = ground arith

      whole : (n + length bytes) % 2 ^ 64 ≡ n + length bytes
      whole = omega arith

-- The two passes: the size, and the bytes.
pub encode_submessage-bytes :
    (bytes : List ℕ) (body : Encoder) (out : List ℕ) (room max_size n : ℕ) (errmsg : Option Message)
    → Emits bytes body
    → n + length (framed bytes) ≤ max_size
    → max_size < 2 ^ 64
    → length (framed bytes) ≤ room
    → encode_submessage body (writing out room max_size n errmsg) ≡ (
      ok tt,
      writing
          (out ++ framed bytes)
          (room - length (framed bytes))
          max_size
          (n + length (framed bytes))
          none,
    )
unfolding encode_submessage sized_submessage
encode_submessage-bytes bytes body out room max_size n errmsg h fits word space =
    rw
      (
        h.to_sizing 0 0 none (omega (arith, both)),
        zero-add (length bytes),
        (pb_encode_varint-Emits (length bytes) (omega (arith, both))).to_memory out room max_size n
            errmsg (omega (arith, both)) word (omega (arith, both)),
        write_submessage-bytes bytes body h (out ++ varint (length bytes))
            (room - length (varint (length bytes))) max_size (n + length (varint (length bytes)))
            errmsg (omega (arith, both)) word (omega (arith, both)),
        append_assoc out (varint (length bytes)) bytes,
        both,
        sub_twice,
        add_twice,
      )
      refl
  where
    both : length (framed bytes) ≡ length (varint (length bytes)) + length bytes
    both = length-append (varint (length bytes)) bytes

    sub_twice :
        room - length (varint (length bytes)) - length bytes
        ≡ room - (length (varint (length bytes)) + length bytes)
    sub_twice = omega arith

    add_twice :
        n + length (varint (length bytes)) + length bytes
        ≡ n + (length (varint (length bytes)) + length bytes)
    add_twice = omega arith

-- For a table of at most 2 ^ 24 fields that are numbers, static, optional with a has-flag or
-- members of a oneof with a `which` member, of data sizes 1, 2, 4 or 8, with tags below 2 ^ 29, in
-- a message type with a field, and for any structure in memory, `pb_encode` succeeds on every
-- stream with room and writes the same bytes on each, and `pb_encode_submessage` on a stream over
-- memory with room for ten bytes and twenty for each field of the table succeeds and appends their
-- number and these bytes, with the bytes written counted on the stream and its error message
-- dropped; from what it appends `pb_make_string_substream` makes a substream with exactly the bytes
-- of `pb_encode` left, and takes them off the bytes left of the stream.
pub pb_make_string_substream-pb_encode_submessage :
    (context : Context) (fields : List Field) (src : ℕ) (s : Setting)
    → 0 < context.depth
    → IsMore fields
    → All IsPlain (entries fields)
    → length fields < 2 ^ 24
    → HasRoom (10 + 20 * length fields) s
    → (bytes : List ℕ) × Emits bytes (pb_encode context fields src)
      × (pb_encode_submessage context fields src (target s) ≡ (
        ok tt,
        writing
            (s.out ++ framed bytes)
            (s.room - length (framed bytes))
            s.max_size
            (s.written + length (framed bytes))
            none,
      ))
      × (pb_make_string_substream
            (reading (framed bytes ++ s.rest) (length (framed bytes) + s.left) s.own)
          ≡ (
            ok (reading (bytes ++ s.rest) (length bytes) s.own),
            reading (bytes ++ s.rest) s.left s.own,
          ))
unfolding pb_encode_submessage
pb_make_string_substream-pb_encode_submessage context fields src s d m h l r =
    let (bytes, e, b) = pb_encode-HasBytes context fields src d m h in
    (
      bytes,
      e,
      encode_submessage-bytes bytes (pb_encode context fields src) s.out s.room s.max_size s.written
          s.errmsg e (omega (arith, length-framed bytes, r.by_size)) r.word
          (omega (arith, length-framed bytes, r.by_memory)),
      substream-read bytes s.rest s.left s.own (omega arith),
    )
