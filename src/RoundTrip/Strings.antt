-- ===== src/RoundTrip/Strings.antt =====
-- A length-delimited field from `pb_encode_string` back through the reading functions, and its size.
use mathlib.Core.List.{append_assoc}
use native.Mathlib.Nat.{zero-add}
use thermo_check.Common.{
  ℕ, ◌+◌, ◌-◌, ◌^◌, ◌≤◌, ◌<◌, ◌≡◌, refl, List, ◌++◌, none, length, length-append, arith,
}
use thermo_check.Common.Exec.{ok}
use thermo_check.Input.Buffer.{reading, pb_read-buffer}
use thermo_check.Input.{IStream, pb_read}
use thermo_check.Wire.Substream.{pb_close_string_substream-buffer}
use thermo_check.Output.{sizing_stream}
use thermo_check.Output.Emits.{writing, measuring}
use thermo_check.Encode.{pb_encode_string}
use thermo_check.Encode.Varint.{varint}
use thermo_check.Wire.{pb_skip_string, pb_make_string_substream, pb_close_string_substream}
use thermo_check.RoundTrip.{Setting, HasRoom, target, Transfers, transfers}
use thermo_check.RoundTrip.Numbers.{length-varint}
use thermo_check.RoundTrip.Framing.{framed, string-Emits, skip_string-Reads, substream-read}

pub length-framed : (buf : List ℕ) → length (framed buf) ≤ 10 + length buf
length-framed buf =
    omega (arith, length-append (varint (length buf)) buf, length-varint (length buf))

-- For a buffer shorter than 2 ^ 32 bytes, `pb_encode_string` on a stream over memory with room for
-- the buffer and ten bytes more succeeds and appends bytes, which `pb_skip_string` passes over,
-- stopping behind them.
pub pb_skip_string-pb_encode_string :
    (buf : List ℕ) (s : Setting)
    → length buf < 2 ^ 32
    → HasRoom (10 + length buf) s
    → Transfers s (pb_encode_string buf (length buf)) pb_skip_string tt
pb_skip_string-pb_encode_string buf s h r =
    transfers s (10 + length buf) (framed buf) (pb_encode_string buf (length buf)) pb_skip_string tt
      (string-Emits buf (omega arith)) (skip_string-Reads buf h) (length-framed buf) r

-- For a buffer shorter than 2 ^ 32 bytes, `pb_encode_string` on a stream over memory with room for
-- the buffer and ten bytes more succeeds and appends bytes, from which `pb_make_string_substream`
-- makes a substream with exactly the buffer's bytes left, and takes them off the bytes left of the
-- stream.
pub pb_make_string_substream-pb_encode_string :
    (buf : List ℕ) (s : Setting)
    → length buf < 2 ^ 32
    → HasRoom (10 + length buf) s
    → (bytes : List ℕ) × (pb_encode_string buf (length buf) (target s) ≡ (
      ok tt,
      writing
          (s.out ++ bytes)
          (s.room - length bytes)
          s.max_size
          (s.written + length bytes)
          s.errmsg,
    ))
      × (pb_make_string_substream (reading (bytes ++ s.rest) (length bytes + s.left) s.own)
          ≡ (ok (reading (buf ++ s.rest) (length buf) s.own), reading (buf ++ s.rest) s.left s.own))
pb_make_string_substream-pb_encode_string buf s h r = (
  framed buf,
  (string-Emits buf (omega arith)).to_memory s.out s.room s.max_size s.written s.errmsg
      (omega (arith, length-framed buf, r.by_size)) r.word
      (omega (arith, length-framed buf, r.by_memory)),
  substream-read buf s.rest s.left s.own h,
)

-- For a buffer shorter than 2 ^ 32 bytes, `pb_encode_string` counts on a sizing stream the number
-- of bytes by which it advances `bytes_written` on a stream over memory with room for the buffer
-- and ten bytes more.
pub pb_encode_string-sizing_stream :
    (buf : List ℕ) (s : Setting)
    → length buf < 2 ^ 32
    → HasRoom (10 + length buf) s
    → (n : ℕ) × (pb_encode_string buf (length buf) sizing_stream ≡ (ok tt, measuring 0 n none))
      × ((pb_encode_string buf (length buf) (target s)).1.bytes_written ≡ s.written + n)
pb_encode_string-sizing_stream buf s h r = (
  length (framed buf),
  rw (zero-add) at
      ((string-Emits buf (omega arith)).to_sizing 0 0 none (omega (arith, length-framed buf))),
  rw
      ((string-Emits buf (omega arith)).to_memory s.out s.room s.max_size s.written s.errmsg
        (omega (arith, length-framed buf, r.by_size)) r.word
        (omega (arith, length-framed buf, r.by_memory)))
      refl,
)

-- A substream of `front` and `back` that has read `front`, and its end.
closed :
    (front back : List ℕ) (s : Setting)
    → pb_close_string_substream
        (reading (back ++ s.rest) (length back) s.own)
        (reading ((front ++ back) ++ s.rest) s.left s.own)
      ≡ (ok tt, reading s.rest s.left s.own)
closed front back s =
    pb_close_string_substream-buffer back s.rest ((front ++ back) ++ s.rest) s.left s.own s.own

front_read :
    (front back : List ℕ) (s : Setting)
    → pb_read (length front) (reading ((front ++ back) ++ s.rest) (length (front ++ back)) s.own)
      ≡ (ok front, reading (back ++ s.rest) (length back) s.own)
front_read front back s =
    rw (append_assoc front back s.rest, length-append front back)
      (pb_read-buffer s.own (length front) front (back ++ s.rest) (length back) refl)

-- For a buffer in two parts, shorter than 2 ^ 32 bytes, `pb_encode_string` on a stream over memory
-- with room for the buffer and ten bytes more succeeds and appends bytes, from which
-- `pb_make_string_substream` makes a substream; `pb_read` reads the first part from it, and then
-- `pb_close_string_substream`, whatever the second part is that is not read, succeeds and moves the
-- stream behind the bytes of the buffer, with as many bytes left as there are behind them in the
-- stream.
pub pb_close_string_substream-pb_encode_string :
    (front back : List ℕ) (s : Setting)
    → length (front ++ back) < 2 ^ 32
    → HasRoom (10 + length (front ++ back)) s
    → (bytes : List ℕ) × (sub sub' t : IStream) × (pb_encode_string
          (front ++ back)
          (length (front ++ back))
          (target s)
        ≡ (
          ok tt,
          writing
              (s.out ++ bytes)
              (s.room - length bytes)
              s.max_size
              (s.written + length bytes)
              s.errmsg,
        ))
      × (pb_make_string_substream (reading (bytes ++ s.rest) (length bytes + s.left) s.own)
          ≡ (ok sub, t))
      × (pb_read (length front) sub ≡ (ok front, sub'))
      × (pb_close_string_substream sub' t ≡ (ok tt, reading s.rest s.left s.own))
pb_close_string_substream-pb_encode_string front back s h r =
    let (bytes, encoded, made) = pb_make_string_substream-pb_encode_string (front ++ back) s h r in
    (bytes, _, _, _, encoded, made, front_read front back s, closed front back s)
