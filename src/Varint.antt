-- ===== src/Varint.antt =====
-- ThermoCheck/Pods/nanopb/pb_decode.c and pb_encode.c: numbers of seven bits a byte, lowest first.
-- uint_fast8_t has 8 bits, as on the platforms of the app.
pub mod Groups
pub mod Groups32
pub mod DecodeSound
pub mod Progress
use thermo_check.Common.{
  ℕ, zero, suc, ◌+◌, ◌*◌, ◌/◌, ◌%◌, ◌^◌, Bool, true, false, not, ◌&&◌, ◌||◌, Option, none, some,
  List, [], ◌∷◌, length, ltb, leb, ◌==◌, if◌then◌else◌, bit_and, bit_or,
}
use thermo_check.Message.{varint_overflow}
use thermo_check.Common.Exec.{Outcome, ok, failed, fault, pure, continue, ◌>>=◌}
use thermo_check.Input.{IStream, Decoder, return_error, pb_readbyte, pb_read, first_byte}

-- The body of the loop of `pb_decode_varint32_eof` behind its read: the new `result`, or `none`
-- where the byte overflows.
unfoldable pub merge_byte32 : ℕ → ℕ → ℕ → Option ℕ
merge_byte32 result bitpos byte =
    if leb 32 bitpos
    then (let sign_extension : ℕ = if ltb bitpos 63 then 0xff else 0x01 in
        if not (bit_and byte 0x7f == 0) && (result / 2 ^ 31 == 0 || not (byte == sign_extension))
        then none
        else some result)
    else some (bit_or result (bit_and byte 0x7f * 2 ^ bitpos % 2 ^ 32))

-- `bitpos = (uint_fast8_t)(bitpos + 7)`.
abbrev pub next_bitpos : ℕ → ℕ
next_bitpos bitpos = (bitpos + 7) % 256

-- The test behind the loop; `bitpos` has been advanced past the last byte.
unfoldable pub check_last32 : ℕ → ℕ → ℕ → Decoder ℕ
unfolding return_error
check_last32 byte result bitpos =
    if bitpos == 35 && not (bit_and byte 0x70 == 0)
    then return_error varint_overflow
    else pure result

-- The rest of a round after the merge; `again` is the loop's next round.
unfoldable pub after_merge32 : (ℕ → ℕ → Decoder ℕ) → ℕ → ℕ → Option ℕ → Decoder ℕ
unfolding check_last32 return_error
after_merge32 again bitpos byte none = return_error varint_overflow
after_merge32 again bitpos byte (some result) =
    if bit_and byte 0x80 == 0
    then check_last32 byte result (next_bitpos bitpos)
    else again result (next_bitpos bitpos)

-- One round of the loop on the byte that it read.
unfoldable pub round32 : (ℕ → ℕ → Decoder ℕ) → ℕ → ℕ → ℕ → Decoder ℕ
unfolding merge_byte32 after_merge32
round32 again result bitpos byte = after_merge32 again bitpos byte (merge_byte32 result bitpos byte)

unfoldable pub varint32_loop : ℕ → ℕ → ℕ → Decoder ℕ
unfolding round32 pb_readbyte
varint32_loop zero result bitpos = λ s. (fault, s)
varint32_loop (suc fuel) result bitpos = do
  byte ← pb_readbyte
  round32 (varint32_loop fuel) result bitpos byte

-- The cases on the first byte. Each round takes a byte, so one more round than the bytes left is
-- fuel enough.
unfoldable pub varint32_from : ℕ → Decoder ℕ
unfolding varint32_loop
varint32_from byte s =
    if bit_and byte 0x80 == 0
    then (ok byte, s)
    else varint32_loop (suc s.bytes_left) (bit_and byte 0x7f) 7 s

-- What is returned or stored, with whether `*eof` is set.
abbrev pub varint32_first : Outcome ℕ × IStream → Outcome ℕ × Bool × IStream
varint32_first (ok byte, s) = let (r, t) = varint32_from byte s in (r, false, t)
varint32_first (failed, s) = (failed, s.bytes_left == 0, s)
varint32_first (fault, s) = (fault, false, s)

unfoldable pub pb_decode_varint32_eof : IStream → Outcome ℕ × Bool × IStream
unfolding varint32_from pb_readbyte
pb_decode_varint32_eof s = varint32_first (pb_readbyte s)

unfoldable pub pb_decode_varint32 : Decoder ℕ
unfolding pb_decode_varint32_eof
pb_decode_varint32 s = let (r, eof, t) = pb_decode_varint32_eof s in (r, t)

-- One round of the loop of `pb_decode_varint` on the byte that it read.
unfoldable pub round64 : (ℕ → ℕ → Decoder ℕ) → ℕ → ℕ → ℕ → Decoder ℕ
round64 again result bitpos byte =
    let result' : ℕ = bit_or result (bit_and byte 0x7f * 2 ^ bitpos % 2 ^ 64) in
    if bit_and byte 0x80 == 0 then pure result' else again result' (next_bitpos bitpos)

unfoldable pub varint_loop : ℕ → ℕ → ℕ → Decoder ℕ
unfolding round64 pb_readbyte return_error
varint_loop zero result bitpos = λ s. (fault, s)
varint_loop (suc fuel) result bitpos =
    if leb 64 bitpos
    then return_error varint_overflow
    else (do byte ← pb_readbyte; round64 (varint_loop fuel) result bitpos byte)

-- The eleventh round ends the loop, at `bitpos` 70.
unfoldable pub pb_decode_varint : Decoder ℕ
unfolding varint_loop
pb_decode_varint = varint_loop 11 0 0

unfoldable pub skip_round : Decoder (Unit {0}) → ℕ → Decoder (Unit {0})
skip_round again byte = if bit_and byte 0x80 == 0 then pure tt else again

unfoldable pub skip_varint_loop : ℕ → Decoder (Unit {0})
unfolding skip_round pb_read
skip_varint_loop zero = λ s. (fault, s)
skip_varint_loop (suc fuel) = do
  bytes ← pb_read 1
  byte ← first_byte bytes
  skip_round (skip_varint_loop fuel) byte

-- Each round takes a byte.
unfoldable pub pb_skip_varint : Decoder (Unit {0})
unfolding skip_varint_loop
pb_skip_varint s = skip_varint_loop (suc s.bytes_left) s
