-- ===== src/Data.antt =====
-- ThermoCheck/Pods/nanopb/pb_decode.c and pb_encode.c: fields of bytes and of strings, which lie in the
-- message's structure or in memory that is allocated for them. `pb_size_t` has 32 bits, and the bytes
-- of a `pb_bytes_array_t` lie behind its size.
pub mod Room
pub mod Sound
pub mod RoundTrip
pub mod Strings
use thermo_check.Common.{
  ℕ, zero, suc, ◌+◌, ◌-◌, ◌*◌, ◌/◌, ◌%◌, ◌^◌, Bool, true, false, ◌&&◌, ◌||◌, Option, none, some,
  List, [], ◌∷◌, ◌++◌, length, ltb, leb, ◌==◌, if◌then◌else◌,
}
use thermo_check.Message.{
  end_of_stream, invalid_size, size_too_large, realloc_failed, bytes_overflow, string_overflow,
  incorrect_fixed_length_bytes_size, bytes_size_exceeded,
}
use thermo_check.Common.Exec.{Outcome, ok, failed, fault, pure, continue, ◌>>=◌, ◌>>◌}
use thermo_check.Input.{IStream, Decoder, pb_read}
use thermo_check.Input
use thermo_check.Output.{Encoder}
use thermo_check.Output
use thermo_check.Varint.{pb_decode_varint32}
use thermo_check.Encode.{pb_encode_string}
use mathlib.Core.Option

-- Where a field's data lies: `in_place` in the structure, in `data_size` bytes of it; `allocated` behind
-- a pointer (PB_ATYPE_POINTER). `pb_realloc` is a parameter: whether it finds memory of a size.
pub data Storage : Type 0 where
  in_place : ℕ → Storage
  allocated : (ℕ → Bool) → Storage

-- `allocate_field`: the number of bytes that are allocated.
unfoldable pub allocate_field : (ℕ → Bool) → ℕ → ℕ → Decoder ℕ
allocate_field finds data_size array_size =
    if data_size == 0 || array_size == 0
    then Input.return_error invalid_size
    else if (leb (2 ^ 32) data_size || leb (2 ^ 32) array_size)
        && ltb ((2 ^ 64 - 1) / array_size) data_size
    then Input.return_error size_too_large
    else if finds (array_size * data_size % 2 ^ 64)
    then pure (array_size * data_size % 2 ^ 64)
    else Input.return_error realloc_failed

-- `stream->bytes_left < size`, tested before the allocation.
unfoldable pub check_left : ℕ → Decoder (Unit {0})
check_left size s = if ltb s.bytes_left size then Input.return_error end_of_stream s else (ok tt, s)

-- `pb_read` to memory with `room` bytes.
unfoldable pub read_into : ℕ → ℕ → Decoder (List ℕ)
read_into room count = if leb count room then pb_read count else (λ s. (fault, s))

-- The room, in bytes, for the `pb_bytes_array_t` of `alloc_size` bytes.
unfoldable pub bytes_room : Storage → ℕ → ℕ → Decoder ℕ
bytes_room (in_place data_size) size alloc_size =
    if ltb data_size alloc_size then Input.return_error bytes_overflow else pure data_size
bytes_room (allocated finds) size alloc_size = check_left size >> allocate_field finds alloc_size 1

unfoldable pub bytes_of_size : Storage → ℕ → Decoder (List ℕ)
bytes_of_size storage size =
    let alloc_size : ℕ = (size + 4) % 2 ^ 64 in
    if ltb (2 ^ 32 - 1) size
    then Input.return_error bytes_overflow
    else if ltb alloc_size size
    then Input.return_error size_too_large
    else (do room ← bytes_room storage size alloc_size; read_into (room - 4) size)

-- The size that is stored is the length of what is returned.
unfoldable pub pb_dec_bytes : Storage → Decoder (List ℕ)
pb_dec_bytes storage = do size ← pb_decode_varint32; bytes_of_size storage size

unfoldable pub string_room : Storage → ℕ → ℕ → Decoder ℕ
string_room (in_place data_size) size alloc_size =
    if ltb data_size alloc_size then Input.return_error string_overflow else pure data_size
string_room (allocated finds) size alloc_size = check_left size >> allocate_field finds alloc_size 1

-- `*(dest + size) = 0`, whatever the read returned.
unfoldable pub terminate : ℕ → ℕ → Outcome (List ℕ) × IStream → Outcome (List ℕ) × IStream
terminate room size (ok bytes, s) =
    if ltb size room then (ok (bytes ++ (0 ∷ [])), s) else (fault, s)
terminate room size (failed, s) = if ltb size room then (failed, s) else (fault, s)
terminate room size (fault, s) = (fault, s)

unfoldable pub string_of_size : Storage → ℕ → Decoder (List ℕ)
string_of_size storage size =
    let alloc_size : ℕ = (size + 1) % 2 ^ 32 in
    if ltb alloc_size size then Input.return_error size_too_large else (do
      room ← string_room storage size alloc_size
      λ s. terminate room size (read_into room size s))

-- What is returned has its terminator.
unfoldable pub pb_dec_string : Storage → Decoder (List ℕ)
pb_dec_string storage = do size ← pb_decode_varint32; string_of_size storage size

-- `memset(dest, 0, data_size)`.
unfoldable pub zeros : ℕ → List ℕ
zeros zero = []
zeros (suc n) = 0 ∷ zeros n

unfoldable pub fixed_of_size : ℕ → ℕ → Decoder (List ℕ)
fixed_of_size data_size size =
    if ltb (2 ^ 32 - 1) size
    then Input.return_error bytes_overflow
    else if size == 0
    then pure (zeros data_size)
    else if size == data_size
    then read_into data_size data_size
    else Input.return_error incorrect_fixed_length_bytes_size

unfoldable pub pb_dec_fixed_length_bytes : ℕ → Decoder (List ℕ)
pb_dec_fixed_length_bytes data_size = do size ← pb_decode_varint32; fixed_of_size data_size size

abbrev pub static_below : Storage → ℕ → Bool
static_below (in_place data_size) n = ltb data_size n
static_below (allocated finds) n = false

-- `none` is a null pointer, and a `pb_bytes_array_t` is its bytes, as many as its size.
unfoldable pub pb_enc_bytes : Storage → Option (List ℕ) → Encoder
pb_enc_bytes storage none = pb_encode_string [] 0
pb_enc_bytes storage (some bytes) =
    let allocsize : ℕ = (length bytes + 4) % 2 ^ 64 in
    if ltb allocsize (length bytes) || static_below storage allocsize
    then Output.return_error bytes_size_exceeded
    else pb_encode_string bytes (length bytes)

-- The loop for the length of a string: `none` is a read behind the memory.
unfoldable pub string_size : ℕ → List ℕ → Option ℕ
string_size zero p = some 0
string_size (suc max_size) [] = none
string_size (suc max_size) (b ∷ p) =
    let rest = string_size max_size p in if b == 0 then some 0 else Option.map suc rest

abbrev pub string_limit : Storage → ℕ
string_limit (in_place data_size) = data_size
string_limit (allocated finds) = 2 ^ 64 - 1

abbrev pub encode_sized : List ℕ → Option ℕ → Encoder
encode_sized src none = λ s. (fault, s)
encode_sized src (some size) = pb_encode_string src size

unfoldable pub pb_enc_string : Storage → Option (List ℕ) → Encoder
pb_enc_string storage none = pb_encode_string [] 0
pb_enc_string storage (some src) = encode_sized src (string_size (string_limit storage) src)
