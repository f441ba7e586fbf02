-- ===== src/Encode.antt =====
-- ThermoCheck/Pods/nanopb/pb_encode.c: the helper functions, which write numbers, tags and strings.
-- `pb_uint64_t` has 64 bits; a signed number is its word in two's complement.
pub mod Varint
pub mod Sound
use thermo_check.Common.{
  ℕ, zero, suc, ◌*◌, ◌/◌, ◌%◌, ◌^◌, Bool, true, false, ◌||◌, Option, none, some, List, [], ◌∷◌,
  length, ltb, leb, ◌==◌, if◌then◌else◌, bit_and, bit_or,
}
use thermo_check.Common.Words.{complement, sign_extend}
use thermo_check.Message.{invalid_data_size, invalid_field_type}
use thermo_check.Wire.{wt_varint, wt_64bit, wt_string, wt_32bit}
use thermo_check.Common.Exec.{fault, ◌>>=◌, ◌>>◌}
use thermo_check.Fields.{ltype}
use thermo_check.Output.{Encoder, pb_write, return_error}
use mathlib.Core.Option

-- `while (value)` over a `buffer` with `room` bytes to go; `none` is a write behind it.
unfoldable pub fill : ℕ → ℕ → Option (List ℕ)
fill zero value = if value == 0 then some [] else none
fill (suc room) value =
    let rest = fill room (value / 2 ^ 7) in
    if value == 0
    then some []
    else Option.map (λ bytes. bit_or (bit_and value 0x7f) 0x80 ∷ bytes) rest

-- `buffer[i-1] &= 0x7F`; `none` is an access before the buffer.
unfoldable pub unset_last : List ℕ → Option (List ℕ)
unset_last [] = none
unset_last (b ∷ []) = some (bit_and b 0x7f ∷ [])
unset_last (b ∷ c ∷ bytes) = Option.map (λ r. b ∷ r) (unset_last (c ∷ bytes))

-- The bytes in `buffer` at the write.
unfoldable pub varint_buffer : ℕ → Option (List ℕ)
unfolding fill unset_last
varint_buffer value = Option.bind (fill 10 value) unset_last

abbrev write_buffer : Option (List ℕ) → Encoder
write_buffer none s = (fault, s)
write_buffer (some bytes) s = pb_write bytes (length bytes) s

unfoldable pub pb_encode_varint : ℕ → Encoder
pb_encode_varint value =
    if leb value 0x7f then pb_write (value % 256 ∷ []) 1 else write_buffer (varint_buffer value)

-- `value < 0`, of a word in two's complement.
abbrev pub is_negative : ℕ → Bool
is_negative value = leb (2 ^ 63) value

unfoldable pub zigzag : ℕ → ℕ
zigzag value = if is_negative value then complement (value * 2 % 2 ^ 64) else value * 2 % 2 ^ 64

unfoldable pub pb_encode_svarint : ℕ → Encoder
pb_encode_svarint value = pb_encode_varint (zigzag value)

unfoldable pub pb_encode_fixed32 : ℕ → Encoder
pb_encode_fixed32 val =
    pb_write
      (bit_and val 0xff
        ∷ bit_and (val / 2 ^ 8) 0xff
        ∷ bit_and (val / 2 ^ 16) 0xff
        ∷ bit_and (val / 2 ^ 24) 0xff
        ∷ [])
      4

unfoldable pub pb_encode_fixed64 : ℕ → Encoder
pb_encode_fixed64 val =
    pb_write
      (bit_and val 0xff
        ∷ bit_and (val / 2 ^ 8) 0xff
        ∷ bit_and (val / 2 ^ 16) 0xff
        ∷ bit_and (val / 2 ^ 24) 0xff
        ∷ bit_and (val / 2 ^ 32) 0xff
        ∷ bit_and (val / 2 ^ 40) 0xff
        ∷ bit_and (val / 2 ^ 48) 0xff
        ∷ bit_and (val / 2 ^ 56) 0xff
        ∷ [])
      8

-- `pb_wire_type_t` as the number that it is.
unfoldable pub pb_encode_tag : ℕ → ℕ → Encoder
pb_encode_tag wiretype field_number =
    pb_encode_varint (bit_or (field_number * 2 ^ 3 % 2 ^ 64) wiretype)

-- The wire type of a field, by the switch on its PB_LTYPE: BOOL, VARINT, UVARINT and SVARINT are 0 to 3,
-- FIXED32 4, FIXED64 5, BYTES, STRING and SUBMESSAGE 6 to 8, and FIXED_LENGTH_BYTES 10.
unfoldable pub wiretype_of : ℕ → Option ℕ
wiretype_of t =
    if leb t 3
    then some wt_varint
    else if t == 4
    then some wt_32bit
    else if t == 5
    then some wt_64bit
    else if leb t 8 || t == 10
    then some wt_string
    else none

abbrev pub tag_with : ℕ → Option ℕ → Encoder
tag_with tag none = return_error invalid_field_type
tag_with tag (some wiretype) = pb_encode_tag wiretype tag

-- Of the field, its `type` and its `tag`.
unfoldable pub pb_encode_tag_for_field : ℕ → ℕ → Encoder
pb_encode_tag_for_field type tag = tag_with tag (wiretype_of (ltype type))

unfoldable pub pb_encode_string : List ℕ → ℕ → Encoder
pb_encode_string buffer size = do pb_encode_varint size; pb_write buffer size

-- `safe_read_bool` on the bytes of a `bool`.
unfoldable pub safe_read_bool : List ℕ → Bool
safe_read_bool [] = false
safe_read_bool (b ∷ bytes) = if b == 0 then safe_read_bool bytes else true

unfoldable pub pb_enc_bool : List ℕ → Encoder
pb_enc_bool src = pb_encode_varint (if safe_read_bool src then 1 else 0)

-- `*(const intN_t*)src` by the size of the field, of the word that is stored there, as a word of 64
-- bits; `none` is another size.
unfoldable pub load_signed : ℕ → ℕ → Option ℕ
load_signed data_size src =
    if data_size == 1
    then some (sign_extend 8 src)
    else if data_size == 2
    then some (sign_extend 16 src)
    else if data_size == 4
    then some (sign_extend 32 src)
    else if data_size == 8
    then some (sign_extend 64 src)
    else none

-- `*(const uintN_t*)src`.
unfoldable pub load_unsigned : ℕ → ℕ → Option ℕ
load_unsigned data_size src =
    if data_size == 1
    then some (src % 2 ^ 8)
    else if data_size == 2
    then some (src % 2 ^ 16)
    else if data_size == 4
    then some (src % 2 ^ 32)
    else if data_size == 8
    then some (src % 2 ^ 64)
    else none

abbrev pub encode_loaded : (ℕ → Encoder) → Option ℕ → Encoder
encode_loaded encode none = return_error invalid_data_size
encode_loaded encode (some value) = encode value

unfoldable pub pb_enc_varint : ℕ → ℕ → Encoder
pb_enc_varint data_size src = encode_loaded pb_encode_varint (load_signed data_size src)

unfoldable pub pb_enc_uvarint : ℕ → ℕ → Encoder
pb_enc_uvarint data_size src = encode_loaded pb_encode_varint (load_unsigned data_size src)

unfoldable pub pb_enc_svarint : ℕ → ℕ → Encoder
pb_enc_svarint data_size src = encode_loaded pb_encode_svarint (load_signed data_size src)

unfoldable pub pb_enc_fixed32 : ℕ → Encoder
pb_enc_fixed32 src = pb_encode_fixed32 src

unfoldable pub pb_enc_fixed64 : ℕ → Encoder
pb_enc_fixed64 src = pb_encode_fixed64 src

-- The field's `data_size` bytes of `src`.
unfoldable pub pb_enc_fixed_length_bytes : ℕ → List ℕ → Encoder
pb_enc_fixed_length_bytes data_size src = pb_encode_string src data_size
