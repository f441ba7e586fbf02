-- ===== src/Decode.antt =====
-- ThermoCheck/Pods/nanopb/pb_decode.c: the decoders of numbers and of scalar fields. What they store
-- through `dest` is returned, a signed number as its word in two's complement; what `*dest` holds
-- after a return of false is not modelled. Of the field a decoder reads `data_size` alone.
pub mod Sound
pub mod Robust
pub mod Progress
use thermo_check.Common.{
  ℕ, ◌+◌, ◌-◌, ◌*◌, ◌/◌, ◌%◌, ◌^◌, Bool, true, false, not, Option, none, some, List, [], ◌∷◌, leb,
  ◌==◌, if◌then◌else◌, bit_and, bit_or,
}
use thermo_check.Common.Words.{complement, sign_extend, join_bytes}
use thermo_check.Message.{invalid_data_size, integer_too_large}
use thermo_check.Common.Exec.{fault, pure, ◌>>=◌}
use thermo_check.Input.{Decoder, return_error, pb_read}
use thermo_check.Varint.{pb_decode_varint32, pb_decode_varint}

-- `pb_decode_svarint` on the varint that it read.
unfoldable pub unzigzag : ℕ → ℕ
unzigzag value = if bit_and value 1 == 0 then value / 2 else complement (value / 2)

unfoldable pub pb_decode_svarint : Decoder ℕ
pb_decode_svarint = do value ← pb_decode_varint; pure (unzigzag value)

-- The four bytes are `|`-ed together from the left.
unfoldable pub pb_decode_fixed32 : Decoder ℕ
pb_decode_fixed32 = do bytes ← pb_read 4; pure (join_bytes 32 0 0 bytes)

unfoldable pub pb_decode_fixed64 : Decoder ℕ
pb_decode_fixed64 = do bytes ← pb_read 8; pure (join_bytes 64 0 0 bytes)

unfoldable pub pb_dec_bool : Decoder Bool
pb_dec_bool = do value ← pb_decode_varint32; pure (not (value == 0))

-- `pb_decode_bool` calls `pb_dec_bool` with no field.
unfoldable pub pb_decode_bool : Decoder Bool
pb_decode_bool = pb_dec_bool

-- `*(intN_t*)dest = (intN_t)svalue` by the size of the field; `none` is another size.
unfoldable pub clamp_signed : ℕ → ℕ → Option ℕ
clamp_signed data_size svalue =
    if data_size == 8
    then some svalue
    else if data_size == 4
    then some (sign_extend 32 svalue)
    else if data_size == 2
    then some (sign_extend 16 svalue)
    else if data_size == 1
    then some (sign_extend 8 svalue)
    else none

-- `*(uintN_t*)dest = (uintN_t)value`.
unfoldable pub clamp_unsigned : ℕ → ℕ → Option ℕ
clamp_unsigned data_size value =
    if data_size == 8
    then some value
    else if data_size == 4
    then some (value % 2 ^ 32)
    else if data_size == 2
    then some (value % 2 ^ 16)
    else if data_size == 1
    then some (value % 2 ^ 8)
    else none

-- The comparison of what was stored with the value.
unfoldable pub check_clamped : ℕ → Option ℕ → Decoder ℕ
check_clamped value none = return_error invalid_data_size
check_clamped value (some clamped) =
    if clamped == value then pure clamped else return_error integer_too_large

unfoldable pub pb_dec_varint : ℕ → Decoder ℕ
pb_dec_varint data_size = do
  value ← pb_decode_varint
  let svalue = if data_size == 8 then value else sign_extend 32 value
  check_clamped svalue (clamp_signed data_size svalue)

unfoldable pub pb_dec_uvarint : ℕ → Decoder ℕ
pb_dec_uvarint data_size = do
  value ← pb_decode_varint
  check_clamped value (clamp_unsigned data_size value)

unfoldable pub pb_dec_svarint : ℕ → Decoder ℕ
pb_dec_svarint data_size = do
  value ← pb_decode_svarint
  check_clamped value (clamp_signed data_size value)

unfoldable pub pb_dec_fixed32 : Decoder ℕ
pb_dec_fixed32 = pb_decode_fixed32

unfoldable pub pb_dec_fixed64 : Decoder ℕ
pb_dec_fixed64 = pb_decode_fixed64
