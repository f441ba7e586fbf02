-- ===== src/Writing/Defaults.antt =====
-- ThermoCheck/Pods/nanopb/pb_encode.c: whether a field of a proto3 message has its default value.
use mathlib.Core.Option
use thermo_check.Common.{
  ℕ, zero, suc, Bool, true, false, not, ◌&&◌, Option, none, some, List, length, ltb, ◌==◌,
  if◌then◌else◌,
}
use thermo_check.Memory.{Memory, load, load_bytes}
use thermo_check.Fields.{
  Field, Iter, ltype, htype, atype, required, optional, repeated, oneof, static, pointer,
  last_packable, bytes_type, string_type, submessage_type, fixed_length_bytes_type, size_address,
  pb_field_iter_begin, pb_field_iter_next, current,
}
use thermo_check.Encode.{safe_read_bool}
use thermo_check.Writing.{Context}

-- The bytes are all 0.
unfoldable pub all_zero : ℕ → Memory → ℕ → Bool
all_zero zero memory p = true
all_zero (suc n) memory p = load 1 memory p == 0 && all_zero n memory (suc p)

-- The comparisons behind the switch on the allocation.
unfoldable pub is_zero : Memory → Field → ℕ → Bool
is_zero memory f p_data =
    if atype f.type == pointer && ltb last_packable (ltype f.type)
    then load 8 memory p_data == 0
    else all_zero f.data_size memory p_data

-- A singular field; `message` checks the fields of a submessage.
unfoldable pub singular_default : (ℕ → ℕ → Option Bool) → Memory → Field → ℕ → Option Bool
singular_default message memory f p_data =
    if atype f.type == static && ltype f.type == bytes_type
    then some (load 4 memory p_data == 0)
    else if atype f.type == static && ltype f.type == string_type
    then some (load 1 memory p_data == 0)
    else if atype f.type == static && ltype f.type == fixed_length_bytes_type
    then some (f.data_size == 0)
    else if atype f.type == static && ltype f.type == submessage_type
    then message f.ptr p_data
    else some (is_zero memory f p_data)

unfoldable pub field_default : (ℕ → ℕ → Option Bool) → Memory → Field → ℕ → Option Bool
field_default message memory f p_data =
    if htype f.type == required
    then some false
    else if htype f.type == repeated && not (f.size_offset == 0)
    then some (load 4 memory (size_address p_data f) == 0)
    else if htype f.type == repeated && atype f.type == static
    then some false
    else if htype f.type == oneof
    then some (load 4 memory (size_address p_data f) == 0)
    else if htype f.type == optional && not (f.size_offset == 0)
    then some (not (safe_read_bool (load_bytes 1 memory (size_address p_data f))))
    else singular_default message memory f p_data

-- `do … while (pb_field_iter_next(&iter))`, until a field is not its default; the fuel is the length of
-- the table.
unfoldable pub each_default : (Field → ℕ → Option Bool) → ℕ → Iter → Option Bool
each_default check zero iter = none
each_default check (suc n) iter =
    let rest = each_default check n in
    Option.bind (current iter) (λ f. Option.bind (check f iter.p_data) (λ b.
      if b
      then Option.bind (pb_field_iter_next iter) (λ r. if r.0 then rest r.1 else some true)
      else some false))

unfoldable pub message_default : (Field → ℕ → Option Bool) → List Field → ℕ → Option Bool
message_default check fields p_data =
    Option.bind (pb_field_iter_begin fields p_data)
      (λ r. if r.0 then each_default check (length fields) r.1 else some true)

-- The fuel bounds the depth.
unfoldable pub pb_check_proto3_default_value : Context → ℕ → Field → ℕ → Option Bool
pb_check_proto3_default_value context zero f p_data = none
pb_check_proto3_default_value context (suc n) f p_data =
    field_default
      (λ ptr p. message_default (pb_check_proto3_default_value context n) (context.table ptr) p)
      context.memory f p_data
