-- ===== src/Writing/Fields.antt =====
-- ThermoCheck/Pods/nanopb/pb_encode.c: one field of a message, and extension fields.
use mathlib.Core.Option
use thermo_check.Common.{
  ℕ, zero, suc, Bool, not, Option, none, some, List, [], ◌∷◌, ◌==◌, if◌then◌else◌,
}
use thermo_check.Common.Exec.{Outcome, ok, failed, fault, pure, ◌>>◌}
use thermo_check.Message.{missing_required_field, callback_error, invalid_field_type}
use thermo_check.Memory.{load, load_bytes, add_address}
use thermo_check.Fields.{
  Field, htype, atype, required, optional, repeated, static, callback, pointer, size_address,
}
use thermo_check.Output.{OStream, Encoder, return_error}
use thermo_check.Encode.{pb_encode_tag_for_field, safe_read_bool}
use thermo_check.Messages.Defaults.{extension_next, extension_arg}
use thermo_check.Writing.{Context}
use thermo_check.Writing.Defaults.{pb_check_proto3_default_value}
use thermo_check.Writing.Values.{encode_value, encode_array}

-- An optional field is there: by its has-flag, or for a field without one by the pointer or by the value.
unfoldable pub is_present : Context → Field → ℕ → ℕ → Option Bool
is_present context f p_data value =
    if not (f.size_offset == 0)
    then some (safe_read_bool (load_bytes 1 context.memory (size_address p_data f)))
    else if atype f.type == pointer
    then some (not (value == 0))
    else Option.map not (pb_check_proto3_default_value context context.depth f p_data)

abbrev pub encode_if : Option Bool → Encoder → Encoder
encode_if none m = λ s. (fault, s)
encode_if (some b) m = if b then m else pure tt

-- By the kind of the field; `value` is where the value lies, behind a pointer or not. A field of a oneof
-- has a `which` member; without one, memory behind a local variable is read.
unfoldable pub encode_by_htype : Context → (ℕ → Encoder) → Field → ℕ → ℕ → Encoder
encode_by_htype context func f p_data value =
    let tagged : Encoder = pb_encode_tag_for_field f.type f.tag >> func value in
    if htype f.type == required
    then (if value == 0 then return_error missing_required_field else tagged)
    else if htype f.type == optional
    then encode_if (is_present context f p_data value) tagged
    else if htype f.type == repeated
    then encode_array context.memory func f value
        (if f.size_offset == 0 then f.array_size else load 4 context.memory (size_address p_data f))
    else if f.size_offset == 0
    then (λ s. (fault, s))
    else if load 4 context.memory (size_address p_data f) == f.tag
    then tagged
    else pure tt

unfoldable pub encode_basic_field : Context → (ℕ → ℕ → Encoder) → Field → ℕ → Encoder
encode_basic_field context message f p_data =
    encode_by_htype context (encode_value context message f) f p_data
      (if atype f.type == pointer then load 8 context.memory p_data else p_data)

-- What follows the call of a callback.
unfoldable pub after_encode : Outcome (Unit {0}) × OStream → Outcome (Unit {0}) × OStream
after_encode (ok a, s) = (ok a, s)
after_encode (failed, s) = return_error callback_error s
after_encode (fault, s) = (fault, s)

unfoldable pub encode_callback_field : Context → Field → ℕ → Encoder
encode_callback_field context f p_data s =
    let encode : ℕ = load 8 context.memory p_data in
    if encode == 0
    then (ok tt, s)
    else after_encode (context.callback encode f (add_address p_data 8) s)

unfoldable pub encode_field : Context → (ℕ → ℕ → Encoder) → Field → ℕ → Encoder
encode_field context message f p_data =
    if atype f.type == static
    then encode_basic_field context message f p_data
    else if atype f.type == pointer
    then encode_basic_field context message f p_data
    else if atype f.type == callback
    then encode_callback_field context f p_data
    else return_error invalid_field_type

abbrev pub encode_extension_data : Context → (ℕ → ℕ → Encoder) → List Field → ℕ → Encoder
encode_extension_data context message [] extension = λ s. (fault, s)
encode_extension_data context message (f ∷ rest) extension =
    if atype f.type == pointer
    then encode_field context message f (add_address extension 8)
    else encode_field context message f (load 8 context.memory (add_address extension 8))

unfoldable pub default_extension_encoder : Context → (ℕ → ℕ → Encoder) → ℕ → Encoder
default_extension_encoder context message extension =
    encode_extension_data context message (context.table (extension_arg context.memory extension))
      extension

-- By the `encode` of the extension's type.
unfoldable pub encode_one_extension : Context → (ℕ → ℕ → Encoder) → ℕ → Encoder
encode_one_extension context message extension =
    let encode : ℕ = load 8 context.memory (add_address (load 8 context.memory extension) 8) in
    if encode == 0
    then default_extension_encoder context message extension
    else context.extension_encoder encode extension

unfoldable pub write_extensions : Context → (ℕ → ℕ → Encoder) → ℕ → ℕ → Encoder
write_extensions context message zero extension =
    λ s. if extension == 0 then (ok tt, s) else (fault, s)
write_extensions context message (suc n) extension =
    let rest = write_extensions context message n (extension_next context.memory extension) in
    if extension == 0 then pure tt else encode_one_extension context message extension >> rest

unfoldable pub encode_extension_field : Context → (ℕ → ℕ → Encoder) → ℕ → Encoder
encode_extension_field context message p_data =
    write_extensions context message context.extensions (load 8 context.memory p_data)
