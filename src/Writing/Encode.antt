-- ===== src/Writing/Encode.antt =====
-- ThermoCheck/Pods/nanopb/pb_encode.c: whole messages.
use thermo_check.Common.{
  ℕ, zero, suc, Bool, Option, none, some, List, [], ◌∷◌, length, ◌==◌, if◌then◌else◌,
}
use thermo_check.Common.Exec.{Outcome, fault, pure, ◌>>◌}
use thermo_check.Fields.{
  Field, Iter, ltype, extension_type, pb_field_iter_begin, pb_field_iter_next, current,
}
use thermo_check.Output.{Encoder, pb_write, sizing_stream}
use thermo_check.Writing.{Context}
use thermo_check.Writing.Values.{encode_submessage, measured}
use thermo_check.Writing.Fields.{encode_field, encode_extension_field}

-- The field that the iterator stands on.
unfoldable pub encode_current : Context → (ℕ → ℕ → Encoder) → Iter → Option Field → Encoder
encode_current context message iter none = λ s. (fault, s)
encode_current context message iter (some f) =
    if ltype f.type == extension_type
    then encode_extension_field context message iter.p_data
    else encode_field context message f iter.p_data

-- `do … while (pb_field_iter_next(&iter))`; the fuel is the length of the table.
unfoldable pub go_on : (Iter → Encoder) → Option (Bool × Iter) → Encoder
go_on rest none = λ s. (fault, s)
go_on rest (some r) = if r.0 then rest r.1 else pure tt

unfoldable pub encode_each : (Iter → Encoder) → ℕ → Iter → Encoder
encode_each encode zero iter = λ s. (fault, s)
encode_each encode (suc n) iter =
    encode iter >> go_on (encode_each encode n) (pb_field_iter_next iter)

unfoldable pub encode_begun : (Iter → Encoder) → ℕ → Option (Bool × Iter) → Encoder
encode_begun encode n none = λ s. (fault, s)
encode_begun encode n (some r) = if r.0 then encode_each encode n r.1 else pure tt

-- `pb_encode`; the fuel bounds the depth.
unfoldable pub encode_message : Context → ℕ → List Field → ℕ → Encoder
encode_message context zero fields src_struct = λ s. (fault, s)
encode_message context (suc n) fields src_struct =
    encode_begun
      (λ iter.
        encode_current context (λ ptr src. encode_message context n (context.table ptr) src) iter
          (current iter))
      (length fields) (pb_field_iter_begin fields src_struct)

unfoldable pub pb_encode : Context → List Field → ℕ → Encoder
pb_encode context fields src_struct = encode_message context context.depth fields src_struct

unfoldable pub pb_encode_submessage : Context → List Field → ℕ → Encoder
pb_encode_submessage context fields src_struct =
    encode_submessage (pb_encode context fields src_struct)

unfoldable pub pb_encode_delimited : Context → List Field → ℕ → Encoder
pb_encode_delimited context fields src_struct = pb_encode_submessage context fields src_struct

unfoldable pub pb_encode_nullterminated : Context → List Field → ℕ → Encoder
pb_encode_nullterminated context fields src_struct =
    pb_encode context fields src_struct >> pb_write (0 ∷ []) 1

-- The size, where true is returned.
unfoldable pub pb_get_encoded_size : Context → List Field → ℕ → Outcome ℕ
pb_get_encoded_size context fields src_struct =
    measured (pb_encode context fields src_struct sizing_stream)
