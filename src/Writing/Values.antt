-- ===== src/Writing/Values.antt =====
-- ThermoCheck/Pods/nanopb/pb_encode.c: PB_ENCODERS, arrays and submessages.
use thermo_check.Common.{
  ℕ, zero, suc, ◌*◌, ◌%◌, ◌^◌, true, not, ◌&&◌, ◌||◌, Option, none, some, List, [], ltb, leb, ◌==◌,
  if◌then◌else◌,
}
use thermo_check.Common.Exec.{Outcome, ok, failed, fault, pure, ◌>>◌}
use thermo_check.Message.{
  stream_full, array_max_size_exceeded, submsg_size_changed, invalid_field_descriptor,
}
use thermo_check.Memory.{Memory, load, load_bytes, add_address}
use thermo_check.Fields.{Field, ltype, atype, pointer, last_packable, bytes_type, string_type}
use thermo_check.Output.{
  OStream, Encoder, return_error, has_callback, add_size, pb_write, sizing_stream,
}
use thermo_check.Wire.{wt_string}
use thermo_check.Encode.{
  pb_encode_varint, pb_encode_tag, pb_encode_tag_for_field, pb_enc_bool, pb_enc_varint,
  pb_enc_uvarint, pb_enc_svarint, pb_enc_fixed32, pb_enc_fixed64, pb_enc_fixed_length_bytes,
}
use thermo_check.Data.{Storage, in_place, allocated, pb_enc_bytes, pb_enc_string}
use thermo_check.Writing.{Context}

-- The stream behind the second pass of a submessage.
abbrev pub behind : OStream → OStream → OStream
behind s substream = record s {
  bytes_written = add_size s.bytes_written substream.bytes_written;
  sink = substream.sink;
  errmsg = substream.errmsg;
}

-- What follows the second pass.
unfoldable pub after_submessage :
    ℕ → OStream → Outcome (Unit {0}) × OStream → Outcome (Unit {0}) × OStream
after_submessage size s (fault, substream) = (fault, s)
after_submessage size s (ok a, substream) =
    if substream.bytes_written == size
    then (ok a, behind s substream)
    else return_error submsg_size_changed (behind s substream)
after_submessage size s (failed, substream) =
    if substream.bytes_written == size
    then (failed, behind s substream)
    else return_error submsg_size_changed (behind s substream)

-- What follows the size.
unfoldable pub write_submessage : Encoder → ℕ → Encoder
write_submessage body size s =
    if not (has_callback s.sink)
    then pb_write [] size s
    else if ltb s.max_size (add_size s.bytes_written size)
    then return_error stream_full s
    else after_submessage size s
        (body (record { sink = s.sink; max_size = size; bytes_written = 0; errmsg = none }))

unfoldable pub sized_submessage : Encoder → Outcome (Unit {0}) × OStream → Encoder
sized_submessage body (ok a, substream) s =
    (pb_encode_varint substream.bytes_written >> write_submessage body substream.bytes_written) s
sized_submessage body (failed, substream) s = (failed, record s { errmsg = substream.errmsg })
sized_submessage body (fault, substream) s = (fault, s)

-- `pb_encode_submessage`, where `body` is `pb_encode` on the fields and the structure.
unfoldable pub encode_submessage : Encoder → Encoder
encode_submessage body = sized_submessage body (body sizing_stream)

abbrev pub storage_of : Field → Storage
storage_of f = if atype f.type == pointer then allocated (λ n. true) else in_place f.data_size

-- The bytes of a `pb_bytes_array_t`, and those that can be read of a string; `none` is a null pointer.
abbrev pub bytes_at : Context → ℕ → Option (List ℕ)
bytes_at context src =
    if src == 0
    then none
    else some (load_bytes (load 4 context.memory src) context.memory (add_address src 4))

abbrev pub string_at : Context → Field → ℕ → Option (List ℕ)
string_at context f src =
    if src == 0
    then none
    else some (
        load_bytes (if atype f.type == pointer then context.extent src else f.data_size)
          context.memory src)

-- `pb_enc_submessage`; `message` is `pb_encode` on the table of an address and a structure.
unfoldable pub pb_enc_submessage : (ℕ → ℕ → Encoder) → Field → ℕ → Encoder
pb_enc_submessage message f src =
    if f.ptr == 0
    then return_error invalid_field_descriptor
    else encode_submessage (message f.ptr src)

-- `func(stream, field, src)`, where `func` is `PB_ENCODERS[PB_LTYPE(field->type)]`. The entry of
-- extensions is a null pointer, and the types above 10 are behind the array.
unfoldable pub encode_value : Context → (ℕ → ℕ → Encoder) → Field → ℕ → Encoder
encode_value context message f src =
    if ltype f.type == 0
    then pb_enc_bool (load_bytes 1 context.memory src)
    else if ltype f.type == 1
    then pb_enc_varint f.data_size (load f.data_size context.memory src)
    else if ltype f.type == 2
    then pb_enc_uvarint f.data_size (load f.data_size context.memory src)
    else if ltype f.type == 3
    then pb_enc_svarint f.data_size (load f.data_size context.memory src)
    else if ltype f.type == 4
    then pb_enc_fixed32 (load 4 context.memory src)
    else if ltype f.type == 5
    then pb_enc_fixed64 (load 8 context.memory src)
    else if ltype f.type == 6
    then pb_enc_bytes (storage_of f) (bytes_at context src)
    else if ltype f.type == 7
    then pb_enc_string (storage_of f) (string_at context f src)
    else if ltype f.type == 8
    then pb_enc_submessage message f src
    else if ltype f.type == 10
    then pb_enc_fixed_length_bytes f.data_size (load_bytes f.data_size context.memory src)
    else (λ s. (fault, s))

-- `for (i = 0; i < count; i++)` over entries of `size` bytes.
unfoldable pub each_entry : (ℕ → Encoder) → ℕ → ℕ → ℕ → Encoder
each_entry act size zero p = pure tt
each_entry act size (suc count) p = act p >> each_entry act size count (add_address p size)

abbrev pub measured : Outcome (Unit {0}) × OStream → Outcome ℕ
measured (ok a, s) = ok s.bytes_written
measured (failed, s) = failed
measured (fault, s) = fault

-- The size of a packed array.
unfoldable pub packed_size : (ℕ → Encoder) → Field → ℕ → ℕ → Outcome ℕ
packed_size func f p_data count =
    if ltype f.type == 4
    then ok (4 * count % 2 ^ 64)
    else if ltype f.type == 5
    then ok (8 * count % 2 ^ 64)
    else measured (each_entry func f.data_size count p_data sizing_stream)

unfoldable pub write_packed : (ℕ → Encoder) → Field → ℕ → ℕ → Outcome ℕ → Encoder
write_packed func f p_data count failed = λ s. (failed, s)
write_packed func f p_data count fault = λ s. (fault, s)
write_packed func f p_data count (ok size) = pb_encode_varint size >> (λ s.
    if has_callback s.sink then each_entry func f.data_size count p_data s else pb_write [] size s)

-- An entry that is not packed; those of strings and bytes behind a pointer are pointers.
unfoldable pub encode_entry : Memory → (ℕ → Encoder) → Field → ℕ → Encoder
encode_entry memory func f p = do
  pb_encode_tag_for_field f.type f.tag
  func (
      if atype f.type == pointer && (ltype f.type == string_type || ltype f.type == bytes_type)
      then load 8 memory p
      else p)

unfoldable pub encode_array : Memory → (ℕ → Encoder) → Field → ℕ → ℕ → Encoder
encode_array memory func f p_data count =
    if count == 0
    then pure tt
    else if not (atype f.type == pointer) && ltb f.array_size count
    then return_error array_max_size_exceeded
    else if leb (ltype f.type) last_packable
    then pb_encode_tag wt_string f.tag
      >> write_packed func f p_data count (packed_size func f p_data count)
    else each_entry (encode_entry memory func f) f.data_size count p_data
