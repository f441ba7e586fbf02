-- ===== src/Messages/Values.antt =====
-- ThermoCheck/Pods/nanopb/pb_decode.c: PB_DECODERS, and fields that are static, behind pointers or read
-- by callbacks.
use thermo_check.Common.{
  ℕ, zero, suc, ◌+◌, ◌*◌, ◌%◌, ◌^◌, Bool, true, false, not, ◌&&◌, none, some, length, ltb, leb,
  ◌==◌, if◌then◌else◌,
}
use thermo_check.Common.Exec.{Outcome, ok, failed, fault, pure, ◌>>=◌}
use thermo_check.Message.{array_overflow, invalid_field_descriptor}
use thermo_check.Memory.{Memory, load, store, store_bytes, clear, add_address}
use thermo_check.Fields.{
  Field, Iter, ltype, htype, atype, required, optional, repeated, pointer, last_packable,
  submessage_type,
}
use thermo_check.Input.{IStream}
use thermo_check.Wire.{wt_string, pb_make_string_substream}
use thermo_check.Decode.{
  pb_dec_bool, pb_dec_varint, pb_dec_uvarint, pb_dec_svarint, pb_dec_fixed32, pb_dec_fixed64,
}
use thermo_check.Data.{
  Storage, in_place, allocated, pb_dec_bytes, pb_dec_string, pb_dec_fixed_length_bytes,
}
use thermo_check.Data
use thermo_check.Messages.{
  Env, State, Action, on_stream, return_error, read, write, demand, on_memory, close_substream,
  with_substream,
}
use thermo_check.Messages.Defaults.{pb_message_set_to_defaults}

-- `*(void**)address = realloc(*(void**)address, size)`, where `realloc` finds memory.
unfoldable pub moved : Env → ℕ → ℕ → Memory → Memory
moved env address size memory = elim (env.realloc (load 8 memory address) size memory) [
  | none ↦ memory
  | some r ↦ store 8 r.1 address r.0
]

abbrev pub finds : Env → ℕ → Memory → ℕ → Bool
finds env address memory size = elim (env.realloc (load 8 memory address) size memory) [
  | none ↦ false
  | some r ↦ true
]

-- `allocate_field` with the pointer at `address`.
unfoldable pub allocate_at : Env → ℕ → ℕ → ℕ → Action (Unit {0})
allocate_at env address data_size array_size = do
  found ← read (finds env address)
  size ← on_stream (Data.allocate_field found data_size array_size)
  write (moved env address size)

-- `pb_dec_bytes` and `pb_dec_string`, for a pointer at `dest` or for data at `dest`.
unfoldable pub dec_bytes : Env → Field → ℕ → Action (Unit {0})
dec_bytes env f dest =
    if atype f.type == pointer
    then (do
      found ← read (finds env dest)
      bytes ← on_stream (pb_dec_bytes (allocated found))
      _ ← write (moved env dest (length bytes + 4))
      write (λ m.
          store_bytes (store 4 m (load 8 m dest) (length bytes)) (add_address (load 8 m dest) 4)
            bytes))
    else (do
      bytes ← on_stream (pb_dec_bytes (in_place f.data_size))
      write (λ m. store_bytes (store 4 m dest (length bytes)) (add_address dest 4) bytes))

unfoldable pub dec_string : Env → Field → ℕ → Action (Unit {0})
dec_string env f dest =
    if atype f.type == pointer
    then (do
      found ← read (finds env dest)
      bytes ← on_stream (pb_dec_string (allocated found))
      _ ← write (moved env dest (length bytes))
      write (λ m. store_bytes m (load 8 m dest) bytes))
    else (do
      bytes ← on_stream (pb_dec_string (in_place f.data_size))
      write (λ m. store_bytes m dest bytes))

-- The decoders of submessages: `pb_decode` on a repeated field, and `pb_decode_noinit`, on the table of
-- an address and the structure.
pub record Nested : Type 0 where
  pub decode : ℕ → ℕ → Action (Unit {0})
  pub decode_noinit : ℕ → ℕ → Action (Unit {0})

-- The table of an address that is not null is read in `decode` and `decode_noinit`.
unfoldable pub pb_dec_submessage : Nested → Field → ℕ → Action (Unit {0})
pb_dec_submessage nested f dest s =
    with_substream
      (λ t r.
        if f.ptr == 0
        then return_error invalid_field_descriptor (record { stream = t; memory = r.1.memory })
        else close_substream t r)
      (if f.ptr == 0
        then pure tt
        else if htype f.type == repeated
        then nested.decode f.ptr dest
        else nested.decode_noinit f.ptr dest)
      s.memory (pb_make_string_substream s.stream)

-- `func(stream, iter->pos, dest)`, where `func` is `PB_DECODERS[PB_LTYPE(type)]`. The entry of
-- extensions is a null pointer, and the types above 10 are behind the array.
unfoldable pub decode_value : Env → Nested → Field → ℕ → Action (Unit {0})
decode_value env nested f dest =
    if ltype f.type == 0
    then (do b ← on_stream pb_dec_bool; write (λ m. store 1 m dest (if b then 1 else 0)))
    else if ltype f.type == 1
    then (do v ← on_stream (pb_dec_varint f.data_size); write (λ m. store f.data_size m dest v))
    else if ltype f.type == 2
    then (do v ← on_stream (pb_dec_uvarint f.data_size); write (λ m. store f.data_size m dest v))
    else if ltype f.type == 3
    then (do v ← on_stream (pb_dec_svarint f.data_size); write (λ m. store f.data_size m dest v))
    else if ltype f.type == 4
    then (do v ← on_stream pb_dec_fixed32; write (λ m. store 4 m dest v))
    else if ltype f.type == 5
    then (do v ← on_stream pb_dec_fixed64; write (λ m. store 8 m dest v))
    else if ltype f.type == 6
    then dec_bytes env f dest
    else if ltype f.type == 7
    then dec_string env f dest
    else if ltype f.type == 8
    then pb_dec_submessage nested f dest
    else if ltype f.type == 10
    then (do
      bytes ← on_stream (pb_dec_fixed_length_bytes f.data_size)
      write (λ m. store_bytes m dest bytes))
    else demand none

-- `base + data_size * index`; the product has 32 bits.
abbrev pub item_address : Field → ℕ → ℕ → ℕ
item_address f base index = add_address base (f.data_size * index % 2 ^ 32)

-- `(*size)++`.
abbrev pub increment : ℕ → Action (Unit {0})
increment p_size = write (λ m. store 4 m p_size (load 4 m p_size + 1))

-- The loop over a packed array in the structure, on the substream, with its status.
unfoldable pub packed_items : (ℕ → Action (Unit {0})) → Field → Iter → ℕ → Action (Unit {0})
packed_items func f iter zero s = (fault, s)
packed_items func f iter (suc fuel) s =
    let again = packed_items func f iter fuel in
    if ltb 0 s.stream.bytes_left && ltb (load 4 s.memory iter.p_size) f.array_size
    then (do
      _ ← func (item_address f iter.p_data (load 4 s.memory iter.p_size))
      _ ← increment iter.p_size
      again)
        s
    else (ok tt, s)

-- What follows the loop, with the stream.
unfoldable pub finish_packed : IStream → Outcome (Unit {0}) × State → Outcome (Unit {0}) × State
finish_packed stream (fault, s) = (fault, s)
finish_packed stream (ok a, s) =
    if s.stream.bytes_left == 0
    then close_substream stream (ok a, s)
    else return_error array_overflow (record { stream = stream; memory = s.memory })
finish_packed stream (failed, s) =
    if s.stream.bytes_left == 0
    then close_substream stream (failed, s)
    else return_error array_overflow (record { stream = stream; memory = s.memory })

unfoldable pub decode_packed : (ℕ → Action (Unit {0})) → Field → Iter → Action (Unit {0})
decode_packed func f iter s =
    with_substream finish_packed (λ t. packed_items func f iter (suc t.stream.bytes_left) t)
      s.memory (pb_make_string_substream s.stream)

unfoldable pub decode_repeated : (ℕ → Action (Unit {0})) → Field → Iter → Action (Unit {0})
decode_repeated func f iter = do
  size ← read (λ m. load 4 m iter.p_size)
  _ ← increment iter.p_size
  if leb f.array_size size
      then return_error array_overflow
      else func (item_address f iter.p_data size)

-- A submessage of a union that held another field is set to its defaults.
unfoldable pub start_oneof : Env → Field → Iter → Action (Unit {0})
start_oneof env f iter s =
    if ltype f.type == submessage_type && not (load 4 s.memory iter.p_size == f.tag)
    then on_memory
        (λ m.
          pb_message_set_to_defaults env (env.table f.ptr) iter.p_data
            (clear f.data_size m iter.p_data))
        s
    else (ok tt, s)

unfoldable pub decode_static_field : Env → Nested → ℕ → Iter → Field → Action (Unit {0})
decode_static_field env nested wire_type iter f =
    if htype f.type == required
    then decode_value env nested f iter.p_data
    else if htype f.type == optional
    then (do
      _ ← write (λ m. if iter.p_size == iter.p_data then m else store 1 m iter.p_size 1)
      decode_value env nested f iter.p_data)
    else if htype f.type == repeated
    then (if wire_type == wt_string && leb (ltype f.type) last_packable
        then decode_packed (decode_value env nested f) f iter
        else decode_repeated (decode_value env nested f) f iter)
    else (do
      _ ← start_oneof env f iter
      _ ← write (λ m. store 4 m iter.p_size f.tag)
      decode_value env nested f iter.p_data)
