-- ===== src/Messages/Pointers.antt =====
-- ThermoCheck/Pods/nanopb/pb_decode.c: fields whose data is allocated.
use thermo_check.Common.{
  ℕ, zero, suc, ◌+◌, ◌-◌, ◌/◌, ◌%◌, ◌^◌, Bool, true, false, not, ◌&&◌, ◌||◌, some, ltb, leb, ◌==◌,
  if◌then◌else◌,
}
use thermo_check.Common.Exec.{Outcome, ok, failed, fault, pure, ◌>>=◌, ◌>>◌}
use thermo_check.Message.{too_many_array_entries}
use thermo_check.Memory.{load, store, clear}
use thermo_check.Fields.{
  Field, Iter, ltype, htype, repeated, oneof, last_packable, bytes_type, string_type,
  submessage_type, pb_size_max,
}
use thermo_check.Input.{IStream}
use thermo_check.Wire.{wt_string, pb_make_string_substream}
use thermo_check.Messages.{
  Env, State, Action, return_error, read, write, on_memory, close_substream, with_substream,
}
use thermo_check.Messages.Defaults.{pb_message_set_to_defaults}
use thermo_check.Messages.Release.{pb_release_single_field}
use thermo_check.Messages.Values.{Nested, allocate_at, decode_value, item_address, increment}

-- A newly allocated item.
unfoldable pub initialize_pointer_field : Env → Field → ℕ → Action (Unit {0})
initialize_pointer_field env f item =
    if ltype f.type == string_type || ltype f.type == bytes_type
    then write (λ m. store 8 m item 0)
    else if ltype f.type == submessage_type
    then on_memory
        (λ m. pb_message_set_to_defaults env (env.table f.ptr) item (clear f.data_size m item))
    else pure tt

-- The address of the item that `*size` counts up to, behind the pointer of the field.
abbrev pub next_item : Field → Iter → Action ℕ
next_item f iter = read (λ m. item_address f (load 8 m iter.p_data) (load 4 m iter.p_size))

-- The guess of `allocated_size` for what is left of the packed array.
abbrev pub grown : Field → ℕ → ℕ → ℕ
grown f bytes_left allocated_size =
    let remain : ℕ = (bytes_left - 1) / f.data_size + 1 in
    if ltb remain ((pb_size_max + 2 ^ 64 - allocated_size) % 2 ^ 64)
    then allocated_size + remain
    else allocated_size + 1

-- More storage where the item does not fit: the new `allocated_size`. A division by the size 0 is a
-- fault.
unfoldable pub make_room : Env → Field → Iter → ℕ → Action ℕ
make_room env f iter allocated_size s =
    if ltb allocated_size (load 4 s.memory iter.p_size + 1)
    then (if f.data_size == 0
        then (fault, s)
        else (do
          _ ← allocate_at env iter.p_data f.data_size (grown f s.stream.bytes_left allocated_size)
          pure (grown f s.stream.bytes_left allocated_size))
            s)
    else (ok allocated_size, s)

-- The loop over a packed array, on the substream, with its status: `ok false` where there are too many
-- entries.
unfoldable pub pointer_items : Env → Nested → Field → Iter → ℕ → ℕ → Action Bool
pointer_items env nested f iter zero allocated_size s = (fault, s)
pointer_items env nested f iter (suc fuel) allocated_size s =
    let again = pointer_items env nested f iter fuel in
    if s.stream.bytes_left == 0
    then (ok true, s)
    else if load 4 s.memory iter.p_size == pb_size_max
    then (ok false, s)
    else (do
      allocated ← make_room env f iter allocated_size
      item ← next_item f iter
      _ ← initialize_pointer_field env f item
      _ ← decode_value env nested f item
      _ ← increment iter.p_size
      again allocated)
        s

-- What follows the loop, with the stream.
unfoldable pub finish_items : IStream → Outcome Bool × State → Outcome Bool × State
finish_items stream (ok true, s) = close_substream stream (ok true, s)
finish_items stream (ok false, s) =
    close_substream (record stream { errmsg = some too_many_array_entries }) (failed, s)
finish_items stream (failed, s) = close_substream stream (failed, s)
finish_items stream (fault, s) = (fault, s)

unfoldable pub decode_items : Env → Nested → Field → Iter → Action Bool
decode_items env nested f iter s =
    with_substream finish_items
      (λ t.
        pointer_items env nested f iter (suc t.stream.bytes_left) (load 4 s.memory iter.p_size) t)
      s.memory (pb_make_string_substream s.stream)

unfoldable pub decode_pointer_packed : Env → Nested → Field → Iter → Action (Unit {0})
decode_pointer_packed env nested f iter = decode_items env nested f iter >> pure tt

unfoldable pub decode_pointer_repeated : Env → Nested → Field → Iter → Action (Unit {0})
decode_pointer_repeated env nested f iter = do
  size ← read (λ m. load 4 m iter.p_size)
  if size == pb_size_max then return_error too_many_array_entries else (do
    _ ← allocate_at env iter.p_data f.data_size (size + 1)
    item ← next_item f iter
    _ ← increment iter.p_size
    _ ← initialize_pointer_field env f item
    decode_value env nested f item)

-- The old submessage of a field that comes twice is released.
unfoldable pub release_old : Env → Field → Iter → Action (Unit {0})
release_old env f iter s =
    if ltype f.type == submessage_type && not (load 8 s.memory iter.p_data == 0)
    then on_memory (pb_release_single_field env env.depth iter) s
    else (ok tt, s)

unfoldable pub decode_pointer_single : Env → Nested → Field → Iter → Action (Unit {0})
decode_pointer_single env nested f iter = do
  _ ← release_old env f iter
  _ ← write (λ m. if htype f.type == oneof then store 4 m iter.p_size f.tag else m)
  if ltype f.type == string_type || ltype f.type == bytes_type
      then decode_value env nested f iter.p_data
      else (do
        _ ← allocate_at env iter.p_data f.data_size 1
        item ← read (λ m. load 8 m iter.p_data)
        _ ← initialize_pointer_field env f item
        decode_value env nested f item)

unfoldable pub decode_pointer_field : Env → Nested → ℕ → Iter → Field → Action (Unit {0})
decode_pointer_field env nested wire_type iter f =
    if htype f.type == repeated
    then (if wire_type == wt_string && leb (ltype f.type) last_packable
        then decode_pointer_packed env nested f iter
        else decode_pointer_repeated env nested f iter)
    else decode_pointer_single env nested f iter
