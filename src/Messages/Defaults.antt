-- ===== src/Messages/Defaults.antt =====
-- ThermoCheck/Pods/nanopb/pb_decode.c: the default values of a message's fields, and extensions.
use mathlib.Core.Option
use thermo_check.Common.{
  ℕ, zero, suc, Bool, not, ◌&&◌, ◌||◌, Option, none, some, List, [], ◌∷◌, length, ◌==◌,
  if◌then◌else◌,
}
use thermo_check.Memory.{Memory, load, store, copy, clear, add_address}
use thermo_check.Fields.{
  Field, Iter, ltype, htype, atype, optional, repeated, oneof, static, pointer, submessage_type,
  extension_type, pb_field_iter_begin, pb_field_iter_next, current,
}
use thermo_check.Messages.{Env}

-- The members of a `pb_extension_t` and of its type: `type`, `dest`, `next` and `found`; `decode`,
-- `encode` and `arg`.
abbrev pub extension_next : Memory → ℕ → ℕ
extension_next memory extension = load 8 memory (add_address extension 16)

abbrev pub found_address : ℕ → ℕ
found_address extension = add_address extension 24

abbrev pub extension_arg : Memory → ℕ → ℕ
extension_arg memory extension = load 8 memory (add_address (load 8 memory extension) 16)

-- `iter_from_extension`.
abbrev from_begun : Memory → ℕ → Field → Bool × Iter → Iter
from_begun memory extension f r = record r.1 {
  p_data =
      if atype f.type == pointer
      then add_address extension 8
      else load 8 memory (add_address extension 8);
  p_size = found_address extension;
}

abbrev from_field : (Field → Bool × Iter → Iter) → List Field → Option (Bool × Iter) → Option Iter
from_field make [] begun = none
from_field make (f ∷ rest) begun = Option.map (make f) begun

unfoldable pub iter_from_extension : Env → Memory → ℕ → Option Iter
iter_from_extension env memory extension =
    let fields = env.table (extension_arg memory extension) in
    from_field (from_begun memory extension) fields
      (pb_field_iter_begin fields (load 8 memory (add_address extension 8)))

-- `set extension memory` for each extension of a list from `extension` on.
unfoldable pub each_extension : (ℕ → Memory → Option Memory) → ℕ → ℕ → Memory → Option Memory
each_extension set zero extension memory = if extension == 0 then some memory else none
each_extension set (suc n) extension memory =
    let rest =
      Option.bind (set extension memory)
        (λ m. each_extension set n (extension_next m extension) m) in
    if extension == 0 then some memory else rest

-- `do … while (pb_field_iter_next(&iter))` over memory; the fuel is the length of the table.
unfoldable pub each_field : (Iter → Memory → Option Memory) → ℕ → Iter → Memory → Option Memory
each_field set zero iter memory = none
each_field set (suc n) iter memory = Option.bind (set iter memory) (λ m.
    Option.bind (pb_field_iter_next iter)
      (λ r. let rest = each_field set n r.1 m in if r.0 then rest else some m))

-- A function of the fields on a whole message.
unfoldable pub over_message :
    (Iter → Memory → Option Memory) → List Field → ℕ → Memory → Option Memory
over_message set fields dest_struct memory =
    Option.bind (pb_field_iter_begin fields dest_struct)
      (λ r. if r.0 then each_field set (length fields) r.1 memory else some memory)

-- The part for the data of a static field; `set_message` sets a submessage.
unfoldable pub set_data : (ℕ → ℕ → Memory → Option Memory) → Field → Iter → Memory → Option Memory
set_data set_message f iter memory =
    if ltype f.type == submessage_type
    then set_message f.ptr iter.p_data memory
    else if not (f.ptr == 0)
    then some (copy f.data_size memory iter.p_data f.ptr)
    else some (clear f.data_size memory iter.p_data)

unfoldable pub set_static : (ℕ → ℕ → Memory → Option Memory) → Field → Iter → Memory → Option Memory
set_static set_message f iter memory =
    if htype f.type == optional && not (iter.p_size == iter.p_data)
    then set_data set_message f iter (store 1 memory iter.p_size 0)
    else if htype f.type == repeated || htype f.type == oneof
    then some (store 4 memory iter.p_size 0)
    else set_data set_message f iter memory

unfoldable pub set_pointer : Field → Iter → Memory → Memory
set_pointer f iter memory =
    if htype f.type == repeated || htype f.type == oneof
    then store 4 (store 8 memory iter.p_data 0) iter.p_size 0
    else store 8 memory iter.p_data 0

-- The extension's field, of which the iterator is made, to its default.
unfoldable pub set_extension : Env → (Iter → Memory → Option Memory) → ℕ → Memory → Option Memory
set_extension env set extension memory =
    let m : Memory = store 1 memory (found_address extension) 0 in
    Option.bind (iter_from_extension env m extension) (λ iter. set iter m)

-- `set` sets the field of an extension, and `set_message` a submessage.
unfoldable pub set_field :
    Env
    → (Iter → Memory → Option Memory)
    → (ℕ → ℕ → Memory → Option Memory)
    → Iter
    → Memory
    → Option Field
    → Option Memory
set_field env set set_message iter memory none = none
set_field env set set_message iter memory (some f) =
    if ltype f.type == extension_type
    then each_extension (set_extension env set) env.extensions (load 8 memory iter.p_data) memory
    else if atype f.type == static
    then set_static set_message f iter memory
    else if atype f.type == pointer
    then some (set_pointer f iter memory)
    else some memory

-- `pb_field_set_to_default` and `pb_message_set_to_defaults`, which call each other; the fuel bounds
-- the depth.
unfoldable pub pb_field_set_to_default : Env → ℕ → Iter → Memory → Option Memory
pb_field_set_to_default env zero iter memory = none
pb_field_set_to_default env (suc n) iter memory =
    set_field env (pb_field_set_to_default env n)
      (λ ptr dest. over_message (pb_field_set_to_default env n) (env.table ptr) dest) iter memory
      (current iter)

unfoldable pub pb_message_set_to_defaults : Env → List Field → ℕ → Memory → Option Memory
pb_message_set_to_defaults env fields dest_struct memory =
    over_message (pb_field_set_to_default env env.depth) fields dest_struct memory
