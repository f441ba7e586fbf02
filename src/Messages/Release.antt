-- ===== src/Messages/Release.antt =====
-- ThermoCheck/Pods/nanopb/pb_decode.c: the release of the memory that was allocated for a message.
use mathlib.Core.Option
use thermo_check.Common.{
  ℕ, zero, suc, Bool, not, ◌&&◌, ◌||◌, Option, none, some, List, ltb, ◌==◌, if◌then◌else◌,
}
use thermo_check.Memory.{Memory, load, store, add_address}
use thermo_check.Fields.{
  Field, Iter, ltype, htype, atype, repeated, oneof, static, callback, pointer, bytes_type,
  string_type, submessage_type, extension_type, pb_field_iter_find, current,
}
use thermo_check.Common.Exec.{pure, ◌>>=◌}
use thermo_check.Message.{invalid_union_tag, iterator_error}
use thermo_check.Messages.{Env, Action, return_error, demand, read, write, on_memory}
use thermo_check.Messages.Defaults.{iter_from_extension, each_extension, over_message}

-- `while (count--)` over items of `size` bytes.
unfoldable pub each_item : (ℕ → Memory → Option Memory) → ℕ → ℕ → ℕ → Memory → Option Memory
each_item act size zero item memory = some memory
each_item act size (suc count) item memory =
    Option.bind (act item memory) (each_item act size count (add_address item size))

-- The number of submessages in the field.
unfoldable pub submessage_count : Field → Iter → Memory → ℕ
submessage_count f iter memory =
    if htype f.type == repeated
    then (let count : ℕ =
          if atype f.type == static && iter.p_size == iter.p_data
          then f.array_size
          else load 4 memory iter.p_size in
        if atype f.type == static && ltb f.array_size count then f.array_size else count)
    else 1

-- What is inside an extension or a submessage.
unfoldable pub release_inside :
    Env
    → (Iter → Memory → Option Memory)
    → (ℕ → ℕ → Memory → Option Memory)
    → Field
    → Iter
    → Memory
    → Option Memory
release_inside env single message f iter memory =
    if ltype f.type == extension_type
    then each_extension
        (λ extension m. Option.bind (iter_from_extension env m extension) (λ i. single i m))
        env.extensions (load 8 memory iter.p_data) memory
    else if ltype f.type == submessage_type && not (atype f.type == callback)
    then (let item : ℕ =
          if atype f.type == pointer then load 8 memory iter.p_data else iter.p_data in
        if item == 0
        then some memory
        else each_item (message f.ptr) f.data_size (submessage_count f iter memory) item memory)
    else some memory

-- `pb_free(*pItem); *pItem = NULL`.
abbrev pub release_entry : Env → ℕ → Memory → Option Memory
release_entry env item memory = some (store 8 (env.free (load 8 memory item) memory) item 0)

unfoldable pub release_entries : Env → Field → Iter → Memory → Option Memory
release_entries env f iter memory =
    if htype f.type == repeated && (ltype f.type == string_type || ltype f.type == bytes_type)
    then each_item (release_entry env) 8 (load 4 memory iter.p_size) (load 8 memory iter.p_data)
        memory
    else some memory

abbrev pub reset_count : Field → Iter → Memory → Memory
reset_count f iter memory =
    if htype f.type == repeated then store 4 memory iter.p_size 0 else memory

-- The memory of the field itself.
unfoldable pub release_pointer : Env → Field → Iter → Memory → Option Memory
release_pointer env f iter memory =
    if atype f.type == pointer
    then Option.bind (release_entries env f iter memory)
        (λ m. release_entry env iter.p_data (reset_count f iter m))
    else some memory

unfoldable pub release_field :
    Env
    → (Iter → Memory → Option Memory)
    → (ℕ → ℕ → Memory → Option Memory)
    → Iter
    → Memory
    → Option Field
    → Option Memory
release_field env single message iter memory none = none
release_field env single message iter memory (some f) =
    if htype f.type == oneof && not (load 4 memory iter.p_size == f.tag)
    then some memory
    else Option.bind (release_inside env single message f iter memory) (release_pointer env f iter)

unfoldable pub release_message :
    (Iter → Memory → Option Memory) → List Field → ℕ → Memory → Option Memory
release_message single fields dest_struct memory =
    if dest_struct == 0 then some memory else over_message single fields dest_struct memory

-- `pb_release_single_field` and `pb_release`, which call each other; the fuel bounds the depth.
unfoldable pub pb_release_single_field : Env → ℕ → Iter → Memory → Option Memory
pb_release_single_field env zero iter memory = none
pb_release_single_field env (suc n) iter memory =
    release_field env (pb_release_single_field env n)
      (λ ptr item. release_message (pb_release_single_field env n) (env.table ptr) item) iter memory
      (current iter)

unfoldable pub pb_release : Env → List Field → ℕ → Memory → Option Memory
pb_release env fields dest_struct memory =
    release_message (pb_release_single_field env env.depth) fields dest_struct memory

-- `pb_release_union_field` behind the search for the old field, with whether it was found: the iterator
-- on the new field.
unfoldable pub restore_union : Bool × Iter → Action Iter
restore_union r =
    if r.0
    then (do
      f ← demand (current r.1)
      _ ← write (λ m. if atype f.type == pointer then store 8 m r.1.p_data 0 else m)
      pure r.1)
    else return_error iterator_error

unfoldable pub release_union : Env → ℕ → Bool × Iter → Action Iter
release_union env new_tag r =
    if r.0
    then (do
      _ ← on_memory (pb_release_single_field env env.depth r.1)
      back ← demand (pb_field_iter_find r.1 new_tag)
      restore_union back)
    else return_error invalid_union_tag

unfoldable pub pb_release_union_field : Env → Iter → Action Iter
pb_release_union_field env iter = do
  old_tag ← read (λ m. load 4 m iter.p_size)
  f ← demand (current iter)
  if old_tag == 0
      then pure iter
      else if old_tag == f.tag
      then pure iter
      else (do r ← demand (pb_field_iter_find iter old_tag); release_union env f.tag r)
