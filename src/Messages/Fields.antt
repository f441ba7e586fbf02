-- ===== src/Messages/Fields.antt =====
-- ThermoCheck/Pods/nanopb/pb_decode.c: one field of a message, and extension fields.
use thermo_check.Common.{ℕ, zero, suc, Option, none, some, List, [], ◌∷◌, ◌==◌, if◌then◌else◌}
use thermo_check.Common.Exec.{ok, fault, pure, ◌>>=◌}
use thermo_check.Message.{invalid_field_type}
use thermo_check.Memory.{load, store}
use thermo_check.Fields.{Field, Iter, htype, atype, oneof, static, callback, pointer, current}
use thermo_check.Messages.{Env, Action, return_error, read, write, demand}
use thermo_check.Messages.Defaults.{
  extension_next, found_address, extension_arg, iter_from_extension,
}
use thermo_check.Messages.Release.{pb_release_union_field}
use thermo_check.Messages.Values.{Nested, decode_static_field}
use thermo_check.Messages.Pointers.{decode_pointer_field}
use thermo_check.Messages.Callbacks.{decode_callback_field}

-- By the kind of allocation.
unfoldable pub decode_by_atype : Env → Nested → ℕ → Iter → Field → Action (Unit {0})
decode_by_atype env nested wire_type iter f =
    if atype f.type == static
    then decode_static_field env nested wire_type iter f
    else if atype f.type == pointer
    then decode_pointer_field env nested wire_type iter f
    else if atype f.type == callback
    then decode_callback_field env wire_type iter f
    else return_error invalid_field_type

-- The iterator as the call leaves it.
unfoldable pub decode_field : Env → Nested → ℕ → Iter → Action Iter
decode_field env nested wire_type iter = do
  f ← demand (current iter)
  iter' ← if htype f.type == oneof then pb_release_union_field env iter else pure iter
  f' ← demand (current iter')
  _ ← decode_by_atype env nested wire_type iter' f'
  pure iter'

abbrev pub first_of : List Field → Option Field
first_of [] = none
first_of (f ∷ rest) = some f

unfoldable pub default_extension_decoder : Env → Nested → ℕ → ℕ → ℕ → Action (Unit {0})
default_extension_decoder env nested extension tag wire_type = do
  field ← read (λ m. first_of (env.table (extension_arg m extension)))
  f ← demand field
  if f.tag == tag
      then (do
        made ← read (λ m. iter_from_extension env m extension)
        iter ← demand made
        _ ← write (λ m. store 1 m (found_address extension) 1)
        _ ← decode_field env nested wire_type iter
        pure tt)
      else pure tt

-- By the `decode` of the extension's type.
unfoldable pub decode_one_extension : Env → Nested → ℕ → ℕ → ℕ → Action (Unit {0})
decode_one_extension env nested extension tag wire_type = do
  decode ← read (λ m. load 8 m (load 8 m extension))
  if decode == 0
      then default_extension_decoder env nested extension tag wire_type
      else env.extension_decoder decode extension tag wire_type

-- The loop over the extensions until one has read something.
unfoldable pub extension_loop : Env → Nested → ℕ → ℕ → ℕ → ℕ → ℕ → Action (Unit {0})
extension_loop env nested tag wire_type pos zero extension s =
    if extension == 0 then (ok tt, s) else (fault, s)
extension_loop env nested tag wire_type pos (suc n) extension s =
    let again = extension_loop env nested tag wire_type pos n in
    if extension == 0
    then (ok tt, s)
    else if pos == s.stream.bytes_left
    then (do
      _ ← decode_one_extension env nested extension tag wire_type
      next ← read (λ m. extension_next m extension)
      again next)
        s
    else (ok tt, s)

unfoldable pub decode_extension : Env → Nested → ℕ → ℕ → Iter → Action (Unit {0})
decode_extension env nested tag wire_type iter s =
    extension_loop env nested tag wire_type s.stream.bytes_left env.extensions
      (load 8 s.memory iter.p_data) s
