-- ===== src/Messages/Recursion.antt =====
-- Setting the defaults of a message and releasing it come to an end, and read no field behind a table.
use thermo_check.Common.{
  ℕ, zero, suc, ◌≡◌, refl, true, false, not, ◌&&◌, ◌||◌, Option, some, List, ◌==◌, if◌then◌else◌,
  arith,
}
use thermo_check.Memory.{Memory, load, store}
use thermo_check.Fields.{
  Field, Iter, ltype, htype, atype, optional, repeated, oneof, static, callback, pointer,
  submessage_type, extension_type, string_type, bytes_type, current,
}
use thermo_check.Fields.Tables.{IsIn}
use thermo_check.Messages.{Env}
use thermo_check.Messages.Defaults.{
  set_data, set_static, set_field, pb_field_set_to_default, pb_message_set_to_defaults,
}
use thermo_check.Messages.Release.{
  each_item, submessage_count, release_inside, release_entry, release_entries, release_pointer,
  release_field, release_message, pb_release_single_field, pb_release,
}
use thermo_check.Messages.Nesting.{
  IsUsable, IsNested, IsSome, IsSome-bind, IsSome-if, current-All, EndsAt, depths, IsFine,
}

-- Setting a field to its default.
module _ (set_message : ℕ → ℕ → Memory → Option Memory) (f : Field) (iter : Iter)
    (sets : (ltype f.type == submessage_type) ≡ true
      → (memory : Memory) → IsSome (set_message f.ptr iter.p_data memory)) where
  set_data-IsSome : (memory : Memory) → IsSome (set_data set_message f iter memory)
  unfolding set_data
  set_data-IsSome memory =
      IsSome-if (ltype f.type == submessage_type) _ _ (λ k. sets k memory)
        (λ _. IsSome-if (not (f.ptr == 0)) _ _ (λ _. (_, refl)) (λ _. (_, refl)))

  set_static-IsSome : (memory : Memory) → IsSome (set_static set_message f iter memory)
  unfolding set_static
  set_static-IsSome memory =
      IsSome-if (htype f.type == optional && not (iter.p_size == iter.p_data)) _ _
        (λ _. set_data-IsSome (store 1 memory iter.p_size 0))
        (λ _.
          IsSome-if (htype f.type == repeated || htype f.type == oneof) _ _ (λ _. (_, refl))
            (λ _. set_data-IsSome memory))

set-IsSome :
    (env : Env) (n : ℕ)
    → EndsAt env (pb_field_set_to_default env) n
    → (iter : Iter) (memory : Memory) (f : Field) → current iter ≡ some f
    → IsUsable env (IsNested env n) f
    → IsSome (pb_field_set_to_default env (suc n) iter memory)
unfolding pb_field_set_to_default set_field EndsAt
set-IsSome env n nested iter memory f e (kind, size, sub) =
    rw (e, plain)
      (IsSome-if (atype f.type == static) _ _
        (λ _.
          set_static-IsSome _ f iter (λ k m. nested (env.table f.ptr) iter.p_data m (sub k)) memory)
        (λ _. IsSome-if (atype f.type == pointer) _ _ (λ _. (_, refl)) (λ _. (_, refl))))
  where
    plain : (ltype f.type == extension_type) ≡ false
    plain = ground arith

-- For a table of fields whose submessages are nested to the depth that the environment sets, each
-- table with a field that is not the last and its fields of the types of PB_DECODERS, not
-- extensions, and of a size that is not 0, `pb_message_set_to_defaults` on any structure in any
-- memory comes to an end, and reads no field behind the end of a table.
pub pb_message_set_to_defaults-IsSome :
    (env : Env) (fields : List Field) (dest : ℕ) (memory : Memory)
    → IsNested env env.depth fields
    → IsSome (pb_message_set_to_defaults env fields dest memory)
unfolding pb_message_set_to_defaults EndsAt
pb_message_set_to_defaults-IsSome env fields dest memory h =
    depths env (pb_field_set_to_default env) (set-IsSome env) env.depth fields dest memory h

pub each_item-IsSome :
    (act : ℕ → Memory → Option Memory) (size count item : ℕ) (memory : Memory)
    → ((item : ℕ) (memory : Memory) → IsSome (act item memory))
    → IsSome (each_item act size count item memory)
unfolding each_item
each_item-IsSome act size zero item memory h = (memory, refl)
each_item-IsSome act size (suc count) item memory h =
    IsSome-bind (act item memory) _ (h item memory) (λ m _. each_item-IsSome act size count _ m h)

-- Releasing a field.
release_inside-IsSome :
    (env : Env) (single : Iter → Memory → Option Memory) (message : ℕ → ℕ → Memory → Option Memory)
    (f : Field) (iter : Iter) (memory : Memory)
    → (ltype f.type == extension_type) ≡ false
    → ((ltype f.type == submessage_type) ≡ true
        → (item : ℕ) (memory : Memory) → IsSome (message f.ptr item memory))
    → IsSome (release_inside env single message f iter memory)
unfolding release_inside
release_inside-IsSome env single message f iter memory plain sub = rw plain (
    IsSome-if (ltype f.type == submessage_type && not (atype f.type == callback)) _ _
      (λ k.
        IsSome-if
          ((if atype f.type == pointer then load 8 memory iter.p_data else iter.p_data) == 0) _ _
          (λ _. (_, refl))
          (λ _.
            each_item-IsSome (message f.ptr) f.data_size (submessage_count f iter memory) _ memory
              (sub (left k))))
      (λ _. (_, refl)))
  where
    left :
        (ltype f.type == submessage_type && not (atype f.type == callback)) ≡ true
        → (ltype f.type == submessage_type) ≡ true
    left k = ground arith

release_pointer-IsSome :
    (env : Env) (f : Field) (iter : Iter) (memory : Memory)
    → IsSome (release_pointer env f iter memory)
unfolding release_pointer release_entries
release_pointer-IsSome env f iter memory =
    IsSome-if (atype f.type == pointer) _ _
      (λ _.
        IsSome-bind _ _
          (IsSome-if
            (htype f.type == repeated
              && (ltype f.type == string_type || ltype f.type == bytes_type))
            _ _
            (λ _.
              each_item-IsSome (release_entry env) 8 (load 4 memory iter.p_size)
                (load 8 memory iter.p_data) memory (λ item m. (_, refl)))
            (λ _. (_, refl)))
          (λ m _. (_, refl)))
      (λ _. (_, refl))

release-IsSome :
    (env : Env) (n : ℕ)
    → EndsAt env (pb_release_single_field env) n
    → (iter : Iter) (memory : Memory) (f : Field) → current iter ≡ some f
    → IsUsable env (IsNested env n) f
    → IsSome (pb_release_single_field env (suc n) iter memory)
unfolding pb_release_single_field release_field release_message EndsAt
release-IsSome env n nested iter memory f e (kind, size, sub) = rw e (
    IsSome-if (htype f.type == oneof && not (load 4 memory iter.p_size == f.tag)) _ _
      (λ _. (_, refl))
      (λ _.
        IsSome-bind _ (release_pointer env f iter)
          (release_inside-IsSome env _ _ f iter memory plain (λ k item m.
            IsSome-if (item == 0) _ _ (λ _. (_, refl))
              (λ _. nested (env.table f.ptr) item m (sub k))))
          (λ m _. release_pointer-IsSome env f iter m)))
  where
    plain : (ltype f.type == extension_type) ≡ false
    plain = ground arith

-- For a table of fields whose submessages are nested to the depth that the environment sets, each
-- table with a field that is not the last and its fields of the types of PB_DECODERS, not
-- extensions, and of a size that is not 0, `pb_release` on any structure in any memory comes to an
-- end, whatever the counts and pointers in memory are, and reads no field behind the end of a
-- table.
pub pb_release-IsSome :
    (env : Env) (fields : List Field) (dest : ℕ) (memory : Memory)
    → IsNested env env.depth fields
    → IsSome (pb_release env fields dest memory)
unfolding pb_release release_message EndsAt
pb_release-IsSome env fields dest memory h =
    IsSome-if (dest == 0) _ _ (λ _. (_, refl))
      (λ _.
        depths env (pb_release_single_field env) (release-IsSome env) env.depth fields dest memory
          h)

pub pb_release_single_field-IsSome :
    (env : Env) (fields : List Field) (iter : Iter) (memory : Memory)
    → IsFine env fields
    → IsIn fields iter
    → IsSome (pb_release_single_field env env.depth iter memory)
pb_release_single_field-IsSome env fields iter memory h v = at_depth env.depth h
  where
    at_depth : (n : ℕ) → IsNested env n fields → IsSome (pb_release_single_field env n iter memory)
    at_depth zero = λ h. absurd h
    at_depth (suc n) = λ h.
        let (f, e, u) = current-All (IsUsable env (IsNested env n)) fields iter v h.1 in
        release-IsSome env n (depths env (pb_release_single_field env) (release-IsSome env) n) iter
          memory f e u
