-- ===== src/Messages/Decode.antt =====
-- ThermoCheck/Pods/nanopb/pb_decode.c: whole messages.
use mathlib.Core.Option
use thermo_check.Common.{
  ℕ, zero, suc, ◌+◌, ◌-◌, ◌*◌, ◌/◌, ◌%◌, ◌^◌, Bool, true, false, not, ◌&&◌, ◌||◌, Option, none,
  some, List, [], ◌∷◌, length, ltb, leb, ◌==◌, if◌then◌else◌, bit_and, bit_or,
}
use thermo_check.Common.Exec.{Outcome, ok, failed, fault, pure, ◌>>=◌, ◌>>◌}
use thermo_check.Message.{wrong_size_for_fixed_count_field, missing_required_field}
use thermo_check.Memory.{Memory, load, store}
use thermo_check.Fields.{
  Field, Iter, htype, required, repeated, pb_field_iter_begin, pb_field_iter_next,
  pb_field_iter_find, find_extension_field, current,
}
use thermo_check.Input.{IStream}
use thermo_check.Wire.{Tag, pb_decode_tag, pb_skip_field}
use thermo_check.Messages.{
  Env, State, Action, on_stream, return_error, write, demand, on_memory, in_substream,
}
use thermo_check.Messages.Defaults.{pb_message_set_to_defaults}
use thermo_check.Messages.Release.{pb_release}
use thermo_check.Messages.Values.{Nested}
use thermo_check.Messages.Fields.{decode_field, decode_extension}

-- PB_MAX_REQUIRED_FIELDS.
abbrev pub max_required_fields : ℕ
max_required_fields = 64

-- `fields_seen`, two words of 32 bits.
pub record Seen : Type 0 where
  pub first : ℕ
  pub second : ℕ

-- The local variables of `pb_decode_noinit`; `fixed_count_size` lies in memory, since a pointer to it is
-- made.
pub record Locals : Type 0 where
  pub iter : Iter
  pub extension_range_start : ℕ
  pub fields_seen : Seen
  pub fixed_count_field : Option (List Field)

-- `fields_seen[index >> 5] |= 1 << (index & 31)`, for an index below 64.
unfoldable pub set_seen : ℕ → Seen → Seen
set_seen index seen =
    let tmp : ℕ = 2 ^ bit_and index 31 in
    if index / 2 ^ 5 == 0
    then record seen { first = bit_or seen.first tmp }
    else record seen { second = bit_or seen.second tmp }

-- `fields_seen[i]`.
abbrev pub seen_word : Seen → ℕ → ℕ
seen_word seen i = if i == 0 then seen.first else seen.second

-- A fixed count field has had all its elements, by the size at `local`.
unfoldable pub is_complete : ℕ → Memory → Option (List Field) → Bool
is_complete local memory none = true
is_complete local memory (some []) = true
is_complete local memory (some (f ∷ rest)) = load 4 memory local == f.array_size

-- `fixed_count_field == iter.pos`.
abbrev pub is_field : Option (List Field) → List Field → Bool
is_field none pos = false
is_field (some fields) pos = length fields == length pos

-- The count of a repeated field without a counter in the structure.
unfoldable pub start_fixed_count : ℕ → Locals → Field → Action Locals
start_fixed_count local l f s =
    if htype f.type == repeated && l.iter.p_size == l.iter.p_data
    then (if is_field l.fixed_count_field l.iter.pos
        then (ok (record l { iter = record l.iter { p_size = local } }), s)
        else if is_complete local s.memory l.fixed_count_field
        then (
          ok (record l {
            iter = record l.iter { p_size = local };
            fixed_count_field = some l.iter.pos;
          }),
          record s { memory = store 4 s.memory local 0 },
        )
        else return_error wrong_size_for_fixed_count_field s)
    else (ok l, s)

-- A required field has been seen.
unfoldable pub mark_seen : Locals → Field → Locals
mark_seen l f =
    if htype f.type == required && ltb l.iter.required_field_index max_required_fields
    then record l { fields_seen = set_seen l.iter.required_field_index l.fields_seen }
    else l

-- `decode` is `decode_field`.
unfoldable pub known_field : (Iter → Action Iter) → ℕ → Locals → Action Locals
known_field decode local l = do
  f ← demand (current l.iter)
  l' ← start_fixed_count local l f
  iter ← decode l'.iter
  pure (record (mark_seen l' f) { iter = iter })

-- `extension_range_start` behind the search for the extension field.
abbrev pub range_start : Bool × Iter → Option Field → ℕ
range_start r none = 2 ^ 32 - 1
range_start r (some f) = if r.0 then f.tag else 2 ^ 32 - 1

unfoldable pub skip : ℕ → Locals → Action Locals
skip wire_type l = do _ ← on_stream (pb_skip_field wire_type); pure l

-- `extend` is `decode_extension`.
unfoldable pub try_extension : (Iter → Action (Unit {0})) → Tag → Locals → Action Locals
try_extension extend t l s =
    let pos : ℕ = s.stream.bytes_left in
    (do
      _ ← extend l.iter
      λ u. if pos == u.stream.bytes_left then skip t.wire_type l u else (ok l, u))
      s

unfoldable pub unknown_field : (Iter → Action (Unit {0})) → Tag → Locals → Action Locals
unknown_field extend t l =
    if leb l.extension_range_start t.tag
    then (do
      r ← demand (find_extension_field l.iter)
      let start : ℕ = range_start r (current r.1)
      let l' : Locals = record l { iter = r.1; extension_range_start = start }
      if leb start t.tag then try_extension extend t l' else skip t.wire_type l')
    else skip t.wire_type l

-- What is done with a field's tag; `decode` and `extend` take the wire type.
unfoldable pub one_field : Env → Nested → ℕ → Tag → Locals → Action Locals
one_field env nested local t l = do
  r ← demand (pb_field_iter_find l.iter t.tag)
  if r.0
      then known_field (decode_field env nested t.wire_type) local (record l { iter = r.1 })
      else unknown_field (decode_extension env nested t.tag t.wire_type) t (record l { iter = r.1 })

-- A round behind `pb_decode_tag`; `field` is `one_field`, and `again` the next round.
unfoldable pub after_tag :
    (Tag → Locals → Action Locals)
    → (Locals → Action Locals)
    → Locals
    → Memory
    → Outcome Tag × Bool × IStream
    → Outcome Locals × State
after_tag field again l memory (ok t, eof, stream) =
    (field t l >>= again) (record { stream = stream; memory = memory })
after_tag field again l memory (failed, eof, stream) =
    (if eof then ok l else failed, record { stream = stream; memory = memory })
after_tag field again l memory (fault, eof, stream) =
    (fault, record { stream = stream; memory = memory })

-- `while (stream->bytes_left)`. Each round takes the byte of a tag, so one more round than the bytes left
-- is fuel enough.
unfoldable pub fields_loop : (Tag → Locals → Action Locals) → ℕ → Locals → Action Locals
fields_loop field zero l s = (fault, s)
fields_loop field (suc fuel) l s =
    let again = after_tag field (fields_loop field fuel) l s.memory (pb_decode_tag s.stream) in
    if s.stream.bytes_left == 0 then (ok l, s) else again

-- The seeking to the end of the table: `req_field_count`, `last_type` and the iterator; the fuel is the
-- length of the table.
unfoldable pub seek_end : ℕ → Iter → Option (ℕ × ℕ × Iter)
seek_end zero iter = none
seek_end (suc fuel) iter = Option.bind (current iter) (λ f.
    Option.bind (pb_field_iter_next iter) (λ r.
      let rest = seek_end fuel r.1 in
      if r.0 then rest else some (iter.required_field_index, f.type, r.1)))

-- `req_field_count` after the fixup, at most PB_MAX_REQUIRED_FIELDS.
unfoldable pub required_count : ℕ → ℕ → Field → ℕ
required_count req_field_count last_type f =
    let count : ℕ =
      if htype last_type == required && not (f.tag == 0)
      then (req_field_count + 1) % 2 ^ 32
      else req_field_count in
    if ltb max_required_fields count then max_required_fields else count

-- The whole words, `i` and the `n - 1` behind it.
unfoldable pub whole_words : Seen → ℕ → ℕ → Bool
whole_words seen i zero = true
whole_words seen i (suc n) = seen_word seen i == 2 ^ 32 - 1 && whole_words seen (suc i) n

-- All of the first `count` required fields have been seen, by the words and the remaining bits.
unfoldable pub all_seen : Seen → ℕ → Bool
all_seen seen count =
    whole_words seen 0 (count / 2 ^ 5)
    && (bit_and count 31 == 0
        || seen_word seen (count / 2 ^ 5) == (2 ^ 32 - 1) / 2 ^ (32 - bit_and count 31))

-- The tests behind the loop.
unfoldable pub check_required : Seen → Iter → Action (Unit {0})
check_required seen iter = do
  (count, last_type, end) ← demand (seek_end (length iter.start) iter)
  f ← demand (current end)
  if all_seen seen (required_count count last_type f)
      then pure tt
      else return_error missing_required_field

unfoldable pub check_message : ℕ → Locals → Action (Unit {0})
check_message local l s =
    if is_complete local s.memory l.fixed_count_field
    then check_required l.fields_seen l.iter s
    else return_error wrong_size_for_fixed_count_field s

-- The local variables at the start.
abbrev pub initial_locals : Bool × Iter → Locals
initial_locals r = record {
  iter = r.1;
  extension_range_start = 0;
  fields_seen = record { first = 0; second = 0 };
  fixed_count_field = none;
}

-- `pb_decode_noinit`, with the decoders of submessages and the address of `fixed_count_size`.
unfoldable pub decode_fields : Env → Nested → ℕ → List Field → ℕ → Action (Unit {0})
decode_fields env nested local fields dest_struct s =
    (do
      r ← demand (pb_field_iter_begin fields dest_struct)
      _ ← write (λ m. store 4 m local 0)
      l ← fields_loop (one_field env nested local) (suc s.stream.bytes_left) (initial_locals r)
      check_message local l)
      s

-- What follows `pb_decode_noinit` in `pb_decode`.
unfoldable pub release_failed :
    Env → List Field → ℕ → Outcome (Unit {0}) × State → Outcome (Unit {0}) × State
release_failed env fields dest_struct (ok a, s) = (ok a, s)
release_failed env fields dest_struct (failed, s) =
    (on_memory (pb_release env fields dest_struct) >> (λ t. (failed, t))) s
release_failed env fields dest_struct (fault, s) = (fault, s)

-- `pb_decode`, by `pb_decode_noinit` on the table and the structure.
unfoldable pub decode_with :
    Env → (List Field → ℕ → Action (Unit {0})) → List Field → ℕ → Action (Unit {0})
decode_with env noinit fields dest_struct =
    on_memory (pb_message_set_to_defaults env fields dest_struct)
    >> (λ s. release_failed env fields dest_struct (noinit fields dest_struct s))

-- The fuel bounds the depth of submessages, each of which takes a byte at least. The local variable of a
-- call lies behind those of the calls inside it.
unfoldable pub noinit : Env → ℕ → List Field → ℕ → Action (Unit {0})
noinit env zero fields dest_struct = λ s. (fault, s)
noinit env (suc n) fields dest_struct =
    decode_fields env
      (record {
        decode = λ ptr dest. decode_with env (noinit env n) (env.table ptr) dest;
        decode_noinit = λ ptr dest. noinit env n (env.table ptr) dest;
      })
      (2 ^ 64 + 4 * n) fields dest_struct

unfoldable pub pb_decode_noinit : Env → List Field → ℕ → Action (Unit {0})
pb_decode_noinit env fields dest_struct s =
    noinit env (suc s.stream.bytes_left) fields dest_struct s

unfoldable pub pb_decode : Env → List Field → ℕ → Action (Unit {0})
pb_decode env fields dest_struct = decode_with env (pb_decode_noinit env) fields dest_struct

unfoldable pub pb_decode_delimited_noinit : Env → List Field → ℕ → Action (Unit {0})
pb_decode_delimited_noinit env fields dest_struct =
    in_substream (pb_decode_noinit env fields dest_struct)

unfoldable pub pb_decode_delimited : Env → List Field → ℕ → Action (Unit {0})
pb_decode_delimited env fields dest_struct = in_substream (pb_decode env fields dest_struct)

unfoldable pub pb_decode_nullterminated : Env → List Field → ℕ → Action (Unit {0})
pb_decode_nullterminated env fields dest_struct = pb_decode env fields dest_struct
