-- ===== src/Fields.antt =====
-- ThermoCheck/Pods/nanopb/pb.h and pb_common.c: the fields of a message type, and the iterator over
-- them. A pointer into a table of fields is the rest of the table from there; two pointers into one
-- table are equal when as much of the table is left. A pointer into the message is its address.
pub mod Tables
pub mod Search
use mathlib.Core.Option
use thermo_check.Common.{
  ℕ, zero, suc, ◌+◌, ◌-◌, ◌*◌, ◌%◌, ◌^◌, Bool, true, false, not, ◌&&◌, Option, none, some, List, [],
  ◌∷◌, length, ◌==◌, if◌then◌else◌, bit_and,
}
use thermo_check.Common.Words.{sign_extend}
use thermo_check.Memory.{add_address}

-- `size_offset` is the 32-bit word of a `pb_ssize_t`, and `ptr` an address.
pub record Field : Type 0 where
  pub tag : ℕ
  pub type : ℕ
  pub data_offset : ℕ
  pub size_offset : ℕ
  pub data_size : ℕ
  pub array_size : ℕ
  pub ptr : ℕ

-- PB_LTYPE.
unfoldable pub ltype : ℕ → ℕ
ltype type = bit_and type 0x0f

-- PB_HTYPE, and the values that it has.
unfoldable pub htype : ℕ → ℕ
htype type = bit_and type 0x30

abbrev pub required : ℕ
required = 0x00

abbrev pub optional : ℕ
optional = 0x10

abbrev pub repeated : ℕ
repeated = 0x20

abbrev pub oneof : ℕ
oneof = 0x30

-- PB_ATYPE, and the values that it has.
unfoldable pub atype : ℕ → ℕ
atype type = bit_and type 0xc0

abbrev pub static : ℕ
static = 0x00

abbrev pub callback : ℕ
callback = 0x40

abbrev pub pointer : ℕ
pointer = 0x80

-- Values of PB_LTYPE.
abbrev pub last_packable : ℕ
last_packable = 0x05

abbrev pub bytes_type : ℕ
bytes_type = 0x06

abbrev pub string_type : ℕ
string_type = 0x07

abbrev pub submessage_type : ℕ
submessage_type = 0x08

abbrev pub extension_type : ℕ
extension_type = 0x09

abbrev pub fixed_length_bytes_type : ℕ
fixed_length_bytes_type = 0x0a

-- PB_SIZE_MAX.
abbrev pub pb_size_max : ℕ
pb_size_max = 2 ^ 32 - 1

pub record Iter : Type 0 where
  pub start : List Field
  pub pos : List Field
  pub required_field_index : ℕ
  pub dest_struct : ℕ
  pub p_data : ℕ
  pub p_size : ℕ

-- The address of the size or has-flag of a field whose data is at `p_data`.
abbrev pub size_address : ℕ → Field → ℕ
size_address p_data f = add_address p_data (sign_extend 32 f.size_offset)

-- What `pb_field_iter_begin` stores, on the table `f ∷ fields`.
unfoldable pub first_field : Field → List Field → ℕ → Iter
first_field f fields dest_struct = record {
  start = f ∷ fields;
  pos = f ∷ fields;
  required_field_index = 0;
  dest_struct = dest_struct;
  p_data = add_address dest_struct f.data_offset;
  p_size = size_address (add_address dest_struct f.data_offset) f;
}

-- `none` is a read behind the table.
unfoldable pub pb_field_iter_begin : List Field → ℕ → Option (Bool × Iter)
pb_field_iter_begin [] dest_struct = none
pb_field_iter_begin (f ∷ fields) dest_struct =
    some (not (f.tag == 0), first_field f fields dest_struct)

-- The size of the previous field in the structure.
unfoldable pub size_in_struct : Field → ℕ
size_in_struct prev =
    if atype prev.type == static && htype prev.type == repeated
    then prev.data_size * prev.array_size % 2 ^ 64
    else if atype prev.type == pointer
    then 8
    else prev.data_size

-- The step from the field `prev` to the field `f`, with `rest` behind it.
unfoldable pub advance : Iter → Field → Field → List Field → Iter
advance iter prev f rest =
    if htype prev.type == oneof && (htype f.type == oneof && f.data_offset == pb_size_max)
    then record iter { pos = f ∷ rest }
    else (let p_data : ℕ =
          add_address (add_address iter.p_data (size_in_struct prev)) f.data_offset in
        record iter {
          pos = f ∷ rest;
          required_field_index =
              if htype prev.type == required
              then (iter.required_field_index + 1) % 2 ^ 32
              else iter.required_field_index;
          p_data = p_data;
          p_size = size_address p_data f;
        })

unfoldable pub next_from : Iter → List Field → Option (Bool × Iter)
next_from iter [] = none
next_from iter (prev ∷ []) = if prev.tag == 0 then some (false, iter) else none
next_from iter (prev ∷ f ∷ rest) =
    if prev.tag == 0
    then some (false, iter)
    else if f.tag == 0
    then Option.map (λ r. (false, r.1)) (pb_field_iter_begin iter.start iter.dest_struct)
    else some (true, advance iter prev f rest)

unfoldable pub pb_field_iter_next : Iter → Option (Bool × Iter)
pb_field_iter_next iter = next_from iter iter.pos

-- `iter->pos == start`.
abbrev pub is_at : List Field → Iter → Bool
is_at start iter = length iter.pos == length start

-- `iter->pos` is read.
unfoldable pub current : Iter → Option Field
current iter = elim iter.pos [ [] ↦ none | f ∷ rest ↦ some f ]

-- The loops that step through the table from `start` until a field passes `wanted` or they are back:
-- whether one does. The fuel bounds the rounds.
unfoldable pub search_round :
    (Iter → Option (Bool × Iter)) → List Field → Option (Bool × Iter) → Option (Bool × Iter)
search_round again start none = none
search_round again start (some (more, iter)) =
    if is_at start iter then some (false, iter) else again iter

unfoldable pub search_at :
    (Field → Bool)
    → (Iter → Option (Bool × Iter))
    → List Field
    → Iter
    → Option Field
    → Option (Bool × Iter)
search_at wanted again start iter none = none
search_at wanted again start iter (some f) =
    if wanted f then some (true, iter) else search_round again start (pb_field_iter_next iter)

unfoldable pub search_fields : (Field → Bool) → ℕ → List Field → Iter → Option (Bool × Iter)
search_fields wanted zero start iter = none
search_fields wanted (suc fuel) start iter =
    search_at wanted (search_fields wanted fuel start) start iter (current iter)

unfoldable pub has_tag : ℕ → Field → Bool
has_tag tag f = f.tag == tag && not (ltype f.type == extension_type)

unfoldable pub pb_field_iter_find : Iter → ℕ → Option (Bool × Iter)
pb_field_iter_find iter tag = search_fields (has_tag tag) (length iter.start) iter.pos iter

unfoldable pub is_extension : Field → Bool
is_extension f = ltype f.type == extension_type

unfoldable pub find_extension_field : Iter → Option (Bool × Iter)
find_extension_field iter = search_fields is_extension (length iter.start) iter.pos iter
