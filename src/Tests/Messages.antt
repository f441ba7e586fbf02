-- ===== src/Tests/Messages.antt =====
-- Runs of `pb_decode`, and the theorems on messages at concrete tables.
use thermo_check.Common.{
  ℕ, ◌-◌, ◌^◌, ◌≡◌, refl, true, false, Option, none, List, [], ◌∷◌, ◌++◌, length, inl, inr, arith,
}
use thermo_check.Common.Exec.{Outcome, ok, failed, fault}
use thermo_check.Memory.{load_bytes}
use thermo_check.Message.{Message}
use thermo_check.Fields.{
  Field, Iter, has_tag, is_extension, pb_field_iter_find, find_extension_field, ltype, htype,
}
use thermo_check.Fields.Tables.{IsIn}
use thermo_check.Fields.Search.{Found, pb_field_iter_find-Found, find_extension_field-Found}
use thermo_check.Input.{IStream, pb_read_null}
use thermo_check.Input.Buffer.{reading}
use thermo_check.Input.Sound.{IsValid, Any, Ends}
use thermo_check.Input.Takes.{Takes, pb_read_null-Takes}
use thermo_check.Messages.{Env, State, Action, on_stream}
use thermo_check.Messages.Defaults.{pb_message_set_to_defaults}
use thermo_check.Messages.Release.{pb_release}
use thermo_check.Messages.Required.{pb_decode_noinit-empty}
use thermo_check.Messages.Decode.{pb_decode_noinit, pb_decode, pb_decode_delimited}
use thermo_check.Messages.Tidy.{streamed}
use thermo_check.Messages.Nesting.{IsNested, IsFine, IsSome}
use thermo_check.Messages.TidyFields.{IsCallback, Drains}
use thermo_check.Messages.Sound.{pb_decode-Ends}
use thermo_check.Messages.Recursion.{pb_message_set_to_defaults-IsSome, pb_release-IsSome}

-- A callback that reads all there is.
abbrev drain : Action (Unit {0})
drain = on_stream (λ s. pb_read_null s.bytes_left s)

abbrev last : Field
last = record {
  tag = 0;
  type = 0;
  data_offset = 0;
  size_offset = 0;
  data_size = 0;
  array_size = 0;
  ptr = 0;
}

-- A submessage with a required sint32.
abbrev inner : List Field
inner =
    record {
      tag = 1;
      type = 3;
      data_offset = 0;
      size_offset = 0;
      data_size = 4;
      array_size = 0;
      ptr = 0;
    }
    ∷ last
    ∷ []

-- A callback and an optional submessage.
abbrev fourth : List Field
fourth =
    record {
      tag = 4;
      type = 0x57;
      data_offset = 0;
      size_offset = 0;
      data_size = 16;
      array_size = 0;
      ptr = 0;
    }
    ∷ record {
      tag = 5;
      type = 0x18;
      data_offset = 4;
      size_offset = 2 ^ 32 - 4;
      data_size = 4;
      array_size = 0;
      ptr = 1;
    }
    ∷ last
    ∷ []

-- A required int32, an optional uint32 and two fixed32 of a repeated field.
abbrev first_three : List Field
first_three =
    record {
      tag = 1;
      type = 1;
      data_offset = 0;
      size_offset = 0;
      data_size = 4;
      array_size = 0;
      ptr = 0;
    }
    ∷ record {
      tag = 2;
      type = 0x12;
      data_offset = 4;
      size_offset = 2 ^ 32 - 4;
      data_size = 4;
      array_size = 0;
      ptr = 0;
    }
    ∷ record {
      tag = 3;
      type = 0x24;
      data_offset = 4;
      size_offset = 2 ^ 32 - 4;
      data_size = 4;
      array_size = 2;
      ptr = 0;
    }
    ∷ []

abbrev fields : List Field
fields = first_three ++ fourth

abbrev env : Env
env = record {
  table = λ a. inner;
  callback = λ address f arg. drain;
  extension_decoder = λ address extension tag wire_type s. (failed, s);
  realloc = λ p n memory. none;
  free = λ p memory. memory;
  depth = 2;
  extensions = 0;
}

no : false ≡ true → ⊥
no e = cc

inner-IsNested : IsNested env 1 inner
unfolding ltype
inner-IsNested = ((omega arith, refl), ((inl (omega arith), omega arith, λ e. absurd (no e)), tt))

fields-IsFine : IsFine env fields
unfolding ltype
fields-IsFine = (
  (omega arith, (omega arith, (omega arith, (omega arith, (omega arith, refl))))),
  (
    (inl (omega arith), omega arith, λ e. absurd (no e)),
    (
      (inl (omega arith), omega arith, λ e. absurd (no e)),
      (
        (inl (omega arith), omega arith, λ e. absurd (no e)),
        (
          (inl (omega arith), omega arith, λ e. absurd (no e)),
          ((inl (omega arith), omega arith, λ e. inner-IsNested), tt),
        ),
      ),
    ),
  ),
)

drain-IsCallback : (address : ℕ) (f : Field) (arg : ℕ) → IsCallback (env.callback address f arg)
unfolding on_stream
drain-IsCallback address f arg slack s v =
    by (pb_read_null s.stream.bytes_left s.stream)
      (pb_read_null-Takes slack s.stream.bytes_left s.stream v)
  where
    by :
        (r : Outcome (Unit {0}) × IStream)
        → Takes slack Any s.stream.bytes_left s.stream.bytes_left r
        → Drains slack s.stream.bytes_left r
    by (ok a, t) (q, w, e) = (w, inr (omega arith))
    by (failed, t) e = e
    by (fault, t) e = e

abbrev start : List ℕ → State
start bytes = record { stream = reading bytes (length bytes) none; memory = λ a. 255 }

-- The int32 is 5, the uint32 42, the packed fixed32 1, the string is skipped, and the sint32 is -1.
abbrev message : List ℕ
message =
    0x08 ∷ 0x05 ∷ 0x10 ∷ 0x2a ∷ 0x1a ∷ 0x04 ∷ 0x01 ∷ 0 ∷ 0 ∷ 0 ∷ 0x22 ∷ 0x02 ∷ 0x68 ∷ 0x69 ∷ 0x2a
    ∷ 0x02 ∷ 0x08 ∷ 0x01 ∷ []

start-IsValid : IsValid 0 (start message).stream
start-IsValid = record {
  ready = (
    omega arith,
    (
      omega arith,
      (
        omega arith,
        (
          omega arith,
          (
            omega arith,
            (
              omega arith,
              (
                omega arith,
                (
                  omega arith,
                  (
                    omega arith,
                    (
                      omega arith,
                      (
                        omega arith,
                        (
                          omega arith,
                          (
                            omega arith,
                            (
                              omega arith,
                              (
                                omega arith,
                                (omega arith, (omega arith, (omega arith, (omega arith, tt)))),
                              ),
                            ),
                          ),
                        ),
                      ),
                    ),
                  ),
                ),
              ),
            ),
          ),
        ),
      ),
    ),
  );
  word = omega arith;
}

pb_decode-Ends_example : Ends 0 Any 18 (streamed (pb_decode env fields 1000 (start message)))
pb_decode-Ends_example =
    pb_decode-Ends env fields 1000 0 (start message) drain-IsCallback fields-IsFine start-IsValid

pb_message_set_to_defaults-IsSome_example :
    IsSome (pb_message_set_to_defaults env fields 1000 (λ a. 255))
pb_message_set_to_defaults-IsSome_example =
    pb_message_set_to_defaults-IsSome env fields 1000 (λ a. 255) fields-IsFine

pb_release-IsSome_example : IsSome (pb_release env fields 1000 (λ a. 255))
pb_release-IsSome_example = pb_release-IsSome env fields 1000 (λ a. 255) fields-IsFine

-- The iterator on the fourth field.
abbrev at_fourth : Iter
at_fourth = record {
  start = fields;
  pos = fourth;
  required_field_index = 1;
  dest_struct = 1000;
  p_data = 1024;
  p_size = 1024;
}

at_fourth-IsIn : IsIn fields at_fourth
at_fourth-IsIn = record {
  same_start = refl;
  passed = first_three;
  suffix = refl;
  more = (omega arith, (omega arith, refl));
}

pb_field_iter_find-Found_example : Found (has_tag 2) fields fourth (pb_field_iter_find at_fourth 2)
pb_field_iter_find-Found_example =
    pb_field_iter_find-Found fields at_fourth 2 (fields-IsFine.0) at_fourth-IsIn

find_extension_field-Found_example :
    Found is_extension fields fourth (find_extension_field at_fourth)
find_extension_field-Found_example =
    find_extension_field-Found fields at_fourth (fields-IsFine.0) at_fourth-IsIn

abbrev outcome : Outcome (Unit {0}) × State → Outcome (Unit {0}) × Option Message × List ℕ
outcome (r, s) = (r, s.stream.errmsg, load_bytes 48 s.memory 1000)

abbrev run : Outcome (Unit {0}) × Option Message × List ℕ
run = outcome (pb_decode env fields 1000 (start message))

abbrev run_delimited : Outcome (Unit {0}) × Option Message × List ℕ
run_delimited = outcome (pb_decode_delimited env fields 1000 (start (18 ∷ message)))

abbrev run_missing : Outcome (Unit {0}) × Option Message × List ℕ
run_missing = outcome (pb_decode env fields 1000 (start (0x10 ∷ 0x2a ∷ [])))

-- A required field is missing.
pb_decode_noinit-empty_example : (pb_decode_noinit env fields 1000 (start [])).0 ≡ failed
unfolding htype
pb_decode_noinit-empty_example =
    pb_decode_noinit-empty env fields 1000 (start []) (fields-IsFine.0) (omega arith) refl
