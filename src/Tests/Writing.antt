-- ===== src/Tests/Writing.antt =====
-- Runs of `pb_encode`, and the theorems on writing at a concrete table.
use thermo_check.Common.{
  ℕ, ◌+◌, ◌-◌, ◌^◌, ◌≤◌, ◌≡◌, refl, none, List, [], ◌∷◌, ◌++◌, length, inl, inr, All, arith,
}
use thermo_check.Common.Exec.{Outcome, ok, failed}
use thermo_check.Memory.{store}
use thermo_check.Fields.{Field, ltype, htype, atype}
use thermo_check.Fields.Tables.{IsMore, entries}
use thermo_check.Input.Buffer.{reading}
use thermo_check.Output.{OStream, pb_ostream_from_buffer}
use thermo_check.Output.Emits.{Emits, writing}
use thermo_check.Wire.{pb_make_string_substream}
use thermo_check.RoundTrip.{Setting, target}
use thermo_check.RoundTrip.Framing.{framed}
use thermo_check.Writing.{Context}
use thermo_check.Writing.Encode.{pb_encode, pb_encode_submessage, pb_get_encoded_size}
use thermo_check.Writing.Steady.{IsPlain, pb_get_encoded_size-pb_encode}
use thermo_check.Writing.Framing.{pb_make_string_substream-pb_encode_submessage}

-- An optional sint32 and an optional fixed32.
abbrev numbers : List Field
numbers =
    record {
      tag = 1;
      type = 0x13;
      data_offset = 4;
      size_offset = 2 ^ 32 - 4;
      data_size = 4;
      array_size = 0;
      ptr = 0;
    }
    ∷ record {
      tag = 2;
      type = 0x14;
      data_offset = 4;
      size_offset = 2 ^ 32 - 4;
      data_size = 4;
      array_size = 0;
      ptr = 0;
    }
    ∷ record {
      tag = 0;
      type = 0;
      data_offset = 0;
      size_offset = 0;
      data_size = 0;
      array_size = 0;
      ptr = 0;
    }
    ∷ []

-- Two numbers of a packed array, and a submessage of the two.
abbrev outer : List Field
outer =
    record {
      tag = 3;
      type = 0x22;
      data_offset = 4;
      size_offset = 2 ^ 32 - 4;
      data_size = 4;
      array_size = 2;
      ptr = 0;
    }
    ∷ record {
      tag = 4;
      type = 0x18;
      data_offset = 4;
      size_offset = 2 ^ 32 - 4;
      data_size = 16;
      array_size = 0;
      ptr = 1;
    }
    ∷ record {
      tag = 0;
      type = 0;
      data_offset = 0;
      size_offset = 0;
      data_size = 0;
      array_size = 0;
      ptr = 0;
    }
    ∷ []

-- At 1000 the array's count 2, 300 and 1, and the submessage's flag, its numbers -1 and 7, and their
-- flags.
abbrev context : Context
context = record {
  memory =
      store 4
        (store 1
          (store 4
            (store 1 (store 1 (store 4 (store 4 (store 4 (λ a. 0) 1000 2) 1004 300) 1008 1) 1012 1)
              1016 1)
            1020 (2 ^ 32 - 1))
          1024 1)
        1028 7;
  table = λ a. numbers;
  callback = λ address f arg s. (failed, s);
  extension_encoder = λ address extension s. (failed, s);
  extent = λ a. 0;
  depth = 2;
  extensions = 0;
}

abbrev run : Outcome (Unit {0}) × OStream
run = pb_encode context outer 1000 (pb_ostream_from_buffer 64)

abbrev run_size : Outcome ℕ
run_size = pb_get_encoded_size context outer 1000

numbers-IsPlain : All IsPlain (entries numbers)
unfolding ltype htype atype
numbers-IsPlain = (
  record {
    tag_fits = omega arith;
    number = omega arith;
    in_place = refl;
    kind = inl refl;
    flag = omega arith;
    size = inr (inr (inl refl));
  },
  (
    record {
      tag_fits = omega arith;
      number = omega arith;
      in_place = refl;
      kind = inl refl;
      flag = omega arith;
      size = inr (inr (inl refl));
    },
    tt,
  ),
)

numbers-IsMore : IsMore numbers
numbers-IsMore = (omega arith, (omega arith, refl))

abbrev setting : Setting
setting = record {
  out = 0 ∷ [];
  room = 99;
  max_size = 100;
  written = 1;
  errmsg = none;
  rest = 5 ∷ [];
  left = 1;
  own = none;
}

pb_get_encoded_size-pb_encode_example :
    (bytes : List ℕ) × Emits bytes (pb_encode context numbers 1016)
    × (pb_get_encoded_size context numbers 1016 ≡ ok (length bytes))
    × (length bytes ≤ 60)
pb_get_encoded_size-pb_encode_example =
    pb_get_encoded_size-pb_encode context numbers 1016 (omega arith) numbers-IsMore numbers-IsPlain
      (omega arith)

pb_make_string_substream-pb_encode_submessage_example :
    (bytes : List ℕ) × Emits bytes (pb_encode context numbers 1016)
    × (pb_encode_submessage context numbers 1016 (target setting) ≡ (
      ok tt,
      writing
          ((0 ∷ []) ++ framed bytes)
          (99 - length (framed bytes))
          100
          (1 + length (framed bytes))
          none,
    ))
    × (pb_make_string_substream
          (reading (framed bytes ++ (5 ∷ [])) (length (framed bytes) + 1) none)
        ≡ (
          ok (reading (bytes ++ (5 ∷ [])) (length bytes) none),
          reading (bytes ++ (5 ∷ [])) 1 none,
        ))
pb_make_string_substream-pb_encode_submessage_example =
    pb_make_string_substream-pb_encode_submessage context numbers 1016 setting (omega arith)
      numbers-IsMore numbers-IsPlain (omega arith)
      (record { by_size = omega arith; word = omega arith; by_memory = omega arith })
