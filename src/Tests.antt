-- ===== src/Tests.antt =====
-- Runs of the functions of ThermoCheck/Pods/nanopb, and each theorem at concrete arguments.
mod Varint32
mod Data
mod Messages
mod Writing
mod Marks
mod Base64
mod App
use thermo_check.Common.{
  ℕ, ◌+◌, ◌-◌, ◌%◌, ◌^◌, ◌≤◌, ◌<◌, ◌≡◌, refl, Bool, true, false, inl, inr, none, some, List, [],
  ◌∷◌, ◌++◌, length, All, arith,
}
use thermo_check.Message.{integer_too_large}
use thermo_check.Common.Exec.{Outcome, ok, failed}
use thermo_check.Input.{IStream, pb_read}
use thermo_check.Input.Sound.{IsByte, IsValid, Any, Ends}
use thermo_check.Input.Buffer.{reading}
use thermo_check.Output.{OStream, sizing_stream}
use thermo_check.Output.Emits.{writing, measuring}
use thermo_check.Output.Sound.{IsOpen, Keeps}
use thermo_check.Varint.{pb_decode_varint32, pb_decode_varint, pb_skip_varint}
use thermo_check.Varint.Groups.{groups, pb_decode_varint-groups}
use thermo_check.Varint.Groups32.{pb_decode_varint32-groups}
use thermo_check.Varint.DecodeSound.{IsWord, without_eof}
use thermo_check.Encode.{
  pb_encode_varint, pb_encode_svarint, pb_encode_fixed32, pb_encode_fixed64, pb_encode_tag,
  pb_encode_string, pb_enc_bool, pb_enc_varint, pb_enc_uvarint, pb_enc_svarint, safe_read_bool,
}
use thermo_check.Encode.Varint.{varint}
use thermo_check.Encode.Sound.{pb_enc_svarint-Keeps, pb_encode_string-Keeps}
use thermo_check.Wire.{
  pb_skip_string, Tag, pb_decode_tag, pb_skip_field, read_raw_value, pb_make_string_substream,
  pb_close_string_substream,
}
use thermo_check.Wire.Sound.{IsTag, pb_decode_tag-Ends}
use thermo_check.Wire.Substream.{
  Divided, Rejoined, pb_make_string_substream-Divided, pb_close_string_substream-Rejoined,
  pb_close_string_substream-buffer,
}
use thermo_check.Decode.{
  pb_decode_svarint, pb_decode_fixed32, pb_decode_fixed64, pb_dec_bool, pb_dec_varint,
  pb_dec_uvarint, pb_dec_svarint,
}
use thermo_check.Decode.Sound.{FitsSigned, FitsUnsigned}
use thermo_check.Decode.Robust.{
  pb_decode_varint-Ends, pb_skip_field-Ends, read_raw_value-Ends, pb_dec_uvarint-Ends,
}
use thermo_check.RoundTrip.{Setting, HasRoom, target, Transfers}
use thermo_check.RoundTrip.Numbers.{
  pb_decode_varint-pb_encode_varint, pb_decode_varint32-pb_encode_varint,
  pb_decode_svarint-pb_encode_svarint,
}
use thermo_check.RoundTrip.Framing.{pb_decode_tag-pb_encode_tag}
use thermo_check.RoundTrip.Fields.{
  signed, pb_dec_varint-pb_enc_varint, pb_dec_svarint-pb_enc_svarint, pb_dec_uvarint-pb_enc_uvarint,
  pb_dec_uvarint_large, pb_dec_bool-pb_enc_bool,
}
use thermo_check.RoundTrip.Strings.{
  pb_skip_string-pb_encode_string, pb_make_string_substream-pb_encode_string,
  pb_encode_string-sizing_stream, pb_close_string_substream-pb_encode_string,
}

-- Memory with one byte written and twenty free; two bytes follow what is read.
abbrev pub desk : Setting
desk = record {
  out = 1 ∷ [];
  room = 20;
  max_size = 30;
  written = 1;
  errmsg = none;
  rest = 7 ∷ 8 ∷ [];
  left = 2;
  own = none;
}

pub room : (n : ℕ) → n < 20 → HasRoom n desk
room n h = record { by_size = omega arith; word = omega arith; by_memory = omega arith }

-- A message of a field 1 with the varint 300, and a field 2 with two bytes.
abbrev message : IStream
message = reading (0x08 ∷ 0xac ∷ 0x02 ∷ 0x12 ∷ 0x02 ∷ 0x41 ∷ 0x42 ∷ []) 7 none

message-IsValid : IsValid 0 message
message-IsValid = record {
  ready = (
    omega arith,
    (
      omega arith,
      (omega arith, (omega arith, (omega arith, (omega arith, (omega arith, (omega arith, tt)))))),
    ),
  );
  word = omega arith;
}

-- A stream at a varint, and one at a frame of two bytes.
abbrev at_varint : IStream
at_varint = reading (0xac ∷ 0x02 ∷ []) 2 none

at_varint-IsValid : IsValid 0 at_varint
at_varint-IsValid = record {
  ready = (omega arith, (omega arith, (omega arith, tt)));
  word = omega arith;
}

abbrev pub at_frame : IStream
at_frame = reading (0x02 ∷ 0x41 ∷ 0x42 ∷ 0x43 ∷ []) 4 none

pub at_frame-IsValid : IsValid 0 at_frame
at_frame-IsValid = record {
  ready = (omega arith, (omega arith, (omega arith, (omega arith, (omega arith, tt)))));
  word = omega arith;
}

abbrev in_frame : IStream
in_frame = reading (0x41 ∷ 0x42 ∷ 0x43 ∷ []) 2 none

abbrev behind_frame : IStream
behind_frame = reading (0x41 ∷ 0x42 ∷ 0x43 ∷ []) 1 none

in_frame-IsValid : IsValid 1 in_frame
in_frame-IsValid = record {
  ready = (omega arith, (omega arith, (omega arith, (omega arith, tt))));
  word = omega arith;
}

behind_frame-IsValid : IsValid 0 behind_frame
behind_frame-IsValid = record {
  ready = (omega arith, (omega arith, (omega arith, (omega arith, tt))));
  word = omega arith;
}

-- Memory with room for two bytes, less than some of the encoders ask for.
abbrev pub narrow : OStream
narrow = writing [] 2 2 0 none

pub narrow-IsOpen : IsOpen narrow
narrow-IsOpen = record { roomy = (refl, omega arith, omega arith); word = omega arith }

pb_decode_varint-pb_encode_varint_example :
    Transfers desk (pb_encode_varint 300) pb_decode_varint 300
pb_decode_varint-pb_encode_varint_example =
    pb_decode_varint-pb_encode_varint 300 desk (omega arith) (room 10 (omega arith))

pb_make_string_substream-pb_encode_string_example :
    (bytes : List ℕ) × (pb_encode_string (0x41 ∷ 0x42 ∷ []) 2 (target desk)
      ≡ (ok tt, writing ((1 ∷ []) ++ bytes) (20 - length bytes) 30 (1 + length bytes) none))
    × (pb_make_string_substream (reading (bytes ++ (7 ∷ 8 ∷ [])) (length bytes + 2) none) ≡ (
      ok (reading (0x41 ∷ 0x42 ∷ 7 ∷ 8 ∷ []) 2 none),
      reading (0x41 ∷ 0x42 ∷ 7 ∷ 8 ∷ []) 2 none,
    ))
pb_make_string_substream-pb_encode_string_example =
    pb_make_string_substream-pb_encode_string (0x41 ∷ 0x42 ∷ []) desk (omega arith)
      (room 12 (omega arith))

pb_decode_tag-pb_encode_tag_example :
    (bytes : List ℕ) × (pb_encode_tag 2 536870911 (target desk)
      ≡ (ok tt, writing ((1 ∷ []) ++ bytes) (20 - length bytes) 30 (1 + length bytes) none))
    × (pb_decode_tag (reading (bytes ++ (7 ∷ 8 ∷ [])) (length bytes + 2) none)
        ≡ (ok (record { tag = 536870911; wire_type = 2 }), false, reading (7 ∷ 8 ∷ []) 2 none))
pb_decode_tag-pb_encode_tag_example =
    pb_decode_tag-pb_encode_tag 2 536870911 desk (omega arith) (omega arith) (omega arith)
      (room 10 (omega arith))

-- The word of -2.
pb_decode_svarint-pb_encode_svarint_example :
    Transfers desk (pb_encode_svarint 18446744073709551614) pb_decode_svarint 18446744073709551614
pb_decode_svarint-pb_encode_svarint_example =
    pb_decode_svarint-pb_encode_svarint 18446744073709551614 desk (omega arith)
      (room 10 (omega arith))

pb_decode_varint-groups_example :
    pb_decode_varint (reading (0xac ∷ 0x02 ∷ 9 ∷ []) 3 none)
    ≡ (ok (groups (0xac ∷ 0x02 ∷ []) % 2 ^ 64), reading (9 ∷ []) 1 none)
pb_decode_varint-groups_example =
    pb_decode_varint-groups (0xac ∷ []) 0x02 (9 ∷ []) 1 none ((omega arith, omega arith), tt)
      (omega arith) (omega arith)

pb_decode_varint32-groups_example :
    pb_decode_varint32 (reading (0xac ∷ 0x02 ∷ 9 ∷ []) 3 none)
    ≡ (ok (groups (0xac ∷ 0x02 ∷ [])), reading (9 ∷ []) 1 none)
pb_decode_varint32-groups_example =
    pb_decode_varint32-groups (0xac ∷ []) 0x02 (9 ∷ []) 1 none ((omega arith, omega arith), tt)
      (omega arith) (omega arith) (omega arith)

-- The varint 300 does not fit a field of one byte.
pb_dec_uvarint-Ends_example : Ends 0 (FitsUnsigned 1) 2 (pb_dec_uvarint 1 at_varint)
pb_dec_uvarint-Ends_example = pb_dec_uvarint-Ends 0 at_varint 1 at_varint-IsValid

pb_make_string_substream-Divided_example : Divided 0 4 (pb_make_string_substream at_frame)
pb_make_string_substream-Divided_example =
    pb_make_string_substream-Divided 0 at_frame at_frame-IsValid

pb_close_string_substream-pb_encode_string_example :
    (bytes : List ℕ) × (sub sub' t : IStream) × (pb_encode_string (0x41 ∷ 0x42 ∷ []) 2 (target desk)
      ≡ (ok tt, writing ((1 ∷ []) ++ bytes) (20 - length bytes) 30 (1 + length bytes) none))
    × (pb_make_string_substream (reading (bytes ++ (7 ∷ 8 ∷ [])) (length bytes + 2) none)
        ≡ (ok sub, t))
    × (pb_read 1 sub ≡ (ok (0x41 ∷ []), sub'))
    × (pb_close_string_substream sub' t ≡ (ok tt, reading (7 ∷ 8 ∷ []) 2 none))
pb_close_string_substream-pb_encode_string_example =
    pb_close_string_substream-pb_encode_string (0x41 ∷ []) (0x42 ∷ []) desk (omega arith)
      (room 12 (omega arith))

-- The word of -5 in a field of two bytes.
pb_dec_varint-pb_enc_varint_example :
    Transfers desk (pb_enc_varint 2 65531) (pb_dec_varint 2) (signed 2 65531)
pb_dec_varint-pb_enc_varint_example =
    pb_dec_varint-pb_enc_varint 2 65531 desk (inr (inl refl)) (room 10 (omega arith))

pb_dec_svarint-pb_enc_svarint_example :
    Transfers desk (pb_enc_svarint 4 4294967291) (pb_dec_svarint 4) (signed 4 4294967291)
pb_dec_svarint-pb_enc_svarint_example =
    pb_dec_svarint-pb_enc_svarint 4 4294967291 desk (inr (inr (inl refl))) (room 10 (omega arith))

pb_dec_uvarint-pb_enc_uvarint_example :
    Transfers desk (pb_enc_uvarint 8 4294967296) (pb_dec_uvarint 8) (4294967296 % 2 ^ 64)
pb_dec_uvarint-pb_enc_uvarint_example =
    pb_dec_uvarint-pb_enc_uvarint 8 4294967296 desk (inr (inr (inr refl))) (room 10 (omega arith))

pb_dec_uvarint_large_example :
    pb_dec_uvarint 1 (reading (varint 300 ++ (9 ∷ [])) (length (varint 300) + 1) none)
    ≡ (failed, reading (9 ∷ []) 1 (some integer_too_large))
pb_dec_uvarint_large_example =
    pb_dec_uvarint_large 1 300 (9 ∷ []) 1 none (inl refl) (omega arith) (omega arith)

pb_skip_field-Ends_example : Ends 0 Any 4 (pb_skip_field 2 at_frame)
pb_skip_field-Ends_example = pb_skip_field-Ends 0 at_frame 2 at_frame-IsValid

pb_encode_string-Keeps_example : Keeps 2 (pb_encode_string (0x41 ∷ 0x42 ∷ []) 2 narrow)
pb_encode_string-Keeps_example =
    pb_encode_string-Keeps (0x41 ∷ 0x42 ∷ []) narrow (omega arith) narrow-IsOpen
