-- ===== src/RoundTrip/Tags.antt =====
-- The tags of fields by their type.
use thermo_check.Common.{ℕ, ◌+◌, ◌-◌, ◌^◌, ◌<◌, ◌≡◌, false, some, List, ◌++◌, length, arith}
use thermo_check.Common.Exec.{ok}
use thermo_check.Input.Buffer.{reading}
use thermo_check.Output.Emits.{writing}
use thermo_check.Fields.{ltype}
use thermo_check.Encode.{wiretype_of, pb_encode_tag_for_field}
use thermo_check.Wire.{pb_decode_tag}
use thermo_check.RoundTrip.{Setting, HasRoom, target}
use thermo_check.RoundTrip.Framing.{pb_decode_tag-pb_encode_tag}

wiretype_of-lt : (t w : ℕ) → wiretype_of t ≡ some w → w < 8
unfolding wiretype_of
wiretype_of-lt t w h = ground arith

-- For a field whose type has a wire type and whose tag is below 2 ^ 29 and not 0,
-- `pb_encode_tag_for_field` on a stream over memory with room for ten bytes succeeds and appends
-- bytes, from which `pb_decode_tag` reads that tag and that wire type back, with `*eof` false,
-- stopping behind them.
pub pb_decode_tag-pb_encode_tag_for_field :
    (type tag wiretype : ℕ) (s : Setting)
    → wiretype_of (ltype type) ≡ some wiretype
    → tag < 2 ^ 29
    → 0 < tag
    → HasRoom 10 s
    → (bytes : List ℕ) × (pb_encode_tag_for_field type tag (target s) ≡ (
      ok tt,
      writing
          (s.out ++ bytes)
          (s.room - length bytes)
          s.max_size
          (s.written + length bytes)
          s.errmsg,
    ))
      × (pb_decode_tag (reading (bytes ++ s.rest) (length bytes + s.left) s.own)
          ≡ (ok (record { tag = tag; wire_type = wiretype }), false, reading s.rest s.left s.own))
unfolding pb_encode_tag_for_field
pb_decode_tag-pb_encode_tag_for_field type tag wiretype s e h p r =
    rw e (pb_decode_tag-pb_encode_tag wiretype tag s (wiretype_of-lt (ltype type) wiretype e) h p r)
