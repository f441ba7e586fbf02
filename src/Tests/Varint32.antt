-- ===== src/Tests/Varint32.antt =====
-- Varints that `pb_decode_varint32` of ThermoCheck/Pods/nanopb/pb_decode.c takes for others.
use thermo_check.Common.{ℕ, ◌≡◌, refl, none, List, [], ◌∷◌}
use thermo_check.Common.Exec.{ok}
use thermo_check.Input.Buffer.{reading}
use thermo_check.Varint.{pb_decode_varint32, pb_decode_varint, pb_skip_varint}

-- The number 7 * 2 ^ 32 in six bytes: `bitpos` is 42 behind the last, so the test of the bits that
-- the fifth byte lost is not made.
abbrev six_bytes : List ℕ
six_bytes = 0x80 ∷ 0x80 ∷ 0x80 ∷ 0x80 ∷ 0xf0 ∷ 0x00 ∷ 9 ∷ []

dropped : pb_decode_varint32 (reading six_bytes 7 none) ≡ (ok 0, reading (9 ∷ []) 1 none)
unfolding pb_decode_varint32
dropped = refl

kept : pb_decode_varint (reading six_bytes 7 none) ≡ (ok 30064771072, reading (9 ∷ []) 1 none)
unfolding pb_decode_varint
kept = refl

passed : pb_skip_varint (reading six_bytes 7 none) ≡ (ok tt, reading (9 ∷ []) 1 none)
unfolding pb_skip_varint
passed = refl

-- The last of 38 bytes: `bitpos` has wrapped to 3 there.
abbrev many_bytes : List ℕ
many_bytes =
    0x80 ∷ 0x80 ∷ 0x80 ∷ 0x80 ∷ 0x80 ∷ 0x80 ∷ 0x80 ∷ 0x80 ∷ 0x80 ∷ 0x80 ∷ 0x80 ∷ 0x80 ∷ 0x80 ∷ 0x80
    ∷ 0x80 ∷ 0x80 ∷ 0x80 ∷ 0x80 ∷ 0x80 ∷ 0x80 ∷ 0x80 ∷ 0x80 ∷ 0x80 ∷ 0x80 ∷ 0x80 ∷ 0x80 ∷ 0x80
    ∷ 0x80 ∷ 0x80 ∷ 0x80 ∷ 0x80 ∷ 0x80 ∷ 0x80 ∷ 0x80 ∷ 0x80 ∷ 0x80 ∷ 0x80 ∷ 0x01 ∷ []

wrapped : pb_decode_varint32 (reading many_bytes 38 none) ≡ (ok 8, reading [] 0 none)
unfolding pb_decode_varint32
wrapped = refl
