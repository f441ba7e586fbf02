-- ===== src/Decode/Progress.antt =====
-- The decoders of numbers take a byte at least.
use thermo_check.Common.{ℕ, not, ◌==◌, arith}
use thermo_check.Common.Words.{join_bytes}
use thermo_check.Common.Exec.{pure}
use thermo_check.Input.{pb_read}
use thermo_check.Input.Sound.{Any, IsSound-pure}
use thermo_check.Input.Takes.{IsBytes, pb_read-Takes}
use thermo_check.Varint.{pb_decode_varint, pb_decode_varint32}
use thermo_check.Varint.DecodeSound.{IsWord}
use thermo_check.Varint.Progress.{
  IsEager, IsEager-bind, Takes-spend, pb_decode_varint-IsEager, pb_decode_varint32-IsEager,
}
use thermo_check.Decode.{
  unzigzag, pb_decode_svarint, pb_decode_fixed32, pb_decode_fixed64, pb_dec_bool, clamp_signed,
  clamp_unsigned, pb_dec_varint, pb_dec_uvarint, pb_dec_svarint, pb_dec_fixed32, pb_dec_fixed64,
}
use thermo_check.Decode.Sound.{unzigzag-IsWord, checked-IsSound}

pub pb_dec_bool-IsEager : IsEager Any pb_dec_bool
unfolding pb_dec_bool
pb_dec_bool-IsEager =
    IsEager-bind (IsWord 32) Any pb_decode_varint32 (λ v. pure (not (v == 0)))
      pb_decode_varint32-IsEager (λ v h. IsSound-pure Any (not (v == 0)) tt)

pub pb_decode_svarint-IsEager : IsEager (IsWord 64) pb_decode_svarint
unfolding pb_decode_svarint
pb_decode_svarint-IsEager =
    IsEager-bind (IsWord 64) (IsWord 64) pb_decode_varint (λ v. pure (unzigzag v))
      pb_decode_varint-IsEager (λ v h. IsSound-pure (IsWord 64) (unzigzag v) (unzigzag-IsWord v h))

pub pb_dec_varint-IsEager : (n : ℕ) → IsEager Any (pb_dec_varint n)
unfolding pb_dec_varint
pb_dec_varint-IsEager n =
    IsEager-bind (IsWord 64) Any pb_decode_varint _ pb_decode_varint-IsEager
      (λ v h. checked-IsSound Any _ (clamp_signed n _) (λ e. tt))

pub pb_dec_uvarint-IsEager : (n : ℕ) → IsEager Any (pb_dec_uvarint n)
unfolding pb_dec_uvarint
pb_dec_uvarint-IsEager n =
    IsEager-bind (IsWord 64) Any pb_decode_varint _ pb_decode_varint-IsEager
      (λ v h. checked-IsSound Any v (clamp_unsigned n v) (λ e. tt))

pub pb_dec_svarint-IsEager : (n : ℕ) → IsEager Any (pb_dec_svarint n)
unfolding pb_dec_svarint
pb_dec_svarint-IsEager n =
    IsEager-bind (IsWord 64) Any pb_decode_svarint _ pb_decode_svarint-IsEager
      (λ v h. checked-IsSound Any v (clamp_signed n v) (λ e. tt))

pub pb_dec_fixed32-IsEager : IsEager Any pb_dec_fixed32
unfolding pb_dec_fixed32 pb_decode_fixed32
pb_dec_fixed32-IsEager = record {
  run = λ slack s v.
      Takes-spend slack (IsBytes 4) Any (λ bytes. pure (join_bytes 32 0 0 bytes)) 4 s.bytes_left
        (pb_read 4 s) (omega arith) (λ bytes t q w. (tt, w, omega arith))
        (pb_read-Takes slack 4 s v);
}

pub pb_dec_fixed64-IsEager : IsEager Any pb_dec_fixed64
unfolding pb_dec_fixed64 pb_decode_fixed64
pb_dec_fixed64-IsEager = record {
  run = λ slack s v.
      Takes-spend slack (IsBytes 8) Any (λ bytes. pure (join_bytes 64 0 0 bytes)) 8 s.bytes_left
        (pb_read 8 s) (omega arith) (λ bytes t q w. (tt, w, omega arith))
        (pb_read-Takes slack 8 s v);
}
