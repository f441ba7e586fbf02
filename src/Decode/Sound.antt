-- ===== src/Decode/Sound.antt =====
-- The decoders of numbers and scalar fields on any stream in order.
use native.Mathlib.Nat.{pow-suc}
use thermo_check.Common.{
  ℕ, ◌*◌, ◌^◌, ◌≤◌, ◌<◌, ◌≡◌, ap, not, Option, none, some, List, [], ◌∷◌, inl, inr, length, All,
  ◌==◌, if◌then◌else◌, arith, Bool-cases,
}
use thermo_check.Common.Words.{sign_extend, from_bytes, join_bytes, join_bytes-from_bytes}
use thermo_check.Message.{invalid_data_size, integer_too_large}
use thermo_check.Common.Exec.{pure}
use thermo_check.Input.{pb_read}
use thermo_check.Input.Sound.{
  IsByte, IsSound, Any, IsSound-bind, IsSound-pure, IsSound-return_error,
}
use thermo_check.Input.Takes.{IsBytes}
use thermo_check.Varint.{pb_decode_varint32, pb_decode_varint}
use thermo_check.Varint.DecodeSound.{IsWord, pb_decode_varint32-IsSound, pb_decode_varint-IsSound}
use thermo_check.Wire.Sound.{pb_read-IsSound}
use thermo_check.Decode.{
  unzigzag, pb_decode_svarint, pb_decode_fixed32, pb_decode_fixed64, pb_dec_bool, clamp_signed,
  clamp_unsigned, check_clamped, pb_dec_varint, pb_dec_uvarint, pb_dec_svarint,
}

pub unzigzag-IsWord : (v : ℕ) → IsWord 64 v → IsWord 64 (unzigzag v)
unfolding unzigzag
unzigzag-IsWord v h = ground arith

pub pb_decode_svarint-IsSound : IsSound (IsWord 64) pb_decode_svarint
unfolding pb_decode_svarint
pb_decode_svarint-IsSound =
    IsSound-bind (IsWord 64) (IsWord 64) pb_decode_varint (λ v. pure (unzigzag v))
      pb_decode_varint-IsSound (λ v h. IsSound-pure (IsWord 64) (unzigzag v) (unzigzag-IsWord v h))

pub pb_dec_bool-IsSound : IsSound Any pb_dec_bool
unfolding pb_dec_bool
pb_dec_bool-IsSound =
    IsSound-bind (IsWord 32) Any pb_decode_varint32 (λ v. pure (not (v == 0)))
      pb_decode_varint32-IsSound (λ v h. IsSound-pure Any (not (v == 0)) tt)

from_bytes-lt : (bytes : List ℕ) → All IsByte bytes → from_bytes bytes < 256 ^ length bytes
from_bytes-lt [] h = omega arith
from_bytes-lt (b ∷ bytes) h =
    omega (arith, pow-suc 256 (length bytes), from_bytes-lt bytes h.1, h.0)

joined-lt :
    (n w : ℕ) (bytes : List ℕ) → 8 * n ≤ w → IsBytes n bytes → join_bytes w 0 0 bytes < 256 ^ n
joined-lt n w bytes k (e, h) = omega (
  arith,
  join_bytes-from_bytes w 0 0 bytes h (omega arith) (omega arith),
  from_bytes-lt bytes h,
  ap (λ (t : ℕ). 256 ^ t) e,
)

-- The fixed-width decoders on any stream in order: no fault, and a word of the width.
pub pb_decode_fixed32-IsSound : IsSound (IsWord 32) pb_decode_fixed32
unfolding pb_decode_fixed32
pb_decode_fixed32-IsSound =
    IsSound-bind (IsBytes 4) (IsWord 32) (pb_read 4) (λ bytes. pure (join_bytes 32 0 0 bytes))
      (pb_read-IsSound 4)
      (λ bytes q. IsSound-pure (IsWord 32) _ (omega (arith, joined-lt 4 32 bytes (omega arith) q)))

pub pb_decode_fixed64-IsSound : IsSound (IsWord 64) pb_decode_fixed64
unfolding pb_decode_fixed64
pb_decode_fixed64-IsSound =
    IsSound-bind (IsBytes 8) (IsWord 64) (pb_read 8) (λ bytes. pure (join_bytes 64 0 0 bytes))
      (pb_read-IsSound 8)
      (λ bytes q. IsSound-pure (IsWord 64) _ (omega (arith, joined-lt 8 64 bytes (omega arith) q)))

-- What passes the check fits the field: its low bits, as the field holds them, give it back.
abbrev pub FitsUnsigned : ℕ → ℕ → Type 0
FitsUnsigned n value = (value < 2 ^ 64) × (clamp_unsigned n value ≡ some value)

abbrev pub FitsSigned : ℕ → ℕ → Type 0
FitsSigned n value = (value < 2 ^ 64) × (clamp_signed n value ≡ some value)

pub checked-IsSound :
    (Q : ℕ → Type 0) (value : ℕ) (o : Option ℕ)
    → (o ≡ some value → Q value)
    → IsSound Q (check_clamped value o)
unfolding check_clamped
checked-IsSound Q value none k = IsSound-return_error Q invalid_data_size
checked-IsSound Q value (some clamped) k = elim (Bool-cases (clamped == value)) [
  | inl e ↦ rw e (IsSound-pure Q clamped (kept (ground arith)))
  | inr e ↦ rw e (IsSound-return_error Q integer_too_large)
]
  where
    kept : clamped ≡ value → Q clamped
    kept e = rw e (k (ap some e))

sign_extend-lt : (word : ℕ) → sign_extend 32 word < 2 ^ 64
unfolding sign_extend
sign_extend-lt word = ground arith

-- `pb_dec_varint` on any stream in order: no fault, and what it stores fits the field.
pub pb_dec_varint-IsSound : (n : ℕ) → IsSound (FitsSigned n) (pb_dec_varint n)
unfolding pb_dec_varint
pb_dec_varint-IsSound n =
    IsSound-bind (IsWord 64) (FitsSigned n) pb_decode_varint _ pb_decode_varint-IsSound (λ v h.
      checked-IsSound (FitsSigned n) (svalue v) (clamp_signed n (svalue v)) (λ e. (word v h, e)))
  where
    svalue : ℕ → ℕ
    svalue v = if n == 8 then v else sign_extend 32 v

    word : (v : ℕ) → IsWord 64 v → svalue v < 2 ^ 64
    word v h = elim (Bool-cases (n == 8)) [
      | inl e ↦ rw (e, svalue) h
      | inr e ↦ rw (e, svalue) (sign_extend-lt v)
    ]

-- `pb_dec_uvarint` on any stream in order: no fault, and what it stores fits the field.
pub pb_dec_uvarint-IsSound : (n : ℕ) → IsSound (FitsUnsigned n) (pb_dec_uvarint n)
unfolding pb_dec_uvarint
pb_dec_uvarint-IsSound n =
    IsSound-bind (IsWord 64) (FitsUnsigned n) pb_decode_varint _ pb_decode_varint-IsSound
      (λ v h. checked-IsSound (FitsUnsigned n) v (clamp_unsigned n v) (λ e. (h, e)))

-- `pb_dec_svarint` on any stream in order: no fault, and what it stores fits the field.
pub pb_dec_svarint-IsSound : (n : ℕ) → IsSound (FitsSigned n) (pb_dec_svarint n)
unfolding pb_dec_svarint
pb_dec_svarint-IsSound n =
    IsSound-bind (IsWord 64) (FitsSigned n) pb_decode_svarint _ pb_decode_svarint-IsSound
      (λ v h. checked-IsSound (FitsSigned n) v (clamp_signed n v) (λ e. (h, e)))
