-- ===== src/Base64/Bytes.antt =====
-- What `f_b64_pton` does with the digits of a group: the bytes that it puts together, and the pads.
use thermo_check.Common.{
  ℕ, ◌+◌, ◌*◌, ◌/◌, ◌%◌, ◌^◌, ◌<◌, ◌≡◌, ap, ◌∙◌, bit_and, bit_or, Bool, false, some, List, ◌∷◌,
  ◌++◌, length, All, arith,
}
use thermo_check.Common.Bits.{shifted-bit_or, bit_and_0x03, bit_and_0x0f}
use thermo_check.Common.Exec.{ok}
use thermo_check.Base64.{
  digits0, digits1, digits2, digits3, after_pad, only_spaces, second_pad, check_extra, on_target,
  pton_from, base64, pad64, digit,
}
use thermo_check.Base64.Buffers.{load_next}
use thermo_check.Base64.Groups.{IsByte, number}
use thermo_check.Base64.Digits.{
  store_digits0, store_digits1, store_digits2, store_digits3, take_digit, next_lem,
}

-- The bytes that are put together from the digits of a group.
module _ (a b c : ℕ) (ha : IsByte a) (hb : IsByte b) (hc : IsByte c) where
  pub byte_a : bit_or (number a b c / 262144 * 4 % 256) (number a b c / 4096 % 64 / 16) % 256 ≡ a
  byte_a = omega (
    arith,
    shifted-bit_or 2 (number a b c / 262144) (number a b c / 4096 % 64 / 16) (omega arith),
    ap (λ (t : ℕ). bit_or t (number a b c / 4096 % 64 / 16)) top,
  )
    where
      top : number a b c / 262144 * 4 % 256 ≡ number a b c / 262144 * 2 ^ 2
      top = omega arith

  pub byte_b :
      bit_or (bit_and (number a b c / 4096 % 64) 0x0f * 16 % 256) (number a b c / 64 % 64 / 4) % 256
      ≡ b
  byte_b = omega (
    arith,
    shifted-bit_or 4 (b / 16) (number a b c / 64 % 64 / 4) (omega arith),
    ap (λ (t : ℕ). bit_or t (number a b c / 64 % 64 / 4)) top,
  )
    where
      top : bit_and (number a b c / 4096 % 64) 0x0f * 16 % 256 ≡ b / 16 * 2 ^ 4
      top = omega (arith, bit_and_0x0f (number a b c / 4096 % 64))

  pub byte_c :
      bit_or (bit_and (number a b c / 64 % 64) 0x03 * 64 % 256) (number a b c % 64) % 256 ≡ c
  byte_c = omega (
    arith,
    shifted-bit_or 6 (c / 64) (number a b c % 64) (omega arith),
    ap (λ (t : ℕ). bit_or t (number a b c % 64)) top,
  )
    where
      top : bit_and (number a b c / 64 % 64) 0x03 * 64 % 256 ≡ c / 64 * 2 ^ 6
      top = omega (arith, bit_and_0x03 (number a b c / 64 % 64))

-- The bits behind the last byte.
pub extra_one : (a : ℕ) → bit_and (number a 0 0 / 4096 % 64) 0x0f * 16 % 256 ≡ 0
extra_one a = omega (arith, bit_and_0x0f (number a 0 0 / 4096 % 64))

pub extra_two : (a b : ℕ) → bit_and (number a b 0 / 64 % 64) 0x03 * 64 % 256 ≡ 0
extra_two a b = omega (arith, bit_and_0x03 (number a b 0 / 64 % 64))

module _ (isspace : ℕ → Bool) (printing : All (λ ch. isspace ch ≡ false) base64)
    (pad_printing : isspace pad64 ≡ false) (n : ℕ) where
  -- The first two digits of a group put its first byte together, and begin the second.
  pub two_digits :
      (written src f : List ℕ) (i p0 p1 x y : ℕ)
      → length written ≡ i
      → i + 1 < 2 ^ 32
      → i + 1 < n
      → p0 < 64
      → p1 < 64
      → pton_from isspace n digits0 i (digit p0 ∷ digit p1 ∷ src) (some (written ++ x ∷ y ∷ f))
        ≡ pton_from isspace n digits2 (i + 1) src (
            some (
              written
              ++ (bit_or (p0 * 4 % 256) (p1 / 16) % 256) ∷ (bit_and p1 0x0f * 16 % 256) ∷ f))
  two_digits written src f i p0 p1 x y at in_32 room h0 h1 =
      take_digit isspace printing n i p0 digits0 _ _ _ h0
        (store_digits0 written n i p0 at in_32 x (y ∷ f) (omega arith))
      ∙ take_digit isspace printing n i p1 digits1 _ _ _ h1
          (store_digits1 written n i p1 at in_32 _ y f room)
      ∙ ap
          (λ j. pton_from isspace n digits2 j src (
            some (
              written
              ++ (bit_or (p0 * 4 % 256) (p1 / 16) % 256) ∷ (bit_and p1 0x0f * 16 % 256) ∷ f)))
          (next_lem written n i p1 at in_32)

  pub third_digit :
      (written src f : List ℕ) (i p2 x y : ℕ)
      → length written ≡ i
      → i + 1 < 2 ^ 32
      → i + 1 < n
      → p2 < 64
      → pton_from isspace n digits2 i (digit p2 ∷ src) (some (written ++ x ∷ y ∷ f))
        ≡ pton_from isspace n digits3
            (i + 1)
            src
            (some (written ++ (bit_or x (p2 / 4) % 256) ∷ (bit_and p2 0x03 * 64 % 256) ∷ f))
  third_digit written src f i p2 x y at in_32 room h2 =
      take_digit isspace printing n i p2 digits2 _ _ _ h2
        (store_digits2 written n i p2 at in_32 x y f room)
      ∙ ap
          (λ j.
            pton_from isspace n digits3 j src
              (some (written ++ (bit_or x (p2 / 4) % 256) ∷ (bit_and p2 0x03 * 64 % 256) ∷ f)))
          (next_lem written n i p2 at in_32)

  pub fourth_digit :
      (written src f : List ℕ) (i p3 x : ℕ)
      → length written ≡ i
      → i + 1 < 2 ^ 32
      → i < n
      → p3 < 64
      → pton_from isspace n digits3 i (digit p3 ∷ src) (some (written ++ x ∷ f))
        ≡ pton_from isspace n digits0 (i + 1) src (some (written ++ (bit_or x p3 % 256) ∷ f))
  fourth_digit written src f i p3 x at in_32 room h3 =
      take_digit isspace printing n i p3 digits3 _ _ _ h3
        (store_digits3 written n i p3 at in_32 x f room)
      ∙ ap (λ j. pton_from isspace n digits0 j src (some (written ++ (bit_or x p3 % 256) ∷ f)))
          (next_lem written n i p3 at in_32)

  -- The pads, with the terminator behind them.
  pub two_pads :
      (written after f : List ℕ) (i : ℕ)
      → length written ≡ i
      → pton_from isspace n digits2 i (pad64 ∷ pad64 ∷ 0 ∷ after) (some (written ++ 0 ∷ f))
        ≡ (ok i, some (written ++ 0 ∷ f))
  unfolding pton_from after_pad second_pad only_spaces check_extra on_target
  two_pads written after f i at = rw (pad_printing, load_next 0 f written i at)

  pub one_pad :
      (written after f : List ℕ) (i : ℕ)
      → length written ≡ i
      → pton_from isspace n digits3 i (pad64 ∷ 0 ∷ after) (some (written ++ 0 ∷ f))
        ≡ (ok i, some (written ++ 0 ∷ f))
  unfolding pton_from after_pad only_spaces check_extra on_target
  one_pad written after f i at = rw (pad_printing, load_next 0 f written i at)
