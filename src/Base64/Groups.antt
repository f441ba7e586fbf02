-- ===== src/Base64/Groups.antt =====
-- Base64 as RFC 1521 has it: three bytes are a number of 24 bits, and that is four digits of 6 bits.
use thermo_check.Common.{ℕ, ◌+◌, ◌*◌, ◌/◌, ◌%◌, ◌<◌, ◌≡◌, List, [], ◌∷◌, ◌++◌, length, arith}
use thermo_check.Common.Bits.{bit_and_0x03, bit_and_0x0f, bit_and_0x3f}
use thermo_check.Base64.{digit, pad64, output0, output1, output2, output3}

abbrev pub IsByte : ℕ → Type 0
IsByte b = b < 256

abbrev pub number : ℕ → ℕ → ℕ → ℕ
number a b c = a * 65536 + b * 256 + c

-- The text of some bytes.
unfoldable pub encoded : List ℕ → List ℕ
encoded [] = []
encoded (a ∷ []) =
    let n = number a 0 0 in digit (n / 262144) ∷ digit (n / 4096 % 64) ∷ pad64 ∷ pad64 ∷ []
encoded (a ∷ b ∷ []) =
    let n = number a b 0 in
    digit (n / 262144) ∷ digit (n / 4096 % 64) ∷ digit (n / 64 % 64) ∷ pad64 ∷ []
encoded (a ∷ b ∷ c ∷ src) =
    let n = number a b c in
    let rest = encoded src in
    digit (n / 262144) ∷ digit (n / 4096 % 64) ∷ digit (n / 64 % 64) ∷ digit (n % 64) ∷ rest

-- How long the text of `n` bytes is.
abbrev pub size : ℕ → ℕ
size n = (n + 2) / 3 * 4

pub length-encoded : (src : List ℕ) → length (encoded src) ≡ size (length src)
unfolding encoded
length-encoded [] = omega arith
length-encoded (a ∷ []) = omega arith
length-encoded (a ∷ b ∷ []) = omega arith
length-encoded (a ∷ b ∷ c ∷ src) = omega (arith, length-encoded src)

-- The four numbers that the code puts together from the bytes are the digits.
module _ (a b c : ℕ) (ha : IsByte a) (hb : IsByte b) (hc : IsByte c) where
  pub output0_lem : output0 a ≡ number a b c / 262144
  unfolding output0
  output0_lem = omega arith

  pub output1_lem : output1 a b ≡ number a b c / 4096 % 64
  unfolding output1
  output1_lem = omega (arith, bit_and_0x03 a)

  pub output2_lem : output2 b c ≡ number a b c / 64 % 64
  unfolding output2
  output2_lem = omega (arith, bit_and_0x0f b)

  pub output3_lem : output3 c ≡ number a b c % 64
  unfolding output3
  output3_lem = omega (arith, bit_and_0x3f c)

-- The text of each group is what the code puts together.
pub encoded_one :
    (a : ℕ)
    → IsByte a
    → encoded (a ∷ [])
      ≡ (digit (output0 a) ∷ digit (output1 a 0) ∷ pad64 ∷ pad64 ∷ []) ++ encoded []
unfolding encoded
encoded_one a ha = rw (
  output0_lem a 0 0 ha (omega arith) (omega arith),
  output1_lem a 0 0 ha (omega arith) (omega arith),
)

pub encoded_two :
    (a b : ℕ)
    → IsByte a
    → IsByte b
    → encoded (a ∷ b ∷ [])
      ≡ (digit (output0 a) ∷ digit (output1 a b) ∷ digit (output2 b 0) ∷ pad64 ∷ []) ++ encoded []
unfolding encoded
encoded_two a b ha hb = rw (
  output0_lem a b 0 ha hb (omega arith),
  output1_lem a b 0 ha hb (omega arith),
  output2_lem a b 0 ha hb (omega arith),
)

pub encoded_three :
    (a b c : ℕ) (src : List ℕ)
    → IsByte a
    → IsByte b
    → IsByte c
    → encoded (a ∷ b ∷ c ∷ src)
      ≡ (digit (output0 a) ∷ digit (output1 a b) ∷ digit (output2 b c) ∷ digit (output3 c) ∷ [])
        ++ encoded src
unfolding encoded
encoded_three a b c src ha hb hc = rw (
  output0_lem a b c ha hb hc,
  output1_lem a b c ha hb hc,
  output2_lem a b c ha hb hc,
  output3_lem a b c ha hb hc,
)
