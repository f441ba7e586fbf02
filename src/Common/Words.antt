-- ===== src/Common/Words.antt =====
-- Shifted groups of bits in a word of `w` bits, as arithmetic modulo `2 ^ w`.
use Prim.Native.Nat.{ℕ, zero, suc, ◌+◌, ◌-◌, ◌*◌, ◌/◌, ◌%◌, ◌^◌, ◌≤◌, ◌<◌, bit_or}
use mathlib.Core.Path.{◌≡◌, ap, sym, ◌∙◌}
use native.Mathlib.Omega.{arith}
use native.Mathlib.Nat.{
  zero-add, add-zero, pow-suc, pow-le-pow_right, mod-eq_of_lt, add-mul-mod_self_right, div-add-mod,
  one-le-pow,
}
use mathlib.Core.List.{List, [], ◌∷◌}
use thermo_check.Common.Tests.{leb, if◌then◌else◌}
use thermo_check.Common.Lists.{length, All}
use thermo_check.Common.Bits.{bit_or_shifted}

pub pow-add : (a b : ℕ) → 2 ^ (a + b) ≡ 2 ^ a * 2 ^ b
pow-add a zero = rw add-zero (omega arith)
pow-add a (suc b) = omega (
  arith,
  ap (λ (t : ℕ). 2 ^ t) later,
  pow-suc 2 (a + b),
  pow-suc 2 b,
  ap (λ (t : ℕ). t * 2) (pow-add a b),
  ap (λ (t : ℕ). 2 ^ a * t) (pow-suc 2 b),
)
  where
    later : a + suc b ≡ suc (a + b)
    later = omega arith

-- A remainder splits at a multiple of the divisor.
pub mod_split : (r g p q : ℕ) → r < p → 0 < q → (r + g * p) % (q * p) ≡ r + g % q * p
mod_split r g p q h k =
    ap (λ (t : ℕ). t % (q * p)) regroup
    ∙ add-mul-mod_self_right (r + g % q * p) (g / q) (q * p)
    ∙ mod-eq_of_lt below
  where
    regroup : r + g * p ≡ r + g % q * p + g / q * (q * p)
    regroup = omega (arith, ap (λ (t : ℕ). t * p) (div-add-mod g q))

    room : (g % q + 1) * p ≤ q * p
    room = grind arith

    below : r + g % q * p < q * p
    below = omega (arith, room)

module _ (w k r g : ℕ) (fits : k ≤ w) (low : r < 2 ^ k) where
  word_splits : 2 ^ w ≡ 2 ^ (w - k) * 2 ^ k
  word_splits = ap (λ (t : ℕ). 2 ^ t) (omega arith) ∙ pow-add (w - k) k

  -- `r | (g << k)` in a word of `w` bits, over the `k` low bits `r`.
  pub bit_or_word : bit_or r (g * 2 ^ k % 2 ^ w) ≡ (r + g * 2 ^ k) % 2 ^ w
  bit_or_word = rw (word_splits) (
      rw (shifted)
        (bit_or_shifted k r (g % 2 ^ (w - k)) low ∙ sym (mod_split r g _ _ low some_room)))
    where
      some_room : 0 < 2 ^ (w - k)
      some_room = one-le-pow (w - k) 2 (omega arith)

      shifted : g * 2 ^ k % (2 ^ (w - k) * 2 ^ k) ≡ g % 2 ^ (w - k) * 2 ^ k
      shifted =
          simp zero-add at
            (mod_split 0 g (2 ^ k) (2 ^ (w - k)) (one-le-pow k 2 (omega arith)) some_room)

-- `~word` in 64 bits.
abbrev pub complement : ℕ → ℕ
complement word = 2 ^ 64 - 1 - word

-- A word's low `bits`, read in two's complement, as a word of 64 bits: the C cast to a signed type
-- of that width and on to `int64_t`.
unfoldable pub sign_extend : ℕ → ℕ → ℕ
sign_extend bits word =
    let low : ℕ = word % 2 ^ bits in
    if leb (2 ^ (bits - 1)) low then low + (2 ^ 64 - 2 ^ bits) else low

-- Bytes as the digits of a number, lowest first.
abbrev pub from_bytes : List ℕ → ℕ
from_bytes [] = 0
from_bytes (b ∷ bytes) = b + 256 * from_bytes bytes

-- `acc | bytes[0] << shift | bytes[1] << (shift + 8) | …` in a word of `w` bits, joined from the left.
unfoldable pub join_bytes : ℕ → ℕ → ℕ → List ℕ → ℕ
join_bytes w acc shift [] = acc
join_bytes w acc shift (b ∷ bytes) =
    join_bytes w (bit_or acc (b * 2 ^ shift % 2 ^ w)) (shift + 8) bytes

byte_more : (acc k b : ℕ) → acc < 2 ^ k → b < 256 → acc + b * 2 ^ k < 2 ^ (k + 8)
byte_more acc k b h g = omega (arith, pow-add k 8, le_bytes)
  where
    le_bytes : (b + 1) * 2 ^ k ≤ 256 * 2 ^ k
    le_bytes = grind arith

-- Over bytes that fit the word the join is the number that the bytes stand for.
pub join_bytes-from_bytes :
    (w acc shift : ℕ) (bytes : List ℕ)
    → All (λ b. b < 256) bytes
    → acc < 2 ^ shift
    → shift + 8 * length bytes ≤ w
    → join_bytes w acc shift bytes ≡ acc + from_bytes bytes * 2 ^ shift
unfolding join_bytes
join_bytes-from_bytes w acc shift [] h g k = omega arith
join_bytes-from_bytes w acc shift (b ∷ bytes) h g k =
    rw (bit_or_word w shift acc b (omega arith) g, mod-eq_of_lt fits)
      (join_bytes-from_bytes w (acc + b * 2 ^ shift) (shift + 8) bytes h.1
          (byte_more acc shift b g h.0) (omega arith)
        ∙ omega (arith, ap (λ (t : ℕ). from_bytes bytes * t) (pow-add shift 8)))
  where
    fits : acc + b * 2 ^ shift < 2 ^ w
    fits = omega (
      arith,
      byte_more acc shift b g h.0,
      pow-le-pow_right {n = 2} (omega arith) {i = shift + 8} {j = w} (omega arith),
    )
