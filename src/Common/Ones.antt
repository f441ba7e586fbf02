-- ===== src/Common/Ones.antt =====
-- The bits of a number, one by one.
use Prim.Native.Nat.{ℕ, zero, suc, ◌-◌, ◌/◌, ◌%◌, ◌^◌, ◌<◌, bit_or}
use mathlib.Core.Path.{◌≡◌, refl, ap, ◌∙◌}
use mathlib.Core.Bool.{Bool, true, false, ◌&&◌, ◌||◌}
use native.Mathlib.Omega.{arith}
use native.Mathlib.Nat.{pow-suc, one-le-pow}
use thermo_check.Common.Tests.{◌==◌}
use thermo_check.Common.Bits.{bit_or_halves}

-- Bit `k` of a number is set.
unfoldable pub has_bit : ℕ → ℕ → Bool
has_bit zero x = x % 2 == 1
has_bit (suc k) x = has_bit k (x / 2)

pub has_bit-zero : (k : ℕ) → has_bit k 0 ≡ false
unfolding has_bit
has_bit-zero zero = refl
has_bit-zero (suc k) = has_bit-zero k

pub has_bit-bit_or : (k a b : ℕ) → has_bit k (bit_or a b) ≡ (has_bit k a || has_bit k b)
unfolding has_bit
has_bit-bit_or zero a b = ground (arith, bit_or_halves a b)
has_bit-bit_or (suc k) a b = ap (has_bit k) halved ∙ has_bit-bit_or k (a / 2) (b / 2)
  where
    halved : bit_or a b / 2 ≡ bit_or (a / 2) (b / 2)
    halved = omega (arith, bit_or_halves a b)

pub has_bit-pow : (k j : ℕ) → has_bit k (2 ^ j) ≡ (k == j)
unfolding has_bit
has_bit-pow zero zero = refl
has_bit-pow (suc k) zero = has_bit-zero k ∙ ground arith
has_bit-pow zero (suc j) = ground (arith, pow-suc 2 j)
has_bit-pow (suc k) (suc j) = ap (has_bit k) halved ∙ has_bit-pow k j ∙ ground arith
  where
    halved : 2 ^ suc j / 2 ≡ 2 ^ j
    halved = omega (arith, pow-suc 2 j)

-- The low `n` bits are set.
unfoldable pub ones : ℕ → ℕ → Bool
ones zero x = true
ones (suc n) x = x % 2 == 1 && ones n (x / 2)

pub ones-mask : (n x : ℕ) → x < 2 ^ n → ones n x ≡ (x == 2 ^ n - 1)
unfolding ones
ones-mask zero x h = ground arith
ones-mask (suc n) x h =
    rw (ones-mask n (x / 2) (omega (arith, pow-suc 2 n)))
      (ground (arith, pow-suc 2 n, one-le-pow n 2 (omega arith)))
