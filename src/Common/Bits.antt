-- ===== src/Common/Bits.antt =====
-- Masks, `|` of disjoint fields and bit tests as arithmetic.
use Prim.Native.Nat.{
  ℕ, zero, suc, ◌+◌, ◌*◌, ◌/◌, ◌%◌, ◌^◌, ◌≤◌, ◌<◌, min, max, bit_and, bit_or, digits, bitwise,
  bit_and-bitwise, bit_or-bitwise,
}
use mathlib.Core.Path.{◌≡◌, refl, ap, ◌∙◌}
use mathlib.Core.Bool.{Bool, true, ◌&&◌}
use native.Mathlib.Omega.{arith}
use native.Mathlib.Nat.{pow-suc, le_refl}
use thermo_check.Common.Tests.{◌==◌, ==_iff}

-- Two amounts of fuel that both cover the first operand give the same digits.
module _ (z : ℕ → ℕ) (f : ℕ → ℕ → ℕ) where
  digits_enough : (a b k m : ℕ) → a ≤ k → a ≤ m → digits z f k a b ≡ digits z f m a b
  digits_enough zero b zero zero h g = refl
  digits_enough zero b zero (suc m) h g = refl
  digits_enough zero b (suc k) zero h g = refl
  digits_enough zero b (suc k) (suc m) h g = refl
  digits_enough (suc a) b zero m h g = absurd (omega arith)
  digits_enough (suc a) b (suc k) zero h g = absurd (omega arith)
  digits_enough (suc a) b (suc k) (suc m) h g =
      rw (digits_enough (suc a / 2) (b / 2) k m (omega arith) (omega arith))

  bitwise_halves :
      (n m : ℕ)
      → bitwise z f (suc n) m ≡ f (suc n % 2) (m % 2) + 2 * bitwise z f (suc n / 2) (m / 2)
  bitwise_halves n m =
      rw (digits_enough (suc n / 2) (m / 2) n (suc n / 2) (omega arith) (le_refl _)) (omega arith)

-- The lowest digit of `|` and `&`.
pub bit_or_halves : (n m : ℕ) → bit_or n m ≡ max (n % 2) (m % 2) + 2 * bit_or (n / 2) (m / 2)
bit_or_halves zero m = omega (arith, bit_or-bitwise 0 m, bit_or-bitwise 0 (m / 2))
bit_or_halves (suc n) m = omega (
  arith,
  bitwise_halves (λ y. y) max n m,
  bit_or-bitwise (suc n) m,
  bit_or-bitwise (suc n / 2) (m / 2),
)

bit_and_halves : (n m : ℕ) → bit_and n m ≡ min (n % 2) (m % 2) + 2 * bit_and (n / 2) (m / 2)
bit_and_halves zero m = omega (arith, bit_and-bitwise 0 m, bit_and-bitwise 0 (m / 2))
bit_and_halves (suc n) m = omega (
  arith,
  bitwise_halves (λ y. 0) min n m,
  bit_and-bitwise (suc n) m,
  bit_and-bitwise (suc n / 2) (m / 2),
)

zero-bit_or : (b : ℕ) → bit_or 0 b ≡ b
zero-bit_or b = bit_or-bitwise 0 b

zero-bit_and : (b : ℕ) → bit_and 0 b ≡ 0
zero-bit_and b = bit_and-bitwise 0 b

doubled : (b k : ℕ) → b * 2 ^ suc k ≡ b * 2 ^ k * 2
doubled b k = omega (arith, ap (λ (t : ℕ). b * t) (pow-suc 2 k))

-- `a | (b << k)` is a sum where `a` fits `k` bits.
pub bit_or_shifted : (k a b : ℕ) → a < 2 ^ k → bit_or a (b * 2 ^ k) ≡ a + b * 2 ^ k
bit_or_shifted zero zero b h = omega (arith, zero-bit_or (b * 2 ^ 0))
bit_or_shifted zero (suc a) b h = absurd (omega arith)
bit_or_shifted (suc k) a b h = omega (
  arith,
  doubled b k,
  pow-suc 2 k,
  bit_or_halves a (b * 2 ^ suc k),
  ap (λ (t : ℕ). bit_or (a / 2) t) half,
  bit_or_shifted k (a / 2) b (omega (arith, pow-suc 2 k)),
)
  where
    half : b * 2 ^ suc k / 2 ≡ b * 2 ^ k
    half = omega (arith, doubled b k)

bit_and-zero : (k a : ℕ) → a ≤ k → bit_and a 0 ≡ 0
bit_and-zero k zero h = zero-bit_and 0
bit_and-zero zero (suc a) h = absurd (omega arith)
bit_and-zero (suc k) (suc a) h =
    omega (arith, bit_and_halves (suc a) 0, bit_and-zero k (suc a / 2) (omega arith))

-- `a & m` for a mask `m` of `k` low bits keeps the remainder `r`.
bit_and_low : (k q r m : ℕ) → r < 2 ^ k → m + 1 ≡ 2 ^ k → bit_and (q * 2 ^ k + r) m ≡ r
bit_and_low zero q r m h e = omega (
  arith,
  bit_and-zero (q * 2 ^ 0 + r) (q * 2 ^ 0 + r) (le_refl _),
  ap (λ (t : ℕ). bit_and (q * 2 ^ 0 + r) t) none_set,
)
  where
    none_set : m ≡ 0
    none_set = omega arith
bit_and_low (suc k) q r m h e = omega (
  arith,
  bit_and_halves (q * 2 ^ suc k + r) m,
  ap (λ (t : ℕ). bit_and t (m / 2)) half,
  doubled q k,
  pow-suc 2 k,
  bit_and_low k q (r / 2) (m / 2) (omega (arith, pow-suc 2 k)) (omega (arith, pow-suc 2 k)),
)
  where
    half : (q * 2 ^ suc k + r) / 2 ≡ q * 2 ^ k + r / 2
    half = omega (arith, doubled q k)

-- The masks of the program.
module _ (a : ℕ) where
  pub bit_and_0x7f : bit_and a 0x7f ≡ a % 128
  bit_and_0x7f = mask (a / 128) (a % 128) (omega arith) (omega arith)
    where
      mask : (q r : ℕ) → a ≡ q * 128 + r → r < 128 → bit_and a 0x7f ≡ r
      mask q r e h = omega (arith, ap (λ (t : ℕ). bit_and t 0x7f) e, bit_and_low 7 q r 0x7f h refl)

  pub bit_and_0xff : bit_and a 0xff ≡ a % 256
  bit_and_0xff = mask (a / 256) (a % 256) (omega arith) (omega arith)
    where
      mask : (q r : ℕ) → a ≡ q * 256 + r → r < 256 → bit_and a 0xff ≡ r
      mask q r e h = omega (arith, ap (λ (t : ℕ). bit_and t 0xff) e, bit_and_low 8 q r 0xff h refl)

  pub bit_and_seven : bit_and a 7 ≡ a % 8
  bit_and_seven = mask (a / 8) (a % 8) (omega arith) (omega arith)
    where
      mask : (q r : ℕ) → a ≡ q * 8 + r → r < 8 → bit_and a 7 ≡ r
      mask q r e h = omega (arith, ap (λ (t : ℕ). bit_and t 7) e, bit_and_low 3 q r 7 h refl)

  pub bit_and_0x03 : bit_and a 0x03 ≡ a % 4
  bit_and_0x03 = mask (a / 4) (a % 4) (omega arith) (omega arith)
    where
      mask : (q r : ℕ) → a ≡ q * 4 + r → r < 4 → bit_and a 0x03 ≡ r
      mask q r e h = omega (arith, ap (λ (t : ℕ). bit_and t 0x03) e, bit_and_low 2 q r 0x03 h refl)

  pub bit_and_0x0f : bit_and a 0x0f ≡ a % 16
  bit_and_0x0f = mask (a / 16) (a % 16) (omega arith) (omega arith)
    where
      mask : (q r : ℕ) → a ≡ q * 16 + r → r < 16 → bit_and a 0x0f ≡ r
      mask q r e h = omega (arith, ap (λ (t : ℕ). bit_and t 0x0f) e, bit_and_low 4 q r 0x0f h refl)

  pub bit_and_0x3f : bit_and a 0x3f ≡ a % 64
  bit_and_0x3f = mask (a / 64) (a % 64) (omega arith) (omega arith)
    where
      mask : (q r : ℕ) → a ≡ q * 64 + r → r < 64 → bit_and a 0x3f ≡ r
      mask q r e h = omega (arith, ap (λ (t : ℕ). bit_and t 0x3f) e, bit_and_low 6 q r 0x3f h refl)

  pub bit_and_31 : bit_and a 31 ≡ a % 32
  bit_and_31 = mask (a / 32) (a % 32) (omega arith) (omega arith)
    where
      mask : (q r : ℕ) → a ≡ q * 32 + r → r < 32 → bit_and a 31 ≡ r
      mask q r e h = omega (arith, ap (λ (t : ℕ). bit_and t 31) e, bit_and_low 5 q r 31 h refl)

  pub bit_and_one : bit_and a 1 ≡ a % 2
  bit_and_one = omega (arith, bit_and_halves a 1, bit_and-zero (a / 2) (a / 2) (le_refl _))

  pub bit_or_0x80 : a < 128 → bit_or a 0x80 ≡ a + 128
  bit_or_0x80 h = bit_or_shifted 7 a 1 h

-- Over a byte, every value is checked by evaluation.
unfoldable pub every_below : ℕ → (ℕ → Bool) → Bool
every_below zero p = true
every_below (suc n) p = p n && every_below n p

pub every_below→true : (n : ℕ) (p : ℕ → Bool) (x : ℕ) → every_below n p ≡ true → x < n → p x ≡ true
unfolding every_below
every_below→true zero p x h lt = absurd (omega arith)
every_below→true (suc n) p x h lt = ground (arith, every_below→true n p x)

-- The continuation bit of a byte.
pub bit_and_0x80 : (b : ℕ) → b < 256 → bit_and b 0x80 ≡ b / 128 * 128
bit_and_0x80 b h = (==_iff _ _).0 (every_below→true 256 _ b table h)
  where
    table : every_below 256 (λ b. bit_and b 0x80 == b / 128 * 128) ≡ true
    table = unfold every_below in refl

-- Bits 4 to 6 of a byte.
pub bit_and_0x70 : (b : ℕ) → b < 256 → bit_and b 0x70 ≡ b / 16 % 8 * 16
bit_and_0x70 b h = (==_iff _ _).0 (every_below→true 256 _ b table h)
  where
    table : every_below 256 (λ b. bit_and b 0x70 == b / 16 % 8 * 16) ≡ true
    table = unfold every_below in refl

bit_or-zero : (k a : ℕ) → a ≤ k → bit_or a 0 ≡ a
bit_or-zero k zero h = zero-bit_or 0
bit_or-zero zero (suc a) h = absurd (omega arith)
bit_or-zero (suc k) (suc a) h =
    omega (arith, bit_or_halves (suc a) 0, bit_or-zero k (suc a / 2) (omega arith))

-- `(b << k) | a` is a sum where `a` fits `k` bits.
pub shifted-bit_or : (k b a : ℕ) → a < 2 ^ k → bit_or (b * 2 ^ k) a ≡ b * 2 ^ k + a
shifted-bit_or zero b zero h = bit_or-zero _ (b * 2 ^ 0) (le_refl _) ∙ omega arith
shifted-bit_or zero b (suc a) h = absurd (omega arith)
shifted-bit_or (suc k) b a h = omega (
  arith,
  doubled b k,
  pow-suc 2 k,
  bit_or_halves (b * 2 ^ suc k) a,
  ap (λ (t : ℕ). bit_or t (a / 2)) half,
  shifted-bit_or k b (a / 2) (omega (arith, pow-suc 2 k)),
)
  where
    half : b * 2 ^ suc k / 2 ≡ b * 2 ^ k
    half = omega (arith, doubled b k)

-- `|` of numbers of `k` bits has `k` bits.
pub bit_or-lt : (k a b : ℕ) → a < 2 ^ k → b < 2 ^ k → bit_or a b < 2 ^ k
bit_or-lt zero zero b h g = omega (arith, zero-bit_or b)
bit_or-lt zero (suc a) b h g = absurd (omega arith)
bit_or-lt (suc k) a b h g = omega (
  arith,
  pow-suc 2 k,
  bit_or_halves a b,
  bit_or-lt k (a / 2) (b / 2) (omega (arith, pow-suc 2 k)) (omega (arith, pow-suc 2 k)),
)
