-- ===== src/Messages/Marks.antt =====
-- The bitmap of the required fields that have been seen is a set.
use native.Mathlib.Nat.{pow-le-pow_right, pow-suc, one-le-pow}
use native.Mathlib.Decide.{dec_lt}
use thermo_check.Common.{
  ℕ, suc, ◌-◌, ◌/◌, ◌^◌, ◌≤◌, ◌<◌, ◌≡◌, ap, ◌∙◌, bit_and, bit_or, min, Bool, true, false, ◌||◌,
  ◌==◌, List, [], ◌∷◌, if◌then◌else◌, All, arith,
}
use thermo_check.Common.Bits.{bit_and_31, bit_or-lt}
use thermo_check.Common.Ones.{has_bit, has_bit-zero, has_bit-bit_or, has_bit-pow}
use thermo_check.Messages.Decode.{Seen, set_seen}

abbrev pub unmarked : Seen
unmarked = record { first = 0; second = 0 }

-- The bitmap behind the marks of some indices.
unfoldable pub marked : List ℕ → Seen
marked [] = unmarked
marked (i ∷ is) = set_seen i (marked is)

unfoldable pub elem : ℕ → List ℕ → Bool
elem j [] = false
elem j (i ∷ is) = j == i || elem j is

-- Index `j` is in the bitmap.
unfoldable pub has : ℕ → Seen → Bool
has j seen = if j / 32 == 0 then has_bit j seen.first else has_bit (j - 32) seen.second

module _ (j : ℕ) (seen : Seen) where
  pub has-low : j < 32 → has j seen ≡ has_bit j seen.first
  unfolding has
  has-low h = rw (low)
    where
      low : (j / 32 == 0) ≡ true
      low = ground arith

  pub has-high : 32 ≤ j → has j seen ≡ has_bit (j - 32) seen.second
  unfolding has
  has-high h = rw (high)
    where
      high : (j / 32 == 0) ≡ false
      high = ground arith

  set_seen-low : j < 32 → set_seen j seen ≡ record seen { first = bit_or seen.first (2 ^ j) }
  unfolding set_seen
  set_seen-low h = rw (low, bit)
    where
      low : (j / 2 ^ 5 == 0) ≡ true
      low = ground arith

      bit : bit_and j 31 ≡ j
      bit = omega (arith, bit_and_31 j)

  set_seen-high :
      32 ≤ j → j < 64 → set_seen j seen ≡ record seen { second = bit_or seen.second (2 ^ (j - 32)) }
  unfolding set_seen
  set_seen-high h k = rw (high, bit)
    where
      high : (j / 2 ^ 5 == 0) ≡ false
      high = ground arith

      bit : bit_and j 31 ≡ j - 32
      bit = omega (arith, bit_and_31 j)

shifted : {i j : ℕ} → ¬ (j < 32) → ¬ (i < 32) → (j - 32 == i - 32) ≡ (j == i)
shifted h k = ground arith

either : (k i x : ℕ) → has_bit k (bit_or x (2 ^ i)) ≡ (k == i || has_bit k x)
either k i x = rw (has_bit-bit_or k x (2 ^ i), has_bit-pow k i) (ground arith)

has-set_seen :
    (i j : ℕ) (seen : Seen) → i < 64 → j < 64 → has j (set_seen i seen) ≡ (j == i || has j seen)
has-set_seen i j seen hi hj = elim (dec_lt i 32) [
  | yes low ↦ rw (set_seen-low i seen low) (elim (dec_lt j 32) [
    | yes here ↦ rw (has-low j _ here, has-low j seen here) (either j i seen.first)
    | no there ↦ rw (has-high j _ (omega arith), has-high j seen (omega arith)) (ground arith)
  ])
  | no high ↦ rw (set_seen-high i seen (omega arith) hi) (elim (dec_lt j 32) [
    | yes here ↦ rw (has-low j _ here, has-low j seen here) (ground arith)
    | no there ↦
        rw (has-high j _ (omega arith), has-high j seen (omega arith))
          (either (j - 32) (i - 32) seen.second
            ∙ ap (λ b. b || has_bit (j - 32) seen.second) (shifted there high))
  ])
]

has-unmarked : (j : ℕ) → has j unmarked ≡ false
has-unmarked j = elim (dec_lt j 32) [
  | yes here ↦ has-low j unmarked here ∙ has_bit-zero j
  | no there ↦ has-high j unmarked (omega arith) ∙ has_bit-zero (j - 32)
]

pub has-marked :
    (is : List ℕ) (j : ℕ) → All (λ i. i < 64) is → j < 64 → has j (marked is) ≡ elem j is
unfolding marked elem
has-marked [] j h l = has-unmarked j
has-marked (i ∷ is) j h l =
    has-set_seen i j (marked is) h.0 l ∙ ap (λ b. j == i || b) (has-marked is j h.1 l)

pow_lt : (i m : ℕ) → i < m → 2 ^ i < 2 ^ m
pow_lt i m h = omega (
  arith,
  pow-suc 2 i,
  one-le-pow i 2 (omega arith),
  pow-le-pow_right {n = 2} (omega arith) {i = suc i} {j = m} h,
)

-- Only bits of the first `count` indices are set.
pub record IsWithin (count : ℕ) (seen : Seen) : Type 0 where
  pub first_low : seen.first < 2 ^ min count 32
  pub second_low : seen.second < 2 ^ (count - 32)

pub set_seen-IsWithin :
    (count i : ℕ) (seen : Seen)
    → count ≤ 64
    → i < count
    → IsWithin count seen
    → IsWithin count (set_seen i seen)
set_seen-IsWithin count i seen c h w = elim (dec_lt i 32) [
  | yes low ↦ rw (set_seen-low i seen low) (record {
    first_low =
        bit_or-lt (min count 32) seen.first (2 ^ i) w.first_low
          (pow_lt i (min count 32) (omega arith));
    second_low = w.second_low;
  })
  | no high ↦ rw (set_seen-high i seen (omega arith) (omega arith)) (record {
    first_low = w.first_low;
    second_low =
        bit_or-lt (count - 32) seen.second (2 ^ (i - 32)) w.second_low
          (pow_lt (i - 32) (count - 32) (omega arith));
  })
]
