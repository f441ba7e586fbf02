-- ===== src/Messages/Missing.antt =====
-- `all_seen` finds out whether a required field is missing, for a bitmap of marks in any order.
use mathlib.Core.Logic.{◌↔◌}
use native.Mathlib.Nat.{one-le-pow}
use native.Mathlib.Decide.{dec_lt}
use thermo_check.Common.{
  ℕ, zero, suc, ◌+◌, ◌-◌, ◌/◌, ◌^◌, ◌≤◌, ◌<◌, ◌≡◌, ◌≢◌, ◌⊎◌, inl, inr, refl, sym, ap, ◌∙◌, bit_and,
  min, Bool, true, false, ◌&&◌, ◌==◌, ==_iff, List, [], ◌∷◌, All, arith,
}
use thermo_check.Common.Bits.{bit_and_31, every_below, every_below→true}
use thermo_check.Common.Ones.{has_bit, ones, ones-mask}
use thermo_check.Messages.Decode.{Seen, all_seen, whole_words}
use thermo_check.Messages.Marks.{
  marked, elem, has, has-low, has-high, has-marked, IsWithin, set_seen-IsWithin,
}

mask : (r : ℕ) → r < 32 → (2 ^ 32 - 1) / 2 ^ (32 - r) ≡ 2 ^ r - 1
mask r h = (==_iff _ _).0 (every_below→true 32 _ r table h)
  where
    table : every_below 32 (λ r. (2 ^ 32 - 1) / 2 ^ (32 - r) == 2 ^ r - 1) ≡ true
    table = unfold every_below in refl

-- `all_seen` tests that both words have all the bits that they can have.
module _ (seen : Seen) where
  IsFull : ℕ → Type 0
  IsFull count =
      all_seen seen count
      ≡ (seen.first == 2 ^ min count 32 - 1 && seen.second == 2 ^ (count - 32) - 1)

  one_word : (count : ℕ) → count < 32 → IsWithin count seen → IsFull count
  unfolding IsFull all_seen whole_words
  one_word count low w =
      rw (words, bits, mask count low, least, nothing) (ground (arith, first, second))
    where
      words : count / 2 ^ 5 ≡ 0
      words = omega arith

      bits : bit_and count 31 ≡ count
      bits = omega (arith, bit_and_31 count)

      least : min count 32 ≡ count
      least = omega arith

      nothing : count - 32 ≡ 0
      nothing = omega arith

      empty : count ≡ 0 → 2 ^ min count 32 ≡ 1
      empty e = ap (λ n. 2 ^ min n 32) e

      first : (count ≢ 0) ⊎ (seen.first ≡ 0)
      first = elim (dec_lt 0 count) [
        | yes some_bits ↦ inl (λ e. omega arith)
        | no no_bits ↦ inr (omega (arith, w.first_low, empty (omega arith)))
      ]

      second : seen.second ≡ 0
      second = omega (arith, w.second_low, ap (λ n. 2 ^ n) nothing)

  first_word : IsWithin 32 seen → IsFull 32
  unfolding IsFull all_seen whole_words
  first_word w = ground (arith, w.first_low, w.second_low)

  two_words : (count : ℕ) → 32 < count → count < 64 → IsWithin count seen → IsFull count
  unfolding IsFull all_seen whole_words
  two_words count high low w =
      rw (words, bits, mask (count - 32) (omega arith), least) (ground arith)
    where
      words : count / 2 ^ 5 ≡ 1
      words = omega arith

      bits : bit_and count 31 ≡ count - 32
      bits = omega (arith, bit_and_31 count)

      least : min count 32 ≡ 32
      least = omega arith

  both_words : IsWithin 64 seen → IsFull 64
  unfolding IsFull all_seen whole_words
  both_words w = ground (arith, w.first_low, w.second_low)

  all_seen-IsFull : (count : ℕ) → count ≤ 64 → IsWithin count seen → IsFull count
  all_seen-IsFull count small w = elim (dec_lt count 32) [
    | yes low ↦ one_word count low w
    | no middle ↦ elim (dec_lt 32 count) [
      | no same ↦ rw (equal 32 (omega arith)) (first_word (rw (equal 32 (omega arith)) at w))
      | yes high ↦ elim (dec_lt count 64) [
        | yes low ↦ two_words count high low w
        | no top ↦ rw (equal 64 (omega arith)) (both_words (rw (equal 64 (omega arith)) at w))
      ]
    ]
  ]
    where
      equal : (n : ℕ) → count ≡ n → count ≡ n
      equal n e = e

-- All of the first `n` bits.
ones-has_bit : (n x : ℕ) → ones n x ≡ true → (k : ℕ) → k < n → has_bit k x ≡ true
unfolding ones has_bit
ones-has_bit zero x h k l = absurd (omega arith)
ones-has_bit (suc n) x h zero l = ground arith
ones-has_bit (suc n) x h (suc k) l = ones-has_bit n (x / 2) (ground arith) k (omega arith)

has_bit-ones : (n x : ℕ) → ((k : ℕ) → k < n → has_bit k x ≡ true) → ones n x ≡ true
unfolding ones has_bit
has_bit-ones zero x h = refl
has_bit-ones (suc n) x h =
    rw (h 0 (omega arith)) (has_bit-ones n (x / 2) (λ k l. h (suc k) (omega arith)))

marked-IsWithin :
    (count : ℕ) (is : List ℕ) → count ≤ 64 → All (λ i. i < count) is → IsWithin count (marked is)
unfolding marked
marked-IsWithin count [] small h = record {
  first_low = one-le-pow (min count 32) 2 (omega arith);
  second_low = one-le-pow (count - 32) 2 (omega arith);
}
marked-IsWithin count (i ∷ is) small h =
    set_seen-IsWithin count i (marked is) small h.0 (marked-IsWithin count is small h.1)

below_64 : (count : ℕ) (is : List ℕ) → count ≤ 64 → All (λ i. i < count) is → All (λ i. i < 64) is
below_64 count [] small h = tt
below_64 count (i ∷ is) small h = (omega arith, below_64 count is small h.1)

module _ (count : ℕ) (is : List ℕ) (small : count ≤ 64) (inside : All (λ i. i < count) is) where
  words_full :
      all_seen (marked is) count
      ≡ (ones (min count 32) (marked is).first && ones (count - 32) (marked is).second)
  words_full =
      let w = marked-IsWithin count is small inside in
      rw
        (
          ones-mask (min count 32) (marked is).first w.first_low,
          ones-mask (count - 32) (marked is).second w.second_low,
        )
        (unfold IsFull in all_seen-IsFull (marked is) count small w)

  all_seen→elem : all_seen (marked is) count ≡ true → (j : ℕ) → j < count → elem j is ≡ true
  all_seen→elem e j l = sym (has-marked is j (below_64 count is small inside) (omega arith)) ∙ found
    where
      full :
          ((ones (min count 32) (marked is).first) ≡ true)
          × ((ones (count - 32) (marked is).second) ≡ true)
      full = split _ _ (sym words_full ∙ e)
        where
          split : (a b : Bool) → (a && b) ≡ true → (a ≡ true) × (b ≡ true)
          split true b h = (refl, h)
          split false b h = cc

      found : has j (marked is) ≡ true
      found = elim (dec_lt j 32) [
        | yes here ↦
            has-low j (marked is) here ∙ ones-has_bit (min count 32) _ full.0 j (omega arith)
        | no there ↦
            has-high j (marked is) (omega arith)
            ∙ ones-has_bit (count - 32) _ full.1 (j - 32) (omega arith)
      ]

  elem→all_seen : ((j : ℕ) → j < count → elem j is ≡ true) → all_seen (marked is) count ≡ true
  elem→all_seen h = words_full ∙ both _ _ first second
    where
      both : (a b : Bool) → a ≡ true → b ≡ true → (a && b) ≡ true
      both a b p q = ground arith

      there : (j : ℕ) → j < count → has j (marked is) ≡ true
      there j l = has-marked is j (below_64 count is small inside) (omega arith) ∙ h j l

      first : ones (min count 32) (marked is).first ≡ true
      first =
          has_bit-ones _ _
            (λ k l. sym (has-low k (marked is) (omega arith)) ∙ there k (omega arith))

      high : (k : ℕ) → k < count - 32 → has_bit k (marked is).second ≡ true
      high k l =
          ap (λ n. has_bit n (marked is).second) back
          ∙ sym (has-high (k + 32) (marked is) (omega arith))
          ∙ there (k + 32) (omega arith)
        where
          back : k ≡ k + 32 - 32
          back = omega arith

      second : ones (count - 32) (marked is).second ≡ true
      second = has_bit-ones _ _ high

  -- For at most 64 required fields and any list of their indices, in any order and with any
  -- repetitions, the two words of `fields_seen`, 0 at first, behind the marks of these indices pass
  -- the test of the words and of the remaining bits exactly when every required field's index is in
  -- the list: the bitmap is the set of the indices.
  pub all_seen-marked :
      (all_seen (marked is) count ≡ true) ↔ ((j : ℕ) → j < count → elem j is ≡ true)
  all_seen-marked = (all_seen→elem, elem→all_seen)
