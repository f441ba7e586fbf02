-- ===== src/Varint/Groups.antt =====
-- The number that a varint stands for, and what the decoders make of one in a buffer.
use thermo_check.Common.{
  ℕ, zero, suc, ◌+◌, ◌*◌, ◌%◌, ◌^◌, ◌≤◌, ◌<◌, ◌≡◌, ap, ◌∙◌, true, false, Option, List, [], ◌∷◌,
  ◌++◌, length, All, leb, ◌==◌, bit_and, bit_or, arith,
}
use thermo_check.Common.Bits.{bit_and_0x7f, bit_and_0x80}
use thermo_check.Common.Words.{pow-add, bit_or_word}
use thermo_check.Common.Exec.{ok}
use thermo_check.Message.{Message}
use thermo_check.Input.Buffer.{reading, gives, pb_readbyte-buffer}
use thermo_check.Varint.{next_bitpos, varint_loop, pb_decode_varint}
use native.Mathlib.Nat.{mod-eq_of_lt, zero-add, pow-le-pow_right}

-- Seven bits of each byte, lowest first.
abbrev pub groups : List ℕ → ℕ
groups [] = 0
groups (b ∷ bs) = b % 128 + 128 * groups bs

-- A byte before the last of a varint.
abbrev pub IsContinued : ℕ → Type 0
IsContinued b = (128 ≤ b) × (b < 256)

-- The tests on a byte.
pub continued : (b : ℕ) → IsContinued b → (bit_and b 0x80 == 0) ≡ false
continued b h = ground (arith, bit_and_0x80 b)

pub ended : (b : ℕ) → b < 128 → (bit_and b 0x80 == 0) ≡ true
ended b h = ground (arith, bit_and_0x80 b)

abbrev merged64 : ℕ → ℕ → ℕ → ℕ
merged64 result bitpos b = (result + b % 128 * 2 ^ bitpos) % 2 ^ 64

merge_byte64 :
    (result bitpos b : ℕ)
    → bitpos ≤ 63
    → result < 2 ^ bitpos
    → bit_or result (bit_and b 0x7f * 2 ^ bitpos % 2 ^ 64) ≡ merged64 result bitpos b
merge_byte64 result bitpos b h g =
    rw (bit_and_0x7f b) (bit_or_word 64 bitpos result (b % 128) (omega arith) g)

below_limit : (bitpos : ℕ) → bitpos ≤ 63 → leb 64 bitpos ≡ false
below_limit bitpos h = ground arith

-- A word of `k` bits with seven more above it.
pub seven_more : (result k b : ℕ) → result < 2 ^ k → result + b % 128 * 2 ^ k < 2 ^ (k + 7)
seven_more result k b h = omega (arith, pow-add k 7, le_groups)
  where
    le_groups : (b % 128 + 1) * 2 ^ k ≤ 128 * 2 ^ k
    le_groups = grind arith

module _ (rest : List ℕ) (left : ℕ) (errmsg : Option Message) where
  last_round :
      (fuel result bitpos last : ℕ)
      → bitpos ≤ 63
      → result < 2 ^ bitpos
      → last < 128
      → varint_loop (suc fuel) result bitpos (reading (last ∷ rest) (suc left) errmsg)
        ≡ (ok (merged64 result bitpos last), reading rest left errmsg)
  unfolding varint_loop
  last_round fuel result bitpos last h g e = rw (
    below_limit bitpos h,
    pb_readbyte-buffer errmsg last rest left,
    ended last e,
    merge_byte64 result bitpos last h g,
  )

  inner_round :
      (fuel result bitpos b : ℕ)
      → bitpos + 7 ≤ 63
      → result < 2 ^ bitpos
      → IsContinued b
      → varint_loop (suc fuel) result bitpos (reading (b ∷ rest) (suc left) errmsg)
        ≡ varint_loop fuel (result + b % 128 * 2 ^ bitpos) (bitpos + 7) (reading rest left errmsg)
  unfolding varint_loop
  inner_round fuel result bitpos b h g e = rw (
    below_limit bitpos (omega arith),
    pb_readbyte-buffer errmsg b rest left,
    continued b e,
    merge_byte64 result bitpos b (omega arith) g,
    advanced,
    fits,
  )
    where
      advanced : next_bitpos bitpos ≡ bitpos + 7
      advanced = omega arith

      fits : merged64 result bitpos b ≡ result + b % 128 * 2 ^ bitpos
      fits =
          mod-eq_of_lt
            (omega (arith, seven_more result bitpos b g, pow-le-pow_right {n = 2} (omega arith) h))

-- The loop on a varint that ends within ten bytes.
varint_loop-groups :
    (front : List ℕ) (last : ℕ) (rest : List ℕ) (left : ℕ) (errmsg : Option Message)
    (fuel result bitpos : ℕ)
    → All IsContinued front
    → last < 128
    → bitpos + 7 * length front ≤ 63
    → result < 2 ^ bitpos
    → length front < fuel
    → varint_loop fuel result bitpos
        (reading (front ++ (last ∷ rest)) (length front + suc left) errmsg)
      ≡ (
        ok ((result + groups (front ++ (last ∷ [])) * 2 ^ bitpos) % 2 ^ 64),
        reading rest left errmsg,
      )
varint_loop-groups front last rest left errmsg zero result bitpos hf hl h g k = absurd (omega arith)
varint_loop-groups [] last rest left errmsg (suc fuel) result bitpos hf hl h g k = rw zero-add (
    last_round rest left errmsg fuel result bitpos last (omega arith) g hl
    ∙ ap (λ (t : ℕ). gives rest left errmsg (t % 2 ^ 64)) value)
  where
    value : result + last % 128 * 2 ^ bitpos ≡ result + (last % 128 + 0) * 2 ^ bitpos
    value = omega arith
varint_loop-groups (b ∷ front) last rest left errmsg (suc fuel) result bitpos hf hl h g k =
    rw counted (
      inner_round (front ++ (last ∷ rest)) (length front + suc left) errmsg fuel result bitpos b
        (omega arith) g hf.0
      ∙ varint_loop-groups front last rest left errmsg fuel _ (bitpos + 7) hf.1 hl (omega arith)
          (seven_more result bitpos b g) (omega arith)
      ∙ ap (λ (t : ℕ). gives rest left errmsg (t % 2 ^ 64)) value)
  where
    later : ℕ
    later = groups (front ++ (last ∷ []))

    counted : suc (length front) + suc left ≡ suc (length front + suc left)
    counted = omega arith

    value :
        (result + b % 128 * 2 ^ bitpos) + later * 2 ^ (bitpos + 7)
        ≡ result + (b % 128 + 128 * later) * 2 ^ bitpos
    value = omega (arith, ap (λ (t : ℕ). later * t) (pow-add bitpos 7))

-- On a buffer at a varint of at most ten bytes, all but the last with the high bit and the last
-- without, `pb_decode_varint` returns the sum of the seven-bit groups, lowest first, modulo 2 ^ 64,
-- and leaves the stream behind the varint.
pub pb_decode_varint-groups :
    (front : List ℕ) (last : ℕ) (rest : List ℕ) (left : ℕ) (errmsg : Option Message)
    → All IsContinued front
    → last < 128
    → length front ≤ 9
    → pb_decode_varint (reading (front ++ (last ∷ rest)) (length front + suc left) errmsg)
      ≡ (ok (groups (front ++ (last ∷ [])) % 2 ^ 64), reading rest left errmsg)
unfolding pb_decode_varint
pb_decode_varint-groups front last rest left errmsg hf hl h =
    varint_loop-groups front last rest left errmsg 11 0 0 hf hl (omega arith) (omega arith)
      (omega arith)
    ∙ ap (λ (t : ℕ). gives rest left errmsg (t % 2 ^ 64)) value
  where
    value : 0 + groups (front ++ (last ∷ [])) * 2 ^ 0 ≡ groups (front ++ (last ∷ []))
    value = omega arith
