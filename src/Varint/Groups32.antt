-- ===== src/Varint/Groups32.antt =====
-- What the 32-bit decoder makes of a varint of at most five bytes in a buffer.
use thermo_check.Common.{
  ℕ, zero, suc, ◌+◌, ◌*◌, ◌%◌, ◌^◌, ◌≤◌, ◌<◌, ◌≡◌, refl, ap, ◌∙◌, false, not, ◌&&◌, Option, some,
  List, [], ◌∷◌, ◌++◌, inl, inr, length, All, leb, ◌==◌, bit_and, arith, Bool-cases,
}
use thermo_check.Common.Bits.{bit_and_0x7f, bit_and_0x70}
use thermo_check.Common.Words.{pow-add, bit_or_word}
use thermo_check.Common.Exec.{ok}
use thermo_check.Message.{Message}
use thermo_check.Input.{IStream}
use thermo_check.Input.Buffer.{reading, gives, pb_readbyte-buffer}
use thermo_check.Varint.{next_bitpos, merge_byte32, check_last32, varint32_loop, pb_decode_varint32}
use thermo_check.Varint.Groups.{groups, IsContinued, continued, ended, seven_more}
use native.Mathlib.Nat.{mod-eq_of_lt, zero-add, pow-le-pow_right}

merge_byte32_low :
    (result bitpos b : ℕ)
    → bitpos ≤ 28
    → result < 2 ^ bitpos
    → merge_byte32 result bitpos b ≡ some ((result + b % 128 * 2 ^ bitpos) % 2 ^ 32)
unfolding merge_byte32
merge_byte32_low result bitpos b h g =
    rw (narrow, bit_and_0x7f b) (ap some (bit_or_word 32 bitpos result (b % 128) (omega arith) g))
  where
    narrow : leb 32 bitpos ≡ false
    narrow = ground arith

-- Only the fifth byte can have bits beyond the word.
check_last32_fits :
    (result bitpos last value : ℕ) (s : IStream)
    → bitpos ≤ 28
    → last < 128
    → result + last * 2 ^ bitpos < 2 ^ 32
    → check_last32 last value (next_bitpos bitpos) s ≡ (ok value, s)
unfolding check_last32
check_last32_fits result bitpos last value s h e k = rw passes refl
  where
    fifth : bitpos ≡ 28 → last < 16
    fifth q = omega (arith, ap (λ (t : ℕ). last * 2 ^ t) q)

    passes : (next_bitpos bitpos == 35 && not (bit_and last 0x70 == 0)) ≡ false
    passes = elim (Bool-cases (bitpos == 28)) [
      | inl q ↦ ground (arith, bit_and_0x70 last (omega arith), fifth (ground arith))
      | inr q ↦ ground arith
    ]

module _ (rest : List ℕ) (left : ℕ) (errmsg : Option Message) where
  last_round32 :
      (fuel result bitpos last : ℕ)
      → bitpos ≤ 28
      → result < 2 ^ bitpos
      → last < 128
      → result + last * 2 ^ bitpos < 2 ^ 32
      → varint32_loop (suc fuel) result bitpos (reading (last ∷ rest) (suc left) errmsg)
        ≡ (ok (result + last * 2 ^ bitpos), reading rest left errmsg)
  unfolding varint32_loop
  last_round32 fuel result bitpos last h g e k =
      rw
        (
          pb_readbyte-buffer errmsg last rest left,
          merge_byte32_low result bitpos last h g,
          ended last e,
          small,
          mod-eq_of_lt k,
        )
        (check_last32_fits result bitpos last _ _ h e k)
    where
      small : last % 128 ≡ last
      small = omega arith

  inner_round32 :
      (fuel result bitpos b : ℕ)
      → bitpos + 7 ≤ 28
      → result < 2 ^ bitpos
      → IsContinued b
      → varint32_loop (suc fuel) result bitpos (reading (b ∷ rest) (suc left) errmsg)
        ≡ varint32_loop fuel (result + b % 128 * 2 ^ bitpos) (bitpos + 7) (reading rest left errmsg)
  unfolding varint32_loop
  inner_round32 fuel result bitpos b h g e = rw (
    pb_readbyte-buffer errmsg b rest left,
    merge_byte32_low result bitpos b (omega arith) g,
    continued b e,
    advanced,
    fits,
  )
    where
      advanced : next_bitpos bitpos ≡ bitpos + 7
      advanced = omega arith

      fits : (result + b % 128 * 2 ^ bitpos) % 2 ^ 32 ≡ result + b % 128 * 2 ^ bitpos
      fits =
          mod-eq_of_lt
            (omega (arith, seven_more result bitpos b g, pow-le-pow_right {n = 2} (omega arith) h))

varint32_loop-groups :
    (front : List ℕ) (last : ℕ) (rest : List ℕ) (left : ℕ) (errmsg : Option Message)
    (fuel result bitpos : ℕ)
    → All IsContinued front
    → last < 128
    → bitpos + 7 * length front ≤ 28
    → result < 2 ^ bitpos
    → length front < fuel
    → result + groups (front ++ (last ∷ [])) * 2 ^ bitpos < 2 ^ 32
    → varint32_loop fuel result bitpos
        (reading (front ++ (last ∷ rest)) (length front + suc left) errmsg)
      ≡ (ok (result + groups (front ++ (last ∷ [])) * 2 ^ bitpos), reading rest left errmsg)
varint32_loop-groups front last rest left errmsg zero result bitpos hf hl h g k w =
    absurd (omega arith)
varint32_loop-groups [] last rest left errmsg (suc fuel) result bitpos hf hl h g k w = rw zero-add (
    last_round32 rest left errmsg fuel result bitpos last (omega arith) g hl (omega (arith, value))
    ∙ ap (gives rest left errmsg) value)
  where
    low : last ≡ last % 128 + 0
    low = omega arith

    value : result + last * 2 ^ bitpos ≡ result + (last % 128 + 0) * 2 ^ bitpos
    value = ap (λ (t : ℕ). result + t * 2 ^ bitpos) low
varint32_loop-groups (b ∷ front) last rest left errmsg (suc fuel) result bitpos hf hl h g k w =
    rw counted (
      inner_round32 (front ++ (last ∷ rest)) (length front + suc left) errmsg fuel result bitpos b
        (omega arith) g hf.0
      ∙ varint32_loop-groups front last rest left errmsg fuel _ (bitpos + 7) hf.1 hl (omega arith)
          (seven_more result bitpos b g) (omega arith) (omega (arith, value))
      ∙ ap (gives rest left errmsg) value)
  where
    later : ℕ
    later = groups (front ++ (last ∷ []))

    counted : suc (length front) + suc left ≡ suc (length front + suc left)
    counted = omega arith

    value :
        (result + b % 128 * 2 ^ bitpos) + later * 2 ^ (bitpos + 7)
        ≡ result + (b % 128 + 128 * later) * 2 ^ bitpos
    value = omega (arith, ap (λ (t : ℕ). later * t) (pow-add bitpos 7))

-- On a buffer at a varint of at most five bytes, all but the last with the high bit and the last
-- without, whose groups of seven bits stand for a number below 2 ^ 32, `pb_decode_varint32` returns
-- that number and leaves the stream behind the varint.
pub pb_decode_varint32-groups :
    (front : List ℕ) (last : ℕ) (rest : List ℕ) (left : ℕ) (errmsg : Option Message)
    → All IsContinued front
    → last < 128
    → length front ≤ 4
    → groups (front ++ (last ∷ [])) < 2 ^ 32
    → pb_decode_varint32 (reading (front ++ (last ∷ rest)) (length front + suc left) errmsg)
      ≡ (ok (groups (front ++ (last ∷ []))), reading rest left errmsg)
unfolding pb_decode_varint32
pb_decode_varint32-groups [] last rest left errmsg hf hl h w =
    rw (zero-add, pb_readbyte-buffer errmsg last rest left, ended last hl)
      (ap (gives rest left errmsg) low)
  where
    low : last ≡ last % 128 + 0
    low = omega arith
pb_decode_varint32-groups (b ∷ front) last rest left errmsg hf hl h w =
    rw
      (
        counted,
        pb_readbyte-buffer errmsg b (front ++ (last ∷ rest)) (length front + suc left),
        continued b hf.0,
        bit_and_0x7f b,
      )
      (varint32_loop-groups front last rest left errmsg (suc (length front + suc left)) (b % 128) 7
          hf.1 hl (omega arith) (omega arith) (omega arith) (omega (arith, value))
        ∙ ap (gives rest left errmsg) value)
  where
    counted : suc (length front) + suc left ≡ suc (length front + suc left)
    counted = omega arith

    value :
        b % 128 + groups (front ++ (last ∷ [])) * 2 ^ 7
        ≡ b % 128 + 128 * groups (front ++ (last ∷ []))
    value = omega arith
