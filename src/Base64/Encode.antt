-- ===== src/Base64/Encode.antt =====
-- What `f_b64_ntop` writes, and when it has no room for it.
use mathlib.Core.List.{append-nil, append_assoc}
use thermo_check.Common.{
  ℕ, ◌+◌, ◌%◌, ◌^◌, ◌≤◌, ◌<◌, ◌≡◌, refl, ap, sym, ◌∙◌, ◌⊎◌, inl, inr, true, false, List, [], ◌∷◌,
  ◌++◌, length, length-append, length-drop, drop, drop-drop, drop-drop, ltb, leb, All, arith,
}
use native.Mathlib.Decide.{dec_lt}
use native.Mathlib.Nat.{zero-add}
use thermo_check.Common.Exec.{Outcome, ok, failed, Exec, ◌>>◌}
use thermo_check.Base64.{store_group, finish, ntop_from, f_b64_ntop}
use thermo_check.Base64.Buffers.{store_next, store_all_next}
use thermo_check.Base64.Groups.{IsByte, encoded, size, encoded_one, encoded_two, encoded_three}

-- The call failed and left a buffer of the size that it had.
abbrev pub Refused : ℕ → Outcome ℕ × List ℕ → Type 0
Refused targsize r = (rest : List ℕ) × (r ≡ (failed, rest)) × (length rest ≡ targsize)

module _ (written free : List ℕ) (targsize d : ℕ) (at : length written ≡ d)
    (whole : d + length free ≡ targsize) (small : targsize < 2 ^ 63) where
  store_group_lem :
      (chars : List ℕ)
      → length chars ≡ 4
      → 4 ≤ length free
      → store_group targsize d chars (written ++ free) ≡ (ok tt, (written ++ chars) ++ drop 4 free)
  unfolding store_group
  store_group_lem chars four room = rw (test) (
      store_all_next chars written free d at (omega arith)
      ∙ ap (λ n. (ok tt, (written ++ chars) ++ drop n free)) four)
    where
      test : ltb targsize ((d + 4) % 2 ^ 64) ≡ false
      test = ground arith

  store_group_full :
      (chars : List ℕ)
      → length free < 4
      → store_group targsize d chars (written ++ free) ≡ (failed, written ++ free)
  unfolding store_group
  store_group_full chars full = rw (test)
    where
      test : ltb targsize ((d + 4) % 2 ^ 64) ≡ true
      test = ground arith

  finish_full : length free ≡ 0 → finish targsize d (written ++ free) ≡ (failed, written ++ free)
  unfolding finish
  finish_full full = rw (test)
    where
      test : leb targsize d ≡ true
      test = ground arith

finish_lem :
    (written free : List ℕ) (targsize d : ℕ)
    → length written ≡ d
    → d + length free ≡ targsize
    → 0 < length free
    → finish targsize d (written ++ free) ≡ (ok (d % 2 ^ 32), written ++ 0 ∷ drop 1 free)
finish_lem written [] targsize d at whole room = absurd (omega arith)
finish_lem written (b ∷ free) targsize d at whole room =
    unfold finish in rw (test, store_next b 0 free written d at)
  where
    test : leb targsize d ≡ false
    test = ground arith

-- Behind `written`, of length `d`, the text of the bytes and a terminator are written where they fit.
abbrev Result : List ℕ → List ℕ → List ℕ → ℕ → ℕ → Outcome ℕ × List ℕ → Type 0
Result src written free targsize d r =
    ((size (length src) < length free)
      × (r ≡ (
        ok ((d + size (length src)) % 2 ^ 32),
        (written ++ encoded src) ++ 0 ∷ drop (size (length src) + 1) free,
      )))
    ⊎ ((length free ≤ size (length src)) × Refused targsize r)

-- A group, and then what `k` does for the bytes behind it.
module _ (src rest chars : List ℕ) (four : length chars ≡ 4) (k : Exec (List ℕ) ℕ)
    (text : encoded src ≡ chars ++ encoded rest)
    (more : size (length src) ≡ 4 + size (length rest)) where
  group_then :
      (written free : List ℕ) (targsize d : ℕ)
      → length written ≡ d
      → d + length free ≡ targsize
      → targsize < 2 ^ 63
      → (4 ≤ length free
          → Result rest
              (written ++ chars)
              (drop 4 free)
              targsize
              (d + 4)
              (k ((written ++ chars) ++ drop 4 free)))
      → Result src written free targsize d ((store_group targsize d chars >> k) (written ++ free))
  group_then written free targsize d at whole small ih = elim (dec_lt (length free) 4) [
    | yes full ↦ inr (
      omega arith,
      (
        written ++ free,
        rw (store_group_full written free targsize d at whole small chars full),
        omega (arith, length-append written free),
      ),
    )
    | no room ↦
        rw (store_group_lem written free targsize d at whole small chars four (omega arith))
          (after (ih (omega arith)))
  ]
    where
      after :
          {r : Outcome ℕ × List ℕ}
          → Result rest (written ++ chars) (drop 4 free) targsize (d + 4) r
          → Result src written free targsize d r
      after (inl (fits, e)) = inl (omega (arith, length-drop 4 free), cc (count, behind, remains))
        where
          count : d + 4 + size (length rest) ≡ d + size (length src)
          count = omega arith

          behind : (written ++ chars) ++ encoded rest ≡ written ++ encoded src
          behind = append_assoc written chars (encoded rest) ∙ ap (λ t. written ++ t) (sym text)

          remains : drop (size (length rest) + 1) (drop 4 free) ≡ drop (size (length src) + 1) free
          remains = drop-drop 4 (size (length rest) + 1) free ∙ ap (λ n. drop n free) (omega arith)
      after (inr (less, refused)) = inr (omega (arith, length-drop 4 free), refused)

-- The bytes of the last group, and the end.
ends_here :
    (written free : List ℕ) (targsize d : ℕ)
    → length written ≡ d
    → d + length free ≡ targsize
    → targsize < 2 ^ 63
    → Result [] written free targsize d (finish targsize d (written ++ free))
ends_here written free targsize d at whole small = elim (dec_lt 0 (length free)) [
  | yes room ↦
      inl (omega arith, finish_lem written free targsize d at whole room ∙ cc (count, nothing))
  | no full ↦ inr (
    omega arith,
    (
      written ++ free,
      finish_full written free targsize d at whole small (omega arith),
      omega (arith, length-append written free),
    ),
  )
]
  where
    count : d + size (length {A = ℕ} []) ≡ d
    count = omega arith

    nothing : written ++ encoded [] ≡ written
    nothing = unfold encoded in append-nil written

module _ (targsize : ℕ) (small : targsize < 2 ^ 63) where
  ntop_from_lem :
      (src written free : List ℕ) (d : ℕ)
      → All IsByte src
      → length written ≡ d
      → d + length free ≡ targsize
      → Result src written free targsize d (ntop_from targsize d src (written ++ free))
  unfolding ntop_from
  ntop_from_lem [] written free d h at whole = ends_here written free targsize d at whole small
  ntop_from_lem (a ∷ []) written free d h at whole =
      group_then (a ∷ []) [] _ refl _ (encoded_one a h.0) (omega arith) written free targsize d at
        whole small
        (λ room.
          ends_here _ _ targsize (d + 4) (omega (arith, length-append written _))
            (omega (arith, length-drop 4 free)) small)
  ntop_from_lem (a ∷ b ∷ []) written free d h at whole =
      group_then (a ∷ b ∷ []) [] _ refl _ (encoded_two a b h.0 h.1.0) (omega arith) written free
        targsize d at whole small
        (λ room.
          ends_here _ _ targsize (d + 4) (omega (arith, length-append written _))
            (omega (arith, length-drop 4 free)) small)
  ntop_from_lem (a ∷ b ∷ c ∷ src) written free d h at whole =
      group_then (a ∷ b ∷ c ∷ src) src _ refl _ (encoded_three a b c src h.0 h.1.0 h.1.1.0)
        (omega arith) written free targsize d at whole small
        (λ room.
          ntop_from_lem src _ _ (d + 4) h.1.1.1 (omega (arith, length-append written _))
            (omega (arith, length-drop 4 free)))

-- For bytes and a buffer of less than 2 ^ 63 bytes, `f_b64_ntop` with the buffer's size either has
-- room for the text of the bytes as RFC 1521 has it, the digits of 24-bit numbers with pads, and a
-- terminator, stores these at the front of the buffer, leaves what is behind them and returns the
-- length of the text modulo 2 ^ 32, or it has no room, returns -1 and leaves the buffer with its
-- size, having stored nothing outside it.
pub f_b64_ntop-encoded :
    (src target : List ℕ) (targsize : ℕ)
    → All IsByte src
    → length target ≡ targsize
    → targsize < 2 ^ 63
    → ((size (length src) < targsize)
        × (f_b64_ntop src targsize target ≡ (
          ok (size (length src) % 2 ^ 32),
          encoded src ++ 0 ∷ drop (size (length src) + 1) target,
        )))
      ⊎ ((targsize ≤ size (length src)) × Refused targsize (f_b64_ntop src targsize target))
unfolding f_b64_ntop
f_b64_ntop-encoded src target targsize h whole small =
    rw (whole, zero-add (size (length src))) at
      (ntop_from_lem targsize small src [] target 0 h refl (omega arith))
