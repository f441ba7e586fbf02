-- ===== src/Tests/Base64.antt =====
-- Runs of fbase64.c, and its theorems at concrete arguments.
use thermo_check.Common.{
  ℕ, ◌+◌, ◌%◌, ◌^◌, ◌≤◌, ◌<◌, ◌≡◌, refl, ◌⊎◌, inl, inr, Bool, true, false, not, ◌||◌, ◌&&◌, none,
  some, List, [], ◌∷◌, ◌++◌, length, drop, leb, ◌==◌, All, Bool-cases, arith,
}
use thermo_check.Common.Exec.{ok, failed}
use thermo_check.Base64.{f_b64_ntop, f_b64_pton, base64, pad64}
use thermo_check.Base64.Buffers.{codes}
use thermo_check.Base64.Groups.{size, encoded}
use thermo_check.Base64.Encode.{Refused, f_b64_ntop-encoded}
use thermo_check.Base64.Sound.{Returns, Count, f_b64_pton-Returns}
use thermo_check.Base64.RoundTrip.{f_b64_pton-f_b64_ntop}

-- `isspace` in the C locale.
abbrev is_space : ℕ → Bool
is_space ch = ch == 0x20 || (leb 9 ch && leb ch 13)

none_space : List ℕ → Bool
none_space [] = true
none_space (ch ∷ text) = not (is_space ch) && none_space text

none_space-All : (text : List ℕ) → none_space text ≡ true → All (λ ch. is_space ch ≡ false) text
unfolding none_space
none_space-All [] h = tt
none_space-All (ch ∷ text) h = elim (Bool-cases (is_space ch)) [
  | inl space ↦ absurd (cc (h, space))
  | inr other ↦ (other, none_space-All text (rw other at h))
]

printing : All (λ ch. is_space ch ≡ false) (pad64 ∷ base64)
unfolding none_space
printing = none_space-All (pad64 ∷ base64) refl

abbrev two_letters : List ℕ
two_letters = codes "Ma"

abbrev nine_zeros : List ℕ
nine_zeros = 0 ∷ 0 ∷ 0 ∷ 0 ∷ 0 ∷ 0 ∷ 0 ∷ 0 ∷ 0 ∷ []

abbrev four_ones : List ℕ
four_ones = 1 ∷ 1 ∷ 1 ∷ 1 ∷ []

ntop_run : f_b64_ntop two_letters 9 nine_zeros ≡ (ok 4, codes "TWE=" ++ 0 ∷ 0 ∷ 0 ∷ 0 ∷ 0 ∷ [])
unfolding f_b64_ntop
ntop_run = refl

pton_run :
    f_b64_pton is_space (codes "TW E =\n" ++ 0 ∷ []) 4 (some four_ones)
    ≡ (ok 2, some (77 ∷ 97 ∷ 0 ∷ 1 ∷ []))
unfolding f_b64_pton
pton_run = refl

-- A null pointer, and bits behind the last byte.
pton_null_run : f_b64_pton is_space (codes "TWFu" ++ 0 ∷ []) 0 none ≡ (ok 3, none)
unfolding f_b64_pton
pton_null_run = refl

pton_extra_run :
    f_b64_pton is_space (codes "TWF=" ++ 0 ∷ []) 4 (some four_ones)
    ≡ (failed, some (77 ∷ 97 ∷ 64 ∷ 1 ∷ []))
unfolding f_b64_pton
pton_extra_run = refl

f_b64_pton-f_b64_ntop_example :
    (string rest : List ℕ) × (f_b64_ntop two_letters 9 nine_zeros ≡ (ok (size 2), string))
    × (f_b64_pton is_space string 4 (some four_ones) ≡ (ok 2, some (two_letters ++ rest)))
    × (length (two_letters ++ rest) ≡ 4)
f_b64_pton-f_b64_ntop_example =
    f_b64_pton-f_b64_ntop is_space two_letters nine_zeros four_ones 9 4 printing (omega arith) refl
      (omega arith) (omega arith) refl (omega arith)

f_b64_ntop-encoded_example :
    ((size 2 < 9)
      × (f_b64_ntop two_letters 9 nine_zeros
          ≡ (ok (size 2 % 2 ^ 32), encoded two_letters ++ 0 ∷ drop (size 2 + 1) nine_zeros)))
    ⊎ ((9 ≤ size 2) × Refused 9 (f_b64_ntop two_letters 9 nine_zeros))
f_b64_ntop-encoded_example =
    f_b64_ntop-encoded two_letters nine_zeros 9 (omega arith) refl (omega arith)

-- The text "T", a break and a pad.
abbrev broken_text : List ℕ
broken_text = 84 ∷ 10 ∷ 61 ∷ 0 ∷ []

f_b64_pton-Returns_example :
    Returns 4 (Count 4) (f_b64_pton is_space broken_text 4 (some four_ones))
f_b64_pton-Returns_example =
    f_b64_pton-Returns is_space 4 broken_text (some four_ones) (inr (inr (inr (inl refl)))) refl
