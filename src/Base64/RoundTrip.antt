-- ===== src/Base64/RoundTrip.antt =====
-- What `f_b64_ntop` writes is what `f_b64_pton` reads.
use mathlib.Core.List.{append_assoc, append-nil}
use native.Mathlib.Nat.{mod-eq_of_lt, zero-add, add-zero}
use thermo_check.Common.{
  ℕ, ◌+◌, ◌*◌, ◌/◌, ◌%◌, ◌^◌, ◌<◌, ◌≡◌, refl, sym, ap, bit_and, ◌∙◌, Bool, false, some, inl, inr,
  List, [], ◌∷◌, ◌++◌, length, length-append, drop, All, arith,
}
use thermo_check.Common.Exec.{ok}
use thermo_check.Base64.{
  digits0, digits3, at_end, pton_from, f_b64_ntop, f_b64_pton, base64, pad64, digit,
}
use thermo_check.Base64.Groups.{IsByte, number, encoded, size}
use thermo_check.Base64.Encode.{f_b64_ntop-encoded}
use thermo_check.Base64.Bytes.{
  byte_a, byte_b, byte_c, extra_one, extra_two, two_digits, third_digit, fourth_digit, two_pads,
  one_pad,
}

onward : (written f : List ℕ) (a : ℕ) → written ++ a ∷ f ≡ (written ++ a ∷ []) ++ f
onward written f a = sym (append_assoc written (a ∷ []) f)

length-onward :
    (written : List ℕ) (a i : ℕ) → length written ≡ i → length (written ++ a ∷ []) ≡ i + 1
length-onward written a i at = omega (arith, length-append written (a ∷ []))

module _ (isspace : ℕ → Bool) (printing : All (λ ch. isspace ch ≡ false) base64)
    (pad_printing : isspace pad64 ≡ false) (n : ℕ) (after : List ℕ) where
  one_byte :
      (written f : List ℕ) (i a x y : ℕ)
      → length written ≡ i
      → i + 1 < 2 ^ 32
      → i + 1 < n
      → IsByte a
      → pton_from isspace n digits0 i (encoded (a ∷ []) ++ 0 ∷ after) (some (written ++ x ∷ y ∷ f))
        ≡ (ok (i + 1), some ((written ++ a ∷ []) ++ 0 ∷ f))
  unfolding encoded
  one_byte written f i a x y at in_32 room ha =
      two_digits isspace printing pad_printing n written _ f i (number a 0 0 / 262144)
        (number a 0 0 / 4096 % 64) x y at in_32 room (omega arith) (omega arith)
      ∙ rw (byte_a a 0 0 ha (omega arith) (omega arith), extra_one a, onward written (0 ∷ f) a)
          (two_pads isspace printing pad_printing n (written ++ a ∷ []) after f (i + 1)
            (length-onward written a i at))

  -- Three digits give two bytes, and what is left of the third digit.
  three_digits :
      (written src f : List ℕ) (i a b c x y z : ℕ)
      → length written ≡ i
      → i + 2 < 2 ^ 32
      → i + 2 < n
      → IsByte a
      → IsByte b
      → IsByte c
      → pton_from isspace n digits0 i
          (digit (number a b c / 262144)
            ∷ digit (number a b c / 4096 % 64)
            ∷ digit (number a b c / 64 % 64)
            ∷ src)
          (some (written ++ x ∷ y ∷ z ∷ f))
        ≡ pton_from isspace n digits3 (i + 2) src (
            some
              ((written ++ a ∷ b ∷ []) ++ (bit_and (number a b c / 64 % 64) 0x03 * 64 % 256) ∷ f))
  three_digits written src f i a b c x y z at in_32 room ha hb hc =
      two_digits isspace printing pad_printing n written _ (z ∷ f) i (number a b c / 262144)
        (number a b c / 4096 % 64) x y at (omega arith) (omega arith) (omega arith) (omega arith)
      ∙ rw (byte_a a b c ha hb hc, onward written (_ ∷ z ∷ f) a)
          (third_digit isspace printing pad_printing n (written ++ a ∷ []) src f (i + 1)
              (number a b c / 64 % 64) _ z (length-onward written a i at) (omega arith)
              (omega arith) (omega arith)
            ∙ rw (byte_b a b c ha hb hc, onward (written ++ a ∷ []) (_ ∷ f) b, both, index) refl)
    where
      both : (written ++ a ∷ []) ++ b ∷ [] ≡ written ++ a ∷ b ∷ []
      both = append_assoc written (a ∷ []) (b ∷ [])

      index : i + 1 + 1 ≡ i + 2
      index = omega arith

  two_bytes :
      (written f : List ℕ) (i a b x y z : ℕ)
      → length written ≡ i
      → i + 2 < 2 ^ 32
      → i + 2 < n
      → IsByte a
      → IsByte b
      → pton_from isspace n digits0 i
          (encoded (a ∷ b ∷ []) ++ 0 ∷ after)
          (some (written ++ x ∷ y ∷ z ∷ f))
        ≡ (ok (i + 2), some ((written ++ a ∷ b ∷ []) ++ 0 ∷ f))
  unfolding encoded
  two_bytes written f i a b x y z at in_32 room ha hb =
      three_digits written (pad64 ∷ 0 ∷ after) f i a b 0 x y z at in_32 room ha hb (omega arith)
      ∙ rw (extra_two a b) (
          one_pad isspace printing pad_printing n (written ++ a ∷ b ∷ []) after f (i + 2)
            (omega (arith, length-append written (a ∷ b ∷ []))))

  three_bytes :
      (written src f : List ℕ) (i a b c x y z : ℕ)
      → length written ≡ i
      → i + 3 < 2 ^ 32
      → i + 3 < n
      → IsByte a
      → IsByte b
      → IsByte c
      → pton_from isspace n digits0 i
          (encoded (a ∷ b ∷ c ∷ src) ++ 0 ∷ after)
          (some (written ++ x ∷ y ∷ z ∷ f))
        ≡ pton_from isspace n digits0
            (i + 3)
            (encoded src ++ 0 ∷ after)
            (some ((written ++ a ∷ b ∷ c ∷ []) ++ f))
  unfolding encoded
  three_bytes written src f i a b c x y z at in_32 room ha hb hc =
      three_digits written _ f i a b c x y z at (omega arith) (omega arith) ha hb hc
      ∙ fourth_digit isspace printing pad_printing n (written ++ a ∷ b ∷ [])
          (encoded src ++ 0 ∷ after) f (i + 2) (number a b c % 64) _
          (omega (arith, length-append written (a ∷ b ∷ []))) (omega arith) (omega arith)
          (omega arith)
      ∙ rw (byte_c a b c ha hb hc, onward (written ++ a ∷ b ∷ []) f c, all, index) refl
    where
      all : (written ++ a ∷ b ∷ []) ++ c ∷ [] ≡ written ++ a ∷ b ∷ c ∷ []
      all = append_assoc written (a ∷ b ∷ []) (c ∷ [])

      index : i + 2 + 1 ≡ i + 3
      index = omega arith

  abbrev Reads : List ℕ → List ℕ → List ℕ → ℕ → Type 0
  Reads src written free i =
      (rest : List ℕ) × (pton_from isspace n digits0 i (encoded src ++ 0 ∷ after)
          (some (written ++ free))
        ≡ (ok (i + length src), some ((written ++ src) ++ rest)))
      × (length rest + length src ≡ length free)

  no_bytes : (written free : List ℕ) (i : ℕ) → Reads [] written free i
  unfolding encoded pton_from at_end
  no_bytes written free i = (free, rw (append-nil written, add-zero i), omega arith)

  three_more :
      (a b c x y z : ℕ) (src written f : List ℕ) (i : ℕ)
      → pton_from isspace n digits0 i
          (encoded (a ∷ b ∷ c ∷ src) ++ 0 ∷ after)
          (some (written ++ x ∷ y ∷ z ∷ f))
        ≡ pton_from isspace n digits0
            (i + 3)
            (encoded src ++ 0 ∷ after)
            (some ((written ++ a ∷ b ∷ c ∷ []) ++ f))
      → Reads src (written ++ a ∷ b ∷ c ∷ []) f (i + 3)
      → Reads (a ∷ b ∷ c ∷ src) written (x ∷ y ∷ z ∷ f) i
  three_more a b c x y z src written f i p (rest, e, l) =
      (rest, p ∙ e ∙ cc (index, all), omega arith)
    where
      index : i + 3 + length src ≡ i + length (a ∷ b ∷ c ∷ src)
      index = omega arith

      all : (written ++ a ∷ b ∷ c ∷ []) ++ src ≡ written ++ a ∷ b ∷ c ∷ src
      all = append_assoc written (a ∷ b ∷ c ∷ []) src

  pton_from-encoded :
      (src written free : List ℕ) (i : ℕ)
      → All IsByte src
      → length written ≡ i
      → i + length src + 1 < 2 ^ 32
      → i + length free ≡ n
      → length src < length free
      → Reads src written free i
  pton_from-encoded [] written free i h at in_32 whole room = no_bytes written free i
  pton_from-encoded (a ∷ []) written [] i h at in_32 whole room = absurd (omega arith)
  pton_from-encoded (a ∷ []) written (x ∷ []) i h at in_32 whole room = absurd (omega arith)
  pton_from-encoded (a ∷ []) written (x ∷ y ∷ f) i h at in_32 whole room =
      (0 ∷ f, one_byte written f i a x y at (omega arith) (omega arith) h.0, omega arith)
  pton_from-encoded (a ∷ b ∷ src) written [] i h at in_32 whole room = absurd (omega arith)
  pton_from-encoded (a ∷ b ∷ src) written (x ∷ []) i h at in_32 whole room = absurd (omega arith)
  pton_from-encoded (a ∷ b ∷ src) written (x ∷ y ∷ []) i h at in_32 whole room =
      absurd (omega arith)
  pton_from-encoded (a ∷ b ∷ []) written (x ∷ y ∷ z ∷ f) i h at in_32 whole room =
      (0 ∷ f, two_bytes written f i a b x y z at (omega arith) (omega arith) h.0 h.1.0, omega arith)
  pton_from-encoded (a ∷ b ∷ c ∷ src) written (x ∷ y ∷ z ∷ f) i h at in_32 whole room =
      three_more a b c x y z src written f i
        (three_bytes written src f i a b c x y z at (omega arith) (omega arith) h.0 h.1.0 h.1.1.0)
        (pton_from-encoded src (written ++ a ∷ b ∷ c ∷ []) f (i + 3) h.1.1.1
          (omega (arith, length-append written (a ∷ b ∷ c ∷ []))) (omega arith) (omega arith)
          (omega arith))

ntop_fits :
    (src text : List ℕ) (textsize : ℕ)
    → All IsByte src
    → length text ≡ textsize
    → size (length src) < textsize
    → textsize < 2 ^ 32
    → f_b64_ntop src textsize text
      ≡ (ok (size (length src)), encoded src ++ 0 ∷ drop (size (length src) + 1) text)
ntop_fits src text textsize bytes whole fits small =
    elim (f_b64_ntop-encoded src text textsize bytes whole (omega arith)) [
      | inl (h, e) ↦
          e
          ∙ ap (λ n. (ok n, encoded src ++ 0 ∷ drop (size (length src) + 1) text))
              (mod-eq_of_lt (omega arith))
      | inr (h, refused) ↦ absurd (omega arith)
    ]

-- For an `isspace` that is false on the characters of base64 and on the pad, bytes, and a buffer of
-- less than 2 ^ 32 bytes that is longer than the four characters for every three bytes or part of
-- three, `f_b64_ntop` on the buffer returns the number of these characters and leaves a string in
-- it, from which `f_b64_pton` on a second buffer, longer than the bytes are many, whatever the
-- buffers held, returns the number of the bytes with the bytes stored at the front of the second
-- buffer, which keeps its size.
pub f_b64_pton-f_b64_ntop :
    (isspace : ℕ → Bool) (src text buf : List ℕ) (textsize targsize : ℕ)
    → All (λ ch. isspace ch ≡ false) (pad64 ∷ base64)
    → All IsByte src
    → length text ≡ textsize
    → size (length src) < textsize
    → textsize < 2 ^ 32
    → length buf ≡ targsize
    → length src < targsize
    → (string rest : List ℕ) × (f_b64_ntop src textsize text ≡ (ok (size (length src)), string))
      × (f_b64_pton isspace string targsize (some buf) ≡ (ok (length src), some (src ++ rest)))
      × (length (src ++ rest) ≡ targsize)
unfolding f_b64_pton
f_b64_pton-f_b64_ntop isspace src text buf textsize targsize printing bytes whole fits small at
      room =
    let (rest, e, l) =
      pton_from-encoded isspace printing.1 printing.0 targsize (drop (size (length src) + 1) text)
        src [] buf 0 bytes refl (omega arith) (omega arith) (omega arith) in
    (
      encoded src ++ 0 ∷ drop (size (length src) + 1) text,
      rest,
      ntop_fits src text textsize bytes whole fits small,
      e ∙ cc (zero-add (length src)),
      omega (arith, length-append src rest),
    )
