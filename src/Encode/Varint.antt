-- ===== src/Encode/Varint.antt =====
-- `pb_encode_varint` writes the base-128 digits of a number.
use mathlib.Core.Option
use mathlib.Core.Path.{fun_ext}
use native.Mathlib.Nat.{pow-suc}
use thermo_check.Common.{
  ℕ, zero, suc, ◌+◌, ◌/◌, ◌%◌, ◌^◌, ◌≤◌, ◌<◌, ◌≡◌, refl, ap, false, Option, none, some, List, [],
  ◌∷◌, ◌++◌, inl, inr, length, All, ltb, leb, ◌==◌, lt→ltb, if◌then◌else◌, bit_and, bit_or, arith,
  Bool-cases,
}
use thermo_check.Common.Bits.{bit_and_0x7f, bit_or_0x80}
use thermo_check.Output.{pb_write}
use thermo_check.Output.Emits.{Emits, pb_write-Emits}
use thermo_check.Encode.{fill, unset_last, varint_buffer, pb_encode_varint}
use thermo_check.Varint.Groups.{groups, IsContinued}

-- The base-128 digits of `v`, for `v` below `128 ^ (k + 1)`: all but the highest, with the
-- continuation bit, and the highest.
unfoldable pub leading : ℕ → ℕ → List ℕ
leading zero v = []
leading (suc k) v =
    let more = leading k (v / 128) in if ltb v 128 then [] else (v % 128 + 128) ∷ more

unfoldable pub highest : ℕ → ℕ → ℕ
highest zero v = v
highest (suc k) v = let more = highest k (v / 128) in if ltb v 128 then v else more

abbrev pub digits : ℕ → ℕ → List ℕ
digits k v = leading k v ++ (highest k v ∷ [])

-- The varint of a 64-bit word.
abbrev pub varint : ℕ → List ℕ
varint v = digits 9 v

pub leading-IsContinued : (k v : ℕ) → All IsContinued (leading k v)
unfolding leading
leading-IsContinued zero v = tt
leading-IsContinued (suc k) v = ground (arith, leading-IsContinued k (v / 128))

pub highest-lt : (k v : ℕ) → v < 128 ^ suc k → highest k v < 128
unfolding highest
highest-lt zero v h = omega arith
highest-lt (suc k) v h = ground (arith, pow-suc 128 (suc k), highest-lt k (v / 128))

pub length-leading : (k v : ℕ) → length (leading k v) ≤ k
unfolding leading
length-leading zero v = omega arith
length-leading (suc k) v = ground (arith, length-leading k (v / 128))

-- The digits stand for the number.
pub groups-digits : (k v : ℕ) → v < 128 ^ suc k → groups (digits k v) ≡ v
unfolding leading highest
groups-digits zero v h = omega arith
groups-digits (suc k) v h = elim (Bool-cases (ltb v 128)) [
  | inl e ↦ rw e (ground arith)
  | inr e ↦ rw e (
      omega (
        arith,
        pow-suc 128 (suc k),
        groups-digits k (v / 128) (omega (arith, pow-suc 128 (suc k))),
      ))
]

fill_none : (room : ℕ) → fill room 0 ≡ some []
unfolding fill
fill_none zero = refl
fill_none (suc room) = refl

unset_pushed :
    (c : ℕ) (o : Option (List ℕ)) (bytes : List ℕ)
    → Option.bind o unset_last ≡ some bytes
    → Option.bind (Option.map (λ r. c ∷ r) o) unset_last ≡ some (c ∷ bytes)
unfolding unset_last Option.bind
unset_pushed c none bytes e = cc
unset_pushed c (some []) bytes e = cc
unset_pushed c (some (x ∷ xs)) bytes e = ap (Option.map (λ r. c ∷ r)) e

-- Seven bits of `v` with the continuation bit.
inner_byte : (v : ℕ) → bit_or (bit_and v 0x7f) 0x80 ≡ v % 128 + 128
inner_byte v = rw (bit_and_0x7f v) (bit_or_0x80 (v % 128) (omega arith))

fill_last :
    (room v : ℕ) → 0 < v → v < 128 → Option.bind (fill (suc room) v) unset_last ≡ some (v ∷ [])
unfolding fill unset_last Option.bind
fill_last room v p h = rw (goes_on, nothing_left, fill_none, inner_byte v, bit_and_0x7f, digit)
  where
    goes_on : (v == 0) ≡ false
    goes_on = ground arith

    nothing_left : v / 128 ≡ 0
    nothing_left = omega arith

    digit : (v % 128 + 128) % 128 ≡ v
    digit = omega arith

fill_inner :
    (room v : ℕ)
    → 128 ≤ v
    → fill (suc room) v ≡ Option.map (λ r. (v % 128 + 128) ∷ r) (fill room (v / 128))
unfolding fill
fill_inner room v h = rw (goes_on, inner_byte v)
  where
    goes_on : (v == 0) ≡ false
    goes_on = ground arith

buffer_digits :
    (k room v : ℕ)
    → 0 < v
    → v < 128 ^ suc k
    → k < room
    → Option.bind (fill room v) unset_last ≡ some (digits k v)
unfolding leading highest
buffer_digits k zero v p h r = absurd (omega arith)
buffer_digits zero (suc room) v p h r = fill_last room v p (omega arith)
buffer_digits (suc k) (suc room) v p h r = elim (Bool-cases (ltb v 128)) [
  | inl e ↦ rw e (fill_last room v p (ground arith))
  | inr e ↦
      rw (e, fill_inner room v (ground arith))
        (unset_pushed (v % 128 + 128) (fill room (v / 128)) (digits k (v / 128)) (
          buffer_digits k room (v / 128) (ground arith) (omega (arith, pow-suc 128 (suc k)))
            (omega arith)))
]

varint_small : (v : ℕ) → v < 128 → varint v ≡ v ∷ []
unfolding leading highest
varint_small v h = rw (lt→ltb v 128 h)

pub pb_encode_varint-eq :
    (v : ℕ) → v < 2 ^ 64 → pb_encode_varint v ≡ pb_write (varint v) (length (varint v))
unfolding pb_encode_varint varint_buffer
pb_encode_varint-eq v h = elim (Bool-cases (leb v 0x7f)) [
  | inl e ↦ rw (e, varint_small v (ground arith), low (ground arith))
  | inr e ↦
      rw (e, buffer_digits 9 10 v (ground arith) (omega arith) (omega arith)) (fun_ext λ s. refl)
]
  where
    low : v < 128 → v % 256 ≡ v
    low k = omega arith

-- `pb_encode_varint` writes the varint of every 64-bit word, ten bytes at most, and its loop stays
-- within `buffer`.
pub pb_encode_varint-Emits : (v : ℕ) → v < 2 ^ 64 → Emits (varint v) (pb_encode_varint v)
pb_encode_varint-Emits v h = rw (pb_encode_varint-eq v h) (pb_write-Emits (varint v))
