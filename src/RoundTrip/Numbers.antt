-- ===== src/RoundTrip/Numbers.antt =====
-- Round trips of varints, zigzag numbers and fixed-width numbers.
use native.Mathlib.Nat.{pow-suc}
use mathlib.Core.List.{append_assoc}
use thermo_check.Common.{
  ℕ, zero, suc, ◌+◌, ◌*◌, ◌/◌, ◌%◌, ◌^◌, ◌≤◌, ◌<◌, ◌≡◌, refl, ap, ◌∙◌, Option, List, [], ◌∷◌, ◌++◌,
  inl, inr, length, length-append, All, leb, arith, Bool-cases,
}
use thermo_check.Common.Bits.{bit_and_one, bit_and_0xff}
use thermo_check.Common.Words.{complement, from_bytes, join_bytes, join_bytes-from_bytes}
use thermo_check.Common.Exec.{pure, ◌>>=◌}
use thermo_check.Message.{Message}
use thermo_check.Input.{Decoder, pb_read}
use thermo_check.Input.Buffer.{reading, gives, pb_read-buffer}
use thermo_check.Output.{pb_write}
use thermo_check.Output.Emits.{Emits, pb_write-Emits}
use thermo_check.Varint.{pb_decode_varint, pb_decode_varint32}
use thermo_check.Varint.Groups.{groups, pb_decode_varint-groups}
use thermo_check.Varint.Groups32.{pb_decode_varint32-groups}
use thermo_check.Encode.{
  pb_encode_varint, zigzag, pb_encode_svarint, pb_encode_fixed32, pb_encode_fixed64,
}
use thermo_check.Encode.Varint.{
  leading, highest, varint, leading-IsContinued, highest-lt, length-leading, groups-digits,
  pb_encode_varint-Emits,
}
use thermo_check.Decode.{unzigzag, pb_decode_svarint, pb_decode_fixed32, pb_decode_fixed64}
use thermo_check.RoundTrip.{Reads, Setting, HasRoom, Transfers, transfers}

-- The stream over a varint, in the form of the decoders' lemmas.
split_stream :
    (front : List ℕ) (last : ℕ) (rest : List ℕ) (left : ℕ) (own : Option Message)
    → reading ((front ++ (last ∷ [])) ++ rest) (length (front ++ (last ∷ [])) + left) own
      ≡ reading (front ++ (last ∷ rest)) (length front + suc left) own
split_stream front last rest left own = rw (append_assoc front (last ∷ []) rest, count)
  where
    count : length (front ++ (last ∷ [])) + left ≡ length front + suc left
    count = omega (arith, length-append front (last ∷ []))

pub varint-Reads : (v : ℕ) → v < 2 ^ 64 → Reads (varint v) pb_decode_varint v
varint-Reads v h rest left own = rw (split_stream (leading 9 v) (highest 9 v) rest left own) (
    pb_decode_varint-groups (leading 9 v) (highest 9 v) rest left own (leading-IsContinued 9 v)
      (highest-lt 9 v (omega arith)) (length-leading 9 v)
    ∙ ap (gives rest left own) value)
  where
    value : groups (varint v) % 2 ^ 64 ≡ v
    value = omega (arith, groups-digits 9 v (omega arith))

pub length-varint : (v : ℕ) → length (varint v) ≤ 10
length-varint v = omega (arith, length-append (leading 9 v) (highest 9 v ∷ []), length-leading 9 v)

-- For every 64-bit word, `pb_encode_varint` on a stream over memory with room for ten bytes
-- succeeds and appends bytes to the memory, from which `pb_decode_varint` reads the word back,
-- stopping behind them.
pub pb_decode_varint-pb_encode_varint :
    (v : ℕ) (s : Setting)
    → v < 2 ^ 64
    → HasRoom 10 s
    → Transfers s (pb_encode_varint v) pb_decode_varint v
pb_decode_varint-pb_encode_varint v s h r =
    transfers s 10 (varint v) (pb_encode_varint v) pb_decode_varint v (pb_encode_varint-Emits v h)
      (varint-Reads v h) (length-varint v) r

leading_fits : (j k v : ℕ) → v < 128 ^ suc j → length (leading k v) ≤ j
unfolding leading
leading_fits j zero v h = omega arith
leading_fits zero (suc k) v h = ground arith
leading_fits (suc j) (suc k) v h =
    ground (arith, leading_fits j k (v / 128) (omega (arith, pow-suc 128 (suc j))))

pub varint32-Reads : (v : ℕ) → v < 2 ^ 32 → Reads (varint v) pb_decode_varint32 v
varint32-Reads v h rest left own = rw (split_stream (leading 9 v) (highest 9 v) rest left own) (
    pb_decode_varint32-groups (leading 9 v) (highest 9 v) rest left own (leading-IsContinued 9 v)
      (highest-lt 9 v (omega arith)) (leading_fits 4 9 v (omega arith)) (omega (arith, value))
    ∙ ap (gives rest left own) value)
  where
    value : groups (varint v) ≡ v
    value = groups-digits 9 v (omega arith)

-- For every 32-bit word, `pb_encode_varint` on a stream over memory with room for ten bytes
-- succeeds and appends bytes to the memory, from which `pb_decode_varint32` reads the word back,
-- stopping behind them.
pub pb_decode_varint32-pb_encode_varint :
    (v : ℕ) (s : Setting)
    → v < 2 ^ 32
    → HasRoom 10 s
    → Transfers s (pb_encode_varint v) pb_decode_varint32 v
pb_decode_varint32-pb_encode_varint v s h r =
    transfers s 10 (varint v) (pb_encode_varint v) pb_decode_varint32 v
      (pb_encode_varint-Emits v (omega arith)) (varint32-Reads v h) (length-varint v) r

-- A value that is computed from what was read.
pub Reads-map :
    {A B : Type 0} (bytes : List ℕ) (dec : Decoder A) (f : A → B) (a : A)
    → Reads bytes dec a
    → Reads bytes (dec >>= λ x. pure (f x)) (f a)
Reads-map bytes dec f a h rest left own = rw (h rest left own)

-- Zigzag coding of a 64-bit word stays in 64 bits and is undone.
pub zigzag-lt : (v : ℕ) → v < 2 ^ 64 → zigzag v < 2 ^ 64
unfolding zigzag
zigzag-lt v h = ground arith

pub unzigzag-zigzag : (v : ℕ) → v < 2 ^ 64 → unzigzag (zigzag v) ≡ v
unfolding unzigzag zigzag
unzigzag-zigzag v h = elim (Bool-cases (leb (2 ^ 63) v)) [
  | inl e ↦ rw e (ground (arith, bit_and_one (complement (v * 2 % 2 ^ 64))))
  | inr e ↦ rw e (ground (arith, bit_and_one (v * 2 % 2 ^ 64)))
]

pub svarint-Reads : (v : ℕ) → v < 2 ^ 64 → Reads (varint (zigzag v)) pb_decode_svarint v
unfolding pb_decode_svarint
svarint-Reads v h rest left own =
    rw (varint-Reads (zigzag v) (zigzag-lt v h) rest left own)
      (ap (gives rest left own) (unzigzag-zigzag v h))

-- For every `int64_t`, as its 64-bit word, `pb_encode_svarint` on a stream over memory with room
-- for ten bytes succeeds and appends bytes, from which `pb_decode_svarint` reads the word back,
-- stopping behind them.
pub pb_decode_svarint-pb_encode_svarint :
    (v : ℕ) (s : Setting)
    → v < 2 ^ 64
    → HasRoom 10 s
    → Transfers s (pb_encode_svarint v) pb_decode_svarint v
unfolding pb_encode_svarint
pb_decode_svarint-pb_encode_svarint v s h r =
    transfers s 10 (varint (zigzag v)) (pb_encode_varint (zigzag v)) pb_decode_svarint v
      (pb_encode_varint-Emits (zigzag v) (zigzag-lt v h)) (svarint-Reads v h)
      (length-varint (zigzag v)) r

-- The bytes of a word, lowest first.
abbrev pub le_bytes : ℕ → ℕ → List ℕ
le_bytes zero v = []
le_bytes (suc n) v = v % 256 ∷ le_bytes n (v / 256)

le_bytes-IsByte : (n v : ℕ) → All (λ b. b < 256) (le_bytes n v)
le_bytes-IsByte zero v = tt
le_bytes-IsByte (suc n) v = (omega arith, le_bytes-IsByte n (v / 256))

length-le_bytes : (n v : ℕ) → length (le_bytes n v) ≡ n
length-le_bytes zero v = refl
length-le_bytes (suc n) v = ap suc (length-le_bytes n (v / 256))

from_bytes-le_bytes : (n v : ℕ) → v < 256 ^ n → from_bytes (le_bytes n v) ≡ v
from_bytes-le_bytes zero v h = omega arith
from_bytes-le_bytes (suc n) v h =
    omega (arith, pow-suc 256 n, from_bytes-le_bytes n (v / 256) (omega (arith, pow-suc 256 n)))

join_le_bytes : (n w v : ℕ) → v < 256 ^ n → 8 * n ≤ w → join_bytes w 0 0 (le_bytes n v) ≡ v
join_le_bytes n w v h k =
    join_bytes-from_bytes w 0 0 (le_bytes n v) (le_bytes-IsByte n v) (omega arith)
      (omega (arith, length-le_bytes n v))
    ∙ omega (arith, from_bytes-le_bytes n v h)

fixed-Reads :
    (n w v : ℕ)
    → v < 256 ^ n
    → 8 * n ≤ w
    → Reads (le_bytes n v) (pb_read n >>= λ bytes. pure (join_bytes w 0 0 bytes)) v
fixed-Reads n w v h k rest left own = rw (length-le_bytes n v) (
    rw (pb_read-buffer own n (le_bytes n v) rest left (length-le_bytes n v))
      (ap (gives rest left own) (join_le_bytes n w v h k)))

third_byte : (v : ℕ) → v / 2 ^ 16 ≡ v / 256 / 256
third_byte v = omega arith

fourth_byte : (v : ℕ) → v / 2 ^ 24 ≡ v / 256 / 256 / 256
fourth_byte v = omega arith

fixed32_bytes : (v : ℕ) → pb_encode_fixed32 v ≡ pb_write (le_bytes 4 v) 4
unfolding pb_encode_fixed32
fixed32_bytes v = simp (bit_and_0xff, third_byte v, fourth_byte v)

fixed64_bytes : (v : ℕ) → pb_encode_fixed64 v ≡ pb_write (le_bytes 8 v) 8
unfolding pb_encode_fixed64
fixed64_bytes v =
    simp
      (bit_and_0xff, third_byte v, fourth_byte v, fifth_byte, sixth_byte, seventh_byte, eighth_byte)
  where
    fifth_byte : v / 2 ^ 32 ≡ v / 256 / 256 / 256 / 256
    fifth_byte = omega arith

    sixth_byte : v / 2 ^ 40 ≡ v / 256 / 256 / 256 / 256 / 256
    sixth_byte = omega arith

    seventh_byte : v / 2 ^ 48 ≡ v / 256 / 256 / 256 / 256 / 256 / 256
    seventh_byte = omega arith

    eighth_byte : v / 2 ^ 56 ≡ v / 256 / 256 / 256 / 256 / 256 / 256 / 256
    eighth_byte = omega arith

pub fixed32-Emits : (v : ℕ) → Emits (le_bytes 4 v) (pb_encode_fixed32 v)
fixed32-Emits v = rw (fixed32_bytes v) (pb_write-Emits (le_bytes 4 v))

pub fixed64-Emits : (v : ℕ) → Emits (le_bytes 8 v) (pb_encode_fixed64 v)
fixed64-Emits v = rw (fixed64_bytes v) (pb_write-Emits (le_bytes 8 v))

-- For every 32-bit word, `pb_encode_fixed32` on a stream over memory with room for four bytes
-- succeeds and appends bytes, from which `pb_decode_fixed32` reads the word back, stopping behind
-- them.
pb_decode_fixed32-pb_encode_fixed32 :
    (v : ℕ) (s : Setting)
    → v < 2 ^ 32
    → HasRoom 4 s
    → Transfers s (pb_encode_fixed32 v) pb_decode_fixed32 v
unfolding pb_decode_fixed32
pb_decode_fixed32-pb_encode_fixed32 v s h r =
    transfers s 4 (le_bytes 4 v) (pb_encode_fixed32 v) pb_decode_fixed32 v (fixed32-Emits v)
      (fixed-Reads 4 32 v h (omega arith)) (omega arith) r

-- For every 64-bit word, `pb_encode_fixed64` on a stream over memory with room for eight bytes
-- succeeds and appends bytes, from which `pb_decode_fixed64` reads the word back, stopping behind
-- them.
pb_decode_fixed64-pb_encode_fixed64 :
    (v : ℕ) (s : Setting)
    → v < 2 ^ 64
    → HasRoom 8 s
    → Transfers s (pb_encode_fixed64 v) pb_decode_fixed64 v
unfolding pb_decode_fixed64
pb_decode_fixed64-pb_encode_fixed64 v s h r =
    transfers s 8 (le_bytes 8 v) (pb_encode_fixed64 v) pb_decode_fixed64 v (fixed64-Emits v)
      (fixed-Reads 8 64 v h (omega arith)) (omega arith) r
