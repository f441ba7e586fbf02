-- ===== src/Varint/DecodeSound.antt =====
-- The varint decoders on any stream: no fault, so no read outside the buffer and enough fuel; the
-- value stored is a word of its width; the stream stays in order.
use thermo_check.Common.{
  ℕ, zero, suc, ◌+◌, ◌*◌, ◌%◌, ◌^◌, ◌≤◌, ◌<◌, ◌≡◌, refl, Bool, Option, none, some, List, [], ◌∷◌,
  inl, inr, leb, not, ◌&&◌, ◌==◌, bit_and, bit_or, arith, Bool-cases,
}
use thermo_check.Common.Bits.{bit_and_0x7f, bit_or-lt}
use thermo_check.Common.Exec.{Outcome, ok, failed, fault, continue, ◌>>=◌}
use thermo_check.Message.{varint_overflow}
use thermo_check.Input.{IStream, Decoder, pb_readbyte, first_byte}
use thermo_check.Input.Sound.{
  IsByte, IsValid, IsSound, Any, Ends, Ends-weaken, IsSound-return_error,
}
use thermo_check.Input.Takes.{IsBytes, Takes, Takes-then, pb_read-Takes, pb_readbyte-Takes}
use thermo_check.Varint.{
  merge_byte32, next_bitpos, check_last32, after_merge32, round32, varint32_loop, varint32_from,
  varint32_first, pb_decode_varint32, round64, varint_loop, pb_decode_varint, skip_round,
  skip_varint_loop, pb_skip_varint,
}

-- A word of `w` bits.
abbrev pub IsWord : ℕ → ℕ → Type 0
IsWord w n = n < 2 ^ w

merge_byte32-IsWord :
    (result bitpos byte n : ℕ)
    → IsWord 32 result
    → merge_byte32 result bitpos byte ≡ some n
    → IsWord 32 n
unfolding merge_byte32
merge_byte32-IsWord result bitpos byte n h e =
    ground (arith, bit_or-lt 32 result (bit_and byte 0x7f * 2 ^ bitpos % 2 ^ 32))

check_last32-Ends :
    (slack : ℕ)
    → (byte result bitpos : ℕ) (s : IStream) → IsValid slack s
    → IsWord 32 result
    → Ends slack (IsWord 32) s.bytes_left (check_last32 byte result bitpos s)
unfolding check_last32
check_last32-Ends slack byte result bitpos s v h =
    elim (Bool-cases (bitpos == 35 && not (bit_and byte 0x70 == 0))) [
      | inl e ↦ rw e ((IsSound-return_error (IsWord 32) varint_overflow).run slack s v)
      | inr e ↦ rw e (h, v, omega arith)
    ]

after_merge32-Ends :
    (slack : ℕ)
    → (again : ℕ → ℕ → Decoder ℕ) (bitpos byte : ℕ) (o : Option ℕ) (s : IStream) → IsValid slack s
    → ((result : ℕ) → o ≡ some result → IsWord 32 result)
    → ((result bitpos' : ℕ)
        → IsWord 32 result
        → Ends slack (IsWord 32) s.bytes_left (again result bitpos' s))
    → Ends slack (IsWord 32) s.bytes_left (after_merge32 again bitpos byte o s)
unfolding after_merge32
after_merge32-Ends slack again bitpos byte none s v h k =
    (IsSound-return_error (IsWord 32) varint_overflow).run slack s v
after_merge32-Ends slack again bitpos byte (some n) s v h k =
    elim (Bool-cases (bit_and byte 0x80 == 0)) [
      | inl e ↦ rw e (check_last32-Ends slack byte n (next_bitpos bitpos) s v (h n refl))
      | inr e ↦ rw e (k n (next_bitpos bitpos) (h n refl))
    ]

varint32_loop-Ends :
    (slack : ℕ)
    → (fuel result bitpos : ℕ) (s : IStream) → IsWord 32 result
    → IsValid slack s
    → s.bytes_left < fuel
    → Ends slack (IsWord 32) s.bytes_left (varint32_loop fuel result bitpos s)
unfolding varint32_loop
varint32_loop-Ends slack zero result bitpos s h v k = absurd (omega arith)
varint32_loop-Ends slack (suc fuel) result bitpos s h v k =
    Takes-then slack IsByte (IsWord 32) (round32 (varint32_loop fuel) result bitpos) 1 s.bytes_left
      _
      (λ b t q w e.
        after_merge32-Ends slack (varint32_loop fuel) bitpos b (merge_byte32 result bitpos b) t w
          (λ n. merge_byte32-IsWord result bitpos b n h)
          (λ result' bitpos' g. varint32_loop-Ends slack fuel result' bitpos' t g w (omega arith)))
      (pb_readbyte-Takes slack s v)

pub varint32_from-Ends :
    (slack : ℕ)
    → (byte : ℕ) (s : IStream) → IsByte byte
    → IsValid slack s
    → Ends slack (IsWord 32) s.bytes_left (varint32_from byte s)
unfolding varint32_from
varint32_from-Ends slack byte s h v = elim (Bool-cases (bit_and byte 0x80 == 0)) [
  | inl e ↦ rw e (omega arith, v, omega arith)
  | inr e ↦ rw e (
      varint32_loop-Ends slack (suc s.bytes_left) (bit_and byte 0x7f) 7 s
        (omega (arith, bit_and_0x7f byte)) v (omega arith))
]

-- The result of `pb_decode_varint32_eof` without the flag.
abbrev pub without_eof : {A : Type 0} → Outcome A × Bool × IStream → Outcome A × IStream
without_eof (r, eof, s) = (r, s)

pub varint32_first-Ends :
    (slack : ℕ)
    → (left : ℕ) (r : Outcome ℕ × IStream) → Takes slack IsByte 1 left r
    → Ends slack (IsWord 32) left (without_eof (varint32_first r))
varint32_first-Ends slack left (ok byte, s) (h, v, e) =
    Ends-weaken slack (IsWord 32) s.bytes_left left (varint32_from byte s)
      (varint32_from-Ends slack byte s h v) (omega arith)
varint32_first-Ends slack left (failed, s) e = e
varint32_first-Ends slack left (fault, s) e = e

-- `pb_decode_varint32` on any stream in order: no fault, and a 32-bit word on success.
pub pb_decode_varint32-IsSound : IsSound (IsWord 32) pb_decode_varint32
unfolding pb_decode_varint32
pb_decode_varint32-IsSound = record {
  run = λ slack s v.
      varint32_first-Ends slack s.bytes_left (pb_readbyte s) (pb_readbyte-Takes slack s v);
}

pub round64-Ends :
    (slack : ℕ)
    → (again : ℕ → ℕ → Decoder ℕ) (result bitpos byte : ℕ) (s : IStream) → IsWord 64 result
    → IsValid slack s
    → ((result' : ℕ)
        → IsWord 64 result'
        → Ends slack (IsWord 64) s.bytes_left (again result' (next_bitpos bitpos) s))
    → Ends slack (IsWord 64) s.bytes_left (round64 again result bitpos byte s)
unfolding round64
round64-Ends slack again result bitpos byte s h v k = elim (Bool-cases (bit_and byte 0x80 == 0)) [
  | inl e ↦ rw e (merged, v, omega arith)
  | inr e ↦ rw e (k _ merged)
]
  where
    merged : IsWord 64 (bit_or result (bit_and byte 0x7f * 2 ^ bitpos % 2 ^ 64))
    merged = bit_or-lt 64 result _ h (omega arith)

pub varint_loop-Ends :
    (slack : ℕ)
    → (fuel result bitpos : ℕ) (s : IStream) → IsWord 64 result
    → IsValid slack s
    → 71 ≤ bitpos + 7 * fuel
    → bitpos < 71
    → Ends slack (IsWord 64) s.bytes_left (varint_loop fuel result bitpos s)
unfolding varint_loop
varint_loop-Ends slack zero result bitpos s h v k l = absurd (omega arith)
varint_loop-Ends slack (suc fuel) result bitpos s h v k l = elim (Bool-cases (leb 64 bitpos)) [
  | inl e ↦ rw e ((IsSound-return_error (IsWord 64) varint_overflow).run slack s v)
  | inr e ↦ rw e (
      Takes-then slack IsByte (IsWord 64) (round64 (varint_loop fuel) result bitpos) 1 s.bytes_left
        _
        (λ b t q w _. round64-Ends slack (varint_loop fuel) result bitpos b t h w (λ result' g.
          varint_loop-Ends slack fuel result' (next_bitpos bitpos) t g w (ground arith)
            (ground arith)))
        (pb_readbyte-Takes slack s v))
]

-- `pb_decode_varint` on any stream in order: no fault, and a 64-bit word on success.
pub pb_decode_varint-IsSound : IsSound (IsWord 64) pb_decode_varint
unfolding pb_decode_varint
pb_decode_varint-IsSound = record {
  run = λ slack s v. varint_loop-Ends slack 11 0 0 s (omega arith) v (omega arith) (omega arith);
}

pub first_byte-Ends :
    (slack : ℕ)
    → {B : Type 0} (R : B → Type 0) (f : ℕ → Decoder B) (bytes : List ℕ) (s : IStream)
    → IsBytes 1 bytes
    → ((b : ℕ) → IsByte b → Ends slack R s.bytes_left (f b s))
    → Ends slack R s.bytes_left (continue f (first_byte bytes s))
first_byte-Ends slack R f [] s (e, h) k = absurd (omega arith)
first_byte-Ends slack R f (b ∷ bs) s (e, h) k = k b h.0

skip_varint_loop-Ends :
    (slack : ℕ)
    → (fuel : ℕ) (s : IStream) → IsValid slack s
    → s.bytes_left < fuel
    → Ends slack (Any {A = Unit {0}}) s.bytes_left (skip_varint_loop fuel s)
unfolding skip_varint_loop
skip_varint_loop-Ends slack zero s v k = absurd (omega arith)
skip_varint_loop-Ends slack (suc fuel) s v k =
    Takes-then slack (IsBytes 1) Any
      (λ bytes. first_byte bytes >>= skip_round (skip_varint_loop fuel)) 1 s.bytes_left _
      (λ bytes t q w e.
        first_byte-Ends slack Any (skip_round (skip_varint_loop fuel)) bytes t q
          (λ b _. round b t w (skip_varint_loop-Ends slack fuel t w (omega arith))))
      (pb_read-Takes slack 1 s v)
  where
    round :
        (b : ℕ) (t : IStream)
        → IsValid slack t
        → Ends slack (Any {A = Unit {0}}) t.bytes_left (skip_varint_loop fuel t)
        → Ends slack (Any {A = Unit {0}}) t.bytes_left (skip_round (skip_varint_loop fuel) b t)
    round b t w h = elim (Bool-cases (bit_and b 0x80 == 0)) [
      | inl e ↦ rw (e, skip_round) (tt, w, omega arith)
      | inr e ↦ rw (e, skip_round) h
    ]

-- `pb_skip_varint` on any stream in order: no fault.
pub pb_skip_varint-IsSound : IsSound (Any {A = Unit {0}}) pb_skip_varint
unfolding pb_skip_varint
pb_skip_varint-IsSound = record {
  run = λ slack s v. skip_varint_loop-Ends slack (suc s.bytes_left) s v (omega arith);
}
