-- ===== src/Varint/Progress.antt =====
-- The readers that take a byte at least where they succeed.
use thermo_check.Common.{ℕ, ◌≤◌, ◌<◌, arith}
use thermo_check.Common.Exec.{Outcome, ok, failed, fault, continue, ◌>>=◌}
use thermo_check.Input.{IStream, Decoder, pb_readbyte}
use thermo_check.Input.Sound.{IsByte, IsValid, IsSound, Ends}
use thermo_check.Input.Takes.{Takes, pb_readbyte-Takes}
use thermo_check.Varint.{
  round64, varint_loop, varint32_first, pb_decode_varint, pb_decode_varint32, next_bitpos,
}
use thermo_check.Varint.DecodeSound.{
  IsWord, without_eof, varint32_from-Ends, round64-Ends, varint_loop-Ends,
}

-- As `Ends`, where an ok leaves fewer bytes.
abbrev pub Spends : ℕ → {A : Type 0} → (A → Type 0) → ℕ → Outcome A × IStream → Type 0
Spends slack Q left (ok a, s) = Q a × IsValid slack s × (s.bytes_left < left)
Spends slack Q left (failed, s) = IsValid slack s × (s.bytes_left ≤ left)
Spends slack Q left (fault, s) = ⊥

pub record IsEager {A : Type 0} (Q : A → Type 0) (m : Decoder A) : Type 0 where
  pub run : (slack : ℕ) (s : IStream) → IsValid slack s → Spends slack Q s.bytes_left (m s)

module _ (slack : ℕ) {A : Type 0} (Q : A → Type 0) where
  pub Ends-Spends :
      (n left : ℕ) (r : Outcome A × IStream) → Ends slack Q n r → n < left → Spends slack Q left r
  Ends-Spends n left (ok a, s) (q, v, h) k = (q, v, omega arith)
  Ends-Spends n left (failed, s) (v, h) k = (v, omega arith)
  Ends-Spends n left (fault, s) e k = e

  pub Spends-Ends :
      (left : ℕ) (r : Outcome A × IStream) → Spends slack Q left r → Ends slack Q left r
  Spends-Ends left (ok a, s) (q, v, h) = (q, v, omega arith)
  Spends-Ends left (failed, s) e = e
  Spends-Ends left (fault, s) e = e

module _ (slack : ℕ) {A B : Type 0} (Q : A → Type 0) (R : B → Type 0) (f : A → Decoder B) where
  pub Takes-spend :
      (n left : ℕ) (r : Outcome A × IStream)
      → 0 < n
      → ((a : A) (t : IStream) → Q a → IsValid slack t → Ends slack R t.bytes_left (f a t))
      → Takes slack Q n left r
      → Spends slack R left (continue f r)
  Takes-spend n left (ok a, t) p k (q, v, h) =
      Ends-Spends slack R t.bytes_left left (f a t) (k a t q v) (omega arith)
  Takes-spend n left (failed, t) p k e = e
  Takes-spend n left (fault, t) p k e = elim e [ ]

  pub Spends-continue :
      (left : ℕ) (r : Outcome A × IStream)
      → ((a : A) (t : IStream) → Q a → IsValid slack t → Ends slack R t.bytes_left (f a t))
      → Spends slack Q left r
      → Spends slack R left (continue f r)
  Spends-continue left (ok a, t) k (q, v, h) =
      Ends-Spends slack R t.bytes_left left (f a t) (k a t q v) (omega arith)
  Spends-continue left (failed, t) k e = e
  Spends-continue left (fault, t) k e = elim e [ ]

pub IsEager-bind :
    {A B : Type 0} (Q : A → Type 0) (R : B → Type 0) (m : Decoder A) (f : A → Decoder B)
    → IsEager Q m
    → ((a : A) → Q a → IsSound R (f a))
    → IsEager R (m >>= f)
IsEager-bind Q R m f hm hf = record {
  run = λ slack s v.
      Spends-continue slack Q R f s.bytes_left (m s) (λ a t q w. (hf a q).run slack t w)
        (hm.run slack s v);
}

pub pb_decode_varint-IsEager : IsEager (IsWord 64) pb_decode_varint
unfolding pb_decode_varint varint_loop
pb_decode_varint-IsEager = record {
  run = λ slack s v.
      Takes-spend slack IsByte (IsWord 64) (round64 (varint_loop 10) 0 0) 1 s.bytes_left
        (pb_readbyte s) (omega arith)
        (λ b t q w. round64-Ends slack (varint_loop 10) 0 0 b t (omega arith) w (λ result g.
          varint_loop-Ends slack 10 result (next_bitpos 0) t g w (omega arith) (omega arith)))
        (pb_readbyte-Takes slack s v);
}

-- `pb_decode_varint32_eof` without the flag.
pub varint32_first-Spends :
    (slack left : ℕ) (r : Outcome ℕ × IStream)
    → Takes slack IsByte 1 left r
    → Spends slack (IsWord 32) left (without_eof (varint32_first r))
varint32_first-Spends slack left (ok byte, s) (h, v, e) =
    Ends-Spends slack (IsWord 32) s.bytes_left left _ (varint32_from-Ends slack byte s h v)
      (omega arith)
varint32_first-Spends slack left (failed, s) e = e
varint32_first-Spends slack left (fault, s) e = e

pub pb_decode_varint32-IsEager : IsEager (IsWord 32) pb_decode_varint32
unfolding pb_decode_varint32
pb_decode_varint32-IsEager = record {
  run = λ slack s v.
      varint32_first-Spends slack s.bytes_left (pb_readbyte s) (pb_readbyte-Takes slack s v);
}
