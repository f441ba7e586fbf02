-- ===== src/Wire/Progress.antt =====
-- Tags and substreams take a byte at least.
use thermo_check.Common.{ℕ, ◌+◌, ◌≤◌, ◌<◌, Bool, ◌==◌, inl, inr, Bool-cases, arith}
use thermo_check.Common.Bits.{bit_and_seven}
use thermo_check.Common.Exec.{Outcome, ok, failed, fault, continue}
use thermo_check.Input.{IStream}
use thermo_check.Input.Sound.{IsValid}
use thermo_check.Varint.{pb_decode_varint32, pb_decode_varint32_eof}
use thermo_check.Varint.DecodeSound.{IsWord, without_eof}
use thermo_check.Varint.Progress.{Spends, pb_decode_varint32-IsEager}
use thermo_check.Wire.{tag_of, pb_decode_tag, divide, pb_make_string_substream}
use thermo_check.Wire.Sound.{IsTag}
use thermo_check.Wire.Substream.{Divided, divide-Divided}

tag_of-Spends :
    (slack left : ℕ) (r : Outcome ℕ × Bool × IStream)
    → Spends slack (IsWord 32) left (without_eof r)
    → Spends slack IsTag left (without_eof (tag_of r))
tag_of-Spends slack left (ok temp, eof, s) (h, v, k) = elim (Bool-cases (temp == 0)) [
  | inl e ↦ rw e (v, omega arith)
  | inr e ↦
      rw e
        ((omega arith, omega (arith, bit_and_seven temp), ground (arith, bit_and_seven temp)), v, k)
]
tag_of-Spends slack left (failed, eof, s) e = e
tag_of-Spends slack left (fault, eof, s) e = e

pub pb_decode_tag-Spends :
    (slack : ℕ) (s : IStream)
    → IsValid slack s
    → Spends slack IsTag s.bytes_left (without_eof (pb_decode_tag s))
unfolding pb_decode_tag
pb_decode_tag-Spends slack s v =
    tag_of-Spends slack s.bytes_left (pb_decode_varint32_eof s)
      (unfold pb_decode_varint32 in pb_decode_varint32-IsEager.run slack s v)

-- As `Divided`, where the two streams have fewer bytes left.
abbrev pub Split : ℕ → ℕ → Outcome IStream × IStream → Type 0
Split slack left (ok sub, t) =
    IsValid (t.bytes_left + slack) sub × IsValid slack t × (sub.bytes_left + t.bytes_left < left)
Split slack left (failed, t) = IsValid slack t × (t.bytes_left ≤ left)
Split slack left (fault, t) = ⊥

pub pb_make_string_substream-Split :
    (slack : ℕ) (s : IStream)
    → IsValid slack s
    → Split slack s.bytes_left (pb_make_string_substream s)
unfolding pb_make_string_substream
pb_make_string_substream-Split slack s v =
    after (pb_decode_varint32 s) (pb_decode_varint32-IsEager.run slack s v)
  where
    smaller :
        (n m : ℕ) (r : Outcome IStream × IStream) → n < m → Divided slack n r → Split slack m r
    smaller n m (ok sub, t) h (v, w, k) = (v, w, omega arith)
    smaller n m (failed, t) h (v, k) = (v, omega arith)
    smaller n m (fault, t) h e = e

    after :
        (r : Outcome ℕ × IStream)
        → Spends slack (IsWord 32) s.bytes_left r
        → Split slack s.bytes_left (continue divide r)
    after (ok size, t) (h, w, k) =
        smaller t.bytes_left s.bytes_left (divide size t) k (divide-Divided slack size t h w)
    after (failed, t) e = e
    after (fault, t) e = elim e [ ]
