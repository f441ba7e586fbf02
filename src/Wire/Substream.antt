-- ===== src/Wire/Substream.antt =====
-- A substream and the stream that it is cut from, on any stream in order.
use native.Mathlib.Nat.{add-zero}
use thermo_check.Common.{
  ℕ, suc, ◌+◌, ◌-◌, ◌≤◌, ◌≡◌, refl, Option, List, [], ◌∷◌, ◌++◌, inl, inr, length, ltb, ◌==◌, arith,
  Bool-cases, suc_not_zero,
}
use thermo_check.Message.{Message, parent_stream_too_short}
use thermo_check.Common.Exec.{Outcome, ok, failed, fault, continue}
use thermo_check.Input.{Source, buffer, custom, IStream, return_error, pb_read_null}
use thermo_check.Input.Buffer.{reading, pb_read_null-buffer}
use thermo_check.Input.Sound.{IsReady, IsValid, Any, Ends, IsSound-return_error}
use thermo_check.Input.Takes.{Takes, pb_read_null-Takes}
use thermo_check.Varint.{pb_decode_varint32}
use thermo_check.Varint.DecodeSound.{IsWord, pb_decode_varint32-IsSound}
use thermo_check.Wire.{divide, pb_make_string_substream, rejoin, pb_close_string_substream}

-- The two streams share the bytes that were left; the memory behind the substream's end is what the
-- stream keeps.
abbrev pub Divided : ℕ → ℕ → Outcome IStream × IStream → Type 0
Divided slack left (ok sub, t) =
    IsValid (t.bytes_left + slack) sub × IsValid slack t × (sub.bytes_left + t.bytes_left ≤ left)
Divided slack left (failed, t) = IsValid slack t × (t.bytes_left ≤ left)
Divided slack left (fault, t) = ⊥

IsReady-le : (n m : ℕ) (source : Source) → m ≤ n → IsReady n source → IsReady m source
IsReady-le n m (buffer mem) h r = (omega arith, r.1)
IsReady-le n m (custom f state) h r = r

pub divide-Divided :
    (slack size : ℕ) (s : IStream)
    → IsWord 32 size
    → IsValid slack s
    → Divided slack s.bytes_left (divide size s)
unfolding return_error
divide-Divided slack size s h v = elim (Bool-cases (ltb s.bytes_left size)) [
  | inl e ↦
      rw e
        ((IsSound-return_error {A = IStream} (λ _. Unit {0}) parent_stream_too_short).run slack s v)
  | inr e ↦ rw e (
    record {
      ready =
          IsReady-le (s.bytes_left + slack) (size + (s.bytes_left - size + slack)) s.source
            (ground arith) v.ready;
      word = omega arith;
    },
    record {
      ready =
          IsReady-le (s.bytes_left + slack) (s.bytes_left - size + slack) s.source (omega arith)
            v.ready;
      word = omega arith;
    },
    ground arith,
  )
]

-- On a stream in order, `pb_make_string_substream` returns and touches no memory outside the
-- buffer; on success the substream and the stream are both in order and share at most the bytes
-- that were left, with what the stream keeps behind the end of the substream, and on failure the
-- stream is in order with no more bytes left than before.
pub pb_make_string_substream-Divided :
    (slack : ℕ) (s : IStream)
    → IsValid slack s
    → Divided slack s.bytes_left (pb_make_string_substream s)
unfolding pb_make_string_substream
pb_make_string_substream-Divided slack s v =
    after (pb_decode_varint32 s) (pb_decode_varint32-IsSound.run slack s v)
  where
    within :
        (n m : ℕ) (r : Outcome IStream × IStream) → n ≤ m → Divided slack n r → Divided slack m r
    within n m (ok sub, t) h (v, w, k) = (v, w, omega arith)
    within n m (failed, t) h (v, k) = (v, omega arith)
    within n m (fault, t) h e = e

    after :
        (r : Outcome ℕ × IStream)
        → Ends slack (IsWord 32) s.bytes_left r
        → Divided slack s.bytes_left (continue divide r)
    after (ok size, t) (h, w, k) =
        within t.bytes_left s.bytes_left (divide size t) k (divide-Divided slack size t h w)
    after (failed, t) e = e
    after (fault, t) e = elim e [ ]

-- The stream goes on behind the substream, or is as it was.
abbrev pub Rejoined : ℕ → IStream → Outcome (Unit {0}) × IStream → Type 0
Rejoined slack t (ok _, u) = IsValid slack u × (u.bytes_left ≡ t.bytes_left)
Rejoined slack t (failed, u) = u ≡ t
Rejoined slack t (fault, u) = ⊥

-- For a stream in order and a substream in order whose memory goes on with what the stream has
-- left, `pb_close_string_substream` returns and touches no memory outside the buffer; on success
-- the stream is in order with the bytes left that it had, and on failure the stream is unchanged.
pub pb_close_string_substream-Rejoined :
    (slack : ℕ) (sub t : IStream)
    → IsValid (t.bytes_left + slack) sub
    → IsValid slack t
    → Rejoined slack t (pb_close_string_substream sub t)
unfolding pb_close_string_substream
pb_close_string_substream-Rejoined slack sub t v w = elim (Bool-cases (sub.bytes_left == 0)) [
  | inl e ↦ rw e (rejoined (ok tt, sub) (tt, v, ground arith))
  | inr e ↦ rw e (rejoined _ (pb_read_null-Takes (t.bytes_left + slack) sub.bytes_left sub v))
]
  where
    rejoined :
        (r : Outcome (Unit {0}) × IStream)
        → Takes (t.bytes_left + slack) Any sub.bytes_left sub.bytes_left r
        → Rejoined slack t (rejoin r t)
    rejoined (ok _, u) (_, x, k) = (
      record {
        ready =
            IsReady-le (u.bytes_left + (t.bytes_left + slack)) (t.bytes_left + slack) u.source
              (omega arith) x.ready;
        word = w.word;
      },
      refl,
    )
    rejoined (failed, u) e = refl
    rejoined (fault, u) e = elim e [ ]

-- Closing a substream over a buffer succeeds and moves the stream behind the bytes that the
-- substream has not read, with the stream's bytes left and the substream's message.
pub pb_close_string_substream-buffer :
    (unread rest mem : List ℕ) (left : ℕ) (errmsg own : Option Message)
    → pb_close_string_substream
        (reading (unread ++ rest) (length unread) own)
        (reading mem left errmsg)
      ≡ (ok tt, reading rest left own)
unfolding pb_close_string_substream
pb_close_string_substream-buffer [] rest mem left errmsg own = refl
pb_close_string_substream-buffer (b ∷ unread) rest mem left errmsg own =
    rw (suc_not_zero (length unread), whole)
  where
    whole :
        pb_read_null
          (suc (length unread))
          (reading (b ∷ (unread ++ rest)) (suc (length unread)) own)
        ≡ (ok tt, reading rest 0 own)
    whole =
        rw (add-zero) at (pb_read_null-buffer own (suc (length unread)) (b ∷ unread) rest 0 refl)
