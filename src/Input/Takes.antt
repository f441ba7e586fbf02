-- ===== src/Input/Takes.antt =====
-- How many bytes the reading functions take, on any stream in order.
use thermo_check.Common.{
  ℕ, zero, suc, ◌+◌, ◌-◌, ◌^◌, ◌≤◌, ◌<◌, ◌≡◌, refl, Bool, true, false, Option, none, some, List, [],
  ◌∷◌, inl, inr, length, take, drop, ltb, leb, ◌==◌, if◌then◌else◌, All, All-take, All-drop,
  length-take, length-drop, arith, Bool-cases,
}
use thermo_check.Common.Exec.{Outcome, ok, failed, fault, pure, continue}
use thermo_check.Message.{Message}
use thermo_check.Input.{
  answer, Source, buffer, custom, IStream, Decoder, return_error, buf_read, call_callback,
  after_callback, read_bytes, pb_read, skip_bytes, pb_read_null, first_byte, pb_readbyte,
}
use thermo_check.Input.Sound.{IsByte, IsReady, IsValid, Ends, Ends-weaken, Any}

-- As `Ends`, where an ok takes exactly `count` bytes.
abbrev pub Takes : ℕ → {A : Type 0} → (A → Type 0) → ℕ → ℕ → Outcome A × IStream → Type 0
Takes slack Q count left (ok a, s) = Q a × IsValid slack s × (s.bytes_left + count ≡ left)
Takes slack Q count left (failed, s) = IsValid slack s × (s.bytes_left ≤ left)
Takes slack Q count left (fault, s) = ⊥

pub Takes-Ends :
    (slack : ℕ)
    → {A : Type 0} (Q : A → Type 0) (count left : ℕ) (r : Outcome A × IStream)
    → Takes slack Q count left r
    → Ends slack Q left r
Takes-Ends slack Q count left (ok a, s) (q, v, h) = (q, v, omega arith)
Takes-Ends slack Q count left (failed, s) e = e
Takes-Ends slack Q count left (fault, s) e = e

-- What a read of `count` bytes stores.
abbrev pub IsBytes : ℕ → List ℕ → Type 0
IsBytes count bytes = (length bytes ≡ count) × All IsByte bytes

abbrev Stored : Bool → ℕ → List ℕ → Type 0
Stored wanted count bytes = if wanted then IsBytes count bytes else Unit

called :
    (slack : ℕ)
    → (source : Source) (left : ℕ) (errmsg : Option Message) (wanted : Bool) (count : ℕ)
    → IsReady (left + slack) source
    → left < 2 ^ 64
    → count ≤ left
    → Takes slack (Stored wanted count) count left (
        after_callback count
          (record { source = source; bytes_left = left; errmsg = errmsg })
          (call_callback source wanted count))
unfolding after_callback call_callback buf_read
called slack (buffer mem) left e wanted count r h k = rw (ltb_free, buf_read) (within wanted)
  where
    ltb_free : leb count (length mem) ≡ true
    ltb_free = ground arith

    within :
        (wanted : Bool)
        → Takes slack (Stored wanted count) count left (
          ok (if wanted then take count mem else []),
          record { source = buffer (drop count mem); bytes_left = left - count; errmsg = e },
        )
    within true = (
      (omega (arith, length-take count mem), All-take IsByte count mem r.1),
      record {
        ready = (omega (arith, length-drop count mem), All-drop IsByte count mem r.1);
        word = omega arith;
      },
      omega arith,
    )
    within false = (
      tt,
      record {
        ready = (omega (arith, length-drop count mem), All-drop IsByte count mem r.1);
        word = omega arith;
      },
      omega arith,
    )
called slack (custom f state) left e wanted count r h k = answered (f state count).0 refl
  where
    answered :
        (o : Option (List ℕ))
        → (f state count).0 ≡ o
        → Takes slack (Stored wanted count) count left (
            after_callback count
              (record { source = custom f state; bytes_left = left; errmsg = e })
              (answer o, custom f (f state count).1))
    answered none q = (record { ready = r; word = h }, omega arith)
    answered (some bytes) q = (stored wanted, record { ready = r; word = omega arith }, omega arith)
      where
        stored : (wanted : Bool) → Stored wanted count bytes
        stored true = r state count bytes q
        stored false = tt

read_bytes-Takes :
    (slack : ℕ)
    → (wanted : Bool) (count : ℕ) (s : IStream) → IsValid slack s
    → Takes slack (Stored wanted count) count s.bytes_left (read_bytes wanted count s)
unfolding read_bytes
read_bytes-Takes slack wanted count s v = elim (Bool-cases (ltb s.bytes_left count)) [
  | inl e ↦ rw (e, return_error) (record { ready = v.ready; word = v.word }, omega arith)
  | inr e ↦
      rw e (called slack s.source s.bytes_left s.errmsg wanted count v.ready v.word (ground arith))
]

-- `pb_read` with a buffer stores exactly `count` bytes or returns false.
pub pb_read-Takes :
    (slack : ℕ)
    → (count : ℕ) (s : IStream) → IsValid slack s
    → Takes slack (IsBytes count) count s.bytes_left (pb_read count s)
unfolding pb_read
pb_read-Takes slack count s v = elim (Bool-cases (count == 0)) [
  | inl e ↦ rw e ((ground arith, tt), v, ground arith)
  | inr e ↦ rw e (read_bytes-Takes slack true count s v)
]

-- Two reads in a row take what both take.
pub Takes-continue :
    (slack : ℕ)
    → {A B : Type 0} (Q : A → Type 0) (R : B → Type 0) (f : A → Decoder B) (n m total left : ℕ)
      (r : Outcome A × IStream)
    → n + m ≡ total
    → ((a : A) (s : IStream)
        → Q a
        → IsValid slack s
        → s.bytes_left + n ≡ left
        → Takes slack R m s.bytes_left (f a s))
    → Takes slack Q n left r
    → Takes slack R total left (continue f r)
Takes-continue slack Q R f n m total left (ok a, s) e k (q, v, h) =
    Takes-shift R m total s.bytes_left left (f a s) (omega arith) (omega arith) (k a s q v h)
  where
    Takes-shift :
        {B : Type 0} (R : B → Type 0) (m total l left : ℕ) (r : Outcome B × IStream)
        → l + total ≡ left + m
        → l ≤ left
        → Takes slack R m l r
        → Takes slack R total left r
    Takes-shift R m total l left (ok b, t) e g (q, v, h) = (q, v, omega arith)
    Takes-shift R m total l left (failed, t) e g (v, h) = (v, omega arith)
    Takes-shift R m total l left (fault, t) e g h = h
Takes-continue slack Q R f n m total left (failed, s) e k h = h
Takes-continue slack Q R f n m total left (fault, s) e k h = elim h [ ]

skip_bytes-Takes :
    (slack : ℕ)
    → (fuel count : ℕ) (s : IStream) → IsValid slack s
    → count < fuel
    → Takes slack (Any {A = Unit {0}}) count s.bytes_left (skip_bytes fuel count s)
unfolding skip_bytes
skip_bytes-Takes slack zero count s v h = absurd (omega arith)
skip_bytes-Takes slack (suc fuel) count s v h = elim (Bool-cases (ltb 16 count)) [
  | inl e ↦ rw e (
      Takes-continue slack (IsBytes 16) Any (λ _. skip_bytes fuel (count - 16)) 16 (count - 16)
        count s.bytes_left (pb_read 16 s) (ground arith)
        (λ a t q w k. skip_bytes-Takes slack fuel (count - 16) t w (ground arith))
        (pb_read-Takes slack 16 s v))
  | inr e ↦ rw e (
      Takes-continue slack (IsBytes count) Any (λ _. pure tt) count 0 count s.bytes_left _
        (omega arith) (λ a t q w k. (tt, w, omega arith)) (pb_read-Takes slack count s v))
]

-- `pb_read` with a null pointer passes over exactly `count` bytes or returns false.
pub pb_read_null-Takes :
    (slack : ℕ)
    → (count : ℕ) (s : IStream) → IsValid slack s
    → Takes slack (Any {A = Unit {0}}) count s.bytes_left (pb_read_null count s)
unfolding pb_read_null
pb_read_null-Takes slack count s v = by_source s.source refl
  where
    nothing : count == 0 ≡ true → Takes slack (Any {A = Unit {0}}) count s.bytes_left (ok tt, s)
    nothing e = (tt, v, ground arith)

    by_source :
        (source : Source)
        → s.source ≡ source
        → Takes slack (Any {A = Unit {0}}) count s.bytes_left (pb_read_null count s)
    by_source (buffer mem) q =
        rw (q, pb_read_null)
          (elim (Bool-cases (count == 0)) [
            | inl e ↦ rw e (nothing e)
            | inr e ↦ rw e (
                Takes-continue slack (Stored false count) Any (λ _. pure tt) count 0 count
                  s.bytes_left _ (omega arith) (λ a t q w k. (tt, w, omega arith))
                  (read_bytes-Takes slack false count s v))
          ])
    by_source (custom f state) q =
        rw (q, pb_read_null)
          (elim (Bool-cases (count == 0)) [
            | inl e ↦ rw e (nothing e)
            | inr e ↦ rw e (skip_bytes-Takes slack (suc count) count s v (omega arith))
          ])

-- `pb_readbyte` stores one byte or returns false.
pub pb_readbyte-Takes :
    (slack : ℕ)
    → (s : IStream) → IsValid slack s
    → Takes slack IsByte 1 s.bytes_left (pb_readbyte s)
unfolding pb_readbyte
pb_readbyte-Takes slack s v = elim (Bool-cases (s.bytes_left == 0)) [
  | inl e ↦ rw (e, return_error) (record { ready = v.ready; word = v.word }, omega arith)
  | inr e ↦
      rw e
        (head _ (called slack s.source s.bytes_left s.errmsg true 1 v.ready v.word (ground arith)))
]
  where
    head :
        (r : Outcome (List ℕ) × IStream)
        → Takes slack (IsBytes 1) 1 s.bytes_left r
        → Takes slack IsByte 1 s.bytes_left (continue first_byte r)
    head (ok [], t) ((e, _), _, _) = absurd (omega arith)
    head (ok (b ∷ bs), t) ((e, h), w, k) = (h.0, w, k)
    head (failed, t) e = e
    head (fault, t) e = e

-- What follows a read of `n` bytes works on `n` bytes fewer.
pub Takes-then :
    (slack : ℕ)
    → {A B : Type 0} (Q : A → Type 0) (R : B → Type 0) (f : A → Decoder B) (n left : ℕ)
      (r : Outcome A × IStream)
    → ((a : A) (t : IStream)
        → Q a
        → IsValid slack t
        → t.bytes_left + n ≡ left
        → Ends slack R t.bytes_left (f a t))
    → Takes slack Q n left r
    → Ends slack R left (continue f r)
Takes-then slack Q R f n left (ok a, t) k (q, v, h) =
    Ends-weaken slack R t.bytes_left left (f a t) (k a t q v h) (omega arith)
Takes-then slack Q R f n left (failed, t) k e = e
Takes-then slack Q R f n left (fault, t) k e = elim e [ ]
