-- ===== src/Input/Sound.antt =====
-- What reading promises on a stream whose source is in order: it touches no memory outside the
-- buffer, keeps the stream in order and never adds to the bytes left.
use thermo_check.Common.{
  ℕ, ◌+◌, ◌^◌, ◌≤◌, ◌<◌, ◌≡◌, refl, Bool, true, false, some, List, length, if◌then◌else◌, All,
  arith,
}
use thermo_check.Common.Exec.{Outcome, ok, failed, fault, pure, continue, ◌>>=◌}
use thermo_check.Message.{Message}
use thermo_check.Input.{Callback, Source, buffer, custom, IStream, Decoder, return_error}

abbrev pub IsByte : ℕ → Type 0
IsByte b = b < 256

-- The contract of a user's callback, as pb_decode.h has it: true only with all bytes stored.
abbrev pub IsHonest : Callback → Type 0
IsHonest f =
    (state : List ℕ) (n : ℕ) (bytes : List ℕ)
    → (f state n).0 ≡ some bytes
    → (length bytes ≡ n) × All IsByte bytes

-- At least `left` bytes of memory stand behind a buffer.
abbrev pub IsReady : ℕ → Source → Type 0
IsReady left (buffer mem) = (left ≤ length mem) × All IsByte mem
IsReady left (custom f state) = IsHonest f

-- A stream in order, with `slack` bytes of memory behind its end: those of the stream that it is a
-- part of.
pub record IsValid (slack : ℕ) (s : IStream) : Type 0 where
  pub ready : IsReady (s.bytes_left + slack) s.source
  pub word : s.bytes_left < 2 ^ 64

-- `Ends slack Q n r`: the call returned, on an ok with a value in `Q`, left the stream in order, and
-- took `n` bytes at least of `left`.
abbrev pub Ends : ℕ → {A : Type 0} → (A → Type 0) → ℕ → Outcome A × IStream → Type 0
Ends slack Q left (ok a, s) = Q a × IsValid slack s × (s.bytes_left ≤ left)
Ends slack Q left (failed, s) = IsValid slack s × (s.bytes_left ≤ left)
Ends slack Q left (fault, s) = ⊥

pub record IsSound {A : Type 0} (Q : A → Type 0) (m : Decoder A) : Type 0 where
  pub run : (slack : ℕ) (s : IStream) → IsValid slack s → Ends slack Q s.bytes_left (m s)

abbrev pub Any : {A : Type 0} → A → Type 0
Any a = Unit {0}

-- A result stays within a larger number of bytes.
pub Ends-weaken :
    (slack : ℕ)
    → {A : Type 0} (Q : A → Type 0) (n m : ℕ) (r : Outcome A × IStream) → Ends slack Q n r
    → n ≤ m
    → Ends slack Q m r
Ends-weaken slack Q n m (ok a, s) (q, v, h) k = (q, v, omega arith)
Ends-weaken slack Q n m (failed, s) (v, h) k = (v, omega arith)
Ends-weaken slack Q n m (fault, s) e k = e

module _ {A B : Type 0} where
  pub Ends-continue :
      (slack : ℕ)
      → (Q : A → Type 0) (R : B → Type 0) (f : A → Decoder B) (n : ℕ) (r : Outcome A × IStream)
      → ((a : A) (s : IStream)
          → Q a
          → IsValid slack s
          → s.bytes_left ≤ n
          → Ends slack R s.bytes_left (f a s))
      → Ends slack Q n r
      → Ends slack R n (continue f r)
  Ends-continue slack Q R f n (ok a, s) k (q, v, h) =
      Ends-weaken slack R s.bytes_left n (f a s) (k a s q v h) h
  Ends-continue slack Q R f n (failed, s) k e = e
  Ends-continue slack Q R f n (fault, s) k e = elim e [ ]

  pub IsSound-bind :
      (Q : A → Type 0) (R : B → Type 0) (m : Decoder A) (f : A → Decoder B)
      → IsSound Q m
      → ((a : A) → Q a → IsSound R (f a))
      → IsSound R (m >>= f)
  IsSound-bind Q R m f hm hf = record {
    run = λ slack s v.
        Ends-continue slack Q R f s.bytes_left (m s) (λ a t q w _. (hf a q).run slack t w)
          (hm.run slack s v);
  }

pub IsSound-weaken :
    {A : Type 0} (Q R : A → Type 0) (m : Decoder A)
    → ((a : A) → Q a → R a)
    → IsSound Q m
    → IsSound R m
IsSound-weaken {A} Q R m k h = record {
  run = λ slack s v. weaker slack s.bytes_left (m s) (h.run slack s v);
}
  where
    weaker : (slack left : ℕ) (r : Outcome A × IStream) → Ends slack Q left r → Ends slack R left r
    weaker slack left (ok a, t) (q, w, e) = (k a q, w, e)
    weaker slack left (failed, t) e = e
    weaker slack left (fault, t) e = e

module _ {A : Type 0} (Q : A → Type 0) where
  pub IsSound-pure : (a : A) → Q a → IsSound Q (pure a)
  IsSound-pure a q = record { run = λ slack s v. (q, v, omega arith) }

  pub IsSound-return_error : (m : Message) → IsSound Q (return_error m)
  unfolding return_error
  IsSound-return_error m = record {
    run = λ slack s v. (record { ready = v.ready; word = v.word }, omega arith);
  }

  pub IsSound-if :
      (b : Bool) (m n : Decoder A)
      → (b ≡ true → IsSound Q m)
      → (b ≡ false → IsSound Q n)
      → IsSound Q (if b then m else n)
  IsSound-if true m n hm hn = hm refl
  IsSound-if false m n hm hn = hn refl
