-- ===== src/Messages/Substreams.antt =====
-- Work on a substream, which leaves the stream behind it in order.
use thermo_check.Common.{ℕ, ◌+◌, ◌-◌, ◌≤◌, ◌<◌, arith}
use thermo_check.Common.Exec.{Outcome, ok, failed, fault}
use thermo_check.Memory.{Memory}
use thermo_check.Input.{IStream}
use thermo_check.Input.Sound.{IsValid, Ends}
use thermo_check.Wire.{pb_make_string_substream}
use thermo_check.Wire.Substream.{Rejoined, pb_close_string_substream-Rejoined}
use thermo_check.Wire.Progress.{Split, pb_make_string_substream-Split}
use thermo_check.Messages.{State, Action, close_with, close_substream, with_substream, in_substream}
use thermo_check.Messages.Tidy.{streamed, IsTidy, Ends-raise}

-- The closing of a substream.
pub close_with-Ends :
    (slack : ℕ)
    → {A : Type 0} (Q : A → Type 0) (status : Outcome A) (t : IStream) (memory : Memory)
      (r : Outcome (Unit {0}) × IStream)
    → IsValid slack t
    → Ends slack Q t.bytes_left (status, t)
    → Rejoined slack t r
    → Ends slack Q t.bytes_left (streamed (close_with status t memory r))
unfolding close_with
close_with-Ends slack Q (ok a) t memory (ok _, u) v (q, w, h) (x, e) = (q, x, omega arith)
close_with-Ends slack Q failed t memory (ok _, u) v (w, h) (x, e) = (x, omega arith)
close_with-Ends slack Q fault t memory (ok _, u) v e x = e
close_with-Ends slack Q status t memory (failed, u) v h e = rw e (v, omega arith)
close_with-Ends slack Q status t memory (fault, u) v h e = elim e [ ]

pub close_substream-Ends :
    (slack : ℕ)
    → {A : Type 0} (Q : A → Type 0) (t : IStream) (left : ℕ) (r : Outcome A × State)
    → IsValid slack t
    → Ends (t.bytes_left + slack) Q left (streamed r)
    → Ends slack Q t.bytes_left (streamed (close_substream t r))
unfolding close_substream
close_substream-Ends slack Q t left (ok a, s) v (q, w, h) =
    close_with-Ends slack Q (ok a) t s.memory _ v (q, v, omega arith)
      (pb_close_string_substream-Rejoined slack s.stream t w v)
close_substream-Ends slack Q t left (failed, s) v (w, h) =
    close_with-Ends slack Q failed t s.memory _ v (v, omega arith)
      (pb_close_string_substream-Rejoined slack s.stream t w v)
close_substream-Ends slack Q t left (fault, s) v e = e

-- A substream, what is done on it, and with the stream after it.
module _ (n : ℕ) {A : Type 0} (Q : A → Type 0)
    (finish : IStream → Outcome A × State → Outcome A × State) (body : Action A) where
  split :
      (slack left : ℕ) (memory : Memory) (r : Outcome IStream × IStream)
      → left ≤ n
      → (0 < n → IsTidy (n - 1) Q body)
      → ((t : IStream) (sub : ℕ) (r : Outcome A × State)
          → IsValid slack t
          → Ends (t.bytes_left + slack) Q sub (streamed r)
          → Ends slack Q t.bytes_left (streamed (finish t r)))
      → Split slack left r
      → Ends slack Q left (streamed (with_substream finish body memory r))
  unfolding with_substream
  split slack left memory (ok sub, t) l hb hf (v, w, h) =
      Ends-raise slack Q t.bytes_left left
        (finish t (body (record { stream = sub; memory = memory })))
        (hf t sub.bytes_left (body (record { stream = sub; memory = memory })) w (
          (hb (omega arith)).run (t.bytes_left + slack) (record { stream = sub; memory = memory }) v
            (omega arith)))
        (omega arith)
  split slack left memory (failed, t) l hb hf e = e
  split slack left memory (fault, t) l hb hf e = e

  pub IsTidy-with_substream :
      (0 < n → IsTidy (n - 1) Q body)
      → ((slack : ℕ) (t : IStream) (sub : ℕ) (r : Outcome A × State)
          → IsValid slack t
          → Ends (t.bytes_left + slack) Q sub (streamed r)
          → Ends slack Q t.bytes_left (streamed (finish t r)))
      → IsTidy n Q (λ s. with_substream finish body s.memory (pb_make_string_substream s.stream))
  IsTidy-with_substream hb hf = record {
    run = λ slack s v h.
        split slack s.stream.bytes_left s.memory _ h hb (hf slack)
          (pb_make_string_substream-Split slack s.stream v);
  }

pub IsTidy-in_substream :
    (n : ℕ)
    → {A : Type 0} (Q : A → Type 0) (body : Action A) → IsTidy (n - 1) Q body
    → IsTidy n Q (in_substream body)
unfolding in_substream
IsTidy-in_substream n Q body h =
    IsTidy-with_substream n Q close_substream body (λ _. h)
      (λ slack t sub r v e. close_substream-Ends slack Q t sub r v e)
