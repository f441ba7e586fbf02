-- ===== src/Messages/Tidy.antt =====
-- Calls on a stream and memory that leave the stream in order, whatever is in memory.
use thermo_check.Common.{
  ℕ, ◌-◌, ◌≤◌, ◌≡◌, refl, Bool, true, false, ◌&&◌, Option, none, some, if◌then◌else◌, arith,
}
use thermo_check.Common.Exec.{Outcome, ok, failed, fault, pure, continue, ◌>>=◌}
use thermo_check.Message.{Message}
use thermo_check.Memory.{Memory}
use thermo_check.Input.{IStream, Decoder}
use thermo_check.Input
use thermo_check.Input.Sound.{IsValid, IsSound, Any, Ends, IsSound-return_error}
use thermo_check.Varint.Progress.{Spends, IsEager, Spends-Ends}
use thermo_check.Messages.{
  State, Action, on_stream, return_error, read, write, demand, put, on_memory,
}

-- The result on the stream.
abbrev pub streamed : {A : Type 0} → Outcome A × State → Outcome A × IStream
streamed r = (r.0, r.1.stream)

-- On a stream in order with `n` bytes left at most.
pub record IsTidy {A : Type 0} (n : ℕ) (Q : A → Type 0) (m : Action A) : Type 0 where
  pub run :
      (slack : ℕ) (s : State)
      → IsValid slack s.stream
      → s.stream.bytes_left ≤ n
      → Ends slack Q s.stream.bytes_left (streamed (m s))

-- Where it takes a byte at least if it succeeds.
pub record IsGreedy {A : Type 0} (n : ℕ) (Q : A → Type 0) (m : Action A) : Type 0 where
  pub run :
      (slack : ℕ) (s : State)
      → IsValid slack s.stream
      → s.stream.bytes_left ≤ n
      → Spends slack Q s.stream.bytes_left (streamed (m s))

-- In terms of the outcome and the state.
pub Ends-raise :
    (slack : ℕ)
    → {A : Type 0} (Q : A → Type 0) (n m : ℕ) (r : Outcome A × State) → Ends slack Q n (streamed r)
    → n ≤ m
    → Ends slack Q m (streamed r)
Ends-raise slack Q n m (ok a, s) (q, v, h) k = (q, v, omega arith)
Ends-raise slack Q n m (failed, s) (v, h) k = (v, omega arith)
Ends-raise slack Q n m (fault, s) e k = e

module _ (n : ℕ) {A : Type 0} (Q : A → Type 0) where
  pub IsTidy-pure : (a : A) → Q a → IsTidy n Q (pure a)
  IsTidy-pure a q = record { run = λ slack s v h. (q, v, omega arith) }

  pub IsTidy-on_stream : (d : Decoder A) → IsSound Q d → IsTidy n Q (on_stream d)
  unfolding on_stream
  IsTidy-on_stream d h = record { run = λ slack s v k. h.run slack s.stream v }

  pub IsGreedy-on_stream : (d : Decoder A) → IsEager Q d → IsGreedy n Q (on_stream d)
  unfolding on_stream
  IsGreedy-on_stream d h = record { run = λ slack s v k. h.run slack s.stream v }

  pub IsTidy-return_error : (m : Message) → IsTidy n Q (return_error m)
  unfolding return_error
  IsTidy-return_error m = IsTidy-on_stream (Input.return_error m) (IsSound-return_error Q m)

  pub IsTidy-if :
      (b : Bool) (m k : Action A)
      → (b ≡ true → IsTidy n Q m)
      → (b ≡ false → IsTidy n Q k)
      → IsTidy n Q (if b then m else k)
  IsTidy-if true m k hm hk = hm refl
  IsTidy-if false m k hm hk = hk refl

  pub IsTidy-demand : (o : Option A) → ((a : A) × (o ≡ some a) × Q a) → IsTidy n Q (demand o)
  unfolding demand
  IsTidy-demand none (a, e, q) = absurd (distinct e)
    where
      distinct : none ≡ some a → ⊥
      distinct e = cc
  IsTidy-demand (some b) (a, e, q) = record { run = λ slack s v h. (rw (same e) q, v, omega arith) }
    where
      same : some b ≡ some a → b ≡ a
      same e = cc

pub IsTidy-read : (n : ℕ) → {A : Type 0} (f : Memory → A) → IsTidy n Any (read f)
unfolding read
IsTidy-read n f = record { run = λ slack s v h. (tt, v, omega arith) }

pub IsTidy-write : (n : ℕ) (f : Memory → Memory) → IsTidy n Any (write f)
unfolding write
IsTidy-write n f = record { run = λ slack s v h. (tt, v, omega arith) }

-- A call that changes memory only, and never fails.
pub IsTidy-on_memory :
    (n : ℕ) (f : Memory → Option Memory)
    → ((m : Memory) → (m' : Memory) × (f m ≡ some m'))
    → IsTidy n Any (on_memory f)
unfolding on_memory put
IsTidy-on_memory n f h = record { run = λ slack s v k. stored slack s (f s.memory) v (h s.memory) }
  where
    stored :
        (slack : ℕ) (s : State) (o : Option Memory)
        → IsValid slack s.stream
        → ((m' : Memory) × (o ≡ some m'))
        → Ends slack (Any {A = Unit {0}}) s.stream.bytes_left (streamed (put o s))
    stored slack s none v (m', e) = absurd (distinct e)
      where
        distinct : none ≡ some m' → ⊥
        distinct e = cc
    stored slack s (some m) v h = (tt, v, omega arith)

module _ (n : ℕ) {A B : Type 0} (Q : A → Type 0) (R : B → Type 0) where
  pub IsTidy-continue :
      (slack left : ℕ) (f : A → Action B) (r : Outcome A × State)
      → left ≤ n
      → ((a : A) → Q a → IsTidy n R (f a))
      → Ends slack Q left (streamed r)
      → Ends slack R left (streamed (continue f r))
  IsTidy-continue slack left f (ok a, s) l k (q, v, h) =
      Ends-raise slack R s.stream.bytes_left left (f a s) ((k a q).run slack s v (omega arith)) h
  IsTidy-continue slack left f (failed, s) l k e = e
  IsTidy-continue slack left f (fault, s) l k e = elim e [ ]

  pub IsTidy-bind :
      (m : Action A) (f : A → Action B)
      → IsTidy n Q m
      → ((a : A) → Q a → IsTidy n R (f a))
      → IsTidy n R (m >>= f)
  IsTidy-bind m f hm hf = record {
    run =
        λ slack s v h. IsTidy-continue slack s.stream.bytes_left f (m s) h hf (hm.run slack s v h);
  }

  greedy-continue :
      (slack left : ℕ) (f : A → Action B) (r : Outcome A × State)
      → left ≤ n
      → ((a : A) → Q a → IsTidy n R (f a))
      → Spends slack Q left (streamed r)
      → Spends slack R left (streamed (continue f r))
  greedy-continue slack left f (ok a, s) l k (q, v, h) =
      spent (f a s) ((k a q).run slack s v (omega arith))
    where
      spent :
          (r : Outcome B × State)
          → Ends slack R s.stream.bytes_left (streamed r)
          → Spends slack R left (streamed r)
      spent (ok b, t) (q', w, g) = (q', w, omega arith)
      spent (failed, t) (w, g) = (w, omega arith)
      spent (fault, t) e = e
  greedy-continue slack left f (failed, s) l k e = e
  greedy-continue slack left f (fault, s) l k e = elim e [ ]

  pub IsGreedy-bind :
      (m : Action A) (f : A → Action B)
      → IsGreedy n Q m
      → ((a : A) → Q a → IsTidy n R (f a))
      → IsGreedy n R (m >>= f)
  IsGreedy-bind m f hm hf = record {
    run =
        λ slack s v h. greedy-continue slack s.stream.bytes_left f (m s) h hf (hm.run slack s v h);
  }

pub IsTidy-weaken :
    (n : ℕ)
    → {A : Type 0} (Q R : A → Type 0) (m : Action A) → ((a : A) → Q a → R a)
    → IsTidy n Q m
    → IsTidy n R m
IsTidy-weaken n {A} Q R m k h = record {
  run = λ slack s v l. weaker slack s.stream.bytes_left (m s) (h.run slack s v l);
}
  where
    weaker :
        (slack left : ℕ) (r : Outcome A × State)
        → Ends slack Q left (streamed r)
        → Ends slack R left (streamed r)
    weaker slack left (ok a, t) (q, w, e) = (k a q, w, e)
    weaker slack left (failed, t) e = e
    weaker slack left (fault, t) e = e

-- What takes a byte leaves fewer bytes to what follows it.
pub IsTidy-spend :
    (n : ℕ)
    → {A B : Type 0} (Q : A → Type 0) (R : B → Type 0) (m : Action A) (f : A → Action B)
    → IsGreedy n Q m
    → ((a : A) → Q a → IsTidy (n - 1) R (f a))
    → IsTidy n R (m >>= f)
IsTidy-spend n {A} {B} Q R m f hm hf = record {
  run = λ slack s v h. spent slack s.stream.bytes_left (m s) h (hm.run slack s v h);
}
  where
    spent :
        (slack left : ℕ) (r : Outcome A × State)
        → left ≤ n
        → Spends slack Q left (streamed r)
        → Ends slack R left (streamed (continue f r))
    spent slack left (ok a, s) l (q, v, h) =
        Ends-raise slack R s.stream.bytes_left left (f a s) ((hf a q).run slack s v (omega arith))
          (omega arith)
    spent slack left (failed, s) l e = e
    spent slack left (fault, s) l e = elim e [ ]

pub IsGreedy-IsTidy :
    (n : ℕ) → {A : Type 0} (Q : A → Type 0) (m : Action A) → IsGreedy n Q m → IsTidy n Q m
IsGreedy-IsTidy n Q m h = record {
  run = λ slack s v l. Spends-Ends slack Q s.stream.bytes_left (streamed (m s)) (h.run slack s v l);
}

pub IsGreedy-if :
    (n : ℕ)
    → {A : Type 0} (Q : A → Type 0) (b : Bool) (m k : Action A) → (b ≡ true → IsGreedy n Q m)
    → (b ≡ false → IsGreedy n Q k)
    → IsGreedy n Q (if b then m else k)
IsGreedy-if n Q true m k hm hk = hm refl
IsGreedy-if n Q false m k hm hk = hk refl

-- An error on a stream in order.
pub return_error-Ends :
    (slack : ℕ)
    → {A : Type 0} (Q : A → Type 0) (m : Message) (t : IStream) (memory : Memory) → IsValid slack t
    → Ends slack Q t.bytes_left (streamed (return_error m (record { stream = t; memory = memory })))
return_error-Ends slack Q m t memory v =
    (IsTidy-return_error t.bytes_left Q m).run slack (record { stream = t; memory = memory }) v
      (omega arith)

-- On fewer bytes.
pub IsTidy-less :
    (n k : ℕ) → {A : Type 0} (Q : A → Type 0) (m : Action A) → k ≤ n → IsTidy n Q m → IsTidy k Q m
IsTidy-less n k Q m l h = record { run = λ slack s v b. h.run slack s v (omega arith) }

pub IsGreedy-less :
    (n k : ℕ)
    → {A : Type 0} (Q : A → Type 0) (m : Action A) → k ≤ n
    → IsGreedy n Q m
    → IsGreedy k Q m
IsGreedy-less n k Q m l h = record { run = λ slack s v b. h.run slack s v (omega arith) }

-- The two parts of a test.
pub and_left : (x y : Bool) → (x && y) ≡ true → x ≡ true
and_left true y e = refl
and_left false y e = e

pub and_right : (x y : Bool) → (x && y) ≡ true → y ≡ true
and_right true y e = e
and_right false y e = absurd (no e)
  where
    no : false ≡ true → ⊥
    no e = cc
