-- ===== src/Output/Sound.antt =====
-- What writing promises on a stream that is in order: nothing is written behind `max_size`, so
-- nothing outside the memory, and `bytes_written` counts what was written.
use thermo_check.Common.{
  sym, ℕ, zero, suc, ◌+◌, ◌^◌, ◌≤◌, ◌<◌, ◌≡◌, refl, Bool, true, false, ◌&&◌, ◌||◌, Option, List,
  inl, inr, length, length-append, take, length-take, ltb, leb, if◌then◌else◌, arith, Bool-cases,
}
use thermo_check.Message.{Message, stream_full}
use thermo_check.Common.Exec.{Outcome, ok, failed, fault, continue, ◌>>=◌}
use thermo_check.Output.{
  Sink, sizing, memory, custom, OStream, Encoder, return_error, has_callback, written, buf_write,
  call_callback, add_size, after_callback, pb_write,
}

-- Of a stream over memory: `bytes_written` is the number of bytes written, within `max_size`, and the
-- memory reaches to `max_size`.
abbrev pub IsRoomy : Sink → ℕ → ℕ → Type 0
IsRoomy sizing max_size n = Unit
IsRoomy (memory out room) max_size n = (n ≡ length out) × (n ≤ max_size) × (max_size ≤ n + room)
IsRoomy (custom f state) max_size n = n ≤ max_size

pub record IsOpen (s : OStream) : Type 0 where
  pub roomy : IsRoomy s.sink s.max_size s.bytes_written
  pub word : s.max_size < 2 ^ 64

-- The call returned, and left a stream in order with the same limit.
abbrev pub Keeps : ℕ → Outcome (Unit {0}) × OStream → Type 0
Keeps max_size (ok _, s) = IsOpen s × (s.max_size ≡ max_size)
Keeps max_size (failed, s) = IsOpen s × (s.max_size ≡ max_size)
Keeps max_size (fault, s) = ⊥

pub record IsSafe (m : Encoder) : Type 0 where
  pub run : (s : OStream) → IsOpen s → Keeps s.max_size (m s)

pub IsSafe-return_error : (m : Message) → IsSafe (return_error m)
unfolding return_error
IsSafe-return_error m = record { run = λ s v. (record { roomy = v.roomy; word = v.word }, refl) }

-- The callback is called for bytes that fit.
called :
    (sink : Sink) (max_size n : ℕ) (errmsg : Option Message) (buf : List ℕ)
    → IsRoomy sink max_size n
    → max_size < 2 ^ 64
    → n + length buf ≤ max_size
    → has_callback sink ≡ true
    → Keeps max_size (
        after_callback
          (length buf)
          (record { sink = sink; max_size = max_size; bytes_written = n; errmsg = errmsg })
          (call_callback sink buf (length buf)))
unfolding after_callback call_callback buf_write return_error
called sizing max_size n e buf r w h c = cc
called (memory out room) max_size n e buf r w h c = rw fits (
  record {
    roomy = (
      omega (arith, length-append out (take (length buf) buf), length-take (length buf) buf),
      omega arith,
      omega arith,
    );
    word = w;
  },
  refl,
)
  where
    fits : (leb (length buf) room && leb (length buf) (length buf)) ≡ true
    fits = ground arith
called (custom f state) max_size n e buf r w h c =
    rw whole (answered (f state (take (length buf) buf)).0)
  where
    whole : leb (length buf) (length buf) ≡ true
    whole = ground arith

    answered :
        (b : Bool)
        → Keeps max_size (
            after_callback
              (length buf)
              (record { sink = custom f state; max_size = max_size; bytes_written = n; errmsg = e })
              (written b, custom f (f state (take (length buf) buf)).1))
    answered true = (record { roomy = (omega arith); word = w }, refl)
    answered false = (record { roomy = r; word = w }, refl)

nothing :
    (n count max_size : ℕ)
    → (ltb 0 count && true) ≡ false
    → n ≤ max_size
    → max_size < 2 ^ 64
    → add_size n count ≡ n
nothing n zero max_size e r w = omega arith
nothing n (suc count) max_size e r w = ground arith

uncalled :
    (sink : Sink) (max_size n count : ℕ)
    → IsRoomy sink max_size n
    → (ltb 0 count && has_callback sink) ≡ false
    → max_size < 2 ^ 64
    → IsRoomy sink max_size (add_size n count)
uncalled sizing max_size n count r e w = tt
uncalled (memory out room) max_size n count r e w =
    (let (a, b, c) = r in rw (nothing n count max_size e b w) (a, b, c))
uncalled (custom f state) max_size n count r e w = rw (nothing n count max_size e r w) r

no_callback : (b : Bool) → (b && false) ≡ true → ⊥
no_callback true e = cc
no_callback false e = cc

within :
    (sink : Sink) (max_size n count : ℕ)
    → IsRoomy sink max_size n
    → max_size < 2 ^ 64
    → count < 2 ^ 64
    → (ltb 0 count && has_callback sink) ≡ true
    → (ltb (add_size n count) n || ltb max_size (add_size n count)) ≡ false
    → (n + count ≤ max_size) × (has_callback sink ≡ true)
within sizing max_size n count r w l e f = elim (no_callback (ltb 0 count) e) [ ]
within (memory out room) max_size n count r w l e f = (ground arith, refl)
within (custom g state) max_size n count r w l e f = (ground arith, refl)

-- `pb_write` of a whole buffer on a stream in order.
pub pb_write-IsSafe : (buf : List ℕ) → length buf < 2 ^ 64 → IsSafe (pb_write buf (length buf))
unfolding pb_write
pb_write-IsSafe buf l = record { run = write }
  where
    write : (s : OStream) → IsOpen s → Keeps s.max_size (pb_write buf (length buf) s)
    write s v = elim (Bool-cases (ltb 0 (length buf) && has_callback s.sink)) [
      | inl e ↦
          rw e
            (elim (Bool-cases (
              ltb (add_size s.bytes_written (length buf)) s.bytes_written
              || ltb s.max_size (add_size s.bytes_written (length buf)))) [
                | inl f ↦ rw f ((IsSafe-return_error stream_full).run s v)
                | inr f ↦ rw f (
                    let (fits, has) =
                      within s.sink s.max_size s.bytes_written (length buf) v.roomy v.word l e f in
                    called s.sink s.max_size s.bytes_written s.errmsg buf v.roomy v.word fits has)
              ])
      | inr e ↦ rw e (
        record {
          roomy = uncalled s.sink s.max_size s.bytes_written (length buf) v.roomy e v.word;
          word = v.word;
        },
        refl,
      )
    ]

module _ (m : Encoder) (f : Unit {0} → Encoder) where
  carried :
      (max_size : ℕ) (r : Outcome (Unit {0}) × OStream)
      → ((a : Unit {0}) → IsSafe (f a))
      → Keeps max_size r
      → Keeps max_size (continue f r)
  carried max_size (ok a, s) k (o, e) = rw (sym e) ((k a).run s o)
  carried max_size (failed, s) k e = e
  carried max_size (fault, s) k e = elim e [ ]

  pub IsSafe-bind : IsSafe m → ((a : Unit {0}) → IsSafe (f a)) → IsSafe (m >>= f)
  IsSafe-bind h k = record { run = λ s o. carried s.max_size (m s) k (h.run s o) }

pub IsSafe-if : (b : Bool) (m n : Encoder) → IsSafe m → IsSafe n → IsSafe (if b then m else n)
IsSafe-if true m n hm hn = hm
IsSafe-if false m n hm hn = hn
