-- ===== src/Messages/Sound.antt =====
-- Whole messages: decoding comes to an end, touches no memory outside the buffer, and leaves the stream in
-- order, whatever bytes it holds and whatever is in memory.
use thermo_check.Common.{
  ℕ, zero, suc, ◌+◌, ◌-◌, ◌*◌, ◌^◌, ◌≤◌, ◌<◌, ◌≡◌, Bool, true, List, some, arith,
}
use thermo_check.Common.Exec.{Outcome, ok, failed, fault, ◌>>=◌, ◌>>◌}
use thermo_check.Memory.{store}
use thermo_check.Fields.{Field, Iter, pb_field_iter_begin}
use thermo_check.Fields.Tables.{IsIn, begin-IsIn}
use thermo_check.Input.Sound.{IsValid, Any, Ends}
use thermo_check.Messages.{Env, State, Action, write, demand, on_memory}
use thermo_check.Messages.Defaults.{pb_message_set_to_defaults}
use thermo_check.Messages.Release.{pb_release}
use thermo_check.Messages.Values.{Nested}
use thermo_check.Messages.Decode.{
  one_field, fields_loop, check_message, initial_locals, decode_fields, release_failed, decode_with,
  noinit, pb_decode_noinit, pb_decode, pb_decode_delimited,
}
use thermo_check.Messages.Tidy.{
  streamed, Ends-raise, IsTidy, IsTidy-write, IsTidy-on_memory, IsTidy-demand, IsTidy-bind,
  IsTidy-less,
}
use thermo_check.Messages.Nesting.{IsFine, IsFine-IsMore}
use thermo_check.Messages.TidyValues.{IsTidyNested}
use thermo_check.Messages.TidyFields.{IsCallback}
use thermo_check.Messages.TidyRounds.{Holds, fields_loop-IsTidy, check_message-IsTidy}
use thermo_check.Messages.Substreams.{IsTidy-in_substream}
use thermo_check.Messages.Recursion.{pb_message_set_to_defaults-IsSome, pb_release-IsSome}

module _ (env : Env)
    (calls : (address : ℕ) (f : Field) (arg : ℕ) → IsCallback (env.callback address f arg)) where
  decode_fields-IsTidy :
      (n : ℕ) (nested : Nested) (local : ℕ) (fields : List Field) (dest : ℕ)
      → IsTidyNested env n nested
      → IsFine env fields
      → IsTidy n Any (decode_fields env nested local fields dest)
  unfolding decode_fields
  decode_fields-IsTidy n nested local fields dest h fine = record {
    run = λ slack s v b.
        (all s.stream.bytes_left (suc s.stream.bytes_left) b (omega arith)).run slack s v
          (omega arith);
  }
    where
      begun : (r : Bool × Iter) × (pb_field_iter_begin fields dest ≡ some r) × IsIn fields r.1
      begun =
          let (iter, e, v, q) = begin-IsIn fields dest (IsFine-IsMore env fields fine) in
          ((true, iter), e, v)

      all :
          (k fuel : ℕ)
          → k ≤ n
          → k < fuel
          → IsTidy k Any (
              demand (pb_field_iter_begin fields dest) >>= λ r.
              write (λ m. store 4 m local 0) >>= λ _.
              fields_loop (one_field env nested local) fuel (initial_locals r) >>= λ l.
              check_message local l)
      all k fuel l m =
          IsTidy-bind k (λ (r : Bool × Iter). IsIn fields r.1) Any
            (demand (pb_field_iter_begin fields dest)) _
            (IsTidy-demand k (λ (r : Bool × Iter). IsIn fields r.1) _ begun)
            (λ r v. IsTidy-bind k Any Any (write _) _ (IsTidy-write k _) (λ _ _.
              IsTidy-bind k (Holds env calls n nested h fields fine) Any
                (fields_loop (one_field env nested local) fuel (initial_locals r)) _
                (fields_loop-IsTidy env calls n nested h fields fine local fuel k (initial_locals r)
                  l m v)
                (λ t w.
                  IsTidy-less n k Any _ l
                    (check_message-IsTidy env calls n nested h fields fine local t w))))

  released :
      (n : ℕ) (fields : List Field) (dest : ℕ) (m : Action (Unit {0}))
      → IsFine env fields
      → IsTidy n Any m
      → IsTidy n Any (λ s. release_failed env fields dest (m s))
  unfolding release_failed
  released n fields dest m fine h = record {
    run = λ slack s v b. after slack s.stream.bytes_left (m s) b (h.run slack s v b);
  }
    where
      after :
          (slack left : ℕ) (r : Outcome (Unit {0}) × State)
          → left ≤ n
          → Ends slack Any left (streamed r)
          → Ends slack Any left (streamed (release_failed env fields dest r))
      after slack left (ok a, s) l e = e
      after slack left (failed, s) l (v, k) =
          Ends-raise slack Any s.stream.bytes_left left
            ((on_memory (pb_release env fields dest) >> (λ t. (failed, t))) s)
            ((IsTidy-bind n Any Any (on_memory (pb_release env fields dest)) (λ _ t. (failed, t))
                (IsTidy-on_memory n _ (λ memory. pb_release-IsSome env fields dest memory fine))
                (λ _ _. record { run = λ slack' t w b. (w, omega arith) })).run
              slack s v (omega arith))
            k
      after slack left (fault, s) l e = e

  decode_with-IsTidy :
      (n : ℕ) (fields : List Field) (dest : ℕ) (decode : List Field → ℕ → Action (Unit {0}))
      → IsFine env fields
      → IsTidy n Any (decode fields dest)
      → IsTidy n Any (decode_with env decode fields dest)
  unfolding decode_with
  decode_with-IsTidy n fields dest decode fine h =
      IsTidy-bind n Any Any (on_memory (pb_message_set_to_defaults env fields dest)) _
        (IsTidy-on_memory n _
          (λ memory. pb_message_set_to_defaults-IsSome env fields dest memory fine))
        (λ _ _. released n fields dest (decode fields dest) fine h)

  -- Fuel for one more than the bytes is enough.
  noinit-IsTidy :
      (fuel n : ℕ)
      → n < fuel
      → (fields : List Field) (dest : ℕ) → IsFine env fields
      → IsTidy n Any (noinit env fuel fields dest)
  unfolding noinit
  noinit-IsTidy zero = λ n l fields dest fine. absurd (omega arith)
  noinit-IsTidy (suc fuel) = λ n l fields dest fine.
      decode_fields-IsTidy n _ (2 ^ 64 + 4 * fuel) fields dest
        (λ k b ptr dest' sub. (
          decode_with-IsTidy k (env.table ptr) dest' (noinit env fuel) sub
              (noinit-IsTidy fuel k (omega arith) (env.table ptr) dest' sub),
          noinit-IsTidy fuel k (omega arith) (env.table ptr) dest' sub,
        ))
        fine

  noinit_left :
      (n : ℕ) (fields : List Field) (dest : ℕ)
      → IsFine env fields
      → IsTidy n Any (pb_decode_noinit env fields dest)
  unfolding pb_decode_noinit
  noinit_left n fields dest fine = record {
    run = λ slack s v b.
        (noinit-IsTidy (suc s.stream.bytes_left) s.stream.bytes_left (omega arith) fields dest
            fine).run
          slack s v (omega arith);
  }

  decode_left :
      (n : ℕ) (fields : List Field) (dest : ℕ)
      → IsFine env fields
      → IsTidy n Any (pb_decode env fields dest)
  unfolding pb_decode
  decode_left n fields dest fine =
      decode_with-IsTidy n fields dest (pb_decode_noinit env) fine (noinit_left n fields dest fine)

-- On a stream in order, over a buffer or over a callback that stores what it says, for a table of
-- fields whose submessages are nested to the depth that the environment sets, each table with a
-- field that is not the last, its fields of the types of PB_DECODERS, not extensions, and of a size
-- that is not 0, and for user's callbacks that use the stream in order and read something or fail
-- where there is something to read, `pb_decode` returns, whatever bytes the stream and whatever
-- bytes memory hold: the loops over fields, arrays and callbacks and the calls for submessages come
-- to an end, also where the message is released after an error. It touches no memory outside the
-- buffer of the stream, reads no field behind the end of a table and divides by no 0, and leaves
-- the stream in order, with no more bytes left than before.
pub pb_decode-Ends :
    (env : Env) (fields : List Field) (dest slack : ℕ) (s : State)
    → ((address : ℕ) (f : Field) (arg : ℕ) → IsCallback (env.callback address f arg))
    → IsFine env fields
    → IsValid slack s.stream
    → Ends slack Any s.stream.bytes_left (streamed (pb_decode env fields dest s))
pb_decode-Ends env fields dest slack s calls fine v =
    (decode_left env calls s.stream.bytes_left fields dest fine).run slack s v (omega arith)

-- On a stream in order, over a buffer or over a callback that stores what it says, for a table of
-- fields whose submessages are nested to the depth that the environment sets, each table with a
-- field that is not the last, its fields of the types of PB_DECODERS, not extensions, and of a size
-- that is not 0, and for user's callbacks that use the stream in order and read something or fail
-- where there is something to read, `pb_decode_delimited` returns, whatever bytes the stream and
-- whatever bytes memory hold. It touches no memory outside the buffer of the stream, reads no field behind the end of a
-- table and divides by no 0, and leaves the stream in order, with no more bytes left than before.
pub pb_decode_delimited-Ends :
    (env : Env) (fields : List Field) (dest slack : ℕ) (s : State)
    → ((address : ℕ) (f : Field) (arg : ℕ) → IsCallback (env.callback address f arg))
    → IsFine env fields
    → IsValid slack s.stream
    → Ends slack Any s.stream.bytes_left (streamed (pb_decode_delimited env fields dest s))
unfolding pb_decode_delimited
pb_decode_delimited-Ends env fields dest slack s calls fine v =
    (IsTidy-in_substream s.stream.bytes_left Any (pb_decode env fields dest)
        (decode_left env calls (s.stream.bytes_left - 1) fields dest fine)).run
      slack s v (omega arith)
