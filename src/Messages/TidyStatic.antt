-- ===== src/Messages/TidyStatic.antt =====
-- The fields in a message's structure leave the stream in order.
use thermo_check.Common.{
  ℕ, zero, suc, ◌+◌, ◌-◌, ◌≤◌, ◌<◌, ◌≡◌, true, not, ◌&&◌, ltb, leb, ◌==◌, inl, inr, Bool-cases,
  arith,
}
use thermo_check.Common.Exec.{Outcome, ok, failed, fault}
use thermo_check.Message.{array_overflow}
use thermo_check.Memory.{load}
use thermo_check.Fields.{
  Field, Iter, ltype, htype, required, optional, repeated, last_packable, submessage_type,
}
use thermo_check.Input.{IStream}
use thermo_check.Input.Sound.{IsValid, Any, Ends}
use thermo_check.Wire.{wt_string}
use thermo_check.Messages.{Env, State, read, write}
use thermo_check.Messages.Values.{
  Nested, decode_value, increment, packed_items, finish_packed, decode_packed, decode_repeated,
  start_oneof, decode_static_field,
}
use thermo_check.Messages.Tidy.{
  streamed, IsTidy, IsTidy-return_error, IsTidy-if, IsTidy-read, IsTidy-write, IsTidy-on_memory,
  IsTidy-bind, IsTidy-spend, IsGreedy-less, and_left, and_right, return_error-Ends,
}
use thermo_check.Messages.Nesting.{IsUsable, IsFine}
use thermo_check.Messages.Substreams.{close_substream-Ends, IsTidy-with_substream}
use thermo_check.Messages.Recursion.{pb_message_set_to_defaults-IsSome}
use thermo_check.Messages.TidyValues.{IsTidyNested, decode_value-IsGreedy, decode_value-IsTidy}

module _ (env : Env) (n : ℕ) (nested : Nested) (h : IsTidyNested env n nested) (f : Field) where
  -- The loop over a packed array in the structure.
  packed_items-IsTidy :
      (iter : Iter) (fuel k : ℕ)
      → leb (ltype f.type) last_packable ≡ true
      → k ≤ n
      → k < fuel
      → IsTidy k Any (packed_items (decode_value env nested f) f iter fuel)
  unfolding packed_items
  packed_items-IsTidy iter zero k p m l = absurd (omega arith)
  packed_items-IsTidy iter (suc fuel) k p m l = record {
    run = λ slack s v b.
        elim (Bool-cases
          (ltb 0 s.stream.bytes_left && ltb (load 4 s.memory iter.p_size) f.array_size)) [
            | inl e ↦ rw e (
                (IsTidy-spend s.stream.bytes_left Any Any _ _
                    (IsGreedy-less n s.stream.bytes_left Any _ (omega arith)
                      (decode_value-IsGreedy env n nested h f _ p))
                    (λ _ _.
                      IsTidy-bind (s.stream.bytes_left - 1) Any Any (increment iter.p_size) _
                        (IsTidy-write _ _)
                        (λ _ _.
                          packed_items-IsTidy iter fuel (s.stream.bytes_left - 1) p (omega arith)
                            (fewer s fuel k e b l)))).run
                  slack s v (omega arith))
            | inr e ↦ rw e (tt, v, omega arith)
          ];
  }
    where
      fewer :
          (s : State) (fuel k : ℕ)
          → (ltb 0 s.stream.bytes_left && ltb (load 4 s.memory iter.p_size) f.array_size) ≡ true
          → s.stream.bytes_left ≤ k
          → k < suc fuel
          → s.stream.bytes_left - 1 < fuel
      fewer s fuel k e b l = ground (arith, and_left (ltb 0 s.stream.bytes_left) _ e)

  finish_packed-Ends :
      (slack : ℕ) (t : IStream) (sub : ℕ) (r : Outcome (Unit {0}) × State)
      → IsValid slack t
      → Ends (t.bytes_left + slack) Any sub (streamed r)
      → Ends slack Any t.bytes_left (streamed (finish_packed t r))
  unfolding finish_packed
  finish_packed-Ends slack t sub (ok a, s) v e = elim (Bool-cases (s.stream.bytes_left == 0)) [
    | inl z ↦ rw z (close_substream-Ends slack Any t sub (ok a, s) v e)
    | inr z ↦ rw z (return_error-Ends slack Any array_overflow t s.memory v)
  ]
  finish_packed-Ends slack t sub (failed, s) v e = elim (Bool-cases (s.stream.bytes_left == 0)) [
    | inl z ↦ rw z (close_substream-Ends slack Any t sub (failed, s) v e)
    | inr z ↦ rw z (return_error-Ends slack Any array_overflow t s.memory v)
  ]
  finish_packed-Ends slack t sub (fault, s) v e = e

  decode_packed-IsTidy :
      (iter : Iter)
      → leb (ltype f.type) last_packable ≡ true
      → IsTidy n Any (decode_packed (decode_value env nested f) f iter)
  unfolding decode_packed
  decode_packed-IsTidy iter p =
      IsTidy-with_substream n Any finish_packed _
        (λ _. record {
          run = λ slack s v b.
              (packed_items-IsTidy iter (suc s.stream.bytes_left) s.stream.bytes_left p
                  (omega arith) (omega arith)).run
                slack s v (omega arith);
        })
        finish_packed-Ends

  module _ (u : IsUsable env (IsFine env) f) where
    decode_repeated-IsTidy :
        (iter : Iter) → IsTidy n Any (decode_repeated (decode_value env nested f) f iter)
    unfolding decode_repeated
    decode_repeated-IsTidy iter = IsTidy-bind n Any Any (read _) _ (IsTidy-read n _) (λ size _.
        IsTidy-bind n Any Any (increment iter.p_size) _ (IsTidy-write n _) (λ _ _.
          IsTidy-if n Any (leb f.array_size size) _ _
            (λ _. IsTidy-return_error n Any array_overflow)
            (λ _. decode_value-IsTidy env n nested h f _ u)))

    start_oneof-IsTidy : (iter : Iter) → IsTidy n Any (start_oneof env f iter)
    unfolding start_oneof
    start_oneof-IsTidy iter = record {
      run = λ slack s v b.
          elim (Bool-cases
            (ltype f.type == submessage_type && not (load 4 s.memory iter.p_size == f.tag))) [
              | inl e ↦ rw e (
                  (IsTidy-on_memory n _ (λ m.
                      pb_message_set_to_defaults-IsSome env (env.table f.ptr) iter.p_data _
                        (u.2 (and_left _ _ e)))).run
                    slack s v b)
              | inr e ↦ rw e (tt, v, omega arith)
            ];
    }

    pub decode_static_field-IsTidy :
        (wire_type : ℕ) (iter : Iter)
        → IsTidy n Any (decode_static_field env nested wire_type iter f)
    unfolding decode_static_field
    decode_static_field-IsTidy wire_type iter =
        IsTidy-if n Any (htype f.type == required) _ _
          (λ _. decode_value-IsTidy env n nested h f iter.p_data u)
          (λ _.
            IsTidy-if n Any (htype f.type == optional) _ _
              (λ _.
                IsTidy-bind n Any Any (write _) _ (IsTidy-write n _)
                  (λ _ _. decode_value-IsTidy env n nested h f iter.p_data u))
              (λ _.
                IsTidy-if n Any (htype f.type == repeated) _ _
                  (λ _.
                    IsTidy-if n Any (wire_type == wt_string && leb (ltype f.type) last_packable) _ _
                      (λ e. decode_packed-IsTidy iter (and_right _ _ e))
                      (λ _. decode_repeated-IsTidy iter))
                  (λ _.
                    IsTidy-bind n Any Any (start_oneof env f iter) _ (start_oneof-IsTidy iter)
                      (λ _ _.
                        IsTidy-bind n Any Any (write _) _ (IsTidy-write n _)
                          (λ _ _. decode_value-IsTidy env n nested h f iter.p_data u)))))
