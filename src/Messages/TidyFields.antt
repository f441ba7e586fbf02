-- ===== src/Messages/TidyFields.antt =====
-- Fields that a callback reads, and any field: the stream is left in order, and the iterator in its table.
use thermo_check.Common.{
  ℕ, zero, suc, ◌+◌, ◌≤◌, ◌<◌, ◌≡◌, ◌⊎◌, refl, Bool, true, false, ◌||◌, ◌==◌, inl, inr, List,
  length, Option, none, some, All, Bool-cases, arith,
}
use thermo_check.Common.Exec.{Outcome, ok, failed, fault, pure, continue}
use thermo_check.Message.{callback_failed, invalid_field_type, invalid_union_tag, iterator_error}
use thermo_check.Memory.{add_address}
use thermo_check.Fields.{
  Field, Iter, htype, atype, oneof, static, callback, pointer, current, has_tag, pb_field_iter_find,
}
use thermo_check.Fields.Tables.{IsMore, IsIn}
use thermo_check.Fields.Search.{Found, pb_field_iter_find-Found}
use thermo_check.Input.{IStream, pb_istream_from_buffer}
use thermo_check.Input.Sound.{IsByte, IsValid, Any, Ends}
use thermo_check.Wire.{wt_string, pb_skip_field, read_raw_value}
use thermo_check.Wire.Sound.{pb_skip_field-IsSound, read_raw_value-IsSound}
use thermo_check.Messages.{Env, State, Action, on_stream, read, write, demand, on_memory}
use thermo_check.Messages.Release.{
  restore_union, release_union, pb_release_union_field, pb_release_single_field,
}
use thermo_check.Messages.Values.{Nested}
use thermo_check.Messages.Callbacks.{
  until_empty, callback_loop, finish_callback, from_buffer, call_decode, decode_callback_field,
}
use thermo_check.Messages.Fields.{decode_by_atype, decode_field}
use thermo_check.Messages.Tidy.{
  streamed, Ends-raise, IsTidy, IsTidy-pure, IsTidy-on_stream, IsTidy-return_error, IsTidy-if,
  IsTidy-read, IsTidy-write, IsTidy-on_memory, IsTidy-demand, IsTidy-bind, return_error-Ends,
}
use thermo_check.Messages.Nesting.{IsUsable, IsFine, IsFine-All, current-All}
use thermo_check.Messages.TidyValues.{IsTidyNested}
use thermo_check.Messages.TidyStatic.{decode_static_field-IsTidy}
use thermo_check.Messages.TidyPointers.{decode_pointer_field-IsTidy}
use thermo_check.Messages.Substreams.{close_substream-Ends, IsTidy-with_substream}
use thermo_check.Messages.Recursion.{pb_release_single_field-IsSome}

-- As `Ends`, where an ok leaves fewer bytes, or none.
abbrev pub Drains : ℕ → ℕ → Outcome (Unit {0}) × IStream → Type 0
Drains slack left (ok a, s) = IsValid slack s × ((s.bytes_left < left) ⊎ (s.bytes_left ≡ 0))
Drains slack left (failed, s) = IsValid slack s × (s.bytes_left ≤ left)
Drains slack left (fault, s) = ⊥

-- The contract of a user's callback: it reads something or fails, where there is something to read, and
-- uses the stream by the functions for it.
abbrev pub IsCallback : Action (Unit {0}) → Type 0
IsCallback decode =
    (slack : ℕ) (s : State)
    → IsValid slack s.stream
    → Drains slack s.stream.bytes_left (streamed (decode s))

-- A round on a substream, with `again` for the others.
callback_round-Ends :
    (slack left : ℕ) (again : Action (Unit {0})) (r : Outcome (Unit {0}) × State)
    → ((s : State)
        → IsValid slack s.stream
        → s.stream.bytes_left < left
        → Ends slack Any s.stream.bytes_left (streamed (again s)))
    → Drains slack left (streamed r)
    → Ends slack Any left (streamed (continue (λ _. until_empty again) r))
unfolding until_empty
callback_round-Ends slack left again (ok a, s) k (v, d) =
    elim (Bool-cases (s.stream.bytes_left == 0)) [
      | inl e ↦ rw e (tt, v, ground arith)
      | inr e ↦ rw e (
          Ends-raise slack Any s.stream.bytes_left left (again s) (k s v (ground arith))
            (ground arith))
    ]
callback_round-Ends slack left again (failed, s) k e = e
callback_round-Ends slack left again (fault, s) k e = e

module _ (decode : Action (Unit {0})) (h : IsCallback decode) where
  callback_loop-Ends :
      (slack fuel : ℕ) (s : State)
      → IsValid slack s.stream
      → s.stream.bytes_left < fuel
      → Ends slack Any s.stream.bytes_left (streamed (callback_loop decode fuel s))
  unfolding callback_loop
  callback_loop-Ends slack zero = λ s v l. absurd (omega arith)
  callback_loop-Ends slack (suc fuel) = λ s v l.
      callback_round-Ends slack s.stream.bytes_left (callback_loop decode fuel) (decode s)
        (λ t w k. callback_loop-Ends slack fuel t w (omega arith)) (h slack s v)

  from_buffer-IsTidy :
      (n : ℕ) (bytes : List ℕ)
      → length bytes ≤ 10
      → All IsByte bytes
      → IsTidy n Any (from_buffer decode bytes)
  unfolding pb_istream_from_buffer
  from_buffer-IsTidy n bytes l b = record {
    run = λ slack s v k.
        kept slack s v
          (decode
            (record { stream = pb_istream_from_buffer bytes (length bytes); memory = s.memory }))
          (h 0 (record { stream = pb_istream_from_buffer bytes (length bytes); memory = s.memory })
            (record { ready = (omega arith, b); word = omega arith }));
  }
    where
      kept :
          (slack : ℕ) (s : State)
          → IsValid slack s.stream
          → (r : Outcome (Unit {0}) × State) → Drains 0 (length bytes) (streamed r)
          → Ends slack Any s.stream.bytes_left (r.0, s.stream)
      kept slack s v (ok a, t) e = (tt, v, omega arith)
      kept slack s v (failed, t) e = (v, omega arith)
      kept slack s v (fault, t) e = e

  finish_callback-Ends :
      (slack : ℕ) (t : IStream) (sub : ℕ) (r : Outcome (Unit {0}) × State)
      → IsValid slack t
      → Ends (t.bytes_left + slack) Any sub (streamed r)
      → Ends slack Any t.bytes_left (streamed (finish_callback t r))
  unfolding finish_callback
  finish_callback-Ends slack t sub (ok a, s) v e =
      close_substream-Ends slack Any t sub (ok a, s) v e
  finish_callback-Ends slack t sub (failed, s) v e =
      return_error-Ends slack Any callback_failed t s.memory v
  finish_callback-Ends slack t sub (fault, s) v e = e

  call_decode-IsTidy : (n wire_type : ℕ) → IsTidy n Any (call_decode decode wire_type)
  unfolding call_decode
  call_decode-IsTidy n wire_type = record {
    run = λ slack s v b. elim (Bool-cases (wire_type == wt_string)) [
      | inl e ↦ rw e (
          (IsTidy-with_substream n Any finish_callback _
              (λ _. record {
                run = λ slack' t w l.
                    callback_loop-Ends slack' (suc t.stream.bytes_left) t w (omega arith);
              })
              finish_callback-Ends).run
            slack s v b)
      | inr e ↦ rw e (
          (IsTidy-bind n _ Any (on_stream (read_raw_value wire_type 10)) _
              (IsTidy-on_stream n _ _ (read_raw_value-IsSound wire_type 10 (omega arith)))
              (λ bytes (l, q). from_buffer-IsTidy n bytes l q)).run
            slack s v b)
    ];
  }

decode_callback_field-IsTidy :
    (env : Env) (n wire_type : ℕ) (iter : Iter) (f : Field)
    → ((address arg : ℕ) → IsCallback (env.callback address f arg))
    → IsTidy n Any (decode_callback_field env wire_type iter f)
unfolding decode_callback_field
decode_callback_field-IsTidy env n wire_type iter f h =
    IsTidy-bind n Any Any (read _) _ (IsTidy-read n _) (λ decode _.
      IsTidy-if n Any (iter.p_data == 0 || decode == 0) _ _
        (λ _. IsTidy-on_stream n Any (pb_skip_field wire_type) (pb_skip_field-IsSound wire_type))
        (λ _.
          call_decode-IsTidy (env.callback decode f (add_address iter.p_data 8)) (h decode _) n
            wire_type))

-- What a user's functions promise, and the decoders of submessages.
module _ (env : Env)
    (calls : (address : ℕ) (f : Field) (arg : ℕ) → IsCallback (env.callback address f arg)) (n : ℕ)
    (nested : Nested) (h : IsTidyNested env n nested) (fields : List Field)
    (fine : IsFine env fields) (more : IsMore fields) where
  decode_by_atype-IsTidy :
      (wire_type : ℕ) (iter : Iter) (f : Field)
      → IsIn fields iter
      → IsUsable env (IsFine env) f
      → IsTidy n Any (decode_by_atype env nested wire_type iter f)
  unfolding decode_by_atype
  decode_by_atype-IsTidy wire_type iter f v u =
      IsTidy-if n Any (atype f.type == static) _ _
        (λ _. decode_static_field-IsTidy env n nested h f u wire_type iter)
        (λ _.
          IsTidy-if n Any (atype f.type == pointer) _ _
            (λ _. decode_pointer_field-IsTidy env n nested h f u fields fine iter v wire_type)
            (λ _.
              IsTidy-if n Any (atype f.type == callback) _ _
                (λ _.
                  decode_callback_field-IsTidy env n wire_type iter f
                    (λ address arg. calls address f arg))
                (λ _. IsTidy-return_error n Any invalid_field_type)))

  pub standing :
      (iter : Iter)
      → IsIn fields iter
      → (f : Field) × (current iter ≡ some f) × IsUsable env (IsFine env) f
  standing iter v =
      current-All (IsUsable env (IsFine env)) fields iter v (IsFine-All env fields fine)

  -- A search yields an iterator in the table.
  pub found :
      (iter : Iter) (tag : ℕ)
      → IsIn fields iter
      → (r : Bool × Iter) × (pb_field_iter_find iter tag ≡ some r) × IsIn fields r.1
  found iter tag v =
      by (pb_field_iter_find iter tag) refl (pb_field_iter_find-Found fields iter tag more v)
    where
      by :
          (o : Option (Bool × Iter))
          → pb_field_iter_find iter tag ≡ o
          → Found (has_tag tag) fields iter.pos o
          → (r : Bool × Iter) × (pb_field_iter_find iter tag ≡ some r) × IsIn fields r.1
      by none e h = absurd h
      by (some (true, j)) e h = ((true, j), e, h.0)
      by (some (false, j)) e h = ((false, j), e, h.0)

  restore_union-IsTidy :
      (r : Bool × Iter) → IsIn fields r.1 → IsTidy n (IsIn fields) (restore_union r)
  unfolding restore_union
  restore_union-IsTidy r v =
      IsTidy-if n (IsIn fields) r.0 _ _
        (λ _.
          let (f, e, u) = standing r.1 v in
          IsTidy-bind n Any (IsIn fields) (demand (current r.1)) _
            (IsTidy-demand n Any _ (f, e, tt))
            (λ g _.
              IsTidy-bind n Any (IsIn fields) (write _) _ (IsTidy-write n _)
                (λ _ _. IsTidy-pure n (IsIn fields) r.1 v)))
        (λ _. IsTidy-return_error n _ iterator_error)

  release_union-IsTidy :
      (new_tag : ℕ) (r : Bool × Iter)
      → IsIn fields r.1
      → IsTidy n (IsIn fields) (release_union env new_tag r)
  unfolding release_union
  release_union-IsTidy new_tag r v =
      IsTidy-if n (IsIn fields) r.0 _ _
        (λ _.
          IsTidy-bind n Any (IsIn fields) (on_memory (pb_release_single_field env env.depth r.1)) _
            (IsTidy-on_memory n _ (λ m. pb_release_single_field-IsSome env fields r.1 m fine v))
            (λ _ _.
              IsTidy-bind n (λ back. IsIn fields back.1) (IsIn fields)
                (demand (pb_field_iter_find r.1 new_tag)) _
                (IsTidy-demand n _ _ (found r.1 new_tag v))
                (λ back w. restore_union-IsTidy back w)))
        (λ _. IsTidy-return_error n _ invalid_union_tag)

  pb_release_union_field-IsTidy :
      (iter : Iter) → IsIn fields iter → IsTidy n (IsIn fields) (pb_release_union_field env iter)
  unfolding pb_release_union_field
  pb_release_union_field-IsTidy iter v =
      let (f, e, u) = standing iter v in
      IsTidy-bind n Any (IsIn fields) (read _) _ (IsTidy-read n _) (λ old_tag _.
        IsTidy-bind n Any (IsIn fields) (demand (current iter)) _ (IsTidy-demand n Any _ (f, e, tt))
          (λ g _.
            IsTidy-if n (IsIn fields) (old_tag == 0) _ _ (λ _. IsTidy-pure n (IsIn fields) iter v)
              (λ _.
                IsTidy-if n (IsIn fields) (old_tag == g.tag) _ _
                  (λ _. IsTidy-pure n (IsIn fields) iter v)
                  (λ _.
                    IsTidy-bind n (λ r. IsIn fields r.1) (IsIn fields)
                      (demand (pb_field_iter_find iter old_tag)) _
                      (IsTidy-demand n _ _ (found iter old_tag v))
                      (λ r w. release_union-IsTidy g.tag r w)))))

  pub decode_field-IsTidy :
      (wire_type : ℕ) (iter : Iter)
      → IsIn fields iter
      → IsTidy n (IsIn fields) (decode_field env nested wire_type iter)
  unfolding decode_field
  decode_field-IsTidy wire_type iter v =
      let (f, e, u) = standing iter v in
      IsTidy-bind n Any (IsIn fields) (demand (current iter)) _ (IsTidy-demand n Any _ (f, e, tt))
        (λ g _.
          IsTidy-bind n (IsIn fields) (IsIn fields) _ _
            (IsTidy-if n (IsIn fields) (htype g.type == oneof) (pb_release_union_field env iter)
              (pure iter) (λ _. pb_release_union_field-IsTidy iter v)
              (λ _. IsTidy-pure n (IsIn fields) iter v))
            (λ iter' w.
              IsTidy-bind n (IsUsable env (IsFine env)) (IsIn fields) (demand (current iter')) _
                (IsTidy-demand n _ _ (standing iter' w))
                (λ f' u'.
                  IsTidy-bind n Any (IsIn fields) (decode_by_atype env nested wire_type iter' f') _
                    (decode_by_atype-IsTidy wire_type iter' f' w u')
                    (λ _ _. IsTidy-pure n (IsIn fields) iter' w))))
