-- ===== src/Messages/TidyPointers.antt =====
-- Fields whose data is allocated leave the stream in order.
use thermo_check.Common.{
  ℕ, zero, suc, ◌+◌, ◌-◌, ◌≤◌, ◌<◌, ◌≡◌, Bool, true, false, not, ◌&&◌, ◌||◌, leb, ltb, ◌==◌, inl,
  inr, List, some, Bool-cases, arith,
}
use thermo_check.Common.Exec.{Outcome, ok, failed, fault, ◌>>=◌}
use thermo_check.Message.{too_many_array_entries}
use thermo_check.Memory.{load}
use thermo_check.Fields.{
  Field, Iter, ltype, htype, repeated, last_packable, bytes_type, string_type, submessage_type,
  pb_size_max,
}
use thermo_check.Fields.Tables.{IsIn}
use thermo_check.Input.{IStream}
use thermo_check.Input.Sound.{IsValid, Any, Ends}
use thermo_check.Wire.{wt_string}
use thermo_check.Messages.{Env, State, Action, read, write}
use thermo_check.Messages.Values.{Nested, allocate_at, decode_value, increment}
use thermo_check.Messages.Pointers.{
  initialize_pointer_field, next_item, grown, make_room, pointer_items, finish_items, decode_items,
  decode_pointer_packed, decode_pointer_repeated, release_old, decode_pointer_single,
  decode_pointer_field,
}
use thermo_check.Messages.Tidy.{
  streamed, IsTidy, IsTidy-pure, IsTidy-return_error, IsTidy-if, IsTidy-read, IsTidy-write,
  IsTidy-on_memory, IsTidy-bind, IsTidy-spend, IsGreedy-less, and_right,
}
use thermo_check.Messages.Nesting.{IsUsable, IsFine}
use thermo_check.Messages.TidyValues.{
  IsTidyNested, allocate_at-IsTidy, decode_value-IsGreedy, decode_value-IsTidy,
}
use thermo_check.Messages.Substreams.{close_substream-Ends, IsTidy-with_substream}
use thermo_check.Messages.Recursion.{
  pb_message_set_to_defaults-IsSome, pb_release_single_field-IsSome,
}

module _ (env : Env) (f : Field) (u : IsUsable env (IsFine env) f) where
  initialize_pointer_field-IsTidy :
      (n item : ℕ) → IsTidy n Any (initialize_pointer_field env f item)
  unfolding initialize_pointer_field
  initialize_pointer_field-IsTidy n item =
      IsTidy-if n Any (ltype f.type == string_type || ltype f.type == bytes_type) _ _
        (λ _. IsTidy-write n _)
        (λ _.
          IsTidy-if n Any (ltype f.type == submessage_type) _ _
            (λ e.
              IsTidy-on_memory n _
                (λ m. pb_message_set_to_defaults-IsSome env (env.table f.ptr) item _ (u.2 e)))
            (λ _. IsTidy-pure n Any tt tt))

  make_room-IsTidy :
      (iter : Iter) (n allocated_size : ℕ) → IsTidy n Any (make_room env f iter allocated_size)
  unfolding make_room
  make_room-IsTidy iter n allocated_size = record {
    run = λ slack s v b. elim (Bool-cases (ltb allocated_size (load 4 s.memory iter.p_size + 1))) [
      | inl e ↦
          rw (e, sized)
            ((IsTidy-bind n Any Any
                (allocate_at env iter.p_data f.data_size
                  (grown f s.stream.bytes_left allocated_size))
                _ (allocate_at-IsTidy n env iter.p_data f.data_size _)
                (λ _ _. IsTidy-pure n Any _ tt)).run
              slack s v b)
      | inr e ↦ rw e (tt, v, omega arith)
    ];
  }
    where
      sized : (f.data_size == 0) ≡ false
      sized = ground (arith, u.1)

finish_items-Ends :
    (slack : ℕ) (t : IStream) (sub : ℕ) (r : Outcome Bool × State)
    → IsValid slack t
    → Ends (t.bytes_left + slack) Any sub (streamed r)
    → Ends slack Any t.bytes_left (streamed (finish_items t r))
unfolding finish_items
finish_items-Ends slack t sub (ok true, s) v e =
    close_substream-Ends slack Any t sub (ok true, s) v e
finish_items-Ends slack t sub (ok false, s) v (q, w, l) =
    close_substream-Ends slack Any (record t { errmsg = some too_many_array_entries }) sub
      (failed, s) (record { ready = v.ready; word = v.word }) (w, l)
finish_items-Ends slack t sub (failed, s) v e = close_substream-Ends slack Any t sub (failed, s) v e
finish_items-Ends slack t sub (fault, s) v e = e

module _ (env : Env) (n : ℕ) (nested : Nested) (h : IsTidyNested env n nested) (f : Field)
    (u : IsUsable env (IsFine env) f) where
  round :
      (iter : Iter) (left allocated_size : ℕ) (again : ℕ → Action Bool)
      → leb (ltype f.type) last_packable ≡ true
      → left ≤ n
      → ((allocated : ℕ) → IsTidy (left - 1) Any (again allocated))
      → IsTidy left Any (
          make_room env f iter allocated_size >>= λ allocated. next_item f iter >>= λ item.
          initialize_pointer_field env f item >>= λ _.
          decode_value env nested f item >>= λ _. increment iter.p_size >>= λ _. again allocated)
  round iter left allocated_size again p l k =
      IsTidy-bind left Any Any (make_room env f iter allocated_size) _
        (make_room-IsTidy env f u iter left allocated_size)
        (λ allocated _.
          IsTidy-bind left Any Any (next_item f iter) _ (IsTidy-read left _) (λ item _.
            IsTidy-bind left Any Any (initialize_pointer_field env f item) _
              (initialize_pointer_field-IsTidy env f u left item)
              (λ _ _.
                IsTidy-spend left Any Any (decode_value env nested f item) _
                  (IsGreedy-less n left Any _ l (decode_value-IsGreedy env n nested h f item p))
                  (λ _ _.
                    IsTidy-bind (left - 1) Any Any (increment iter.p_size) _ (IsTidy-write _ _)
                      (λ _ _. k allocated)))))

  -- The loop over a packed array behind a pointer.
  pointer_items-IsTidy :
      (iter : Iter) (fuel k allocated_size : ℕ)
      → leb (ltype f.type) last_packable ≡ true
      → k ≤ n
      → k < fuel
      → IsTidy k Any (pointer_items env nested f iter fuel allocated_size)
  unfolding pointer_items
  pointer_items-IsTidy iter zero k allocated_size p m l = absurd (omega arith)
  pointer_items-IsTidy iter (suc fuel) k allocated_size p m l = record {
    run = λ slack s v b. elim (Bool-cases (s.stream.bytes_left == 0)) [
      | inl e ↦ rw e (tt, v, omega arith)
      | inr e ↦ rw e (elim (Bool-cases (load 4 s.memory iter.p_size == pb_size_max)) [
        | inl g ↦ rw g (tt, v, omega arith)
        | inr g ↦ rw g (
            (round iter s.stream.bytes_left allocated_size (pointer_items env nested f iter fuel) p
                (omega arith)
                (λ allocated.
                  pointer_items-IsTidy iter fuel (s.stream.bytes_left - 1) allocated p (omega arith)
                    (omega (arith, shown s e)))).run
              slack s v (omega arith))
      ])
    ];
  }
    where
      shown : (s : State) → (s.stream.bytes_left == 0) ≡ false → 0 < s.stream.bytes_left
      shown s e = ground arith

  decode_pointer_packed-IsTidy :
      (iter : Iter)
      → leb (ltype f.type) last_packable ≡ true
      → IsTidy n Any (decode_pointer_packed env nested f iter)
  unfolding decode_pointer_packed decode_items
  decode_pointer_packed-IsTidy iter p =
      IsTidy-bind n Any Any (decode_items env nested f iter) _
        (record {
          run = λ slack s v b.
              (IsTidy-with_substream n Any finish_items _
                  (λ _. record {
                    run = λ slack' t w l.
                        (pointer_items-IsTidy iter (suc t.stream.bytes_left) t.stream.bytes_left
                            (load 4 s.memory iter.p_size) p (omega arith) (omega arith)).run
                          slack' t w (omega arith);
                  })
                  finish_items-Ends).run
                slack s v b;
        })
        (λ _ _. IsTidy-pure n Any tt tt)

  decode_pointer_repeated-IsTidy :
      (iter : Iter) → IsTidy n Any (decode_pointer_repeated env nested f iter)
  unfolding decode_pointer_repeated
  decode_pointer_repeated-IsTidy iter =
      IsTidy-bind n Any Any (read _) _ (IsTidy-read n _) (λ size _.
        IsTidy-if n Any (size == pb_size_max) _ _
          (λ _. IsTidy-return_error n Any too_many_array_entries)
          (λ _.
            IsTidy-bind n Any Any (allocate_at env iter.p_data f.data_size (size + 1)) _
              (allocate_at-IsTidy n env iter.p_data f.data_size (size + 1))
              (λ _ _. IsTidy-bind n Any Any (next_item f iter) _ (IsTidy-read n _) (λ item _.
                IsTidy-bind n Any Any (increment iter.p_size) _ (IsTidy-write n _) (λ _ _.
                  IsTidy-bind n Any Any (initialize_pointer_field env f item) _
                    (initialize_pointer_field-IsTidy env f u n item)
                    (λ _ _. decode_value-IsTidy env n nested h f item u))))))

  module _ (fields : List Field) (fine : IsFine env fields) (iter : Iter)
      (v : IsIn fields iter) where
    release_old-IsTidy : IsTidy n Any (release_old env f iter)
    unfolding release_old
    release_old-IsTidy = record {
      run = λ slack s w b.
          elim (Bool-cases
            (ltype f.type == submessage_type && not (load 8 s.memory iter.p_data == 0))) [
              | inl e ↦ rw e (
                  (IsTidy-on_memory n _
                      (λ m. pb_release_single_field-IsSome env fields iter m fine v)).run
                    slack s w b)
              | inr e ↦ rw e (tt, w, omega arith)
            ];
    }

    decode_pointer_single-IsTidy : IsTidy n Any (decode_pointer_single env nested f iter)
    unfolding decode_pointer_single
    decode_pointer_single-IsTidy =
        IsTidy-bind n Any Any (release_old env f iter) _ release_old-IsTidy (λ _ _.
          IsTidy-bind n Any Any (write _) _ (IsTidy-write n _) (λ _ _.
            IsTidy-if n Any (ltype f.type == string_type || ltype f.type == bytes_type) _ _
              (λ _. decode_value-IsTidy env n nested h f iter.p_data u)
              (λ _.
                IsTidy-bind n Any Any (allocate_at env iter.p_data f.data_size 1) _
                  (allocate_at-IsTidy n env iter.p_data f.data_size 1)
                  (λ _ _. IsTidy-bind n Any Any (read _) _ (IsTidy-read n _) (λ item _.
                    IsTidy-bind n Any Any (initialize_pointer_field env f item) _
                      (initialize_pointer_field-IsTidy env f u n item)
                      (λ _ _. decode_value-IsTidy env n nested h f item u))))))

    pub decode_pointer_field-IsTidy :
        (wire_type : ℕ) → IsTidy n Any (decode_pointer_field env nested wire_type iter f)
    unfolding decode_pointer_field
    decode_pointer_field-IsTidy wire_type =
        IsTidy-if n Any (htype f.type == repeated) _ _
          (λ _.
            IsTidy-if n Any (wire_type == wt_string && leb (ltype f.type) last_packable) _ _
              (λ e. decode_pointer_packed-IsTidy iter (and_right _ _ e))
              (λ _. decode_pointer_repeated-IsTidy iter))
          (λ _. decode_pointer_single-IsTidy)
