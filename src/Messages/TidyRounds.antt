-- ===== src/Messages/TidyRounds.antt =====
-- The rounds of `pb_decode_noinit` and the tests behind them.
use mathlib.Core.Option
use thermo_check.Common.{
  ℕ, zero, suc, ◌-◌, ◌≤◌, ◌<◌, ◌≡◌, ◌⊎◌, refl, sym, ap, ◌∙◌, Bool, true, false, ◌&&◌, ◌==◌, leb,
  inl, inr, List, length, [], ◌∷◌, length-append, Option, none, some, Bool-cases, arith,
}
use thermo_check.Common.Exec.{Outcome, ok, failed, fault, ◌>>=◌}
use thermo_check.Message.{wrong_size_for_fixed_count_field, missing_required_field}
use thermo_check.Memory.{Memory}
use thermo_check.Fields.{
  Field, Iter, ltype, htype, repeated, extension_type, pb_field_iter_find, is_extension,
  find_extension_field, current,
}
use thermo_check.Fields.Tables.{IsMore, IsIn, step-cases}
use thermo_check.Fields.Search.{Found, find_extension_field-Found}
use thermo_check.Input.{IStream}
use thermo_check.Input.Sound.{Any, Ends}
use thermo_check.Varint.DecodeSound.{without_eof}
use thermo_check.Varint.Progress.{Spends}
use thermo_check.Wire.{Tag, pb_decode_tag, pb_skip_field}
use thermo_check.Wire.Sound.{IsTag, pb_skip_field-IsSound}
use thermo_check.Wire.Progress.{pb_decode_tag-Spends}
use thermo_check.Messages.{Env, State, Action, on_stream, demand}
use thermo_check.Messages.Values.{Nested}
use thermo_check.Messages.Fields.{decode_field, decode_extension}
use thermo_check.Messages.Decode.{
  Locals, is_complete, is_field, start_fixed_count, known_field, range_start, skip, unknown_field,
  one_field, after_tag, fields_loop, seek_end, required_count, all_seen, check_required,
  check_message,
}
use thermo_check.Messages.Tidy.{
  streamed, Ends-raise, IsTidy, IsTidy-pure, IsTidy-on_stream, IsTidy-return_error, IsTidy-if,
  IsTidy-demand, IsTidy-bind, IsTidy-less,
}
use thermo_check.Messages.Nesting.{IsUsable, IsFine, IsFine-All, IsFine-IsMore, current-All}
use thermo_check.Messages.TidyValues.{IsTidyNested}
use thermo_check.Messages.TidyFields.{IsCallback, standing, found, decode_field-IsTidy}

-- No tag is above the start of the range where there is no extension.
above :
    (t : Tag)
    → IsTag t
    → (r : Bool × Iter) (o : Option Field) → r.0 ≡ false
    → leb (range_start r o) t.tag ≡ true
    → ⊥
above t q (true, j) o e g = absurd (no e)
  where
    no : true ≡ false → ⊥
    no e = cc
above t q (false, j) none e g = ground (arith, q.0)
above t q (false, j) (some f) e g = ground (arith, q.0)

module _ (env : Env)
    (calls : (address : ℕ) (f : Field) (arg : ℕ) → IsCallback (env.callback address f arg)) (n : ℕ)
    (nested : Nested) (h : IsTidyNested env n nested) (fields : List Field)
    (fine : IsFine env fields) where
  -- The iterator is in its table.
  abbrev pub Holds : Locals → Type 0
  Holds l = IsIn fields l.iter

  start_fixed_count-IsTidy :
      (local : ℕ) (l : Locals) (f : Field) → Holds l → IsTidy n Holds (start_fixed_count local l f)
  unfolding start_fixed_count
  start_fixed_count-IsTidy local l f v = record {
    run = λ slack s w b.
        elim (Bool-cases (htype f.type == repeated && l.iter.p_size == l.iter.p_data)) [
          | inl e ↦ rw e (elim (Bool-cases (is_field l.fixed_count_field l.iter.pos)) [
            | inl g ↦ rw g (moved, w, omega arith)
            | inr g ↦ rw g (elim (Bool-cases (is_complete local s.memory l.fixed_count_field)) [
              | inl k ↦ rw k (moved, w, omega arith)
              | inr k ↦
                  rw k
                    ((IsTidy-return_error n Holds wrong_size_for_fixed_count_field).run slack s w b)
            ])
          ])
          | inr e ↦ rw e (v, w, omega arith)
        ];
  }
    where
      moved : IsIn fields (record l.iter { p_size = local })
      moved = record {
        same_start = v.same_start;
        passed = v.passed;
        suffix = v.suffix;
        more = v.more;
      }

  known_field-IsTidy :
      (wire_type local : ℕ) (l : Locals)
      → Holds l
      → IsTidy n Holds (known_field (decode_field env nested wire_type) local l)
  unfolding known_field
  known_field-IsTidy wire_type local l v =
      let (f, e, u) =
        standing env calls n nested h fields fine (IsFine-IsMore env fields fine) l.iter v in
      IsTidy-bind n Any Holds (demand (current l.iter)) _ (IsTidy-demand n Any _ (f, e, tt)) (λ g _.
        IsTidy-bind n Holds Holds (start_fixed_count local l g) _
          (start_fixed_count-IsTidy local l g v)
          (λ l' w.
            IsTidy-bind n (IsIn fields) Holds (decode_field env nested wire_type l'.iter) _
              (decode_field-IsTidy env calls n nested h fields fine (IsFine-IsMore env fields fine)
                wire_type l'.iter w)
              (λ iter x. IsTidy-pure n Holds _ x)))

  skip-IsTidy : (wire_type : ℕ) (l : Locals) → Holds l → IsTidy n Holds (skip wire_type l)
  unfolding skip
  skip-IsTidy wire_type l v =
      IsTidy-bind n Any Holds (on_stream (pb_skip_field wire_type)) _
        (IsTidy-on_stream n Any (pb_skip_field wire_type) (pb_skip_field-IsSound wire_type))
        (λ _ _. IsTidy-pure n Holds l v)

  abbrev NoneFound : Bool × Iter → Type 0
  NoneFound r = (r.0 ≡ false) × IsIn fields r.1

  -- There is no extension field to find.
  no_extension :
      (iter : Iter)
      → IsIn fields iter
      → (r : Bool × Iter) × (find_extension_field iter ≡ some r) × NoneFound r
  unfolding is_extension
  no_extension iter v =
      by (find_extension_field iter) refl
        (find_extension_field-Found fields iter (IsFine-IsMore env fields fine) v)
    where
      plain :
          (f g : Field)
          → some f ≡ some g
          → IsUsable env (IsFine env) f
          → (ltype g.type == extension_type) ≡ true
          → ⊥
      plain f g e (kind, size, sub) k = absurd (other f g (same e) kind k)
        where
          same : some f ≡ some g → f ≡ g
          same e = cc

          other :
              (f g : Field)
              → f ≡ g
              → ((ltype f.type < 9) ⊎ (ltype f.type ≡ 10))
              → (ltype g.type == extension_type) ≡ true
              → ⊥
          other f g e kind k = grind (arith, ap (λ x. ltype x.type) e)

      by :
          (o : Option (Bool × Iter))
          → find_extension_field iter ≡ o
          → Found is_extension fields iter.pos o
          → (r : Bool × Iter) × (find_extension_field iter ≡ some r) × NoneFound r
      by none e x = absurd x
      by (some (true, j)) e (w, (g, c, k)) =
          let (f, d, u) =
            current-All (IsUsable env (IsFine env)) fields j w (IsFine-All env fields fine) in
          absurd (plain f g (sym d ∙ c) u k)
      by (some (false, j)) e (w, q, a) = ((false, j), e, (refl, w))

  unknown_field-IsTidy :
      (extend : Iter → Action (Unit {0})) (t : Tag) (l : Locals)
      → IsTag t
      → Holds l
      → IsTidy n Holds (unknown_field extend t l)
  unfolding unknown_field
  unknown_field-IsTidy extend t l q v =
      IsTidy-if n Holds (leb l.extension_range_start t.tag) _ _
        (λ _.
          IsTidy-bind n NoneFound Holds (demand (find_extension_field l.iter)) _
            (IsTidy-demand n NoneFound _ (no_extension l.iter v))
            (λ r (e, w).
              IsTidy-if n Holds (leb (range_start r (current r.1)) t.tag) _ _
                (λ g. absurd (above t q r (current r.1) e g)) (λ _. skip-IsTidy t.wire_type _ w)))
        (λ _. skip-IsTidy t.wire_type l v)

  one_field-IsTidy :
      (local : ℕ) (t : Tag) (l : Locals)
      → IsTag t
      → Holds l
      → IsTidy n Holds (one_field env nested local t l)
  unfolding one_field
  one_field-IsTidy local t l q v =
      IsTidy-bind n (λ r. IsIn fields r.1) Holds (demand (pb_field_iter_find l.iter t.tag)) _
        (IsTidy-demand n _ _
          (found env calls n nested h fields fine (IsFine-IsMore env fields fine) l.iter t.tag v))
        (λ r w.
          IsTidy-if n Holds r.0 _ _ (λ _. known_field-IsTidy t.wire_type local _ w)
            (λ _. unknown_field-IsTidy (decode_extension env nested t.tag t.wire_type) t _ q w))

  -- A round behind the tag.
  after_tag-Ends :
      (slack left : ℕ) (local : ℕ) (again : Locals → Action Locals) (l : Locals) (memory : Memory)
      (r : Outcome Tag × Bool × IStream)
      → left ≤ n
      → Holds l
      → ((l : Locals) → Holds l → IsTidy (left - 1) Holds (again l))
      → Spends slack IsTag left (without_eof r)
      → Ends slack Holds left (streamed (after_tag (one_field env nested local) again l memory r))
  unfolding after_tag
  after_tag-Ends slack left local again l memory (ok t, eof, stream) b v k (q, w, c) =
      Ends-raise slack Holds stream.bytes_left left
        ((one_field env nested local t l >>= again) (record { stream = stream; memory = memory }))
        ((IsTidy-bind (left - 1) Holds Holds (one_field env nested local t l) again
            (IsTidy-less n (left - 1) Holds _ (omega arith) (one_field-IsTidy local t l q v)) k).run
          slack (record { stream = stream; memory = memory }) w (omega arith))
        (omega arith)
  after_tag-Ends slack left local again l memory (failed, true, stream) b v k (w, c) = (v, w, c)
  after_tag-Ends slack left local again l memory (failed, false, stream) b v k e = e
  after_tag-Ends slack left local again l memory (fault, eof, stream) b v k e = e

  pub fields_loop-IsTidy :
      (local fuel k : ℕ) (l : Locals)
      → k ≤ n
      → k < fuel
      → Holds l
      → IsTidy k Holds (fields_loop (one_field env nested local) fuel l)
  unfolding fields_loop
  fields_loop-IsTidy local zero k l b m v = absurd (omega arith)
  fields_loop-IsTidy local (suc fuel) k l b m v = record {
    run = λ slack s w c. elim (Bool-cases (s.stream.bytes_left == 0)) [
      | inl e ↦ rw e (v, w, omega arith)
      | inr e ↦ rw e (
          after_tag-Ends slack s.stream.bytes_left local
            (fields_loop (one_field env nested local) fuel) l s.memory (pb_decode_tag s.stream)
            (omega arith) v
            (λ l' v'.
              fields_loop-IsTidy local fuel (s.stream.bytes_left - 1) l' (omega arith)
                (shown s fuel k e c m) v')
            (pb_decode_tag-Spends slack s.stream w))
    ];
  }
    where
      shown :
          (s : State) (fuel k : ℕ)
          → (s.stream.bytes_left == 0) ≡ false
          → s.stream.bytes_left ≤ k
          → k < suc fuel
          → s.stream.bytes_left - 1 < fuel
      shown s fuel k e c m = ground arith

  -- The end of the table is reached.
  seek_end-IsSome :
      (fuel : ℕ) (iter : Iter)
      → IsIn fields iter
      → length iter.pos ≤ fuel
      → (r : ℕ × ℕ × Iter) × (seek_end fuel iter ≡ some r) × IsIn fields r.2
  unfolding seek_end Option.bind
  seek_end-IsSome zero iter v l = absurd (shown iter.pos v.more (omega arith))
    where
      shown : (pos : List Field) → IsMore pos → length pos ≡ 0 → ⊥
      shown [] h e = h
      shown (f ∷ pos) h e = absurd (omega arith)
  seek_end-IsSome (suc fuel) iter v l =
      let (f, e, u) =
        standing env calls n nested h fields fine (IsFine-IsMore env fields fine) iter v in
      elim (step-cases fields iter (IsFine-IsMore env fields fine) v) [
        | inl (j, s, w, k) ↦ rw (e, s) (seek_end-IsSome fuel j w (omega arith))
        | inr (j, s, w, k) ↦ rw (e, s) ((iter.required_field_index, f.type, j), refl, w)
      ]

  pub check_message-IsTidy :
      (local : ℕ) (l : Locals) → Holds l → IsTidy n Any (check_message local l)
  unfolding check_message check_required
  check_message-IsTidy local l v = record {
    run = λ slack s w b. elim (Bool-cases (is_complete local s.memory l.fixed_count_field)) [
      | inl e ↦ rw e (required.run slack s w b)
      | inr e ↦ rw e ((IsTidy-return_error n Any wrong_size_for_fixed_count_field).run slack s w b)
    ];
  }
    where
      required : IsTidy n Any (check_required l.fields_seen l.iter)
      required =
          IsTidy-bind n (λ r. IsIn fields r.2) Any (demand (seek_end (length l.iter.start) l.iter))
            _
            (IsTidy-demand n (λ r. IsIn fields r.2) _
              (seek_end-IsSome (length l.iter.start) l.iter v (
                omega (
                  arith,
                  ap length v.suffix,
                  ap length v.same_start,
                  length-append v.passed l.iter.pos,
                ))))
            (λ r w.
              let (f, e, u) =
                standing env calls n nested h fields fine (IsFine-IsMore env fields fine) r.2 w in
              IsTidy-bind n Any Any (demand (current r.2)) _ (IsTidy-demand n Any _ (f, e, tt))
                (λ g _.
                  IsTidy-if n Any (all_seen l.fields_seen (required_count r.0 r.1 g)) _ _
                    (λ _. IsTidy-pure n Any tt tt)
                    (λ _. IsTidy-return_error n Any missing_required_field)))
