-- ===== src/Messages/Required.antt =====
-- The required fields of a table, and the message without bytes.
use mathlib.Core.Option
use native.Mathlib.Nat.{add-zero}
use thermo_check.Common.{
  ℕ, zero, suc, ◌+◌, ◌%◌, ◌^◌, ◌≤◌, ◌<◌, ◌≡◌, refl, sym, ap, ◌∙◌, Bool, true, false, not, Option,
  none, some, List, [], ◌∷◌, length, ltb, ◌==◌, if◌then◌else◌, inl, inr, Bool-cases, arith,
}
use thermo_check.Common.Exec.{ok, failed}
use thermo_check.Fields.{
  Field, Iter, htype, required, pb_field_iter_begin, pb_field_iter_next, advance, current,
  first_field,
}
use thermo_check.Fields.Tables.{IsMore, entries, IsIn, begin-IsIn, step-more, step-wrap, next-more}
use thermo_check.Fields.Search.{current-pos}
use thermo_check.Common.Bits.{every_below, every_below→true}
use thermo_check.Common.Exec.{pure, ◌>>=◌}
use thermo_check.Message.{missing_required_field}
use thermo_check.Messages.{Env, State, on_stream, return_error, demand, write}
use thermo_check.Input
use thermo_check.Messages.Decode.{
  Seen, seek_end, required_count, all_seen, whole_words, check_required, max_required_fields,
  fields_loop, is_complete, check_message, decode_fields, noinit, pb_decode_noinit,
}

-- How many fields are required.
abbrev pub required_number : List Field → ℕ
required_number [] = 0
required_number (f ∷ fields) = (if htype f.type == required then 1 else 0) + required_number fields

pub advance-required_field_index :
    (iter : Iter) (f g : Field) (rest : List Field)
    → iter.required_field_index + 1 < 2 ^ 32
    → (advance iter f g rest).required_field_index
      ≡ iter.required_field_index + (if htype f.type == required then 1 else 0)
unfolding advance
advance-required_field_index iter f g rest h = ground arith

one-le : (b : Bool) → (if b then 1 else 0) ≤ 1
one-le true = omega arith
one-le false = omega arith

-- What `seek_end` counts, with the last field, is the required fields from the iterator on.
abbrev IsCount : ℕ → List Field → Option (ℕ × ℕ × Iter) → Type 0
IsCount n start none = ⊥
IsCount n start (some (index, last_type, end)) =
    (index + (if htype last_type == required then 1 else 0) ≡ n) × IsIn start end

seek_end-IsCount :
    (fuel : ℕ) (pos start : List Field) (iter : Iter)
    → IsMore start
    → IsIn start iter
    → iter.pos ≡ pos
    → length pos ≤ fuel
    → iter.required_field_index + length pos < 2 ^ 32
    → IsCount (iter.required_field_index + required_number (entries pos)) start (seek_end fuel iter)
unfolding seek_end Option.bind
seek_end-IsCount zero [] start iter m v e l b = absurd (rw e at v.more)
seek_end-IsCount zero (f ∷ pos) start iter m v e l b = absurd (omega arith)
seek_end-IsCount (suc fuel) [] start iter m v e l b = absurd (rw e at v.more)
seek_end-IsCount (suc fuel) (f ∷ []) start iter m v e l b = absurd (rw e at v.more).1
seek_end-IsCount (suc fuel) (f ∷ g ∷ []) start iter m v e l b =
    let (j, n, w, q) = step-wrap start iter f g v m e (at_end iter.pos e v.more) in
    rw (current-pos iter f (g ∷ []) e, n) (omega arith, w)
  where
    at_end : (pos : List Field) → pos ≡ f ∷ g ∷ [] → IsMore pos → g.tag ≡ 0
    at_end pos e m = (rw e at m).1
seek_end-IsCount (suc fuel) (f ∷ g ∷ x ∷ rest) start iter m v e l b =
    let (j, n, w, q) = step-more start iter f (g ∷ x ∷ rest) v e (inside iter.pos e v.more).1 in
    rw (current-pos iter f (g ∷ x ∷ rest) e, n, counted j n)
      (seek_end-IsCount fuel (g ∷ x ∷ rest) start j m w q (omega arith)
        (omega (arith, index j n, one-le (htype f.type == required))))
  where
    inside : (pos : List Field) → pos ≡ f ∷ g ∷ x ∷ rest → IsMore pos → IsMore (f ∷ g ∷ x ∷ rest)
    inside pos e m = rw e at m

    index :
        (j : Iter)
        → pb_field_iter_next iter ≡ some (true, j)
        → j.required_field_index
          ≡ iter.required_field_index + (if htype f.type == required then 1 else 0)
    index j n =
        ap (λ i. i.required_field_index) same
        ∙ advance-required_field_index iter f g (x ∷ rest) (omega arith)
      where
        next : pb_field_iter_next iter ≡ some (true, advance iter f g (x ∷ rest))
        next =
            next-more iter f g (x ∷ rest) e (inside iter.pos e v.more).0
              (inside iter.pos e v.more).1.0

        joined :
            {i k : Iter}
            → pb_field_iter_next iter ≡ some (true, i)
            → pb_field_iter_next iter ≡ some (true, k)
            → i ≡ k
        joined a b = cc

        same : j ≡ advance iter f g (x ∷ rest)
        same = joined n next

    counted :
        (j : Iter)
        → pb_field_iter_next iter ≡ some (true, j)
        → iter.required_field_index + required_number (entries (f ∷ g ∷ x ∷ rest))
          ≡ j.required_field_index + required_number (entries (g ∷ x ∷ rest))
    counted j n = omega (arith, index j n)

eq_bool : Bool → Bool → Bool
eq_bool true b = b
eq_bool false b = not b

eq_bool→≡ : (a b : Bool) → eq_bool a b ≡ true → a ≡ b
unfolding eq_bool
eq_bool→≡ true true e = refl
eq_bool→≡ true false e = cc
eq_bool→≡ false true e = cc
eq_bool→≡ false false e = refl

required_number-le : (fields : List Field) → required_number (entries fields) ≤ length fields
required_number-le [] = omega arith
required_number-le (f ∷ []) = omega arith
required_number-le (f ∷ g ∷ rest) = ground (arith, required_number-le (g ∷ rest))

standing_tag :
    (start : List Field) (iter : Iter)
    → IsIn start iter
    → (f : Field) × (current iter ≡ some f) × (0 < f.tag)
standing_tag start iter v = on iter.pos refl v.more
  where
    on :
        (pos : List Field)
        → iter.pos ≡ pos
        → IsMore pos
        → (f : Field) × (current iter ≡ some f) × (0 < f.tag)
    on [] e m = absurd m
    on (f ∷ rest) e m = (f, current-pos iter f rest e, m.0)

-- The count is at most PB_MAX_REQUIRED_FIELDS, and is 0 where there is no required field.
required_count-zero :
    (index last_type n : ℕ) (f : Field)
    → index + (if htype last_type == required then 1 else 0) ≡ n
    → n < 2 ^ 32
    → 0 < f.tag
    → (required_count index last_type f ≤ 64) × ((required_count index last_type f == 0) ≡ (n == 0))
unfolding required_count
required_count-zero index last_type n f h l t = elim (Bool-cases (htype last_type == required)) [
  | inl e ↦ rw (e, tagged f t) (small (index + 1) n (rw e at h) l)
  | inr e ↦ rw e (same index n (rw (e, add-zero) at h))
]
  where
    tagged : (f : Field) → 0 < f.tag → (f.tag == 0) ≡ false
    tagged f t = ground arith

    small :
        (k n : ℕ)
        → k ≡ n
        → n < 2 ^ 32
        → ((if ltb max_required_fields (k % 2 ^ 32) then max_required_fields else k % 2 ^ 32) ≤ 64)
          × (((if ltb max_required_fields (k % 2 ^ 32) then max_required_fields else k % 2 ^ 32)
                == 0)
              ≡ (n == 0))
    small k n e l = (ground arith, ground arith)

    same :
        (k n : ℕ)
        → k ≡ n
        → ((if ltb max_required_fields k then max_required_fields else k) ≤ 64)
          × (((if ltb max_required_fields k then max_required_fields else k) == 0) ≡ (n == 0))
    same k n e = (ground arith, ground arith)

-- No field has been seen.
abbrev unseen : Seen
unseen = record { first = 0; second = 0 }

all_seen-unseen : (count : ℕ) → count ≤ 64 → all_seen unseen count ≡ (count == 0)
unfolding all_seen whole_words eq_bool every_below
all_seen-unseen count h =
    eq_bool→≡ _ _
      ((every_below→true 65 (λ c. eq_bool (all_seen unseen c) (c == 0)) count refl (omega arith)))

check_required-unseen :
    (start : List Field) (iter : Iter) (s : State)
    → IsMore start
    → IsIn start iter
    → iter.pos ≡ start
    → iter.required_field_index ≡ 0
    → length start < 2 ^ 32
    → (check_required unseen iter s).0
      ≡ (if required_number (entries start) == 0 then ok tt else failed)
unfolding check_required demand return_error on_stream Input.return_error
check_required-unseen start iter s m v e z l = counted (seek_end (length iter.start) iter) (
    rw cnt at (
      seek_end-IsCount (length iter.start) start start iter m v e
        (omega (arith, ap length v.same_start)) (omega arith)))
  where
    cnt :
        iter.required_field_index + required_number (entries start)
        ≡ required_number (entries start)
    cnt = omega (arith, z)

    both :
        (b : Bool)
        → ((if b then pure tt else return_error missing_required_field) s).0
          ≡ (if b then ok tt else failed)
    both true = refl
    both false = refl

    counted :
        (o : Option (ℕ × ℕ × Iter))
        → IsCount (required_number (entries start)) start o
        → ((demand o >>= λ r. demand (current r.2) >>= λ f.
              if all_seen unseen (required_count r.0 r.1 f)
              then pure tt
              else return_error missing_required_field)
            s).0
          ≡ (if required_number (entries start) == 0 then ok tt else failed)
    counted none h = absurd h
    counted (some (index, last_type, end)) (h, w) =
        let (f, c, t) = standing_tag start end w in
        let (b, q) =
          required_count-zero index last_type (required_number (entries start)) f h
            (omega (arith, required_number-le start)) t in
        rw (c, all_seen-unseen (required_count index last_type f) b, q)
          (both (required_number (entries start) == 0))

begin-index :
    (fields : List Field) (dest : ℕ) (iter : Iter)
    → pb_field_iter_begin fields dest ≡ some (true, iter)
    → iter.required_field_index ≡ 0
unfolding pb_field_iter_begin first_field
begin-index [] dest iter e = absurd (distinct e)
  where
    distinct : ◌≡◌ {A = Option (Bool × Iter)} none (some (true, iter)) → ⊥
    distinct e = cc
begin-index (f ∷ rest) dest iter e = sym (ap (λ i. i.required_field_index) (joined e))
  where
    joined :
        {b : Bool} {i k : Iter}
        → ◌≡◌ {A = Option (Bool × Iter)} (some (b, i)) (some (true, k))
        → i ≡ k
    joined e = cc

-- For a table of fewer than 2 ^ 32 fields, one of them not the last, and a stream with no bytes
-- left, over any structure in any memory, `pb_decode_noinit` returns true if the table has no
-- required field, and false if it has one or more, also where they are more than
-- PB_MAX_REQUIRED_FIELDS.
pub pb_decode_noinit-empty :
    (env : Env) (fields : List Field) (dest : ℕ) (s : State)
    → IsMore fields
    → length fields < 2 ^ 32
    → s.stream.bytes_left ≡ 0
    → (pb_decode_noinit env fields dest s).0
      ≡ (if required_number (entries fields) == 0 then ok tt else failed)
unfolding pb_decode_noinit noinit decode_fields fields_loop check_message is_complete demand write
pb_decode_noinit-empty env fields dest s m l z =
    let (iter, e, v, q) = begin-IsIn fields dest m in
    rw (e, z) (check_required-unseen fields iter _ m v q (begin-index fields dest iter e) l)
