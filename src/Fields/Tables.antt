-- ===== src/Fields/Tables.antt =====
-- Tables of fields that end with a terminator, and the steps of the iterator over them.
use mathlib.Core.Option
use mathlib.Core.List.{append_assoc}
use thermo_check.Common.{
  ℕ, ◌<◌, ◌≡◌, refl, sym, ap, ◌∙◌, true, false, not, some, List, [], ◌∷◌, ◌++◌, length, ◌⊎◌, ◌==◌,
  inl, inr, arith,
}
use thermo_check.Fields.{
  Field, Iter, pb_field_iter_begin, advance, next_from, pb_field_iter_next, first_field,
}

-- PB_LAST_FIELD, whose tag is 0, ends the table, and no other field has the tag 0.
abbrev pub IsTable : List Field → Type 0
IsTable [] = ⊥
IsTable (f ∷ []) = f.tag ≡ 0
IsTable (f ∷ g ∷ rest) = (0 < f.tag) × IsTable (g ∷ rest)

-- A table from a field on that is not the last.
abbrev pub IsMore : List Field → Type 0
IsMore [] = ⊥
IsMore (f ∷ rest) = (0 < f.tag) × IsTable rest

-- The fields of a table without its last.
abbrev pub entries : List Field → List Field
entries [] = []
entries (f ∷ []) = []
entries (f ∷ g ∷ rest) = f ∷ entries (g ∷ rest)

-- The iterator stands on a field of the table `start`.
pub record IsIn (start : List Field) (iter : Iter) : Type 0 where
  pub same_start : iter.start ≡ start
  pub passed : List Field
  pub suffix : start ≡ passed ++ iter.pos
  pub more : IsMore iter.pos

pub advance-pos :
    (iter : Iter) (prev f : Field) (rest : List Field) → (advance iter prev f rest).pos ≡ f ∷ rest
unfolding advance
advance-pos iter prev f rest = ground arith

pub advance-start :
    (iter : Iter) (prev f : Field) (rest : List Field)
    → (advance iter prev f rest).start ≡ iter.start
unfolding advance
advance-start iter prev f rest = ground arith

-- The step onto a further field.
pub next-more :
    (iter : Iter) (f g : Field) (rest : List Field)
    → iter.pos ≡ f ∷ g ∷ rest
    → 0 < f.tag
    → 0 < g.tag
    → pb_field_iter_next iter ≡ some (true, advance iter f g rest)
unfolding pb_field_iter_next next_from
next-more iter f g rest e h k = rw (e, goes, stays) refl
  where
    goes : (f.tag == 0) ≡ false
    goes = ground arith

    stays : (g.tag == 0) ≡ false
    stays = ground arith

-- The step off the last field, back to the first.
pub next-wrap :
    (iter : Iter) (f g : Field) (rest : List Field)
    → iter.pos ≡ f ∷ g ∷ rest
    → 0 < f.tag
    → g.tag ≡ 0
    → pb_field_iter_next iter
      ≡ Option.map (λ r. (false, r.1)) (pb_field_iter_begin iter.start iter.dest_struct)
unfolding pb_field_iter_next next_from
next-wrap iter f g rest e h k = rw (e, goes, wraps) refl
  where
    goes : (f.tag == 0) ≡ false
    goes = ground arith

    wraps : (g.tag == 0) ≡ true
    wraps = ground arith

-- `pb_field_iter_begin` on a table with a field.
pub begin-IsIn :
    (start : List Field) (dest : ℕ)
    → IsMore start
    → (iter : Iter) × (pb_field_iter_begin start dest ≡ some (true, iter))
      × IsIn start iter
      × (iter.pos ≡ start)
unfolding pb_field_iter_begin first_field
begin-IsIn [] dest h = absurd h
begin-IsIn (f ∷ rest) dest h = (
  first_field f rest dest,
  ap (λ b. some (not b, first_field f rest dest)) goes,
  record { same_start = refl; passed = []; suffix = refl; more = h },
  refl,
)
  where
    goes : (f.tag == 0) ≡ false
    goes = ground arith

-- The step from a field of `start` onto `q`, the rest of the table.
pub step-more :
    (start : List Field) (iter : Iter) (f : Field) (q : List Field)
    → IsIn start iter
    → iter.pos ≡ f ∷ q
    → IsMore q
    → (j : Iter) × (pb_field_iter_next iter ≡ some (true, j)) × IsIn start j × (j.pos ≡ q)
unfolding advance
step-more start iter f [] v e h = absurd h
step-more start iter f (g ∷ rest) v e h = (
  advance iter f g rest,
  next-more iter f g rest e (at_field iter.pos e v.more) h.0,
  record {
    same_start = advance-start iter f g rest ∙ v.same_start;
    passed = v.passed ++ (f ∷ []);
    suffix =
        v.suffix
        ∙ rw (e, advance-pos iter f g rest) (sym (append_assoc v.passed (f ∷ []) (g ∷ rest)));
    more = rw (advance-pos iter f g rest) h;
  },
  advance-pos iter f g rest,
)
  where
    at_field : (pos : List Field) → pos ≡ f ∷ g ∷ rest → IsMore pos → 0 < f.tag
    at_field pos e m = (rw e at m).0

-- The step off the last field.
pub step-wrap :
    (start : List Field) (iter : Iter) (f g : Field)
    → IsIn start iter
    → IsMore start
    → iter.pos ≡ f ∷ g ∷ []
    → g.tag ≡ 0
    → (j : Iter) × (pb_field_iter_next iter ≡ some (false, j)) × IsIn start j × (j.pos ≡ start)
step-wrap start iter f g v m e z =
    let (j, begun, w, p) = begin-IsIn start iter.dest_struct m in
    (
      j,
      next-wrap iter f g [] e (at_field iter.pos e v.more) z ∙ rw (v.same_start, begun) refl,
      w,
      p,
    )
  where
    at_field : (pos : List Field) → pos ≡ f ∷ g ∷ [] → IsMore pos → 0 < f.tag
    at_field pos e m = (rw e at m).0

-- Every step: onto a further field, or off the last field.
pub step-cases :
    (start : List Field) (iter : Iter)
    → IsMore start
    → IsIn start iter
    → ((j : Iter) × (pb_field_iter_next iter ≡ some (true, j))
        × IsIn start j
        × (length j.pos < length iter.pos))
      ⊎ ((j : Iter) × (pb_field_iter_next iter ≡ some (false, j)) × IsIn start j × (j.pos ≡ start))
step-cases start iter m v = on iter.pos refl v.more
  where
    on :
        (pos : List Field)
        → iter.pos ≡ pos
        → IsMore pos
        → ((j : Iter) × (pb_field_iter_next iter ≡ some (true, j))
            × IsIn start j
            × (length j.pos < length iter.pos))
          ⊎ ((j : Iter) × (pb_field_iter_next iter ≡ some (false, j))
              × IsIn start j
              × (j.pos ≡ start))
    on [] e h = absurd h
    on (f ∷ []) e h = absurd h.1
    on (f ∷ g ∷ []) e h = inr (step-wrap start iter f g v m e h.1)
    on (f ∷ g ∷ x ∷ rest) e h =
        let (j, n, w, q) = step-more start iter f (g ∷ x ∷ rest) v e h.1 in
        inl (j, n, w, omega (arith, ap length q, ap length e))
