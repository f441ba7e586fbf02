-- ===== src/Fields/Search.antt =====
-- The search of the iterator: it visits every field of the table once, from where it stands.
use mathlib.Core.List.{append_assoc, append-nil}
use thermo_check.Common.{
  ℕ, zero, suc, ◌+◌, ◌≤◌, ◌<◌, ◌≡◌, refl, sym, ap, ◌∙◌, Bool, true, false, Option, none, some, List,
  [], ◌∷◌, ◌++◌, length, length-append, ◌==◌, inl, inr, All, All-append, Bool-cases, arith,
}
use thermo_check.Fields.{
  Field, Iter, current, search_round, search_at, search_fields, has_tag, pb_field_iter_find,
  is_extension, find_extension_field,
}
use thermo_check.Fields.Tables.{IsTable, IsMore, entries, IsIn, step-more, step-wrap}

-- What a search from `here` yields: a field that passes, where one does, and otherwise the iterator
-- back at its place.
abbrev pub Found : (Field → Bool) → List Field → List Field → Option (Bool × Iter) → Type 0
Found p start here none = ⊥
Found p start here (some (true, j)) =
    IsIn start j × ((f : Field) × (current j ≡ some f) × (p f ≡ true))
Found p start here (some (false, j)) =
    IsIn start j × (j.pos ≡ here) × All (λ f. p f ≡ false) (entries start)

pub IsMore-append : (c b : List Field) → IsMore b → IsTable (c ++ b) → IsMore (c ++ b)
IsMore-append [] b m t = m
IsMore-append (x ∷ c) b m t = split (c ++ b) (longer c b m) t
  where
    longer : (c b : List Field) → IsMore b → 0 < length (c ++ b)
    longer [] [] m = absurd m
    longer [] (y ∷ b) m = omega arith
    longer (y ∷ c) b m = omega arith

    split : (q : List Field) → 0 < length q → IsTable (x ∷ q) → IsMore (x ∷ q)
    split [] h t = absurd (omega arith)
    split (y ∷ q) h t = t

pub entries-append : (a b : List Field) → IsMore b → entries (a ++ b) ≡ a ++ entries b
entries-append [] b m = refl
entries-append (x ∷ []) [] m = absurd m
entries-append (x ∷ []) (y ∷ b) m = refl
entries-append (x ∷ y ∷ a) b m = ap (λ t. x ∷ t) (entries-append (y ∷ a) b m)

pub current-pos :
    (iter : Iter) (f : Field) (rest : List Field) → iter.pos ≡ f ∷ rest → current iter ≡ some f
unfolding current
current-pos iter f rest e = rw e refl

module _ (p : Field → Bool) (start a b : List Field) (whole : start ≡ a ++ b) (at_b : IsMore b)
    (at_start : IsMore start) where
  -- From the start of the table to `here`.
  second :
      (fuel : ℕ) (c d : List Field) (iter : Iter)
      → IsIn start iter
      → iter.pos ≡ d ++ b
      → a ≡ c ++ d
      → All (λ f. p f ≡ false) c
      → All (λ f. p f ≡ false) (entries b)
      → 0 < length d
      → length d ≤ fuel
      → Found p start b (search_fields p fuel b iter)
  unfolding search_fields search_at search_round
  second zero c d iter v e s hc hb l k = absurd (omega arith)
  second (suc fuel) c [] iter v e s hc hb l k = absurd (omega arith)
  second (suc fuel) c (f ∷ d) iter v e s hc hb l k = elim (Bool-cases (p f)) [
    | inl h ↦ rw (current-pos iter f (d ++ b) e, h) (v, (f, current-pos iter f (d ++ b) e, h))
    | inr h ↦
        let (j, n, w, q) =
          step-more start iter f (d ++ b) v e (IsMore-append d b at_b (behind iter.pos e v.more)) in
        rw (current-pos iter f (d ++ b) e, h, n)
          (go d j w q (s ∙ sym (append_assoc c (f ∷ []) d)) (All-append _ c (f ∷ []) hc (h, tt))
            (omega arith)
            (λ d' j' v' e' s' h' l' k'. second fuel (c ++ (f ∷ [])) d' j' v' e' s' h' hb l' k'))
  ]
    where
      behind : (pos : List Field) → pos ≡ f ∷ (d ++ b) → IsMore pos → IsTable (d ++ b)
      behind pos e m = (rw e at m).1

      go :
          (d : List Field) (j : Iter)
          → IsIn start j
          → j.pos ≡ d ++ b
          → a ≡ (c ++ (f ∷ [])) ++ d
          → All (λ f. p f ≡ false) (c ++ (f ∷ []))
          → length d ≤ fuel
          → ((d : List Field) (j : Iter)
              → IsIn start j
              → j.pos ≡ d ++ b
              → a ≡ (c ++ (f ∷ [])) ++ d
              → All (λ f. p f ≡ false) (c ++ (f ∷ []))
              → 0 < length d
              → length d ≤ fuel
              → Found p start b (search_fields p fuel b j))
          → Found p start b (search_round (search_fields p fuel b) b (some (true, j)))
      go [] j w q s h k again = rw (here) (
        w,
        q,
        rw (whole, entries-append a b at_b)
            (All-append _ a (entries b) (rw (s ∙ append-nil _) h) hb),
      )
        where
          here : (length j.pos == length b) ≡ true
          here = rw q (ground arith)
      go (x ∷ d) j w q s h k again = rw (away) (again (x ∷ d) j w q s h (omega arith) k)
        where
          away : (length j.pos == length b) ≡ false
          away = ground (arith, ap length q, length-append d b)

  -- From `here` to the end of the table, and on.
  first :
      (fuel : ℕ) (c d : List Field) (iter : Iter)
      → IsIn start iter
      → iter.pos ≡ d
      → length d ≤ length b
      → entries b ≡ c ++ entries d
      → All (λ f. p f ≡ false) c
      → length d + length a ≤ suc fuel
      → Found p start b (search_fields p fuel b iter)
  unfolding search_fields search_at search_round
  first fuel c [] iter v e l s hc k = absurd (rw e at v.more)
  first fuel c (f ∷ []) iter v e l s hc k = absurd (rw e at v.more).1
  first zero c (f ∷ g ∷ r) iter v e l s hc k = absurd (omega arith)
  first (suc fuel) c (f ∷ g ∷ []) iter v e l s hc k = elim (Bool-cases (p f)) [
    | inl h ↦ rw (current-pos iter f (g ∷ []) e, h) (v, (f, current-pos iter f (g ∷ []) e, h))
    | inr h ↦
        let (j, n, w, q) = step-wrap start iter f g v at_start e (last iter.pos e v.more) in
        rw (current-pos iter f (g ∷ []) e, h, n)
          (go a j w (q ∙ whole) refl (rw s (All-append _ c (f ∷ []) hc (h, tt))) (omega arith))
  ]
    where
      last : (pos : List Field) → pos ≡ f ∷ g ∷ [] → IsMore pos → g.tag ≡ 0
      last pos e m = (rw e at m).1

      go :
          (d : List Field) (j : Iter)
          → IsIn start j
          → j.pos ≡ d ++ b
          → a ≡ d
          → All (λ f. p f ≡ false) (entries b)
          → length d ≤ fuel
          → Found p start b (search_round (search_fields p fuel b) b (some (false, j)))
      go [] j w q s hb k = rw (here) (w, q, rw (whole, s) hb)
        where
          here : (length j.pos == length b) ≡ true
          here = rw q (ground arith)
      go (x ∷ d) j w q s hb k = rw (away) (second fuel [] (x ∷ d) j w q s tt hb (omega arith) k)
        where
          away : (length j.pos == length b) ≡ false
          away = ground (arith, ap length q, length-append d b)
  first (suc fuel) c (f ∷ g ∷ x ∷ r) iter v e l s hc k = elim (Bool-cases (p f)) [
    | inl h ↦ rw (current-pos iter f (g ∷ x ∷ r) e, h) (v, (f, current-pos iter f (g ∷ x ∷ r) e, h))
    | inr h ↦
        let (j, n, w, q) = step-more start iter f (g ∷ x ∷ r) v e (behind iter.pos e v.more) in
        rw (current-pos iter f (g ∷ x ∷ r) e, h, n, away j q)
          (first fuel (c ++ (f ∷ [])) (g ∷ x ∷ r) j w q (omega arith)
            (s ∙ sym (append_assoc c (f ∷ []) (entries (g ∷ x ∷ r))))
            (All-append _ c (f ∷ []) hc (h, tt)) (omega arith))
  ]
    where
      behind : (pos : List Field) → pos ≡ f ∷ g ∷ x ∷ r → IsMore pos → IsMore (g ∷ x ∷ r)
      behind pos e m = (rw e at m).1

      away : (j : Iter) → j.pos ≡ g ∷ x ∷ r → (length j.pos == length b) ≡ false
      away j q = ground (arith, ap length q)

-- A search on a table from one of its fields.
pub search-Found :
    (p : Field → Bool) (start : List Field) (iter : Iter)
    → IsMore start
    → IsIn start iter
    → Found p start iter.pos (search_fields p (length iter.start) iter.pos iter)
search-Found p start iter m v =
    first p start v.passed iter.pos v.suffix v.more m (length iter.start) [] iter.pos iter v refl
      (omega arith) refl tt
      (omega (arith, ap length v.suffix, ap length v.same_start, length-append v.passed iter.pos))

-- For an iterator on a field of a table that has fields, `pb_field_iter_find` comes to an end
-- inside the table: where it returns true, the iterator is on a field with the tag that is no
-- extension, and where it returns false, no field of the whole table is one, and the iterator is
-- back at the place that it had.
pub pb_field_iter_find-Found :
    (start : List Field) (iter : Iter) (tag : ℕ)
    → IsMore start
    → IsIn start iter
    → Found (has_tag tag) start iter.pos (pb_field_iter_find iter tag)
unfolding pb_field_iter_find
pb_field_iter_find-Found start iter tag m v = search-Found (has_tag tag) start iter m v

-- For an iterator on a field of a table that has fields, `find_extension_field` comes to an end
-- inside the table: where it returns true, the iterator is on an extension field, and where it
-- returns false, no field of the whole table is one, and the iterator is back at the place that it
-- had.
pub find_extension_field-Found :
    (start : List Field) (iter : Iter)
    → IsMore start
    → IsIn start iter
    → Found is_extension start iter.pos (find_extension_field iter)
unfolding find_extension_field
find_extension_field-Found start iter m v = search-Found is_extension start iter m v
