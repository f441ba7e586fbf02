-- ===== src/Messages/Nesting.antt =====
-- Tables of fields that are nested to a depth, and the recursion over the submessages of a message.
use mathlib.Core.Option
use thermo_check.Common.{
  ℕ, zero, suc, ◌≤◌, ◌<◌, ◌≡◌, ◌⊎◌, refl, ap, Bool, true, false, Option, none, some, List, [], ◌∷◌,
  ◌++◌, length, ◌==◌, if◌then◌else◌, inl, inr, All, arith,
}
use thermo_check.Memory.{Memory}
use thermo_check.Fields.{Field, Iter, ltype, submessage_type, current}
use thermo_check.Fields.Tables.{IsMore, entries, IsIn, begin-IsIn, step-cases}
use thermo_check.Fields.Search.{entries-append, current-pos}
use thermo_check.Messages.{Env}
use thermo_check.Messages.Defaults.{each_field, over_message}

-- The type of the field is in PB_DECODERS, its items have a size, and `P` holds of a submessage's table.
abbrev pub IsUsable : Env → (List Field → Type 0) → Field → Type 0
IsUsable env P f =
    ((ltype f.type < 9) ⊎ (ltype f.type ≡ 10))
    × (0 < f.data_size)
    × ((ltype f.type == submessage_type) ≡ true → P (env.table f.ptr))

-- A table with a field, whose submessages are nested to a depth below `n`, and whose fields are usable.
abbrev pub IsNested : Env → ℕ → List Field → Type 0
IsNested env zero fields = ⊥
IsNested env (suc n) fields = IsMore fields × All (IsUsable env (IsNested env n)) (entries fields)

abbrev pub IsSome : {A : Type 0} → Option A → Type 0
IsSome {A} o = (a : A) × (o ≡ some a)

pub IsSome-bind :
    {A B : Type 0} (o : Option A) (f : A → Option B)
    → IsSome o
    → ((a : A) → o ≡ some a → IsSome (f a))
    → IsSome (Option.bind o f)
unfolding Option.bind
IsSome-bind none f (a, e) k = absurd (distinct e)
  where
    distinct : none ≡ some a → ⊥
    distinct e = cc
IsSome-bind (some b) f h k = k b refl

pub IsSome-if :
    {A : Type 0} (b : Bool) (x y : Option A)
    → (b ≡ true → IsSome x)
    → (b ≡ false → IsSome y)
    → IsSome (if b then x else y)
IsSome-if true x y hx hy = hx refl
IsSome-if false x y hx hy = hy refl

-- What holds of the entries of a table holds of the field that an iterator stands on.
pub current-All :
    (P : Field → Type 0) (start : List Field) (iter : Iter)
    → IsIn start iter
    → All P (entries start)
    → (f : Field) × (current iter ≡ some f) × P f
current-All P start iter v h = on iter.pos refl v.suffix v.more
  where
    drop_passed : (xs ys : List Field) → All P (xs ++ ys) → All P ys
    drop_passed [] ys h = h
    drop_passed (x ∷ xs) ys h = drop_passed xs ys h.1

    on :
        (pos : List Field)
        → iter.pos ≡ pos
        → start ≡ v.passed ++ pos
        → IsMore pos
        → (f : Field) × (current iter ≡ some f) × P f
    on [] e s m = absurd m
    on (f ∷ []) e s m = absurd m.1
    on (f ∷ g ∷ rest) e s m = (
      f,
      current-pos iter f (g ∷ rest) e,
      (drop_passed v.passed (entries (f ∷ g ∷ rest))
          (rw (s, entries-append v.passed (f ∷ g ∷ rest) m) at h)).0,
    )

module _ (P : Field → Type 0) (set : Iter → Memory → Option Memory)
    (sets : (iter : Iter) (memory : Memory) (f : Field)
      → current iter ≡ some f
      → P f
      → IsSome (set iter memory)) where
  each_field-IsSome :
      (n : ℕ) (start : List Field) (iter : Iter) (memory : Memory)
      → IsMore start
      → All P (entries start)
      → IsIn start iter
      → length iter.pos ≤ n
      → IsSome (each_field set n iter memory)
  unfolding each_field Option.bind
  each_field-IsSome zero start iter memory m h v l = absurd (shown iter.pos v.more (omega arith))
    where
      shown : (pos : List Field) → IsMore pos → length pos ≡ 0 → ⊥
      shown [] h e = h
      shown (f ∷ pos) h e = absurd (omega arith)
  each_field-IsSome (suc n) start iter memory m h v l =
      let (f, e, p) = current-All P start iter v h in
      IsSome-bind (set iter memory) _ (sets iter memory f e p) (λ memory' _.
        elim (step-cases start iter m v) [
          | inl (j, s, w, k) ↦ rw s (each_field-IsSome n start j memory' m h w (omega arith))
          | inr (j, s, w, k) ↦ rw s (memory', refl)
        ])

  pub over_message-IsSome :
      (fields : List Field) (dest : ℕ) (memory : Memory)
      → IsMore fields
      → All P (entries fields)
      → IsSome (over_message set fields dest memory)
  unfolding over_message Option.bind
  over_message-IsSome fields dest memory m h =
      let (iter, b, v, q) = begin-IsIn fields dest m in
      rw b (each_field-IsSome (length fields) fields iter memory m h v (omega (arith, ap length q)))

-- A function of the fields and the depth that ends on every field that is usable at the depth ends on
-- every message nested to it.
module _ (env : Env) (set : ℕ → Iter → Memory → Option Memory) where
  unfoldable pub EndsAt : ℕ → Type 0
  EndsAt n =
      (fields : List Field) (dest : ℕ) (memory : Memory)
      → IsNested env n fields
      → IsSome (over_message (set n) fields dest memory)

  pub depths :
      ((n : ℕ)
        → EndsAt n
        → (iter : Iter) (memory : Memory) (f : Field) → current iter ≡ some f
        → IsUsable env (IsNested env n) f
        → IsSome (set (suc n) iter memory))
      → (n : ℕ) → EndsAt n
  unfolding EndsAt
  depths step zero = λ fields dest memory h. elim h [ ]
  depths step (suc n) = λ fields dest memory h.
      over_message-IsSome (IsUsable env (IsNested env n)) (set (suc n)) (step n (depths step n))
        fields dest memory h.0 h.1

-- Tables of a smaller depth.
All-map :
    (P Q : Field → Type 0) (fields : List Field)
    → ((f : Field) → P f → Q f)
    → All P fields
    → All Q fields
All-map P Q [] h a = a
All-map P Q (f ∷ fields) h a = (h f a.0, All-map P Q fields h a.1)

usable :
    (env : Env) (P Q : List Field → Type 0)
    → ((t : List Field) → P t → Q t)
    → (f : Field) → IsUsable env P f
    → IsUsable env Q f
usable env P Q h f (kind, size, sub) = (kind, size, λ e. h (env.table f.ptr) (sub e))

deeper :
    (env : Env) (n : ℕ) (fields : List Field) → IsNested env n fields → IsNested env (suc n) fields
deeper env zero = λ fields h. absurd h
deeper env (suc n) = λ fields h. (
  h.0,
  All-map _ _ (entries fields) (usable env (IsNested env n) (IsNested env (suc n)) (deeper env n))
      h.1,
)

-- Nested to the depth that the environment goes to.
abbrev pub IsFine : Env → List Field → Type 0
IsFine env fields = IsNested env env.depth fields

pub IsFine-All :
    (env : Env) (fields : List Field)
    → IsFine env fields
    → All (IsUsable env (IsFine env)) (entries fields)
IsFine-All env fields h = (deeper env env.depth fields h).1

pub IsFine-IsMore : (env : Env) (fields : List Field) → IsFine env fields → IsMore fields
IsFine-IsMore env fields h = (deeper env env.depth fields h).0
