-- ===== src/App/EntryPoint.antt =====
-- models/EntryPoint.swift: an entry point, and the dictionary that Firebase keeps of it.
use Prim.Native.String.{String}
use text.Mathlib.Text.{◌==◌}
use thermo_check.Common.{ℕ, ◌≡◌, refl, Option, none, some, List, [], ◌∷◌, if◌then◌else◌}
use thermo_check.Common.Int.{ℤ}

-- A text is the list of its characters.
abbrev pub Text : Type 0
Text = List ℕ

pub record EntryPoint : Type 0 where
  pub date_time : Text
  pub temperature : ℤ
  pub humidity : ℤ

-- Swift's `Any`, with the casts to `String` and `Int` and back.
pub record Anything : Type 1 where
  pub Value : Type 0
  pub of_string : Text → Value
  pub of_int : ℤ → Value
  pub as_string : Value → Option Text
  pub as_int : Value → Option ℤ

-- A value that was a `String` or an `Int` is cast back to itself.
pub record IsFaithful (any : Anything) : Type 0 where
  pub string_back : (s : Text) → any.as_string (any.of_string s) ≡ some s
  pub int_back : (n : ℤ) → any.as_int (any.of_int n) ≡ some n

module _ (any : Anything) where
  open any use {Value, of_string, of_int, as_string, as_int}

  abbrev pub Dict : Type 0
  Dict = List (String × Value)

  -- `dict[key]`.
  unfoldable pub subscript : Dict → String → Option Value
  subscript [] key = none
  subscript ((k, v) ∷ dict) key = let rest = subscript dict key in if k == key then some v else rest

  unfoldable pub dict : EntryPoint → Dict
  dict e =
      ("dateTime", of_string e.date_time)
      ∷ ("temperature", of_int e.temperature)
      ∷ ("humidity", of_int e.humidity)
      ∷ []

  -- `dict[key] as? T`.
  unfoldable pub cast : {T : Type 0} → (Value → Option T) → Dict → String → Option T
  cast as_type dict key = elim (subscript dict key) [ none ↦ none | some v ↦ as_type v ]

  infixl 5 ◌>>=◌
  abbrev ◌>>=◌ : {A B : Type 0} → Option A → (A → Option B) → Option B
  none >>= k = none
  some a >>= k = k a

  -- `init?(dict:)`.
  unfoldable pub init? : Dict → Option EntryPoint
  init? dict = do
    date_time ← cast as_string dict "dateTime"
    temperature ← cast as_int dict "temperature"
    humidity ← cast as_int dict "humidity"
    some (record { date_time = date_time; temperature = temperature; humidity = humidity })

  -- The dictionary of an entry point is read back.
  pub init?-dict : IsFaithful any → (e : EntryPoint) → init? (dict e) ≡ some e
  unfolding init? dict cast subscript
  init?-dict faithful e =
      rw
        (
          faithful.string_back e.date_time,
          faithful.int_back e.temperature,
          faithful.int_back e.humidity,
        )
        refl
