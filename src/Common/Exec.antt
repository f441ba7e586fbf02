-- ===== src/Common/Exec.antt =====
-- C functions that return `bool` and change what their arguments point to.

-- `ok`: true is returned, with what is stored through the destination pointers. `failed`: false
-- is returned. `fault` is no C value: memory outside a buffer was touched, or a loop of the model
-- ran out of fuel.
pub data Outcome {ℓ} (A : Type ℓ) : Type ℓ where
  ok : A → Outcome A
  failed : Outcome A
  fault : Outcome A

abbrev pub Exec : Type 0 → Type 0 → Type 0
Exec S A = S → Outcome A × S

module _ {S A : Type 0} where
  abbrev pub pure : A → Exec S A
  pure a s = (ok a, s)

module _ {S A B : Type 0} where
  abbrev pub continue : (A → Exec S B) → Outcome A × S → Outcome B × S
  continue f (ok a, s) = f a s
  continue f (failed, s) = (failed, s)
  continue f (fault, s) = (fault, s)

  infixl 5 ◌>>=◌ ◌>>◌
  abbrev pub ◌>>=◌ : Exec S A → (A → Exec S B) → Exec S B
  ◌>>=◌ m f s = continue f (m s)

  abbrev pub ◌>>◌ : Exec S A → Exec S B → Exec S B
  m >> n = m >>= λ _. n
