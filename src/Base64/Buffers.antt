-- ===== src/Base64/Buffers.antt =====
-- Loads from and stores to a buffer of bytes, as fbase64.c makes them.
use Prim.Native.Char.{code}
use Prim.Native.String.{String}
use thermo_check.Common.{
  ℕ, zero, suc, ◌+◌, ◌≤◌, ◌≡◌, refl, ap, none, some, List, [], ◌∷◌, ◌++◌, length, get_elem?,
  length-append, drop, sym, ◌∙◌, arith,
}
use mathlib.Core.List.{append-nil, append_assoc}
use thermo_check.Common.Exec.{ok, fault, Exec, pure, ◌>>◌}

-- The bytes of a text in ASCII.
abbrev pub codes : String → List ℕ
codes String.[] = []
codes (String.◌∷◌ c s) = code c ∷ codes s

-- A store behind the buffer is a fault.
unfoldable pub store : ℕ → ℕ → Exec (List ℕ) (Unit {0})
store i byte [] = (fault, [])
store zero byte (b ∷ bytes) = (ok tt, byte ∷ bytes)
store (suc i) byte (b ∷ bytes) = let rest = store i byte bytes in (rest.0, b ∷ rest.1)

unfoldable pub load : ℕ → Exec (List ℕ) ℕ
load i bytes = elim (get_elem? bytes i) [ none ↦ (fault, bytes) | some byte ↦ (ok byte, bytes) ]

-- `target[i++] = …` for each of the bytes.
unfoldable pub store_all : ℕ → List ℕ → Exec (List ℕ) (Unit {0})
store_all i [] = pure tt
store_all i (byte ∷ bytes) = do store i byte; store_all (i + 1) bytes

module _ (b byte : ℕ) (free : List ℕ) where
  pub store_next :
      (written : List ℕ) (i : ℕ)
      → length written ≡ i
      → store i byte (written ++ b ∷ free) ≡ (ok tt, written ++ byte ∷ free)
  unfolding store
  store_next [] zero h = refl
  store_next [] (suc i) h = absurd (omega arith)
  store_next (x ∷ written) zero h = absurd (omega arith)
  store_next (x ∷ written) (suc i) h = rw (store_next written i (omega arith))

module _ (b : ℕ) (free : List ℕ) where
  pub load_next :
      (written : List ℕ) (i : ℕ)
      → length written ≡ i
      → load i (written ++ b ∷ free) ≡ (ok b, written ++ b ∷ free)
  unfolding load
  load_next written i h = rw (here written i h, load)
    where
      here : (w : List ℕ) (i : ℕ) → length w ≡ i → get_elem? (w ++ b ∷ free) i ≡ some b
      here [] zero h = refl
      here [] (suc i) h = absurd (omega arith)
      here (x ∷ w) zero h = absurd (omega arith)
      here (x ∷ w) (suc i) h = here w i (omega arith)

-- Stores behind what is written, into what is free.
pub store_all_next :
    (chars written free : List ℕ) (i : ℕ)
    → length written ≡ i
    → length chars ≤ length free
    → store_all i chars (written ++ free) ≡ (ok tt, (written ++ chars) ++ drop (length chars) free)
unfolding store_all
store_all_next [] written free i h k = rw append-nil
store_all_next (c ∷ chars) written [] i h k = absurd (omega arith)
store_all_next (c ∷ chars) written (b ∷ free) i h k =
    rw (store_next b c free written i h, move c free)
      (store_all_next chars (written ++ c ∷ []) free (i + 1)
          (omega (arith, length-append written (c ∷ []))) (omega arith)
        ∙ ap (λ t. (ok tt, t ++ drop (length chars) free)) (append_assoc written (c ∷ []) chars))
  where
    move : (c : ℕ) (free : List ℕ) → written ++ c ∷ free ≡ (written ++ c ∷ []) ++ free
    move c free = sym (append_assoc written (c ∷ []) free)
