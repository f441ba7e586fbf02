-- ===== src/Base64/Sound.antt =====
-- `f_b64_pton` stays within its buffer and within the string, whatever they hold.
use thermo_check.Common.{
  ℕ, ◌^◌, ◌≤◌, ◌<◌, ◌≡◌, refl, ◌⊎◌, ◌≢◌, inl, inr, Bool, false, none, some, List, [], ◌∷◌, length,
  ◌==◌, Bool-cases, Option-cases, arith,
}
use thermo_check.Common.Exec.{Outcome, ok, failed, fault, Exec, continue}
use thermo_check.Base64.{
  DigitState, digits0, digits1, digits2, digits3, Target, on_target, store_digit, next_state,
  next_index, only_spaces, second_pad, check_extra, after_pad, at_end, pton_from, f_b64_pton, find,
  base64, pad64,
}
use thermo_check.Base64.Bounds.{
  Fine, Is, InRange, get_elem?-some, load_lem, next_small, store_digit-Fine,
}

-- The buffer has `n` bytes, or the pointer to it is null.
abbrev pub HasSize : ℕ → Target → Type 0
HasSize n none = Unit {0}
HasSize n (some t) = length t ≡ n

-- The index of a group that is being put together: a null pointer has no bytes to store to.
abbrev Within : ℕ → DigitState → ℕ → Target → Type 0
Within n state i none = i < 2 ^ 32
Within n state i (some t) = InRange n state i

-- The call returned, the buffer has its size, and the value on success is in `Q`.
abbrev pub Returns : ℕ → {A : Type 0} → (A → Target → Type 0) → Outcome A × Target → Type 0
Returns n Q (ok a, t) = HasSize n t × Q a t
Returns n Q (failed, t) = HasSize n t
Returns n Q (fault, t) = ⊥

module _ (n : ℕ) {A B : Type 0} where
  Returns-continue :
      (P : A → Target → Type 0) (Q : B → Target → Type 0) (k : A → Exec Target B)
      → ((a : A) (t : Target) → P a t → HasSize n t → Returns n Q (k a t))
      → (r : Outcome A × Target) → Returns n P r
      → Returns n Q (continue k r)
  Returns-continue P Q k h (ok a, t) (e, p) = h a t p e
  Returns-continue P Q k h (failed, t) e = e
  Returns-continue P Q k h (fault, t) e = e

module _ (n i pos : ℕ) (state : DigitState) where
  stored-Returns :
      (t : Target)
      → HasSize n t
      → Within n state i t
      → Returns n
          (λ _. Within n (next_state state) (next_index state i))
          (on_target (store_digit state n i pos) t)
  unfolding on_target
  stored-Returns none h w = (tt, next_index-lt state)
    where
      next_index-lt : (state : DigitState) → next_index state i < 2 ^ 32
      next_index-lt digits0 = w
      next_index-lt digits1 = next_small i
      next_index-lt digits2 = next_small i
      next_index-lt digits3 = next_small i
  stored-Returns (some buf) h w =
      made (store_digit state n i pos buf) (store_digit-Fine n i pos state buf h w)
    where
      made :
          (r : Outcome (Unit {0}) × List ℕ)
          → Fine n (Is (InRange n (next_state state) (next_index state i))) r
          → Returns n (λ _. Within n (next_state state) (next_index state i)) (r.0, some r.1)
      made (ok a, t') e = e
      made (failed, t') e = e
      made (fault, t') e = e

index_in :
    (n i : ℕ) (state : DigitState) (t : Target)
    → state ≢ digits0
    → Within n state i t
    → Within n digits1 i t
index_in n i state none h w = w
index_in n i digits0 (some t) h w = absurd (h refl)
index_in n i digits1 (some t) h w = w
index_in n i digits2 (some t) h w = w
index_in n i digits3 (some t) h w = w

-- A string has a terminator.
abbrev pub IsTerminated : List ℕ → Type 0
IsTerminated [] = ⊥
IsTerminated (ch ∷ src) = (ch ≡ 0) ⊎ IsTerminated src

goes_on : (ch : ℕ) (src : List ℕ) → IsTerminated (ch ∷ src) → (ch == 0) ≡ false → IsTerminated src
goes_on ch src (inl end) more = absurd (ground arith)
goes_on ch src (inr e) more = e

-- What is returned: a number of bytes of the buffer.
abbrev pub Count : ℕ → ℕ → Target → Type 0
Count n i none = i < 2 ^ 32
Count n i (some t) = (i ≤ n) × (i < 2 ^ 32)

module _ (isspace : ℕ → Bool) (n : ℕ) where
  only_spaces-Returns :
      (src : List ℕ) (P : Target → Type 0) (t : Target)
      → IsTerminated src
      → HasSize n t
      → P t
      → Returns n (λ _. P) (only_spaces isspace src t)
  unfolding only_spaces
  only_spaces-Returns [] P t e h p = e
  only_spaces-Returns (ch ∷ src) P t e h p = elim (Bool-cases (ch == 0)) [
    | inl end ↦ rw end (h, p)
    | inr more ↦ rw more (elim (Bool-cases (isspace ch)) [
      | inl space ↦ rw space (only_spaces-Returns src P t (goes_on ch src e more) h p)
      | inr other ↦ rw other h
    ])
  ]

  second_pad-Returns :
      (src : List ℕ) (P : Target → Type 0) (t : Target)
      → IsTerminated src
      → HasSize n t
      → P t
      → Returns n (λ _. P) (second_pad isspace src t)
  unfolding second_pad
  second_pad-Returns [] P t e h p = e
  second_pad-Returns (ch ∷ src) P t e h p = elim (Bool-cases (ch == 0)) [
    | inl end ↦ rw end h
    | inr more ↦ rw more (elim (Bool-cases (isspace ch)) [
      | inl space ↦ rw space (second_pad-Returns src P t (goes_on ch src e more) h p)
      | inr other ↦ rw other (elim (Bool-cases (ch == pad64)) [
        | inl pad ↦ rw pad (only_spaces-Returns src P t (goes_on ch src e more) h p)
        | inr none_such ↦ rw none_such h
      ])
    ])
  ]

  check_extra-Returns :
      (i : ℕ) (t : Target)
      → HasSize n t
      → Within n digits1 i t
      → Returns n (Count n) (check_extra i t)
  unfolding check_extra on_target
  check_extra-Returns i none h w = (tt, w)
  check_extra-Returns i (some buf) h w =
      let (b, e) = get_elem?-some buf i (omega arith) in
      rw (load_lem i b buf e) (elim (Bool-cases (b == 0)) [
        | inl zero_bits ↦ rw zero_bits (h, (omega arith, w.1))
        | inr extra ↦ rw extra h
      ])

  after_pad-Returns :
      (state : DigitState) (i : ℕ) (src : List ℕ) (t : Target)
      → IsTerminated src
      → HasSize n t
      → Within n state i t
      → Returns n (Count n) (after_pad isspace state i src t)
  unfolding after_pad
  after_pad-Returns state i [] t e h w = absurd e
  after_pad-Returns digits0 i (ch ∷ src) t e h w = h
  after_pad-Returns digits1 i (ch ∷ src) t e h w = h
  after_pad-Returns digits2 i (ch ∷ src) t e h w =
      Returns-continue n _ _ _
        (λ _ t' w' h'. check_extra-Returns i t' h' (index_in n i digits2 t' (λ p. cc) w'))
        (second_pad isspace (ch ∷ src) t)
        (second_pad-Returns (ch ∷ src) (Within n digits2 i) t e h w)
  after_pad-Returns digits3 i (ch ∷ src) t e h w =
      Returns-continue n _ _ _
        (λ _ t' w' h'. check_extra-Returns i t' h' (index_in n i digits3 t' (λ p. cc) w'))
        (only_spaces isspace (ch ∷ src) t)
        (only_spaces-Returns (ch ∷ src) (Within n digits3 i) t e h w)

  at_end-Returns :
      (state : DigitState) (i : ℕ) (t : Target)
      → HasSize n t
      → Within n state i t
      → Returns n (Count n) (at_end state i t)
  unfolding at_end
  at_end-Returns digits0 i none h w = (h, w)
  at_end-Returns digits0 i (some t) h w = (h, w)
  at_end-Returns digits1 i t h w = h
  at_end-Returns digits2 i t h w = h
  at_end-Returns digits3 i t h w = h

  pton_from-Returns :
      (src : List ℕ) (state : DigitState) (i : ℕ) (t : Target)
      → IsTerminated src
      → HasSize n t
      → Within n state i t
      → Returns n (Count n) (pton_from isspace n state i src t)
  unfolding pton_from
  pton_from-Returns [] state i t e h w = e
  pton_from-Returns (ch ∷ src) state i t e h w = elim (Bool-cases (ch == 0)) [
    | inl end ↦ rw end (at_end-Returns state i t h w)
    | inr more ↦
        let later = goes_on ch src e more in
        rw more (elim (Bool-cases (isspace ch)) [
          | inl space ↦ rw space (pton_from-Returns src state i t later h w)
          | inr other ↦ rw other (elim (Bool-cases (ch == pad64)) [
            | inl pad ↦ rw pad (after_pad-Returns state i src t later h w)
            | inr no_pad ↦ rw no_pad (elim (Option-cases (find ch 0 base64)) [
              | inl unknown ↦ rw unknown h
              | inr (pos, known) ↦ rw known (
                  Returns-continue n _ _ _
                    (λ _ t' w' h'.
                      pton_from-Returns src (next_state state) (next_index state i) t' later h' w')
                    (on_target (store_digit state n i pos) t) (stored-Returns n i pos state t h w))
            ])
          ])
        ])
  ]

  -- For every `isspace`, every string with a terminator and every buffer or null pointer,
  -- `f_b64_pton` with the buffer's size returns, reads nothing behind the terminator and touches
  -- nothing outside the buffer; what it returns on success is below 2 ^ 32 and, with a buffer, at
  -- most the buffer's size.
  pub f_b64_pton-Returns :
      (src : List ℕ) (t : Target)
      → IsTerminated src
      → HasSize n t
      → Returns n (Count n) (f_b64_pton isspace src n t)
  unfolding f_b64_pton
  f_b64_pton-Returns src none e h = pton_from-Returns src digits0 0 none e h (omega arith)
  f_b64_pton-Returns src (some t) e h =
      pton_from-Returns src digits0 0 (some t) e h (omega arith, omega arith)
