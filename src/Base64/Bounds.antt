-- ===== src/Base64/Bounds.antt =====
-- The stores of `f_b64_pton` for a digit stay within its buffer.
use thermo_check.Common.{
  ℕ, zero, suc, ◌^◌, ◌≤◌, ◌<◌, ◌≡◌, refl, inl, inr, some, List, [], ◌∷◌, length, get_elem?, leb,
  Bool-cases, arith,
}
use thermo_check.Common.Exec.{Outcome, ok, failed, fault, Exec, continue, ◌>>◌}
use thermo_check.Base64.{
  DigitState, digits0, digits1, digits2, digits3, check_room, join, next, store_digit, next_state,
  next_index,
}
use thermo_check.Base64.Buffers.{load, store}

-- On a buffer of `n` bytes: no store or load outside it, and `Q` of the value on success.
abbrev pub Fine : ℕ → {A : Type 0} → (A → Type 0) → Outcome A × List ℕ → Type 0
Fine n Q (ok a, t) = (length t ≡ n) × Q a
Fine n Q (failed, t) = length t ≡ n
Fine n Q (fault, t) = ⊥

module _ (n : ℕ) {A B : Type 0} where
  Fine-continue :
      (P : A → Type 0) (Q : B → Type 0) (k : A → Exec (List ℕ) B)
      → ((a : A) (t : List ℕ) → P a → length t ≡ n → Fine n Q (k a t))
      → (r : Outcome A × List ℕ) → Fine n P r
      → Fine n Q (continue k r)
  Fine-continue P Q k h (ok a, t) (e, p) = h a t p e
  Fine-continue P Q k h (failed, t) e = e
  Fine-continue P Q k h (fault, t) e = e

pub get_elem?-some : (t : List ℕ) (i : ℕ) → i < length t → (b : ℕ) × (get_elem? t i ≡ some b)
get_elem?-some [] i h = absurd (omega arith)
get_elem?-some (b ∷ t) zero h = (b, refl)
get_elem?-some (b ∷ t) (suc i) h = get_elem?-some t i (omega arith)

pub load_lem : (i b : ℕ) (t : List ℕ) → get_elem? t i ≡ some b → load i t ≡ (ok b, t)
unfolding load
load_lem i b t e = rw (e, load)

abbrev pub Is : Type 0 → Unit {0} → Type 0
Is P _ = P

length-store :
    (i byte : ℕ) (t : List ℕ) → i < length t → Fine (length t) (Is (Unit {0})) (store i byte t)
unfolding store
length-store i byte [] h = absurd (omega arith)
length-store zero byte (b ∷ t) h = (refl, tt)
length-store (suc i) byte (b ∷ t) h = later (store i byte t) (length-store i byte t (omega arith))
  where
    later :
        (r : Outcome (Unit {0}) × List ℕ)
        → Fine (length t) (Is (Unit {0})) r
        → Fine (suc (length t)) (Is (Unit {0})) (r.0, b ∷ r.1)
    later (ok a, t') (e, p) = (omega arith, tt)
    later (failed, t') e = omega arith
    later (fault, t') e = e

Fine-map :
    (n : ℕ) (P : Type 0) {Q : Type 0} (r : Outcome (Unit {0}) × List ℕ)
    → Q
    → Fine n (Is P) r
    → Fine n (Is Q) r
Fine-map n P (ok a, t) q (e, p) = (e, q)
Fine-map n P (failed, t) q e = e
Fine-map n P (fault, t) q e = e

module _ (n i : ℕ) (t : List ℕ) (whole : length t ≡ n) where
  store-Fine : (byte : ℕ) (P : Type 0) → P → i < n → Fine n (Is P) (store i byte t)
  store-Fine byte P p h =
      Fine-map n (Unit {0}) (store i byte t) p (rw whole at (length-store i byte t (omega arith)))

  load-Fine : i < n → Fine n (λ byte. Unit {0}) (load i t)
  load-Fine h = let (b, e) = get_elem?-some t i (omega arith) in rw (load_lem i b t e) (whole, tt)

  check_room-Fine : (m : ℕ) → Fine n (Is (i < m)) (check_room m i t)
  unfolding check_room
  check_room-Fine m = elim (Bool-cases (leb m i)) [
    | inl full ↦ rw full whole
    | inr room ↦ rw room (whole, ground arith)
  ]

join-Fine :
    (n i bits : ℕ) (t : List ℕ) → length t ≡ n → i < n → Fine n (Is (Unit {0})) (join i bits t)
unfolding join
join-Fine n i bits t whole h =
    Fine-continue n _ _ _ (λ byte t' u whole'. store-Fine n i t' whole' _ (Unit {0}) tt h)
      (load i t) (load-Fine n i t whole h)

-- Where the digits of a group are being put together, the index is inside the buffer.
abbrev pub InRange : ℕ → DigitState → ℕ → Type 0
InRange n digits0 i = (i ≤ n) × (i < 2 ^ 32)
InRange n _ i = (i < n) × (i < 2 ^ 32)

pub next_small : (i : ℕ) → next i < 2 ^ 32
next_small i = omega arith

module _ (n i pos : ℕ) where
  -- The test of the room for the byte at `next i`, and two stores.
  two_bytes-Fine :
      (bits byte : ℕ) (t : List ℕ)
      → length t ≡ n
      → i < n
      → Fine n
          (Is ((next i < n) × (next i < 2 ^ 32)))
          ((do check_room n (next i); join i bits; store (next i) byte) t)
  two_bytes-Fine bits byte t whole h =
      Fine-continue n _ _ _
        (λ _ t1 room whole1.
          Fine-continue n _ _ _
            (λ _ t2 u whole2. store-Fine n (next i) t2 whole2 byte _ (room, next_small i) room)
            (join i bits t1) (join-Fine n i bits t1 whole1 h))
        (check_room n (next i) t) (check_room-Fine n (next i) t whole n)

  pub store_digit-Fine :
      (state : DigitState) (t : List ℕ)
      → length t ≡ n
      → InRange n state i
      → Fine n
          (Is (InRange n (next_state state) (next_index state i)))
          (store_digit state n i pos t)
  unfolding store_digit
  store_digit-Fine digits0 t whole h =
      Fine-continue n _ _ _ (λ _ t1 room whole1. store-Fine n i t1 whole1 _ _ (room, h.1) room)
        (check_room n i t) (check_room-Fine n i t whole n)
  store_digit-Fine digits1 t whole h = two_bytes-Fine _ _ t whole h.0
  store_digit-Fine digits2 t whole h = two_bytes-Fine _ _ t whole h.0
  store_digit-Fine digits3 t whole h =
      Fine-continue n _ _ _
        (λ _ t1 room whole1.
          Fine-map n (Unit {0}) (join i pos t1) (omega arith) (join-Fine n i pos t1 whole1 room))
        (check_room n i t) (check_room-Fine n i t whole n)
