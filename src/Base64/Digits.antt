-- ===== src/Base64/Digits.antt =====
-- How `f_b64_pton` takes a digit of the alphabet, and what it stores for it behind the bytes that
-- it has written.
use mathlib.Core.List.{append_assoc}
use thermo_check.Common.{
  ℕ, ◌+◌, ◌*◌, ◌/◌, ◌%◌, ◌^◌, ◌<◌, ◌≡◌, refl, sym, ap, ◌∙◌, bit_and, bit_or, Bool, true, false,
  ◌&&◌, not, Option, none, some, List, [], ◌∷◌, ◌++◌, length, get_elem?, All-get, length-append,
  leb, ◌==◌, ==_iff, All, arith,
}
use thermo_check.Common.Bits.{every_below, every_below→true}
use thermo_check.Common.Exec.{ok}
use thermo_check.Base64.{
  DigitState, digits0, digits1, digits2, digits3, on_target, check_room, join, next, store_digit,
  next_state, next_index, pton_from, find, base64, pad64, digit,
}
use thermo_check.Base64.Buffers.{store, store_next, load_next}

-- A digit is found where it stands.
is_found : Option ℕ → ℕ → Bool
is_found none pos = false
is_found (some p) pos = p == pos

is_found→some : (o : Option ℕ) (pos : ℕ) → is_found o pos ≡ true → o ≡ some pos
unfolding is_found
is_found→some none pos h = cc
is_found→some (some p) pos h = ap (λ q. some q) ((==_iff p pos).0 h)

module _ (pos : ℕ) (small : pos < 64) where
  find-digit : find (digit pos) 0 base64 ≡ some pos
  find-digit =
      is_found→some _ pos
        (every_below→true 64 (λ k. is_found (find (digit k) 0 base64) k) pos table small)
    where
      table : every_below 64 (λ k. is_found (find (digit k) 0 base64) k) ≡ true
      table = unfold every_below is_found find digit in refl

  digit_other : ((digit pos == 0) ≡ false) × ((digit pos == pad64) ≡ false)
  digit_other =
      neither _ _
        (every_below→true 64 (λ k. not (digit k == 0) && not (digit k == pad64)) pos table small)
    where
      neither : (a b : Bool) → (not a && not b) ≡ true → (a ≡ false) × (b ≡ false)
      neither true b h = absurd (ground arith)
      neither false true h = absurd (ground arith)
      neither false false h = (refl, refl)

      table : every_below 64 (λ k. not (digit k == 0) && not (digit k == pad64)) ≡ true
      table = unfold every_below digit in refl

digit-eq : (pos ch : ℕ) → get_elem? base64 pos ≡ some ch → digit pos ≡ ch
unfolding digit
digit-eq pos ch e = rw (e, digit)

digit_printing :
    (isspace : ℕ → Bool) (pos : ℕ)
    → pos < 64
    → All (λ ch. isspace ch ≡ false) base64
    → isspace (digit pos) ≡ false
digit_printing isspace pos small h =
    let (ch, e, p) = All-get (λ ch. isspace ch ≡ false) base64 pos h small in
    rw (digit-eq pos ch e) p

-- The stores at `i`, behind the bytes that have been written.
module _ (written : List ℕ) (n i pos : ℕ) (at : length written ≡ i) (in_32 : i + 1 < 2 ^ 32) where
  pub next_lem : next i ≡ i + 1
  next_lem = omega arith

  check_room_lem : (j : ℕ) (t : List ℕ) → j < n → check_room n j t ≡ (ok tt, t)
  unfolding check_room
  check_room_lem j t h = rw (room)
    where
      room : leb n j ≡ false
      room = ground arith

  join_lem :
      (bits x : ℕ) (free : List ℕ)
      → join i bits (written ++ x ∷ free) ≡ (ok tt, written ++ (bit_or x bits % 256) ∷ free)
  unfolding join
  join_lem bits x free = rw (load_next x free written i at) (store_next x _ free written i at)

  store_behind :
      (byte x y : ℕ) (free : List ℕ)
      → store (next i) byte (written ++ x ∷ y ∷ free) ≡ (ok tt, written ++ x ∷ byte ∷ free)
  store_behind byte x y free =
      ap (store (next i) byte) (move y)
      ∙ store_next y byte free (written ++ x ∷ []) (next i)
          (omega (arith, next_lem, length-append written (x ∷ [])))
      ∙ ap (λ t. (ok tt, t)) (sym (move byte))
    where
      move : (y : ℕ) → written ++ x ∷ y ∷ free ≡ (written ++ x ∷ []) ++ y ∷ free
      move y = sym (append_assoc written (x ∷ []) (y ∷ free))

  pub store_digits0 :
      (x : ℕ) (free : List ℕ)
      → i < n
      → store_digit digits0 n i pos (written ++ x ∷ free)
        ≡ (ok tt, written ++ (pos * 4 % 256) ∷ free)
  unfolding store_digit
  store_digits0 x free room = rw (check_room_lem i _ room) (store_next x _ free written i at)

  pub store_digits1 :
      (x y : ℕ) (free : List ℕ)
      → i + 1 < n
      → store_digit digits1 n i pos (written ++ x ∷ y ∷ free)
        ≡ (ok tt, written ++ (bit_or x (pos / 16) % 256) ∷ (bit_and pos 0x0f * 16 % 256) ∷ free)
  unfolding store_digit
  store_digits1 x y free room =
      rw (check_room_lem (next i) _ (omega (arith, next_lem)), join_lem (pos / 16) x (y ∷ free))
        (store_behind _ _ y free)

  pub store_digits2 :
      (x y : ℕ) (free : List ℕ)
      → i + 1 < n
      → store_digit digits2 n i pos (written ++ x ∷ y ∷ free)
        ≡ (ok tt, written ++ (bit_or x (pos / 4) % 256) ∷ (bit_and pos 0x03 * 64 % 256) ∷ free)
  unfolding store_digit
  store_digits2 x y free room =
      rw (check_room_lem (next i) _ (omega (arith, next_lem)), join_lem (pos / 4) x (y ∷ free))
        (store_behind _ _ y free)

  pub store_digits3 :
      (x : ℕ) (free : List ℕ)
      → i < n
      → store_digit digits3 n i pos (written ++ x ∷ free)
        ≡ (ok tt, written ++ (bit_or x pos % 256) ∷ free)
  unfolding store_digit
  store_digits3 x free room = rw (check_room_lem i _ room) (join_lem pos x free)

-- The loop takes a digit.
module _ (isspace : ℕ → Bool) (printing : All (λ ch. isspace ch ≡ false) base64) where
  pub take_digit :
      (n i pos : ℕ) (state : DigitState) (src buf buf' : List ℕ)
      → pos < 64
      → store_digit state n i pos buf ≡ (ok tt, buf')
      → pton_from isspace n state i (digit pos ∷ src) (some buf)
        ≡ pton_from isspace n (next_state state) (next_index state i) src (some buf')
  unfolding pton_from on_target
  take_digit n i pos state src buf buf' small e =
      let (no_end, no_pad) = digit_other pos small in
      rw (no_end, digit_printing isspace pos small printing, no_pad, find-digit pos small, e)
