-- ===== src/Data/Room.antt =====
-- `allocate_field`, and the memory that a field's bytes have, on any stream in order.
use native.Mathlib.Nat.{mul-le-mul, mul-le-mul_left, div-add-mod, mod-eq_of_lt}
use thermo_check.Common.{
  ℕ, ◌-◌, ◌*◌, ◌/◌, ◌%◌, ◌^◌, ◌≤◌, ◌<◌, ◌≡◌, ap, ◌∙◌, Bool, true, false, ◌&&◌, ◌||◌, inl, inr, ltb,
  leb, ◌==◌, arith, Bool-cases,
}
use thermo_check.Message.{
  end_of_stream, invalid_size, size_too_large, realloc_failed, bytes_overflow, string_overflow,
}
use thermo_check.Common.Exec.{◌>>◌}
use thermo_check.Input.{IStream}
use thermo_check.Input.Sound.{
  IsValid, IsSound, Any, Ends, IsSound-bind, IsSound-pure, IsSound-weaken, IsSound-return_error,
}
use thermo_check.Input.Takes.{IsBytes}
use thermo_check.Wire.Sound.{pb_read-IsSound}
use thermo_check.Data.{
  Storage, in_place, allocated, allocate_field, check_left, read_into, bytes_room, string_room,
}

product_fits :
    (d a : ℕ)
    → ((d == 0) || (a == 0)) ≡ false
    → ((leb (2 ^ 32) d || leb (2 ^ 32) a) && ltb ((2 ^ 64 - 1) / a) d) ≡ false
    → a * d < 2 ^ 64
product_fits d a e f = elim (Bool-cases (leb (2 ^ 32) d || leb (2 ^ 32) a)) [
  | inl g ↦ omega (arith, mul-le-mul_left a (below g), div-add-mod (2 ^ 64 - 1) a)
  | inr g ↦ omega (arith, mul-le-mul (small g).0 (small g).1)
]
  where
    below : (leb (2 ^ 32) d || leb (2 ^ 32) a) ≡ true → d ≤ (2 ^ 64 - 1) / a
    below g = ground arith

    small : (leb (2 ^ 32) d || leb (2 ^ 32) a) ≡ false → (a ≤ 2 ^ 32 - 1) × (d ≤ 2 ^ 32 - 1)
    small g = (ground arith, ground arith)

-- What was allocated is the whole array, by the product of the sizes without a wrap-around.
pub allocate_field-IsSound :
    (finds : ℕ → Bool) (data_size array_size : ℕ)
    → IsSound
        (λ n. (n ≡ array_size * data_size) × (finds n ≡ true))
        (allocate_field finds data_size array_size)
unfolding allocate_field
allocate_field-IsSound finds d a = elim (Bool-cases (d == 0 || a == 0)) [
  | inl e ↦ rw e (IsSound-return_error _ invalid_size)
  | inr e ↦
      rw e (elim (Bool-cases ((leb (2 ^ 32) d || leb (2 ^ 32) a) && ltb ((2 ^ 64 - 1) / a) d)) [
        | inl f ↦ rw f (IsSound-return_error _ size_too_large)
        | inr f ↦ rw f (elim (Bool-cases (finds (a * d % 2 ^ 64))) [
          | inl g ↦ rw g (IsSound-pure _ _ (mod-eq_of_lt (product_fits d a e f), g))
          | inr g ↦ rw g (IsSound-return_error _ realloc_failed)
        ])
      ])
]

check_left-IsSound : (size : ℕ) → IsSound (Any {A = Unit {0}}) (check_left size)
unfolding check_left
check_left-IsSound size = record { run = checked }
  where
    checked :
        (slack : ℕ) (s : IStream)
        → IsValid slack s
        → Ends slack Any s.bytes_left (check_left size s)
    checked slack s v = elim (Bool-cases (ltb s.bytes_left size)) [
      | inl e ↦ rw e ((IsSound-return_error Any end_of_stream).run slack s v)
      | inr e ↦ rw e (tt, v, omega arith)
    ]

pub read_into-IsSound :
    (room count : ℕ) → count ≤ room → IsSound (IsBytes count) (read_into room count)
unfolding read_into
read_into-IsSound room count h = rw fits (pb_read-IsSound count)
  where
    fits : leb count room ≡ true
    fits = ground arith

-- `n` bytes lie within the field's memory.
abbrev pub Holds : Storage → ℕ → Type 0
Holds (in_place data_size) n = n ≤ data_size
Holds (allocated finds) n = finds n ≡ true

-- The room is enough, and what fits `alloc_size` lies within the field's memory.
abbrev pub IsRoom : Storage → ℕ → ℕ → Type 0
IsRoom storage alloc_size room = (alloc_size ≤ room) × Holds storage alloc_size

allocated-IsSound :
    (finds : ℕ → Bool) (size alloc_size : ℕ)
    → IsSound
        (IsRoom (allocated finds) alloc_size)
        (check_left size >> allocate_field finds alloc_size 1)
allocated-IsSound finds size alloc_size =
    IsSound-bind Any _ (check_left size) _ (check_left-IsSound size) (λ _ _.
      IsSound-weaken _ _ (allocate_field finds alloc_size 1) exact
        (allocate_field-IsSound finds alloc_size 1))
  where
    exact :
        (n : ℕ) → (n ≡ 1 * alloc_size) × (finds n ≡ true) → IsRoom (allocated finds) alloc_size n
    exact n (e, f) = (omega arith, ap finds (omega arith) ∙ f)

pub bytes_room-IsSound :
    (storage : Storage) (size alloc_size : ℕ)
    → IsSound (IsRoom storage alloc_size) (bytes_room storage size alloc_size)
unfolding bytes_room
bytes_room-IsSound (in_place data_size) size alloc_size =
    elim (Bool-cases (ltb data_size alloc_size)) [
      | inl e ↦ rw e (IsSound-return_error _ bytes_overflow)
      | inr e ↦ rw e (IsSound-pure _ data_size (ground arith, ground arith))
    ]
bytes_room-IsSound (allocated finds) size alloc_size = allocated-IsSound finds size alloc_size

pub string_room-IsSound :
    (storage : Storage) (size alloc_size : ℕ)
    → IsSound (IsRoom storage alloc_size) (string_room storage size alloc_size)
unfolding string_room
string_room-IsSound (in_place data_size) size alloc_size =
    elim (Bool-cases (ltb data_size alloc_size)) [
      | inl e ↦ rw e (IsSound-return_error _ string_overflow)
      | inr e ↦ rw e (IsSound-pure _ data_size (ground arith, ground arith))
    ]
string_room-IsSound (allocated finds) size alloc_size = allocated-IsSound finds size alloc_size

-- On a stream in order, over a buffer or over a callback that stores what it says, `allocate_field`
-- returns and touches no memory outside the buffer, whatever bytes it meets; it leaves the stream
-- in order, with no more bytes left than before, and on success the size that `pb_realloc` found is
-- the product of the data size and the array size, with no wrap-around in `size_t`.
pub allocate_field-Ends :
    (finds : ℕ → Bool) (data_size array_size slack : ℕ) (s : IStream)
    → IsValid slack s
    → Ends slack
        (λ n. (n ≡ array_size * data_size) × (finds n ≡ true))
        s.bytes_left
        (allocate_field finds data_size array_size s)
allocate_field-Ends finds data_size array_size slack s v =
    (allocate_field-IsSound finds data_size array_size).run slack s v
