-- ===== src/Data/Sound.antt =====
-- The decoders of bytes and strings on any stream in order: they write within the field's memory.
use thermo_check.Common.{
  ℕ, zero, suc, ◌+◌, ◌-◌, ◌%◌, ◌^◌, ◌≤◌, ◌≡◌, true, false, List, [], ◌∷◌, ◌++◌, inl, inr, length,
  length-append, All, All-append, ltb, ◌==◌, arith, Bool-cases,
}
use thermo_check.Message.{size_too_large, incorrect_fixed_length_bytes_size}
use thermo_check.Common.Exec.{Outcome, ok, failed, fault}
use thermo_check.Input.{IStream}
use thermo_check.Input.Sound.{
  IsByte, IsValid, IsSound, Ends, IsSound-bind, IsSound-pure, IsSound-weaken, IsSound-return_error,
}
use thermo_check.Input.Takes.{IsBytes}
use thermo_check.Varint.{pb_decode_varint32}
use thermo_check.Varint.DecodeSound.{IsWord, pb_decode_varint32-IsSound}
use thermo_check.Data.{
  Storage, read_into, bytes_room, bytes_of_size, pb_dec_bytes, string_room, terminate,
  string_of_size, pb_dec_string, zeros, fixed_of_size, pb_dec_fixed_length_bytes,
}
use thermo_check.Data.Room.{
  Holds, IsRoom, read_into-IsSound, bytes_room-IsSound, string_room-IsSound,
}

-- Bytes that lie within the field's memory, with `more` bytes beside them.
abbrev pub IsStored : Storage → ℕ → List ℕ → Type 0
IsStored storage more bytes = Holds storage (length bytes + more) × All IsByte bytes

stored :
    (storage : Storage) (size more : ℕ) (bytes : List ℕ)
    → Holds storage (size + more)
    → IsBytes size bytes
    → IsStored storage more bytes
stored storage size more bytes h (e, k) = (rw e h, k)

bytes_of_size-IsSound :
    (storage : Storage) (size : ℕ)
    → IsWord 32 size
    → IsSound (IsStored storage 4) (bytes_of_size storage size)
unfolding bytes_of_size
bytes_of_size-IsSound storage size w =
    rw (whole, small, grows)
      (IsSound-bind (IsRoom storage (size + 4)) _ (bytes_room storage size (size + 4)) _
        (bytes_room-IsSound storage size (size + 4))
        (λ room (h, k).
          IsSound-weaken (IsBytes size) _ _ (λ bytes q. stored storage size 4 bytes k q)
            (read_into-IsSound (room - 4) size (omega arith))))
  where
    whole : (size + 4) % 2 ^ 64 ≡ size + 4
    whole = omega arith

    small : ltb (2 ^ 32 - 1) size ≡ false
    small = ground arith

    grows : ltb (size + 4) size ≡ false
    grows = ground arith

-- On a stream in order, over a buffer or over a callback that stores what it says, `pb_dec_bytes`
-- returns and touches no memory outside the buffer, whatever bytes it meets; it leaves the stream
-- in order, with no more bytes left than before, and what it stores on success lies, with the four
-- bytes of its size, within the field's memory: the data size of a field in the structure, or a
-- size that `pb_realloc` found.
pub pb_dec_bytes-Ends :
    (storage : Storage) (slack : ℕ) (s : IStream)
    → IsValid slack s
    → Ends slack (IsStored storage 4) s.bytes_left (pb_dec_bytes storage s)
unfolding pb_dec_bytes
pb_dec_bytes-Ends storage slack s v =
    (IsSound-bind (IsWord 32) _ pb_decode_varint32 (bytes_of_size storage)
        pb_decode_varint32-IsSound (bytes_of_size-IsSound storage)).run
      slack s v

zero-IsByte : All IsByte (0 ∷ [])
zero-IsByte = (omega arith, tt)

terminate-Ends :
    (storage : Storage) (slack room size left : ℕ) (r : Outcome (List ℕ) × IStream)
    → size + 1 ≤ room
    → Holds storage (size + 1)
    → Ends slack (IsBytes size) left r
    → Ends slack (IsStored storage 0) left (terminate room size r)
unfolding terminate
terminate-Ends storage slack room size left (ok bytes, s) h k ((e, b), v, l) =
    rw fits ((rw counted k, All-append IsByte bytes (0 ∷ []) b zero-IsByte), v, l)
  where
    fits : ltb size room ≡ true
    fits = ground arith

    counted : length (bytes ++ (0 ∷ [])) + 0 ≡ size + 1
    counted = omega (arith, length-append bytes (0 ∷ []), e)
terminate-Ends storage slack room size left (failed, s) h k e = rw fits e
  where
    fits : ltb size room ≡ true
    fits = ground arith
terminate-Ends storage slack room size left (fault, s) h k e = e

string_of_size-IsSound :
    (storage : Storage) (size : ℕ)
    → IsWord 32 size
    → IsSound (IsStored storage 0) (string_of_size storage size)
unfolding string_of_size
string_of_size-IsSound storage size w = elim (Bool-cases (ltb ((size + 1) % 2 ^ 32) size)) [
  | inl e ↦ rw e (IsSound-return_error _ size_too_large)
  | inr e ↦
      rw (e, whole (ground arith))
        (IsSound-bind (IsRoom storage (size + 1)) _ (string_room storage size (size + 1)) _
          (string_room-IsSound storage size (size + 1))
          (λ room (h, k). record {
            run = λ slack s v.
                terminate-Ends storage slack room size s.bytes_left (read_into room size s) h k
                  ((read_into-IsSound room size (omega arith)).run slack s v);
          }))
]
  where
    whole : size ≤ (size + 1) % 2 ^ 32 → (size + 1) % 2 ^ 32 ≡ size + 1
    whole h = omega arith

-- On a stream in order, over a buffer or over a callback that stores what it says, `pb_dec_string`
-- returns and touches no memory outside the buffer, whatever bytes it meets; it leaves the stream
-- in order, with no more bytes left than before, and what it stores on success, with its
-- terminator, lies within the field's memory: the data size of a field in the structure, or a size
-- that `pb_realloc` found; a write behind that memory does not occur on failure either.
pub pb_dec_string-Ends :
    (storage : Storage) (slack : ℕ) (s : IStream)
    → IsValid slack s
    → Ends slack (IsStored storage 0) s.bytes_left (pb_dec_string storage s)
unfolding pb_dec_string
pb_dec_string-Ends storage slack s v =
    (IsSound-bind (IsWord 32) _ pb_decode_varint32 (string_of_size storage)
        pb_decode_varint32-IsSound (string_of_size-IsSound storage)).run
      slack s v

zeros-IsBytes : (n : ℕ) → IsBytes n (zeros n)
unfolding zeros
zeros-IsBytes zero = (omega arith, tt)
zeros-IsBytes (suc n) = let (e, h) = zeros-IsBytes n in (omega arith, (omega arith, h))

fixed_of_size-IsSound :
    (data_size size : ℕ)
    → IsWord 32 size
    → IsSound (IsBytes data_size) (fixed_of_size data_size size)
unfolding fixed_of_size
fixed_of_size-IsSound data_size size w = rw small (elim (Bool-cases (size == 0)) [
  | inl e ↦ rw e (IsSound-pure _ (zeros data_size) (zeros-IsBytes data_size))
  | inr e ↦ rw e (elim (Bool-cases (size == data_size)) [
    | inl f ↦ rw f (read_into-IsSound data_size data_size (omega arith))
    | inr f ↦ rw f (IsSound-return_error _ incorrect_fixed_length_bytes_size)
  ])
])
  where
    small : ltb (2 ^ 32 - 1) size ≡ false
    small = ground arith

-- On a stream in order, over a buffer or over a callback that stores what it says,
-- `pb_dec_fixed_length_bytes` returns and touches no memory outside the buffer, whatever bytes it
-- meets; it leaves the stream in order, with no more bytes left than before, and what it stores on
-- success is as many bytes as the data size, for an empty string too.
pub pb_dec_fixed_length_bytes-Ends :
    (data_size slack : ℕ) (s : IStream)
    → IsValid slack s
    → Ends slack (IsBytes data_size) s.bytes_left (pb_dec_fixed_length_bytes data_size s)
unfolding pb_dec_fixed_length_bytes
pb_dec_fixed_length_bytes-Ends data_size slack s v =
    (IsSound-bind (IsWord 32) _ pb_decode_varint32 (fixed_of_size data_size)
        pb_decode_varint32-IsSound (fixed_of_size-IsSound data_size)).run
      slack s v
