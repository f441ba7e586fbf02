-- ===== src/Tests/Data.antt =====
-- The theorems on fields of bytes and strings, and on the tags of fields, at concrete arguments.
use thermo_check.Common.{ℕ, ◌*◌, ◌≡◌, refl, Bool, true, some, [], ◌∷◌, leb, arith}
use thermo_check.Input.Sound.{Ends}
use thermo_check.Fields.{ltype}
use thermo_check.Encode.{wiretype_of}
use thermo_check.RoundTrip.{Transfers}
use thermo_check.Data.{
  in_place, allocated, allocate_field, pb_dec_bytes, pb_dec_string, pb_enc_bytes, pb_enc_string,
}
use thermo_check.Data.Sound.{IsStored, pb_dec_string-Ends}
use thermo_check.Data.Room.{allocate_field-Ends}
use thermo_check.Data.RoundTrip.{pb_dec_bytes-pb_enc_bytes}
use thermo_check.Data.Strings.{pb_dec_string-pb_enc_string}
use thermo_check.Tests.{desk, room, at_frame, at_frame-IsValid}

-- `pb_realloc` that finds memory below a thousand bytes.
abbrev some_memory : ℕ → Bool
some_memory n = leb n 1000

pb_dec_string-Ends_example :
    Ends 0 (IsStored (allocated some_memory) 0) 4 (pb_dec_string (allocated some_memory) at_frame)
pb_dec_string-Ends_example = pb_dec_string-Ends (allocated some_memory) 0 at_frame at_frame-IsValid

allocate_field-Ends_example :
    Ends 0 (λ n. (n ≡ 8 * 12) × (some_memory n ≡ true)) 4 (allocate_field some_memory 12 8 at_frame)
allocate_field-Ends_example = allocate_field-Ends some_memory 12 8 0 at_frame at_frame-IsValid

pb_dec_bytes-pb_enc_bytes_example :
    Transfers desk
      (pb_enc_bytes (in_place 6) (some (0x41 ∷ 0 ∷ [])))
      (pb_dec_bytes (in_place 6))
      (0x41 ∷ 0 ∷ [])
pb_dec_bytes-pb_enc_bytes_example =
    pb_dec_bytes-pb_enc_bytes 6 (0x41 ∷ 0 ∷ []) desk (omega arith) (omega arith)
      (room 12 (omega arith))

pb_dec_string-pb_enc_string_example :
    Transfers desk
      (pb_enc_string (in_place 4) (some (0x41 ∷ 0x42 ∷ 0 ∷ 9 ∷ [])))
      (pb_dec_string (in_place 4))
      (0x41 ∷ 0x42 ∷ 0 ∷ [])
pb_dec_string-pb_enc_string_example =
    pb_dec_string-pb_enc_string 4 (0x41 ∷ 0x42 ∷ []) (9 ∷ []) desk (omega arith, (omega arith, tt))
      (omega arith) (omega arith) (room 12 (omega arith))

string_field : wiretype_of (ltype 0x87) ≡ some 2
unfolding wiretype_of ltype
string_field = refl
