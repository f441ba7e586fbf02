-- ===== src/RoundTrip/Fields.antt =====
-- Round trips of scalar fields, by the size of the field.
use thermo_check.Common.{
  ℕ, ◌+◌, ◌*◌, ◌%◌, ◌^◌, ◌≤◌, ◌<◌, ◌≡◌, refl, ap, Bool, true, false, ◌⊎◌, inl, inr, Option, some,
  List, ◌++◌, length, ◌==◌, if◌then◌else◌, arith,
}
use thermo_check.Common.Words.{sign_extend}
use thermo_check.Common.Exec.{ok, failed}
use thermo_check.Message.{Message, first_message, integer_too_large}
use thermo_check.Input.{IStream, return_error}
use thermo_check.Input.Buffer.{reading}
use thermo_check.Output.Emits.{Emits}
use thermo_check.Encode.{
  load_signed, load_unsigned, safe_read_bool, pb_encode_varint, zigzag, pb_encode_svarint,
  pb_enc_bool, pb_enc_varint, pb_enc_uvarint, pb_enc_svarint,
}
use thermo_check.Encode.Varint.{varint, pb_encode_varint-Emits}
use thermo_check.Decode.{
  clamp_signed, clamp_unsigned, check_clamped, pb_dec_bool, pb_dec_varint, pb_dec_uvarint,
  pb_dec_svarint,
}
use thermo_check.RoundTrip.{Reads, Setting, HasRoom, Transfers, transfers}
use thermo_check.RoundTrip.Numbers.{
  varint-Reads, varint32-Reads, svarint-Reads, length-varint, zigzag-lt,
}

-- The sizes of the integer types.
abbrev pub IsSize : ℕ → Type 0
IsSize n = (n ≡ 1) ⊎ (n ≡ 2) ⊎ (n ≡ 4) ⊎ (n ≡ 8)

-- What a signed field of `n` bytes that holds the word `src` stands for.
abbrev pub signed : ℕ → ℕ → ℕ
signed n src = sign_extend (8 * n) src

signed_facts :
    (n src : ℕ)
    → IsSize n
    → (load_signed n src ≡ some (signed n src))
      × (signed n src < 2 ^ 64)
      × (clamp_signed n (signed n src) ≡ some (signed n src))
      × ((if n == 8 then signed n src else sign_extend 32 (signed n src)) ≡ signed n src)
unfolding load_signed clamp_signed sign_extend
signed_facts n src (inl e) = rw e (refl, ground arith, ground arith, ground arith)
signed_facts n src (inr (inl e)) = rw e (refl, ground arith, ground arith, ground arith)
signed_facts n src (inr (inr (inl e))) = rw e (refl, ground arith, ground arith, ground arith)
signed_facts n src (inr (inr (inr e))) = rw e (refl, ground arith, ground arith, ground arith)

-- The comparison accepts a value that the cast keeps.
checked : (value : ℕ) (s : IStream) → check_clamped value (some value) s ≡ (ok value, s)
unfolding check_clamped
checked value s = rw same
  where
    same : (value == value) ≡ true
    same = ground arith

dec_varint-Reads :
    (n src : ℕ) → IsSize n → Reads (varint (signed n src)) (pb_dec_varint n) (signed n src)
unfolding pb_dec_varint
dec_varint-Reads n src h rest left own =
    let (loads, word, clamps, casts) = signed_facts n src h in
    rw (varint-Reads (signed n src) word rest left own, casts, clamps)
      (checked (signed n src) (reading rest left own))

-- For a signed field of one, two, four or eight bytes, `pb_enc_varint` on a stream over memory with
-- room for ten bytes succeeds and appends bytes, from which `pb_dec_varint` for that size reads the
-- field's number back, as a 64-bit word, stopping behind them.
pub pb_dec_varint-pb_enc_varint :
    (n src : ℕ) (s : Setting)
    → IsSize n
    → HasRoom 10 s
    → Transfers s (pb_enc_varint n src) (pb_dec_varint n) (signed n src)
unfolding pb_enc_varint
pb_dec_varint-pb_enc_varint n src s h r =
    let (loads, word, clamps, casts) = signed_facts n src h in
    rw loads (
      transfers s 10 (varint (signed n src)) (pb_encode_varint (signed n src)) (pb_dec_varint n)
        (signed n src) (pb_encode_varint-Emits (signed n src) word) (dec_varint-Reads n src h)
        (length-varint (signed n src)) r)

dec_svarint-Reads :
    (n src : ℕ)
    → IsSize n
    → Reads (varint (zigzag (signed n src))) (pb_dec_svarint n) (signed n src)
unfolding pb_dec_svarint
dec_svarint-Reads n src h rest left own =
    let (loads, word, clamps, casts) = signed_facts n src h in
    rw (svarint-Reads (signed n src) word rest left own, clamps)
      (checked (signed n src) (reading rest left own))

-- For a signed field of one, two, four or eight bytes, `pb_enc_svarint` on a stream over memory
-- with room for ten bytes succeeds and appends bytes, from which `pb_dec_svarint` for that size
-- reads the field's number back, as a 64-bit word, stopping behind them.
pub pb_dec_svarint-pb_enc_svarint :
    (n src : ℕ) (s : Setting)
    → IsSize n
    → HasRoom 10 s
    → Transfers s (pb_enc_svarint n src) (pb_dec_svarint n) (signed n src)
unfolding pb_enc_svarint pb_encode_svarint
pb_dec_svarint-pb_enc_svarint n src s h r =
    let (loads, word, clamps, casts) = signed_facts n src h in
    let zigzagged : ℕ = zigzag (signed n src) in
    rw loads (
      transfers s 10 (varint zigzagged) (pb_encode_varint zigzagged) (pb_dec_svarint n)
        (signed n src) (pb_encode_varint-Emits zigzagged (zigzag-lt (signed n src) word))
        (dec_svarint-Reads n src h) (length-varint zigzagged) r)

unsigned_facts :
    (n src : ℕ)
    → IsSize n
    → (load_unsigned n src ≡ some (src % 2 ^ (8 * n)))
      × (src % 2 ^ (8 * n) < 2 ^ 64)
      × (clamp_unsigned n (src % 2 ^ (8 * n)) ≡ some (src % 2 ^ (8 * n)))
unfolding load_unsigned clamp_unsigned
unsigned_facts n src (inl e) = rw e (refl, omega arith, ap some (omega arith))
unsigned_facts n src (inr (inl e)) = rw e (refl, omega arith, ap some (omega arith))
unsigned_facts n src (inr (inr (inl e))) = rw e (refl, omega arith, ap some (omega arith))
unsigned_facts n src (inr (inr (inr e))) = rw e (refl, omega arith, refl)

dec_uvarint-Reads :
    (n src : ℕ)
    → IsSize n
    → Reads (varint (src % 2 ^ (8 * n))) (pb_dec_uvarint n) (src % 2 ^ (8 * n))
unfolding pb_dec_uvarint
dec_uvarint-Reads n src h rest left own =
    let (loads, word, clamps) = unsigned_facts n src h in
    rw (varint-Reads (src % 2 ^ (8 * n)) word rest left own, clamps)
      (checked (src % 2 ^ (8 * n)) (reading rest left own))

-- For an unsigned field of one, two, four or eight bytes, `pb_enc_uvarint` on a stream over memory
-- with room for ten bytes succeeds and appends bytes, from which `pb_dec_uvarint` for that size
-- reads the field's number back, stopping behind them.
pub pb_dec_uvarint-pb_enc_uvarint :
    (n src : ℕ) (s : Setting)
    → IsSize n
    → HasRoom 10 s
    → Transfers s (pb_enc_uvarint n src) (pb_dec_uvarint n) (src % 2 ^ (8 * n))
unfolding pb_enc_uvarint
pb_dec_uvarint-pb_enc_uvarint n src s h r =
    let (loads, word, clamps) = unsigned_facts n src h in
    let value : ℕ = src % 2 ^ (8 * n) in
    rw loads (
      transfers s 10 (varint value) (pb_encode_varint value) (pb_dec_uvarint n) value
        (pb_encode_varint-Emits value word) (dec_uvarint-Reads n src h) (length-varint value) r)

clamped_large :
    (n v : ℕ)
    → IsSize n
    → v < 2 ^ 64
    → 2 ^ (8 * n) ≤ v
    → (clamp_unsigned n v ≡ some (v % 2 ^ (8 * n))) × (v % 2 ^ (8 * n) == v ≡ false)
unfolding clamp_unsigned
clamped_large n v (inl e) h k = rw e (refl, large v (rw e at k))
  where
    large : (v : ℕ) → 2 ^ 8 ≤ v → (v % 2 ^ 8 == v) ≡ false
    large v k = ground arith
clamped_large n v (inr (inl e)) h k = rw e (refl, large v (rw e at k))
  where
    large : (v : ℕ) → 2 ^ 16 ≤ v → (v % 2 ^ 16 == v) ≡ false
    large v k = ground arith
clamped_large n v (inr (inr (inl e))) h k = rw e (refl, large v (rw e at k))
  where
    large : (v : ℕ) → 2 ^ 32 ≤ v → (v % 2 ^ 32 == v) ≡ false
    large v k = ground arith
clamped_large n v (inr (inr (inr e))) h k = absurd (omega (arith, ap (λ (t : ℕ). 2 ^ (8 * t)) e))

-- On a buffer at the varint of a 64-bit word too large for an unsigned field of one, two, four or
-- eight bytes, `pb_dec_uvarint` for that size returns false, with the message "integer too large"
-- unless the stream has one, and leaves the stream behind the varint.
pub pb_dec_uvarint_large :
    (n v : ℕ) (rest : List ℕ) (left : ℕ) (own : Option Message)
    → IsSize n
    → v < 2 ^ 64
    → 2 ^ (8 * n) ≤ v
    → pb_dec_uvarint n (reading (varint v ++ rest) (length (varint v) + left) own)
      ≡ (failed, reading rest left (first_message own integer_too_large))
unfolding pb_dec_uvarint check_clamped return_error
pb_dec_uvarint_large n v rest left own h w k =
    let (clamps, differs) = clamped_large n v h w k in
    rw (varint-Reads v w rest left own, clamps, differs)

dec_bool-Reads : (b : Bool) → Reads (varint (if b then 1 else 0)) pb_dec_bool b
unfolding pb_dec_bool
dec_bool-Reads true rest left own = rw (varint32-Reads 1 (omega arith) rest left own)
dec_bool-Reads false rest left own = rw (varint32-Reads 0 (omega arith) rest left own)

enc_bool-Emits :
    (b : Bool) → Emits (varint (if b then 1 else 0)) (pb_encode_varint (if b then 1 else 0))
enc_bool-Emits true = pb_encode_varint-Emits 1 (omega arith)
enc_bool-Emits false = pb_encode_varint-Emits 0 (omega arith)

-- For the bytes of a `bool`, whatever they are, `pb_enc_bool` on a stream over memory with room for
-- ten bytes succeeds and appends bytes, from which `pb_dec_bool` reads what `safe_read_bool` finds
-- in them, stopping behind them.
pub pb_dec_bool-pb_enc_bool :
    (src : List ℕ) (s : Setting)
    → HasRoom 10 s
    → Transfers s (pb_enc_bool src) pb_dec_bool (safe_read_bool src)
unfolding pb_enc_bool
pb_dec_bool-pb_enc_bool src s r =
    let b : Bool = safe_read_bool src in
    transfers s 10 (varint (if b then 1 else 0)) (pb_encode_varint (if b then 1 else 0)) pb_dec_bool
      b (enc_bool-Emits b) (dec_bool-Reads b) (length-varint (if b then 1 else 0)) r
