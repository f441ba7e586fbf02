-- ===== src/Writing/Steady.antt =====
-- Messages of plain fields: `pb_encode` writes the same bytes on every stream, and their number is what
-- `pb_get_encoded_size` counts.
use mathlib.Core.List.{append-nil}
use native.Mathlib.Nat.{zero-add}
use thermo_check.Common.{
  ℕ, zero, suc, ◌+◌, ◌*◌, ◌%◌, ◌^◌, ◌≤◌, ◌<◌, ◌≡◌, ◌⊎◌, refl, ap, Bool, true, false, none, some,
  List, [], ◌∷◌, ◌++◌, length, length-append, leb, ◌==◌, if◌then◌else◌, inl, inr, All, Bool-cases,
  arith,
}
use thermo_check.Common.Exec.{ok, pure, ◌>>◌}
use thermo_check.Common.Words.{sign_extend}
use thermo_check.Memory.{load, load_bytes}
use thermo_check.Fields.{
  Field, Iter, ltype, htype, atype, optional, oneof, static, extension_type, size_address, current,
}
use thermo_check.Fields.Tables.{IsMore, entries, IsIn, begin-IsIn, step-cases}
use thermo_check.Output.{Encoder}
use thermo_check.Output.Emits.{Emits, Emits-bind}
use thermo_check.Encode.{
  zigzag, pb_encode_varint, pb_encode_svarint, wiretype_of, pb_encode_tag_for_field, safe_read_bool,
  pb_enc_bool, load_signed, load_unsigned, pb_enc_varint, pb_enc_uvarint, pb_enc_svarint,
  pb_enc_fixed32, pb_enc_fixed64,
}
use thermo_check.Encode.Varint.{varint, pb_encode_varint-Emits}
use thermo_check.RoundTrip.Framing.{tag-Emits}
use thermo_check.RoundTrip.Numbers.{length-varint, zigzag-lt, fixed32-Emits, fixed64-Emits}
use thermo_check.Messages.Nesting.{current-All}
use thermo_check.Writing.{Context}
use thermo_check.Writing.Values.{encode_value}
use thermo_check.Writing.Fields.{is_present, encode_by_htype, encode_basic_field, encode_field}
use thermo_check.Writing.Encode.{
  encode_current, go_on, encode_each, encode_begun, encode_message, pb_encode, pb_get_encoded_size,
}

-- It writes the same bytes on every stream, at most `n`.
abbrev pub HasBytes : ℕ → Encoder → Type 0
HasBytes n m = (bytes : List ℕ) × Emits bytes m × (length bytes ≤ n)

-- A number in the structure with a has-flag or in a union, of a size that there is.
pub record IsPlain (f : Field) : Type 0 where
  pub tag_fits : f.tag < 2 ^ 29
  pub number : ltype f.type ≤ 5
  pub in_place : atype f.type ≡ static
  pub kind : (htype f.type ≡ optional) ⊎ (htype f.type ≡ oneof)
  pub flag : 0 < f.size_offset
  pub size : (f.data_size ≡ 1) ⊎ (f.data_size ≡ 2) ⊎ (f.data_size ≡ 4) ⊎ (f.data_size ≡ 8)

HasBytes-pure : (n : ℕ) → HasBytes n (pure tt)
HasBytes-pure n = (
  [],
  record {
    to_memory = λ out room max_size n errmsg h w r. rw append-nil (ground arith);
    to_sizing = λ max_size n errmsg h. ground arith;
  },
  omega arith,
)

HasBytes-bind : (i j : ℕ) (m k : Encoder) → HasBytes i m → HasBytes j k → HasBytes (i + j) (m >> k)
HasBytes-bind i j m k (a, h, x) (b, g, y) =
    (a ++ b, Emits-bind a b m k h g, omega (arith, length-append a b))

HasBytes-raise : (i j : ℕ) (m : Encoder) → i ≤ j → HasBytes i m → HasBytes j m
HasBytes-raise i j m l (a, h, x) = (a, h, omega arith)

HasBytes-if :
    (n : ℕ) (b : Bool) (m k : Encoder)
    → HasBytes n m
    → (b ≡ false → HasBytes n k)
    → HasBytes n (if b then m else k)
HasBytes-if n true m k h g = h
HasBytes-if n false m k h g = g refl

varint-HasBytes : (v : ℕ) → v < 2 ^ 64 → HasBytes 10 (pb_encode_varint v)
varint-HasBytes v h = (varint v, pb_encode_varint-Emits v h, length-varint v)

tag-HasBytes : (f : Field) → IsPlain f → HasBytes 10 (pb_encode_tag_for_field f.type f.tag)
unfolding pb_encode_tag_for_field wiretype_of
tag-HasBytes f p =
    let (w, e, l) = wire (ltype f.type) p.number in
    rw e (_, tag-Emits w f.tag l p.tag_fits, length-varint (f.tag * 8 + w))
  where
    wire : (t : ℕ) → t ≤ 5 → (w : ℕ) × (wiretype_of t ≡ some w) × (w < 8)
    wire t l = elim (Bool-cases (leb t 3)) [
      | inl e ↦ (0, rw e refl, omega arith)
      | inr e ↦ elim (Bool-cases (t == 4)) [
        | inl g ↦ (5, rw (e, g) refl, omega arith)
        | inr g ↦ (1, rw (e, g, five t l e g) refl, omega arith)
      ]
    ]
      where
        five : (t : ℕ) → t ≤ 5 → leb t 3 ≡ false → (t == 4) ≡ false → (t == 5) ≡ true
        five t l e g = ground arith

load_signed-some :
    (n src : ℕ)
    → ((n ≡ 1) ⊎ (n ≡ 2) ⊎ (n ≡ 4) ⊎ (n ≡ 8))
    → (v : ℕ) × (load_signed n src ≡ some v) × (v < 2 ^ 64)
unfolding load_signed sign_extend
load_signed-some n src (inl e) = (sign_extend 8 src, rw e refl, ground arith)
load_signed-some n src (inr (inl e)) = (sign_extend 16 src, rw e refl, ground arith)
load_signed-some n src (inr (inr (inl e))) = (sign_extend 32 src, rw e refl, ground arith)
load_signed-some n src (inr (inr (inr e))) = (sign_extend 64 src, rw e refl, ground arith)

load_unsigned-some :
    (n src : ℕ)
    → ((n ≡ 1) ⊎ (n ≡ 2) ⊎ (n ≡ 4) ⊎ (n ≡ 8))
    → (v : ℕ) × (load_unsigned n src ≡ some v) × (v < 2 ^ 64)
unfolding load_unsigned
load_unsigned-some n src (inl e) = (src % 2 ^ 8, rw e refl, omega arith)
load_unsigned-some n src (inr (inl e)) = (src % 2 ^ 16, rw e refl, omega arith)
load_unsigned-some n src (inr (inr (inl e))) = (src % 2 ^ 32, rw e refl, omega arith)
load_unsigned-some n src (inr (inr (inr e))) = (src % 2 ^ 64, rw e refl, omega arith)

-- The value of a plain field.
value-HasBytes :
    (context : Context) (message : ℕ → ℕ → Encoder) (f : Field) (src : ℕ)
    → IsPlain f
    → HasBytes 10 (encode_value context message f src)
unfolding encode_value pb_enc_bool pb_enc_varint pb_enc_uvarint pb_enc_svarint pb_encode_svarint
    pb_enc_fixed32 pb_enc_fixed64
value-HasBytes context message f src p =
    HasBytes-if 10 (ltype f.type == 0) _ _ (bool (safe_read_bool (load_bytes 1 context.memory src)))
      (λ e0.
        HasBytes-if 10 (ltype f.type == 1) _ _
          (let (v, e, l) =
              load_signed-some f.data_size (load f.data_size context.memory src) p.size in
            rw e (varint-HasBytes v l))
          (λ e1.
            HasBytes-if 10 (ltype f.type == 2) _ _
              (let (v, e, l) =
                  load_unsigned-some f.data_size (load f.data_size context.memory src) p.size in
                rw e (varint-HasBytes v l))
              (λ e2.
                HasBytes-if 10 (ltype f.type == 3) _ _
                  (let (v, e, l) =
                      load_signed-some f.data_size (load f.data_size context.memory src) p.size in
                    rw e (varint-HasBytes (zigzag v) (zigzag-lt v l)))
                  (λ e3.
                    HasBytes-if 10 (ltype f.type == 4) _ _
                      (_, fixed32-Emits (load 4 context.memory src), omega arith)
                      (λ e4.
                        rw (five (ltype f.type) p.number e0 e1 e2 e3 e4)
                          (_, fixed64-Emits (load 8 context.memory src), omega arith))))))
  where
    bool : (b : Bool) → HasBytes 10 (pb_encode_varint (if b then 1 else 0))
    bool true = varint-HasBytes 1 (omega arith)
    bool false = varint-HasBytes 0 (omega arith)

    five :
        (t : ℕ)
        → t ≤ 5
        → (t == 0) ≡ false
        → (t == 1) ≡ false
        → (t == 2) ≡ false
        → (t == 3) ≡ false
        → (t == 4) ≡ false
        → (t == 5) ≡ true
    five t l e0 e1 e2 e3 e4 = grind arith

encode_field-HasBytes :
    (context : Context) (message : ℕ → ℕ → Encoder) (f : Field) (p_data : ℕ)
    → IsPlain f
    → HasBytes 20 (encode_field context message f p_data)
unfolding encode_field encode_basic_field encode_by_htype is_present
encode_field-HasBytes context message f p_data p =
    rw (p.in_place, flagged)
      (elim p.kind [
        | inl k ↦ rw k (
            HasBytes-if 20 (safe_read_bool (load_bytes 1 context.memory (size_address p_data f))) _
              _ tagged (λ _. HasBytes-pure 20))
        | inr k ↦ rw k (
            HasBytes-if 20 (load 4 context.memory (size_address p_data f) == f.tag) _ _ tagged
              (λ _. HasBytes-pure 20))
      ])
  where
    flagged : (f.size_offset == 0) ≡ false
    flagged = ground (arith, p.flag)

    tagged :
        HasBytes 20 (pb_encode_tag_for_field f.type f.tag >> encode_value context message f p_data)
    tagged = HasBytes-bind 10 10 _ _ (tag-HasBytes f p) (value-HasBytes context message f p_data p)

-- The fields from one of a table on.
module _ (encode : Iter → Encoder) (P : Field → Type 0)
    (writes : (iter : Iter) (f : Field)
      → current iter ≡ some f
      → P f
      → HasBytes 20 (encode iter)) where
  encode_each-HasBytes :
      (n : ℕ) (start : List Field) (iter : Iter)
      → IsMore start
      → All P (entries start)
      → IsIn start iter
      → length iter.pos ≤ n
      → HasBytes (20 * n) (encode_each encode n iter)
  unfolding encode_each go_on
  encode_each-HasBytes zero start iter m h v l = absurd (shown iter.pos v.more (omega arith))
    where
      shown : (pos : List Field) → IsMore pos → length pos ≡ 0 → ⊥
      shown [] h e = h
      shown (f ∷ pos) h e = absurd (omega arith)
  encode_each-HasBytes (suc n) start iter m h v l =
      let (f, e, p) = current-All P start iter v h in
      HasBytes-raise (20 + 20 * n) (20 * suc n) _ (omega arith) (
        HasBytes-bind 20 (20 * n) (encode iter) _ (writes iter f e p)
          (elim (step-cases start iter m v) [
            | inl (j, s, w, k) ↦ rw s (encode_each-HasBytes n start j m h w (omega arith))
            | inr (j, s, w, k) ↦ rw s (HasBytes-pure (20 * n))
          ]))

encode_message-HasBytes :
    (context : Context) (n : ℕ) (fields : List Field) (src : ℕ)
    → 0 < n
    → IsMore fields
    → All IsPlain (entries fields)
    → HasBytes (20 * length fields) (encode_message context n fields src)
unfolding encode_message encode_begun
encode_message-HasBytes context zero fields src d m h = absurd (omega arith)
encode_message-HasBytes context (suc n) fields src d m h =
    let (iter, e, v, q) = begin-IsIn fields src m in
    rw e (
      encode_each-HasBytes _ IsPlain (λ i f c p. rw c (regular i f p)) (length fields) fields iter m
        h v (omega (arith, ap length q)))
  where
    regular :
        (iter : Iter) (f : Field)
        → IsPlain f
        → HasBytes 20 (
            encode_current context
              (λ ptr item. encode_message context n (context.table ptr) item)
              iter
              (some f))
    regular iter f p =
        unfold encode_current in rw (other f p) (encode_field-HasBytes context _ f iter.p_data p)
      where
        other : (f : Field) → IsPlain f → (ltype f.type == extension_type) ≡ false
        other f p = ground (arith, p.number)

pub pb_encode-HasBytes :
    (context : Context) (fields : List Field) (src : ℕ)
    → 0 < context.depth
    → IsMore fields
    → All IsPlain (entries fields)
    → HasBytes (20 * length fields) (pb_encode context fields src)
unfolding pb_encode
pb_encode-HasBytes context fields src d m h =
    encode_message-HasBytes context context.depth fields src d m h

-- For a table of at most 2 ^ 32 - 1 fields that are numbers, static, optional with a has-flag or
-- members of a oneof with a `which` member, of data sizes 1, 2, 4 or 8, with tags below 2 ^ 29, in
-- a message type with a field, and for any structure in memory, `pb_encode` succeeds on every
-- stream over memory with room and appends the same bytes to each, at most twenty for each field of
-- the table, and on a sizing stream it counts them: `pb_get_encoded_size` succeeds with their
-- number.
pub pb_get_encoded_size-pb_encode :
    (context : Context) (fields : List Field) (src : ℕ)
    → 0 < context.depth
    → IsMore fields
    → All IsPlain (entries fields)
    → length fields < 2 ^ 32
    → (bytes : List ℕ) × Emits bytes (pb_encode context fields src)
      × (pb_get_encoded_size context fields src ≡ ok (length bytes))
      × (length bytes ≤ 20 * length fields)
unfolding pb_get_encoded_size
pb_get_encoded_size-pb_encode context fields src d m h l =
    let (bytes, e, b) = pb_encode-HasBytes context fields src d m h in
    (bytes, e, rw (e.to_sizing 0 0 none (omega arith), zero-add (length bytes)) refl, b)
