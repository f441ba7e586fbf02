-- ===== src/Messages/TidyValues.antt =====
-- The decoders of values leave the stream in order.
use thermo_check.Common.{
  ℕ, ◌+◌, ◌-◌, ◌≤◌, ◌<◌, ◌≡◌, true, false, length, leb, ◌==◌, inl, inr, Bool-cases, arith,
}
use thermo_check.Common.Exec.{◌>>=◌}
use thermo_check.Message.{invalid_field_descriptor}
use thermo_check.Memory.{Memory}
use thermo_check.Fields.{Field, ltype, htype, atype, repeated, pointer, last_packable}
use thermo_check.Input.{Decoder}
use thermo_check.Input.Sound.{IsSound, Any, IsSound-weaken}
use thermo_check.Varint.Progress.{IsEager}
use thermo_check.Decode.{
  pb_dec_bool, pb_dec_varint, pb_dec_uvarint, pb_dec_svarint, pb_dec_fixed32, pb_dec_fixed64,
}
use thermo_check.Decode.Progress.{
  pb_dec_bool-IsEager, pb_dec_varint-IsEager, pb_dec_uvarint-IsEager, pb_dec_svarint-IsEager,
  pb_dec_fixed32-IsEager, pb_dec_fixed64-IsEager,
}
use thermo_check.Data.{in_place, allocated, pb_dec_bytes, pb_dec_string, pb_dec_fixed_length_bytes}
use thermo_check.Data
use thermo_check.Data.Room.{allocate_field-IsSound}
use thermo_check.Data.Sound.{pb_dec_bytes-Ends, pb_dec_string-Ends, pb_dec_fixed_length_bytes-Ends}
use thermo_check.Messages.{Env, on_stream, read, write}
use thermo_check.Messages.Values.{
  moved, finds, allocate_at, dec_bytes, dec_string, Nested, pb_dec_submessage, decode_value,
}
use thermo_check.Messages.Tidy.{
  IsTidy, IsGreedy, IsTidy-pure, IsTidy-on_stream, IsGreedy-on_stream, IsTidy-if, IsTidy-read,
  IsTidy-write, IsTidy-bind, IsGreedy-bind, IsGreedy-IsTidy, IsGreedy-if, return_error-Ends,
}
use thermo_check.Messages.Nesting.{IsUsable, IsFine}
use thermo_check.Messages.Substreams.{close_substream-Ends, IsTidy-with_substream}

-- The result of a decoder is stored.
module _ (n : ℕ) where
  pub stored :
      {A : Type 0} (Q : A → Type 0) (d : Decoder A) (g : A → Memory → Memory)
      → IsSound Q d
      → IsTidy n Any (on_stream d >>= λ v. write (g v))
  stored Q d g h =
      IsTidy-bind n Q Any (on_stream d) _ (IsTidy-on_stream n Q d h) (λ v q. IsTidy-write n (g v))

  stored_value :
      {A : Type 0} (d : Decoder A) (g : A → Memory → Memory)
      → IsEager Any d
      → IsGreedy n Any (on_stream d >>= λ v. write (g v))
  stored_value d g h =
      IsGreedy-bind n Any Any (on_stream d) _ (IsGreedy-on_stream n Any d h)
        (λ v q. IsTidy-write n (g v))

  pub allocate_at-IsTidy :
      (env : Env) (address data_size array_size : ℕ)
      → IsTidy n Any (allocate_at env address data_size array_size)
  unfolding allocate_at
  allocate_at-IsTidy env address data_size array_size =
      IsTidy-bind n Any Any (read (finds env address)) _ (IsTidy-read n _) (λ found _.
        stored _ (Data.allocate_field found data_size array_size) _
          (allocate_field-IsSound found data_size array_size))

  pub dec_bytes-IsTidy : (env : Env) (f : Field) (dest : ℕ) → IsTidy n Any (dec_bytes env f dest)
  unfolding dec_bytes
  dec_bytes-IsTidy env f dest =
      IsTidy-if n Any (atype f.type == pointer) _ _
        (λ _. IsTidy-bind n Any Any (read (finds env dest)) _ (IsTidy-read n _) (λ found _.
          IsTidy-bind n _ Any (on_stream (pb_dec_bytes (allocated found))) _
            (IsTidy-on_stream n _ _ (sound (allocated found)))
            (λ bytes _.
              IsTidy-bind n Any Any (write (moved env dest (length bytes + 4))) _ (IsTidy-write n _)
                (λ _ _. IsTidy-write n _))))
        (λ _. stored _ (pb_dec_bytes (in_place f.data_size)) _ (sound (in_place f.data_size)))
    where
      sound : (storage : Data.Storage) → IsSound Any (pb_dec_bytes storage)
      sound storage =
          IsSound-weaken _ Any (pb_dec_bytes storage) (λ a q. tt)
            (record { run = pb_dec_bytes-Ends storage })

  pub dec_string-IsTidy : (env : Env) (f : Field) (dest : ℕ) → IsTidy n Any (dec_string env f dest)
  unfolding dec_string
  dec_string-IsTidy env f dest =
      IsTidy-if n Any (atype f.type == pointer) _ _
        (λ _. IsTidy-bind n Any Any (read (finds env dest)) _ (IsTidy-read n _) (λ found _.
          IsTidy-bind n _ Any (on_stream (pb_dec_string (allocated found))) _
            (IsTidy-on_stream n _ _ (sound (allocated found)))
            (λ bytes _.
              IsTidy-bind n Any Any (write (moved env dest (length bytes))) _ (IsTidy-write n _)
                (λ _ _. IsTidy-write n _))))
        (λ _. stored _ (pb_dec_string (in_place f.data_size)) _ (sound (in_place f.data_size)))
    where
      sound : (storage : Data.Storage) → IsSound Any (pb_dec_string storage)
      sound storage =
          IsSound-weaken _ Any (pb_dec_string storage) (λ a q. tt)
            (record { run = pb_dec_string-Ends storage })

-- What the decoders of submessages promise on fewer than `n` bytes.
abbrev pub IsTidyNested : Env → ℕ → Nested → Type 0
IsTidyNested env n nested =
    (k : ℕ)
    → k < n
    → (ptr dest : ℕ) → IsFine env (env.table ptr)
    → IsTidy k Any (nested.decode ptr dest) × IsTidy k Any (nested.decode_noinit ptr dest)

module _ (env : Env) (n : ℕ) (nested : Nested) (h : IsTidyNested env n nested) (f : Field) where
  pub pb_dec_submessage-IsTidy :
      (dest : ℕ) → IsFine env (env.table f.ptr) → IsTidy n Any (pb_dec_submessage nested f dest)
  unfolding pb_dec_submessage
  pb_dec_submessage-IsTidy dest fine =
      IsTidy-with_substream n Any _ _
        (λ l.
          IsTidy-if (n - 1) Any (f.ptr == 0) _ _ (λ _. IsTidy-pure (n - 1) Any tt tt)
            (λ _.
              IsTidy-if (n - 1) Any (htype f.type == repeated) _ _
                (λ _. (h (n - 1) (omega arith) f.ptr dest fine).0)
                (λ _. (h (n - 1) (omega arith) f.ptr dest fine).1)))
        (λ slack t sub r v e. elim (Bool-cases (f.ptr == 0)) [
          | inl z ↦ rw z (return_error-Ends slack Any invalid_field_descriptor t _ v)
          | inr z ↦ rw z (close_substream-Ends slack Any t sub r v e)
        ])

  -- A value of a packable type takes a byte at least.
  pub decode_value-IsGreedy :
      (dest : ℕ)
      → leb (ltype f.type) last_packable ≡ true
      → IsGreedy n Any (decode_value env nested f dest)
  unfolding decode_value
  decode_value-IsGreedy dest k =
      IsGreedy-if n Any (ltype f.type == 0) _ _
        (λ _. stored_value n pb_dec_bool _ pb_dec_bool-IsEager)
        (λ e0.
          IsGreedy-if n Any (ltype f.type == 1) _ _
            (λ _. stored_value n (pb_dec_varint _) _ (pb_dec_varint-IsEager _))
            (λ e1.
              IsGreedy-if n Any (ltype f.type == 2) _ _
                (λ _. stored_value n (pb_dec_uvarint _) _ (pb_dec_uvarint-IsEager _))
                (λ e2.
                  IsGreedy-if n Any (ltype f.type == 3) _ _
                    (λ _. stored_value n (pb_dec_svarint _) _ (pb_dec_svarint-IsEager _))
                    (λ e3.
                      IsGreedy-if n Any (ltype f.type == 4) _ _
                        (λ _. stored_value n pb_dec_fixed32 _ pb_dec_fixed32-IsEager)
                        (λ e4.
                          IsGreedy-if n Any (ltype f.type == 5) _ _
                            (λ _. stored_value n pb_dec_fixed64 _ pb_dec_fixed64-IsEager)
                            (λ e5. absurd (none_left e0 e1 e2 e3 e4 e5)))))))
    where
      none_left :
          (ltype f.type == 0) ≡ false
          → (ltype f.type == 1) ≡ false
          → (ltype f.type == 2) ≡ false
          → (ltype f.type == 3) ≡ false
          → (ltype f.type == 4) ≡ false
          → (ltype f.type == 5) ≡ false
          → ⊥
      none_left e0 e1 e2 e3 e4 e5 = grind arith

  pub decode_value-IsTidy :
      (dest : ℕ) → IsUsable env (IsFine env) f → IsTidy n Any (decode_value env nested f dest)
  unfolding decode_value
  decode_value-IsTidy dest (kind, size, sub) =
      elim (Bool-cases (leb (ltype f.type) last_packable)) [
        | inl e ↦ IsGreedy-IsTidy n Any _ (decode_value-IsGreedy dest e)
        | inr e ↦ long e
      ]
    where
      long :
          leb (ltype f.type) last_packable ≡ false → IsTidy n Any (decode_value env nested f dest)
      long e =
          rw
            (
              ne 0 (omega arith),
              ne 1 (omega arith),
              ne 2 (omega arith),
              ne 3 (omega arith),
              ne 4 (omega arith),
              ne 5 (omega arith),
            )
            (IsTidy-if n Any (ltype f.type == 6) _ _ (λ _. dec_bytes-IsTidy n env f dest)
              (λ e6.
                IsTidy-if n Any (ltype f.type == 7) _ _ (λ _. dec_string-IsTidy n env f dest)
                  (λ e7.
                    IsTidy-if n Any (ltype f.type == 8) _ _
                      (λ e8. pb_dec_submessage-IsTidy dest (sub e8))
                      (λ e8.
                        IsTidy-if n Any (ltype f.type == 10) _ _
                          (λ _.
                            stored n _ (pb_dec_fixed_length_bytes f.data_size) _
                              (record { run = pb_dec_fixed_length_bytes-Ends f.data_size }))
                          (λ e10. absurd (none_left e6 e7 e8 e10))))))
        where
          ne : (i : ℕ) → i ≤ 5 → (ltype f.type == i) ≡ false
          ne i l = ground arith

          none_left :
              (ltype f.type == 6) ≡ false
              → (ltype f.type == 7) ≡ false
              → (ltype f.type == 8) ≡ false
              → (ltype f.type == 10) ≡ false
              → ⊥
          none_left e6 e7 e8 e10 = grind arith
