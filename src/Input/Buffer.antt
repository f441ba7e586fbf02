-- ===== src/Input/Buffer.antt =====
-- What the reading functions do on a stream over a buffer in memory.
use thermo_check.Common.{
  ℕ, zero, suc, ◌+◌, ◌<◌, ◌≡◌, refl, Bool, true, false, Option, List, [], ◌∷◌, ◌++◌, length,
  length-append, take-append, drop-append, if◌then◌else◌, arith, suc_not_zero,
}
use thermo_check.Message.{Message, first_message, end_of_stream}
use thermo_check.Common.Exec.{Outcome, ok, failed}
use thermo_check.Input.{buffer, IStream, read_bytes, pb_read, pb_read_null, pb_readbyte}

-- A stream with `left` bytes to go, whose state points at `mem`.
abbrev pub reading : List ℕ → ℕ → Option Message → IStream
reading mem left errmsg = record { source = buffer mem; bytes_left = left; errmsg = errmsg }

-- Success with `a`, and the stream at `mem`.
abbrev pub gives : {A : Type 0} → List ℕ → ℕ → Option Message → A → Outcome A × IStream
gives mem left errmsg a = (ok a, reading mem left errmsg)

module _ (errmsg : Option Message) where
  pub pb_readbyte-buffer :
      (b : ℕ) (mem : List ℕ) (left : ℕ)
      → pb_readbyte (reading (b ∷ mem) (suc left) errmsg) ≡ (ok b, reading mem left errmsg)
  unfolding pb_readbyte
  pb_readbyte-buffer b mem left = ground arith

  pub pb_readbyte-end :
      (mem : List ℕ)
      → pb_readbyte (reading mem 0 errmsg)
        ≡ (failed, reading mem 0 (first_message errmsg end_of_stream))
  unfolding pb_readbyte
  pb_readbyte-end mem = refl

  read_bytes-buffer :
      (wanted : Bool) (count : ℕ) (bytes mem : List ℕ) (left : ℕ)
      → length bytes ≡ count
      → read_bytes wanted count (reading (bytes ++ mem) (count + left) errmsg)
        ≡ (ok (if wanted then bytes else []), reading mem left errmsg)
  unfolding read_bytes
  read_bytes-buffer wanted count bytes mem left h =
      ground (
        arith,
        take-append count bytes mem h,
        drop-append count bytes mem h,
        length-append bytes mem,
      )

  -- A read of `count` bytes returns the first `count` bytes of the buffer and moves behind them.
  pub pb_read-buffer :
      (count : ℕ) (bytes mem : List ℕ) (left : ℕ)
      → length bytes ≡ count
      → pb_read count (reading (bytes ++ mem) (count + left) errmsg)
        ≡ (ok bytes, reading mem left errmsg)
  unfolding pb_read
  pb_read-buffer zero [] mem left h = ground arith
  pb_read-buffer zero (b ∷ bytes) mem left h = absurd (omega arith)
  pb_read-buffer (suc n) bytes mem left h =
      rw (suc_not_zero n) (read_bytes-buffer true (suc n) bytes mem left h)

  -- With a null pointer it moves behind them too.
  pub pb_read_null-buffer :
      (count : ℕ) (bytes mem : List ℕ) (left : ℕ)
      → length bytes ≡ count
      → pb_read_null count (reading (bytes ++ mem) (count + left) errmsg)
        ≡ (ok tt, reading mem left errmsg)
  unfolding pb_read_null
  pb_read_null-buffer zero [] mem left h = ground arith
  pb_read_null-buffer zero (b ∷ bytes) mem left h = absurd (omega arith)
  pb_read_null-buffer (suc n) bytes mem left h =
      rw (suc_not_zero n, read_bytes-buffer false (suc n) bytes mem left h)

  -- Both return false on a stream that has fewer bytes left, and leave it where it is.
  pub pb_read-short :
      (count : ℕ) (mem : List ℕ) (left : ℕ)
      → left < count
      → pb_read count (reading mem left errmsg)
        ≡ (failed, reading mem left (first_message errmsg end_of_stream))
  unfolding pb_read
  pb_read-short count mem left h = ground arith
