-- ===== src/Output/Emits.antt =====
-- The bytes that an encoder writes: in memory with room for them it appends them, and a sizing
-- stream counts them.
use mathlib.Core.List.{append-nil, append_assoc}
use thermo_check.Common.{
  ℕ, ◌+◌, ◌-◌, ◌^◌, ◌≤◌, ◌<◌, ◌≡◌, refl, ap, Option, List, [], ◌∷◌, ◌++◌, length, length-append,
  take, arith,
}
use thermo_check.Message.{Message}
use thermo_check.Common.Exec.{ok, ◌>>◌}
use thermo_check.Output.{sizing, memory, OStream, Encoder, pb_write}

abbrev pub writing : List ℕ → ℕ → ℕ → ℕ → Option Message → OStream
writing out room max_size n errmsg = record {
  sink = memory out room;
  max_size = max_size;
  bytes_written = n;
  errmsg = errmsg;
}

abbrev pub measuring : ℕ → ℕ → Option Message → OStream
measuring max_size n errmsg = record {
  sink = sizing;
  max_size = max_size;
  bytes_written = n;
  errmsg = errmsg;
}

pub record Emits (bytes : List ℕ) (m : Encoder) : Type 0 where
  pub to_memory :
      (out : List ℕ) (room max_size n : ℕ) (errmsg : Option Message)
      → n + length bytes ≤ max_size
      → max_size < 2 ^ 64
      → length bytes ≤ room
      → m (writing out room max_size n errmsg)
        ≡ (ok tt, writing (out ++ bytes) (room - length bytes) max_size (n + length bytes) errmsg)
  pub to_sizing :
      (max_size n : ℕ) (errmsg : Option Message)
      → n + length bytes < 2 ^ 64
      → m (measuring max_size n errmsg) ≡ (ok tt, measuring max_size (n + length bytes) errmsg)

pub take_all : (buf : List ℕ) → take (length buf) buf ≡ buf
take_all [] = refl
take_all (b ∷ buf) = ap (λ t. b ∷ t) (take_all buf)

pub pb_write-Emits : (buf : List ℕ) → Emits buf (pb_write buf (length buf))
unfolding pb_write
pb_write-Emits [] = record {
  to_memory = λ out room max_size n errmsg h w r. rw append-nil (ground arith);
  to_sizing = λ max_size n errmsg h. ground arith;
}
pb_write-Emits (b ∷ buf) = record {
  to_memory = λ out room max_size n errmsg h w r. ground (arith, take_all buf);
  to_sizing = λ max_size n errmsg h. ground arith;
}

-- One encoder after another writes the bytes of both.
pub Emits-bind :
    (bytes more : List ℕ) (m k : Encoder)
    → Emits bytes m
    → Emits more k
    → Emits (bytes ++ more) (m >> k)
Emits-bind bytes more m k hm hk = record {
  to_memory = λ out room max_size n errmsg h w r. rw (
    hm.to_memory out room max_size n errmsg (omega (arith, both)) w (omega (arith, both)),
    hk.to_memory (out ++ bytes) (room - length bytes) max_size (n + length bytes) errmsg
        (omega (arith, both)) w (omega (arith, both)),
    append_assoc out bytes more,
    both,
    sub_twice room,
    add_twice n,
  );
  to_sizing = λ max_size n errmsg h. rw (
    hm.to_sizing max_size n errmsg (omega (arith, both)),
    hk.to_sizing max_size (n + length bytes) errmsg (omega (arith, both)),
    both,
    add_twice n,
  );
}
  where
    both : length (bytes ++ more) ≡ length bytes + length more
    both = length-append bytes more

    sub_twice : (k : ℕ) → k - length bytes - length more ≡ k - (length bytes + length more)
    sub_twice k = omega arith

    add_twice : (k : ℕ) → k + length bytes + length more ≡ k + (length bytes + length more)
    add_twice k = omega arith
