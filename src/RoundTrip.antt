-- ===== src/RoundTrip.antt =====
-- ThermoCheck/Pods/nanopb: what pb_encode.c writes, pb_decode.c reads back.
pub mod Numbers
pub mod Fields
pub mod Framing
pub mod Strings
pub mod Tags
use thermo_check.Common.{ℕ, ◌+◌, ◌-◌, ◌^◌, ◌≤◌, ◌<◌, ◌≡◌, Option, List, ◌++◌, length, arith}
use thermo_check.Message.{Message}
use thermo_check.Common.Exec.{Outcome, ok}
use thermo_check.Input.{IStream, Decoder}
use thermo_check.Input.Buffer.{reading, gives}
use thermo_check.Output.{OStream, Encoder}
use thermo_check.Output.Emits.{Emits, writing}

-- `dec` reads `a` from exactly `bytes`, whatever follows.
abbrev pub Reads : {A : Type 0} → List ℕ → Decoder A → A → Type 0
Reads bytes dec a =
    (rest : List ℕ) (left : ℕ) (own : Option Message)
    → dec (reading (bytes ++ rest) (length bytes + left) own) ≡ gives rest left own a

-- Where an encoder writes, and what stands behind the bytes where they are read.
pub record Setting : Type 0 where
  pub out : List ℕ
  pub room : ℕ
  pub max_size : ℕ
  pub written : ℕ
  pub errmsg : Option Message
  pub rest : List ℕ
  pub left : ℕ
  pub own : Option Message

-- There is room for `n` bytes, in the memory and by `max_size`.
pub record HasRoom (n : ℕ) (s : Setting) : Type 0 where
  pub by_size : s.written + n ≤ s.max_size
  pub word : s.max_size < 2 ^ 64
  pub by_memory : n ≤ s.room

abbrev pub target : Setting → OStream
target s = writing s.out s.room s.max_size s.written s.errmsg

-- `enc` succeeds and appends some bytes to the memory, and `dec` reads `a` from these bytes and stops
-- behind them.
abbrev pub Transfers : {A : Type 0} → Setting → Encoder → Decoder A → A → Type 0
Transfers s enc dec a =
    (bytes : List ℕ) × (enc (target s) ≡ (
      ok tt,
      writing (s.out ++ bytes) (s.room - length bytes) s.max_size (s.written + length bytes)
          s.errmsg,
    ))
    × (dec (reading (bytes ++ s.rest) (length bytes + s.left) s.own) ≡ gives s.rest s.left s.own a)

pub transfers :
    {A : Type 0} (s : Setting) (n : ℕ) (bytes : List ℕ) (enc : Encoder) (dec : Decoder A) (a : A)
    → Emits bytes enc
    → Reads bytes dec a
    → length bytes ≤ n
    → HasRoom n s
    → Transfers s enc dec a
transfers s n bytes enc dec a e r k h = (
  bytes,
  e.to_memory s.out s.room s.max_size s.written s.errmsg (omega arith) h.word (omega arith),
  r s.rest s.left s.own,
)
