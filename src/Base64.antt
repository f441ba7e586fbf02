-- ===== src/Base64.antt =====
-- fbase64.c: base64 as the web socket of FirebaseDatabase writes and reads it.
--
-- A buffer is the list of its bytes, and a function that stores to it runs in `Exec (List ℕ)`: `ok`
-- with the number that C returns, as the 32-bit word of an `int`, `failed` for a return of -1, and
-- `fault` where memory behind a buffer is read or stored to. `isspace` of ctype.h is a parameter.
pub mod Buffers
pub mod Groups
pub mod Encode
pub mod Bounds
pub mod Sound
pub mod Digits
pub mod Bytes
pub mod RoundTrip
use thermo_check.Common.{
  ℕ, suc, ◌+◌, ◌*◌, ◌/◌, ◌%◌, ◌^◌, bit_and, bit_or, Bool, Option, none, some, List, [], ◌∷◌, length,
  get_elem?, ltb, leb, not, ◌==◌, if◌then◌else◌,
}
use thermo_check.Common.Exec.{Outcome, ok, failed, fault, Exec, pure, ◌>>=◌, ◌>>◌}
use thermo_check.Base64.Buffers.{load, store, store_all, codes}

-- `Base64[]`, without its terminator, and `Pad64`.
abbrev pub base64 : List ℕ
base64 = codes "ABCDEFGHIJKLMNOPQRSTUVWXYZabcdefghijklmnopqrstuvwxyz0123456789+/"

abbrev pub pad64 : ℕ
pad64 = b'='

-- `Base64[output]`.
unfoldable pub digit : ℕ → ℕ
digit output = elim (get_elem? base64 output) [ none ↦ 0 | some ch ↦ ch ]

-- `return (-1)`.
abbrev pub fail : {S A : Type 0} → Exec S A
fail s = (failed, s)

-- Memory behind a buffer is read.
abbrev pub crash : {S A : Type 0} → Exec S A
crash s = (fault, s)

-- `output[0]` to `output[3]` of three bytes.
unfoldable pub output0 : ℕ → ℕ
output0 a = a / 2 ^ 2

unfoldable pub output1 : ℕ → ℕ → ℕ
output1 a b = (bit_and a 0x03 * 2 ^ 4 + b / 2 ^ 4) % 256

unfoldable pub output2 : ℕ → ℕ → ℕ
output2 b c = (bit_and b 0x0f * 2 ^ 2 + c / 2 ^ 6) % 256

unfoldable pub output3 : ℕ → ℕ
output3 c = bit_and c 0x3f

-- The stores of one group, behind the test of the room for it.
unfoldable pub store_group : ℕ → ℕ → List ℕ → Exec (List ℕ) (Unit {0})
store_group targsize datalength chars =
    if ltb targsize ((datalength + 4) % 2 ^ 64) then fail else store_all datalength chars

-- The terminator, and the value that is returned.
unfoldable pub finish : ℕ → ℕ → Exec (List ℕ) ℕ
finish targsize datalength =
    if leb targsize datalength then fail else do store datalength 0; pure (datalength % 2 ^ 32)

-- The `while` loop, which takes three bytes in each round, and the padding behind it.
unfoldable pub ntop_from : ℕ → ℕ → List ℕ → Exec (List ℕ) ℕ
ntop_from targsize datalength [] = finish targsize datalength
ntop_from targsize datalength (a ∷ []) = do
  store_group targsize datalength (digit (output0 a) ∷ digit (output1 a 0) ∷ pad64 ∷ pad64 ∷ [])
  finish targsize (datalength + 4)
ntop_from targsize datalength (a ∷ b ∷ []) = do
  store_group targsize datalength
      (digit (output0 a) ∷ digit (output1 a b) ∷ digit (output2 b 0) ∷ pad64 ∷ [])
  finish targsize (datalength + 4)
ntop_from targsize datalength (a ∷ b ∷ c ∷ src) = do
  store_group targsize datalength
      (digit (output0 a) ∷ digit (output1 a b) ∷ digit (output2 b c) ∷ digit (output3 c) ∷ [])
  ntop_from targsize (datalength + 4) src

unfoldable pub f_b64_ntop : List ℕ → ℕ → Exec (List ℕ) ℕ
unfolding ntop_from store_group store_all store finish digit output0 output1 output2 output3
f_b64_ntop src targsize = ntop_from targsize 0 src

-- `strchr(Base64, ch) - Base64`, `none` where the character is not found.
unfoldable pub find : ℕ → ℕ → List ℕ → Option ℕ
find ch pos [] = none
find ch pos (c ∷ chars) = let rest = find ch (pos + 1) chars in if c == ch then some pos else rest

-- `if (pos == 0) return (-1);`.
abbrev pub or_fail : Option ℕ → (ℕ → Exec (Option (List ℕ)) ℕ) → Exec (Option (List ℕ)) ℕ
or_fail none k = fail
or_fail (some pos) k = k pos

-- `state`: how many of the four digits of a group have been read.
pub data DigitState : Type 0 where
  digits0 digits1 digits2 digits3 : DigitState

-- The buffer, or `none` for a null pointer.
abbrev pub Target : Type 0
Target = Option (List ℕ)

-- `if (target) { … }`.
unfoldable pub on_target : Exec (List ℕ) (Unit {0}) → Exec Target (Unit {0})
on_target m none = (ok tt, none)
on_target m (some target) = let r = m target in (r.0, some r.1)

-- `if (i >= targsize) return (-1);`.
unfoldable pub check_room : ℕ → ℕ → Exec (List ℕ) (Unit {0})
check_room targsize i = if leb targsize i then fail else pure tt

-- `target[i] |= bits`.
unfoldable pub join : ℕ → ℕ → Exec (List ℕ) (Unit {0})
join i bits = do byte ← load i; store i (bit_or byte bits % 256)

-- `tarindex + 1` on a `u_int`.
abbrev pub next : ℕ → ℕ
next i = (i + 1) % 2 ^ 32

-- The stores of the `switch` for the digit `pos`, at each state.
unfoldable pub store_digit : DigitState → ℕ → ℕ → ℕ → Exec (List ℕ) (Unit {0})
store_digit digits0 targsize i pos = do check_room targsize i; store i (pos * 2 ^ 2 % 256)
store_digit digits1 targsize i pos = do
  check_room targsize (next i)
  join i (pos / 2 ^ 4)
  store (next i) (bit_and pos 0x0f * 2 ^ 4 % 256)
store_digit digits2 targsize i pos = do
  check_room targsize (next i)
  join i (pos / 2 ^ 2)
  store (next i) (bit_and pos 0x03 * 2 ^ 6 % 256)
store_digit digits3 targsize i pos = do check_room targsize i; join i pos

abbrev pub next_state : DigitState → DigitState
next_state digits0 = digits1
next_state digits1 = digits2
next_state digits2 = digits3
next_state digits3 = digits0

-- `tarindex++` where the `switch` has it.
abbrev pub next_index : DigitState → ℕ → ℕ
next_index digits0 i = i
next_index digits1 i = next i
next_index digits2 i = next i
next_index digits3 i = next i

-- `if (target && target[tarindex] != 0) return (-1);`, and the return.
unfoldable pub check_extra : ℕ → Exec Target ℕ
check_extra i = do on_target (do byte ← load i; if byte == 0 then pure tt else fail); pure i

-- The end of the string.
unfoldable pub at_end : DigitState → ℕ → Exec Target ℕ
at_end digits0 i = pure i
at_end _ i = fail

module _ (isspace : ℕ → Bool) where
  -- The loop over the characters behind the last `=`.
  unfoldable pub only_spaces : List ℕ → Exec Target (Unit {0})
  only_spaces [] = crash
  only_spaces (ch ∷ src) =
      let rest = only_spaces src in if ch == 0 then pure tt else if isspace ch then rest else fail

  -- The spaces, the second `=`, and what stands behind it.
  unfoldable pub second_pad : List ℕ → Exec Target (Unit {0})
  second_pad [] = crash
  second_pad (ch ∷ src) =
      let rest = second_pad src in
      if ch == 0
      then fail
      else if isspace ch
      then rest
      else if ch == pad64
      then only_spaces src
      else fail

  -- What follows an `=`.
  unfoldable pub after_pad : DigitState → ℕ → List ℕ → Exec Target ℕ
  after_pad state i [] = crash
  after_pad digits0 i src = fail
  after_pad digits1 i src = fail
  after_pad digits2 i src = do second_pad src; check_extra i
  after_pad digits3 i src = do only_spaces src; check_extra i

  unfoldable pub pton_from : ℕ → DigitState → ℕ → List ℕ → Exec Target ℕ
  pton_from targsize state i [] = crash
  pton_from targsize state i (ch ∷ src) =
      let skip = pton_from targsize state i src in
      let go_on = pton_from targsize (next_state state) (next_index state i) src in
      if ch == 0
      then at_end state i
      else if isspace ch
      then skip
      else if ch == pad64
      then after_pad state i src
      else or_fail (find ch 0 base64)
          (λ pos. on_target (store_digit state targsize i pos) >>= λ _. go_on)

  unfoldable pub f_b64_pton : List ℕ → ℕ → Exec Target ℕ
  unfolding pton_from find on_target store_digit check_room store join load after_pad only_spaces
      second_pad check_extra at_end
  f_b64_pton src targsize = pton_from targsize digits0 0 src
