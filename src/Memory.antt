-- ===== src/Memory.antt =====
-- Memory of the process as bytes by address: what the C code reads and writes through pointers.
-- A pointer has 64 bits, with the null pointer 0, and numbers are stored lowest byte first, as on the
-- platforms of the app. The addresses from 2 ^ 64 on, which no pointer has, hold local variables that
-- the code takes the address of.
use thermo_check.Common.{ℕ, zero, suc, ◌+◌, ◌*◌, ◌/◌, ◌%◌, ◌^◌, List, [], ◌∷◌, ◌==◌, if◌then◌else◌}

abbrev pub Memory : Type 0
Memory = ℕ → ℕ

unfoldable pub store_byte : Memory → ℕ → ℕ → Memory
store_byte memory address b a = if a == address then b % 256 else memory a

-- `*address++ = b` for each byte.
unfoldable pub store_bytes : Memory → ℕ → List ℕ → Memory
unfolding store_byte
store_bytes memory address [] = memory
store_bytes memory address (b ∷ bytes) =
    store_bytes (store_byte memory address b) (suc address) bytes

-- A number in `n` bytes.
unfoldable pub store : ℕ → Memory → ℕ → ℕ → Memory
unfolding store_byte
store zero memory address v = memory
store (suc n) memory address v = store n (store_byte memory address v) (suc address) (v / 256)

unfoldable pub load : ℕ → Memory → ℕ → ℕ
load zero memory address = 0
load (suc n) memory address = memory address % 256 + 256 * load n memory (suc address)

unfoldable pub load_bytes : ℕ → Memory → ℕ → List ℕ
load_bytes zero memory address = []
load_bytes (suc n) memory address = memory address % 256 ∷ load_bytes n memory (suc address)

-- `memset(address, 0, n)`.
unfoldable pub clear : ℕ → Memory → ℕ → Memory
unfolding store_byte
clear zero memory address = memory
clear (suc n) memory address = clear n (store_byte memory address 0) (suc address)

-- `memcpy(address, source, n)`.
unfoldable pub copy : ℕ → Memory → ℕ → ℕ → Memory
unfolding load_bytes store_bytes
copy n memory address source = store_bytes memory address (load_bytes n memory source)

-- `(char*)p + n`.
abbrev pub add_address : ℕ → ℕ → ℕ
add_address p n = (p + n) % 2 ^ 64
