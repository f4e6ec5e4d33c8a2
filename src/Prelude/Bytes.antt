-- ===== src/Prelude/Bytes.antt =====
-- Byte strings as lists of numbers below 256: comparison, slices and big-endian integers.
use Prim.Native.Nat.{ℕ, ◌+◌, ◌*◌, ◌/◌, ◌%◌, ◌^◌, ◌<◌}
use mathlib.Core.Path.{◌≡◌}
use mathlib.Core.Bool.{Bool, true, false, ◌&&◌}
use mathlib.Core.List.{List, [], ◌∷◌}
use native.Mathlib.Omega.{arith}
use llrdc_casting.Prelude.Tests.{◌==◌}
use llrdc_casting.Prelude.Lists.{take, drop}

abbrev pub bytes_eq : List ℕ → List ℕ → Bool
bytes_eq [] [] = true
bytes_eq (x ∷ xs) (y ∷ ys) = x == y && bytes_eq xs ys
bytes_eq _ _ = false

abbrev pub slice : ℕ → ℕ → List ℕ → List ℕ
slice offset count bytes = take count (drop offset bytes)

-- `from_be_bytes`, with the value read so far.
abbrev pub from_be : ℕ → List ℕ → ℕ
from_be acc [] = acc
from_be acc (b ∷ bytes) = from_be (acc * 256 + b) bytes

abbrev pub from_be_bytes : List ℕ → ℕ
from_be_bytes = from_be 0

-- `to_be_bytes` of a u16 and of a u32.
abbrev pub u16_to_be_bytes : ℕ → List ℕ
u16_to_be_bytes n = n / 256 % 256 ∷ n % 256 ∷ []

abbrev pub u32_to_be_bytes : ℕ → List ℕ
u32_to_be_bytes n = n / 2 ^ 24 % 256 ∷ n / 2 ^ 16 % 256 ∷ n / 2 ^ 8 % 256 ∷ n % 256 ∷ []

pub from_be_bytes-u32_to_be_bytes : (n : ℕ) → n < 2 ^ 32 → from_be_bytes (u32_to_be_bytes n) ≡ n
from_be_bytes-u32_to_be_bytes n h = omega arith

pub from_be_bytes-u16_to_be_bytes : (n : ℕ) → n < 2 ^ 16 → from_be_bytes (u16_to_be_bytes n) ≡ n
from_be_bytes-u16_to_be_bytes n h = omega arith

-- `fetch_add` on an atomic u64 wraps.
pub wrapping_add_64 : ℕ → ℕ → ℕ
wrapping_add_64 a b = (a + b) % 2 ^ 64
