-- ===== src/Base/Bytes.antt =====
-- Numbers as bytes, the lowest first.
use Prim.Native.Nat.{ℕ, zero, suc, ◌+◌, ◌-◌, ◌*◌, ◌/◌, ◌%◌, ◌^◌, ◌<◌}
use mathlib.Core.Path.{◌≡◌}
use mathlib.Core.List.{List, [], ◌∷◌}
use native.Mathlib.Omega.{arith}
use nano_trade.Base.Tests.{ltb, if◌then◌else◌}
use nano_trade.Base.Int.{ℤ, pos, negsuc}

-- How many numbers there are of `w` bytes.
abbrev pub bound : ℕ → ℕ
bound zero = 1
bound (suc w) = 256 * bound w

abbrev pub bytes : (w n : ℕ) → List ℕ
bytes zero n = []
bytes (suc w) n = n % 256 ∷ bytes w (n / 256)

abbrev pub number : List ℕ → ℕ
number [] = 0
number (b ∷ bs) = b + 256 * number bs

pub number-bytes : (w n : ℕ) → n < bound w → number (bytes w n) ≡ n
number-bytes zero n h = omega arith
number-bytes (suc w) n h = omega (arith, number-bytes w (n / 256) (omega arith))

-- The 64 bits of a signed integer, and the integer of 64 bits.
abbrev pub bits_of : ℤ → ℕ
bits_of (pos n) = n
bits_of (negsuc n) = 2 ^ 64 - 1 - n

abbrev pub signed : ℕ → ℤ
signed w = if ltb w (2 ^ 63) then pos w else negsuc (2 ^ 64 - w - 1)

abbrev pub IsI64 : ℤ → Type 0
IsI64 (pos n) = n < 2 ^ 63
IsI64 (negsuc n) = n < 2 ^ 63

pub bits_of-lt : (p : ℤ) → IsI64 p → bits_of p < 2 ^ 64
bits_of-lt (pos n) h = omega arith
bits_of-lt (negsuc n) h = omega arith

pub signed-bits_of : (p : ℤ) → IsI64 p → signed (bits_of p) ≡ p
signed-bits_of (pos n) h = ground (arith, h)
signed-bits_of (negsuc n) h = ground (arith, h)
