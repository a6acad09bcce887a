-- ===== src/Base/Words.antt =====
-- Go's sized integers. A value is its bit pattern: a number below 2 ^ w, in two's complement for
-- the signed types. `int` has 64 bits.
use lindb.Base.Tests.{ltb}
use Prim.Native.Nat.{ℕ, ◌+◌, ◌-◌, ◌%◌, ◌^◌, ◌<◌}
use mathlib.Core.Path.{◌≡◌}
use mathlib.Core.Bool.{Bool}
use native.Mathlib.Omega.{arith}
use package.lindb.Base.Tests.{leb, if◌then◌else◌}

abbrev pub IsByte : ℕ → Type 0
IsByte b = b < 256

abbrev pub IsWord32 : ℕ → Type 0
IsWord32 x = x < 2 ^ 32

abbrev pub IsWord64 : ℕ → Type 0
IsWord64 x = x < 2 ^ 64

-- `x < 0`
abbrev pub is_neg32 : ℕ → Bool
is_neg32 x = leb (2 ^ 31) x

abbrev pub is_neg64 : ℕ → Bool
is_neg64 x = leb (2 ^ 63) x

-- `^x`
abbrev pub not64 : ℕ → ℕ
not64 x = 2 ^ 64 - 1 - x

-- `int32(x)` and `uint32(x)` of a 64-bit value keep the low half.
abbrev pub to_word32 : ℕ → ℕ
to_word32 x = x % 2 ^ 32

-- `int64(x)` of an int32 extends the sign.
abbrev pub to_int64 : ℕ → ℕ
to_int64 x = if is_neg32 x then x + (2 ^ 64 - 2 ^ 32) else x

-- An int that fits an int32 is unchanged by the way through int32.
abbrev pub FitsInt32 : ℕ → Type 0
FitsInt32 x = (x < 2 ^ 64) × (to_int64 (to_word32 x) ≡ x)

pub to_word32-to_int64 : (x : ℕ) → IsWord32 x → to_word32 (to_int64 x) ≡ x
to_word32-to_int64 x h = ground arith

pub to_int64-lt : (x : ℕ) → IsWord32 x → IsWord64 (to_int64 x)
to_int64-lt x h = ground arith

-- `x < y` on the signed 64-bit types: move the sign, then compare.
abbrev pub lt64 : ℕ → ℕ → Bool
lt64 x y = ltb ((x + 2 ^ 63) % 2 ^ 64) ((y + 2 ^ 63) % 2 ^ 64)

-- `x < y` on the signed 32-bit types.
abbrev pub lt32 : ℕ → ℕ → Bool
lt32 x y = ltb ((x + 2 ^ 31) % 2 ^ 32) ((y + 2 ^ 31) % 2 ^ 32)

-- `x + 1` of a 64-bit counter.
abbrev pub next64 : ℕ → ℕ
next64 x = (x + 1) % 2 ^ 64
