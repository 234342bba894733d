-- ===== src/Base/Words.antt =====
-- Machine words as native numbers: the casts cut to a width, and the shifts are written out.
use Prim.Native.Nat.{ℕ, ◌+◌, ◌-◌, ◌*◌, ◌/◌, ◌%◌, ◌^◌, bit_and}
use mathlib.Core.Bool.{Bool, not}
use low_flex_programming.Base.Tests.{◌==◌}

abbrev pub u8 : ℕ → ℕ
u8 x = x % 256

abbrev pub u16 : ℕ → ℕ
u16 x = x % 65536

abbrev pub u32 : ℕ → ℕ
u32 x = x % 2 ^ 32

-- uint32_t a + b and a - b.
abbrev pub add32 : ℕ → ℕ → ℕ
add32 a b = (a + b) % 2 ^ 32

abbrev pub sub32 : ℕ → ℕ → ℕ
sub32 a b = (a + 2 ^ 32 - b) % 2 ^ 32

-- The bit pattern of the `int` -n.
abbrev pub minus32 : ℕ → ℕ
minus32 n = (2 ^ 32 - n) % 2 ^ 32

infixl 60 ◌<<<◌ ◌>>>◌
abbrev pub ◌<<<◌ : ℕ → ℕ → ℕ
x <<< k = x * 2 ^ k

abbrev pub ◌>>>◌ : ℕ → ℕ → ℕ
x >>> k = x / 2 ^ k

-- `a & ~b` on `unsigned int`.
abbrev pub and_not : ℕ → ℕ → ℕ
and_not a b = bit_and a (2 ^ 32 - 1 - b)

-- `a & b` as a condition.
abbrev pub has : ℕ → ℕ → Bool
has a b = not (bit_and a b == 0)
