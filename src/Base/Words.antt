-- ===== src/Base/Words.antt =====
-- Machine words. An `int` or `uint32_t` is its bit pattern, a number below 2 ^ 32; an
-- `unsigned long` is a number below 2 ^ 64. Signed overflow, which C leaves undefined, wraps here.
use Prim.Native.Nat.{ℕ, ◌+◌, ◌-◌, ◌*◌, ◌/◌, ◌%◌, ◌^◌}
use mathlib.Core.Bool.{Bool}
use simple_32bit_os.Base.Tests.{ltb, leb, if◌then◌else◌}

abbrev pub u32 : ℕ → ℕ
u32 n = n % 2 ^ 32

abbrev pub u64 : ℕ → ℕ
u64 n = n % 2 ^ 64

-- The pattern of -1 as an `int`, and as an `unsigned long`.
abbrev pub minus_one : ℕ
minus_one = 2 ^ 32 - 1

abbrev pub minus_one_long : ℕ
minus_one_long = 2 ^ 64 - 1

abbrev pub is_neg : ℕ → Bool
is_neg w = leb (2 ^ 31) w

-- `int` to `unsigned long`: sign extension.
abbrev pub sext : ℕ → ℕ
sext w = if is_neg w then w + (2 ^ 64 - 2 ^ 32) else w

-- `char` to `uint32_t`: sign extension of a byte.
abbrev pub sext_byte : ℕ → ℕ
sext_byte b = if leb (2 ^ 7) b then b + (2 ^ 32 - 2 ^ 8) else b

-- a + b, a - b and a * b on `int`.
abbrev pub int_add : ℕ → ℕ → ℕ
int_add a b = u32 (a + b)

abbrev pub int_sub : ℕ → ℕ → ℕ
int_sub a b = u32 (a + 2 ^ 32 - b)

abbrev pub int_mul : ℕ → ℕ → ℕ
int_mul a b = u32 (a * b)

-- a / b on `int` for positive b: C rounds towards zero.
abbrev pub int_div : ℕ → ℕ → ℕ
int_div a b = if is_neg a then u32 (2 ^ 32 - (2 ^ 32 - a) / b) else a / b

-- a < b on `int`: the sign bit turned round makes it an order of patterns.
abbrev pub int_lt : ℕ → ℕ → Bool
int_lt a b = ltb (u32 (a + 2 ^ 31)) (u32 (b + 2 ^ 31))

abbrev pub int_le : ℕ → ℕ → Bool
int_le a b = leb (u32 (a + 2 ^ 31)) (u32 (b + 2 ^ 31))
