-- ===== src/Base/Int.antt =====
-- Signed integers over the native numbers, and the ranges of the C++ types.
use linux_sensors.Base.Tests.{leb, ltb, if◌then◌else◌}
use linux_sensors.Base.Endings.{Outcome, ok, undefined}
use Prim.Native.Nat.{ℕ, suc, ◌+◌, ◌-◌, ◌%◌, ◌^◌}
use mathlib.Core.Bool.{Bool}

-- `negsuc n` is -(n + 1).
pub data ℤ : Type 0 where
  pos : ℕ → ℤ
  negsuc : ℕ → ℤ

abbrev pub pos_part : ℤ → ℕ
pos_part (pos n) = n
pos_part (negsuc n) = 0

abbrev pub neg_part : ℤ → ℕ
neg_part (pos n) = 0
neg_part (negsuc n) = suc n

-- a - b, as an integer.
abbrev pub sub_ℕ : ℕ → ℕ → ℤ
sub_ℕ a b = if leb b a then pos (a - b) else negsuc (b - a - 1)

abbrev pub ltb_ℤ : ℤ → ℤ → Bool
ltb_ℤ a b = ltb (pos_part a + neg_part b) (pos_part b + neg_part a)

-- The bits of an integer, read as an unsigned number of `w` bits.
abbrev pub to_unsigned : ℕ → ℤ → ℕ
to_unsigned w (pos n) = n % 2 ^ w
to_unsigned w (negsuc n) = 2 ^ w - 1 - n % 2 ^ w

-- The conversion to a `short`, which keeps the low 16 bits.
abbrev pub to_short : ℤ → ℤ
to_short v = let u = to_unsigned 16 v in if ltb u 32768 then pos u else negsuc (65535 - u)

-- The conversion to an `int`, which keeps the low 32 bits.
abbrev pub to_int : ℤ → ℤ
to_int v = let u = to_unsigned 32 v in if ltb u 2147483648 then pos u else negsuc (4294967295 - u)

-- A size_t that is stored in an `int` and read as a size_t again.
abbrev pub through_int : ℕ → ℕ
through_int n = to_unsigned 64 (to_int (pos n))

-- A result of `int` arithmetic: beyond 32 bits the behaviour is undefined.
abbrev pub int_result : ℤ → Outcome ℤ
int_result (pos n) = if ltb n 2147483648 then ok (pos n) else undefined
int_result (negsuc n) = if ltb n 2147483648 then ok (negsuc n) else undefined
