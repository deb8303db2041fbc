-- ===== src/Base/Int.antt =====
-- Signed integers over the native numbers, and their reduction to a machine width.
use Prim.Native.Nat.{ℕ, suc, ◌+◌, ◌-◌, ◌*◌, ◌%◌}
use mathlib.Core.Bool.{Bool}
use platform_mihomo_service.Base.Tests.{ltb, leb, if◌then◌else◌}

-- `negsuc n` is -(n + 1).
pub data ℤ : Type 0 where
  pos : ℕ → ℤ
  negsuc : ℕ → ℤ

abbrev pub pos_part : ℤ → ℕ
pos_part (pos n) = n
pos_part (negsuc n) = 0

abbrev pub neg_part : ℤ → ℕ
neg_part (pos n) = 0
neg_part (negsuc n) = suc n

abbrev pub sub_ℕ : ℕ → ℕ → ℤ
sub_ℕ a b = if leb b a then pos (a - b) else negsuc (b - a - 1)

infixl 65 ◌+ℤ◌ ◌-ℤ◌
abbrev pub ◌+ℤ◌ : ℤ → ℤ → ℤ
a +ℤ b = sub_ℕ (pos_part a + pos_part b) (neg_part a + neg_part b)

abbrev pub ◌-ℤ◌ : ℤ → ℤ → ℤ
a -ℤ b = sub_ℕ (pos_part a + neg_part b) (neg_part a + pos_part b)

abbrev pub ltb_ℤ : ℤ → ℤ → Bool
ltb_ℤ a b = ltb (pos_part a + neg_part b) (pos_part b + neg_part a)

abbrev pub leb_ℤ : ℤ → ℤ → Bool
leb_ℤ a b = leb (pos_part a + neg_part b) (pos_part b + neg_part a)

-- The remainder of an integer by m, in 0 … m - 1, for a positive m.
abbrev pub emod : ℤ → ℕ → ℕ
emod (pos n) m = n % m
emod (negsuc n) m = m - 1 - n % m

-- The two's complement value of an integer's low bits, for the modulus 2 * half.
abbrev pub wrap_at : ℕ → ℤ → ℤ
wrap_at half z =
    let r = emod z (2 * half) in if ltb r half then pos r else negsuc (2 * half - 1 - r)

-- The conversion `int32(x)`.
abbrev pub to_int32 : ℤ → ℤ
to_int32 z = wrap_at 2147483648 z

-- The conversion to `int64`, which every int64 operation applies to its result.
abbrev pub to_int64 : ℤ → ℤ
to_int64 z = wrap_at 9223372036854775808 z
