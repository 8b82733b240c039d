-- ===== src/Base/Int.antt =====
-- Signed integers over the native numbers, and Go's conversions between them and machine words.
use peekd.Base.{arith, ◌≡◌}
use mathlib.Core.Option.{Option, none, some}
use Prim.Native.Nat.{ℕ, zero, suc, ◌*◌, ◌+◌, ◌-◌, ◌/◌, ◌%◌, ◌^◌}
use peekd.Base.Tests.{ltb, leb, if◌then◌else◌}

-- `negsuc n` is -(n + 1).
pub data ℤ : Type 0 where
  pos : ℕ → ℤ
  negsuc : ℕ → ℤ

abbrev pub pos_part : ℤ → ℕ
pos_part (pos n) = n
pos_part (negsuc n) = 0

abbrev pub neg_part : ℤ → ℕ
neg_part (pos n) = 0
neg_part (negsuc n) = suc n

-- a - b, as an integer.
abbrev pub sub_ℕ : ℕ → ℕ → ℤ
sub_ℕ a b = if leb b a then pos (a - b) else negsuc (b - a - 1)

infixl 65 ◌+ℤ◌ ◌-ℤ◌
unfoldable pub ◌+ℤ◌ : ℤ → ℤ → ℤ
a +ℤ b = sub_ℕ (pos_part a + pos_part b) (neg_part a + neg_part b)

unfoldable pub ◌-ℤ◌ : ℤ → ℤ → ℤ
a -ℤ b = sub_ℕ (pos_part a + neg_part b) (neg_part a + pos_part b)

-- `int64` and `time.Duration` of a 64-bit pattern.
unfoldable pub to_int64 : ℕ → ℤ
to_int64 n = let w = n % 2 ^ 64 in if ltb w (2 ^ 63) then pos w else negsuc (2 ^ 64 - 1 - w)

-- Integer division by a positive number; Go truncates towards zero.
unfoldable pub quo : ℤ → ℕ → ℤ
quo (pos n) d = pos (n / d)
quo (negsuc n) d = sub_ℕ 0 (suc n / d)

-- `uint32(d)` of a signed integer: the low 32 bits of its two's complement.
unfoldable pub to_uint32 : ℤ → ℕ
to_uint32 (pos n) = n % 2 ^ 32
to_uint32 (negsuc n) = 2 ^ 32 - 1 - n % 2 ^ 32

pub pos-add : (a b : ℕ) → pos a +ℤ pos b ≡ pos (a + b)
unfolding ◌+ℤ◌
pos-add a b = ground arith

-- `uint16(d)`, likewise.
unfoldable pub to_uint16 : ℤ → ℕ
to_uint16 (pos n) = n % 2 ^ 16
to_uint16 (negsuc n) = 2 ^ 16 - 1 - n % 2 ^ 16

-- A natural number times a `time.Duration`, on int64.
unfoldable pub times : ℕ → ℤ → ℤ
times k (pos n) = to_int64 (k * n)
times k (negsuc n) = to_int64 (2 ^ 64 - k * suc n % 2 ^ 64)

-- The quotient of two durations, truncated towards zero; `none` is the panic of a division by zero.
-- The least int64 divided by -1 wraps.
unfoldable pub quo_duration : ℤ → ℤ → Option ℤ
quo_duration a (pos zero) = none
quo_duration a (pos (suc d)) = some (quo a (suc d))
quo_duration a (negsuc d) =
    some (to_int64 (neg_part (quo a (suc d)) + 2 ^ 64 - pos_part (quo a (suc d))))
