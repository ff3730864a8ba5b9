-- ===== src/Base/Ints.antt =====
-- Signed integers: Go's time.Time and time.Duration, in nanoseconds, and the int64 range.
use Prim.Native.Nat.{ℕ, zero, suc, ◌+◌, ◌-◌, ◌*◌, ◌%◌, ◌^◌, ◌≤◌, ◌<◌}
use mathlib.Core.Path.{◌≡◌}
use mathlib.Core.Logic.{◌↔◌}
use mathlib.Core.Bool.{Bool, true, false}
use native.Mathlib.Omega.{arith}
use gemaal.Base.Tests.{ltb, leb, if◌then◌else◌}

-- `negsuc n` is -(n + 1).
pub data ℤ : Type 0 where
  pos : ℕ → ℤ
  negsuc : ℕ → ℤ

abbrev pub pos_part : ℤ → ℕ
pos_part (pos n) = n
pos_part (negsuc n) = 0

abbrev pub neg_part : ℤ → ℕ
neg_part (pos n) = 0
neg_part (negsuc n) = suc n

-- a - b, as an integer.
abbrev pub sub_ℕ : ℕ → ℕ → ℤ
sub_ℕ a b = if leb b a then pos (a - b) else negsuc (b - a - 1)

infixl 65 ◌+ℤ◌ ◌-ℤ◌
unfoldable pub ◌+ℤ◌ : ℤ → ℤ → ℤ
a +ℤ b = sub_ℕ (pos_part a + pos_part b) (neg_part a + neg_part b)

unfoldable pub ◌-ℤ◌ : ℤ → ℤ → ℤ
a -ℤ b = sub_ℕ (pos_part a + neg_part b) (neg_part a + pos_part b)

infix 50 ◌≤ℤ◌ ◌<ℤ◌
abbrev pub ◌≤ℤ◌ : ℤ → ℤ → Type 0
a ≤ℤ b = pos_part a + neg_part b ≤ pos_part b + neg_part a

abbrev pub ◌<ℤ◌ : ℤ → ℤ → Type 0
a <ℤ b = pos_part a + neg_part b < pos_part b + neg_part a

-- `a < b` and `a <= b` of the program.
abbrev pub int_lt : ℤ → ℤ → Bool
int_lt a b = ltb (pos_part a + neg_part b) (pos_part b + neg_part a)

abbrev pub int_le : ℤ → ℤ → Bool
int_le a b = leb (pos_part a + neg_part b) (pos_part b + neg_part a)

pub int_le_iff : (a b : ℤ) → (int_le a b ≡ true) ↔ (a ≤ℤ b)
int_le_iff a b = ground arith

pub int_lt_iff : (a b : ℤ) → (int_lt a b ≡ true) ↔ (a <ℤ b)
int_lt_iff a b = ground arith

pub int_not_le : (a b : ℤ) → int_le a b ≡ false → b <ℤ a
int_not_le a b h = ground arith

pub int_not_lt : (a b : ℤ) → int_lt a b ≡ false → b ≤ℤ a
int_not_lt a b h = ground arith

-- math.MaxInt64 and math.MinInt64
abbrev pub max_int64 : ℤ
max_int64 = pos (2 ^ 63 - 1)

abbrev pub min_int64 : ℤ
min_int64 = negsuc (2 ^ 63 - 1)

-- An int64 result: the value modulo 2^64, taken between `min_int64` and `max_int64`.
unfoldable pub wrap64 : ℤ → ℤ
wrap64 (pos n) = sub_ℕ ((n + 2 ^ 63) % 2 ^ 64) (2 ^ 63)
wrap64 (negsuc n) = sub_ℕ ((2 ^ 64 + 2 ^ 63 - 1 - n % 2 ^ 64) % 2 ^ 64) (2 ^ 63)

-- a natural factor times an integer
unfoldable pub scale : ℕ → ℤ → ℤ
scale k a = sub_ℕ (k * pos_part a) (k * neg_part a)

-- `t.Sub(u)` of package time: the difference, cut to the range of a Duration.
unfoldable pub time_sub : ℤ → ℤ → ℤ
time_sub t u =
    let d = t -ℤ u in
    if int_lt max_int64 d then max_int64 else if int_lt d min_int64 then min_int64 else d

-- `t.Add(d)`; times are unbounded here.
unfoldable pub time_add : ℤ → ℤ → ℤ
unfolding ◌+ℤ◌
time_add t d = t +ℤ d

-- Go's zero Time: the first instant of the year 1, from which times are counted.
abbrev pub is_zero : ℤ → Bool
is_zero (pos zero) = true
is_zero (pos (suc n)) = false
is_zero (negsuc n) = false

pub time_add-lt : (t d : ℤ) → (pos 0) <ℤ d → t <ℤ time_add t d
unfolding time_add
time_add-lt t d h = ground arith

pub time_add_mono : (t c d : ℤ) → c ≤ℤ d → time_add t c ≤ℤ time_add t d
unfolding time_add
time_add_mono t c d h = ground arith
