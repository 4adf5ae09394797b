-- ===== src/Common/Int.antt =====
-- C's `int` over the native numbers: the value of a 32-bit pattern, sums and comparisons.
use ostd_final.Common.{ℕ, suc, ◌+◌, ◌-◌, ◌^◌, Bool, ltb, leb, if◌then◌else◌}

-- `negsuc n` is -(n + 1).
pub data ℤ : Type 0 where
  pos : ℕ → ℤ
  negsuc : ℕ → ℤ

abbrev pub pos_part : ℤ → ℕ
pos_part (pos n) = n
pos_part (negsuc n) = 0

abbrev pub neg_part : ℤ → ℕ
neg_part (pos n) = 0
neg_part (negsuc n) = suc n

-- a - b, as an integer
abbrev pub sub_ℕ : ℕ → ℕ → ℤ
sub_ℕ a b = if leb b a then pos (a - b) else negsuc (b - a - 1)

infixl 65 ◌+ℤ◌
abbrev pub ◌+ℤ◌ : ℤ → ℤ → ℤ
a +ℤ b = sub_ℕ (pos_part a + pos_part b) (neg_part a + neg_part b)

abbrev pub ltb_ℤ : ℤ → ℤ → Bool
ltb_ℤ a b = ltb (pos_part a + neg_part b) (pos_part b + neg_part a)

abbrev pub minus_one : ℤ
minus_one = negsuc 0

-- `(int)x` of a `uint32_t`
abbrev pub to_int : ℕ → ℤ
to_int x = if ltb x (2 ^ 31) then pos x else negsuc (2 ^ 32 - 1 - x)

-- `x += d` on a `uint32_t`, for an `int` d
abbrev pub add_int : ℕ → ℤ → ℕ
add_int x (pos n) = if ltb (x + n) (2 ^ 32) then x + n else x + n - 2 ^ 32
add_int x (negsuc n) = if leb (suc n) x then x - suc n else x + 2 ^ 32 - suc n
