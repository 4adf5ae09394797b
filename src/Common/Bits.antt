-- ===== src/Common/Bits.antt =====
-- The binary digits of a number, and what `&` and `|` do to them. The machine's operations are the
-- native `bit_and` and `bit_or`; each is reduced to its digits once, for every pair of numbers.
use Prim.Native.Nat.{digits, bit_and-bitwise, bit_or-bitwise}
use native.Mathlib.Nat.{pow-suc}
use ostd_final.Common.{
  ℕ, zero, suc, ◌+◌, ◌-◌, ◌*◌, ◌/◌, ◌%◌, ◌^◌, ◌≤◌, ◌<◌, min, max, bit_and, bit_or, ◌≡◌, refl, Bool,
  true, arith, ◌==◌, ==_iff, if◌then◌else◌, ◌&&◌,
}

-- binary digit k of a number
unfoldable pub digit : ℕ → ℕ → ℕ
digit x zero = x % 2
digit x (suc k) = digit (x / 2) k

pub digit-le : (x k : ℕ) → digit x k ≤ 1
unfolding digit
digit-le x zero = omega arith
digit-le x (suc k) = digit-le (x / 2) k

module _ (base : ℕ → ℕ) (op : ℕ → ℕ → ℕ) where
  -- more rounds than the first operand has digits change nothing
  spare_rounds :
      (rounds : ℕ) (x y : ℕ) (more : ℕ)
      → x ≤ rounds
      → x ≤ more
      → digits base op more x y ≡ digits base op rounds x y
  spare_rounds zero zero y zero low high = refl
  spare_rounds (suc r) zero y zero low high = refl
  spare_rounds zero zero y (suc k) low high = refl
  spare_rounds (suc r) zero y (suc k) low high = refl
  spare_rounds zero (suc x) y more low high = absurd (omega arith)
  spare_rounds (suc r) (suc x) y zero low high = absurd (omega arith)
  spare_rounds (suc r) (suc x) y (suc k) low high =
      let rest = spare_rounds r (suc x / 2) (y / 2) k (omega arith) (omega arith) in omega arith

pub zero-bit_and : (mask : ℕ) → bit_and 0 mask ≡ 0
zero-bit_and mask = bit_and-bitwise 0 mask

pub zero-bit_or : (b : ℕ) → bit_or 0 b ≡ b
zero-bit_or b = bit_or-bitwise 0 b

and_step : (x y : ℕ) → bit_and x y ≡ min (x % 2) (y % 2) + bit_and (x / 2) (y / 2) * 2
and_step zero y = omega (arith, zero-bit_and (y / 2), zero-bit_and y)
and_step (suc x) y =
    let same =
      spare_rounds (λ _. zero) min (suc x / 2) (suc x / 2) (y / 2) x (omega arith) (omega arith) in
    let halves = bit_and-bitwise (suc x / 2) (y / 2) in
    let full = bit_and-bitwise (suc x) y in omega arith

or_step : (a b : ℕ) → bit_or a b ≡ bit_or (a / 2) (b / 2) * 2 + max (a % 2) (b % 2)
or_step zero b = omega (arith, zero-bit_or b, zero-bit_or (b / 2))
or_step (suc a) b = omega (
  arith,
  bit_or-bitwise (suc a) b,
  bit_or-bitwise (suc a / 2) (b / 2),
  spare_rounds (λ b. b) max (suc a / 2) (suc a / 2) (b / 2) a (omega arith) (omega arith),
)

pub digit-bit_and : (a b k : ℕ) → digit (bit_and a b) k ≡ min (digit a k) (digit b k)
unfolding digit
digit-bit_and a b zero = omega (arith, and_step a b)
digit-bit_and a b (suc k) =
    let half : bit_and a b / 2 ≡ bit_and (a / 2) (b / 2) = omega (arith, and_step a b) in
    rw half (digit-bit_and (a / 2) (b / 2) k)

pub digit-bit_or : (a b k : ℕ) → digit (bit_or a b) k ≡ max (digit a k) (digit b k)
unfolding digit
digit-bit_or a b zero = omega (arith, or_step a b)
digit-bit_or a b (suc k) =
    let half : bit_or a b / 2 ≡ bit_or (a / 2) (b / 2) = omega (arith, or_step a b) in
    rw half (digit-bit_or (a / 2) (b / 2) k)

pub zero-digit : (k : ℕ) → digit 0 k ≡ 0
unfolding digit
zero-digit zero = refl
zero-digit (suc k) = zero-digit k

pub bit_and_zero : (x fuel : ℕ) → x ≤ fuel → bit_and x 0 ≡ 0
bit_and_zero zero fuel low = zero-bit_and 0
bit_and_zero (suc x) zero low = absurd (omega arith)
bit_and_zero (suc x) (suc fuel) low =
    let rest = bit_and_zero (suc x / 2) fuel (omega arith) in
    let step = and_step (suc x) 0 in omega arith

pow_half : (k : ℕ) → 2 ^ suc k ≡ 2 ^ k * 2
pow_half k = pow-suc 2 k

pub digit-pow : (k j : ℕ) → digit (2 ^ k) j ≡ (if k == j then 1 else 0)
unfolding digit
digit-pow zero zero = refl
digit-pow zero (suc j) = ground (arith, zero-digit j)
digit-pow (suc k) zero = ground (arith, pow_half k)
digit-pow (suc k) (suc j) =
    let half : 2 ^ suc k / 2 ≡ 2 ^ k = omega (arith, pow_half k) in
    rw half (ground (arith, digit-pow k j))

-- `x & (1 << k)` is digit k in its place.
pub bit_and-pow : (x k : ℕ) → bit_and x (2 ^ k) ≡ digit x k * 2 ^ k
unfolding digit
bit_and-pow x zero = omega (arith, and_step x 1, bit_and_zero (x / 2) (x / 2) (omega arith))
bit_and-pow x (suc k) =
    let half : 2 ^ suc k / 2 ≡ 2 ^ k = omega (arith, pow_half k) in
    let step = and_step x (2 ^ suc k) in
    let low : 2 ^ suc k % 2 ≡ 0 = omega (arith, pow_half k) in
    let ih = bit_and-pow (x / 2) k in grind (arith, step, half, low, ih, pow_half k)

pow_pos : (k : ℕ) → 0 < 2 ^ k
pow_pos zero = omega arith
pow_pos (suc k) = omega (arith, pow_half k, pow_pos k)

-- The test `(x & (1 << k)) == 0` reads digit k.
pub test_digit : (x k : ℕ) → (bit_and x (2 ^ k) == 0) ≡ (digit x k == 0)
test_digit x k = grind (arith, bit_and-pow x k, pow_pos k, digit-le x k)

-- An `&` is no more than its mask, and an `|` no more than the sum.
pub bit_and-le : (x y fuel : ℕ) → x ≤ fuel → bit_and x y ≤ y
bit_and-le zero y fuel low = omega (arith, zero-bit_and y)
bit_and-le (suc x) y zero low = absurd (omega arith)
bit_and-le (suc x) y (suc fuel) low =
    let rest = bit_and-le (suc x / 2) (y / 2) fuel (omega arith) in
    let step = and_step (suc x) y in omega arith

pub bit_or-le : (a b fuel : ℕ) → a ≤ fuel → bit_or a b ≤ a + b
bit_or-le zero b fuel low = omega (arith, zero-bit_or b)
bit_or-le (suc a) b zero low = absurd (omega arith)
bit_or-le (suc a) b (suc fuel) low =
    let rest = bit_or-le (suc a / 2) (b / 2) fuel (omega arith) in
    let step = or_step (suc a) b in omega arith

-- the tests of all numbers below a bound, from the top down
unfoldable pub holds_below : (bound : ℕ) → (ℕ → Bool) → Bool
holds_below zero test = true
holds_below (suc top) test = holds_below top test && test top

pub holds_below-at :
    (bound : ℕ) (test : ℕ → Bool) (k : ℕ)
    → k < bound
    → holds_below bound test ≡ true
    → test k ≡ true
unfolding holds_below
holds_below-at zero test k low all = absurd (omega arith)
holds_below-at (suc top) test k low all = ground (arith, holds_below-at top test k)

-- The byte `~(1 << k)` has every digit but k.
complement_table :
    holds_below 8 (λ k. holds_below 8 (λ j. digit (255 - 2 ^ k) j == (if k == j then 0 else 1)))
    ≡ true
unfolding holds_below digit
complement_table = refl

pub digit-complement : (k j : ℕ) → k < 8 → j < 8 → digit (255 - 2 ^ k) j ≡ (if k == j then 0 else 1)
digit-complement k j hk hj =
    (==_iff _ _).0 (holds_below-at 8 _ j hj (holds_below-at 8 _ k hk complement_table))

-- A mask of three ones is a remainder.
pub bit_and_seven : (x : ℕ) → bit_and x 7 ≡ x % 8
bit_and_seven x =
    let empty = bit_and_zero (x / 2 / 2 / 2) (x / 2 / 2 / 2) (omega arith) in
    let third = and_step (x / 2 / 2) 1 in
    let second = and_step (x / 2) 3 in let first = and_step x 7 in omega arith
