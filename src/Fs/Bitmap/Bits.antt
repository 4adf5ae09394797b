-- ===== src/Fs/Bitmap/Bits.antt =====
-- What setting and clearing a bit, and the search for a free one, do to a bitmap of
-- oscdfs/src/bitmap.c.
use ostd_final.Common.{
  ℕ, zero, suc, ◌+◌, ◌-◌, ◌/◌, ◌%◌, ◌^◌, ◌<◌, ◌≤◌, ◌≡◌, refl, true, false, none, some, arith, ◌==◌,
  if◌then◌else◌, Bool-cases, inl, inr,
}
use ostd_final.Common.Bits.{
  digit, digit-le, digit-bit_and, digit-bit_or, digit-pow, digit-complement, test_digit,
}
use ostd_final.Fs.Bytes.{Block, load8, store8}
use ostd_final.Fs.Bitmap.{is_free, set_bit, clear_bit, first_free}

digit-mod : (x k : ℕ) → k < 8 → digit (x % 2 ^ 8) k ≡ digit x k
unfolding digit
digit-mod x zero h = omega arith
digit-mod x (suc zero) h = omega arith
digit-mod x (suc (suc zero)) h = omega arith
digit-mod x (suc (suc (suc zero))) h = omega arith
digit-mod x (suc (suc (suc (suc zero)))) h = omega arith
digit-mod x (suc (suc (suc (suc (suc zero))))) h = omega arith
digit-mod x (suc (suc (suc (suc (suc (suc zero)))))) h = omega arith
digit-mod x (suc (suc (suc (suc (suc (suc (suc zero))))))) h = omega arith
digit-mod x (suc (suc (suc (suc (suc (suc (suc (suc k)))))))) h = absurd (omega arith)

is_free-digit : (b : Block) (i : ℕ) → is_free b i ≡ (digit (b (i / 8)) (i % 8) == 0)
unfolding is_free
is_free-digit b i = rw test_digit (rw (digit-mod (b (i / 8)) (i % 8) (omega arith)))

-- Setting bit i makes i used and leaves every other bit.
pub is_free-set_bit :
    (b : Block) (i j : ℕ) → is_free (set_bit b i) j ≡ (if i == j then false else is_free b j)
unfolding set_bit store8
is_free-set_bit b i j =
    let old : digit (load8 b (i / 8)) (j % 8) ≡ digit (b (i / 8)) (j % 8) =
      digit-mod (b (i / 8)) (j % 8) (omega arith) in
    ground (
      arith,
      is_free-digit (set_bit b i) j,
      is_free-digit b j,
      digit-bit_or (load8 b (i / 8)) (2 ^ (i % 8)) (j % 8),
      digit-pow (i % 8) (j % 8),
      old,
    )

pub is_free-clear_bit :
    (b : Block) (i j : ℕ) → is_free (clear_bit b i) j ≡ (if i == j then true else is_free b j)
unfolding clear_bit store8
is_free-clear_bit b i j =
    let old : digit (load8 b (i / 8)) (j % 8) ≡ digit (b (i / 8)) (j % 8) =
      digit-mod (b (i / 8)) (j % 8) (omega arith) in
    ground (
      arith,
      is_free-digit (clear_bit b i) j,
      is_free-digit b j,
      digit-bit_and (load8 b (i / 8)) (255 - 2 ^ (i % 8)) (j % 8),
      digit-complement (i % 8) (j % 8),
      digit-le (b (i / 8)) (j % 8),
      old,
    )

-- bit j of a bitmap: binary digit j % 8 of byte j / 8
unfoldable pub bit_of : Block → ℕ → ℕ
bit_of b j = digit (b (j / 8)) (j % 8)

pub is_free-bit_of : (b : Block) (j : ℕ) → is_free b j ≡ (bit_of b j == 0)
unfolding bit_of
is_free-bit_of b j = is_free-digit b j

pub bit_of-le : (b : Block) (j : ℕ) → bit_of b j ≤ 1
unfolding bit_of
bit_of-le b j = digit-le (b (j / 8)) (j % 8)

-- Setting bit i makes it a one, and leaves every other bit; clearing it makes it a zero.
pub bit_of-set_bit :
    (b : Block) (i j : ℕ) → bit_of (set_bit b i) j ≡ (if i == j then 1 else bit_of b j)
unfolding bit_of set_bit store8
bit_of-set_bit b i j =
    let old : digit (load8 b (i / 8)) (j % 8) ≡ digit (b (i / 8)) (j % 8) =
      digit-mod (b (i / 8)) (j % 8) (omega arith) in
    ground (
      arith,
      digit-bit_or (load8 b (i / 8)) (2 ^ (i % 8)) (j % 8),
      digit-pow (i % 8) (j % 8),
      digit-le (b (i / 8)) (j % 8),
      old,
    )

pub bit_of-clear_bit :
    (b : Block) (i j : ℕ) → bit_of (clear_bit b i) j ≡ (if i == j then 0 else bit_of b j)
unfolding bit_of clear_bit store8
bit_of-clear_bit b i j =
    let old : digit (load8 b (i / 8)) (j % 8) ≡ digit (b (i / 8)) (j % 8) =
      digit-mod (b (i / 8)) (j % 8) (omega arith) in
    ground (
      arith,
      digit-bit_and (load8 b (i / 8)) (255 - 2 ^ (i % 8)) (j % 8),
      digit-complement (i % 8) (j % 8),
      digit-le (b (i / 8)) (j % 8),
      old,
    )

-- The search returns the lowest free bit of its range.
pub first_free-some :
    (b : Block) (n i : ℕ) {r : ℕ}
    → first_free b n i ≡ some r
    → (is_free b r ≡ true) × (i ≤ r) × (r < i + n) × ((j : ℕ) → i ≤ j → j < r → is_free b j ≡ false)
unfolding first_free
first_free-some b zero i h = cc
first_free-some b (suc n) i {r} h = elim (Bool-cases (is_free b i)) [
  | inl e ↦
      let here : i ≡ r = ground arith in
      (rw (← here) e, omega arith, omega arith, λ j p q. absurd (omega arith))
  | inr e ↦
      let rest : first_free b n (i + 1) ≡ some r = ground arith in
      let (free, low, high, below) = first_free-some b n (i + 1) rest in
      (free, omega arith, omega arith, λ j p q. ground (arith, below j))
]

pub first_free-none :
    (b : Block) (n i : ℕ)
    → first_free b n i ≡ none
    → (j : ℕ) → i ≤ j
    → j < i + n
    → is_free b j ≡ false
unfolding first_free
first_free-none b zero i h j p q = absurd (omega arith)
first_free-none b (suc n) i h j p q =
    let rest : first_free b n (i + 1) ≡ none = ground arith in
    ground (arith, first_free-none b n (i + 1) rest j)

-- the number of free bits below n
unfoldable pub free_count : Block → ℕ → ℕ
free_count b zero = 0
free_count b (suc n) = free_count b n + (if is_free b n then 1 else 0)

free_count-set_above : (b : Block) (i n : ℕ) → n ≤ i → free_count (set_bit b i) n ≡ free_count b n
unfolding free_count
free_count-set_above b i zero h = refl
free_count-set_above b i (suc n) h =
    ground (arith, free_count-set_above b i n, is_free-set_bit b i n)

-- Taking a free bit lowers the count by one; giving a used one back raises it by one.
pub free_count-set_bit :
    (b : Block) (i n : ℕ)
    → i < n
    → is_free b i ≡ true
    → free_count (set_bit b i) n + 1 ≡ free_count b n
unfolding free_count
free_count-set_bit b i zero h f = absurd (omega arith)
free_count-set_bit b i (suc n) h f =
    ground (arith, free_count-set_bit b i n, free_count-set_above b i n, is_free-set_bit b i n)

free_count-clear_above :
    (b : Block) (i n : ℕ) → n ≤ i → free_count (clear_bit b i) n ≡ free_count b n
unfolding free_count
free_count-clear_above b i zero h = refl
free_count-clear_above b i (suc n) h =
    ground (arith, free_count-clear_above b i n, is_free-clear_bit b i n)

pub free_count-clear_bit :
    (b : Block) (i n : ℕ)
    → i < n
    → is_free b i ≡ false
    → free_count (clear_bit b i) n ≡ free_count b n + 1
unfolding free_count
free_count-clear_bit b i zero h f = absurd (omega arith)
free_count-clear_bit b i (suc n) h f =
    ground
      (arith, free_count-clear_bit b i n, free_count-clear_above b i n, is_free-clear_bit b i n)
