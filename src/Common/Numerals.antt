-- ===== src/Common/Numerals.antt =====
-- The C library's conversions of texts to numbers: atoi, and strtol and strtoul cast to `uint32_t`,
-- where a long has 64 bits.
use ostd_final.Common.{
  ℕ, ◌+◌, ◌-◌, ◌*◌, ◌^◌, ◌%◌, Bool, true, false, ◌&&◌, ◌||◌, Option, none, some, [], ◌∷◌, ◌==◌, leb,
  ltb, min, if◌then◌else◌,
}
use ostd_final.Common.Int.{ℤ, pos, negsuc}
use ostd_final.Common.Text.{Text}

-- isspace
abbrev pub is_space : ℕ → Bool
is_space c = c == 32 || leb 9 c && leb c 13

unfoldable pub skip_space : Text → Text
skip_space [] = []
skip_space (c ∷ t) = if is_space c then skip_space t else c ∷ t

-- the number that the digits at the front of a text are, for a base of at most ten
unfoldable pub digits_in : (base value : ℕ) → Text → ℕ
digits_in base value [] = value
digits_in base value (c ∷ t) =
    let more = digits_in base (base * value + (c - b'0')) t in
    if leb b'0' c && ltb c (b'0' + base) then more else value

-- whether there is a minus sign, and the number behind the sign
unfoldable pub signed_in : (base : ℕ) → Text → Bool × ℕ
signed_in base [] = (false, 0)
signed_in base (c ∷ t) =
    if c == b'-'
    then (true, digits_in base 0 t)
    else if c == b'+'
    then (false, digits_in base 0 t)
    else (false, digits_in base 0 (c ∷ t))

-- an int, if the number is one
abbrev pub int_of : Bool × ℕ → Option ℤ
int_of (true, n) = if leb n (2 ^ 31) then some (if n == 0 then pos 0 else negsuc (n - 1)) else none
int_of (false, n) = if ltb n (2 ^ 31) then some (pos n) else none

-- atoi, which is not defined for a number that is no int
unfoldable pub atoi : Text → Option ℤ
atoi t = int_of (signed_in 10 (skip_space t))

-- -n on a `uint32_t`
abbrev pub negated : ℕ → ℕ
negated n = (2 ^ 32 - n % 2 ^ 32) % 2 ^ 32

abbrev pub clamped_long : Bool × ℕ → ℕ
clamped_long (true, n) = negated (min n (2 ^ 63))
clamped_long (false, n) = min n (2 ^ 63 - 1) % 2 ^ 32

-- `(uint32_t)strtol(t, NULL, 8)`
unfoldable pub octal_of : Text → ℕ
octal_of t = clamped_long (signed_in 8 (skip_space t))

abbrev pub clamped_unsigned : Bool × ℕ → ℕ
clamped_unsigned (minus, n) =
    if leb (2 ^ 64) n then 2 ^ 32 - 1 else if minus then negated n else n % 2 ^ 32

-- `(uint32_t)strtoul(t, NULL, 10)`
unfoldable pub unsigned_of : Text → ℕ
unsigned_of t = clamped_unsigned (signed_in 10 (skip_space t))
