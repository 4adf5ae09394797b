-- ===== src/Shell/Monitor/Scan.antt =====
-- What oscdsh/src/monitor.c uses of the C library's input: the lines that fgets returns of a file, and
-- the words and numbers that sscanf finds. A file is its bytes, without NUL.
use ostd_final.Common.{
  ℕ, zero, suc, ◌+◌, ◌-◌, ◌*◌, ◌^◌, ◌%◌, Bool, true, false, not, Option, none, some, List, [], ◌∷◌,
  ◌++◌, ◌==◌, leb, ltb, take, if◌then◌else◌,
}
use ostd_final.Common.Exec.{Outcome, ok, fail, exited, undefined, unfinished}
use ostd_final.Common.Int.{ℤ, pos, negsuc}
use ostd_final.Common.Numerals.{skip_space, is_space}
use ostd_final.Common.Text.{Text}
use ostd_final.Shell.History.{is_digit}

-- C's `;`, for calls that change no state
abbrev pub next : {A B : Type 0} → Outcome A → (A → Outcome B) → Outcome B
next (ok a) f = f a
next fail f = fail
next exited f = exited
next undefined f = undefined
next unfinished f = unfinished

-- what is left at the end of the file
abbrev pub last_line : Text → List Text
last_line [] = []
last_line (c ∷ t) = (c ∷ t) ∷ []

-- `open_line` is what has been read of a line, and `room` what the array has left for it.
unfoldable pub lines_from : (size room : ℕ) → (open_line : Text) → Text → List Text
lines_from size room open_line [] = last_line open_line
lines_from size room open_line (c ∷ t) = elim (c == 10) [
  | true ↦ (open_line ++ c ∷ []) ∷ lines_from size size [] t
  | false ↦ elim (leb room 1) [
    | true ↦ (open_line ++ c ∷ []) ∷ lines_from size size [] t
    | false ↦ lines_from size (room - 1) (open_line ++ c ∷ []) t
  ]
]

-- what repeated calls of `fgets(line, size, fp)` give
abbrev pub lines_of : (size : ℕ) → Text → List Text
lines_of size file = lines_from (size - 1) (size - 1) [] file

-- the longest part at the front whose bytes pass a test, and what is behind it
unfoldable pub span : (ℕ → Bool) → Text → Text × Text
span test [] = ([], [])
span test (c ∷ t) =
    let (first, rest) = span test t in if test c then (c ∷ first, rest) else ([], c ∷ t)

-- ` %<width>s`: a word, if there is one
abbrev pub word_in : ℕ → Text → Option Text
word_in width t =
    let (word, rest) = span (λ c. not (is_space c)) (skip_space t) in
    elim word [ [] ↦ none | c ∷ more ↦ some (take width (c ∷ more)) ]

unfoldable pub decimal_value : (value : ℕ) → Text → ℕ
decimal_value value [] = value
decimal_value value (c ∷ t) = decimal_value (10 * value + (c - b'0')) t

-- the digits behind a sign, and the text behind them
unfoldable pub digits_behind : (minus : Bool) → Text → Option (Bool × ℕ × Text)
digits_behind minus t =
    let (digits, rest) = span is_digit t in
    elim digits [ [] ↦ none | c ∷ more ↦ some (minus, decimal_value 0 (c ∷ more), rest) ]

unfoldable pub signed_behind : Text → Option (Bool × ℕ × Text)
signed_behind [] = none
signed_behind (c ∷ t) =
    if c == b'-'
    then digits_behind true t
    else if c == b'+'
    then digits_behind false t
    else digits_behind false (c ∷ t)

-- ` %d` or ` %ld`, for a type of `bits` bits, into a variable: without a number the variable keeps its
-- value, and a number that the type does not hold is not defined
unfoldable pub scan_signed : (bits : ℕ) → (old : ℤ) → Text → Outcome ℤ
scan_signed bits old t = elim (signed_behind (skip_space t)) [
  | none ↦ ok old
  | some (true, n, rest) ↦
      if leb n (2 ^ (bits - 1)) then ok (if n == 0 then pos 0 else negsuc (n - 1)) else undefined
  | some (false, n, rest) ↦ if ltb n (2 ^ (bits - 1)) then ok (pos n) else undefined
]

-- ` %llu` a number of times: all of the numbers, or none
unfoldable pub scan_unsigned : (count : ℕ) → Text → Outcome (Option (List ℕ))
scan_unsigned zero t = ok (some [])
scan_unsigned (suc count) t = elim (signed_behind (skip_space t)) [
  | none ↦ ok none
  | some (minus, n, rest) ↦ elim (leb (2 ^ 64) n) [
    | true ↦ undefined
    | false ↦ next (scan_unsigned count rest) λ found. elim found [
      | none ↦ ok none
      | some ns ↦ ok (some ((if minus then (2 ^ 64 - n) % 2 ^ 64 else n) ∷ ns))
    ]
  ]
]
