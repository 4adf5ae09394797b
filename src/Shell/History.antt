-- ===== src/Shell/History.antt =====
-- oscdsh/src/history.c: the lines that were typed, and the expansion of `!!`, `!n` and `!?text?`. The
-- used part of the array is the list. A number behind `!` that does not fit an int is outside what
-- atoi defines.
pub mod Recent
use ostd_final.Common.{
  ℕ, zero, suc, ◌+◌, ◌-◌, ◌*◌, ◌^◌, Bool, true, false, ◌&&◌, ◌||◌, Option, none, some, List, [],
  ◌∷◌, ◌++◌, ◌==◌, leb, ltb, length, take, get_elem?, if◌then◌else◌,
}
use ostd_final.Common.Exec.{Outcome, ok, fail, undefined}
use ostd_final.Common.Text.{Text, str_eq}
use ostd_final.Shell.Logic.{is_space}

-- MAX_HISTORY and MAX_CMD_LEN
abbrev pub max_history : ℕ
max_history = 1024

abbrev pub max_cmd_len : ℕ
max_cmd_len = 1024

unfoldable pub hist_add : Text → List Text → List Text
hist_add [] h = h
hist_add (c ∷ t) h = if leb max_history (length h) then h else h ++ (c ∷ t) ∷ []

-- the loop of `load_history`, over the lines of the file as fgets delivers them, without line ends
unfoldable pub load_lines : (lines h : List Text) → List Text
load_lines [] h = h
load_lines ([] ∷ lines) h = load_lines lines h
load_lines ((c ∷ t) ∷ lines) h =
    let h' = hist_add (c ∷ t) h in
    let rest = load_lines lines h' in if leb max_history (length h') then h' else rest

-- `clear_history`
abbrev pub clear_history : List Text → List Text
clear_history h = []

-- NULL is `fail`
abbrev pub or_null : Option Text → Outcome Text
or_null none = fail
or_null (some t) = ok t

unfoldable pub get_history : ℕ → List Text → Option Text
get_history zero h = none
get_history (suc i) h = get_elem? h i

-- the text begins with the other one
unfoldable pub has_prefix : Text → Text → Bool
has_prefix [] t = true
has_prefix (a ∷ p) [] = false
has_prefix (a ∷ p) (b ∷ t) = a == b && has_prefix p t

-- strstr(t, substr) != NULL
unfoldable pub contains : Text → Text → Bool
contains substr [] = has_prefix substr []
contains substr (c ∷ t) = has_prefix substr (c ∷ t) || contains substr t

-- the last line with the text in it
unfoldable pub reverse_search_history : Text → List Text → Option Text
reverse_search_history substr [] = none
reverse_search_history substr (line ∷ more) = elim (reverse_search_history substr more) [
  | some found ↦ some found
  | none ↦ if contains substr line then some line else none
]

-- the bytes before the first `stop`, which strchr finds, or all
unfoldable pub before : (stop : ℕ) → Text → Text
before stop [] = []
before stop (c ∷ t) = if c == stop then [] else c ∷ before stop t

-- the loop that cuts white space off the end
unfoldable pub trim_end : Text → Text
trim_end [] = []
trim_end (c ∷ t) = elim (trim_end t) [ [] ↦ if is_space c then [] else c ∷ [] | d ∷ u ↦ c ∷ d ∷ u ]

abbrev pub is_digit : ℕ → Bool
is_digit c = leb b'0' c && leb c b'9'

-- atoi of a text that begins with digits
unfoldable pub digits_value : (value : ℕ) → Text → ℕ
digits_value value [] = value
digits_value value (c ∷ t) =
    let more = digits_value (10 * value + (c - b'0')) t in if is_digit c then more else value

unfoldable pub last_line : List Text → Option Text
last_line [] = none
last_line (line ∷ []) = some line
last_line (line ∷ next ∷ more) = last_line (next ∷ more)

-- what follows the `!`, without comment and white space at the end
unfoldable pub expand_event : Text → List Text → Outcome Text
expand_event [] h = fail
expand_event (c ∷ t) h =
    if str_eq (c ∷ t) (b'!' ∷ [])
    then or_null (last_line h)
    else if is_digit c
    then (if ltb (digits_value 0 (c ∷ t)) (2 ^ 31)
        then or_null (get_history (digits_value 0 (c ∷ t)) h)
        else undefined)
    else if c == b'?'
    then or_null (reverse_search_history (take (max_cmd_len - 1) (before b'?' t)) h)
    else fail

unfoldable pub expand_history : Text → List Text → Outcome Text
expand_history [] h = fail
expand_history (c ∷ t) h = if c == b'!' then expand_event (trim_end (before b'#' t)) h else fail
