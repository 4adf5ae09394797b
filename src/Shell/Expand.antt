-- ===== src/Shell/Expand.antt =====
-- `expand_env` of oscdsh/src/main.c: `$$`, `$?`, `$name` and `${name}` in a line are replaced in a
-- buffer of MAX_CMD_LEN bytes. The texts hold no NUL byte.
pub mod Closed
pub mod Printed
use ostd_final.Common.{
  ℕ, zero, suc, ◌+◌, ◌-◌, ◌/◌, ◌%◌, Bool, true, false, ◌&&◌, ◌||◌, Option, none, some, [], ◌∷◌,
  ◌++◌, ◌==◌, leb, ltb, length, take, if◌then◌else◌,
}
use ostd_final.Common.Exec.{Outcome, ok, undefined, unfinished}
use ostd_final.Common.Text.{Text, cut_at}
use ostd_final.Shell.History.{is_digit, max_cmd_len}

-- What the expansion takes from outside: getenv, getpid and `last_exit_code`.
pub record Environment : Type 0 where
  pub getenv : Text → Option Text
  pub pid : ℕ
  pub last_exit_code : ℕ

-- the digits of n in front of `behind`, in as many rounds as there may be digits
unfoldable pub digits_before : (rounds n : ℕ) → (behind : Text) → Text
digits_before zero n behind = behind
digits_before (suc r) n behind =
    let digit = b'0' + n % 10 in
    let more = digits_before r (n / 10) (digit ∷ behind) in
    if ltb n 10 then digit ∷ behind else more

-- snprintf("%d") of a number that is not negative; an int has ten digits at most
unfoldable pub decimal : ℕ → Text
decimal n = digits_before 10 n []

-- isalnum, or an underscore
abbrev pub is_name_byte : ℕ → Bool
is_name_byte c = is_digit c || leb b'A' c && leb c b'Z' || leb b'a' c && leb c b'z' || c == b'_'

-- What one round of the loop finds at the front of the line: a byte, `$$`, `$?`, a variable, a `$` that
-- begins none of these, or a `${` that is not closed.
pub data Piece : Type 0 where
  plain : ℕ → Piece
  process_id exit_code lone_dollar open_brace : Piece
  variable : Text → Piece

-- the local array `varname`
abbrev pub variable_name : Text → Text
variable_name = take 127

-- the bytes of a name in front of a text, and what follows them
unfoldable pub split_name : Text → Text × Text
split_name [] = ([], [])
split_name (c ∷ t) =
    let (name, rest) = split_name t in if is_name_byte c then (c ∷ name, rest) else ([], c ∷ t)

-- behind `${`
unfoldable pub braced_piece : Text → (Text × Option Text) → Piece × Text
braced_piece t (name, none) = (open_brace, t)
braced_piece t (name, some rest) = (variable (variable_name name), rest)

unfoldable pub named_piece : Text × Text → Piece × Text
named_piece ([], rest) = (lone_dollar, rest)
named_piece (c ∷ name, rest) = (variable (variable_name (c ∷ name)), rest)

-- behind `$`
unfoldable pub dollar_piece : Text → Piece × Text
unfolding braced_piece named_piece
dollar_piece [] = (lone_dollar, [])
dollar_piece (c ∷ t) =
    if c == b'$'
    then (process_id, t)
    else if c == b'?'
    then (exit_code, t)
    else if c == b'{'
    then braced_piece t (cut_at (λ d. d == b'}') t)
    else named_piece (split_name (c ∷ t))

unfoldable pub first_piece : ℕ → Text → Piece × Text
first_piece c t = if c == b'$' then dollar_piece t else (plain c, t)

-- `if (ri + len < MAX_CMD_LEN)`: a value that does not fit is left out
abbrev pub append_fitting : (out value : Text) → Text
append_fitting out value = if ltb (length out + length value) max_cmd_len then out ++ value else out

-- `if (val)`
abbrev pub append_value : (out : Text) → Option Text → Text
append_value out none = out
append_value out (some value) = append_fitting out value

module _ (e : Environment) where
  -- what a round writes to the buffer, whose used part is `out`
  unfoldable pub put_piece : (out : Text) → Piece → Text
  put_piece out (plain c) = out ++ c ∷ []
  put_piece out process_id = append_fitting out (decimal e.pid)
  put_piece out exit_code = append_fitting out (decimal e.last_exit_code)
  put_piece out lone_dollar = out ++ b'$' ∷ []
  put_piece out open_brace = out ++ b'$' ∷ b'{' ∷ []
  put_piece out (variable name) = append_value out (e.getenv name)

  -- result[ri] = '\0'
  unfoldable pub terminated : (out : Text) → Outcome Text
  terminated out = if ltb (length out) max_cmd_len then ok out else undefined

  -- the loop over the line
  unfoldable pub expand_from : (rounds : ℕ) → (out : Text) → Text → Outcome Text
  unfolding terminated
  expand_from zero out t = unfinished
  expand_from (suc n) out [] = terminated out
  expand_from (suc n) out (c ∷ t) =
      let (p, rest) = first_piece c t in
      let more = expand_from n (put_piece out p) rest in
      if ltb (length out) (max_cmd_len - 1) then more else terminated out

  unfoldable pub expand_env : Text → Outcome Text
  expand_env line = expand_from (length line + 1) [] line
