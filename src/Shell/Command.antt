-- ===== src/Shell/Command.antt =====
-- oscdsh/src/exec.c, what a line means before anything is run: comment, background, pipes, words and
-- redirections. A number in front of a redirection that does not fit an int is outside what atoi
-- defines.
use ostd_final.Common.{
  ℕ, ◌-◌, ◌^◌, Bool, true, false, not, ◌||◌, Option, none, some, List, [], ◌∷◌, ◌==◌, ltb, take,
  if◌then◌else◌,
}
use ostd_final.Common.Exec.{Outcome, ok, fail, undefined, exited, unfinished}
use ostd_final.Common.Text.{Text, str_eq, parts_from, tokens}
use ostd_final.Shell.History.{is_digit, digits_value}

-- MAX_ARGS and MAX_PIPES
abbrev pub max_args : ℕ
max_args = 64

abbrev pub max_pipes : ℕ
max_pipes = 16

-- the names that `is_builtin_cmd` compares with
abbrev pub builtin_names : List Text
builtin_names =
    (b'h' ∷ b'e' ∷ b'l' ∷ b'l' ∷ b'o' ∷ [])
    ∷ (b'e' ∷ b'x' ∷ b'i' ∷ b't' ∷ [])
    ∷ (b'c' ∷ b'd' ∷ [])
    ∷ (b't' ∷ b'y' ∷ b'p' ∷ b'e' ∷ [])
    ∷ (b'h' ∷ b'i' ∷ b's' ∷ b't' ∷ b'o' ∷ b'r' ∷ b'y' ∷ [])
    ∷ (b'a' ∷ b'l' ∷ b'i' ∷ b'a' ∷ b's' ∷ [])
    ∷ (b'u' ∷ b'n' ∷ b'a' ∷ b'l' ∷ b'i' ∷ b'a' ∷ b's' ∷ [])
    ∷ (b'p' ∷ b'w' ∷ b'd' ∷ [])
    ∷ (b'e' ∷ b'x' ∷ b'p' ∷ b'o' ∷ b'r' ∷ b't' ∷ [])
    ∷ (b'j' ∷ b'o' ∷ b'b' ∷ b's' ∷ [])
    ∷ (b't' ∷ b'r' ∷ b'u' ∷ b'e' ∷ [])
    ∷ (b'f' ∷ b'a' ∷ b'l' ∷ b's' ∷ b'e' ∷ [])
    ∷ (b'm' ∷ b'o' ∷ b'n' ∷ b'i' ∷ b't' ∷ b'o' ∷ b'r' ∷ [])
    ∷ []

unfoldable pub is_one_of : List Text → Text → Bool
is_one_of [] cmd = false
is_one_of (name ∷ more) cmd = str_eq cmd name || is_one_of more cmd

unfoldable pub is_builtin_cmd : Text → Bool
is_builtin_cmd cmd = is_one_of builtin_names cmd

-- `>`, `>>` and `<`
pub data Direction : Type 0 where
  output append_output input : Direction

-- infile, outfile, append, infd and outfd
pub record Redirections : Type 0 where
  pub infile : Option Text
  pub outfile : Option Text
  pub append : Bool
  pub infd : ℕ
  pub outfd : ℕ

abbrev pub no_redirections : Redirections
no_redirections = record { infile = none; outfile = none; append = false; infd = 0; outfd = 1 }

abbrev pub redirect : Direction → (fd : ℕ) → Text → Redirections → Redirections
redirect output fd file r = record r { outfile = some file; outfd = fd; append = false }
redirect append_output fd file r = record r { outfile = some file; outfd = fd; append = true }
redirect input fd file r = record r { infile = some file; infd = fd }

-- the descriptor of a redirection without a number
abbrev pub default_fd : Direction → ℕ
default_fd output = 1
default_fd append_output = 1
default_fd input = 0

unfoldable pub direction_of : Text → Option Direction
direction_of t =
    if str_eq t (b'>' ∷ [])
    then some output
    else if str_eq t (b'>' ∷ b'>' ∷ [])
    then some append_output
    else if str_eq t (b'<' ∷ [])
    then some input
    else none

-- What a word is: an argument, a redirection, or a number in front of an operator that is no
-- descriptor or no int.
pub data Word : Type 0 where
  argument bad_descriptor too_large : Word
  redirection : Direction → ℕ → Word

abbrev pub word_with : ℕ → Option Direction → Word
word_with fd none = argument
word_with fd (some d) = redirection d fd

abbrev pub word_without : Option Direction → Word
word_without none = argument
word_without (some d) = redirection d (default_fd d)

-- what lies behind the digits
unfoldable pub behind_digits : Text → Text
behind_digits [] = []
behind_digits (c ∷ t) = if is_digit c then behind_digits t else c ∷ t

unfoldable pub numbered_word : (value : ℕ) → (op : Text) → Word
numbered_word value [] = argument
numbered_word value (c ∷ t) =
    if not (ltb value (2 ^ 31))
    then too_large
    else if ltb 2 value
    then bad_descriptor
    else word_with value (direction_of (c ∷ t))

unfoldable pub word_of : Text → Word
unfolding numbered_word
word_of [] = argument
word_of (c ∷ t) =
    if is_digit c
    then numbered_word (digits_value 0 (c ∷ t)) (behind_digits (c ∷ t))
    else word_without (direction_of (c ∷ t))

abbrev pub with_argument :
    Text → Outcome (List Text × Redirections) → Outcome (List Text × Redirections)
with_argument word (ok (args, r)) = ok (word ∷ args, r)
with_argument word fail = fail
with_argument word exited = exited
with_argument word undefined = undefined
with_argument word unfinished = unfinished

-- The loop over the words. `fail` is a syntax error, for which no redirection is stored.
unfoldable pub parse_words : List Text → Redirections → Outcome (List Text × Redirections)
parse_words [] r = ok ([], r)
parse_words (word ∷ []) r = elim (word_of word) [
  | argument ↦ ok (word ∷ [], r)
  | bad_descriptor ↦ fail
  | too_large ↦ undefined
  | redirection d fd ↦ fail
]
parse_words (word ∷ next ∷ more) r = elim (word_of word) [
  | argument ↦ with_argument word (parse_words (next ∷ more) r)
  | bad_descriptor ↦ fail
  | too_large ↦ undefined
  | redirection d fd ↦ parse_words more (redirect d fd next r)
]

-- the separators of strtok
abbrev pub is_gap : ℕ → Bool
is_gap c = c == 32 || c == 9

unfoldable pub parse_tokens : List Text → Outcome (List Text × Redirections)
parse_tokens [] = fail
parse_tokens (word ∷ more) = parse_words (word ∷ more) no_redirections

-- `parse_single_cmd`: the arguments and the redirections. The call returns -1 also when no argument
-- is left, but has then stored the redirections.
unfoldable pub parse_single_cmd : Text → Outcome (List Text × Redirections)
parse_single_cmd cmdline = parse_tokens (take (max_args - 1) (tokens is_gap cmdline))

abbrev pub is_pipe : ℕ → Bool
is_pipe c = c == b'|'

-- `split_by_pipe`: what lies behind the 16th pipe is dropped
unfoldable pub split_by_pipe : Text → List Text
split_by_pipe line = take max_pipes (parts_from is_pipe [] line)
