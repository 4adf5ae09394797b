-- ===== src/Shell/Plan.antt =====
-- `execute_command` of oscdsh/src/exec.c, and `execute_pipeline_or_single` for the segments of a sequence,
-- up to the point where processes start: what they then do with the line.
pub mod Safe
pub mod Cut
use ostd_final.Common.{
  ℕ, ◌-◌, Bool, true, false, ◌&&◌, ◌||◌, Option, none, some, List, [], ◌∷◌, ◌==◌, leb, length, take,
  if◌then◌else◌,
}
use ostd_final.Common.Exec.{Outcome, ok, fail, undefined, exited, unfinished}
use ostd_final.Common.Text.{Text, parts_from, tokens}
use ostd_final.Shell.Logic.{is_blank}
use ostd_final.Shell.History.{before, trim_end, contains, max_cmd_len}
use ostd_final.Shell.Command.{
  Redirections, parse_single_cmd, is_builtin_cmd, is_pipe, is_gap, split_by_pipe, max_pipes,
}

-- What follows: the result -1, a sequence with `&&` and `||`, the file of a redirection without a
-- command (if there is one), a command, or a pipeline.
pub data Action : Type 0 where
  refuse : Action
  run_sequence : Text → Action
  only_redirect : Option Redirections → Action
  run_single : List Text → Redirections → (background : Bool) → Action
  run_pipeline : List Text → (background : Bool) → Action

-- the loop that cuts blanks and tabs off the end
unfoldable pub trim_gaps : Text → Text
trim_gaps [] = []
trim_gaps (c ∷ t) = elim (trim_gaps t) [ [] ↦ if is_gap c then [] else c ∷ [] | d ∷ u ↦ c ∷ d ∷ u ]

-- strchr(line, c) != NULL
unfoldable pub has_byte : ℕ → Text → Bool
has_byte c [] = false
has_byte c (d ∷ t) = d == c || has_byte c t

unfoldable pub without_comment : Text → Text
without_comment line = if has_byte b'#' line then trim_gaps (before b'#' line) else line

unfoldable pub ends_with : ℕ → Text → Bool
ends_with c [] = false
ends_with c (d ∷ []) = d == c
ends_with c (d ∷ e ∷ t) = ends_with c (e ∷ t)

-- the text without its last byte
unfoldable pub without_last : Text → Text
without_last [] = []
without_last (c ∷ []) = []
without_last (c ∷ d ∷ t) = c ∷ without_last (d ∷ t)

unfoldable pub has_logic : Text → Bool
has_logic line = contains (b'&' ∷ b'&' ∷ []) line || contains (b'|' ∷ b'|' ∷ []) line

unfoldable pub any_empty : List Text → Bool
any_empty [] = false
any_empty (cmd ∷ more) = is_blank cmd || any_empty more

-- the first word of a part is a built-in command
unfoldable pub starts_builtin : List Text → Bool
starts_builtin [] = false
starts_builtin (word ∷ more) = is_builtin_cmd word

unfoldable pub any_builtin : List Text → Bool
any_builtin [] = false
any_builtin (cmd ∷ more) =
    starts_builtin (tokens is_gap (take (max_cmd_len - 1) cmd)) || any_builtin more

-- one command, parsed
unfoldable pub single_action :
    (background : Bool) → Outcome (List Text × Redirections) → Outcome Action
single_action background fail = ok (only_redirect none)
single_action background (ok ([], r)) = ok (only_redirect (some r))
single_action background (ok (cmd ∷ args, r)) =
    if background && is_builtin_cmd cmd
    then ok refuse
    else ok (run_single (cmd ∷ args) r background)
single_action background exited = exited
single_action background undefined = undefined
single_action background unfinished = unfinished

-- the parts between pipes
unfoldable pub parts_action : (background : Bool) → List Text → Outcome Action
unfolding single_action
parts_action background [] = ok refuse
parts_action background (cmd ∷ []) =
    if is_blank cmd then ok refuse else single_action background (parse_single_cmd cmd)
parts_action background (cmd ∷ next ∷ more) =
    if leb max_pipes (length (next ∷ more))
    then ok refuse
    else if any_empty (cmd ∷ next ∷ more)
    then ok refuse
    else if any_builtin (cmd ∷ next ∷ more)
    then ok refuse
    else ok (run_pipeline (cmd ∷ next ∷ more) background)

-- the parts of a segment of a sequence; that a part may be blank is not looked at here
unfoldable pub segment_parts_action : List Text → Outcome Action
unfolding single_action
segment_parts_action [] = ok refuse
segment_parts_action (cmd ∷ []) = single_action false (parse_single_cmd cmd)
segment_parts_action (cmd ∷ next ∷ more) =
    if any_builtin (cmd ∷ next ∷ more)
    then ok refuse
    else ok (run_pipeline (cmd ∷ next ∷ more) false)

-- `execute_pipeline_or_single`, which runs each segment of a sequence
unfoldable pub segment_action : Text → Outcome Action
segment_action segment = segment_parts_action (split_by_pipe segment)

-- a line without `&&` and `||`, from which the `&` at the end has been taken
unfoldable pub plain_action : (background : Bool) → Text → Outcome Action
plain_action background line =
    if has_byte b'&' line
    then ok refuse
    else if background && length line == 0
    then ok refuse
    else parts_action background (parts_from is_pipe [] line)

unfoldable pub logic_action : Text → Outcome Action
logic_action line = if ends_with b'&' line then ok refuse else ok (run_sequence line)

unfoldable pub background_action : Text → Outcome Action
background_action line =
    if ends_with b'&' line
    then plain_action true (trim_end (without_last line))
    else plain_action false line

unfoldable pub command_action : Text → Outcome Action
command_action line =
    let text = without_comment line in
    if has_logic text then logic_action (trim_end text) else background_action (trim_end text)
