-- ===== src/Shell/Tests/Lines.antt =====
-- Lines on which the lemmas about oscdsh/src/exec.c and oscdsh/src/history.c run.
use ostd_final.Common.{ℕ, ◌+◌, ◌≡◌, ◌⊎◌, refl, false, List, [], ◌∷◌, arith, if◌then◌else◌}
use ostd_final.Common.Exec.{ok, fail}
use ostd_final.Common.Text.{Text, codes, tokens, parts_from, not_empty, str_eq}
use ostd_final.Shell.Logic.{
  Segment, op_and, op_or, op_none, split_by_logic, split_from, operator_at, last_segment, any_blank,
  execute_logical_sequence,
}
use ostd_final.Shell.Logic.Split.{join_segments, AllPlain, join-split_by_logic}
use ostd_final.Shell.Logic.Sequence.{meaning, line_of, execute_logical_sequence_lem}
use ostd_final.Shell.Plan.{
  command_action, segment_action, segment_parts_action, run_pipeline, any_builtin, starts_builtin,
}
use ostd_final.Shell.Command.{split_by_pipe, is_builtin_cmd, is_one_of}
use ostd_final.Shell.Plan.Safe.{IsSafe, IsSafeSegment, command_action-IsSafe}
use ostd_final.Shell.History.{expand_history}
use ostd_final.Shell.History.Recent.{AllLack, Latest, expand_history-Latest}

-- `a&&b||c`
abbrev three_commands : Text
three_commands = b'a' ∷ b'&' ∷ b'&' ∷ b'b' ∷ b'|' ∷ b'|' ∷ b'c' ∷ []

abbrev first_command : Segment
first_command = record { text = b'a' ∷ []; operator = op_and }

abbrev other_commands : List Segment
other_commands =
    record { text = b'b' ∷ []; operator = op_or }
    ∷ record { text = b'c' ∷ []; operator = op_none }
    ∷ []

three_split : split_by_logic three_commands ≡ first_command ∷ other_commands
unfolding split_by_logic split_from operator_at last_segment
three_split = refl

-- commands that count how many have run, of which the second fails
abbrev counted : Text → ℕ → ℕ × ℕ
counted t n = (n, n + 1)

execute_logical_sequence_lem_example : execute_logical_sequence counted three_commands 0 ≡ (
    if any_blank (first_command ∷ other_commands)
    then (ok 1, 0)
    else (ok 0, (meaning counted (line_of first_command other_commands) 0).1))
execute_logical_sequence_lem_example =
    execute_logical_sequence_lem counted three_commands first_command other_commands 0 three_split
      (omega arith)

join-split_by_logic_example :
    (join_segments (split_by_logic three_commands) ≡ three_commands)
    × AllPlain (split_by_logic three_commands)
join-split_by_logic_example = join-split_by_logic three_commands

abbrev old_lines : List Text
old_lines = three_commands ∷ (b'l' ∷ b's' ∷ []) ∷ []

expand_history-Latest_example :
    ((expand_history (b'!' ∷ b'?' ∷ b'b' ∷ b'?' ∷ []) old_lines ≡ fail)
      × AllLack (b'b' ∷ []) old_lines)
    ⊎ ((line : Text) × (expand_history (b'!' ∷ b'?' ∷ b'b' ∷ b'?' ∷ []) old_lines ≡ ok line)
        × Latest (b'b' ∷ []) line old_lines)
expand_history-Latest_example =
    expand_history-Latest (b'b' ∷ []) old_lines (refl, refl, tt) (omega arith)

-- `cat a|sort &`
abbrev background_line : Text
background_line =
    b'c' ∷ b'a' ∷ b't' ∷ b' ' ∷ b'a' ∷ b'|' ∷ b's' ∷ b'o' ∷ b'r' ∷ b't' ∷ b' ' ∷ b'&' ∷ []

abbrev blank_part : Text
blank_part = codes "ls | | wc"

command_action-IsSafe_example :
    IsSafe (command_action background_line) × IsSafeSegment (segment_action blank_part)
command_action-IsSafe_example = command_action-IsSafe background_line blank_part

-- as a segment of a sequence, a pipeline with a blank part is run
blank_part_runs :
    segment_action blank_part ≡ ok (run_pipeline (codes "ls " ∷ codes " " ∷ codes " wc" ∷ []) false)
unfolding segment_action segment_parts_action split_by_pipe parts_from any_builtin starts_builtin
    is_builtin_cmd is_one_of str_eq tokens not_empty
blank_part_runs = refl
