-- ===== src/Shell/Plan/Safe.antt =====
-- What `execute_command` of oscdsh/src/exec.c runs.
use ostd_final.Common.{
  ◌≡◌, refl, ◌≤◌, Bool, true, false, ◌&&◌, inl, inr, List, [], ◌∷◌, ◌==◌, leb, length,
  length-take_le, arith, Bool-cases,
}
use ostd_final.Common.Exec.{Outcome, ok, fail, undefined, exited, unfinished}
use ostd_final.Common.Text.{Text, parts_from}
use ostd_final.Shell.Command.{
  Redirections, parse_single_cmd, is_builtin_cmd, is_pipe, max_pipes, split_by_pipe,
}
use ostd_final.Shell.Logic.{is_blank}
use ostd_final.Shell.History.{trim_end}
use ostd_final.Shell.Plan.{
  has_byte, without_comment, without_last, Action, refuse, run_sequence, only_redirect, run_single,
  run_pipeline, ends_with, any_empty, any_builtin, has_logic, single_action, parts_action,
  plain_action, segment_parts_action, segment_action, logic_action, background_action,
  command_action,
}

-- A pipeline has 2 to 16 parts, of which none is blank and none begins with a built-in command; a
-- built-in command does not run in the background; a sequence does not end with `&`.
abbrev pub IsSafe : Outcome Action → Type 0
IsSafe (ok refuse) = Unit {0}
IsSafe (ok (run_sequence line)) = ends_with b'&' line ≡ false
IsSafe (ok (only_redirect r)) = Unit {0}
IsSafe (ok (run_single [] r background)) = ⊥
IsSafe (ok (run_single (cmd ∷ args) r background)) = background && is_builtin_cmd cmd ≡ false
IsSafe (ok (run_pipeline cmds background)) =
    (2 ≤ length cmds)
    × (length cmds ≤ max_pipes)
    × (any_empty cmds ≡ false)
    × (any_builtin cmds ≡ false)
IsSafe fail = Unit {0}
IsSafe exited = Unit {0}
IsSafe undefined = Unit {0}
IsSafe unfinished = Unit {0}

single_action-IsSafe :
    (background : Bool) (p : Outcome (List Text × Redirections))
    → IsSafe (single_action background p)
unfolding single_action
single_action-IsSafe background (ok ([], r)) = tt
single_action-IsSafe background (ok (cmd ∷ args, r)) =
    elim (Bool-cases (background && is_builtin_cmd cmd)) [
      | inl builtin ↦ rw builtin tt
      | inr other ↦ rw other other
    ]
single_action-IsSafe background fail = tt
single_action-IsSafe background exited = tt
single_action-IsSafe background undefined = tt
single_action-IsSafe background unfinished = tt

parts_action-IsSafe :
    (background : Bool) (parts : List Text) → IsSafe (parts_action background parts)
unfolding parts_action
parts_action-IsSafe background [] = tt
parts_action-IsSafe background (cmd ∷ []) = elim (Bool-cases (is_blank cmd)) [
  | inl blank ↦ rw blank tt
  | inr filled ↦ rw filled (single_action-IsSafe background (parse_single_cmd cmd))
]
parts_action-IsSafe background (cmd ∷ next ∷ more) =
    elim (Bool-cases (leb max_pipes (length (next ∷ more)))) [
      | inl many ↦ rw many tt
      | inr few ↦ rw few (elim (Bool-cases (any_empty (cmd ∷ next ∷ more))) [
        | inl blank ↦ rw blank tt
        | inr filled ↦ rw filled (elim (Bool-cases (any_builtin (cmd ∷ next ∷ more))) [
          | inl builtin ↦ rw builtin tt
          | inr other ↦ rw other (omega arith, ground arith, filled, other)
        ])
      ])
    ]

plain_action-IsSafe : (background : Bool) (line : Text) → IsSafe (plain_action background line)
unfolding plain_action
plain_action-IsSafe background line = elim (Bool-cases (has_byte b'&' line)) [
  | inl more ↦ rw more tt
  | inr single ↦ rw single (elim (Bool-cases (background && length line == 0)) [
    | inl empty ↦ rw empty tt
    | inr filled ↦ rw filled (parts_action-IsSafe background (parts_from is_pipe [] line))
  ])
]

logic_action-IsSafe : (line : Text) → IsSafe (logic_action line)
unfolding logic_action
logic_action-IsSafe line = elim (Bool-cases (ends_with b'&' line)) [
  | inl background ↦ rw background tt
  | inr plain ↦ rw plain plain
]

background_action-IsSafe : (line : Text) → IsSafe (background_action line)
unfolding background_action
background_action-IsSafe line = elim (Bool-cases (ends_with b'&' line)) [
  | inl background ↦ rw background (plain_action-IsSafe true (trim_end (without_last line)))
  | inr plain ↦ rw plain (plain_action-IsSafe false line)
]

-- A segment of a sequence runs in the foreground and is no sequence itself; a pipeline has 2 to 16 parts,
-- of which none begins with a built-in command. Its parts may be blank.
abbrev pub IsSafeSegment : Outcome Action → Type 0
IsSafeSegment (ok refuse) = Unit {0}
IsSafeSegment (ok (run_sequence line)) = ⊥
IsSafeSegment (ok (only_redirect r)) = Unit {0}
IsSafeSegment (ok (run_single [] r background)) = ⊥
IsSafeSegment (ok (run_single (cmd ∷ args) r background)) = background ≡ false
IsSafeSegment (ok (run_pipeline cmds background)) =
    (2 ≤ length cmds)
    × (length cmds ≤ max_pipes)
    × (any_builtin cmds ≡ false)
    × (background ≡ false)
IsSafeSegment fail = Unit {0}
IsSafeSegment exited = Unit {0}
IsSafeSegment undefined = Unit {0}
IsSafeSegment unfinished = Unit {0}

single_action-IsSafeSegment :
    (p : Outcome (List Text × Redirections)) → IsSafeSegment (single_action false p)
unfolding single_action
single_action-IsSafeSegment (ok ([], r)) = tt
single_action-IsSafeSegment (ok (cmd ∷ args, r)) = refl
single_action-IsSafeSegment fail = tt
single_action-IsSafeSegment exited = tt
single_action-IsSafeSegment undefined = tt
single_action-IsSafeSegment unfinished = tt

segment_parts-IsSafeSegment :
    (parts : List Text) → length parts ≤ max_pipes → IsSafeSegment (segment_parts_action parts)
unfolding segment_parts_action
segment_parts-IsSafeSegment [] h = tt
segment_parts-IsSafeSegment (cmd ∷ []) h = single_action-IsSafeSegment (parse_single_cmd cmd)
segment_parts-IsSafeSegment (cmd ∷ next ∷ more) h =
    elim (Bool-cases (any_builtin (cmd ∷ next ∷ more))) [
      | inl builtin ↦ rw builtin tt
      | inr other ↦ rw other (omega arith, h, other, refl)
    ]

segment_action-IsSafeSegment : (segment : Text) → IsSafeSegment (segment_action segment)
unfolding segment_action split_by_pipe
segment_action-IsSafeSegment segment =
    segment_parts-IsSafeSegment (split_by_pipe segment)
      (length-take_le max_pipes (parts_from is_pipe [] segment))

command_action_lem : (line : Text) → IsSafe (command_action line)
unfolding command_action
command_action_lem line =
    let text = without_comment line in
    elim (Bool-cases (has_logic text)) [
      | inl logic ↦ rw logic (logic_action-IsSafe (trim_end text))
      | inr plain ↦ rw plain (background_action-IsSafe (trim_end text))
    ]

-- The pipeline that `execute_command` makes of a line without `&&` and `||` has 2 to 16 parts, of which
-- none is blank and none begins with a built-in command; its command has a name, and is no built-in one
-- if it runs in the background. A sequence with `&&` or `||` does not end with `&`. A segment of a
-- sequence runs in the foreground: its command has a name, and its pipeline has 2 to 16 parts, of which
-- none begins with a built-in command; that none is blank is not said of segments.
pub command_action-IsSafe :
    (line segment : Text) → IsSafe (command_action line) × IsSafeSegment (segment_action segment)
command_action-IsSafe line segment = (command_action_lem line, segment_action-IsSafeSegment segment)
