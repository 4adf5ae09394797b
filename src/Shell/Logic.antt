-- ===== src/Shell/Logic.antt =====
-- oscdsh/src/exec.c, the lines with `&&` and `||`. What runs a segment between them, `execute`, forks
-- processes; it is a parameter with its state, and returns an exit status.
pub mod Split
pub mod Sequence
use ostd_final.Common.{
  ℕ, Bool, true, false, not, ◌&&◌, ◌||◌, List, [], ◌∷◌, ◌++◌, ◌==◌, leb, length, if◌then◌else◌,
}
use ostd_final.Common.Exec.{Exec, ok, undefined}
use ostd_final.Common.Text.{Text}

-- MAX_SEQUENCE
abbrev pub max_sequence : ℕ
max_sequence = 16

-- OP_NONE, OP_AND, OP_OR
pub data Operator : Type 0 where
  op_none op_and op_or : Operator

-- segments[n] and operators[n]
pub record Segment : Type 0 where
  pub text : Text
  pub operator : Operator

-- the operator that two bytes are
unfoldable pub operator_at : ℕ → ℕ → Operator
operator_at a b =
    if a == b'&' && b == b'&' then op_and else if a == b'|' && b == b'|' then op_or else op_none

-- the segment that the end of the line closes, if it is not empty
unfoldable pub last_segment : Text → List Segment
last_segment [] = []
last_segment (c ∷ t) = record { text = c ∷ t; operator = op_none } ∷ []

-- the loop of `split_by_logic`; the open segment has the bytes `start` so far
unfoldable pub split_from : (start : Text) → Text → List Segment
unfolding last_segment
split_from start [] = last_segment start
split_from start (a ∷ []) = last_segment (start ++ a ∷ [])
split_from start (a ∷ b ∷ t) = elim (operator_at a b) [
  | op_none ↦ split_from (start ++ a ∷ []) (b ∷ t)
  | op_and ↦ record { text = start; operator = op_and } ∷ split_from [] t
  | op_or ↦ record { text = start; operator = op_or } ∷ split_from [] t
]

unfoldable pub split_by_logic : Text → List Segment
split_by_logic line = split_from [] line

-- isspace
abbrev pub is_space : ℕ → Bool
is_space c = c == 32 || leb 9 c && leb c 13

unfoldable pub is_blank : Text → Bool
is_blank [] = true
is_blank (c ∷ t) = is_space c && is_blank t

unfoldable pub any_blank : List Segment → Bool
any_blank [] = false
any_blank (g ∷ more) = is_blank g.text || any_blank more

-- whether a segment behind an operator runs
unfoldable pub should_execute : Operator → (last_status : ℕ) → Bool
should_execute op_none last_status = true
should_execute op_and last_status = last_status == 0
should_execute op_or last_status = not (last_status == 0)

module _ {S : Type 0} (execute : Text → S → ℕ × S) where
  -- the loop over the segments, behind the operator `before`: the last status and the state
  unfoldable pub run_segments : (before : Operator) → (last_status : ℕ) → List Segment → S → ℕ × S
  run_segments before last_status [] s = (last_status, s)
  run_segments before last_status (g ∷ more) s =
      if not (should_execute before last_status)
      then run_segments g.operator last_status more s
      else if is_blank g.text
      then run_segments g.operator 0 more s
      else let (status, s') = execute g.text s in run_segments g.operator status more s'

  -- `execute_logical_sequence`: the result is 1 for a blank segment, and 0 otherwise. The arrays of
  -- `split_by_logic` have 16 places.
  unfoldable pub execute_logical_sequence : Text → Exec S ℕ
  execute_logical_sequence line s =
      let segments = split_by_logic line in
      if not (leb (length segments) max_sequence)
      then (undefined, s)
      else if any_blank segments
      then (ok 1, s)
      else (ok 0, (run_segments op_none 0 segments s).1)
