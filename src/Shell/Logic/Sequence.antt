-- ===== src/Shell/Logic/Sequence.antt =====
-- `execute_logical_sequence` of oscdsh/src/exec.c against the meaning of `&&` and `||`.
use ostd_final.Common.{
  ℕ, ◌≡◌, ◌≤◌, refl, sym, ap, Bool, true, false, inl, inr, List, [], ◌∷◌, ◌==◌, leb, length, arith,
  Bool-cases, if◌then◌else◌,
}
use ostd_final.Common.Exec.{ok}
use ostd_final.Common.Text.{Text}
use ostd_final.Shell.Logic.{
  Operator, op_none, op_and, op_or, Segment, split_by_logic, is_blank, any_blank, should_execute,
  run_segments, execute_logical_sequence, max_sequence,
}

-- A line as an expression: the operators bind alike, to the left.
pub data Line : Type 0 where
  one : Text → Line
  both either following : Line → Text → Line

abbrev pub behind : Operator → Line → Text → Line
behind op_none l t = following l t
behind op_and l t = both l t
behind op_or l t = either l t

abbrev pub line_from : Line → Operator → List Segment → Line
line_from l before [] = l
line_from l before (g ∷ more) = line_from (behind before l g.text) g.operator more

-- the expression of a line that has a segment
abbrev pub line_of : Segment → List Segment → Line
line_of g more = line_from (one g.text) g.operator more

module _ {S : Type 0} (execute : Text → S → ℕ × S) where
  -- a segment that succeeds or fails
  abbrev step : Text → S → Bool × S
  step t s = let (status, s') = execute t s in (status == 0, s')

  -- Whether the line succeeds, and the state behind it: the second part of `&&` runs after a success,
  -- the second part of `||` after a failure.
  abbrev pub meaning : Line → S → Bool × S
  meaning (one t) s = step t s
  meaning (both l t) s =
      let (success, s') = meaning l s in if success then step t s' else (false, s')
  meaning (either l t) s =
      let (success, s') = meaning l s in if success then (true, s') else step t s'
  meaning (following l t) s = let (success, s') = meaning l s in step t s'

  skipped :
      (before : Operator) (last_status : ℕ) (l : Line) (t : Text) (s0 s : S)
      → should_execute before last_status ≡ false
      → meaning l s0 ≡ (last_status == 0, s)
      → meaning (behind before l t) s0 ≡ (last_status == 0, s)
  unfolding should_execute
  skipped op_none last_status l t s0 s h e = cc
  skipped op_and last_status l t s0 s h e = rw e (rw h (ap (λ b. (b, s)) refl))
  skipped op_or last_status l t s0 s h e =
      let success : last_status == 0 ≡ true = ground arith in rw (e, success) refl

  executed :
      (before : Operator) (last_status : ℕ) (l : Line) (t : Text) (s0 s : S)
      → should_execute before last_status ≡ true
      → meaning l s0 ≡ (last_status == 0, s)
      → meaning (behind before l t) s0 ≡ step t s
  unfolding should_execute
  executed op_none last_status l t s0 s h e = rw e refl
  executed op_and last_status l t s0 s h e = rw (e, h) refl
  executed op_or last_status l t s0 s h e =
      let failure : last_status == 0 ≡ false = ground arith in rw (e, failure) refl

  run_segments_lem :
      (more : List Segment) (before : Operator) (last_status : ℕ) (l : Line) (s0 s : S)
      → any_blank more ≡ false
      → meaning l s0 ≡ (last_status == 0, s)
      → meaning (line_from l before more) s0
        ≡ (let (status, s') = run_segments execute before last_status more s in (status == 0, s'))
  unfolding run_segments any_blank
  run_segments_lem [] before last_status l s0 s b e = e
  run_segments_lem (g ∷ more) before last_status l s0 s b e =
      let plain : is_blank g.text ≡ false = ground arith in
      let rest : any_blank more ≡ false = ground arith in
      let next = behind before l g.text in
      elim (Bool-cases (should_execute before last_status)) [
        | inl runs ↦
            let (status, s') = execute g.text s in
            rw (runs, plain)
              (run_segments_lem more g.operator status next s0 s' rest
                (executed before last_status l g.text s0 s runs e))
        | inr skips ↦ rw skips (
            run_segments_lem more g.operator last_status next s0 s rest
              (skipped before last_status l g.text s0 s skips e))
      ]

  -- The loop from its start.
  run_line :
      (g : Segment) (more : List Segment) (s : S)
      → any_blank (g ∷ more) ≡ false
      → (run_segments execute op_none 0 (g ∷ more) s).1 ≡ (meaning (line_of g more) s).1
  unfolding run_segments any_blank should_execute
  run_line g more s b =
      let plain : is_blank g.text ≡ false = ground arith in
      let rest : any_blank more ≡ false = ground arith in
      let (status, s') = execute g.text s in
      rw plain
        (sym (ap (λ r. r.1) (run_segments_lem more g.operator status (one g.text) s s' rest refl)))

  -- For a line of at most 16 segments, the first of them `g`, `execute_logical_sequence` returns 1 and
  -- runs nothing if one is blank; otherwise it returns 0, whatever the segments return, and leaves the
  -- state that the line leaves as an expression, whose operators bind to the left.
  pub execute_logical_sequence_lem :
      (line : Text) (g : Segment) (more : List Segment) (s : S)
      → split_by_logic line ≡ g ∷ more
      → length (g ∷ more) ≤ max_sequence
      → execute_logical_sequence execute line s
        ≡ (if any_blank (g ∷ more) then (ok 1, s) else (ok 0, (meaning (line_of g more) s).1))
  unfolding execute_logical_sequence
  execute_logical_sequence_lem line g more s split few =
      let fits : leb (length (g ∷ more)) max_sequence ≡ true = ground arith in
      rw (split, fits)
        (elim (Bool-cases (any_blank (g ∷ more))) [
          | inl blank ↦ rw blank refl
          | inr filled ↦ rw filled (ap (λ t. (ok 0, t)) (run_line g more s filled))
        ])
