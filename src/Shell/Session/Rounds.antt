-- ===== src/Shell/Session/Rounds.antt =====
-- The rounds of the main loop of oscdsh/src/main.c.
use ostd_final.Common.{
  ℕ, ◌≤◌, ◌<◌, ◌≡◌, refl, ap, inl, inr, ◌⊎◌, Bool, true, false, Option, none, some, List, [], ◌∷◌,
  length, arith, length-take_le, take_all,
}
use ostd_final.Common.Exec.{Outcome, Exec, ok, fail, exited, undefined, unfinished, and_then}
use ostd_final.Common.Int.{ℤ, pos, negsuc}
use ostd_final.Common.Text.{Text}
use ostd_final.Shell.History.{hist_add, max_cmd_len}
use ostd_final.Shell.Expand.{expand_env}
use ostd_final.Shell.Expand.Closed.{IsString, expand_env_bounds}
use ostd_final.Shell.Session.Aliases.{expand_aliases-resolved}
use ostd_final.Shell.Session.{
  alias_of, first_word, line_of, Session, Loop, skip_space, from_history, expand_aliases,
  max_expand, not_blank, or_continue, exit_code_of, Event, typed, end_of_input, interrupted,
  signalled_read, run_line, enter, main_loop, environment_of, after_round,
}

exit_code_of-lt : (raw : ℤ) → exit_code_of raw < 256
unfolding exit_code_of
exit_code_of-lt (pos n) = omega arith
exit_code_of-lt (negsuc n) = omega arith

module _ {W : Type 0} (getenv : W → Text → Option Text) (pid : ℕ)
    (execute : Text → Exec (Session W) ℤ) where
  -- A round leaves everything as it was, or runs a line: the expansion of the variables in one whose
  -- first word is no alias. It fits its buffer.
  abbrev pub Entered : Loop W → Outcome (Unit {0}) × Loop W → Type 0
  Entered l r =
      (r.1 ≡ l)
      ⊎ ((resolved line : Text) × (alias_of l.session.aliases (first_word resolved) ≡ none)
          × (expand_env (environment_of getenv pid execute l) resolved ≡ ok line)
          × (length line < max_cmd_len)
          × (r ≡ run_line getenv pid execute line l))

  stage-Entered :
      {A : Type 0} (r : Outcome A) (k : A → Exec (Loop W) (Unit {0})) (l : Loop W)
      → ((a : A) → r ≡ ok a → Entered l (k a l))
      → Entered l (and_then (r, l) k)
  stage-Entered (ok a) k l h = h a refl
  stage-Entered fail k l h = inl refl
  stage-Entered exited k l h = inl refl
  stage-Entered undefined k l h = inl refl
  stage-Entered unfinished k l h = inl refl

  or_continue-ok : (o : Option Text) (line : Text) → or_continue o ≡ ok line → o ≡ some line
  or_continue-ok none line h = cc
  or_continue-ok (some t) line h = cc

  IsString-ok :
      (r : Outcome Text) (t : Text) → r ≡ ok t → IsString r ⊎ (r ≡ undefined) → length t < 1024
  IsString-ok r t e (inl (u, f, h)) = let same : u ≡ t = cc in rw (← same) h
  IsString-ok r t e (inr f) = cc

  last_stage :
      (line : Text) (l : Loop W)
      → length line ≤ 1023
      → Entered l (
          and_then
            (or_continue (expand_aliases max_expand l.session.aliases line), l)
            λ line m.
              and_then
                (expand_env (environment_of getenv pid execute l) line, m)
                λ line m. run_line getenv pid execute (line_of line) m)
  last_stage line l le =
      stage-Entered (or_continue (expand_aliases max_expand l.session.aliases line)) _ l
        λ resolved found.
          stage-Entered (expand_env (environment_of getenv pid execute l) resolved) _ l
            λ final ends.
              let some_line = or_continue-ok _ resolved found in
              let fits =
                IsString-ok _ final ends
                  (expand_env_bounds (environment_of getenv pid execute l) resolved).1 in
              inr (
                resolved,
                final,
                (expand_aliases-resolved max_expand l.session.aliases line le some_line).0,
                ends,
                fits,
                ap (λ t. run_line getenv pid execute t l) (take_all 1023 final (omega arith)),
              )

  -- A round of the main loop leaves tables and exit code as they were, or gives `execute_command` a
  -- line of less than 1024 bytes, which is what expand_env makes of a line whose first word is no
  -- alias.
  pub enter-Entered : (input : Text) (l : Loop W) → Entered l (enter getenv pid execute input l)
  unfolding enter
  enter-Entered input l = stage-Entered (not_blank (skip_space input)) _ l λ trimmed e.
      stage-Entered (from_history (line_of trimmed) l.session.history) _ l
        λ line e'. last_stage (line_of line) l (length-take_le 1023 line)

  run_line-code :
      (line : Text) (l : Loop W)
      → l.last_exit_code < 256
      → (run_line getenv pid execute line l).1.last_exit_code < 256
  unfolding run_line
  run_line-code line l h =
      ends (execute line (record l.session { history = hist_add line l.session.history }))
    where
      ends :
          (r : Outcome ℤ × Session W)
          → (and_then
              (r.0, record l { session = r.1 })
              (λ raw_ret l.
                (ok tt, record l { last_exit_code = exit_code_of raw_ret }))).1.last_exit_code
            < 256
      ends (ok raw, s) = exit_code_of-lt raw
      ends (fail, s) = h
      ends (exited, s) = h
      ends (undefined, s) = h
      ends (unfinished, s) = h

  enter-code :
      (input : Text) (l : Loop W)
      → l.last_exit_code < 256
      → (enter getenv pid execute input l).1.last_exit_code < 256
  enter-code input l h = elim (enter-Entered input l) [
    | inl same ↦ rw same h
    | inr (resolved, line, no_alias, expanded, fits, same) ↦ rw same (run_line-code line l h)
  ]

  -- What the loop ends with is the history of its last state, and the exit code is a byte.
  abbrev pub Ended : Outcome (List Text) × Loop W → Type 0
  Ended (ok history, l) = (history ≡ l.session.history) × (l.last_exit_code < 256)
  Ended (fail, l) = ⊥
  Ended (exited, l) = l.last_exit_code < 256
  Ended (undefined, l) = l.last_exit_code < 256
  Ended (unfinished, l) = l.last_exit_code < 256

  after_round-Ended :
      (signalled : Bool) (rest : Bool → Exec (Loop W) (List Text)) (r : Outcome (Unit {0}) × Loop W)
      → r.1.last_exit_code < 256
      → ((b : Bool) (l : Loop W) → l.last_exit_code < 256 → Ended (rest b l))
      → Ended (after_round getenv pid execute signalled rest r)
  after_round-Ended true rest (ok u, l) h k = (refl, h)
  after_round-Ended false rest (ok u, l) h k = k false l h
  after_round-Ended true rest (fail, l) h k = k true l h
  after_round-Ended false rest (fail, l) h k = k false l h
  after_round-Ended true rest (exited, l) h k = h
  after_round-Ended false rest (exited, l) h k = h
  after_round-Ended true rest (undefined, l) h k = h
  after_round-Ended false rest (undefined, l) h k = h
  after_round-Ended true rest (unfinished, l) h k = h
  after_round-Ended false rest (unfinished, l) h k = h

  -- Whatever is typed, whatever the commands return and whenever signals come in, the exit code that
  -- `$?` stands for stays below 256, and where the loop ends it saves the history of its last state.
  pub main_loop-Ended :
      (events : List Event) (sig_received : Bool) (l : Loop W)
      → l.last_exit_code < 256
      → Ended (main_loop getenv pid execute events sig_received l)
  unfolding main_loop
  main_loop-Ended [] sig_received l h = h
  main_loop-Ended (event ∷ events) true l h = (refl, h)
  main_loop-Ended (typed input signalled ∷ events) false l h =
      after_round-Ended signalled _ _ (enter-code input l h) (main_loop-Ended events)
  main_loop-Ended (end_of_input ∷ events) false l h = (refl, h)
  main_loop-Ended (interrupted ∷ events) false l h = main_loop-Ended events false l h
  main_loop-Ended (signalled_read ∷ events) false l h = (refl, h)
