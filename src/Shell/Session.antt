-- ===== src/Shell/Session.antt =====
-- The main loop of oscdsh/src/main.c: what happens to a line that readline returns, until
-- `execute_command` gets it. That function forks processes; it is the parameter `execute`, and works
-- on the tables of aliases and history and on the rest of the process, the state W.
pub mod Aliases
pub mod Rounds
use ostd_final.Common.{
  ℕ, zero, suc, ◌-◌, ◌%◌, Bool, true, false, Option, none, some, List, [], ◌∷◌, ◌++◌, ◌==◌, length,
  take, drop, if◌then◌else◌,
}
use ostd_final.Common.Exec.{
  Outcome, Exec, ok, fail, exited, undefined, unfinished, pure, get_state, put_state, and_then,
  ◌>>=◌, ◌>>◌,
}
use ostd_final.Common.Int.{ℤ, pos, negsuc}
use ostd_final.Common.Text.{Text, copy_text, tokens}
use ostd_final.Shell.Alias.{Alias, get_alias_value}
use ostd_final.Shell.Command.{is_gap}
use ostd_final.Shell.History.{expand_history, hist_add, max_cmd_len}
use ostd_final.Shell.Logic.{is_space}
use ostd_final.Shell.Expand.{Environment, expand_env}

-- `line`, whose last byte is the NUL
abbrev pub line_of : Text → Text
line_of = copy_text (max_cmd_len - 1)

abbrev pub first_of : List Text → Option Text
first_of [] = none
first_of (word ∷ more) = some word

unfoldable pub first_word : Text → Option Text
first_word cmd = first_of (tokens is_gap (line_of cmd))

-- while (*rest == ' ' || *rest == '\t') rest++;
unfoldable pub skip_gaps : Text → Text
skip_gaps [] = []
skip_gaps (c ∷ t) = if is_gap c then skip_gaps t else c ∷ t

-- while (*trimmed && isspace(*trimmed)) trimmed++;
unfoldable pub skip_space : Text → Text
skip_space [] = []
skip_space (c ∷ t) = if is_space c then skip_space t else c ∷ t

-- the first word and the value of the alias that it is
unfoldable pub alias_of : List Alias → Option Text → Option (Text × Text)
alias_of aliases none = none
alias_of aliases (some first) = elim (get_alias_value first aliases) [
  | none ↦ none
  | some value ↦ some (first, value)
]

-- snprintf(new_line, ..., "%s %s", alias_val, rest)
unfoldable pub substituted : (first value line : Text) → Text
substituted first value line = line_of (value ++ b' ' ∷ skip_gaps (drop (length first) line))

-- The loop of the alias expansion. `max_expand` is tested before it is counted down, and a line is
-- refused when it is 0 or -1 after the loop.
unfoldable pub expand_aliases : (max_expand : ℕ) → List Alias → Text → Option Text
expand_aliases zero aliases line = none
expand_aliases (suc n) aliases line = elim (alias_of aliases (first_word line)) [
  | none ↦ if n == 0 then none else some line
  | some (first, value) ↦ expand_aliases n aliases (substituted first value line)
]

abbrev pub max_expand : ℕ
max_expand = 10

-- the tables that a command may change, and the rest of the process
pub record Session (W : Type 0) : Type 0 where
  pub aliases : List Alias
  pub history : List Text
  pub world : W

pub record Loop (W : Type 0) : Type 0 where
  pub session : Session W
  pub last_exit_code : ℕ

-- `if (line[0] == '!')`
unfoldable pub from_history : Text → List Text → Outcome Text
from_history [] history = ok []
from_history (c ∷ t) history = if c == b'!' then expand_history (c ∷ t) history else ok (c ∷ t)

-- `continue` is `fail`
abbrev pub or_continue : Option Text → Outcome Text
or_continue none = fail
or_continue (some line) = ok line

abbrev pub not_blank : Text → Outcome Text
not_blank [] = fail
not_blank (c ∷ t) = ok (c ∷ t)

-- a negative result is 1, and of the others the low eight bits count
unfoldable pub exit_code_of : ℤ → ℕ
exit_code_of (pos n) = n % 256
exit_code_of (negsuc n) = 1

-- What readline returns, and whether a signal has come in while the line was run; the end of the input,
-- a call that is interrupted, and a signal before it returns.
pub data Event : Type 0 where
  typed : Text → (signalled : Bool) → Event
  end_of_input interrupted signalled_read : Event

module _ {W : Type 0} (getenv : W → Text → Option Text) (pid : ℕ)
    (execute : Text → Exec (Session W) ℤ) where
  abbrev pub stage : Outcome Text → Exec (Loop W) Text
  stage r l = (r, l)

  unfoldable pub environment_of : Loop W → Environment
  environment_of l = record {
    getenv = getenv l.session.world;
    pid = pid;
    last_exit_code = l.last_exit_code;
  }

  -- `hist_add`, and `execute_command` with its exit code
  unfoldable pub run_line : Text → Exec (Loop W) (Unit {0})
  run_line line l =
      let s = record l.session { history = hist_add line l.session.history } in
      let (r, s) = execute line s in
      and_then (r, record { session = s; last_exit_code = l.last_exit_code })
        (λ raw_ret l. (ok tt, record l { last_exit_code = exit_code_of raw_ret }))

  -- one round of the loop, for a line that readline returned
  unfoldable pub enter : Text → Exec (Loop W) (Unit {0})
  unfolding run_line
  enter input = do
    trimmed ← stage (not_blank (skip_space input))
    l ← get_state
    line ← stage (from_history (line_of trimmed) l.session.history)
    line ← stage (or_continue (expand_aliases max_expand l.session.aliases (line_of line)))
    line ← stage (expand_env (environment_of l) line)
    run_line (line_of line)

  -- what follows a round; a signal is looked at after a command, and when readline returns
  abbrev pub after_round :
      (signalled : Bool)
      → (rest : Bool → Exec (Loop W) (List Text)) → Outcome (Unit {0}) × Loop W
      → Outcome (List Text) × Loop W
  after_round true rest (ok u, l) = (ok l.session.history, l)
  after_round false rest (ok u, l) = rest false l
  after_round signalled rest (fail, l) = rest signalled l
  after_round signalled rest (exited, l) = (exited, l)
  after_round signalled rest (undefined, l) = (undefined, l)
  after_round signalled rest (unfinished, l) = (unfinished, l)

  -- The loop, over what happens at its calls of readline: the history that it saves when it ends.
  unfoldable pub main_loop : List Event → (sig_received : Bool) → Exec (Loop W) (List Text)
  main_loop [] sig_received l = (unfinished, l)
  main_loop (event ∷ events) true l = (ok l.session.history, l)
  main_loop (typed input signalled ∷ events) false l =
      after_round signalled (main_loop events) (enter input l)
  main_loop (end_of_input ∷ events) false l = (ok l.session.history, l)
  main_loop (interrupted ∷ events) false l = main_loop events false l
  main_loop (signalled_read ∷ events) false l = (ok l.session.history, l)
