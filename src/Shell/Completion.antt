-- ===== src/Shell/Completion.antt =====
-- oscdsh/src/completion.c: the generator that readline calls for one command name after the other, and
-- the choice of the generator. The directories, access and PATH are parameters. An index that only moves
-- forward through an array is the part that is left of it, and the arrays that free gives back are empty.
pub mod Complete
use ostd_final.Common.{
  ℕ, zero, suc, Bool, true, false, ◌&&◌, ◌||◌, Option, none, some, List, [], ◌∷◌, ◌++◌, ◌==◌, take,
  if◌then◌else◌,
}
use ostd_final.Common.Text.{Text, codes, tokens}
use ostd_final.Shell.History.{has_prefix}
use ostd_final.Shell.Plan.{has_byte}

abbrev pub builtins : List Text
builtins =
    codes "hello"
    ∷ codes "exit"
    ∷ codes "cd"
    ∷ codes "type"
    ∷ codes "history"
    ∷ codes "alias"
    ∷ codes "unalias"
    ∷ codes "pwd"
    ∷ codes "export"
    ∷ codes "jobs"
    ∷ codes "true"
    ∷ codes "false"
    ∷ []

-- `idx`, `gen_path_dirs` from `gen_path_idx` on, the entries that `gen_cur_dir` has left, and
-- `gen_builtin_done`
pub record Generator : Type 0 where
  pub names : List Text
  pub path_dirs : List Text
  pub cur_dir : Option (List Text)
  pub builtin_done : Bool

unfoldable pub cleanup_generator : Generator → Generator
cleanup_generator g = record g { path_dirs = []; cur_dir = none; builtin_done = false }

-- the first name that starts with the text, and the names behind it
unfoldable pub next_builtin : (text : Text) → List Text → Option (Text × List Text)
next_builtin text [] = none
next_builtin text (name ∷ names) =
    let rest = next_builtin text names in if has_prefix text name then some (name, names) else rest

-- the directories of PATH
unfoldable pub split_path_env : Option Text → List Text
split_path_env none = []
split_path_env (some path_env) = tokens (λ c. c == b':') path_env

-- the directories from the open one on, and the entries that it has left
abbrev pub Place : Type 0
Place = List Text × List Text

-- what is found in an open directory, or else behind it
abbrev pub in_open :
    (dir : Text) (dirs : List Text)
    → Option (Text × List Text)
    → (later : Option (Text × Place)) → Option (Text × Place)
in_open dir dirs none later = later
in_open dir dirs (some (entry, more)) later = some (entry, (dir ∷ dirs, more))

module _ (executable : (path : Text) → Bool) where
  -- an entry that is no hidden one, starts with the text and can be executed
  unfoldable pub is_candidate : (text dir entry : Text) → Bool
  is_candidate text dir [] = has_prefix text [] && executable (take 1023 (dir ++ b'/' ∷ []))
  is_candidate text dir (c ∷ t) =
      if c == b'.'
      then false
      else has_prefix text (c ∷ t) && executable (take 1023 (dir ++ b'/' ∷ c ∷ t))

  -- the loop over the entries of the open directory
  unfoldable pub next_entry : (text dir : Text) → List Text → Option (Text × List Text)
  next_entry text dir [] = none
  next_entry text dir (entry ∷ entries) =
      let rest = next_entry text dir entries in
      if is_candidate text dir entry then some (entry, entries) else rest

  module _ (opendir : (path : Text) → Option (List Text)) where
    -- the loop over the directories, of which the first may be open; with what is found, the
    -- directories from its own on and the entries behind it
    unfoldable pub next_file :
        (text : Text) (cur_dir : Option (List Text)) (path_dirs : List Text) → Option (Text × Place)
    next_file text cur_dir [] = none
    next_file text (some entries) (dir ∷ dirs) =
        let later = next_file text none dirs in in_open dir dirs (next_entry text dir entries) later
    next_file text none (dir ∷ dirs) =
        let later = next_file text none dirs in
        elim (opendir dir) [
          | none ↦ later
          | some entries ↦ in_open dir dirs (next_entry text dir entries) later
        ]

    unfoldable pub generate_file : (text : Text) → Generator → Option Text × Generator
    generate_file text g = elim (next_file text g.cur_dir g.path_dirs) [
      | none ↦ (none, cleanup_generator g)
      | some (entry, p) ↦ (some entry, record g { path_dirs = p.0; cur_dir = some p.1 })
    ]

    unfoldable pub generate : (text : Text) → Generator → Option Text × Generator
    generate text g =
        if g.builtin_done then generate_file text g else elim (next_builtin text g.names) [
          | some (name, names) ↦ (some name, record g { names = names })
          | none ↦ generate_file text (record g { names = []; builtin_done = true })
        ]

    -- `state` is 0 for the first call
    unfoldable pub command_generator :
        (path_env : Option Text) (text : Text) (state : ℕ) → Generator → Option Text × Generator
    command_generator path_env text zero g =
        generate text
          (record (cleanup_generator g) { names = builtins; path_dirs = split_path_env path_env })
    command_generator path_env text (suc n) g = generate text g

pub data Completer : Type 0 where
  filenames commands : Completer

abbrev starts_path : Text → Bool
starts_path [] = false
starts_path (c ∷ t) = c == b'/' || c == b'.' || c == b'~'

-- which generator readline gets for the word at the place `start` of the line, and the state that it starts
-- in
unfoldable pub oscdsh_completion : (text : Text) (start : ℕ) → Generator → Completer × Generator
oscdsh_completion text start g = (
  if starts_path text || has_byte b'/' text
      then filenames
      else if start == 0
      then commands
      else filenames,
  cleanup_generator g,
)
