-- ===== src/Shell/Builtins.antt =====
-- oscdsh/src/builtin.c, and `execute_builtin` of oscdsh/src/exec.c, which finds a built-in command by
-- its name. What a command prints is left out. The system's chdir and access, and the monitor of
-- oscdsh/src/monitor.c, are parameters; setenv refuses an empty name and one with `=`.
pub mod Quoted
pub mod Names
pub mod Places
use ostd_final.Common.{
  ℕ, ◌+◌, Bool, true, false, not, ◌&&◌, ◌||◌, Option, none, some, List, [], ◌∷◌, ◌++◌, ◌==◌, leb,
  ltb, length, take, drop, if◌then◌else◌,
}
use ostd_final.Common.Exec.{Outcome, Exec, ok, exited, undefined, pure, ◌>>=◌}
use ostd_final.Common.Text.{Text, codes, str_eq, copy_text, cut_at, tokens}
use ostd_final.Shell.Alias.{Alias, get_alias_value, add_alias, remove_alias}
use ostd_final.Shell.Command.{is_one_of, is_builtin_cmd}
use ostd_final.Shell.History.{max_cmd_len}
use ostd_final.Shell.Plan.{has_byte, ends_with, without_last}
use ostd_final.Shell.Session.{first_of}

-- The process: its tables, its environment and its working directory.
pub record Process : Type 0 where
  pub aliases : List Alias
  pub history : List Text
  pub env : Text → Option Text
  pub cwd : Text

-- `alias`: the bytes from the first `=` of an argument on, with the name before it
unfoldable pub definition_in : List Text → Option (Text × Text × List Text)
definition_in [] = none
definition_in (arg ∷ more) =
    let (name, found) = cut_at (λ c. c == b'=') arg in
    elim found [ none ↦ definition_in more | some value ↦ some (name, value, more) ]

abbrev pub quote : ℕ
quote = 39

abbrev pub begins_with : ℕ → Text → Bool
begins_with c [] = false
begins_with c (d ∷ t) = d == c

-- the words that end a definition
abbrev pub controls : List Text
controls = codes ">" ∷ codes ">>" ∷ codes "<" ∷ codes "|" ∷ []

-- The loop that appends the further arguments. `value` is an array of MAX_CMD_LEN bytes, and strcat does
-- not look at its size.
unfoldable pub join_args : (quote_open : Bool) → (value : Text) → List Text → Outcome Text
join_args quote_open value [] = ok value
join_args quote_open value (arg ∷ more) =
    let longer = value ++ b' ' ∷ arg in
    let rest = join_args quote_open longer more in
    if is_one_of controls arg
    then ok value
    else if leb max_cmd_len (length longer)
    then undefined
    else if quote_open && ltb 1 (length longer) && ends_with quote longer
    then ok longer
    else rest

-- the removal of the quotes at both ends
unfoldable pub unquoted : Text → Text
unquoted value =
    if leb 2 (length value) && begins_with quote value && ends_with quote value
    then without_last (drop 1 value)
    else value

-- `char value[1024]`
abbrev pub value_array : Text → Text
value_array = copy_text 1023

abbrev pub add_joined : Text → Outcome Text → Process → Outcome ℕ × Process
add_joined name (ok value) p =
    (ok 0, record p { aliases = add_alias name (unquoted value) p.aliases })
add_joined name r p = (undefined, p)

abbrev pub status_of : Bool → ℕ
status_of true = 0
status_of false = 1

abbrev pub is_some : {A : Type 0} → Option A → Bool
is_some none = false
is_some (some a) = true

unfoldable pub define_alias : Option (Text × Text × List Text) → (first : Text) → Exec Process ℕ
define_alias none first p = (ok (status_of (is_some (get_alias_value first p.aliases))), p)
define_alias (some (name, value, more)) first p =
    add_joined name (join_args (begins_with quote (value_array value)) (value_array value) more) p

-- Arguments stand behind the name of the command.
unfoldable pub builtin_alias : List Text → Exec Process ℕ
unfolding define_alias
builtin_alias [] p = (ok 0, p)
builtin_alias (arg ∷ args) p = define_alias (definition_in (arg ∷ args)) arg p

unfoldable pub builtin_unalias : List Text → Exec Process ℕ
builtin_unalias [] p = (ok 1, p)
builtin_unalias (name ∷ args) p =
    let (aliases, found) = remove_alias name p.aliases in
    (ok (status_of found), record p { aliases = aliases })

unfoldable pub builtin_history : List Text → Exec Process ℕ
builtin_history [] p = (ok 0, p)
builtin_history (arg ∷ args) p =
    if str_eq arg (codes "-c") then (ok 0, record p { history = [] }) else (ok 1, p)

-- setenv(name, value, 1)
unfoldable pub setenv : (name value : Text) → Process → Option Process
setenv name value p =
    if length name == 0 || has_byte b'=' name
    then none
    else some (record p { env = λ n. if str_eq name n then some value else p.env n })

-- the name and the value that an argument of `export` gives
unfoldable pub assignment : Text → Text × Text
assignment arg =
    let (name, found) = cut_at (λ c. c == b'=') arg in
    elim found [ none ↦ (arg, []) | some value ↦ (name, value) ]

unfoldable pub export_all : List Text → Exec Process ℕ
export_all [] p = (ok 0, p)
export_all (arg ∷ more) p = elim (setenv (assignment arg).0 (assignment arg).1 p) [
  | none ↦ (ok 1, p)
  | some q ↦ export_all more q
]

unfoldable pub builtin_export : List Text → Exec Process ℕ
builtin_export [] p = (ok 1, p)
builtin_export (arg ∷ args) p = export_all (arg ∷ args) p

-- getcwd into an array of 1024 bytes
unfoldable pub getcwd : Process → Option Text
getcwd p = if ltb (length p.cwd) 1024 then some p.cwd else none

-- a call of setenv whose result is not looked at
abbrev pub or_same : Process → Option Process → Process
or_same p none = p
or_same p (some q) = q

unfoldable pub cd_target : List Text → Process → Option Text
cd_target [] p = p.env (codes "HOME")
cd_target (arg ∷ args) p = if str_eq arg (codes "-") then p.env (codes "OLDPWD") else some arg

-- behind a chdir that succeeded
unfoldable pub moved_to : (old_cwd : Text) → Process → Process
moved_to old_cwd p =
    let q = or_same p (setenv (codes "OLDPWD") old_cwd p) in
    elim (getcwd q) [ none ↦ q | some new_cwd ↦ or_same q (setenv (codes "PWD") new_cwd q) ]

unfoldable pub builtin_pwd : Exec Process ℕ
builtin_pwd p = (ok (status_of (is_some (getcwd p))), p)

-- The built-in commands.
pub data Builtin : Type 0 where
  hello exit cd type history alias unalias pwd export jobs succeed refuse monitor : Builtin

-- the comparisons of `execute_builtin`, in their order
abbrev pub builtin_table : List (Text × Builtin)
builtin_table =
    (codes "hello", hello)
    ∷ (codes "exit", exit)
    ∷ (codes "cd", cd)
    ∷ (codes "type", type)
    ∷ (codes "history", history)
    ∷ (codes "alias", alias)
    ∷ (codes "unalias", unalias)
    ∷ (codes "pwd", pwd)
    ∷ (codes "export", export)
    ∷ (codes "jobs", jobs)
    ∷ (codes "true", succeed)
    ∷ (codes "false", refuse)
    ∷ (codes "monitor", monitor)
    ∷ []

unfoldable pub lookup_builtin : List (Text × Builtin) → Text → Option Builtin
lookup_builtin [] cmd = none
lookup_builtin ((name, b) ∷ more) cmd = if str_eq cmd name then some b else lookup_builtin more cmd

-- What `type` says of a command.
pub data Kind : Type 0 where
  not_found shell_builtin : Kind
  file : Text → Kind

module _ (chdir : (cwd target : Text) → Option Text) (executable : Text → Bool)
    (monitor_command : List Text → ℕ) where
  unfoldable pub change_dir : Option Text → Exec Process ℕ
  unfolding moved_to
  change_dir none p = (ok 1, p)
  change_dir (some target) p = elim (getcwd p) [
    | none ↦ (ok 1, p)
    | some old_cwd ↦ elim (chdir p.cwd target) [
      | none ↦ (ok 1, p)
      | some cwd ↦ (ok 0, moved_to old_cwd (record p { cwd = cwd }))
    ]
  ]

  unfoldable pub builtin_cd : List Text → Exec Process ℕ
  builtin_cd args p = change_dir (cd_target args p) p

  -- the loop over the directories of PATH
  unfoldable pub search_path : (cmd : Text) → List Text → Kind
  search_path cmd [] = not_found
  search_path cmd (dir ∷ more) =
      let fullpath = take 1023 (dir ++ b'/' ∷ cmd) in
      if executable fullpath then file fullpath else search_path cmd more

  abbrev pub search_env : (cmd : Text) → Option Text → Kind
  search_env cmd none = not_found
  search_env cmd (some path) = search_path cmd (tokens (λ c. c == b':') path)

  unfoldable pub kind_of : Text → Process → Kind
  kind_of cmd p =
      if has_byte b'/' cmd
      then if executable cmd then file cmd else not_found
      else if is_builtin_cmd cmd
      then shell_builtin
      else search_env cmd (p.env (codes "PATH"))

  abbrev pub kind_status : Kind → ℕ
  kind_status not_found = 1
  kind_status _ = 0

  unfoldable pub builtin_type : List Text → Exec Process ℕ
  builtin_type [] p = (ok 1, p)
  builtin_type (cmd ∷ args) p = (ok (kind_status (kind_of cmd p)), p)

  unfoldable pub run_builtin : Builtin → List Text → Exec Process ℕ
  run_builtin hello args = pure 0
  run_builtin exit args = λ p. (exited, p)
  run_builtin cd args = builtin_cd args
  run_builtin type args = builtin_type args
  run_builtin history args = builtin_history args
  run_builtin alias args = builtin_alias args
  run_builtin unalias args = builtin_unalias args
  run_builtin pwd args = builtin_pwd
  run_builtin export args = builtin_export args
  run_builtin jobs args = pure 0
  run_builtin succeed args = pure 0
  run_builtin refuse args = pure 1
  run_builtin monitor args = pure (monitor_command args)

  -- `args[1] != NULL && strcmp(args[1], "--help") == 0`
  unfoldable pub asks_help : List Text → Bool
  asks_help [] = false
  asks_help (arg ∷ args) = str_eq arg (codes "--help")

  -- `execute_builtin`; no command of the name is the result -1
  unfoldable pub execute_builtin : Text → List Text → Exec Process (Option ℕ)
  execute_builtin cmd args =
      if asks_help args then pure (some 0) else elim (lookup_builtin builtin_table cmd) [
        | none ↦ pure none
        | some b ↦ do status ← run_builtin b args; pure (some status)
      ]
