-- ===== src/Shell/Tests/Completions.antt =====
-- Completion, prompt and the start at small inputs.
use ostd_final.Common.{
  ◌≡◌, refl, Bool, true, false, Option, none, some, List, [], ◌∷◌, if◌then◌else◌, arith,
}
use ostd_final.Common.Text.{Text, codes, str_eq, parts_from, not_empty, tokens}
use ostd_final.Shell.History.{has_prefix}
use ostd_final.Shell.Completion.{Generator, split_path_env, is_candidate}
use ostd_final.Shell.Completion.Complete.{
  Calls, IsClean, those, in_dir, in_dirs, command_generator-Calls,
}
use ostd_final.Common.Exec.{ok}
use ostd_final.Shell.Builtins.{Process}
use ostd_final.Shell.Expand.{decimal, digits_before}
use ostd_final.Shell.Startup.{set_up}
use ostd_final.Shell.Startup.Level.{IsStarted, set_up-IsStarted}
use ostd_final.Shell.Prompt.{shown_dir}

abbrev stale : Generator
stale = record { names = []; path_dirs = codes "/old" ∷ []; cur_dir = none; builtin_done = true }

abbrev two_dirs : Text → Option (List Text)
two_dirs path =
    if str_eq path (codes "/bin")
    then some (codes "tar" ∷ codes ".t" ∷ codes "ls" ∷ codes "text" ∷ [])
    else none

-- all but one of the entries can be executed
abbrev not_text : Text → Bool
not_text path = if str_eq path (codes "/bin/text") then false else true

command_generator-Calls_example :
    (h : Generator) × Calls not_text two_dirs
      (codes "t")
      (some (codes "/none:/bin"))
      0
      stale
      (codes "type" ∷ codes "true" ∷ codes "tar" ∷ [])
      h
    × IsClean h
unfolding those in_dirs in_dir has_prefix split_path_env tokens parts_from not_empty is_candidate
    str_eq
command_generator-Calls_example =
    command_generator-Calls not_text two_dirs (codes "t") (some (codes "/none:/bin")) stale

-- a directory beside the home directory looks like one below it
beside_home : shown_dir (some (codes "/home/alice")) (some (codes "/home/al")) ≡ codes "~ice"
unfolding shown_dir has_prefix
beside_home = refl

abbrev second_level : Process
second_level = record {
  aliases = [];
  history = [];
  env = λ n. if str_eq n (codes "SHLVL") then some (codes "2") else none;
  cwd = codes "/";
}

-- the third shell in a row
third_level :
    (q : Process) × (set_up (some (codes "/bin/oscdsh")) 12 7 second_level ≡ ok q)
    × IsStarted 12 7 3 second_level q
unfolding decimal digits_before str_eq
third_level = set_up-IsStarted (some (codes "/bin/oscdsh")) 12 7 2 second_level (omega arith) refl
