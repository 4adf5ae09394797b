-- ===== src/Shell/Tests/Sessions.antt =====
-- Sessions on which the lemmas about oscdsh/src/main.c and oscdsh/src/builtin.c run.
use ostd_final.Common.{
  ℕ, ◌+◌, ◌<◌, ◌≡◌, ◌⊎◌, refl, inr, Option, none, some, List, [], ◌∷◌, ◌++◌, arith, length,
  if◌then◌else◌, replicate, true, false,
}
use ostd_final.Common.Exec.{Exec, ok, undefined}
use ostd_final.Common.Int.{ℤ, pos}
use ostd_final.Common.Text.{Text, codes, str_eq}
use ostd_final.Shell.Alias.{Alias, get_alias_value}
use ostd_final.Shell.History.{max_cmd_len}
use ostd_final.Shell.Plan.{has_byte}
use ostd_final.Shell.Command.{is_one_of}
use ostd_final.Shell.Expand.{Environment, expand_env, decimal, digits_before}
use ostd_final.Shell.Expand.Closed.{Closed, IsString, expand_env_bounds}
use ostd_final.Shell.Expand.Printed.{
  Token, byte, bare, braced, last_status, AreTokens, line_text, line_value, expand_env-line_text,
  expand_env-overflows,
}
use ostd_final.Shell.Session.{
  Session, Loop, Event, typed, end_of_input, first_word, alias_of, expand_aliases, max_expand,
  enter, main_loop,
}
use ostd_final.Shell.Session.Aliases.{IsWord, BeginsWith, expand_aliases_lem}
use ostd_final.Shell.Session.Rounds.{Entered, Ended, enter-Entered, main_loop-Ended}
use ostd_final.Shell.Builtins.{Process, quote, builtin_alias, builtin_cd, cd_target}
use ostd_final.Shell.Builtins.Quoted.{quoted_args, spaced, ArePlain, get-builtin_alias}
use ostd_final.Shell.Builtins.Places.{arrived, cd-cd_back}

abbrev home : Text
home = codes "/home/pyc"

-- HOME is set to `/home/pyc`, and every other variable to a text of 1022 bytes
abbrev variables : Text → Option Text
variables name = if str_eq name (codes "HOME") then some home else some (replicate 1022 b'x')

abbrev environment : Environment
environment = record { getenv = variables; pid = 4711; last_exit_code = 1 }

-- `ls ${HOME}`
abbrev list_home : Text
list_home = codes "ls ${HOME}"

expand_env_bounds_example :
    (Closed list_home → IsString (expand_env environment list_home))
    × (IsString (expand_env environment list_home) ⊎ (expand_env environment list_home ≡ undefined))
expand_env_bounds_example = expand_env_bounds environment list_home

-- `$HOME/${HOME}$?`
abbrev home_tokens : List Token
home_tokens = bare (codes "HOME") ∷ byte b'/' ∷ braced (codes "HOME") ∷ last_status ∷ []

home_value : length (line_value environment home_tokens) ≡ 20
unfolding str_eq decimal digits_before
home_value = refl

home-AreTokens : AreTokens home_tokens []
unfolding has_byte
home-AreTokens = (
  (omega arith, (refl, (refl, (refl, (refl, tt)))), refl, omega arith),
  (refl, ((refl, omega arith), (tt, tt))),
)

expand_env-line_text_example :
    expand_env environment (line_text home_tokens []) ≡ ok (line_value environment home_tokens)
expand_env-line_text_example =
    expand_env-line_text environment home_tokens home-AreTokens (omega (arith, home_value))

abbrev long_token : List Token
long_token = bare (codes "LONG") ∷ []

long-AreTokens : AreTokens long_token (codes "${")
unfolding has_byte
long-AreTokens = ((omega arith, (refl, (refl, (refl, (refl, tt)))), refl, omega arith), tt)

long_value : length (line_value environment long_token) ≡ 1022
unfolding str_eq
long_value = refl

expand_env-overflows_example :
    expand_env environment (line_text long_token (codes "${")) ≡ undefined
expand_env-overflows_example = expand_env-overflows environment long_token long-AreTokens long_value

-- `alias ls='ls -l'`
abbrev own_alias : List Alias
own_alias = record { name = codes "ls"; value = codes "ls -l" } ∷ []

expand_aliases_lem_example :
    ((expand_aliases max_expand own_alias list_home ≡ none)
      ⊎ ((line' : Text) × (expand_aliases max_expand own_alias list_home ≡ some line')
          × (alias_of own_alias (first_word line') ≡ none)
          × (length line' < max_cmd_len)))
    × ((word value : Text)
        → first_word list_home ≡ some word
        → IsWord word
        → length word < 1023
        → get_alias_value word own_alias ≡ some value
        → BeginsWith word value
        → expand_aliases max_expand own_alias list_home ≡ none)
expand_aliases_lem_example = expand_aliases_lem own_alias list_home (omega arith)

-- commands that count how many have run, and return 300
abbrev counting : Text → Exec (Session ℕ) ℤ
counting line s = (ok (pos 300), record s { world = s.world + 1 })

abbrev fresh : Loop ℕ
fresh = record {
  session = record { aliases = own_alias; history = []; world = 0 };
  last_exit_code = 0;
}

enter-Entered_example :
    Entered
      (λ w. variables)
      4711
      counting
      fresh
      (enter (λ w. variables) 4711 counting (codes "  echo $?") fresh)
enter-Entered_example = enter-Entered (λ w. variables) 4711 counting (codes "  echo $?") fresh

abbrev two_lines : List Event
two_lines = typed (codes "true") false ∷ typed (codes "ls") true ∷ end_of_input ∷ []

main_loop-Ended_example :
    Ended
      (λ w. variables)
      4711
      counting
      (main_loop (λ w. variables) 4711 counting two_lines false fresh)
main_loop-Ended_example =
    main_loop-Ended (λ w. variables) 4711 counting two_lines false fresh (omega arith)

abbrev process : Process
process = record { aliases = own_alias; history = []; env = variables; cwd = home }

no_equals : has_byte b'=' (codes "ll") ≡ false
unfolding has_byte
no_equals = refl

no_quote : has_byte quote (codes "ls") ≡ false
unfolding has_byte
no_quote = refl

plain_words : ArePlain (codes "-l" ∷ codes "-a" ∷ [])
unfolding has_byte is_one_of str_eq
plain_words = ((refl, refl), ((refl, refl), tt))

to_tmp : cd_target (codes "/tmp" ∷ []) process ≡ some (codes "/tmp")
unfolding cd_target str_eq
to_tmp = refl

-- `alias ll='ls -l -a'`
get-builtin_alias_example :
    ((builtin_alias
        (quoted_args (codes "ll" ++ b'=' ∷ quote ∷ []) (codes "ls") (codes "-l" ∷ codes "-a" ∷ []))
        process).0
      ≡ ok 0)
    × (get_alias_value
          (codes "ll")
          (builtin_alias
            (quoted_args
              (codes "ll" ++ b'=' ∷ quote ∷ [])
              (codes "ls")
              (codes "-l" ∷ codes "-a" ∷ []))
            process).1.aliases
        ≡ (if str_eq (codes "ll") (codes "ll")
            then some (spaced (codes "ls") (codes "-l" ∷ codes "-a" ∷ []))
            else get_alias_value (codes "ll") process.aliases))
get-builtin_alias_example =
    get-builtin_alias (codes "ll") (codes "ls") (codes "-l" ∷ codes "-a" ∷ []) process (codes "ll")
      no_equals (omega arith) no_quote plain_words (omega arith) (inr (omega arith))

-- every directory can be reached by its own path
abbrev chdir : (cwd target : Text) → Option Text
chdir cwd target = some target

cd-cd_back_example :
    (builtin_cd chdir (λ f. false) (λ a. 0) (codes "/tmp" ∷ []) process
      ≡ (ok 0, arrived (codes "/tmp") process))
    × (builtin_cd chdir (λ f. false) (λ a. 0) (codes "-" ∷ []) (arrived (codes "/tmp") process)
        ≡ (ok 0, arrived home (arrived (codes "/tmp") process)))
cd-cd_back_example =
    cd-cd_back chdir (λ f. false) (λ a. 0) (codes "/tmp" ∷ []) (codes "/tmp") (codes "/tmp") process
      (omega arith) (omega arith) to_tmp refl refl
