-- ===== src/Shell/Startup.antt =====
-- The environment that main of oscdsh/src/main.c sets before its loop. The path of the executable, where
-- readlink gives it, and the numbers of the process and its parent are arguments.
pub mod Level
use ostd_final.Common.{ℕ, ◌+◌, ◌^◌, Bool, Option, none, some, ltb, take, if◌then◌else◌}
use ostd_final.Common.Exec.{Outcome, ok, undefined}
use ostd_final.Common.Int.{ℤ, pos, negsuc}
use ostd_final.Common.Numerals.{atoi}
use ostd_final.Common.Text.{Text, codes}
use ostd_final.Shell.Builtins.{Process, setenv}
use ostd_final.Shell.Expand.{decimal}

-- `atoi(shlvl_str) + 1`, and 1 where that is less than 1
abbrev pub raised : Option ℤ → Outcome ℕ
raised none = undefined
raised (some (pos n)) = if ltb (n + 1) (2 ^ 31) then ok (n + 1) else undefined
raised (some (negsuc n)) = ok 1

unfoldable pub shlvl_of : Option Text → Outcome ℕ
shlvl_of none = ok 1
shlvl_of (some shlvl_str) = raised (atoi shlvl_str)

-- setenv of a name that it does not refuse
abbrev pub with_variable : (name value : Text) → Process → Process
with_variable name value p = elim (setenv name value p) [ none ↦ p | some q ↦ q ]

unfoldable pub set_shell : (exe_path : Option Text) → Process → Process
set_shell none p = p
set_shell (some path) p = with_variable (codes "SHELL") (take 1023 path) p

unfoldable pub set_variables : (exe_path : Option Text) (pid ppid shlvl : ℕ) → Process → Process
set_variables exe_path pid ppid shlvl p =
    let q = set_shell exe_path (with_variable (codes "SHLVL") (decimal shlvl) p) in
    with_variable (codes "PPID") (decimal ppid) (with_variable (codes "PID") (decimal pid) q)

abbrev pub set_with :
    (exe_path : Option Text) (pid ppid : ℕ) → Process → Outcome ℕ → Outcome Process
set_with exe_path pid ppid p (ok shlvl) = ok (set_variables exe_path pid ppid shlvl p)
set_with exe_path pid ppid p _ = undefined

unfoldable pub set_up : (exe_path : Option Text) (pid ppid : ℕ) → Process → Outcome Process
set_up exe_path pid ppid p = set_with exe_path pid ppid p (shlvl_of (p.env (codes "SHLVL")))
