-- ===== src/Shell/Builtins/Places.antt =====
-- `cd` and `export` of oscdsh/src/builtin.c.
use ostd_final.Common.{
  ℕ, ◌<◌, ◌≡◌, refl, ap, ◌∙◌, Bool, Option, some, List, [], ◌∷◌, length, arith, if◌then◌else◌,
}
use ostd_final.Common.Exec.{ok}
use ostd_final.Common.Text.{Text, codes, str_eq}
use ostd_final.Shell.Plan.{has_byte}
use ostd_final.Shell.Builtins.{Process, setenv, getcwd, cd_target, moved_to, change_dir, builtin_cd}

-- The process after a change of directory: PWD and OLDPWD follow it.
abbrev pub arrived : (d : Text) → Process → Process
arrived d p = record p {
  cwd = d;
  env = λ n.
      if str_eq (codes "PWD") n
      then some d
      else if str_eq (codes "OLDPWD") n
      then some p.cwd
      else p.env n;
}

getcwd_short : (p : Process) → length p.cwd < 1024 → getcwd p ≡ some p.cwd
unfolding getcwd
getcwd_short p h = ground arith

old_set : (d : Text) → Process → Process
old_set d p = record p {
  cwd = d;
  env = λ n. if str_eq (codes "OLDPWD") n then some p.cwd else p.env n;
}

moved_to_lem :
    (d : Text) (p : Process) → length d < 1024 → moved_to p.cwd (record p { cwd = d }) ≡ arrived d p
unfolding moved_to setenv has_byte old_set
moved_to_lem d p h = rw (getcwd_short (old_set d p) h, moved_to) refl

module _ (chdir : (cwd target : Text) → Option Text) (executable : Text → Bool)
    (monitor_command : List Text → ℕ) where
  change_dir-arrived :
      (t d : Text) (p : Process)
      → length p.cwd < 1024
      → length d < 1024
      → chdir p.cwd t ≡ some d
      → change_dir chdir executable monitor_command (some t) p ≡ (ok 0, arrived d p)
  unfolding change_dir
  change_dir-arrived t d p short short' there =
      rw (getcwd_short p short, change_dir)
        (rw (there, change_dir) (ap (λ q. (ok 0, q)) (moved_to_lem d p short')))

  -- Where a directory can be reached from the working directory, and the path of the working directory
  -- leads back from there, `cd` to the directory succeeds and sets PWD and OLDPWD, and `cd -` then goes
  -- back and sets them the other way round; nothing else of the process changes. Both paths are shorter
  -- than 1024 bytes.
  pub cd-cd_back :
      (args : List Text) (t d : Text) (p : Process)
      → length p.cwd < 1024
      → length d < 1024
      → cd_target args p ≡ some t
      → chdir p.cwd t ≡ some d
      → chdir d p.cwd ≡ some p.cwd
      → (builtin_cd chdir executable monitor_command args p ≡ (ok 0, arrived d p))
        × (builtin_cd chdir executable monitor_command (codes "-" ∷ []) (arrived d p)
            ≡ (ok 0, arrived p.cwd (arrived d p)))
  unfolding builtin_cd
  cd-cd_back args t d p short short' target there back = (
    rw target (change_dir-arrived t d p short short' there),
    ap (λ t. change_dir chdir executable monitor_command t (arrived d p)) old
        ∙ change_dir-arrived p.cwd p.cwd (arrived d p) short' short back,
  )
    where
      old : cd_target (codes "-" ∷ []) (arrived d p) ≡ some p.cwd
      old = unfold cd_target str_eq in refl
