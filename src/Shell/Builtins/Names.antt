-- ===== src/Shell/Builtins/Names.antt =====
-- The names of the built-in commands in oscdsh/src/exec.c.
use ostd_final.Common.{◌≡◌, refl, inl, inr, List, [], ◌∷◌, Bool-cases}
use ostd_final.Common.Text.{Text, str_eq}
use ostd_final.Shell.Command.{is_one_of, is_builtin_cmd}
use ostd_final.Shell.Builtins.{Builtin, builtin_table, lookup_builtin, is_some}

abbrev names_of : List (Text × Builtin) → List Text
names_of [] = []
names_of ((name, b) ∷ more) = name ∷ names_of more

lookup-is_one_of :
    (table : List (Text × Builtin)) (cmd : Text)
    → is_some (lookup_builtin table cmd) ≡ is_one_of (names_of table) cmd
unfolding lookup_builtin is_one_of
lookup-is_one_of [] cmd = refl
lookup-is_one_of ((name, b) ∷ more) cmd = elim (Bool-cases (str_eq cmd name)) [
  | inl same ↦ rw same refl
  | inr other ↦ rw other (lookup-is_one_of more cmd)
]

-- The names that `is_builtin_cmd` knows are exactly those that `execute_builtin` finds.
pub is_builtin_cmd-lookup :
    (cmd : Text) → is_builtin_cmd cmd ≡ is_some (lookup_builtin builtin_table cmd)
unfolding is_builtin_cmd
is_builtin_cmd-lookup cmd = rw (lookup-is_one_of builtin_table cmd) refl
